-- ===== src/Host/Commands/Order.antt =====
-- The commands that a queue takes in and keeps.
use augusta.Common.{
  ℕ, ◌-◌, ◌≤◌, ◌<◌, ◌≡◌, refl, none, List, [], ◌∷◌, ◌++◌, length, length-append, drop, arith, inl,
  inr, Option-cases, Bool-cases, ltb, if◌then◌else◌, value, unexpected, Vec3,
}
use augusta.Host.Commands.{
  CommandQueue, SequencedCommand, TickCommand, stale, Enqueued, dropped_oldest, max_queued_commands,
  validate, offer, try_enqueue, next, next_queued, make_queue, pop_front,
}

-- The sequences of a list rise strictly from above `a`, and end at `b` at most.
abbrev pub Sequenced : ℕ → List SequencedCommand → ℕ → Type 0
Sequenced a [] b = a ≤ b
Sequenced a (c ∷ cs) b = (a < c.sequence) × Sequenced c.sequence cs b

pub record Inv (q : CommandQueue) : Type 0 where
  pub ordered : Sequenced q.acknowledged q.queue q.last_offered
  pub bounded : length q.queue ≤ max_queued_commands

pub make_queue-Inv : (rate : ℕ) → Inv (make_queue rate)
unfolding make_queue
make_queue-Inv rate = ground arith

Sequenced-append :
    (a b : ℕ) (cs : List SequencedCommand) (c : SequencedCommand)
    → Sequenced a cs b
    → b < c.sequence
    → Sequenced a (cs ++ c ∷ []) c.sequence
Sequenced-append a b [] c s h = (omega arith, omega arith)
Sequenced-append a b (d ∷ cs) c s h = (s.0, Sequenced-append d.sequence b cs c s.1 h)

Sequenced-mono :
    (a k b : ℕ) (cs : List SequencedCommand) → a ≤ k → Sequenced k cs b → Sequenced a cs b
Sequenced-mono a k b [] h s = omega arith
Sequenced-mono a k b (c ∷ cs) h s = (omega arith, s.1)

pop_front-Sequenced :
    (a b : ℕ) (cs : List SequencedCommand) → Sequenced a cs b → Sequenced a (pop_front cs) b
pop_front-Sequenced a b [] s = s
pop_front-Sequenced a b (c ∷ cs) s = Sequenced-mono a c.sequence b cs (omega (arith, s.0)) s.1

length-pop_front : (cs : List SequencedCommand) → length (pop_front cs) ≡ length cs - 1
length-pop_front [] = refl
length-pop_front (c ∷ cs) = omega arith

offer-Inv :
    (q : CommandQueue) (c : SequencedCommand)
    → q.last_offered < c.sequence
    → Inv q
    → Inv (offer q c).0
unfolding offer
offer-Inv q c h v =
    let grown = Sequenced-append q.acknowledged q.last_offered q.queue c v.ordered h in
    ground (
      arith,
      grown,
      pop_front-Sequenced q.acknowledged c.sequence (q.queue ++ c ∷ []) grown,
      length-pop_front (q.queue ++ c ∷ []),
      length-append q.queue (c ∷ []),
    )

validate-sequence :
    (len : Vec3 → ℕ) (c : SequencedCommand) (n : ℕ) → validate len c n ≡ none → n < c.sequence
unfolding validate
validate-sequence len c n h = ground arith

next_queued-Inv :
    (q : CommandQueue) (cs : List SequencedCommand)
    → q.queue ≡ cs
    → Inv q
    → Inv (next_queued q cs).0
unfolding next_queued
next_queued-Inv q [] e v = ground arith
next_queued-Inv q (c ∷ cs) e v = ground arith

pub next-Inv : (q : CommandQueue) → Inv q → Inv (next q).0
unfolding next
next-Inv q v = next_queued-Inv q q.queue refl v

module _ (len : Vec3 → ℕ) where
  -- Every call of the queue keeps its sequences rising, above the acknowledged one, at most sixteen.
  pub try_enqueue-Inv :
      (q : CommandQueue) (c : SequencedCommand) → Inv q → Inv (try_enqueue len q c).0
  unfolding try_enqueue
  try_enqueue-Inv q c v = elim (Option-cases (validate len c q.last_offered)) [
    | inl ok ↦ rw (ok, try_enqueue) (offer-Inv q c (validate-sequence len c q.last_offered ok) v)
    | inr (why, bad) ↦ rw (bad, try_enqueue) v
  ]

pub data Call : Type 0 where
  offers : SequencedCommand → Call
  takes : Call

module _ (len : Vec3 → ℕ) where
  unfoldable pub step : CommandQueue → Call → CommandQueue
  step q (offers c) = (try_enqueue len q c).0
  step q takes = (next q).0

  pub run : CommandQueue → List Call → CommandQueue
  run q [] = q
  run q (c ∷ cs) = run (step q c) cs

  -- What each tick of a sequence of calls was handed, oldest first.
  unfoldable pub handed : CommandQueue → List Call → List TickCommand
  handed q [] = []
  handed q (offers c ∷ cs) = handed (step q (offers c)) cs
  handed q (takes ∷ cs) = (next q).1 ∷ handed (step q takes) cs

  step-Inv : (q : CommandQueue) (c : Call) → Inv q → Inv (step q c)
  unfolding step
  step-Inv q (offers c) v = try_enqueue-Inv len q c v
  step-Inv q takes v = next-Inv q v

  -- Any history of offers and ticks keeps the queue at sixteen commands at most, their sequences
  -- rising strictly from above the acknowledged one to at most the last one offered.
  pub run-Inv : (q : CommandQueue) (cs : List Call) → Inv q → Inv (run q cs)
  unfolding run
  run-Inv q [] v = v
  run-Inv q (c ∷ cs) v = run-Inv (step q c) cs (step-Inv q c v)

enqueued-last_offered :
    (len : Vec3 → ℕ) (q : CommandQueue) (c : SequencedCommand) (how : Enqueued)
    → (try_enqueue len q c).1 ≡ value how
    → (try_enqueue len q c).0.last_offered ≡ c.sequence
unfolding try_enqueue offer
enqueued-last_offered len q c how ok = ground arith

try_enqueue-stale :
    (len : Vec3 → ℕ) (q : CommandQueue) (c : SequencedCommand)
    → c.sequence ≤ q.last_offered
    → try_enqueue len q c ≡ (q, unexpected stale)
unfolding try_enqueue validate
try_enqueue-stale len q c h = ground arith

-- A command that was taken in is stale when it is offered again, and the queue does not change.
pub try_enqueue-repeat :
    (len : Vec3 → ℕ) (q : CommandQueue) (c : SequencedCommand) (how : Enqueued)
    → (try_enqueue len q c).1 ≡ value how
    → try_enqueue len (try_enqueue len q c).0 c ≡ ((try_enqueue len q c).0, unexpected stale)
try_enqueue-repeat len q c how ok =
    try_enqueue-stale len (try_enqueue len q c).0 c
      (omega (arith, enqueued-last_offered len q c how ok))

pop_front-drop : (cs : List SequencedCommand) → pop_front cs ≡ drop 1 cs
pop_front-drop [] = refl
pop_front-drop (c ∷ cs) = refl

newest :
    (cs : List SequencedCommand)
    → length cs ≤ 17
    → (if ltb max_queued_commands (length cs) then pop_front cs else cs)
      ≡ drop (length cs - max_queued_commands) cs
newest cs h = elim (Bool-cases (ltb max_queued_commands (length cs))) [
  | inl over ↦ let one : length cs - 16 ≡ 1 = ground arith in rw (over, one) (pop_front-drop cs)
  | inr fits ↦ let zero : length cs - 16 ≡ 0 = ground arith in rw (fits, zero)
]

-- Under the invariant, an offer leaves queued the newest sixteen of the commands before it with its
-- own behind them, and only a queue of sixteen drops its oldest.
pub offer_lem :
    (q : CommandQueue) (c : SequencedCommand)
    → Inv q
    → ((offer q c).0.queue
        ≡ drop (length (q.queue ++ c ∷ []) - max_queued_commands) (q.queue ++ c ∷ []))
      × ((offer q c).1 ≡ dropped_oldest → length q.queue ≡ max_queued_commands)
unfolding offer
offer_lem q c v =
    let grown = q.queue ++ c ∷ [] in ground (arith, length-append q.queue (c ∷ []), newest grown)
