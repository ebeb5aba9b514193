-- ===== src/Host/Commands/Handing.antt =====
-- What the ticks of a queue are handed.
use mathlib.Core.Path.{subst}
use augusta.Common.{
  Expected, ℕ, ◌≤◌, ◌<◌, ◌≡◌, refl, sym, ap, ◌∙◌, true, false, List, [], ◌∷◌, ◌++◌, arith, inl, inr,
  Option-cases, Bool-cases, if◌then◌else◌, value, unexpected, Vec3, length, ltb, some, none,
}
use augusta.Host.Commands.{
  Rejection, Enqueued, CommandQueue, SequencedCommand, TickCommand, max_queued_commands, validate,
  offer, try_enqueue, next, next_queued, hold, pop_front,
}
use augusta.Host.Commands.Order.{
  Sequenced, Inv, Call, offers, takes, handed, step, try_enqueue-Inv, next-Inv,
}

-- Each tick acknowledges no less than the one before, and one that was handed a command its client
-- sent acknowledges more: that command's sequence.
abbrev pub Acknowledging : ℕ → List TickCommand → Type 0
Acknowledging a [] = Unit {0}
Acknowledging a (t ∷ ts) =
    (a ≤ t.acknowledged_sequence)
    × (t.sent ≡ true → a < t.acknowledged_sequence)
    × (t.sent ≡ false → t.acknowledged_sequence ≡ a)
    × Acknowledging t.acknowledged_sequence ts

next_queued-acknowledges :
    (q : CommandQueue) (cs : List SequencedCommand)
    → Sequenced q.acknowledged cs q.last_offered
    → let (q', t) = next_queued q cs in
      (q'.acknowledged ≡ t.acknowledged_sequence)
      × (q.acknowledged ≤ t.acknowledged_sequence)
      × (t.sent ≡ true → q.acknowledged < t.acknowledged_sequence)
      × (t.sent ≡ false → t.acknowledged_sequence ≡ q.acknowledged)
unfolding next_queued
next_queued-acknowledges q [] s = ground arith
next_queued-acknowledges q (c ∷ cs) s = ground arith

offer-acknowledged :
    (len : Vec3 → ℕ) (q : CommandQueue) (c : SequencedCommand)
    → (try_enqueue len q c).0.acknowledged ≡ q.acknowledged
unfolding try_enqueue offer
offer-acknowledged len q c = ground arith

handed-Acknowledging :
    (len : Vec3 → ℕ) (q : CommandQueue) (cs : List Call)
    → Inv q
    → Acknowledging q.acknowledged (handed len q cs)
unfolding handed step next
handed-Acknowledging len q [] v = tt
handed-Acknowledging len q (offers c ∷ cs) v =
    rw (offer-acknowledged len q c) at
      (handed-Acknowledging len (try_enqueue len q c).0 cs (try_enqueue-Inv len q c v))
handed-Acknowledging len q (takes ∷ cs) v =
    let fact = next_queued-acknowledges q q.queue v.ordered in
    let rest = handed-Acknowledging len (next q).0 cs (next-Inv q v) in
    (fact.1, fact.2, fact.3, rw fact.0 at rest)

-- The commands that a sequence of calls takes in, oldest first.
abbrev pub accepted : (Vec3 → ℕ) → CommandQueue → List Call → List SequencedCommand
accepted len q [] = []
accepted len q (offers c ∷ cs) =
    let rest = accepted len (try_enqueue len q c).0 cs in
    elim (try_enqueue len q c).1 [ value how ↦ c ∷ rest | unexpected why ↦ rest ]
accepted len q (takes ∷ cs) = accepted len (next q).0 cs

-- The commands of the ticks that were handed one their client sent, each under what it acknowledges.
abbrev pub sent_of : List TickCommand → List SequencedCommand
sent_of [] = []
sent_of (t ∷ ts) =
    let rest = sent_of ts in
    if t.sent
    then record { sequence = t.acknowledged_sequence; command = t.command } ∷ rest
    else rest

-- The first list is the second with some of it left out.
pub data Within : List SequencedCommand → List SequencedCommand → Type 0 where
  finished : (ys : List SequencedCommand) → Within [] ys
  left_out :
      (xs : List SequencedCommand) (y : SequencedCommand) (ys : List SequencedCommand)
      → Within xs ys
      → Within xs (y ∷ ys)
  kept :
      (x : SequencedCommand) (xs ys : List SequencedCommand)
      → Within xs ys
      → Within (x ∷ xs) (x ∷ ys)

pop_front-Within :
    (xs ys zs : List SequencedCommand) → Within xs (pop_front ys ++ zs) → Within xs (ys ++ zs)
pop_front-Within xs [] zs w = w
pop_front-Within xs (y ∷ ys) zs w = left_out xs y (ys ++ zs) w

grown : (ys zs : List SequencedCommand) (c : SequencedCommand) → (ys ++ c ∷ []) ++ zs ≡ ys ++ c ∷ zs
grown [] zs c = refl
grown (y ∷ ys) zs c = ap (◌∷◌ y) (grown ys zs c)

offer-Within :
    (q : CommandQueue) (c : SequencedCommand) (xs rest : List SequencedCommand)
    → Within xs ((offer q c).0.queue ++ rest)
    → Within xs (q.queue ++ c ∷ rest)
unfolding offer
offer-Within q c xs rest w =
    let all = q.queue ++ c ∷ [] in
    elim (Bool-cases (ltb max_queued_commands (length all))) [
      | inl over ↦ rw (grown q.queue rest c) at (pop_front-Within xs all rest (rw over at w))
      | inr fits ↦ rw (grown q.queue rest c) at (rw fits at w)
    ]

dry_queue-next :
    (q : CommandQueue)
    → ((next_queued q []).0.queue ≡ q.queue) × ((next_queued q []).1.sent ≡ false)
unfolding next_queued hold
dry_queue-next q = ground arith

next_queued-sent :
    (q : CommandQueue) (cs ys : List SequencedCommand) (ts : List TickCommand)
    → Within (sent_of ts) ((next_queued q cs).0.queue ++ ys)
    → q.queue ≡ cs
    → Within (sent_of ((next_queued q cs).1 ∷ ts)) (cs ++ ys)
unfolding next_queued
next_queued-sent q (c ∷ cs) ys ts w e = kept c (sent_of ts) (cs ++ ys) w
next_queued-sent q [] ys ts w e =
    let (same, idle) = dry_queue-next q in
    rw idle (subst (λ x. Within (sent_of ts) (x ++ ys)) (same ∙ e) w)

offers-taken :
    (len : Vec3 → ℕ) (q : CommandQueue) (c : SequencedCommand)
    → validate len c q.last_offered ≡ none
    → try_enqueue len q c ≡ ((offer q c).0, value (offer q c).1)
unfolding try_enqueue
offers-taken len q c ok = ground arith

offers-refused :
    (len : Vec3 → ℕ) (q : CommandQueue) (c : SequencedCommand) (why : Rejection)
    → validate len c q.last_offered ≡ some why
    → try_enqueue len q c ≡ (q, unexpected why)
unfolding try_enqueue
offers-refused len q c why bad = ground arith

-- The claim below of an offer's outcome.
abbrev OfferWithin :
    (Vec3 → ℕ)
    → CommandQueue
    → SequencedCommand
    → List Call
    → CommandQueue × Expected Enqueued Rejection
    → Type 0
OfferWithin len q c cs (after, answer) =
    let rest = accepted len after cs in
    Within (sent_of (handed len after cs))
      (q.queue ++ elim answer [ value how ↦ c ∷ rest | unexpected why ↦ rest ])

handed-Within :
    (len : Vec3 → ℕ) (q : CommandQueue) (cs : List Call)
    → Within (sent_of (handed len q cs)) (q.queue ++ accepted len q cs)
unfolding handed step next
handed-Within len q [] = finished (q.queue ++ [])
handed-Within len q (offers c ∷ cs) =
    let rest = handed-Within len (try_enqueue len q c).0 cs in
    elim (Option-cases (validate len c q.last_offered)) [
      | inl ok ↦
          let took = offers-taken len q c ok in
          subst (OfferWithin len q c cs) (sym took) (
            offer-Within q c _ _ (
              subst (λ r. Within (sent_of (handed len r.0 cs)) (r.0.queue ++ accepted len r.0 cs))
                took rest))
      | inr (why, bad) ↦
          let refused = offers-refused len q c why bad in
          subst (OfferWithin len q c cs) (sym refused) (
            subst (λ r. Within (sent_of (handed len r.0 cs)) (r.0.queue ++ accepted len r.0 cs))
              refused rest)
    ]
handed-Within len q (takes ∷ cs) =
    next_queued-sent q q.queue (accepted len (next q).0 cs) (handed len (next q).0 cs)
      (handed-Within len (next q).0 cs) refl

-- Over any history of offers and ticks from a queue under its invariant, the ticks that are handed
-- a command their client sent get those that were queued before and then those that were taken in,
-- in their order, each under its own sequence and none twice, some of them left out; such a tick
-- acknowledges more than the one before and every other acknowledges the same.
pub handed_lem :
    (len : Vec3 → ℕ) (q : CommandQueue) (cs : List Call)
    → Inv q
    → Within (sent_of (handed len q cs)) (q.queue ++ accepted len q cs)
      × Acknowledging q.acknowledged (handed len q cs)
handed_lem len q cs v = (handed-Within len q cs, handed-Acknowledging len q cs v)
