-- ===== src/Capture/Order.antt =====
-- RecordOrder against the format's rule said of a whole file: every Join first, numbered from 1 and
-- at offset 0, then the events by rising offset, each naming players a Join did, nothing after the
-- Match end.
use native.Mathlib.Nat.{add-zero, zero-add}
use mathlib.Core.Bool.{false≢true}
use augusta.Common.{
  sym, ℕ, suc, ◌+◌, ◌≤◌, ◌≡◌, refl, ap, ◌∙◌, ◌↔◌, Bool, true, false, not, ◌&&◌, ◌||◌, none, some,
  List, [], ◌∷◌, ◌++◌, map, ◌==◌, length, arith, inl, inr, Bool-cases,
}
use augusta.Capture.{
  Join, Event, command, leave, death, match_end, EventAt, CaptureRecord, header, join, event,
  RecordOrder, fresh_order, admits_event, admits,
}

-- Whether each record of a file in turn may follow those before it.
unfoldable pub admits_all : RecordOrder → List CaptureRecord → Bool
admits_all o [] = true
admits_all o (r ∷ rs) = let (o', ok) = admits o r in ok && admits_all o' rs

abbrev pub Known : ℕ → ℕ → Type 0
Known joins player = (1 ≤ player) × (player ≤ joins)

-- The players that an event names are among the `joins` that joined.
abbrev pub Names : ℕ → Event → Type 0
Names joins (command c) = Known joins c.player
Names joins (leave player) = Known joins player
Names joins (death victim killer) = Known joins victim × Known joins killer
Names joins (match_end none) = Unit {0}
Names joins (match_end (some winner)) = Known joins winner

abbrev pub is_end : Event → Bool
is_end (match_end winner) = true
is_end _ = false

abbrev pub EventsInOrder : ℕ → ℕ → List EventAt → Type 0
EventsInOrder joins offset [] = Unit {0}
EventsInOrder joins offset (e ∷ es) =
    (offset ≤ e.offset)
    × Names joins e.event
    × (is_end e.event ≡ true → es ≡ [])
    × EventsInOrder joins e.offset es

-- The records of Joins, the first of them numbered after `n`.
abbrev pub join_records : ℕ → List Join → List CaptureRecord
join_records n [] = []
join_records n (j ∷ js) = join 0 (n + 1) j ∷ join_records (n + 1) js

abbrev pub records_of : List Join → List EventAt → List CaptureRecord
records_of js es = join_records 0 js ++ map event es

-- What an admitted event says of the order's state before and after.
record EventStep (o o' : RecordOrder) (e : EventAt) : Type 0 where
  open_before : o.ended ≡ false
  offset : o.last_offset ≤ e.offset
  names : Names o.joins e.event
  events : o'.events ≡ true
  last : o'.last_offset ≡ e.offset
  joins : o'.joins ≡ o.joins
  ended : o'.ended ≡ is_end e.event

admits_event-EventStep :
    (o : RecordOrder) (offset : ℕ) (e : Event)
    → (admits_event o offset e).1 ≡ true
    → EventStep o (admits_event o offset e).0 (record { offset = offset; event = e })
unfolding admits_event
admits_event-EventStep o offset (command c) h = ground arith
admits_event-EventStep o offset (leave p) h = ground arith
admits_event-EventStep o offset (death v k) h = ground arith
admits_event-EventStep o offset (match_end none) h = ground arith
admits_event-EventStep o offset (match_end (some w)) h = ground arith

EventStep-admits :
    (o : RecordOrder) (offset : ℕ) (e : Event)
    → o.ended ≡ false
    → o.last_offset ≤ offset
    → Names o.joins e
    → (admits_event o offset e).1 ≡ true
unfolding admits_event
EventStep-admits o offset (command c) d l n = ground arith
EventStep-admits o offset (leave p) d l n = ground arith
EventStep-admits o offset (death v k) d l n = ground arith
EventStep-admits o offset (match_end none) d l n = ground arith
EventStep-admits o offset (match_end (some w)) d l n = ground arith

and_true : (a b : Bool) → (a && b) ≡ true → (a ≡ true) × (b ≡ true)
and_true a b h = ground arith

-- The records left once an event has come.
abbrev EventsLeft : RecordOrder → List CaptureRecord → Type 0
EventsLeft o rs =
    (es : List EventAt) × (rs ≡ map event es)
    × (o.ended ≡ true → es ≡ [])
    × EventsInOrder o.joins o.last_offset es

EventsLeft-event :
    (o o' : RecordOrder) (e : EventAt) (rs : List CaptureRecord)
    → EventStep o o' e
    → EventsLeft o' rs
    → EventsLeft o (event e ∷ rs)
EventsLeft-event o o' e rs s (es, same, over, ordered) = (
  e ∷ es,
  ap (◌∷◌ (event e)) same,
  λ d. absurd (false≢true (sym s.open_before ∙ d)),
  (s.offset, s.names, λ d. over (s.ended ∙ d), rw (s.joins, s.last) at ordered),
)

admitted-EventsLeft :
    (o : RecordOrder) (rs : List CaptureRecord)
    → o.events ≡ true
    → admits_all o rs ≡ true
    → EventsLeft o rs
unfolding admits_all admits
admitted-EventsLeft o [] q h = ([], refl, λ _. refl, tt)
admitted-EventsLeft o (header x ∷ rs) q h = cc
admitted-EventsLeft o (join offset p j ∷ rs) q h = absurd (ground arith)
admitted-EventsLeft o (event e ∷ rs) q h =
    let (ok, more) = and_true (admits_event o e.offset e.event).1 _ h in
    let s = admits_event-EventStep o e.offset e.event ok in
    EventsLeft-event o _ e rs s
      (admitted-EventsLeft (admits_event o e.offset e.event).0 rs s.events more)

-- The order's state after some Joins and no event.
abbrev joined : ℕ → RecordOrder
joined n = record { joins = n; events = false; last_offset = 0; ended = false }

abbrev FileLeft : ℕ → List CaptureRecord → Type 0
FileLeft n rs =
    (js : List Join) × (es : List EventAt) × (rs ≡ join_records n js ++ map event es)
    × EventsInOrder (n + length js) 0 es

FileLeft-join :
    (n p offset : ℕ) (j : Join) (rs : List CaptureRecord)
    → offset ≡ 0
    → p ≡ n + 1
    → FileLeft (n + 1) rs
    → FileLeft n (join offset p j ∷ rs)
FileLeft-join n p offset j rs z q (js, es, same, ordered) =
    let count : n + 1 + length js ≡ n + suc (length js) = omega arith in
    (j ∷ js, es, rw (z, q, same), rw count at ordered)

admits_all-join :
    (n p offset : ℕ) (j : Join) (rs : List CaptureRecord)
    → admits_all (joined n) (join offset p j ∷ rs) ≡ true
    → (offset ≡ 0) × (p ≡ n + 1) × (admits_all (joined (n + 1)) rs ≡ true)
unfolding admits_all admits
admits_all-join n p offset j rs h = elim (Bool-cases (not (offset == 0) || not (p == n + 1))) [
  | inl bad ↦ absurd (false≢true (rw bad at h))
  | inr good ↦ (ground arith, ground arith, rw good at h)
]

admitted-FileLeft :
    (n : ℕ) (rs : List CaptureRecord) → admits_all (joined n) rs ≡ true → FileLeft n rs
unfolding admits_all admits
admitted-FileLeft n [] h = ([], [], refl, tt)
admitted-FileLeft n (header x ∷ rs) h = cc
admitted-FileLeft n (join offset p j ∷ rs) h =
    let (z, q, more) = admits_all-join n p offset j rs h in
    FileLeft-join n p offset j rs z q (admitted-FileLeft (n + 1) rs more)
admitted-FileLeft n (event e ∷ rs) h =
    let (ok, more) = and_true (admits_event (joined n) e.offset e.event).1 _ h in
    let s = admits_event-EventStep (joined n) e.offset e.event ok in
    let (es, same, over, ordered) =
      EventsLeft-event (joined n) _ e rs s
        (admitted-EventsLeft (admits_event (joined n) e.offset e.event).0 rs s.events more) in
    ([], es, same, rw add-zero ordered)

not_ended :
    (o : RecordOrder) (e : EventAt) (es : List EventAt)
    → (o.ended ≡ true → e ∷ es ≡ [])
    → o.ended ≡ false
not_ended o e es over = elim (Bool-cases o.ended) [
  | inl d ↦ let none_left = over d in cc none_left
  | inr going ↦ going
]

events-admitted :
    (o : RecordOrder) (es : List EventAt)
    → (o.ended ≡ true → es ≡ [])
    → EventsInOrder o.joins o.last_offset es
    → admits_all o (map event es) ≡ true
unfolding admits_all admits
events-admitted o [] over ordered = refl
events-admitted o (e ∷ es) over ordered =
    let going : o.ended ≡ false = not_ended o e es over in
    let ok = EventStep-admits o e.offset e.event going ordered.0 ordered.1 in
    let s = admits_event-EventStep o e.offset e.event ok in
    let rest =
      events-admitted (admits_event o e.offset e.event).0 es (λ d. ordered.2 (sym s.ended ∙ d))
        (rw (s.joins, s.last) ordered.3) in
    rw (ok, rest)

joins-admitted :
    (n : ℕ) (js : List Join) (es : List EventAt)
    → EventsInOrder (n + length js) 0 es
    → admits_all (joined n) (join_records n js ++ map event es) ≡ true
unfolding admits_all admits
joins-admitted n [] es ordered = events-admitted (joined n) es (λ d. cc) (rw add-zero at ordered)
joins-admitted n (j ∷ js) es ordered =
    let count : n + 1 + length js ≡ n + suc (length js) = omega arith in
    ground (arith, joins-admitted (n + 1) js es (rw count ordered))

-- Records are all admitted in turn exactly when they are Joins at offset 0 numbered from 1, then
-- events by offset that never falls, each naming only players that joined, with nothing after a
-- Match end.
pub admits_all_iff :
    (rs : List CaptureRecord)
    → (admits_all fresh_order rs ≡ true) ↔ (
        (js : List Join) × (es : List EventAt) × (rs ≡ records_of js es)
        × EventsInOrder (length js) 0 es)
admits_all_iff rs = (
  λ h.
      let (js, es, same, ordered) = admitted-FileLeft 0 rs h in
      (js, es, same, rw zero-add at ordered),
  λ (js, es, same, ordered). rw same (joins-admitted 0 js es (rw zero-add ordered)),
)
