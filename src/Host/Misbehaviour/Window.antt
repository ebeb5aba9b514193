-- ===== src/Host/Misbehaviour/Window.antt =====
-- The tracker against a count over the whole history.
use augusta.Common.{
  ℕ, suc, ◌+◌, ◌-◌, ◌≤◌, ◌<◌, ◌≡◌, refl, ◌∙◌, Bool, ◌&&◌, List, [], ◌∷◌, ◌++◌, leb, ltb,
  if◌then◌else◌, length, length-append, arith,
}
use augusta.Host.Misbehaviour.{
  PeerRejection, is_misbehaviour, misbehaviour_window, misbehaviour_threshold, keep, disconnect,
  MisbehaviourTracker, fresh_tracker, pop_expired, record_rejection,
}

-- Whether a misbehaviour at `t` still counts at `now`.
abbrev pub counts : ℕ → ℕ → Bool
counts now t = ltb (now - t) misbehaviour_window

-- How many times of a list still count.
abbrev pub counting : ℕ → List ℕ → ℕ
counting now [] = 0
counting now (t ∷ ts) = let rest = counting now ts in if counts now t then suc rest else rest

-- The times of the misbehaviours of a history.
abbrev pub misbehaved : List (PeerRejection × ℕ) → List ℕ
misbehaved [] = []
misbehaved ((r, t) ∷ h) = let rest = misbehaved h in if is_misbehaviour r then t ∷ rest else rest

-- The times do not fall along a list, and none is below the bound.
abbrev pub Ascending : ℕ → List ℕ → Type 0
Ascending a [] = Unit {0}
Ascending a (t ∷ ts) = (a ≤ t) × Ascending t ts

-- No time of the list is after `now`.
abbrev pub Past : ℕ → List ℕ → Type 0
Past now [] = Unit {0}
Past now (t ∷ ts) = (t ≤ now) × Past now ts

all_count :
    (now a : ℕ) (ts : List ℕ)
    → now - a < misbehaviour_window
    → Ascending a ts
    → counting now ts ≡ length ts
all_count now a [] h s = refl
all_count now a (t ∷ ts) h s = ground (arith, all_count now t ts)

length-pop_expired :
    (now a : ℕ) (ts : List ℕ) → Ascending a ts → length (pop_expired now ts) ≡ counting now ts
unfolding pop_expired
length-pop_expired now a [] s = refl
length-pop_expired now a (t ∷ ts) s =
    ground (arith, length-pop_expired now t ts s.1, all_count now t ts)

Ascending-mono : (a b : ℕ) (ts : List ℕ) → a ≤ b → Ascending b ts → Ascending a ts
Ascending-mono a b [] h s = tt
Ascending-mono a b (t ∷ ts) h s = (omega arith, s.1)

pop_expired-Ascending :
    (now a : ℕ) (ts : List ℕ) → Ascending a ts → Ascending a (pop_expired now ts)
unfolding pop_expired
pop_expired-Ascending now a [] s = tt
pop_expired-Ascending now a (t ∷ ts) s =
    let rest = Ascending-mono a t (pop_expired now ts) s.0 (pop_expired-Ascending now t ts s.1) in
    ground (arith, rest)

pop_expired-Past : (now b : ℕ) (ts : List ℕ) → Past b ts → Past b (pop_expired now ts)
unfolding pop_expired
pop_expired-Past now b [] s = tt
pop_expired-Past now b (t ∷ ts) s = ground (arith, pop_expired-Past now b ts s.1)

Past-mono : (b k : ℕ) (ts : List ℕ) → b ≤ k → Past b ts → Past k ts
Past-mono b k [] h s = tt
Past-mono b k (t ∷ ts) h s = (omega arith, Past-mono b k ts h s.1)

Past-append : (b t : ℕ) (ts : List ℕ) → t ≤ b → Past b ts → Past b (ts ++ t ∷ [])
Past-append b t [] h s = (h, tt)
Past-append b t (x ∷ ts) h s = (s.0, Past-append b t ts h s.1)

Ascending-append :
    (a t : ℕ) (ts : List ℕ) → a ≤ t → Past t ts → Ascending a ts → Ascending a (ts ++ t ∷ [])
Ascending-append a t [] h p s = (h, tt)
Ascending-append a t (x ∷ ts) h p s = (s.0, Ascending-append x t ts p.0 p.1 s.1)

counting-append :
    (now : ℕ) (xs ys : List ℕ) → counting now (xs ++ ys) ≡ counting now xs + counting now ys
counting-append now [] ys = omega arith
counting-append now (x ∷ xs) ys = ground (arith, counting-append now xs ys)

-- What is popped at `now` counts no more at any later time.
counting-pop_expired :
    (now later : ℕ) (ts : List ℕ)
    → now ≤ later
    → counting later (pop_expired now ts) ≡ counting later ts
unfolding pop_expired
counting-pop_expired now later [] h = refl
counting-pop_expired now later (t ∷ ts) h = ground (arith, counting-pop_expired now later ts h)

-- The tracker after a history of rejections, oldest first.
pub track : MisbehaviourTracker → List (PeerRejection × ℕ) → MisbehaviourTracker
track tracker [] = tracker
track tracker ((r, t) ∷ h) = track (record_rejection tracker r t).0 h

-- The times of a history do not fall, from `a` to `now`.
abbrev pub Chronological : ℕ → List (PeerRejection × ℕ) → ℕ → Type 0
Chronological a [] now = a ≤ now
Chronological a ((r, t) ∷ h) now = (a ≤ t) × Chronological t h now

Chronological-le :
    (a : ℕ) (h : List (PeerRejection × ℕ)) (now : ℕ) → Chronological a h now → a ≤ now
Chronological-le a [] now c = c
Chronological-le a ((r, t) ∷ h) now c = omega (arith, Chronological-le t h now c.1)

-- A tracker whose times are in order and none after `b`.
record Ordered (tracker : MisbehaviourTracker) (b : ℕ) : Type 0 where
  ascending : Ascending 0 tracker.recent
  past : Past b tracker.recent

record_rejection-Ordered :
    (tracker : MisbehaviourTracker) (r : PeerRejection) (b t : ℕ)
    → b ≤ t
    → Ordered tracker b
    → Ordered (record_rejection tracker r t).0 t
unfolding record_rejection
record_rejection-Ordered tracker r b t h o = ground (
  arith,
  Past-mono b t tracker.recent h o.past,
  pop_expired-Past t t tracker.recent,
  Past-append t t (pop_expired t tracker.recent),
  Ascending-append 0 t (pop_expired t tracker.recent),
  pop_expired-Ascending t 0 tracker.recent o.ascending,
)

counting-record_rejection :
    (tracker : MisbehaviourTracker) (r : PeerRejection) (t later : ℕ) (h : List (PeerRejection × ℕ))
    → t ≤ later
    → counting later (record_rejection tracker r t).0.recent + counting later (misbehaved h)
      ≡ counting later tracker.recent + counting later (misbehaved ((r, t) ∷ h))
unfolding record_rejection
counting-record_rejection tracker r t later h le = ground (
  arith,
  counting-append later (pop_expired t tracker.recent) (t ∷ []),
  counting-pop_expired t later tracker.recent le,
)

track_lem :
    (tracker : MisbehaviourTracker) (h : List (PeerRejection × ℕ)) (a now : ℕ)
    → Ordered tracker a
    → Chronological a h now
    → Ordered (track tracker h) now
      × (counting now (track tracker h).recent
          ≡ counting now tracker.recent + counting now (misbehaved h))
unfolding track
track_lem tracker [] a now o c = (
  record { ascending = o.ascending; past = Past-mono a now tracker.recent c o.past },
  omega arith,
)
track_lem tracker ((r, t) ∷ h) a now o c =
    let next = record_rejection-Ordered tracker r a t c.0 o in
    let rest = track_lem (record_rejection tracker r t).0 h t now next c.1 in
    (rest.0, rest.1 ∙ counting-record_rejection tracker r t now h (Chronological-le t h now c.1))

-- After any history of rejections in time order, a rejection disconnects its peer exactly when it
-- is a misbehaviour and makes sixteen together with those of the whole history that are less than
-- five seconds old.
pub record_rejection-verdict :
    (h : List (PeerRejection × ℕ)) (r : PeerRejection) (now : ℕ)
    → Chronological 0 h now
    → (record_rejection (track fresh_tracker h) r now).1 ≡ (
        if is_misbehaviour r && leb misbehaviour_threshold (suc (counting now (misbehaved h)))
        then disconnect
        else keep)
unfolding record_rejection
record_rejection-verdict h r now c =
    let facts = track_lem fresh_tracker h 0 now (record { ascending = tt; past = tt }) c in
    ground (
      arith,
      facts.1,
      length-pop_expired now 0 (track fresh_tracker h).recent facts.0.ascending,
      length-append (pop_expired now (track fresh_tracker h).recent) (now ∷ []),
    )
