-- ===== src/Common/Sorting.antt =====
-- std::ranges::sort by a number projected out of each element, as insertion sort.
use Prim.Native.Nat.{ℕ, suc, ◌≤◌}
use mathlib.Core.Path.{◌≡◌, refl}
use mathlib.Core.List.{List, [], ◌∷◌, Perm}
use mathlib.Core.List.Perm
use mathlib.Core.Logic.{◌≢◌, inl, inr}
use native.Mathlib.Omega.{arith}
use augusta.Common.Tests.{leb, if◌then◌else◌, Bool-cases}
use augusta.Common.Lists.{length, All}

module _ {ℓ} {A : Type ℓ} (key : A → ℕ) where
  unfoldable pub insert_by : A → List A → List A
  insert_by a [] = a ∷ []
  insert_by a (x ∷ xs) =
      let rest = insert_by a xs in if leb (key a) (key x) then a ∷ x ∷ xs else x ∷ rest

  unfoldable pub sort_by : List A → List A
  unfolding insert_by
  sort_by [] = []
  sort_by (x ∷ xs) = insert_by x (sort_by xs)

  -- Every key is above the bound and they rise along the list.
  abbrev pub Rising : ℕ → List A → Type 0
  Rising n [] = Unit {0}
  Rising n (x ∷ xs) = (n ≤ key x) × Rising (suc (key x)) xs

  insert_by-perm : (a : A) (xs : List A) → Perm (insert_by a xs) (a ∷ xs)
  unfolding insert_by
  insert_by-perm a [] = Perm.refl (a ∷ [])
  insert_by-perm a (x ∷ xs) = elim (Bool-cases (leb (key a) (key x))) [
    | inl le ↦ rw le (Perm.refl (a ∷ x ∷ xs))
    | inr gt ↦ rw gt (Perm.trans (Perm.cons x (insert_by-perm a xs)) (Perm.swap a x xs))
  ]

  -- Sorting loses nothing and makes nothing up.
  pub sort_by-perm : (xs : List A) → Perm (sort_by xs) xs
  unfolding sort_by
  sort_by-perm [] = Perm.refl []
  sort_by-perm (x ∷ xs) = Perm.trans (insert_by-perm x (sort_by xs)) (Perm.cons x (sort_by-perm xs))

  pub length-insert_by : (a : A) (xs : List A) → length (insert_by a xs) ≡ suc (length xs)
  unfolding insert_by
  length-insert_by a [] = refl
  length-insert_by a (x ∷ xs) = ground (arith, length-insert_by a xs)

  pub length-sort_by : (xs : List A) → length (sort_by xs) ≡ length xs
  unfolding sort_by
  length-sort_by [] = refl
  length-sort_by (x ∷ xs) = omega (arith, length-insert_by x (sort_by xs), length-sort_by xs)

  -- No element of the list has the key.
  abbrev pub Unused : ℕ → List A → Type 0
  Unused k [] = Unit {0}
  Unused k (x ∷ xs) = (k ≢ key x) × Unused k xs

  abbrev pub DistinctKeys : List A → Type 0
  DistinctKeys [] = Unit {0}
  DistinctKeys (x ∷ xs) = Unused (key x) xs × DistinctKeys xs

  insert_by-Unused :
      (k : ℕ) (a : A) (xs : List A) → k ≢ key a → Unused k xs → Unused k (insert_by a xs)
  unfolding insert_by
  insert_by-Unused k a [] h u = (h, tt)
  insert_by-Unused k a (x ∷ xs) h u = ground (arith, insert_by-Unused k a xs h u.1)

  sort_by-Unused : (k : ℕ) (xs : List A) → Unused k xs → Unused k (sort_by xs)
  unfolding sort_by
  sort_by-Unused k [] u = tt
  sort_by-Unused k (x ∷ xs) u = insert_by-Unused k x (sort_by xs) u.0 (sort_by-Unused k xs u.1)

  insert_by-Rising :
      (n : ℕ) (a : A) (xs : List A)
      → n ≤ key a
      → Rising n xs
      → Unused (key a) xs
      → Rising n (insert_by a xs)
  unfolding insert_by
  insert_by-Rising n a [] h r u = (h, tt)
  insert_by-Rising n a (x ∷ xs) h r u = ground (arith, insert_by-Rising (suc (key x)) a xs)

  -- The keys of a sorted list of distinct keys rise strictly.
  pub sort_by-Rising : (xs : List A) → DistinctKeys xs → Rising 0 (sort_by xs)
  unfolding sort_by
  sort_by-Rising [] d = tt
  sort_by-Rising (x ∷ xs) d =
      insert_by-Rising 0 x (sort_by xs) (omega arith) (sort_by-Rising xs d.1)
        (sort_by-Unused (key x) xs d.0)

  pub Rising-mono : {n k : ℕ} (xs : List A) → n ≤ k → Rising k xs → Rising n xs
  Rising-mono [] h r = tt
  Rising-mono (x ∷ xs) h r = (omega arith, r.1)

  All-insert_by {κ} :
      (P : A → Type κ) (a : A) (xs : List A) → P a → All P xs → All P (insert_by a xs)
  unfolding insert_by
  All-insert_by P a [] h k = (h, tt)
  All-insert_by P a (x ∷ xs) h k = elim (Bool-cases (leb (key a) (key x))) [
    | inl le ↦ rw (le, insert_by) (h, k)
    | inr gt ↦ rw (gt, insert_by) (k.0, All-insert_by P a xs h k.1)
  ]

  pub All-sort_by {κ} : (P : A → Type κ) (xs : List A) → All P xs → All P (sort_by xs)
  unfolding sort_by
  All-sort_by P [] h = tt
  All-sort_by P (x ∷ xs) h = All-insert_by P x (sort_by xs) h.0 (All-sort_by P xs h.1)

  All-insert_by_back {κ} :
      (P : A → Type κ) (a : A) (xs : List A) → All P (insert_by a xs) → P a × All P xs
  unfolding insert_by
  All-insert_by_back P a [] h = h
  All-insert_by_back P a (x ∷ xs) h = elim (Bool-cases (leb (key a) (key x))) [
    | inl le ↦ rw (le, insert_by) at h
    | inr gt ↦
        let k = All-insert_by_back P a xs (rw (gt, insert_by) at h).1 in
        (k.0, ((rw (gt, insert_by) at h).0, k.1))
  ]

  pub All-sort_by_back {κ} : (P : A → Type κ) (xs : List A) → All P (sort_by xs) → All P xs
  unfolding sort_by
  All-sort_by_back P [] h = tt
  All-sort_by_back P (x ∷ xs) h =
      let k = All-insert_by_back P x (sort_by xs) h in (k.0, All-sort_by_back P xs k.1)
