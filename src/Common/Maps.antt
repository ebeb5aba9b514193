-- ===== src/Common/Maps.antt =====
-- std::unordered_map and std::unordered_set with number keys, as association lists. Iteration order
-- is unspecified in C++; here it is the list's.
use Prim.Native.Nat.{ℕ, suc, ◌≤◌}
use mathlib.Core.Path.{◌≡◌, refl, ap, subst}
use mathlib.Core.Logic.{inl, inr}
use mathlib.Core.List.{List, [], ◌∷◌}
use mathlib.Core.Option.{Option, none, some}
use native.Mathlib.Omega.{arith}
use augusta.Common.Tests.{◌==◌, if◌then◌else◌, Bool-cases}
use augusta.Common.Lists.{length, All}

module _ {ℓ} {V : Type ℓ} where
  unfoldable pub lookup : ℕ → List (ℕ × V) → Option V
  lookup k [] = none
  lookup k ((j, v) ∷ m) = if j == k then some v else lookup k m

  -- erase(key): no entry of the key is left.
  unfoldable pub erase : ℕ → List (ℕ × V) → List (ℕ × V)
  erase k [] = []
  erase k ((j, v) ∷ m) = let rest = erase k m in if j == k then rest else (j, v) ∷ rest

  -- A write through the iterator of the entry: nothing if the key is absent.
  unfoldable pub modify : ℕ → (V → V) → List (ℕ × V) → List (ℕ × V)
  modify k f [] = []
  modify k f ((j, v) ∷ m) = (j, if j == k then f v else v) ∷ modify k f m

  -- insert_or_assign.
  unfoldable pub assign : ℕ → V → List (ℕ × V) → List (ℕ × V)
  unfolding erase
  assign k v m = (k, v) ∷ erase k m

  -- No key stands twice.
  abbrev pub IsMap : List (ℕ × V) → Type ℓ
  IsMap [] = Unit
  IsMap ((j, v) ∷ m) = (lookup j m ≡ none) × IsMap m

module _ {ℓ} {V : Type ℓ} where
  pub lookup-erase :
      (k j : ℕ) (m : List (ℕ × V)) → lookup j (erase k m) ≡ (if k == j then none else lookup j m)
  unfolding lookup erase
  lookup-erase k j [] = ground arith
  lookup-erase k j ((i, v) ∷ m) = ground (arith, lookup-erase k j m)

  pub lookup-modify :
      (k j : ℕ) (f : V → V) (m : List (ℕ × V))
      → lookup j (modify k f m)
        ≡ (if k == j then elim (lookup j m) [ none ↦ none | some v ↦ some (f v) ] else lookup j m)
  unfolding lookup modify
  lookup-modify k j f [] = ground arith
  lookup-modify k j f ((i, v) ∷ m) = ground (arith, lookup-modify k j f m)

  pub lookup-assign :
      (k j : ℕ) (v : V) (m : List (ℕ × V))
      → lookup j (assign k v m) ≡ (if k == j then some v else lookup j m)
  unfolding lookup assign
  lookup-assign k j v m = ground (arith, lookup-erase k j m)

  pub erase-absent : (k : ℕ) (m : List (ℕ × V)) → lookup k m ≡ none → erase k m ≡ m
  unfolding lookup erase
  erase-absent k [] h = refl
  erase-absent k ((j, v) ∷ m) h = ground (arith, erase-absent k m)

  pub length-erase :
      (k : ℕ) (v : V) (m : List (ℕ × V))
      → IsMap m
      → lookup k m ≡ some v
      → suc (length (erase k m)) ≡ length m
  unfolding lookup erase
  length-erase k v [] u h = ground arith
  length-erase k v ((j, w) ∷ m) u h = ground (arith, length-erase k v m u.1, erase-absent k m)

  pub length-erase-le : (k : ℕ) (m : List (ℕ × V)) → length (erase k m) ≤ length m
  unfolding erase
  length-erase-le k [] = omega arith
  length-erase-le k ((j, v) ∷ m) = ground (arith, length-erase-le k m)

  pub length-modify : (k : ℕ) (f : V → V) (m : List (ℕ × V)) → length (modify k f m) ≡ length m
  unfolding modify
  length-modify k f [] = refl
  length-modify k f ((j, v) ∷ m) = ap suc (length-modify k f m)

  pub erase-IsMap : (k : ℕ) (m : List (ℕ × V)) → IsMap m → IsMap (erase k m)
  unfolding erase
  erase-IsMap k [] u = tt
  erase-IsMap k ((j, v) ∷ m) u = ground (arith, erase-IsMap k m u.1, lookup-erase k j m)

  pub modify-IsMap : (k : ℕ) (f : V → V) (m : List (ℕ × V)) → IsMap m → IsMap (modify k f m)
  unfolding modify
  modify-IsMap k f [] u = tt
  modify-IsMap k f ((j, v) ∷ m) u = ground (arith, modify-IsMap k f m u.1, lookup-modify k j f m)

  pub All-erase {κ} :
      (P : (ℕ × V) → Type κ) (k : ℕ) (m : List (ℕ × V)) → All P m → All P (erase k m)
  unfolding erase
  All-erase P k [] h = tt
  All-erase P k ((j, v) ∷ m) h = ground (arith, All-erase P k m h.1)

  pub All-modify {κ} :
      (P : V → Type κ) (k : ℕ) (f : V → V) (m : List (ℕ × V))
      → ((v : V) → P v → P (f v))
      → All (λ e. P e.1) m
      → All (λ e. P e.1) (modify k f m)
  unfolding modify
  All-modify P k f [] g h = tt
  All-modify P k f ((j, v) ∷ m) g h = ground (arith, All-modify P k f m g h.1, g v h.0)

  pub All-lookup {κ} :
      (P : V → Type κ) (k : ℕ) (m : List (ℕ × V)) {v : V}
      → All (λ e. P e.1) m
      → lookup k m ≡ some v
      → P v
  unfolding lookup
  All-lookup P k [] h e = cc
  All-lookup P k ((j, w) ∷ m) h e = elim (Bool-cases (j == k)) [
    | inl hit ↦ subst P (cc (rw (hit, lookup) at e)) h.0
    | inr miss ↦ All-lookup P k m h.1 (rw (miss, lookup) at e)
  ]
