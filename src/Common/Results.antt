-- ===== src/Common/Results.antt =====
-- std::expected: a value, or why there is none.
pub data Expected {ℓ κ} (A : Type ℓ) (E : Type κ) : Type (ℓ ⊔ κ) where
  value : A → Expected A E
  unexpected : E → Expected A E

infixl 5 ◌>>=◌
abbrev pub ◌>>=◌ {ℓ κ μ} :
    {A : Type ℓ} {B : Type κ} {E : Type μ} → Expected A E → (A → Expected B E) → Expected B E
value a >>= f = f a
unexpected e >>= f = unexpected e
