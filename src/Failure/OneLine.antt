-- ===== src/Failure/OneLine.antt =====
-- Line ends in a failure's log line.
use augusta.Common.{
  ℕ, ◌≡◌, refl, Bool, true, not, ◌||◌, List, [], ◌∷◌, ◌++◌, All, ◌==◌, all_of, all_of-append, arith,
}
use augusta.Failure.{Code, ContextField, Failure}
use augusta.Failure.Log.{
  ascii, code_name, disposition_name, disposition_of, escape, escaped, quoted, is_plain, value_text,
  detail_text, context_text, describe_failure,
}

-- Not a carriage return or a line feed.
abbrev pub in_line : ℕ → Bool
in_line c = not (c == 10 || c == 13)

escaped-line : (t : List ℕ) → all_of in_line (escaped t) ≡ true
escaped-line [] = refl
escaped-line (c ∷ t) = ground (arith, all_of-append in_line (escape c) (escaped t), escaped-line t)

quoted-line : (t : List ℕ) → all_of in_line (quoted t) ≡ true
unfolding quoted
quoted-line t = ground (arith, all_of-append in_line (escaped t) (34 ∷ []), escaped-line t)

plain-line : (v : List ℕ) → all_of is_plain v ≡ true → all_of in_line v ≡ true
plain-line [] h = refl
plain-line (c ∷ v) h = ground (arith, plain-line v)

value_text-line : (v : List ℕ) → all_of in_line (value_text v) ≡ true
unfolding value_text
value_text-line v = ground (arith, plain-line v, quoted-line v)

context_text-line :
    (fs : List ContextField) (end : List ℕ)
    → All (λ c. all_of is_plain c.key ≡ true) fs
    → all_of in_line end ≡ true
    → all_of in_line (context_text fs end) ≡ true
context_text-line [] end plain h = h
context_text-line (f ∷ fs) end plain h = ground (
  arith,
  all_of-append in_line f.key (61 ∷ (value_text f.value ++ context_text fs end)),
  all_of-append in_line (value_text f.value) (context_text fs end),
  plain-line f.key plain.0,
  value_text-line f.value,
  context_text-line fs end plain.1 h,
)

detail_text-line : (d : List ℕ) → all_of in_line (detail_text d) ≡ true
detail_text-line [] = refl
detail_text-line (c ∷ d) = quoted-line (c ∷ d)

code_name-line : (c : Code) → all_of in_line (code_name c) ≡ true
code_name-line c = ground arith

disposition_name-line : (c : Code) → all_of in_line (disposition_name (disposition_of c)) ≡ true
unfolding disposition_of
disposition_name-line c = ground arith

-- Where every context key is plain, a failure's log line holds no line feed and no carriage return,
-- whatever its values and its detail hold.
pub describe_failure-line :
    (f : Failure)
    → All (λ c. all_of is_plain c.key ≡ true) f.context
    → all_of in_line (describe_failure f) ≡ true
unfolding describe_failure
describe_failure-line f plain =
    let context = context_text f.context (detail_text f.detail) in
    ground (
      arith,
      all_of-append in_line (code_name f.code)
          (ascii " disposition=" ++ (disposition_name (disposition_of f.code) ++ context)),
      all_of-append in_line (disposition_name (disposition_of f.code)) context,
      code_name-line f.code,
      disposition_name-line f.code,
      context_text-line f.context (detail_text f.detail) plain (detail_text-line f.detail),
    )
