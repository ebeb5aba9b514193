-- ===== src/Failure/Reading.antt =====
-- A reader of a failure's log line, of its own, and what it makes of the line.
use augusta.Common.{
  ℕ, ◌≡◌, refl, sym, ap, ◌∙◌, true, not, Option, none, some, List, [], ◌∷◌, ◌++◌, All, ◌==◌,
  if◌then◌else◌, is_empty, all_of, arith, inl, inr, Bool-cases,
}
use augusta.Failure.{Code, ContextField, Failure}
use augusta.Failure.Log.{
  ascii, code_name, disposition_name, disposition_of, escaped, quoted, is_plain, value_text,
  detail_text, context_text, describe_failure,
}

-- Where a reader of logfmt is in a line: in a key, at its value, in a plain value, in a quoted one,
-- behind a backslash in it, behind its closing quote.
pub data Place : Type 0 where
  in_key : List ℕ → Place
  at_value : List ℕ → Place
  in_plain in_quotes behind_backslash closed : List ℕ → List ℕ → Place

abbrev Fields : Type 0
Fields = Option (List (List ℕ × List ℕ))

abbrev pub push : List ℕ → List ℕ → Fields → Fields
push k v none = none
push k v (some fs) = some ((k, v) ∷ fs)

-- What a backslash and a byte stand for.
abbrev pub unescape : ℕ → Option ℕ
unescape c =
    if c == 34
    then some 34
    else if c == 92
    then some 92
    else if c == 110
    then some 10
    else if c == 114
    then some 13
    else none

-- The keys and values of a line of logfmt from a place on, if it is one.
unfoldable pub read_fields : Place → List ℕ → Fields
read_fields (in_key k) [] = none
read_fields (in_key k) (c ∷ cs) =
    let value = read_fields (at_value k) cs in
    let more = read_fields (in_key (k ++ c ∷ [])) cs in if c == 61 then value else more
read_fields (at_value k) [] = none
read_fields (at_value k) (c ∷ cs) =
    let quotes = read_fields (in_quotes k []) cs in
    let plain = read_fields (in_plain k (c ∷ [])) cs in if c == 34 then quotes else plain
read_fields (in_plain k v) [] = some ((k, v) ∷ [])
read_fields (in_plain k v) (c ∷ cs) =
    let next = read_fields (in_key []) cs in
    let more = read_fields (in_plain k (v ++ c ∷ [])) cs in if c == 32 then push k v next else more
read_fields (in_quotes k v) [] = none
read_fields (in_quotes k v) (c ∷ cs) =
    let done = read_fields (closed k v) cs in
    let behind = read_fields (behind_backslash k v) cs in
    let more = read_fields (in_quotes k (v ++ c ∷ [])) cs in
    if c == 34 then done else if c == 92 then behind else more
read_fields (behind_backslash k v) [] = none
read_fields (behind_backslash k v) (c ∷ cs) = elim (unescape c) [
  | none ↦ none
  | some b ↦ read_fields (in_quotes k (v ++ b ∷ [])) cs
]
read_fields (closed k v) [] = some ((k, v) ∷ [])
read_fields (closed k v) (c ∷ cs) =
    let next = read_fields (in_key []) cs in if c == 32 then push k v next else none

append_step : (xs : List ℕ) (c : ℕ) (ys : List ℕ) → (xs ++ c ∷ []) ++ ys ≡ xs ++ c ∷ ys
append_step [] c ys = refl
append_step (x ∷ xs) c ys = ap (◌∷◌ x) (append_step xs c ys)

append_nil : (xs : List ℕ) → xs ++ [] ≡ xs
append_nil [] = refl
append_nil (x ∷ xs) = ap (◌∷◌ x) (append_nil xs)

-- A key is read up to its sign of equality.
read-key :
    (key acc rest : List ℕ)
    → all_of is_plain key ≡ true
    → read_fields (in_key acc) (key ++ 61 ∷ rest) ≡ read_fields (at_value (acc ++ key)) rest
unfolding read_fields
read-key [] acc rest h = ap (λ k. read_fields (at_value k) rest) (sym (append_nil acc))
read-key (c ∷ key) acc rest h =
    let same = append_step acc c key in
    let more = read-key key (acc ++ c ∷ []) rest (ground arith) in ground (arith, same, more)

-- A plain value is read as it stands.
read-plain :
    (v acc k rest : List ℕ)
    → all_of is_plain v ≡ true
    → read_fields (in_plain k acc) (v ++ rest) ≡ read_fields (in_plain k (acc ++ v)) rest
unfolding read_fields
read-plain [] acc k rest h = ap (λ v. read_fields (in_plain k v) rest) (sym (append_nil acc))
read-plain (c ∷ v) acc k rest h =
    let same = append_step acc c v in
    let more = read-plain v (acc ++ c ∷ []) k rest (ground arith) in ground (arith, same, more)

-- Escaped text is read as the text, up to the quote behind it.
read-escaped :
    (t acc k rest : List ℕ)
    → read_fields (in_quotes k acc) (escaped t ++ 34 ∷ rest)
      ≡ read_fields (closed k (acc ++ t)) rest
unfolding read_fields
read-escaped [] acc k rest = ap (λ v. read_fields (closed k v) rest) (sym (append_nil acc))
read-escaped (c ∷ t) acc k rest =
    let same = append_step acc c t in
    let more = read-escaped t (acc ++ c ∷ []) k rest in ground (arith, same, more)

append_assoc : (xs ys zs : List ℕ) → (xs ++ ys) ++ zs ≡ xs ++ (ys ++ zs)
append_assoc [] ys zs = refl
append_assoc (x ∷ xs) ys zs = ap (◌∷◌ x) (append_assoc xs ys zs)

-- A text that may stand behind a value, and the fields that it adds.
record Tail (text : List ℕ) (fields : List (List ℕ × List ℕ)) : Type 0 where
  behind_quote : (k v : List ℕ) → read_fields (closed k v) text ≡ some ((k, v) ∷ fields)
  behind_plain : (k v : List ℕ) → read_fields (in_plain k v) text ≡ some ((k, v) ∷ fields)

Tail-nil : Tail [] []
unfolding read_fields
Tail-nil = record { behind_quote = λ k v. refl; behind_plain = λ k v. refl }

read-quoted :
    (v k text : List ℕ) (fields : List (List ℕ × List ℕ))
    → Tail text fields
    → read_fields (at_value k) (quoted v ++ text) ≡ some ((k, v) ∷ fields)
unfolding read_fields quoted
read-quoted v k text fields tail =
    ap (read_fields (in_quotes k [])) (append_assoc (escaped v) (34 ∷ []) text)
    ∙ read-escaped v [] k text
    ∙ tail.behind_quote k v

read-value_text :
    (v k text : List ℕ) (fields : List (List ℕ × List ℕ))
    → Tail text fields
    → read_fields (at_value k) (value_text v ++ text) ≡ some ((k, v) ∷ fields)
unfolding read_fields value_text
read-value_text [] k text fields tail = read-quoted [] k text fields tail
read-value_text (c ∷ v) k text fields tail = elim (Bool-cases (all_of is_plain (c ∷ v))) [
  | inl plain ↦
      ground (arith, read-plain v (c ∷ []) k text (ground arith) ∙ tail.behind_plain k (c ∷ v))
  | inr special ↦ rw special (read-quoted (c ∷ v) k text fields tail)
]

-- One more field, behind a space.
Tail-field :
    (key v text : List ℕ) (fields : List (List ℕ × List ℕ))
    → all_of is_plain key ≡ true
    → Tail text fields
    → Tail (32 ∷ (key ++ 61 ∷ (value_text v ++ text))) ((key, v) ∷ fields)
unfolding read_fields
Tail-field key v text fields plain tail =
    let field =
      read-key key [] (value_text v ++ text) plain ∙ read-value_text v key text fields tail in
    record { behind_quote = λ k w. ap (push k w) field; behind_plain = λ k w. ap (push k w) field }

-- What a failure's context and detail say.
abbrev pub context_fields : List ContextField → List (List ℕ × List ℕ)
context_fields [] = []
context_fields (f ∷ fs) = (f.key, f.value) ∷ context_fields fs

abbrev pub detail_fields : List ℕ → List (List ℕ × List ℕ)
detail_fields detail = if not (is_empty detail) then (ascii "detail", detail) ∷ [] else []

Tail-detail : (detail : List ℕ) → Tail (detail_text detail) (detail_fields detail)
unfolding read_fields
Tail-detail [] = Tail-nil
Tail-detail (c ∷ cs) =
    let field = rw append_nil at (read-quoted (c ∷ cs) (ascii "detail") [] [] Tail-nil) in
    record { behind_quote = λ k w. ap (push k w) field; behind_plain = λ k w. ap (push k w) field }

Tail-context :
    (fs : List ContextField) (text : List ℕ) (fields : List (List ℕ × List ℕ))
    → All (λ f. all_of is_plain f.key ≡ true) fs
    → Tail text fields
    → Tail (context_text fs text) (context_fields fs ++ fields)
Tail-context [] text fields plain tail = tail
Tail-context (f ∷ fs) text fields plain tail =
    Tail-field f.key f.value _ _ plain.0 (Tail-context fs text fields plain.1 tail)

code_name-plain : (c : Code) → value_text (code_name c) ≡ code_name c
unfolding value_text
code_name-plain c = ground arith

disposition_name-plain :
    (c : Code)
    → value_text (disposition_name (disposition_of c)) ≡ disposition_name (disposition_of c)
unfolding value_text disposition_of
disposition_name-plain c = ground arith

-- Where every context key is plain, reading a failure's log line as logfmt gives back its code's
-- name, its disposition's name, its context and its detail if it has one, byte for byte: no value
-- forges a field.
pub describe_failure-fields :
    (f : Failure)
    → All (λ c. all_of is_plain c.key ≡ true) f.context
    → read_fields (in_key []) (describe_failure f)
      ≡ some (
          (ascii "code", code_name f.code)
            ∷ (ascii "disposition", disposition_name (disposition_of f.code))
            ∷ context_fields f.context
          ++ detail_fields f.detail)
unfolding describe_failure read_fields
describe_failure-fields f plain =
    let rest = Tail-context f.context _ _ plain (Tail-detail f.detail) in
    let place =
      Tail-field (ascii "disposition") (disposition_name (disposition_of f.code)) _ _ refl rest in
    let code = read-value_text (code_name f.code) (ascii "code") _ _ place in
    rw (disposition_name-plain f.code, code_name-plain f.code) at code
