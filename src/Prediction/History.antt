-- ===== src/Prediction/History.antt =====
-- History's sequences and Acknowledge.
use augusta.Common.{
  ℕ, suc, ◌+◌, ◌-◌, ◌≤◌, ◌<◌, ◌≡◌, refl, Option, none, some, List, [], ◌∷◌, ◌++◌, length,
  length-append, ltb, ◌==◌, if◌then◌else◌, keep_if, arith,
}
use augusta.Prediction.{
  Entry, Predicted, max_history, pop_front, record_entry, discard_older, acknowledge,
}

abbrev pub sequence_of : Entry → ℕ
sequence_of e = e.sequence

-- The sequences held rise strictly, from `low` on and below `next`.
abbrev pub Between : ℕ → ℕ → List Entry → Type 0
Between low next [] = low ≤ next
Between low next (e ∷ es) = (low ≤ e.sequence) × Between (suc e.sequence) next es

pub record Inv (next : ℕ) (entries : List Entry) : Type 0 where
  pub between : Between 1 next entries
  pub bounded : length entries ≤ max_history

Between-mono :
    (low high next : ℕ) (es : List Entry) → low ≤ high → Between high next es → Between low next es
Between-mono low high next [] h b = omega arith
Between-mono low high next (e ∷ es) h b = (omega arith, b.1)

Between-append :
    (low next : ℕ) (es : List Entry) (e : Entry)
    → Between low next es
    → next ≤ e.sequence
    → Between low (suc e.sequence) (es ++ e ∷ [])
Between-append low next [] e b h = (omega arith, omega arith)
Between-append low next (d ∷ es) e b h = (b.0, Between-append (suc d.sequence) next es e b.1 h)

pop_front-Between :
    (low next : ℕ) (es : List Entry) → Between low next es → Between low next (pop_front es)
pop_front-Between low next [] b = b
pop_front-Between low next (e ∷ es) b = Between-mono low (suc e.sequence) next es (omega arith) b.1

length-pop_front : (es : List Entry) → length (pop_front es) ≡ length es - 1
length-pop_front [] = refl
length-pop_front (e ∷ es) = omega arith

pub record_entry-Inv :
    (next : ℕ) (es : List Entry) (e : Entry)
    → Inv next es
    → next ≤ e.sequence
    → Inv (suc e.sequence) (record_entry es e)
unfolding record_entry
record_entry-Inv next es e v h =
    let grown = Between-append 1 next es e v.between h in
    ground (
      arith,
      v.bounded,
      pop_front-Between 1 (suc e.sequence) (es ++ e ∷ []) grown,
      length-pop_front (es ++ e ∷ []),
      length-append es (e ∷ []),
    )

-- The prediction of a sequence, as a search of what is held.
abbrev pub predicted_at : ℕ → List Entry → Option Predicted
predicted_at j [] = none
predicted_at j (e ∷ es) = if e.sequence == j then some e.predicted else predicted_at j es

abbrev pub newer_than : ℕ → List Entry → List Entry
newer_than j = keep_if λ e. ltb j e.sequence

newer_than-Between :
    (j low next : ℕ) (es : List Entry)
    → j < low
    → Between low next es
    → (newer_than j es ≡ es) × (predicted_at j es ≡ none)
newer_than-Between j low next [] h b = (refl, refl)
newer_than-Between j low next (e ∷ es) h b =
    ground (arith, newer_than-Between j (suc e.sequence) next es (omega (arith, b.0)) b.1)

-- Where the sequences held rise, an acknowledgement returns what a search finds under exactly its
-- sequence, and leaves exactly what is newer.
pub acknowledge_lem :
    (j low next : ℕ) (es : List Entry)
    → Between low next es
    → acknowledge j es ≡ (predicted_at j es, newer_than j es)
unfolding acknowledge discard_older
acknowledge_lem j low next [] b = refl
acknowledge_lem j low next (e ∷ es) b = ground (
  arith,
  acknowledge_lem j (suc e.sequence) next es b.1,
  newer_than-Between j (suc e.sequence) next es,
)

newer_than-Inv :
    (j low next : ℕ) (es : List Entry)
    → Between low next es
    → Between low next (newer_than j es) × (length (newer_than j es) ≤ length es)
newer_than-Inv j low next [] b = (b, omega arith)
newer_than-Inv j low next (e ∷ es) b = ground (
  arith,
  newer_than-Inv j (suc e.sequence) next es b.1,
  Between-mono low (suc e.sequence) next (newer_than j es),
)

pub acknowledge-Inv : (j next : ℕ) (es : List Entry) → Inv next es → Inv next (acknowledge j es).1
acknowledge-Inv j next es v =
    let kept = newer_than-Inv j 1 next es v.between in
    ground (arith, acknowledge_lem j 1 next es v.between, v.bounded)

Between-raise :
    (low next high : ℕ) (es : List Entry) → next ≤ high → Between low next es → Between low high es
Between-raise low next high [] h b = omega arith
Between-raise low next high (e ∷ es) h b = (b.0, Between-raise (suc e.sequence) next high es h b.1)

pub newer_than-above :
    (j low next : ℕ) (es : List Entry)
    → Between low next es
    → Between (suc j) (next + suc j) (newer_than j es)
newer_than-above j low next [] b = omega arith
newer_than-above j low next (e ∷ es) b =
    let rest = newer_than-Inv j (suc e.sequence) next es b.1 in
    ground (
      arith,
      newer_than-above j (suc e.sequence) next es b.1,
      Between-raise (suc e.sequence) next (next + suc j) (newer_than j es) (omega arith) rest.0,
    )

-- Of what is newer than a sequence, an acknowledgement of it finds nothing and discards nothing.
pub acknowledge-above :
    (j next : ℕ) (es : List Entry) → Between (suc j) next es → acknowledge j es ≡ (none, es)
acknowledge-above j next es b = ground (
  arith,
  acknowledge_lem j (suc j) next es b,
  newer_than-Between j (suc j) next es (omega arith) b,
)
