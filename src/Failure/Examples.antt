-- ===== src/Failure/Examples.antt =====
-- A failure whose detail tries to forge a field and a line, and each theorem about log lines at it.
use augusta.Common.{◌≡◌, refl, true, some, List, [], ◌∷◌, ◌++◌, ℕ, all_of}
use augusta.Failure.{Failure, transport_send_failed}
use augusta.Failure.Log.{ascii, describe_failure, disposition_of}
use augusta.Failure.Reading.{in_key, read_fields, describe_failure-fields}
use augusta.Failure.OneLine.{in_line, describe_failure-line}

abbrev forging : List ℕ
forging = ascii "reset" ++ 34 ∷ 10 ∷ ascii "code=all_is_well"

abbrev a_failure : Failure
a_failure = record {
  code = transport_send_failed;
  context = record { key = ascii "session"; value = ascii "3" } ∷ [];
  detail = forging;
}

describe_failure-fields_example :
    read_fields (in_key []) (describe_failure a_failure)
    ≡ some (
        (ascii "code", ascii "transport_send_failed")
        ∷ (ascii "disposition", ascii "runtime")
        ∷ (ascii "session", ascii "3")
        ∷ (ascii "detail", forging)
        ∷ [])
unfolding disposition_of
describe_failure-fields_example = describe_failure-fields a_failure (refl, tt)

describe_failure-line_example : all_of in_line (describe_failure a_failure) ≡ true
describe_failure-line_example = describe_failure-line a_failure (refl, tt)
