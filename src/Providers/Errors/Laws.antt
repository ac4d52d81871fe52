-- ===== src/Providers/Errors/Laws.antt =====
-- The kinds of src/providers/error.ts and the attempts after them.
use saivage.Base.{ℕ, ◌≤◌, ◌<◌, ◌≡◌, ◌≢◌, ◌↔◌, ◌⊎◌, false, Option, none, some, arith}
use saivage.Providers.Errors.{
  ErrorKind, non_retryable, Failure, status_based_kind, classify_api_error_type, or_else, classify,
}

-- The type that the code reads: the SDK's nested one, or else the code or the type beside it.
abbrev pub known_kind : Failure → Option ErrorKind
known_kind f =
    or_else (classify_api_error_type f.api_type)
      (classify_api_error_type (or_else f.code f.type_field))

-- The status that the code reads: the one in a Codex message, or else the SDK's.
abbrev pub read_status : Failure → Option ℕ
read_status f = or_else f.codex_status f.status

abbrev pub IsFinalStatus : Option ℕ → Type 0
IsFinalStatus none = ⊥
IsFinalStatus (some n) = (400 ≤ n) × (n < 500) × (n ≢ 408) × (n ≢ 413) × (n ≢ 429)

status_final_iff : (o : Option ℕ) → (status_based_kind o false ≡ non_retryable) ↔ IsFinalStatus o
unfolding status_based_kind
status_final_iff none = ground arith
status_final_iff (some n) = ground arith

-- A failure is final exactly if its message has neither marker, and its type is known to be final,
-- or no type is known and its status lies in 400..499 and is none of 408, 413 and 429.
pub classify_final_iff :
    (f : Failure)
    → (classify f ≡ non_retryable) ↔ (
        (f.context_re ≡ false)
        × (f.orphan_re ≡ false)
        × ((known_kind f ≡ some non_retryable)
            ⊎ ((known_kind f ≡ none) × IsFinalStatus (read_status f))))
unfolding classify
classify_final_iff f = ground (arith, status_final_iff (read_status f))
