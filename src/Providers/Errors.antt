-- ===== src/Providers/Errors.antt =====
-- The kinds of provider errors: src/providers/error.ts. What the regular expressions find in the
-- message, and the shape of the SDK's error, come in as a record.
pub mod Laws
use saivage.Base.{
  ℕ, String, Bool, true, false, ◌&&◌, ◌||◌, Option, none, some, ltb, leb, nat_eq, if◌then◌else◌,
  ◌==◌,
}

pub data ErrorKind : Type 0 where
  context_overflow orphaned_tool_result throttling non_retryable transient : ErrorKind

-- `context_re`: the message matches CONTEXT_RE; so on for ORPHAN_RE. `codex_status` is the number
-- that CODEX_STATUS_RE captures.
pub record Failure : Type 0 where
  pub context_re : Bool
  pub orphan_re : Bool
  pub api_type : Option String
  pub code : Option String
  pub type_field : Option String
  pub codex_status : Option ℕ
  pub status : Option ℕ

-- `statusBasedKind` on a status that is there
abbrev status_kind : ℕ → Bool → ErrorKind
status_kind status context_re =
    if nat_eq status 413
    then context_overflow
    else if nat_eq status 429
    then throttling
    else if leb 500 status && ltb status 600
    then transient
    else if nat_eq status 408
    then transient
    else if leb 400 status && ltb status 500
    then (if context_re then context_overflow else non_retryable)
    else transient

unfoldable pub status_based_kind : Option ℕ → Bool → ErrorKind
status_based_kind none context_re = transient
status_based_kind (some status) context_re = status_kind status context_re

-- `classifyApiErrorType` on a text
abbrev named_kind : String → Option ErrorKind
named_kind t =
    if t == "context_length_exceeded"
    then some context_overflow
    else if t == "invalid_request_error"
        || t == "authentication_error"
        || t == "permission_error"
        || t == "not_found_error"
        || t == "content_filter"
    then some non_retryable
    else if t == "rate_limit_error" || t == "overloaded_error"
    then some throttling
    else if t == "tokens"
    then some context_overflow
    else none

unfoldable pub classify_api_error_type : Option String → Option ErrorKind
classify_api_error_type none = none
classify_api_error_type (some t) = named_kind t

abbrev pub or_else : {A : Type 0} → Option A → Option A → Option A
or_else none b = b
or_else (some a) b = some a

abbrev by_status : Failure → ErrorKind
by_status f = elim f.codex_status [
  | some n ↦ status_based_kind (some n) f.context_re
  | none ↦ status_based_kind f.status f.context_re
]

abbrev by_type : Failure → Option ErrorKind → ErrorKind
by_type f none = by_status f
by_type f (some kind) = kind

-- the kind of `classifyProviderError` on an error that is not one of its own
unfoldable pub classify : Failure → ErrorKind
classify f =
    if f.context_re
    then context_overflow
    else if f.orphan_re
    then orphaned_tool_result
    else by_type f (
        or_else (classify_api_error_type f.api_type)
          (classify_api_error_type (or_else f.code f.type_field)))
