-- ===== src/Requests.antt =====
-- The data-plane requests of api/memory/v1alpha1/types.go and their `Validate` methods in
-- api/memory/v1alpha1/validate.go. An instant is a number of nanoseconds since the year 0, UTC.
pub mod Bounds
use memory.Prelude.{
  ℕ, ◌+◌, ◌*◌, ◌^◌, ◌≡◌, refl, Bool, true, false, not, ◌&&◌, ◌||◌, Option, none, some, List, [],
  ◌∷◌, ltb, leb, nat_eq, if◌then◌else◌, length,
}
use memory.Prelude.Int.{ℤ, lt_bound, gt_bound}
use memory.Text.Bytes.{Str, str_eq, bytes}
use memory.Text.Utf8.{valid_string}
use memory.Text.Json.{string_size}

abbrev pub Time : Type 0
Time = ℕ

abbrev pub max_source_scalar_bytes : ℕ
max_source_scalar_bytes = 256

abbrev pub max_source_labels : ℕ
max_source_labels = 16

abbrev pub max_label_key_bytes : ℕ
max_label_key_bytes = 64

abbrev pub max_source_context_bytes : ℕ
max_source_context_bytes = 4096

abbrev pub max_remember_text_bytes : ℕ
max_remember_text_bytes = 65536

abbrev pub max_recall_query_bytes : ℕ
max_recall_query_bytes = 8192

abbrev pub max_idempotency_bytes : ℕ
max_idempotency_bytes = 128

-- `len({"fragments":[]})`
abbrev pub min_recall_projection_bytes : ℕ
min_recall_projection_bytes = 16

-- A Go map of extension labels is the list of its entries, in the order in which a loop meets them.
pub record SourceContext : Type 0 where
  pub actor_ref : Str
  pub session_ref : Str
  pub workspace_ref : Str
  pub task_ref : Str
  pub tool_call_ref : Str
  pub source_type : Str
  pub extension_labels : List (Str × Str)

pub record RememberRequest : Type 0 where
  pub text : Str
  pub source_context : SourceContext
  pub occurred_at : Option Time
  pub idempotency_key : Str

pub record RecallBudget : Type 0 where
  pub max_fragments : ℤ
  pub max_bytes : ℤ
  pub deadline_ms : ℤ

pub record RecallRequest : Type 0 where
  pub query : Str
  pub source_context : SourceContext
  pub min_consistency_token : Str
  pub budget : RecallBudget

pub data ValidationError : Type 0 where
  scalar_not_utf8 scalar_too_long : Str → ValidationError
  too_many_extension_labels bad_label_key bad_label_value source_context_too_large : ValidationError
  bad_text bad_idempotency_key bad_occurred_at : ValidationError
  bad_max_fragments bad_max_bytes bad_deadline bad_query : ValidationError

-- `a` unless it is an error, else `b`: a chain of `if err != nil { return err }`.
infixr 30 ◌else_check◌
abbrev pub ◌else_check◌ : Option ValidationError → Option ValidationError → Option ValidationError
none else_check b = b
(some e) else_check b = some e

abbrev pub fails_with : Bool → ValidationError → Option ValidationError
fails_with true e = some e
fails_with false e = none

-- `!utf8.ValidString(s) || len(s) == 0 || len(s) > n`
abbrev pub out_of_bounds : Str → ℕ → Bool
out_of_bounds s n = not (valid_string s) || nat_eq (length s) 0 || ltb n (length s)

unfoldable pub check_scalars : List (Str × Str) → Option ValidationError
check_scalars [] = none
check_scalars ((name, value) ∷ rest) =
    fails_with (not (valid_string value)) (scalar_not_utf8 name)
    else_check fails_with (ltb max_source_scalar_bytes (length value)) (scalar_too_long name)
    else_check check_scalars rest

unfoldable pub check_extension_labels : List (Str × Str) → Option ValidationError
check_extension_labels [] = none
check_extension_labels ((key, value) ∷ rest) =
    fails_with (str_eq key [] || not (valid_string key) || ltb max_label_key_bytes (length key))
      bad_label_key
    else_check fails_with (not (valid_string value) || ltb max_source_scalar_bytes (length value))
        bad_label_value
    else_check check_extension_labels rest

-- The bytes of `"name":value`, for each field that `omitempty` keeps.
scalar_members : List (Str × Str) → List ℕ
scalar_members [] = []
scalar_members ((name, value) ∷ rest) =
    let more = scalar_members rest in
    if str_eq value [] then more else (string_size name + 1 + string_size value) ∷ more

label_members : List (Str × Str) → List ℕ
label_members [] = []
label_members ((name, value) ∷ rest) =
    (string_size name + 1 + string_size value) ∷ label_members rest

members_size : List ℕ → ℕ
members_size [] = 0
members_size (n ∷ []) = n
members_size (n ∷ m ∷ rest) = n + 1 + members_size (m ∷ rest)

unfoldable pub scalars : SourceContext → List (Str × Str)
scalars s =
    (bytes "actor_ref", s.actor_ref)
    ∷ (bytes "session_ref", s.session_ref)
    ∷ (bytes "workspace_ref", s.workspace_ref)
    ∷ (bytes "task_ref", s.task_ref)
    ∷ (bytes "tool_call_ref", s.tool_call_ref)
    ∷ (bytes "source_type", s.source_type)
    ∷ []

append_labels : List (Str × Str) → List ℕ
append_labels [] = []
append_labels (l ∷ ls) =
    (string_size (bytes "extension_labels") + 1 + (2 + members_size (label_members (l ∷ ls)))) ∷ []

-- `len(json.Marshal(s))`
unfoldable pub source_context_size : SourceContext → ℕ
unfolding scalar_members label_members members_size append_labels
source_context_size s =
    2 + members_size (join (scalar_members (scalars s)) (append_labels s.extension_labels))
  where
    join : List ℕ → List ℕ → List ℕ
    join [] ys = ys
    join (x ∷ xs) ys = x ∷ join xs ys

unfoldable pub validate_source_context : SourceContext → Option ValidationError
unfolding scalars
validate_source_context s =
    check_scalars (scalars s)
    else_check fails_with (ltb max_source_labels (length s.extension_labels))
        too_many_extension_labels
    else_check check_extension_labels s.extension_labels
    else_check fails_with (ltb max_source_context_bytes (source_context_size s))
        source_context_too_large

-- `MarshalText` refuses a year past 9999: ten thousand Gregorian years are 3652425 days.
abbrev pub year_10000 : Time
year_10000 = 3652425 * 86400 * 1000000000

unfoldable pub check_occurred_at : Option Time → Option ValidationError
check_occurred_at none = none
check_occurred_at (some t) = fails_with (not (ltb t year_10000)) bad_occurred_at

unfoldable pub validate_remember : RememberRequest → Option ValidationError
validate_remember r =
    fails_with (out_of_bounds r.text max_remember_text_bytes) bad_text
    else_check fails_with (out_of_bounds r.idempotency_key max_idempotency_bytes)
        bad_idempotency_key
    else_check check_occurred_at r.occurred_at
    else_check validate_source_context r.source_context

unfoldable pub validate_budget : RecallBudget → Option ValidationError
validate_budget b =
    fails_with (lt_bound b.max_fragments 1 || gt_bound b.max_fragments 64) bad_max_fragments
    else_check fails_with
        (lt_bound b.max_bytes min_recall_projection_bytes || gt_bound b.max_bytes 65536)
        bad_max_bytes
    else_check fails_with (lt_bound b.deadline_ms 1 || gt_bound b.deadline_ms 30000) bad_deadline

unfoldable pub validate_recall : RecallRequest → Option ValidationError
validate_recall r =
    fails_with (out_of_bounds r.query max_recall_query_bytes) bad_query
    else_check validate_source_context r.source_context
    else_check validate_budget r.budget
