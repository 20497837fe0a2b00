-- ===== src/Reference/Authorize.antt =====
-- `authorizeLocked` of internal/reference/server.go.
pub mod Decision
use memory.Prelude.{
  ℕ, Bool, true, false, not, ◌&&◌, ◌||◌, Option, none, some, List, [], ◌∷◌, ltb, nat_eq,
  if◌then◌else◌,
}
use memory.Prelude.Map.{get}
use memory.Text.Bytes.{Str, Str-eq, str_eq}
use memory.Labels.{LabelSet}
use memory.Requests.{Time}
use memory.Reference.Types.{
  Audience, Audience-eq, audience_eq, is_private, Operation, Operation-eq, operation_eq,
  contains_operation, contains_audience, Space, ViewDefinition, Grant, CapabilityState,
  CallAuthorization,
}
use memory.Reference.Config.{not_private}
use memory.Reference.State.{Server, Call, Message, unauthorized, text, pure, fail}
use memory.Prelude.Result.{Result, ok, err, ◌>>=◌, ◌>>◌, refuse}
use Prim.Native.String.{String}

-- Every refusal is the code `unauthorized`, not retryable, with its message.
abbrev pub Decision : Type 0 → Type 0
Decision = Result String

-- Two readings of the clock: `authorizeLocked` asks it once for the grant and once for the
-- capability.
pub record Readings : Type 0 where
  pub for_grant : Time
  pub for_capability : Time

-- `!ok || grant.Revoked || grant.PrincipalRef != state.principalRef || …`, else the grant.
abbrev pub live_grant : Option Grant → CapabilityState → Readings → Decision Grant
live_grant none state at = err "capability is expired or revoked"
live_grant (some grant) state at = do
  refuse
      (grant.revoked
        || not (str_eq grant.principal_ref state.principal_ref)
        || not (ltb at.for_grant grant.expires_at)
        || not (ltb at.for_capability state.expires_at))
      "capability is expired or revoked"
  ok grant

abbrev pub known_capability : Option CapabilityState → Str → Decision CapabilityState
known_capability none token = err "capability is missing or unknown"
known_capability (some state) token = do
  refuse (str_eq token []) "capability is missing or unknown"
  ok state

abbrev pub current_view : Option ViewDefinition → CapabilityState → Decision ViewDefinition
current_view none state = err "capability View is stale"
current_view (some view) state = do
  refuse (not (nat_eq view.version state.view_version)) "capability View is stale"
  ok view

-- The checks of a capability against its grant and the call.
unfoldable pub check_delegation :
    CallAuthorization → Operation → CapabilityState → Grant → Decision (Unit {0})
check_delegation auth operation state grant = do
  refuse
      (not (str_eq auth.actor_ref state.actor_ref) || not (str_eq auth.actor_ref grant.actor_ref))
      "capability actor mismatch"
  refuse
      (not (audience_eq auth.audience state.audience)
        || not (contains_audience grant.allowed_audiences auth.audience))
      "capability audience mismatch"
  refuse
      (not (contains_operation state.operations operation)
        || not (contains_operation grant.allowed_operations operation))
      "capability operation mismatch"

-- The checks of the View against the audience.
unfoldable pub check_view :
    Option Space → CallAuthorization → Operation → ViewDefinition → Decision (Unit {0})
check_view write_space auth operation view = do
  refuse (audience_eq auth.audience Audience.shared && is_private view.max_disclosure_class)
      "private View is incompatible with shared audience"
  refuse
      (operation_eq operation Operation.remember
        && audience_eq auth.audience Audience.private
        && not_private write_space)
      "private Runtime cannot write shared memory"

unfoldable pub authorization :
    Server → Readings → CallAuthorization → Operation → Decision (ViewDefinition × LabelSet)
authorization s at auth operation = do
  state ← known_capability (get s.capabilities auth.capability) auth.capability
  grant ← live_grant (get s.grants state.grant_id) state at
  check_delegation auth operation state grant
  view ← current_view (get s.views grant.view_ref) state
  check_view (get s.spaces view.write_space_id) auth operation view
  ok (view, state.labels)

-- A refusal becomes a service error.
abbrev pub service_error : {A : Type 0} → Decision A → Call A
service_error (Result.ok a) = pure a
service_error (Result.err message) = fail unauthorized (text message) false

unfoldable pub authorize :
    Readings → CallAuthorization → Operation → Call (ViewDefinition × LabelSet)
authorize at auth operation s = service_error (authorization s at auth operation) s
