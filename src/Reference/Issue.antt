-- ===== src/Reference/Issue.antt =====
-- Issuing and revoking authority: `CreateIssuerAuthorization`, `IssueCapability` and `RevokeGrant`
-- of internal/reference/config.go.
use memory.Prelude.{
  ℕ, ◌+◌, Bool, true, not, ◌||◌, Option, none, some, List, [], ◌∷◌, ltb, if◌then◌else◌,
}
use memory.Prelude.Map.{get, put}
use memory.Prelude.Int.{ℤ, to_nat, lt_bound}
use memory.Prelude.Result.{ok, err, ◌>>=◌, ◌>>◌, refuse}
use memory.Text.Bytes.{Str, Str-eq, str_eq}
use memory.Labels.{LabelSet, LabelResult, canonical_label_set}
use memory.Requests.{Time}
use memory.Reference.Types.{
  Audience, Audience-eq, Operation, Operation-eq, contains_operation, contains_audience,
  ViewDefinition, Grant,
}
use memory.Reference.State.{Server, Draw, random_token}
use memory.Reference.Config.{
  Checked, require, is_nil, id_required, no_random, grant_missing, issuer_unauthorized,
  actor_mismatch, bad_ttl, audience_not_granted, no_operation, operation_not_granted, bad_labels,
}

pub record IssuerAuthorization : Type 0 where
  pub principal_ref : Str
  pub credential : Str

-- A `time.Duration` is a signed number of nanoseconds.
pub record IssueCapabilityRequest : Type 0 where
  pub grant_ref : Str
  pub actor_ref : Str
  pub audience : Audience
  pub operations : List Operation
  pub labels : LabelSet
  pub ttl : ℤ

pub record RuntimeCapability : Type 0 where
  pub token : Str
  pub expires_at : Time

unfoldable pub create_issuer_authorization :
    Server → Draw → Str → Checked (IssuerAuthorization × Server)
create_issuer_authorization s draw principal_ref = do
  refuse (str_eq principal_ref []) id_required
  credential ← require (random_token draw) no_random
  ok (
    record { principal_ref = principal_ref; credential = credential },
    record s { issuer_credentials = put s.issuer_credentials principal_ref credential },
  )

-- `!ok || grant.Revoked || !grant.ExpiresAt.After(s.now())`, else the grant.
abbrev pub live_grant : Option Grant → Time → Checked Grant
live_grant none now = err grant_missing
live_grant (some grant) now = do
  refuse (grant.revoked || not (ltb now grant.expires_at)) grant_missing
  ok grant

-- `!authenticated || credential == "" || credential != auth.Credential || …`
abbrev pub unauthenticated : Option Str → IssuerAuthorization → Grant → Bool
unauthenticated none auth grant = true
unauthenticated (some credential) auth grant =
    str_eq credential []
    || not (str_eq credential auth.credential)
    || not (str_eq auth.principal_ref grant.principal_ref)

unfoldable pub check_granted : List Operation → List Operation → Checked (Unit {0})
check_granted [] allowed = ok tt
check_granted (o ∷ os) allowed = do
  refuse (not (contains_operation allowed o)) operation_not_granted
  check_granted os allowed

abbrev pub labels_of : LabelResult → Checked LabelSet
labels_of (LabelResult.ok ls) = ok ls
labels_of (LabelResult.err e) = err (bad_labels e)

-- The version of a View that is not there is the zero of its Go struct.
abbrev pub version_of : Option ViewDefinition → ℕ
version_of none = 0
version_of (some view) = view.version

-- `now` and `later` are the readings of the clock for the grant and for the expiry.
unfoldable pub issue_capability :
    Server
    → Time
    → Time
    → Draw
    → IssuerAuthorization
    → IssueCapabilityRequest
    → Checked (RuntimeCapability × Server)
issue_capability s now later draw auth request = do
  grant ← live_grant (get s.grants request.grant_ref) now
  refuse (unauthenticated (get s.issuer_credentials auth.principal_ref) auth grant)
      issuer_unauthorized
  refuse (not (str_eq request.actor_ref grant.actor_ref)) actor_mismatch
  refuse (lt_bound request.ttl 1) bad_ttl
  refuse (not (contains_audience grant.allowed_audiences request.audience)) audience_not_granted
  refuse (is_nil request.operations) no_operation
  labels ← labels_of (canonical_label_set request.labels)
  check_granted request.operations grant.allowed_operations
  let requested = later + to_nat request.ttl
  let expires_at = if ltb grant.expires_at requested then grant.expires_at else requested
  token ← require (random_token draw) no_random
  ok (
    record { token = token; expires_at = expires_at },
    record s {
      capabilities = put s.capabilities token (record {
        grant_id = grant.id;
        principal_ref = grant.principal_ref;
        view_version = version_of (get s.views grant.view_ref);
        actor_ref = request.actor_ref;
        audience = request.audience;
        operations = request.operations;
        labels = labels;
        expires_at = expires_at;
      });
    },
  )

unfoldable pub revoke_grant : Server → Str → Checked Server
revoke_grant s grant_id = do
  grant ← require (get s.grants grant_id) grant_missing
  ok (record s { grants = put s.grants grant_id (record grant { revoked = true }) })
