-- ===== src/Tests/Authority.antt =====
-- The theorems on authority at the server of `Tests.Server`.
use memory.Prelude.{◌≡◌, ◌≢◌, refl, true, some, [], ◌∷◌, contains}
use memory.Prelude.Map.{get}
use memory.Prelude.Map
use memory.Prelude.Result.{ok}
use memory.Prelude.Sort.{sort}
use memory.Text.Bytes.{Str-eq, bytes, str_eq}
use memory.Text.Base64.{base64_url}
use memory.Labels.{canonical_label_set, check_labels, has_adjacent_duplicate}
use memory.Reference.Types.{Audience, Operation, CapabilityState}
use memory.Reference.State.{Server, random_token}
use memory.Reference.Config.{
  create_realm, create_identity, check_class, create_space, read_spaces, write_space, create_view,
  check_operations, check_audiences, create_grant,
}
use memory.Reference.Issue.{
  RuntimeCapability, create_issuer_authorization, issue_capability, check_granted, revoke_grant,
}
use memory.Reference.Authorize.{authorization}
use memory.Reference.Authority.{AuthorityValid}
use memory.Reference.Authority.History.{run-Valid}
use memory.Reference.Authority.Issued.{Issued, issue_capability_sound}
use memory.Reference.Authority.Revoked.{revoke_grant-run}
use memory.Reference.Authority.Disclosure.{Confined, run-Confined}
use memory.Reference.Machine.{step, run}
use memory.Tests.Server.{
  digests, to_lower, empty_server, server, history, bootstrap, started, authorized, at, auth, view,
  grant, issuer, capability_request,
}

run-Valid_example : AuthorityValid server
run-Valid_example = run-Valid digests to_lower [] empty_server history started

run-Confined_example : Confined server auth Operation.remember view
run-Confined_example =
    run-Confined digests to_lower [] empty_server history at auth Operation.remember view [] started
      authorized

abbrev before : Server
before = run digests to_lower empty_server bootstrap

abbrev issued_capability : RuntimeCapability
issued_capability = record { token = base64_url (bytes "tok"); expires_at = 52 }

issued_now :
    issue_capability before 2 2 (some (bytes "tok")) issuer capability_request
    ≡ ok (issued_capability, server)
unfolding run step Map.get Map.put Map.find Map.empty create_realm create_identity check_class
    create_space read_spaces write_space create_view check_operations check_audiences create_grant
    create_issuer_authorization random_token issue_capability check_granted canonical_label_set
    check_labels has_adjacent_duplicate sort contains base64_url str_eq
issued_now = refl

issue_capability_sound_example : Issued before server 2 issuer capability_request issued_capability
issue_capability_sound_example =
    issue_capability_sound before server 2 2 (some (bytes "tok")) issuer capability_request
      issued_capability issued_now

abbrev capability_state : CapabilityState
capability_state = record {
  grant_id = bytes "g";
  principal_ref = bytes "o";
  view_version = 1;
  actor_ref = bytes "a";
  audience = Audience.private;
  operations = Operation.remember ∷ Operation.recall ∷ Operation.receipt_status ∷ [];
  labels = [];
  expires_at = 52;
}

abbrev revoked_server : Server
revoked_server = record server {
  grants = Map.put server.grants (bytes "g") (record grant { revoked = true });
}

revoked_now : revoke_grant server (bytes "g") ≡ ok revoked_server
unfolding run step Map.get Map.put Map.find Map.empty create_realm create_identity check_class
    create_space read_spaces write_space create_view check_operations check_audiences create_grant
    create_issuer_authorization random_token issue_capability check_granted canonical_label_set
    check_labels has_adjacent_duplicate sort contains base64_url str_eq revoke_grant
revoked_now = refl

known_then :
    get (run digests to_lower revoked_server []).capabilities auth.capability
    ≡ some capability_state
unfolding run step Map.get Map.put Map.find Map.empty create_realm create_identity check_class
    create_space read_spaces write_space create_view check_operations check_audiences create_grant
    create_issuer_authorization random_token issue_capability check_granted canonical_label_set
    check_labels has_adjacent_duplicate sort contains base64_url str_eq
known_then = refl

revoke_grant-run_example :
    authorization (run digests to_lower revoked_server []) at auth Operation.remember
    ≢ ok (view, [])
revoke_grant-run_example =
    revoke_grant-run digests to_lower (bytes "g") server revoked_server [] at auth
      Operation.remember capability_state (view, []) revoked_now known_then refl
