-- ===== src/Tests/Server.antt =====
-- A server with one private Space: its history, a call, and what the theorems say of them.
use memory.Prelude.{
  ◌+◌, ◌<◌, ◌^◌, arith, Distinct, ◌≡◌, refl, true, false, some, List, [], ◌∷◌, ◌++◌, contains,
}
use memory.Prelude.Int.{pos}
use memory.Prelude.Map.{Map, get, put, find}
use memory.Prelude.Map
use memory.Prelude.Result.{ok}
use memory.Prelude.Sort.{sort}
use memory.Text.Bytes.{Str, Str-eq, bytes, str_eq}
use memory.Text.Base64.{base64_url}
use memory.Labels.{LabelSet, canonical_label_set, check_labels, has_adjacent_duplicate}
use memory.Reference.Types.{
  Audience, SpaceClass, Operation, Realm, Identity, Space, ViewDefinition, Grant, CallAuthorization,
}
use memory.Reference.State.{Server, new, hex, random_token}
use memory.Reference.Identifiers.{issued, issued-Distinct}
use memory.Reference.Config.{
  create_realm, create_identity, check_class, create_space, read_spaces, write_space, create_view,
  check_operations, check_audiences, create_grant,
}
use memory.Reference.Issue.{
  IssuerAuthorization, IssueCapabilityRequest, create_issuer_authorization, issue_capability,
  check_granted,
}
use memory.Reference.Authorize.{Readings, authorization, check_delegation, check_view}
use memory.Reference.Authorize.Decision.{
  IsAuthorized, authorization_sound, authorization_complete, authorization_unique,
}
use memory.Reference.Remember.{Digests}
use memory.Reference.Machine.{Command, step, run}

abbrev pub digests : Digests
digests = record { marshal = λ n. some (bytes "n"); sha256 = λ s. s }

abbrev pub to_lower : Str → Str
to_lower s = s

abbrev pub realm : Realm
realm = record { id = bytes "r" }

abbrev pub identity : Identity
identity = record { id = bytes "i"; realm_id = bytes "r" }

abbrev pub space : Space
space = record {
  id = bytes "p";
  realm_id = bytes "r";
  identity_id = bytes "i";
  class = SpaceClass.private;
}

abbrev pub view : ViewDefinition
view = record {
  id = bytes "v";
  realm_id = bytes "r";
  read_space_ids = bytes "p" ∷ [];
  write_space_id = bytes "p";
  max_disclosure_class = SpaceClass.private;
  recall_policy_ref = [];
  version = 1;
}

abbrev pub grant : Grant
grant = record {
  id = bytes "g";
  principal_ref = bytes "o";
  actor_ref = bytes "a";
  view_ref = bytes "v";
  allowed_operations = Operation.remember ∷ Operation.recall ∷ Operation.receipt_status ∷ [];
  allowed_audiences = Audience.private ∷ [];
  expires_at = 100;
  revoked = false;
  version = 1;
}

abbrev pub issuer : IssuerAuthorization
issuer = record { principal_ref = bytes "o"; credential = base64_url (bytes "cred") }

abbrev pub capability_request : IssueCapabilityRequest
capability_request = record {
  grant_ref = bytes "g";
  actor_ref = bytes "a";
  audience = Audience.private;
  operations = Operation.remember ∷ Operation.recall ∷ Operation.receipt_status ∷ [];
  labels = [];
  ttl = pos 50;
}

abbrev pub bootstrap : List Command
bootstrap =
    Command.create_realm realm
    ∷ Command.create_identity identity
    ∷ Command.create_space space
    ∷ Command.create_view view
    ∷ Command.create_grant 1 grant
    ∷ Command.create_issuer_authorization (some (bytes "cred")) (bytes "o")
    ∷ []

abbrev pub history : List Command
history =
    bootstrap ++ Command.issue_capability 2 2 (some (bytes "tok")) issuer capability_request ∷ []

abbrev pub at : Readings
at = record { for_grant = 3; for_capability = 3 }

abbrev pub auth : CallAuthorization
auth = record {
  capability = base64_url (bytes "tok");
  actor_ref = bytes "a";
  audience = Audience.private;
}

abbrev pub empty_server : Server
empty_server = record {
  generation = [];
  next_id = 0;
  request_id = 0;
  sequence = 0;
  realms = Map.empty;
  identities = Map.empty;
  spaces = Map.empty;
  views = Map.empty;
  grants = Map.empty;
  capabilities = Map.empty;
  issuer_credentials = Map.empty;
  receipts = Map.empty;
  receipts_by_space = Map.empty;
  idempotency = Map.empty;
  tokens = Map.empty;
  candidate_reads = Map.empty;
  available = true;
}

pub started : new (some []) ≡ some empty_server
unfolding new hex
started = refl

abbrev pub server : Server
server = run digests to_lower empty_server history

pub authorized : authorization server at auth Operation.remember ≡ ok (view, [])
unfolding run step Map.get Map.put Map.find Map.empty create_realm create_identity check_class
    create_space read_spaces write_space create_view check_operations check_audiences create_grant
    create_issuer_authorization random_token issue_capability check_granted canonical_label_set
    check_labels has_adjacent_duplicate sort contains authorization check_delegation check_view
    base64_url str_eq
authorized = refl

authorization_sound_example : IsAuthorized server at auth Operation.remember view []
authorization_sound_example =
    authorization_sound server at auth Operation.remember view [] authorized

authorization_complete_example : authorization server at auth Operation.remember ≡ ok (view, [])
authorization_complete_example =
    authorization_complete server at auth Operation.remember view []
      (authorization_sound server at auth Operation.remember view [] authorized)

authorization_unique_example : ◌≡◌ {A = ViewDefinition × LabelSet} (view, []) (view, [])
authorization_unique_example =
    authorization_unique server at at auth Operation.remember Operation.remember (view, [])
      (view, []) authorized authorized

few : 0 + 2 < 2 ^ 64
few = omega arith

issued-Distinct_example : Distinct (issued (bytes "receipt" ∷ bytes "receipt" ∷ []) empty_server)
issued-Distinct_example = issued-Distinct (bytes "receipt" ∷ bytes "receipt" ∷ []) empty_server few
