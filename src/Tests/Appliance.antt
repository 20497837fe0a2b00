-- ===== src/Tests/Appliance.antt =====
-- One capability in the rows of the appliance and in the maps of the reference service, and a call with it.
use memory.Prelude.{
  ◌≡◌, ◌≢◌, refl, subst, true, false, ◌&&◌, some, none, [], ◌∷◌, arith, Bool-cases, inl, inr,
  contains, ℕ, zero, suc, ◌+◌, ◌<◌, ◌++◌, length, length-append, take, drop, Option,
}
use memory.Prelude.Result.{ok}
use memory.Prelude.Map.{empty, get, put, find}
use memory.Prelude.Sort.{sort, insert}
use memory.Text.Bytes.{Str, Str-eq, str_eq, str_eq_iff, bytes}
use memory.Labels.{canonical_label_set, check_labels, has_adjacent_duplicate, LabelSet}
use memory.Reference.Types.{
  Audience, Audience-eq, audience_eq, SpaceClass, Operation, Operation-eq, operation_eq, Space,
  ViewDefinition, Grant, CapabilityState, CallAuthorization,
}
use memory.Reference.State.{Server}
use memory.Reference.Authorize.{authorization, check_delegation, check_view}
use memory.Appliance.{
  AuthorizedView, Codec, Tables, select, exists, read_view_spaces, of_view, decode_stored_label_set,
  authorize, check_grant, check_view_row, earlier_ordinal,
}
use memory.Appliance.Stored.{HoldsSpaces, HoldsLabels, IsCodec}
use memory.Appliance.Canonical.{Partitioned, authorize-Partitioned}
use memory.Backup.Stream.{take-append, drop-append}
use mathlib.Core.List.Perm
use memory.Appliance.Refines.{
  Related, SameCapability, SameGrant, SameView, SameClass, Represents, appliance_access,
  reference_access, authorize-refines,
}

-- Each label after its length.
abbrev encoded : LabelSet → Str
encoded [] = []
encoded (label ∷ labels) = length label ∷ (label ++ encoded labels)

abbrev with_label : Str → Option LabelSet → Option LabelSet
with_label label none = none
with_label label (some labels) = some (label ∷ labels)

abbrev decoded : ℕ → Str → Option LabelSet
decoded zero s = none
decoded (suc fuel) [] = some []
decoded (suc fuel) (n ∷ s) = let rest = decoded fuel (drop n s) in with_label (take n s) rest

abbrev plain_codec : Codec
plain_codec = record {
  marshal = encoded;
  unmarshal = λ s. decoded (length s + 1) s;
  digest_string = λ s. s;
  digest_bytes = λ s. s;
}

decoded-encoded :
    (labels : LabelSet) (fuel : ℕ)
    → length (encoded labels) < fuel
    → decoded fuel (encoded labels) ≡ some labels
decoded-encoded labels zero h = absurd (omega arith)
decoded-encoded [] (suc fuel) h = refl
decoded-encoded (label ∷ labels) (suc fuel) h =
    rw
      (
        take-append label (encoded labels),
        drop-append label (encoded labels),
        decoded-encoded labels fuel (omega (arith, h, length-append label (encoded labels))),
      )
      refl

plain_codec-IsCodec : IsCodec plain_codec
plain_codec-IsCodec = record {
  unmarshal-marshal =
      λ labels _. decoded-encoded labels (length (encoded labels) + 1) (omega arith);
}

abbrev rows : Tables
rows = record {
  spaces = record { id = bytes "sp"; class = SpaceClass.private } ∷ [];
  views =
      record {
        id = bytes "v";
        version = 1;
        write_space_id = some (bytes "sp");
        max_disclosure_class = SpaceClass.private;
      }
      ∷ [];
  view_read_spaces =
      record { view_id = bytes "w"; space_id = bytes "x"; ordinal = 0 }
      ∷ record { view_id = bytes "v"; space_id = bytes "sp"; ordinal = 0 }
      ∷ [];
  grants =
      record {
        id = bytes "g";
        principal_ref = bytes "p";
        actor_ref = bytes "a";
        view_id = bytes "v";
        expires_at = 100;
        revoked = false;
      }
      ∷ [];
  grant_operations = (bytes "g", Operation.recall) ∷ [];
  grant_audiences = (bytes "g", Audience.private) ∷ [];
  capabilities =
      record {
        token_digest = bytes "t";
        grant_id = bytes "g";
        principal_ref = bytes "p";
        view_version = 1;
        actor_ref = bytes "a";
        audience = Audience.private;
        expires_at = 50;
        label_set = [];
        label_set_digest = [];
      }
      ∷ [];
  capability_operations = (bytes "t", Operation.recall) ∷ [];
}

abbrev kept_capability : CapabilityState
kept_capability = record {
  grant_id = bytes "g";
  principal_ref = bytes "p";
  view_version = 1;
  actor_ref = bytes "a";
  audience = Audience.private;
  operations = Operation.recall ∷ [];
  labels = [];
  expires_at = 50;
}

abbrev kept_grant : Grant
kept_grant = record {
  id = bytes "g";
  principal_ref = bytes "p";
  actor_ref = bytes "a";
  view_ref = bytes "v";
  allowed_operations = Operation.recall ∷ [];
  allowed_audiences = Audience.private ∷ [];
  expires_at = 100;
  revoked = false;
  version = 1;
}

abbrev kept_view : ViewDefinition
kept_view = record {
  id = bytes "v";
  realm_id = bytes "r";
  read_space_ids = bytes "sp" ∷ [];
  write_space_id = bytes "sp";
  max_disclosure_class = SpaceClass.private;
  recall_policy_ref = [];
  version = 1;
}

abbrev kept_space : Space
kept_space = record {
  id = bytes "sp";
  realm_id = bytes "r";
  identity_id = bytes "i";
  class = SpaceClass.private;
}

abbrev service : Server
service = record {
  generation = [];
  next_id = 0;
  request_id = 0;
  sequence = 0;
  realms = empty;
  identities = empty;
  spaces = put empty (bytes "sp") kept_space;
  views = put empty (bytes "v") kept_view;
  grants = put empty (bytes "g") kept_grant;
  capabilities = put empty (bytes "t") kept_capability;
  issuer_credentials = empty;
  receipts = empty;
  receipts_by_space = empty;
  idempotency = empty;
  tokens = empty;
  candidate_reads = empty;
  available = true;
}

-- What holds at the one key, and where neither side has an entry, holds at every key.
at_key :
    (P : Str → Type 0) (key : Str)
    → P key
    → ((k : Str) → str_eq key k ≡ false → P k)
    → (k : Str) → P k
at_key P key h missing k = elim (Bool-cases (str_eq key k)) [
  | inl e ↦ subst P ((str_eq_iff key k).0 e) h
  | inr e ↦ missing k e
]

recall_allowed :
    (operation : Operation)
    → exists (λ r. str_eq r.0 (bytes "t") && operation_eq r.1 operation) rows.capability_operations
      ≡ contains (Operation.recall ∷ []) operation
unfolding exists contains str_eq
recall_allowed operation = ground arith

recall_granted :
    (operation : Operation)
    → exists (λ r. str_eq r.0 (bytes "g") && operation_eq r.1 operation) rows.grant_operations
      ≡ contains (Operation.recall ∷ []) operation
unfolding exists contains str_eq
recall_granted operation = ground arith

private_granted :
    (audience : Audience)
    → exists (λ r. str_eq r.0 (bytes "g") && audience_eq r.1 audience) rows.grant_audiences
      ≡ contains (Audience.private ∷ []) audience
unfolding exists contains str_eq
private_granted audience = ground arith

no_labels : HoldsLabels plain_codec [] [] []
unfolding canonical_label_set check_labels has_adjacent_duplicate sort
no_labels = record { is_canonical = refl; same_encoding = refl; same_digest = refl }

other_view : bytes "w" ≢ bytes "v"
unfolding str_eq
other_view e = ground arith

one_read_space : HoldsSpaces rows.view_read_spaces (bytes "v") (bytes "sp" ∷ [])
one_read_space = record {
  others = record { view_id = bytes "w"; space_id = bytes "x"; ordinal = 0 } ∷ [];
  foreign = (other_view, tt);
  rows = Perm.swap _ _ [];
}

same_capability :
    (token : Str)
    → Related
        (SameCapability plain_codec rows token)
        (select (λ c. str_eq c.token_digest token) rows.capabilities)
        (get service.capabilities token)
unfolding select get put find empty str_eq
same_capability =
    at_key
      (λ token.
        Related (SameCapability plain_codec rows token)
          (select (λ c. str_eq c.token_digest token) rows.capabilities)
          (get service.capabilities token))
      (bytes "t")
      (record {
        grant = refl;
        principal = refl;
        version = refl;
        actor = refl;
        audience = refl;
        expiry = refl;
        labels = no_labels;
        operations = recall_allowed;
      })
      (λ token e. rw e tt)

same_grant :
    (id : Str)
    → Related (SameGrant rows id) (select (λ g. str_eq g.id id) rows.grants) (get service.grants id)
unfolding select get put find empty str_eq
same_grant =
    at_key
      (λ id.
        Related (SameGrant rows id) (select (λ g. str_eq g.id id) rows.grants)
          (get service.grants id))
      (bytes "g")
      (record {
        principal = refl;
        actor = refl;
        view = refl;
        expiry = refl;
        revoked = refl;
        operations = recall_granted;
        audiences = private_granted;
      })
      (λ id e. rw e tt)

same_view :
    (id : Str)
    → Related (SameView rows id) (select (λ v. str_eq v.id id) rows.views) (get service.views id)
unfolding select get put find empty str_eq
same_view =
    at_key
      (λ id.
        Related (SameView rows id) (select (λ v. str_eq v.id id) rows.views) (get service.views id))
      (bytes "v")
      (record {
        version = refl;
        write_space = refl;
        disclosure = refl;
        read_spaces = one_read_space;
      })
      (λ id e. rw e tt)

same_space :
    (id : Str)
    → Related SameClass (select (λ x. str_eq x.id id) rows.spaces) (get service.spaces id)
unfolding select get put find empty str_eq
same_space =
    at_key
      (λ id. Related SameClass (select (λ x. str_eq x.id id) rows.spaces) (get service.spaces id))
      (bytes "sp") refl (λ id e. rw e tt)

abbrev call : CallAuthorization
call = record { capability = bytes "t"; actor_ref = bytes "a"; audience = Audience.private }

abbrev same_rows : Represents plain_codec rows service
same_rows = record {
  capabilities = same_capability;
  grants = same_grant;
  views = same_view;
  spaces = same_space;
}

allowed :
    reference_access
      (authorization service (record { for_grant = 4; for_capability = 3 }) call Operation.recall)
    ≡ some (record {
      version = 1;
      read_space_ids = bytes "sp" ∷ [];
      write_space_id = bytes "sp";
      max_disclosure_class = SpaceClass.private;
      labels = [];
    })
unfolding authorization check_delegation check_view get put find empty str_eq contains
allowed = refl

authorize-refines_example :
    appliance_access (
      authorize plain_codec
        (record { for_capability = 3; for_grant = 4 })
        rows
        call
        Operation.recall)
    ≡ reference_access
        (authorization service (record { for_grant = 4; for_capability = 3 }) call Operation.recall)
authorize-refines_example =
    authorize-refines plain_codec plain_codec-IsCodec rows service same_rows 3 4 call
      Operation.recall

abbrev let_in : AuthorizedView
let_in = record {
  id = bytes "v";
  version = 1;
  read_space_ids = bytes "sp" ∷ [];
  write_space_id = bytes "sp";
  max_disclosure_class = SpaceClass.private;
  labels = [];
  label_set_encoded = [];
  label_set_digest = [];
}

authorized :
    authorize plain_codec (record { for_capability = 3; for_grant = 4 }) rows call Operation.recall
    ≡ ok let_in
unfolding authorize check_grant check_view_row select exists read_view_spaces of_view sort insert
    earlier_ordinal decode_stored_label_set canonical_label_set check_labels has_adjacent_duplicate
    str_eq
authorized = refl

authorize-Partitioned_example : Partitioned plain_codec rows (bytes "t") let_in
authorize-Partitioned_example =
    authorize-Partitioned plain_codec (record { for_capability = 3; for_grant = 4 }) rows call
      Operation.recall let_in authorized
