-- ===== src/Appliance.antt =====
-- The appliance of internal/appliance keeps the service's state in SQLite. Here are the rows that decide on authority,
-- and `authorize` of internal/appliance/config.go. A column with a time holds the time that was formatted into it; that
-- the database itself fails is left out. `json.Marshal` and `json.Unmarshal` of labels and SHA-256 are the parameter `Codec`.
pub mod Refines
pub mod Stored
pub mod Canonical
pub mod Merge
use memory.Prelude.{
  ℕ, ◌≡◌, refl, Bool, true, false, not, ◌&&◌, ◌||◌, Option, none, some, List, [], ◌∷◌, map, ltb,
  nat_eq, if◌then◌else◌,
}
use memory.Prelude.Sort.{sort}
use memory.Prelude.Result.{Result, ok, err, ◌>>=◌, ◌>>◌, refuse}
use memory.Text.Bytes.{Str, str_eq}
use memory.Labels.{LabelSet, LabelResult, canonical_label_set}
use memory.Requests.{Time}
use memory.Reference.Types.{
  Audience, audience_eq, is_private, SpaceClass, Operation, operation_eq, CallAuthorization,
}

pub record Codec : Type 0 where
  pub marshal : LabelSet → Str
  pub unmarshal : Str → Option LabelSet
  pub digest_string : Str → Str
  pub digest_bytes : Str → Str

-- The rows of the tables `spaces`, `views`, `view_read_spaces`, `grants`, `grant_operations`, `grant_audiences`,
-- `capabilities` and `capability_operations`, with the columns that `authorize` reads.
pub record SpaceRow : Type 0 where
  pub id : Str
  pub class : SpaceClass

pub record ViewRow : Type 0 where
  pub id : Str
  pub version : ℕ
  pub write_space_id : Option Str
  pub max_disclosure_class : SpaceClass

pub record ViewReadSpace : Type 0 where
  pub view_id : Str
  pub space_id : Str
  pub ordinal : ℕ

pub record GrantRow : Type 0 where
  pub id : Str
  pub principal_ref : Str
  pub actor_ref : Str
  pub view_id : Str
  pub expires_at : Time
  pub revoked : Bool

pub record CapabilityRow : Type 0 where
  pub token_digest : Str
  pub grant_id : Str
  pub principal_ref : Str
  pub view_version : ℕ
  pub actor_ref : Str
  pub audience : Audience
  pub expires_at : Time
  pub label_set : Str
  pub label_set_digest : Str

pub record Tables : Type 0 where
  pub spaces : List SpaceRow
  pub views : List ViewRow
  pub view_read_spaces : List ViewReadSpace
  pub grants : List GrantRow
  pub grant_operations : List (Str × Operation)
  pub grant_audiences : List (Str × Audience)
  pub capabilities : List CapabilityRow
  pub capability_operations : List (Str × Operation)

-- `authorizedView`
pub record AuthorizedView : Type 0 where
  pub id : Str
  pub version : ℕ
  pub read_space_ids : List Str
  pub write_space_id : Str
  pub max_disclosure_class : SpaceClass
  pub labels : LabelSet
  pub label_set_encoded : Str
  pub label_set_digest : Str

pub data ApplianceError : Type 0 where
  capability_unknown capability_expired invalid_label_set actor_mismatch audience_mismatch
        operation_mismatch stale_view private_view private_write :
      ApplianceError

-- `SELECT … WHERE …`, for a condition that at most one row meets.
unfoldable pub select {ℓ} : {A : Type ℓ} → (A → Bool) → List A → Option A
select p [] = none
select p (x ∷ xs) = if p x then some x else select p xs

-- `SELECT EXISTS(SELECT 1 …)`
unfoldable pub exists {ℓ} : {A : Type ℓ} → (A → Bool) → List A → Bool
exists p [] = false
exists p (x ∷ xs) = p x || exists p xs

unfoldable pub earlier_ordinal : ViewReadSpace → ViewReadSpace → Bool
earlier_ordinal a b = ltb a.ordinal b.ordinal

unfoldable pub of_view : Str → List ViewReadSpace → List ViewReadSpace
of_view id [] = []
of_view id (r ∷ rs) = let rest = of_view id rs in if str_eq r.view_id id then r ∷ rest else rest

-- `SELECT space_id FROM view_read_spaces WHERE view_id = ? ORDER BY ordinal`
unfoldable pub read_view_spaces : Tables → Str → List Str
read_view_spaces t id = map (λ r. r.space_id) (sort earlier_ordinal (of_view id t.view_read_spaces))

-- The end of `decodeStoredLabelSet`, where the labels are those of `normalizeLabelSet`.
abbrev pub stored_labels : Codec → Str → Str → LabelResult → Option LabelSet
stored_labels codec encoded expected (LabelResult.err e) = none
stored_labels codec encoded expected (LabelResult.ok canonical) =
    if not (str_eq (codec.marshal canonical) encoded)
      || not (str_eq (codec.digest_string (codec.marshal canonical)) expected)
    then none
    else some canonical

abbrev pub decoded_labels : Codec → Str → Str → Option LabelSet → Option LabelSet
decoded_labels codec encoded expected none = none
decoded_labels codec encoded expected (some labels) =
    stored_labels codec encoded expected (canonical_label_set labels)

-- `decodeStoredLabelSet`
unfoldable pub decode_stored_label_set : Codec → Str → Str → Option LabelSet
decode_stored_label_set codec encoded expected =
    decoded_labels codec encoded expected (codec.unmarshal encoded)

-- A row, or the error for a missing one.
abbrev pub require : {A : Type 0} → Option A → ApplianceError → Result ApplianceError A
require none e = err e
require (some a) e = ok a

-- The two readings of the clock by `authorize`.
pub record ClockReadings : Type 0 where
  pub for_capability : Time
  pub for_grant : Time

abbrev pub or_empty : Option Str → Str
or_empty none = []
or_empty (some id) = id

abbrev pub is_private_space : Option SpaceRow → Bool
is_private_space none = false
is_private_space (some space) = is_private space.class

-- The checks of a capability against its grant and of the call against both.
unfoldable pub check_grant :
    Time
    → Tables
    → CallAuthorization
    → Operation
    → Str
    → CapabilityRow
    → GrantRow
    → Result ApplianceError (Unit {0})
check_grant now t auth operation digest capability grant = do
  refuse
      (grant.revoked
        || not (ltb now grant.expires_at)
        || not (str_eq capability.principal_ref grant.principal_ref))
      capability_expired
  refuse
      (not (str_eq auth.actor_ref capability.actor_ref)
        || not (str_eq auth.actor_ref grant.actor_ref))
      actor_mismatch
  refuse
      (not (audience_eq auth.audience capability.audience)
        || not (
            exists (λ r. str_eq r.0 capability.grant_id && audience_eq r.1 auth.audience)
              t.grant_audiences))
      audience_mismatch
  refuse
      (not (exists (λ r. str_eq r.0 digest && operation_eq r.1 operation) t.capability_operations)
        || not (
            exists (λ r. str_eq r.0 capability.grant_id && operation_eq r.1 operation)
              t.grant_operations))
      operation_mismatch

-- The checks of the View.
unfoldable pub check_view_row :
    Tables
    → CallAuthorization
    → Operation
    → CapabilityRow
    → ViewRow
    → Result ApplianceError (Unit {0})
check_view_row t auth operation capability view = do
  refuse (not (nat_eq view.version capability.view_version)) stale_view
  refuse (audience_eq auth.audience Audience.shared && is_private view.max_disclosure_class)
      private_view
  refuse
      (operation_eq operation Operation.remember
        && audience_eq auth.audience Audience.private
        && not
            (is_private_space (select (λ s. str_eq s.id (or_empty view.write_space_id)) t.spaces)))
      private_write

-- `authorize`
unfoldable pub authorize :
    Codec
    → ClockReadings
    → Tables
    → CallAuthorization
    → Operation
    → Result ApplianceError AuthorizedView
authorize codec at t auth operation = do
  refuse (str_eq auth.capability []) capability_unknown
  let digest = codec.digest_bytes auth.capability
  capability ←
      require (select (λ c. str_eq c.token_digest digest) t.capabilities) capability_unknown
  refuse (not (ltb at.for_capability capability.expires_at)) capability_expired
  labels ←
      require (decode_stored_label_set codec capability.label_set capability.label_set_digest)
        invalid_label_set
  grant ← require (select (λ g. str_eq g.id capability.grant_id) t.grants) capability_expired
  check_grant at.for_grant t auth operation digest capability grant
  view ← require (select (λ v. str_eq v.id grant.view_id) t.views) stale_view
  check_view_row t auth operation capability view
  ok (record {
    id = grant.view_id;
    version = view.version;
    read_space_ids = read_view_spaces t grant.view_id;
    write_space_id = or_empty view.write_space_id;
    max_disclosure_class = view.max_disclosure_class;
    labels = labels;
    label_set_encoded = codec.marshal labels;
    label_set_digest = codec.digest_string (codec.marshal labels);
  })
