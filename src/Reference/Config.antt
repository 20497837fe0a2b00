-- ===== src/Reference/Config.antt =====
-- The bootstrap operations of internal/reference/config.go. An error leaves the server as it was.
use memory.Prelude.{
  Bool, true, false, not, ◌&&◌, ◌||◌, Option, none, some, List, [], ◌∷◌, ltb, nat_eq, if◌then◌else◌,
  contains,
}
use memory.Prelude.Map.{get, put}
use memory.Prelude.Result.{Result, ok, err, ◌>>=◌, ◌>>◌, refuse}
use memory.Text.Bytes.{Str, Str-eq, str_eq}
use memory.Labels.{LabelError}
use memory.Requests.{Time}
use memory.Reference.Types.{
  Audience, Audience-eq, audience_eq, SpaceClass, class_eq, is_private, Operation, Operation-eq,
  contains_operation, valid_operation, valid_audience, Realm, Identity, Space, ViewDefinition,
  Grant,
}
use memory.Reference.State.{Server}

pub data ConfigError : Type 0 where
  id_required already_exists realm_missing identity_missing owned_shared_space : ConfigError
  unsupported_class no_read_space bad_read_space duplicate_read_space bad_write_space : ConfigError
  unreadable_write_space wrong_disclosure_class view_missing grant_expired : ConfigError
  no_operations_or_audiences unsupported_operation unsupported_audience : ConfigError
  shared_audience_of_private_view no_private_write_space no_random grant_missing : ConfigError
  issuer_unauthorized actor_mismatch bad_ttl audience_not_granted no_operation : ConfigError
  operation_not_granted : ConfigError
  bad_labels : LabelError → ConfigError

abbrev pub Checked : Type 0 → Type 0
Checked = Result ConfigError

abbrev pub exists {ℓ} : {A : Type ℓ} → Option A → Bool
exists none = false
exists (some a) = true

-- `v, ok := m[k]; if !ok { return e }`
abbrev pub require : {A : Type 0} → Option A → ConfigError → Checked A
require none e = err e
require (some a) e = ok a

unfoldable pub create_realm : Server → Realm → Checked Server
create_realm s realm = do
  refuse (str_eq realm.id []) id_required
  refuse (exists (get s.realms realm.id)) already_exists
  ok (record s { realms = put s.realms realm.id realm })

unfoldable pub create_identity : Server → Identity → Checked Server
create_identity s identity = do
  refuse (str_eq identity.id [] || str_eq identity.realm_id []) id_required
  refuse (not (exists (get s.realms identity.realm_id))) realm_missing
  refuse (exists (get s.identities identity.id)) already_exists
  ok (record s { identities = put s.identities identity.id identity })

-- `!ok || identity.RealmID != space.RealmID`
abbrev pub foreign_identity : Option Identity → Str → Bool
foreign_identity none realm = true
foreign_identity (some i) realm = not (str_eq i.realm_id realm)

unfoldable pub check_class : Server → Space → SpaceClass → Checked (Unit {0})
check_class s space SpaceClass.private =
    refuse (foreign_identity (get s.identities space.identity_id) space.realm_id) identity_missing
check_class s space SpaceClass.shared =
    refuse (not (str_eq space.identity_id [])) owned_shared_space
check_class s space (SpaceClass.other c) = err unsupported_class

unfoldable pub create_space : Server → Space → Checked Server
unfolding check_class
create_space s space = do
  refuse (str_eq space.id [] || str_eq space.realm_id []) id_required
  refuse (not (exists (get s.realms space.realm_id))) realm_missing
  check_class s space space.class
  refuse (exists (get s.spaces space.id)) already_exists
  ok (record s {
    spaces = put s.spaces space.id space;
    candidate_reads = put s.candidate_reads space.id 0;
  })

-- `!ok || space.RealmID != view.RealmID`, else the Space.
abbrev pub same_realm : Option Space → Str → ConfigError → Checked Space
same_realm none realm e = err e
same_realm (some space) realm e = if str_eq space.realm_id realm then ok space else err e

-- `mostRestrictive` after a Space of class `c` was met.
abbrev pub restrict : SpaceClass → SpaceClass → SpaceClass
restrict most c = if is_private c then SpaceClass.private else most

-- The loop over `view.ReadSpaceIDs`: the Spaces seen and the most restrictive class so far.
unfoldable pub read_spaces :
    Server → Str → List Str → List Str → SpaceClass → Checked (List Str × SpaceClass)
read_spaces s realm [] seen most = ok (seen, most)
read_spaces s realm (id ∷ ids) seen most = do
  space ← same_realm (get s.spaces id) realm bad_read_space
  refuse (contains seen id) duplicate_read_space
  read_spaces s realm ids (id ∷ seen) (restrict most space.class)

-- The checks on a non-empty `view.WriteSpaceID`.
unfoldable pub write_space : Server → ViewDefinition → List Str → SpaceClass → Checked SpaceClass
write_space s view seen most = if str_eq view.write_space_id [] then ok most else do
  space ← same_realm (get s.spaces view.write_space_id) view.realm_id bad_write_space
  refuse (not (contains seen view.write_space_id)) unreadable_write_space
  ok (restrict most space.class)

abbrev pub is_nil {ℓ} : {A : Type ℓ} → List A → Bool
is_nil [] = true
is_nil (x ∷ xs) = false

unfoldable pub create_view : Server → ViewDefinition → Checked Server
create_view s view = do
  refuse (str_eq view.id [] || str_eq view.realm_id [] || nat_eq view.version 0) id_required
  refuse (exists (get s.views view.id)) already_exists
  refuse (is_nil view.read_space_ids) no_read_space
  (seen, most) ← read_spaces s view.realm_id view.read_space_ids [] SpaceClass.shared
  most' ← write_space s view seen most
  refuse (not (class_eq view.max_disclosure_class most')) wrong_disclosure_class
  ok (record s { views = put s.views view.id view })

-- `!ok || writeSpace.Class != SpaceClassPrivate`
abbrev pub not_private : Option Space → Bool
not_private none = true
not_private (some space) = not (is_private space.class)

unfoldable pub check_operations : List Operation → Checked (Unit {0})
check_operations [] = ok tt
check_operations (o ∷ os) = do
  refuse (not (valid_operation o)) unsupported_operation
  check_operations os

-- The loop over `grant.AllowedAudiences`.
unfoldable pub check_audiences :
    Server → ViewDefinition → List Operation → List Audience → Checked (Unit {0})
check_audiences s view ops [] = ok tt
check_audiences s view ops (a ∷ as') = do
  refuse (not (valid_audience a)) unsupported_audience
  refuse (audience_eq a Audience.shared && is_private view.max_disclosure_class)
      shared_audience_of_private_view
  refuse
      (audience_eq a Audience.private
        && contains_operation ops Operation.remember
        && not_private (get s.spaces view.write_space_id))
      no_private_write_space
  check_audiences s view ops as'

-- `now` is the reading of the server's clock.
unfoldable pub create_grant : Server → Time → Grant → Checked Server
create_grant s now grant = do
  refuse
      (str_eq grant.id []
        || str_eq grant.principal_ref []
        || str_eq grant.actor_ref []
        || str_eq grant.view_ref []
        || nat_eq grant.version 0)
      id_required
  refuse (exists (get s.grants grant.id)) already_exists
  view ← require (get s.views grant.view_ref) view_missing
  refuse (not (ltb now grant.expires_at)) grant_expired
  refuse (is_nil grant.allowed_operations || is_nil grant.allowed_audiences)
      no_operations_or_audiences
  check_operations grant.allowed_operations
  check_audiences s view grant.allowed_operations grant.allowed_audiences
  ok (record s { grants = put s.grants grant.id grant })
