-- ===== src/Reference/Authority.antt =====
-- What the administrative state of the server promises: the Views, Grants and capabilities that
-- internal/reference/config.go creates are well formed.
pub mod Views
pub mod Steps
pub mod Issued
pub mod History
pub mod Revoked
pub mod Disclosure
use memory.Prelude.{
  ℕ, ◌≤◌, ◌≡◌, ◌≢◌, refl, sym, Bool, true, false, Option, none, some, ◌⊎◌, List, [], contains,
}
use memory.Prelude.Map.{get}
use memory.Text.Bytes.{Str, Str-eq}
use memory.Reference.Types.{
  SpaceClass, Space, ViewDefinition, Grant, CapabilityState, contains_operation, contains_audience,
  Operation,
}
use memory.Reference.State.{Server}

-- A Space that the View reads is in its realm, and if it is private the View discloses as private.
pub record Readable (s : Server) (view : ViewDefinition) (id : Str) : Type 0 where
  pub space : Space
  pub found : get s.spaces id ≡ some space
  pub realm : space.realm_id ≡ view.realm_id
  pub disclosed : space.class ≡ SpaceClass.private → view.max_disclosure_class ≡ SpaceClass.private

pub record ViewValid (s : Server) (view : ViewDefinition) : Type 0 where
  pub reads : (id : Str) → contains view.read_space_ids id ≡ true → Readable s view id
  pub writes : view.write_space_id ≢ [] → contains view.read_space_ids view.write_space_id ≡ true

-- The capability gives no more than the grant.
pub record Covers (grant : Grant) (c : CapabilityState) : Type 0 where
  pub principal : c.principal_ref ≡ grant.principal_ref
  pub actor : c.actor_ref ≡ grant.actor_ref
  pub audience : contains_audience grant.allowed_audiences c.audience ≡ true
  pub operations :
      (o : Operation)
      → contains_operation c.operations o ≡ true
      → contains_operation grant.allowed_operations o ≡ true
  pub expiry : c.expires_at ≤ grant.expires_at

abbrev pub Covered : Server → CapabilityState → Type 0
Covered s c = (grant : Grant) × (get s.grants c.grant_id ≡ some grant) × Covers grant c

pub record AuthorityValid (s : Server) : Type 0 where
  pub classes :
      (id : Str) (space : Space)
      → get s.spaces id ≡ some space
      → (space.class ≡ SpaceClass.private) ⊎ (space.class ≡ SpaceClass.shared)
  pub views : (id : Str) (view : ViewDefinition) → get s.views id ≡ some view → ViewValid s view
  pub grants : (id : Str) (grant : Grant) → get s.grants id ≡ some grant → grant.id ≡ id
  pub capabilities :
      (token : Str) (c : CapabilityState) → get s.capabilities token ≡ some c → Covered s c

-- A View stays well formed while no Space is lost or changed.
pub ViewValid-keeps :
    (s t : Server) (view : ViewDefinition)
    → ((id : Str) (space : Space) → get s.spaces id ≡ some space → get t.spaces id ≡ some space)
    → ViewValid s view
    → ViewValid t view
ViewValid-keeps s t view keep v = record {
  reads = λ id e.
      let r = v.reads id e in
      record {
        space = r.space;
        found = keep id r.space r.found;
        realm = r.realm;
        disclosed = r.disclosed;
      };
  writes = v.writes;
}
