-- ===== src/Reference/Authority/Disclosure.antt =====
-- What an authorized call can reach, after any history of the server.
use memory.Prelude.{◌≡◌, ◌≢◌, some, inl, inr, List, [], contains, true}
use memory.Prelude.Map.{get}
use memory.Prelude.Result.{ok}
use memory.Text.Bytes.{Str, Str-eq}
use memory.Labels.{LabelSet}
use memory.Reference.Types.{
  Audience, SpaceClass, Space, Operation, ViewDefinition, CallAuthorization,
}
use memory.Reference.State.{Server, new}
use memory.Reference.Authorize.{Readings, authorization}
use memory.Reference.Authorize.Decision.{IsAuthorized, authorization_sound}
use memory.Reference.Remember.{Digests}
use memory.Reference.Machine.{Command, run}
use memory.Reference.Authority.{AuthorityValid, ViewValid}
use memory.Reference.Authority.History.{run-Valid}

-- The Space `id` belongs to the realm of the View, and a shared audience meets it only if it is
-- shared.
pub record Permitted (s : Server) (auth : CallAuthorization) (view : ViewDefinition) (id : Str)
    : Type 0 where
  pub space : Space
  pub found : get s.spaces id ≡ some space
  pub realm : space.realm_id ≡ view.realm_id
  pub shared_only : auth.audience ≡ Audience.shared → space.class ≡ SpaceClass.shared

-- What the audience of a call may read and write in a View.
pub record Confined (s : Server) (auth : CallAuthorization) (operation : Operation)
    (view : ViewDefinition) : Type 0 where
  pub reads : (id : Str) → contains view.read_space_ids id ≡ true → Permitted s auth view id
  pub writes : view.write_space_id ≢ [] → Permitted s auth view view.write_space_id
  pub private_only :
      operation ≡ Operation.remember
      → auth.audience ≡ Audience.private
      → (space : Space) × (get s.spaces view.write_space_id ≡ some space)
        × (space.class ≡ SpaceClass.private)

authorization-Confined :
    (s : Server) (at : Readings) (auth : CallAuthorization) (operation : Operation)
    (view : ViewDefinition) (labels : LabelSet)
    → AuthorityValid s
    → authorization s at auth operation ≡ ok (view, labels)
    → Confined s auth operation view
authorization-Confined s at auth operation view labels v h = record {
  reads = reads;
  writes = λ n. reads view.write_space_id (valid.writes n);
  private_only = a.private_write;
}
  where
    a : IsAuthorized s at auth operation view labels
    a = authorization_sound s at auth operation view labels h

    valid : ViewValid s view
    valid = v.views a.grant.view_ref view a.viewed

    reads : (id : Str) → contains view.read_space_ids id ≡ true → Permitted s auth view id
    reads id e =
        let r = valid.reads id e in
        record {
          space = r.space;
          found = r.found;
          realm = r.realm;
          shared_only = λ shared. elim (v.classes id r.space r.found) [
            | inl p ↦ absurd (a.disclosure shared (r.disclosed p))
            | inr q ↦ q
          ];
        }

-- From a new server, after every sequence of commands, a call that is authorized for an operation
-- in a View is confined: every Space that the View reads, and its write Space if it has one,
-- exists and lies in the realm of the View, and is shared if the call has the shared audience;
-- and a Remember with the private audience writes a Space that is private.
pub run-Confined :
    (d : Digests) (to_lower : Str → Str) (raw : Str) (s : Server) (cs : List Command)
    (at : Readings) (auth : CallAuthorization) (operation : Operation) (view : ViewDefinition)
    (labels : LabelSet)
    → new (some raw) ≡ some s
    → authorization (run d to_lower s cs) at auth operation ≡ ok (view, labels)
    → Confined (run d to_lower s cs) auth operation view
run-Confined d to_lower raw s cs at auth operation view labels start h =
    authorization-Confined _ at auth operation view labels (run-Valid d to_lower raw s cs start) h
