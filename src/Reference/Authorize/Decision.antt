-- ===== src/Reference/Authorize/Decision.antt =====
-- Authorization is sound and complete: a description of the calls that are authorized.
use Prim.Native.String.{String}
use memory.Prelude.{◌<◌, ◌≡◌, ◌≢◌, refl, sym, ap, true, false, Option, none, some, [], arith}
use memory.Prelude.Map.{get}
use memory.Prelude.Result.{Result, ok, >>=-from-ok}
use memory.Text.Bytes.{Str, Str-eq, str_eq_iff}
use memory.Labels.{LabelSet}
use memory.Reference.Types.{
  Audience, audience_eq_iff, SpaceClass, Operation, contains_operation, contains_audience,
  ViewDefinition, Grant, CapabilityState, CallAuthorization, Space,
}
use memory.Reference.State.{Server}
use memory.Reference.Config.{not_private}
use memory.Reference.Authorize.{
  Readings, authorization, known_capability, live_grant, current_view, check_delegation, check_view,
}

-- The call `auth` may do `operation` in the View `view` and the partition `labels`.
pub record IsAuthorized (s : Server) (at : Readings) (auth : CallAuthorization)
    (operation : Operation) (view : ViewDefinition) (labels : LabelSet) : Type 0 where
  pub state : CapabilityState
  pub grant : Grant
  pub has_token : auth.capability ≢ []
  pub known : get s.capabilities auth.capability ≡ some state
  pub granted : get s.grants state.grant_id ≡ some grant
  pub not_revoked : grant.revoked ≡ false
  pub principal : grant.principal_ref ≡ state.principal_ref
  pub grant_live : at.for_grant < grant.expires_at
  pub capability_live : at.for_capability < state.expires_at
  pub actor : auth.actor_ref ≡ state.actor_ref
  pub grant_actor : auth.actor_ref ≡ grant.actor_ref
  pub audience : auth.audience ≡ state.audience
  pub grant_audience : contains_audience grant.allowed_audiences auth.audience ≡ true
  pub allowed : contains_operation state.operations operation ≡ true
  pub grant_allowed : contains_operation grant.allowed_operations operation ≡ true
  pub viewed : get s.views grant.view_ref ≡ some view
  pub version : view.version ≡ state.view_version
  pub disclosure : auth.audience ≡ Audience.shared → view.max_disclosure_class ≢ SpaceClass.private
  pub private_write :
      operation ≡ Operation.remember
      → auth.audience ≡ Audience.private
      → (space : Space) × (get s.spaces view.write_space_id ≡ some space)
        × (space.class ≡ SpaceClass.private)
  pub partition : labels ≡ state.labels

known_capability-eq-ok :
    (o : Option CapabilityState) (token : Str) {state : CapabilityState}
    → known_capability o token ≡ ok state
    → (o ≡ some state) × (token ≢ [])
known_capability-eq-ok none token h = cc
known_capability-eq-ok (some state) token h = ground (arith, str_eq_iff token [])

live_grant-eq-ok :
    (o : Option Grant) (state : CapabilityState) (at : Readings) {grant : Grant}
    → live_grant o state at ≡ ok grant
    → (o ≡ some grant)
      × (grant.revoked ≡ false)
      × (grant.principal_ref ≡ state.principal_ref)
      × (at.for_grant < grant.expires_at)
      × (at.for_capability < state.expires_at)
live_grant-eq-ok none state at h = cc
live_grant-eq-ok (some grant) state at h =
    ground (arith, str_eq_iff grant.principal_ref state.principal_ref)

check_delegation-eq-ok :
    (auth : CallAuthorization) (operation : Operation) (state : CapabilityState) (grant : Grant)
    → check_delegation auth operation state grant ≡ ok tt
    → (auth.actor_ref ≡ state.actor_ref)
      × (auth.actor_ref ≡ grant.actor_ref)
      × (auth.audience ≡ state.audience)
      × (contains_audience grant.allowed_audiences auth.audience ≡ true)
      × (contains_operation state.operations operation ≡ true)
      × (contains_operation grant.allowed_operations operation ≡ true)
unfolding check_delegation
check_delegation-eq-ok auth operation state grant h = ground (
  arith,
  str_eq_iff auth.actor_ref state.actor_ref,
  str_eq_iff auth.actor_ref grant.actor_ref,
  audience_eq_iff auth.audience state.audience,
)

current_view-eq-ok :
    (o : Option ViewDefinition) (state : CapabilityState) {view : ViewDefinition}
    → current_view o state ≡ ok view
    → (o ≡ some view) × (view.version ≡ state.view_version)
current_view-eq-ok none state h = cc
current_view-eq-ok (some view) state h = ground arith

not_private-false :
    (o : Option Space)
    → not_private o ≡ false
    → (space : Space) × (o ≡ some space) × (space.class ≡ SpaceClass.private)
not_private-false none h = cc
not_private-false (some space) h = (space, refl, ground arith)

check_view-eq-ok :
    (o : Option Space) (auth : CallAuthorization) (operation : Operation) (view : ViewDefinition)
    → check_view o auth operation view ≡ ok tt
    → (auth.audience ≡ Audience.shared → view.max_disclosure_class ≢ SpaceClass.private)
      × (operation ≡ Operation.remember → auth.audience ≡ Audience.private → not_private o ≡ false)
unfolding check_view
check_view-eq-ok o auth operation view h = (λ e d. ground arith, λ e d. ground arith)

private_space :
    (o : Option Space)
    → ((space : Space) × (o ≡ some space) × (space.class ≡ SpaceClass.private))
    → not_private o ≡ false
private_space o (space, e, c) = ground arith

check_view-ok :
    (o : Option Space) (auth : CallAuthorization) (operation : Operation) (view : ViewDefinition)
    → (auth.audience ≡ Audience.shared → view.max_disclosure_class ≢ SpaceClass.private)
    → (operation ≡ Operation.remember → auth.audience ≡ Audience.private → not_private o ≡ false)
    → check_view o auth operation view ≡ ok tt
unfolding check_view
check_view-ok o auth operation view d w = ground arith

module _ (s : Server) (at : Readings) (auth : CallAuthorization) (operation : Operation)
    (view : ViewDefinition) (labels : LabelSet) where
  -- A call that is authorized satisfies every clause of the description `IsAuthorized`: its
  -- capability is known, its grant is not revoked, neither has expired, the actor, the audience
  -- and the operation are the ones that both allow, the View has the version that the capability
  -- was issued for, and the audience suits the View.
  pub authorization_sound :
      authorization s at auth operation ≡ ok (view, labels)
      → IsAuthorized s at auth operation view labels
  unfolding authorization
  authorization_sound h =
      >>=-from-ok (known_capability (get s.capabilities auth.capability) auth.capability) _ h
        λ state known h1.
          >>=-from-ok (live_grant (get s.grants state.grant_id) state at) _ h1 λ grant live h2.
            >>=-from-ok (check_delegation auth operation state grant) _ h2 λ _ delegated h3.
              >>=-from-ok (current_view (get s.views grant.view_ref) state) _ h3 λ v current h4.
                >>=-from-ok (check_view (get s.spaces v.write_space_id) auth operation v) _ h4
                  λ _ checked h5.
                    assemble state grant v (known_capability-eq-ok _ _ known)
                      (live_grant-eq-ok _ state at live)
                      (check_delegation-eq-ok auth operation state grant delegated)
                      (current_view-eq-ok _ state current)
                      (check_view-eq-ok _ auth operation v checked) h5
    where
      assemble :
          (state : CapabilityState) (grant : Grant) (v : ViewDefinition)
          → (get s.capabilities auth.capability ≡ some state) × (auth.capability ≢ [])
          → (get s.grants state.grant_id ≡ some grant)
            × (grant.revoked ≡ false)
            × (grant.principal_ref ≡ state.principal_ref)
            × (at.for_grant < grant.expires_at)
            × (at.for_capability < state.expires_at)
          → (auth.actor_ref ≡ state.actor_ref)
            × (auth.actor_ref ≡ grant.actor_ref)
            × (auth.audience ≡ state.audience)
            × (contains_audience grant.allowed_audiences auth.audience ≡ true)
            × (contains_operation state.operations operation ≡ true)
            × (contains_operation grant.allowed_operations operation ≡ true)
          → (get s.views grant.view_ref ≡ some v) × (v.version ≡ state.view_version)
          → (auth.audience ≡ Audience.shared → v.max_disclosure_class ≢ SpaceClass.private)
            × (operation ≡ Operation.remember
                → auth.audience ≡ Audience.private
                → not_private (get s.spaces v.write_space_id) ≡ false)
          → ◌≡◌ {A = Result String (ViewDefinition × LabelSet)}
              (ok (v, state.labels))
              (ok (view, labels))
          → IsAuthorized s at auth operation view labels
      assemble state grant v k l d c w e =
          let same : (v ≡ view) × (state.labels ≡ labels) = (ground arith, ground arith) in
          record {
            state = state;
            grant = grant;
            has_token = k.1;
            known = k.0;
            granted = l.0;
            not_revoked = l.1;
            principal = l.2;
            grant_live = l.3;
            capability_live = l.4;
            actor = d.0;
            grant_actor = d.1;
            audience = d.2;
            grant_audience = d.3;
            allowed = d.4;
            grant_allowed = d.5;
            viewed = cc (c.0, same.0);
            version = rw (← same.0) c.1;
            disclosure = rw (← same.0) w.0;
            private_write = rw (← same.0) λ o a. not_private-false _ (w.1 o a);
            partition = sym same.1;
          }

  -- A call that satisfies the description `IsAuthorized` is authorized, with that View and that
  -- partition.
  pub authorization_complete :
      IsAuthorized s at auth operation view labels
      → authorization s at auth operation ≡ ok (view, labels)
  unfolding authorization check_delegation check_view
  authorization_complete a =
      rw (a.known, known_lem, a.granted, live_lem, delegation_lem, a.viewed, view_lem, check_lem)
        (ap (λ ls. ok (view, ls)) (sym a.partition))
    where
      known_lem : known_capability (some a.state) auth.capability ≡ ok a.state
      known_lem = ground (arith, str_eq_iff auth.capability [], a.has_token)

      live_lem : live_grant (some a.grant) a.state at ≡ ok a.grant
      live_lem = ground (arith, str_eq_iff a.grant.principal_ref a.state.principal_ref)

      delegation_lem : check_delegation auth operation a.state a.grant ≡ ok tt
      delegation_lem = ground (
        arith,
        str_eq_iff auth.actor_ref a.state.actor_ref,
        str_eq_iff auth.actor_ref a.grant.actor_ref,
        audience_eq_iff auth.audience a.state.audience,
      )

      view_lem : current_view (some view) a.state ≡ ok view
      view_lem = ground arith

      check_lem : check_view (get s.spaces view.write_space_id) auth operation view ≡ ok tt
      check_lem =
          check_view-ok _ auth operation view a.disclosure
            (λ o p. private_space _ (a.private_write o p))

-- The View and the partition of an authorized call do not depend on the clock or the operation.
pub authorization_unique :
    (s : Server) (at at' : Readings) (auth : CallAuthorization) (o o' : Operation)
    (v v' : ViewDefinition × LabelSet)
    → authorization s at auth o ≡ ok v
    → authorization s at' auth o' ≡ ok v'
    → v ≡ v'
authorization_unique s at at' auth o o' v v' h h' =
    let a = authorization_sound s at auth o v.0 v.1 h in
    let b = authorization_sound s at' auth o' v'.0 v'.1 h' in
    let states : a.state ≡ b.state = cc (a.known, b.known) in
    let grants : a.grant ≡ b.grant = cc (a.granted, b.granted, states) in
    let views : v.0 ≡ v'.0 = cc (a.viewed, b.viewed, grants) in
    let partitions : v.1 ≡ v'.1 = cc (a.partition, b.partition, states) in cc (views, partitions)
