-- ===== src/Reference/Authority/Issued.antt =====
-- `CreateIssuerAuthorization`, `IssueCapability` and `RevokeGrant` keep the administrative state
-- well formed, and a capability gives no more than its grant.
use memory.Prelude.{
  ◌+◌, ◌<◌, ◌≡◌, refl, sym, ap, ◌∙◌, subst, arith, true, false, not, Option, none, some, inl, inr,
  List, [], ◌∷◌, Bool-cases, ltb, contains, if◌then◌else◌,
}
use memory.Prelude.Map.{get, put, get-put}
use memory.Prelude.Int.{lt_bound, to_nat}
use memory.Prelude.Result.{ok, refuse, >>=-from-ok, refuse-eq-ok, ok-injective}
use memory.Requests.{Time}
use memory.Labels.{canonical_label_set}
use memory.Text.Bytes.{Str, Str-eq, str_eq, str_eq_iff}
use memory.Reference.Types.{
  Operation, Operation-eq, operation_eq, operation_eq_iff, contains_operation, contains_audience,
  Audience-eq, Grant, CapabilityState,
}
use memory.Reference.State.{Server, Draw, random_token}
use memory.Reference.Config.{
  ConfigError, require, is_nil, id_required, no_random, grant_missing, issuer_unauthorized,
  actor_mismatch, bad_ttl, audience_not_granted, no_operation, operation_not_granted,
}
use memory.Reference.Issue.{
  IssuerAuthorization, IssueCapabilityRequest, RuntimeCapability, create_issuer_authorization,
  issue_capability, revoke_grant, live_grant, unauthenticated, labels_of, check_granted, version_of,
}
use memory.Reference.Machine.Frames.{SameAuthority}
use memory.Reference.Authority.{ViewValid-keeps, Covers, Covered, AuthorityValid}
use memory.Reference.Authority.Steps.{get-put_cases}

live_grant-eq-ok :
    (o : Option Grant) (now : Time) (grant : Grant)
    → live_grant o now ≡ ok grant
    → (o ≡ some grant) × (grant.revoked ≡ false) × (now < grant.expires_at)
live_grant-eq-ok none now grant h = absurd (cc)
live_grant-eq-ok (some g) now grant h = ground arith

unauthenticated-false :
    (o : Option Str) (auth : IssuerAuthorization) (grant : Grant)
    → unauthenticated o auth grant ≡ false
    → (o ≡ some auth.credential) × (auth.principal_ref ≡ grant.principal_ref)
unauthenticated-false none auth grant h = absurd (cc)
unauthenticated-false (some c) auth grant h =
    ground (arith, str_eq_iff c auth.credential, str_eq_iff auth.principal_ref grant.principal_ref)

require-eq-ok :
    {A : Type 0} (o : Option A) (e : ConfigError) (a : A) → require o e ≡ ok a → o ≡ some a
require-eq-ok none e a h = absurd (cc)
require-eq-ok (some b) e a h = ground arith

check_granted-subset :
    (ops allowed : List Operation) (o : Operation)
    → check_granted ops allowed ≡ ok tt
    → contains_operation ops o ≡ true
    → contains_operation allowed o ≡ true
unfolding check_granted contains
check_granted-subset [] allowed o h e = absurd (cc (e))
check_granted-subset (p ∷ ops) allowed o h e =
    >>=-from-ok (refuse (not (contains_operation allowed p)) operation_not_granted) _ h λ _ has h1.
      elim (Bool-cases (operation_eq p o)) [
        | inl same ↦
            subst (λ q. contains_operation allowed q ≡ true) ((operation_eq_iff p o).0 same)
              (ground (
                arith,
                refuse-eq-ok (not (contains_operation allowed p)) operation_not_granted has,
              ))
        | inr other ↦ check_granted-subset ops allowed o h1 (ground (arith, other, e))
      ]

-- What `IssueCapability` stores.
pub record Issued (s t : Server) (now : Time) (auth : IssuerAuthorization)
    (request : IssueCapabilityRequest) (issued : RuntimeCapability) : Type 0 where
  pub grant : Grant
  pub granted : get s.grants request.grant_ref ≡ some grant
  pub not_revoked : grant.revoked ≡ false
  pub live : now < grant.expires_at
  pub credential : get s.issuer_credentials auth.principal_ref ≡ some auth.credential
  pub principal : auth.principal_ref ≡ grant.principal_ref
  pub state : CapabilityState
  pub grant_id : state.grant_id ≡ grant.id
  pub operations : state.operations ≡ request.operations
  pub audience : state.audience ≡ request.audience
  pub actor : state.actor_ref ≡ request.actor_ref
  pub covers : Covers grant state
  pub expiry : issued.expires_at ≡ state.expires_at
  pub stored : t ≡ record s { capabilities = put s.capabilities issued.token state }

-- A capability that is issued rests on a stored grant that is neither revoked nor expired, whose
-- principal is the issuer with its stored credential; the only change to the server is that the
-- capability is stored under its token; it has the operations, the audience and the actor of the
-- request, all of them within the grant, and it expires no later than the grant.
pub issue_capability_sound :
    (s t : Server) (now later : Time) (draw : Draw) (auth : IssuerAuthorization)
    (request : IssueCapabilityRequest) (issued : RuntimeCapability)
    → issue_capability s now later draw auth request ≡ ok (issued, t)
    → Issued s t now auth request issued
unfolding issue_capability
issue_capability_sound s t now later draw auth request issued h =
    >>=-from-ok (live_grant (get s.grants request.grant_ref) now) _ h λ grant live h1.
      >>=-from-ok
        (refuse (unauthenticated (get s.issuer_credentials auth.principal_ref) auth grant)
          issuer_unauthorized)
        _ h1
        λ _ authentic h2.
          >>=-from-ok (refuse (not (str_eq request.actor_ref grant.actor_ref)) actor_mismatch) _ h2
            λ _ actor h3. >>=-from-ok (refuse (lt_bound request.ttl 1) bad_ttl) _ h3 λ _ _ h4.
              >>=-from-ok
                (refuse (not (contains_audience grant.allowed_audiences request.audience))
                  audience_not_granted)
                _ h4
                λ _ audience h5.
                  >>=-from-ok (refuse (is_nil request.operations) no_operation) _ h5 λ _ _ h6.
                    >>=-from-ok (labels_of (canonical_label_set request.labels)) _ h6 λ labels _ h7.
                      >>=-from-ok (check_granted request.operations grant.allowed_operations) _ h7
                        λ _ ops h8.
                          >>=-from-ok (require (random_token draw) no_random) _ h8 λ token _ h9.
                            let requested = later + to_nat request.ttl in
                            let expires_at =
                              if ltb grant.expires_at requested
                              then grant.expires_at
                              else requested in
                            let state : CapabilityState = record {
                              grant_id = grant.id;
                              principal_ref = grant.principal_ref;
                              view_version = version_of (get s.views grant.view_ref);
                              actor_ref = request.actor_ref;
                              audience = request.audience;
                              operations = request.operations;
                              labels = labels;
                              expires_at = expires_at;
                            } in
                            let result = ok-injective h9 in
                            let l =
                              live_grant-eq-ok (get s.grants request.grant_ref) now grant live in
                            let a =
                              unauthenticated-false (get s.issuer_credentials auth.principal_ref)
                                auth grant
                                (refuse-eq-ok
                                  (unauthenticated (get s.issuer_credentials auth.principal_ref)
                                    auth grant)
                                  issuer_unauthorized authentic) in
                            record {
                              grant = grant;
                              granted = l.0;
                              not_revoked = l.1;
                              live = l.2;
                              credential = a.0;
                              principal = a.1;
                              state = state;
                              grant_id = refl;
                              operations = refl;
                              audience = refl;
                              actor = refl;
                              covers = record {
                                principal = refl;
                                actor = (str_eq_iff request.actor_ref grant.actor_ref).0 (
                                    ground (
                                      arith,
                                      refuse-eq-ok (not (str_eq request.actor_ref grant.actor_ref))
                                          actor_mismatch actor,
                                    ));
                                audience = ground (
                                  arith,
                                  refuse-eq-ok
                                      (not (
                                        contains_audience grant.allowed_audiences request.audience))
                                      audience_not_granted audience,
                                );
                                operations = λ o e.
                                    check_granted-subset request.operations grant.allowed_operations
                                      o ops e;
                                expiry = ground arith;
                              };
                              expiry = ap (λ r. r.0.expires_at) (sym result);
                              stored =
                                  sym (ap (λ r. r.1) result)
                                  ∙ ap (λ k. record s { capabilities = put s.capabilities k state })
                                      (ap (λ r. r.0.token) result);
                            }

module _ (s t : Server) where
  pub create_issuer_authorization-Same :
      (draw : Draw) (principal : Str) (issued : IssuerAuthorization)
      → create_issuer_authorization s draw principal ≡ ok (issued, t)
      → SameAuthority s t
  unfolding create_issuer_authorization
  create_issuer_authorization-Same draw principal issued h =
      >>=-from-ok (refuse (str_eq principal []) id_required) _ h λ _ _ h1.
        >>=-from-ok (require (random_token draw) no_random) _ h1 λ credential _ h2.
          subst (SameAuthority s) (ap (λ r. r.1) (ok-injective h2))
            (record { spaces = refl; views = refl; grants = refl; capabilities = refl })

  pub revoke_grant-eq-ok :
      (grant_id : Str)
      → revoke_grant s grant_id ≡ ok t
      → (grant : Grant) × (get s.grants grant_id ≡ some grant)
        × (t ≡ record s { grants = put s.grants grant_id (record grant { revoked = true }) })
  unfolding revoke_grant
  revoke_grant-eq-ok grant_id h =
      >>=-from-ok (require (get s.grants grant_id) grant_missing) _ h λ grant found h1. (
        grant,
        require-eq-ok (get s.grants grant_id) grant_missing grant found,
        sym (ok-injective h1),
      )

module _ (s t : Server) (v : AuthorityValid s) where
  pub issue_capability-Valid :
      (now later : Time) (draw : Draw) (auth : IssuerAuthorization)
      (request : IssueCapabilityRequest) (issued : RuntimeCapability)
      → issue_capability s now later draw auth request ≡ ok (issued, t)
      → AuthorityValid t
  issue_capability-Valid now later draw auth request issued h =
      let i = issue_capability_sound s t now later draw auth request issued h in
      let id : i.grant.id ≡ request.grant_ref = v.grants request.grant_ref i.grant i.granted in
      subst AuthorityValid (sym i.stored) (record {
        classes = v.classes;
        views = λ id w e. ViewValid-keeps s _ w (λ _ _ x. x) (v.views id w e);
        grants = v.grants;
        capabilities = λ token c e.
            elim (get-put_cases s.capabilities issued.token token i.state c e) [
              | inl new ↦
                  subst (Covered s) (sym new.1)
                    (i.grant, ap (get s.grants) (i.grant_id ∙ id) ∙ i.granted, i.covers)
              | inr old ↦ v.capabilities token c old
            ];
      })

  pub revoke_grant-Valid : (grant_id : Str) → revoke_grant s grant_id ≡ ok t → AuthorityValid t
  revoke_grant-Valid grant_id h =
      let r = revoke_grant-eq-ok s t grant_id h in
      let g = r.0 in
      subst AuthorityValid (sym r.2) (record {
        classes = v.classes;
        views = λ id w e. ViewValid-keeps s _ w (λ _ _ x. x) (v.views id w e);
        grants = λ id h e.
            elim (get-put_cases s.grants grant_id id (record g { revoked = true }) h e) [
              | inl new ↦ ap (λ x. x.id) new.1 ∙ v.grants grant_id g r.1 ∙ sym new.0
              | inr old ↦ v.grants id h old
            ];
        capabilities = λ token c e.
            let covered = v.capabilities token c e in
            elim (Bool-cases (str_eq grant_id c.grant_id)) [
              | inl same ↦
                  let found : some covered.0 ≡ some g =
                    sym covered.1
                    ∙ ap (get s.grants) (sym ((str_eq_iff grant_id c.grant_id).0 same))
                    ∙ r.1 in
                  let cover : Covers g c = subst (λ x. Covers x c) (ground arith) covered.2 in
                  (
                    record g { revoked = true },
                    rw (get-put, same) refl,
                    record {
                      principal = cover.principal;
                      actor = cover.actor;
                      audience = cover.audience;
                      operations = cover.operations;
                      expiry = cover.expiry;
                    },
                  )
              | inr other ↦ (covered.0, rw (get-put, other) covered.1, covered.2)
            ];
      })
