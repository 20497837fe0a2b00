-- ===== src/Reference/Authority/Revoked.antt =====
-- A grant that is revoked stays revoked, and no capability that was issued under it serves again.
use memory.Prelude.{◌≡◌, ◌≢◌, refl, sym, ap, ◌∙◌, true, Bool-cases, some, inl, inr, List}
use memory.Prelude.Map.{get, get-put}
use memory.Prelude.Result.{Result, ok}
use memory.Text.Bytes.{Str, Str-eq, str_eq, str_eq_iff}
use memory.Labels.{LabelSet}
use memory.Reference.Types.{Grant, Operation, CapabilityState, ViewDefinition, CallAuthorization}
use memory.Reference.State.{Server}
use memory.Reference.Config.{Checked}
use memory.Reference.Issue
use memory.Reference.Recall
use memory.Reference.Remember
use memory.Reference.Recall.{set_available}
use memory.Reference.Authorize.{Readings, authorization}
use memory.Reference.Authorize.Decision.{authorization_sound}
use memory.Reference.Remember.{Digests}
use memory.Reference.Machine.{Command, after, after_with, step, run, run-keeps}
use memory.Reference.Machine.Frames.{remember-SameAuthority}
use memory.Reference.Machine.Reads.{recall-SameStore, get_receipt_status-SameStore}
use memory.Reference.Authority.Views.{create_view-eq-ok}
use memory.Reference.Authority.Steps.{
  get-put_fresh, create_realm-Same, create_identity-Same, create_space-grants, create_grant-eq-ok,
}
use memory.Reference.Authority.Issued.{
  issue_capability_sound, create_issuer_authorization-Same, revoke_grant-eq-ok,
}

abbrev pub Revoked : Server → Str → Type 0
Revoked s id = (grant : Grant) × (get s.grants id ≡ some grant) × (grant.revoked ≡ true)

same_grants : (s t : Server) (id : Str) → t.grants ≡ s.grants → Revoked s id → Revoked t id
same_grants s t id e r = (r.0, ap (λ m. get m id) e ∙ r.1, r.2)

after-Revoked :
    (s : Server) (id : Str) (r : Checked Server)
    → Revoked s id
    → ((t : Server) → r ≡ ok t → Revoked t id)
    → Revoked (after s r) id
after-Revoked s id (Result.ok t) v f = f t refl
after-Revoked s id (Result.err e) v f = v

after_with-Revoked :
    {A : Type 0} (s : Server) (id : Str) (r : Checked (A × Server))
    → Revoked s id
    → ((a : A) (t : Server) → r ≡ ok (a, t) → Revoked t id)
    → Revoked (after_with s r) id
after_with-Revoked s id (Result.ok (a, t)) v f = f a t refl
after_with-Revoked s id (Result.err e) v f = v

revoke-Revoked :
    (s t : Server) (id other : Str)
    → Issue.revoke_grant s other ≡ ok t
    → Revoked s id
    → Revoked t id
revoke-Revoked s t id other h r =
    let made = revoke_grant-eq-ok s t other h in
    elim (Bool-cases (str_eq other id)) [
      | inl same ↦ (record made.0 { revoked = true }, rw (made.2, get-put, same) refl, refl)
      | inr differs ↦ (r.0, rw (made.2, get-put, differs) r.1, r.2)
    ]

pub revoke_grant-Revoked : (s t : Server) (id : Str) → Issue.revoke_grant s id ≡ ok t → Revoked t id
revoke_grant-Revoked s t id h =
    let made = revoke_grant-eq-ok s t id h in
    (record made.0 { revoked = true }, rw (made.2, get-put, (str_eq_iff id id).1 refl) refl, refl)

module _ (d : Digests) (to_lower : Str → Str) (id : Str) where
  step-Revoked : (s : Server) (c : Command) → Revoked s id → Revoked (step d to_lower s c) id
  unfolding step set_available
  step-Revoked s (Command.create_realm realm) r =
      after-Revoked s id _ r λ t h. same_grants s t id (create_realm-Same s t realm h).grants r
  step-Revoked s (Command.create_identity identity) r =
      after-Revoked s id _ r
        λ t h. same_grants s t id (create_identity-Same s t identity h).grants r
  step-Revoked s (Command.create_space space) r =
      after-Revoked s id _ r λ t h. same_grants s t id (create_space-grants s t space h) r
  step-Revoked s (Command.create_view view) r =
      after-Revoked s id _ r
        λ t h. same_grants s t id (ap (λ x. x.grants) (create_view-eq-ok s t view h).0) r
  step-Revoked s (Command.create_grant now grant) r = after-Revoked s id _ r λ t h.
      let made = create_grant-eq-ok s t now grant h in
      (
        r.0,
        ap (λ x. get x.grants id) made.1 ∙ get-put_fresh s.grants grant.id id grant r.0 made.0 r.1,
        r.2,
      )
  step-Revoked s (Command.create_issuer_authorization draw principal) r =
      after_with-Revoked s id _ r λ a t h.
        same_grants s t id (create_issuer_authorization-Same s t draw principal a h).grants r
  step-Revoked s (Command.issue_capability now later draw auth request) r =
      after_with-Revoked s id _ r λ a t h.
        same_grants s t id
          (ap (λ x. x.grants) (issue_capability_sound s t now later draw auth request a h).stored) r
  step-Revoked s (Command.revoke_grant grant_id) r =
      after-Revoked s id _ r λ t h. revoke-Revoked s t id grant_id h r
  step-Revoked s (Command.remember ctx at now draw auth request) r =
      same_grants s (Remember.remember d ctx at now draw auth request s).1 id
        (remember-SameAuthority d ctx at now draw auth request s).grants r
  step-Revoked s (Command.recall ctx at auth request) r =
      same_grants s (Recall.recall to_lower ctx at auth request s).1 id
        ((recall-SameStore to_lower ctx at auth request).at s).authority.grants r
  step-Revoked s (Command.get_receipt_status ctx at auth receipt_id) r =
      same_grants s (Recall.get_receipt_status ctx at auth receipt_id s).1 id
        ((get_receipt_status-SameStore ctx at auth receipt_id).at s).authority.grants r
  step-Revoked s (Command.set_available b) r = r

  -- Once a grant is revoked, after every further sequence of commands, no call with a capability
  -- that was issued under that grant is authorized, for any operation and at any time.
  pub revoke_grant-run :
      (s t : Server) (cs : List Command) (at : Readings) (auth : CallAuthorization)
      (operation : Operation) (c : CapabilityState) (v : ViewDefinition × LabelSet)
      → Issue.revoke_grant s id ≡ ok t
      → get (run d to_lower t cs).capabilities auth.capability ≡ some c
      → c.grant_id ≡ id
      → authorization (run d to_lower t cs) at auth operation ≢ ok v
  revoke_grant-run s t cs at auth operation c v h known under granted =
      let r =
        run-keeps d to_lower (λ u. Revoked u id) step-Revoked t cs
          (revoke_grant-Revoked s t id h) in
      let a = authorization_sound (run d to_lower t cs) at auth operation v.0 v.1 granted in
      let state : a.state ≡ c = cc (a.known, known) in
      let found : get (run d to_lower t cs).grants id ≡ some a.grant =
        ap (λ i. get (run d to_lower t cs).grants i) (sym under ∙ ap (λ x. x.grant_id) (sym state))
        ∙ a.granted in
      let same : a.grant ≡ r.0 = cc (found, r.1) in cc (same, r.2, a.not_revoked)
