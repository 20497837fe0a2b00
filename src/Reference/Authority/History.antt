-- ===== src/Reference/Authority/History.antt =====
-- The administrative state is well formed after every history of the server, and what that means
-- for a call that is authorized.
use memory.Prelude.{◌≡◌, refl, sym, ◌∙◌, subst, some, some-injective, List}
use memory.Prelude.Map.{empty, get, get-empty}
use memory.Prelude.Result.{Result, ok}
use memory.Text.Bytes.{Str, Str-eq}
use memory.Reference.State.{Server, new}
use memory.Reference.Config.{Checked}
use memory.Reference.Recall.{set_available}
use memory.Reference.Remember.{Digests}
use memory.Reference.Machine.{Command, after, after_with, step, run, run-keeps}
use memory.Reference.Machine.Frames.{remember-SameAuthority}
use memory.Reference.Machine.Reads.{recall-SameStore, get_receipt_status-SameStore}
use memory.Reference.Authority.{AuthorityValid}
use memory.Reference.Authority.Steps.{
  SameAuthority-Valid, create_view-Valid, create_space-Valid, create_realm-Same,
  create_identity-Same, create_grant-Valid,
}
use memory.Reference.Authority.Issued.{
  issue_capability-Valid, create_issuer_authorization-Same, revoke_grant-Valid,
}

after-Valid :
    (s : Server) (r : Checked Server)
    → AuthorityValid s
    → ((t : Server) → r ≡ ok t → AuthorityValid t)
    → AuthorityValid (after s r)
after-Valid s (Result.ok t) v f = f t refl
after-Valid s (Result.err e) v f = v

after_with-Valid :
    {A : Type 0} (s : Server) (r : Checked (A × Server))
    → AuthorityValid s
    → ((a : A) (t : Server) → r ≡ ok (a, t) → AuthorityValid t)
    → AuthorityValid (after_with s r)
after_with-Valid s (Result.ok (a, t)) v f = f a t refl
after_with-Valid s (Result.err e) v f = v

module _ (d : Digests) (to_lower : Str → Str) where
  step-Valid : (s : Server) (c : Command) → AuthorityValid s → AuthorityValid (step d to_lower s c)
  unfolding step set_available
  step-Valid s (Command.create_realm realm) v =
      after-Valid s _ v λ t h. SameAuthority-Valid s t (create_realm-Same s t realm h) v
  step-Valid s (Command.create_identity identity) v =
      after-Valid s _ v λ t h. SameAuthority-Valid s t (create_identity-Same s t identity h) v
  step-Valid s (Command.create_space space) v =
      after-Valid s _ v λ t h. create_space-Valid s t v space h
  step-Valid s (Command.create_view view) v =
      after-Valid s _ v λ t h. create_view-Valid s t v view h
  step-Valid s (Command.create_grant now grant) v =
      after-Valid s _ v λ t h. create_grant-Valid s t v now grant h
  step-Valid s (Command.create_issuer_authorization draw principal) v =
      after_with-Valid s _ v
        λ a t h. SameAuthority-Valid s t (create_issuer_authorization-Same s t draw principal a h) v
  step-Valid s (Command.issue_capability now later draw auth request) v =
      after_with-Valid s _ v λ a t h. issue_capability-Valid s t v now later draw auth request a h
  step-Valid s (Command.revoke_grant grant_id) v =
      after-Valid s _ v λ t h. revoke_grant-Valid s t v grant_id h
  step-Valid s (Command.remember ctx at now draw auth request) v =
      SameAuthority-Valid s _ (remember-SameAuthority d ctx at now draw auth request s) v
  step-Valid s (Command.recall ctx at auth request) v =
      SameAuthority-Valid s _ ((recall-SameStore to_lower ctx at auth request).at s).authority v
  step-Valid s (Command.get_receipt_status ctx at auth id) v =
      SameAuthority-Valid s _ ((get_receipt_status-SameStore ctx at auth id).at s).authority v
  step-Valid s (Command.set_available b) v =
      SameAuthority-Valid s _
        (record { spaces = refl; views = refl; grants = refl; capabilities = refl }) v

  missing : {A V : Type 0} (k : Str) (x : V) → get (empty {K = Str} {V = V}) k ≡ some x → A
  missing k x e = absurd (cc (sym (get-empty k) ∙ e))

  -- From a new server, after every sequence of commands, the administrative state is well formed:
  -- every Space is private or shared, every View reads Spaces of its realm, discloses as private
  -- if one of them is private and writes only what it reads, every grant is stored under its
  -- identifier, and every capability gives no more than its stored grant.
  pub run-Valid :
      (raw : Str) (s : Server) (cs : List Command)
      → new (some raw) ≡ some s
      → AuthorityValid (run d to_lower s cs)
  unfolding new
  run-Valid raw s cs start = run-keeps d to_lower AuthorityValid step-Valid s cs (
      subst AuthorityValid (some-injective start) (record {
        classes = λ id space e. missing id space e;
        views = λ id view e. missing id view e;
        grants = λ id grant e. missing id grant e;
        capabilities = λ token c e. missing token c e;
      }))
