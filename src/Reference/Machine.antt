-- ===== src/Reference/Machine.antt =====
-- The server as a state machine: every exported operation as a command, run one after another.
pub mod Frames
pub mod Reads
use memory.Prelude.{Bool, Option, some, none, List, [], ◌∷◌}
use memory.Prelude.Result.{Result}
use memory.Text.Bytes.{Str}
use memory.Requests.{Time, RememberRequest, RecallRequest}
use memory.Reference.Types.{Realm, Identity, Space, ViewDefinition, Grant, CallAuthorization}
use memory.Reference.State.{Server, Context, Draw, Outcome}
use memory.Reference.Config.{Checked}
use memory.Reference.Config
use memory.Reference.Issue.{IssuerAuthorization, IssueCapabilityRequest}
use memory.Reference.Issue
use memory.Reference.Authorize.{Readings}
use memory.Reference.Remember.{Digests}
use memory.Reference.Remember
use memory.Reference.Recall
use memory.Reference.State

pub data Command : Type 0 where
  create_realm : Realm → Command
  create_identity : Identity → Command
  create_space : Space → Command
  create_view : ViewDefinition → Command
  create_grant : Time → Grant → Command
  create_issuer_authorization : Draw → Str → Command
  issue_capability : Time → Time → Draw → IssuerAuthorization → IssueCapabilityRequest → Command
  revoke_grant : Str → Command
  remember : Context → Readings → Time → Draw → CallAuthorization → RememberRequest → Command
  recall : Context → Readings → CallAuthorization → RecallRequest → Command
  get_receipt_status : Context → Readings → CallAuthorization → Str → Command
  set_available : Bool → Command

-- The server after an operation that may fail; a failed one leaves it as it was.
abbrev pub after : Server → Checked Server → Server
after s (Result.ok t) = t
after s (Result.err e) = s

abbrev pub after_with : {A : Type 0} → Server → Checked (A × Server) → Server
after_with s (Result.ok (a, t)) = t
after_with s (Result.err e) = s

module _ (d : Digests) (to_lower : Str → Str) where
  unfoldable pub step : Server → Command → Server
  step s (create_realm realm) = after s (Config.create_realm s realm)
  step s (create_identity identity) = after s (Config.create_identity s identity)
  step s (create_space space) = after s (Config.create_space s space)
  step s (create_view view) = after s (Config.create_view s view)
  step s (create_grant now grant) = after s (Config.create_grant s now grant)
  step s (create_issuer_authorization draw principal) =
      after_with s (Issue.create_issuer_authorization s draw principal)
  step s (issue_capability now later draw auth request) =
      after_with s (Issue.issue_capability s now later draw auth request)
  step s (revoke_grant grant_id) = after s (Issue.revoke_grant s grant_id)
  step s (remember ctx at now draw auth request) =
      (Remember.remember d ctx at now draw auth request s).1
  step s (recall ctx at auth request) = (Recall.recall to_lower ctx at auth request s).1
  step s (get_receipt_status ctx at auth id) = (Recall.get_receipt_status ctx at auth id s).1
  step s (set_available b) = Recall.set_available b s

  unfoldable pub run : Server → List Command → Server
  run s [] = s
  run s (c ∷ cs) = run (step s c) cs

  -- What holds of a server and is kept by each command holds after every history.
  pub run-keeps {ℓ} :
      (P : Server → Type ℓ)
      → ((s : Server) (c : Command) → P s → P (step s c))
      → (s : Server) (cs : List Command) → P s
      → P (run s cs)
  unfolding run
  run-keeps P keep s [] p = p
  run-keeps P keep s (c ∷ cs) p = run-keeps P keep (step s c) cs (keep s c p)
