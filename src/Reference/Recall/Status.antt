-- ===== src/Reference/Recall/Status.antt =====
-- What the status of a receipt discloses.
use memory.Prelude.{◌≡◌, refl, arith, true, false, not, ◌||◌, Option, none, some, [], contains}
use memory.Prelude.Map.{get}
use memory.Prelude.Result.{Result}
use memory.Text.Bytes.{Str, Str-eq, str_eq}
use memory.Labels.{LabelSet, labels_eq, labels_eq_iff}
use memory.Reference.Types.{Operation, ViewDefinition, Receipt, CallAuthorization}
use memory.Reference.State.{
  Server, Context, text, invalid_argument, not_found, check_context, check_available, refuse, fail,
}
use memory.Reference.Authorize.{Readings, authorization, authorize}
use memory.Reference.Recall.{ReceiptStatus, status_of, get_receipt_status}
use memory.Reference.Gates.{check_context-Gate, check_available-Gate, refuse-Gate, authorize-Gate}
use memory.Reference.Recall.Returned.{Returned, Returned-Gate}

-- The status is that of a stored receipt in the partition and the Spaces of the call.
pub record Reported (s : Server) (at : Readings) (auth : CallAuthorization) (receipt_id : Str)
    (status : ReceiptStatus) : Type 0 where
  pub view : ViewDefinition
  pub labels : LabelSet
  pub granted : authorization s at auth Operation.receipt_status ≡ Result.ok (view, labels)
  pub receipt : Receipt
  pub stored : get s.receipts receipt_id ≡ some receipt
  pub readable : contains view.read_space_ids receipt.space_id ≡ true
  pub exact : receipt.labels ≡ labels
  pub same_id : status.receipt_id ≡ receipt.id
  pub same_state : status.state ≡ receipt.processing_state
  pub same_time : status.accepted_at ≡ receipt.received_at

module _ (s : Server) (at : Readings) (auth : CallAuthorization) (receipt_id : Str) where
  status_of-Reported :
      (o : Option Receipt) (v : ViewDefinition × LabelSet)
      → get s.receipts receipt_id ≡ o
      → authorization s at auth Operation.receipt_status ≡ Result.ok v
      → Returned (λ status _. Reported s at auth receipt_id status) (status_of o v.0 v.1 s)
  unfolding status_of fail
  status_of-Reported none v stored granted = tt
  status_of-Reported (some receipt) v stored granted =
      Returned-Gate (λ status _. Reported s at auth receipt_id status)
        (refuse
          (not (contains v.0.read_space_ids receipt.space_id) || not (labels_eq receipt.labels v.1))
          not_found (text "receipt not found") false)
        _ _ s
        (refuse-Gate
          (not (contains v.0.read_space_ids receipt.space_id) || not (labels_eq receipt.labels v.1))
          _ _ _ s)
        λ _ passed. record {
          view = v.0;
          labels = v.1;
          granted = granted;
          receipt = receipt;
          stored = stored;
          readable = ground (arith, passed);
          exact = (labels_eq_iff receipt.labels v.1).0 (ground (arith, passed));
          same_id = refl;
          same_state = refl;
          same_time = refl;
        }

  -- A receipt status that is returned was asked for by a call that is authorized in some View and
  -- partition, and it is the state and the time of the receipt stored under that identifier,
  -- which lies in a Space that the View reads and has exactly the labels of the partition.
  pub get_receipt_status-Reported :
      (ctx : Context)
      → Returned
          (λ status _. Reported s at auth receipt_id status)
          (get_receipt_status ctx at auth receipt_id s)
  unfolding get_receipt_status
  get_receipt_status-Reported ctx =
      Returned-Gate Q (check_context ctx false) _ _ s (check_context-Gate ctx false s) λ _ _.
        Returned-Gate Q check_available _ _ s (check_available-Gate s) λ _ _.
          Returned-Gate Q
            (refuse (str_eq receipt_id []) invalid_argument (text "receipt_id is required") false) _
            _ s (refuse-Gate (str_eq receipt_id []) _ _ _ s)
            λ _ _.
              Returned-Gate Q (authorize at auth Operation.receipt_status) _ _ s
                (authorize-Gate at auth Operation.receipt_status s)
                λ v granted. status_of-Reported (get s.receipts receipt_id) v refl granted
    where
      Q : ReceiptStatus → Server → Type 0
      Q status t = Reported s at auth receipt_id status
