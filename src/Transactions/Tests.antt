-- ===== src/Transactions/Tests.antt =====
-- The theorems on transactions at concrete inputs.
use daddy_config.Base.{text_equality, none, some, List, [], ◌∷◌, get, ok, err, ◌≡◌, ◌↔◌, refl}
use daddy_config.Transactions.State.{
  Transaction, TransactionUpdate, TransactionStatus, Db, deposit, withdrawal,
  pending_user_transfer_start, pending_anchor, pending_user, completed, validate_transition,
}
use daddy_config.Transactions.Update.{
  UpdateError, update_transaction_state, body, select_status, invalid_transition,
}
use daddy_config.Transactions.Graph.{LeadsTo, diagram, IsReachable, IsFinal}
use daddy_config.Transactions.Laws.{sound, update_outcome, Applies, applied}
use daddy_config.Transactions.Runs.{Event, state_update, run, run-Follows}

abbrev row_at : TransactionStatus → Transaction
row_at s = record {
  kind = deposit;
  status = s;
  status_eta = none;
  amount_in = some "10";
  amount_out = none;
  amount_fee = none;
  stellar_transaction_id = none;
  external_transaction_id = none;
  message = none;
  kyc_status = none;
  kyc_fields = none;
  kyc_rejection_reason = none;
  updated_at = 0;
}

abbrev db_at : TransactionStatus → Db
db_at s = record { transactions = ("t", row_at s) ∷ []; history = [] }

abbrev to : TransactionStatus → TransactionUpdate
to s = record {
  transaction_id = "t";
  status = s;
  status_eta = none;
  amount_in = none;
  amount_out = some "9";
  amount_fee = none;
  stellar_transaction_id = none;
  external_transaction_id = none;
  message = none;
}

refused :
    update_transaction_state sound 5 (to completed) deposit (db_at pending_anchor)
    ≡ (err invalid_transition, db_at pending_anchor)
unfolding update_transaction_state body select_status validate_transition get
refused = refl

diagram_example :
    (LeadsTo withdrawal pending_user_transfer_start completed ↔ IsReachable withdrawal completed)
    × (IsReachable withdrawal completed
        → (t : TransactionStatus) × LeadsTo withdrawal completed t × IsFinal t)
diagram_example = diagram withdrawal completed

update_outcome_example :
    let o = update_transaction_state sound 5 (to pending_user) deposit (db_at pending_anchor) in
    ((o.0 ≡ ok tt) ↔ Applies sound (to pending_user) deposit (db_at pending_anchor))
    × ((a : Applies sound (to pending_user) deposit (db_at pending_anchor))
        → o.1 ≡ applied 5 (to pending_user) a.row (db_at pending_anchor))
    × ((e : UpdateError) → o.0 ≡ err e → o.1 ≡ db_at pending_anchor)
update_outcome_example = update_outcome sound 5 (to pending_user) deposit (db_at pending_anchor)

abbrev updates : List Event
updates =
    state_update sound 5 (to pending_user) deposit
    ∷ state_update sound 6 (to completed) deposit
    ∷ []

run-Follows_example :
    (row' : Transaction) × (get "t" (run updates (db_at pending_anchor)).transactions ≡ some row')
    × (row'.kind ≡ deposit)
    × LeadsTo deposit pending_anchor row'.status
unfolding get
run-Follows_example = run-Follows updates (db_at pending_anchor) "t" (row_at pending_anchor) refl
