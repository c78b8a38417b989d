-- ===== src/Inbound/Handlers.antt =====
-- The handlers of the events in backend/src/webhook-handler.ts, and `handleWebhookNotification` of
-- backend/src/sep24-service.ts with its statement in backend/src/database.ts. A handler that throws keeps
-- what it has written before.
use daddy_config.Base.{
  text_equality, ℕ, ◌+◌, ◌*◌, Bool, false, Option, none, some, [], ◌∷◌, ◌++◌, String, get, put,
  Outcome, ok, err, if◌then◌else◌, ltb, ◌==◌, or_else, not,
}
use daddy_config.Transactions.State as Transactions
use daddy_config.Transactions.State.{
  TransactionStatus, TransactionKind, Transaction, TransactionUpdate, deposit, withdrawal,
  completed, refunded, error, disputed, validate_transition, status_eq,
}
use daddy_config.Transactions.Update.{
  UpdateError, update_transaction_state, update_kyc_status, coalesce,
}
use daddy_config.Kyc.Store.{KycRecord, KycDb, UpsertError, invalid_status, query_failed, upsert}
use daddy_config.Inbound.Payload.{
  Payload, CreatedPayload, Sep24Row, World, Moment, LimitChange, DisputeEntry, HandlerError, raised,
  resolved, transaction_not_found, invalid_state_transition, missing_transaction_id, cannot_raise,
  window_expired, cannot_resolve, admin_required, kyc_status_invalid, kyc_query_failed,
  dispatch_failed, missing_field, update_failed, status_of_text, or_text,
}

abbrev pub Handled : Type 0
Handled = Outcome HandlerError (Unit {0}) × World

-- `SELECT status FROM transactions WHERE transaction_id = $1`: no row has an absent id.
abbrev pub find : Option String → World → Option Transaction
find none w = none
find (some id) w = get id w.tx.transactions

abbrev pub update_of : Payload → TransactionStatus → TransactionUpdate
update_of p status = record {
  transaction_id = or_else p.transaction_id "";
  status = status;
  status_eta = p.status_eta;
  amount_in = p.amount_in;
  amount_out = p.amount_out;
  amount_fee = p.amount_fee;
  stellar_transaction_id = p.stellar_transaction_id;
  external_transaction_id = p.external_transaction_id;
  message = p.message;
}

-- What the state manager answers, in the handler's terms.
abbrev pub after_update : World → Outcome UpdateError (Unit {0}) × Transactions.Db → Handled
after_update w (ok _, db) = (ok tt, record w { tx = db })
after_update w (err e, db) = (err (update_failed e), record w { tx = db })

abbrev pub judge_update :
    Moment → TransactionKind → Payload → Option TransactionStatus → Transaction → World → Handled
judge_update m kind p none row w = (err invalid_state_transition, w)
judge_update m kind p (some status) row w =
    if validate_transition row.status status kind
    then after_update w (update_transaction_state m.faults m.now (update_of p status) kind w.tx)
    else (err invalid_state_transition, w)

-- `handleDepositUpdate` and `handleWithdrawalUpdate`, which differ in the kind only.
unfoldable pub handle_update : Moment → TransactionKind → Payload → World → Handled
handle_update m kind p w = elim (find p.transaction_id w) [
  | none ↦ (err transaction_not_found, w)
  | some row ↦ judge_update m kind p (status_of_text p.status) row w
]

abbrev pub handle_deposit_update : Moment → Payload → World → Handled
handle_deposit_update m p w = handle_update m deposit p w

abbrev pub handle_withdrawal_update : Moment → Payload → World → Handled
handle_withdrawal_update m p w = handle_update m withdrawal p w

abbrev pub kyc_record : ℕ → Payload → String → String → KycRecord
kyc_record now p user anchor = record {
  user_id = user;
  anchor_id = anchor;
  kyc_status = p.kyc_status;
  kyc_level = p.kyc_level;
  rejection_reason = p.rejection_reason;
  verified_at = or_else p.verified_at now;
  expires_at = p.expires_at;
}

abbrev pub after_upsert : World → Outcome UpsertError (Unit {0}) × KycDb → Handled
after_upsert w (ok _, db) = (ok tt, record w { kyc = db })
after_upsert w (err invalid_status, db) = (err kyc_status_invalid, record w { kyc = db })
after_upsert w (err query_failed, db) = (err kyc_query_failed, record w { kyc = db })

-- The second half of `handleKYCUpdate`, which is skipped without a user or an anchor.
abbrev pub store_kyc : Moment → Payload → Option String → Option String → World → Handled
store_kyc m p none anchor w = (ok tt, w)
store_kyc m p (some user) none w = (ok tt, w)
store_kyc m p (some user) (some anchor) w =
    if user == ""
    then (ok tt, w)
    else if anchor == ""
    then (ok tt, w)
    else after_upsert w (upsert m.kyc_query_works (kyc_record m.now p user anchor) w.kyc)

abbrev pub judged_tx : Moment → Payload → World → World
judged_tx m p w = elim p.transaction_id [
  | none ↦ w
  | some id ↦ record w {
    tx =
        update_kyc_status m.now
          (record {
            transaction_id = id;
            kyc_status = p.kyc_status;
            kyc_fields = p.kyc_fields;
            rejection_reason = p.rejection_reason;
          })
          w.tx;
  }
]

unfoldable pub handle_kyc_update : Moment → Payload → String → World → Handled
handle_kyc_update m p anchor w =
    store_kyc m p p.user_id (or_text p.anchor_id (some anchor)) (judged_tx m p w)

-- The first required field that is absent.
abbrev pub absent : Payload → Option String
absent p = elim p.remittance_id [
  | none ↦ some "remittance_id"
  | some _ ↦ elim p.sender [
    | none ↦ some "sender"
    | some _ ↦ elim p.agent [
      | none ↦ some "agent"
      | some _ ↦ elim p.amount [
        | none ↦ some "amount"
        | some _ ↦ elim p.fee [
          | none ↦ some "fee"
          | some _ ↦ elim p.expiry [ none ↦ some "expiry" | some _ ↦ none ]
        ]
      ]
    ]
  ]
]

abbrev pub created_payload : Payload → CreatedPayload
created_payload p = record {
  remittance_id = or_else p.remittance_id "";
  sender = or_else p.sender "";
  agent = or_else p.agent "";
  amount = or_else p.amount "";
  fee = or_else p.fee "";
  expiry = or_else p.expiry "";
  platform_fee = p.platform_fee;
  protocol_fee = p.protocol_fee;
  net_amount = p.net_amount;
}

unfoldable pub handle_remittance_created : Moment → Payload → World → Handled
handle_remittance_created m p w = elim (absent p) [
  | some field ↦ (err (missing_field field), w)
  | none ↦
      let c = created_payload p in
      let stored : World = record w { contract_events = w.contract_events ++ c ∷ [] } in
      if m.dispatch_fails
      then (err dispatch_failed, stored)
      else (ok tt, record stored { dispatched = stored.dispatched ++ c ∷ [] })
]

-- `x || null`.
abbrev pub or_null : Option String → Option String
or_null x = or_text x none

abbrev pub map_anchor_status_to_internal : String → TransactionStatus
map_anchor_status_to_internal text = or_else (status_of_text text) error

abbrev pub polled : ℕ → Payload → Sep24Row → Sep24Row
polled now p row = record {
  status = map_anchor_status_to_internal p.status;
  amount_in = coalesce (or_null p.amount_in) row.amount_in;
  amount_out = coalesce (or_null p.amount_out) row.amount_out;
  amount_fee = coalesce (or_null p.amount_fee) row.amount_fee;
  stellar_transaction_id = coalesce (or_null p.stellar_transaction_id) row.stellar_transaction_id;
  external_transaction_id =
      coalesce (or_null p.external_transaction_id) row.external_transaction_id;
  message = coalesce (or_null p.message) row.message;
  last_polled = some now;
}

unfoldable pub handle_sep24_update : Moment → Payload → World → Handled
handle_sep24_update m p w = elim p.transaction_id [
  | none ↦ (ok tt, w)
  | some id ↦ elim (get id w.sep24) [
    | none ↦ (ok tt, w)
    | some row ↦ (ok tt, record w { sep24 = put id (polled m.now p row) w.sep24 })
  ]
]

-- A missing audit table is caught.
unfoldable pub handle_daily_limit_updated : Moment → Payload → World → Handled
handle_daily_limit_updated m p w =
    let change : LimitChange = record {
      currency = p.currency;
      country = p.country;
      old_limit = p.old_limit;
      new_limit = p.new_limit;
      admin_address = p.admin;
    } in
    if m.audit_missing
    then (ok tt, w)
    else (ok tt, record w { limit_changes = w.limit_changes ++ change ∷ [] })

-- `UPDATE transactions SET status = $1, updated_at = NOW()`, whatever the row holds.
unfoldable pub set_status : ℕ → String → TransactionStatus → World → World
set_status now id status w = elim (get id w.tx.transactions) [
  | none ↦ w
  | some row ↦
      let db : Transactions.Db = record w.tx {
        transactions = put id (record row { status = status; updated_at = now }) w.tx.transactions;
      } in
      record w { tx = db }
]

abbrev pub log_dispute : Moment → DisputeEntry → World → World
log_dispute m entry w =
    if m.audit_missing then w else record w { disputes = w.disputes ++ entry ∷ [] }

-- Seven days.
abbrev pub dispute_window : ℕ
dispute_window = 7 * 24 * 3600 * 1000

abbrev pub too_late : ℕ → Option ℕ → Bool
too_late now none = false
too_late now (some failed) = ltb (failed + dispute_window) now

abbrev pub named : Option String → Option String
named none = none
named (some id) = if id == "" then none else some id

-- The checks of `handleDisputeRaised` on the row that it reads. `failed`, which is allowed too, is no
-- status of a transaction.
unfoldable pub check_raise : ℕ → Payload → String → World → Option HandlerError
check_raise now p id w = elim (get id w.tx.transactions) [
  | none ↦ some transaction_not_found
  | some row ↦
      if not (row.status == error)
      then some cannot_raise
      else if too_late now p.failed_at
      then some window_expired
      else none
]

-- Its two statements that write.
abbrev pub write_raise : Moment → Payload → String → World → World
write_raise m p id w =
    log_dispute m (raised id p.sender p.evidence_hash) (set_status m.now id disputed w)

unfoldable pub handle_dispute_raised : Moment → Payload → World → Handled
handle_dispute_raised m p w = elim (named (or_text p.transaction_id p.remittance_id)) [
  | none ↦ (err missing_transaction_id, w)
  | some id ↦ elim (check_raise m.now p id w) [
    | some e ↦ (err e, w)
    | none ↦ (ok tt, write_raise m p id w)
  ]
]

abbrev pub resolution_status : Option String → TransactionStatus
resolution_status none = completed
resolution_status (some r) = if r == "sender" then refunded else completed

unfoldable pub check_resolve : String → World → Option HandlerError
check_resolve id w = elim (get id w.tx.transactions) [
  | none ↦ some transaction_not_found
  | some row ↦ if row.status == disputed then none else some cannot_resolve
]

unfoldable pub handle_dispute_resolved : Moment → Payload → World → Handled
handle_dispute_resolved m p w = elim (named p.admin_id) [
  | none ↦ (err admin_required, w)
  | some admin ↦ elim (named (or_text p.transaction_id p.remittance_id)) [
    | none ↦ (err missing_transaction_id, w)
    | some id ↦ elim (check_resolve id w) [
      | some e ↦ (err e, w)
      | none ↦ (
        ok tt,
        log_dispute m (resolved id (or_text p.admin (some admin)))
            (set_status m.now id (resolution_status p.resolution) w),
      )
    ]
  ]
]
