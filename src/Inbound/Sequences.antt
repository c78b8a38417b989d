-- ===== src/Inbound/Sequences.antt =====
-- A transaction's row under each handler of backend/src/webhook-handler.ts.
use mathlib.Core.Path.{subst}
use daddy_config.Base.{
  text_equality, ℕ, Bool, true, Option, none, some, String, get, ◌≡◌, refl, arith, Outcome, ok, err,
  inl, inr, ◌==◌, if◌then◌else◌, Bool-cases, Option-cases, not,
}
use daddy_config.Transactions.State as Transactions
use daddy_config.Transactions.State.{
  TransactionStatus, TransactionKind, Transaction, completed, refunded, error, disputed, deposit,
  withdrawal, status_beq_iff, status_eq, validate_transition,
}
use daddy_config.Transactions.Update.{UpdateError, update_transaction_state}
use daddy_config.Kyc.Store.{UpsertError, invalid_status, query_failed, KycDb}
use daddy_config.Inbound.Payload.{
  Payload, World, Moment, status_of_text, or_text, DisputeEntry, cannot_raise, window_expired,
  cannot_resolve,
}
use daddy_config.Inbound.Handlers.{
  find, update_of, after_update, judge_update, handle_update, after_upsert, store_kyc, judged_tx,
  handle_kyc_update, set_status, log_dispute, check_raise, check_resolve, named, resolution_status,
  too_late, handle_dispute_raised, handle_dispute_resolved, handle_remittance_created,
  handle_sep24_update, handle_daily_limit_updated, absent,
}
use daddy_config.Inbound.Webhook.{
  EventKind, deposit_update, withdrawal_update, kyc_update, contract_created, sep24_update,
  daily_limit_updated, dispute_raised, dispute_resolved, handle,
}
use daddy_config.Inbound.Lifecycle.{
  Moves, here, raise, refund, complete, Keeps, kept, update-Keeps, kyc-Keeps, set_status-Keeps,
}

after_update-tx :
    (w : World) (o : Outcome UpdateError (Unit {0}) × Transactions.Db)
    → (after_update w o).1.tx ≡ o.1
after_update-tx w (ok _, db) = refl
after_update-tx w (err e, db) = refl

store_kyc-tx :
    (m : Moment) (p : Payload) (user anchor : Option String) (w : World)
    → (store_kyc m p user anchor w).1.tx ≡ w.tx
store_kyc-tx m p none anchor w = refl
store_kyc-tx m p (some user) none w = refl
store_kyc-tx m p (some user) (some anchor) w = elim (Bool-cases (user == "")) [
  | inl no_user ↦ rw no_user refl
  | inr user_there ↦ elim (Bool-cases (anchor == "")) [
    | inl no_anchor ↦ rw user_there (rw no_anchor refl)
    | inr anchor_there ↦ rw user_there (rw anchor_there (stored _))
  ]
]
  where
    stored : (o : Outcome UpsertError (Unit {0}) × KycDb) → (after_upsert w o).1.tx ≡ w.tx
    stored (ok _, db) = refl
    stored (err invalid_status, db) = refl
    stored (err query_failed, db) = refl

pub log_dispute-tx : (m : Moment) (e : DisputeEntry) (w : World) → (log_dispute m e w).tx ≡ w.tx
log_dispute-tx m e w = elim (Bool-cases m.audit_missing) [
  | inl missing ↦ rw missing refl
  | inr there ↦ rw there refl
]

-- The other handlers leave the transactions alone.
created-tx : (m : Moment) (p : Payload) (w : World) → (handle_remittance_created m p w).1.tx ≡ w.tx
unfolding handle_remittance_created
created-tx m p w = elim (Option-cases (absent p)) [
  | inr (field, missing) ↦ rw (missing, handle_remittance_created) refl
  | inl all_there ↦ elim (Bool-cases m.dispatch_fails) [
    | inl fails ↦ rw (all_there, handle_remittance_created) (rw fails refl)
    | inr sent ↦ rw (all_there, handle_remittance_created) (rw sent refl)
  ]
]

sep24-tx : (m : Moment) (p : Payload) (w : World) → (handle_sep24_update m p w).1.tx ≡ w.tx
unfolding handle_sep24_update
sep24-tx m p w = ground arith

limit-tx : (m : Moment) (p : Payload) (w : World) → (handle_daily_limit_updated m p w).1.tx ≡ w.tx
unfolding handle_daily_limit_updated
limit-tx m p w = ground arith

only_error :
    (is_error late : Bool)
    → (if not is_error then some cannot_raise else if late then some window_expired else none)
      ≡ none
    → is_error ≡ true
only_error is_error late h = ground arith

only_disputed :
    (is_disputed : Bool)
    → (if is_disputed then none else some cannot_resolve) ≡ none
    → is_disputed ≡ true
only_disputed is_disputed h = ground arith

checked_error :
    (now : ℕ) (p : Payload) (id : String) (w : World) (r : Transaction)
    → check_raise now p id w ≡ none
    → get id w.tx.transactions ≡ some r
    → r.status ≡ error
unfolding check_raise
checked_error now p id w r h at =
    (status_beq_iff r.status error).0
      (only_error (r.status == error) (too_late now p.failed_at) (rw (at, check_raise) at h))

checked_disputed :
    (id : String) (w : World) (r : Transaction)
    → check_resolve id w ≡ none
    → get id w.tx.transactions ≡ some r
    → r.status ≡ disputed
unfolding check_resolve
checked_disputed id w r h at =
    (status_beq_iff r.status disputed).0
      (only_disputed (r.status == disputed) (rw (at, check_resolve) at h))

settles :
    (kind : TransactionKind) (s : TransactionStatus) (resolution : Option String)
    → s ≡ disputed
    → Moves kind s (resolution_status resolution)
settles kind s none e = complete (subst (λ t. Moves kind s t) e here)
settles kind s (some r) e = elim (Bool-cases (r == "sender")) [
  | inl sender ↦ rw sender (refund (subst (λ t. Moves kind s t) e here))
  | inr other ↦ rw other (complete (subst (λ t. Moves kind s t) e here))
]

module _ (id : String) (row : Transaction) (w : World)
    (found : get id w.tx.transactions ≡ some row) where
  update_handler :
      (m : Moment) (kind : TransactionKind) (p : Payload)
      → Keeps id row (handle_update m kind p w).1.tx
  unfolding handle_update
  update_handler m kind p = elim (Option-cases (find p.transaction_id w)) [
    | inl missing ↦ rw (missing, handle_update) (kept id row w found w.tx refl)
    | inr (r, at) ↦ rw (at, handle_update) (judged (status_of_text p.status) r)
  ]
    where
      judged :
          (status : Option TransactionStatus) (r : Transaction)
          → Keeps id row (judge_update m kind p status r w).1.tx
      judged none r = kept id row w found w.tx refl
      judged (some status) r = elim (Bool-cases (validate_transition r.status status kind)) [
        | inr invalid ↦ rw invalid (kept id row w found w.tx refl)
        | inl valid ↦ rw valid (
            rw
              (after_update-tx w
                (update_transaction_state m.faults m.now (update_of p status) kind w.tx))
              (update-Keeps id row w found m (update_of p status) kind))
      ]

  kyc_handler :
      (m : Moment) (p : Payload) (anchor : String)
      → Keeps id row (handle_kyc_update m p anchor w).1.tx
  unfolding handle_kyc_update
  kyc_handler m p anchor =
      rw (store_kyc-tx m p p.user_id (or_text p.anchor_id (some anchor)) (judged_tx m p w))
        (judged p.transaction_id)
    where
      judged :
          (key : Option String)
          → Keeps id row (judged_tx m (record p { transaction_id = key }) w).tx
      judged none = kept id row w found w.tx refl
      judged (some key) = kyc-Keeps id row w found m _

  raise_handler : (m : Moment) (p : Payload) → Keeps id row (handle_dispute_raised m p w).1.tx
  unfolding handle_dispute_raised
  raise_handler m p = elim (Option-cases (named (or_text p.transaction_id p.remittance_id))) [
    | inl nameless ↦ rw (nameless, handle_dispute_raised) (kept id row w found w.tx refl)
    | inr (key, at_key) ↦ elim (Option-cases (check_raise m.now p key w)) [
      | inr (e, refusal) ↦
          rw (at_key, handle_dispute_raised) (rw refusal (kept id row w found w.tx refl))
      | inl passed ↦
          rw (at_key, handle_dispute_raised)
            (rw passed (
              rw (log_dispute-tx m _ (set_status m.now key disputed w)) (
                set_status-Keeps id row w found m.now key disputed (λ r at. raise (
                  subst (λ t. Moves r.kind r.status t) (checked_error m.now p key w r passed at)
                    here)))))
    ]
  ]

  resolve_handler : (m : Moment) (p : Payload) → Keeps id row (handle_dispute_resolved m p w).1.tx
  unfolding handle_dispute_resolved
  resolve_handler m p = elim (Option-cases (named p.admin_id)) [
    | inl nobody ↦ rw (nobody, handle_dispute_resolved) (kept id row w found w.tx refl)
    | inr (admin, at_admin) ↦
        elim (Option-cases (named (or_text p.transaction_id p.remittance_id))) [
          | inl nameless ↦
              rw (at_admin, handle_dispute_resolved) (rw nameless (kept id row w found w.tx refl))
          | inr (key, at_key) ↦ elim (Option-cases (check_resolve key w)) [
            | inr (e, refusal) ↦
                rw (at_admin, handle_dispute_resolved)
                  (rw at_key (rw refusal (kept id row w found w.tx refl)))
            | inl passed ↦
                rw (at_admin, handle_dispute_resolved)
                  (rw at_key (
                    rw passed (
                      rw
                        (log_dispute-tx m _
                          (set_status m.now key (resolution_status p.resolution) w))
                        (set_status-Keeps id row w found m.now key (resolution_status p.resolution)
                          (λ r at.
                            settles r.kind r.status p.resolution
                              (checked_disputed key w r passed at))))))
          ]
        ]
  ]

  pub handle-Keeps :
      (m : Moment) (anchor : String) (kind : EventKind) (p : Payload)
      → Keeps id row (handle m anchor kind p w).1.tx
  unfolding handle
  handle-Keeps m anchor deposit_update p = update_handler m deposit p
  handle-Keeps m anchor withdrawal_update p = update_handler m withdrawal p
  handle-Keeps m anchor kyc_update p = kyc_handler m p anchor
  handle-Keeps m anchor contract_created p = kept id row w found _ (created-tx m p w)
  handle-Keeps m anchor sep24_update p = kept id row w found _ (sep24-tx m p w)
  handle-Keeps m anchor daily_limit_updated p = kept id row w found _ (limit-tx m p w)
  handle-Keeps m anchor dispute_raised p = raise_handler m p
  handle-Keeps m anchor dispute_resolved p = resolve_handler m p
