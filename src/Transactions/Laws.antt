-- ===== src/Transactions/Laws.antt =====
-- What an update of backend/src/transaction-state.ts does to the database, and what it never does.
use daddy_config.Base.{
  text_equality, ℕ, true, false, none, some, [], ◌∷◌, ◌++◌, get, put, get-put, Outcome, ok, err,
  ◌≡◌, ◌≢◌, ◌↔◌, refl, sym, ap, arith, Option-cases, inl, inr,
}
use text.Mathlib.TextEquality.{eq_iff}
use daddy_config.Transactions.State.{
  TransactionKind, TransactionUpdate, Transaction, HistoryRow, Db, validate_transition, kind_beq,
}
use daddy_config.Transactions.Update.{
  UpdateError, Faults, updated, update_transaction_state, body, commit, select_status, write_row,
  log_transition,
}

abbrev pub sound : Faults
sound = record {
  at_begin = false;
  at_select = false;
  at_update = false;
  at_history = false;
  at_commit = false;
}

kind_beq-eq : (a b : TransactionKind) → kind_beq a b ≡ true → a ≡ b
kind_beq-eq a b h = ground arith

kind_beq_refl : (a : TransactionKind) → kind_beq a a ≡ true
kind_beq_refl a = ground arith

-- The statements of a valid update, one after another, on a row that is there.
module _ (now : ℕ) (u : TransactionUpdate) (db : Db) (row : Transaction)
    (found : get u.transaction_id db.transactions ≡ some row) where
  write_found :
      write_row now u row.kind db
      ≡ record db { transactions = put u.transaction_id (updated now u row) db.transactions }
  unfolding write_row
  write_found = ground (arith, kind_beq_refl row.kind)

  select_found : select_status false u.transaction_id row.kind db ≡ ok (row.status, db)
  unfolding select_status
  select_found = ground (arith, kind_beq_refl row.kind)

  abbrev logged : HistoryRow
  logged = record {
    transaction_id = u.transaction_id;
    from_status = u.status;
    to_status = u.status;
    changed_at = now;
  }

  abbrev after : Db
  after = record {
    transactions = put u.transaction_id (updated now u row) db.transactions;
    history = db.history ++ logged ∷ [];
  }

  log_found :
      log_transition now u
        (record db { transactions = put u.transaction_id (updated now u row) db.transactions })
      ≡ after
  unfolding log_transition
  log_found = ground (
    arith,
    eq_iff u.transaction_id u.transaction_id,
    get-put u.transaction_id u.transaction_id (updated now u row) db.transactions,
  )

  pub update_found :
      validate_transition row.status u.status row.kind ≡ true
      → update_transaction_state sound now u row.kind db ≡ (ok tt, after)
  unfolding update_transaction_state body
  update_found valid = rw (select_found, valid, write_found, log_found)

-- What must hold for an update to go through.
pub record Applies (faults : Faults) (u : TransactionUpdate) (kind : TransactionKind) (db : Db)
    : Type 0 where
  pub row : Transaction
  pub found : get u.transaction_id db.transactions ≡ some row
  pub same_kind : row.kind ≡ kind
  pub valid : validate_transition row.status u.status kind ≡ true
  pub no_begin : faults.at_begin ≡ false
  pub no_select : faults.at_select ≡ false
  pub no_update : faults.at_update ≡ false
  pub no_history : faults.at_history ≡ false
  pub no_commit : faults.at_commit ≡ false

body_ok :
    (faults : Faults) (now : ℕ) (u : TransactionUpdate) (kind : TransactionKind) (db : Db)
    (row : Transaction) (d : Db)
    → get u.transaction_id db.transactions ≡ some row
    → body faults now u kind db ≡ ok (tt, d)
    → Applies faults u kind db
unfolding body select_status
body_ok faults now u kind db row d found h = record {
  row = row;
  found = found;
  same_kind = kind_beq-eq row.kind kind (ground arith);
  valid = ground arith;
  no_begin = ground arith;
  no_select = ground arith;
  no_update = ground arith;
  no_history = ground arith;
  no_commit = ground arith;
}

body_missing :
    (faults : Faults) (now : ℕ) (u : TransactionUpdate) (kind : TransactionKind) (db d : Db)
    → get u.transaction_id db.transactions ≡ none
    → body faults now u kind db ≢ ok (tt, d)
unfolding body select_status
body_missing faults now u kind db d missing h = ground arith

commit_ok :
    (db : Db) (b : Outcome UpdateError ((Unit {0}) × Db))
    → (commit db b).0 ≡ ok tt
    → (d : Db) × (b ≡ ok (tt, d))
commit_ok db (ok (_, d)) h = (d, refl)
commit_ok db (err e) h = cc

update_Applies :
    (faults : Faults) (now : ℕ) (u : TransactionUpdate) (kind : TransactionKind) (db : Db)
    → (update_transaction_state faults now u kind db).0 ≡ ok tt
    → Applies faults u kind db
unfolding update_transaction_state
update_Applies faults now u kind db h =
    let (d, b) = commit_ok db (body faults now u kind db) h in
    elim (Option-cases (get u.transaction_id db.transactions)) [
      | inl missing ↦ absurd (body_missing faults now u kind db d missing b)
      | inr (row, found) ↦ body_ok faults now u kind db row d found b
    ]

-- A history row for `u`, whose two statuses are the new one.
abbrev pub logged_row : ℕ → TransactionUpdate → HistoryRow
logged_row now u = record {
  transaction_id = u.transaction_id;
  from_status = u.status;
  to_status = u.status;
  changed_at = now;
}

abbrev pub applied : ℕ → TransactionUpdate → Transaction → Db → Db
applied now u row db = record {
  transactions = put u.transaction_id (updated now u row) db.transactions;
  history = db.history ++ logged_row now u ∷ [];
}

Applies-eq :
    (faults : Faults) (now : ℕ) (u : TransactionUpdate) (kind : TransactionKind) (db : Db)
    (a : Applies faults u kind db)
    → update_transaction_state faults now u kind db ≡ (ok tt, applied now u a.row db)
Applies-eq faults now u kind db a =
    let no_faults : faults ≡ sound = ground arith in
    rw no_faults
      (rw (sym a.same_kind) (update_found now u db a.row a.found (rw a.same_kind a.valid)))

update_error :
    (faults : Faults) (now : ℕ) (u : TransactionUpdate) (kind : TransactionKind) (db : Db)
    (e : UpdateError)
    → (update_transaction_state faults now u kind db).0 ≡ err e
    → (update_transaction_state faults now u kind db).1 ≡ db
unfolding update_transaction_state
update_error faults now u kind db e h = ground arith

-- An update goes through exactly when no statement fails, the row is there with the kind that is
-- asked for, and the table allows the transition from the row's status. It then merges the update
-- into that row and appends one history row, whose two statuses are both the new one. In every
-- other case it leaves the database as it was.
pub update_outcome :
    (faults : Faults) (now : ℕ) (u : TransactionUpdate) (kind : TransactionKind) (db : Db)
    → let o = update_transaction_state faults now u kind db in
      ((o.0 ≡ ok tt) ↔ Applies faults u kind db)
      × ((a : Applies faults u kind db) → o.1 ≡ applied now u a.row db)
      × ((e : UpdateError) → o.0 ≡ err e → o.1 ≡ db)
update_outcome faults now u kind db = (
  (
    update_Applies faults now u kind db,
    λ a. ap (λ (o : Outcome UpdateError (Unit {0}) × Db). o.0) (Applies-eq faults now u kind db a),
  ),
  λ a. ap (λ (o : Outcome UpdateError (Unit {0}) × Db). o.1) (Applies-eq faults now u kind db a),
  update_error faults now u kind db,
)
