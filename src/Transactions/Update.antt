-- ===== src/Transactions/Update.antt =====
-- backend/src/transaction-state.ts: `updateTransactionState`, one database transaction with its
-- rollback, and `updateKYCStatus`. The statements are read as SQL defines them: each sees what the
-- ones before it in the transaction have written. The row lock makes a call one step.
use daddy_config.Base.{
  text_equality, ℕ, Bool, Option, none, some, [], ◌∷◌, ◌++◌, String, get, put, Outcome, ok, err,
  if◌then◌else◌,
}
use daddy_config.Transactions.State.{
  TransactionStatus, TransactionKind, TransactionUpdate, KycUpdate, Transaction, Db,
  validate_transition, kind_beq,
}

pub data UpdateError : Type 0 where
  not_found invalid_transition query_failed : UpdateError

-- Which of the statements fail, for reasons of the database's own.
pub record Faults : Type 0 where
  pub at_begin : Bool
  pub at_select : Bool
  pub at_update : Bool
  pub at_history : Bool
  pub at_commit : Bool

-- A statement of the transaction: what it makes of the data, or an error.
abbrev pub Tx : Type 0 → Type 0
Tx A = Db → Outcome UpdateError (A × Db)

abbrev pub then_do :
    {A B : Type 0} → Outcome UpdateError (A × Db) → (A → Tx B) → Outcome UpdateError (B × Db)
then_do (ok (a, db)) f = f a db
then_do (err e) f = err e

infixl 5 ◌>>=◌ ◌>>◌
abbrev pub ◌>>=◌ : {A B : Type 0} → Tx A → (A → Tx B) → Tx B
◌>>=◌ m f = λ db. then_do (m db) f

abbrev pub ◌>>◌ : {B : Type 0} → Tx (Unit {0}) → Tx B → Tx B
m >> k = m >>= λ _. k

abbrev query : Bool → (Db → Db) → Tx (Unit {0})
query fails f db = if fails then err query_failed else ok (tt, f db)

-- `SELECT status … WHERE transaction_id = $1 AND kind = $2 FOR UPDATE`; no row is the error.
unfoldable pub select_status : Bool → String → TransactionKind → Tx TransactionStatus
select_status fails id kind db = elim (get id db.transactions) [
  | none ↦ if fails then err query_failed else err not_found
  | some row ↦
      if fails
      then err query_failed
      else if kind_beq row.kind kind
      then ok (row.status, db)
      else err not_found
]

-- `COALESCE($n, column)`.
abbrev pub coalesce {ℓ} : {A : Type ℓ} → Option A → Option A → Option A
coalesce none old = old
coalesce (some a) old = some a

abbrev pub updated : ℕ → TransactionUpdate → Transaction → Transaction
updated now u row = record row {
  status = u.status;
  status_eta = u.status_eta;
  amount_in = coalesce u.amount_in row.amount_in;
  amount_out = coalesce u.amount_out row.amount_out;
  amount_fee = coalesce u.amount_fee row.amount_fee;
  stellar_transaction_id = coalesce u.stellar_transaction_id row.stellar_transaction_id;
  external_transaction_id = coalesce u.external_transaction_id row.external_transaction_id;
  message = coalesce u.message row.message;
  updated_at = now;
}

-- `UPDATE transactions … WHERE transaction_id = $9 AND kind = $10`.
unfoldable pub write_row : ℕ → TransactionUpdate → TransactionKind → Db → Db
write_row now u kind db = elim (get u.transaction_id db.transactions) [
  | none ↦ db
  | some row ↦
      if kind_beq row.kind kind
      then record db { transactions = put u.transaction_id (updated now u row) db.transactions }
      else db
]

-- `INSERT INTO transaction_state_history … SELECT transaction_id, status, $1, NOW() …`: the
-- status that it selects is the one that the row has by now.
unfoldable pub log_transition : ℕ → TransactionUpdate → Db → Db
log_transition now u db = elim (get u.transaction_id db.transactions) [
  | none ↦ db
  | some row ↦ record db {
    history =
        db.history
        ++ record {
          transaction_id = u.transaction_id;
          from_status = row.status;
          to_status = u.status;
          changed_at = now;
        }
          ∷ [];
  }
]

-- `throw` unless the transition is valid.
abbrev check_transition : TransactionUpdate → TransactionKind → TransactionStatus → Tx (Unit {0})
check_transition u kind current db =
    if validate_transition current u.status kind then ok (tt, db) else err invalid_transition

unfoldable pub body : Faults → ℕ → TransactionUpdate → TransactionKind → Tx (Unit {0})
body faults now u kind = do
  query faults.at_begin (λ db. db)
  current ← select_status faults.at_select u.transaction_id kind
  check_transition u kind current
  query faults.at_update (write_row now u kind)
  query faults.at_history (log_transition now u)
  query faults.at_commit (λ db. db)

-- `catch`: the transaction is rolled back and the error thrown on.
abbrev pub commit : Db → Outcome UpdateError ((Unit {0}) × Db) → Outcome UpdateError (Unit {0}) × Db
commit before (ok (_, db)) = (ok tt, db)
commit before (err e) = (err e, before)

unfoldable pub update_transaction_state :
    Faults → ℕ → TransactionUpdate → TransactionKind → Db → Outcome UpdateError (Unit {0}) × Db
update_transaction_state faults now u kind db = commit db (body faults now u kind db)

abbrev pub judged : ℕ → KycUpdate → Transaction → Transaction
judged now u row = record row {
  kyc_status = some u.kyc_status;
  kyc_fields = coalesce u.kyc_fields row.kyc_fields;
  kyc_rejection_reason = u.rejection_reason;
  updated_at = now;
}

-- `UPDATE transactions SET kyc_status … WHERE transaction_id = $4`.
unfoldable pub update_kyc_status : ℕ → KycUpdate → Db → Db
update_kyc_status now u db = elim (get u.transaction_id db.transactions) [
  | none ↦ db
  | some row ↦ record db { transactions = put u.transaction_id (judged now u row) db.transactions }
]
