-- ===== src/Inbound/Lifecycle.antt =====
-- What the webhooks of backend/src/webhook-handler.ts do to a transaction's row.
use mathlib.Core.Path.{subst}
use text.Mathlib.TextEquality.{eq_iff}
use daddy_config.Base.{
  text_equality, ℕ, true, some, [], ◌∷◌, String, get, get-put, ◌≡◌, refl, ap, inl, inr, ◌==◌,
  Bool-cases, Option-cases,
}
use daddy_config.Transactions.State as Transactions
use daddy_config.Transactions.State.{
  TransactionStatus, TransactionKind, Transaction, completed, refunded, error, disputed,
  validate_transition, status_beq_iff, status_eq,
}
use daddy_config.Transactions.Update.{update_transaction_state, update_kyc_status}
use daddy_config.Transactions.Graph.{LeadsTo, IsFinal, final_stays}
use daddy_config.Transactions.Graph as Graph
use daddy_config.Transactions.Runs.{state_update, kyc_update, run, handle, run-Follows}
use daddy_config.Inbound.Payload.{World, Moment}
use daddy_config.Inbound.Handlers.{set_status}

-- The changes of a status: a valid transition, a dispute over an error, and its resolution.
pub data Moves (kind : TransactionKind) (s : TransactionStatus) : TransactionStatus → Type 0 where
  here : Moves kind s s
  valid :
      {t u : TransactionStatus}
      → Moves kind s t
      → validate_transition t u kind ≡ true
      → Moves kind s u
  raise : Moves kind s error → Moves kind s disputed
  refund : Moves kind s disputed → Moves kind s refunded
  complete : Moves kind s disputed → Moves kind s completed

pub Moves-trans :
    {kind : TransactionKind} {s t u : TransactionStatus}
    → Moves kind s t
    → Moves kind t u
    → Moves kind s u
Moves-trans p here = p
Moves-trans p (valid q v) = valid (Moves-trans p q) v
Moves-trans p (raise q) = raise (Moves-trans p q)
Moves-trans p (refund q) = refund (Moves-trans p q)
Moves-trans p (complete q) = complete (Moves-trans p q)

LeadsTo-Moves :
    {kind : TransactionKind} {s t : TransactionStatus} → LeadsTo kind s t → Moves kind s t
LeadsTo-Moves Graph.here = here
LeadsTo-Moves (Graph.next p v) = valid (LeadsTo-Moves p) v

-- The row of `id`, which has come from `row` by such changes.
abbrev pub Keeps : String → Transaction → Transactions.Db → Type 0
Keeps id row db =
    (row' : Transaction) × (get id db.transactions ≡ some row')
    × (row'.kind ≡ row.kind)
    × Moves row.kind row.status row'.status

module _ (id : String) (row : Transaction) (w : World)
    (found : get id w.tx.transactions ≡ some row) where
  pub kept : (db : Transactions.Db) → db ≡ w.tx → Keeps id row db
  kept db e = (row, rw e found, refl, here)

  pub update-Keeps :
      (m : Moment) (u : _) (kind : TransactionKind)
      → Keeps id row (update_transaction_state m.faults m.now u kind w.tx).1
  unfolding run handle
  update-Keeps m u kind =
      let (r, at, k, path) =
        run-Follows (state_update m.faults m.now u kind ∷ []) w.tx id row found in
      (r, at, k, LeadsTo-Moves path)

  pub kyc-Keeps : (m : Moment) (u : _) → Keeps id row (update_kyc_status m.now u w.tx)
  unfolding run handle
  kyc-Keeps m u =
      let (r, at, k, path) = run-Follows (kyc_update m.now u ∷ []) w.tx id row found in
      (r, at, k, LeadsTo-Moves path)

  pub set_status-Keeps :
      (now : ℕ) (target : String) (status : TransactionStatus)
      → ((r : Transaction) → get target w.tx.transactions ≡ some r → Moves r.kind r.status status)
      → Keeps id row (set_status now target status w).tx
  unfolding set_status
  set_status-Keeps now target status moves = elim (Option-cases (get target w.tx.transactions)) [
    | inl missing ↦ rw (missing, set_status) (kept w.tx refl)
    | inr (r, at) ↦
        let new : Transaction = record r { status = status; updated_at = now } in
        rw (at, set_status)
          (elim (Bool-cases (target == id)) [
            | inr other ↦
                (row, rw (get-put target id new w.tx.transactions) (rw other found), refl, here)
            | inl same ↦
                let key : target ≡ id = (eq_iff target id).0 same in
                let there : r ≡ row = cc (at, key, found) in
                (
                  new,
                  rw (get-put target id new w.tx.transactions) (rw same refl),
                  ap (λ (x : Transaction). x.kind) there,
                  subst (λ (x : Transaction). Moves x.kind x.status status) there (moves r at),
                )
          ])
  ]
