-- ===== src/Transactions/Runs.antt =====
-- A transaction's row under any sequence of the updates of backend/src/transaction-state.ts.
use daddy_config.Base.{
  text_equality, ℕ, some, List, [], ◌∷◌, String, get, get-put, Outcome, ok, err, ◌≡◌, refl, sym, ap,
  ◌∙◌, Bool-cases, Option-cases, inl, inr, ◌⊎◌, ◌==◌,
}
use mathlib.Core.Path.{subst}
use text.Mathlib.TextEquality.{eq_iff}
use daddy_config.Transactions.State.{TransactionKind, TransactionUpdate, KycUpdate, Transaction, Db}
use daddy_config.Transactions.Update.{
  UpdateError, Faults, updated, update_transaction_state, update_kyc_status, judged,
}
use daddy_config.Transactions.Graph.{LeadsTo, here, next, LeadsTo-trans, IsFinal, final_stays}
use daddy_config.Transactions.Laws.{Applies, applied, update_outcome}

-- A call of one of the two updates, with the time that it reads.
pub data Event : Type 0 where
  state_update : Faults → ℕ → TransactionUpdate → TransactionKind → Event
  kyc_update : ℕ → KycUpdate → Event

unfoldable pub handle : Event → Db → Db
handle (state_update faults now u kind) db = (update_transaction_state faults now u kind db).1
handle (kyc_update now u) db = update_kyc_status now u db

unfoldable pub run : List Event → Db → Db
run [] db = db
run (e ∷ es) db = run es (handle e db)

-- The row of `id` in `db`, which has come from `row` by valid transitions of its kind.
abbrev Follows : String → Transaction → Db → Type 0
Follows id row db =
    (row' : Transaction) × (get id db.transactions ≡ some row')
    × (row'.kind ≡ row.kind)
    × LeadsTo row.kind row.status row'.status

outcome_cases :
    (o : Outcome UpdateError (Unit {0})) → (o ≡ ok tt) ⊎ ((e : UpdateError) × (o ≡ err e))
outcome_cases (ok _) = inl refl
outcome_cases (err e) = inr (e, refl)

module _ (id : String) (row : Transaction) (db : Db)
    (found : get id db.transactions ≡ some row) where
  stays : (d : Db) → d ≡ db → Follows id row d
  stays d e = (row, rw e found, refl, here)

  applied-Follows :
      (faults : Faults) (now : ℕ) (u : TransactionUpdate) (kind : TransactionKind)
      (a : Applies faults u kind db)
      → Follows id row (applied now u a.row db)
  applied-Follows faults now u kind a = elim (Bool-cases (u.transaction_id == id)) [
    | inr other ↦ (
      row,
      rw (get-put u.transaction_id id (updated now u a.row) db.transactions) (rw other found),
      refl,
      here,
    )
    | inl same ↦
        let key : u.transaction_id ≡ id = (eq_iff u.transaction_id id).0 same in
        let there : a.row ≡ row = cc (a.found, key) in
        (
          updated now u a.row,
          rw (get-put u.transaction_id id (updated now u a.row) db.transactions) (rw same refl),
          ap (λ (r : Transaction). r.kind) there,
          next here (cc (a.valid, there, a.same_kind)),
        )
  ]

  kyc-Follows : (now : ℕ) (u : KycUpdate) → Follows id row (update_kyc_status now u db)
  unfolding update_kyc_status
  kyc-Follows now u = elim (Option-cases (get u.transaction_id db.transactions)) [
    | inl missing ↦ rw (missing, update_kyc_status) (stays db refl)
    | inr (r, at_key) ↦
        rw (at_key, update_kyc_status)
          (elim (Bool-cases (u.transaction_id == id)) [
            | inr other ↦ (
              row,
              rw (get-put u.transaction_id id (judged now u r) db.transactions) (rw other found),
              refl,
              here,
            )
            | inl same ↦
                let key : u.transaction_id ≡ id = (eq_iff u.transaction_id id).0 same in
                let there : r ≡ row = cc (at_key, key) in
                (
                  judged now u r,
                  rw (get-put u.transaction_id id (judged now u r) db.transactions) (rw same refl),
                  ap (λ (x : Transaction). x.kind) there,
                  subst (λ (x : Transaction). LeadsTo row.kind row.status x.status) (sym there)
                      here,
                )
          ])
  ]

  handle-Follows : (e : Event) → Follows id row (handle e db)
  unfolding handle
  handle-Follows (kyc_update now u) = kyc-Follows now u
  handle-Follows (state_update faults now u kind) =
      let (goes, does, undone) = update_outcome faults now u kind db in
      elim (outcome_cases (update_transaction_state faults now u kind db).0) [
        | inl done ↦ let a = goes.0 done in rw (does a) (applied-Follows faults now u kind a)
        | inr (e, failed) ↦ stays _ (undone e failed)
      ]

-- Whatever updates arrive, in any order and with any failures of the database, a transaction's
-- row stays, keeps its kind, and its status follows valid transitions of that kind only.
pub run-Follows :
    (es : List Event) (db : Db) (id : String) (row : Transaction)
    → get id db.transactions ≡ some row
    → (row' : Transaction) × (get id (run es db).transactions ≡ some row')
      × (row'.kind ≡ row.kind)
      × LeadsTo row.kind row.status row'.status
unfolding run
run-Follows [] db id row found = (row, found, refl, here)
run-Follows (e ∷ es) db id row found =
    let (s, at_s, kind_s, path_s) = handle-Follows id row db found e in
    let (t, at_t, kind_t, path_t) = run-Follows es (handle e db) id s at_s in
    (
      t,
      at_t,
      kind_t ∙ kind_s,
      LeadsTo-trans path_s
          (subst (λ (k : TransactionKind). LeadsTo k s.status t.status) kind_s path_t),
    )

-- Once completed, refunded or expired, a transaction keeps that status under every further update.
pub run-final :
    (es : List Event) (db : Db) (id : String) (row : Transaction)
    → get id db.transactions ≡ some row
    → IsFinal row.status
    → (row' : Transaction) × (get id (run es db).transactions ≡ some row')
      × (row'.status ≡ row.status)
run-final es db id row found final =
    let (r, at_r, _, path) = run-Follows es db id row found in
    (r, at_r, final_stays row.kind row.status r.status final path)
