-- ===== src/Ledger/Effects/Rules.antt =====
-- Every operation of the client is a sequence of the changes of the specification.
use daddy_config.Base.{
  number_equality, text_equality, ℕ, zero, suc, ◌+◌, ◌<◌, ◌≡◌, true, none, some, get, put, has,
  Outcome, ok, err, inl, inr, Bool-cases, Option-cases, arith, ◌==◌,
}
use daddy_config.Base.Int.{ℤ, pos, negsuc}
use daddy_config.Ledger.Client.{
  Client, Remittance, Env, RemittanceStatus, ErrorCode, remittance_not_found,
}
use daddy_config.Ledger.Writes.{
  M, ◌>>=◌, ◌>>◌, and_then, modify, CreateRemittanceParams, MockTxResult, created,
  create_remittance, fake_tx_hash, require_remittance, require_status, positive_amount,
  add_remittance, status_eq, status_beq_iff,
}

abbrev pub tick : Client → Client
tick c = record c { tx_counter = c.tx_counter + 1 }

-- The shape of the operations on one remittance.
abbrev pub transition : ℕ → RemittanceStatus → (Remittance → Client → Client) → M MockTxResult
transition id expected change = do
  r ← require_remittance id
  require_status r expected
  modify (change r)
  fake_tx_hash none

require_missing :
    (id : ℕ) (c : Client)
    → get id c.remittances ≡ none
    → require_remittance id c ≡ (err remittance_not_found, c)
unfolding require_remittance
require_missing id c h = ground arith

require_found :
    (id : ℕ) (r : Remittance) (c : Client)
    → get id c.remittances ≡ some r
    → require_remittance id c ≡ (ok r, c)
unfolding require_remittance
require_found id r c h = ground arith

pub then_rule {ℓ} :
    {A B : Type 0} (P : Client → Type ℓ) (o : Outcome ErrorCode A × Client) (f : A → M B)
    → P o.1
    → ((a : A) (d : Client) → P d → P (f a d).1)
    → P (and_then o f).1
then_rule P (ok a, d) f h go = go a d h
then_rule P (err e, d) f h go = h

pub transition_rule {ℓ} :
    (P : Client → Type ℓ) (id : ℕ) (expected : RemittanceStatus)
    (change : Remittance → Client → Client) (c : Client)
    → P c
    → ((r : Remittance)
        → get id c.remittances ≡ some r
        → r.status ≡ expected
        → P (tick (change r c)))
    → P (transition id expected change c).1
unfolding fake_tx_hash
transition_rule P id expected change c base go = elim (Option-cases (get id c.remittances)) [
  | inl missing ↦ rw (require_missing id c missing) base
  | inr (r, found) ↦ rw (require_found id r c found) (elim (Bool-cases (r.status == expected)) [
    | inl same ↦ rw same (go r found ((status_beq_iff r.status expected).0 same))
    | inr other ↦ rw other base
  ])
]

positive_amount-suc : (n : ℕ) (c : Client) → positive_amount (pos (suc n)) c ≡ (ok (suc n), c)
unfolding positive_amount
positive_amount-suc n c = ground arith

module _ {ℓ} (P : Client → Type ℓ) (env : Env) (params : CreateRemittanceParams) (c : Client) where
  amount_rule :
      (amount : ℤ)
      → P c
      → ((n : ℕ)
          → 0 < n
          → P (record c {
            remittances = put c.next_id (created env params n c) c.remittances;
            next_id = c.next_id + 1;
            tx_counter = c.tx_counter + 1;
          }))
      → P ((positive_amount amount >>= λ n. add_remittance env params n) c).1
  unfolding add_remittance fake_tx_hash
  amount_rule (negsuc n) base go = unfold positive_amount in base
  amount_rule (pos zero) base go = unfold positive_amount in base
  amount_rule (pos (suc n)) base go = rw (positive_amount-suc n c) (go (suc n) (omega arith))

  pub create_rule :
      P c
      → ((n : ℕ)
          → has params.agent c.agents ≡ true
          → 0 < n
          → P (record c {
            remittances = put c.next_id (created env params n c) c.remittances;
            next_id = c.next_id + 1;
            tx_counter = c.tx_counter + 1;
          }))
      → P (create_remittance env params c).1
  unfolding create_remittance
  create_rule base go = elim (Bool-cases (has params.agent c.agents)) [
    | inr absent ↦ rw absent base
    | inl present ↦ rw present (amount_rule params.amount base (λ n p. go n present p))
  ]
