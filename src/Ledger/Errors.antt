-- ===== src/Ledger/Errors.antt =====
-- When a write operation of sdk/src/testing/mock-client.ts throws, and what is left then.
use daddy_config.Base.{
  number_equality, text_equality, ℕ, zero, suc, ◌≡◌, refl, Bool, true, false, Option, none, some,
  get, has, Outcome, ok, err, arith, eqb, if◌then◌else◌, ◌==◌,
}
use daddy_config.Base.Int.{ℤ, pos, negsuc, pos_part}
use daddy_config.Ledger.Client.{
  Client, Env, ErrorCode, RemittanceStatus, pending, failed, disputed, remittance_not_found,
  invalid_status, invalid_amount, agent_not_registered, no_fees_to_withdraw,
  agent_already_registered,
}
use daddy_config.Ledger.Writes.{
  MockTxResult, CreateRemittanceParams, create_remittance, fake_tx_hash, require_remittance,
  status_eq, positive_amount, add_remittance,
}
use daddy_config.Ledger.Lifecycle.{
  confirm_payout, confirm_partial_payout, cancel_remittance, mark_failed, raise_dispute,
  resolve_dispute, expire_remittance,
}
use daddy_config.Ledger.Admin.{
  withdraw_fees, withdraw_integrator_fees, register_agent, remove_agent, update_fee,
  set_daily_limit, add_admin, acknowledge,
}
use daddy_config.Ledger.Trace.{
  Op, create, batch_create, confirm, confirm_partial, cancel, fail, dispute, resolve, expire,
  process_expired, withdraw, register, remove, call,
}

-- The calls that are no loop over several remittances.
abbrev pub IsSingle : Op → Type 0
IsSingle (batch_create sender entries) = ⊥
IsSingle (process_expired ids) = ⊥
IsSingle _ = Unit

-- An outcome that leaves the client as it was if it is an error.
abbrev Atomic : Client → Outcome ErrorCode MockTxResult × Client → Type 0
Atomic c o = (e : ErrorCode) → o.0 ≡ err e → o.1 ≡ c

create-Atomic :
    (env : Env) (params : CreateRemittanceParams) (c : Client)
    → Atomic c (create_remittance env params c)
unfolding create_remittance fake_tx_hash
create-Atomic env params c e h = ground arith

call-Atomic : (env : Env) (op : Op) (c : Client) → IsSingle op → Atomic c (call env op c)
unfolding call confirm_payout confirm_partial_payout cancel_remittance mark_failed raise_dispute
    resolve_dispute expire_remittance withdraw_fees withdraw_integrator_fees register_agent
    remove_agent update_fee set_daily_limit add_admin acknowledge require_remittance fake_tx_hash
call-Atomic env (create params) c s e h = create-Atomic env params c e h
call-Atomic env (batch_create sender entries) c s e h = absurd s
call-Atomic env (process_expired ids) c s e h = absurd s
call-Atomic env _ c s e h = ground arith

-- What a call throws, read off the state before it.
abbrev pub error_of : {A : Type 0} → Outcome ErrorCode A → Option ErrorCode
error_of (ok a) = none
error_of (err e) = some e

abbrev pub needs : ℕ → RemittanceStatus → Client → Option ErrorCode
needs id s c = elim (get id c.remittances) [
  | none ↦ some remittance_not_found
  | some r ↦ if r.status == s then none else some invalid_status
]

abbrev pub is_positive : ℤ → Bool
is_positive (pos zero) = false
is_positive (pos (suc n)) = true
is_positive (negsuc n) = false

abbrev pub refusal : Op → Client → Option ErrorCode
refusal (create params) c =
    if has params.agent c.agents
    then if is_positive params.amount then none else some invalid_amount
    else some agent_not_registered
refusal (confirm agent id) c = needs id pending c
refusal (confirm_partial id) c = needs id pending c
refusal (cancel id) c = needs id pending c
refusal (fail agent id) c = needs id pending c
refusal (dispute id) c = needs id failed c
refusal (resolve id favour) c = needs id disputed c
refusal (expire id) c = needs id pending c
refusal withdraw c = if eqb c.platform_fees 0 then some no_fees_to_withdraw else none
refusal (register agent) c = if has agent c.agents then some agent_already_registered else none
refusal (remove agent) c = if has agent c.agents then none else some agent_not_registered
refusal _ c = none

pub positive_amount_lem :
    (amount : ℤ) (c : Client)
    → positive_amount amount c
      ≡ (elim (is_positive amount) [ true ↦ ok (pos_part amount) | false ↦ err invalid_amount ], c)
unfolding positive_amount
positive_amount_lem (pos zero) c = refl
positive_amount_lem (pos (suc n)) c = ground arith
positive_amount_lem (negsuc n) c = refl

create-refusal :
    (env : Env) (params : CreateRemittanceParams) (c : Client)
    → error_of (create_remittance env params c).0 ≡ refusal (create params) c
unfolding create_remittance add_remittance fake_tx_hash
create-refusal env params c = ground (arith, positive_amount_lem params.amount c)

call-refusal :
    (env : Env) (op : Op) (c : Client) → IsSingle op → error_of (call env op c).0 ≡ refusal op c
unfolding call confirm_payout confirm_partial_payout cancel_remittance mark_failed raise_dispute
    resolve_dispute expire_remittance withdraw_fees withdraw_integrator_fees register_agent
    remove_agent update_fee set_daily_limit add_admin acknowledge require_remittance fake_tx_hash
call-refusal env (create params) c s = create-refusal env params c
call-refusal env (batch_create sender entries) c s = absurd s
call-refusal env (process_expired ids) c s = absurd s
call-refusal env _ c s = ground arith

-- A call that is no batch throws exactly when its precondition fails in the state before it, with
-- the code of the first check that fails, and then it changes nothing.
pub call_errors :
    (env : Env) (op : Op) (c : Client)
    → IsSingle op
    → (error_of (call env op c).0 ≡ refusal op c)
      × ((e : ErrorCode) → (call env op c).0 ≡ err e → (call env op c).1 ≡ c)
call_errors env op c s = (call-refusal env op c s, call-Atomic env op c s)
