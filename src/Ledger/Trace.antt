-- ===== src/Ledger/Trace.antt =====
-- A client's life: any write operations, in any order, with any environment at each.
use daddy_config.Base.{ℕ, Bool, List, [], ◌∷◌, String}
use daddy_config.Ledger.Client.{Client, Env}
use daddy_config.Ledger.Writes.{M, MockTxResult, CreateRemittanceParams, create_remittance}
use daddy_config.Ledger.Lifecycle.{
  BatchCreateEntry, confirm_payout, confirm_partial_payout, cancel_remittance, mark_failed,
  raise_dispute, resolve_dispute, expire_remittance, batch_create_remittances,
  process_expired_remittances,
}
use daddy_config.Ledger.Admin.{
  withdraw_fees, withdraw_integrator_fees, register_agent, remove_agent, update_fee,
  set_daily_limit, add_admin, acknowledge,
}

-- The calls that write, with the arguments that the source reads.
pub data Op : Type 0 where
  create : CreateRemittanceParams → Op
  batch_create : String → List (Env × BatchCreateEntry) → Op
  confirm : String → ℕ → Op
  confirm_partial : ℕ → Op
  cancel : ℕ → Op
  fail : String → ℕ → Op
  dispute : ℕ → Op
  resolve : ℕ → Bool → Op
  expire : ℕ → Op
  process_expired : List ℕ → Op
  withdraw : Op
  withdraw_integrator : Op
  register : String → Op
  remove : String → Op
  set_fee : ℕ → Op
  limit : String → String → ℕ → Op
  admin : String → Op
  other : Op

unfoldable pub call : Env → Op → M MockTxResult
call env (create params) = create_remittance env params
call env (batch_create sender entries) = batch_create_remittances sender entries
call env (confirm agent id) = confirm_payout env agent id
call env (confirm_partial id) = confirm_partial_payout id
call env (cancel id) = cancel_remittance id
call env (fail agent id) = mark_failed env agent id
call env (dispute id) = raise_dispute id
call env (resolve id favour) = resolve_dispute id favour
call env (expire id) = expire_remittance id
call env (process_expired ids) = process_expired_remittances ids
call env withdraw = withdraw_fees
call env withdraw_integrator = withdraw_integrator_fees
call env (register agent) = register_agent env agent
call env (remove agent) = remove_agent agent
call env (set_fee bps) = update_fee bps
call env (limit currency country n) = set_daily_limit env currency country n
call env (admin address) = add_admin address
call env other = acknowledge

-- The state after a sequence of calls; one that throws is followed by the next.
unfoldable pub run : List (Env × Op) → Client → Client
run [] c = c
run ((env, op) ∷ ops) c = run ops (call env op c).1
