-- ===== src/Ledger/Lifecycle.antt =====
-- sdk/src/testing/mock-client.ts: the write operations on remittances that exist, and the loops
-- over several. Each pass of a loop reads the clock anew, so its environment comes with its item.
use daddy_config.Base.{
  number_equality, ℕ, ◌+◌, ◌/◌, Bool, true, false, Option, none, some, List, [], ◌∷◌, String,
  if◌then◌else◌, put, ok,
}
use daddy_config.Base.Int.{ℤ}
use daddy_config.Ledger.Client.{
  Client, Remittance, Env, pending, completed, cancelled, failed, disputed,
}
use daddy_config.Ledger.Writes.{
  M, ◌>>=◌, ◌>>◌, modify, fake_tx_hash, require_remittance, require_status, bump_agent_stats,
  MockTxResult, CreateRemittanceParams, create_remittance,
}

-- `this.remittances.set(id, r)`.
abbrev pub store : ℕ → Remittance → Client → Client
store id r c = record c { remittances = put id r c.remittances }

unfoldable pub confirm_payout : Env → String → ℕ → M MockTxResult
confirm_payout env agent remittance_id = do
  r ← require_remittance remittance_id
  require_status r pending
  modify (λ c.
      store remittance_id (record r { status = completed })
        (record c {
          platform_fees = c.platform_fees + r.fee;
          total_volume = c.total_volume + r.amount;
        }))
  modify (bump_agent_stats env agent true)
  fake_tx_hash none

unfoldable pub confirm_partial_payout : ℕ → M MockTxResult
confirm_partial_payout remittance_id = do
  r ← require_remittance remittance_id
  require_status r pending
  fake_tx_hash none

unfoldable pub cancel_remittance : ℕ → M MockTxResult
cancel_remittance remittance_id = do
  r ← require_remittance remittance_id
  require_status r pending
  modify (store remittance_id (record r { status = cancelled }))
  fake_tx_hash none

unfoldable pub mark_failed : Env → String → ℕ → M MockTxResult
mark_failed env agent remittance_id = do
  r ← require_remittance remittance_id
  require_status r pending
  modify (store remittance_id (record r { status = failed; failed_at = some (env.now / 1000) }))
  modify (bump_agent_stats env agent false)
  fake_tx_hash none

unfoldable pub raise_dispute : ℕ → M MockTxResult
raise_dispute remittance_id = do
  r ← require_remittance remittance_id
  require_status r failed
  modify (store remittance_id (record r { status = disputed }))
  fake_tx_hash none

unfoldable pub resolve_dispute : ℕ → Bool → M MockTxResult
resolve_dispute remittance_id in_favour_of_sender = do
  r ← require_remittance remittance_id
  require_status r disputed
  modify (
      store remittance_id
        (record r { status = if in_favour_of_sender then cancelled else completed }))
  fake_tx_hash none

unfoldable pub expire_remittance : ℕ → M MockTxResult
expire_remittance remittance_id = do
  r ← require_remittance remittance_id
  require_status r pending
  modify (store remittance_id (record r { status = cancelled }))
  fake_tx_hash none

pub record BatchCreateEntry : Type 0 where
  pub agent : String
  pub amount : ℤ
  pub expiry : Option ℕ

abbrev pub entry_params : String → BatchCreateEntry → CreateRemittanceParams
entry_params sender e = record {
  sender = sender;
  agent = e.agent;
  amount = e.amount;
  expiry = e.expiry;
  token = none;
}

-- The body of the loop of `batchCreateRemittances`, once for each entry; a throw ends it.
unfoldable pub create_each : String → List (Env × BatchCreateEntry) → M (Unit {0})
create_each sender [] = λ c. (ok tt, c)
create_each sender ((env, e) ∷ entries) = do
  _ ← create_remittance env (entry_params sender e)
  create_each sender entries

unfoldable pub batch_create_remittances : String → List (Env × BatchCreateEntry) → M MockTxResult
batch_create_remittances sender entries = do create_each sender entries; fake_tx_hash none

unfoldable pub expire_each : List ℕ → M (Unit {0})
expire_each [] = λ c. (ok tt, c)
expire_each (id ∷ ids) = do _ ← expire_remittance id; expire_each ids

unfoldable pub process_expired_remittances : List ℕ → M MockTxResult
process_expired_remittances remittance_ids = do expire_each remittance_ids; fake_tx_hash none
