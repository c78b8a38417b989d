-- ===== src/Ledger/Admin.antt =====
-- sdk/src/testing/mock-client.ts: fees, agents, limits and administrators.
use daddy_config.Base.{text_equality, ℕ, ◌+◌, not, none, String, eqb, has, put, delete}
use daddy_config.Ledger.Client.{
  Env, no_fees_to_withdraw, agent_already_registered, agent_not_registered, seed_agent,
}
use daddy_config.Ledger.Reads.{limit_key}
use daddy_config.Ledger.Writes.{M, ◌>>◌, modify, guard, fake_tx_hash, MockTxResult}

unfoldable pub withdraw_fees : M MockTxResult
withdraw_fees = λ c.
    (do
      guard (not (eqb c.platform_fees 0)) no_fees_to_withdraw
      modify (λ d. record d { platform_fees = 0 })
      fake_tx_hash none)
      c

unfoldable pub withdraw_integrator_fees : M MockTxResult
withdraw_integrator_fees = do modify (λ c. record c { integrator_fees = 0 }); fake_tx_hash none

unfoldable pub register_agent : Env → String → M MockTxResult
register_agent env agent = λ c.
    (do
      guard (not (has agent c.agents)) agent_already_registered
      modify (seed_agent env agent)
      fake_tx_hash none)
      c

unfoldable pub remove_agent : String → M MockTxResult
remove_agent agent = λ c.
    (do
      guard (has agent c.agents) agent_not_registered
      modify (λ d. record d { agents = delete agent d.agents })
      fake_tx_hash none)
      c

unfoldable pub update_fee : ℕ → M MockTxResult
update_fee fee_bps = do modify (λ c. record c { fee_bps = fee_bps }); fake_tx_hash none

unfoldable pub set_daily_limit : Env → String → String → ℕ → M MockTxResult
set_daily_limit env currency country limit = do
  modify (λ c. record c {
    daily_limits =
        put (limit_key "*" currency country)
          (record { limit = limit; used = 0; resets_at = env.now + 86400000 }) c.daily_limits;
  })
  fake_tx_hash none

unfoldable pub add_admin : String → M MockTxResult
add_admin new_admin = do
  modify (λ c. record c { admins = put new_admin tt c.admins })
  fake_tx_hash none

-- `setAgentDailyCap`, `extendStorageTtl`, `initialize`, `voteOnProposal` and `executeProposal`.
unfoldable pub acknowledge : M MockTxResult
acknowledge = fake_tx_hash none
