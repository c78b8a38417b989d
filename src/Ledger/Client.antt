-- ===== src/Ledger/Client.antt =====
-- sdk/src/testing/mock-client.ts and sdk/src/types.ts: the state of the client, the seed helpers,
-- and the private helpers of its operations.
use daddy_config.Base.{
  number_equality, text_equality, ℕ, ◌+◌, Bool, false, Option, List, [], String, if◌then◌else◌, leb,
  put, has, or_else,
}

pub data RemittanceStatus : Type 0 where
  pending processing completed cancelled failed disputed : RemittanceStatus

pub record Remittance : Type 0 where
  pub id : ℕ
  pub sender : String
  pub agent : String
  pub amount : ℕ
  pub fee : ℕ
  pub status : RemittanceStatus
  pub expiry : Option ℕ
  pub token : String
  pub created_at : ℕ
  pub failed_at : Option ℕ
  pub expires_at : Option ℕ

pub record AgentStats : Type 0 where
  pub total_settlements : ℕ
  pub failed_settlements : ℕ
  pub total_settlement_time : ℕ
  pub dispute_count : ℕ
  pub success_rate_bps : ℕ
  pub last_active_timestamp : ℕ

pub record DailyLimit : Type 0 where
  pub limit : ℕ
  pub used : ℕ
  pub resets_at : ℕ

-- The codes of sdk/src/errors.ts that this client throws.
pub data ErrorCode : Type 0 where
  invalid_amount agent_not_registered remittance_not_found invalid_status no_fees_to_withdraw
        proposal_not_found agent_already_registered :
      ErrorCode

-- What a call reads from its surroundings: `Date.now()`, and the value that
-- `Math.round(((total - failed) / total) * 10_000)` has in floating point.
pub record Env : Type 0 where
  pub now : ℕ
  pub rate_bps : ℕ → ℕ → ℕ

-- A Set of texts is a map to `Unit`; a daily limit has the three parts of its key.
abbrev pub TextSet : Type 0
TextSet = List (String × Unit {0})

pub record Client : Type 0 where
  pub remittances : List (ℕ × Remittance)
  pub agents : TextSet
  pub tokens : TextSet
  pub admins : TextSet
  pub agent_stats : List (String × AgentStats)
  pub daily_limits : List (String × DailyLimit)
  pub next_id : ℕ
  pub fee_bps : ℕ
  pub protocol_fee_bps : ℕ
  pub paused : Bool
  pub total_volume : ℕ
  pub platform_fees : ℕ
  pub integrator_fees : ℕ
  pub tx_counter : ℕ

-- The constructor's options.
pub record MockClientOptions : Type 0 where
  pub fee_bps : Option ℕ
  pub protocol_fee_bps : Option ℕ

unfoldable pub new : MockClientOptions → Client
new options = record {
  remittances = [];
  agents = [];
  tokens = [];
  admins = [];
  agent_stats = [];
  daily_limits = [];
  next_id = 1;
  fee_bps = or_else options.fee_bps 100;
  protocol_fee_bps = or_else options.protocol_fee_bps 0;
  paused = false;
  total_volume = 0;
  platform_fees = 0;
  integrator_fees = 0;
  tx_counter = 0;
}

abbrev pub fresh_stats : Env → AgentStats
fresh_stats env = record {
  total_settlements = 0;
  failed_settlements = 0;
  total_settlement_time = 0;
  dispute_count = 0;
  success_rate_bps = 10000;
  last_active_timestamp = env.now;
}

unfoldable pub seed_agent : Env → String → Client → Client
seed_agent env address c =
    let agents = put address tt c.agents in
    if has address c.agent_stats
    then record c { agents = agents }
    else record c { agents = agents; agent_stats = put address (fresh_stats env) c.agent_stats }

unfoldable pub seed_token : String → Client → Client
seed_token address c = record c { tokens = put address tt c.tokens }

unfoldable pub seed_admin : String → Client → Client
seed_admin address c = record c { admins = put address tt c.admins }

unfoldable pub seed_remittance : Remittance → Client → Client
seed_remittance r c = record c {
  remittances = put r.id r c.remittances;
  next_id = if leb c.next_id r.id then r.id + 1 else c.next_id;
}

unfoldable pub set_fee_bps : ℕ → Client → Client
set_fee_bps bps c = record c { fee_bps = bps }
