-- ===== src/Ledger/Reads.antt =====
-- sdk/src/testing/mock-client.ts: the read operations. They change nothing, so each is a function
-- of the state; the constant answers of the source are constants here.
use Prim.Native.String
use daddy_config.Base.{
  suc, number_equality, text_equality, ℕ, ◌+◌, ◌*◌, ◌/◌, Bool, true, false, Option, none, some,
  List, [], map, String, if◌then◌else◌, get, has, values, select, length, take, drop, Outcome, ok,
  err, ◌==◌, or_else,
}
use daddy_config.Base.Int.{ℤ, pos, negsuc, neg, sub_ℕ, ◌+ℤ◌}
use daddy_config.Ledger.Client.{
  Client, Remittance, AgentStats, DailyLimit, Env, ErrorCode, agent_not_registered,
  remittance_not_found,
}

unfoldable pub get_remittance : ℕ → Client → Outcome ErrorCode Remittance
get_remittance remittance_id c = elim (get remittance_id c.remittances) [
  | none ↦ err remittance_not_found
  | some r ↦ ok r
]

unfoldable pub get_remittances_by_sender : String → ℕ → ℕ → Client → List ℕ
get_remittances_by_sender sender offset limit c =
    let ids =
      map (λ (r : Remittance). r.id)
        (select (λ (r : Remittance). r.sender == sender) (values c.remittances)) in
    take limit (drop offset ids)

unfoldable pub get_accumulated_fees : Client → ℕ
get_accumulated_fees c = c.platform_fees

unfoldable pub is_agent_registered : String → Client → Bool
is_agent_registered agent c = has agent c.agents

unfoldable pub is_token_whitelisted : String → Client → Bool
is_token_whitelisted token c = has token c.tokens

unfoldable pub get_remittance_count : Client → ℕ
get_remittance_count c = length c.remittances

unfoldable pub get_admin_count : Client → ℕ
get_admin_count c = length c.admins

pub record HealthStatus : Type 0 where
  pub initialized : Bool
  pub paused : Bool
  pub admin_count : ℕ
  pub total_remittances : ℕ
  pub accumulated_fees : ℕ

unfoldable pub health : Client → HealthStatus
health c = record {
  initialized = true;
  paused = c.paused;
  admin_count = length c.admins;
  total_remittances = length c.remittances;
  accumulated_fees = c.platform_fees;
}

-- The `!` on the second lookup is the `none` case: what the caller would see is `undefined`.
unfoldable pub get_agent_stats : String → Client → Outcome ErrorCode (Option AgentStats)
get_agent_stats agent c =
    if has agent c.agents then ok (get agent c.agent_stats) else err agent_not_registered

-- `Math.round(rate / 100)` of an integer rate.
unfoldable pub get_agent_reputation : String → Client → Outcome ErrorCode ℕ
get_agent_reputation agent c = elim (get agent c.agent_stats) [
  | none ↦ err agent_not_registered
  | some stats ↦ ok ((stats.success_rate_bps + 50) / 100)
]

abbrev pub limit_key : String → String → String → String
limit_key sender currency country =
    String.◌++◌ sender (String.◌++◌ ":" (String.◌++◌ currency (String.◌++◌ ":" country)))

pub record DailyLimitStatus : Type 0 where
  pub limit : ℕ
  pub used : ℕ
  pub remaining : ℤ
  pub resets_at : ℕ

abbrev pub max_safe_integer : ℕ
max_safe_integer = 9007199254740991

-- Times are in milliseconds.
unfoldable pub get_daily_limit_status : Env → String → String → String → Client → DailyLimitStatus
get_daily_limit_status env sender currency country c =
    let entry : DailyLimit =
      or_else (get (limit_key sender currency country) c.daily_limits)
        (record { limit = 0; used = 0; resets_at = env.now + 86400000 }) in
    record {
      limit = entry.limit;
      used = entry.used;
      remaining = if entry.limit == 0 then pos max_safe_integer else sub_ℕ entry.limit entry.used;
      resets_at = entry.resets_at;
    }

unfoldable pub get_partial_payout_history : ℕ → Client → Outcome ErrorCode (List ℕ)
get_partial_payout_history remittance_id c =
    if has remittance_id c.remittances then ok [] else err remittance_not_found

pub record FeeEstimate : Type 0 where
  pub amount : ℤ
  pub platform_fee : ℤ
  pub protocol_fee : ℤ
  pub net_amount : ℤ
  pub total_fee : ℤ
  pub estimated_at : ℕ
  pub from_cache : Bool

-- `(amount * bps) / 10_000n`, which rounds towards zero.
abbrev pub share : ℤ → ℕ → ℤ
share (pos n) bps = pos (n * bps / 10000)
share (negsuc n) bps = neg (pos (suc n * bps / 10000))

-- The amount is any integer: nothing checks it.
unfoldable pub estimate_fee : Env → ℤ → Client → FeeEstimate
estimate_fee env amount c =
    let platform_fee = share amount c.fee_bps in
    let protocol_fee = share amount c.protocol_fee_bps in
    let total_fee = platform_fee +ℤ protocol_fee in
    record {
      amount = amount;
      platform_fee = platform_fee;
      protocol_fee = protocol_fee;
      net_amount = amount +ℤ neg total_fee;
      total_fee = total_fee;
      estimated_at = env.now;
      from_cache = false;
    }
