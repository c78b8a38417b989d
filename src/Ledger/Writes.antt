-- ===== src/Ledger/Writes.antt =====
-- sdk/src/testing/mock-client.ts: the write operations. A call that throws keeps what it has
-- changed so far, so the state stands beside the outcome, not inside it.
use daddy_config.Base.{
  number_equality, text_equality, ℕ, ◌+◌, ◌*◌, ◌/◌, Bool, true, Option, none, some, String,
  if◌then◌else◌, get, put, has, Outcome, ok, err, Equality, ◌==◌, or_else, eqb, ◌↔◌, ◌≡◌, arith,
}
use daddy_config.Base.Int.{ℤ, pos, negsuc}
use daddy_config.Ledger.Client.{
  Client, Remittance, AgentStats, Env, ErrorCode, invalid_amount, agent_not_registered,
  remittance_not_found, invalid_status, RemittanceStatus, pending, processing, completed, cancelled,
  failed, disputed,
}

abbrev pub M : Type 0 → Type 0
M A = Client → Outcome ErrorCode A × Client

abbrev pub and_then :
    {A B : Type 0} → Outcome ErrorCode A × Client → (A → M B) → Outcome ErrorCode B × Client
and_then (ok a, c) f = f a c
and_then (err e, c) f = (err e, c)

infixl 5 ◌>>=◌ ◌>>◌
abbrev pub ◌>>=◌ : {A B : Type 0} → M A → (A → M B) → M B
◌>>=◌ m f = λ c. and_then (m c) f

abbrev pub ◌>>◌ : {B : Type 0} → M (Unit {0}) → M B → M B
m >> k = m >>= λ _. k

abbrev throw : {A : Type 0} → ErrorCode → M A
throw e c = (err e, c)

abbrev pub modify : (Client → Client) → M (Unit {0})
modify f c = (ok tt, f c)

abbrev pub guard : Bool → ErrorCode → M (Unit {0})
guard b e c = (if b then ok tt else err e, c)

abbrev pub status_rank : RemittanceStatus → ℕ
status_rank pending = 0
status_rank processing = 1
status_rank completed = 2
status_rank cancelled = 3
status_rank failed = 4
status_rank disputed = 5

abbrev pub status_beq : RemittanceStatus → RemittanceStatus → Bool
status_beq a b = eqb (status_rank a) (status_rank b)

pub status_beq_iff : (a b : RemittanceStatus) → (status_beq a b ≡ true) ↔ (a ≡ b)
status_beq_iff a b = ground arith

instance abbrev pub status_eq : Equality RemittanceStatus
status_eq = record { equals = status_beq; equals_iff = status_beq_iff }

-- `txHash` is the text "MOCK_TX_" with this number, and `id` the new remittance's.
pub record MockTxResult : Type 0 where
  pub tx_hash : ℕ
  pub id : Option ℕ

-- The counter is the module's, shared by all clients; here it is this client's.
unfoldable pub fake_tx_hash : Option ℕ → M MockTxResult
fake_tx_hash id c = (
  ok (record { tx_hash = c.tx_counter + 1; id = id }),
  record c { tx_counter = c.tx_counter + 1 },
)

unfoldable pub require_remittance : ℕ → M Remittance
require_remittance id c = elim (get id c.remittances) [
  | none ↦ (err remittance_not_found, c)
  | some r ↦ (ok r, c)
]

abbrev pub require_status : Remittance → RemittanceStatus → M (Unit {0})
require_status r expected = guard (r.status == expected) invalid_status

abbrev pub bumped : Env → Bool → AgentStats → AgentStats
bumped env success stats =
    let total = stats.total_settlements + 1 in
    let lost = if success then stats.failed_settlements else stats.failed_settlements + 1 in
    record stats {
      total_settlements = total;
      failed_settlements = lost;
      success_rate_bps = if total == 0 then 10000 else env.rate_bps total lost;
      last_active_timestamp = env.now / 1000;
    }

unfoldable pub bump_agent_stats : Env → String → Bool → Client → Client
bump_agent_stats env agent success c = elim (get agent c.agent_stats) [
  | none ↦ c
  | some stats ↦ record c { agent_stats = put agent (bumped env success stats) c.agent_stats }
]

-- Amounts in the request may be negative: a bigint. What is stored has passed the test.
pub record CreateRemittanceParams : Type 0 where
  pub sender : String
  pub agent : String
  pub amount : ℤ
  pub expiry : Option ℕ
  pub token : Option String

abbrev pub created : Env → CreateRemittanceParams → ℕ → Client → Remittance
created env params amount c =
    let now = env.now / 1000 in
    record {
      id = c.next_id;
      sender = params.sender;
      agent = params.agent;
      amount = amount;
      fee = amount * c.fee_bps / 10000;
      status = pending;
      expiry = params.expiry;
      token = or_else params.token "";
      created_at = now;
      failed_at = none;
      expires_at = elim params.expiry [ none ↦ none | some e ↦ some (now + e) ];
    }

unfoldable pub add_remittance : Env → CreateRemittanceParams → ℕ → M MockTxResult
unfolding fake_tx_hash
add_remittance env params amount = λ c. fake_tx_hash (some c.next_id) (record c {
  remittances = put c.next_id (created env params amount c) c.remittances;
  next_id = c.next_id + 1;
})

-- `amount <= 0n` throws.
unfoldable pub positive_amount : ℤ → M ℕ
positive_amount (negsuc n) c = (err invalid_amount, c)
positive_amount (pos n) c = if n == 0 then (err invalid_amount, c) else (ok n, c)

unfoldable pub create_remittance : Env → CreateRemittanceParams → M MockTxResult
unfolding add_remittance positive_amount
create_remittance env params = λ c.
    (do
      guard (has params.agent c.agents) agent_not_registered
      amount ← positive_amount params.amount
      add_remittance env params amount)
      c
