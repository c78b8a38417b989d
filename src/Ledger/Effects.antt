-- ===== src/Ledger/Effects.antt =====
-- What a write operation may do to the client, as a relation: the specification that the
-- operations of sdk/src/testing/mock-client.ts are shown to implement.
pub mod Rules
pub mod Calls
use daddy_config.Base.{
  number_equality, text_equality, ℕ, ◌+◌, ◌<◌, ◌≡◌, Bool, true, false, Option, none, some, String,
  get, put, has, delete, if◌then◌else◌,
}
use daddy_config.Base.Int.{pos}
use daddy_config.Ledger.Client.{
  Client, Remittance, Env, DailyLimit, pending, completed, cancelled, failed, disputed, seed_agent,
}
use daddy_config.Ledger.Writes.{CreateRemittanceParams, created, bump_agent_stats}
use daddy_config.Ledger.Lifecycle.{store}

-- The edges of a remittance's life, but for the payout.
pub data Moves (r : Remittance) : Remittance → Type 0 where
  cancels : r.status ≡ pending → Moves r (record r { status = cancelled })
  fails : (t : ℕ) → r.status ≡ pending → Moves r (record r { status = failed; failed_at = some t })
  disputes : r.status ≡ failed → Moves r (record r { status = disputed })
  refunds : r.status ≡ disputed → Moves r (record r { status = cancelled })
  releases : r.status ≡ disputed → Moves r (record r { status = completed })

-- One change of the client, with the fees that it pays out to the platform.
pub data Effect (c : Client) : ℕ → Client → Type 0 where
  adds :
      (env : Env) (params : CreateRemittanceParams) (n : ℕ)
      → has params.agent c.agents ≡ true
      → 0 < n
      → Effect c 0 (record c {
        remittances = put c.next_id (created env params n c) c.remittances;
        next_id = c.next_id + 1;
      })
  pays :
      (id : ℕ) (r : Remittance)
      → get id c.remittances ≡ some r
      → r.status ≡ pending
      → Effect c 0 (record c {
        remittances = put id (record r { status = completed }) c.remittances;
        platform_fees = c.platform_fees + r.fee;
        total_volume = c.total_volume + r.amount;
      })
  moves :
      (id : ℕ) (r r' : Remittance)
      → get id c.remittances ≡ some r
      → Moves r r'
      → Effect c 0 (store id r' c)
  bumps :
      (env : Env) (agent : String) (success : Bool)
      → Effect c 0 (bump_agent_stats env agent success c)
  withdraws : Effect c c.platform_fees (record c { platform_fees = 0 })
  withdraws_integrator : Effect c 0 (record c { integrator_fees = 0 })
  registers : (env : Env) (agent : String) → Effect c 0 (seed_agent env agent c)
  removes : (agent : String) → Effect c 0 (record c { agents = delete agent c.agents })
  sets_fee : (bps : ℕ) → Effect c 0 (record c { fee_bps = bps })
  limits :
      (key : String) (l : DailyLimit)
      → Effect c 0 (record c { daily_limits = put key l c.daily_limits })
  promotes : (a : String) → Effect c 0 (record c { admins = put a tt c.admins })
  ticks : Effect c 0 (record c { tx_counter = c.tx_counter + 1 })

-- Any number of changes, one after another; the fees paid out add up.
pub data Effects (c : Client) : ℕ → Client → Type 0 where
  here : Effects c 0 c
  next : {d e : Client} {m n w : ℕ} → Effects c m d → Effect d n e → m + n ≡ w → Effects c w e
