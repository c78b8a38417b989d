-- ===== src/Ledger/Fees.antt =====
-- Where the fees of sdk/src/testing/mock-client.ts go, and what the estimates say of them.
use daddy_config.Base.{
  number_equality, text_equality, ℕ, ◌+◌, ◌≡◌, Bool, List, [], ◌∷◌, String, arith, sum_of,
  sum_of-add, sum_of-replace,
}
use daddy_config.Ledger.Client.{Client, Env, MockClientOptions, completed, new, seed_agent}
use daddy_config.Ledger.Writes.{bump_agent_stats, created}
use daddy_config.Ledger.Trace.{Op, call, run}
use daddy_config.Ledger.Effects.{
  Effect, adds, pays, moves, bumps, withdraws, withdraws_integrator, registers, removes, sets_fee,
  limits, promotes, ticks, Effects, here, next,
}
use daddy_config.Ledger.Effects.Calls.{call-Effects, withdrawn}
use daddy_config.Ledger.Invariant.{
  Inv, Entry-get, paid, fee_of, next_id_free, move_unpaid, new-Inv, Effects-Inv, call-Inv,
}

-- The fees of the remittances that were paid out.
abbrev pub fees_paid : Client → ℕ
fees_paid c = sum_of (paid fee_of) c.remittances

-- What `withdrawFees` has paid out over a sequence of calls.
pub withdrawn_over : List (Env × Op) → Client → ℕ
withdrawn_over [] c = 0
withdrawn_over ((env, op) ∷ ops) c = withdrawn op c + withdrawn_over ops (call env op c).1

-- A change keeps the balance: fees held and withdrawn are the fees of the payouts.
abbrev Balanced : Client → ℕ → Client → Type 0
Balanced c n d = d.platform_fees + n + fees_paid c ≡ c.platform_fees + fees_paid d

bump_balance :
    (env : Env) (agent : String) (success : Bool) (c : Client)
    → Balanced c 0 (bump_agent_stats env agent success c)
unfolding bump_agent_stats
bump_balance env agent success c = ground arith

seed_balance : (env : Env) (agent : String) (c : Client) → Balanced c 0 (seed_agent env agent c)
unfolding seed_agent
seed_balance env agent c = ground arith

Effect-Balanced : (c d : Client) (n : ℕ) → Effect c n d → Inv c → Balanced c n d
Effect-Balanced c d n (adds env params k known positive) h = ground (
  arith,
  next_id_free c.next_id c.remittances h.entries,
  sum_of-add (paid fee_of) c.next_id (created env params k c) c.remittances,
)
Effect-Balanced c d n (pays id r found is) h = ground (
  arith,
  Entry-get c id r h.entries found,
  sum_of-replace (paid fee_of) id r (record r { status = completed }) c.remittances found,
)
Effect-Balanced c d n (moves id r r' found m) h = ground (
  arith,
  move_unpaid fee_of r r' m (Entry-get c id r h.entries found).fits,
  sum_of-replace (paid fee_of) id r r' c.remittances found,
)
Effect-Balanced c d n (bumps env agent success) h = bump_balance env agent success c
Effect-Balanced c d n withdraws h = omega arith
Effect-Balanced c d n withdraws_integrator h = omega arith
Effect-Balanced c d n (registers env agent) h = seed_balance env agent c
Effect-Balanced c d n (removes agent) h = omega arith
Effect-Balanced c d n (sets_fee bps) h = omega arith
Effect-Balanced c d n (limits key l) h = omega arith
Effect-Balanced c d n (promotes a) h = omega arith
Effect-Balanced c d n ticks h = omega arith

Effects-Balanced : {c d : Client} {n : ℕ} → Effects c n d → Inv c → Balanced c n d
Effects-Balanced here h = omega arith
Effects-Balanced {c} {d} (next {d = x} es e total) h =
    omega (arith, Effects-Balanced es h, Effect-Balanced x d _ e (Effects-Inv es h), total)

run-Balanced :
    (ops : List (Env × Op)) (c : Client) → Inv c → Balanced c (withdrawn_over ops c) (run ops c)
unfolding run withdrawn_over
run-Balanced [] c h = omega arith
run-Balanced ((env, op) ∷ ops) c h = omega (
  arith,
  Effects-Balanced (call-Effects env op c) h,
  run-Balanced ops (call env op c).1 (call-Inv env op c h),
)

-- After any sequence of write operations on a new client, the platform fees that it holds and
-- those that it has paid out make exactly the fees of the remittances that were paid out.
pub run-new-fees :
    (options : MockClientOptions) (ops : List (Env × Op))
    → (run ops (new options)).platform_fees + withdrawn_over ops (new options)
      ≡ fees_paid (run ops (new options))
unfolding new
run-new-fees options ops = omega (arith, run-Balanced ops (new options) (new-Inv options))
