-- ===== src/Ledger/Effects/Calls.antt =====
-- Every call of a write operation is a sequence of the changes of the specification.
use mathlib.Core.Path.{subst}
use daddy_config.Base.{
  number_equality, text_equality, ℕ, ◌+◌, ◌/◌, ◌≡◌, Bool, true, false, none, some, List, [], ◌∷◌,
  String, has, inl, inr, Bool-cases, arith, eqb,
}
use daddy_config.Ledger.Client.{Client, Env, pending, completed, cancelled, failed, disputed}
use daddy_config.Ledger.Writes.{
  CreateRemittanceParams, create_remittance, fake_tx_hash, bump_agent_stats,
}
use daddy_config.Ledger.Lifecycle.{
  store, confirm_payout, confirm_partial_payout, cancel_remittance, mark_failed, raise_dispute,
  resolve_dispute, expire_remittance, create_each, expire_each, batch_create_remittances,
  process_expired_remittances, entry_params, BatchCreateEntry,
}
use daddy_config.Ledger.Admin.{
  withdraw_fees, withdraw_integrator_fees, register_agent, remove_agent, update_fee,
  set_daily_limit, add_admin, acknowledge,
}
use daddy_config.Ledger.Trace.{
  Op, create, batch_create, confirm, confirm_partial, cancel, fail, dispute, resolve, expire,
  process_expired, withdraw, withdraw_integrator, register, remove, set_fee, limit, admin, other,
  call,
}
use daddy_config.Ledger.Effects.{
  cancels, fails, disputes, refunds, releases, Effect, adds, pays, moves, bumps, withdraws,
  withdraws_integrator, registers, removes, sets_fee, limits, promotes, ticks, Effects, here, next,
}
use daddy_config.Ledger.Effects.Rules.{transition_rule, create_rule, then_rule}

one : {c d : Client} {n : ℕ} → Effect c n d → Effects c n d
one e = next here e (omega arith)

two : {c d e : Client} {n : ℕ} → Effect c n d → Effect d 0 e → Effects c n e
two a b = next (one a) b (omega arith)

three : {b c d e : Client} → Effect b 0 c → Effect c 0 d → Effect d 0 e → Effects b 0 e
three p q r = next (two p q) r (omega arith)

pub Effects-trans :
    {c : Client} {m : ℕ} {d e : Client} {n : ℕ}
    → Effects c m d
    → Effects d n e
    → Effects c (m + n) e
Effects-trans {c} {m} {d} p here = subst (λ k. Effects c k d) (omega arith) p
Effects-trans p (next q e h) = next (Effects-trans p q) e (omega arith)

create-Effects :
    (env : Env) (params : CreateRemittanceParams) (c : Client)
    → Effects c 0 (create_remittance env params c).1
create-Effects env params c =
    create_rule (λ d. Effects c 0 d) env params c here
      (λ n known positive. two (adds env params n known positive) ticks)

confirm-Effects :
    (env : Env) (agent : String) (id : ℕ) (c : Client)
    → Effects c 0 (confirm_payout env agent id c).1
unfolding confirm_payout
confirm-Effects env agent id c =
    transition_rule (λ d. Effects c 0 d) id pending
      (λ r d. bump_agent_stats env agent true (
        store id (record r { status = completed })
          (record d {
            platform_fees = d.platform_fees + r.fee;
            total_volume = d.total_volume + r.amount;
          })))
      c here (λ r found is. three (pays id r found is) (bumps env agent true) ticks)

confirm_partial-Effects : (id : ℕ) (c : Client) → Effects c 0 (confirm_partial_payout id c).1
unfolding confirm_partial_payout
confirm_partial-Effects id c =
    transition_rule (λ d. Effects c 0 d) id pending (λ r d. d) c here (λ r found is. one ticks)

cancel-Effects : (id : ℕ) (c : Client) → Effects c 0 (cancel_remittance id c).1
unfolding cancel_remittance
cancel-Effects id c =
    transition_rule (λ d. Effects c 0 d) id pending
      (λ r. store id (record r { status = cancelled })) c here
      (λ r found is. two (moves id r _ found (cancels is)) ticks)

fail-Effects :
    (env : Env) (agent : String) (id : ℕ) (c : Client) → Effects c 0 (mark_failed env agent id c).1
unfolding mark_failed
fail-Effects env agent id c =
    transition_rule (λ d. Effects c 0 d) id pending
      (λ r d.
        bump_agent_stats env agent false
          (store id (record r { status = failed; failed_at = some (env.now / 1000) }) d))
      c here (λ r found is. three (moves id r _ found (fails _ is)) (bumps env agent false) ticks)

dispute-Effects : (id : ℕ) (c : Client) → Effects c 0 (raise_dispute id c).1
unfolding raise_dispute
dispute-Effects id c =
    transition_rule (λ d. Effects c 0 d) id failed (λ r. store id (record r { status = disputed }))
      c here (λ r found is. two (moves id r _ found (disputes is)) ticks)

resolve-Effects :
    (id : ℕ) (favour : Bool) (c : Client) → Effects c 0 (resolve_dispute id favour c).1
unfolding resolve_dispute
resolve-Effects id true c =
    transition_rule (λ d. Effects c 0 d) id disputed
      (λ r. store id (record r { status = cancelled })) c here
      (λ r found is. two (moves id r _ found (refunds is)) ticks)
resolve-Effects id false c =
    transition_rule (λ d. Effects c 0 d) id disputed
      (λ r. store id (record r { status = completed })) c here
      (λ r found is. two (moves id r _ found (releases is)) ticks)

expire-Effects : (id : ℕ) (c : Client) → Effects c 0 (expire_remittance id c).1
unfolding expire_remittance
expire-Effects id c =
    transition_rule (λ d. Effects c 0 d) id pending
      (λ r. store id (record r { status = cancelled })) c here
      (λ r found is. two (moves id r _ found (cancels is)) ticks)

create_each-Effects :
    (sender : String) (entries : List (Env × BatchCreateEntry)) (c d : Client)
    → Effects c 0 d
    → Effects c 0 (create_each sender entries d).1
unfolding create_each
create_each-Effects sender [] c d h = h
create_each-Effects sender ((env, e) ∷ entries) c d h =
    then_rule (λ x. Effects c 0 x) (create_remittance env (entry_params sender e) d)
      (λ _. create_each sender entries) (Effects-trans h (create-Effects env _ d))
      (λ _ x. create_each-Effects sender entries c x)

expire_each-Effects :
    (ids : List ℕ) (c d : Client) → Effects c 0 d → Effects c 0 (expire_each ids d).1
unfolding expire_each
expire_each-Effects [] c d h = h
expire_each-Effects (id ∷ ids) c d h =
    then_rule (λ x. Effects c 0 x) (expire_remittance id d) (λ _. expire_each ids)
      (Effects-trans h (expire-Effects id d)) (λ _ x. expire_each-Effects ids c x)

tick_last : (c d : Client) → Effects c 0 d → Effects c 0 (fake_tx_hash none d).1
unfolding fake_tx_hash
tick_last c d h = next h ticks (omega arith)

batch-Effects :
    (sender : String) (entries : List (Env × BatchCreateEntry)) (c : Client)
    → Effects c 0 (batch_create_remittances sender entries c).1
unfolding batch_create_remittances
batch-Effects sender entries c =
    then_rule (λ x. Effects c 0 x) (create_each sender entries c) (λ _. fake_tx_hash none)
      (create_each-Effects sender entries c c here) (λ _. tick_last c)

process_expired-Effects :
    (ids : List ℕ) (c : Client) → Effects c 0 (process_expired_remittances ids c).1
unfolding process_expired_remittances
process_expired-Effects ids c =
    then_rule (λ x. Effects c 0 x) (expire_each ids c) (λ _. fake_tx_hash none)
      (expire_each-Effects ids c c here) (λ _. tick_last c)

register-Effects :
    (env : Env) (agent : String) (c : Client) → Effects c 0 (register_agent env agent c).1
unfolding register_agent fake_tx_hash
register-Effects env agent c = elim (Bool-cases (has agent c.agents)) [
  | inl known ↦ rw known here
  | inr fresh ↦ rw fresh (two (registers env agent) ticks)
]

remove-Effects : (agent : String) (c : Client) → Effects c 0 (remove_agent agent c).1
unfolding remove_agent fake_tx_hash
remove-Effects agent c = elim (Bool-cases (has agent c.agents)) [
  | inl known ↦ rw known (two (removes agent) ticks)
  | inr unknown ↦ rw unknown here
]

withdraw-Effects : (c : Client) → Effects c c.platform_fees (withdraw_fees c).1
unfolding withdraw_fees fake_tx_hash
withdraw-Effects c = elim (Bool-cases (eqb c.platform_fees 0)) [
  | inl empty ↦
      let zero_fees : 0 ≡ c.platform_fees = ground arith in
      rw empty (subst (λ n. Effects c n c) zero_fees here)
  | inr some_fees ↦ rw some_fees (two withdraws ticks)
]

-- The platform fees that a call pays out.
abbrev pub withdrawn : Op → Client → ℕ
withdrawn withdraw c = c.platform_fees
withdrawn _ c = 0

-- Every write operation, in every state, is a sequence of the changes that the specification
-- allows, and only `withdrawFees` pays fees out: all that have accumulated.
pub call-Effects : (env : Env) (op : Op) (c : Client) → Effects c (withdrawn op c) (call env op c).1
unfolding call withdraw_integrator_fees update_fee set_daily_limit add_admin acknowledge
    fake_tx_hash
call-Effects env (create params) c = create-Effects env params c
call-Effects env (batch_create sender entries) c = batch-Effects sender entries c
call-Effects env (confirm agent id) c = confirm-Effects env agent id c
call-Effects env (confirm_partial id) c = confirm_partial-Effects id c
call-Effects env (cancel id) c = cancel-Effects id c
call-Effects env (fail agent id) c = fail-Effects env agent id c
call-Effects env (dispute id) c = dispute-Effects id c
call-Effects env (resolve id favour) c = resolve-Effects id favour c
call-Effects env (expire id) c = expire-Effects id c
call-Effects env (process_expired ids) c = process_expired-Effects ids c
call-Effects env withdraw c = withdraw-Effects c
call-Effects env withdraw_integrator c = two withdraws_integrator ticks
call-Effects env (register agent) c = register-Effects env agent c
call-Effects env (remove agent) c = remove-Effects agent c
call-Effects env (set_fee bps) c = two (sets_fee bps) ticks
call-Effects env (limit currency country n) c = two (limits _ _) ticks
call-Effects env (admin address) c = two (promotes address) ticks
call-Effects env other c = one ticks
