-- ===== src/Ledger/Tests.antt =====
-- The theorems on the ledger at concrete inputs, and runs of it.
use daddy_config.Base.{
  ℕ, ◌+◌, ◌*◌, ◌<◌, ◌≤◌, ◌≡◌, refl, true, none, some, List, [], ◌∷◌, String, get, put, err,
  number_equality, text_equality,
}
use text.Mathlib.TextEquality.{eq_iff}
use daddy_config.Base.Int.{pos, negsuc, sub_ℕ}
use daddy_config.Ledger.Client.{
  Client, Env, MockClientOptions, Remittance, ErrorCode, new, disputed, pending, seed_agent,
}
use daddy_config.Ledger.Reads.{estimate_fee, get_daily_limit_status}
use daddy_config.Ledger.Writes.{
  CreateRemittanceParams, create_remittance, add_remittance, positive_amount, require_remittance,
  fake_tx_hash, bump_agent_stats,
}
use daddy_config.Ledger.Lifecycle.{
  BatchCreateEntry, confirm_payout, cancel_remittance, mark_failed, raise_dispute,
  batch_create_remittances,
}
use daddy_config.Ledger.Admin.{register_agent, withdraw_fees, set_daily_limit}
use daddy_config.Ledger.Trace.{
  Op, register, create, confirm, fail, dispute, resolve, withdraw, cancel, call, run,
}
use daddy_config.Ledger.Effects.{Effects}
use daddy_config.Ledger.Effects.Calls.{call-Effects}
use daddy_config.Ledger.Invariant.{Inv, run-new-Inv}
use daddy_config.Ledger.Fees.{run-new-fees, fees_paid, withdrawn_over}
use daddy_config.Ledger.Life.{run-Evolves, Evolves}
use daddy_config.Ledger.Errors.{call_errors, error_of, refusal}
use daddy_config.Ledger.Batch.{batch_prefix, is_ok, all_valid, leading, standing}
use daddy_config.Ledger.Estimates.{create-estimate, limit_unseen}

abbrev defaults : MockClientOptions
defaults = record { fee_bps = none; protocol_fee_bps = none }

abbrev noon : Env
noon = record { now = 43200000; rate_bps = λ total failed. 5000 }

abbrev transfer : CreateRemittanceParams
transfer = record {
  sender = "alice";
  agent = "agent";
  amount = pos 1000;
  expiry = none;
  token = none;
}

abbrev day : List (Env × Op)
day =
    (noon, register "agent")
    ∷ (noon, create transfer)
    ∷ (noon, create transfer)
    ∷ (noon, confirm "agent" 1)
    ∷ (noon, withdraw)
    ∷ (noon, fail "agent" 2)
    ∷ (noon, dispute 2)
    ∷ (noon, cancel 7)
    ∷ []

day_fees : (run day (new defaults)).total_volume ≡ 1000
unfolding run call new register_agent seed_agent create_remittance add_remittance positive_amount
    confirm_payout withdraw_fees mark_failed raise_dispute require_remittance fake_tx_hash
    cancel_remittance bump_agent_stats get put
day_fees = refl

abbrev evening : Client
evening = run day (new defaults)

call-Effects_example : Effects evening evening.platform_fees (call noon withdraw evening).1
call-Effects_example = call-Effects noon withdraw evening

run-new-Inv_example : Inv (run day (new defaults))
run-new-Inv_example = run-new-Inv defaults day

run-new-fees_example :
    (run day (new defaults)).platform_fees + withdrawn_over day (new defaults)
    ≡ fees_paid (run day (new defaults))
run-new-fees_example = run-new-fees defaults day

-- The second remittance of the day.
abbrev second : Remittance
second = record {
  id = 2;
  sender = "alice";
  agent = "agent";
  amount = 1000;
  fee = 10;
  status = disputed;
  expiry = none;
  token = "";
  created_at = 43200;
  failed_at = some 43200;
  expires_at = none;
}

second_found : get 2 evening.remittances ≡ some second
unfolding run call new register_agent seed_agent create_remittance add_remittance positive_amount
    confirm_payout withdraw_fees mark_failed raise_dispute require_remittance fake_tx_hash
    cancel_remittance bump_agent_stats get put
second_found = refl

run-Evolves_example :
    (r' : Remittance) × (get 2 (run ((noon, resolve 2 true) ∷ []) evening).remittances ≡ some r')
    × Evolves second r'
run-Evolves_example =
    run-Evolves ((noon, resolve 2 true) ∷ []) evening 2 second (run-new-Inv defaults day)
      second_found

call_errors_example :
    (error_of (call noon (cancel 1) evening).0 ≡ refusal (cancel 1) evening)
    × ((e : ErrorCode)
        → (call noon (cancel 1) evening).0 ≡ err e
        → (call noon (cancel 1) evening).1 ≡ evening)
call_errors_example = call_errors noon (cancel 1) evening tt

abbrev entries : List (Env × BatchCreateEntry)
entries =
    (noon, record { agent = "agent"; amount = pos 5; expiry = none })
    ∷ (noon, record { agent = "nobody"; amount = pos 5; expiry = none })
    ∷ []

batch_prefix_example :
    let r = batch_create_remittances "alice" entries evening in
    (is_ok r.0 ≡ all_valid evening.agents entries)
    × (r.1.next_id ≡ evening.next_id + leading evening.agents entries)
    × (get 3 r.1.remittances
        ≡ standing "alice" evening.agents evening.fee_bps entries evening.next_id
            evening.remittances 3)
batch_prefix_example = batch_prefix "alice" entries evening 3

abbrev fresh : Client
fresh = (call noon (register "agent") (new defaults)).1

create-estimate_example :
    let e = estimate_fee noon transfer.amount fresh in
    (r : Remittance) × (p : ℕ) × (get fresh.next_id
        (create_remittance noon transfer fresh).1.remittances
      ≡ some r)
    × (r.status ≡ pending)
    × (r.amount ≡ 1000)
    × (e.platform_fee ≡ pos r.fee)
    × (10000 * r.fee ≤ 1000 * fresh.fee_bps)
    × (1000 * fresh.fee_bps < 10000 * r.fee + 10000)
    × (e.protocol_fee ≡ pos p)
    × (10000 * p ≤ 1000 * fresh.protocol_fee_bps)
    × (1000 * fresh.protocol_fee_bps < 10000 * p + 10000)
    × (e.net_amount ≡ sub_ℕ 1000 (r.fee + p))
unfolding call register_agent seed_agent new get put fake_tx_hash
create-estimate_example = create-estimate noon transfer 999 fresh refl refl

-- A negative amount has fees below zero, each rounded towards zero.
negative_fees : (estimate_fee noon (negsuc 149) fresh).platform_fee ≡ negsuc 0
unfolding estimate_fee call register_agent seed_agent new get put fake_tx_hash
negative_fees = refl

alice-ne-star : ¬ (◌≡◌ {A = String} "alice" "*")
alice-ne-star e = cc ((eq_iff "alice" "*").1 e)

limit_unseen_example :
    get_daily_limit_status noon "alice" "USD" "NG" (set_daily_limit noon "USD" "NG" 500 fresh).1
    ≡ get_daily_limit_status noon "alice" "USD" "NG" fresh
limit_unseen_example = limit_unseen noon noon "alice" "USD" "NG" 500 fresh alice-ne-star
