-- ===== src/Ledger/Estimates.antt =====
-- Fee estimates and daily limits of sdk/src/testing/mock-client.ts.
use Prim.Native.String.{String}
use text.Mathlib.TextLemmas.{append_cancel_right}
use text.Mathlib.TextEquality.{eq_iff}
use daddy_config.Base.{
  number_equality, text_equality, ℕ, suc, ◌+◌, ◌*◌, ◌/◌, ◌≤◌, ◌<◌, zero, ◌≡◌, ◌≢◌, refl, sym, true,
  some, get, has, arith, get-put,
}
use daddy_config.Base.Int.{pos, neg, sub_ℕ, ◌+ℤ◌}
use daddy_config.Ledger.Client.{Client, Remittance, Env, pending}
use daddy_config.Ledger.Reads.{estimate_fee, get_daily_limit_status, limit_key}
use daddy_config.Ledger.Writes.{
  CreateRemittanceParams, create_remittance, add_remittance, created, fake_tx_hash,
}
use daddy_config.Ledger.Errors.{positive_amount_lem}
use daddy_config.Ledger.Admin.{set_daily_limit}

quotient_of : (a : ℕ) → (10000 * (a / 10000) ≤ a) × (a < 10000 * (a / 10000) + 10000)
quotient_of a = (omega arith, omega arith)

net_of : (n m : ℕ) → pos n +ℤ neg (pos m) ≡ sub_ℕ n m
net_of n zero = ground arith
net_of n (suc m) = refl

-- A creation that is accepted stores, under the next number, a pending remittance of the amount,
-- whose fee is the platform fee that an estimate in the same state gives: the amount's share of so
-- many ten-thousandths, rounded down. The estimate's protocol fee is the other such share, and
-- what it leaves to the recipient is the amount without both, below zero if they are more.
pub create-estimate :
    (env : Env) (params : CreateRemittanceParams) (n : ℕ) (c : Client)
    → has params.agent c.agents ≡ true
    → params.amount ≡ pos (suc n)
    → let e = estimate_fee env params.amount c in
      (r : Remittance) × (p : ℕ) × (get c.next_id (create_remittance env params c).1.remittances
        ≡ some r)
      × (r.status ≡ pending)
      × (r.amount ≡ suc n)
      × (e.platform_fee ≡ pos r.fee)
      × (10000 * r.fee ≤ suc n * c.fee_bps)
      × (suc n * c.fee_bps < 10000 * r.fee + 10000)
      × (e.protocol_fee ≡ pos p)
      × (10000 * p ≤ suc n * c.protocol_fee_bps)
      × (suc n * c.protocol_fee_bps < 10000 * p + 10000)
      × (e.net_amount ≡ sub_ℕ (suc n) (r.fee + p))
unfolding create_remittance add_remittance fake_tx_hash estimate_fee
create-estimate env params n c known amount =
    let (low, high) = quotient_of (suc n * c.fee_bps) in
    let (low', high') = quotient_of (suc n * c.protocol_fee_bps) in
    (
      created env params (suc n) c,
      suc n * c.protocol_fee_bps / 10000,
      ground (
        arith,
        positive_amount_lem params.amount c,
        get-put c.next_id c.next_id (created env params (suc n) c) c.remittances,
      ),
      refl,
      refl,
      rw amount refl,
      low,
      high,
      rw amount refl,
      low',
      high',
      rw amount (net_of (suc n) (suc n * c.fee_bps / 10000 + suc n * c.protocol_fee_bps / 10000)),
    )

key_differs :
    (sender currency country : String)
    → sender ≢ "*"
    → limit_key "*" currency country ≢ limit_key sender currency country
key_differs sender currency country other e = other (sym (append_cancel_right _ _ _ e))

-- A daily limit that is set for a corridor does not reach the status of any sender but "*".
pub limit_unseen :
    (env env' : Env) (sender currency country : String) (n : ℕ) (c : Client)
    → sender ≢ "*"
    → get_daily_limit_status env' sender currency country
        (set_daily_limit env currency country n c).1
      ≡ get_daily_limit_status env' sender currency country c
unfolding get_daily_limit_status set_daily_limit fake_tx_hash
limit_unseen env env' sender currency country n c other = ground (
  arith,
  get-put (limit_key "*" currency country) (limit_key sender currency country)
      (record { limit = n; used = 0; resets_at = env.now + 86400000 }) c.daily_limits,
  eq_iff (limit_key "*" currency country) (limit_key sender currency country),
  key_differs sender currency country other,
)
