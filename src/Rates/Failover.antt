-- ===== src/Rates/Failover.antt =====
-- backend/src/fx-provider.ts: `FailoverFxService`, which asks the primary provider while its circuit
-- breaker allows it, then the secondary one, then what it remembers. `getRate` waits for each
-- provider, so it is three functions: up to the first wait, and after each of the two. What a
-- provider answers is an input. A rate is the text of its number, since nothing here computes with
-- it.
use Prim.Native.String
use daddy_config.Base.{
  text_equality, ℕ, ◌+◌, Bool, true, false, Option, none, some, List, String, [], get, put, leb,
  if◌then◌else◌, Outcome, ok, err,
}

abbrev pub Rate : Type 0
Rate = String

-- The errors: one of axios, with the status of its response if there was one, and the messages.
pub data FxError : Type 0 where
  axios_error : Option ℕ → FxError
  rate_not_found : String → FxError
  no_rate_available : FxError
  failed_to_fetch : FxError → FxError

pub record CircuitBreaker : Type 0 where
  pub is_open : Bool
  pub opened_at : ℕ
  pub half_open_after_ms : ℕ

-- Its answer, and the breaker, which closes when its time is over.
unfoldable pub is_circuit_open : ℕ → CircuitBreaker → Bool × CircuitBreaker
is_circuit_open now cb =
    if cb.is_open
    then (if leb (cb.opened_at + cb.half_open_after_ms) now
        then (false, record cb { is_open = false })
        else (true, cb))
    else (false, cb)

pub record KnownRate : Type 0 where
  pub rate : Rate
  pub ts : ℕ

pub record FailoverFxService : Type 0 where
  pub cb : CircuitBreaker
  pub stale_cache : List (String × KnownRate)

abbrev pub new_failover : ℕ → FailoverFxService
new_failover half_open_after_ms = record {
  cb = record { is_open = false; opened_at = 0; half_open_after_ms = half_open_after_ms };
  stale_cache = [];
}

abbrev pub stale_key : String → String → String
stale_key from to = String.◌++◌ from (String.◌++◌ "_" to)

-- Which provider a call of `getRate` waits for.
pub data FetchPhase : Type 0 where
  asking_primary asking_secondary : FetchPhase

unfoldable pub begin_get_rate : ℕ → FailoverFxService → FetchPhase × FailoverFxService
begin_get_rate now s =
    let (closed, cb) = is_circuit_open now s.cb in
    (if closed then asking_secondary else asking_primary, record s { cb = cb })

unfoldable pub remember : ℕ → String → String → Rate → FailoverFxService → FailoverFxService
remember now from to rate s = record s {
  stale_cache = put (stale_key from to) (record { rate = rate; ts = now }) s.stale_cache;
}

unfoldable pub open_circuit : ℕ → FailoverFxService → FailoverFxService
open_circuit now s = record s { cb = record s.cb { is_open = true; opened_at = now } }

-- The rate, or none when the call goes on to ask the secondary provider.
unfoldable pub primary_answered :
    ℕ → String → String → Outcome FxError Rate → FailoverFxService → Option Rate × FailoverFxService
primary_answered now from to (ok rate) s = (some rate, remember now from to rate s)
primary_answered now from to (err e) s = (none, open_circuit now s)

unfoldable pub secondary_answered :
    ℕ
    → String
    → String
    → Outcome FxError Rate
    → FailoverFxService
    → Outcome FxError Rate × FailoverFxService
secondary_answered now from to (ok rate) s = (ok rate, remember now from to rate s)
secondary_answered now from to (err e) s = elim (get (stale_key from to) s.stale_cache) [
  | none ↦ (err no_rate_available, s)
  | some known ↦ (ok known.rate, s)
]
