-- ===== src/Rates/Cache.antt =====
-- The methods of `FxRateCache` of backend/src/fx-rate-cache.ts. `getCurrentRate` runs up to the
-- `await` of the shared fetch; the rest of it, with the `then` and the `finally` of that fetch, runs
-- when the fetch settles. The clock, the upper case of a text, the random delay and the answers of
-- the providers are inputs. Warnings in the log are left out.
use Prim.Native.String
use daddy_config.Base.{
  text_equality, number_equality, ℕ, ◌+◌, ◌-◌, ◌*◌, ◌/◌, Bool, true, false, Option, none, some,
  List, ◌∷◌, String, get, put, delete, has, ltb, if◌then◌else◌, ◌==◌, Outcome, ok, err,
}
use daddy_config.Rates.Failover.{
  Rate, FxError, axios_error, failed_to_fetch, rate_not_found, no_rate_available, begin_get_rate,
}
use daddy_config.Rates.State.{FxRateResponse, World, Purpose, refresh, retry, Timer}

abbrev pub get_cache_key : (String → String) → String → String → String
get_cache_key upper from to =
    String.◌++◌ "fx:" (String.◌++◌ (upper from) (String.◌++◌ ":" (upper to)))

-- `a || b || c` of texts, of which the first may be absent.
abbrev pub first_text : Option String → String → String → String
first_text (some a) b c = if a == "" then (if b == "" then c else b) else a
first_text none b c = if b == "" then c else b

unfoldable pub served_from_cache : FxRateResponse → FxRateResponse
served_from_cache cached = record cached {
  cached = true;
  stale = some false;
  staleness_seconds = some 0;
  fx_rate_source = some (first_text cached.fx_rate_source cached.provider "primary");
}

-- What the failover service's answer becomes.
unfoldable pub fetch_from_external_api :
    ℕ → String → String → Outcome FxError Rate → Outcome FxError FxRateResponse
fetch_from_external_api now from to (ok rate) = ok (record {
  from = from;
  to = to;
  rate = rate;
  timestamp = now;
  provider = "FailoverFxService";
  cached = false;
  stale = none;
  stale_age_seconds = none;
  fx_rate_source = none;
  staleness_seconds = none;
})
fetch_from_external_api now from to (err (axios_error status)) = err (axios_error status)
fetch_from_external_api now from to (err (rate_not_found name)) =
    err (failed_to_fetch (rate_not_found name))
fetch_from_external_api now from to (err no_rate_available) =
    err (failed_to_fetch no_rate_available)
fetch_from_external_api now from to (err (failed_to_fetch e)) =
    err (failed_to_fetch (failed_to_fetch e))

-- A provider's response holds the rates by currency, if it has any.
unfoldable pub fetch_from_provider :
    ℕ
    → String
    → String
    → String
    → Outcome FxError (Option (List (String × Rate)))
    → Outcome FxError FxRateResponse
fetch_from_provider now from to name (err e) = err e
fetch_from_provider now from to name (ok none) = err (rate_not_found name)
fetch_from_provider now from to name (ok (some rates)) = elim (get to rates) [
  | none ↦ err (rate_not_found name)
  | some rate ↦ ok (record {
    from = from;
    to = to;
    rate = rate;
    timestamp = now;
    provider = if name == "primary" then "ExchangeRateAPI" else "secondary";
    cached = false;
    stale = some false;
    stale_age_seconds = none;
    fx_rate_source = some name;
    staleness_seconds = some 0;
  })
]

abbrev pub ProviderAnswers : Type 0
ProviderAnswers = String → Outcome FxError (Option (List (String × Rate)))

-- The first provider that answers with a rate, or the error of the last one.
unfoldable pub fetch_from_providers :
    ℕ → String → String → Bool → ProviderAnswers → Outcome FxError FxRateResponse
fetch_from_providers now from to has_secondary answer =
    elim (fetch_from_provider now from to "primary" (answer "primary")) [
      | ok rate ↦ ok rate
      | err e ↦
          if has_secondary
          then fetch_from_provider now from to "secondary" (answer "secondary")
          else err e
    ]

abbrev pub get_stale_age_seconds : ℕ → FxRateResponse → ℕ
get_stale_age_seconds now stale = (now - stale.timestamp) / 1000

module _ {C : Type 0} where
  unfoldable pub clear_refresh_timer : String → World C → World C
  clear_refresh_timer key w = elim (get key w.rates.refresh_timers) [
    | none ↦ w
    | some timer ↦ record w {
      rates = record w.rates { refresh_timers = delete key w.rates.refresh_timers };
      timers = delete timer w.timers;
    }
  ]

  -- `setTimeout`, and the timer under its key.
  unfoldable pub set_timer : Timer → World C → World C
  set_timer timer w = record w {
    rates = record w.rates { refresh_timers = put timer.key w.next w.rates.refresh_timers };
    timers = put w.next timer w.timers;
    next = w.next + 1;
  }

  unfoldable pub schedule_background_refresh : ℕ → String → String → String → World C → World C
  schedule_background_refresh now key from to w =
      let w' = clear_refresh_timer key w in
      let ms = (w.rates.ttl_seconds - w.rates.refresh_before_expiry_seconds) * 1000 in
      if ltb 0 ms
      then set_timer (record { kind = refresh; key = key; from = from; to = to; due = now + ms }) w'
      else w'

  unfoldable pub schedule_jittered_retry : ℕ → ℕ → String → String → String → World C → World C
  schedule_jittered_retry now jitter key from to w =
      if has key w.rates.refresh_timers
      then w
      else set_timer
          (record { kind = retry; key = key; from = from; to = to; due = now + 60000 + jitter }) w

  unfoldable pub start_fetch : ℕ → Purpose → String → String → String → World C → World C
  start_fetch now purpose key from to w =
      let (phase, failover) = begin_get_rate now w.failover in
      record w {
        failover = failover;
        fetches =
            put w.next
              (record { key = key; from = from; to = to; purpose = purpose; phase = phase })
              w.fetches;
        next = w.next + 1;
      }

  unfoldable pub answer : ℕ → Outcome FxError FxRateResponse → World C → World C
  answer request result w = record w { answers = (request, result) ∷ w.answers }
