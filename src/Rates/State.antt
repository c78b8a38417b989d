-- ===== src/Rates/State.antt =====
-- The state of `FxRateCache` of backend/src/fx-rate-cache.ts and what surrounds it: the timers that
-- are set and the asynchronous calls that wait for a provider. `lastKnownRates` is left out, since
-- nothing writes to it, and so is the observer of metrics.
use daddy_config.Base.{ℕ, Bool, Option, none, some, List, [], String, eqb, if◌then◌else◌, Outcome}
use daddy_config.Rates.Failover.{Rate, FxError, FetchPhase, FailoverFxService}

pub record FxRateResponse : Type 0 where
  pub from : String
  pub to : String
  pub rate : Rate
  pub timestamp : ℕ
  pub provider : String
  pub cached : Bool
  pub stale : Option Bool
  pub stale_age_seconds : Option ℕ
  pub fx_rate_source : Option String
  pub staleness_seconds : Option ℕ

-- The calls of the package `node-cache`; they read the clock, since an entry expires.
pub record NodeCache (C : Type 0) : Type 0 where
  pub get : ℕ → String → C → Option FxRateResponse
  pub set : ℕ → String → FxRateResponse → C → C
  pub del : String → C → C
  pub flush_all : C → C

-- `cache` and the maps from a key: to the last rate, to a timer, to the fetch that requests share.
pub record FxRateCache (C : Type 0) : Type 0 where
  pub cache : C
  pub stale_cache : List (String × FxRateResponse)
  pub refresh_timers : List (String × ℕ)
  pub inflight : List (String × ℕ)
  pub ttl_seconds : ℕ
  pub refresh_before_expiry_seconds : ℕ
  pub has_secondary : Bool

-- Zero and an absent option both give the default.
abbrev pub number_or : Option ℕ → ℕ → ℕ
number_or none default = default
number_or (some n) default = if eqb n 0 then default else n

pub record FxRateCacheOptions : Type 0 where
  pub ttl_seconds : Option ℕ
  pub refresh_before_expiry_seconds : Option ℕ
  pub has_secondary_api_url : Bool

-- Who waits for a call of `fetchFromExternalApi`: the requests that share it, or a retry.
pub data Purpose : Type 0 where
  for_requests for_retry : Purpose

pub record Fetch : Type 0 where
  pub key : String
  pub from : String
  pub to : String
  pub purpose : Purpose
  pub phase : FetchPhase

-- A request that awaits a fetch.
pub record Waiter : Type 0 where
  pub request : ℕ
  pub key : String
  pub fetch : ℕ

pub data TimerKind : Type 0 where
  refresh retry : TimerKind

pub record Timer : Type 0 where
  pub kind : TimerKind
  pub key : String
  pub from : String
  pub to : String
  pub due : ℕ

-- Fetches, timers and background refreshes by the numbers they get; `answers` are those of the
-- requests, and `emitted` the events `rate_updated`.
pub record World (C : Type 0) : Type 0 where
  pub rates : FxRateCache C
  pub failover : FailoverFxService
  pub fetches : List (ℕ × Fetch)
  pub timers : List (ℕ × Timer)
  pub refreshes : List (ℕ × Timer)
  pub waiting : List Waiter
  pub answers : List (ℕ × Outcome FxError FxRateResponse)
  pub emitted : List FxRateResponse
  pub next : ℕ

unfoldable pub new_fx_rate_cache : {C : Type 0} → C → FxRateCacheOptions → FxRateCache C
new_fx_rate_cache cache options = record {
  cache = cache;
  stale_cache = [];
  refresh_timers = [];
  inflight = [];
  ttl_seconds = number_or options.ttl_seconds 60;
  refresh_before_expiry_seconds = number_or options.refresh_before_expiry_seconds 10;
  has_secondary = options.has_secondary_api_url;
}

unfoldable pub new_world : {C : Type 0} → FxRateCache C → FailoverFxService → World C
new_world rates failover = record {
  rates = rates;
  failover = failover;
  fetches = [];
  timers = [];
  refreshes = [];
  waiting = [];
  answers = [];
  emitted = [];
  next = 0;
}
