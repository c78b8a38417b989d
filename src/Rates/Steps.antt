-- ===== src/Rates/Steps.antt =====
-- The steps of `FxRateCache` of backend/src/fx-rate-cache.ts between two waits: a request arrives, a
-- provider answers, a timer fires, an entry expires, or an administrator clears. They happen in any
-- order.
use daddy_config.Base.{
  text_equality, number_equality, ℕ, Bool, true, false, none, some, List, [], ◌∷◌, ◌++◌, String,
  get, put, delete, has, leb, eqb, if◌then◌else◌, ◌==◌, Outcome, ok, err,
}
use daddy_config.Rates.Failover.{
  Rate, FxError, axios_error, rate_not_found, no_rate_available, failed_to_fetch, asking_primary,
  asking_secondary, primary_answered, secondary_answered,
}
use daddy_config.Rates.State.{
  FxRateResponse, NodeCache, World, Purpose, for_requests, for_retry, Fetch, Waiter, refresh, retry,
  Timer,
}
use daddy_config.Rates.Cache.{
  get_cache_key, served_from_cache, fetch_from_external_api, ProviderAnswers, fetch_from_providers,
  get_stale_age_seconds, clear_refresh_timer, schedule_background_refresh, schedule_jittered_retry,
  start_fetch, answer,
}

abbrev pub is_rate_limit : FxError → Bool
is_rate_limit (axios_error none) = false
is_rate_limit (axios_error (some status)) = eqb status 429
is_rate_limit (rate_not_found name) = false
is_rate_limit no_rate_available = false
is_rate_limit (failed_to_fetch e) = false

pub data Event : Type 0 where
  request : ℕ → ℕ → String → String → Event
  primary secondary : ℕ → ℕ → ℕ → Outcome FxError Rate → Event
  fire : ℕ → ℕ → Event
  refreshed : ℕ → ℕ → ProviderAnswers → Event
  expired : String → Event
  invalidate : String → String → Event
  clear_all : Event

-- `clearTimeout` of each.
abbrev pub without_timers : List (String × ℕ) → List (ℕ × Timer) → List (ℕ × Timer)
without_timers [] timers = timers
without_timers ((key, id) ∷ rest) timers = without_timers rest (delete id timers)

module _ {C : Type 0} where
  -- The first request of a pair starts the fetch, the others find it.
  unfoldable pub share_fetch : ℕ → String → String → String → World C → World C
  share_fetch now key from to w =
      if has key w.rates.inflight
      then w
      else (let started = start_fetch now for_requests key from to w in
          record started {
            rates = record started.rates { inflight = put key w.next started.rates.inflight };
          })

  unfoldable pub await_fetch : ℕ → String → World C → World C
  await_fetch id key w = elim (get key w.rates.inflight) [
    | none ↦ w
    | some fetch ↦ record w {
      waiting = w.waiting ++ record { request = id; key = key; fetch = fetch } ∷ [];
    }
  ]

  -- The rest of `getCurrentRate` for one request. The delay is used by the first that sets a timer.
  unfoldable pub answer_request :
      ℕ → ℕ → Fetch → Outcome FxError FxRateResponse → ℕ → World C → World C
  answer_request now jitter f (ok rate) id w = answer id (ok (record rate { cached = false })) w
  answer_request now jitter f (err e) id w =
      if is_rate_limit e
      then elim (get f.key w.rates.stale_cache) [
        | none ↦ answer id (err e) w
        | some known ↦
            answer id
              (ok (record known {
                cached = true;
                stale = some true;
                stale_age_seconds = some (get_stale_age_seconds now known);
              }))
              (schedule_jittered_retry now jitter f.key f.from f.to w)
      ]
      else answer id (err e) w

  -- The requests that await this fetch go on, in their order; the others wait on.
  unfoldable pub answer_requests :
      ℕ → ℕ → ℕ → Fetch → Outcome FxError FxRateResponse → List Waiter → World C → World C
  answer_requests now jitter fetch f result [] w = w
  answer_requests now jitter fetch f result (x ∷ xs) w =
      answer_requests now jitter fetch f result xs (
        if x.fetch == fetch
        then answer_request now jitter f result x.request w
        else record w { waiting = w.waiting ++ x ∷ [] })

  unfoldable pub emit : FxRateResponse → World C → World C
  emit rate w = record w { emitted = rate ∷ w.emitted }

  -- The `finally`, which drops whatever fetch the pair has by now.
  unfoldable pub release : String → World C → World C
  release key w = record w {
    rates = record w.rates { inflight = delete key w.rates.inflight };
    waiting = [];
  }

  -- The callback of a timer, up to its first wait.
  unfoldable pub fires : ℕ → ℕ → Timer → World C → World C
  fires now id t w = elim t.kind [
    | refresh ↦ record w { timers = delete id w.timers; refreshes = put id t w.refreshes }
    | retry ↦ start_fetch now for_retry t.key t.from t.to (record w {
      rates = record w.rates { refresh_timers = delete t.key w.rates.refresh_timers };
      timers = delete id w.timers;
    })
  ]

module _ {C : Type 0} (node : NodeCache C) where
  unfoldable pub store_rate : ℕ → String → FxRateResponse → World C → World C
  store_rate now key rate w = record w {
    rates = record w.rates {
      cache = node.set now key rate w.rates.cache;
      stale_cache = put key rate w.rates.stale_cache;
    };
  }

  unfoldable pub keep_rate : ℕ → Fetch → FxRateResponse → World C → World C
  keep_rate now f rate w =
      schedule_background_refresh now f.key f.from f.to (store_rate now f.key rate w)

  -- The `then` of a fetch.
  unfoldable pub keep_result :
      ℕ → Purpose → Fetch → Outcome FxError FxRateResponse → World C → World C
  keep_result now purpose f (err e) w = w
  keep_result now for_requests f (ok rate) w = emit rate (keep_rate now f rate w)
  keep_result now for_retry f (ok rate) w = keep_rate now f rate w

  -- What follows a fetch for requests, and one for a retry.
  unfoldable pub go_on :
      ℕ → ℕ → ℕ → Purpose → Fetch → Outcome FxError FxRateResponse → World C → World C
  go_on now jitter id for_requests f result w =
      answer_requests now jitter id f result w.waiting (release f.key w)
  go_on now jitter id for_retry f result w = w

  unfoldable pub settle : ℕ → ℕ → ℕ → Fetch → Outcome FxError FxRateResponse → World C → World C
  settle now jitter id f result w =
      go_on now jitter id f.purpose f result
        (keep_result now f.purpose f result (record w { fetches = delete id w.fetches }))

  unfoldable pub primary_arrives : ℕ → ℕ → ℕ → Outcome FxError Rate → Fetch → World C → World C
  primary_arrives now jitter id outcome f w =
      let (found, failover) = primary_answered now f.from f.to outcome w.failover in
      let known = record w { failover = failover } in
      elim found [
        | none ↦ record known { fetches = put id (record f { phase = asking_secondary }) w.fetches }
        | some rate ↦
            settle now jitter id f (fetch_from_external_api now f.from f.to (ok rate)) known
      ]

  unfoldable pub secondary_arrives : ℕ → ℕ → ℕ → Outcome FxError Rate → Fetch → World C → World C
  secondary_arrives now jitter id outcome f w =
      let (result, failover) = secondary_answered now f.from f.to outcome w.failover in
      settle now jitter id f (fetch_from_external_api now f.from f.to result)
        (record w { failover = failover })

  unfoldable pub refresh_ends : ℕ → ℕ → ProviderAnswers → Timer → World C → World C
  refresh_ends now id answers t w =
      let ended = record w { refreshes = delete id w.refreshes } in
      elim (fetch_from_providers now t.from t.to w.rates.has_secondary answers) [
        | err e ↦ ended
        | ok rate ↦
            schedule_background_refresh now t.key t.from t.to
              (emit rate (store_rate now t.key rate ended))
      ]

  unfoldable pub clear_everything : World C → World C
  clear_everything w = record w {
    rates = record w.rates {
      cache = node.flush_all w.rates.cache;
      stale_cache = [];
      refresh_timers = [];
      inflight = [];
    };
    timers = without_timers w.rates.refresh_timers w.timers;
  }

  module _ (upper : String → String) where
    unfoldable pub get_current_rate : ℕ → ℕ → String → String → World C → World C
    get_current_rate now id from to w =
        let key = get_cache_key upper (upper from) (upper to) in
        elim (node.get now key w.rates.cache) [
          | some cached ↦ answer id (ok (served_from_cache cached)) w
          | none ↦ await_fetch id key (share_fetch now key (upper from) (upper to) w)
        ]

    unfoldable pub invalidate_pair : String → String → World C → World C
    invalidate_pair from to w =
        let key = get_cache_key upper from to in
        clear_refresh_timer key (record w {
          rates = record w.rates {
            cache = node.del key w.rates.cache;
            stale_cache = delete key w.rates.stale_cache;
          };
        })

    -- An answer of a provider that no fetch waits for, and a timer that is gone or not due, do
    -- nothing.
    unfoldable pub step : Event → World C → World C
    step (request now id from to) w = get_current_rate now id from to w
    step (primary now jitter id outcome) w = elim (get id w.fetches) [
      | none ↦ w
      | some f ↦ elim f.phase [
        | asking_primary ↦ primary_arrives now jitter id outcome f w
        | asking_secondary ↦ w
      ]
    ]
    step (secondary now jitter id outcome) w = elim (get id w.fetches) [
      | none ↦ w
      | some f ↦ elim f.phase [
        | asking_primary ↦ w
        | asking_secondary ↦ secondary_arrives now jitter id outcome f w
      ]
    ]
    step (fire now id) w = elim (get id w.timers) [
      | none ↦ w
      | some t ↦ if leb t.due now then fires now id t w else w
    ]
    step (refreshed now id answers) w = elim (get id w.refreshes) [
      | none ↦ w
      | some t ↦ refresh_ends now id answers t w
    ]
    step (expired key) w = clear_refresh_timer key w
    step (invalidate from to) w = invalidate_pair from to w
    step clear_all w = clear_everything w

    unfoldable pub run : List Event → World C → World C
    run [] w = w
    run (e ∷ es) w = run es (step e w)
