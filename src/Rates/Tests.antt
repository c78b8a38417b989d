-- ===== src/Rates/Tests.antt =====
-- Runs of backend/src/fx-rate-cache.ts with a cache whose entries last for a minute.
use daddy_config.Base.{
  text_equality, number_equality, ℕ, ◌+◌, false, Option, none, some, List, [], ◌∷◌, String, get,
  put, delete, ltb, if◌then◌else◌, ◌==◌, Outcome, ok, err, ◌≡◌, refl, All, AllEntries, length, take,
  inl,
}
use daddy_config.Rates.Failover.{
  asking_secondary, KnownRate, is_circuit_open, begin_get_rate, remember, open_circuit,
  primary_answered, secondary_answered, new_failover, axios_error, FxError,
}
use daddy_config.Rates.State.{
  FxRateResponse, NodeCache, World, Fetch, FxRateCacheOptions, for_requests, new_fx_rate_cache,
  new_world,
}
use daddy_config.Rates.Cache.{
  served_from_cache, fetch_from_external_api, clear_refresh_timer, set_timer,
  schedule_background_refresh, schedule_jittered_retry, start_fetch, answer,
}
use daddy_config.Rates.Steps.{
  share_fetch, await_fetch, answer_request, answer_requests, emit, release, fires, store_rate,
  keep_rate, keep_result, go_on, settle, primary_arrives, secondary_arrives, refresh_ends,
  clear_everything, get_current_rate, invalidate_pair, step, Event, request, primary, secondary,
  clear_all, run,
}
use daddy_config.Rates.Calm.{IsFresh, IsRefresh}
use daddy_config.Rates.Fallback.{never_stale}
use daddy_config.Rates.Sharing.{Awaits}
use daddy_config.Rates.Remembered.{Among, handed_on, remembered_unmarked}
use daddy_config.Rates.OneFetch.{one_fetch}

abbrev Entries : Type 0
Entries = List (String × (ℕ × FxRateResponse))

abbrev unexpired : ℕ → Option (ℕ × FxRateResponse) → Option FxRateResponse
unexpired now none = none
unexpired now (some (until, rate)) = if ltb now until then some rate else none

abbrev minute_cache : NodeCache Entries
minute_cache = record {
  get = λ now k m. unexpired now (get {V = ℕ × FxRateResponse} k m);
  set = λ now k rate m. put {V = ℕ × FxRateResponse} k (now + 60000, rate) m;
  del = λ k m. delete {V = ℕ × FxRateResponse} k m;
  flush_all = λ m. [];
}

abbrev upper : String → String
upper text = if text == "usd" then "USD" else text

abbrev options : FxRateCacheOptions
options = record {
  ttl_seconds = none;
  refresh_before_expiry_seconds = none;
  has_secondary_api_url = false;
}

abbrev start : World Entries
start = new_world (new_fx_rate_cache [] options) (new_failover 60000)

-- Two requests share a fetch, later both providers refuse.
abbrev limited : List Event
limited =
    request 0 0 "usd" "EUR"
    ∷ request 1 1 "USD" "EUR"
    ∷ primary 100 0 0 (ok "0.9")
    ∷ request 70000 2 "USD" "EUR"
    ∷ primary 70100 0 2 (err (axios_error (some 429)))
    ∷ secondary 70200 0 2 (err (axios_error (some 429)))
    ∷ []

abbrev result_of : ℕ → World Entries → Option (Outcome FxError FxRateResponse)
result_of id w = get id w.answers

-- The last request is told that the rate of 70 seconds ago is fresh.
limited_answers :
    (result_of 2 (run minute_cache upper limited start)
      ≡ some (
          ok (record {
            from = "USD";
            to = "EUR";
            rate = "0.9";
            timestamp = 70200;
            provider = "FailoverFxService";
            cached = false;
            stale = none;
            stale_age_seconds = none;
            fx_rate_source = none;
            staleness_seconds = none;
          })))
    × (length (run minute_cache upper limited start).answers ≡ 3)
unfolding get put delete is_circuit_open begin_get_rate remember open_circuit primary_answered
    secondary_answered served_from_cache fetch_from_external_api clear_refresh_timer set_timer
    schedule_background_refresh schedule_jittered_retry start_fetch answer share_fetch await_fetch
    answer_request answer_requests emit release fires store_rate keep_rate keep_result go_on settle
    primary_arrives secondary_arrives refresh_ends clear_everything get_current_rate invalidate_pair
    step run new_fx_rate_cache new_world
limited_answers = (refl, refl)

never_stale_example :
    All IsFresh (run minute_cache upper limited start).answers
    × AllEntries IsRefresh (run minute_cache upper limited start).timers
never_stale_example =
    never_stale minute_cache upper limited (new_fx_rate_cache [] options) (new_failover 60000)

-- The world of `limited` just before the secondary provider refuses.
abbrev refused_once : World Entries
refused_once = run minute_cache upper (take 5 limited) start

abbrev second_fetch : Fetch
second_fetch = record {
  key = "fx:USD:EUR";
  from = "USD";
  to = "EUR";
  purpose = for_requests;
  phase = asking_secondary;
}

abbrev first_rate : KnownRate
first_rate = record { rate = "0.9"; ts = 100 }

remembered_unmarked_example :
    Among
      (2, ok (handed_on 70200 second_fetch first_rate))
      (step minute_cache upper
        (secondary 70200 0 2 (err (axios_error (some 429))))
        refused_once).answers
unfolding get put delete is_circuit_open begin_get_rate remember open_circuit primary_answered
    secondary_answered served_from_cache fetch_from_external_api clear_refresh_timer set_timer
    schedule_background_refresh schedule_jittered_retry start_fetch answer share_fetch await_fetch
    answer_request answer_requests emit release fires store_rate keep_rate keep_result go_on settle
    primary_arrives secondary_arrives refresh_ends clear_everything get_current_rate invalidate_pair
    step run new_fx_rate_cache new_world
remembered_unmarked_example =
    remembered_unmarked minute_cache 70200 0 2 (axios_error (some 429)) second_fetch first_rate
      (record { request = 2; key = "fx:USD:EUR"; fetch = 2 }) refused_once upper refl refl refl refl
      (inl refl) refl

one_fetch_example :
    (let w = run minute_cache upper limited start in
      ((i j : ℕ) (f g : Fetch)
        → get i w.fetches ≡ some f
        → get j w.fetches ≡ some g
        → f.purpose ≡ for_requests
        → g.purpose ≡ for_requests
        → f.key ≡ g.key
        → i ≡ j)
      × All (Awaits w.fetches) w.waiting)
one_fetch_example =
    one_fetch minute_cache upper limited [] options (new_failover 60000)
      ((λ e. cc), ((λ e. cc), ((λ e. cc), ((λ e. cc), ((λ e. cc), ((λ e. cc), tt))))))

-- After `clearAll` a second fetch of the pair starts beside the first.
cleared_fetches :
    length
      (run minute_cache upper
        (request 0 0 "USD" "EUR" ∷ clear_all ∷ request 1 1 "USD" "EUR" ∷ [])
        start).fetches
    ≡ 2
unfolding get put delete is_circuit_open begin_get_rate remember open_circuit primary_answered
    secondary_answered served_from_cache fetch_from_external_api clear_refresh_timer set_timer
    schedule_background_refresh schedule_jittered_retry start_fetch answer share_fetch await_fetch
    answer_request answer_requests emit release fires store_rate keep_rate keep_result go_on settle
    primary_arrives secondary_arrives refresh_ends clear_everything get_current_rate invalidate_pair
    step run new_fx_rate_cache new_world
cleared_fetches = refl
