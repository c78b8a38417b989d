-- ===== src/Rates/Fallback.antt =====
-- Whether backend/src/fx-rate-cache.ts ever serves a stale rate.
use daddy_config.Base.{
  text_equality, number_equality, ℕ, List, [], ◌∷◌, String, get, delete, Outcome, ok, err, ◌≡◌,
  refl, All, AllEntries, AllEntries-put, AllEntries-delete, AllEntries-get, Option-cases,
  Bool-cases, inl, inr, leb,
}
use daddy_config.Rates.Failover.{
  Rate, FxError, primary_answered, secondary_answered, FailoverFxService, stale_key,
}
use daddy_config.Rates.State.{
  FxRateResponse, NodeCache, World, for_requests, for_retry, Fetch, refresh, Timer, FxRateCache,
  new_world, Purpose,
}
use daddy_config.Rates.Cache.{
  get_cache_key, served_from_cache, fetch_from_external_api, ProviderAnswers, fetch_from_providers,
}
use daddy_config.Rates.Steps.{
  Event, request, primary, secondary, fire, refreshed, expired, invalidate, clear_all, store_rate,
  emit, settle, keep_result, keep_rate, go_on, release, primary_arrives, secondary_arrives, fires,
  refresh_ends, without_timers, clear_everything, get_current_rate, invalidate_pair, step, run,
}
use daddy_config.Rates.Calm.{
  Calm-same, IsFresh, IsRefresh, IsShared, IsPlain, FetchPhase-cases, Outcome-cases, Calm,
  Calm-clear, Calm-schedule, Calm-answer, Calm-answer_requests, Calm-await, Calm-share,
}

module _ {C : Type 0} (node : NodeCache C) where
  Calm-ended : (id : ℕ) (w : World C) → Calm w → Calm (record w { fetches = delete id w.fetches })
  Calm-ended id w h = record {
    answers = h.answers;
    timers = h.timers;
    refreshes = h.refreshes;
    fetches = AllEntries-delete IsShared id w.fetches h.fetches;
  }

  Calm-store :
      (now : ℕ) (key : String) (rate : FxRateResponse) (w : World C)
      → Calm w
      → Calm (store_rate node now key rate w)
  unfolding store_rate
  Calm-store now key rate w h = Calm-same h refl refl refl refl

  Calm-keep_result :
      (now : ℕ) (q : Purpose) (f : Fetch) (result : Outcome FxError FxRateResponse) (w : World C)
      → Calm w
      → Calm (keep_result node now q f result w)
  unfolding keep_result keep_rate emit
  Calm-keep_result now q f (err e) w h = h
  Calm-keep_result now for_requests f (ok rate) w h =
      let k = Calm-schedule now f.key f.from f.to _ (Calm-store now f.key rate w h) in
      Calm-same k refl refl refl refl
  Calm-keep_result now for_retry f (ok rate) w h =
      Calm-schedule now f.key f.from f.to _ (Calm-store now f.key rate w h)

  Calm-go_on :
      (now jitter id : ℕ) (q : Purpose) (f : Fetch) (result : Outcome FxError FxRateResponse)
      (w : World C)
      → IsPlain result
      → Calm w
      → Calm (go_on node now jitter id q f result w)
  unfolding go_on release
  Calm-go_on now jitter id for_requests f result w p h =
      Calm-answer_requests now jitter id f result w.waiting _ p (Calm-same h refl refl refl refl)
  Calm-go_on now jitter id for_retry f result w p h = h

  Calm-settle :
      (now jitter id : ℕ) (f : Fetch) (result : Outcome FxError FxRateResponse) (w : World C)
      → IsPlain result
      → Calm w
      → Calm (settle node now jitter id f result w)
  unfolding settle
  Calm-settle now jitter id f result w p h =
      Calm-go_on now jitter id f.purpose f result _ p
        (Calm-keep_result now f.purpose f result _ (Calm-ended id w h))

  fetch_from_external_api-IsPlain :
      (now t : ℕ) (from to : String) (outcome : Outcome FxError Rate) (s : FailoverFxService)
      → IsPlain (fetch_from_external_api now from to (secondary_answered t from to outcome s).0)
  unfolding secondary_answered fetch_from_external_api
  fetch_from_external_api-IsPlain now t from to (ok rate) s = λ e. cc
  fetch_from_external_api-IsPlain now t from to (err e) s =
      elim (Option-cases (get (stale_key from to) s.stale_cache)) [
        | inl unknown ↦ rw (unknown, secondary_answered) refl
        | inr (known, there) ↦ rw (there, secondary_answered) (λ e. cc)
      ]

  Calm-primary :
      (now jitter id : ℕ) (outcome : Outcome FxError Rate) (f : Fetch) (w : World C)
      → f.purpose ≡ for_requests
      → Calm w
      → Calm (primary_arrives node now jitter id outcome f w)
  unfolding primary_arrives primary_answered fetch_from_external_api
  Calm-primary now jitter id (ok rate) f w shared h =
      Calm-settle now jitter id f _ _ (λ e. cc) (Calm-same h refl refl refl refl)
  Calm-primary now jitter id (err e) f w shared h = record {
    answers = h.answers;
    timers = h.timers;
    refreshes = h.refreshes;
    fetches = AllEntries-put IsShared id _ w.fetches h.fetches shared;
  }

  Calm-secondary :
      (now jitter id : ℕ) (outcome : Outcome FxError Rate) (f : Fetch) (w : World C)
      → Calm w
      → Calm (secondary_arrives node now jitter id outcome f w)
  unfolding secondary_arrives
  Calm-secondary now jitter id outcome f w h =
      Calm-settle now jitter id f _ _
        (fetch_from_external_api-IsPlain now now f.from f.to outcome w.failover)
        (Calm-same h refl refl refl refl)

  Calm-fires :
      (now id : ℕ) (t : Timer) (w : World C) → t.kind ≡ refresh → Calm w → Calm (fires now id t w)
  unfolding fires
  Calm-fires now id t w is_refresh h = rw is_refresh (record {
    answers = h.answers;
    timers = AllEntries-delete IsRefresh id w.timers h.timers;
    refreshes = AllEntries-put IsRefresh id _ w.refreshes h.refreshes refl;
    fetches = h.fetches;
  })

  Calm-refresh_ends :
      (now id : ℕ) (answers : ProviderAnswers) (t : Timer) (w : World C)
      → Calm w
      → Calm (refresh_ends node now id answers t w)
  unfolding refresh_ends emit
  Calm-refresh_ends now id answers t w h =
      elim (Outcome-cases (fetch_from_providers now t.from t.to w.rates.has_secondary answers)) [
        | inl (rate, found) ↦
            let k = Calm-store now t.key rate _ (ended h) in
            rw (found, refresh_ends)
              (Calm-schedule now t.key t.from t.to _ (Calm-same k refl refl refl refl))
        | inr (e, failed) ↦ rw (failed, refresh_ends) (ended h)
      ]
    where
      ended : Calm w → Calm (record w { refreshes = delete id w.refreshes })
      ended h = record {
        answers = h.answers;
        timers = h.timers;
        refreshes = AllEntries-delete IsRefresh id w.refreshes h.refreshes;
        fetches = h.fetches;
      }

  Calm-request :
      (upper : String → String) (now id : ℕ) (from to : String) (w : World C)
      → Calm w
      → Calm (get_current_rate node upper now id from to w)
  unfolding get_current_rate served_from_cache
  Calm-request upper now id from to w h =
      elim (Option-cases
        (node.get now (get_cache_key upper (upper from) (upper to)) w.rates.cache)) [
          | inl missing ↦
              rw (missing, get_current_rate)
                (Calm-await id _ _ (Calm-share now _ (upper from) (upper to) w h))
          | inr (cached, found) ↦ rw (found, get_current_rate) (Calm-answer id _ w (λ e. cc) h)
        ]

  Calm-without_timers :
      (keys : List (String × ℕ)) (timers : List (ℕ × Timer))
      → AllEntries IsRefresh timers
      → AllEntries IsRefresh (without_timers keys timers)
  Calm-without_timers [] timers h = h
  Calm-without_timers ((key, id) ∷ keys) timers h =
      Calm-without_timers keys (delete id timers) (AllEntries-delete IsRefresh id timers h)

  Calm-step :
      (upper : String → String) (e : Event) (w : World C) → Calm w → Calm (step node upper e w)
  unfolding step invalidate_pair clear_everything
  Calm-step upper (request now id from to) w h = Calm-request upper now id from to w h
  Calm-step upper (primary now jitter id outcome) w h = elim (Option-cases (get id w.fetches)) [
    | inl gone ↦ rw (gone, step) h
    | inr (f, there) ↦ elim (FetchPhase-cases f.phase) [
      | inl first ↦
          rw (there, step)
            (rw first (
              Calm-primary now jitter id outcome _ w
                (AllEntries-get IsShared id f w.fetches h.fetches there) h))
      | inr second ↦ rw (there, step) (rw second h)
    ]
  ]
  Calm-step upper (secondary now jitter id outcome) w h = elim (Option-cases (get id w.fetches)) [
    | inl gone ↦ rw (gone, step) h
    | inr (f, there) ↦ elim (FetchPhase-cases f.phase) [
      | inl first ↦ rw (there, step) (rw first h)
      | inr second ↦ rw (there, step) (rw second (Calm-secondary now jitter id outcome _ w h))
    ]
  ]
  Calm-step upper (fire now id) w h = elim (Option-cases (get id w.timers)) [
    | inl gone ↦ rw (gone, step) h
    | inr (t, there) ↦ elim (Bool-cases (leb t.due now)) [
      | inl due ↦
          rw (there, step)
            (rw due
              (Calm-fires now id t w (AllEntries-get IsRefresh id t w.timers h.timers there) h))
      | inr early ↦ rw (there, step) (rw early h)
    ]
  ]
  Calm-step upper (refreshed now id answers) w h = elim (Option-cases (get id w.refreshes)) [
    | inl gone ↦ rw (gone, step) h
    | inr (t, there) ↦ rw (there, step) (Calm-refresh_ends now id answers t w h)
  ]
  Calm-step upper (expired key) w h = Calm-clear key w h
  Calm-step upper (invalidate from to) w h = Calm-clear _ _ (Calm-same h refl refl refl refl)
  Calm-step upper clear_all w h = record {
    answers = h.answers;
    timers = Calm-without_timers w.rates.refresh_timers w.timers h.timers;
    refreshes = h.refreshes;
    fetches = h.fetches;
  }

  Calm-run :
      (upper : String → String) (es : List Event) (w : World C)
      → Calm w
      → Calm (run node upper es w)
  unfolding run
  Calm-run upper [] w h = h
  Calm-run upper (e ∷ es) w h = Calm-run upper es _ (Calm-step upper e w h)

  -- Whatever happens after a start, in any order and whatever the providers answer, also that they
  -- refuse for too many requests: no request is answered with a rate marked stale, and no jittered
  -- retry is ever set.
  pub never_stale :
      (upper : String → String) (es : List Event) (rates : FxRateCache C)
      (failover : FailoverFxService)
      → All IsFresh (run node upper es (new_world rates failover)).answers
        × AllEntries IsRefresh (run node upper es (new_world rates failover)).timers
  unfolding new_world
  never_stale upper es rates failover =
      let h =
        Calm-run upper es (new_world rates failover)
          (record { answers = tt; timers = tt; refreshes = tt; fetches = tt }) in
      (h.answers, h.timers)
