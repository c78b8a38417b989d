-- ===== src/Rates/OneFetch.antt =====
-- One fetch at a time for each pair, in backend/src/fx-rate-cache.ts.
use daddy_config.Base.{
  text_equality, number_equality, ℕ, none, some, List, [], ◌∷◌, String, get, delete, Outcome, ok,
  err, ◌≡◌, ◌≢◌, refl, sym, ◌∙◌, ap, arith, All, Option-cases, Bool-cases, inl, inr, ◌⊎◌, leb,
}
use daddy_config.Rates.Failover.{
  Rate, FxError, primary_answered, asking_secondary, FailoverFxService,
}
use daddy_config.Rates.State.{
  FxRateResponse, NodeCache, World, for_requests, for_retry, Fetch, Timer, Purpose, TimerKind,
  refresh, retry, FxRateCache, new_world, FxRateCacheOptions, new_fx_rate_cache,
}
use daddy_config.Rates.Cache.{ProviderAnswers, fetch_from_providers, get_cache_key}
use daddy_config.Rates.Steps.{
  release, emit, store_rate, keep_rate, keep_result, go_on, settle, fires, Event, request, primary,
  secondary, fire, refreshed, expired, invalidate, clear_all, primary_arrives, secondary_arrives,
  refresh_ends, get_current_rate, invalidate_pair, step, run,
}
use daddy_config.Rates.Starting.{Shared-share, Shared-await, Shared-replace, Shared-own}
use daddy_config.Rates.Calm.{FetchPhase-cases, Outcome-cases}
use daddy_config.Rates.Sharing.{
  Awaits, Shared, Aside, Aside-refl, Aside-trans, Shared-Aside, Aside-clear, Aside-schedule,
  Aside-answer, answer_requests-kept,
}
use daddy_config.Rates.Ending.{awaited_rest, Shared-released, Shared-retried}

TimerKind-cases : (k : TimerKind) → (k ≡ refresh) ⊎ (k ≡ retry)
TimerKind-cases refresh = inl refl
TimerKind-cases retry = inr refl

module _ {C : Type 0} (node : NodeCache C) where
  Aside-store :
      (now : ℕ) (key : String) (rate : FxRateResponse) (w : World C)
      → Aside w (store_rate node now key rate w)
  unfolding store_rate
  Aside-store now key rate w = record {
    inflight = refl;
    fetches = refl;
    waiting = refl;
    later = omega arith;
  }

  Aside-emit : (rate : FxRateResponse) (w : World C) → Aside w (emit rate w)
  unfolding emit
  Aside-emit rate w = record {
    inflight = refl;
    fetches = refl;
    waiting = refl;
    later = omega arith;
  }

  pub Aside-keep_result :
      (now : ℕ) (q : Purpose) (f : Fetch) (result : Outcome FxError FxRateResponse) (w : World C)
      → Aside w (keep_result node now q f result w)
  unfolding keep_result keep_rate
  Aside-keep_result now q f (err e) w = Aside-refl w
  Aside-keep_result now for_requests f (ok rate) w =
      Aside-trans
        (Aside-trans (Aside-store now f.key rate w) (Aside-schedule now f.key f.from f.to _))
        (Aside-emit rate _)
  Aside-keep_result now for_retry f (ok rate) w =
      Aside-trans (Aside-store now f.key rate w) (Aside-schedule now f.key f.from f.to _)

  Shared-go_on :
      (now jitter id : ℕ) (q : Purpose) (f : Fetch) (result : Outcome FxError FxRateResponse)
      (w v : World C)
      → Shared w
      → get id w.fetches ≡ some f
      → f.purpose ≡ q
      → Aside (record w { fetches = delete id w.fetches }) v
      → Shared (go_on node now jitter id q f result v)
  unfolding go_on release
  Shared-go_on now jitter id for_retry f result w v h at q a =
      Shared-Aside a (Shared-retried w h id f at q)
  Shared-go_on now jitter id for_requests f result w v h at q a =
      let (i, g, n, k) =
        answer_requests-kept (Awaits (delete id w.fetches)) now jitter id f result v.waiting
          (release f.key v) (rw a.waiting (awaited_rest w h id f at q w.waiting h.awaited)) tt in
      Shared-released w h id f at q _ (i ∙ ap (λ m. delete f.key m) a.inflight) (g ∙ a.fetches)
        (omega (arith, n, a.later)) k

  Shared-settle :
      (now jitter id : ℕ) (f : Fetch) (result : Outcome FxError FxRateResponse) (w : World C)
      → Shared w
      → get id w.fetches ≡ some f
      → Shared (settle node now jitter id f result w)
  unfolding settle
  Shared-settle now jitter id f result w h at =
      Shared-go_on now jitter id f.purpose f result w _ h at refl
        (Aside-keep_result now f.purpose f result _)

  Shared-primary :
      (now jitter id : ℕ) (outcome : Outcome FxError Rate) (f : Fetch) (w : World C)
      → get id w.fetches ≡ some f
      → Shared w
      → Shared (primary_arrives node now jitter id outcome f w)
  unfolding primary_arrives primary_answered
  Shared-primary now jitter id (ok rate) f w at h =
      Shared-settle now jitter id f _ (record w { failover = _ })
        (Shared-Aside
          (record { inflight = refl; fetches = refl; waiting = refl; later = omega arith }) h)
        at
  Shared-primary now jitter id (err e) f w at h =
      Shared-Aside (record { inflight = refl; fetches = refl; waiting = refl; later = omega arith })
        (Shared-replace id f (record f { phase = asking_secondary }) w at refl refl h)

  Shared-secondary :
      (now jitter id : ℕ) (outcome : Outcome FxError Rate) (f : Fetch) (w : World C)
      → get id w.fetches ≡ some f
      → Shared w
      → Shared (secondary_arrives node now jitter id outcome f w)
  unfolding secondary_arrives
  Shared-secondary now jitter id outcome f w at h =
      Shared-settle now jitter id f _ (record w { failover = _ })
        (Shared-Aside
          (record { inflight = refl; fetches = refl; waiting = refl; later = omega arith }) h)
        at

  Shared-fires : (now id : ℕ) (t : Timer) (w : World C) → Shared w → Shared (fires now id t w)
  unfolding fires
  Shared-fires now id t w h = elim (TimerKind-cases t.kind) [
    | inl kind ↦ rw kind (
        Shared-Aside
          (record { inflight = refl; fetches = refl; waiting = refl; later = omega arith }) h)
    | inr kind ↦ rw kind (
        Shared-own now _ _ _ _ (
          Shared-Aside
            (record { inflight = refl; fetches = refl; waiting = refl; later = omega arith }) h))
  ]

  Aside-refresh_ends :
      (now id : ℕ) (answers : ProviderAnswers) (t : Timer) (w : World C)
      → Aside w (refresh_ends node now id answers t w)
  unfolding refresh_ends
  Aside-refresh_ends now id answers t w =
      elim (Outcome-cases (fetch_from_providers now t.from t.to w.rates.has_secondary answers)) [
        | inl (rate, found) ↦
            rw (found, refresh_ends)
              (Aside-trans
                (Aside-trans ended (Aside-trans (Aside-store now t.key rate _) (Aside-emit rate _)))
                (Aside-schedule now t.key t.from t.to _))
        | inr (e, failed) ↦ rw (failed, refresh_ends) ended
      ]
    where
      ended : Aside w (record w { refreshes = delete id w.refreshes })
      ended = record { inflight = refl; fetches = refl; waiting = refl; later = omega arith }

  Shared-request :
      (upper : String → String) (now id : ℕ) (from to : String) (w : World C)
      → Shared w
      → Shared (get_current_rate node upper now id from to w)
  unfolding get_current_rate
  Shared-request upper now id from to w h =
      elim (Option-cases
        (node.get now (get_cache_key upper (upper from) (upper to)) w.rates.cache)) [
          | inl missing ↦
              rw (missing, get_current_rate)
                (Shared-await id _ _ (Shared-share now _ (upper from) (upper to) w h))
          | inr (cached, found) ↦
              rw (found, get_current_rate) (Shared-Aside (Aside-answer id _ w) h)
        ]

  Shared-step :
      (upper : String → String) (e : Event) (w : World C)
      → e ≢ clear_all
      → Shared w
      → Shared (step node upper e w)
  unfolding step invalidate_pair
  Shared-step upper (request now id from to) w n h = Shared-request upper now id from to w h
  Shared-step upper (primary now jitter id outcome) w n h = elim (Option-cases (get id w.fetches)) [
    | inl gone ↦ rw (gone, step) h
    | inr (f, there) ↦ elim (FetchPhase-cases f.phase) [
      | inl first ↦ rw (there, step) (rw first (Shared-primary now jitter id outcome f w there h))
      | inr second ↦ rw (there, step) (rw second h)
    ]
  ]
  Shared-step upper (secondary now jitter id outcome) w n h =
      elim (Option-cases (get id w.fetches)) [
        | inl gone ↦ rw (gone, step) h
        | inr (f, there) ↦ elim (FetchPhase-cases f.phase) [
          | inl first ↦ rw (there, step) (rw first h)
          | inr second ↦
              rw (there, step) (rw second (Shared-secondary now jitter id outcome f w there h))
        ]
      ]
  Shared-step upper (fire now id) w n h = elim (Option-cases (get id w.timers)) [
    | inl gone ↦ rw (gone, step) h
    | inr (t, there) ↦ elim (Bool-cases (leb t.due now)) [
      | inl due ↦ rw (there, step) (rw due (Shared-fires now id t w h))
      | inr early ↦ rw (there, step) (rw early h)
    ]
  ]
  Shared-step upper (refreshed now id answers) w n h = elim (Option-cases (get id w.refreshes)) [
    | inl gone ↦ rw (gone, step) h
    | inr (t, there) ↦ rw (there, step) (Shared-Aside (Aside-refresh_ends now id answers t w) h)
  ]
  Shared-step upper (expired key) w n h = Shared-Aside (Aside-clear key w) h
  Shared-step upper (invalidate from to) w n h = Shared-Aside (Aside-clear _ _) (
      Shared-Aside (record { inflight = refl; fetches = refl; waiting = refl; later = omega arith })
        h)
  Shared-step upper clear_all w n h = absurd (n refl)

  Shared-run :
      (upper : String → String) (es : List Event) (w : World C)
      → All (λ e. e ≢ clear_all) es
      → Shared w
      → Shared (run node upper es w)
  unfolding run
  Shared-run upper [] w n h = h
  Shared-run upper (e ∷ es) w (n, ns) h = Shared-run upper es _ ns (Shared-step upper e w n h)

  Shared-new :
      (rates : FxRateCache C) (failover : FailoverFxService)
      → rates.inflight ≡ []
      → Shared (new_world rates failover)
  unfolding new_world get
  Shared-new rates failover none_yet = record {
    running =
        λ key id at. let never : none ≡ some id = rw (none_yet, get) at at in absurd (cc never);
    tracked = λ id f at. absurd (cc at);
    numbered = λ id f at. absurd (cc at);
    awaited = tt;
  }

  same_fetch :
      (w : World C) (i j : ℕ) (f g : Fetch)
      → Shared w
      → get i w.fetches ≡ some f
      → get j w.fetches ≡ some g
      → f.purpose ≡ for_requests
      → g.purpose ≡ for_requests
      → f.key ≡ g.key
      → i ≡ j
  same_fetch w i j f g h at_i at_j shared_f shared_g same =
      let both : some i ≡ some j =
        sym (h.tracked i f at_i shared_f)
        ∙ ap (λ k. get k w.rates.inflight) same
        ∙ h.tracked j g at_j shared_g in
      cc both

  -- As long as nothing is cleared, and in whatever order requests, answers and timers come: a pair
  -- has at most one fetch that runs for requests, and every request that waits awaits a running
  -- fetch of its own pair.
  pub one_fetch :
      (upper : String → String) (es : List Event) (cache : C) (options : FxRateCacheOptions)
      (failover : FailoverFxService)
      → All (λ e. e ≢ clear_all) es
      → (let w = run node upper es (new_world (new_fx_rate_cache cache options) failover) in
          ((i j : ℕ) (f g : Fetch)
            → get i w.fetches ≡ some f
            → get j w.fetches ≡ some g
            → f.purpose ≡ for_requests
            → g.purpose ≡ for_requests
            → f.key ≡ g.key
            → i ≡ j)
          × All (Awaits w.fetches) w.waiting)
  unfolding new_fx_rate_cache
  one_fetch upper es cache options failover n =
      let h =
        Shared-run upper es _ n (Shared-new (new_fx_rate_cache cache options) failover refl) in
      (λ i j f g. same_fetch _ i j f g h, h.awaited)
