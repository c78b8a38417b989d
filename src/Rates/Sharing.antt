-- ===== src/Rates/Sharing.antt =====
-- How the requests of backend/src/fx-rate-cache.ts share the fetches.
use daddy_config.Base.{
  text_equality, number_equality, ℕ, ◌-◌, ◌*◌, ◌≤◌, ◌<◌, some, List, [], ◌∷◌, String, get, has,
  Outcome, ok, err, ◌≡◌, ◌≢◌, refl, ◌∙◌, arith, All, All-append, Option-cases, Bool-cases, inl, inr,
  ◌==◌, ltb, eqb_iff,
}
use daddy_config.Rates.Failover.{FxError}
use daddy_config.Rates.State.{FxRateResponse, World, for_requests, Fetch, Waiter, Timer}
use daddy_config.Rates.Cache.{
  clear_refresh_timer, schedule_background_refresh, schedule_jittered_retry, answer, set_timer,
}
use daddy_config.Rates.Steps.{is_rate_limit, answer_request, answer_requests}

-- A fetch that runs for requests of the pair.
abbrev pub Runs : List (ℕ × Fetch) → String → ℕ → Type 0
Runs fetches key id =
    (f : Fetch) × (get id fetches ≡ some f) × (f.purpose ≡ for_requests) × (f.key ≡ key)

abbrev pub Awaits : List (ℕ × Fetch) → Waiter → Type 0
Awaits fetches x = Runs fetches x.key x.fetch

module _ {C : Type 0} where
  -- The map of shared fetches and the running fetches agree, and a request awaits a running one.
  pub record Shared (w : World C) : Type 0 where
    pub running :
        (key : String) (id : ℕ) → get key w.rates.inflight ≡ some id → Runs w.fetches key id
    pub tracked :
        (id : ℕ) (f : Fetch)
        → get id w.fetches ≡ some f
        → f.purpose ≡ for_requests
        → get f.key w.rates.inflight ≡ some id
    pub numbered : (id : ℕ) (f : Fetch) → get id w.fetches ≡ some f → id < w.next
    pub awaited : All (Awaits w.fetches) w.waiting

  -- A step that leaves the fetches and the requests alone.
  pub record Aside (w v : World C) : Type 0 where
    pub inflight : v.rates.inflight ≡ w.rates.inflight
    pub fetches : v.fetches ≡ w.fetches
    pub waiting : v.waiting ≡ w.waiting
    pub later : w.next ≤ v.next

  pub Aside-refl : (w : World C) → Aside w w
  Aside-refl w = record { inflight = refl; fetches = refl; waiting = refl; later = omega arith }

  pub Aside-trans : {u v w : World C} → Aside u v → Aside v w → Aside u w
  Aside-trans p q = record {
    inflight = q.inflight ∙ p.inflight;
    fetches = q.fetches ∙ p.fetches;
    waiting = q.waiting ∙ p.waiting;
    later = omega (arith, p.later, q.later);
  }

  pub Shared-Aside : {w v : World C} → Aside w v → Shared w → Shared v
  Shared-Aside {w} {v} p h = record {
    running = rw (p.inflight, p.fetches) h.running;
    tracked = rw (p.inflight, p.fetches) h.tracked;
    numbered = λ id f at.
        let at' : get id w.fetches ≡ some f = rw p.fetches at at in
        omega (arith, h.numbered id f at', p.later);
    awaited = rw (p.fetches, p.waiting) h.awaited;
  }

  pub Aside-clear : (key : String) (w : World C) → Aside w (clear_refresh_timer key w)
  unfolding clear_refresh_timer
  Aside-clear key w = elim (Option-cases (get key w.rates.refresh_timers)) [
    | inl none_there ↦ rw (none_there, clear_refresh_timer) (Aside-refl w)
    | inr (timer, there) ↦
        rw (there, clear_refresh_timer)
          (record { inflight = refl; fetches = refl; waiting = refl; later = omega arith })
  ]

  Aside-set_timer : (t : Timer) (w : World C) → Aside w (set_timer t w)
  unfolding set_timer
  Aside-set_timer t w = record {
    inflight = refl;
    fetches = refl;
    waiting = refl;
    later = omega arith;
  }

  pub Aside-schedule :
      (now : ℕ) (key from to : String) (w : World C)
      → Aside w (schedule_background_refresh now key from to w)
  unfolding schedule_background_refresh
  Aside-schedule now key from to w =
      elim (Bool-cases
        (ltb 0 ((w.rates.ttl_seconds - w.rates.refresh_before_expiry_seconds) * 1000))) [
          | inl ahead ↦
              rw (ahead, schedule_background_refresh)
                (Aside-trans (Aside-clear key w) (Aside-set_timer _ _))
          | inr never ↦ rw (never, schedule_background_refresh) (Aside-clear key w)
        ]

  Aside-retry :
      (now jitter : ℕ) (key from to : String) (w : World C)
      → Aside w (schedule_jittered_retry now jitter key from to w)
  unfolding schedule_jittered_retry
  Aside-retry now jitter key from to w = elim (Bool-cases (has key w.rates.refresh_timers)) [
    | inl there ↦ rw (there, schedule_jittered_retry) (Aside-refl w)
    | inr free ↦ rw (free, schedule_jittered_retry) (Aside-set_timer _ w)
  ]

  pub Aside-answer :
      (id : ℕ) (result : Outcome FxError FxRateResponse) (w : World C)
      → Aside w (answer id result w)
  unfolding answer
  Aside-answer id result w = record {
    inflight = refl;
    fetches = refl;
    waiting = refl;
    later = omega arith;
  }

  Aside-answer_request :
      (now jitter id : ℕ) (f : Fetch) (result : Outcome FxError FxRateResponse) (w : World C)
      → Aside w (answer_request now jitter f result id w)
  unfolding answer_request
  Aside-answer_request now jitter id f (ok rate) w = Aside-answer id _ w
  Aside-answer_request now jitter id f (err e) w = elim (Bool-cases (is_rate_limit e)) [
    | inr other ↦ rw (other, answer_request) (Aside-answer id (err e) w)
    | inl limit ↦ elim (Option-cases (get f.key w.rates.stale_cache)) [
      | inl unknown ↦ rw (limit, answer_request) (rw unknown (Aside-answer id (err e) w))
      | inr (known, there) ↦
          rw (limit, answer_request)
            (rw there
              (Aside-trans (Aside-retry now jitter f.key f.from f.to w) (Aside-answer id _ _)))
    ]
  ]

  -- The requests that await another fetch, or none of those given, wait on.
  pub answer_requests-kept :
      (P : Waiter → Type 0) (now jitter id : ℕ) (f : Fetch)
      (result : Outcome FxError FxRateResponse) (xs : List Waiter) (w : World C)
      → All (λ x. x.fetch ≢ id → P x) xs
      → All P w.waiting
      → (let v = answer_requests now jitter id f result xs w in
          (v.rates.inflight ≡ w.rates.inflight)
          × (v.fetches ≡ w.fetches)
          × (w.next ≤ v.next)
          × All P v.waiting)
  unfolding answer_requests
  answer_requests-kept P now jitter id f result [] w h k = (refl, refl, omega arith, k)
  answer_requests-kept P now jitter id f result (x ∷ xs) w (p, h) k =
      elim (Bool-cases (x.fetch == id)) [
        | inl same ↦
            let a = Aside-answer_request now jitter x.request f result w in
            let (i, g, n, q) =
              answer_requests-kept P now jitter id f result xs _ h (rw a.waiting k) in
            rw (same, answer_requests) (i ∙ a.inflight, g ∙ a.fetches, omega (arith, n, a.later), q)
        | inr other ↦
            let apart : x.fetch ≢ id = ground (arith, eqb_iff x.fetch id) in
            let (i, g, n, q) =
              answer_requests-kept P now jitter id f result xs _ h
                (All-append P w.waiting (x ∷ []) k (p apart, tt)) in
            rw (other, answer_requests) (i, g, n, q)
      ]
