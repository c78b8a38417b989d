-- ===== src/Rates/Remembered.antt =====
-- What the requests of backend/src/fx-rate-cache.ts are told when both providers fail.
use daddy_config.Base.{
  text_equality, number_equality, ℕ, true, false, none, some, List, [], ◌∷◌, String, get, delete,
  Outcome, ok, err, ◌≡◌, refl, ap, ◌∙◌, Bool-cases, inl, inr, ◌⊎◌, ◌==◌, eqb_iff,
}
use daddy_config.Rates.Failover.{
  FxError, asking_secondary, secondary_answered, stale_key, KnownRate,
}
use daddy_config.Rates.State.{
  FxRateResponse, NodeCache, World, Purpose, for_requests, for_retry, Fetch, Waiter,
}
use daddy_config.Rates.Cache.{answer, fetch_from_external_api}
use daddy_config.Rates.Steps.{
  answer_request, answer_requests, release, go_on, settle, secondary_arrives, step, secondary,
}
use daddy_config.Rates.OneFetch.{Aside-keep_result}

-- A member of a list.
abbrev pub Among : {A : Type 0} → A → List A → Type 0
Among a [] = ⊥
Among a (x ∷ xs) = (x ≡ a) ⊎ Among a xs

module _ {C : Type 0} (now jitter id : ℕ) (f : Fetch) (rate : FxRateResponse) where
  answers_kept :
      (a : ℕ × Outcome FxError FxRateResponse) (xs : List Waiter) (w : World C)
      → Among a w.answers
      → Among a (answer_requests now jitter id f (ok rate) xs w).answers
  unfolding answer_requests answer_request answer
  answers_kept a [] w there = there
  answers_kept a (x ∷ xs) w there = elim (Bool-cases (x.fetch == id)) [
    | inl same ↦ rw (same, answer_requests) (answers_kept a xs _ (inr there))
    | inr other ↦ rw (other, answer_requests) (answers_kept a xs _ there)
  ]

  told :
      (x : Waiter) (xs : List Waiter) (w : World C)
      → x.fetch ≡ id
      → Among x xs
      → Among
          (x.request, ok (record rate { cached = false }))
          (answer_requests now jitter id f (ok rate) xs w).answers
  unfolding answer_requests answer_request answer
  told x [] w at there = absurd there
  told x (y ∷ ys) w at (inl first) =
      let same : (y.fetch == id) ≡ true =
        (eqb_iff y.fetch id).1 (ap (λ (z : Waiter). z.fetch) first ∙ at) in
      rw (same, answer_requests)
        (answers_kept _ ys _
          (inl (ap (λ (z : Waiter). (z.request, ok (record rate { cached = false }))) first)))
  told x (y ∷ ys) w at (inr later) = told x ys _ at later

-- The remembered rate as it is handed on.
abbrev pub handed_on : ℕ → Fetch → KnownRate → FxRateResponse
handed_on now f known = record {
  from = f.from;
  to = f.to;
  rate = known.rate;
  timestamp = now;
  provider = "FailoverFxService";
  cached = false;
  stale = none;
  stale_age_seconds = none;
  fx_rate_source = none;
  staleness_seconds = none;
}

module _ {C : Type 0} (node : NodeCache C) (now jitter id : ℕ) (e : FxError) (f : Fetch)
    (known : KnownRate) (x : Waiter) (w : World C) where
  go_on-told :
      (q : Purpose) (rate : FxRateResponse) (v : World C)
      → q ≡ for_requests
      → Among x v.waiting
      → x.fetch ≡ id
      → Among
          (x.request, ok (record rate { cached = false }))
          (go_on node now jitter id q f (ok rate) v).answers
  unfolding go_on
  go_on-told for_requests rate v q there at =
      told now jitter id f rate x v.waiting (release f.key v) at there
  go_on-told for_retry rate v q there at = absurd (cc q)

  answered_from_memory :
      get (stale_key f.from f.to) w.failover.stale_cache ≡ some known
      → secondary_answered now f.from f.to (err e) w.failover ≡ (ok known.rate, w.failover)
  unfolding secondary_answered
  answered_from_memory remembered = rw (remembered, secondary_answered) refl

  secondary-told :
      f.purpose ≡ for_requests
      → get (stale_key f.from f.to) w.failover.stale_cache ≡ some known
      → Among x w.waiting
      → x.fetch ≡ id
      → Among
          (x.request, ok (handed_on now f known))
          (secondary_arrives node now jitter id (err e) f w).answers
  unfolding secondary_arrives fetch_from_external_api settle
  secondary-told shared remembered there waits =
      let kept =
        Aside-keep_result node now f.purpose f (ok (handed_on now f known))
          (record w { fetches = delete id w.fetches }) in
      rw (answered_from_memory remembered, secondary_arrives)
        (go_on-told f.purpose (handed_on now f known) _ shared (rw kept.waiting there) waits)

  -- When both providers have failed, with whatever errors, and the pair's rate is remembered from an
  -- earlier answer, then every request that awaits this fetch is answered with that rate, dated now
  -- and without a mark that it is stale.
  pub remembered_unmarked :
      (upper : String → String)
      → get id w.fetches ≡ some f
      → f.purpose ≡ for_requests
      → f.phase ≡ asking_secondary
      → get (stale_key f.from f.to) w.failover.stale_cache ≡ some known
      → Among x w.waiting
      → x.fetch ≡ id
      → Among
          (x.request, ok (handed_on now f known))
          (step node upper (secondary now jitter id (err e)) w).answers
  unfolding step
  remembered_unmarked upper at shared phase remembered there waits =
      rw (at, step) (rw phase (secondary-told shared remembered there waits))
