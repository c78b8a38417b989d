-- ===== src/Rates/Calm.antt =====
-- The worlds of backend/src/fx-rate-cache.ts in which nothing is stale.
use daddy_config.Base.{
  text_equality, number_equality, ℕ, Bool, true, false, some, List, [], ◌∷◌, String, get, has,
  Outcome, ok, err, ◌≡◌, ◌≢◌, refl, All, AllEntries, AllEntries-put, AllEntries-delete,
  Option-cases, Bool-cases, inl, inr, ◌==◌, if◌then◌else◌, ltb, ◌-◌, ◌*◌, ◌⊎◌,
}
use daddy_config.Rates.Failover.{FxError, asking_primary, asking_secondary, FetchPhase}
use daddy_config.Rates.State.{FxRateResponse, World, for_requests, Fetch, Waiter, refresh, Timer}
use daddy_config.Rates.Cache.{
  clear_refresh_timer, schedule_background_refresh, start_fetch, answer, set_timer,
}
use daddy_config.Rates.Steps.{
  is_rate_limit, share_fetch, await_fetch, answer_request, answer_requests,
}

-- An answer that is not a stale rate.
abbrev pub IsFresh : ℕ × Outcome FxError FxRateResponse → Type 0
IsFresh (id, ok rate) = rate.stale ≢ some true
IsFresh (id, err e) = Unit

abbrev pub IsRefresh : ℕ → Timer → Type 0
IsRefresh id t = t.kind ≡ refresh

abbrev pub IsShared : ℕ → Fetch → Type 0
IsShared id f = f.purpose ≡ for_requests

-- What a fetch may end with: a rate that is not marked stale, or an error that is no rate limit.
abbrev pub IsPlain : Outcome FxError FxRateResponse → Type 0
IsPlain (ok rate) = rate.stale ≢ some true
IsPlain (err e) = is_rate_limit e ≡ false

pub FetchPhase-cases : (p : FetchPhase) → (p ≡ asking_primary) ⊎ (p ≡ asking_secondary)
FetchPhase-cases asking_primary = inl refl
FetchPhase-cases asking_secondary = inr refl

pub Outcome-cases :
    (result : Outcome FxError FxRateResponse)
    → ((rate : FxRateResponse) × (result ≡ ok rate)) ⊎ ((e : FxError) × (result ≡ err e))
Outcome-cases (ok rate) = inl (rate, refl)
Outcome-cases (err e) = inr (e, refl)

module _ {C : Type 0} where
  -- No answer is stale, and no retry is due or under way.
  pub record Calm (w : World C) : Type 0 where
    pub answers : All IsFresh w.answers
    pub timers : AllEntries IsRefresh w.timers
    pub refreshes : AllEntries IsRefresh w.refreshes
    pub fetches : AllEntries IsShared w.fetches

  pub Calm-same :
      {w v : World C}
      → Calm w
      → v.answers ≡ w.answers
      → v.timers ≡ w.timers
      → v.refreshes ≡ w.refreshes
      → v.fetches ≡ w.fetches
      → Calm v
  Calm-same h a t r f = record {
    answers = rw a h.answers;
    timers = rw t h.timers;
    refreshes = rw r h.refreshes;
    fetches = rw f h.fetches;
  }

  pub Calm-clear : (key : String) (w : World C) → Calm w → Calm (clear_refresh_timer key w)
  unfolding clear_refresh_timer
  Calm-clear key w h = elim (Option-cases (get key w.rates.refresh_timers)) [
    | inl none_there ↦ rw (none_there, clear_refresh_timer) h
    | inr (timer, there) ↦
        rw (there, clear_refresh_timer)
          (record {
            answers = h.answers;
            timers = AllEntries-delete IsRefresh timer w.timers h.timers;
            refreshes = h.refreshes;
            fetches = h.fetches;
          })
  ]

  pub Calm-if : (b : Bool) (v w : World C) → Calm v → Calm w → Calm (if b then v else w)
  Calm-if true v w h k = h
  Calm-if false v w h k = k

  pub Calm-set_timer : (t : Timer) (w : World C) → t.kind ≡ refresh → Calm w → Calm (set_timer t w)
  unfolding set_timer
  Calm-set_timer t w p h = record {
    answers = h.answers;
    timers = AllEntries-put IsRefresh w.next t w.timers h.timers p;
    refreshes = h.refreshes;
    fetches = h.fetches;
  }

  pub Calm-schedule :
      (now : ℕ) (key from to : String) (w : World C)
      → Calm w
      → Calm (schedule_background_refresh now key from to w)
  unfolding schedule_background_refresh
  Calm-schedule now key from to w h =
      let k : Calm (clear_refresh_timer key w) = Calm-clear key w h in
      elim (Bool-cases
        (ltb 0 ((w.rates.ttl_seconds - w.rates.refresh_before_expiry_seconds) * 1000))) [
          | inl ahead ↦ rw (ahead, schedule_background_refresh) (Calm-set_timer _ _ refl k)
          | inr never ↦ rw (never, schedule_background_refresh) k
        ]

  pub Calm-answer :
      (id : ℕ) (result : Outcome FxError FxRateResponse) (w : World C)
      → IsFresh (id, result)
      → Calm w
      → Calm (answer id result w)
  unfolding answer
  Calm-answer id result w p h = record {
    answers = (p, h.answers);
    timers = h.timers;
    refreshes = h.refreshes;
    fetches = h.fetches;
  }

  pub Calm-answer_request :
      (now jitter id : ℕ) (f : Fetch) (result : Outcome FxError FxRateResponse) (w : World C)
      → IsPlain result
      → Calm w
      → Calm (answer_request now jitter f result id w)
  unfolding answer_request
  Calm-answer_request now jitter id f (ok rate) w p h = Calm-answer id _ w p h
  Calm-answer_request now jitter id f (err e) w p h = rw p (Calm-answer id (err e) w tt h)

  pub Calm-answer_requests :
      (now jitter id : ℕ) (f : Fetch) (result : Outcome FxError FxRateResponse) (xs : List Waiter)
      (w : World C)
      → IsPlain result
      → Calm w
      → Calm (answer_requests now jitter id f result xs w)
  unfolding answer_requests
  Calm-answer_requests now jitter id f result [] w p h = h
  Calm-answer_requests now jitter id f result (x ∷ xs) w p h =
      Calm-answer_requests now jitter id f result xs _ p (
        Calm-if (x.fetch == id) _ _ (Calm-answer_request now jitter x.request f result w p h)
          (Calm-same h refl refl refl refl))

  pub Calm-await : (id : ℕ) (key : String) (w : World C) → Calm w → Calm (await_fetch id key w)
  unfolding await_fetch
  Calm-await id key w h = elim (Option-cases (get key w.rates.inflight)) [
    | inl no_fetch ↦ rw (no_fetch, await_fetch) h
    | inr (fetch, there) ↦ rw (there, await_fetch) (Calm-same h refl refl refl refl)
  ]

  pub Calm-start :
      (now : ℕ) (key from to : String) (w : World C)
      → Calm w
      → Calm (start_fetch now for_requests key from to w)
  unfolding start_fetch
  Calm-start now key from to w h = record {
    answers = h.answers;
    timers = h.timers;
    refreshes = h.refreshes;
    fetches = AllEntries-put IsShared w.next _ w.fetches h.fetches refl;
  }

  pub Calm-share :
      (now : ℕ) (key from to : String) (w : World C) → Calm w → Calm (share_fetch now key from to w)
  unfolding share_fetch
  Calm-share now key from to w h = elim (Bool-cases (has key w.rates.inflight)) [
    | inl there ↦ rw (there, share_fetch) h
    | inr alone ↦
        let k : Calm (start_fetch now for_requests key from to w) =
          Calm-start now key from to w h in
        rw (alone, share_fetch) (Calm-same k refl refl refl refl)
  ]
