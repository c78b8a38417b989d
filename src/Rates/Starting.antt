-- ===== src/Rates/Starting.antt =====
-- Fetches that start or go on to the other provider, in backend/src/fx-rate-cache.ts.
use mathlib.Core.Path.{subst, subst₂}
use daddy_config.Base.{
  text_equality, number_equality, ℕ, ◌+◌, ◌<◌, false, none, some, List, [], ◌∷◌, String, get, put,
  delete, ◌≡◌, ◌≢◌, refl, sym, ◌∙◌, ap, arith, All, All-append, Option-cases, inl, inr, ◌==◌,
  put-here, put-there, put-found, put-or, delete-there, eqb_iff,
}
use daddy_config.Rates.State.{World, for_requests, for_retry, Fetch, Waiter}
use daddy_config.Rates.Cache.{start_fetch}
use daddy_config.Rates.Steps.{share_fetch, await_fetch}
use daddy_config.Rates.Sharing.{Runs, Awaits, Shared}

apart_of : (n id : ℕ) → id < n → (n == id) ≡ false
apart_of n id h = ground (arith, eqb_iff n id)

Runs-put :
    (n : ℕ) (g : Fetch) (fetches : List (ℕ × Fetch)) (key : String) (id : ℕ)
    → (n == id) ≡ false
    → Runs fetches key id
    → Runs (put n g fetches) key id
Runs-put n g fetches key id apart (f, at, q, k) = (f, put-there n id g fetches apart ∙ at, q, k)

pub Runs-delete :
    (n : ℕ) (fetches : List (ℕ × Fetch)) (key : String) (id : ℕ)
    → (n == id) ≡ false
    → Runs fetches key id
    → Runs (delete n fetches) key id
Runs-delete n fetches key id apart (f, at, q, k) = (f, delete-there n id fetches apart ∙ at, q, k)

Runs-below :
    {C : Type 0} {w : World C} (key : String) (id : ℕ)
    → Shared w
    → Runs w.fetches key id
    → (w.next == id) ≡ false
Runs-below {C} {w} key id h (f, at, q, k) = apart_of w.next id (h.numbered id f at)

pub retry_only : for_retry ≢ for_requests
retry_only e = cc

pub All-each :
    {P Q : Waiter → Type 0} → ((x : Waiter) → P x → Q x) → (xs : List Waiter) → All P xs → All Q xs
All-each each [] h = tt
All-each each (x ∷ xs) (p, h) = (each x p, All-each each xs h)

All-Awaits-put :
    {C : Type 0} (w : World C) (g : Fetch) (xs : List Waiter)
    → Shared w
    → All (Awaits w.fetches) xs
    → All (Awaits (put w.next g w.fetches)) xs
All-Awaits-put w g [] h k = tt
All-Awaits-put w g (x ∷ xs) h (p, k) = (
  Runs-put w.next g w.fetches x.key x.fetch (Runs-below x.key x.fetch h p) p,
  All-Awaits-put w g xs h k,
)

module _ {C : Type 0} where
  module _ (g : Fetch) (w : World C) (h : Shared w) (shared : g.purpose ≡ for_requests)
      (alone : get g.key w.rates.inflight ≡ none) where
    running_new :
        (key : String) (id : ℕ)
        → get key (put g.key w.next w.rates.inflight) ≡ some id
        → Runs (put w.next g w.fetches) key id
    running_new key id at = elim (put-found g.key key w.next id w.rates.inflight at) [
      | inl (same, new) ↦ (
        g,
        subst (λ i. get i (put w.next g w.fetches) ≡ some g) new (put-here w.next g w.fetches),
        shared,
        same,
      )
      | inr (other, old) ↦
          let r = h.running key id old in
          Runs-put w.next g w.fetches key id (Runs-below key id h r) r
    ]

    tracked_new :
        (id : ℕ) (f : Fetch)
        → get id (put w.next g w.fetches) ≡ some f
        → f.purpose ≡ for_requests
        → get f.key (put g.key w.next w.rates.inflight) ≡ some id
    tracked_new id f at q = elim (put-found w.next id g f w.fetches at) [
      | inl (same, new) ↦
          subst₂ (λ i (f : Fetch). get f.key (put g.key w.next w.rates.inflight) ≡ some i) same new
            (put-here g.key w.next w.rates.inflight)
      | inr (other, old) ↦ elim (put-or g.key f.key w.next w.rates.inflight) [
        | inl same ↦
            let gone : none ≡ some id =
              sym alone ∙ ap (λ k. get k w.rates.inflight) same ∙ h.tracked id f old q in
            absurd (cc gone)
        | inr apart ↦ apart ∙ h.tracked id f old q
      ]
    ]

    numbered_new : (id : ℕ) (f : Fetch) → get id (put w.next g w.fetches) ≡ some f → id < w.next + 1
    numbered_new id f at = elim (put-found w.next id g f w.fetches at) [
      | inl (same, new) ↦ omega (arith, same)
      | inr (other, old) ↦ omega (arith, h.numbered id f old)
    ]

  pub Shared-share :
      (now : ℕ) (key from to : String) (w : World C)
      → Shared w
      → Shared (share_fetch now key from to w)
  unfolding share_fetch start_fetch
  Shared-share now key from to w h = elim (Option-cases (get key w.rates.inflight)) [
    | inr (id, there) ↦ rw (there, share_fetch) h
    | inl alone ↦
        rw (alone, share_fetch)
          (record {
            running = running_new _ w h refl alone;
            tracked = tracked_new _ w h refl alone;
            numbered = numbered_new _ w h refl alone;
            awaited = All-Awaits-put w _ w.waiting h h.awaited;
          })
  ]

  pub Shared-await :
      (id : ℕ) (key : String) (w : World C) → Shared w → Shared (await_fetch id key w)
  unfolding await_fetch
  Shared-await id key w h = elim (Option-cases (get key w.rates.inflight)) [
    | inl no_fetch ↦ rw (no_fetch, await_fetch) h
    | inr (fetch, there) ↦
        rw (there, await_fetch)
          (record {
            running = h.running;
            tracked = h.tracked;
            numbered = h.numbered;
            awaited =
                All-append (Awaits w.fetches) w.waiting _ h.awaited (h.running key fetch there, tt);
          })
  ]

  -- A fetch that keeps its pair and its purpose.
  pub Shared-replace :
      (id : ℕ) (f g : Fetch) (w : World C)
      → get id w.fetches ≡ some f
      → g.key ≡ f.key
      → g.purpose ≡ f.purpose
      → Shared w
      → Shared (record w { fetches = put id g w.fetches })
  Shared-replace id f g w at same_key same_purpose h = record {
    running = λ k i there. Runs-replace k i (h.running k i there);
    tracked = tracked;
    numbered = numbered;
    awaited = All-each (λ x r. Runs-replace x.key x.fetch r) w.waiting h.awaited;
  }
    where
      Runs-replace : (k : String) (i : ℕ) → Runs w.fetches k i → Runs (put id g w.fetches) k i
      Runs-replace k i (f', at', q, e) = elim (put-or id i g w.fetches) [
        | inr apart ↦ (f', apart ∙ at', q, e)
        | inl same ↦
            let both : some f ≡ some f' = sym at ∙ ap (λ j. get j w.fetches) same ∙ at' in
            let f≡f' : f ≡ f' = cc both in
            (
              g,
              subst (λ j. get j (put id g w.fetches) ≡ some g) same (put-here id g w.fetches),
              same_purpose ∙ ap (λ (x : Fetch). x.purpose) f≡f' ∙ q,
              same_key ∙ ap (λ (x : Fetch). x.key) f≡f' ∙ e,
            )
      ]

      tracked :
          (i : ℕ) (f' : Fetch)
          → get i (put id g w.fetches) ≡ some f'
          → f'.purpose ≡ for_requests
          → get f'.key w.rates.inflight ≡ some i
      tracked i f' there q = elim (put-found id i g f' w.fetches there) [
        | inr (apart, old) ↦ h.tracked i f' old q
        | inl (same, new) ↦
            let q' : f.purpose ≡ for_requests =
              sym same_purpose ∙ ap (λ (x : Fetch). x.purpose) new ∙ q in
            ap (λ k. get k w.rates.inflight) (sym (ap (λ (x : Fetch). x.key) new) ∙ same_key)
            ∙ h.tracked id f at q'
            ∙ ap (λ j. some j) same
      ]

      numbered : (i : ℕ) (f' : Fetch) → get i (put id g w.fetches) ≡ some f' → i < w.next
      numbered i f' there = elim (put-found id i g f' w.fetches there) [
        | inr (apart, old) ↦ h.numbered i f' old
        | inl (same, new) ↦ omega (arith, same, h.numbered id f at)
      ]

  -- A retry awaits its fetch itself.
  pub Shared-own :
      (now : ℕ) (key from to : String) (w : World C)
      → Shared w
      → Shared (start_fetch now for_retry key from to w)
  unfolding start_fetch
  Shared-own now key from to w h = record {
    running = λ k i there.
        let r = h.running k i there in Runs-put w.next _ w.fetches k i (Runs-below k i h r) r;
    tracked = λ i f there q. elim (put-found w.next i _ f w.fetches there) [
      | inr (apart, old) ↦ h.tracked i f old q
      | inl (same, new) ↦ absurd (retry_only (ap (λ (x : Fetch). x.purpose) new ∙ q))
    ];
    numbered = λ i f there. elim (put-found w.next i _ f w.fetches there) [
      | inr (apart, old) ↦ omega (arith, h.numbered i f old)
      | inl (same, new) ↦ omega (arith, same)
    ];
    awaited = All-Awaits-put w _ w.waiting h h.awaited;
  }
