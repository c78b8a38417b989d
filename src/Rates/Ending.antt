-- ===== src/Rates/Ending.antt =====
-- A fetch of backend/src/fx-rate-cache.ts that ends.
use mathlib.Core.Path.{subst}
use text.Mathlib.TextEquality.{eq_iff}
use daddy_config.Base.{
  text_equality, number_equality, ℕ, ◌≤◌, true, false, some, List, String, get, delete, ◌≡◌, ◌≢◌,
  sym, ◌∙◌, ap, arith, All, Bool-cases, inl, inr, ◌==◌, delete-there, delete-found, eqb_iff,
}
use daddy_config.Rates.State.{World, for_requests, for_retry, Fetch, Waiter}
use daddy_config.Rates.Starting.{Runs-delete, retry_only, All-each}
use daddy_config.Rates.Sharing.{Runs, Awaits, Shared}

module _ {C : Type 0} (w : World C) (h : Shared w) (id : ℕ) where
  pub Runs-left :
      (key : String) (i : ℕ)
      → ¬ (Runs w.fetches key id)
      → Runs w.fetches key i
      → Runs (delete id w.fetches) key i
  Runs-left key i never r = elim (Bool-cases (id == i)) [
    | inl same ↦ absurd (never (subst (Runs w.fetches key) (sym ((eqb_iff id i).0 same)) r))
    | inr apart ↦ Runs-delete id w.fetches key i apart r
  ]

  module _ (f : Fetch) (at : get id w.fetches ≡ some f) where
    pub is_f : {g : Fetch} → get id w.fetches ≡ some g → f ≡ g
    is_f {g} there = let both : some f ≡ some g = sym at ∙ there in cc both

    module _ (shared : f.purpose ≡ for_requests) where
      pub running_rest :
          (key : String) (i : ℕ)
          → get key (delete f.key w.rates.inflight) ≡ some i
          → Runs (delete id w.fetches) key i
      running_rest key i there =
          let (apart, old) = delete-found f.key key i w.rates.inflight there in
          Runs-left key i
            (λ (g, at', q, e).
              let same : f.key ≡ key = ap (λ (x : Fetch). x.key) (is_f at') ∙ e in
              let clash : true ≡ false = sym ((eq_iff f.key key).1 same) ∙ apart in cc clash)
            (h.running key i old)

      pub tracked_rest :
          (i : ℕ) (g : Fetch)
          → get i (delete id w.fetches) ≡ some g
          → g.purpose ≡ for_requests
          → get g.key (delete f.key w.rates.inflight) ≡ some i
      tracked_rest i g there q =
          let (apart, old) = delete-found id i g w.fetches there in
          elim (Bool-cases (f.key == g.key)) [
            | inr other ↦ delete-there f.key g.key w.rates.inflight other ∙ h.tracked i g old q
            | inl same ↦
                let both : some id ≡ some i =
                  sym (h.tracked id f at shared)
                  ∙ ap (λ k. get k w.rates.inflight) ((eq_iff f.key g.key).0 same)
                  ∙ h.tracked i g old q in
                let clash : true ≡ false = sym ((eqb_iff id i).1 (cc both)) ∙ apart in
                absurd (cc clash)
          ]

      pub awaited_rest :
          (xs : List Waiter)
          → All (Awaits w.fetches) xs
          → All (λ x. x.fetch ≢ id → Awaits (delete id w.fetches) x) xs
      awaited_rest xs all =
          All-each
            (λ x r other. elim (Bool-cases (id == x.fetch)) [
              | inl same ↦ absurd (other (sym ((eqb_iff id x.fetch).0 same)))
              | inr apart ↦ Runs-delete id w.fetches x.key x.fetch apart r
            ])
            xs all

      -- The shared fetch ends.
      pub Shared-released :
          (z : World C)
          → z.rates.inflight ≡ delete f.key w.rates.inflight
          → z.fetches ≡ delete id w.fetches
          → w.next ≤ z.next
          → All (Awaits (delete id w.fetches)) z.waiting
          → Shared z
      Shared-released z i g n k = record {
        running = rw (i, g) running_rest;
        tracked = rw (i, g) tracked_rest;
        numbered = λ j x there.
            let there' : get j (delete id w.fetches) ≡ some x = rw g at there in
            omega (arith, n, h.numbered j x (delete-found id j x w.fetches there').1);
        awaited = rw g k;
      }

    -- The fetch of a retry ends.
    pub Shared-retried : f.purpose ≡ for_retry → Shared (record w { fetches = delete id w.fetches })
    Shared-retried own = record {
      running = λ key i there. Runs-left key i (not_this key) (h.running key i there);
      tracked = λ i g there q. h.tracked i g (delete-found id i g w.fetches there).1 q;
      numbered = λ i g there. h.numbered i g (delete-found id i g w.fetches there).1;
      awaited = All-each (λ x r. Runs-left x.key x.fetch (not_this x.key) r) w.waiting h.awaited;
    }
      where
        not_this : (key : String) → ¬ (Runs w.fetches key id)
        not_this key (g, at', q, e) =
            retry_only (sym own ∙ ap (λ (x : Fetch). x.purpose) (is_f at') ∙ q)
