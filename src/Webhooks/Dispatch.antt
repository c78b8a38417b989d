-- ===== src/Webhooks/Dispatch.antt =====
-- `dispatch` of backend/src/webhooks/dispatcher.ts: what it counts, and what it leaves in flight.
use daddy_config.Base.{
  text_equality, ℕ, get, put, put-there, ◌==◌, ap, ◌≤◌, ◌+◌, ◌-◌, zero, suc, Bool, true, false,
  Option, none, some, List, [], ◌∷◌, String, ◌≡◌, refl, ◌∙◌, arith, length, All, if◌then◌else◌,
  Option-cases, Bool-cases, inl, inr,
}
use text.Mathlib.Text.{starts_with}
use text.Mathlib.TextEquality.{eq_iff}
use daddy_config.Webhooks.Store.{
  EventType, WebhookSubscriber, WebhookPayload, DeadLetterRecord, record_delivery, get_subscribers,
}
use daddy_config.Webhooks.Dispatcher.{
  Env, WebhookDeliveryOptions, Target, World, Counts, fault, post, retry_later, give_up, attempts,
  attempt_delivery, dispatch_one, dispatch_each, dispatch, counted, enriched,
}
use daddy_config.Webhooks.Attempts.{Ending, attempt_delivery-Ending}

counted_one : (b : Bool) (c : Counts) → (counted b c).0 + (counted b c).1 ≡ suc (c.0 + c.1)
counted_one true c = omega arith
counted_one false c = omega arith

counted_bad : (b : Bool) (c : Counts) → (counted b c).1 ≡ c.1 + (if b then 0 else 1)
counted_bad true c = omega arith
counted_bad false c = omega arith

-- Ids that are drawn do not repeat, and none that is still to be drawn is the key of a dead letter.
pub record IsFresh (env : Env) (w : World) : Type 0 where
  pub distinct : (i j : ℕ) → (env.stamp i).id ≡ (env.stamp j).id → i ≡ j
  pub unused : (k : ℕ) → w.drawn ≤ k → get (env.stamp k).id w.store.dead_letters ≡ none

length-put_new :
    (k : String) (l : DeadLetterRecord) (m : List (String × DeadLetterRecord))
    → get k m ≡ none
    → length (put k l m) ≡ suc (length m)
unfolding get put
length-put_new k l [] h = refl
length-put_new k l ((j, x) ∷ m) h = ground (arith, length-put_new k l m)

-- One more dead letter for a failure, none for a success; the ids stay fresh.
Ending-letters :
    (env : Env) (o : WebhookDeliveryOptions) (id : String) (attempt left : ℕ) (first : Option ℕ)
    (w : World) (b : Bool) (v : World)
    → IsFresh env w
    → Ending env o id attempt left first w (b, v)
    → IsFresh env v
      × (length v.store.dead_letters ≡ length w.store.dead_letters + (if b then 0 else 1))
Ending-letters env o id attempt left none w b v fresh (at, h) =
    let (k, l, from, below, _, _, there) = h.buried in
    (
      record {
        distinct = fresh.distinct;
        unused = λ j after.
            let apart : ((env.stamp k).id == (env.stamp j).id) ≡ false =
              elim (Bool-cases ((env.stamp k).id == (env.stamp j).id)) [
                | inr other ↦ other
                | inl same ↦
                    let equal : k ≡ j = fresh.distinct k j ((eq_iff _ _).0 same) in
                    absurd (omega (arith, equal, below, after))
              ] in
            ap (get (env.stamp j).id) there
            ∙ put-there (env.stamp k).id (env.stamp j).id l w.store.dead_letters apart
            ∙ fresh.unused j (omega (arith, from, below, after));
      },
      rw at (
          ap length there
          ∙ length-put_new (env.stamp k).id l w.store.dead_letters (fresh.unused k from)
          ∙ omega arith),
    )
Ending-letters env o id attempt left (some n) w b v fresh (at, h) = (
  record {
    distinct = fresh.distinct;
    unused = λ j after.
        ap (get (env.stamp j).id) h.buried ∙ fresh.unused j (omega (arith, h.drawn, after));
  },
  rw at (ap length h.buried ∙ omega arith),
)

module _ (env : Env) (o : WebhookDeliveryOptions) where
  attempts-flying :
      (t : Target) (left attempt : ℕ) (w : World)
      → (attempts env o t left attempt w).1.in_flight ≡ w.in_flight
  unfolding attempts post retry_later give_up
  attempts-flying t zero attempt w = ground arith
  attempts-flying t (suc left) attempt w =
      elim (Option-cases (fault (env.reply (length w.requests)))) [
        | inl fine ↦ rw (fine, attempts) refl
        | inr (e, bad) ↦
            rw (bad, attempts)
              (attempts-flying t left (suc attempt) (retry_later o t attempt e (post env t w)))
      ]

  attempt_delivery-flying :
      (t : Target) (attempt : ℕ) (w : World)
      → (attempt_delivery env o t attempt w).1.in_flight ≡ w.in_flight
  unfolding attempt_delivery
  attempt_delivery-flying t attempt w = elim (Bool-cases (starts_with t.url "https://")) [
    | inl https ↦
        rw (https, attempt_delivery) (attempts-flying t (o.max_retries - attempt) attempt w)
    | inr other ↦ rw (other, attempt_delivery) refl
  ]

  dispatch_one-flying :
      (event : EventType) (p : WebhookPayload) (sub : WebhookSubscriber) (w : World)
      → (dispatch_one env o event p sub w).1.in_flight ≡ w.in_flight
  unfolding dispatch_one
  dispatch_one-flying event p sub w = attempt_delivery-flying _ 1 _

  -- A dead letter for each failure, where the address is an HTTPS one.
  dispatch_one-letters :
      (event : EventType) (p : WebhookPayload) (sub : WebhookSubscriber) (w : World)
      → IsFresh env w
      → starts_with sub.url "https://" ≡ true
      → let r = dispatch_one env o event p sub w in
        IsFresh env r.1
        × (length r.1.store.dead_letters ≡ length w.store.dead_letters + (if r.0 then 0 else 1))
  unfolding dispatch_one record_delivery
  dispatch_one-letters event p sub w fresh https =
      Ending-letters env _ _ _ _ _ _ _ _
        (record { distinct = fresh.distinct; unused = λ k h. fresh.unused k (omega (arith, h)) })
        (attempt_delivery-Ending env o _ 1 _ https)

  dispatch_each-flying :
      (event : EventType) (p : WebhookPayload) (subs : List WebhookSubscriber) (counts : Counts)
      (w : World)
      → (dispatch_each env o event p subs counts w).1.in_flight ≡ w.in_flight
  unfolding dispatch_each
  dispatch_each-flying event p [] counts w = refl
  dispatch_each-flying event p (sub ∷ subs) counts w =
      dispatch_each-flying event p subs _ (dispatch_one env o event p sub w).1
      ∙ dispatch_one-flying event p sub w

  dispatch_each-counts :
      (event : EventType) (p : WebhookPayload) (subs : List WebhookSubscriber) (counts : Counts)
      (w : World)
      → let r = dispatch_each env o event p subs counts w in
        r.0.0 + r.0.1 ≡ counts.0 + counts.1 + length subs
  unfolding dispatch_each
  dispatch_each-counts event p [] counts w = omega arith
  dispatch_each-counts event p (sub ∷ subs) counts w =
      let r = dispatch_one env o event p sub w in
      omega
        (arith, dispatch_each-counts event p subs (counted r.0 counts) r.1, counted_one r.0 counts)

  dispatch_each-letters :
      (event : EventType) (p : WebhookPayload) (subs : List WebhookSubscriber) (counts : Counts)
      (w : World)
      → IsFresh env w
      → All (λ (s : WebhookSubscriber). starts_with s.url "https://" ≡ true) subs
      → let r = dispatch_each env o event p subs counts w in
        length r.1.store.dead_letters + counts.1 ≡ length w.store.dead_letters + r.0.1
  unfolding dispatch_each
  dispatch_each-letters event p [] counts w fresh h = omega arith
  dispatch_each-letters event p (sub ∷ subs) counts w fresh (https, h) =
      let r = dispatch_one env o event p sub w in
      let (fresh', one) = dispatch_one-letters event p sub w fresh https in
      omega (
        arith,
        dispatch_each-letters event p subs (counted r.0 counts) r.1 fresh' h,
        one,
        counted_bad r.0 counts,
      )

-- A dispatch counts every subscriber of the event once, as a success or as a failure, and leaves as
-- many dispatches in flight as before.
pub dispatch-counts :
    (env : Env) (o : WebhookDeliveryOptions) (event : EventType) (p : WebhookPayload)
    (correlation : Option String) (w : World)
    → let r = dispatch env o event p correlation w in
      (r.0.0 + r.0.1 ≡ length (get_subscribers event w.store)) × (r.1.in_flight ≡ w.in_flight)
unfolding dispatch
dispatch-counts env o event p correlation w =
    let flying : World = record w { in_flight = w.in_flight + 1 } in
    let q = enriched correlation p in
    let subs = get_subscribers event w.store in
    (
      omega (arith, dispatch_each-counts env o event q subs (0, 0) flying),
      omega (arith, dispatch_each-flying env o event q subs (0, 0) flying),
    )

-- If all the subscribers of the event have HTTPS addresses, and the ids that are drawn do not repeat,
-- a dispatch stores exactly one dead letter more for each failure that it counts.
pub dispatch-letters :
    (env : Env) (o : WebhookDeliveryOptions) (event : EventType) (p : WebhookPayload)
    (correlation : Option String) (w : World)
    → IsFresh env w
    → All
        (λ (s : WebhookSubscriber). starts_with s.url "https://" ≡ true)
        (get_subscribers event w.store)
    → let r = dispatch env o event p correlation w in
      length r.1.store.dead_letters ≡ length w.store.dead_letters + r.0.1
unfolding dispatch
dispatch-letters env o event p correlation w fresh h =
    let flying : World = record w { in_flight = w.in_flight + 1 } in
    let q = enriched correlation p in
    let kept : IsFresh env flying = record { distinct = fresh.distinct; unused = fresh.unused } in
    omega (
      arith,
      dispatch_each-letters env o event q (get_subscribers event w.store) (0, 0) flying kept h,
    )
