-- ===== src/Webhooks/Attempts.antt =====
-- What comes of the attempts of one delivery, by `attemptDelivery` of
-- backend/src/webhooks/dispatcher.ts.
use daddy_config.Base.{
  text_equality, ℕ, ◌+◌, ◌-◌, zero, suc, Bool, true, false, Option, none, some, List, [], ◌∷◌, ◌++◌,
  String, ◌≡◌, refl, ap, arith, length, length-append, get, put, get-put, ◌≤◌, ◌<◌, Option-cases,
  inl, inr, ◌∙◌,
}
use mathlib.Core.Path.{subst}
use text.Mathlib.Text.{starts_with}
use text.Mathlib.TextEquality.{eq_iff}
use daddy_config.Webhooks.Store.{
  WebhookDeliveryRecord, DeadLetterRecord, DeliveryStatus, DeliveryError, success, failed, pending,
  with_status, update_delivery_status, send_to_dead_letter, WebhookStore,
}
use daddy_config.Webhooks.Dispatcher.{
  Env, WebhookDeliveryOptions, Target, World, Reply, fault, post, retry_later, give_up, attempts,
  attempt_delivery, update, get_backoff_delay,
}

abbrev pub one_later : Option ℕ → Option ℕ
one_later none = none
one_later (some k) = some (suc k)

-- The first of `tries` replies, the n-th on, that is a success: how many fail before it.
unfoldable pub first_success : (ℕ → Reply) → ℕ → ℕ → Option ℕ
first_success reply n zero = none
first_success reply n (suc tries) =
    let rest = first_success reply (suc n) tries in
    elim (fault (reply n)) [ none ↦ some 0 | some e ↦ one_later rest ]

-- The waits before the attempts after the given one.
abbrev pub backoffs : WebhookDeliveryOptions → ℕ → ℕ → List ℕ
backoffs o attempt zero = []
backoffs o attempt (suc k) = get_backoff_delay o attempt ∷ backoffs o (suc attempt) k

-- The dead letters after the attempts: those before, or one more, under an id that was drawn on the way,
-- for this delivery with the number of its last attempt.
abbrev pub Buried : Env → String → ℕ → ℕ → World → World → Type 0
Buried env id last zero w v = v.store.dead_letters ≡ w.store.dead_letters
Buried env id last (suc n) w v =
    (k : ℕ) × (l : DeadLetterRecord) × (w.drawn ≤ k)
    × (k < v.drawn)
    × (l.delivery_id ≡ id)
    × (l.attempts ≡ last)
    × (v.store.dead_letters ≡ put (env.stamp k).id l w.store.dead_letters)

-- Where the attempts end that begin with `attempt` in `w`, after some retries: the requests made, the
-- time waited between them, the dead letters, and the delivery's record.
pub record Ends (env : Env) (o : WebhookDeliveryOptions) (id : String) (attempt retries letters : ℕ)
    (status : DeliveryStatus) (w v : World) : Type 0 where
  pub sent : length v.requests ≡ length w.requests + suc retries
  pub waited : v.waits ≡ w.waits ++ backoffs o attempt retries
  pub buried : Buried env id (attempt + retries) letters w v
  pub drawn : w.drawn ≤ v.drawn
  pub recorded :
      (d : WebhookDeliveryRecord)
      → get id w.store.deliveries ≡ some d
      → (d' : WebhookDeliveryRecord) × (get id v.store.deliveries ≡ some d')
        × (d'.status ≡ status)
        × (d'.attempt ≡ attempt + retries)
  pub flying : v.in_flight ≡ w.in_flight

-- With a success among the tries, or none.
abbrev pub Ending :
    Env → WebhookDeliveryOptions → String → ℕ → ℕ → Option ℕ → World → Bool × World → Type 0
Ending env o id attempt left (some k) w (b, v) = (b ≡ true) × Ends env o id attempt k 0 success w v
Ending env o id attempt left none w (b, v) = (b ≡ false) × Ends env o id attempt left 1 failed w v

update_recorded :
    (id : String) (status : DeliveryStatus) (attempt : ℕ) (error : Option DeliveryError)
    (s : WebhookStore) (d : WebhookDeliveryRecord)
    → get id s.deliveries ≡ some d
    → get id (update_delivery_status id status attempt error s).deliveries
      ≡ some (with_status status attempt error d)
unfolding update_delivery_status
update_recorded id status attempt error s d g =
    rw (g, update_delivery_status)
      (ground
        (arith, get-put id id (with_status status attempt error d) s.deliveries, eq_iff id id))

update-letters :
    (id : String) (status : DeliveryStatus) (attempt : ℕ) (error : Option DeliveryError)
    (s : WebhookStore)
    → (update_delivery_status id status attempt error s).dead_letters ≡ s.dead_letters
unfolding update_delivery_status
update-letters id status attempt error s = elim (Option-cases (get id s.deliveries)) [
  | inl missing ↦ rw (missing, update_delivery_status) refl
  | inr (d, there) ↦ rw (there, update_delivery_status) refl
]

append_end : (xs : List ℕ) → xs ≡ xs ++ []
append_end [] = refl
append_end (x ∷ xs) = ap (λ r. x ∷ r) (append_end xs)

append_one : (xs : List ℕ) (x : ℕ) (ys : List ℕ) → (xs ++ x ∷ []) ++ ys ≡ xs ++ x ∷ ys
append_one [] x ys = refl
append_one (y ∷ xs) x ys = ap (λ r. y ∷ r) (append_one xs x ys)

module _ (env : Env) (o : WebhookDeliveryOptions) (t : Target) where
  post-sent : (w : World) → length (post env t w).requests ≡ length w.requests + 1
  unfolding post
  post-sent w = length-append w.requests _

  success-Ends :
      (attempt : ℕ) (w : World)
      → Ends env o t.delivery_id attempt 0 0 success w
          (update t success attempt none (post env t w))
  unfolding post
  success-Ends attempt w = record {
    sent = length-append w.requests _;
    waited = append_end w.waits;
    buried = update-letters t.delivery_id success attempt none w.store;
    drawn = omega arith;
    recorded = λ d g. (
      with_status success attempt none d,
      update_recorded t.delivery_id success attempt none w.store d g,
      refl,
      omega arith,
    );
    flying = refl;
  }

  give_up-Ends :
      (attempt : ℕ) (e : DeliveryError) (w : World)
      → Ends env o t.delivery_id attempt 0 1 failed w (give_up env t attempt e (post env t w))
  unfolding post give_up send_to_dead_letter
  give_up-Ends attempt e w = record {
    sent = length-append w.requests _;
    waited = append_end w.waits;
    buried = (
      w.drawn + 1,
      _,
      omega arith,
      omega arith,
      refl,
      omega arith,
      ap (put (env.stamp (w.drawn + 1)).id _)
          (update-letters t.delivery_id failed attempt (some e) w.store),
    );
    drawn = omega arith;
    recorded = λ d g. (
      with_status failed attempt (some e) d,
      update_recorded t.delivery_id failed attempt (some e) w.store d g,
      refl,
      omega arith,
    );
    flying = refl;
  }

  Buried-retry :
      (attempt retries letters : ℕ) (e : DeliveryError) (w v : World)
      → Buried env t.delivery_id
          (suc attempt + retries)
          letters
          (retry_later o t attempt e (post env t w))
          v
      → Buried env t.delivery_id (attempt + suc retries) letters w v
  unfolding post retry_later
  Buried-retry attempt retries zero e w v h =
      h ∙ update-letters t.delivery_id pending attempt (some e) w.store
  Buried-retry attempt retries (suc n) e w v (k, l, from, below, of, last, there) = (
    k,
    l,
    omega (arith, from),
    below,
    of,
    omega (arith, last),
    there
        ∙ ap (put (env.stamp k).id l)
            (update-letters t.delivery_id pending attempt (some e) w.store),
  )

  Ends-retry :
      (attempt retries letters : ℕ) (status : DeliveryStatus) (e : DeliveryError) (w v : World)
      → Ends env o t.delivery_id
          (suc attempt)
          retries
          letters
          status
          (retry_later o t attempt e (post env t w))
          v
      → Ends env o t.delivery_id attempt (suc retries) letters status w v
  unfolding post retry_later
  Ends-retry attempt retries letters status e w v h = record {
    sent = omega (arith, h.sent, length-append w.requests (_ ∷ []));
    waited = h.waited ∙ append_one w.waits _ _;
    buried = Buried-retry attempt retries letters e w v h.buried;
    drawn = omega (arith, h.drawn);
    recorded = λ d g.
        let (d', found, at, n) =
          h.recorded _ (update_recorded t.delivery_id pending attempt (some e) w.store d g) in
        (d', found, at, omega (arith, n));
    flying = h.flying;
  }

  Ending-retry :
      (attempt left : ℕ) (first : Option ℕ) (e : DeliveryError) (w : World) (res : Bool × World)
      → Ending env o t.delivery_id
          (suc attempt)
          left
          first
          (retry_later o t attempt e (post env t w))
          res
      → Ending env o t.delivery_id attempt (suc left) (one_later first) w res
  Ending-retry attempt left none e w res (b, h) = (b, Ends-retry attempt left 1 failed e w res.1 h)
  Ending-retry attempt left (some k) e w res (b, h) =
      (b, Ends-retry attempt k 0 success e w res.1 h)

  retry_later-sent :
      (attempt : ℕ) (e : DeliveryError) (w : World)
      → length (retry_later o t attempt e (post env t w)).requests ≡ suc (length w.requests)
  unfolding retry_later post
  retry_later-sent attempt e w = omega (arith, length-append w.requests (_ ∷ []))

  attempts-Ending :
      (left attempt : ℕ) (w : World)
      → Ending env o t.delivery_id attempt left
          (first_success env.reply (length w.requests) (suc left))
          w
          (attempts env o t left attempt w)
  unfolding attempts first_success
  attempts-Ending zero attempt w = elim (Option-cases (fault (env.reply (length w.requests)))) [
    | inl fine ↦ rw (fine, Ending, attempts, first_success) (refl, success-Ends attempt w)
    | inr (e, bad) ↦ rw (bad, Ending, attempts, first_success) (refl, give_up-Ends attempt e w)
  ]
  attempts-Ending (suc left) attempt w =
      elim (Option-cases (fault (env.reply (length w.requests)))) [
        | inl fine ↦ rw (fine, Ending, attempts, first_success) (refl, success-Ends attempt w)
        | inr (e, bad) ↦
            rw (bad, attempts, first_success)
              (Ending-retry attempt left _ e w _ (
                subst
                  (λ n.
                    Ending env o t.delivery_id (suc attempt) left
                      (first_success env.reply n (suc left))
                      (retry_later o t attempt e (post env t w))
                      (attempts env o t left (suc attempt)
                        (retry_later o t attempt e (post env t w))))
                  (retry_later-sent attempt e w)
                  (attempts-Ending left (suc attempt) (retry_later o t attempt e (post env t w)))))
      ]

-- A delivery to an HTTPS address ends with the first success among the replies to the tries that
-- are left, up to the maximal number: true, with a request for each try, the record in the status
-- success, no dead letter. If there is none it ends with false, a request for each of the tries, the
-- record in the status failed, and one dead letter stored for it. In both cases the waits between are the
-- backoff delays of the attempts that failed, and the record counts the last attempt.
pub attempt_delivery-Ending :
    (env : Env) (o : WebhookDeliveryOptions) (t : Target) (attempt : ℕ) (w : World)
    → starts_with t.url "https://" ≡ true
    → Ending env o t.delivery_id attempt
        (o.max_retries - attempt)
        (first_success env.reply (length w.requests) (suc (o.max_retries - attempt)))
        w
        (attempt_delivery env o t attempt w)
unfolding attempt_delivery
attempt_delivery-Ending env o t attempt w https =
    rw (https, attempt_delivery) (attempts-Ending env o t (o.max_retries - attempt) attempt w)
