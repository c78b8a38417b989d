-- ===== src/Queue/Invariant.antt =====
-- What stays true of the deliveries of backend/src/webhook-dispatcher.ts.
use text.Mathlib.Text.{starts_with}
use daddy_config.Base.{
  text_equality, number_equality, ℕ, ◌≤◌, ◌<◌, Bool, true, false, Option, none, some, get,
  if◌then◌else◌, ◌≡◌, ◌≢◌, refl, arith, All, All-append, AllEntries, AllEntries-put, AllEntries-get,
  Option-cases, Bool-cases, inl, inr,
}
use daddy_config.Queue.Store.{
  WebhookSubscriber, WebhookDelivery, pending, success, failed, Failure, Tables, change,
  mark_webhook_delivery_success, mark_webhook_delivery_failure,
}
use daddy_config.Queue.Dispatcher.{
  max_retries, Reply, responded, broken, Post, Env, Outbox, schedule_failure, is_ok, reported,
  attempt_delivery,
}

-- A row of the queue: pending with an attempt left, failed after the last one, or delivered.
pub record Fine (k : ℕ) (d : WebhookDelivery) : Type 0 where
  pub limit : d.max_attempts ≡ max_retries
  pub waiting : d.status ≡ pending → d.attempt_count < max_retries
  pub given_up : d.status ≡ failed → d.attempt_count ≡ max_retries
  pub delivered :
      d.status ≡ success
      → (s t : ℕ) × (d.response_status ≡ some s) × (is_ok s ≡ true) × (d.delivered_at ≡ some t)

-- A delivery as an attempt takes it.
abbrev pub IsReady : WebhookDelivery → Type 0
IsReady d = (d.max_attempts ≡ max_retries) × (d.attempt_count < max_retries)

-- A request that was sent.
abbrev pub IsProper : Post → Type 0
IsProper p = (starts_with p.url "https://" ≡ true) × (1 ≤ p.attempt) × (p.attempt ≤ max_retries)

pub record Sound (o : Outbox) : Type 0 where
  pub rows : AllEntries Fine o.db.deliveries
  pub posts : All IsProper o.sent

pub Fine-pending :
    (k : ℕ) (d : WebhookDelivery)
    → d.max_attempts ≡ max_retries
    → d.status ≡ pending
    → d.attempt_count < max_retries
    → Fine k d
Fine-pending k d limit is few = record {
  limit = limit;
  waiting = λ e. few;
  given_up = λ e. absurd (cc);
  delivered = λ e. absurd (cc);
}

unsent_status : (b : Bool) → (if b then failed else pending) ≢ success
unsent_status true e = cc
unsent_status false e = cc

change-Fine :
    (f : WebhookDelivery → WebhookDelivery) (id : ℕ) (db : Tables)
    → ((d : WebhookDelivery) → Fine id d → Fine id (f d))
    → AllEntries Fine db.deliveries
    → AllEntries Fine (change f id db).deliveries
change-Fine f id db each h = elim (Option-cases (get id db.deliveries)) [
  | inl missing ↦ rw (missing, change) h
  | inr (d, there) ↦
      rw (there, change)
        (AllEntries-put Fine id (f d) db.deliveries h
          (each d (AllEntries-get Fine id d db.deliveries h there)))
]

schedule_failure-Fine :
    (env : Env) (now r : ℕ) (d : WebhookDelivery) (m : Failure) (status : Option ℕ) (o : Outbox)
    → IsReady d
    → AllEntries Fine o.db.deliveries
    → AllEntries Fine (schedule_failure env now r d m status o).db.deliveries
unfolding schedule_failure mark_webhook_delivery_failure
schedule_failure-Fine env now r d m status o (limit, few) h =
    change-Fine _ d.id o.db
      (λ row fine. record {
        limit = fine.limit;
        waiting = λ e. ground (arith, limit, few);
        given_up = λ e. ground (arith, limit, few);
        delivered = λ e. absurd (unsent_status _ e);
      })
      h

reported-Fine :
    (env : Env) (now : ℕ) (d : WebhookDelivery) (r : ℕ) (reply : Reply) (o : Outbox)
    → IsReady d
    → AllEntries Fine o.db.deliveries
    → AllEntries Fine (reported env now d r reply o).db.deliveries
unfolding reported mark_webhook_delivery_success
reported-Fine env now d r (broken message) o ready h =
    schedule_failure-Fine env now r d _ none o ready h
reported-Fine env now d r (responded status) o ready h = elim (Bool-cases (is_ok status)) [
  | inr refused ↦
      rw (refused, reported) (schedule_failure-Fine env now r d _ (some status) o ready h)
  | inl fine ↦
      rw (fine, reported)
        (change-Fine _ d.id o.db
          (λ row old. record {
            limit = old.limit;
            waiting = λ e. absurd (cc);
            given_up = λ e. absurd (cc);
            delivered = λ e. (status, now, refl, fine, refl);
          })
          h)
]

reported-sent :
    (env : Env) (now : ℕ) (d : WebhookDelivery) (r : ℕ) (reply : Reply) (o : Outbox)
    → (reported env now d r reply o).sent ≡ o.sent
unfolding reported schedule_failure
reported-sent env now d r (broken message) o = refl
reported-sent env now d r (responded status) o = elim (Bool-cases (is_ok status)) [
  | inr refused ↦ rw (refused, reported) refl
  | inl fine ↦ rw (fine, reported) refl
]

pub attempt_delivery-Sound :
    (env : Env) (now : ℕ) (d : WebhookDelivery) (s : Option WebhookSubscriber) (o : Outbox)
    → IsReady d
    → Sound o
    → Sound (attempt_delivery env now d s o)
unfolding attempt_delivery schedule_failure
attempt_delivery-Sound env now d s o ready h =
    elim (Bool-cases (starts_with d.target_url "https://")) [
      | inr plain ↦
          rw (plain, attempt_delivery)
            (record {
              rows = schedule_failure-Fine env now _ d _ none o ready h.rows;
              posts = h.posts;
            })
      | inl secure ↦
          rw (secure, attempt_delivery)
            (record {
              rows = reported-Fine env now d _ _ _ ready h.rows;
              posts = rw (reported-sent) (
                  All-append IsProper o.sent _ h.posts
                    ((secure, omega arith, omega (arith, ready.1)), tt));
            })
    ]
