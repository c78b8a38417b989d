-- ===== src/Queue/Runs.antt =====
-- Sequences of the operations of backend/src/webhook-dispatcher.ts.
use daddy_config.Base.{
  text_equality, number_equality, ℕ, zero, suc, Bool, true, false, some, List, [], ◌∷◌, String, get,
  values, select, take, leb, ◌&&◌, ◌≡◌, refl, arith, All, AllEntries, AllEntries-put, Option-cases,
  Bool-cases, inl, inr,
}
use daddy_config.Queue.Store.{
  WebhookSubscriber, WebhookDelivery, WebhookDeliveryStatus, pending, success, failed, Tables,
  find_event, enqueue_webhook_delivery, is_pending, insert_due, by_retry_time,
  get_pending_webhook_deliveries, rotate_webhook_secret, get_active_webhook_subscribers,
  get_webhook_subscriber_by_id,
}
use daddy_config.Queue.Dispatcher.{
  max_retries, Env, Outbox, enqueue_all, attempt_all, dispatch_event, retry_all,
  retry_pending_deliveries,
}
use daddy_config.Queue.Invariant.{Fine, IsReady, Sound, Fine-pending, attempt_delivery-Sound}

abbrev IsPairReady : WebhookDelivery × WebhookSubscriber → Type 0
IsPairReady (d, s) = IsReady d

enqueue_webhook_delivery-Fine :
    (now : ℕ) (event_type event_key : String) (s : WebhookSubscriber) (payload : String)
    (db : Tables)
    → AllEntries Fine db.deliveries
    → (let (d, db') = enqueue_webhook_delivery now event_type event_key s payload max_retries db in
        IsReady d × AllEntries Fine db'.deliveries)
unfolding enqueue_webhook_delivery
enqueue_webhook_delivery-Fine now event_type event_key s payload db h =
    elim (Option-cases (find_event event_type event_key s.id db.deliveries)) [
      | inl fresh ↦
          rw (fresh, enqueue_webhook_delivery)
            (
              (refl, omega arith),
              AllEntries-put Fine db.issued _ db.deliveries h
                  (Fine-pending db.issued _ refl refl (omega arith)),
            )
      | inr (found, there) ↦
          rw (there, enqueue_webhook_delivery)
            (
              (refl, omega arith),
              AllEntries-put Fine found.0 _ db.deliveries h
                  (Fine-pending found.0 _ refl refl (omega arith)),
            )
    ]

enqueue_all-Fine :
    (now : ℕ) (event_type event_key payload : String) (ss : List WebhookSubscriber) (db : Tables)
    → AllEntries Fine db.deliveries
    → (let (ds, db') = enqueue_all now event_type event_key payload ss db in
        All IsPairReady ds × AllEntries Fine db'.deliveries)
unfolding enqueue_all
enqueue_all-Fine now event_type event_key payload [] db h = (tt, h)
enqueue_all-Fine now event_type event_key payload (s ∷ ss) db h =
    let (ready, k) = enqueue_webhook_delivery-Fine now event_type event_key s payload db h in
    let (rest, l) = enqueue_all-Fine now event_type event_key payload ss _ k in ((ready, rest), l)

attempt_all-Sound :
    (env : Env) (now : ℕ) (ds : List (WebhookDelivery × WebhookSubscriber)) (o : Outbox)
    → All IsPairReady ds
    → Sound o
    → Sound (attempt_all env now ds o)
unfolding attempt_all
attempt_all-Sound env now [] o ready h = h
attempt_all-Sound env now ((d, s) ∷ ds) o (p, ready) h =
    attempt_all-Sound env now ds _ ready (attempt_delivery-Sound env now d (some s) o p h)

retry_all-Sound :
    (env : Env) (now : ℕ) (ds : List WebhookDelivery) (o : Outbox)
    → All IsReady ds
    → Sound o
    → Sound (retry_all env now ds o)
unfolding retry_all
retry_all-Sound env now [] o ready h = h
retry_all-Sound env now (d ∷ ds) o (p, ready) h =
    retry_all-Sound env now ds _ ready
      (attempt_delivery-Sound env now d (get_webhook_subscriber_by_id d.subscriber_id o.db) o p h)

is_pending-IsReady : (k : ℕ) (d : WebhookDelivery) → Fine k d → is_pending d ≡ true → IsReady d
is_pending-IsReady k d h p = (h.limit, h.waiting (of_status d.status p))
  where
    of_status :
        (s : WebhookDeliveryStatus)
        → elim s [ pending ↦ true | success ↦ false | failed ↦ false ] ≡ true
        → s ≡ pending
    of_status pending e = refl
    of_status success e = absurd (cc e)
    of_status failed e = absurd (cc e)

select-IsReady :
    (now : ℕ) (m : List (ℕ × WebhookDelivery))
    → AllEntries Fine m
    → All IsReady
        (select (λ (d : WebhookDelivery). is_pending d && leb d.next_retry_at now) (values m))
select-IsReady now [] h = tt
select-IsReady now ((k, d) ∷ m) (fine, h) =
    elim (Bool-cases (is_pending d && leb d.next_retry_at now)) [
      | inl due ↦
          rw (due, select)
            (is_pending-IsReady k d fine (and_left (is_pending d) _ due), select-IsReady now m h)
      | inr other ↦ rw (other, select) (select-IsReady now m h)
    ]
  where
    and_left : (a b : Bool) → (a && b) ≡ true → a ≡ true
    and_left true b e = refl
    and_left false b e = e

insert_due-IsReady :
    (x : WebhookDelivery) (ds : List WebhookDelivery)
    → IsReady x
    → All IsReady ds
    → All IsReady (insert_due x ds)
unfolding insert_due
insert_due-IsReady x [] p h = (p, tt)
insert_due-IsReady x (y ∷ ys) p (q, h) = elim (Bool-cases (leb x.next_retry_at y.next_retry_at)) [
  | inl first ↦ rw (first, insert_due) (p, (q, h))
  | inr later ↦ rw (later, insert_due) (q, insert_due-IsReady x ys p h)
]

by_retry_time-IsReady :
    (ds : List WebhookDelivery) → All IsReady ds → All IsReady (by_retry_time ds)
unfolding by_retry_time
by_retry_time-IsReady [] h = tt
by_retry_time-IsReady (d ∷ ds) (p, h) = insert_due-IsReady d _ p (by_retry_time-IsReady ds h)

take-IsReady : (n : ℕ) (ds : List WebhookDelivery) → All IsReady ds → All IsReady (take n ds)
take-IsReady zero ds h = tt
take-IsReady (suc n) [] h = tt
take-IsReady (suc n) (d ∷ ds) (p, h) = (p, take-IsReady n ds h)

-- An operation: the two dispatches, a pass of retries, and a new secret of a subscriber.
pub data Call : Type 0 where
  dispatch : ℕ → String → String → String → Call
  retry_pending : ℕ → ℕ → Call
  rotate : ℕ → String → String → Call

unfoldable pub call : Env → Call → Outbox → Outbox
call env (dispatch now event_type event_key payload) o =
    dispatch_event env now event_type event_key payload o
call env (retry_pending now limit) o = retry_pending_deliveries env now limit o
call env (rotate now fresh id) o = record o { db = (rotate_webhook_secret now fresh id o.db).1 }

unfoldable pub run : Env → List Call → Outbox → Outbox
run env [] o = o
run env (c ∷ cs) o = run env cs (call env c o)

abbrev pub empty : List (String × WebhookSubscriber) → Outbox
empty subscribers = record {
  db = record { subscribers = subscribers; deliveries = []; issued = 0 };
  sent = [];
}

call-Sound : (env : Env) (c : Call) (o : Outbox) → Sound o → Sound (call env c o)
unfolding call dispatch_event retry_pending_deliveries get_pending_webhook_deliveries
    rotate_webhook_secret
call-Sound env (dispatch now event_type event_key payload) o h =
    let (ready, k) =
      enqueue_all-Fine now event_type event_key payload (get_active_webhook_subscribers o.db) o.db
        h.rows in
    attempt_all-Sound env now _ _ ready (record { rows = k; posts = h.posts })
call-Sound env (retry_pending now limit) o h =
    retry_all-Sound env now _ o
      (take-IsReady limit _ (by_retry_time-IsReady _ (select-IsReady now o.db.deliveries h.rows))) h
call-Sound env (rotate now fresh id) o h = elim (Option-cases (get id o.db.subscribers)) [
  | inl missing ↦ rw (missing, rotate_webhook_secret) (record { rows = h.rows; posts = h.posts })
  | inr (s, there) ↦ rw (there, rotate_webhook_secret) (record { rows = h.rows; posts = h.posts })
]

run-Sound : (env : Env) (cs : List Call) (o : Outbox) → Sound o → Sound (run env cs o)
unfolding run
run-Sound env [] o h = h
run-Sound env (c ∷ cs) o h = run-Sound env cs _ (call-Sound env c o h)

-- After any dispatches, passes of retries and rotations on an empty queue: a pending delivery has an
-- attempt left, a failed one has had all five since it was last queued, a delivered one has the time
-- and a status of success, and every request went to an HTTPS address as one of five attempts.
pub run-empty-Sound :
    (env : Env) (cs : List Call) (subscribers : List (String × WebhookSubscriber))
    → Sound (run env cs (empty subscribers))
run-empty-Sound env cs subscribers = run-Sound env cs _ (record { rows = tt; posts = tt })
