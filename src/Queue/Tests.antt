-- ===== src/Queue/Tests.antt =====
-- A delivery of backend/src/webhook-dispatcher.ts whose subscriber answers with errors.
use daddy_config.Base.{
  number_equality, text_equality, ℕ, true, Option, none, some, List, [], ◌∷◌, String, get, put, ◌≡◌,
  refl, length,
}
use daddy_config.Queue.Store.{
  WebhookSubscriber, WebhookDelivery, WebhookDeliveryStatus, failed, insert_due, by_retry_time,
  get_pending_webhook_deliveries, enqueue_webhook_delivery, find_event,
  mark_webhook_delivery_success, mark_webhook_delivery_failure,
}
use daddy_config.Queue.Dispatcher.{
  Env, responded, capped_delay, retry_delay_ms, previous_signature, build_signature_headers,
  schedule_failure, reported, attempt_delivery, enqueue_all, attempt_all, dispatch_event, retry_all,
  retry_pending_deliveries,
}
use daddy_config.Queue.Invariant.{Sound}
use daddy_config.Queue.Runs.{Call, dispatch, retry_pending, call, run, empty, run-empty-Sound}

abbrev env : Env
env = record {
  retry_base_ms = 1000;
  retry_max_ms = 300000;
  retry_jitter_percent = 20;
  hmac = λ secret text. secret;
  time_text = λ now. "0";
  fetch = λ p. responded 500;
  random = λ p. 750000;
}

abbrev subscribers : List (String × WebhookSubscriber)
subscribers =
    (
      "s",
      record {
        id = "s";
        url = "https://a.example";
        secret = some "new";
        previous_secret = some "old";
        secret_rotated_at = some 0;
        active = true;
      },
    )
    ∷ []

abbrev calls : List Call
calls =
    dispatch 0 "remittance.created" "7" "{}"
    ∷ retry_pending 10000 100
    ∷ retry_pending 20000 100
    ∷ retry_pending 40000 100
    ∷ retry_pending 80000 100
    ∷ retry_pending 160000 100
    ∷ []

abbrev status_of : Option WebhookDelivery → Option (WebhookDeliveryStatus × ℕ)
status_of none = none
status_of (some d) = some (d.status, d.attempt_count)

-- Five attempts, and none after them.
five_attempts :
    (status_of (get 0 (run env calls (empty subscribers)).db.deliveries) ≡ some (failed, 5))
    × (length (run env calls (empty subscribers)).sent ≡ 5)
unfolding get put run call find_event enqueue_webhook_delivery insert_due by_retry_time
    get_pending_webhook_deliveries mark_webhook_delivery_success mark_webhook_delivery_failure
    previous_signature build_signature_headers capped_delay retry_delay_ms schedule_failure reported
    attempt_delivery enqueue_all attempt_all dispatch_event retry_all retry_pending_deliveries
five_attempts = (refl, refl)

-- The delay before the third attempt, with three quarters as the random number.
second_delay : retry_delay_ms env 750000 2 ≡ 2200
unfolding retry_delay_ms capped_delay
second_delay = refl

run-empty-Sound_example : Sound (run env calls (empty subscribers))
run-empty-Sound_example = run-empty-Sound env calls subscribers
