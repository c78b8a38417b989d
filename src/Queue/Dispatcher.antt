-- ===== src/Queue/Dispatcher.antt =====
-- `WebhookDispatcher` of backend/src/webhook-dispatcher.ts, on the tables of Queue.Store. The clock,
-- the random number of a delay in millionths, the signatures, the text of a time and the answers of
-- the subscribers are inputs; one time stands for the calls of the clock within an attempt.
use Prim.Native.String
use text.Mathlib.Text.{starts_with}
use daddy_config.Base.{
  text_equality, number_equality, ℕ, ◌+◌, ◌-◌, ◌*◌, ◌/◌, ◌^◌, min, Bool, Option, none, some, List,
  [], ◌∷◌, ◌++◌, String, if◌then◌else◌, ltb, leb, ◌==◌, ◌&&◌,
}
use daddy_config.Queue.Store.{
  WebhookSubscriber, WebhookDelivery, Failure, must_use_https, http_status, request_failed, Tables,
  get_active_webhook_subscribers, get_webhook_subscriber_by_id, enqueue_webhook_delivery,
  get_pending_webhook_deliveries, mark_webhook_delivery_success, mark_webhook_delivery_failure,
}

abbrev pub max_retries : ℕ
max_retries = 5

abbrev pub rotation_grace_ms : ℕ
rotation_grace_ms = 24 * 60 * 60 * 1000

-- What a request comes to: a response with its status, or an error with its message.
pub data Reply : Type 0 where
  responded : ℕ → Reply
  broken : String → Reply

pub record SignatureHeaders : Type 0 where
  pub x_webhook_timestamp : String
  pub x_webhook_signature : String
  pub x_webhook_signature_prev : Option String

pub record Post : Type 0 where
  pub delivery : ℕ
  pub url : String
  pub event_type : String
  pub attempt : ℕ
  pub signature : Option SignatureHeaders
  pub body : String

-- The three settings of retries, the package `crypto`, and the network and the random numbers, which
-- depend on the request.
pub record Env : Type 0 where
  pub retry_base_ms : ℕ
  pub retry_max_ms : ℕ
  pub retry_jitter_percent : ℕ
  pub hmac : String → String → String
  pub time_text : ℕ → String
  pub fetch : Post → Reply
  pub random : Post → ℕ

-- The tables, and the requests in the order they were sent.
pub record Outbox : Type 0 where
  pub db : Tables
  pub sent : List Post

-- The signature with the secret before a rotation, for a day after it.
unfoldable pub previous_signature : Env → ℕ → String → WebhookSubscriber → Option String
previous_signature env now text s = elim s.previous_secret [
  | none ↦ none
  | some previous ↦ elim s.secret_rotated_at [
    | none ↦ none
    | some rotated ↦
        if previous == ""
        then none
        else if ltb now (rotated + rotation_grace_ms)
        then some (env.hmac previous text)
        else none
  ]
]

unfoldable pub build_signature_headers :
    Env → ℕ → String → Option WebhookSubscriber → Option SignatureHeaders
build_signature_headers env now body none = none
build_signature_headers env now body (some s) = elim s.secret [
  | none ↦ none
  | some secret ↦
      let text = String.◌++◌ (env.time_text now) (String.◌++◌ "." body) in
      if secret == ""
      then none
      else some (record {
        x_webhook_timestamp = env.time_text now;
        x_webhook_signature = env.hmac secret text;
        x_webhook_signature_prev = previous_signature env now text s;
      })
]

abbrev pub million : ℕ
million = 1000000

unfoldable pub capped_delay : Env → ℕ → ℕ
capped_delay env attempt = min (env.retry_base_ms * 2 ^ (attempt - 1)) env.retry_max_ms

-- `capped + (random - 0.5) * 2 * range` and not below zero, in whole milliseconds, where the random
-- number is `r` millionths.
unfoldable pub retry_delay_ms : Env → ℕ → ℕ → ℕ
retry_delay_ms env r attempt =
    let range = capped_delay env attempt * env.retry_jitter_percent in
    ((capped_delay env attempt * 100 * million + 2 * (range * r)) - range * million)
    / (100 * million)

unfoldable pub schedule_failure :
    Env → ℕ → ℕ → WebhookDelivery → Failure → Option ℕ → Outbox → Outbox
schedule_failure env now r d message response_status o = record o {
  db =
      mark_webhook_delivery_failure d.id (d.attempt_count + 1) d.max_attempts
        (now + retry_delay_ms env r (d.attempt_count + 1)) message response_status o.db;
}

-- `response.ok`.
abbrev pub is_ok : ℕ → Bool
is_ok status = leb 200 status && ltb status 300

abbrev pub post_of : Env → ℕ → WebhookDelivery → Option WebhookSubscriber → Post
post_of env now d s = record {
  delivery = d.id;
  url = d.target_url;
  event_type = d.event_type;
  attempt = d.attempt_count + 1;
  signature = build_signature_headers env now d.payload s;
  body = d.payload;
}

unfoldable pub reported : Env → ℕ → WebhookDelivery → ℕ → Reply → Outbox → Outbox
reported env now d r (responded status) o =
    if is_ok status
    then record o { db = mark_webhook_delivery_success now d.id status o.db }
    else schedule_failure env now r d (http_status status) (some status) o
reported env now d r (broken message) o =
    schedule_failure env now r d (request_failed message) none o

unfoldable pub attempt_delivery :
    Env → ℕ → WebhookDelivery → Option WebhookSubscriber → Outbox → Outbox
attempt_delivery env now d s o =
    let post = post_of env now d s in
    if starts_with d.target_url "https://"
    then reported env now d (env.random post) (env.fetch post)
        (record o { sent = o.sent ++ post ∷ [] })
    else schedule_failure env now (env.random post) d (must_use_https d.target_url) none o

-- `Promise.all` of the enqueues.
unfoldable pub enqueue_all :
    ℕ
    → String
    → String
    → String
    → List WebhookSubscriber
    → Tables
    → List (WebhookDelivery × WebhookSubscriber) × Tables
enqueue_all now event_type event_key payload [] db = ([], db)
enqueue_all now event_type event_key payload (s ∷ ss) db =
    let (d, db') = enqueue_webhook_delivery now event_type event_key s payload max_retries db in
    let (ds, db'') = enqueue_all now event_type event_key payload ss db' in ((d, s) ∷ ds, db'')

unfoldable pub attempt_all : Env → ℕ → List (WebhookDelivery × WebhookSubscriber) → Outbox → Outbox
attempt_all env now [] o = o
attempt_all env now ((d, s) ∷ ds) o = attempt_all env now ds (attempt_delivery env now d (some s) o)

-- `dispatchRemittanceCreated` and `dispatchSep24ExpiredRefund`, which differ in the type of the event
-- and in the field that is its key.
unfoldable pub dispatch_event : Env → ℕ → String → String → String → Outbox → Outbox
dispatch_event env now event_type event_key payload o =
    let (ds, db) =
      enqueue_all now event_type event_key payload (get_active_webhook_subscribers o.db) o.db in
    attempt_all env now ds (record o { db = db })

unfoldable pub retry_all : Env → ℕ → List WebhookDelivery → Outbox → Outbox
retry_all env now [] o = o
retry_all env now (d ∷ ds) o =
    retry_all env now ds
      (attempt_delivery env now d (get_webhook_subscriber_by_id d.subscriber_id o.db) o)

unfoldable pub retry_pending_deliveries : Env → ℕ → ℕ → Outbox → Outbox
retry_pending_deliveries env now limit o =
    retry_all env now (get_pending_webhook_deliveries now limit o.db) o
