-- ===== src/Webhooks/Dispatcher.antt =====
-- `WebhookDispatcher` of backend/src/webhooks/dispatcher.ts on the in-memory store. The network, the
-- clock with the random ids, the signature and the serialization are inputs; the log is left out.
use Prim.Native.String
use daddy_config.Base.{
  text_equality, ℕ, ◌+◌, ◌-◌, ◌*◌, ◌^◌, zero, suc, min, Bool, true, false, Option, none, some, List,
  [], ◌∷◌, ◌++◌, String, if◌then◌else◌, ltb, leb, ◌==◌, ◌&&◌, or_else, length,
}
use text.Mathlib.Text.{starts_with}
use daddy_config.Webhooks.Store.{
  EventType, WebhookSubscriber, WebhookPayload, WebhookDeliveryRecord, DeliveryError,
  DeliveryStatus, WebhookStore, Stamp, pending, success, failed, must_use_https, http_status,
  request_failed, record_delivery, update_delivery_status, send_to_dead_letter, get_subscribers,
  get_webhook, get_pending_deliveries,
}

pub record WebhookDeliveryOptions : Type 0 where
  pub max_retries : ℕ
  pub initial_delay_ms : ℕ
  pub backoff_multiplier : ℕ
  pub max_delay_ms : ℕ

-- `DEFAULT_OPTIONS`, but for the timeout, which the network sees to.
abbrev pub default_options : WebhookDeliveryOptions
default_options = record {
  max_retries = 3;
  initial_delay_ms = 1000;
  backoff_multiplier = 2;
  max_delay_ms = 60000;
}

-- What comes of a request: an answer with its status, or an exception with its message.
pub data Reply : Type 0 where
  answered : ℕ → Reply
  broken : String → Reply

pub record Headers : Type 0 where
  pub content_type : String
  pub signature : String
  pub timestamp : String
  pub webhook_id : String

pub record Request : Type 0 where
  pub url : String
  pub body : String
  pub headers : Headers

-- The n-th request's reply, the n-th fresh id with its time, `createHmac('sha256', secret)`, the
-- serialization for a content type, and `String` of a number.
pub record Env : Type 0 where
  pub reply : ℕ → Reply
  pub stamp : ℕ → Stamp
  pub hmac : String → String → String
  pub serialize : Bool → WebhookPayload → String
  pub show : ℕ → String

pub record World : Type 0 where
  pub store : WebhookStore
  pub in_flight : ℕ
  pub drawn : ℕ
  pub requests : List Request
  pub waits : List ℕ

abbrev pub form_encoded : String
form_encoded = "application/x-www-form-urlencoded"

-- What is signed: the time, a dot, the payload.
abbrev pub signed_text : String → String → String
signed_text timestamp payload = String.◌++◌ timestamp (String.◌++◌ "." payload)

unfoldable pub generate_headers : Env → Stamp → String → String → String → Headers
generate_headers env stamp payload secret content_type =
    let timestamp = env.show stamp.time in
    record {
      content_type = content_type;
      signature = env.hmac secret (signed_text timestamp payload);
      timestamp = timestamp;
      webhook_id = stamp.id;
    }

-- `attempt` is at least 1.
unfoldable pub get_backoff_delay : WebhookDeliveryOptions → ℕ → ℕ
get_backoff_delay o attempt =
    min (o.initial_delay_ms * o.backoff_multiplier ^ (attempt - 1)) o.max_delay_ms

-- What stays the same over the attempts of one delivery.
pub record Target : Type 0 where
  pub delivery_id : String
  pub url : String
  pub secret : String
  pub payload : WebhookPayload
  pub delivery : WebhookDeliveryRecord
  pub content_type : String

abbrev pub update : Target → DeliveryStatus → ℕ → Option DeliveryError → World → World
update t status attempt error w = record w {
  store = update_delivery_status t.delivery_id status attempt error w.store;
}

-- The request. An answer from 200 to 299 is no error.
abbrev pub fault : Reply → Option DeliveryError
fault (answered status) =
    if leb 200 status && ltb status 300 then none else some (http_status status)
fault (broken message) = some (request_failed message)

unfoldable pub post : Env → Target → World → World
post env t w =
    let body = env.serialize (t.content_type == form_encoded) t.payload in
    let request : Request = record {
      url = t.url;
      body = body;
      headers = generate_headers env (env.stamp w.drawn) body t.secret t.content_type;
    } in
    record w { drawn = w.drawn + 1; requests = w.requests ++ request ∷ [] }

-- After a failure: wait for the next attempt, or give up. Both callers pass the record on.
unfoldable pub retry_later : WebhookDeliveryOptions → Target → ℕ → DeliveryError → World → World
retry_later o t attempt e w =
    let updated = update t pending attempt (some e) w in
    record updated { waits = w.waits ++ get_backoff_delay o attempt ∷ [] }

unfoldable pub give_up : Env → Target → ℕ → DeliveryError → World → World
give_up env t attempt e w =
    let updated = update t failed attempt (some e) w in
    let letter : WebhookDeliveryRecord = record t.delivery {
      id = t.delivery_id;
      status = failed;
      attempt = attempt;
      error = some e;
    } in
    record updated {
      store = send_to_dead_letter (env.stamp w.drawn) letter updated.store;
      drawn = w.drawn + 1;
    }

-- The attempts from one on, where `left` more may follow it: `attempt < maxRetries` is `left ≠ 0`.
unfoldable pub attempts : Env → WebhookDeliveryOptions → Target → ℕ → ℕ → World → Bool × World
attempts env o t zero attempt w = elim (fault (env.reply (length w.requests))) [
  | none ↦ (true, update t success attempt none (post env t w))
  | some e ↦ (false, give_up env t attempt e (post env t w))
]
attempts env o t (suc left) attempt w = elim (fault (env.reply (length w.requests))) [
  | none ↦ (true, update t success attempt none (post env t w))
  | some e ↦ attempts env o t left (suc attempt) (retry_later o t attempt e (post env t w))
]

unfoldable pub attempt_delivery : Env → WebhookDeliveryOptions → Target → ℕ → World → Bool × World
attempt_delivery env o t attempt w =
    if starts_with t.url "https://"
    then attempts env o t (o.max_retries - attempt) attempt w
    else (false, update t failed attempt (some (must_use_https t.url)) w)

abbrev pub Counts : Type 0
Counts = ℕ × ℕ

abbrev pub counted : Bool → Counts → Counts
counted true (good, bad) = (good + 1, bad)
counted false (good, bad) = (good, bad + 1)

abbrev pub enriched : Option String → WebhookPayload → WebhookPayload
enriched none p = p
enriched (some id) p = if id == "" then p else record p { correlation_id = some id }

abbrev pub new_delivery :
    WebhookDeliveryOptions → EventType → WebhookPayload → WebhookSubscriber → WebhookDeliveryRecord
new_delivery o event payload sub = record {
  id = "";
  webhook_id = sub.id;
  event_type = event;
  payload = payload;
  status = pending;
  attempt = 0;
  max_retries = o.max_retries;
  error = none;
}

abbrev pub target_of : String → WebhookSubscriber → WebhookDeliveryRecord → Target
target_of id sub d = record {
  delivery_id = id;
  url = sub.url;
  secret = sub.secret;
  payload = d.payload;
  delivery = d;
  content_type = or_else sub.content_type "application/json";
}

-- The delivery to one subscriber.
unfoldable pub dispatch_one :
    Env
    → WebhookDeliveryOptions
    → EventType
    → WebhookPayload
    → WebhookSubscriber
    → World
    → Bool × World
dispatch_one env o event payload sub w =
    let id = (env.stamp w.drawn).id in
    let d = new_delivery o event payload sub in
    let recorded : World = record w { store = record_delivery id d w.store; drawn = w.drawn + 1 } in
    attempt_delivery env o (target_of id sub d) 1 recorded

unfoldable pub dispatch_each :
    Env
    → WebhookDeliveryOptions
    → EventType
    → WebhookPayload
    → List WebhookSubscriber
    → Counts
    → World
    → Counts × World
dispatch_each env o event payload [] counts w = (counts, w)
dispatch_each env o event payload (sub ∷ subs) counts w =
    let (ok_one, next) = dispatch_one env o event payload sub w in
    dispatch_each env o event payload subs (counted ok_one counts) next

-- The in-memory store throws nowhere here, so that only `finally` is left of the error handling.
unfoldable pub dispatch :
    Env
    → WebhookDeliveryOptions
    → EventType
    → WebhookPayload
    → Option String
    → World
    → Counts × World
dispatch env o event payload correlation w =
    let flying : World = record w { in_flight = w.in_flight + 1 } in
    let (counts, after) =
      dispatch_each env o event (enriched correlation payload) (get_subscribers event w.store)
        (0, 0) flying in
    (counts, record after { in_flight = after.in_flight - 1 })

-- A delivery without an id, or whose subscriber is gone, is passed over.
unfoldable pub retry_one : Env → WebhookDeliveryOptions → WebhookDeliveryRecord → World → World
retry_one env o d w = if d.id == "" then w else elim (get_webhook d.webhook_id w.store) [
  | none ↦ w
  | some sub ↦ (attempt_delivery env o (target_of d.id sub d) (d.attempt + 1) w).1
]

unfoldable pub retry_each :
    Env → WebhookDeliveryOptions → List WebhookDeliveryRecord → World → World
retry_each env o [] w = w
retry_each env o (d ∷ ds) w = retry_each env o ds (retry_one env o d w)

unfoldable pub retry_pending_deliveries : Env → WebhookDeliveryOptions → ℕ → World → World
retry_pending_deliveries env o limit w = retry_each env o (get_pending_deliveries limit w.store) w
