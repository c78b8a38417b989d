-- ===== src/Webhooks/Store.antt =====
-- `InMemoryWebhookStore` of backend/src/webhooks/store.ts, with the types of
-- backend/src/webhooks/types.ts. The text of an id, which joins the time and a random number, is an
-- input, and so is whether the platform's `new URL` accepts a text. `updatedAt` is left out, since
-- nothing reads it; a delivery's `createdAt` is never set in this store, so the sort of
-- `getPendingDeliveries` by it keeps the order of insertion.
use daddy_config.Base.{
  text_equality, ℕ, Bool, true, false, Option, none, some, List, [], ◌∷◌, String, get, put, delete,
  values, select, contains, take, drop, if◌then◌else◌, ltb, ◌==◌, ◌&&◌, not, any, Outcome, ok, err,
  has, or_else, leb,
}

-- One of the six texts of the type, which are a check of the service only.
abbrev pub EventType : Type 0
EventType = String

pub record WebhookSubscriber : Type 0 where
  pub id : String
  pub url : String
  pub events : List EventType
  pub secret : String
  pub active : Bool
  pub content_type : Option String
  pub created_at : ℕ

-- `data` is the text that it is serialized to.
pub record WebhookPayload : Type 0 where
  pub event : EventType
  pub timestamp : String
  pub data_text : String
  pub id : Option String
  pub correlation_id : Option String

pub data DeliveryStatus : Type 0 where
  pending success failed : DeliveryStatus

-- The messages: the rejection of a URL, an answer that is no success, a failed request.
pub data DeliveryError : Type 0 where
  must_use_https : String → DeliveryError
  http_status : ℕ → DeliveryError
  request_failed : String → DeliveryError

pub record WebhookDeliveryRecord : Type 0 where
  pub id : String
  pub webhook_id : String
  pub event_type : EventType
  pub payload : WebhookPayload
  pub status : DeliveryStatus
  pub attempt : ℕ
  pub max_retries : ℕ
  pub error : Option DeliveryError

pub record DeadLetterRecord : Type 0 where
  pub id : String
  pub delivery_id : String
  pub webhook_id : String
  pub event_type : EventType
  pub payload : WebhookPayload
  pub last_error : Option DeliveryError
  pub attempts : ℕ
  pub created_at : ℕ
  pub replayed_at : Option ℕ

pub record WebhookStore : Type 0 where
  pub webhooks : List (String × WebhookSubscriber)
  pub deliveries : List (String × WebhookDeliveryRecord)
  pub dead_letters : List (String × DeadLetterRecord)

pub data StoreError : Type 0 where
  invalid_url already_registered : StoreError

-- A fresh id with the time that it was made at.
pub record Stamp : Type 0 where
  pub id : String
  pub time : ℕ

unfoldable pub register_webhook :
    (String → Bool)
    → Stamp
    → String
    → List EventType
    → Option String
    → WebhookStore
    → Outcome StoreError WebhookSubscriber × WebhookStore
register_webhook valid_url stamp url events secret s =
    if not (valid_url url)
    then (err invalid_url, s)
    else if any (λ (w : WebhookSubscriber). w.url == url) (values s.webhooks)
    then (err already_registered, s)
    else (let webhook : WebhookSubscriber = record {
      id = stamp.id;
      url = url;
      events = events;
      secret = or_else secret "";
      active = true;
      content_type = none;
      created_at = stamp.time;
    } in
        (ok webhook, record s { webhooks = put stamp.id webhook s.webhooks }))

-- `Map.delete` answers whether the key was there.
unfoldable pub unregister_webhook : String → WebhookStore → Bool × WebhookStore
unregister_webhook id s = (has id s.webhooks, record s { webhooks = delete id s.webhooks })

abbrev pub get_webhook : String → WebhookStore → Option WebhookSubscriber
get_webhook id s = get id s.webhooks

abbrev pub get_all_webhooks : WebhookStore → List WebhookSubscriber
get_all_webhooks s = values s.webhooks

unfoldable pub get_subscribers : EventType → WebhookStore → List WebhookSubscriber
get_subscribers event s = select (λ w. w.active && contains w.events event) (values s.webhooks)

unfoldable pub record_delivery : String → WebhookDeliveryRecord → WebhookStore → WebhookStore
record_delivery id d s = record s { deliveries = put id (record d { id = id }) s.deliveries }

-- `if (error) delivery.error = error`: an absent or an empty message leaves the last one.
abbrev pub merged : Option DeliveryError → Option DeliveryError → Option DeliveryError
merged none old = old
merged (some (request_failed message)) old =
    if message == "" then old else some (request_failed message)
merged (some e) old = some e

-- The record is changed in place.
abbrev pub with_status :
    DeliveryStatus → ℕ → Option DeliveryError → WebhookDeliveryRecord → WebhookDeliveryRecord
with_status status attempt error d = record d {
  status = status;
  attempt = attempt;
  error = merged error d.error;
}

unfoldable pub update_delivery_status :
    String → DeliveryStatus → ℕ → Option DeliveryError → WebhookStore → WebhookStore
update_delivery_status id status attempt error s = elim (get id s.deliveries) [
  | none ↦ s
  | some d ↦ record s { deliveries = put id (with_status status attempt error d) s.deliveries }
]

abbrev pub is_pending : WebhookDeliveryRecord → Bool
is_pending d = elim d.status [
  | pending ↦ true
  | success ↦ false
  | failed ↦ ltb d.attempt d.max_retries
]

unfoldable pub get_pending_deliveries : ℕ → WebhookStore → List WebhookDeliveryRecord
get_pending_deliveries limit s = take limit (select is_pending (values s.deliveries))

unfoldable pub send_to_dead_letter : Stamp → WebhookDeliveryRecord → WebhookStore → WebhookStore
send_to_dead_letter stamp d s =
    let letter : DeadLetterRecord = record {
      id = stamp.id;
      delivery_id = d.id;
      webhook_id = d.webhook_id;
      event_type = d.event_type;
      payload = d.payload;
      last_error = d.error;
      attempts = d.attempt;
      created_at = stamp.time;
      replayed_at = none;
    } in
    record s { dead_letters = put stamp.id letter s.dead_letters }

-- `sort` by the time of creation, the latest first; it is stable.
unfoldable pub insert_latest : DeadLetterRecord → List DeadLetterRecord → List DeadLetterRecord
insert_latest x [] = x ∷ []
insert_latest x (y ∷ ys) =
    let later = insert_latest x ys in
    if leb y.created_at x.created_at then x ∷ y ∷ ys else y ∷ later

unfoldable pub latest_first : List DeadLetterRecord → List DeadLetterRecord
latest_first [] = []
latest_first (x ∷ xs) = insert_latest x (latest_first xs)

unfoldable pub list_dead_letters : ℕ → ℕ → WebhookStore → List DeadLetterRecord
list_dead_letters limit offset s = take limit (drop offset (latest_first (values s.dead_letters)))

unfoldable pub mark_dead_letter_replayed : ℕ → String → WebhookStore → WebhookStore
mark_dead_letter_replayed now id s = elim (get id s.dead_letters) [
  | none ↦ s
  | some letter ↦ record s {
    dead_letters = put id (record letter { replayed_at = some now }) s.dead_letters;
  }
]
