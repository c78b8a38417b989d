-- ===== src/Queue/Store.antt =====
-- The tables of subscribers and deliveries of backend/src/database.ts that
-- backend/src/webhook-dispatcher.ts works on. A delivery's id is its place in the order of those
-- made, a payload is the text that it is serialized to, and the statements do not fail.
use daddy_config.Base.{
  text_equality, number_equality, ℕ, ◌+◌, Bool, true, false, Option, none, some, List, [], ◌∷◌,
  String, get, put, values, select, take, if◌then◌else◌, leb, ◌==◌, ◌&&◌, Outcome, ok, err,
}

pub record WebhookSubscriber : Type 0 where
  pub id : String
  pub url : String
  pub secret : Option String
  pub previous_secret : Option String
  pub secret_rotated_at : Option ℕ
  pub active : Bool

pub data WebhookDeliveryStatus : Type 0 where
  pending success failed : WebhookDeliveryStatus

-- The messages of a failed attempt.
pub data Failure : Type 0 where
  must_use_https : String → Failure
  http_status : ℕ → Failure
  request_failed : String → Failure

pub record WebhookDelivery : Type 0 where
  pub id : ℕ
  pub event_type : String
  pub event_key : String
  pub subscriber_id : String
  pub target_url : String
  pub payload : String
  pub status : WebhookDeliveryStatus
  pub attempt_count : ℕ
  pub max_attempts : ℕ
  pub next_retry_at : ℕ
  pub last_error : Option Failure
  pub response_status : Option ℕ
  pub delivered_at : Option ℕ

pub record Tables : Type 0 where
  pub subscribers : List (String × WebhookSubscriber)
  pub deliveries : List (ℕ × WebhookDelivery)
  pub issued : ℕ

abbrev pub get_active_webhook_subscribers : Tables → List WebhookSubscriber
get_active_webhook_subscribers db =
    select (λ (s : WebhookSubscriber). s.active) (values db.subscribers)

abbrev pub get_webhook_subscriber_by_id : String → Tables → Option WebhookSubscriber
get_webhook_subscriber_by_id id db = get id db.subscribers

-- An unknown id is an error.
unfoldable pub rotate_webhook_secret : ℕ → String → String → Tables → Outcome Unit String × Tables
rotate_webhook_secret now fresh id db = elim (get id db.subscribers) [
  | none ↦ (err tt, db)
  | some s ↦ (
    ok fresh,
    record db {
      subscribers =
          put id
            (record s {
              previous_secret = s.secret;
              secret = some fresh;
              secret_rotated_at = some now;
            })
            db.subscribers;
    },
  )
]

-- The row that the unique constraint speaks of.
abbrev pub same_event : String → String → String → WebhookDelivery → Bool
same_event event_type event_key subscriber_id d =
    d.event_type == event_type && (d.event_key == event_key && d.subscriber_id == subscriber_id)

unfoldable pub find_event :
    String → String → String → List (ℕ × WebhookDelivery) → Option (ℕ × WebhookDelivery)
find_event event_type event_key subscriber_id [] = none
find_event event_type event_key subscriber_id ((id, d) ∷ rows) =
    if same_event event_type event_key subscriber_id d
    then some (id, d)
    else find_event event_type event_key subscriber_id rows

-- A row of the same event and subscriber begins again; it keeps its target and what was reported.
unfoldable pub enqueue_webhook_delivery :
    ℕ → String → String → WebhookSubscriber → String → ℕ → Tables → WebhookDelivery × Tables
enqueue_webhook_delivery now event_type event_key s payload max_attempts db =
    elim (find_event event_type event_key s.id db.deliveries) [
      | some (id, d) ↦
          let row = record d {
            payload = payload;
            max_attempts = max_attempts;
            status = pending;
            attempt_count = 0;
            next_retry_at = now;
          } in
          (row, record db { deliveries = put id row db.deliveries })
      | none ↦
          let row : WebhookDelivery = record {
            id = db.issued;
            event_type = event_type;
            event_key = event_key;
            subscriber_id = s.id;
            target_url = s.url;
            payload = payload;
            status = pending;
            attempt_count = 0;
            max_attempts = max_attempts;
            next_retry_at = now;
            last_error = none;
            response_status = none;
            delivered_at = none;
          } in
          (row, record db { deliveries = put db.issued row db.deliveries; issued = db.issued + 1 })
    ]

abbrev pub is_pending : WebhookDelivery → Bool
is_pending d = elim d.status [ pending ↦ true | success ↦ false | failed ↦ false ]

-- By the time of the next retry; rows of the same time in their order.
unfoldable pub insert_due : WebhookDelivery → List WebhookDelivery → List WebhookDelivery
insert_due x [] = x ∷ []
insert_due x (y ∷ ys) =
    let later = insert_due x ys in
    if leb x.next_retry_at y.next_retry_at then x ∷ y ∷ ys else y ∷ later

unfoldable pub by_retry_time : List WebhookDelivery → List WebhookDelivery
by_retry_time [] = []
by_retry_time (x ∷ xs) = insert_due x (by_retry_time xs)

unfoldable pub get_pending_webhook_deliveries : ℕ → ℕ → Tables → List WebhookDelivery
get_pending_webhook_deliveries now limit db = take limit (
    by_retry_time (
      select (λ (d : WebhookDelivery). is_pending d && leb d.next_retry_at now)
        (values db.deliveries)))

-- An update of the row of an id, if there is one.
abbrev pub change : (WebhookDelivery → WebhookDelivery) → ℕ → Tables → Tables
change f id db = elim (get id db.deliveries) [
  | none ↦ db
  | some d ↦ record db { deliveries = put id (f d) db.deliveries }
]

unfoldable pub mark_webhook_delivery_success : ℕ → ℕ → ℕ → Tables → Tables
mark_webhook_delivery_success now id response_status =
    change
      (λ d. record d {
        status = success;
        response_status = some response_status;
        delivered_at = some now;
      })
      id

unfoldable pub mark_webhook_delivery_failure : ℕ → ℕ → ℕ → ℕ → Failure → Option ℕ → Tables → Tables
mark_webhook_delivery_failure id attempt_count max_attempts next_retry_at message response_status =
    change
      (λ d. record d {
        attempt_count = attempt_count;
        status = if leb max_attempts attempt_count then failed else pending;
        next_retry_at = next_retry_at;
        last_error = some message;
        response_status = response_status;
      })
      id
