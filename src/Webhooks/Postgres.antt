-- ===== src/Webhooks/Postgres.antt =====
-- `PostgresWebhookStore` of backend/src/webhooks/store.ts. A statement is what its SQL says on the rows
-- in the order of insertion; ids and times come from the database and are inputs, and so is what
-- `JSON.parse` makes of a stored payload, which is none where it throws.
use daddy_config.Base.{
  text_equality, ℕ, ◌+◌, ◌*◌, Bool, true, false, Option, none, some, List, [], ◌∷◌, ◌++◌, String,
  map, select, contains, take, drop, any, if◌then◌else◌, ltb, leb, ◌==◌, ◌&&◌, not, Outcome, ok,
  err,
}
use daddy_config.Webhooks.Store.{
  EventType, Stamp, StoreError, invalid_url, already_registered, WebhookPayload, DeliveryStatus,
  DeliveryError, request_failed, WebhookDeliveryRecord, DeadLetterRecord, is_pending,
}

-- A row of `webhooks`.
pub record WebhookRow : Type 0 where
  pub id : String
  pub url : String
  pub events : List EventType
  pub secret : Option String
  pub active : Bool
  pub created_at : ℕ

-- A row of `webhook_deliveries`.
pub record DeliveryRow : Type 0 where
  pub delivery : WebhookDeliveryRecord
  pub created_at : ℕ

pub record PostgresStore : Type 0 where
  pub webhooks : List WebhookRow
  pub deliveries : List DeliveryRow
  pub dead_letters : List DeadLetterRecord

module _ {ℓ} {A : Type ℓ} (le : A → A → Bool) where
  unfoldable pub insert_by : A → List A → List A
  insert_by x [] = x ∷ []
  insert_by x (y ∷ ys) = let later = insert_by x ys in if le x y then x ∷ y ∷ ys else y ∷ later

  -- `ORDER BY`; equal rows in the order of insertion.
  unfoldable pub order_by : List A → List A
  order_by [] = []
  order_by (x ∷ xs) = insert_by x (order_by xs)

-- `secret || null`.
abbrev some_text : Option String → Option String
some_text none = none
some_text (some text) = if text == "" then none else some text

unfoldable pub pg_register_webhook :
    (String → Bool)
    → Stamp
    → String
    → List EventType
    → Option String
    → PostgresStore
    → Outcome StoreError WebhookRow × PostgresStore
pg_register_webhook valid_url stamp url events secret s =
    if not (valid_url url)
    then (err invalid_url, s)
    else if any (λ (w : WebhookRow). w.url == url) s.webhooks
    then (err already_registered, s)
    else (let row : WebhookRow = record {
      id = stamp.id;
      url = url;
      events = events;
      secret = some_text secret;
      active = true;
      created_at = stamp.time;
    } in
        (ok row, record s { webhooks = s.webhooks ++ row ∷ [] }))

abbrev pub deactivated : String → WebhookRow → WebhookRow
deactivated id w = if w.id == id then record w { active = false } else w

-- The row stays; the answer is whether there was one.
unfoldable pub pg_unregister_webhook : String → PostgresStore → Bool × PostgresStore
pg_unregister_webhook id s = (
  any (λ (w : WebhookRow). w.id == id) s.webhooks,
  record s { webhooks = map (deactivated id) s.webhooks },
)

abbrev first {ℓ} : {A : Type ℓ} → List A → Option A
first [] = none
first (x ∷ xs) = some x

abbrev pub pg_get_webhook : String → PostgresStore → Option WebhookRow
pg_get_webhook id s = first (select (λ (w : WebhookRow). w.id == id && w.active) s.webhooks)

unfoldable pub pg_get_all_webhooks : PostgresStore → List WebhookRow
pg_get_all_webhooks s =
    order_by (λ (v w : WebhookRow). leb w.created_at v.created_at)
      (select (λ (w : WebhookRow). w.active) s.webhooks)

unfoldable pub pg_get_subscribers : EventType → PostgresStore → List WebhookRow
pg_get_subscribers event s =
    order_by (λ (v w : WebhookRow). leb v.created_at w.created_at)
      (select (λ (w : WebhookRow). w.active && contains w.events event) s.webhooks)

unfoldable pub pg_record_delivery : Stamp → WebhookDeliveryRecord → PostgresStore → PostgresStore
pg_record_delivery stamp d s = record s {
  deliveries =
      s.deliveries
      ++ record { delivery = record d { id = stamp.id; error = none }; created_at = stamp.time }
        ∷ [];
}

-- `error || null`, which also forgets the last error.
abbrev some_error : Option DeliveryError → Option DeliveryError
some_error none = none
some_error (some (request_failed message)) =
    if message == "" then none else some (request_failed message)
some_error (some e) = some e

abbrev row_with_status :
    String → DeliveryStatus → ℕ → Option DeliveryError → DeliveryRow → DeliveryRow
row_with_status id status attempt error row =
    if row.delivery.id == id
    then record row {
      delivery = record row.delivery {
        status = status;
        attempt = attempt;
        error = some_error error;
      };
    }
    else row

unfoldable pub pg_update_delivery_status :
    String → DeliveryStatus → ℕ → Option DeliveryError → PostgresStore → PostgresStore
pg_update_delivery_status id status attempt error s = record s {
  deliveries = map (row_with_status id status attempt error) s.deliveries;
}

-- Seven days in milliseconds.
abbrev pub seven_days : ℕ
seven_days = 7 * 24 * 60 * 60 * 1000

-- The deliveries with their payloads as parsed, or none where one of them does not parse.
unfoldable pub parsed_rows :
    (WebhookPayload → Option WebhookPayload)
    → List DeliveryRow
    → Option (List WebhookDeliveryRecord)
parsed_rows parse [] = some []
parsed_rows parse (row ∷ rows) =
    let rest = parsed_rows parse rows in
    elim (parse row.delivery.payload) [
      | none ↦ none
      | some payload ↦ elim rest [
        | none ↦ none
        | some ds ↦ some (record row.delivery { payload = payload } ∷ ds)
      ]
    ]

unfoldable pub pg_get_pending_deliveries :
    (WebhookPayload → Option WebhookPayload)
    → ℕ
    → ℕ
    → PostgresStore
    → Option (List WebhookDeliveryRecord)
pg_get_pending_deliveries parse now limit s = parsed_rows parse (
    take limit (
      order_by (λ (v w : DeliveryRow). leb v.created_at w.created_at)
        (select
          (λ (row : DeliveryRow). is_pending row.delivery && ltb now (row.created_at + seven_days))
          s.deliveries)))

unfoldable pub pg_send_to_dead_letter :
    Stamp → WebhookDeliveryRecord → PostgresStore → PostgresStore
pg_send_to_dead_letter stamp d s = record s {
  dead_letters =
      s.dead_letters
      ++ record {
        id = stamp.id;
        delivery_id = d.id;
        webhook_id = d.webhook_id;
        event_type = d.event_type;
        payload = d.payload;
        last_error = some_error d.error;
        attempts = d.attempt;
        created_at = stamp.time;
        replayed_at = none;
      }
        ∷ [];
}

unfoldable pub pg_list_dead_letters : ℕ → ℕ → PostgresStore → List DeadLetterRecord
pg_list_dead_letters limit offset s = take limit (
    drop offset
      (order_by (λ (v w : DeadLetterRecord). leb w.created_at v.created_at) s.dead_letters))

unfoldable pub pg_mark_dead_letter_replayed : ℕ → String → PostgresStore → PostgresStore
pg_mark_dead_letter_replayed now id s = record s {
  dead_letters =
      map (λ (l : DeadLetterRecord). if l.id == id then record l { replayed_at = some now } else l)
        s.dead_letters;
}
