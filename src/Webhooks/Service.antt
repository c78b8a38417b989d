-- ===== src/Webhooks/Service.antt =====
-- `WebhookService` of backend/src/webhooks/service.ts, on the in-memory store.
use daddy_config.Base.{
  text_equality, ℕ, Bool, Option, none, some, List, [], ◌∷◌, String, if◌then◌else◌, leb, ◌==◌, not,
  contains, eqb, length, Outcome, ok, err, map,
}
use text.Mathlib.Text.{starts_with}
use daddy_config.Webhooks.Store as Store
use daddy_config.Webhooks.Store.{
  EventType, WebhookSubscriber, WebhookPayload, WebhookStore, StoreError, Stamp,
}
use daddy_config.Webhooks.Dispatcher.{
  Env, World, Counts, default_options, dispatch, retry_pending_deliveries,
}

pub record WebhookRegistrationRequest : Type 0 where
  pub url : String
  pub events : List EventType
  pub secret : Option String

pub record WebhookRegistrationResponse : Type 0 where
  pub id : String
  pub url : String
  pub events : List EventType
  pub active : Bool
  pub created_at : ℕ

abbrev pub max_webhooks_per_account : ℕ
max_webhooks_per_account = 10

abbrev pub valid_events : List EventType
valid_events =
    "remittance.created" ∷ "remittance.updated" ∷ "remittance.completed" ∷ "remittance.failed"
    ∷ "remittance.cancelled" ∷ "kyc.expiry_warning" ∷ []

pub data ServiceError : Type 0 where
  url_required must_use_https no_events too_many_webhooks : ServiceError
  invalid_event_type : EventType → ServiceError
  in_store : StoreError → ServiceError

-- The first event that is none of the six.
abbrev pub bad_event : List EventType → Option EventType
bad_event [] = none
bad_event (e ∷ es) = if contains valid_events e then bad_event es else some e

abbrev pub response_of : WebhookSubscriber → WebhookRegistrationResponse
response_of w = record {
  id = w.id;
  url = w.url;
  events = w.events;
  active = w.active;
  created_at = w.created_at;
}

abbrev pub answer :
    Outcome StoreError WebhookSubscriber → Outcome ServiceError WebhookRegistrationResponse
answer (ok w) = ok (response_of w)
answer (err e) = err (in_store e)

-- The checks before the store is asked, in the code's order.
unfoldable pub refused : WebhookRegistrationRequest → WebhookStore → Option ServiceError
refused r s =
    if r.url == ""
    then some url_required
    else if not (starts_with r.url "https://")
    then some must_use_https
    else if eqb (length r.events) 0
    then some no_events
    else elim (bad_event r.events) [
      | some e ↦ some (invalid_event_type e)
      | none ↦
          if leb max_webhooks_per_account (length (Store.get_all_webhooks s))
          then some too_many_webhooks
          else none
    ]

unfoldable pub register_webhook :
    (String → Bool)
    → Stamp
    → WebhookRegistrationRequest
    → WebhookStore
    → Outcome ServiceError WebhookRegistrationResponse × WebhookStore
register_webhook valid_url stamp r s = elim (refused r s) [
  | some e ↦ (err e, s)
  | none ↦
      let (result, after) = Store.register_webhook valid_url stamp r.url r.events r.secret s in
      (answer result, after)
]

abbrev pub unregister_webhook : String → WebhookStore → Bool × WebhookStore
unregister_webhook id s = Store.unregister_webhook id s

abbrev pub get_webhook : String → WebhookStore → Option WebhookRegistrationResponse
get_webhook id s = elim (Store.get_webhook id s) [ none ↦ none | some w ↦ some (response_of w) ]

abbrev pub list_webhooks : WebhookStore → List WebhookRegistrationResponse
list_webhooks s = map response_of (Store.get_all_webhooks s)

pub data RemittanceStatus : Type 0 where
  pending processing completed failed cancelled : RemittanceStatus

abbrev pub event_of : RemittanceStatus → EventType
event_of pending = "remittance.created"
event_of processing = "remittance.updated"
event_of completed = "remittance.completed"
event_of failed = "remittance.failed"
event_of cancelled = "remittance.cancelled"

-- The time, the event's id and the data are texts that the caller's side makes.
unfoldable pub trigger_event : Env → EventType → String → String → String → World → Counts × World
trigger_event env event timestamp id data_text w =
    dispatch env default_options event
      (record {
        event = event;
        timestamp = timestamp;
        data_text = data_text;
        id = some id;
        correlation_id = none;
      })
      none w

abbrev pub on_remittance_status_change :
    Env → RemittanceStatus → String → String → String → World → Counts × World
on_remittance_status_change env status timestamp id data_text w =
    trigger_event env (event_of status) timestamp id data_text w

abbrev pub retry_pending : Env → World → World
retry_pending env w = retry_pending_deliveries env default_options 100 w
