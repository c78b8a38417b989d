-- ===== src/Inbound/Payload.antt =====
-- The data of backend/src/webhook-handler.ts: what a webhook carries, and the tables that it reaches. A
-- field that is absent is `none`; a time is the one that its text says.
use daddy_config.Base.{
  text_equality, ℕ, Bool, Option, none, some, List, String, ◌==◌, if◌then◌else◌,
}
use daddy_config.Transactions.State as Transactions
use daddy_config.Transactions.State.{
  TransactionStatus, pending_user_transfer_start, pending_anchor, pending_stellar, pending_external,
  pending_trust, pending_user, completed, refunded, expired, error, disputed,
}
use daddy_config.Transactions.Update.{Faults, UpdateError}
use daddy_config.Kyc.Store.{KycDb}
use daddy_config.Inbound.Gate.{State, Reason}

pub record Payload : Type 0 where
  pub event_type : String
  pub transaction_id : Option String
  pub remittance_id : Option String
  pub status : String
  pub status_eta : Option ℕ
  pub amount_in : Option String
  pub amount_out : Option String
  pub amount_fee : Option String
  pub stellar_transaction_id : Option String
  pub external_transaction_id : Option String
  pub message : Option String
  pub kyc_status : String
  pub kyc_fields : Option String
  pub kyc_level : Option String
  pub rejection_reason : Option String
  pub user_id : Option String
  pub anchor_id : Option String
  pub verified_at : Option ℕ
  pub expires_at : Option ℕ
  pub sender : Option String
  pub agent : Option String
  pub amount : Option String
  pub fee : Option String
  pub expiry : Option String
  pub platform_fee : Option String
  pub protocol_fee : Option String
  pub net_amount : Option String
  pub failed_at : Option ℕ
  pub evidence_hash : Option String
  pub admin_id : Option String
  pub admin : Option String
  pub resolution : Option String
  pub currency : Option String
  pub country : Option String
  pub old_limit : Option String
  pub new_limit : Option String

-- `RemittanceCreatedWebhookPayload`, which is also the row of `contract_events`.
pub record CreatedPayload : Type 0 where
  pub remittance_id : String
  pub sender : String
  pub agent : String
  pub amount : String
  pub fee : String
  pub expiry : String
  pub platform_fee : Option String
  pub protocol_fee : Option String
  pub net_amount : Option String

-- A row of `sep24_transactions`, in the columns that a webhook changes.
pub record Sep24Row : Type 0 where
  pub status : TransactionStatus
  pub amount_in : Option String
  pub amount_out : Option String
  pub amount_fee : Option String
  pub stellar_transaction_id : Option String
  pub external_transaction_id : Option String
  pub message : Option String
  pub last_polled : Option ℕ

-- A row of `webhook_logs`.
pub record WebhookLog : Type 0 where
  pub anchor_id : String
  pub transaction_id : String
  pub event_type : String
  pub verified : Bool
  pub received_at : ℕ

pub record LimitChange : Type 0 where
  pub currency : Option String
  pub country : Option String
  pub old_limit : Option String
  pub new_limit : Option String
  pub admin_address : Option String

-- A row of `dispute_audit_log`: who raised a dispute, or who resolved it. Columns of the audit tables
-- that only copy the payload's sequence number and time are left out.
pub data DisputeEntry : Type 0 where
  raised : String → Option String → Option String → DisputeEntry
  resolved : String → Option String → DisputeEntry

pub data Pattern : Type 0 where
  many_webhooks failed_verifications : Pattern

pub record World : Type 0 where
  pub gate : State
  pub tx : Transactions.Db
  pub kyc : KycDb
  pub sep24 : List (String × Sep24Row)
  pub logs : List WebhookLog
  pub patterns : List (String × List Pattern)
  pub contract_events : List CreatedPayload
  pub dispatched : List CreatedPayload
  pub limit_changes : List LimitChange
  pub disputes : List DisputeEntry

-- What is not in the world: the time, the statements of the state manager that fail, whether the call of
-- the outbound dispatcher throws, whether an audit table is missing, and whether the statement on a
-- user's identity works, its columns apart.
pub record Moment : Type 0 where
  pub now : ℕ
  pub faults : Faults
  pub dispatch_fails : Bool
  pub audit_missing : Bool
  pub kyc_query_works : Bool

pub data HandlerError : Type 0 where
  transaction_not_found invalid_state_transition missing_transaction_id : HandlerError
  cannot_raise window_expired cannot_resolve admin_required : HandlerError
  kyc_status_invalid kyc_query_failed dispatch_failed : HandlerError
  missing_field : String → HandlerError
  update_failed : UpdateError → HandlerError

-- 400, 401, 403 and 404 by the reason, 500 where the log of the refusal failed, 200 for a duplicate,
-- 200, 400, 403, and 500 where a handler failed.
pub data Answer : Type 0 where
  turned_away : Reason → Answer
  logging_failed : Reason → Answer
  already_seen : Answer
  processed : Answer
  unknown_event : Answer
  not_authorized : Answer
  server_error : Answer

-- The status that a text names; any other is in no list of transitions.
abbrev pub status_of_text : String → Option TransactionStatus
status_of_text text =
    if text == "pending_user_transfer_start"
    then some pending_user_transfer_start
    else if text == "pending_anchor"
    then some pending_anchor
    else if text == "pending_stellar"
    then some pending_stellar
    else if text == "pending_external"
    then some pending_external
    else if text == "pending_trust"
    then some pending_trust
    else if text == "pending_user"
    then some pending_user
    else if text == "completed"
    then some completed
    else if text == "refunded"
    then some refunded
    else if text == "expired"
    then some expired
    else if text == "error"
    then some error
    else none

-- `a || b`.
abbrev pub or_text : Option String → Option String → Option String
or_text none b = b
or_text (some a) b = if a == "" then b else some a
