-- ===== src/Inbound/Tests.antt =====
-- The theorems on inbound webhooks at concrete inputs.
use Prim.Native.String
use daddy_config.Base.{
  none, String, text_equality, pair_equality, ◌≡◌, ◌≢◌, ◌↔◌, refl, true, false, some, [], ◌∷◌, get,
  put, ◌⊎◌, has,
}
use daddy_config.Base.Int.{pos}
use daddy_config.Inbound.Gate.{
  Anchor, WebhookRequest, Env, State, admitted, duplicate, refused, signature_invalid, gate,
  anchor_checks, last_checks, select_anchor, validate_timestamp, verify_hmac, key_of,
}
use daddy_config.Inbound.Admission.{Genuine, gate_admits}
use daddy_config.Transactions.State.{
  Transaction, TransactionStatus, deposit, error, disputed, refunded,
}
use daddy_config.Transactions.Update.{
  update_transaction_state, body, select_status, write_row, log_transition,
}
use daddy_config.Transactions.State.{validate_transition}
use daddy_config.Inbound.Payload.{Payload, World, Moment, server_error, already_seen}
use daddy_config.Inbound.Handlers.{handle_update, check_raise, write_raise, set_status}
use daddy_config.Inbound.Webhook.{
  handle_webhook, process, logged, handle, check_suspicious_patterns,
}
use daddy_config.Inbound.Lifecycle.{Moves}
use daddy_config.Inbound.Runs.{
  Delivery, deliver, deliver_all, deliver_all-Moves, forgery_changes, IsTurnedAway,
}
use daddy_config.Inbound.Redelivery.{failed-duplicate}
use daddy_config.Inbound.Nonces.{clear, run, run-once, forged-duplicate}

abbrev env : Env
env = record {
  parse_time = λ text. some (pos 1000);
  hmac = λ secret text. String.◌++◌ secret text;
  key_verifies = λ key text signature. false;
  toml_valid = λ domain key. false;
  logs_webhook_id = λ id. false;
}

abbrev north : Anchor
north = record { public_key = "G"; webhook_secret = some "key"; home_domain = some "north.example" }

abbrev start : State
start = record { anchors = ("north", north) ∷ []; nonces = []; processed = []; suspicious = [] }

abbrev genuine : WebhookRequest
genuine = record {
  signature = "key{}";
  timestamp = "t";
  nonce = "n";
  anchor_id = "north";
  raw_body = "{}";
}

abbrev forged : WebhookRequest
forged = record genuine { signature = "none" }

genuine_admitted : (gate env 1200 genuine start).0 ≡ admitted
unfolding gate anchor_checks last_checks select_anchor validate_timestamp verify_hmac get put
genuine_admitted = refl

forged-refused : (gate env 1200 forged start).0 ≡ refused signature_invalid
unfolding gate anchor_checks last_checks select_anchor validate_timestamp verify_hmac get put
forged-refused = refl

run-once_example :
    (gate env 1300 genuine (run env (clear ∷ []) (gate env 1200 genuine start).1)).0 ≢ admitted
run-once_example = run-once env 1200 1300 genuine genuine (clear ∷ []) start genuine_admitted refl

genuine_timely : validate_timestamp env 1300 "t" ≡ true
unfolding validate_timestamp
genuine_timely = refl

north_known : get "north" (run env [] (gate env 1200 forged start).1).anchors ≡ some north
unfolding gate anchor_checks last_checks select_anchor validate_timestamp verify_hmac get put
north_known = refl

forged-duplicate_example :
    (gate env 1300 genuine (run env [] (gate env 1200 forged start).1)).0 ≡ duplicate
forged-duplicate_example =
    forged-duplicate env 1200 1300 forged genuine north [] start forged-refused refl refl
      genuine_timely north_known

gate_admits_example :
    ((gate env 1200 genuine start).0 ≡ admitted) ↔ ((a : Anchor) × Genuine env 1200 genuine a start)
gate_admits_example = gate_admits env 1200 genuine start

abbrev row_at : TransactionStatus → Transaction
row_at status = record {
  kind = deposit;
  status = status;
  status_eta = none;
  amount_in = none;
  amount_out = none;
  amount_fee = none;
  stellar_transaction_id = none;
  external_transaction_id = none;
  message = none;
  kyc_status = none;
  kyc_fields = none;
  kyc_rejection_reason = none;
  updated_at = 1;
}

abbrev world_at : TransactionStatus → World
world_at status = record {
  gate = start;
  tx = record { transactions = ("tx", row_at status) ∷ []; history = [] };
  kyc = record { rows = []; calls = [] };
  sep24 = [];
  logs = [];
  patterns = [];
  contract_events = [];
  dispatched = [];
  limit_changes = [];
  disputes = [];
}

abbrev moment : Moment
moment = record {
  now = 1200;
  faults = record {
    at_begin = false;
    at_select = false;
    at_update = false;
    at_history = false;
    at_commit = false;
  };
  dispatch_fails = false;
  audit_missing = false;
  kyc_query_works = true;
}

abbrev update_to : String → String → Payload
update_to id status = record {
  event_type = "deposit_update";
  transaction_id = some id;
  remittance_id = none;
  status = status;
  status_eta = none;
  amount_in = none;
  amount_out = none;
  amount_fee = none;
  stellar_transaction_id = none;
  external_transaction_id = none;
  message = none;
  kyc_status = "";
  kyc_fields = none;
  kyc_level = none;
  rejection_reason = none;
  user_id = none;
  anchor_id = none;
  verified_at = none;
  expires_at = none;
  sender = none;
  agent = none;
  amount = none;
  fee = none;
  expiry = none;
  platform_fee = none;
  protocol_fee = none;
  net_amount = none;
  failed_at = none;
  evidence_hash = none;
  admin_id = none;
  admin = none;
  resolution = none;
  currency = none;
  country = none;
  old_limit = none;
  new_limit = none;
}

abbrev refund : Delivery
refund = record { moment = moment; request = genuine; payload = update_to "tx" "refunded" }

deliver_all-Moves_example :
    (row' : Transaction) × (get "tx"
        (deliver_all env (refund ∷ []) (world_at error)).tx.transactions
      ≡ some row')
    × (row'.kind ≡ deposit)
    × Moves deposit error row'.status
unfolding get
deliver_all-Moves_example =
    deliver_all-Moves env (refund ∷ []) (world_at error) "tx" (row_at error) refl

abbrev forgery : Delivery
forgery = record { moment = moment; request = forged; payload = update_to "tx" "refunded" }

forged_out : (a : Anchor) → ¬ (Genuine env 1200 forged a start)
forged_out a real = cc (forged-refused, (gate_admits env 1200 forged start).1 (a, real))

forgery_changes_example :
    IsTurnedAway (deliver env forgery (world_at error)).0
    × ((deliver env forgery (world_at error)).1
        ≡ record (world_at error) { gate = (deliver env forgery (world_at error)).1.gate })
    × ((deliver env forgery (world_at error)).1.gate.anchors ≡ start.anchors)
    × ((k : String × String)
        → (k ≢ key_of forged) ⊎ (has k start.nonces ≡ true)
        → get k (deliver env forgery (world_at error)).1.gate.nonces ≡ get k start.nonces)
forgery_changes_example = forgery_changes env forgery (world_at error) forged_out

-- An update of a transaction that is not there.
abbrev lost : Delivery
lost = record { moment = moment; request = genuine; payload = update_to "other" "refunded" }

lost_failed : (deliver env lost (world_at error)).0 ≡ server_error
unfolding handle_webhook gate anchor_checks last_checks select_anchor validate_timestamp verify_hmac
    get put process logged handle handle_update check_suspicious_patterns
lost_failed = refl

lost_timely : validate_timestamp env 1200 "t" ≡ true
unfolding validate_timestamp
lost_timely = refl

lost_anchor : get "north" (deliver env lost (world_at error)).1.gate.anchors ≡ some north
unfolding handle_webhook gate anchor_checks last_checks select_anchor validate_timestamp verify_hmac
    get put process logged handle handle_update check_suspicious_patterns
lost_anchor = refl

failed-duplicate_example :
    ((deliver env lost (deliver env lost (world_at error)).1).0 ≡ already_seen)
    × ((deliver env lost (deliver env lost (world_at error)).1).1
        ≡ record (deliver env lost (world_at error)).1 {
          gate = (deliver env lost (deliver env lost (world_at error)).1).1.gate;
        })
failed-duplicate_example =
    failed-duplicate env lost lost north (world_at error) lost_failed refl refl lost_timely
      lost_anchor

dispute_passes : check_raise 1200 (update_to "tx" "") "tx" (world_at error) ≡ none
unfolding check_raise get
dispute_passes = refl

abbrev refunded_row : Transaction
refunded_row = record (row_at refunded) { updated_at = 1200 }

-- A refund is recorded between the check of a dispute and its write, and is lost.
late_dispute_run :
    get "tx"
      (write_raise moment
        (update_to "tx" "")
        "tx"
        (deliver_all env (refund ∷ []) (world_at error))).tx.transactions
    ≡ some (record refunded_row { status = disputed })
unfolding handle_webhook gate anchor_checks last_checks select_anchor validate_timestamp verify_hmac
    get put process logged handle handle_update check_suspicious_patterns update_transaction_state
    body select_status write_row log_transition validate_transition set_status
late_dispute_run = refl
