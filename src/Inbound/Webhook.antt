-- ===== src/Inbound/Webhook.antt =====
-- `handleWebhook` of backend/src/webhook-handler.ts as a whole: the checks, the log with the check for
-- suspicious patterns of backend/src/webhook-logger.ts, and the dispatch on the event.
use daddy_config.Base.{
  text_equality, ℕ, ◌+◌, ◌*◌, Bool, true, Option, none, some, List, [], ◌∷◌, ◌++◌, String, Outcome,
  ok, err, if◌then◌else◌, ltb, ◌==◌, ◌&&◌, not, or_else, length, select,
}
use daddy_config.Inbound.Gate.{
  Env, Reason, Verdict, WebhookRequest, is_logged, refused, duplicate, admitted, gate,
}
use daddy_config.Inbound.Payload.{
  Payload, World, Moment, WebhookLog, Pattern, many_webhooks, failed_verifications, HandlerError,
  admin_required, Answer, turned_away, logging_failed, already_seen, processed, unknown_event,
  not_authorized, server_error, or_text,
}
use daddy_config.Inbound.Handlers.{
  Handled, handle_deposit_update, handle_withdrawal_update, handle_kyc_update,
  handle_remittance_created, handle_sep24_update, handle_daily_limit_updated, handle_dispute_raised,
  handle_dispute_resolved,
}

-- `received_at > NOW() - INTERVAL`, in milliseconds.
abbrev pub recent : ℕ → ℕ → WebhookLog → Bool
recent now span l = ltb now (l.received_at + span)

unfoldable pub check_suspicious_patterns : ℕ → String → String → List WebhookLog → List Pattern
check_suspicious_patterns now anchor transaction logs =
    let same =
      select
        (λ (l : WebhookLog).
          l.anchor_id == anchor
          && (l.transaction_id == transaction && recent now (5 * 60 * 1000) l))
        logs in
    let bad =
      select
        (λ (l : WebhookLog).
          l.anchor_id == anchor && (not l.verified && recent now (60 * 60 * 1000) l))
        logs in
    (if ltb 3 (length same) then many_webhooks ∷ [] else [])
    ++ (if ltb 10 (length bad) then failed_verifications ∷ [] else [])

-- The entry of the log, and the patterns if there are any.
unfoldable pub logged : ℕ → String → Payload → World → World
logged now anchor p w =
    let transaction =
      or_else (or_text p.transaction_id (or_text p.remittance_id (some "unknown"))) "" in
    let entry : WebhookLog = record {
      anchor_id = anchor;
      transaction_id = transaction;
      event_type = p.event_type;
      verified = true;
      received_at = now;
    } in
    let logs = w.logs ++ entry ∷ [] in
    let patterns = check_suspicious_patterns now anchor transaction logs in
    record w {
      logs = logs;
      patterns = elim patterns [ [] ↦ w.patterns | x ∷ xs ↦ w.patterns ++ (anchor, x ∷ xs) ∷ [] ];
    }

pub data EventKind : Type 0 where
  deposit_update withdrawal_update kyc_update contract_created sep24_update : EventKind
  daily_limit_updated dispute_raised dispute_resolved : EventKind

-- The cases of the `switch`.
abbrev pub kind_of_event : String → Option EventKind
kind_of_event text =
    if text == "deposit_update"
    then some deposit_update
    else if text == "withdrawal_update"
    then some withdrawal_update
    else if text == "kyc_update"
    then some kyc_update
    else if text == "contract_created"
    then some contract_created
    else if text == "sep24_deposit_update"
    then some sep24_update
    else if text == "sep24_withdrawal_update"
    then some sep24_update
    else if text == "daily_limit_updated"
    then some daily_limit_updated
    else if text == "dispute_raised"
    then some dispute_raised
    else if text == "dispute_resolved"
    then some dispute_resolved
    else none

unfoldable pub handle : Moment → String → EventKind → Payload → World → Handled
handle m anchor deposit_update p w = handle_deposit_update m p w
handle m anchor withdrawal_update p w = handle_withdrawal_update m p w
handle m anchor kyc_update p w = handle_kyc_update m p anchor w
handle m anchor contract_created p w = handle_remittance_created m p w
handle m anchor sep24_update p w = handle_sep24_update m p w
handle m anchor daily_limit_updated p w = handle_daily_limit_updated m p w
handle m anchor dispute_raised p w = handle_dispute_raised m p w
handle m anchor dispute_resolved p w = handle_dispute_resolved m p w

-- The answer to a handler's outcome: an error of authorization is 403, any other 500.
abbrev pub answered : Outcome HandlerError (Unit {0}) → Answer
answered (ok _) = processed
answered (err admin_required) = not_authorized
answered (err _) = server_error

unfoldable pub process : Moment → String → Payload → World → Answer × World
process m anchor p w = elim (kind_of_event p.event_type) [
  | none ↦ (unknown_event, w)
  | some kind ↦ let (outcome, after) = handle m anchor kind p w in (answered outcome, after)
]

-- A refusal is answered after it is logged, and a log that fails is caught as any other error.
abbrev pub refusal : Env → Reason → Answer
refusal env reason =
    if is_logged reason && not (env.logs_webhook_id "unknown")
    then logging_failed reason
    else turned_away reason

abbrev pub proceed : Env → Verdict → Moment → String → Payload → World → Answer × World
proceed env (refused reason) m anchor p w = (refusal env reason, w)
proceed env duplicate m anchor p w = (already_seen, w)
proceed env admitted m anchor p w = process m anchor p (logged m.now anchor p w)

unfoldable pub handle_webhook : Env → Moment → WebhookRequest → Payload → World → Answer × World
handle_webhook env m r p w =
    let (verdict, checked) = gate env m.now r w.gate in
    proceed env verdict m r.anchor_id p (record w { gate = checked })
