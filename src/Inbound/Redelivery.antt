-- ===== src/Inbound/Redelivery.antt =====
-- A webhook of backend/src/webhook-handler.ts that failed, and comes again.
use mathlib.Core.Path.{subst}
use daddy_config.Base.{
  text_equality, pair_equality, true, false, some, String, get, has, ◌≡◌, refl, sym, inl, inr,
  Option-cases, Bool-cases, ◌&&◌, not, ◌≢◌, arith,
}
use daddy_config.Transactions.State.{TransactionKind}
use daddy_config.Inbound.Gate.{
  Env, Verdict, Reason, is_logged, Anchor, refused, duplicate, admitted, gate, missing, key_of,
  validate_timestamp,
}
use daddy_config.Inbound.Nonces.{gate-leaves, seen-duplicate}
use daddy_config.Inbound.Payload.{
  Payload, World, Moment, server_error, already_seen, turned_away, logging_failed,
}
use daddy_config.Inbound.Handlers.{
  handle_update, handle_kyc_update, set_status, handle_dispute_raised, handle_dispute_resolved,
  handle_remittance_created, handle_sep24_update, handle_daily_limit_updated,
}
use daddy_config.Inbound.Webhook.{
  EventKind, deposit_update, withdrawal_update, kyc_update, contract_created, sep24_update,
  daily_limit_updated, dispute_raised, dispute_resolved, handle, process, logged, proceed, refusal,
  handle_webhook, kind_of_event,
}
use daddy_config.Inbound.Runs.{Delivery, deliver}

update-gate :
    (m : Moment) (kind : TransactionKind) (p : Payload) (w : World)
    → (handle_update m kind p w).1.gate ≡ w.gate
unfolding handle_update
update-gate m kind p w = ground arith

kyc-gate :
    (m : Moment) (p : Payload) (a : String) (w : World)
    → (handle_kyc_update m p a w).1.gate ≡ w.gate
unfolding handle_kyc_update
kyc-gate m p a w = ground arith

raised-gate : (m : Moment) (p : Payload) (w : World) → (handle_dispute_raised m p w).1.gate ≡ w.gate
unfolding handle_dispute_raised set_status
raised-gate m p w = ground arith

resolved-gate :
    (m : Moment) (p : Payload) (w : World) → (handle_dispute_resolved m p w).1.gate ≡ w.gate
unfolding handle_dispute_resolved set_status
resolved-gate m p w = ground arith

others :
    (m : Moment) (p : Payload) (w : World)
    → ((handle_remittance_created m p w).1.gate ≡ w.gate)
      × ((handle_sep24_update m p w).1.gate ≡ w.gate)
      × ((handle_daily_limit_updated m p w).1.gate ≡ w.gate)
unfolding handle_remittance_created handle_sep24_update handle_daily_limit_updated
others m p w = (ground arith, ground arith, ground arith)

handle-gate :
    (m : Moment) (anchor : String) (kind : EventKind) (p : Payload) (w : World)
    → (handle m anchor kind p w).1.gate ≡ w.gate
unfolding handle
handle-gate m anchor deposit_update p w = update-gate m _ p w
handle-gate m anchor withdrawal_update p w = update-gate m _ p w
handle-gate m anchor kyc_update p w = kyc-gate m p anchor w
handle-gate m anchor contract_created p w = (others m p w).0
handle-gate m anchor sep24_update p w = (others m p w).1
handle-gate m anchor daily_limit_updated p w = (others m p w).2
handle-gate m anchor dispute_raised p w = raised-gate m p w
handle-gate m anchor dispute_resolved p w = resolved-gate m p w

process-gate :
    (m : Moment) (anchor : String) (p : Payload) (w : World)
    → (process m anchor p w).1.gate ≡ w.gate
unfolding process
process-gate m anchor p w = elim (Option-cases (kind_of_event p.event_type)) [
  | inl unknown ↦ rw (unknown, process) refl
  | inr (kind, known) ↦ rw (known, process) (handle-gate m anchor kind p w)
]

unanswered : (env : Env) (reason : Reason) → refusal env reason ≢ server_error
unanswered env reason h =
    elim (Bool-cases (is_logged reason && not (env.logs_webhook_id "unknown"))) [
      | inl fails ↦ let e : logging_failed reason ≡ server_error = rw (fails, refusal) at h in cc e
      | inr logs ↦ let e : turned_away reason ≡ server_error = rw (logs, refusal) at h in cc e
    ]

-- A server error comes from a handler only, so that the request was admitted.
failed-admitted :
    (env : Env) (v : Verdict) (m : Moment) (anchor : String) (p : Payload) (w : World)
    → (proceed env v m anchor p w).0 ≡ server_error
    → (v ≡ admitted) × ((proceed env v m anchor p w).1.gate ≡ w.gate)
unfolding logged
failed-admitted env (refused reason) m anchor p w h = absurd (unanswered env reason h)
failed-admitted env duplicate m anchor p w h = absurd (cc h)
failed-admitted env admitted m anchor p w h =
    (refl, process-gate m anchor p (logged m.now anchor p w))

-- A webhook whose handler failed is answered as a duplicate, and changes nothing but the checks'
-- records, when it comes again with its headers, in time, and its anchor is known: the anchor's
-- retry of an answer 500 is lost.
pub failed-duplicate :
    (env : Env) (d d' : Delivery) (a : Anchor) (w : World)
    → (deliver env d w).0 ≡ server_error
    → key_of d'.request ≡ key_of d.request
    → missing d'.request ≡ false
    → validate_timestamp env d'.moment.now d'.request.timestamp ≡ true
    → get d'.request.anchor_id (deliver env d w).1.gate.anchors ≡ some a
    → ((deliver env d' (deliver env d w).1).0 ≡ already_seen)
      × ((deliver env d' (deliver env d w).1).1
          ≡ record (deliver env d w).1 { gate = (deliver env d' (deliver env d w).1).1.gate })
unfolding handle_webhook
failed-duplicate env d d' a w h same complete timely known =
    let checked = gate env d.moment.now d.request w.gate in
    let (through, gate_kept) =
      failed-admitted env checked.0 d.moment d.request.anchor_id d.payload
        (record w { gate = checked.1 }) h in
    let kept : has (key_of d'.request) (deliver env d w).1.gate.nonces ≡ true = rw gate_kept (
      subst (λ k. has k checked.1.nonces ≡ true) (sym same)
        (gate-leaves env d.moment.now d.request w.gate admitted (inl refl) through)) in
    let verdict =
      seen-duplicate env d'.moment.now d'.request a (deliver env d w).1.gate complete timely known
        kept in
    rw verdict (refl, refl)
