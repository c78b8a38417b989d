-- ===== src/Inbound/Runs.antt =====
-- Sequences of the webhooks of backend/src/webhook-handler.ts.
use mathlib.Core.Path.{subst}
use daddy_config.Base.{
  text_equality, pair_equality, some, List, [], ◌∷◌, String, get, ◌≡◌, ◌≢◌, refl, ◌∙◌, inl, inr,
  true, has, not, ◌&&◌, ◌⊎◌, Bool-cases, Option-cases,
}
use daddy_config.Transactions.State.{Transaction, TransactionKind}
use daddy_config.Inbound.Gate.{
  Env, Anchor, WebhookRequest, Verdict, refused, duplicate, admitted, gate, key_of, is_logged,
}
use daddy_config.Inbound.Admission.{Genuine, gate_admits}
use daddy_config.Inbound.Nonces.{gate-anchors, gate-nonces}
use daddy_config.Inbound.Payload.{
  Payload, World, Moment, Answer, turned_away, logging_failed, already_seen, processed,
  unknown_event, not_authorized, server_error,
}
use daddy_config.Inbound.Webhook.{process, logged, proceed, refusal, handle_webhook, kind_of_event}
use daddy_config.Inbound.Lifecycle.{Moves, here, Moves-trans, Keeps, kept}
use daddy_config.Inbound.Sequences.{handle-Keeps}

-- A webhook that arrives.
pub record Delivery : Type 0 where
  pub moment : Moment
  pub request : WebhookRequest
  pub payload : Payload

-- An answer that no handler gave.
abbrev pub IsTurnedAway : Answer → Type 0
IsTurnedAway (turned_away reason) = Unit
IsTurnedAway (logging_failed reason) = Unit
IsTurnedAway already_seen = Unit
IsTurnedAway processed = ⊥
IsTurnedAway unknown_event = ⊥
IsTurnedAway not_authorized = ⊥
IsTurnedAway server_error = ⊥

abbrev pub deliver : Env → Delivery → World → Answer × World
deliver env d w = handle_webhook env d.moment d.request d.payload w

abbrev pub deliver_all : Env → List Delivery → World → World
deliver_all env [] w = w
deliver_all env (d ∷ ds) w = deliver_all env ds (deliver env d w).1

process-Keeps :
    (id : String) (row : Transaction) (m : Moment) (anchor : String) (p : Payload) (w : World)
    → get id w.tx.transactions ≡ some row
    → Keeps id row (process m anchor p w).1.tx
unfolding process
process-Keeps id row m anchor p w found = elim (Option-cases (kind_of_event p.event_type)) [
  | inl unknown ↦ rw (unknown, process) (kept id row w found w.tx refl)
  | inr (kind, known) ↦ rw (known, process) (handle-Keeps id row w found m anchor kind p)
]

proceed-Keeps :
    (env : Env) (id : String) (row : Transaction) (v : Verdict) (m : Moment) (anchor : String)
    (p : Payload) (w : World)
    → get id w.tx.transactions ≡ some row
    → Keeps id row (proceed env v m anchor p w).1.tx
unfolding logged
proceed-Keeps env id row (refused reason) m anchor p w found = kept id row w found w.tx refl
proceed-Keeps env id row duplicate m anchor p w found = kept id row w found w.tx refl
proceed-Keeps env id row admitted m anchor p w found =
    process-Keeps id row m anchor p (logged m.now anchor p w) found

-- Whatever webhooks arrive one after another, a transaction's row stays and keeps its kind, and its
-- status changes by valid transitions of that kind, from an error to a dispute, and from a dispute to
-- refunded or completed only.
pub deliver_all-Moves :
    (env : Env) (ds : List Delivery) (w : World) (id : String) (row : Transaction)
    → get id w.tx.transactions ≡ some row
    → (row' : Transaction) × (get id (deliver_all env ds w).tx.transactions ≡ some row')
      × (row'.kind ≡ row.kind)
      × Moves row.kind row.status row'.status
unfolding handle_webhook
deliver_all-Moves env [] w id row found = (row, found, refl, here)
deliver_all-Moves env (d ∷ ds) w id row found =
    let (s, at_s, kind_s, moves_s) =
      proceed-Keeps env id row (gate env d.moment.now d.request w.gate).0 d.moment
        d.request.anchor_id d.payload
        (record w { gate = (gate env d.moment.now d.request w.gate).1 }) found in
    let (t, at_t, kind_t, moves_t) = deliver_all-Moves env ds (deliver env d w).1 id s at_s in
    (
      t,
      at_t,
      kind_t ∙ kind_s,
      Moves-trans moves_s
          (subst (λ (k : TransactionKind). Moves k s.status t.status) kind_s moves_t),
    )

proceed-untouched :
    (env : Env) (v : Verdict) (m : Moment) (anchor : String) (p : Payload) (w : World)
    → v ≢ admitted
    → ((proceed env v m anchor p w).1 ≡ w) × (IsTurnedAway (proceed env v m anchor p w).0)
proceed-untouched env (refused reason) m anchor p w h = (
  refl,
  elim (Bool-cases (is_logged reason && not (env.logs_webhook_id "unknown"))) [
    | inl fails ↦ rw (fails, refusal) tt
    | inr logs ↦ rw (logs, refusal) tt
  ],
)
proceed-untouched env duplicate m anchor p w h = (refl, tt)
proceed-untouched env admitted m anchor p w h = absurd (h refl)

-- A request that is not genuine, because a header, the anchor, the time in the window, a new nonce or a
-- valid signature is missing, reaches no handler: it is turned away or answered as a duplicate, it
-- changes nothing outside the records of the checks, and of those it leaves the anchors, the nonces
-- that are there, and every nonce but its own.
pub forgery_changes :
    (env : Env) (d : Delivery) (w : World)
    → ((a : Anchor) → ¬ (Genuine env d.moment.now d.request a w.gate))
    → IsTurnedAway (deliver env d w).0
      × ((deliver env d w).1 ≡ record w { gate = (deliver env d w).1.gate })
      × ((deliver env d w).1.gate.anchors ≡ w.gate.anchors)
      × ((k : String × String)
          → (k ≢ key_of d.request) ⊎ (has k w.gate.nonces ≡ true)
          → get k (deliver env d w).1.gate.nonces ≡ get k w.gate.nonces)
unfolding handle_webhook
forgery_changes env d w forged =
    let g = gate env d.moment.now d.request w.gate in
    let out : g.0 ≢ admitted =
      λ e. let (a, real) = (gate_admits env d.moment.now d.request w.gate).0 e in forged a real in
    let (same, away) =
      proceed-untouched env g.0 d.moment d.request.anchor_id d.payload (record w { gate = g.1 })
        out in
    (
      away,
      rw same refl,
      rw same (gate-anchors env d.moment.now d.request w.gate),
      λ k other. rw same (gate-nonces env d.moment.now d.request w.gate k other),
    )
