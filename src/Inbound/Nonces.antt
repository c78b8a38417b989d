-- ===== src/Inbound/Nonces.antt =====
-- The nonces of the webhooks that get in, by backend/src/webhook-handler.ts.
use daddy_config.Base.{
  text_equality, pair_equality, ℕ, ◌+◌, Bool, true, false, none, some, List, [], ◌∷◌, String, ◌≡◌,
  ◌≢◌, ◌⊎◌, inl, inr, refl, sym, ◌∙◌, arith, get, put, get-put, has, Bool-cases, Option-cases,
  pair_equals_iff, put-there, ◌==◌,
}
use mathlib.Core.Path.{subst}
use daddy_config.Inbound.Gate.{
  Anchor, Verdict, refused, duplicate, admitted, WebhookRequest, Env, State, domain_fails, missing,
  key_of, nonce_ttl, nonce_recorded, last_checks, anchor_checks, gate, cleared, Reason,
  log_suspicious, validate_timestamp, select_anchor, signature_invalid,
}

clash : {b : Bool} → b ≡ false → b ≢ true
clash h k = cc

-- Either the table stays and the request is not admitted, or its nonce is new and is recorded.
abbrev Records : ℕ → WebhookRequest → State → Verdict × State → Type 0
Records now r s (v, s') =
    ((v ≢ admitted) × (v ≢ refused signature_invalid) × (s'.nonces ≡ s.nonces))
    ⊎ ((has (key_of r) s.nonces ≡ false) × (s'.nonces ≡ put (key_of r) (now + nonce_ttl) s.nonces))

last_checks-nonces :
    (env : Env) (r : WebhookRequest) (a : Anchor) (s : State)
    → (last_checks env r a s).1.nonces ≡ s.nonces
unfolding last_checks
last_checks-nonces env r a s = ground arith

log_suspicious-nonces :
    (env : Env) (anchor : String) (reason : Reason) (s : State)
    → (log_suspicious env anchor reason s).nonces ≡ s.nonces
log_suspicious-nonces env anchor reason s = ground arith

anchor_checks-Records :
    (env : Env) (now : ℕ) (r : WebhookRequest) (a : Anchor) (s : State)
    → Records now r s (anchor_checks env now r a s)
unfolding anchor_checks
anchor_checks-Records env now r a s = elim (Bool-cases (domain_fails env a)) [
  | inl fails ↦
      rw (fails, Records, anchor_checks)
        (inl (λ h. cc, λ h. cc, log_suspicious-nonces env r.anchor_id _ s))
  | inr passes ↦ elim (Bool-cases (validate_timestamp env now r.timestamp)) [
    | inr off ↦
        rw (passes, Records, anchor_checks)
          (rw off (inl (λ h. cc, λ h. cc, log_suspicious-nonces env r.anchor_id _ s)))
    | inl timely ↦ elim (Bool-cases (has (key_of r) s.nonces)) [
      | inl known ↦
          rw (passes, Records, anchor_checks) (rw timely (rw known (inl (λ h. cc, λ h. cc, refl))))
      | inr new ↦
          rw (passes, Records, anchor_checks)
            (rw timely (rw new (inr (refl, last_checks-nonces env r a (nonce_recorded now r s)))))
    ]
  ]
]

gate-Records :
    (env : Env) (now : ℕ) (r : WebhookRequest) (s : State) → Records now r s (gate env now r s)
unfolding gate
gate-Records env now r s = elim (Bool-cases (missing r)) [
  | inl incomplete ↦ rw (incomplete, Records, gate) (inl (λ h. cc, λ h. cc, refl))
  | inr complete ↦ elim (Option-cases (select_anchor r.anchor_id s)) [
    | inl unknown ↦ rw (complete, Records, gate) (rw unknown (inl (λ h. cc, λ h. cc, refl)))
    | inr (a, known) ↦ rw (complete, Records, gate) (rw known (anchor_checks-Records env now r a s))
  ]
]

-- The nonces that are there stay, and only the request's own is new.
pub gate-nonces :
    (env : Env) (now : ℕ) (r : WebhookRequest) (s : State) (k : String × String)
    → (k ≢ key_of r) ⊎ (has k s.nonces ≡ true)
    → get k (gate env now r s).1.nonces ≡ get k s.nonces
gate-nonces env now r s k other = elim (gate-Records env now r s) [
  | inl (_, _, same) ↦ rw same refl
  | inr (new, grown) ↦ rw grown (elim (Bool-cases (key_of r == k)) [
    | inl own ↦
        let is_k : key_of r ≡ k = (pair_equals_iff (key_of r) k).0 own in
        elim other [
          | inl apart ↦ absurd (apart (sym is_k))
          | inr there ↦ absurd (clash new (subst (λ j. has j s.nonces ≡ true) (sym is_k) there))
        ]
    | inr apart ↦ put-there (key_of r) k (now + nonce_ttl) s.nonces apart
  ])
]

last_checks-anchors :
    (env : Env) (r : WebhookRequest) (a : Anchor) (s : State)
    → (last_checks env r a s).1.anchors ≡ s.anchors
unfolding last_checks
last_checks-anchors env r a s = ground arith

anchor_checks-anchors :
    (env : Env) (now : ℕ) (r : WebhookRequest) (a : Anchor) (s : State)
    → (anchor_checks env now r a s).1.anchors ≡ s.anchors
unfolding anchor_checks
anchor_checks-anchors env now r a s =
    ground (arith, last_checks-anchors env r a (nonce_recorded now r s))

pub gate-anchors :
    (env : Env) (now : ℕ) (r : WebhookRequest) (s : State)
    → (gate env now r s).1.anchors ≡ s.anchors
unfolding gate
gate-anchors env now r s = elim (Bool-cases (missing r)) [
  | inl incomplete ↦ rw (incomplete, gate) refl
  | inr complete ↦ elim (Option-cases (select_anchor r.anchor_id s)) [
    | inl unknown ↦ rw (complete, gate) (rw unknown refl)
    | inr (a, known) ↦ rw (complete, gate) (rw known (anchor_checks-anchors env now r a s))
  ]
]

put-Seen :
    (k j : String × String) (n : ℕ) (m : List ((String × String) × ℕ))
    → has k m ≡ true
    → has k (put j n m) ≡ true
put-Seen k j n m h = ground (arith, get-put j k n m, h)

put-has :
    (k : String × String) (n : ℕ) (m : List ((String × String) × ℕ)) → has k (put k n m) ≡ true
put-has k n m = ground (arith, get-put k k n m, pair_equals_iff k k)

-- What comes to the handler: a request, or the clearing of the verifier's set.
pub data Event : Type 0 where
  request : ℕ → WebhookRequest → Event
  clear : Event

pub seen-duplicate :
    (env : Env) (now : ℕ) (r : WebhookRequest) (a : Anchor) (s : State)
    → missing r ≡ false
    → validate_timestamp env now r.timestamp ≡ true
    → get r.anchor_id s.anchors ≡ some a
    → has (key_of r) s.nonces ≡ true
    → (gate env now r s).0 ≡ duplicate
unfolding gate anchor_checks select_anchor
seen-duplicate env now r a s complete timely known seen =
    let found : select_anchor r.anchor_id s ≡ some (record a { home_domain = none }) =
      rw (known, select_anchor) refl in
    rw (complete, gate) (rw found (rw (timely, anchor_checks) (rw seen refl)))

module _ (env : Env) where
  abbrev pub step : Event → State → State
  step (request now r) s = (gate env now r s).1
  step clear s = cleared s

  abbrev pub run : List Event → State → State
  run [] s = s
  run (e ∷ es) s = run es (step e s)

  step-has :
      (k : String × String) (e : Event) (s : State)
      → has k s.nonces ≡ true
      → has k (step e s).nonces ≡ true
  step-has k clear s h = h
  step-has k (request now r) s h = elim (gate-Records env now r s) [
    | inl (_, _, same) ↦ rw same h
    | inr (_, grown) ↦ rw grown (put-Seen k (key_of r) _ s.nonces h)
  ]

  run-has :
      (k : String × String) (es : List Event) (s : State)
      → has k s.nonces ≡ true
      → has k (run es s).nonces ≡ true
  run-has k [] s h = h
  run-has k (e ∷ es) s h = run-has k es (step e s) (step-has k e s h)

  gate-known :
      (now : ℕ) (r : WebhookRequest) (s : State)
      → has (key_of r) s.nonces ≡ true
      → (gate env now r s).0 ≢ admitted
  gate-known now r s h = elim (gate-Records env now r s) [
    | inl (other, _, _) ↦ other
    | inr (new, _) ↦ absurd (clash new h)
  ]

  pub gate-leaves :
      (now : ℕ) (r : WebhookRequest) (s : State) (v : Verdict)
      → (v ≡ admitted) ⊎ (v ≡ refused signature_invalid)
      → (gate env now r s).0 ≡ v
      → has (key_of r) (gate env now r s).1.nonces ≡ true
  gate-leaves now r s v which at = elim (gate-Records env now r s) [
    | inl (not_in, not_bad, _) ↦ elim which [
      | inl e ↦ absurd (not_in (at ∙ e))
      | inr e ↦ absurd (not_bad (at ∙ e))
    ]
    | inr (_, grown) ↦ rw grown (put-has (key_of r) _ s.nonces)
  ]

-- Once a request has been admitted, no request with its nonce and anchor is admitted again, whatever
-- other requests come between and however often the verifier's set is cleared, while the table of
-- nonces is not purged.
pub run-once :
    (env : Env) (now now' : ℕ) (r r' : WebhookRequest) (es : List Event) (s : State)
    → (gate env now r s).0 ≡ admitted
    → key_of r' ≡ key_of r
    → (gate env now' r' (run env es (gate env now r s).1)).0 ≢ admitted
run-once env now now' r r' es s first same =
    let kept =
      run-has env (key_of r) es (gate env now r s).1
        (gate-leaves env now r s admitted (inl refl) first) in
    gate-known env now' r' _
      (subst (λ k. has k (run env es (gate env now r s).1).nonces ≡ true) (sym same) kept)

-- A request whose signature is refused uses up its nonce all the same: the genuine request with that
-- nonce and anchor, complete and in time, whose anchor is known, is answered as a duplicate, whatever
-- comes between, while the table of nonces is not purged.
pub forged-duplicate :
    (env : Env) (now now' : ℕ) (forged genuine : WebhookRequest) (a : Anchor) (es : List Event)
    (s : State)
    → (gate env now forged s).0 ≡ refused signature_invalid
    → key_of genuine ≡ key_of forged
    → missing genuine ≡ false
    → validate_timestamp env now' genuine.timestamp ≡ true
    → get genuine.anchor_id (run env es (gate env now forged s).1).anchors ≡ some a
    → (gate env now' genuine (run env es (gate env now forged s).1)).0 ≡ duplicate
forged-duplicate env now now' forged genuine a es s refusal same complete timely known =
    let kept =
      run-has env (key_of forged) es (gate env now forged s).1
        (gate-leaves env now forged s (refused signature_invalid) (inr refl) refusal) in
    seen-duplicate env now' genuine a _ complete timely known
      (subst (λ k. has k (run env es (gate env now forged s).1).nonces ≡ true) (sym same) kept)
