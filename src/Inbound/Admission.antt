-- ===== src/Inbound/Admission.antt =====
-- Which requests the checks of backend/src/webhook-handler.ts let through.
use daddy_config.Base.{
  text_equality, pair_equality, ℕ, Bool, true, false, none, some, ◌≡◌, ◌↔◌, refl, arith, get, has,
  if◌then◌else◌, not, contains, Bool-cases, Option-cases, inl, inr, ◌∙◌, sym, ◌≢◌,
}
use daddy_config.Inbound.Gate.{
  Anchor, Verdict, Reason, missing_headers, anchor_not_found, domain_fails, refused, duplicate,
  admitted, domain_invalid, timestamp_invalid, nonce_invalid, signature_invalid, WebhookRequest,
  Env, State, signature_valid, missing, key_of, nonce_recorded, validate_timestamp, select_anchor,
  last_checks, anchor_checks, gate,
}

-- The verdict of three tests, and of two.
three_pass :
    (fails timely known : Bool) (rest : Verdict × State) (s₁ s₂ s₃ : State)
    → let r : Verdict × State =
        if fails
        then (refused domain_invalid, s₁)
        else if not timely
        then (refused timestamp_invalid, s₂)
        else if known
        then (duplicate, s₃)
        else rest in
      (r.0 ≡ admitted) ↔ ((fails ≡ false) × (timely ≡ true) × (known ≡ false) × (rest.0 ≡ admitted))
three_pass fails timely known rest s₁ s₂ s₃ = ground arith

two_pass :
    (known good : Bool) (s₁ s₂ s₃ : State)
    → let r : Verdict × State =
        if known
        then (refused nonce_invalid, s₁)
        else if good
        then (admitted, s₂)
        else (refused signature_invalid, s₃) in
      (r.0 ≡ admitted) ↔ ((known ≡ false) × (good ≡ true))
two_pass known good s₁ s₂ s₃ = ground arith

last_checks_iff :
    (env : Env) (r : WebhookRequest) (a : Anchor) (s : State)
    → ((last_checks env r a s).0 ≡ admitted) ↔ (
        (contains s.processed r.nonce ≡ false)
        × (signature_valid env r a.public_key a.webhook_secret ≡ true))
unfolding last_checks
last_checks_iff env r a s = two_pass _ _ _ _ _

refused-admitted : {e : Reason} → refused e ≢ admitted
refused-admitted h = cc h

-- What is asked of a request from a known anchor.
pub record Genuine (env : Env) (now : ℕ) (r : WebhookRequest) (a : Anchor) (s : State)
    : Type 0 where
  pub complete : missing r ≡ false
  pub from_anchor : get r.anchor_id s.anchors ≡ some a
  pub timely : validate_timestamp env now r.timestamp ≡ true
  pub new_nonce : has (key_of r) s.nonces ≡ false
  pub not_processed : contains s.processed r.nonce ≡ false
  pub signed : signature_valid env r a.public_key a.webhook_secret ≡ true

anchor_checks_iff :
    (env : Env) (now : ℕ) (r : WebhookRequest) (a : Anchor) (s : State)
    → a.home_domain ≡ none
    → ((anchor_checks env now r a s).0 ≡ admitted) ↔ (
        (domain_fails env a ≡ false)
        × (validate_timestamp env now r.timestamp ≡ true)
        × (has (key_of r) s.nonces ≡ false)
        × ((last_checks env r a (nonce_recorded now r s)).0 ≡ admitted))
unfolding anchor_checks
anchor_checks_iff env now r a s no_domain = three_pass _ _ _ _ _ _ _

-- The row as it is selected.
abbrev selected : Anchor → Anchor
selected a = record a { home_domain = none }

module _ (env : Env) (now : ℕ) (r : WebhookRequest) (s : State) where
  gate_complete :
      (a : Anchor)
      → missing r ≡ false
      → get r.anchor_id s.anchors ≡ some a
      → gate env now r s ≡ anchor_checks env now r (selected a) s
  unfolding gate select_anchor
  gate_complete a complete known =
      let found : select_anchor r.anchor_id s ≡ some (selected a) =
        rw (known, select_anchor) refl in
      rw (complete, gate) (rw found refl)

  gate_unknown :
      missing r ≡ false
      → get r.anchor_id s.anchors ≡ none
      → (gate env now r s).0 ≡ refused anchor_not_found
  unfolding gate select_anchor
  gate_unknown complete unknown =
      let found : select_anchor r.anchor_id s ≡ none = rw (unknown, select_anchor) refl in
      rw (complete, gate) (rw found refl)

  gate_incomplete : missing r ≡ true → (gate env now r s).0 ≡ refused missing_headers
  unfolding gate
  gate_incomplete incomplete = rw (incomplete, gate) refl

  gate-Genuine : (gate env now r s).0 ≡ admitted → (a : Anchor) × Genuine env now r a s
  gate-Genuine h = elim (Bool-cases (missing r)) [
    | inl incomplete ↦ absurd (refused-admitted (sym (gate_incomplete incomplete) ∙ h))
    | inr complete ↦ elim (Option-cases (get r.anchor_id s.anchors)) [
      | inl unknown ↦ absurd (refused-admitted (sym (gate_unknown complete unknown) ∙ h))
      | inr (a, known) ↦
          let (_, timely, new, rest) =
            (anchor_checks_iff env now r (selected a) s refl).0
              (rw (gate_complete a complete known) at h) in
          let (fresh, signed) = (last_checks_iff env r (selected a) _).0 rest in
          (
            a,
            record {
              complete = complete;
              from_anchor = known;
              timely = timely;
              new_nonce = new;
              not_processed = fresh;
              signed = signed;
            },
          )
    ]
  ]

  Genuine-gate : (a : Anchor) → Genuine env now r a s → (gate env now r s).0 ≡ admitted
  Genuine-gate a g = rw (gate_complete a g.complete g.from_anchor) (
      (anchor_checks_iff env now r (selected a) s refl).1 (
        refl,
        g.timely,
        g.new_nonce,
        (last_checks_iff env r (selected a) (nonce_recorded now r s)).1 (g.not_processed, g.signed),
      ))

-- A request is admitted exactly if all its headers are there, its anchor is known, its time is in the
-- window, its nonce is neither in the table for that anchor nor in the verifier's set, and its
-- signature is valid for the anchor's secret or key. The anchor's domain plays no part.
pub gate_admits :
    (env : Env) (now : ℕ) (r : WebhookRequest) (s : State)
    → ((gate env now r s).0 ≡ admitted) ↔ ((a : Anchor) × Genuine env now r a s)
gate_admits env now r s = (gate-Genuine env now r s, λ (a, g). Genuine-gate env now r s a g)
