-- ===== src/Inbound/Gate.antt =====
-- The checks of `handleWebhook` in backend/src/webhook-handler.ts, up to its dispatch on the event, with
-- `WebhookVerifier` of backend/src/webhook-verifier.ts and `recordWebhookNonce` of
-- backend/src/database.ts. The reading of times, the HMAC, the check of a key's signature and the
-- check of an anchor's stellar.toml are inputs, and so is whether the table of suspicions, whose column
-- `webhook_id` is a UUID, takes a text in it.
use Prim.Native.String.{count}
use daddy_config.Base.{
  text_equality, pair_equality, ℕ, ◌+◌, ◌*◌, Bool, true, false, Option, none, some, List, [], ◌∷◌,
  ◌++◌, String, get, put, has, if◌then◌else◌, leb, eqb, ◌==◌, not, ◌||◌, contains,
}
use daddy_config.Base.Int.{ℤ, distance}

-- A row of `anchors`.
pub record Anchor : Type 0 where
  pub public_key : String
  pub webhook_secret : Option String
  pub home_domain : Option String

pub data Reason : Type 0 where
  missing_headers anchor_not_found domain_invalid timestamp_invalid nonce_invalid : Reason
  signature_invalid : Reason

-- `duplicate` is answered 200; `admitted` goes on to the dispatch.
pub data Verdict : Type 0 where
  refused : Reason → Verdict
  duplicate : Verdict
  admitted : Verdict

-- The headers, with the empty text for one that is not there, and the raw body.
pub record WebhookRequest : Type 0 where
  pub signature : String
  pub timestamp : String
  pub nonce : String
  pub anchor_id : String
  pub raw_body : String

pub record Env : Type 0 where
  pub parse_time : String → Option ℤ
  pub hmac : String → String → String
  pub key_verifies : String → String → String → Bool
  pub toml_valid : String → String → Bool
  pub logs_webhook_id : String → Bool

-- The tables of anchors and of nonces with their expiry, the verifier's set, and the suspicions logged.
pub record State : Type 0 where
  pub anchors : List (String × Anchor)
  pub nonces : List ((String × String) × ℕ)
  pub processed : List String
  pub suspicious : List (String × Reason)

-- Ten minutes.
abbrev pub timestamp_window : ℕ
timestamp_window = 10 * 60 * 1000

abbrev pub in_window : ℕ → Option ℤ → Bool
in_window now none = false
in_window now (some t) = leb (distance now t) timestamp_window

unfoldable pub validate_timestamp : Env → ℕ → String → Bool
validate_timestamp env now timestamp = in_window now (env.parse_time timestamp)

unfoldable pub verify_hmac : Env → String → String → String → Bool
verify_hmac env payload signature secret =
    let expected = env.hmac secret payload in
    if eqb (count signature) (count expected) then signature == expected else false

-- `SELECT public_key, webhook_secret`, from which `home_domain` is then read.
unfoldable pub select_anchor : String → State → Option Anchor
select_anchor id s = elim (get id s.anchors) [
  | none ↦ none
  | some a ↦ some (record a { home_domain = none })
]

-- A secret that is empty counts as none.
abbrev pub signature_valid : Env → WebhookRequest → String → Option String → Bool
signature_valid env r public_key none = env.key_verifies public_key r.raw_body r.signature
signature_valid env r public_key (some secret) =
    if secret == ""
    then env.key_verifies public_key r.raw_body r.signature
    else verify_hmac env r.raw_body r.signature secret

abbrev pub domain_fails : Env → Anchor → Bool
domain_fails env a = elim a.home_domain [
  | none ↦ false
  | some domain ↦ if domain == "" then false else not (env.toml_valid domain a.public_key)
]

abbrev pub missing : WebhookRequest → Bool
missing r = r.signature == "" || (r.timestamp == "" || (r.nonce == "" || r.anchor_id == ""))

abbrev pub key_of : WebhookRequest → String × String
key_of r = (r.nonce, r.anchor_id)

-- The row is inserted with the webhook id "unknown"; where the statement fails nothing is stored.
abbrev pub log_suspicious : Env → String → Reason → State → State
log_suspicious env anchor reason s =
    if env.logs_webhook_id "unknown"
    then record s { suspicious = s.suspicious ++ (anchor, reason) ∷ [] }
    else s

-- The refusals that are logged before they are answered.
abbrev pub is_logged : Reason → Bool
is_logged missing_headers = false
is_logged anchor_not_found = false
is_logged domain_invalid = true
is_logged timestamp_invalid = true
is_logged nonce_invalid = true
is_logged signature_invalid = true

-- A nonce is kept for a day.
abbrev pub nonce_ttl : ℕ
nonce_ttl = 86400 * 1000

-- `INSERT … ON CONFLICT (nonce, anchor_id) DO NOTHING`, where there was no conflict.
abbrev pub nonce_recorded : ℕ → WebhookRequest → State → State
nonce_recorded now r s = record s { nonces = put (key_of r) (now + nonce_ttl) s.nonces }

abbrev pub nonce_processed : WebhookRequest → State → State
nonce_processed r s = record s { processed = r.nonce ∷ s.processed }

-- After the nonce was recorded: the verifier's own set, which knows no anchor, and the signature.
unfoldable pub last_checks : Env → WebhookRequest → Anchor → State → Verdict × State
last_checks env r a s =
    if contains s.processed r.nonce
    then (refused nonce_invalid, log_suspicious env r.anchor_id nonce_invalid s)
    else if signature_valid env r a.public_key a.webhook_secret
    then (admitted, nonce_processed r s)
    else (
      refused signature_invalid,
      log_suspicious env r.anchor_id signature_invalid (nonce_processed r s),
    )

unfoldable pub anchor_checks : Env → ℕ → WebhookRequest → Anchor → State → Verdict × State
anchor_checks env now r a s =
    if domain_fails env a
    then (refused domain_invalid, log_suspicious env r.anchor_id domain_invalid s)
    else if not (validate_timestamp env now r.timestamp)
    then (refused timestamp_invalid, log_suspicious env r.anchor_id timestamp_invalid s)
    else if has (key_of r) s.nonces
    then (duplicate, s)
    else last_checks env r a (nonce_recorded now r s)

unfoldable pub gate : Env → ℕ → WebhookRequest → State → Verdict × State
gate env now r s =
    if missing r then (refused missing_headers, s) else elim (select_anchor r.anchor_id s) [
      | none ↦ (refused anchor_not_found, s)
      | some a ↦ anchor_checks env now r a s
    ]

-- `setInterval(() => processedNonces.clear())`.
abbrev pub cleared : State → State
cleared s = record s { processed = [] }
