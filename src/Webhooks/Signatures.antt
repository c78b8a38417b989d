-- ===== src/Webhooks/Signatures.antt =====
-- `verifySignature` of backend/src/webhooks/dispatcher.ts, against `generateHeaders`. What
-- `parseInt` makes of a text is an input.
use daddy_config.Base.{
  text_equality, ℕ, ◌≤◌, Bool, true, false, Option, none, some, String, ◌≡◌, ◌↔◌, refl, sym, arith,
  if◌then◌else◌, ltb, leb, ◌==◌,
}
use mathlib.Core.Path.{subst}
use text.Mathlib.TextEquality.{eq_iff}
use daddy_config.Base.Int.{ℤ, distance, pos}
use daddy_config.Webhooks.Store.{Stamp}
use daddy_config.Webhooks.Dispatcher.{Env, generate_headers, signed_text}

-- The answer for the time that was read and the comparison of the signatures.
unfoldable pub accepts : ℕ → ℕ → Option ℤ → Bool → Bool
accepts now window none same = false
accepts now window (some ts) same = if ltb window (distance now ts) then false else same

unfoldable pub verify_signature :
    (String → Option ℤ)
    → (String → String → String)
    → ℕ
    → String
    → String
    → String
    → String
    → ℕ
    → Bool
verify_signature parse_int hmac now payload signature timestamp secret window =
    accepts now window (parse_int timestamp)
      (hmac secret (signed_text timestamp payload) == signature)

in_window :
    (d window : ℕ) (same : Bool) → (if ltb window d then false else same) ≡ true → d ≤ window
in_window d window same h = ground arith

agreed : (d window : ℕ) (same : Bool) → (if ltb window d then false else same) ≡ true → same ≡ true
agreed d window same h = ground arith

both :
    (d window : ℕ) (same : Bool)
    → d ≤ window
    → same ≡ true
    → (if ltb window d then false else same) ≡ true
both d window same h k = ground arith

signed :
    (d window : ℕ) (same : Bool)
    → same ≡ true
    → (if ltb window d then false else same) ≡ leb d window
signed d window same h = ground arith

accepts_iff :
    (now window : ℕ) (read : Option ℤ) (x y : String)
    → (accepts now window read (x == y) ≡ true)
      ↔ ((ts : ℤ) × (read ≡ some ts) × (distance now ts ≤ window) × (y ≡ x))
unfolding accepts
accepts_iff now window none x y = (λ h. cc, λ (ts, h, _, _). cc)
accepts_iff now window (some ts) x y = (
  λ h. (
    ts,
    refl,
    in_window (distance now ts) window (x == y) h,
    sym ((eq_iff x y).0 (agreed (distance now ts) window (x == y) h)),
  ),
  λ (at, h, d, e).
      let same : at ≡ ts = cc (sym h) in
      both _ window _ (subst (λ z. distance now z ≤ window) same d) ((eq_iff x y).1 (sym e)),
)

-- A signature is accepted exactly if the timestamp is a number at most the window away from the
-- time now, and the signature is that of the timestamp and the payload under the secret.
pub verify_signature_iff :
    (parse_int : String → Option ℤ) (hmac : String → String → String) (now : ℕ)
    (payload signature timestamp secret : String) (window : ℕ)
    → (verify_signature parse_int hmac now payload signature timestamp secret window ≡ true) ↔ (
        (ts : ℤ) × (parse_int timestamp ≡ some ts)
        × (distance now ts ≤ window)
        × (signature ≡ hmac secret (signed_text timestamp payload)))
unfolding verify_signature
verify_signature_iff parse_int hmac now payload signature timestamp secret window =
    accepts_iff now window (parse_int timestamp) (hmac secret (signed_text timestamp payload))
      signature

-- A receiver who knows the secret accepts what the dispatcher signs exactly as long as the clocks'
-- difference is at most the window, if `parseInt` reads the time that was written.
pub headers_verify :
    (env : Env) (parse_int : String → Option ℤ) (stamp : Stamp) (now : ℕ)
    (payload secret content_type : String) (window : ℕ)
    → parse_int (env.show stamp.time) ≡ some (pos stamp.time)
    → let h = generate_headers env stamp payload secret content_type in
      verify_signature parse_int env.hmac now payload h.signature h.timestamp secret window
      ≡ leb (distance now (pos stamp.time)) window
unfolding verify_signature generate_headers accepts
headers_verify env parse_int stamp now payload secret content_type window reads =
    rw (reads, verify_signature)
      (signed (distance now (pos stamp.time)) window _ ((eq_iff _ _).1 refl))
