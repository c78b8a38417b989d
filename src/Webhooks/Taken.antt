-- ===== src/Webhooks/Taken.antt =====
-- A URL that `PostgresWebhookStore` of backend/src/webhooks/store.ts has once stored.
use text.Mathlib.TextEquality.{eq_iff}
use daddy_config.Base.{
  text_equality, ℕ, Bool, true, Option, List, [], ◌∷◌, ◌++◌, String, map, any, ◌==◌, ◌||◌, ok, err,
  ◌≡◌, refl, ap, arith, Bool-cases, inl, inr,
}
use daddy_config.Webhooks.Store.{
  EventType, Stamp, invalid_url, already_registered, DeliveryStatus, DeliveryError,
  WebhookDeliveryRecord,
}
use daddy_config.Webhooks.Postgres.{
  WebhookRow, PostgresStore, pg_register_webhook, pg_unregister_webhook, pg_record_delivery,
  pg_update_delivery_status, pg_send_to_dead_letter, pg_mark_dead_letter_replayed, deactivated,
}

-- The operations that write.
pub data Call : Type 0 where
  register : Stamp → String → List EventType → Option String → Call
  unregister : String → Call
  note_delivery : Stamp → WebhookDeliveryRecord → Call
  update_status : String → DeliveryStatus → ℕ → Option DeliveryError → Call
  bury : Stamp → WebhookDeliveryRecord → Call
  mark_replayed : ℕ → String → Call

abbrev pub call : (String → Bool) → Call → PostgresStore → PostgresStore
call valid_url (register stamp url events secret) s =
    (pg_register_webhook valid_url stamp url events secret s).1
call valid_url (unregister id) s = (pg_unregister_webhook id s).1
call valid_url (note_delivery stamp d) s = pg_record_delivery stamp d s
call valid_url (update_status id status attempt error) s =
    pg_update_delivery_status id status attempt error s
call valid_url (bury stamp d) s = pg_send_to_dead_letter stamp d s
call valid_url (mark_replayed now id) s = pg_mark_dead_letter_replayed now id s

abbrev pub run : (String → Bool) → List Call → PostgresStore → PostgresStore
run valid_url [] s = s
run valid_url (c ∷ cs) s = run valid_url cs (call valid_url c s)

abbrev is_taken : String → List WebhookRow → Bool
is_taken url = any (λ (w : WebhookRow). w.url == url)

is_taken-append :
    (url : String) (rows more : List WebhookRow)
    → is_taken url rows ≡ true
    → is_taken url (rows ++ more) ≡ true
is_taken-append url [] more h = absurd (cc h)
is_taken-append url (w ∷ rows) more h = elim (Bool-cases (w.url == url)) [
  | inl here ↦ rw here refl
  | inr other ↦
      let rest : is_taken url rows ≡ true = ground (arith, h, other) in
      rw other (is_taken-append url rows more rest)
]

is_taken-last : (w : WebhookRow) (rows : List WebhookRow) → is_taken w.url (rows ++ w ∷ []) ≡ true
is_taken-last w [] = rw ((eq_iff w.url w.url).1 refl) refl
is_taken-last w (v ∷ rows) = ground (arith, is_taken-last w rows)

is_taken-deactivated :
    (url id : String) (rows : List WebhookRow)
    → is_taken url (map (deactivated id) rows) ≡ is_taken url rows
is_taken-deactivated url id [] = refl
is_taken-deactivated url id (w ∷ rows) = elim (Bool-cases (w.id == id)) [
  | inl this ↦ rw this (ap (λ b. (w.url == url) || b) (is_taken-deactivated url id rows))
  | inr other ↦ rw other (ap (λ b. (w.url == url) || b) (is_taken-deactivated url id rows))
]

module _ (valid_url : String → Bool) (stamp : Stamp) (new : String) (events : List EventType)
    (secret : Option String) (s : PostgresStore) where
  register-taken :
      (url : String)
      → is_taken url s.webhooks ≡ true
      → is_taken url (pg_register_webhook valid_url stamp new events secret s).1.webhooks ≡ true
  unfolding pg_register_webhook
  register-taken url h = elim (Bool-cases (valid_url new)) [
    | inr bad ↦ rw (bad, pg_register_webhook) h
    | inl good ↦ elim (Bool-cases (is_taken new s.webhooks)) [
      | inl seen ↦ rw (good, pg_register_webhook) (rw seen h)
      | inr fresh ↦ rw (good, pg_register_webhook) (rw fresh (is_taken-append url s.webhooks _ h))
    ]
  ]

  register-taken_own :
      (row : WebhookRow)
      → (pg_register_webhook valid_url stamp new events secret s).0 ≡ ok row
      → (valid_url new ≡ true)
        × (is_taken new (pg_register_webhook valid_url stamp new events secret s).1.webhooks ≡ true)
  unfolding pg_register_webhook
  register-taken_own row done = elim (Bool-cases (valid_url new)) [
    | inr bad ↦
        let no : err invalid_url ≡ ok row = rw (bad, pg_register_webhook) at done in absurd (cc no)
    | inl good ↦ elim (Bool-cases (is_taken new s.webhooks)) [
      | inl seen ↦ (good, register-taken new seen)
      | inr fresh ↦ (good, rw (good, pg_register_webhook) (rw fresh (is_taken-last _ s.webhooks)))
    ]
  ]

  register-refused :
      valid_url new ≡ true
      → is_taken new s.webhooks ≡ true
      → (pg_register_webhook valid_url stamp new events secret s).0 ≡ err already_registered
  unfolding pg_register_webhook
  register-refused good seen = rw (good, pg_register_webhook) (rw seen refl)

call-taken :
    (valid_url : String → Bool) (c : Call) (url : String) (s : PostgresStore)
    → is_taken url s.webhooks ≡ true
    → is_taken url (call valid_url c s).webhooks ≡ true
unfolding pg_unregister_webhook pg_record_delivery pg_update_delivery_status pg_send_to_dead_letter
    pg_mark_dead_letter_replayed
call-taken valid_url (register stamp new events secret) url s h =
    register-taken valid_url stamp new events secret s url h
call-taken valid_url (unregister id) url s h = rw (is_taken-deactivated url id s.webhooks) h
call-taken valid_url (note_delivery stamp d) url s h = h
call-taken valid_url (update_status id status attempt error) url s h = h
call-taken valid_url (bury stamp d) url s h = h
call-taken valid_url (mark_replayed now id) url s h = h

run-taken :
    (valid_url : String → Bool) (cs : List Call) (url : String) (s : PostgresStore)
    → is_taken url s.webhooks ≡ true
    → is_taken url (run valid_url cs s).webhooks ≡ true
run-taken valid_url [] url s h = h
run-taken valid_url (c ∷ cs) url s h = run-taken valid_url cs url _ (call-taken valid_url c url s h)

-- After a registration that went through, no later one of the same URL does, whatever is done in
-- between, also when the webhook is unregistered.
pub registered_for_good :
    (valid_url : String → Bool) (stamp later : Stamp) (url : String)
    (events others : List EventType) (secret other : Option String) (s : PostgresStore)
    (row : WebhookRow) (cs : List Call)
    → (pg_register_webhook valid_url stamp url events secret s).0 ≡ ok row
    → (pg_register_webhook valid_url later url others other
        (run valid_url cs (pg_register_webhook valid_url stamp url events secret s).1)).0
      ≡ err already_registered
registered_for_good valid_url stamp later url events others secret other s row cs done =
    let (good, taken) = register-taken_own valid_url stamp url events secret s row done in
    register-refused valid_url later url others other _ good (run-taken valid_url cs url _ taken)
