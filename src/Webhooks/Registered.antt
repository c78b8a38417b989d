-- ===== src/Webhooks/Registered.antt =====
-- What stays true of the subscribers that backend/src/webhooks/service.ts registers.
use daddy_config.Base.{
  text_equality, ◌≤◌, suc, Bool, true, false, none, some, List, [], ◌∷◌, String, ◌≡◌, ◌≢◌, refl,
  sym, ◌∙◌, ap, arith, ◌==◌, any, length, get, put, delete, values, Option-cases, Bool-cases, inl,
  inr, ◌||◌,
}
use mathlib.Core.Path.{subst, subst₂}
use text.Mathlib.Text.{starts_with}
use text.Mathlib.TextEquality.{eq_iff}
use daddy_config.Webhooks.Lookups.{length-put, length-delete, put-cases, kept}
use daddy_config.Webhooks.Store as Store
use daddy_config.Webhooks.Store.{EventType, WebhookSubscriber, WebhookStore, Stamp}
use daddy_config.Webhooks.Service.{
  WebhookRegistrationRequest, refused, register_webhook, unregister_webhook, bad_event,
  max_webhooks_per_account,
}

abbrev pub empty : WebhookStore
empty = record { webhooks = []; deliveries = []; dead_letters = [] }

-- A subscriber that the checks let through.
pub record Sound (key : String) (w : WebhookSubscriber) : Type 0 where
  pub named : w.id ≡ key
  pub https : starts_with w.url "https://" ≡ true
  pub some_event : ¬ (length w.events ≡ 0)
  pub known_events : bad_event w.events ≡ none
  pub active : w.active ≡ true

pub record Registered (s : WebhookStore) : Type 0 where
  pub few : length s.webhooks ≤ max_webhooks_per_account
  pub sound : (k : String) (w : WebhookSubscriber) → get k s.webhooks ≡ some w → Sound k w
  pub distinct :
      (j k : String) (v w : WebhookSubscriber)
      → get j s.webhooks ≡ some v
      → get k s.webhooks ≡ some w
      → v.url ≡ w.url
      → j ≡ k

pub data Call : Type 0 where
  register : Stamp → WebhookRegistrationRequest → Call
  unregister : String → Call

abbrev pub call : (String → Bool) → Call → WebhookStore → WebhookStore
call valid_url (register stamp r) s = (register_webhook valid_url stamp r s).1
call valid_url (unregister id) s = (unregister_webhook id s).1

abbrev pub run : (String → Bool) → List Call → WebhookStore → WebhookStore
run valid_url [] s = s
run valid_url (c ∷ cs) s = run valid_url cs (call valid_url c s)

or_false : (a b : Bool) → (a || b) ≡ false → (a ≡ false) × (b ≡ false)
or_false a b h = ground arith

clash : {b : Bool} → b ≡ false → b ≢ true
clash h k = cc

length-values : (m : List (String × WebhookSubscriber)) → length (values m) ≡ length m
length-values [] = refl
length-values ((k, w) ∷ m) = ap (λ n. suc n) (length-values m)

-- A URL that no value has.
unseen :
    (url k : String) (w : WebhookSubscriber) (m : List (String × WebhookSubscriber))
    → any (λ (v : WebhookSubscriber). v.url == url) (values m) ≡ false
    → get k m ≡ some w
    → (w.url == url) ≡ false
unfolding get
unseen url k w [] h g = cc
unseen url k w ((j, v) ∷ m) h g =
    let (here, later) = or_false (v.url == url) _ h in
    elim (Bool-cases (j == k)) [
      | inl same ↦
          let found : some v ≡ some w = rw (same, get) at g in
          let v≡w : v ≡ w = cc found in
          subst (λ (x : WebhookSubscriber). (x.url == url) ≡ false) v≡w here
      | inr other ↦ unseen url k w m later (rw (other, get) at g)
    ]

Sound-put :
    (id k : String) (w v : WebhookSubscriber) (s : WebhookStore)
    → Registered s
    → Sound id w
    → get k (put id w s.webhooks) ≡ some v
    → Sound k v
Sound-put id k w v s h fine g = elim (put-cases id k w v s.webhooks g) [
  | inl (at, same) ↦ subst₂ Sound at same fine
  | inr old ↦ h.sound k v old
]

module _ (id : String) (w : WebhookSubscriber) (s : WebhookStore) (h : Registered s)
    (fresh : any (λ (v : WebhookSubscriber). v.url == w.url) (values s.webhooks) ≡ false) where
  new_url :
      (k : String) (v u : WebhookSubscriber) → get k s.webhooks ≡ some v → w ≡ u → v.url ≢ u.url
  new_url k v u g same e =
      let e' : v.url ≡ w.url = cc in
      clash (unseen w.url k v s.webhooks fresh g) ((eq_iff v.url w.url).1 e')

  distinct-put :
      (j k : String) (v u : WebhookSubscriber)
      → get j (put id w s.webhooks) ≡ some v
      → get k (put id w s.webhooks) ≡ some u
      → v.url ≡ u.url
      → j ≡ k
  distinct-put j k v u g f e = elim (put-cases id j w v s.webhooks g) [
    | inl (at_j, is_v) ↦ elim (put-cases id k w u s.webhooks f) [
      | inl (at_k, is_u) ↦ sym at_j ∙ at_k
      | inr old_u ↦ absurd (new_url k u v old_u is_v (sym e))
    ]
    | inr old_v ↦ elim (put-cases id k w u s.webhooks f) [
      | inl (at_k, is_u) ↦ absurd (new_url j v u old_v is_u e)
      | inr old_u ↦ h.distinct j k v u old_v old_u e
    ]
  ]

  Registered-put :
      suc (length s.webhooks) ≤ max_webhooks_per_account
      → Sound id w
      → Registered (record s { webhooks = put id w s.webhooks })
  Registered-put room fine = record {
    few = omega (arith, length-put id w s.webhooks, room);
    sound = λ k v g. Sound-put id k w v s h fine g;
    distinct = distinct-put;
  }

Registered-delete :
    (s : WebhookStore) (id : String)
    → Registered s
    → Registered (record s { webhooks = delete id s.webhooks })
Registered-delete s id h = record {
  few = omega (arith, length-delete id s.webhooks, h.few);
  sound = λ k v g. h.sound k v (kept id k v v s.webhooks g);
  distinct = λ j k u v g f e.
      h.distinct j k u v (kept id j u u s.webhooks g) (kept id k v v s.webhooks f) e;
}

passed :
    (r : WebhookRegistrationRequest) (s : WebhookStore)
    → refused r s ≡ none
    → (starts_with r.url "https://" ≡ true)
      × (¬ (length r.events ≡ 0))
      × (bad_event r.events ≡ none)
      × (suc (length (values s.webhooks)) ≤ max_webhooks_per_account)
unfolding refused
passed r s h = ground arith

register-Registered :
    (valid_url : String → Bool) (stamp : Stamp) (r : WebhookRegistrationRequest) (s : WebhookStore)
    → Registered s
    → Registered (register_webhook valid_url stamp r s).1
unfolding register_webhook Store.register_webhook
register-Registered valid_url stamp r s h = elim (Option-cases (refused r s)) [
  | inr (e, refusal) ↦ rw (refusal, register_webhook) h
  | inl clear ↦
      rw (clear, register_webhook)
        (elim (Bool-cases (valid_url r.url)) [
          | inr bad ↦ rw (bad, Store.register_webhook) h
          | inl good ↦
              elim (Bool-cases
                (any (λ (w : WebhookSubscriber). w.url == r.url) (values s.webhooks))) [
                  | inl seen ↦ rw (good, Store.register_webhook) (rw seen h)
                  | inr fresh ↦
                      let (https, some_event, known_events, room) = passed r s clear in
                      rw (good, Store.register_webhook)
                        (rw fresh (
                          Registered-put stamp.id _ s h fresh
                            (omega (arith, room, length-values s.webhooks))
                            (record {
                              named = refl;
                              https = https;
                              some_event = some_event;
                              known_events = known_events;
                              active = refl;
                            })))
                ]
        ])
]

call-Registered :
    (valid_url : String → Bool) (c : Call) (s : WebhookStore)
    → Registered s
    → Registered (call valid_url c s)
unfolding Store.unregister_webhook
call-Registered valid_url (register stamp r) s h = register-Registered valid_url stamp r s h
call-Registered valid_url (unregister id) s h = Registered-delete s id h

run-Registered :
    (valid_url : String → Bool) (cs : List Call) (s : WebhookStore)
    → Registered s
    → Registered (run valid_url cs s)
run-Registered valid_url [] s h = h
run-Registered valid_url (c ∷ cs) s h =
    run-Registered valid_url cs (call valid_url c s) (call-Registered valid_url c s h)

empty-Registered : Registered empty
unfolding get
empty-Registered = record { few = omega arith; sound = λ k w g. cc; distinct = λ j k v w g f e. cc }

-- After any registrations and removals on an empty store there are at most ten subscribers, each
-- under its own id, active, with an HTTPS address and at least one event, all of its events
-- among the six, and no two of them have one address. This holds whatever the fresh ids are.
pub run-empty-Registered :
    (valid_url : String → Bool) (cs : List Call) → Registered (run valid_url cs empty)
run-empty-Registered valid_url cs = run-Registered valid_url cs empty empty-Registered
