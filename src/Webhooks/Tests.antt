-- ===== src/Webhooks/Tests.antt =====
-- The theorems on the webhooks at concrete inputs, and runs of them.
use Prim.Native.String
use daddy_config.Base.{
  ℕ, zero, suc, sym, ◌+◌, ◌≡◌, ◌≢◌, refl, true, Option, none, some, List, [], ◌∷◌, String, All,
  text_equality, if◌then◌else◌, ltb, leb, length, eqb, ◌==◌,
}
use mathlib.Core.Path.{ap}
use text.Mathlib.Text.{starts_with}
use text.Mathlib.TextEquality.{eq_iff}
use text.Mathlib.TextLemmas.{append_cancel_left, append-eq-nil_iff}
use daddy_config.Base.Int.{ℤ, distance, pos}
use daddy_config.Webhooks.Store.{WebhookSubscriber, WebhookPayload, get_subscribers, http_status}
use daddy_config.Webhooks.Dispatcher.{
  Env, World, Target, answered, default_options, target_of, new_delivery, attempt_delivery,
  dispatch, generate_headers,
}
use daddy_config.Webhooks.Attempts.{Ending, first_success, attempt_delivery-Ending}
use daddy_config.Webhooks.Dispatch.{IsFresh, dispatch-counts, dispatch-letters}
use daddy_config.Webhooks.Signatures.{verify_signature, headers_verify}
use daddy_config.Base.{Bool, err, get, put, delete}
use daddy_config.Webhooks.Store as Store
use daddy_config.Webhooks.Store.{Stamp, already_registered, WebhookStore}
use daddy_config.Webhooks.Postgres.{PostgresStore, WebhookRow, pg_register_webhook}
use daddy_config.Webhooks.Taken as Taken
use daddy_config.Webhooks.Taken.{registered_for_good}
use daddy_config.Webhooks.Registered.{
  Registered, Call, register, unregister, run, empty, run-empty-Registered,
}

-- The `n`-th id: as many letters.
tally : ℕ → String
tally zero = ""
tally (suc n) = String.◌++◌ "x" (tally n)

-- Two answers 500, then 200. Ids by number; a time that is written is 1000.
abbrev env : Env
env = record {
  reply = λ n. if ltb n 2 then answered 500 else answered 200;
  stamp = λ n. record { id = tally n; time = 1000 };
  hmac = λ secret text. String.◌++◌ secret text;
  serialize = λ form p. p.data_text;
  show = λ n. if eqb n 1000 then "1000" else "0";
}

abbrev shop : WebhookSubscriber
shop = record {
  id = "shop";
  url = "https://shop.example/hook";
  events = "remittance.completed" ∷ [];
  secret = "key";
  active = true;
  content_type = none;
  created_at = 1;
}

abbrev paid : WebhookPayload
paid = record {
  event = "remittance.completed";
  timestamp = "t";
  data_text = "{}";
  id = some "e";
  correlation_id = none;
}

abbrev world : World
world = record {
  store = record { webhooks = ("shop", shop) ∷ []; deliveries = []; dead_letters = [] };
  in_flight = 0;
  drawn = 0;
  requests = [];
  waits = [];
}

abbrev target : Target
target = target_of "a" shop (new_delivery default_options "remittance.completed" paid shop)

attempt_delivery-Ending_example :
    Ending env default_options "a" 1 2
      (first_success env.reply 0 3)
      world
      (attempt_delivery env default_options target 1 world)
attempt_delivery-Ending_example = attempt_delivery-Ending env default_options target 1 world refl

dispatch-counts_example :
    let r = dispatch env default_options "remittance.completed" paid none world in
    (r.0.0 + r.0.1 ≡ length (get_subscribers "remittance.completed" world.store))
    × (r.1.in_flight ≡ 0)
dispatch-counts_example = dispatch-counts env default_options "remittance.completed" paid none world

letter-ne-empty : (t : String) → String.◌++◌ "x" t ≢ ""
letter-ne-empty t h = cc ((eq_iff "x" "").1 ((append-eq-nil_iff).0 h).0)

tally_inj : (i j : ℕ) → tally i ≡ tally j → i ≡ j
unfolding tally
tally_inj zero zero h = refl
tally_inj zero (suc j) h = absurd (letter-ne-empty (tally j) (sym h))
tally_inj (suc i) zero h = absurd (letter-ne-empty (tally i) h)
tally_inj (suc i) (suc j) h = ap suc (tally_inj i j (append_cancel_left "x" _ _ h))

world-IsFresh : IsFresh env world
unfolding get
world-IsFresh = record { distinct = tally_inj; unused = λ k h. refl }

shop_https :
    All
      (λ (s : WebhookSubscriber). starts_with s.url "https://" ≡ true)
      (get_subscribers "remittance.completed" world.store)
unfolding get_subscribers
shop_https = (refl, tt)

dispatch-letters_example :
    let r = dispatch env default_options "remittance.completed" paid none world in
    length r.1.store.dead_letters ≡ 0 + r.0.1
dispatch-letters_example =
    dispatch-letters env default_options "remittance.completed" paid none world world-IsFresh
      shop_https

abbrev parse : String → Option ℤ
parse text = if text == "1000" then some (pos 1000) else none

headers_verify_example :
    let h = generate_headers env (env.stamp 0) "{}" "key" "application/json" in
    verify_signature parse env.hmac 1200 "{}" h.signature h.timestamp "key" 300000
    ≡ leb (distance 1200 (pos 1000)) 300000
headers_verify_example =
    headers_verify env parse (env.stamp 0) 1200 "{}" "key" "application/json" 300000 refl

abbrev calls : List Call
calls =
    register (env.stamp 0) (record { url = shop.url; events = shop.events; secret = some "key" })
    ∷ register (env.stamp 1) (record { url = shop.url; events = shop.events; secret = none })
    ∷ unregister "c"
    ∷ []

run-empty-Registered_example : Registered (run (λ url. true) calls empty)
run-empty-Registered_example = run-empty-Registered (λ url. true) calls

abbrev any_url : String → Bool
any_url text = true

abbrev no_rows : PostgresStore
no_rows = record { webhooks = []; deliveries = []; dead_letters = [] }

abbrev first_stamp : Stamp
first_stamp = record { id = "w1"; time = 5 }

abbrev second_stamp : Stamp
second_stamp = record { id = "w2"; time = 9 }

abbrev shop_row : WebhookRow
shop_row = record {
  id = "w1";
  url = "https://shop.example/hook";
  events = [];
  secret = none;
  active = true;
  created_at = 5;
}

registered_for_good_example :
    (pg_register_webhook any_url second_stamp "https://shop.example/hook" [] none (
      Taken.run any_url
        (Taken.unregister "w1" ∷ [])
        (pg_register_webhook any_url first_stamp "https://shop.example/hook" [] none no_rows).1)).0
    ≡ err already_registered
unfolding pg_register_webhook
registered_for_good_example =
    registered_for_good any_url first_stamp second_stamp "https://shop.example/hook" [] [] none none
      no_rows shop_row (Taken.unregister "w1" ∷ []) refl

-- The store in memory lets the same URL in again.
abbrev shop_again : WebhookStore → WebhookStore
shop_again s =
    (Store.unregister_webhook "w1"
      (Store.register_webhook any_url first_stamp "https://shop.example/hook" [] none s).1).1

memory_registers_again :
    length
      (Store.register_webhook any_url second_stamp "https://shop.example/hook" [] none
        (shop_again (record { webhooks = []; deliveries = []; dead_letters = [] }))).1.webhooks
    ≡ 1
unfolding Store.register_webhook Store.unregister_webhook put delete
memory_registers_again = refl
