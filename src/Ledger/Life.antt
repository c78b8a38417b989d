-- ===== src/Ledger/Life.antt =====
-- The life of one remittance under the operations of sdk/src/testing/mock-client.ts.
use daddy_config.Base.{
  number_equality, text_equality, ℕ, ◌<◌, ◌≡◌, refl, sym, ◌∙◌, Bool, some, List, [], ◌∷◌, String,
  get, put, inl, inr, ◌⊎◌, Bool-cases, arith, eqb, get-put,
}
use mathlib.Core.Path.{subst}
use daddy_config.Ledger.Client.{
  Client, Remittance, Env, RemittanceStatus, pending, processing, completed, cancelled, failed,
  disputed, seed_agent,
}
use daddy_config.Ledger.Writes.{bump_agent_stats, created}
use daddy_config.Ledger.Trace.{Op, call, run}
use daddy_config.Ledger.Effects.{
  Moves, cancels, fails, disputes, refunds, releases, Effect, adds, pays, moves, bumps, withdraws,
  withdraws_integrator, registers, removes, sets_fee, limits, promotes, ticks, Effects, here, next,
}
use daddy_config.Ledger.Effects.Calls.{call-Effects}
use daddy_config.Ledger.Invariant.{Inv, Entry, Entry-get, Effects-Inv, call-Inv}

-- The statuses that may follow a status, at once or later.
abbrev pub MayFollow : RemittanceStatus → RemittanceStatus → Type 0
MayFollow pending processing = ⊥
MayFollow pending _ = Unit
MayFollow processing _ = ⊥
MayFollow failed pending = ⊥
MayFollow failed processing = ⊥
MayFollow failed _ = Unit
MayFollow disputed cancelled = Unit
MayFollow disputed completed = Unit
MayFollow disputed disputed = Unit
MayFollow disputed _ = ⊥
MayFollow completed completed = Unit
MayFollow completed _ = ⊥
MayFollow cancelled cancelled = Unit
MayFollow cancelled _ = ⊥

-- What a later record of the same remittance keeps, and how its status may have changed.
pub record Evolves (r r' : Remittance) : Type 0 where
  pub same_id : r'.id ≡ r.id
  pub same_sender : r'.sender ≡ r.sender
  pub same_agent : r'.agent ≡ r.agent
  pub same_amount : r'.amount ≡ r.amount
  pub same_fee : r'.fee ≡ r.fee
  pub same_token : r'.token ≡ r.token
  pub same_created_at : r'.created_at ≡ r.created_at
  pub same_expires_at : r'.expires_at ≡ r.expires_at
  pub status_follows : MayFollow r.status r'.status
  pub final : (r.status ≡ completed) ⊎ (r.status ≡ cancelled) → r' ≡ r

-- A status that the operations give to a remittance.
abbrev Live : RemittanceStatus → Type 0
Live processing = ⊥
Live _ = Unit

Entry-Live : (n id : ℕ) (r : Remittance) → Entry n id r → Live r.status
Entry-Live n id r h = ground arith

MayFollow-trans : (s t u : RemittanceStatus) → MayFollow s t → MayFollow t u → MayFollow s u
MayFollow-trans s t u h k = ground arith

Evolves-refl : (r : Remittance) → Live r.status → Evolves r r
Evolves-refl r h = ground arith

Evolves-trans : (r s t : Remittance) → Evolves r s → Evolves s t → Evolves r t
Evolves-trans r s t h k = record {
  same_id = k.same_id ∙ h.same_id;
  same_sender = k.same_sender ∙ h.same_sender;
  same_agent = k.same_agent ∙ h.same_agent;
  same_amount = k.same_amount ∙ h.same_amount;
  same_fee = k.same_fee ∙ h.same_fee;
  same_token = k.same_token ∙ h.same_token;
  same_created_at = k.same_created_at ∙ h.same_created_at;
  same_expires_at = k.same_expires_at ∙ h.same_expires_at;
  status_follows = MayFollow-trans r.status s.status t.status h.status_follows k.status_follows;
  final = λ is.
      let s≡r : s ≡ r = h.final is in
      k.final (subst (λ x. (x.status ≡ completed) ⊎ (x.status ≡ cancelled)) (sym s≡r) is) ∙ s≡r;
}

Moves-Evolves : (r r' : Remittance) → Moves r r' → Evolves r r'
Moves-Evolves r r' (cancels is) = ground arith
Moves-Evolves r r' (fails t is) = ground arith
Moves-Evolves r r' (disputes is) = ground arith
Moves-Evolves r r' (refunds is) = ground arith
Moves-Evolves r r' (releases is) = ground arith

-- The record of `id` in `m`, and that it evolves from `r`.
abbrev Follows : Remittance → ℕ → List (ℕ × Remittance) → Type 0
Follows r id m = (r' : Remittance) × (get id m ≡ some r') × Evolves r r'

-- Writing the next record of one remittance keeps the others.
put-Follows :
    (id key : ℕ) (r s s' : Remittance) (m : List (ℕ × Remittance))
    → get id m ≡ some r
    → get key m ≡ some s
    → Live r.status
    → Evolves s s'
    → Follows r id (put key s' m)
put-Follows id key r s s' m at_id at_key live ev = elim (Bool-cases (eqb key id)) [
  | inl same ↦
      let there : s ≡ r = ground arith in
      (s', rw (get-put key id s' m) (rw same refl), subst (λ x. Evolves x s') there ev)
  | inr other ↦ (r, rw (get-put key id s' m) (rw other at_id), Evolves-refl r live)
]

put-fresh :
    (id key : ℕ) (r s : Remittance) (m : List (ℕ × Remittance))
    → get id m ≡ some r
    → id < key
    → Live r.status
    → Follows r id (put key s m)
put-fresh id key r s m at_id below live =
    (r, ground (arith, get-put key id s m), Evolves-refl r live)

bump_remittances :
    (env : Env) (agent : String) (success : Bool) (c : Client)
    → (bump_agent_stats env agent success c).remittances ≡ c.remittances
unfolding bump_agent_stats
bump_remittances env agent success c = ground arith

seed_remittances :
    (env : Env) (agent : String) (c : Client) → (seed_agent env agent c).remittances ≡ c.remittances
unfolding seed_agent
seed_remittances env agent c = ground arith

module _ (c : Client) (h : Inv c) (id : ℕ) (r : Remittance)
    (found : get id c.remittances ≡ some r) where
  live : Live r.status
  live = Entry-Live c.next_id id r (Entry-get c id r h.entries found)

  stays : (m : List (ℕ × Remittance)) → m ≡ c.remittances → Follows r id m
  stays m e = (r, rw e found, Evolves-refl r live)

  Effect-Follows : (d : Client) (n : ℕ) → Effect c n d → Follows r id d.remittances
  Effect-Follows d n (adds env params k known positive) =
      put-fresh id c.next_id r (created env params k c) c.remittances found
        (Entry-get c id r h.entries found).issued live
  Effect-Follows d n (pays key s at is) =
      put-Follows id key r s (record s { status = completed }) c.remittances found at live
        (ground arith)
  Effect-Follows d n (moves key s s' at m) =
      put-Follows id key r s s' c.remittances found at live (Moves-Evolves s s' m)
  Effect-Follows d n (bumps env agent success) = stays _ (bump_remittances env agent success c)
  Effect-Follows d n withdraws = stays _ refl
  Effect-Follows d n withdraws_integrator = stays _ refl
  Effect-Follows d n (registers env agent) = stays _ (seed_remittances env agent c)
  Effect-Follows d n (removes agent) = stays _ refl
  Effect-Follows d n (sets_fee bps) = stays _ refl
  Effect-Follows d n (limits key l) = stays _ refl
  Effect-Follows d n (promotes a) = stays _ refl
  Effect-Follows d n ticks = stays _ refl

Effects-Follows :
    (c : Client) (id : ℕ) (r : Remittance) {d : Client} {n : ℕ}
    → Effects c n d
    → Inv c
    → get id c.remittances ≡ some r
    → Follows r id d.remittances
Effects-Follows c id r here h found =
    (r, found, Evolves-refl r (Entry-Live c.next_id id r (Entry-get c id r h.entries found)))
Effects-Follows c id r (next {d = x} {e = d} es e _) h found =
    let (s, at_x, ev) = Effects-Follows c id r es h found in
    let (t, at_d, ev') = Effect-Follows x (Effects-Inv es h) id s at_x d _ e in
    (t, at_d, Evolves-trans r s t ev ev')

-- Whatever write operations follow, a remittance that the ledger holds stays in it under its
-- number, keeps its parties, amount, fee, token and times of creation and expiry, and changes its
-- status only along pending, then failed, disputed, and completed or cancelled at the end; once
-- completed or cancelled its record never changes.
pub run-Evolves :
    (ops : List (Env × Op)) (c : Client) (id : ℕ) (r : Remittance)
    → Inv c
    → get id c.remittances ≡ some r
    → (r' : Remittance) × (get id (run ops c).remittances ≡ some r') × Evolves r r'
unfolding run
run-Evolves [] c id r h found = Effects-Follows c id r here h found
run-Evolves ((env, op) ∷ ops) c id r h found =
    let (s, at_s, ev) = Effects-Follows c id r (call-Effects env op c) h found in
    let (t, at_t, ev') = run-Evolves ops (call env op c).1 id s (call-Inv env op c h) at_s in
    (t, at_t, Evolves-trans r s t ev ev')
