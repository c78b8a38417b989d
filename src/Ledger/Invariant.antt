-- ===== src/Ledger/Invariant.antt =====
-- What holds of every client that its own write operations have built.
use daddy_config.Base.{
  number_equality, text_equality, ℕ, ◌+◌, ◌≤◌, ◌<◌, ◌≡◌, refl, Bool, true, Option, none, some, List,
  [], ◌∷◌, String, get, has, is_some, inl, inr, Bool-cases, Option-cases, arith, AllEntries,
  AllEntries-put, AllEntries-get, sum_of, sum_of-add, sum_of-replace, AllEntries-map,
  AllEntries-has, get-put, get-delete, number_equality,
}
use text.Mathlib.TextEquality.{eq_iff}
use daddy_config.Ledger.Client.{
  Client, Remittance, AgentStats, Env, MockClientOptions, RemittanceStatus, pending, completed,
  cancelled, failed, disputed, processing, new, seed_agent, fresh_stats,
}
use daddy_config.Ledger.Writes.{bump_agent_stats, bumped, created}
use daddy_config.Ledger.Trace.{Op, call, run}
use daddy_config.Ledger.Effects.{
  Moves, cancels, fails, disputes, refunds, releases, Effect, adds, pays, moves, bumps, withdraws,
  withdraws_integrator, registers, removes, sets_fee, limits, promotes, ticks, Effects, here, next,
}
use daddy_config.Ledger.Effects.Calls.{call-Effects}

-- What the status says of the failure time: a remittance fails at a time, and only a failed one
-- can be disputed. A completed one with no failure time was paid out.
abbrev pub StatusFits : RemittanceStatus → Option ℕ → Type 0
StatusFits pending t = t ≡ none
StatusFits processing t = ⊥
StatusFits completed t = Unit
StatusFits cancelled t = Unit
StatusFits failed t = is_some t ≡ true
StatusFits disputed t = is_some t ≡ true

pub record Entry (next_id : ℕ) (id : ℕ) (r : Remittance) : Type 0 where
  pub keyed : r.id ≡ id
  pub issued : id < next_id
  pub positive : 0 < r.amount
  pub fits : StatusFits r.status r.failed_at

-- What was paid out for a remittance, by the measure `f`.
abbrev pub paid_out : (Remittance → ℕ) → RemittanceStatus → Option ℕ → Remittance → ℕ
paid_out f completed none r = f r
paid_out f _ _ r = 0

abbrev pub paid : (Remittance → ℕ) → Remittance → ℕ
paid f r = paid_out f r.status r.failed_at r

abbrev pub amount_of : Remittance → ℕ
amount_of r = r.amount

abbrev pub fee_of : Remittance → ℕ
fee_of r = r.fee

pub record Inv (c : Client) : Type 0 where
  pub entries : AllEntries (Entry c.next_id) c.remittances
  pub volume : c.total_volume ≡ sum_of (paid amount_of) c.remittances
  pub known : (a : String) → has a c.agents ≡ true → has a c.agent_stats ≡ true
  pub stats :
      AllEntries
        (λ (a : String) (s : AgentStats). s.failed_settlements ≤ s.total_settlements)
        c.agent_stats

pub new-Inv : (options : MockClientOptions) → Inv (new options)
unfolding new get
new-Inv options = record { entries = tt; volume = refl; known = λ a h. h; stats = tt }

-- A remittance that has not been paid out and is not paid out by the change adds nothing.
pub move_unpaid :
    (f : Remittance → ℕ) (r r' : Remittance)
    → Moves r r'
    → StatusFits r.status r.failed_at
    → (paid f r ≡ 0) × (paid f r' ≡ 0)
move_unpaid f r r' (cancels is) h = ground arith
move_unpaid f r r' (fails t is) h = ground arith
move_unpaid f r r' (disputes is) h = ground arith
move_unpaid f r r' (refunds is) h = ground arith
move_unpaid f r r' (releases is) h = ground arith

move-Entry : (n id : ℕ) (r r' : Remittance) → Moves r r' → Entry n id r → Entry n id r'
move-Entry n id r r' (cancels is) h = ground arith
move-Entry n id r r' (fails t is) h = ground arith
move-Entry n id r r' (disputes is) h = ground arith
move-Entry n id r r' (refunds is) h = ground arith
move-Entry n id r r' (releases is) h = ground arith

Entry-suc : (n id : ℕ) (r : Remittance) → Entry n id r → Entry (n + 1) id r
Entry-suc n id r h = ground arith

-- The number that is issued next is not in use.
pub next_id_free : (n : ℕ) (m : List (ℕ × Remittance)) → AllEntries (Entry n) m → get n m ≡ none
next_id_free n m h = AllEntries-has (Entry n) n m h (λ r e. absurd (omega (arith, e.issued)))

-- A stored remittance is well-formed.
pub Entry-get :
    (c : Client) (id : ℕ) (r : Remittance)
    → AllEntries (Entry c.next_id) c.remittances
    → get id c.remittances ≡ some r
    → Entry c.next_id id r
Entry-get c id r h found = AllEntries-get (Entry c.next_id) id r c.remittances h found

abbrev Settled : AgentStats → Type 0
Settled s = s.failed_settlements ≤ s.total_settlements

bumped-Settled :
    (env : Env) (success : Bool) (s : AgentStats) → Settled s → Settled (bumped env success s)
bumped-Settled env success s h = ground arith

bump-Inv :
    (env : Env) (agent : String) (success : Bool) (c : Client)
    → Inv c
    → Inv (bump_agent_stats env agent success c)
unfolding bump_agent_stats
bump-Inv env agent success c h = elim (Option-cases (get agent c.agent_stats)) [
  | inl missing ↦ rw (missing, bump_agent_stats) h
  | inr (s, found) ↦
      rw (found, bump_agent_stats)
        (record {
          entries = h.entries;
          volume = h.volume;
          known = λ a k.
              ground (arith, h.known a k, get-put agent a (bumped env success s) c.agent_stats);
          stats =
              AllEntries-put (λ (a : String). Settled) agent (bumped env success s) c.agent_stats
                h.stats
                (bumped-Settled env success s
                  (AllEntries-get (λ (a : String). Settled) agent s c.agent_stats h.stats found));
        })
]

seed-Inv : (env : Env) (agent : String) (c : Client) → Inv c → Inv (seed_agent env agent c)
unfolding seed_agent
seed-Inv env agent c h = elim (Bool-cases (has agent c.agent_stats)) [
  | inl old ↦ rw old (record {
    entries = h.entries;
    volume = h.volume;
    known = λ a k. ground (arith, h.known a, get-put agent a tt c.agents, eq_iff agent a);
    stats = h.stats;
  })
  | inr fresh ↦ rw fresh (record {
    entries = h.entries;
    volume = h.volume;
    known = λ a k. ground (
      arith,
      h.known a,
      get-put agent a tt c.agents,
      get-put agent a (fresh_stats env) c.agent_stats,
    );
    stats =
        AllEntries-put (λ (a : String). Settled) agent (fresh_stats env) c.agent_stats h.stats
          (omega arith);
  })
]

pub Effect-Inv : (c d : Client) (n : ℕ) → Effect c n d → Inv c → Inv d
Effect-Inv c d n (adds env params k known positive) h = record {
  entries =
      AllEntries-put (Entry (c.next_id + 1)) c.next_id (created env params k c) c.remittances
        (AllEntries-map (Entry-suc c.next_id) c.remittances h.entries) (ground arith);
  volume = ground (
    arith,
    h.volume,
    next_id_free c.next_id c.remittances h.entries,
    sum_of-add (paid amount_of) c.next_id (created env params k c) c.remittances,
  );
  known = h.known;
  stats = h.stats;
}
Effect-Inv c d n (pays id r found is) h = record {
  entries =
      AllEntries-put (Entry c.next_id) id (record r { status = completed }) c.remittances h.entries
        (ground (arith, Entry-get c id r h.entries found));
  volume = ground (
    arith,
    h.volume,
    Entry-get c id r h.entries found,
    sum_of-replace (paid amount_of) id r (record r { status = completed }) c.remittances found,
  );
  known = h.known;
  stats = h.stats;
}
Effect-Inv c d n (moves id r r' found m) h = record {
  entries =
      AllEntries-put (Entry c.next_id) id r' c.remittances h.entries
        (move-Entry c.next_id id r r' m (Entry-get c id r h.entries found));
  volume = ground (
    arith,
    h.volume,
    move_unpaid amount_of r r' m (Entry-get c id r h.entries found).fits,
    sum_of-replace (paid amount_of) id r r' c.remittances found,
  );
  known = h.known;
  stats = h.stats;
}
Effect-Inv c d n (bumps env agent success) h = bump-Inv env agent success c h
Effect-Inv c d n withdraws h = ground arith
Effect-Inv c d n withdraws_integrator h = ground arith
Effect-Inv c d n (registers env agent) h = seed-Inv env agent c h
Effect-Inv c d n (removes agent) h = record {
  entries = h.entries;
  volume = h.volume;
  known = λ a k. ground (arith, h.known a, get-delete agent a c.agents);
  stats = h.stats;
}
Effect-Inv c d n (sets_fee bps) h = ground arith
Effect-Inv c d n (limits key l) h = ground arith
Effect-Inv c d n (promotes a) h = ground arith
Effect-Inv c d n ticks h = ground arith

pub Effects-Inv : {c d : Client} {n : ℕ} → Effects c n d → Inv c → Inv d
Effects-Inv here h = h
Effects-Inv (next es e _) h = Effect-Inv _ _ _ e (Effects-Inv es h)

-- Every call, whether it throws or not, keeps the invariant.
pub call-Inv : (env : Env) (op : Op) (c : Client) → Inv c → Inv (call env op c).1
call-Inv env op c h = Effects-Inv (call-Effects env op c) h

pub run-Inv : (ops : List (Env × Op)) (c : Client) → Inv c → Inv (run ops c)
unfolding run
run-Inv [] c h = h
run-Inv ((env, op) ∷ ops) c h = run-Inv ops (call env op c).1 (call-Inv env op c h)

-- After any sequence of write operations on a new client, whatever throws on the way: each stored
-- remittance stands under its own number, which is below the next one to be issued, has a positive
-- amount, and has a failure time as its status wants; the total volume is the sum of the amounts of
-- the remittances that were paid out; every registered agent has statistics; and no agent has
-- failed more settlements than it made.
pub run-new-Inv :
    (options : MockClientOptions) (ops : List (Env × Op)) → Inv (run ops (new options))
run-new-Inv options ops = run-Inv ops (new options) (new-Inv options)
