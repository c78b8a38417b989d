-- ===== src/Ledger/Batch.antt =====
-- The batch of sdk/src/testing/mock-client.ts: it stops at the first entry that it refuses.
use daddy_config.Base.{
  number_equality, text_equality, ℕ, suc, ◌+◌, ◌*◌, ◌/◌, ◌<◌, ◌≡◌, refl, sym, ◌∙◌, ap, Bool,
  Bool-cases, inl, inr, Option, some, get, put, get-put, ◌==◌, true, false, none, List, [], ◌∷◌,
  String, has, Outcome, ok, err, arith, if◌then◌else◌, ◌&&◌,
}
use daddy_config.Base.Int.{pos_part}
use daddy_config.Ledger.Client.{Client, Env, ErrorCode, TextSet, Remittance, pending}
use daddy_config.Ledger.Writes.{
  and_then, MockTxResult, create_remittance, fake_tx_hash, add_remittance,
}
use daddy_config.Ledger.Lifecycle.{
  create_each, BatchCreateEntry, entry_params, batch_create_remittances,
}
use daddy_config.Ledger.Errors.{is_positive, positive_amount_lem}

-- The entries that a batch accepts, and how many stand before the first that it refuses.
abbrev pub is_valid : TextSet → BatchCreateEntry → Bool
is_valid agents e = has e.agent agents && is_positive e.amount

pub leading : TextSet → List (Env × BatchCreateEntry) → ℕ
leading agents [] = 0
leading agents ((env, e) ∷ entries) = if is_valid agents e then suc (leading agents entries) else 0

pub all_valid : TextSet → List (Env × BatchCreateEntry) → Bool
all_valid agents [] = true
all_valid agents ((env, e) ∷ entries) = is_valid agents e && all_valid agents entries

abbrev pub is_ok : {A : Type 0} → Outcome ErrorCode A → Bool
is_ok (ok a) = true
is_ok (err e) = false

-- The remittance that an entry asks for, under the number `n`.
abbrev pub asked : String → ℕ → ℕ → Env → BatchCreateEntry → Remittance
asked sender bps n env e = record {
  id = n;
  sender = sender;
  agent = e.agent;
  amount = pos_part e.amount;
  fee = pos_part e.amount * bps / 10000;
  status = pending;
  expiry = e.expiry;
  token = "";
  created_at = env.now / 1000;
  failed_at = none;
  expires_at = elim e.expiry [ none ↦ none | some t ↦ some (env.now / 1000 + t) ];
}

module _ (sender : String) (agents : TextSet) (bps : ℕ) where
  -- What the number `k` stands for, when the entries before the first bad one are numbered from `n` on
  -- and every other number stands for what it did in `m`.
  pub standing : List (Env × BatchCreateEntry) → ℕ → List (ℕ × Remittance) → ℕ → Option Remittance
  standing [] n m k = get k m
  standing ((env, e) ∷ entries) n m k =
      let later = standing entries (suc n) m k in
      if is_valid agents e
      then if n == k then some (asked sender bps n env e) else later
      else get k m

  standing_below :
      (entries : List (Env × BatchCreateEntry)) (n : ℕ) (m : List (ℕ × Remittance)) (k : ℕ)
      → k < n
      → standing entries n m k ≡ get k m
  unfolding standing
  standing_below [] n m k h = refl
  standing_below ((env, e) ∷ entries) n m k h =
      ground (
        arith,
        number_equality.equals_iff n k,
        standing_below entries (suc n) m k (omega (arith, h)),
      )

  standing_other :
      (entries : List (Env × BatchCreateEntry)) (n j : ℕ) (r : Remittance)
      (m : List (ℕ × Remittance)) (k : ℕ)
      → (j == k) ≡ false
      → standing entries n (put j r m) k ≡ standing entries n m k
  unfolding standing
  standing_other [] n j r m k h = ground (arith, get-put j k r m, h)
  standing_other ((env, e) ∷ entries) n j r m k h =
      ground (arith, get-put j k r m, h, standing_other entries (suc n) j r m k h)

  standing-put :
      (entries : List (Env × BatchCreateEntry)) (n : ℕ) (r : Remittance) (m : List (ℕ × Remittance))
      (k : ℕ)
      → standing entries (suc n) (put n r m) k
        ≡ (if n == k then some r else standing entries (suc n) m k)
  standing-put entries n r m k = elim (Bool-cases (n == k)) [
    | inr other ↦ rw other (standing_other entries (suc n) n r m k other)
    | inl same ↦ rw same (
        standing_below entries (suc n) (put n r m) k
          (omega (arith, (number_equality.equals_iff n k).0 same))
        ∙ get-put n k r m
        ∙ rw same refl)
  ]

-- One entry: it is stored, or nothing changes.
create_entry :
    (sender : String) (env : Env) (e : BatchCreateEntry) (c : Client)
    → let o = create_remittance env (entry_params sender e) c in
      (is_ok o.0 ≡ is_valid c.agents e)
      × (o.1.agents ≡ c.agents)
      × (o.1.fee_bps ≡ c.fee_bps)
      × (o.1.next_id ≡ (if is_valid c.agents e then c.next_id + 1 else c.next_id))
      × (o.1.remittances ≡ (
          if is_valid c.agents e
          then put c.next_id (asked sender c.fee_bps c.next_id env e) c.remittances
          else c.remittances))
unfolding create_remittance add_remittance fake_tx_hash
create_entry sender env e c = ground (arith, positive_amount_lem e.amount c)

-- The outcome `o` of the entries, from a client with these agents, fee, numbers and remittances.
record Prefix (sender : String) (entries : List (Env × BatchCreateEntry)) (agents : TextSet)
    (bps n : ℕ) (m : List (ℕ × Remittance)) {A : Type 0} (o : Outcome ErrorCode A × Client)
    : Type 0 where
  good : is_ok o.0 ≡ all_valid agents entries
  count : o.1.next_id ≡ n + leading agents entries
  stored : (k : ℕ) → get k o.1.remittances ≡ standing sender agents bps entries n m k

-- The rest of the loop behind one entry, whose outcome is `o`.
after_entry :
    (sender : String) (env : Env) (e : BatchCreateEntry) (entries : List (Env × BatchCreateEntry))
    (agents : TextSet) (bps n : ℕ) (m : List (ℕ × Remittance))
    (o : Outcome ErrorCode MockTxResult × Client)
    → ((d : Client)
        → Prefix sender entries d.agents d.fee_bps d.next_id d.remittances
            (create_each sender entries d))
    → is_ok o.0 ≡ is_valid agents e
    → o.1.agents ≡ agents
    → o.1.fee_bps ≡ bps
    → o.1.next_id ≡ (if is_valid agents e then n + 1 else n)
    → o.1.remittances ≡ (if is_valid agents e then put n (asked sender bps n env e) m else m)
    → Prefix sender
        ((env, e) ∷ entries)
        agents
        bps
        n
        m
        (and_then o (λ _. create_each sender entries))
unfolding standing leading all_valid
after_entry sender env e entries agents bps n m (ok a, d) ih good same fee count stored =
    let valid : is_valid agents e ≡ true = sym good in
    let next : d.next_id ≡ suc n = ground (arith, valid, count) in
    let row = asked sender bps n env e in
    let placed : d.remittances ≡ put n row m = stored ∙ rw valid refl in
    let h = ih d in
    record {
      good = rw valid (h.good ∙ ap (λ g. all_valid g entries) same);
      count = ground (arith, h.count, ap (λ g. leading g entries) same, next, valid);
      stored = λ k. rw valid (
          h.stored k
          ∙ rw (same, fee, next, placed) (standing-put sender agents bps entries n row m k));
    }
after_entry sender env e entries agents bps n m (err x, d) ih good same fee count stored =
    let bad : is_valid agents e ≡ false = sym good in
    record {
      good = rw bad refl;
      count = ground (arith, bad, count);
      stored = λ k. rw bad (ap (get k) (stored ∙ rw bad refl));
    }

create_each-Prefix :
    (sender : String) (entries : List (Env × BatchCreateEntry)) (c : Client)
    → Prefix sender entries c.agents c.fee_bps c.next_id c.remittances
        (create_each sender entries c)
unfolding create_each leading all_valid standing
create_each-Prefix sender [] c = record { good = refl; count = omega arith; stored = λ k. refl }
create_each-Prefix sender ((env, e) ∷ entries) c =
    let (good, same, fee, count, stored) = create_entry sender env e c in
    after_entry sender env e entries c.agents c.fee_bps c.next_id c.remittances
      (create_remittance env (entry_params sender e) c) (create_each-Prefix sender entries) good
      same fee count stored

finish_batch :
    (sender : String) (entries : List (Env × BatchCreateEntry)) (c : Client)
    (o : Outcome ErrorCode (Unit {0}) × Client)
    → Prefix sender entries c.agents c.fee_bps c.next_id c.remittances o
    → Prefix sender entries c.agents c.fee_bps c.next_id c.remittances
        (and_then o (λ _. fake_tx_hash none))
unfolding fake_tx_hash
finish_batch sender entries c (ok a, d) h = record {
  good = h.good;
  count = h.count;
  stored = h.stored;
}
finish_batch sender entries c (err e, d) h = record {
  good = h.good;
  count = h.count;
  stored = h.stored;
}

-- A batch succeeds exactly when every entry names a registered agent and a positive amount. In
-- every case the entries before the first bad one are created, and stay if the batch fails: each is
-- a pending remittance of the sender for the entry's agent and amount, under the numbers from the
-- next one on, and every other number stands for what it did before.
pub batch_prefix :
    (sender : String) (entries : List (Env × BatchCreateEntry)) (c : Client) (k : ℕ)
    → let r = batch_create_remittances sender entries c in
      (is_ok r.0 ≡ all_valid c.agents entries)
      × (r.1.next_id ≡ c.next_id + leading c.agents entries)
      × (get k r.1.remittances
          ≡ standing sender c.agents c.fee_bps entries c.next_id c.remittances k)
unfolding batch_create_remittances
batch_prefix sender entries c k =
    let h =
      finish_batch sender entries c (create_each sender entries c)
        (create_each-Prefix sender entries c) in
    (h.good, h.count, h.stored k)
