-- ===== src/Confirmation/Purge.antt =====
-- `purgeExpired` of backend/src/admin-confirmation.ts against `verify` of api/src/admin-confirmation.ts.
use daddy_config.Base.{
  text_equality, number_equality, ℕ, Bool, true, false, none, some, [], ◌∷◌, ◌≡◌, refl, sym, ◌∙◌,
  arith, get, if◌then◌else◌, ◌==◌, inl, inr, Bool-cases, eqb_iff,
}
use mathlib.Core.Path.{subst}
use daddy_config.Confirmation.Actions.{
  PendingAdminAction, AdminDb, Rows, is_stale, purged, purge_expired, verified, verify,
}

-- No id is stored twice.
abbrev pub Distinct : Rows → Type 0
Distinct [] = Unit
Distinct ((k, a) ∷ rows) = (get k rows ≡ none) × Distinct rows

if_same : {A : Type 0} (b : Bool) (x : A) → (if b then x else x) ≡ x
if_same true x = refl
if_same false x = refl

-- What `purgeExpired` leaves.
purged_step :
    (t id k : ℕ) (a : PendingAdminAction) (rows : Rows)
    → get id (purged t ((k, a) ∷ rows)).1 ≡ (
        if is_stale t a
        then get id (purged t rows).1
        else if k == id
        then some a
        else get id (purged t rows).1)
unfolding get purged
purged_step t id k a rows = elim (Bool-cases (is_stale t a)) [
  | inl stale ↦ rw (stale, purged) refl
  | inr fresh ↦ rw (fresh, purged) refl
]

get_step :
    (id k : ℕ) (a : PendingAdminAction) (rows : Rows)
    → get id ((k, a) ∷ rows) ≡ (if k == id then some a else get id rows)
unfolding get
get_step id k a rows = refl

purged-get : (t id : ℕ) (rows : Rows) → get id rows ≡ none → get id (purged t rows).1 ≡ none
unfolding get purged
purged-get t id [] h = refl
purged-get t id ((k, a) ∷ rows) h = elim (Bool-cases (k == id)) [
  | inl same ↦ let found : some a ≡ none = rw (same, get) at h in absurd (cc found)
  | inr other ↦
      let later : get id rows ≡ none = rw (other, get) at h in
      purged_step t id k a rows
      ∙ rw (other, purged-get t id rows later) (if_same (is_stale t a) none)
]

stale-verified :
    (t now : ℕ) (a : PendingAdminAction) → is_stale t a ≡ true → verified now (some a) ≡ none
stale-verified t now a h = ground arith

purged-verified :
    (t now token : ℕ) (rows : Rows)
    → Distinct rows
    → verified now (get token (purged t rows).1) ≡ verified now (get token rows)
purged-verified t now token [] d = unfold purged in refl
purged-verified t now token ((k, a) ∷ rows) (once, d) =
    rw (purged_step t token k a rows, get_step token k a rows)
      (elim (Bool-cases (is_stale t a)) [
        | inr fresh ↦ rw fresh (elim (Bool-cases (k == token)) [
          | inl same ↦ rw same refl
          | inr other ↦ rw other (purged-verified t now token rows d)
        ])
        | inl stale ↦ rw stale (elim (Bool-cases (k == token)) [
          | inl same ↦
              let gone : get token rows ≡ none =
                subst (λ i. get i rows ≡ none) ((eqb_iff k token).0 same) once in
              rw same (rw (purged-get t token rows gone) (sym (stale-verified t now a stale)))
          | inr other ↦ rw other (purged-verified t now token rows d)
        ])
      ])

-- Removing the expired actions that nobody confirmed changes no answer of `verify`, whatever the
-- clocks say, if no id is stored twice.
pub purge_expired-verify :
    (t now token : ℕ) (db : AdminDb)
    → Distinct db.rows
    → verify now token (purge_expired t db).1 ≡ verify now token db
unfolding verify purge_expired
purge_expired-verify t now token db distinct = purged-verified t now token db.rows distinct
