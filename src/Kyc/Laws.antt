-- ===== src/Kyc/Laws.antt =====
-- Who may transfer, by backend/src/kyc-upsert-service.ts and backend/src/transfer-guard.ts.
use daddy_config.Base.{
  text_equality, ℕ, ◌≤◌, ◌<◌, Bool, true, false, Option, none, some, List, [], ◌∷◌, String, arith,
  ◌≡◌, ◌≢◌, ◌↔◌, ◌⊎◌, inl, inr, refl, any, ◌||◌, ◌==◌, Bool-cases, if◌then◌else◌,
}
use text.Mathlib.TextEquality.{eq_iff}
use daddy_config.Kyc.Store.{
  KycRow, Rows, KycDb, AnchorKyc, approved, re_verification_pending, rows_of, insert_by_time,
  order_by_time, has_status, valid_approval, lapsed_approval, aggregate, verdict,
  get_status_for_user,
}
use daddy_config.Kyc.Guard.{next, forbidden, expired, decide, transfer_guard}

-- Some row of the user has the property.
abbrev pub SomeRow : String → (KycRow → Type 0) → Rows → Type 0
SomeRow user P [] = ⊥
SomeRow user P (((u, a), row) ∷ rows) = ((u ≡ user) × P row) ⊎ SomeRow user P rows

abbrev pub Unexpired : ℕ → Option ℕ → Type 0
Unexpired now none = Unit
Unexpired now (some t) = now < t

abbrev pub Lapsed : ℕ → Option ℕ → Type 0
Lapsed now none = ⊥
Lapsed now (some t) = t ≤ now

-- An approval that has not expired, one that has, and a verification that is being repeated.
abbrev pub IsApproved : ℕ → KycRow → Type 0
IsApproved now row = (row.kyc_status ≡ approved) × Unexpired now row.expires_at

abbrev pub IsLapsed : ℕ → KycRow → Type 0
IsLapsed now row = (row.kyc_status ≡ approved) × Lapsed now row.expires_at

abbrev pub IsReVerifying : KycRow → Type 0
IsReVerifying row = row.kyc_status ≡ re_verification_pending

any_insert :
    (p : AnchorKyc → Bool) (x : AnchorKyc) (ys : List AnchorKyc)
    → any p (insert_by_time x ys) ≡ p x || any p ys
unfolding insert_by_time
any_insert p x [] = refl
any_insert p x (y ∷ ys) = ground (arith, any_insert p x ys)

any_order : (p : AnchorKyc → Bool) (xs : List AnchorKyc) → any p (order_by_time xs) ≡ any p xs
unfolding order_by_time
any_order p [] = refl
any_order p (x ∷ xs) = ground (arith, any_insert p x (order_by_time xs), any_order p xs)

or_cases : (a b : Bool) → (a || b) ≡ true → (a ≡ true) ⊎ (b ≡ true)
or_cases a b h = ground arith

or_left : (a b : Bool) → a ≡ true → (a || b) ≡ true
or_left a b h = ground arith

or_right : (a b : Bool) → b ≡ true → (a || b) ≡ true
or_right a b h = ground arith

clash : (b : Bool) → b ≡ false → b ≢ true
clash b h k = cc

-- A test on the user's rows, as a statement about the table.
any_rows :
    (user : String) (p : KycRow → Bool) (P : KycRow → Type 0)
    → ((row : KycRow) → (p row ≡ true) ↔ P row)
    → (rows : Rows)
    → (any (λ (a : AnchorKyc). p a.row) (rows_of user rows) ≡ true) ↔ SomeRow user P rows
unfolding rows_of
any_rows user p P iff [] = ground arith
any_rows user p P iff (((u, a), row) ∷ rows) = elim (Bool-cases (u == user)) [
  | inl same ↦ rw same (
    λ h. elim (or_cases (p row) _ h) [
      | inl x ↦ inl ((eq_iff u user).0 same, (iff row).0 x)
      | inr y ↦ inr ((any_rows user p P iff rows).0 y)
    ],
    λ s. elim s [
      | inl (_, q) ↦ or_left _ _ ((iff row).1 q)
      | inr t ↦ or_right _ _ ((any_rows user p P iff rows).1 t)
    ],
  )
  | inr other ↦ rw other (
    λ h. inr ((any_rows user p P iff rows).0 h),
    λ s. elim s [
      | inl (e, _) ↦ absurd (clash _ other ((eq_iff u user).1 e))
      | inr t ↦ (any_rows user p P iff rows).1 t
    ],
  )
]

IsApproved-iff :
    (now : ℕ) (row : KycRow)
    → (valid_approval now (record { anchor_id = ""; row = row }) ≡ true) ↔ IsApproved now row
IsApproved-iff now row = ground arith

IsLapsed-iff :
    (now : ℕ) (row : KycRow)
    → (lapsed_approval now (record { anchor_id = ""; row = row }) ≡ true) ↔ IsLapsed now row
IsLapsed-iff now row = ground arith

IsReVerifying-iff :
    (row : KycRow)
    → (has_status re_verification_pending (record { anchor_id = ""; row = row }) ≡ true)
      ↔ IsReVerifying row
IsReVerifying-iff row = ground arith

verdict_iff :
    (now : ℕ) (rows : List AnchorKyc) (re good lapsed gone : Bool)
    → ((verdict now rows re good lapsed gone).can_transfer ≡ true) ↔ ((good ≡ true) × (re ≡ false))
unfolding verdict
verdict_iff now rows re good lapsed gone = ground arith

can_transfer_iff :
    (now : ℕ) (rows : List AnchorKyc)
    → ((aggregate now rows).can_transfer ≡ true) ↔ (
        (any (valid_approval now) rows ≡ true)
        × (any (has_status re_verification_pending) rows ≡ false))
unfolding aggregate
can_transfer_iff now [] = ground arith
can_transfer_iff now (x ∷ xs) = verdict_iff now (x ∷ xs) _ _ _ _

decide_tail :
    (lapsed : Bool)
    → ((if lapsed then forbidden expired else next) ≡ next)
      ↔ ((◌≡◌ {A = Bool} true true) × (◌≡◌ {A = Bool} false false) × (lapsed ≡ false))
decide_tail lapsed = ground arith

verdict-decide :
    (read now : ℕ) (rows : List AnchorKyc) (re good lapsed gone : Bool)
    → any (has_status re_verification_pending) rows ≡ re
    → (decide now (verdict read rows re good lapsed gone) ≡ next)
      ↔ ((good ≡ true) × (re ≡ false) × (any (lapsed_approval now) rows ≡ false))
unfolding verdict decide
verdict-decide read now rows true good lapsed gone e = ground arith
verdict-decide read now rows false true lapsed gone e =
    rw e (decide_tail (any (lapsed_approval now) rows))
verdict-decide read now rows false false lapsed gone e = ground arith

decide_iff :
    (read now : ℕ) (rows : List AnchorKyc)
    → (decide now (aggregate read rows) ≡ next) ↔ (
        (any (valid_approval read) rows ≡ true)
        × (any (has_status re_verification_pending) rows ≡ false)
        × (any (lapsed_approval now) rows ≡ false))
unfolding aggregate
decide_iff read now [] = unfold decide in ground arith
decide_iff read now (x ∷ xs) = verdict-decide read now (x ∷ xs) _ _ _ _ refl

not-true_iff : (b : Bool) (P : Type 0) → (b ≡ true) ↔ P → (b ≡ false) ↔ (¬ P)
not-true_iff true P iff = (λ h. cc, λ n. absurd (n (iff.0 refl)))
not-true_iff false P iff = (λ h p. clash false refl (iff.1 p), λ n. refl)

-- The three tests on the rows in order, as statements about the table.
module _ (user : String) (rows : Rows) where
  ordered_iff :
      (p : KycRow → Bool) (P : KycRow → Type 0)
      → ((row : KycRow) → (p row ≡ true) ↔ P row)
      → (any (λ (a : AnchorKyc). p a.row) (order_by_time (rows_of user rows)) ≡ true)
        ↔ SomeRow user P rows
  ordered_iff p P iff =
      rw (any_order (λ (a : AnchorKyc). p a.row) (rows_of user rows)) (any_rows user p P iff rows)

  some-IsApproved :
      (now : ℕ)
      → (any (valid_approval now) (order_by_time (rows_of user rows)) ≡ true)
        ↔ SomeRow user (IsApproved now) rows
  some-IsApproved now =
      ordered_iff (λ r. valid_approval now (record { anchor_id = ""; row = r })) (IsApproved now)
        (IsApproved-iff now)

  no-IsLapsed :
      (now : ℕ)
      → (any (lapsed_approval now) (order_by_time (rows_of user rows)) ≡ false)
        ↔ (¬ (SomeRow user (IsLapsed now) rows))
  no-IsLapsed now = not-true_iff _ _ (
      ordered_iff (λ r. lapsed_approval now (record { anchor_id = ""; row = r })) (IsLapsed now)
        (IsLapsed-iff now))

  no-IsReVerifying :
      (any (has_status re_verification_pending) (order_by_time (rows_of user rows)) ≡ false)
      ↔ (¬ (SomeRow user IsReVerifying rows))
  no-IsReVerifying = not-true_iff _ _ (
      ordered_iff (λ r. has_status re_verification_pending (record { anchor_id = ""; row = r }))
        IsReVerifying IsReVerifying-iff)

-- The service says that a user can transfer exactly when some anchor's approval of the user has
-- not expired and no anchor is repeating the verification, whatever the order of the rows.
pub status_can_transfer :
    (now : ℕ) (user : String) (db : KycDb)
    → ((get_status_for_user now user db).can_transfer ≡ true)
      ↔ (SomeRow user (IsApproved now) db.rows × (¬ (SomeRow user IsReVerifying db.rows)))
unfolding get_status_for_user
status_can_transfer now user db =
    let (to, from) = can_transfer_iff now (order_by_time (rows_of user db.rows)) in
    (
      λ h. (
        (some-IsApproved user db.rows now).0 (to h).0,
        (no-IsReVerifying user db.rows).0 (to h).1,
      ),
      λ h. from ((some-IsApproved user db.rows now).1 h.0, (no-IsReVerifying user db.rows).1 h.1),
    )

-- The guard lets a user with an id through exactly when, besides what the service asks, none of
-- the user's approvals has expired by the guard's own time.
pub guard_passes :
    (read now : ℕ) (user : String) (db : KycDb)
    → user ≢ ""
    → (transfer_guard (some read) now (some user) db ≡ next) ↔ (
        SomeRow user (IsApproved read) db.rows
        × (¬ (SomeRow user IsReVerifying db.rows))
        × (¬ (SomeRow user (IsLapsed now) db.rows)))
unfolding transfer_guard get_status_for_user
guard_passes read now user db named =
    let blank : (user == "") ≡ false = ground (arith, eq_iff user "") in
    let (to, from) = decide_iff read now (order_by_time (rows_of user db.rows)) in
    rw blank (
      λ h. (
        (some-IsApproved user db.rows read).0 (to h).0,
        (no-IsReVerifying user db.rows).0 (to h).1,
        (no-IsLapsed user db.rows now).0 (to h).2,
      ),
      λ h. from (
        (some-IsApproved user db.rows read).1 h.0,
        (no-IsReVerifying user db.rows).1 h.1,
        (no-IsLapsed user db.rows now).1 h.2,
      ),
    )
