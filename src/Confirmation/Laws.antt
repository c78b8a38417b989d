-- ===== src/Confirmation/Laws.antt =====
-- What each operation of backend/src/admin-confirmation.ts promises.
use daddy_config.Base.{
  text_equality, number_equality, ℕ, ◌+◌, ◌≤◌, Bool, true, false, Option, none, some, String, ◌≡◌,
  ◌≢◌, refl, sym, ◌∙◌, arith, get, put, get-put, if◌then◌else◌, ltb, ◌==◌, Outcome, ok, AllEntries,
  AllEntries-get, err, inl, inr, ◌⊎◌, Bool-cases, Option-cases, length, length-append, eqb_iff,
}
use mathlib.Core.Path.{subst, ap}
use text.Mathlib.TextEquality.{eq_iff}
use daddy_config.Confirmation.Actions.{
  PendingAdminAction, AdminDb, Rows, already_confirmed, has_expired, own_action, truthy, checked,
  confirmed_row, write_confirmation, confirm,
}

-- When a row lets `admin` confirm it at a time.
pub record Confirmable (now : ℕ) (admin : String) (row : PendingAdminAction) : Type 0 where
  pub open_row : truthy row.confirmed_by ≡ false
  pub in_time : now ≤ row.expires_at
  pub other : row.initiated_by ≢ admin

-- Every row is stored under its id.
abbrev pub Keyed : Rows → Type 0
Keyed rows = AllEntries (λ k (a : PendingAdminAction). a.id ≡ k) rows

late_or_own :
    (late own : Bool) (row existing : PendingAdminAction)
    → (if late then err has_expired else if own then err own_action else ok row) ≡ ok existing
    → (row ≡ existing) × (late ≡ false) × (own ≡ false)
late_or_own true own row existing h = absurd (cc h)
late_or_own false true row existing h = absurd (cc h)
late_or_own false false row existing h = (cc h, refl, refl)

clash : {b : Bool} → b ≡ false → b ≢ true
clash h k = cc

checked-some :
    (now : ℕ) (admin : String) (row existing : PendingAdminAction)
    → checked now admin (some row) ≡ ok existing
    → (row ≡ existing) × Confirmable now admin row
unfolding checked
checked-some now admin row existing h = elim (Bool-cases (truthy row.confirmed_by)) [
  | inl set ↦
      let refused : err already_confirmed ≡ ok existing = rw (set, checked) at h in
      absurd (cc refused)
  | inr unset ↦
      let (same, in_time, other) =
        late_or_own (ltb row.expires_at now) (row.initiated_by == admin) row existing
          (rw (unset, checked) at h) in
      (
        same,
        record {
          open_row = unset;
          in_time = ground (arith, in_time);
          other = λ e. clash other ((eq_iff row.initiated_by admin).1 e);
        },
      )
]

checked-none :
    (now : ℕ) (admin : String) (existing : PendingAdminAction)
    → checked now admin none ≢ ok existing
unfolding checked
checked-none now admin existing h = cc

pub checked_ok :
    (now : ℕ) (admin : String) (o : Option PendingAdminAction) (existing : PendingAdminAction)
    → checked now admin o ≡ ok existing
    → (o ≡ some existing) × Confirmable now admin existing
checked_ok now admin none existing h = absurd (checked-none now admin existing h)
checked_ok now admin (some row) existing h =
    let (same, fine) = checked-some now admin row existing h in
    (ap some same, subst (Confirmable now admin) same fine)

write_rule :
    (t : ℕ) (existing row : PendingAdminAction) (admin : String) (db : AdminDb)
    → get existing.id db.rows ≡ some row
    → let o = write_confirmation t existing admin db in
      (o.0 ≡ some (confirmed_row t admin row))
      × (o.1.rows ≡ put existing.id (confirmed_row t admin row) db.rows)
unfolding write_confirmation
write_rule t existing row admin db g =
    (rw (g, write_confirmation) refl, rw (g, write_confirmation) refl)

get-put_same : (id : ℕ) (a : PendingAdminAction) (rows : Rows) → get id (put id a rows) ≡ some a
get-put_same id a rows = ground (arith, get-put id id a rows, eqb_iff id id)

Outcome-cases : {E A : Type 0} (o : Outcome E A) → ((e : E) × (o ≡ err e)) ⊎ ((a : A) × (o ≡ ok a))
Outcome-cases (ok a) = inr (a, refl)
Outcome-cases (err e) = inl (e, refl)

refused_again :
    (now t id : ℕ) (admin : String) (db : AdminDb) (row : PendingAdminAction)
    → get id db.rows ≡ some row
    → truthy row.confirmed_by ≡ true
    → confirm now t id admin db ≡ (err already_confirmed, db)
unfolding confirm checked
refused_again now t id admin db row found set = rw (found, confirm) (rw (set, checked) refl)

confirm_cases :
    (now t id : ℕ) (admin : String) (db : AdminDb) (result : Option PendingAdminAction)
    → (confirm now t id admin db).0 ≡ ok result
    → (existing : PendingAdminAction) × (checked now admin (get id db.rows) ≡ ok existing)
      × (result ≡ (write_confirmation t existing admin db).0)
      × ((confirm now t id admin db).1 ≡ (write_confirmation t existing admin db).1)
unfolding confirm
confirm_cases now t id admin db result h =
    elim (Outcome-cases (checked now admin (get id db.rows))) [
      | inl (e, refusal) ↦
          let failed : err e ≡ ok result = rw (refusal, confirm) at h in absurd (cc failed)
      | inr (existing, passed) ↦
          let done : ok (write_confirmation t existing admin db).0 ≡ ok result =
            rw (passed, confirm) at h in
          (existing, passed, cc (sym done), rw (passed, confirm) refl)
    ]

get_stored :
    (i id : ℕ) (a : PendingAdminAction) (rows after : Rows)
    → i ≡ id
    → after ≡ put i a rows
    → get id after ≡ some a
get_stored i id a rows after at e =
    rw e (subst (λ n. get n (put i a rows) ≡ some a) at (get-put_same i a rows))

-- A confirmation that succeeds found a row that nobody had confirmed, that had not expired, and that
-- another administrator had initiated; it returns and stores the row with the administrator and
-- the time filled in.
pub confirm-row :
    (now t id : ℕ) (admin : String) (db : AdminDb) (result : Option PendingAdminAction)
    → Keyed db.rows
    → (confirm now t id admin db).0 ≡ ok result
    → (row : PendingAdminAction) × (get id db.rows ≡ some row)
      × Confirmable now admin row
      × (result ≡ some (confirmed_row t admin row))
      × (get id (confirm now t id admin db).1.rows ≡ some (confirmed_row t admin row))
confirm-row now t id admin db result keyed h =
    let (row, passed, returned, stored) = confirm_cases now t id admin db result h in
    let (found, fine) = checked_ok now admin (get id db.rows) row passed in
    let at : row.id ≡ id =
      AllEntries-get (λ k (a : PendingAdminAction). a.id ≡ k) id row db.rows keyed found in
    let (value, rows) = write_rule t row row admin db (rw at found) in
    (
      row,
      found,
      fine,
      returned ∙ value,
      rw stored (get_stored row.id id (confirmed_row t admin row) db.rows _ at rows),
    )

-- After a confirmation that succeeds, by an administrator whose address is not empty, a further one
-- of the same action is refused as already confirmed, whoever makes it and whenever, and it
-- changes nothing.
pub confirm_once :
    (now t id : ℕ) (admin : String) (db : AdminDb) (result : Option PendingAdminAction)
    (now' t' : ℕ) (other : String)
    → Keyed db.rows
    → admin ≢ ""
    → (confirm now t id admin db).0 ≡ ok result
    → let after = (confirm now t id admin db).1 in
      confirm now' t' id other after ≡ (err already_confirmed, after)
unfolding checked
confirm_once now t id admin db result now' t' other keyed named h =
    let (row, _, _, _, stored) = confirm-row now t id admin db result keyed h in
    let set : truthy (some admin) ≡ true = ground (arith, eq_iff admin "") in
    refused_again now' t' id other (confirm now t id admin db).1 (confirmed_row t admin row) stored
      set

write_logs :
    (t : ℕ) (existing : PendingAdminAction) (admin : String) (db : AdminDb)
    → length (write_confirmation t existing admin db).1.audit ≡ length db.audit + 1
unfolding write_confirmation
write_logs t existing admin db = elim (Option-cases (get existing.id db.rows)) [
  | inl gone ↦ rw (gone, write_confirmation) (length-append db.audit _)
  | inr (row, found) ↦ rw (found, write_confirmation) (length-append db.audit _)
]

-- Two administrators whose checks both passed before either wrote: both confirm, the second one's
-- write replaces the first one's, and the audit log gets an entry for each.
pub late_write :
    (now t t' : ℕ) (row : PendingAdminAction) (first second : String) (db : AdminDb)
    → get row.id db.rows ≡ some row
    → checked now first (get row.id db.rows) ≡ ok row
    → checked now second (get row.id db.rows) ≡ ok row
    → let once = write_confirmation t row first db in
      let twice = write_confirmation t' row second once.1 in
      (once.0 ≡ some (confirmed_row t first row))
      × (twice.0 ≡ some (confirmed_row t' second row))
      × (get row.id twice.1.rows ≡ some (confirmed_row t' second row))
      × (length twice.1.audit ≡ length db.audit + 2)
late_write now t t' row first second db found ok_first ok_second =
    let (value, rows) = write_rule t row row first db found in
    let again = get_stored row.id row.id (confirmed_row t first row) db.rows _ refl rows in
    let (value', rows') =
      write_rule t' row (confirmed_row t first row) second (write_confirmation t row first db).1
        again in
    (
      value,
      value',
      get_stored row.id row.id (confirmed_row t' second row) _ _ refl rows',
      omega (
        arith,
        write_logs t row first db,
        write_logs t' row second (write_confirmation t row first db).1,
      ),
    )
