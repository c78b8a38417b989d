-- ===== src/Confirmation/Tests.antt =====
-- The theorems on confirmations at concrete inputs.
use daddy_config.Base.{
  text_equality, number_equality, ◌+◌, ◌≡◌, ◌≢◌, refl, some, [], ◌∷◌, String, get, put, ok, err,
  length,
}
use text.Mathlib.TextEquality.{eq_iff}
use daddy_config.Confirmation.Actions.{
  PendingAdminAction, AdminDb, withdraw_fees, new_action, confirmed_row, checked, confirm,
  already_confirmed, write_confirmation, verify, purge_expired, initiate,
}
use daddy_config.Confirmation.Laws.{Confirmable, confirm-row, confirm_once, late_write}
use daddy_config.Confirmation.Purge.{purge_expired-verify}
use daddy_config.Confirmation.Steps.{
  System, Steps, empty, started, passed, wrote, stop, also, Steps-never_own,
}

abbrev row : PendingAdminAction
row = new_action 0 5 5 withdraw_fees "ann" "{}"

abbrev db : AdminDb
db = record { rows = (0, row) ∷ []; audit = []; issued = 1 }

confirmed_by_bob : (confirm 10 10 0 "bob" db).0 ≡ ok (some (confirmed_row 10 "bob" row))
unfolding confirm checked write_confirmation get put
confirmed_by_bob = refl

bob_named : ◌≢◌ {A = String} "bob" ""
bob_named e = cc ((eq_iff "bob" "").1 e)

confirm-row_example :
    (r : PendingAdminAction) × (get 0 db.rows ≡ some r)
    × Confirmable 10 "bob" r
    × (some (confirmed_row 10 "bob" row) ≡ some (confirmed_row 10 "bob" r))
    × (get 0 (confirm 10 10 0 "bob" db).1.rows ≡ some (confirmed_row 10 "bob" r))
confirm-row_example =
    confirm-row 10 10 0 "bob" db (some (confirmed_row 10 "bob" row)) (refl, tt) confirmed_by_bob

confirm_once_example :
    confirm 20 20 0 "eve" (confirm 10 10 0 "bob" db).1
    ≡ (err already_confirmed, (confirm 10 10 0 "bob" db).1)
confirm_once_example =
    confirm_once 10 10 0 "bob" db (some (confirmed_row 10 "bob" row)) 20 20 "eve" (refl, tt)
      bob_named confirmed_by_bob

row_stored : get 0 db.rows ≡ some row
unfolding get
row_stored = refl

bob_passes : checked 10 "bob" (get 0 db.rows) ≡ ok row
unfolding checked get
bob_passes = refl

eve_passes : checked 10 "eve" (get 0 db.rows) ≡ ok row
unfolding checked get
eve_passes = refl

late_write_example :
    let once = write_confirmation 11 row "bob" db in
    let twice = write_confirmation 12 row "eve" once.1 in
    (once.0 ≡ some (confirmed_row 11 "bob" row))
    × (twice.0 ≡ some (confirmed_row 12 "eve" row))
    × (get 0 twice.1.rows ≡ some (confirmed_row 12 "eve" row))
    × (length twice.1.audit ≡ 0 + 2)
late_write_example = late_write 10 11 12 row "bob" "eve" db row_stored bob_passes eve_passes

purge_expired-verify_example : verify 10 0 (purge_expired 9999999 db).1 ≡ verify 10 0 db
unfolding get
purge_expired-verify_example = purge_expired-verify 9999999 10 0 db (refl, tt)

abbrev first : System
first = record { db = (initiate 5 5 withdraw_fees "ann" "{}" empty.db).1; tickets = [] }

abbrev last : System
last = record { db = (write_confirmation 11 row "bob" first.db).1; tickets = [] }

bob_checks : checked 10 "bob" (get 0 first.db.rows) ≡ ok row
unfolding checked get put initiate
bob_checks = refl

to_last : Steps empty last
to_last = also started (also (passed bob_checks) (also (wrote [] []) stop))

last_stored : get 0 last.db.rows ≡ some (confirmed_row 11 "bob" row)
unfolding get put initiate write_confirmation
last_stored = refl

Steps-never_own_example : ◌≢◌ {A = String} "bob" "ann"
Steps-never_own_example =
    Steps-never_own last 0 (confirmed_row 11 "bob" row) "bob" to_last last_stored refl
