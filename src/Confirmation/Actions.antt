-- ===== src/Confirmation/Actions.antt =====
-- `AdminConfirmationService` of backend/src/admin-confirmation.ts, and `verify` of
-- api/src/admin-confirmation.ts. A random UUID is its place in the order of those made. The check and
-- the update of `confirm` are two statements without a transaction, so they are two functions.
use daddy_config.Base.{
  text_equality, number_equality, ℕ, ◌+◌, ◌*◌, Bool, true, false, Option, none, some, List, [], ◌∷◌,
  ◌++◌, String, get, put, if◌then◌else◌, ltb, leb, ◌==◌, not, ◌&&◌, Outcome, ok, err, values,
  select,
}

pub data HighRiskOperation : Type 0 where
  withdraw_fees remove_agent update_fee : HighRiskOperation

-- `params` is the text that is stored.
pub record PendingAdminAction : Type 0 where
  pub id : ℕ
  pub operation : HighRiskOperation
  pub initiated_by : String
  pub params : String
  pub expires_at : ℕ
  pub confirmed_by : Option String
  pub confirmed_at : Option ℕ
  pub created_at : ℕ

pub data Phase : Type 0 where
  initiated confirmed : Phase

-- A call of the audit log.
pub record AuditEntry : Type 0 where
  pub admin_address : String
  pub operation : HighRiskOperation
  pub phase : Phase
  pub target : ℕ
  pub params_json : String

abbrev pub Rows : Type 0
Rows = List (ℕ × PendingAdminAction)

pub record AdminDb : Type 0 where
  pub rows : Rows
  pub audit : List AuditEntry
  pub issued : ℕ

pub data ConfirmError : Type 0 where
  not_found already_confirmed has_expired own_action : ConfirmError

abbrev pub expiry_hours : ℕ
expiry_hours = 1

-- `expires_at` is by the process's clock, `created_at` by the database's.
abbrev pub new_action : ℕ → ℕ → ℕ → HighRiskOperation → String → String → PendingAdminAction
new_action id now db_now operation by params = record {
  id = id;
  operation = operation;
  initiated_by = by;
  params = params;
  expires_at = now + expiry_hours * 60 * 60 * 1000;
  confirmed_by = none;
  confirmed_at = none;
  created_at = db_now;
}

unfoldable pub initiate :
    ℕ → ℕ → HighRiskOperation → String → String → AdminDb → PendingAdminAction × AdminDb
initiate now db_now operation by params db =
    let action = new_action db.issued now db_now operation by params in
    let entry : AuditEntry = record {
      admin_address = by;
      operation = operation;
      phase = initiated;
      target = db.issued;
      params_json = params;
    } in
    (
      action,
      record {
        rows = put db.issued action db.rows;
        audit = db.audit ++ entry ∷ [];
        issued = db.issued + 1;
      },
    )

-- `if (existing.confirmed_by)`: the empty text counts as nothing.
abbrev pub truthy : Option String → Bool
truthy none = false
truthy (some text) = not (text == "")

abbrev pub get_action : ℕ → AdminDb → Option PendingAdminAction
get_action id db = get id db.rows

-- The checks of `confirm` on the row that it read.
unfoldable pub checked :
    ℕ → String → Option PendingAdminAction → Outcome ConfirmError PendingAdminAction
checked now admin none = err not_found
checked now admin (some existing) =
    if truthy existing.confirmed_by
    then err already_confirmed
    else if ltb existing.expires_at now
    then err has_expired
    else if existing.initiated_by == admin
    then err own_action
    else ok existing

abbrev pub confirmed_row : ℕ → String → PendingAdminAction → PendingAdminAction
confirmed_row db_now admin row = record row {
  confirmed_by = some admin;
  confirmed_at = some db_now;
}

-- `UPDATE … WHERE id = $2 RETURNING *`, which writes whatever the row holds, then the audit log.
unfoldable pub write_confirmation :
    ℕ → PendingAdminAction → String → AdminDb → Option PendingAdminAction × AdminDb
write_confirmation db_now existing admin db =
    let entry : AuditEntry = record {
      admin_address = admin;
      operation = existing.operation;
      phase = confirmed;
      target = existing.id;
      params_json = existing.params;
    } in
    let logged : AdminDb = record db { audit = db.audit ++ entry ∷ [] } in
    elim (get existing.id db.rows) [
      | none ↦ (none, logged)
      | some row ↦
          let updated = confirmed_row db_now admin row in
          (some updated, record logged { rows = put existing.id updated db.rows })
    ]

-- `confirm` with nothing between its two statements.
unfoldable pub confirm :
    ℕ → ℕ → ℕ → String → AdminDb → Outcome ConfirmError (Option PendingAdminAction) × AdminDb
confirm now db_now id admin db = elim (checked now admin (get_action id db)) [
  | err e ↦ (err e, db)
  | ok existing ↦
      let (action, after) = write_confirmation db_now existing admin db in (ok action, after)
]

abbrev pub is_null : Option String → Bool
is_null none = true
is_null (some text) = false

-- `ORDER BY created_at DESC`; rows of one time keep their order here.
unfoldable pub insert_latest :
    PendingAdminAction → List PendingAdminAction → List PendingAdminAction
insert_latest x [] = x ∷ []
insert_latest x (y ∷ ys) =
    let later = insert_latest x ys in
    if leb y.created_at x.created_at then x ∷ y ∷ ys else y ∷ later

unfoldable pub latest_first : List PendingAdminAction → List PendingAdminAction
latest_first [] = []
latest_first (x ∷ xs) = insert_latest x (latest_first xs)

unfoldable pub list_pending : ℕ → AdminDb → List PendingAdminAction
list_pending db_now db =
    latest_first (select (λ a. is_null a.confirmed_by && ltb db_now a.expires_at) (values db.rows))

abbrev pub is_stale : ℕ → PendingAdminAction → Bool
is_stale db_now a = is_null a.confirmed_by && leb a.expires_at db_now

-- `DELETE … WHERE confirmed_by IS NULL AND expires_at <= NOW()`, and how many rows it deleted.
unfoldable pub purged : ℕ → Rows → ℕ × Rows
purged db_now [] = (0, [])
purged db_now ((k, a) ∷ rows) =
    let (count, rest) = purged db_now rows in
    if is_stale db_now a then (count + 1, rest) else (count, (k, a) ∷ rest)

unfoldable pub purge_expired : ℕ → AdminDb → ℕ × AdminDb
purge_expired db_now db =
    let (count, rest) = purged db_now db.rows in (count, record db { rows = rest })

-- The action, if it is confirmed and has not expired.
abbrev pub verified : ℕ → Option PendingAdminAction → Option PendingAdminAction
verified now none = none
verified now (some a) =
    if not (truthy a.confirmed_by) then none else if ltb a.expires_at now then none else some a

unfoldable pub verify : ℕ → ℕ → AdminDb → Option PendingAdminAction
verify now token db = verified now (get_action token db)
