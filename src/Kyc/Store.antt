-- ===== src/Kyc/Store.antt =====
-- backend/src/kyc-upsert-service.ts. The table's key is (user_id, anchor_id); its column
-- `updated_at`, which nothing here reads, is left out. Calls of the contract are a list: whether
-- one fails changes nothing, since the source catches the error.
use daddy_config.Base.{
  text_equality, pair_equality, number_equality, ℕ, Bool, true, false, Option, none, some, List, [],
  ◌∷◌, ◌++◌, String, get, put, Outcome, ok, err, if◌then◌else◌, ltb, leb, ◌==◌, any, ◌&&◌, ◌||◌,
}

pub data KycStatus : Type 0 where
  pending approved rejected re_verification_pending : KycStatus

-- A record as it arrives: the status is a text.
pub record KycRecord : Type 0 where
  pub user_id : String
  pub anchor_id : String
  pub kyc_status : String
  pub kyc_level : Option String
  pub rejection_reason : Option String
  pub verified_at : ℕ
  pub expires_at : Option ℕ

-- A row of `user_kyc_status`, but for its key.
pub record KycRow : Type 0 where
  pub kyc_status : KycStatus
  pub kyc_level : Option String
  pub rejection_reason : Option String
  pub verified_at : ℕ
  pub expires_at : Option ℕ

-- A call of `onChainSync`.
pub record SyncCall : Type 0 where
  pub user : String
  pub approves : Bool
  pub expiry : Option ℕ

abbrev pub Rows : Type 0
Rows = List ((String × String) × KycRow)

pub record KycDb : Type 0 where
  pub rows : Rows
  pub calls : List SyncCall

-- `VALID_STATUSES.includes(status)`, with the status that the text is.
unfoldable pub status_of : String → Option KycStatus
status_of text =
    if text == "pending"
    then some pending
    else if text == "approved"
    then some approved
    else if text == "rejected"
    then some rejected
    else if text == "re_verification_pending"
    then some re_verification_pending
    else none

-- A status that is not known, and a statement that fails.
pub data UpsertError : Type 0 where
  invalid_status query_failed : UpsertError

abbrev pub row_of : KycRecord → KycStatus → KycRow
row_of r status = record {
  kyc_status = status;
  kyc_level = r.kyc_level;
  rejection_reason = r.rejection_reason;
  verified_at = r.verified_at;
  expires_at = r.expires_at;
}

-- `INSERT … ON CONFLICT … DO UPDATE … WHERE user_kyc_status.verified_at < EXCLUDED.verified_at`,
-- and whether it wrote a row.
unfoldable pub write : String × String → KycRow → Rows → Rows × Bool
write key row rows = elim (get key rows) [
  | none ↦ (put key row rows, true)
  | some old ↦
      if ltb old.verified_at row.verified_at then (put key row rows, true) else (rows, false)
]

-- What is sent on for a row that was written.
abbrev pub sync_of : KycRecord → KycStatus → List SyncCall
sync_of r approved = record { user = r.user_id; approves = true; expiry = r.expires_at } ∷ []
sync_of r rejected = record { user = r.user_id; approves = false; expiry = none } ∷ []
sync_of r _ = []

abbrev pub key_of : KycRecord → String × String
key_of r = (r.user_id, r.anchor_id)

-- The columns `kyc_status VARCHAR(20) CHECK (…)` and `kyc_level CHECK (…)` of
-- backend/migrations/kyc_status_schema.sql.
abbrev pub column_takes : KycStatus → Bool
column_takes pending = true
column_takes approved = true
column_takes rejected = true
column_takes re_verification_pending = false

abbrev pub level_takes : Option String → Bool
level_takes none = true
level_takes (some level) = level == "basic" || (level == "intermediate" || level == "advanced")

-- Whether the statement goes through, given that nothing else makes it fail.
abbrev pub accepted : Bool → KycRecord → KycStatus → Bool
accepted works r status = works && (column_takes status && level_takes r.kyc_level)

-- `works` says that the statement does not fail for a reason other than these two columns. A statement
-- that fails throws, and nothing is sent on.
unfoldable pub upsert : Bool → KycRecord → KycDb → Outcome UpsertError (Unit {0}) × KycDb
upsert works r db = elim (status_of r.kyc_status) [
  | none ↦ (err invalid_status, db)
  | some status ↦
      let (rows, wrote) = write (key_of r) (row_of r status) db.rows in
      if accepted works r status
      then (
        ok tt,
        record { rows = rows; calls = if wrote then db.calls ++ sync_of r status else db.calls },
      )
      else (err query_failed, db)
]

pub data Reason : Type 0 where
  no_kyc_record re_verification kyc_expired kyc_rejected kyc_pending : Reason

-- An anchor's record in the answer.
pub record AnchorKyc : Type 0 where
  pub anchor_id : String
  pub row : KycRow

pub record UserKycStatus : Type 0 where
  pub overall_status : KycStatus
  pub can_transfer : Bool
  pub reason : Option Reason
  pub anchors : List AnchorKyc
  pub last_checked : ℕ

-- `WHERE user_id = $1`.
unfoldable pub rows_of : String → Rows → List AnchorKyc
rows_of user [] = []
rows_of user (((u, a), row) ∷ rows) =
    let rest = rows_of user rows in
    if u == user then record { anchor_id = a; row = row } ∷ rest else rest

-- `ORDER BY verified_at DESC`; rows of one time keep their order here.
unfoldable pub insert_by_time : AnchorKyc → List AnchorKyc → List AnchorKyc
insert_by_time x [] = x ∷ []
insert_by_time x (y ∷ ys) =
    let later = insert_by_time x ys in
    if leb y.row.verified_at x.row.verified_at then x ∷ y ∷ ys else y ∷ later

unfoldable pub order_by_time : List AnchorKyc → List AnchorKyc
unfolding insert_by_time
order_by_time [] = []
order_by_time (x ∷ xs) = insert_by_time x (order_by_time xs)

abbrev pub status_is : KycStatus → KycStatus → Bool
status_is pending pending = true
status_is approved approved = true
status_is rejected rejected = true
status_is re_verification_pending re_verification_pending = true
status_is _ _ = false

-- `!r.expires_at || r.expires_at > now`.
abbrev pub unexpired : ℕ → Option ℕ → Bool
unexpired now none = true
unexpired now (some t) = ltb now t

-- `r.expires_at && r.expires_at <= now`.
abbrev pub is_expired : ℕ → Option ℕ → Bool
is_expired now none = false
is_expired now (some t) = leb t now

abbrev pub has_status : KycStatus → AnchorKyc → Bool
has_status s a = status_is a.row.kyc_status s

abbrev pub valid_approval : ℕ → AnchorKyc → Bool
valid_approval now a = has_status approved a && unexpired now a.row.expires_at

abbrev pub lapsed_approval : ℕ → AnchorKyc → Bool
lapsed_approval now a = has_status approved a && is_expired now a.row.expires_at

abbrev answer : ℕ → List AnchorKyc → KycStatus → Bool → Option Reason → UserKycStatus
answer now rows status can why = record {
  overall_status = status;
  can_transfer = can;
  reason = why;
  anchors = rows;
  last_checked = now;
}

-- The returns behind the one for no rows, in order, on the values of their tests.
unfoldable pub verdict : ℕ → List AnchorKyc → Bool → Bool → Bool → Bool → UserKycStatus
verdict now rows in_re_verification has_approved has_expired has_rejected =
    if in_re_verification
    then answer now rows pending false (some re_verification)
    else if has_approved
    then answer now rows approved true none
    else if has_expired
    then answer now rows rejected false (some kyc_expired)
    else if has_rejected
    then answer now rows rejected false (some kyc_rejected)
    else answer now rows pending false (some kyc_pending)

unfoldable pub aggregate : ℕ → List AnchorKyc → UserKycStatus
aggregate now [] = answer now [] pending false (some no_kyc_record)
aggregate now (x ∷ xs) =
    let rows = x ∷ xs in
    verdict now rows (any (has_status re_verification_pending) rows) (any (valid_approval now) rows)
      (any (lapsed_approval now) rows) (any (has_status rejected) rows)

unfoldable pub get_status_for_user : ℕ → String → KycDb → UserKycStatus
get_status_for_user now user db = aggregate now (order_by_time (rows_of user db.rows))
