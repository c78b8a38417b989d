-- ===== src/Kyc/Guard.antt =====
-- backend/src/transfer-guard.ts: the middleware that lets a transfer through or answers itself.
use daddy_config.Base.{text_equality, ℕ, Option, none, some, String, if◌then◌else◌, ◌==◌, any}
use daddy_config.Kyc.Store.{
  KycDb, UserKycStatus, Reason, no_kyc_record, re_verification, kyc_expired, kyc_rejected,
  kyc_pending, re_verification_pending, has_status, lapsed_approval, get_status_for_user,
}

pub data Code : Type 0 where
  not_approved expired re_verifying waiting : Code

-- `next()`, or the response: 401, 403 with a code, 500.
pub data Response : Type 0 where
  next : Response
  unauthorized : Response
  forbidden : Code → Response
  internal_error : Response

abbrev pub code_of : Option Reason → Code
code_of (some kyc_expired) = expired
code_of (some re_verification) = re_verifying
code_of (some kyc_pending) = waiting
code_of (some no_kyc_record) = waiting
code_of (some kyc_rejected) = not_approved
code_of none = not_approved

-- The checks on the status that was read, at the guard's own time.
unfoldable pub decide : ℕ → UserKycStatus → Response
decide now status =
    if status.can_transfer
    then if any (lapsed_approval now) status.anchors
      then forbidden expired
      else if any (has_status re_verification_pending) status.anchors
      then forbidden re_verifying
      else next
    else forbidden (code_of status.reason)

-- `read` is the time at which the service reads the rows, or nothing if the database fails; `now`
-- is the time at which the guard looks at the clock. No user, or an empty id, is 401.
unfoldable pub transfer_guard : Option ℕ → ℕ → Option String → KycDb → Response
transfer_guard read now none db = unauthorized
transfer_guard read now (some user) db = if user == "" then unauthorized else elim read [
  | none ↦ internal_error
  | some time ↦ decide now (get_status_for_user time user db)
]
