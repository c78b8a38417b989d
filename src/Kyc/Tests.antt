-- ===== src/Kyc/Tests.antt =====
-- The theorems on the identity records at concrete inputs.
use daddy_config.Base.{
  ◌≡◌, ◌≢◌, refl, inr, none, some, [], ◌∷◌, String, get, arith, text_equality, pair_equality,
  if◌then◌else◌, ◌==◌, ◌++◌, ◌&&◌, ok, err, true, false, ◌↔◌,
}
use text.Mathlib.TextEquality.{eq_iff}
use daddy_config.Kyc.Store.{
  KycRecord, KycDb, approved, rejected, status_of, upsert, key_of, row_of, sync_of, accepted,
  query_failed, re_verification_pending,
}
use daddy_config.Kyc.Guard.{next, transfer_guard}
use daddy_config.Kyc.Laws.{SomeRow, IsApproved, IsReVerifying, IsLapsed, guard_passes}
use daddy_config.Kyc.Upsert.{upsert-newer, upsert_comm, newer, wins}

abbrev approval : KycRecord
approval = record {
  user_id = "ann";
  anchor_id = "north";
  kyc_status = "approved";
  kyc_level = some "basic";
  rejection_reason = none;
  verified_at = 10;
  expires_at = some 50;
}

abbrev refusal : KycRecord
refusal = record {
  user_id = "ann";
  anchor_id = "north";
  kyc_status = "rejected";
  kyc_level = none;
  rejection_reason = some "photo";
  verified_at = 20;
  expires_at = none;
}

abbrev empty : KycDb
empty = record { rows = []; calls = [] }

abbrev one : KycDb
one = record { rows = (("ann", "north"), row_of approval approved) ∷ []; calls = [] }

approval_known : status_of approval.kyc_status ≡ some approved
unfolding status_of
approval_known = refl

refusal_known : status_of refusal.kyc_status ≡ some rejected
unfolding status_of
refusal_known = refl

ann_named : ◌≢◌ {A = String} "ann" ""
ann_named e = cc ((eq_iff "ann" "").1 e)

guard_passes_example : (transfer_guard (some 30) 31 (some "ann") one ≡ next) ↔ (
    SomeRow "ann" (IsApproved 30) one.rows
    × (¬ (SomeRow "ann" IsReVerifying one.rows))
    × (¬ (SomeRow "ann" (IsLapsed 31) one.rows)))
guard_passes_example = guard_passes 30 31 "ann" one ann_named

upsert-newer_example :
    let o = upsert true refusal one in
    (o.0 ≡ (if accepted true refusal rejected then ok tt else err query_failed))
    × (get ("ann", "north") o.1.rows ≡ (
        if accepted true refusal rejected && (key_of refusal == ("ann", "north"))
        then some (newer (get (key_of refusal) one.rows) (row_of refusal rejected))
        else get ("ann", "north") one.rows))
    × (o.1.calls ≡ (
        if accepted true refusal rejected
          && wins (get (key_of refusal) one.rows) (row_of refusal rejected)
        then one.calls ++ sync_of refusal rejected
        else one.calls))
    × (accepted true refusal re_verification_pending ≡ false)
upsert-newer_example = upsert-newer true refusal rejected one ("ann", "north") refusal_known

-- The refusal's statement goes through.
refusal-accepted : accepted true refusal rejected ≡ true
refusal-accepted = refl

apart : approval.verified_at ≢ refusal.verified_at
apart = omega arith

upsert_comm_example :
    get ("ann", "north") (upsert true refusal (upsert true approval empty).1).1.rows
    ≡ get ("ann", "north") (upsert true approval (upsert true refusal empty).1).1.rows
upsert_comm_example =
    upsert_comm true true approval refusal approved rejected empty approval_known refusal_known
      (inr apart) ("ann", "north")
