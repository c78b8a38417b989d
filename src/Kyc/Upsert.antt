-- ===== src/Kyc/Upsert.antt =====
-- Last write wins, by backend/src/kyc-upsert-service.ts.
use daddy_config.Base.{
  text_equality, pair_equality, ◌≡◌, ◌≢◌, refl, Bool, true, false, Option, none, some, ◌++◌, String,
  get, get-put, arith, ltb, if◌then◌else◌, ◌==◌, ok, err, ◌⊎◌, inl, inr, ◌&&◌, Bool-cases,
  pair_equals_iff,
}
use daddy_config.Kyc.Store.{
  KycRecord, KycRow, Rows, KycDb, KycStatus, write, row_of, key_of, status_of, sync_of, upsert,
  accepted, level_takes, re_verification_pending, query_failed,
}

-- The row that a key has after a write of `row` to it.
unfoldable pub newer : Option KycRow → KycRow → KycRow
newer none row = row
newer (some old) row = if ltb old.verified_at row.verified_at then row else old

-- Whether the write is newer than what is there.
abbrev pub wins : Option KycRow → KycRow → Bool
wins none row = true
wins (some old) row = ltb old.verified_at row.verified_at

get-write :
    (key j : String × String) (row : KycRow) (rows : Rows)
    → get j (write key row rows).0
      ≡ (if key == j then some (newer (get key rows) row) else get j rows)
unfolding write newer
get-write key j row rows = ground (arith, get-put key j row rows, pair_equals_iff key j)

write-wins :
    (key : String × String) (row : KycRow) (rows : Rows)
    → (write key row rows).1 ≡ wins (get key rows) row
unfolding write
write-wins key row rows = ground arith

newer_comm :
    (old : Option KycRow) (r s : KycRow)
    → r.verified_at ≢ s.verified_at
    → newer (some (newer old r)) s ≡ newer (some (newer old s)) r
unfolding newer
newer_comm none r s d = ground arith
newer_comm (some old) r s d = ground arith

-- An upsert of a known status whose statement goes through keeps, for its user and anchor, the record
-- that was verified later, the stored one at equal times; it leaves every other row alone; and it
-- tells the contract exactly if it wrote the row and the status is approved or rejected. Where the
-- statement fails, the upsert throws and changes no row and tells nothing. The statement fails for
-- every record of the status `re_verification_pending`.
pub upsert-newer :
    (works : Bool) (r : KycRecord) (status : KycStatus) (db : KycDb) (j : String × String)
    → status_of r.kyc_status ≡ some status
    → let o = upsert works r db in
      (o.0 ≡ (if accepted works r status then ok tt else err query_failed))
      × (get j o.1.rows ≡ (
          if accepted works r status && (key_of r == j)
          then some (newer (get (key_of r) db.rows) (row_of r status))
          else get j db.rows))
      × (o.1.calls ≡ (
          if accepted works r status && wins (get (key_of r) db.rows) (row_of r status)
          then db.calls ++ sync_of r status
          else db.calls))
      × (accepted works r re_verification_pending ≡ false)
unfolding upsert
upsert-newer works r status db j known = elim (Bool-cases (accepted works r status)) [
  | inl taken ↦ (
    rw (known, upsert) (rw taken refl),
    rw (known, upsert) (rw taken (get-write (key_of r) j (row_of r status) db.rows)),
    rw (known, upsert) (rw taken (rw (write-wins (key_of r) (row_of r status) db.rows) refl)),
    never works,
  )
  | inr failed ↦ (
    rw (known, upsert) (rw failed refl),
    rw (known, upsert) (rw failed refl),
    rw (known, upsert) (rw failed refl),
    never works,
  )
]
  where
    never : (b : Bool) → (b && (false && level_takes r.kyc_level)) ≡ false
    never true = refl
    never false = refl

-- A status that is none of the four is refused and changes nothing.
upsert_unknown :
    (works : Bool) (r : KycRecord) (db : KycDb)
    → status_of r.kyc_status ≡ none
    → (upsert works r db).1 ≡ db
unfolding upsert
upsert_unknown works r db unknown = rw (unknown, upsert)

two_writes :
    (k l j : String × String) (r s : KycRow) (rows : Rows)
    → k ≢ l ⊎ (r.verified_at ≢ s.verified_at)
    → get j (write l s (write k r rows).0).0 ≡ get j (write k r (write l s rows).0).0
two_writes k l j r s rows apart =
    let first = (write k r rows).0 in
    let second = (write l s rows).0 in
    ground (
      arith,
      get-write l j s first,
      get-write k l r rows,
      get-write k j r rows,
      get-write k j r second,
      get-write l k s rows,
      get-write l j s rows,
      pair_equals_iff k l,
      pair_equals_iff l k,
      pair_equals_iff k j,
      pair_equals_iff l j,
      newer_comm (get k rows) r s,
    )

-- The table after an upsert of a known status.
upsert-rows :
    (works : Bool) (r : KycRecord) (status : KycStatus) (db : KycDb)
    → status_of r.kyc_status ≡ some status
    → (upsert works r db).1.rows ≡ (
        if accepted works r status then (write (key_of r) (row_of r status) db.rows).0 else db.rows)
unfolding upsert
upsert-rows works r status db known = elim (Bool-cases (accepted works r status)) [
  | inl taken ↦ rw (known, upsert) (rw taken refl)
  | inr failed ↦ rw (known, upsert) (rw failed refl)
]

-- Two upserts of known statuses can arrive in either order: if they are for different keys, or
-- were verified at different times, every row is the same in the end, whether or not the statement
-- of each fails.
pub upsert_comm :
    (a b : Bool) (r s : KycRecord) (p q : KycStatus) (db : KycDb)
    → status_of r.kyc_status ≡ some p
    → status_of s.kyc_status ≡ some q
    → (key_of r ≢ key_of s) ⊎ (r.verified_at ≢ s.verified_at)
    → (j : String × String)
    → get j (upsert b s (upsert a r db).1).1.rows ≡ get j (upsert a r (upsert b s db).1).1.rows
upsert_comm a b r s p q db known_r known_s apart j =
    rw
      (
        upsert-rows b s q (upsert a r db).1 known_s,
        upsert-rows a r p db known_r,
        upsert-rows a r p (upsert b s db).1 known_r,
        upsert-rows b s q db known_s,
      )
      (either (accepted a r p) (accepted b s q))
  where
    either :
        (c d : Bool)
        → get j (
            if d
            then (write
                (key_of s)
                (row_of s q)
                (if c then (write (key_of r) (row_of r p) db.rows).0 else db.rows)).0
            else if c
            then (write (key_of r) (row_of r p) db.rows).0
            else db.rows)
          ≡ get j (
              if c
              then (write
                  (key_of r)
                  (row_of r p)
                  (if d then (write (key_of s) (row_of s q) db.rows).0 else db.rows)).0
              else if d
              then (write (key_of s) (row_of s q) db.rows).0
              else db.rows)
    either true true = two_writes (key_of r) (key_of s) j (row_of r p) (row_of s q) db.rows apart
    either true false = refl
    either false true = refl
    either false false = refl
