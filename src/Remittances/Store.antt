-- ===== src/Remittances/Store.antt =====
-- `PostgresRemittanceStore` of api/src/db/remittanceStore.ts. The column of a time counts microseconds,
-- and the text that `toISOString` makes of it milliseconds. The database's order of texts, and what
-- a cursor's text decodes to, are inputs. A query reads the rows in its order and keeps those that
-- satisfy its conditions, which is the same as to sort what it keeps.
use daddy_config.Base.{
  text_equality, ℕ, ◌+◌, ◌*◌, ◌/◌, Bool, true, false, Option, none, some, List, [], ◌∷◌, String,
  ◌==◌, ◌&&◌, ◌||◌, if◌then◌else◌, ltb, leb, eqb, select, take, length, map, get, put, has, values,
  not, Outcome, ok, err, ◌≡◌,
}

-- How the database orders texts.
pub record Collation : Type 0 where
  pub less : String → String → Bool
  pub less_irreflexive : (a : String) → less a a ≡ false
  pub less_transitive : (a b c : String) → less a b ≡ true → less b c ≡ true → less a c ≡ true

-- One of the six texts of the type.
abbrev pub RemittanceStatus : Type 0
RemittanceStatus = String

-- A row of `remittances`. The column `corridor` is there only after a migration.
pub record RemittanceRow : Type 0 where
  pub id : String
  pub sender_id : String
  pub agent_id : String
  pub amount : ℕ
  pub fee : ℕ
  pub status : RemittanceStatus
  pub created_at : ℕ
  pub updated_at : ℕ
  pub corridor : String

pub record Remittance : Type 0 where
  pub id : String
  pub sender_id : String
  pub agent_id : String
  pub amount : ℕ
  pub fee : ℕ
  pub status : RemittanceStatus
  pub created_at : ℕ
  pub updated_at : ℕ

pub record Table : Type 0 where
  pub rows : List (String × RemittanceRow)
  pub has_corridor : Bool

-- `toISOString` keeps the milliseconds.
abbrev pub map_row : RemittanceRow → Remittance
map_row row = record {
  id = row.id;
  sender_id = row.sender_id;
  agent_id = row.agent_id;
  amount = row.amount;
  fee = row.fee;
  status = row.status;
  created_at = row.created_at / 1000;
  updated_at = row.updated_at / 1000;
}

abbrev pub map_found : Option RemittanceRow → Option Remittance
map_found none = none
map_found (some row) = some (map_row row)

unfoldable pub get_by_id : String → Table → Option Remittance
get_by_id id t = map_found (get id t.rows)

pub data StoreError : Type 0 where
  duplicate_key undefined_column invalid_cursor : StoreError

-- The primary key refuses an id that is there; the times are the database's `NOW()`.
unfoldable pub create : ℕ → Remittance → Table → Outcome StoreError Remittance × Table
create now r t =
    if has r.id t.rows
    then (err duplicate_key, t)
    else (let row : RemittanceRow = record {
      id = r.id;
      sender_id = r.sender_id;
      agent_id = r.agent_id;
      amount = r.amount;
      fee = r.fee;
      status = r.status;
      created_at = now;
      updated_at = now;
      corridor = "";
    } in
        (ok (map_row row), record t { rows = put r.id row t.rows }))

unfoldable pub update_status : ℕ → String → RemittanceStatus → Table → Option Remittance × Table
update_status now id status t = elim (get id t.rows) [
  | none ↦ (none, t)
  | some row ↦
      let updated : RemittanceRow = record row { status = status; updated_at = now } in
      (some (map_row updated), record t { rows = put id updated t.rows })
]

-- What a cursor's text decodes to: a bare time, or a time with an id. A time that is none is no date.
pub data Cursor : Type 0 where
  at_time : Option ℕ → Cursor
  at_row : Option ℕ → String → Cursor

pub record Filters : Type 0 where
  pub agent_id : Option String
  pub status : Option RemittanceStatus
  pub from_date : Option ℕ
  pub to_date : Option ℕ
  pub corridor : Option String
  pub min_amount : Option ℕ
  pub max_amount : Option ℕ

-- A page's boundary: milliseconds, and an id.
abbrev pub Boundary : Type 0
Boundary = ℕ × Option String

abbrev pub boundary_of : Option Cursor → Outcome StoreError Boundary
boundary_of none = err invalid_cursor
boundary_of (some (at_time none)) = err invalid_cursor
boundary_of (some (at_time (some ms))) = ok (ms, none)
boundary_of (some (at_row none id)) = err invalid_cursor
boundary_of (some (at_row (some ms) id)) = ok (ms, if id == "" then none else some id)

-- No cursor, or an empty one, is no boundary.
abbrev pub decoded : (String → Option Cursor) → Option String → Outcome StoreError (Option Boundary)
decoded decode none = ok none
decoded decode (some text) =
    if text == ""
    then ok none
    else elim (boundary_of (decode text)) [ ok b ↦ ok (some b) | err e ↦ err e ]

-- `if (value)` on a text.
abbrev pub text_matches : Option String → String → Bool
text_matches none x = true
text_matches (some wanted) x = wanted == "" || x == wanted

abbrev pub at_least : Option ℕ → ℕ → Bool
at_least none n = true
at_least (some low) n = leb low n

-- `created_at >= $n` and `created_at <= $n`, for a date in milliseconds.
abbrev pub from_date : Option ℕ → ℕ → Bool
from_date none n = true
from_date (some low) n = leb (low * 1000) n

abbrev pub to_date : Option ℕ → ℕ → Bool
to_date none n = true
to_date (some high) n = leb n (high * 1000)

abbrev pub at_most : Option ℕ → ℕ → Bool
at_most none n = true
at_most (some high) n = leb n high

-- The conditions on a row.
unfoldable pub keeps : Filters → RemittanceRow → Bool
keeps f row =
    text_matches f.agent_id row.agent_id
    && (text_matches f.status row.status
        && (from_date f.from_date row.created_at
            && (to_date f.to_date row.created_at
                && (text_matches f.corridor row.corridor
                    && (at_least f.min_amount row.amount && at_most f.max_amount row.amount)))))

abbrev pub asks_corridor : Filters → Bool
asks_corridor f = elim f.corridor [ none ↦ false | some c ↦ not (c == "") ]

module _ (c : Collation) where
  -- `created_at < $1 OR (created_at = $1 AND id < $2)`, or the first part only.
  unfoldable pub after_boundary : Boundary → RemittanceRow → Bool
  after_boundary (ms, none) row = ltb row.created_at (ms * 1000)
  after_boundary (ms, some id) row =
      ltb row.created_at (ms * 1000) || (eqb row.created_at (ms * 1000) && c.less row.id id)

  abbrev pub past : Option Boundary → RemittanceRow → Bool
  past none row = true
  past (some b) row = after_boundary b row

  -- `ORDER BY created_at DESC, id DESC`: whether `x` comes before `y`.
  unfoldable pub before : RemittanceRow → RemittanceRow → Bool
  before x y = ltb y.created_at x.created_at || (eqb x.created_at y.created_at && c.less y.id x.id)

  unfoldable pub insert_row : RemittanceRow → List RemittanceRow → List RemittanceRow
  insert_row x [] = x ∷ []
  insert_row x (y ∷ ys) =
      let later = insert_row x ys in if before x y then x ∷ y ∷ ys else y ∷ later

  unfoldable pub ordered : List RemittanceRow → List RemittanceRow
  ordered [] = []
  ordered (x ∷ xs) = insert_row x (ordered xs)

  -- The rows that the statement yields.
  unfoldable pub query_rows : Option Boundary → ℕ → Filters → Table → List RemittanceRow
  query_rows b limit f t =
      take (limit + 1) (select (λ row. past b row && keeps f row) (ordered (values t.rows)))

pub record PaginatedResult : Type 0 where
  pub items : List Remittance
  pub next_cursor : Option String
  pub has_more : Bool

abbrev pub last : List Remittance → Option Remittance
last [] = none
last (x ∷ []) = some x
last (x ∷ y ∷ ys) = last (y ∷ ys)

abbrev pub cursor_after : (Cursor → String) → Bool → Option Remittance → Option String
cursor_after encode true (some r) = some (encode (at_row (some r.created_at) r.id))
cursor_after encode _ _ = none

-- The page that is made of the rows.
unfoldable pub page_of : (Cursor → String) → ℕ → List RemittanceRow → PaginatedResult
page_of encode limit rows =
    let has_more = ltb limit (length rows) in
    let items = map map_row (take limit rows) in
    record {
      items = items;
      next_cursor = cursor_after encode has_more (last items);
      has_more = has_more;
    }

unfoldable pub query_with_cursor :
    Collation
    → (Cursor → String)
    → (String → Option Cursor)
    → Option String
    → ℕ
    → Filters
    → Table
    → Outcome StoreError PaginatedResult
query_with_cursor c encode decode cursor limit f t = elim (decoded decode cursor) [
  | err e ↦ err e
  | ok b ↦
      if asks_corridor f && not t.has_corridor
      then err undefined_column
      else ok (page_of encode limit (query_rows c b limit f t))
]
