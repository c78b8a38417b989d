-- ===== src/Remittances/Tests.antt =====
-- The theorems on the pages of remittances at concrete inputs.
use text.Mathlib.TextEquality.{eq_iff}
use daddy_config.Base.{
  text_equality, ℕ, ◌≡◌, ◌≢◌, refl, Bool, true, false, Option, none, some, [], ◌∷◌, String, arith,
  suc, length, map, values, ◌==◌, ◌&&◌, inl, inr, All, ◌++◌, ok, sym,
}
use daddy_config.Remittances.Store.{
  Collation, RemittanceRow, Table, Filters, Cursor, at_row, at_time, map_row, before,
  query_with_cursor, Remittance, PaginatedResult, keeps, ordered, insert_row,
}
use daddy_config.Remittances.Order.{AllComparable}
use daddy_config.Remittances.Traversal.{
  Whole, matching, all_pages, all_pages_complete, cursor_skips,
}

not_both : (p q : Bool) → ((p ≡ true) → (q ≡ true) → ⊥) → (p && q) ≡ false
not_both p q h = ground (arith, h)

-- A database that orders "a" before "b".
a-ne-b : ◌≢◌ {A = String} "a" "b"
a-ne-b e = cc ((eq_iff "a" "b").1 e)

abbrev order : String → String → Bool
order x y = (x == "a") && (y == "b")

order_irrefl : (x : String) → order x x ≡ false
order_irrefl x =
    not_both (x == "a") (x == "b") (λ p q. a-ne-b (cc ((eq_iff x "a").0 p, (eq_iff x "b").0 q)))

order_trans : (x y z : String) → order x y ≡ true → order y z ≡ true → order x z ≡ true
order_trans x y z h k =
    let (_, y_b) = split_and (x == "a") (y == "b") h in
    let (y_a, _) = split_and (y == "a") (z == "b") k in
    absurd (a-ne-b (cc ((eq_iff y "a").0 y_a, (eq_iff y "b").0 y_b)))
  where
    split_and : (p q : Bool) → (p && q) ≡ true → (p ≡ true) × (q ≡ true)
    split_and p q e = ground arith

abbrev collation : Collation
collation = record { less = order; less_irreflexive = order_irrefl; less_transitive = order_trans }

abbrev row_at : String → ℕ → RemittanceRow
row_at id time = record {
  id = id;
  sender_id = "s";
  agent_id = "g";
  amount = 5;
  fee = 1;
  status = "Pending";
  created_at = time;
  updated_at = time;
  corridor = "";
}

abbrev table : Table
table = record { rows = ("a", row_at "a" 1000) ∷ ("b", row_at "b" 1000) ∷ []; has_corridor = false }

abbrev anything : Filters
anything = record {
  agent_id = none;
  status = none;
  from_date = none;
  to_date = none;
  corridor = none;
  min_amount = none;
  max_amount = none;
}

-- The text of a row's cursor is its id here.
abbrev encode : Cursor → String
encode (at_time t) = ""
encode (at_row t id) = id

abbrev decode : String → Option Cursor
decode text = some (at_row (some 1) text)

a-ne-empty : ◌≢◌ {A = String} "a" ""
a-ne-empty e = cc ((eq_iff "a" "").1 e)

b-ne-empty : ◌≢◌ {A = String} "b" ""
b-ne-empty e = cc ((eq_iff "b" "").1 e)

All-Whole : All (Whole encode decode) (values table.rows)
All-Whole = ((refl, a-ne-empty, a-ne-empty, refl), ((refl, b-ne-empty, b-ne-empty, refl), tt))

comparable : AllComparable collation (values table.rows)
comparable = ((inl refl, tt), (tt, tt))

all_pages_complete_example :
    all_pages
      (λ cursor. query_with_cursor collation encode decode cursor 1 anything table)
      (suc (length (matching collation anything table)))
      none
    ≡ some (map map_row (matching collation anything table))
all_pages_complete_example =
    all_pages_complete collation encode decode 0 anything table refl All-Whole comparable

-- Two rows within the first millisecond.
abbrev fine_table : Table
fine_table = record {
  rows = ("b", row_at "b" 1500) ∷ ("a", row_at "a" 1400) ∷ [];
  has_corridor = false;
}

b-ne-a : ◌≢◌ {A = String} "b" "a"
b-ne-a e = a-ne-b (sym e)

fine_rows : matching collation anything fine_table ≡ [] ++ row_at "b" 1500 ∷ row_at "a" 1400 ∷ []
unfolding keeps ordered insert_row before
fine_rows = refl

cursor_skips_example :
    (first : PaginatedResult) × (second : PaginatedResult) × (query_with_cursor collation encode
        decode none 1 anything fine_table
      ≡ ok first)
    × (first.items ≡ map map_row ([] ++ row_at "b" 1500 ∷ []))
    × (first.next_cursor ≡ some "b")
    × (query_with_cursor collation encode decode first.next_cursor 10 anything fine_table
        ≡ ok second)
    × All (λ (r : Remittance). r.id ≢ "a") second.items
cursor_skips_example =
    cursor_skips collation encode decode anything fine_table [] [] (row_at "b" 1500)
      (row_at "a" 1400) 10 refl fine_rows (omega arith) refl (inl b-ne-a, (inr refl, tt))
