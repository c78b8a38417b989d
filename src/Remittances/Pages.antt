-- ===== src/Remittances/Pages.antt =====
-- One page of a query: what `LIMIT` cuts off, and the row that the next page begins after.
use mathlib.Core.Path.{ap}
use daddy_config.Base.{
  ℕ, ◌*◌, ◌/◌, ◌<◌, zero, suc, Bool, true, false, none, some, List, [], ◌∷◌, ◌++◌, String, ◌≡◌,
  refl, sym, ◌∙◌, arith, ltb, ◌&&◌, select, take, length, map, All,
}
use daddy_config.Remittances.Store.{
  Collation, RemittanceRow, Remittance, map_row, last, before, after_boundary, page_of, Cursor,
  at_row,
}

pub select-and :
    (p q : RemittanceRow → Bool) (xs : List RemittanceRow)
    → select (λ x. p x && q x) xs ≡ select p (select q xs)
select-and p q [] = refl
select-and p q (x ∷ xs) = ground (arith, select-and p q xs)

pub select_ext :
    (p q : RemittanceRow → Bool) (xs : List RemittanceRow)
    → ((x : RemittanceRow) → p x ≡ q x)
    → select p xs ≡ select q xs
select_ext p q [] h = refl
select_ext p q (x ∷ xs) h = ground (arith, select_ext p q xs h, h x)

pub select-true : (xs : List RemittanceRow) → select (λ x. true) xs ≡ xs
select-true [] = refl
select-true (x ∷ xs) = ap (λ r. x ∷ r) (select-true xs)

-- The row that a page of `suc n` ends with, where more rows follow.
pub record Split (n : ℕ) (rows : List RemittanceRow) : Type 0 where
  pub front : List RemittanceRow
  pub end_row : RemittanceRow
  pub rest : List RemittanceRow
  pub whole : rows ≡ front ++ end_row ∷ rest
  pub page : take (suc n) rows ≡ front ++ end_row ∷ []
  pub shorter : length rest < length rows

pub split : (n : ℕ) (rows : List RemittanceRow) → ltb (suc n) (length rows) ≡ true → Split n rows
split n [] h = absurd (ground arith)
split zero (x ∷ rows) h = record {
  front = [];
  end_row = x;
  rest = rows;
  whole = refl;
  page = refl;
  shorter = omega arith;
}
split (suc n) (x ∷ rows) h =
    let s = split n rows (ground arith) in
    record {
      front = x ∷ s.front;
      end_row = s.end_row;
      rest = s.rest;
      whole = ap (λ r. x ∷ r) s.whole;
      page = ap (λ r. x ∷ r) s.page;
      shorter = omega (arith, s.shorter);
    }

take_shorter : (n : ℕ) (rows : List RemittanceRow) → take n (take (suc n) rows) ≡ take n rows
take_shorter zero rows = refl
take_shorter (suc n) [] = refl
take_shorter (suc n) (x ∷ rows) = ap (λ r. x ∷ r) (take_shorter n rows)

more_kept :
    (n : ℕ) (rows : List RemittanceRow) → ltb n (length (take (suc n) rows)) ≡ ltb n (length rows)
more_kept n [] = refl
more_kept zero (x ∷ rows) = ground arith
more_kept (suc n) (x ∷ rows) = ground (arith, more_kept n rows)

take_all : (n : ℕ) (rows : List RemittanceRow) → ltb n (length rows) ≡ false → take n rows ≡ rows
take_all zero [] h = refl
take_all zero (x ∷ rows) h = absurd (ground arith)
take_all (suc n) [] h = refl
take_all (suc n) (x ∷ rows) h = ap (λ r. x ∷ r) (take_all n rows (ground arith))

last-map :
    (front : List RemittanceRow) (x : RemittanceRow)
    → last (map map_row (front ++ x ∷ [])) ≡ some (map_row x)
last-map [] x = refl
last-map (y ∷ []) x = refl
last-map (y ∷ z ∷ front) x = last-map (z ∷ front) x

pub map_pieces :
    (front : List RemittanceRow) (x : RemittanceRow) (rest : List RemittanceRow)
    → map map_row (front ++ x ∷ []) ++ map map_row rest ≡ map map_row (front ++ x ∷ rest)
map_pieces [] x rest = refl
map_pieces (y ∷ front) x rest = ap (λ r. map_row y ∷ r) (map_pieces front x rest)

-- The page of the first `suc n` rows, with more to come, and without.
pub page_more :
    (encode : Cursor → String) (n : ℕ) (rows : List RemittanceRow)
    (more : ltb (suc n) (length rows) ≡ true)
    → let s = split n rows more in
      let p = page_of encode (suc n) (take (suc (suc n)) rows) in
      (p.items ≡ map map_row (s.front ++ s.end_row ∷ []))
      × (p.next_cursor ≡ some (encode (at_row (some (s.end_row.created_at / 1000)) s.end_row.id)))
unfolding page_of
page_more encode n rows more =
    let s = split n rows more in
    let cut : take (suc n) (take (suc (suc n)) rows) ≡ s.front ++ s.end_row ∷ [] =
      take_shorter (suc n) rows ∙ s.page in
    (ap (map map_row) cut, rw (more_kept (suc n) rows, more, cut, last-map s.front s.end_row) refl)

pub page_last :
    (encode : Cursor → String) (n : ℕ) (rows : List RemittanceRow)
    → ltb (suc n) (length rows) ≡ false
    → let p = page_of encode (suc n) (take (suc (suc n)) rows) in
      (p.items ≡ map map_row rows) × (p.next_cursor ≡ none)
unfolding page_of
page_last encode n rows done = (
  ap (map map_row) (take_shorter (suc n) rows ∙ take_all (suc n) rows done),
  rw (more_kept (suc n) rows, done) refl,
)

take_front :
    (front : List RemittanceRow) (x : RemittanceRow) (rest : List RemittanceRow)
    → take (suc (length front)) (front ++ x ∷ rest) ≡ front ++ x ∷ []
take_front [] x rest = refl
take_front (y ∷ front) x rest = ap (λ r. y ∷ r) (take_front front x rest)

longer :
    (front : List RemittanceRow) (x y : RemittanceRow) (rest : List RemittanceRow)
    → ltb (suc (length front)) (length (front ++ x ∷ y ∷ rest)) ≡ true
longer [] x y rest = ground arith
longer (z ∷ front) x y rest = ground (arith, longer front x y rest)

-- The page that ends with `x`, where `y` follows.
pub page_front :
    (encode : Cursor → String) (front : List RemittanceRow) (x y : RemittanceRow)
    (rest : List RemittanceRow)
    → let n = suc (length front) in
      let p = page_of encode n (take (suc n) (front ++ x ∷ y ∷ rest)) in
      (p.items ≡ map map_row (front ++ x ∷ []))
      × (p.next_cursor ≡ some (encode (at_row (some (x.created_at / 1000)) x.id)))
unfolding page_of
page_front encode front x y rest =
    let n = suc (length front) in
    let rows = front ++ x ∷ y ∷ rest in
    let cut : take n (take (suc n) rows) ≡ front ++ x ∷ [] =
      take_shorter n rows ∙ take_front front x (y ∷ rest) in
    (ap (map map_row) cut, rw (more_kept n rows, longer front x y rest, cut, last-map front x) refl)

-- The items of a page come from its rows.
pub page-All :
    (P : Remittance → Type 0) (encode : Cursor → String) (n k : ℕ) (rows : List RemittanceRow)
    → All (λ r. P (map_row r)) rows
    → All P (page_of encode n (take k rows)).items
unfolding page_of
page-All P encode n k rows h =
    All-map (take n (take k rows)) (All-take n (take k rows) (All-take k rows h))
  where
    All-take :
        (m : ℕ) (xs : List RemittanceRow)
        → All (λ r. P (map_row r)) xs
        → All (λ r. P (map_row r)) (take m xs)
    All-take zero xs g = tt
    All-take (suc m) [] g = tt
    All-take (suc m) (x ∷ xs) (q, g) = (q, All-take m xs g)

    All-map : (xs : List RemittanceRow) → All (λ r. P (map_row r)) xs → All P (map map_row xs)
    All-map [] g = tt
    All-map (x ∷ xs) (q, g) = (q, All-map xs g)

-- A boundary in whole milliseconds is the row itself.
pub boundary-before :
    (c : Collation) (x : RemittanceRow)
    → x.created_at ≡ x.created_at / 1000 * 1000
    → (y : RemittanceRow) → after_boundary c (x.created_at / 1000, some x.id) y ≡ before c x y
unfolding after_boundary before
boundary-before c x h y = rw (sym h) (ground arith)
