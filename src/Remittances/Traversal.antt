-- ===== src/Remittances/Traversal.antt =====
-- All pages of a query, one after another: each row that the filters keep, once and in order.
use mathlib.Core.Path.{ap, subst}
use mathlib.Core.List.{append_assoc}
use daddy_config.Base.{
  text_equality, ℕ, ◌+◌, ◌*◌, ◌/◌, ◌<◌, zero, suc, false, Option, none, some, List, [], ◌∷◌, ◌++◌,
  String, ◌≡◌, ◌≢◌, refl, sym, ◌∙◌, arith, All, ltb, ◌==◌, ◌&&◌, not, select, take, length, map,
  values, Bool-cases, ◌⊎◌, inl, inr, Outcome, ok, err,
}
use text.Mathlib.TextEquality.{eq_iff}
use daddy_config.Remittances.Store.{
  Collation, RemittanceRow, Remittance, Table, Filters, Cursor, at_row, StoreError, PaginatedResult,
  Boundary, map_row, keeps, asks_corridor, past, before, after_boundary, ordered, query_rows,
  page_of, decoded, query_with_cursor,
}
use daddy_config.Remittances.Order.{
  Sorted, AllComparable, ordered-Sorted, select-Sorted, select-All, select-after, All-ordered,
}
use daddy_config.Remittances.Pages.{
  select-and, select_ext, select-true, split, page_more, page_last, map_pieces, boundary-before,
  page_front, page-All,
}

abbrev pub joined : List Remittance → Option (List Remittance) → Option (List Remittance)
joined items none = none
joined items (some rest) = some (items ++ rest)

-- The items of all pages from a cursor on, if `fuel` requests are enough.
unfoldable pub all_pages :
    (Option String → Outcome StoreError PaginatedResult)
    → ℕ
    → Option String
    → Option (List Remittance)
all_pages query zero cursor = none
all_pages query (suc fuel) cursor = elim (query cursor) [
  | err e ↦ none
  | ok page ↦ elim page.next_cursor [
    | none ↦ some page.items
    | some next ↦ joined page.items (all_pages query fuel (some next))
  ]
]

abbrev pub cursor_of : RemittanceRow → Cursor
cursor_of row = at_row (some (row.created_at / 1000)) row.id

-- A row whose time is in whole milliseconds, whose id is not empty, and whose cursor has a text that is
-- not empty and decodes to it.
abbrev pub Whole : (Cursor → String) → (String → Option Cursor) → RemittanceRow → Type 0
Whole encode decode row =
    (row.created_at ≡ row.created_at / 1000 * 1000)
    × (row.id ≢ "")
    × (encode (cursor_of row) ≢ "")
    × (decode (encode (cursor_of row)) ≡ some (cursor_of row))

-- What the filters keep, in the order of the query.
abbrev pub matching : Collation → Filters → Table → List RemittanceRow
matching c f t = select (keeps f) (ordered c (values t.rows))

-- The answer at a cursor whose boundary leaves `rows`.
query_with_cursor-page :
    (c : Collation) (encode : Cursor → String) (decode : String → Option Cursor) (n : ℕ)
    (f : Filters) (t : Table) (cursor : Option String) (b : Option Boundary)
    (rows : List RemittanceRow)
    → asks_corridor f && not t.has_corridor ≡ false
    → decoded decode cursor ≡ ok b
    → select (past c b) (matching c f t) ≡ rows
    → query_with_cursor c encode decode cursor n f t ≡ ok (page_of encode n (take (suc n) rows))
unfolding query_with_cursor query_rows
query_with_cursor-page c encode decode n f t cursor b rows has_column at left =
    let count : n + 1 ≡ suc n = omega arith in
    let same : select (λ row. past c b row && keeps f row) (ordered c (values t.rows)) ≡ rows =
      select-and (past c b) (keeps f) (ordered c (values t.rows)) ∙ left in
    rw (at, query_with_cursor)
      (rw has_column (
        ap (λ r. ok (page_of encode n r))
          (ap
              (λ k.
                take k (select (λ row. past c b row && keeps f row) (ordered c (values t.rows))))
              count
            ∙ ap (take (suc n)) same)))

module _ (c : Collation) (encode : Cursor → String) (decode : String → Option Cursor) (n : ℕ)
    (f : Filters) (t : Table) (has_column : asks_corridor f && not t.has_corridor ≡ false)
    (whole : All (Whole encode decode) (values t.rows))
    (comparable : AllComparable c (values t.rows)) where
  abbrev query : Option String → Outcome StoreError PaginatedResult
  query cursor = query_with_cursor c encode decode cursor (suc n) f t

  query_page :
      (cursor : Option String) (b : Option Boundary) (rows : List RemittanceRow)
      → decoded decode cursor ≡ ok b
      → select (past c b) (matching c f t) ≡ rows
      → query cursor ≡ ok (page_of encode (suc n) (take (suc (suc n)) rows))
  query_page cursor b rows =
      query_with_cursor-page c encode decode (suc n) f t cursor b rows has_column

  decoded_next :
      (x : RemittanceRow)
      → Whole encode decode x
      → decoded decode (some (encode (cursor_of x))) ≡ ok (some (x.created_at / 1000, some x.id))
  decoded_next x (_, filled, nonempty, decodes) =
      let k = cursor_of x in
      let there : (encode k == "") ≡ false = ground (arith, eq_iff (encode k) "", nonempty) in
      let named : (x.id == "") ≡ false = ground (arith, eq_iff x.id "", filled) in
      rw there (rw decodes (rw named refl))

  matching-Sorted : Sorted c (matching c f t)
  matching-Sorted =
      select-Sorted c (keeps f) (ordered c (values t.rows))
        (ordered-Sorted c (values t.rows) comparable)

  matching-Whole : All (Whole encode decode) (matching c f t)
  matching-Whole =
      select-All c (Whole encode decode) (keeps f) (ordered c (values t.rows))
        (All-ordered c (Whole encode decode) (values t.rows) whole)

  -- After a row of the result come the rows that follow it.
  next_rows :
      (front : List RemittanceRow) (x : RemittanceRow) (rest : List RemittanceRow)
      → matching c f t ≡ front ++ x ∷ rest
      → Whole encode decode x
        × (select (past c (some (x.created_at / 1000, some x.id))) (matching c f t) ≡ rest)
  next_rows front x rest e =
      let fine = middle front (subst (All (Whole encode decode)) e matching-Whole) in
      (
        fine,
        select_ext _ (before c x) (matching c f t) (boundary-before c x fine.0)
            ∙ ap (select (before c x)) e
            ∙ select-after c front x rest (subst (Sorted c) e matching-Sorted),
      )
    where
      middle :
          (ys : List RemittanceRow)
          → All (Whole encode decode) (ys ++ x ∷ rest)
          → Whole encode decode x
      middle [] h = h.0
      middle (y ∷ ys) h = middle ys h.1

  walk :
      (fuel : ℕ) (cursor : Option String) (b : Option Boundary) (front rows : List RemittanceRow)
      → matching c f t ≡ front ++ rows
      → decoded decode cursor ≡ ok b
      → select (past c b) (matching c f t) ≡ rows
      → length rows < fuel
      → all_pages query fuel cursor ≡ some (map map_row rows)
  unfolding all_pages
  walk zero cursor b front rows e at left h = absurd (ground arith)
  walk (suc fuel) cursor b front rows e at left h = elim (Bool-cases (ltb (suc n) (length rows))) [
    | inr done ↦
        let (items, next) = page_last encode n rows done in
        rw (query_page cursor b rows at left, all_pages) (rw next (ap some items))
    | inl more ↦
        let s = split n rows more in
        let (items, next) = page_more encode n rows more in
        let e' : matching c f t ≡ (front ++ s.front) ++ s.end_row ∷ s.rest =
          e
          ∙ ap (λ r. front ++ r) s.whole
          ∙ sym (append_assoc front s.front (s.end_row ∷ s.rest)) in
        let (fine, left') = next_rows (front ++ s.front) s.end_row s.rest e' in
        let later =
          walk fuel (some (encode (at_row (some (s.end_row.created_at / 1000)) s.end_row.id)))
            (some (s.end_row.created_at / 1000, some s.end_row.id))
            (front ++ (s.front ++ s.end_row ∷ [])) s.rest
            (e
              ∙ ap (λ r. front ++ r) (s.whole ∙ sym (append_assoc s.front (s.end_row ∷ []) s.rest))
              ∙ sym (append_assoc front (s.front ++ s.end_row ∷ []) s.rest))
            (decoded_next s.end_row fine) left' (omega (arith, s.shorter, h)) in
        rw (query_page cursor b rows at left, all_pages)
          (rw next (
            rw later (
              ap some (
                ap (λ r. r ++ map map_row s.rest) items
                ∙ map_pieces s.front s.end_row s.rest
                ∙ ap (map map_row) (sym s.whole)))))
  ]

-- The pages of a query, fetched one after another from the first on, hold every row that the filters
-- keep, once and in the query's order, and come to an end: more requests than rows are enough. It
-- is so for pages of at least one row, if the rows' times are in whole milliseconds, their ids are
-- not empty and pairwise ordered by the database, their cursors decode to what was encoded and are not
-- empty, and the filter on the corridor is used only where its column is there.
pub all_pages_complete :
    (c : Collation) (encode : Cursor → String) (decode : String → Option Cursor) (n : ℕ)
    (f : Filters) (t : Table)
    → asks_corridor f && not t.has_corridor ≡ false
    → All (Whole encode decode) (values t.rows)
    → AllComparable c (values t.rows)
    → all_pages
        (λ cursor. query_with_cursor c encode decode cursor (suc n) f t)
        (suc (length (matching c f t)))
        none
      ≡ some (map map_row (matching c f t))
all_pages_complete c encode decode n f t has_column whole comparable =
    walk c encode decode n f t has_column whole comparable (suc (length (matching c f t))) none none
      [] (matching c f t) refl refl (select-true (matching c f t)) (omega arith)

apart :
    (c : Collation) (ms : ℕ) (id : String) (y : RemittanceRow) (rows : List RemittanceRow)
    → ms * 1000 < y.created_at
    → All (λ r. (r.id ≢ y.id) ⊎ (r.created_at ≡ y.created_at)) rows
    → All (λ r. r.id ≢ y.id) (select (past c (some (ms, some id))) rows)
unfolding after_boundary
apart c ms id y [] late h = tt
apart c ms id y (r ∷ rows) late (inl other, h) =
    elim (Bool-cases (after_boundary c (ms, some id) r)) [
      | inl kept ↦ rw kept (other, apart c ms id y rows late h)
      | inr out ↦ rw out (apart c ms id y rows late h)
    ]
apart c ms id y (r ∷ rows) late (inr same, h) =
    let out : after_boundary c (ms, some id) r ≡ false = ground (arith, late, same) in
    rw out (apart c ms id y rows late h)

-- Where times are finer than a millisecond, paging skips rows. If the row `y` follows `x` in the
-- result of a query, and is later than the beginning of the millisecond of `x`, then the first
-- page of as many rows as there are up to `x` holds these rows and hands out the cursor of `x`, and no
-- item of the page at that cursor, whatever its size, has the id of `y`. It is so if that cursor
-- decodes to what was encoded, no row at another time has the id of `y`, and the filter on the
-- corridor is used only where its column is there.
pub cursor_skips :
    (c : Collation) (encode : Cursor → String) (decode : String → Option Cursor) (f : Filters)
    (t : Table) (front rest : List RemittanceRow) (x y : RemittanceRow) (size : ℕ)
    → asks_corridor f && not t.has_corridor ≡ false
    → matching c f t ≡ front ++ x ∷ y ∷ rest
    → x.created_at / 1000 * 1000 < y.created_at
    → decoded decode (some (encode (cursor_of x))) ≡ ok (some (x.created_at / 1000, some x.id))
    → All (λ r. (r.id ≢ y.id) ⊎ (r.created_at ≡ y.created_at)) (values t.rows)
    → (first : PaginatedResult) × (second : PaginatedResult) × (query_with_cursor c encode decode
          none
          (suc (length front))
          f
          t
        ≡ ok first)
      × (first.items ≡ map map_row (front ++ x ∷ []))
      × (first.next_cursor ≡ some (encode (cursor_of x)))
      × (query_with_cursor c encode decode first.next_cursor size f t ≡ ok second)
      × All (λ (r : Remittance). r.id ≢ y.id) second.items
cursor_skips c encode decode f t front rest x y size has_column listed late decodes own =
    let n = suc (length front) in
    let b : Option Boundary = some (x.created_at / 1000, some x.id) in
    let left = select (past c b) (matching c f t) in
    let (items, next) = page_front encode front x y rest in
    (
      page_of encode n (take (suc n) (front ++ x ∷ y ∷ rest)),
      page_of encode size (take (suc size) left),
      query_with_cursor-page c encode decode n f t none none (front ++ x ∷ y ∷ rest) has_column refl
          (select-true (matching c f t) ∙ listed),
      items,
      next,
      ap (λ k. query_with_cursor c encode decode k size f t) next
          ∙ query_with_cursor-page c encode decode size f t (some (encode (cursor_of x))) b left
              has_column decodes refl,
      page-All (λ r. r.id ≢ y.id) encode size (suc size) left
          (apart c (x.created_at / 1000) x.id y (matching c f t) late (
            select-All c (λ r. (r.id ≢ y.id) ⊎ (r.created_at ≡ y.created_at)) (keeps f)
              (ordered c (values t.rows))
              (All-ordered c (λ r. (r.id ≢ y.id) ⊎ (r.created_at ≡ y.created_at)) (values t.rows)
                own))),
    )
