-- ===== src/Remittances/Order.antt =====
-- The order of a query's rows: sorted, each before all that follow.
use mathlib.Core.Path.{ap}
use daddy_config.Base.{
  Bool, true, false, List, [], ◌∷◌, ◌++◌, ◌≡◌, refl, arith, All, select, Bool-cases, ◌⊎◌, inl, inr,
}
use daddy_config.Remittances.Store.{Collation, RemittanceRow, before, insert_row, ordered}

abbrev pub Sorted : Collation → List RemittanceRow → Type 0
Sorted c [] = Unit
Sorted c (x ∷ xs) = All (λ y. before c x y ≡ true) xs × Sorted c xs

-- The database orders any two ids of the rows, as it does for ids that differ.
abbrev pub Comparable : Collation → RemittanceRow → RemittanceRow → Type 0
Comparable c x y = (c.less x.id y.id ≡ true) ⊎ (c.less y.id x.id ≡ true)

abbrev pub AllComparable : Collation → List RemittanceRow → Type 0
AllComparable c [] = Unit
AllComparable c (x ∷ xs) = All (Comparable c x) xs × AllComparable c xs

module _ (c : Collation) where
  before_irrefl : (x : RemittanceRow) → before c x x ≡ false
  unfolding before
  before_irrefl x = ground (arith, c.less_irreflexive x.id)

  before_trans :
      (x y z : RemittanceRow) → before c x y ≡ true → before c y z ≡ true → before c x z ≡ true
  unfolding before
  before_trans x y z h k = ground (arith, c.less_transitive z.id y.id x.id)

  before_total :
      (x y : RemittanceRow) → Comparable c x y → before c x y ≡ false → before c y x ≡ true
  unfolding before
  before_total x y h k = ground arith

  before_asym : (x y : RemittanceRow) → before c x y ≡ true → before c y x ≡ false
  before_asym x y h = elim (Bool-cases (before c y x)) [
    | inr forth ↦ forth
    | inl back ↦ cc (before_irrefl x, before_trans x y x h back)
  ]

  All-before :
      (x y : RemittanceRow) (ys : List RemittanceRow)
      → before c x y ≡ true
      → All (λ z. before c y z ≡ true) ys
      → All (λ z. before c x z ≡ true) ys
  All-before x y [] h k = tt
  All-before x y (z ∷ zs) h (p, k) = (before_trans x y z h p, All-before x y zs h k)

  All-insert :
      (P : RemittanceRow → Type 0) (x : RemittanceRow) (ys : List RemittanceRow)
      → P x
      → All P ys
      → All P (insert_row c x ys)
  unfolding insert_row
  All-insert P x [] p h = (p, tt)
  All-insert P x (y ∷ ys) p (q, h) = elim (Bool-cases (before c x y)) [
    | inl first ↦ rw (first, insert_row) (p, (q, h))
    | inr later ↦ rw (later, insert_row) (q, All-insert P x ys p h)
  ]

  pub All-ordered :
      (P : RemittanceRow → Type 0) (xs : List RemittanceRow) → All P xs → All P (ordered c xs)
  unfolding ordered
  All-ordered P [] h = tt
  All-ordered P (x ∷ xs) (p, h) = All-insert P x (ordered c xs) p (All-ordered P xs h)

  insert_row-Sorted :
      (x : RemittanceRow) (ys : List RemittanceRow)
      → All (Comparable c x) ys
      → Sorted c ys
      → Sorted c (insert_row c x ys)
  unfolding insert_row
  insert_row-Sorted x [] h s = (tt, tt)
  insert_row-Sorted x (y ∷ ys) (h, hs) (b, s) = elim (Bool-cases (before c x y)) [
    | inl first ↦ rw (first, insert_row) ((first, All-before x y ys first b), (b, s))
    | inr later ↦
        rw (later, insert_row)
          (
            All-insert (λ z. before c y z ≡ true) x ys (before_total x y h later) b,
            insert_row-Sorted x ys hs s,
          )
  ]

  pub ordered-Sorted : (xs : List RemittanceRow) → AllComparable c xs → Sorted c (ordered c xs)
  unfolding ordered
  ordered-Sorted [] h = tt
  ordered-Sorted (x ∷ xs) (h, hs) =
      insert_row-Sorted x (ordered c xs) (All-ordered (Comparable c x) xs h) (ordered-Sorted xs hs)

  -- What is kept of a sorted list is sorted, and has what all its members have.
  pub select-All :
      (P : RemittanceRow → Type 0) (p : RemittanceRow → Bool) (xs : List RemittanceRow)
      → All P xs
      → All P (select p xs)
  select-All P p [] h = tt
  select-All P p (x ∷ xs) (q, h) = elim (Bool-cases (p x)) [
    | inl kept ↦ rw kept (q, select-All P p xs h)
    | inr out ↦ rw out (select-All P p xs h)
  ]

  pub select-Sorted :
      (p : RemittanceRow → Bool) (xs : List RemittanceRow) → Sorted c xs → Sorted c (select p xs)
  select-Sorted p [] h = tt
  select-Sorted p (x ∷ xs) (b, h) = elim (Bool-cases (p x)) [
    | inl kept ↦ rw kept (select-All (λ y. before c x y ≡ true) p xs b, select-Sorted p xs h)
    | inr out ↦ rw out (select-Sorted p xs h)
  ]

  select_everything :
      (p : RemittanceRow → Bool) (xs : List RemittanceRow)
      → All (λ x. p x ≡ true) xs
      → select p xs ≡ xs
  select_everything p [] h = refl
  select_everything p (x ∷ xs) (q, h) = rw q (ap (λ r. x ∷ r) (select_everything p xs h))

  -- In a sorted list, what comes after a member is what follows it.
  pub select-after :
      (before_it : List RemittanceRow) (x : RemittanceRow) (following : List RemittanceRow)
      → Sorted c (before_it ++ x ∷ following)
      → select (before c x) (before_it ++ x ∷ following) ≡ following
  select-after [] x following (b, s) =
      rw (before_irrefl x) (select_everything (before c x) following b)
  select-after (y ∷ ys) x following (b, s) =
      rw (before_asym y x (member ys b)) (select-after ys x following s)
    where
      member :
          (zs : List RemittanceRow)
          → All (λ z. before c y z ≡ true) (zs ++ x ∷ following)
          → before c y x ≡ true
      member [] h = h.0
      member (z ∷ zs) h = member zs h.1
