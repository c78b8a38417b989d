-- ===== src/Base/Maps.antt =====
-- The language's Map as an association list in insertion order.
use Prim.Native.Nat.{ℕ, ◌+◌}
use mathlib.Core.Path.{◌≡◌, refl, sym, subst, subst₂}
use mathlib.Core.Logic.{inl, inr}
use mathlib.Core.Bool.{Bool}
use mathlib.Core.Option.{Option, none, some}
use mathlib.Core.List.{List, [], ◌∷◌}
use native.Mathlib.Omega.{arith}
use daddy_config.Base.Tests.{Equality, ◌==◌, if◌then◌else◌, is_some, Bool-cases, Option-cases}

module _ {ℓ κ} {K : Type ℓ} {V : Type κ} ⦃e : Equality K⦄ where
  -- `m.get(k)`, with `none` for `undefined`.
  unfoldable pub get : K → List (K × V) → Option V
  get k [] = none
  get k ((j, v) ∷ m) = if j == k then some v else get k m

  -- `m.set(k, v)`: a present key keeps its place, a new one goes to the end.
  unfoldable pub put : K → V → List (K × V) → List (K × V)
  put k v [] = (k, v) ∷ []
  put k v ((j, w) ∷ m) = if j == k then (j, v) ∷ m else (j, w) ∷ put k v m

  -- `m.delete(k)`.
  unfoldable pub delete : K → List (K × V) → List (K × V)
  delete k [] = []
  delete k ((j, w) ∷ m) = if j == k then delete k m else (j, w) ∷ delete k m

  abbrev pub has : K → List (K × V) → Bool
  has k m = is_some (get k m)

  pub get-put :
      (k j : K) (v : V) (m : List (K × V))
      → get j (put k v m) ≡ (if k == j then some v else get j m)
  unfolding get put
  get-put k j v [] = refl
  get-put k j v ((i, w) ∷ m) =
      ground (arith, e.equals_iff k j, e.equals_iff i k, e.equals_iff i j, get-put k j v m)

  pub get-delete :
      (k j : K) (m : List (K × V)) → get j (delete k m) ≡ (if k == j then none else get j m)
  unfolding get delete
  get-delete k j [] = ground arith
  get-delete k j ((i, w) ∷ m) =
      ground (arith, e.equals_iff k j, e.equals_iff i k, e.equals_iff i j, get-delete k j m)

abbrev pub values {ℓ κ} : {K : Type ℓ} {V : Type κ} → List (K × V) → List V
values [] = []
values ((k, v) ∷ m) = v ∷ values m

-- The sum of a measure over the values, and what `put` does to it.
abbrev pub weight {κ} : {V : Type κ} → (V → ℕ) → Option V → ℕ
weight f none = 0
weight f (some v) = f v

module _ {ℓ κ} {K : Type ℓ} {V : Type κ} (f : V → ℕ) where
  abbrev pub sum_of : List (K × V) → ℕ
  sum_of [] = 0
  sum_of ((k, v) ∷ m) = f v + sum_of m

  pub sum_of-put :
      ⦃e : Equality K⦄ (k : K) (v : V) (m : List (K × V))
      → sum_of (put k v m) + weight f (get k m) ≡ sum_of m + f v
  unfolding get put
  sum_of-put k v [] = omega arith
  sum_of-put k v ((j, w) ∷ m) = ground (arith, sum_of-put k v m)

  -- The sum after a value is replaced, and after one is added.
  pub sum_of-replace :
      ⦃e : Equality K⦄ (k : K) (v w : V) (m : List (K × V))
      → get k m ≡ some v
      → sum_of (put k w m) + f v ≡ sum_of m + f w
  sum_of-replace k v w m g = ground (arith, sum_of-put k w m)

  pub sum_of-add :
      ⦃e : Equality K⦄ (k : K) (w : V) (m : List (K × V))
      → get k m ≡ none
      → sum_of (put k w m) ≡ sum_of m + f w
  sum_of-add k w m g = ground (arith, sum_of-put k w m)

-- A predicate of every entry.
module _ {ℓ κ μ} {K : Type ℓ} {V : Type κ} (P : K → V → Type μ) where
  abbrev pub AllEntries : List (K × V) → Type μ
  AllEntries [] = Unit
  AllEntries ((k, v) ∷ m) = P k v × AllEntries m

  pub AllEntries-put :
      ⦃e : Equality K⦄ (k : K) (v : V) (m : List (K × V))
      → AllEntries m
      → P k v
      → AllEntries (put k v m)
  unfolding put
  AllEntries-put k v [] h p = (p, tt)
  AllEntries-put ⦃e⦄ k v ((j, w) ∷ m) (q, h) p = elim (Bool-cases (j == k)) [
    | inl same ↦ rw same (subst (λ i. P i v) (sym ((e.equals_iff j k).0 same)) p, h)
    | inr other ↦ rw other (q, AllEntries-put k v m h p)
  ]

  pub AllEntries-delete :
      ⦃e : Equality K⦄ (k : K) (m : List (K × V)) → AllEntries m → AllEntries (delete k m)
  unfolding delete
  AllEntries-delete k [] h = tt
  AllEntries-delete k ((j, w) ∷ m) (q, h) = elim (Bool-cases (j == k)) [
    | inl same ↦ rw same (AllEntries-delete k m h)
    | inr other ↦ rw other (q, AllEntries-delete k m h)
  ]

  pub AllEntries-get :
      ⦃e : Equality K⦄ (k : K) (v : V) (m : List (K × V)) → AllEntries m → get k m ≡ some v → P k v
  unfolding get
  AllEntries-get k v [] h g = cc
  AllEntries-get ⦃e⦄ k v ((j, w) ∷ m) (q, h) g = elim (Bool-cases (j == k)) [
    | inl same ↦
        let found : some w ≡ some v = rw (same, get) at g in
        let w≡v : w ≡ v = cc found in subst₂ P ((e.equals_iff j k).0 same) w≡v q
    | inr other ↦ AllEntries-get k v m h (rw (other, get) at g)
  ]

  pub AllEntries-has :
      ⦃e : Equality K⦄ (k : K) (m : List (K × V))
      → AllEntries m
      → ((v : V) → ¬ (P k v))
      → get k m ≡ none
  AllEntries-has k m h never = elim (Option-cases (get k m)) [
    | inl missing ↦ missing
    | inr (v, found) ↦ absurd (never v (AllEntries-get k v m h found))
  ]

pub AllEntries-map {ℓ κ μ ν} :
    {K : Type ℓ} {V : Type κ} {P : K → V → Type μ} {Q : K → V → Type ν}
    → ((k : K) (v : V) → P k v → Q k v)
    → (m : List (K × V)) → AllEntries P m
    → AllEntries Q m
AllEntries-map f [] h = tt
AllEntries-map f ((k, v) ∷ m) (p, h) = (f k v p, AllEntries-map f m h)
