-- ===== src/Base/Entries.antt =====
-- What a key finds after one entry of a map is put or deleted.
use mathlib.Core.Path.{◌≡◌, sym, ◌∙◌}
use mathlib.Core.Logic.{◌⊎◌, inl, inr}
use mathlib.Core.Bool.{false}
use mathlib.Core.Option.{none, some}
use mathlib.Core.List.{List}
use native.Mathlib.Omega.{arith}
use daddy_config.Base.Tests.{Equality, ◌==◌, Bool-cases}
use daddy_config.Base.Maps.{get, put, delete, get-put, get-delete}

module _ {ℓ κ} {K : Type ℓ} {V : Type κ} ⦃e : Equality K⦄ where
  pub put-here : (k : K) (v : V) (m : List (K × V)) → get k (put k v m) ≡ some v
  put-here k v m = ground (arith, get-put k k v m, e.equals_iff k k)

  pub put-there :
      (k j : K) (v : V) (m : List (K × V)) → (k == j) ≡ false → get j (put k v m) ≡ get j m
  put-there k j v m apart = ground (arith, get-put k j v m, apart)

  pub delete-there : (k j : K) (m : List (K × V)) → (k == j) ≡ false → get j (delete k m) ≡ get j m
  delete-there k j m apart = ground (arith, get-delete k j m, apart)

  pub put-found :
      (k j : K) (v u : V) (m : List (K × V))
      → get j (put k v m) ≡ some u
      → ((k ≡ j) × (v ≡ u)) ⊎ (((k == j) ≡ false) × (get j m ≡ some u))
  put-found k j v u m found = elim (Bool-cases (k == j)) [
    | inl same ↦
        let new : some v ≡ some u = ground (arith, get-put k j v m, same, found) in
        inl ((e.equals_iff k j).0 same, cc new)
    | inr apart ↦ inr (apart, sym (put-there k j v m apart) ∙ found)
  ]

  pub delete-found :
      (k j : K) (u : V) (m : List (K × V))
      → get j (delete k m) ≡ some u
      → ((k == j) ≡ false) × (get j m ≡ some u)
  delete-found k j u m found = elim (Bool-cases (k == j)) [
    | inl same ↦
        let gone : none ≡ some u = ground (arith, get-delete k j m, same, found) in absurd (cc gone)
    | inr apart ↦ (apart, sym (delete-there k j m apart) ∙ found)
  ]

  pub put-or : (k j : K) (v : V) (m : List (K × V)) → (k ≡ j) ⊎ (get j (put k v m) ≡ get j m)
  put-or k j v m = elim (Bool-cases (k == j)) [
    | inl same ↦ inl ((e.equals_iff k j).0 same)
    | inr apart ↦ inr (put-there k j v m apart)
  ]
