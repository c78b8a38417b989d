-- ===== src/Webhooks/Lookups.antt =====
-- What a map of backend/src/webhooks/store.ts holds after `set` and `delete`.
use daddy_config.Base.{
  text_equality, ◌≤◌, suc, none, some, List, [], ◌∷◌, String, ◌≡◌, sym, ◌∙◌, arith, if◌then◌else◌,
  ◌==◌, length, get, put, delete, get-put, get-delete, Bool-cases, inl, inr, ◌⊎◌,
}
use text.Mathlib.TextEquality.{eq_iff}

module _ {V : Type 0} where
  pub length-put :
      (k : String) (v : V) (m : List (String × V)) → length (put k v m) ≤ suc (length m)
  unfolding put
  length-put k v [] = omega arith
  length-put k v ((j, w) ∷ m) = ground (arith, length-put k v m)

  pub length-delete : (k : String) (m : List (String × V)) → length (delete k m) ≤ length m
  unfolding delete
  length-delete k [] = omega arith
  length-delete k ((j, w) ∷ m) = ground (arith, length-delete k m)

-- What is found after a `put` is what was put, or was there.
module _ (id k : String) {V : Type 0} (w v : V) (m : List (String × V)) where
  pub put-cases : get k (put id w m) ≡ some v → ((id ≡ k) × (w ≡ v)) ⊎ (get k m ≡ some v)
  put-cases g =
      let g' : (if id == k then some w else get k m) ≡ some v = sym (get-put id k w m) ∙ g in
      elim (Bool-cases (id == k)) [
        | inl same ↦
            let found : some w ≡ some v = rw same at g' in inl ((eq_iff id k).0 same, cc found)
        | inr other ↦ inr (rw other at g')
      ]

  pub kept : get k (delete id m) ≡ some v → get k m ≡ some v
  kept g =
      let g' : (if id == k then none else get k m) ≡ some v = sym (get-delete id k m) ∙ g in
      elim (Bool-cases (id == k)) [
        | inl same ↦ let gone : none ≡ some v = rw same at g' in absurd (cc gone)
        | inr other ↦ rw other at g'
      ]
