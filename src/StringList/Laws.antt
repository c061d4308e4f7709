-- ===== src/StringList/Laws.antt =====
-- src/low level algos (Pablo)/stringlist.c: the list as a map.
use deep_spec_db.Base.{
  suc, Bool, true, false, Option, List, [], ◌∷◌, if◌then◌else◌, ◌≡◌, ◌↔◌, refl, sym, ◌∙◌,
  Bool-cases, inl, inr, true≢false,
}
use deep_spec_db.StringList.{
  Scell, new_scell, stringlist_insert, stringlist_lookup, stringlist_cardinality,
}

module _ {ℓ κ} {K : Type ℓ} {V : Type κ} where
  -- Some record has the key.
  unfoldable pub holds : (K → K → Bool) → List (Scell K V) → K → Bool
  holds strcmp_eq [] key = false
  holds strcmp_eq (q ∷ qs) key = if strcmp_eq q.key key then true else holds strcmp_eq qs key

module _ {ℓ κ} {K : Type ℓ} {V : Type κ} (strcmp_eq : K → K → Bool)
    (strcmp_iff : (a b : K) → (strcmp_eq a b ≡ true) ↔ (a ≡ b)) where
  overrides :
      (a b j : K) (v w x : Option V)
      → a ≡ b
      → (if strcmp_eq a j then v else x)
        ≡ (if strcmp_eq b j then v else if strcmp_eq a j then w else x)
  overrides a b j v w x h =
      rw h (elim (Bool-cases (strcmp_eq b j)) [ inl t ↦ rw t refl | inr f ↦ rw f refl ])

  -- When strcmp returns zero exactly for equal strings, stringlist_insert returns what
  -- stringlist_lookup returns for the key; after it the key has the new value and every other key
  -- what it had.
  pub stringlist_insert_lem :
      (p : List (Scell K V)) (key : K) (value : Option V)
      → ((stringlist_insert strcmp_eq p key value).0 ≡ stringlist_lookup strcmp_eq p key)
        × ((j : K)
            → stringlist_lookup strcmp_eq (stringlist_insert strcmp_eq p key value).1 j
              ≡ (if strcmp_eq key j then value else stringlist_lookup strcmp_eq p j))
  unfolding stringlist_insert stringlist_lookup new_scell
  stringlist_insert_lem [] key value = (refl, λ j. refl)
  stringlist_insert_lem (q ∷ qs) key value = elim (Bool-cases (strcmp_eq q.key key)) [
    | inl eq ↦ rw eq (
      refl,
      λ j.
          overrides q.key key j value q.value (stringlist_lookup strcmp_eq qs j)
            ((strcmp_iff q.key key).0 eq),
    )
    | inr ne ↦
        let (old, after) = stringlist_insert_lem qs key value in
        rw ne (
          old,
          λ j. elim (Bool-cases (strcmp_eq q.key j)) [
            | inl t ↦ (elim (Bool-cases (strcmp_eq key j)) [
              | inl t' ↦ absurd (
                  true≢false (
                    sym (
                      (strcmp_iff q.key key).1
                        ((strcmp_iff q.key j).0 t ∙ sym ((strcmp_iff key j).0 t')))
                    ∙ ne))
              | inr f' ↦ rw (t, f') refl
            ])
            | inr f ↦ rw f (after j)
          ],
        )
  ]

  -- When strcmp returns zero exactly for equal strings, an insertion makes the cardinality one
  -- greater if no record has the key, and keeps it otherwise.
  pub cardinality-insert :
      (p : List (Scell K V)) (key : K) (value : Option V)
      → stringlist_cardinality (stringlist_insert strcmp_eq p key value).1 ≡ (
          if holds strcmp_eq p key
          then stringlist_cardinality p
          else suc (stringlist_cardinality p))
  unfolding stringlist_insert stringlist_cardinality holds
  cardinality-insert [] key value = refl
  cardinality-insert (q ∷ qs) key value = elim (Bool-cases (strcmp_eq q.key key)) [
    | inl eq ↦ rw eq refl
    | inr ne ↦
        rw (ne, cardinality-insert qs key value)
          (elim (Bool-cases (holds strcmp_eq qs key)) [ inl t ↦ rw t refl | inr f ↦ rw f refl ])
  ]
