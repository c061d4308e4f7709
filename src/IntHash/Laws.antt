-- ===== src/IntHash/Laws.antt =====
-- tuplekey/inthash.c: the table as a map.
use deep_spec_db.Base.{
  ℕ, ◌%◌, ◌<◌, Option, none, some, List, [], ◌∷◌, length, get_elem?, set, ◌==◌, if◌then◌else◌,
  ◌>>=◌, ◌≡◌, refl, ap, subst, ◌∙◌, arith, Bool-cases, inl, inr, ==-eq, ==-ne, ==-overrides,
  get_elem?-replicate, ==-exclusive, ==-eq-false, length-set, get_elem?-lt, get_elem?-set_same,
  get_elem?-set_other,
}
use deep_spec_db.IntHash.{
  Icell, Inthash, bucket_count, inthash_new, new_icell, find_cell, inthash_lookup,
  inthash_insert_list, inthash_insert,
}

chain_lt : (key : ℕ) → key % bucket_count < bucket_count
chain_lt key = omega arith

module _ {ℓ} {V : Type ℓ} where
  -- The cell that `inthash_insert_list` finds, and the chain after its value is set.
  pub insert_list-set :
      (chain : List (Icell V)) (key : ℕ) (value : Option V)
      → (q : Icell V) × (get_elem?
            (inthash_insert_list chain key).0
            (inthash_insert_list chain key).1
          ≡ some q)
        × (q.value ≡ find_cell chain key)
        × ((j : ℕ)
            → find_cell
                (set
                  (inthash_insert_list chain key).0
                  (inthash_insert_list chain key).1
                  (record q { value = value }))
                j
              ≡ (if key == j then value else find_cell chain j))
  unfolding inthash_insert_list find_cell new_icell
  insert_list-set [] key value = (record { key = key; value = none }, refl, refl, λ j. refl)
  insert_list-set (p ∷ ps) key value = elim (Bool-cases (p.key == key)) [
    | inl eq ↦
        rw eq (p, refl, refl, λ j. ==-overrides p.key key j value p.value (find_cell ps j) eq)
    | inr ne ↦
        let (q, found, old, after) = insert_list-set ps key value in
        rw ne (
          q,
          found,
          old,
          λ j. elim (Bool-cases (p.key == j)) [
            | inl t ↦ rw (t, ==-exclusive p.key key j ne t) refl
            | inr f ↦ rw f (after j)
          ],
        )
  ]

  -- Every key has NULL in a new table.
  pub inthash_new-lookup : (key : ℕ) → inthash_lookup (inthash_new {V = V}) key ≡ some none
  unfolding inthash_new inthash_lookup find_cell
  inthash_new-lookup key =
      let empty : List (Icell V) = [] in
      let r = get_elem?-replicate bucket_count (key % bucket_count) empty (chain_lt key) in
      rw r refl

  -- A table in which the chain of a key is replaced by one with the key's new value.
  lookup-set :
      (p : Inthash V) (key : ℕ) (chain chain' : List (Icell V)) (value : Option V)
      → get_elem? p.buckets (key % bucket_count) ≡ some chain
      → key % bucket_count < length p.buckets
      → ((j : ℕ) → find_cell chain' j ≡ (if key == j then value else find_cell chain j))
      → (j : ℕ)
      → inthash_lookup (record { buckets = set p.buckets (key % bucket_count) chain' }) j
        ≡ (if key == j then some value else inthash_lookup p j)
  unfolding inthash_lookup
  lookup-set p key chain chain' value at inside after j =
      elim (Bool-cases (key % bucket_count == j % bucket_count)) [
        | inl same ↦
            let e = ==-eq (key % bucket_count) (j % bucket_count) same in
            let at_j : get_elem? p.buckets (j % bucket_count) ≡ some chain =
              subst (λ i. get_elem? p.buckets i ≡ some chain) e at in
            let set_j : get_elem? (set p.buckets (key % bucket_count) chain') (j % bucket_count)
                ≡ some chain' =
              subst (λ i. get_elem? (set p.buckets (key % bucket_count) chain') i ≡ some chain') e
                (get_elem?-set_same p.buckets (key % bucket_count) chain' inside) in
            rw (set_j, at_j)
              (ap (λ (o : Option V). some o) (after j)
                ∙ elim (Bool-cases (key == j)) [ inl t ↦ rw t refl | inr f ↦ rw f refl ])
        | inr other ↦
            rw
              (
                get_elem?-set_other p.buckets (key % bucket_count) (j % bucket_count) chain'
                    (==-ne _ _ other),
                ==-eq-false key j (λ e.
                    ==-ne (key % bucket_count) (j % bucket_count) other
                      (ap (λ k. k % bucket_count) e)),
              )
              refl
      ]

  -- On a table of N buckets inthash_insert returns what inthash_lookup returns for the key, and
  -- leaves a table of N buckets in which the key has the new value and every other key what it
  -- had.
  pub inthash_insert_lem :
      (p : Inthash V) (key : ℕ) (value : Option V)
      → length p.buckets ≡ bucket_count
      → (old : Option V) × (p' : Inthash V) × (inthash_insert p key value ≡ some (old, p'))
        × (length p'.buckets ≡ bucket_count)
        × (inthash_lookup p key ≡ some old)
        × ((j : ℕ) → inthash_lookup p' j ≡ (if key == j then some value else inthash_lookup p j))
  unfolding inthash_insert inthash_lookup
  inthash_insert_lem p key value h =
      let inside : key % bucket_count < length p.buckets = omega (arith, chain_lt key) in
      let (chain, at, _) = get_elem?-lt p.buckets (key % bucket_count) inside in
      let (q, found, old, after) = insert_list-set chain key value in
      (
        q.value,
        record {
          buckets = set p.buckets (key % bucket_count) (
              set (inthash_insert_list chain key).0 (inthash_insert_list chain key).1
                (record q { value = value }));
        },
        rw (at, ◌>>=◌, found, ◌>>=◌) refl,
        length-set p.buckets _ _ ∙ h,
        rw (at, ◌>>=◌, old) refl,
        lookup-set p key chain _ value at inside after,
      )
