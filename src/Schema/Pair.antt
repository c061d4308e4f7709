-- ===== src/Schema/Pair.antt =====
-- tuplekey/tuple_schema.c: the schema of pairs of keys.
use deep_spec_db.Base.{
  Bool, true, ◌&&◌, true≢false, Option, none, some, if◌then◌else◌, ◌>>=◌, ◌≡◌, refl, sym, ap, ◌∙◌,
  subst, Bool-cases, inl, inr,
}
use mathlib.Core.Option.{some-injective}
use deep_spec_db.Schema.{Schema, IsMap, index_new, index_insert, index_lookup}

module _ {ℓ} {A B V : Type ℓ} (b : Schema B V) (a : Schema A b.Index) where
  unfoldable pub tuple_lookup_method : a.Index → A × B → Option (Option V)
  tuple_lookup_method ind k = do
    bindex ← index_lookup a ind k.0
    elim bindex [ none ↦ some none | some i ↦ index_lookup b i k.1 ]

  -- The index of the second keys, a new one where there is none.
  unfoldable pub bindex_or_new : Option b.Index → b.Index
  bindex_or_new none = index_new b
  bindex_or_new (some i) = i

  unfoldable pub tuple_insert_method : a.Index → A × B → Option V → Option (Option V × a.Index)
  tuple_insert_method ind k val = do
    bindex ← index_lookup a ind k.0
    (old, bindex') ← index_insert b (bindex_or_new bindex) k.1 val
    (_, ind') ← index_insert a ind k.0 (some bindex')
    some (old, ind')

  unfoldable pub tuple_schema : Schema (A × B) V
  tuple_schema = record {
    Index = a.Index;
    schema_new = index_new a;
    schema_insert = tuple_insert_method;
    schema_lookup = tuple_lookup_method;
  }

module _ {ℓ} {A B V : Type ℓ} (b : Schema B V) (a : Schema A b.Index) (is_b : IsMap b)
    (is_a : IsMap a) where
  abbrev same_pair : A × B → A × B → Bool
  same_pair k j = is_a.same k.0 j.0 && is_b.same k.1 j.1

  same_pair-eq : (k j : A × B) → same_pair k j ≡ true → k ≡ j
  same_pair-eq k j h = elim (Bool-cases (is_a.same k.0 j.0)) [
    | inl t ↦
        (let e = is_a.same-eq k.0 j.0 t in
          let f = is_b.same-eq k.1 j.1 (rw t at h) in λ i. (e i, f i))
    | inr f ↦ absurd (true≢false (sym (rw f at h)))
  ]

  -- The outer index is one, and so is every inner index that it holds.
  abbrev IsPairIndex : a.Index → Type ℓ
  IsPairIndex i =
      is_a.IsIndex i
      × ((k : A) (x : b.Index) → a.schema_lookup i k ≡ some (some x) → is_b.IsIndex x)

  bindex_or_new-IsIndex :
      (i : a.Index) (k : A) (o : Option b.Index)
      → IsPairIndex i
      → a.schema_lookup i k ≡ some o
      → is_b.IsIndex (bindex_or_new b a o)
  unfolding bindex_or_new index_new
  bindex_or_new-IsIndex i k none h e = is_b.new-IsIndex
  bindex_or_new-IsIndex i k (some x) h e = h.1 k x e

  -- The pair's value is what the index of its first key has for the second one.
  tuple_lookup_lem :
      (i : a.Index) (k : A) (o : Option b.Index) (j : B)
      → a.schema_lookup i k ≡ some o
      → tuple_lookup_method b a i (k, j) ≡ b.schema_lookup (bindex_or_new b a o) j
  unfolding tuple_lookup_method bindex_or_new index_lookup index_new
  tuple_lookup_lem i k none j e = rw (e, ◌>>=◌) (sym (is_b.new-lookup j))
  tuple_lookup_lem i k (some x) j e = rw (e, ◌>>=◌) refl

  tuple_lookup_same :
      (i i' : a.Index) (k : A) (j : B)
      → a.schema_lookup i' k ≡ a.schema_lookup i k
      → tuple_lookup_method b a i' (k, j) ≡ tuple_lookup_method b a i (k, j)
  unfolding tuple_lookup_method index_lookup
  tuple_lookup_same i i' k j e = rw e refl

  -- An insertion under a pair changes the map at the pair, and nowhere else.
  tuple_insert_lem :
      (i : a.Index) (k : A × B) (val : Option V)
      → IsPairIndex i
      → (old : Option V) × (i' : a.Index) × (tuple_insert_method b a i k val ≡ some (old, i'))
        × IsPairIndex i'
        × (tuple_lookup_method b a i k ≡ some old)
        × ((j : A × B)
            → tuple_lookup_method b a i' j
              ≡ (if same_pair k j then some val else tuple_lookup_method b a i j))
  unfolding tuple_insert_method index_insert index_lookup bindex_or_new
  tuple_insert_lem i k val h =
      let (o, _, _, _, found, _) = is_a.insert_lem i k.0 none h.0 in
      let inner = bindex_or_new b a o in
      let (old, x, run_b, ok_x, was, after_b) =
        is_b.insert_lem inner k.1 val (bindex_or_new-IsIndex i k.0 o h found) in
      let (_, i', run_a, ok_i', _, after_a) = is_a.insert_lem i k.0 (some x) h.0 in
      (
        old,
        i',
        rw (found, ◌>>=◌, run_b, ◌>>=◌, run_a, ◌>>=◌) refl,
        (
          ok_i',
          λ j y e. elim (Bool-cases (is_a.same k.0 j)) [
            | inl t ↦
                subst is_b.IsIndex
                  (some-injective x y
                    (some-injective (some x) (some y) (sym (rw t at (after_a j)) ∙ e)))
                  ok_x
            | inr f ↦ h.1 j y (sym (rw f at (after_a j)) ∙ e)
          ],
        ),
        tuple_lookup_lem i k.0 o k.1 found ∙ was,
        λ j. elim (Bool-cases (is_a.same k.0 j.0)) [
          | inl t ↦
              (let here : a.schema_lookup i' j.0 ≡ some (some x) = rw t at (after_a j.0) in
                let before : a.schema_lookup i j.0 ≡ some o =
                  subst (λ z. a.schema_lookup i z ≡ some o) (is_a.same-eq k.0 j.0 t) found in
                rw t (
                  tuple_lookup_lem i' j.0 (some x) j.1 here
                  ∙ (after_b j.1
                      ∙ ap (λ z. if is_b.same k.1 j.1 then some val else z)
                          (sym (tuple_lookup_lem i j.0 o j.1 before)))))
          | inr f ↦ rw f (tuple_lookup_same i i' j.0 j.1 (rw f at (after_a j.0)))
        ],
      )

  -- The schema of pairs of two schemas that are maps is a map of the pairs of their keys.
  pub tuple_schema-IsMap : IsMap (tuple_schema b a)
  unfolding tuple_schema index_new tuple_lookup_method index_lookup
  tuple_schema-IsMap = record {
    same = same_pair;
    same_self = λ k. rw (is_a.same_self k.0, is_b.same_self k.1) refl;
    same-eq = same_pair-eq;
    IsIndex = IsPairIndex;
    new-IsIndex = (
      is_a.new-IsIndex,
      λ k x e.
          let no : none ≡ some x = some-injective none (some x) (sym (is_a.new-lookup k) ∙ e) in cc,
    );
    new-lookup = λ key. rw (is_a.new-lookup key.0) refl;
    insert_lem = tuple_insert_lem;
  }
