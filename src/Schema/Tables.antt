-- ===== src/Schema/Tables.antt =====
-- tuplekey/inthash_schema.c and tuplekey/stringlist_schema.c: the two tables as schemas.
use deep_spec_db.Base.{
  ℕ, Bool, true, Option, some, List, length, ◌==◌, ==-eq, ==_self, ◌↔◌, ◌≡◌, refl, ap, sym, ◌∙◌,
  Bool-cases, inl, inr,
}
use deep_spec_db.Schema.{Schema, IsMap}
use deep_spec_db.IntHash.{Inthash, bucket_count, inthash_new, inthash_insert, inthash_lookup}
use deep_spec_db.IntHash.Laws.{inthash_insert_lem, inthash_new-lookup}
use deep_spec_db.StringList.{Scell, stringlist_new, stringlist_insert, stringlist_lookup}
use deep_spec_db.StringList.Laws.{stringlist_insert_lem}

module _ (V : Type 0) where
  unfoldable pub inthash_schema : Schema ℕ V
  inthash_schema = record {
    Index = Inthash V;
    schema_new = inthash_new;
    schema_insert = inthash_insert;
    schema_lookup = inthash_lookup;
  }

  -- The schema of the hash table is a map of the integers.
  pub inthash_schema-IsMap : IsMap inthash_schema
  unfolding inthash_schema inthash_new
  inthash_schema-IsMap = record {
    same = λ k j. k == j;
    same_self = ==_self;
    same-eq = ==-eq;
    IsIndex = λ p. length p.buckets ≡ bucket_count;
    new-IsIndex = refl;
    new-lookup = inthash_new-lookup;
    insert_lem = λ p key val h. inthash_insert_lem p key val h;
  }

module _ {K : Type 0} (V : Type 0) (strcmp_eq : K → K → Bool)
    (strcmp_iff : (a b : K) → (strcmp_eq a b ≡ true) ↔ (a ≡ b)) where
  unfoldable pub stringlist_schema : Schema K V
  stringlist_schema = record {
    Index = List (Scell K V);
    schema_new = stringlist_new;
    schema_insert = λ p key val. some (stringlist_insert strcmp_eq p key val);
    schema_lookup = λ p key. some (stringlist_lookup strcmp_eq p key);
  }

  -- When strcmp returns zero exactly for equal strings, the schema of the string list is a map of
  -- the strings.
  pub stringlist_schema-IsMap : IsMap stringlist_schema
  unfolding stringlist_schema stringlist_new stringlist_lookup
  stringlist_schema-IsMap = record {
    same = strcmp_eq;
    same_self = λ a. (strcmp_iff a a).1 refl;
    same-eq = λ a b. (strcmp_iff a b).0;
    IsIndex = λ p. Unit;
    new-IsIndex = tt;
    new-lookup = λ key. refl;
    insert_lem = λ p key val h.
        let (was, after) = stringlist_insert_lem strcmp_eq strcmp_iff p key val in
        (
          (stringlist_insert strcmp_eq p key val).0,
          (stringlist_insert strcmp_eq p key val).1,
          refl,
          tt,
          ap (λ (o : Option V). some o) (sym was),
          λ j.
              ap (λ (o : Option V). some o) (after j)
              ∙ elim (Bool-cases (strcmp_eq key j)) [ inl t ↦ rw t refl | inr f ↦ rw f refl ],
        );
  }
