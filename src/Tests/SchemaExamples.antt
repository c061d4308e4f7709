-- ===== src/Tests/SchemaExamples.antt =====
-- The theorems about the schemas and the binary search on concrete inputs: the schema of pairs of an
-- integer and a string, where the strings are numbers that `strcmp` compares.
use mathlib.Core.Option.{some-injective}
use deep_spec_db.Base.{ℕ, zero, suc, ◌≡◌, arith, Bool, Option, some, List, [], ◌∷◌, ◌==◌, ==_iff}
use deep_spec_db.Schema.{Schema, IsMap}
use deep_spec_db.Schema.Pair.{tuple_schema, tuple_schema-IsMap}
use deep_spec_db.Schema.Tables.{
  inthash_schema, inthash_schema-IsMap, stringlist_schema, stringlist_schema-IsMap,
}
use deep_spec_db.KeySlice.{binary_search}
use deep_spec_db.KeySlice.Laws.{Sorted, IsResult, binary_search-IsResult}

abbrev equal : ℕ → ℕ → Bool
equal a b = a == b

abbrev strings : Schema ℕ ℕ
strings = stringlist_schema ℕ equal ==_iff

abbrev integers : Schema ℕ strings.Index
integers = inthash_schema strings.Index

tuple_schema-IsMap_example : IsMap (tuple_schema strings integers)
tuple_schema-IsMap_example =
    tuple_schema-IsMap strings integers (stringlist_schema-IsMap ℕ equal ==_iff)
      (inthash_schema-IsMap strings.Index)

abbrev two_numbers : List ℕ
two_numbers = 4 ∷ 9 ∷ []

two_numbers-Sorted : Sorted two_numbers
two_numbers-Sorted zero zero x y l e f = omega (arith, some-injective 4 x e, some-injective 4 y f)
two_numbers-Sorted zero (suc zero) x y l e f =
    omega (arith, some-injective 4 x e, some-injective 9 y f)
two_numbers-Sorted zero (suc (suc j)) x y l e f = cc
two_numbers-Sorted (suc zero) zero x y l e f = absurd (omega arith)
two_numbers-Sorted (suc zero) (suc zero) x y l e f =
    omega (arith, some-injective 9 x e, some-injective 9 y f)
two_numbers-Sorted (suc zero) (suc (suc j)) x y l e f = cc
two_numbers-Sorted (suc (suc i)) j x y l e f = cc

binary_search-IsResult_example :
    (r : Option ℕ) × (binary_search 3 two_numbers 9 0 2 ≡ some r) × IsResult two_numbers 9 0 2 r
binary_search-IsResult_example =
    binary_search-IsResult 3 two_numbers 9 0 2 two_numbers-Sorted (omega arith) (omega arith)
      (omega arith) (omega arith)
