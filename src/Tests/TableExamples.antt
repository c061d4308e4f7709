-- ===== src/Tests/TableExamples.antt =====
-- The theorems about the search tree, the hash table and the string list on concrete inputs. The
-- strings are numbers here, and `strcmp` compares them.
use deep_spec_db.Base.{
  ℕ, suc, ◌≤◌, ◌≡◌, refl, arith, Bool, Option, some, none, List, [], ◌∷◌, length, get_elem?, ◌==◌,
  ==_iff, if◌then◌else◌, pos,
}
use deep_spec_db.SearchTree.{Tree, nil, node, insert, lookup, delete, IsSearch}
use deep_spec_db.SearchTree.Laws.{lookup-insert}
use deep_spec_db.SearchTree.Delete.{lookup-delete, delete-IsSearch}
use deep_spec_db.IntHash.{Inthash, bucket_count, inthash_insert, inthash_lookup}
use deep_spec_db.IntHash.Laws.{inthash_insert_lem}
use deep_spec_db.StringList.{
  Scell, ListCursor, stringlist_insert, stringlist_lookup, stringlist_get_pair,
  stringlist_move_to_first,
}
use deep_spec_db.StringList.Laws.{stringlist_insert_lem}
use deep_spec_db.StringList.Cursors.{advance, move_to_next_lem}

abbrev tree : Tree ℕ
tree = node (node nil 1 10 nil) 3 30 (node (node nil 4 40 nil) 7 70 nil)

tree-IsSearch : IsSearch 0 10 tree
tree-IsSearch = (
  omega arith,
  omega arith,
  (omega arith, omega arith, tt, tt),
  (omega arith, omega arith, (omega arith, omega arith, tt, tt), tt),
)

lookup-insert_example : lookup (insert tree 4 44) 7 ≡ (if 4 == 7 then some 44 else lookup tree 7)
lookup-insert_example = lookup-insert tree 4 44 7

lookup-delete_example : lookup (delete tree 3) 4 ≡ (if 3 == 4 then none else lookup tree 4)
lookup-delete_example = lookup-delete tree 3 0 10 tree-IsSearch 4

delete-IsSearch_example : IsSearch 0 10 (delete tree 3)
delete-IsSearch_example = delete-IsSearch tree 3 0 10 tree-IsSearch

-- Keys 3 and 13 share a bucket.
abbrev table : Inthash ℕ
table = record {
  buckets =
      []
      ∷ []
      ∷ []
      ∷ (record { key = 3; value = some 30 } ∷ record { key = 13; value = none } ∷ [])
      ∷ []
      ∷ []
      ∷ []
      ∷ []
      ∷ []
      ∷ []
      ∷ [];
}

inthash_insert_lem_example :
    (old : Option ℕ) × (p' : Inthash ℕ) × (inthash_insert table 13 (some 5) ≡ some (old, p'))
    × (length p'.buckets ≡ bucket_count)
    × (inthash_lookup table 13 ≡ some old)
    × ((j : ℕ) → inthash_lookup p' j ≡ (if 13 == j then some (some 5) else inthash_lookup table j))
inthash_insert_lem_example = inthash_insert_lem table 13 (some 5) refl

abbrev equal : ℕ → ℕ → Bool
equal a b = a == b

abbrev cells : List (Scell ℕ ℕ)
cells = record { key = 5; value = some 50 } ∷ record { key = 2; value = some 20 } ∷ []

stringlist_insert_lem_example :
    ((stringlist_insert equal cells 2 (some 7)).0 ≡ stringlist_lookup equal cells 2)
    × ((j : ℕ)
        → stringlist_lookup equal (stringlist_insert equal cells 2 (some 7)).1 j
          ≡ (if equal 2 j then some 7 else stringlist_lookup equal cells j))
stringlist_insert_lem_example = stringlist_insert_lem equal ==_iff cells 2 (some 7)

abbrev at_end : ListCursor ℕ ℕ
at_end = record { list = cells; cur = pos 2 }

move_to_next_lem_example :
    ((k : ℕ)
      → k ≤ 2
      → stringlist_get_pair (advance k (stringlist_move_to_first at_end)) ≡ get_elem? cells k)
    × ((n : ℕ)
        → 2 ≡ suc n
        → stringlist_get_pair (advance (suc (suc n)) (stringlist_move_to_first at_end))
          ≡ get_elem? cells n)
move_to_next_lem_example = move_to_next_lem at_end
