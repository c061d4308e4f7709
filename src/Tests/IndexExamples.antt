-- ===== src/Tests/IndexExamples.antt =====
-- The theorems about the integer index, the range query and the border node on concrete inputs.
use mathlib.Core.Option
use deep_spec_db.Base.{
  ℕ, ◌≤◌, ◌<◌, ◌≡◌, ◌≢◌, refl, arith, true, Option, some, none, List, [], ◌∷◌, length, drop,
  replicate, ltb, if◌then◌else◌,
}
use deep_spec_db.Relation.{Ancestors, Relation, Cursor}
use deep_spec_db.Relation.Contents.{contents}
use deep_spec_db.Relation.Search.{find_record_index}
use deep_spec_db.Relation.Refines.{IsRelation, At, cursor}
use deep_spec_db.IntIndex.{iput, imove_cursor, iget_value, move_to_end, range_query, unless_empty}
use deep_spec_db.IntIndex.Laws.{iput-iget_value, move_to_end-At}
use deep_spec_db.IntIndex.Range.{up_to, that_fit, range_query-At}
use deep_spec_db.BorderNode.{BorderNode, max_bn_size, set_value, has_suffix, test_suffix}
use deep_spec_db.BorderNode.Laws.{get_value, set_value_short, set_value_long}
use deep_spec_db.Tests.Samples.{two_leaves, at_30, two_leaves-IsRelation, at_30-At}

abbrev index : Relation (Option ℕ)
index = record {
  depth = 0;
  root = record {
    first = true;
    last = true;
    ptr0 = tt;
    entries = (3, some 30) ∷ (5, none) ∷ (8, some 80) ∷ [];
  };
  num_records = 3;
}

index-IsRelation : IsRelation index
unfolding contents deep_spec_db.Relation.Contents.to_list
index-IsRelation = record {
  ordered = ((omega arith, (omega arith, (omega arith, omega arith))), refl, refl);
  sized = (omega arith, omega arith);
  counted = refl;
}

abbrev at_5 : Ancestors 0
at_5 = 1

at_5-At : At index at_5 1
at_5-At = (omega arith, refl, tt)

iput-iget_value_example :
    (c : Cursor (Option ℕ)) × (found : Cursor (Option ℕ)) × (read : Cursor (Option ℕ)) × (iput 6
        (some 60)
        (cursor index at_5)
      ≡ some c)
    × (imove_cursor 6 (some c) ≡ some (some found))
    × (iget_value (some found) none ≡ some (true, some 60, some read))
iput-iget_value_example =
    iput-iget_value index index-IsRelation at_5 1 at_5-At 6 60 none (omega arith)

move_to_end-At_example :
    (p' : Ancestors 0) × (move_to_end 3 (cursor index at_5) ≡ some (cursor index p'))
    × At index p' (length (contents index))
unfolding contents deep_spec_db.Relation.Contents.to_list
move_to_end-At_example =
    move_to_end-At index index-IsRelation 2 at_5 1 at_5-At (omega arith) (omega arith)

range_query-At_example :
    range_query true true 24 (cursor two_leaves at_30) (some two_leaves) 65 115 ≡ (
      if ltb (find_record_index 65 (contents two_leaves)) (length (contents two_leaves))
      then Option.map unless_empty (
          that_fit true
            (up_to 115 (drop (find_record_index 65 (contents two_leaves)) (contents two_leaves))))
      else none)
unfolding contents deep_spec_db.Relation.Contents.to_list deep_spec_db.Relation.Contents.flat
range_query-At_example =
    range_query-At two_leaves two_leaves-IsRelation true true 24 at_30 2 65 115 at_30-At
      (omega arith) (omega arith) (omega arith)

abbrev border : BorderNode ℕ
border = record {
  prefix_links = some 1 ∷ replicate 7 none;
  suffix_link = some 9;
  key_suffix = some (97 ∷ []);
}

abbrev long_key : List ℕ
long_key = 1 ∷ 2 ∷ 3 ∷ 4 ∷ 5 ∷ 6 ∷ 7 ∷ 8 ∷ 98 ∷ 99 ∷ []

abbrev first_string : List ℕ
first_string = 97 ∷ 98 ∷ []

abbrev second_string : List ℕ
second_string = 97 ∷ 99 ∷ []

set_value_short_example :
    (bn' : BorderNode ℕ) × (set_value border (97 ∷ 98 ∷ []) (some 5) ≡ some bn')
    × (length bn'.prefix_links ≡ max_bn_size)
    × (get_value bn' (97 ∷ 98 ∷ []) ≡ some (some 5))
    × ((other : List ℕ) → length other ≢ 2 → get_value bn' other ≡ get_value border other)
set_value_short_example =
    set_value_short border (97 ∷ 98 ∷ []) (some 5) refl (omega arith) (omega arith)

set_value_long_example :
    (bn' : BorderNode ℕ) × (set_value border long_key (some 5) ≡ some bn')
    × (has_suffix bn' ≡ true)
    × (test_suffix bn' long_key ≡ true)
    × (get_value bn' long_key ≡ some (some 5))
    × ((other : List ℕ)
        → max_bn_size < length other
        → drop max_bn_size other ≢ (98 ∷ 99 ∷ [])
        → get_value bn' other ≡ some none)
    × ((other : List ℕ) → length other ≤ max_bn_size → get_value bn' other ≡ get_value border other)
set_value_long_example = set_value_long border long_key (some 5) (omega arith)
