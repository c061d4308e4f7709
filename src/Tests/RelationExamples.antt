-- ===== src/Tests/RelationExamples.antt =====
-- The theorems about verif/btrees/relation_mem.c on the relation of two levels.
use deep_spec_db.Base.{
  ℕ, ◌+◌, ◌≡◌, refl, arith, true, false, some, ◌∷◌, length, length-insert_at, ◌==◌, get_elem?,
  insert_at, ltb, if◌then◌else◌,
}
use deep_spec_db.Relation.{Node, BtNode, Ancestors, Relation, Cursor, fanout}
use deep_spec_db.Relation.Contents.{contents, insert, lookup}
use deep_spec_db.Relation.Search.{find_record_index, move_to_key, go_to_key}
use deep_spec_db.Relation.Split.{split_leaf, split_intern}
use deep_spec_db.Relation.Split.Laws.{Halves, halves, split_leaf_lem, split_intern_lem}
use deep_spec_db.Relation.Put.{Put, put_entry}
use deep_spec_db.Relation.Put.Result.{IsPut}
use deep_spec_db.Relation.Put.Correct.{put_entry-IsPut}
use deep_spec_db.Relation.Api.{
  put_record, rl_move_to_key, rl_move_to_next, get_key, get_record, cursor_go_to_key,
}
use deep_spec_db.Relation.Position.GoTo.{go_to_key-move_to_key}
use deep_spec_db.Relation.Position.Find.{held}
use deep_spec_db.Relation.Refines.{IsRelation, At, cursor, key_limit}
use deep_spec_db.Relation.Refines.Moving.{get_entry-At, rl_move_to_next-At}
use deep_spec_db.Relation.Refines.Finding.{cursor_go_to_key-At, rl_move_to_key-At}
use deep_spec_db.Relation.Refines.Putting.{put_record-At}
use deep_spec_db.Relation.Refines.Lookup.{put_record-get_record, put_record-lookup}
use deep_spec_db.Tests.Samples.{
  right_leaf, right_records, two_leaves, at_30, at_seam, two_leaves-IsRelation, at_30-At,
  at_seam-At,
}

abbrev halves_105 : Halves (insert_at (find_record_index 105 right_records) (105, 7) right_records)
halves_105 =
    halves (insert_at (find_record_index 105 right_records) (105, 7) right_records)
      (length-insert_at (find_record_index 105 right_records) (105, 7) right_records)

abbrev full_intern : BtNode ℕ ℕ
full_intern = record { first = true; last = true; ptr0 = 8; entries = right_records }

abbrev halves_105_at_2 : Halves (insert_at 2 (105, 7) right_records)
halves_105_at_2 =
    halves (insert_at 2 (105, 7) right_records) (length-insert_at 2 (105, 7) right_records)

-- Key 105 goes into the full leaf, which splits.
put_record-At_example :
    (r' : Relation ℕ) × (p' : Ancestors r'.depth) × (put_record (cursor two_leaves at_30) 105 7
      ≡ some (cursor r' p'))
    × IsRelation r'
    × (contents r' ≡ insert 105 7 (contents two_leaves))
    × At r' p' (find_record_index 105 (contents two_leaves) + 1)
put_record-At_example =
    put_record-At two_leaves two_leaves-IsRelation 105 7 (omega arith) at_30 2 at_30-At

put_record-get_record_example :
    (c : Cursor ℕ) × (found : Cursor ℕ) × (read : Cursor ℕ) × (put_record
        (cursor two_leaves at_30)
        105
        7
      ≡ some c)
    × (rl_move_to_key c 105 ≡ some (true, found))
    × (get_record found ≡ some (7, read))
put_record-get_record_example =
    put_record-get_record two_leaves two_leaves-IsRelation 105 7 (omega arith) at_30 2 at_30-At

rl_move_to_key-At_example :
    (p' : Ancestors 1) × (rl_move_to_key (cursor two_leaves at_30) 85
      ≡ some (held 85 (contents two_leaves), cursor two_leaves p'))
    × At two_leaves p' (find_record_index 85 (contents two_leaves))
rl_move_to_key-At_example =
    rl_move_to_key-At two_leaves two_leaves-IsRelation at_30 2 at_30-At 85 (omega arith)

cursor_go_to_key-At_example :
    (p' : Ancestors 1) × (cursor_go_to_key (cursor two_leaves at_30) 170
      ≡ some (cursor two_leaves p'))
    × At two_leaves p' (find_record_index 170 (contents two_leaves))
    × (move_to_key ℕ 1 two_leaves.root 170 ≡ some p')
cursor_go_to_key-At_example =
    cursor_go_to_key-At two_leaves two_leaves-IsRelation at_30 2 at_30-At 170 (omega arith)

rl_move_to_next-At_example :
    (p' : Ancestors 1) × (rl_move_to_next (cursor two_leaves at_seam) ≡ some (cursor two_leaves p'))
    × At two_leaves p' (if ltb 8 (length (contents two_leaves)) then 9 else 8)
rl_move_to_next-At_example =
    rl_move_to_next-At two_leaves two_leaves-IsRelation at_seam 8 at_seam-At

get_entry-At_example :
    (e : ℕ × ℕ) × (p' : Ancestors 1) × (get_elem? (contents two_leaves) 8 ≡ some e)
    × (get_key (cursor two_leaves at_seam) ≡ some (e.0, cursor two_leaves p'))
    × (get_record (cursor two_leaves at_seam) ≡ some (e.1, cursor two_leaves p'))
    × At two_leaves p' 8
unfolding contents deep_spec_db.Relation.Contents.to_list deep_spec_db.Relation.Contents.flat
get_entry-At_example =
    get_entry-At two_leaves two_leaves-IsRelation at_seam 8 at_seam-At (omega arith)

go_to_key-move_to_key_example :
    go_to_key ℕ 1 two_leaves.root at_30 170 ≡ move_to_key ℕ 1 two_leaves.root 170
go_to_key-move_to_key_example =
    go_to_key-move_to_key ℕ 170 1 two_leaves.root at_30 2 0 key_limit 0
      two_leaves-IsRelation.ordered two_leaves-IsRelation.sized at_30-At (omega arith) (omega arith)

put_entry-IsPut_example :
    (p : Ancestors 1) × (r : Put ℕ 1) × (move_to_key ℕ 1 two_leaves.root 105 ≡ some p)
    × (put_entry ℕ 1 two_leaves.root p 105 7 ≡ some r)
    × IsPut ℕ 1 two_leaves.root 105 7 0 true key_limit true 0 r
put_entry-IsPut_example =
    put_entry-IsPut ℕ 1 two_leaves.root 105 7 0 true key_limit true 0 two_leaves-IsRelation.ordered
      two_leaves-IsRelation.sized (omega arith) (omega arith)

put_record-lookup_example :
    (c : Cursor ℕ) × (put_record (cursor two_leaves at_30) 105 7 ≡ some c)
    × ((j : ℕ)
        → lookup j (contents c.relation)
          ≡ (if 105 == j then some 7 else lookup j (contents two_leaves)))
put_record-lookup_example =
    put_record-lookup two_leaves two_leaves-IsRelation 105 7 (omega arith) at_30 2 at_30-At

split_leaf_lem_example :
    split_leaf right_leaf (105, 7)
    ≡ some (
      record right_leaf { last = false; entries = halves_105.low },
      halves_105.mid.0,
      record { first = false; last = true; ptr0 = tt; entries = halves_105.mid ∷ halves_105.high },
    )
split_leaf_lem_example = split_leaf_lem right_leaf (105, 7) refl halves_105

split_intern_lem_example :
    split_intern full_intern (105, 7)
    ≡ some (
      record full_intern { last = false; entries = halves_105_at_2.low },
      halves_105_at_2.mid.0,
      record {
        first = false;
        last = true;
        ptr0 = halves_105_at_2.mid.1;
        entries = halves_105_at_2.high;
      },
    )
unfolding find_record_index
split_intern_lem_example = split_intern_lem full_intern (105, 7) 2 refl refl halves_105_at_2
