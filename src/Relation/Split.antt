-- ===== src/Relation/Split.antt =====
-- verif/btrees/relation_mem.c: `splitnode` and the insertion of an entry into a node with room.
pub mod Laws
use deep_spec_db.Base.{
  ℕ, suc, ◌-◌, ◌+◌, false, Option, some, List, [], length, get_elem?, take, ltb, if◌then◌else◌,
  ◌>>=◌,
}
use deep_spec_db.Base.Arrays.{write, copy, shift}
use deep_spec_db.Relation.{BtNode, create_new_node, fanout, middle}
use deep_spec_db.Relation.Search.{find_record_index}

module _ {ℓ} {A : Type ℓ} where
  -- The loop of `putEntry` that moves the entries from `tgt` on to the right, and the store.
  unfoldable pub insert_entry : List (ℕ × A) → ℕ → ℕ × A → Option (List (ℕ × A))
  insert_entry es tgt e = do moved ← shift (length es - tgt) tgt es; write moved tgt e

  -- The first half of `splitnode`: `allEntries`.
  unfoldable pub all_entries : List (ℕ × A) → ℕ → ℕ × A → Option (List (ℕ × A))
  all_entries es tgt e = do
    before ← copy tgt 0 0 es []
    with_entry ← write before tgt e
    copy (fanout - tgt) tgt (tgt + 1) es with_entry

  -- The update of the split node's own entries; `numKeys = MIDDLE` cuts the rest off.
  unfoldable pub keep_first : List (ℕ × A) → ℕ → List (ℕ × A) → Option (List (ℕ × A))
  keep_first es tgt all = do
    kept ← if ltb tgt middle then copy (middle - tgt) tgt tgt all es else some es
    some (take middle kept)

  -- `splitnode` at a leaf: the node, the new entry's key, and the new node that it points to.
  unfoldable pub split_leaf : BtNode Unit A → ℕ × A → Option (BtNode Unit A × ℕ × BtNode Unit A)
  unfolding create_new_node
  split_leaf n e = do
    let tgt = find_record_index e.0 n.entries
    let new_node = create_new_node false n.last n.ptr0
    all ← all_entries n.entries tgt e
    kept ← keep_first n.entries tgt all
    rest ← copy (fanout + 1 - middle) middle 0 all []
    mid ← get_elem? all middle
    some (record n { last = false; entries = kept }, mid.0, record new_node { entries = rest })

  -- `splitnode` at an intern node: the middle entry moves up, its child becomes the new `ptr0`.
  unfoldable pub split_intern : BtNode A A → ℕ × A → Option (BtNode A A × ℕ × BtNode A A)
  unfolding create_new_node
  split_intern n e = do
    let tgt = find_record_index e.0 n.entries
    all ← all_entries n.entries tgt e
    kept ← keep_first n.entries tgt all
    rest ← copy (fanout - middle) (middle + 1) 0 all []
    mid ← get_elem? all middle
    let new_node = create_new_node false n.last mid.1
    some (record n { last = false; entries = kept }, mid.0, record new_node { entries = rest })
