-- ===== src/Relation/Search.antt =====
-- verif/btrees/relation_mem.c: the searches in a node and the descent to a key.
use deep_spec_db.Base.{
  ℕ, zero, suc, ◌-◌, Bool, true, false, ◌&&◌, ◌||◌, Option, none, some, List, [], ◌∷◌, get_elem?,
  ltb, leb, ◌==◌, if◌then◌else◌, ◌>>=◌, ◌>>◌, assert,
}
use deep_spec_db.Relation.{BtNode, Node, Ancestors, num_keys}

module _ {ℓ} {A : Type ℓ} where
  -- `findChildIndex` over the entries: the position of the child that covers the key.
  unfoldable pub child_index : ℕ → List (ℕ × A) → ℕ
  child_index key [] = 0
  child_index key (e ∷ es) = if ltb key e.0 then 0 else suc (child_index key es)

  -- `findRecordIndex`: the first entry whose key is at least the search key.
  unfoldable pub find_record_index : ℕ → List (ℕ × A) → ℕ
  find_record_index key [] = 0
  find_record_index key (e ∷ es) = if leb key e.0 then 0 else suc (find_record_index key es)

  -- `ptr0` or `entries[i].ptr.child`
  unfoldable pub child : BtNode A A → ℕ → Option A
  child n zero = some n.ptr0
  child n (suc i) = do e ← get_elem? n.entries i; some e.1

  -- `findChildIndex`, with its `assert`.
  unfoldable pub find_child_index : BtNode A A → ℕ → Option ℕ
  find_child_index n key = do assert (ltb 0 (num_keys n)); some (child_index key n.entries)

module _ {ℓ} (V : Type ℓ) where
  -- `moveToKey`
  unfoldable pub move_to_key : (d : ℕ) → Node V d → ℕ → Option (Ancestors d)
  move_to_key zero n key = some (find_record_index key n.entries)
  move_to_key (suc d) n key = do
    i ← find_child_index n key
    c ← child n i
    p ← move_to_key d c key
    some (i, p)

  -- `isNodeParent` at a leaf.
  unfoldable pub is_leaf_parent : Node V 0 → ℕ → Option Bool
  is_leaf_parent n key = if num_keys n == 0 then some true else do
    lowest ← get_elem? n.entries 0
    highest ← get_elem? n.entries (num_keys n - 1)
    some ((leb lowest.0 key || n.first) && (leb key highest.0 || n.last))

  -- `isNodeParent`
  unfoldable pub is_node_parent : (d : ℕ) → Node V d → ℕ → Option Bool
  is_node_parent zero n key = is_leaf_parent n key
  is_node_parent (suc d) n key = do
    i ← find_child_index n key
    some (if (i == 0) || (i == num_keys n) then false else true)

  -- `AscendToParent` from the leaf up to a node below the root, and `moveToKey` from where it
  -- stops. The inner `none` is `cursor->level--` out of the node.
  unfoldable pub ascend : (d : ℕ) → Node V d → Ancestors d → ℕ → Option (Option (Ancestors d))
  ascend zero n i key = do
    here ← is_node_parent zero n key
    if here then (do p ← move_to_key zero n key; some (some p)) else some none
  ascend (suc d) n (i, p) key = do
    c ← child n i
    below ← ascend d c p key
    elim below [
      | some p' ↦ some (some (i, p'))
      | none ↦ do
        here ← is_node_parent (suc d) n key
        if here then (do p' ← move_to_key (suc d) n key; some (some p')) else some none
    ]

  -- `goToKey`: the root is at level 0, where `AscendToParent` asks no more.
  unfoldable pub go_to_key : (d : ℕ) → Node V d → Ancestors d → ℕ → Option (Ancestors d)
  go_to_key zero n i key = move_to_key zero n key
  go_to_key (suc d) n (i, p) key = do
    c ← child n i
    below ← ascend d c p key
    elim below [ some p' ↦ some (i, p') | none ↦ move_to_key (suc d) n key ]
