-- ===== src/Relation/Put.antt =====
-- verif/btrees/relation_mem.c: `putEntry`. It starts at the leaf of the cursor and calls itself one
-- level higher with the entry that a split leaves. The model goes down the cursor to the leaf and
-- returns along the same nodes: `split` is the recursive call on the parent.
pub mod Result
pub mod Leaf
pub mod Children
pub mod Intern
pub mod Correct
use deep_spec_db.Base.{
  ℕ, zero, suc, Bool, true, false, Option, none, some, List, [], ◌∷◌, length, get_elem?, set, ltb,
  ◌==◌, if◌then◌else◌, ◌>>=◌,
}
use deep_spec_db.Relation.{BtNode, Node, Ancestors, num_keys, create_new_node, fanout}
use deep_spec_db.Relation.Search.{child, move_to_key}
use deep_spec_db.Relation.Split.{insert_entry, split_leaf, split_intern}

-- What `putEntry` leaves at a level: the node, the cursor below it and the increment of
-- `numRecords`; or a split node with the new entry's key and node for the level above.
pub data Put {ℓ} (V : Type ℓ) (d : ℕ) : Type ℓ where
  done : Node V d → Ancestors d → ℕ → Put V d
  split : Node V d → ℕ → Node V d → Put V d

module _ {ℓ} {A : Type ℓ} where
  -- `entryIndex < numKeys && entries[entryIndex].key == key`
  unfoldable pub holds_key : List (ℕ × A) → ℕ → ℕ → Bool
  holds_key es i key = elim (get_elem? es i) [ some e ↦ e.0 == key | none ↦ false ]

  -- `entries[i].ptr = a`
  unfoldable pub set_ptr : List (ℕ × A) → ℕ → A → List (ℕ × A)
  set_ptr [] i a = []
  set_ptr (e ∷ es) zero a = (e.0, a) ∷ es
  set_ptr (e ∷ es) (suc i) a = e ∷ set_ptr es i a

  -- The child at a position, which the code changes in place through its pointer.
  unfoldable pub set_child : BtNode A A → ℕ → A → BtNode A A
  set_child n zero a = record n { ptr0 = a }
  set_child n (suc i) a = record n { entries = set_ptr n.entries i a }

module _ {ℓ} (V : Type ℓ) where
  -- `putEntry` at a leaf.
  unfoldable pub put_leaf : Node V 0 → ℕ → ℕ → V → Option (Put V 0)
  put_leaf n i key v =
      if holds_key n.entries i key
      then some (done (record n { entries = set_ptr n.entries i v }) i 0)
      else if ltb (num_keys n) fanout
      then (do es ← insert_entry n.entries i (key, v); some (done (record n { entries = es }) i 1))
      else do (l, k, r) ← split_leaf n (key, v); some (split l k r)

  -- `putEntry` at an intern node, with the entry that the split of a child leaves.
  unfoldable pub put_intern :
      (d : ℕ) → Node V (suc d) → ℕ → ℕ → ℕ × Node V d → Option (Put V (suc d))
  put_intern d n i key e =
      if ltb (num_keys n) fanout
      then (do
        es ← insert_entry n.entries i e
        let n' = record n { entries = es }
        p ← move_to_key V (suc d) n' key
        some (done n' p 1))
      else do (l, k, r) ← split_intern n e; some (split l k r)

  unfoldable pub put_entry : (d : ℕ) → Node V d → Ancestors d → ℕ → V → Option (Put V d)
  put_entry zero n i key v = put_leaf n i key v
  put_entry (suc d) n (i, p) key v = do
    c ← child n i
    below ← put_entry d c p key v
    elim below [
      | done c' p' count ↦ some (done (set_child n i c') (i, p') count)
      | split l k r ↦ put_intern d (set_child n i l) i key (k, r)
    ]
