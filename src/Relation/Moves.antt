-- ===== src/Relation/Moves.antt =====
-- verif/btrees/relation_mem.c: the moves of a cursor along the leaves.
use deep_spec_db.Base.{
  ℕ, zero, suc, ◌-◌, ◌+◌, Option, none, some, ltb, ◌==◌, if◌then◌else◌, ◌>>=◌, ◌>>◌, assert,
}
use deep_spec_db.Relation.{
  Node, Ancestors, num_keys, last_pointer, first_pointer, is_valid, is_first,
}
use deep_spec_db.Relation.Search.{child}

module _ {ℓ} (V : Type ℓ) where
  -- `currNode` and `entryIndex` of a cursor at its leaf.
  unfoldable pub leaf_at : (d : ℕ) → Node V d → Ancestors d → Option (Node V 0 × ℕ)
  leaf_at zero n i = some (n, i)
  leaf_at (suc d) n (i, p) = do c ← child n i; leaf_at d c p

  -- `moveToFirst`
  unfoldable pub move_to_first : (d : ℕ) → Node V d → Ancestors d
  move_to_first zero n = 0
  move_to_first (suc d) n = (0, move_to_first d n.ptr0)

  -- `moveToLast`. With no key the C code reads `entries[-1]`.
  unfoldable pub move_to_last : (d : ℕ) → Node V d → Option (Ancestors d)
  move_to_last zero n = some (num_keys n)
  move_to_last (suc d) n = do
    assert (ltb 0 (num_keys n))
    c ← child n (num_keys n)
    p ← move_to_last d c
    some (num_keys n, p)

  -- The loop and the step of `moveToNext` below the root, from the leaf up. The inner `none` says
  -- that the position was the last pointer, so that the loop ascended.
  unfoldable pub step_next : (d : ℕ) → Node V d → Ancestors d → Option (Option (Ancestors d))
  step_next zero n i = some (if i == last_pointer n then none else some (i + 1))
  step_next (suc d) n (i, p) = do
    c ← child n i
    below ← step_next d c p
    elim below [
      | some p' ↦ some (some (i, p'))
      | none ↦
          if i == last_pointer n
          then some none
          else do c' ← child n (i + 1); some (some (i + 1, move_to_first d c'))
    ]

  -- The same with the root on top, where the loop stops at level 0.
  unfoldable pub advance : (d : ℕ) → Node V d → Ancestors d → Option (Ancestors d)
  advance zero n i = some (i + 1)
  advance (suc d) n (i, p) = do
    c ← child n i
    below ← step_next d c p
    elim below [
      | some p' ↦ some (i, p')
      | none ↦ do c' ← child n (i + 1); some (i + 1, move_to_first d c')
    ]

  -- `moveToNext`
  unfoldable pub move_to_next : (d : ℕ) → Node V d → Ancestors d → Option (Ancestors d)
  move_to_next d n p = do
    (leaf, i) ← leaf_at d n p
    if is_valid leaf i then advance d n p else some p

  -- The loop and the step of `moveToPrev` below the root. Where the index becomes -1 the C code reads
  -- `entries[-1].ptr`, which the layout of the struct makes `ptr0`.
  unfoldable pub step_prev : (d : ℕ) → Node V d → Ancestors d → Option (Option (Ancestors d))
  step_prev zero n i = some (if i == first_pointer n then none else some (i - 1))
  step_prev (suc d) n (i, p) = do
    c ← child n i
    below ← step_prev d c p
    elim below [
      | some p' ↦ some (some (i, p'))
      | none ↦
          if i == first_pointer n
          then some none
          else do c' ← child n (i - 1); p' ← move_to_last d c'; some (some (i - 1, p'))
    ]

  -- The same with the root on top. An index below `ptr0` is out of the array.
  unfoldable pub retreat : (d : ℕ) → Node V d → Ancestors d → Option (Ancestors d)
  retreat zero n i = do assert (ltb 0 i); some (i - 1)
  retreat (suc d) n (i, p) = do
    c ← child n i
    below ← step_prev d c p
    elim below [
      | some p' ↦ some (i, p')
      | none ↦ do assert (ltb 0 i); c' ← child n (i - 1); p' ← move_to_last d c'; some (i - 1, p')
    ]

  -- `moveToPrev`
  unfoldable pub move_to_prev : (d : ℕ) → Node V d → Ancestors d → Option (Ancestors d)
  move_to_prev d n p = do
    (leaf, i) ← leaf_at d n p
    if is_first leaf i then some p else retreat d n p
