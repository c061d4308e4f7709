-- ===== src/SearchTree.antt =====
-- concurrency/bst_conc.c: the binary search tree, as one thread at a time that holds its locks sees
-- it. `nil` is a `tree_t` whose `t` is NULL. A key stands for the `int` as far above INT_MIN, which
-- keeps the order, and `none` for the NULL that `lookup` returns.
pub mod Laws
pub mod Delete
use deep_spec_db.Base.{ℕ, suc, Option, none, some, ltb, if◌then◌else◌, ◌≤◌, ◌<◌}

-- `struct tree` and `struct tree_t`
pub data Tree {ℓ} (V : Type ℓ) : Type ℓ where
  nil : Tree V
  node : Tree V → ℕ → V → Tree V → Tree V

module _ {ℓ} {V : Type ℓ} where
  -- `treebox_new`
  unfoldable pub treebox_new : Tree V
  treebox_new = nil

  unfoldable pub insert : Tree V → ℕ → V → Tree V
  insert nil x v = node nil x v nil
  insert (node l y w r) x v =
      if ltb x y
      then node (insert l x v) y w r
      else if ltb y x
      then node l y w (insert r x v)
      else node l y v r

  unfoldable pub lookup : Tree V → ℕ → Option V
  lookup nil x = none
  lookup (node l y w r) x = if ltb x y then lookup l x else if ltb y x then lookup r x else some w

  -- `pushdown_left` of the node with children `l` and `r`: `turn_left` puts the right child in its
  -- place and the node at that child's left, until there is no right child.
  unfoldable pub pushdown_left : Tree V → ℕ → V → Tree V → Tree V
  pushdown_left l y w nil = l
  pushdown_left l y w (node mid z u r) = node (pushdown_left l y w mid) z u r

  unfoldable pub delete : Tree V → ℕ → Tree V
  delete nil x = nil
  delete (node l y w r) x =
      if ltb x y
      then node (delete l x) y w r
      else if ltb y x
      then node l y w (delete r x)
      else pushdown_left l y w r

  -- The keys are from `lo` on and below `hi`, in search order.
  abbrev pub IsSearch : ℕ → ℕ → Tree V → Type 0
  IsSearch lo hi nil = Unit
  IsSearch lo hi (node l y w r) = (lo ≤ y) × (y < hi) × IsSearch lo y l × IsSearch (suc y) hi r
