-- ===== src/Relation/Position.antt =====
-- Where a cursor stands: the number of records before it. The end of a leaf and the start of the
-- next one are the same position, as the comments of RL_GetKey and RL_MoveToNext say.
pub mod Children
pub mod GoTo
pub mod Leaf
pub mod Next
pub mod Find
use deep_spec_db.Base.{
  ℕ, zero, suc, ◌+◌, ◌≤◌, ◌<◌, ◌≡◌, Option, some, List, [], ◌++◌, length, take, drop,
}
use deep_spec_db.Relation.{BtNode, Node, Ancestors, num_keys}
use deep_spec_db.Relation.Search.{child}
use deep_spec_db.Relation.Contents.{flat, to_list}

module _ {ℓ κ} {A : Type ℓ} {X : Type κ} (g : A → List X) where
  -- The records of the children before a position, and after it.
  abbrev pub before : BtNode A A → ℕ → List X
  before n zero = []
  before n (suc i) = g n.ptr0 ++ flat g (take i n.entries)

  abbrev pub after : BtNode A A → ℕ → List X
  after n i = flat g (drop i n.entries)

module _ {ℓ} (V : Type ℓ) where
  -- The cursor leads to a leaf, with `k` records before it.
  abbrev pub IsAt : (d : ℕ) → Node V d → Ancestors d → ℕ → Type ℓ
  IsAt zero n i k = (i ≤ num_keys n) × (i ≡ k) × Unit {ℓ}
  IsAt (suc d) n (i, p) k =
      (c : Node V d) × (child n i ≡ some c)
      × (j : ℕ) × IsAt d c p j
      × (k ≡ length (before (to_list V d) n i) + j)

  -- The cursor is at an entry of its leaf, not at the leaf's end.
  abbrev pub IsOn : (d : ℕ) → Node V d → Ancestors d → Type ℓ
  IsOn zero n i = (i < num_keys n) × Unit {ℓ}
  IsOn (suc d) n (i, p) = (c : Node V d) × (child n i ≡ some c) × IsOn d c p
