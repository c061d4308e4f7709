-- ===== src/Relation.antt =====
-- verif/btrees/relation_mem.c: the B+ tree relation and its cursor.
--
-- A node is typed by its height above the leaves, `isLeaf` being height zero, so that a child of an
-- intern node is a node and a record of a leaf is a value (the two sides of `Child_or_Record`).
-- `entries` holds the first `numKeys` slots of the array, so `numKeys` is its length.
-- A cursor is its `ancestorsIdx`: `ancestors[i + 1]` is always the child of `ancestors[i]` at
-- `ancestorsIdx[i]`, and `ancestors[0]` the root. In an intern node the position `p` stands for the C
-- index `p - 1`, so that zero is `ptr0`. `none` is a failed `assert` or an access out of an array.
-- One cursor is open on its relation at a time.
pub mod Search
pub mod Moves
pub mod Split
pub mod Put
pub mod Api
pub mod Contents
pub mod Order
pub mod Insertion
pub mod Slot
pub mod Position
pub mod Refines
use deep_spec_db.Base.{ℕ, zero, suc, Bool, true, false, ◌&&◌, List, [], length, ◌==◌, if◌then◌else◌}

-- `FANOUT` and `MIDDLE` of relation.h.
abbrev pub fanout : ℕ
fanout = 15

abbrev pub middle : ℕ
middle = 8

-- `struct BtNode`, with `P` the type of `ptr0` and `A` that of the entries' pointers.
pub record BtNode {ℓ} (P A : Type ℓ) : Type ℓ where
  pub first : Bool
  pub last : Bool
  pub ptr0 : P
  pub entries : List (ℕ × A)

-- A leaf, whose `ptr0` is NULL, or an intern node over nodes one level lower.
abbrev pub Node {ℓ} : Type ℓ → ℕ → Type ℓ
Node V zero = BtNode Unit V
Node V (suc d) = BtNode (Node V d) (Node V d)

-- `ancestorsIdx` from a node down to the leaf.
abbrev pub Ancestors : ℕ → Type 0
Ancestors zero = ℕ
Ancestors (suc d) = ℕ × Ancestors d

-- `struct Relation`
pub record Relation {ℓ} (V : Type ℓ) : Type ℓ where
  pub depth : ℕ
  pub root : Node V depth
  pub num_records : ℕ

-- `struct Cursor`, with the relation that it points to.
pub record Cursor {ℓ} (V : Type ℓ) : Type ℓ where
  pub relation : Relation V
  pub idx : Ancestors relation.depth

module _ {ℓ} {P A : Type ℓ} where
  abbrev pub num_keys : BtNode P A → ℕ
  num_keys n = length n.entries

  -- `createNewNode`, with its `ptr0` set.
  unfoldable pub create_new_node : Bool → Bool → P → BtNode P A
  create_new_node is_first is_last p = record {
    first = is_first;
    last = is_last;
    ptr0 = p;
    entries = [];
  }

  -- `lastpointer` and `firstpointer` as positions: the last is `numKeys` in both kinds of node.
  abbrev pub last_pointer : BtNode P A → ℕ
  last_pointer n = num_keys n

  abbrev pub first_pointer : BtNode P A → ℕ
  first_pointer n = 0

  -- `isValid` and `isFirst` at a leaf and an entry index.
  unfoldable pub is_valid : BtNode P A → ℕ → Bool
  is_valid n i = if (i == num_keys n) && n.last then false else true

  unfoldable pub is_first : BtNode P A → ℕ → Bool
  is_first n i = if (i == 0) && n.first then true else false
