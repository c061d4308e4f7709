-- ===== src/Relation/Refines.antt =====
-- The specification of a relation and its cursor: a sorted list of records and a position in it. The
-- child modules are about these functions of relation.h: RL_PutRecord, the moves to a key, to the
-- first record and to the next one, RL_GetKey, RL_GetRecord and RL_CursorIsValid. The moves to the
-- previous record, RL_IsEmpty and RL_NumRecords stand in Relation/Api.
pub mod Moving
pub mod Finding
pub mod Putting
pub mod Lookup
use deep_spec_db.Base.{ℕ, ◌^◌, ◌≡◌, true, List, length}
use deep_spec_db.Relation.{Ancestors, Relation, Cursor}
use deep_spec_db.Relation.Contents.{contents}
use deep_spec_db.Relation.Order.{IsOrdered, IsSized}
use deep_spec_db.Relation.Position.{IsAt}

-- Keys are of type `size_t`.
abbrev pub key_limit : ℕ
key_limit = 2 ^ 64

-- The representation invariant of a relation.
pub record IsRelation {ℓ} {V : Type ℓ} (r : Relation V) : Type ℓ where
  pub ordered : IsOrdered V r.depth r.root 0 true key_limit true
  pub sized : IsSized V r.depth 0 r.root
  pub counted : r.num_records ≡ length (contents r)

module _ {ℓ} {V : Type ℓ} where
  -- The cursor `p` of the relation has `k` records before it.
  abbrev pub At : (r : Relation V) → Ancestors r.depth → ℕ → Type ℓ
  At r p k = IsAt V r.depth r.root p k

  abbrev pub cursor : (r : Relation V) → Ancestors r.depth → Cursor V
  cursor r p = record { relation = r; idx = p }
