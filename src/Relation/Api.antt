-- ===== src/Relation/Api.antt =====
-- verif/btrees/relation_mem.c: the functions of relation.h on a relation and its cursor.
use deep_spec_db.Base.{
  ℕ, zero, suc, ◌+◌, Bool, true, false, not, Option, some, [], ◌∷◌, get_elem?, ◌==◌, if◌then◌else◌,
  ◌>>=◌, ◌>>◌, assert,
}
use deep_spec_db.Relation.{Node, Relation, Cursor, num_keys, create_new_node, is_valid, is_first}
use deep_spec_db.Relation.Search.{move_to_key, go_to_key}
use deep_spec_db.Relation.Moves.{leaf_at, move_to_first, move_to_next, move_to_prev}
use deep_spec_db.Relation.Put.{Put, done, split, put_entry}

module _ {ℓ} {V : Type ℓ} where
  -- `RL_NewRelation`
  unfoldable pub new_relation : Relation V
  unfolding create_new_node
  new_relation = record {
    depth = 0;
    root = create_new_node {P = Unit} true true tt;
    num_records = 0;
  }

  -- The first position, where `RL_NewCursor` and `RL_MoveToFirst` put the cursor.
  unfoldable pub new_cursor : Relation V → Cursor V
  new_cursor r = record { relation = r; idx = move_to_first V r.depth r.root }

  -- `RL_CursorIsValid` and `isFirst`
  unfoldable pub cursor_is_valid : Cursor V → Option Bool
  cursor_is_valid c = do
    (leaf, i) ← leaf_at V c.relation.depth c.relation.root c.idx
    some (is_valid leaf i)

  unfoldable pub cursor_is_first : Cursor V → Option Bool
  cursor_is_first c = do
    (leaf, i) ← leaf_at V c.relation.depth c.relation.root c.idx
    some (is_first leaf i)

  -- `RL_MoveToFirst`
  unfoldable pub rl_move_to_first : Cursor V → Option (Bool × Cursor V)
  rl_move_to_first c = do let c' = new_cursor c.relation; b ← cursor_is_valid c'; some (b, c')

  -- `moveToNext` and `moveToPrev` on the cursor.
  unfoldable pub cursor_next : Cursor V → Option (Cursor V)
  cursor_next c = do
    p ← move_to_next V c.relation.depth c.relation.root c.idx
    some (record { relation = c.relation; idx = p })

  unfoldable pub cursor_prev : Cursor V → Option (Cursor V)
  cursor_prev c = do
    p ← move_to_prev V c.relation.depth c.relation.root c.idx
    some (record { relation = c.relation; idx = p })

  -- At the end of a leaf, the equivalent position at the start of the next one.
  unfoldable pub settle : Cursor V → Option (Cursor V)
  settle c = do
    (leaf, i) ← leaf_at V c.relation.depth c.relation.root c.idx
    if i == num_keys leaf then cursor_next c else some c

  -- `RL_GetKey` and `RL_GetRecord`: the entry under the cursor, which may move.
  unfoldable pub get_entry : Cursor V → Option ((ℕ × V) × Cursor V)
  get_entry c = do
    valid ← cursor_is_valid c
    assert valid
    c' ← settle c
    (leaf, i) ← leaf_at V c'.relation.depth c'.relation.root c'.idx
    e ← get_elem? leaf.entries i
    some (e, c')

  unfoldable pub get_key : Cursor V → Option (ℕ × Cursor V)
  get_key c = do (e, c') ← get_entry c; some (e.0, c')

  unfoldable pub get_record : Cursor V → Option (V × Cursor V)
  get_record c = do (e, c') ← get_entry c; some (e.1, c')

  -- `goToKey` and `RL_MoveToKey`
  unfoldable pub cursor_go_to_key : Cursor V → ℕ → Option (Cursor V)
  cursor_go_to_key c key = do
    p ← go_to_key V c.relation.depth c.relation.root c.idx key
    some (record { relation = c.relation; idx = p })

  unfoldable pub rl_move_to_key : Cursor V → ℕ → Option (Bool × Cursor V)
  rl_move_to_key c key = do
    c' ← cursor_go_to_key c key
    valid ← cursor_is_valid c'
    if valid then (do (k, c'') ← get_key c'; some (k == key, c'')) else some (false, c')

  -- `RL_MoveToNext` and `RL_MoveToPrevious`
  unfoldable pub rl_move_to_next : Cursor V → Option (Cursor V)
  rl_move_to_next c = settle c >>= cursor_next

  unfoldable pub rl_move_to_previous : Cursor V → Option (Cursor V)
  rl_move_to_previous c = do
    (leaf, i) ← leaf_at V c.relation.depth c.relation.root c.idx
    c' ← if i == 0 then cursor_prev c else some c
    cursor_prev c'

  -- `RL_MoveToNextValid` and `RL_MoveToPreviousNotFirst`
  unfoldable pub move_to_next_valid : Cursor V → Option (Bool × Cursor V)
  move_to_next_valid c = do c' ← rl_move_to_next c; b ← cursor_is_valid c'; some (b, c')

  unfoldable pub move_to_previous_not_first : Cursor V → Option (Bool × Cursor V)
  move_to_previous_not_first c = do
    c' ← rl_move_to_previous c
    b ← cursor_is_first c'
    some (not b, c')

  -- `RL_IsEmpty` and `RL_NumRecords`
  unfoldable pub is_empty : Cursor V → Bool
  is_empty c = root_keys c.relation.depth c.relation.root == 0
    where
      root_keys : (d : ℕ) → Node V d → ℕ
      root_keys zero n = num_keys n
      root_keys (suc d) n = num_keys n

  unfoldable pub num_records : Cursor V → ℕ
  num_records c = c.relation.num_records

  -- The end of `putEntry` at the cursor's relation: the new root after a split of the old one.
  unfoldable pub put_root : (r : Relation V) → ℕ → Put V r.depth → Option (Cursor V)
  unfolding create_new_node
  put_root r key (done n p count) = some (record {
    relation = record { depth = r.depth; root = n; num_records = r.num_records + count };
    idx = p;
  })
  put_root r key (split l k right) = do
    let top : Node V (suc r.depth) = record (create_new_node true true l) {
      entries = (k, right) ∷ [];
    }
    p ← move_to_key V (suc r.depth) top key
    some (record {
      relation = record { depth = suc r.depth; root = top; num_records = r.num_records + 1 };
      idx = p;
    })

  -- `RL_PutRecord`
  unfoldable pub put_record : Cursor V → ℕ → V → Option (Cursor V)
  put_record c key v = do
    c' ← cursor_go_to_key c key
    put ← put_entry V c'.relation.depth c'.relation.root c'.idx key v
    c'' ← put_root c'.relation key put
    rl_move_to_next c''
