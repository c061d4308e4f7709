-- ===== src/IntIndex.antt =====
-- src/btrees and tries (Adewale)/index_int.c: the index over integers, on the functions of relation.h
-- as Relation.Api has them. A cursor that is NULL is `none`, a value `none` when it is NULL; the outer
-- `none` is a fault of the relation.
pub mod Laws
pub mod Range
use deep_spec_db.Base.{
  ℕ, zero, suc, Bool, true, false, not, Option, none, some, ltb, leb, ◌==◌, if◌then◌else◌, ◌>>=◌,
  List, [], ◌∷◌, ◌++◌, ◌>>◌, assert, length, ◌*◌,
}
use deep_spec_db.Relation.{Relation, Cursor}
use deep_spec_db.Relation.Api.{
  new_relation, new_cursor, put_record, rl_move_to_key, rl_move_to_first, rl_move_to_next,
  rl_move_to_previous, move_to_next_valid, get_key, get_record, cursor_is_valid,
}

module _ {ℓ} {V : Type ℓ} where
  unfoldable pub iempty : Relation (Option V)
  iempty = new_relation

  unfoldable pub imove_cursor : ℕ → Option (Cursor (Option V)) → Option (Option (Cursor (Option V)))
  imove_cursor key none = some none
  imove_cursor key (some cursor) = do
    (found, cursor') ← rl_move_to_key cursor key
    some (if found then some cursor' else none)

  unfoldable pub imake_cursor :
      ℕ → Option (Relation (Option V)) → Option (Option (Cursor (Option V)))
  imake_cursor key none = some none
  imake_cursor key (some index) = imove_cursor key (some (new_cursor index))

  unfoldable pub ifirst_cursor : Option (Cursor (Option V)) → Option (Option (Cursor (Option V)))
  ifirst_cursor none = some none
  ifirst_cursor (some cursor) = do
    (found, cursor') ← rl_move_to_first cursor
    some (if found then some cursor' else none)

  -- The loop of `Ilast_cursor`, with fuel.
  unfoldable pub move_to_end : ℕ → Cursor (Option V) → Option (Cursor (Option V))
  move_to_end zero cursor = none
  move_to_end (suc n) cursor = do
    (valid, cursor') ← move_to_next_valid cursor
    let rest = move_to_end n cursor'
    if valid then rest else some cursor'

  unfoldable pub ilast_cursor : ℕ → Option (Cursor (Option V)) → Option (Option (Cursor (Option V)))
  ilast_cursor fuel none = some none
  ilast_cursor fuel (some cursor) = do
    end ← move_to_end fuel cursor
    cursor' ← rl_move_to_previous end
    some (some cursor')

  unfoldable pub inext_cursor : Option (Cursor (Option V)) → Option (Option (Cursor (Option V)))
  inext_cursor none = some none
  inext_cursor (some cursor) = do cursor' ← rl_move_to_next cursor; some (some cursor')

  unfoldable pub iprev_cursor : Option (Cursor (Option V)) → Option (Option (Cursor (Option V)))
  iprev_cursor none = some none
  iprev_cursor (some cursor) = do cursor' ← rl_move_to_previous cursor; some (some cursor')

  -- The result, what `*key` or `*value` holds after the call when it held `held` before, and the
  -- cursor, which may move.
  unfoldable pub iget_key :
      Option (Cursor (Option V)) → ℕ → Option (Bool × ℕ × Option (Cursor (Option V)))
  iget_key none held = some (false, held, none)
  iget_key (some cursor) held = do
    (key, cursor') ← get_key cursor
    some (not (key == 0), key, some cursor')

  unfoldable pub iget_value :
      Option (Cursor (Option V)) → Option V → Option (Bool × Option V × Option (Cursor (Option V)))
  iget_value none held = some (false, held, none)
  iget_value (some cursor) held = do
    (value, cursor') ← get_record cursor
    some (elim value [ some v ↦ true | none ↦ false ], value, some cursor')

  unfoldable pub iput : ℕ → Option V → Cursor (Option V) → Option (Cursor (Option V))
  iput key value cursor = put_record cursor key value

-- An array of pointers on the heap: `none` is NULL, `some room` an array of `room` elements.
abbrev pub HeapArray : Type 0
HeapArray = Option ℕ

-- `UTIL_ResizeArray` of util.c, where `grows` is whether realloc succeeds.
unfoldable pub resize_array : Bool → HeapArray → ℕ → ℕ → Option HeapArray
resize_array grows none curr_length desired_length = none
resize_array grows (some room) curr_length desired_length = do
  assert (not (curr_length == 0))
  some (if grows then some desired_length else none)

-- Whether the array has an element of this index: an access to another one, or through NULL, is not
-- defined.
unfoldable pub has_element : HeapArray → ℕ → Bool
has_element none i = false
has_element (some room) i = ltb i room

-- The array for one more record: `arr_length` is what the code takes for its length. The code does not
-- change `arr_length` here; its test for 0 afterwards cannot hold, as the assert above has passed.
unfoldable pub make_room : Bool → ℕ → HeapArray → ℕ → Option HeapArray
make_room grows arr_length array count =
    if arr_length == count then resize_array grows array arr_length (arr_length * 2) else some array

-- What `RLAPP_RangeQuery` returns: NULL without records.
unfoldable pub unless_empty {ℓ} : {V : Type ℓ} → List V → Option (List V)
unless_empty [] = none
unless_empty (v ∷ vs) = some (v ∷ vs)

module _ {ℓ} {V : Type ℓ} where
  -- The loop of `RLAPP_RangeQuery` in relapps.c, with fuel: `records` are the first elements of the
  -- array, as many as `*numRecords` says. The result is `none` when a write is outside of the array.
  unfoldable pub collect : Bool → ℕ → Cursor V → ℕ → ℕ → HeapArray → List V → Option (List V)
  collect grows zero cursor upper arr_length array records = none
  collect grows (suc n) cursor upper arr_length array records = do
    (key, at_key) ← get_key cursor
    elim (ltb upper key) [
      | true ↦ some records
      | false ↦ do
        array' ← make_room grows arr_length array (length records)
        (curr_record, at_record) ← get_record at_key
        assert (has_element array' (length records))
        (not_at_last, next) ← move_to_next_valid at_record
        let records' = records ++ curr_record ∷ []
        let rest = collect grows n next upper arr_length array' records'
        if not_at_last then rest else some records'
    ]

  -- `RLAPP_RangeQuery`, where `allocates` is whether malloc succeeds: the inner `none` is NULL.
  -- `moveCursorRes` is the Boolean that `RL_MoveToKey` returns, so that its test for a negative result
  -- never holds.
  unfoldable pub range_query :
      Bool → Bool → ℕ → Cursor V → Option (Relation V) → ℕ → ℕ → Option (Option (List V))
  range_query allocates grows fuel cursor relation lower upper = do
    valid ← cursor_is_valid cursor
    assert valid
    assert (elim relation [ some r ↦ true | none ↦ false ])
    if allocates
        then (do
          (_, cursor') ← rl_move_to_key cursor lower
          records ← collect grows fuel cursor' upper 2 (some 2) []
          some (unless_empty records))
        else some none
