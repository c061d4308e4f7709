-- ===== src/KvStore.antt =====
-- src/btrees and tries (Adewale)/kvstore.c and kvstore_int.h: the key-value store, a trie whose nodes
-- are relations from slices of eight characters to border nodes. Trie nodes and border nodes are
-- shared through pointers, so that the store keeps both in lists and a pointer is an index; a new one
-- goes to the end. A key is its characters, and moving its `str` on drops them. The relation is that
-- of Relation.Api. The outer `none` is a failed assert or an access through a wrong pointer.
pub mod Directory
pub mod Spec
pub mod Borders
pub mod Steps
pub mod Second
pub mod Paths
pub mod First
pub mod Layers
pub mod Gets
pub mod Clashes
pub mod Laws
use deep_spec_db.Base.{
  ℕ, zero, suc, ◌+◌, Bool, true, false, ◌||◌, Option, none, some, List, [], ◌∷◌, ◌++◌, length,
  get_elem?, set, take, drop, leb, ◌==◌, if◌then◌else◌, ◌>>=◌,
}
use deep_spec_db.Relation.{Cursor}
use deep_spec_db.Relation.Api.{new_relation, new_cursor, put_record}
use deep_spec_db.BorderNode.{
  BorderNode, new_border_node, set_value, get_prefix_value, set_prefix_value, set_suffix_value,
  get_suffix_value, test_suffix, export_suffix_value, set_link, get_link, has_suffix,
}
use deep_spec_db.KeySlice.{get_next_key_slice, util_min, keyslice_length}
use deep_spec_db.KvStore.Directory.{find_record}

-- `union LinkOrValue`: a client's value, or a node of the next layer.
pub data LinkOrValue {ℓ} (V : Type ℓ) : Type ℓ where
  value : V → LinkOrValue V
  link : ℕ → LinkOrValue V

abbrev pub Border {ℓ} : Type ℓ → Type ℓ
Border V = BorderNode (LinkOrValue V)

-- `struct KVStore`, with the nodes and border nodes that its pointers reach. A `struct KVNode` is its
-- cursor, which points to its tree.
pub record KvStore {ℓ} (V : Type ℓ) : Type ℓ where
  pub nodes : List (Cursor ℕ)
  pub borders : List (Border V)
  pub root_node : ℕ
  pub num_keys : ℕ

-- A second key and its value, `sndKey` and `sndValue`.
abbrev pub Second {ℓ} : Type ℓ → Type ℓ
Second V = List ℕ × Option (LinkOrValue V)

-- Where a turn of the loop of `KV_Put` ends: with `putCompleted`, or with the next `currNode`, `key`
-- and `sndKey`.
pub data Turn {ℓ} (V : Type ℓ) : Type ℓ where
  completed : KvStore V → Turn V
  again : KvStore V → ℕ → List ℕ → Option (Second V) → Turn V

-- `UTIL_GetNextKeySlice` of a key's first characters.
unfoldable pub key_slice : List ℕ → Option ℕ
key_slice key = get_next_key_slice (take (util_min keyslice_length (length key)) key)

module _ {ℓ} {V : Type ℓ} where
  abbrev pub set_node : KvStore V → ℕ → Cursor ℕ → KvStore V
  set_node s n c = record s { nodes = set s.nodes n c }

  abbrev pub set_border : KvStore V → ℕ → Border V → KvStore V
  set_border s b bn = record s { borders = set s.borders b bn }

  -- `newKVNode`, at the index that the list's length gives.
  abbrev pub new_kv_node : KvStore V → KvStore V
  new_kv_node s = record s { nodes = s.nodes ++ new_cursor new_relation ∷ [] }

  unfoldable pub kv_new_store : KvStore V
  kv_new_store = record {
    nodes = new_cursor new_relation ∷ [];
    borders = [];
    root_node = 0;
    num_keys = 0;
  }

  abbrev pub count_key : KvStore V → KvStore V
  count_key s = record s { num_keys = s.num_keys + 1 }

  -- `RL_PutRecord` of a new border node into a node's relation.
  unfoldable pub put_border : KvStore V → ℕ → ℕ → Border V → Option (KvStore V)
  put_border s n slice bn = do
    c ← get_elem? s.nodes n
    c' ← put_record c slice (length s.borders)
    some (set_node (record s { borders = s.borders ++ bn ∷ [] }) n c')

  -- Case 0 of `KV_Put`: there is a second key.
  unfoldable pub put_two :
      KvStore V
      → ℕ
      → List ℕ
      → Option (LinkOrValue V)
      → List ℕ
      → Option (LinkOrValue V)
      → Option (Turn V)
  put_two s n key val snd_key snd_value = do
    slice ← key_slice key
    snd_slice ← key_slice snd_key
    if slice == snd_slice
        then (if leb (length key) keyslice_length || leb (length snd_key) keyslice_length
            then (do
              bn ← set_value new_border_node key val
              bn' ← set_value bn key snd_value
              s' ← put_border s n slice bn'
              some (completed (count_key s')))
            else do
              let next = length s.nodes
              s' ← put_border (new_kv_node s) n slice (set_link new_border_node (some (link next)))
              some (
                  again s' next (drop keyslice_length key)
                    (some (drop keyslice_length snd_key, snd_value))))
        else do
          bn ← set_value new_border_node key val
          s' ← put_border s n slice bn
          bn' ← set_value new_border_node snd_key snd_value
          s'' ← put_border s' n snd_slice bn'
          some (completed (count_key s''))

  -- Case 1.1.1: the slice has a border node, at `b`, and the key goes on.
  unfoldable pub put_rest :
      KvStore V → ℕ → Border V → List ℕ → Option (LinkOrValue V) → Option (Turn V)
  put_rest s b bn key val =
      if has_suffix bn
      then (if test_suffix bn key
          then some
              (completed (set_border s b (set_suffix_value bn (drop keyslice_length key) val)))
          else (let (snd_key, snd_value, bn') = export_suffix_value bn in
              let next = length s.nodes in
              let s' = set_border (new_kv_node s) b (set_link bn' (some (link next))) in
              some (
                again s' next (drop keyslice_length key)
                  (elim snd_key [ some k ↦ some (k, snd_value) | none ↦ none ]))))
      else elim (get_link bn) [
        | some (link next) ↦ some (again s next (drop keyslice_length key) none)
        | some (value v) ↦ none
        | none ↦ some (
            completed
              (count_key (set_border s b (set_suffix_value bn (drop keyslice_length key) val))))
      ]

  -- Case 1.1.0: the slice has a border node, at `b`, and the key ends in it.
  unfoldable pub put_tail :
      KvStore V → ℕ → Border V → List ℕ → Option (LinkOrValue V) → Option (Turn V)
  put_tail s b bn key val = do
    old ← get_prefix_value bn (length key)
    let counted : KvStore V = elim old [ none ↦ count_key s | some v ↦ s ]
    bn' ← set_prefix_value bn (length key) val
    some (completed (set_border counted b bn'))

  -- Case 1: there is no second key. In case 1.0 the code does not set `putCompleted`, so that the loop
  -- turns once more with the same key.
  unfoldable pub put_one : KvStore V → ℕ → List ℕ → Option (LinkOrValue V) → Option (Turn V)
  put_one s n key val = do
    slice ← key_slice key
    c ← get_elem? s.nodes n
    (found, c') ← find_record c slice
    let s' = set_node s n c'
    elim found [
      | none ↦ do
        bn ← set_value new_border_node key val
        s'' ← put_border s' n slice bn
        some (again (count_key s'') n key none)
      | some b ↦ do
        bn ← get_elem? s'.borders b
        if leb (length key) keyslice_length
            then put_tail s' b bn key val
            else put_rest s' b bn key val
    ]

  unfoldable pub put_turn :
      KvStore V → ℕ → List ℕ → Option (LinkOrValue V) → Option (Second V) → Option (Turn V)
  put_turn s n key val none = put_one s n key val
  put_turn s n key val (some (snd_key, snd_value)) = put_two s n key val snd_key snd_value

  -- The loop of `KV_Put`, with fuel: the store, and what is left of the caller's key, whose `str` and
  -- `len` the turns move on.
  unfoldable pub put_loop :
      ℕ
      → KvStore V
      → ℕ
      → List ℕ
      → Option (LinkOrValue V)
      → Option (Second V)
      → Option (KvStore V × List ℕ)
  put_loop zero s n key val snd = none
  put_loop (suc fuel) s n key val snd = do
    turn ← put_turn s n key val snd
    elim turn [
      | completed s' ↦ some (s', key)
      | again s' n' key' snd' ↦ put_loop fuel s' n' key' val snd'
    ]

  -- `KV_Put`: the store, and the caller's key after the call.
  unfoldable pub kv_put : KvStore V → List ℕ → V → Option (KvStore V × List ℕ)
  kv_put s key v = put_loop (length key + 2) s s.root_node key (some (value v)) none

  -- `getValueOfPartialKey`, with fuel for the layers, and the store, whose cursors move.
  unfoldable pub get_value_of_partial_key :
      ℕ → KvStore V → ℕ → List ℕ → Option (Option (LinkOrValue V) × KvStore V)
  get_value_of_partial_key zero s n key = none
  get_value_of_partial_key (suc fuel) s n key = do
    slice ← key_slice key
    c ← get_elem? s.nodes n
    (found, c') ← find_record c slice
    let s' = set_node s n c'
    elim found [
      | none ↦ some (none, s')
      | some b ↦ do
        bn ← get_elem? s'.borders b
        if leb (length key) keyslice_length
            then (do v ← get_prefix_value bn (length key); some (v, s'))
            else if has_suffix bn
            then some (get_suffix_value bn (drop keyslice_length key), s')
            else elim (get_link bn) [
              | none ↦ some (none, s')
              | some (value v) ↦ none
              | some (link next) ↦ get_value_of_partial_key fuel s' next (drop keyslice_length key)
            ]
    ]

  unfoldable pub kv_get : KvStore V → List ℕ → Option (Option (LinkOrValue V) × KvStore V)
  kv_get s key = get_value_of_partial_key (length key + 1) s s.root_node key

  unfoldable pub kv_num_keys : KvStore V → ℕ
  kv_num_keys s = s.num_keys
