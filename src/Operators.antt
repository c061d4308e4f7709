-- ===== src/Operators.antt =====
-- src/low level algos (Pablo)/db_operations_light.c: columns and projections of tuples, iterators, and
-- the sequential scan of a relation. A tuple is a list of words, and the names of columns are strings
-- under the test `strcmp(a, b) == 0`, as in StringList. `none` is an access outside of a tuple or a
-- call of `exit(1)`; a `void *` is an inner `none` when it is NULL.
pub mod Columns
pub mod Iterators
pub mod Scan
pub mod Join
pub mod Matches
pub mod Nested
use deep_spec_db.Base.{
  ℕ, zero, suc, ◌+◌, Bool, true, false, not, ◌||◌, Option, none, some, List, [], ◌∷◌, length,
  get_elem?, ◌==◌, if◌then◌else◌, ◌>>=◌,
}
use deep_spec_db.Relation.{Relation, Cursor}
use deep_spec_db.Relation.Api.{
  new_cursor, rl_move_to_first, is_empty, cursor_is_valid, get_record, rl_move_to_next,
}
use deep_spec_db.Fifo.{Elem, Queue, Heap, fifo_new, fifo_put}

-- `enum domain`
pub data Domain : Type 0 where
  int : Domain
  str : Domain

unfoldable pub same_domain : Domain → Domain → Bool
same_domain int int = true
same_domain str str = true
same_domain int str = false
same_domain str int = false

-- `struct attribute_list_t`, whose list the `next` pointers make
pub record Attribute {ℓ} (K : Type ℓ) : Type ℓ where
  pub id : K
  pub domain : Domain

unfoldable pub attribute_list_length {ℓ} : {K : Type ℓ} → List (Attribute K) → ℕ
attribute_list_length [] = 0
attribute_list_length (x ∷ l) = attribute_list_length l + 1

module _ {ℓ} {K : Type ℓ} (strcmp_eq : K → K → Bool) where
  -- The loop of `get_offset` at the column number `res`; the inner `none` is -1.
  unfoldable pub offset_from : ℕ → List (Attribute K) → K → Domain → Option (Option ℕ)
  offset_from res [] id dom = some none
  offset_from res (x ∷ xs) id dom =
      if strcmp_eq id x.id
      then (if same_domain dom x.domain then some (some res) else none)
      else offset_from (suc res) xs id dom

  unfoldable pub get_offset : List (Attribute K) → K → Domain → Option (Option ℕ)
  get_offset [] id dom = none
  get_offset (x ∷ xs) id dom = offset_from 0 (x ∷ xs) id dom

-- A key of a projection: a word, or a pair that `build_keypair` makes.
pub data Key {ℓ} (W : Type ℓ) : Type ℓ where
  word : W → Key W
  keypair : W → Key W → Key W

module _ {ℓ κ} {K : Type ℓ} {W : Type κ} (strcmp_eq : K → K → Bool) where
  -- The word of a tuple at the offset of a column; the offset -1 is outside of the tuple.
  unfoldable pub field : List (Attribute K) → List W → Attribute K → Option W
  field attrs_all t a = do
    ofs ← get_offset strcmp_eq attrs_all a.id a.domain
    elim ofs [ none ↦ none | some n ↦ get_elem? t n ]

  unfoldable pub get_projection : List (Attribute K) → List W → List (Attribute K) → Option (Key W)
  get_projection attrs_all t [] = none
  get_projection attrs_all t (a ∷ []) = do current ← field attrs_all t a; some (word current)
  get_projection attrs_all t (a ∷ b ∷ attrs_proj) = do
    current ← field attrs_all t a
    rest ← get_projection attrs_all t (b ∷ attrs_proj)
    some (keypair current rest)

-- `struct iterator_t`: an environment and its methods.
pub record Iterator {ℓ} (T : Type ℓ) : Type (ℓ + 1) where
  pub Env : Type ℓ
  pub init : Env → Option Env
  pub next : Env → Option (Option T × Env)
  pub close : Env → Env

-- `struct seq_scan_env`; before `init` there is no cursor.
pub record SeqScanEnv {ℓ} (T : Type ℓ) : Type ℓ where
  pub bt : Relation (Option T)
  pub c : Option (Cursor (Option T))

module _ {ℓ} {T : Type ℓ} where
  -- `make_elem` at an address that `surely_malloc` returns
  unfoldable pub make_elem : Heap T → ℕ → T → Heap T
  make_elem heap p t a = if a == p then record { data_of = t; next = (heap a).next } else heap a

  -- The loop of `materialize`, with fuel. `surely_malloc k` is what the call number `k` returns.
  unfoldable pub drain :
      (surely_malloc : ℕ → ℕ)
      → ℕ
      → (it : Iterator T) → it.Env
      → ℕ
      → Heap T
      → Queue
      → Option (it.Env × Heap T × Queue)
  drain surely_malloc zero it env k heap res = none
  drain surely_malloc (suc fuel) it env k heap res = do
    (a, env') ← it.next env
    elim a [
      | none ↦ some (it.close env', heap, res)
      | some t ↦
          let p = surely_malloc k in
          let (heap', res') = fifo_put (make_elem heap p t) res p in
          drain surely_malloc fuel it env' (suc k) heap' res'
    ]

  unfoldable pub materialize :
      (surely_malloc : ℕ → ℕ)
      → ℕ
      → (it : Iterator T) → it.Env
      → Heap T
      → Option (it.Env × Heap T × Queue)
  materialize surely_malloc fuel it env heap = do
    env' ← it.init env
    drain surely_malloc fuel it env' 0 heap fifo_new

  unfoldable pub seq_scan_init : SeqScanEnv T → Option (SeqScanEnv T)
  seq_scan_init e = do
    (found, c) ← rl_move_to_first (new_cursor e.bt)
    some (record { bt = e.bt; c = some c })

  unfoldable pub seq_scan_next : SeqScanEnv T → Option (Option T × SeqScanEnv T)
  seq_scan_next e = do
    c ← e.c
    valid ← cursor_is_valid c
    if is_empty c || not valid then some (none, e) else do
      (res, c') ← get_record c
      c'' ← rl_move_to_next c'
      some (res, record { bt = e.bt; c = some c'' })

  -- The cursor is freed.
  unfoldable pub seq_scan_close : SeqScanEnv T → SeqScanEnv T
  seq_scan_close e = record { bt = e.bt; c = none }

  -- `seq_scan`: the methods, and the environment of a relation
  abbrev pub seq_scan : Iterator T
  seq_scan = record {
    Env = SeqScanEnv T;
    init = seq_scan_init;
    next = seq_scan_next;
    close = seq_scan_close;
  }

  unfoldable pub seq_scan_env : Relation (Option T) → SeqScanEnv T
  seq_scan_env r = record { bt = r; c = none }
