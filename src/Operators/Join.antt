-- ===== src/Operators/Join.antt =====
-- src/low level algos (Pablo)/db_operations_light.c: the index join. The index gives the queue of the
-- inner tuples of a key by its address; the join takes the elements out of that very queue. `fifos` is
-- the queue at an address, and `heap` the elements, which the join only reads.
use deep_spec_db.Base.{
  ℕ, zero, suc, ◌+◌, ◌-◌, Bool, true, false, Option, none, some, List, [], ◌∷◌, ◌++◌, take, length,
  leb, put, assert, ◌>>=◌, ◌>>◌,
}
use deep_spec_db.Fifo.{Queue, Heap, fifo_empty, fifo_get}
use deep_spec_db.Schema.{Schema, index_lookup}
use deep_spec_db.Operators.{
  Attribute, attribute_list_length, get_offset, Key, field, get_projection, Iterator,
}

-- The constant part of `struct index_join_env`.
pub record JoinPlan (K W : Type 0) : Type 1 where
  pub strcmp_eq : K → K → Bool
  pub outer : Iterator (List W)
  pub outer_attrs : List (Attribute K)
  pub outer_join_attrs : List (Attribute K)
  pub inner_attrs : List (Attribute K)
  pub inner_join_attrs : List (Attribute K)
  pub ind_on_inner_sch : Schema (Key W) ℕ
  pub ind_on_inner : ind_on_inner_sch.Index
  pub heap : Heap (List W)

module _ {K W : Type 0} (plan : JoinPlan K W) where
  -- The changing part of `struct index_join_env`, and the queues.
  pub record JoinEnv : Type 0 where
    pub outer_env : plan.outer.Env
    pub current_inner : Option ℕ
    pub current_outer : Option (List W)
    pub fifos : ℕ → Queue

  unfoldable pub index_join_init : JoinEnv → Option JoinEnv
  index_join_init e = do
    o ← plan.outer.init e.outer_env
    some (record { outer_env = o; current_inner = none; current_outer = none; fifos = e.fifos })

  -- `current_inner == NULL || fifo_empty(current_inner)`
  unfoldable pub exhausted : JoinEnv → Bool
  exhausted e = elim e.current_inner [ none ↦ true | some f ↦ fifo_empty (e.fifos f) ]

  -- The loop that looks for an outer tuple with inner tuples, with fuel.
  unfoldable pub find_match : ℕ → JoinEnv → Option JoinEnv
  find_match zero e = none
  find_match (suc fuel) e = elim (exhausted e) [
    | false ↦ some e
    | true ↦ do
      (a, o) ← plan.outer.next e.outer_env
      elim a [
        | none ↦ some (record {
          outer_env = o;
          current_inner = e.current_inner;
          current_outer = none;
          fifos = e.fifos;
        })
        | some t ↦ do
          proj ← get_projection plan.strcmp_eq plan.outer_attrs t plan.outer_join_attrs
          l ← index_lookup plan.ind_on_inner_sch plan.ind_on_inner proj
          find_match fuel
              (record { outer_env = o; current_inner = l; current_outer = some t; fifos = e.fifos })
      ]
  ]

  -- The loop over the columns of the inner tuple: the words that are in no join column.
  unfoldable pub other_words : List W → List (Attribute K) → Option (List W)
  other_words inner_t [] = some []
  other_words inner_t (x ∷ l) = do
    inner_t_ofs ← get_offset plan.strcmp_eq plan.inner_attrs x.id x.domain
    join_ofs ← get_offset plan.strcmp_eq plan.inner_join_attrs x.id x.domain
    rest ← other_words inner_t l
    elim join_ofs [
      | some n ↦ some rest
      | none ↦ do w ← field plan.strcmp_eq plan.inner_attrs inner_t x; some (w ∷ rest)
    ]

  -- The number of words that the new tuple has room for.
  unfoldable pub new_length : ℕ
  new_length =
      attribute_list_length plan.outer_attrs
      + attribute_list_length plan.inner_attrs
      - attribute_list_length plan.inner_join_attrs
      + 1

  -- The new tuple: the outer tuple, and the other words of the inner one.
  unfoldable pub join_tuples : List W → List W → Option (List W)
  join_tuples t inner_t = do
    others ← other_words inner_t plan.inner_attrs
    assert (leb (attribute_list_length plan.outer_attrs) (length t))
    assert (leb (attribute_list_length plan.outer_attrs + length others) new_length)
    some (take (attribute_list_length plan.outer_attrs) t ++ others)

  -- The rest of `index_join_next`, after the loop.
  unfoldable pub emit : JoinEnv → Option (Option (List W) × JoinEnv)
  emit e = elim e.current_outer [
    | none ↦ some (none, e)
    | some t ↦ elim e.current_inner [
      | none ↦ none
      | some f ↦ do
        (p, q) ← fifo_get plan.heap (e.fifos f)
        new_t ← join_tuples t (plan.heap p).data_of
        some (
          some new_t,
          record {
            outer_env = e.outer_env;
            current_inner = e.current_inner;
            current_outer = e.current_outer;
            fifos = put e.fifos f q;
          },
        )
    ]
  ]

  unfoldable pub index_join_next : ℕ → JoinEnv → Option (Option (List W) × JoinEnv)
  index_join_next fuel e = do e' ← find_match fuel e; emit e'

  unfoldable pub index_join_close : JoinEnv → JoinEnv
  index_join_close e = record {
    outer_env = plan.outer.close e.outer_env;
    current_inner = e.current_inner;
    current_outer = e.current_outer;
    fifos = e.fifos;
  }

  -- `index_join`, with the fuel of its loop
  abbrev pub index_join : ℕ → Iterator (List W)
  index_join fuel = record {
    Env = JoinEnv;
    init = index_join_init;
    next = index_join_next fuel;
    close = index_join_close;
  }
