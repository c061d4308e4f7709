-- ===== src/IntHash.antt =====
-- tuplekey/inthash.c: the hash table from integers to pointers. A chain is the list of its cells from
-- the bucket's head, and a `void *` is `none` when it is NULL. The outer `none` of an operation is an
-- access out of the array.
pub mod Laws
use deep_spec_db.Base.{
  ℕ, zero, suc, ◌%◌, Option, none, some, List, [], ◌∷◌, get_elem?, set, replicate, ◌==◌,
  if◌then◌else◌, ◌>>=◌,
}

-- `N`
abbrev pub bucket_count : ℕ
bucket_count = 10

-- `struct icell` and `struct inthash`
pub record Icell {ℓ} (V : Type ℓ) : Type ℓ where
  pub key : ℕ
  pub value : Option V

pub record Inthash {ℓ} (V : Type ℓ) : Type ℓ where
  pub buckets : List (List (Icell V))

module _ {ℓ} {V : Type ℓ} where
  unfoldable pub inthash_new : Inthash V
  inthash_new = record { buckets = replicate bucket_count [] }

  -- `new_icell`, without its `next`.
  unfoldable pub new_icell : ℕ → Option V → Icell V
  new_icell key value = record { key = key; value = value }

  -- The loop of `inthash_lookup`.
  unfoldable pub find_cell : List (Icell V) → ℕ → Option V
  find_cell [] key = none
  find_cell (q ∷ qs) key = if q.key == key then q.value else find_cell qs key

  unfoldable pub inthash_lookup : Inthash V → ℕ → Option (Option V)
  inthash_lookup p key = do
    chain ← get_elem? p.buckets (key % bucket_count)
    some (find_cell chain key)

  -- `inthash_insert_list`: the chain, with a new cell at its end where the key had none, and the
  -- position of the key's cell.
  unfoldable pub inthash_insert_list : List (Icell V) → ℕ → List (Icell V) × ℕ
  inthash_insert_list [] key = (new_icell key none ∷ [], 0)
  inthash_insert_list (p ∷ ps) key =
      let (chain, i) = inthash_insert_list ps key in
      if p.key == key then (p ∷ ps, 0) else (p ∷ chain, suc i)

  unfoldable pub inthash_insert : Inthash V → ℕ → Option V → Option (Option V × Inthash V)
  inthash_insert p key value = do
    chain ← get_elem? p.buckets (key % bucket_count)
    let (chain', i) = inthash_insert_list chain key
    q ← get_elem? chain' i
    some (
      q.value,
      record {
        buckets = set p.buckets (key % bucket_count) (set chain' i (record q { value = value }));
      },
    )
