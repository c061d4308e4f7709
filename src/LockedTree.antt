-- ===== src/LockedTree.antt =====
-- concurrency/bst_conc.c: `insert` and `lookup` run by any number of threads, which interleave in any
-- order. A `tree_t` is an address, whose `t` stands in a list and whose lock says which thread has it;
-- an allocation goes to the end. Between two turns of a thread stand its calls of `acquire` and
-- `release2`; what it reads and writes between them is of the one `tree_t` whose lock it has, or of one
-- that no other thread can reach yet. Keys are as in SearchTree.
pub mod Searches
pub mod Writes
pub mod Invariant
pub mod Turns
pub mod Kept
pub mod Safety
pub mod Atomic
pub mod Progress
use deep_spec_db.Base.{
  put, ℕ, zero, suc, ◌+◌, ◌≡◌, Bool, true, false, Option, none, some, List, [], ◌∷◌, ◌++◌, length,
  get_elem?, set, ltb, ◌==◌, if◌then◌else◌,
}

-- `struct tree`, whose children are addresses
pub record Tree {ℓ} (V : Type ℓ) : Type ℓ where
  pub key : ℕ
  pub value : V
  pub left : ℕ
  pub right : ℕ

-- A call of `insert` or of `lookup`.
pub data Call {ℓ} (V : Type ℓ) : Type ℓ where
  insert : ℕ → V → Call V
  lookup : ℕ → Call V

-- Where a thread is: before it acquires the root's lock; at the head of its loop, with the lock of
-- `tgt`; with the locks of `l_old` and of the next `tgt`; before it releases its last lock; returned.
pub data Thread {ℓ} (V : Type ℓ) : Type ℓ where
  called : Call V → Thread V
  at_node : Call V → ℕ → Thread V
  hands_over : Call V → ℕ → ℕ → Thread V
  releases : ℕ → Option V → Thread V
  returned : Option V → Thread V

pub record System {ℓ} (V : Type ℓ) : Type ℓ where
  pub trees : List (Option (Tree V))
  pub locks : ℕ → Option ℕ
  pub threads : ℕ → Thread V

-- A thread's turn: the system after it, or the lock is taken, or the call has returned, or the thread
-- follows a pointer to no `tree_t` or releases a lock that it does not have.
pub data Outcome {ℓ} (V : Type ℓ) : Type ℓ where
  moved : System V → Outcome V
  blocked : Outcome V
  finished : Outcome V
  crash : Outcome V

-- `*t` of the treebox
abbrev pub root : ℕ
root = 0

module _ {ℓ} {V : Type ℓ} where
  abbrev pub key_of : Call V → ℕ
  key_of (insert x v) = x
  key_of (lookup x) = x

  -- `treebox_new`, and threads that have made no call yet
  unfoldable pub treebox_new : (ℕ → Call V) → System V
  treebox_new calls = record {
    trees = none ∷ [];
    locks = λ n. none;
    threads = λ i. called (calls i);
  }

  unfoldable pub acquire : ℕ → System V → ℕ → Thread V → Outcome V
  acquire i s n next = elim (get_elem? s.trees n) [
    | none ↦ crash
    | some t ↦ elim (s.locks n) [
      | some j ↦ blocked
      | none ↦ moved (record {
        trees = s.trees;
        locks = put s.locks n (some i);
        threads = put s.threads i next;
      })
    ]
  ]

  unfoldable pub release2 : ℕ → System V → ℕ → Thread V → Outcome V
  release2 i s n next = elim (s.locks n) [
    | none ↦ crash
    | some j ↦
        if j == i
        then moved
            (record { trees = s.trees; locks = put s.locks n none; threads = put s.threads i next })
        else crash
  ]

  -- The loop's turn where `p` is NULL: `insert` makes two `tree_t` and their locks.
  unfoldable pub at_null : ℕ → System V → ℕ → Call V → System V
  at_null i s n (insert x v) =
      let p1 = length s.trees in
      let p2 = suc (length s.trees) in
      record {
        trees =
            set s.trees n (some (record { key = x; value = v; left = p1; right = p2 }))
            ++ none ∷ none ∷ [];
        locks = put (put s.locks p1 none) p2 none;
        threads = put s.threads i (releases n none);
      }
  at_null i s n (lookup x) = record s { threads = put s.threads i (releases n none) }

  -- The loop's turn where the key is found.
  unfoldable pub at_key : ℕ → System V → ℕ → Tree V → Call V → System V
  at_key i s n p (insert x v) = record {
    trees = set s.trees n (some (record p { value = v }));
    locks = s.locks;
    threads = put s.threads i (releases n none);
  }
  at_key i s n p (lookup x) = record s { threads = put s.threads i (releases n (some p.value)) }

  unfoldable pub at_tree : ℕ → System V → ℕ → Call V → Option (Tree V) → Outcome V
  at_tree i s n c none = moved (at_null i s n c)
  at_tree i s n c (some p) =
      if ltb (key_of c) p.key
      then acquire i s p.left (hands_over c n p.left)
      else if ltb p.key (key_of c)
      then acquire i s p.right (hands_over c n p.right)
      else moved (at_key i s n p c)

  unfoldable pub turn : ℕ → System V → Thread V → Outcome V
  turn i s (called c) = acquire i s root (at_node c root)
  turn i s (at_node c n) = elim (get_elem? s.trees n) [ none ↦ crash | some t ↦ at_tree i s n c t ]
  turn i s (hands_over c old n) = release2 i s old (at_node c n)
  turn i s (releases n r) = release2 i s n (returned r)
  turn i s (returned r) = finished

  -- The thread `i` takes its turn.
  unfoldable pub step : ℕ → System V → Outcome V
  step i s = turn i s (s.threads i)

  -- The systems that threads reach by turns in any order.
  pub data Reaches (s : System V) : System V → Type ℓ where
    start : Reaches s s
    later : {t u : System V} → Reaches s t → (i : ℕ) → step i t ≡ moved u → Reaches s u
