-- ===== src/LockedTree/Invariant.antt =====
-- concurrency/bst_conc.c: which locks a thread has, where its search is, and the invariant of the
-- system; a change of one thread, of the locks and of the trees keeps it under a few conditions.
use deep_spec_db.Base.{
  put, put-each, ℕ, zero, suc, ◌<◌, ◌≡◌, ◌≢◌, ◌⊎◌, ◌↔◌, arith, Option, none, some, List, [], ◌∷◌,
  length, get_elem?,
}
use mathlib.Core.Option.{some-injective}
use deep_spec_db.LockedTree.{
  Tree, Call, Thread, called, at_node, hands_over, releases, returned, System, root, key_of,
  treebox_new,
}
use deep_spec_db.LockedTree.Searches.{Leads, Grows, Leads-Grows}

module _ {ℓ} {V : Type ℓ} where
  -- The thread has the lock of the `tree_t` at an address.
  abbrev pub Holds : Thread V → ℕ → Type 0
  Holds (called c) n = ⊥
  Holds (at_node c m) n = n ≡ m
  Holds (hands_over c old m) n = (n ≡ old) ⊎ (n ≡ m)
  Holds (releases m r) n = n ≡ m
  Holds (returned r) n = ⊥

  -- The thread is on the way of the search for its key; a lock that it hands over stands above.
  abbrev pub IsAt : List (Option (Tree V)) → Thread V → Type ℓ
  IsAt trees (called c) = Unit
  IsAt trees (at_node c n) = Leads trees (key_of c) n
  IsAt trees (hands_over c old n) = (old < n) × Leads trees (key_of c) n
  IsAt trees (releases n r) = Unit
  IsAt trees (returned r) = Unit

  -- Every tree's children are `tree_t` with higher addresses.
  abbrev pub IsLinked : List (Option (Tree V)) → Type ℓ
  IsLinked trees =
      (n : ℕ) (p : Tree V)
      → get_elem? trees n ≡ some (some p)
      → (n < p.left) × (p.left < length trees) × (n < p.right) × (p.right < length trees)

  -- A lock is taken exactly by a thread that has it, of a `tree_t` that is there.
  pub record IsSystem (s : System V) : Type ℓ where
    pub rooted : root < length s.trees
    pub linked : IsLinked s.trees
    pub held : (i n : ℕ) → s.locks n ≡ some i → Holds (s.threads i) n
    pub holding : (i n : ℕ) → Holds (s.threads i) n → s.locks n ≡ some i
    pub inside : (i n : ℕ) → Holds (s.threads i) n → n < length s.trees
    pub placed : (i : ℕ) → IsAt s.trees (s.threads i)

  IsAt-Grows :
      (trees trees' : List (Option (Tree V))) (t : Thread V)
      → Grows trees trees'
      → IsAt trees t
      → IsAt trees' t
  IsAt-Grows trees trees' (called c) g h = tt
  IsAt-Grows trees trees' (at_node c n) g h = Leads-Grows trees trees' (key_of c) n g h
  IsAt-Grows trees trees' (hands_over c old n) g h =
      (h.0, Leads-Grows trees trees' (key_of c) n g h.1)
  IsAt-Grows trees trees' (releases n r) g h = tt
  IsAt-Grows trees trees' (returned r) g h = tt

  no_trees : (n : ℕ) (p : Tree V) → get_elem? (none ∷ []) n ≡ some (some p) → ⊥
  no_trees zero p at = let clash : none ≡ some p = some-injective none (some p) at in cc
  no_trees (suc n) p at = cc

  pub treebox_new-IsSystem : (calls : ℕ → Call V) → IsSystem (treebox_new calls)
  unfolding treebox_new
  treebox_new-IsSystem calls = record {
    rooted = omega arith;
    linked = λ n p at. absurd (no_trees n p at);
    held = λ i n e. cc;
    holding = λ i n h. absurd h;
    inside = λ i n h. absurd h;
    placed = λ i. tt;
  }

  -- A turn of the thread `i` that leaves the locks of the others.
  pub IsSystem-turn :
      (s : System V)
      → IsSystem s
      → (i : ℕ) (next : Thread V) (trees : List (Option (Tree V))) (locks : ℕ → Option ℕ)
      → Grows s.trees trees
      → IsLinked trees
      → ((n : ℕ) → locks n ≡ some i → Holds next n)
      → ((n : ℕ) → Holds next n → (locks n ≡ some i) × (n < length trees))
      → ((j n : ℕ) → j ≢ i → (locks n ≡ some j) ↔ (s.locks n ≡ some j))
      → IsAt trees next
      → IsSystem (record { trees = trees; locks = locks; threads = put s.threads i next })
  IsSystem-turn s ok i next trees locks g linked held holding others placed = record {
    rooted = omega (arith, ok.rooted, g.more);
    linked = linked;
    held = λ j n.
        put-each (λ j t. locks n ≡ some j → Holds t n) s.threads i next (held n)
          (λ j ne e. ok.held j n ((others j n ne).0 e)) j;
    holding = λ j n.
        put-each (λ j t. Holds t n → locks n ≡ some j) s.threads i next (λ h. (holding n h).0)
          (λ j ne h. (others j n ne).1 (ok.holding j n h)) j;
    inside = λ j n.
        put-each (λ j t. Holds t n → n < length trees) s.threads i next (λ h. (holding n h).1)
          (λ j ne h. omega (arith, ok.inside j n h, g.more)) j;
    placed =
        put-each (λ j t. IsAt trees t) s.threads i next placed
          (λ j ne. IsAt-Grows s.trees trees (s.threads j) g (ok.placed j));
  }
