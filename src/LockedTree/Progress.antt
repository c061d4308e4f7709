-- ===== src/LockedTree/Progress.antt =====
-- concurrency/bst_conc.c: the threads do not block each other for ever, since a thread waits only for a
-- lock below the one that it has.
use deep_spec_db.Base.{
  put, ℕ, zero, suc, ◌+◌, ◌≤◌, ◌<◌, ◌≡◌, ◌≢◌, refl, sym, subst, ◌∙◌, arith, Option, none, some,
  length, get_elem?, get_elem?-lt, ltb, ==_self, Bool-cases, Option-cases, inl, inr,
}
use deep_spec_db.LockedTree.{
  Tree, Call, Thread, called, at_node, hands_over, releases, returned, System, moved, root, key_of,
  treebox_new, acquire, release2, at_null, at_key, at_tree, turn, step, Reaches,
}
use deep_spec_db.LockedTree.Invariant.{Holds, IsSystem}
use deep_spec_db.LockedTree.Kept.{Reaches-IsSystem}

module _ {ℓ} {V : Type ℓ} (s : System V) (ok : IsSystem s) where
  -- Some thread can take a turn.
  abbrev Moves : Type ℓ
  Moves = (j : ℕ) × (u : System V) × (step j s ≡ moved u)

  step-turn : (i : ℕ) (t : Thread V) (u : System V) → s.threads i ≡ t → turn i s t ≡ moved u → Moves
  unfolding step
  step-turn i t u e h = (i, u, rw e h)

  release2_moves :
      (i n : ℕ) (next : Thread V)
      → s.locks n ≡ some i
      → (u : System V) × (release2 i s n next ≡ moved u)
  unfolding release2
  release2_moves i n next mine = (
    record { trees = s.trees; locks = put s.locks n none; threads = put s.threads i next },
    rw (release2, mine, ==_self i) refl,
  )

  acquire_free :
      (i n : ℕ) (next : Thread V)
      → n < length s.trees
      → s.locks n ≡ none
      → (u : System V) × (acquire i s n next ≡ moved u)
  unfolding acquire
  acquire_free i n next inside free =
      let (t, at, _) = get_elem?-lt s.trees n inside in
      (
        record { trees = s.trees; locks = put s.locks n (some i); threads = put s.threads i next },
        rw (acquire, at, free) refl,
      )

  -- A thread at a tree moves, or one that has the lock below does.
  at_tree_moves :
      (i n : ℕ) (c : Call V)
      → ((j q : ℕ) → Holds (s.threads j) q → n < q → Moves)
      → s.threads i ≡ at_node c n
      → (t : Option (Tree V)) → get_elem? s.trees n ≡ some t
      → Moves
  unfolding turn at_tree
  at_tree_moves i n c below e none at =
      step-turn i (at_node c n) (at_null i s n c) e (rw (turn, at) refl)
  at_tree_moves i n c below e (some p) at =
      let (above_l, in_l, above_r, in_r) = ok.linked n p at in
      let descend : (q : ℕ)
          → n < q
          → q < length s.trees
          → (turn i s (at_node c n) ≡ acquire i s q (hands_over c n q))
          → Moves =
        λ q deeper inside is. elim (Option-cases (s.locks q)) [
          | inl free ↦
              let (u, run) = acquire_free i q (hands_over c n q) inside free in
              step-turn i (at_node c n) u e (is ∙ run)
          | inr (j, taken) ↦ below j q (ok.held j q taken) deeper
        ] in
      elim (Bool-cases (ltb (key_of c) p.key)) [
        | inl lt ↦ descend p.left above_l in_l (rw (turn, at, lt) refl)
        | inr ge ↦ elim (Bool-cases (ltb p.key (key_of c))) [
          | inl gt ↦ descend p.right above_r in_r (rw (turn, at, ge, gt) refl)
          | inr le ↦ step-turn i (at_node c n) (at_key i s n p c) e (rw (turn, at, ge, le) refl)
        ]
      ]

  holder_turn :
      (i n : ℕ)
      → ((j q : ℕ) → Holds (s.threads j) q → n < q → Moves)
      → (t : Thread V) → s.threads i ≡ t
      → Holds t n
      → Moves
  unfolding turn
  holder_turn i n below (called c) e h = absurd h
  holder_turn i n below (returned r) e h = absurd h
  holder_turn i n below (releases m r) e h =
      let (u, run) =
        release2_moves i m (returned r) (ok.holding i m (subst (λ t. Holds t m) (sym e) refl)) in
      step-turn i (releases m r) u e run
  holder_turn i n below (hands_over c old m) e h =
      let (u, run) =
        release2_moves i old (at_node c m)
          (ok.holding i old (subst (λ t. Holds t old) (sym e) (inl refl))) in
      step-turn i (hands_over c old m) u e run
  holder_turn i n below (at_node c m) e h =
      let mine = subst (λ t. Holds t m) (sym e) refl in
      let (t, at, _) = get_elem?-lt s.trees m (ok.inside i m mine) in
      at_tree_moves i m c (λ j q k lt. below j q k (omega (arith, h))) e t at

  -- A thread that has a lock moves, or one that has a lock further down does.
  holder_moves : (fuel i n : ℕ) → Holds (s.threads i) n → length s.trees ≤ n + fuel → Moves
  holder_moves zero i n h enough = absurd (omega (arith, ok.inside i n h))
  holder_moves (suc fuel) i n h enough =
      holder_turn i n (λ j q k lt. holder_moves fuel j q k (omega arith)) (s.threads i) refl h

  turn_moves : (i : ℕ) (t : Thread V) → s.threads i ≡ t → ((r : Option V) → t ≢ returned r) → Moves
  unfolding turn
  turn_moves i (called c) e busy = elim (Option-cases (s.locks root)) [
    | inl free ↦
        let (u, run) = acquire_free i root (at_node c root) ok.rooted free in
        step-turn i (called c) u e run
    | inr (j, taken) ↦ holder_moves (length s.trees) j root (ok.held j root taken) (omega arith)
  ]
  turn_moves i (at_node c n) e busy =
      holder_moves (length s.trees) i n (subst (λ t. Holds t n) (sym e) refl) (omega arith)
  turn_moves i (hands_over c old n) e busy =
      holder_moves (length s.trees) i n (subst (λ t. Holds t n) (sym e) (inr refl)) (omega arith)
  turn_moves i (releases n r) e busy =
      holder_moves (length s.trees) i n (subst (λ t. Holds t n) (sym e) refl) (omega arith)
  turn_moves i (returned r) e busy = absurd (busy r refl)

module _ {ℓ} {V : Type ℓ} where
  -- In every system that threads reach from a new tree by turns in any order, if some thread's
  -- call has not returned, then some thread can take a turn.
  pub some_step :
      (calls : ℕ → Call V) (s : System V)
      → Reaches (treebox_new calls) s
      → (i : ℕ) → ((r : Option V) → s.threads i ≢ returned r)
      → (j : ℕ) × (u : System V) × (step j s ≡ moved u)
  some_step calls s h i busy = turn_moves s (Reaches-IsSystem calls s h) i (s.threads i) refl busy
