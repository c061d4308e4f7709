-- ===== src/LockedTree/Safety.antt =====
-- concurrency/bst_conc.c: no turn follows a wrong pointer or releases a lock that its thread does not
-- have, and two threads are never at one `tree_t`.
use deep_spec_db.Base.{
  put, ℕ, ◌<◌, ◌≡◌, ◌≢◌, refl, sym, subst, ◌∙◌, Option, none, some, length, get_elem?, get_elem?-lt,
  ltb, ==_self, Bool-cases, Option-cases, inl, inr,
}
use mathlib.Core.Option.{some-injective}
use deep_spec_db.LockedTree.{
  Tree, Call, Thread, called, at_node, hands_over, releases, returned, System, moved, blocked,
  crash, root, key_of, treebox_new, acquire, release2, at_key, at_tree, turn, step, Reaches,
}
use deep_spec_db.LockedTree.Invariant.{Holds, IsSystem}
use deep_spec_db.LockedTree.Kept.{Reaches-IsSystem}

module _ {ℓ} {V : Type ℓ} where
  acquire_safe :
      (i : ℕ) (s : System V) (n : ℕ) (next : Thread V)
      → n < length s.trees
      → acquire i s n next ≢ crash
  unfolding acquire
  acquire_safe i s n next inside h =
      let (t, at, _) = get_elem?-lt s.trees n inside in
      elim (Option-cases (s.locks n)) [
        | inl free ↦
            let never : moved (record {
              trees = s.trees;
              locks = put s.locks n (some i);
              threads = put s.threads i next;
            })
                ≡ crash =
              rw (acquire, at, free) at h in
            cc
        | inr (j, taken) ↦ let never : blocked ≡ crash = rw (acquire, at, taken) at h in cc
      ]

  release2_safe :
      (i : ℕ) (s : System V) (n : ℕ) (next : Thread V)
      → s.locks n ≡ some i
      → release2 i s n next ≢ crash
  unfolding release2
  release2_safe i s n next mine h =
      let never : moved
            (record { trees = s.trees; locks = put s.locks n none; threads = put s.threads i next })
          ≡ crash =
        rw (release2, mine, ==_self i) at h in
      cc

  module _ (s : System V) (ok : IsSystem s) (i : ℕ) where
    at_tree_safe :
        (c : Call V) (n : ℕ) (t : Option (Tree V))
        → get_elem? s.trees n ≡ some t
        → at_tree i s n c t ≢ crash
    unfolding at_tree
    at_tree_safe c n none at h = cc
    at_tree_safe c n (some p) at h =
        let (_, in_l, _, in_r) = ok.linked n p at in
        elim (Bool-cases (ltb (key_of c) p.key)) [
          | inl lt ↦ acquire_safe i s p.left (hands_over c n p.left) in_l (rw lt at h)
          | inr ge ↦ elim (Bool-cases (ltb p.key (key_of c))) [
            | inl gt ↦ acquire_safe i s p.right (hands_over c n p.right) in_r (rw (ge, gt) at h)
            | inr le ↦ let never : moved (at_key i s n p c) ≡ crash = rw (ge, le) at h in cc
          ]
        ]

    turn_safe : (t : Thread V) → s.threads i ≡ t → turn i s t ≢ crash
    unfolding turn
    turn_safe (called c) e h = acquire_safe i s root (at_node c root) ok.rooted h
    turn_safe (at_node c n) e h =
        let mine = subst (λ t. Holds t n) (sym e) refl in
        let (t, at, _) = get_elem?-lt s.trees n (ok.inside i n mine) in
        at_tree_safe c n t at (rw (turn, at) at h)
    turn_safe (hands_over c old n) e h =
        release2_safe i s old (at_node c n)
          (ok.holding i old (subst (λ t. Holds t old) (sym e) (inl refl))) h
    turn_safe (releases n r) e h =
        release2_safe i s n (returned r) (ok.holding i n (subst (λ t. Holds t n) (sym e) refl)) h
    turn_safe (returned r) e h = cc

  -- In every system that threads reach from a new tree by turns in any order, no thread's turn
  -- follows a pointer to no tree_t or releases a lock that the thread does not have.
  pub step_safe :
      (calls : ℕ → Call V) (s : System V)
      → Reaches (treebox_new calls) s
      → (i : ℕ) → step i s ≢ crash
  unfolding step
  step_safe calls s h i = turn_safe s (Reaches-IsSystem calls s h) i (s.threads i) refl

  -- In every system that threads reach from a new tree by turns in any order, a tree_t whose lock
  -- one thread has is one whose lock no other thread has.
  pub Holds-alone :
      (calls : ℕ → Call V) (s : System V)
      → Reaches (treebox_new calls) s
      → (i j n : ℕ) → i ≢ j
      → Holds (s.threads i) n
      → ¬ Holds (s.threads j) n
  Holds-alone calls s h i j n ne mine theirs =
      let ok = Reaches-IsSystem calls s h in
      ne (some-injective i j (sym (ok.holding i n mine) ∙ ok.holding j n theirs))
