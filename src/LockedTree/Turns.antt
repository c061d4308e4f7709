-- ===== src/LockedTree/Turns.antt =====
-- concurrency/bst_conc.c: what a turn of a thread can be, and that it keeps the invariant.
use deep_spec_db.Base.{
  put, ℕ, ◌<◌, ◌≡◌, ◌≢◌, ◌⊎◌, refl, ap, subst, ◌∙◌, arith, Option, none, some, length, get_elem?,
  get_elem?-some, ltb, ltb→lt, ltb-le, ◌==◌, ==-eq, Bool-cases, Option-cases, inl, inr,
}
use deep_spec_db.LockedTree.{
  Tree, Call, Thread, called, at_node, hands_over, releases, returned, System, moved, blocked,
  crash, root, key_of, acquire, release2, at_null, at_key, at_tree, turn, step,
}
use deep_spec_db.LockedTree.Searches.{Leads, from_root, to_left, to_right}
use deep_spec_db.LockedTree.Invariant.{Holds, IsAt, IsSystem}

-- A call as its caller sees it: made, or with its answer.
pub data Answer {ℓ} (V : Type ℓ) : Type ℓ where
  pending : Call V → Answer V
  answered : Option V → Answer V

module _ {ℓ} {V : Type ℓ} where
  abbrev pub call_of : Thread V → Answer V
  call_of (called c) = pending c
  call_of (at_node c n) = pending c
  call_of (hands_over c old n) = pending c
  call_of (releases n r) = answered r
  call_of (returned r) = answered r

  -- A turn takes one lock, or gives one back, or is the one that reads or writes what the call is about.
  pub data Turn (s : System V) (i : ℕ) : System V → Type ℓ where
    takes :
        (was next : Thread V) (n : ℕ)
        → s.threads i ≡ was
        → call_of next ≡ call_of was
        → s.locks n ≡ none
        → n < length s.trees
        → ((m : ℕ) → Holds next m → Holds was m ⊎ (m ≡ n))
        → ((m : ℕ) → Holds was m → Holds next m)
        → Holds next n
        → IsAt s.trees next
        → Turn s i (record {
          trees = s.trees;
          locks = put s.locks n (some i);
          threads = put s.threads i next;
        })
    gives :
        (was next : Thread V) (n : ℕ)
        → s.threads i ≡ was
        → call_of next ≡ call_of was
        → s.locks n ≡ some i
        → ((m : ℕ) → Holds next m → Holds was m × (m ≢ n))
        → ((m : ℕ) → Holds was m → m ≢ n → Holds next m)
        → IsAt s.trees next
        → Turn s i
            (record { trees = s.trees; locks = put s.locks n none; threads = put s.threads i next })
    ends_at_null :
        (c : Call V) (n : ℕ)
        → s.threads i ≡ at_node c n
        → get_elem? s.trees n ≡ some none
        → Turn s i (at_null i s n c)
    ends_at_key :
        (c : Call V) (n : ℕ) (p : Tree V)
        → s.threads i ≡ at_node c n
        → get_elem? s.trees n ≡ some (some p)
        → p.key ≡ key_of c
        → Turn s i (at_key i s n p c)

  acquire_moved :
      (i : ℕ) (s : System V) (n : ℕ) (next : Thread V) (u : System V)
      → acquire i s n next ≡ moved u
      → (s.locks n ≡ none)
        × (n < length s.trees)
        × (record {
          trees = s.trees;
          locks = put s.locks n (some i);
          threads = put s.threads i next;
        }
            ≡ u)
  unfolding acquire
  acquire_moved i s n next u h = elim (Option-cases (get_elem? s.trees n)) [
    | inl gone ↦ let never : crash ≡ moved u = rw (acquire, gone) at h in cc
    | inr (t, at) ↦ elim (Option-cases (s.locks n)) [
      | inl free ↦
          let e : moved (record {
            trees = s.trees;
            locks = put s.locks n (some i);
            threads = put s.threads i next;
          })
              ≡ moved u =
            rw (acquire, at, free) at h in
          (free, get_elem?-some s.trees n t at, cc)
      | inr (j, taken) ↦ let never : blocked ≡ moved u = rw (acquire, at, taken) at h in cc
    ]
  ]

  release2_moved :
      (i : ℕ) (s : System V) (n : ℕ) (next : Thread V) (u : System V)
      → release2 i s n next ≡ moved u
      → (s.locks n ≡ some i)
        × (record { trees = s.trees; locks = put s.locks n none; threads = put s.threads i next }
            ≡ u)
  unfolding release2
  release2_moved i s n next u h = elim (Option-cases (s.locks n)) [
    | inl gone ↦ let never : crash ≡ moved u = rw (release2, gone) at h in cc
    | inr (j, at) ↦ elim (Bool-cases (j == i)) [
      | inl t ↦
          let e : moved (record {
            trees = s.trees;
            locks = put s.locks n none;
            threads = put s.threads i next;
          })
              ≡ moved u =
            rw (release2, at, t) at h in
          (at ∙ ap (λ k. some k) (==-eq j i t), cc)
      | inr f ↦ let never : crash ≡ moved u = rw (release2, at, f) at h in cc
    ]
  ]

  module _ (s : System V) (ok : IsSystem s) (i : ℕ) (u : System V) where
    -- A turn at a tree.
    at_tree-Turn :
        (c : Call V) (n : ℕ)
        → s.threads i ≡ at_node c n
        → (t : Option (Tree V)) → get_elem? s.trees n ≡ some t
        → at_tree i s n c t ≡ moved u
        → Turn s i u
    unfolding at_tree
    at_tree-Turn c n e none at h = subst (λ u. Turn s i u) (cc) (ends_at_null c n e at)
    at_tree-Turn c n e (some p) at h =
        let leads : Leads s.trees (key_of c) n = subst (λ t. IsAt s.trees t) e (ok.placed i) in
        let (above_l, in_l, above_r, in_r) = ok.linked n p at in
        let descend : (k : ℕ)
            → n < k
            → Leads s.trees (key_of c) k
            → acquire i s k (hands_over c n k) ≡ moved u
            → Turn s i u =
          λ k below to_k moves.
            let (free, inside, is) = acquire_moved i s k (hands_over c n k) u moves in
            subst (λ u. Turn s i u) is
              (takes (at_node c n) (hands_over c n k) k e refl free inside (λ m h. h) (λ m h. inl h)
                (inr refl) (below, to_k)) in
        elim (Bool-cases (ltb (key_of c) p.key)) [
          | inl lt ↦
              descend p.left above_l (to_left p leads at (ltb→lt (key_of c) p.key lt)) (rw lt at h)
          | inr ge ↦ elim (Bool-cases (ltb p.key (key_of c))) [
            | inl gt ↦
                descend p.right above_r (to_right p leads at (ltb→lt p.key (key_of c) gt))
                  (rw (ge, gt) at h)
            | inr le ↦
                let e' : moved (at_key i s n p c) ≡ moved u = rw (ge, le) at h in
                subst (λ u. Turn s i u) (cc)
                  (ends_at_key c n p e at
                    (omega (arith, ltb-le (key_of c) p.key ge, ltb-le p.key (key_of c) le)))
          ]
        ]

    turn-Turn : (t : Thread V) → s.threads i ≡ t → turn i s t ≡ moved u → Turn s i u
    unfolding turn
    turn-Turn (called c) e h =
        let (free, inside, is) = acquire_moved i s root (at_node c root) u h in
        subst (λ u. Turn s i u) is
          (takes (called c) (at_node c root) root e refl free inside (λ m h. inr h)
            (λ m h. absurd h) refl from_root)
    turn-Turn (at_node c n) e h = elim (Option-cases (get_elem? s.trees n)) [
      | inl gone ↦ let never : crash ≡ moved u = rw (turn, gone) at h in cc
      | inr (t, at) ↦ at_tree-Turn c n e t at (rw (turn, at) at h)
    ]
    turn-Turn (hands_over c old n) e h =
        let (mine, is) = release2_moved i s old (at_node c n) u h in
        let at : IsAt s.trees (hands_over c old n) = subst (λ t. IsAt s.trees t) e (ok.placed i) in
        subst (λ u. Turn s i u) is
          (gives (hands_over c old n) (at_node c n) old e refl mine
            (λ m h. (inr h, λ k. absurd (omega (arith, h, k, at.0))))
            (λ m h ne. elim h [ inl k ↦ absurd (ne k) | inr k ↦ k ]) at.1)
    turn-Turn (releases n r) e h =
        let (mine, is) = release2_moved i s n (returned r) u h in
        subst (λ u. Turn s i u) is
          (gives (releases n r) (returned r) n e refl mine (λ m h. absurd h) (λ m h ne. ne h) tt)
    turn-Turn (returned r) e h = cc

    -- A step is one of the turns.
    pub step-Turn : step i s ≡ moved u → Turn s i u
    unfolding step
    step-Turn h = turn-Turn (s.threads i) refl h
