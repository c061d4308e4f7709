-- ===== src/Relation/Position/Next.antt =====
-- `moveToFirst`, `moveToKey` and `moveToNext` by position: the first record, the first record whose
-- key is at least the search key, and the next record.
use deep_spec_db.Base.{
  ℕ, zero, suc, ◌+◌, ◌≤◌, ◌<◌, ◌≡◌, refl, ap, sym, ◌∙◌, subst, Bool, true, false, Option, none,
  some, arith, length, length-append, ◌==◌, Bool-cases, ==-eq, ==-eq-false, lt→ltb, ltb-eq-false,
  inl, inr, ◌>>=◌, ==-ne, ◌≢◌,
}
use mathlib.Core.Option.{some-injective}
use deep_spec_db.Relation.{Node, Ancestors, num_keys}
use deep_spec_db.Relation.Search.{child}
use deep_spec_db.Relation.Moves.{leaf_at, move_to_first, step_next, advance, move_to_next}
use deep_spec_db.Relation.Contents.{to_list}
use deep_spec_db.Relation.Order.{IsOrdered, IsSized}
use deep_spec_db.Relation.Put.Children.{All-child}
use deep_spec_db.Relation.Position.{before, after, IsAt, IsOn}
use deep_spec_db.Relation.Position.Children.{child-le, child-range, before-suc}
use deep_spec_db.Relation.Position.Leaf.{Valid, length_at, after_none, leaf_at-Valid}

module _ {ℓ} (V : Type ℓ) where
  -- `moveToFirst` leads to the first record of the tree.
  pub move_to_first-IsAt : (d : ℕ) (n : Node V d) → IsAt V d n (move_to_first V d n) 0
  unfolding move_to_first child
  move_to_first-IsAt zero n = (omega arith, refl, tt)
  move_to_first-IsAt (suc d) n = (n.ptr0, refl, 0, move_to_first-IsAt d n.ptr0, omega arith)

  pub move_to_first-IsOn :
      (d least : ℕ) (n : Node V d)
      → 0 < least
      → IsSized V d least n
      → IsOn V d n (move_to_first V d n)
  unfolding move_to_first child
  move_to_first-IsOn zero least n pos z = (omega arith, tt)
  move_to_first-IsOn (suc d) least n pos z =
      (n.ptr0, refl, move_to_first-IsOn d 7 n.ptr0 (omega arith) z.2)

  -- The new cursor after a step: one record further, but from the end of a leaf it only crosses to
  -- the next leaf, and is on an entry there.
  abbrev pub Next : (d : ℕ) → Node V d → ℕ → Bool → Ancestors d → Type ℓ
  Next d n k true p = IsAt V d n p k × IsOn V d n p
  Next d n k false p = IsAt V d n p (k + 1) × Unit {ℓ}

  abbrev Stepped : (d : ℕ) → Node V d → ℕ → Bool → Option (Ancestors d) → Type ℓ
  Stepped d n k at_end none = (k ≡ length (to_list V d n)) × (at_end ≡ true) × Unit {ℓ}
  Stepped d n k at_end (some p) = Next d n k at_end p

  Next-up :
      (d : ℕ) (n : Node V (suc d)) (i : ℕ) (c : Node V d) (j k : ℕ) (at_end : Bool)
      (p : Ancestors d)
      → child n i ≡ some c
      → k ≡ length (before (to_list V d) n i) + j
      → Next d c j at_end p
      → Next (suc d) n k at_end (i, p)
  Next-up d n i c j k true p at_c e h = ((c, at_c, j, h.0, e), (c, at_c, h.1))
  Next-up d n i c j k false p at_c e h = ((c, at_c, j + 1, h.0, omega arith), tt)

  -- Crossing to the next child from the end of a child.
  cross :
      (d : ℕ) (n : Node V (suc d)) (i : ℕ) (c : Node V d) (least k : ℕ)
      → IsSized V (suc d) least n
      → child n i ≡ some c
      → k ≡ length (before (to_list V d) n i) + length (to_list V d c)
      → i < num_keys n
      → (c' : Node V d) × (child n (i + 1) ≡ some c')
        × Next (suc d) n k true (i + 1, move_to_first V d c')
  cross d n i c least k z at_c e inside =
      let (c', at_c') = child-le n (i + 1) (omega arith) in
      let small = All-child (IsSized V d 7) n (i + 1) c' at_c' z.2 z.3 in
      let next : i + 1 ≡ suc i = omega arith in
      let past : length (before (to_list V d) n (i + 1))
          ≡ length (before (to_list V d) n i) + length (to_list V d c) =
        rw next (
          ap length (before-suc (to_list V d) n i c at_c)
          ∙ length-append (before (to_list V d) n i) _) in
      (
        c',
        at_c',
        (
          (c', at_c', 0, move_to_first-IsAt d c', omega arith),
          (c', at_c', move_to_first-IsOn d 7 c' (omega arith) small),
        ),
      )

  step_up :
      (d : ℕ) (n : Node V (suc d)) (i : ℕ) (p : Ancestors d) (c : Node V d) (least j k : ℕ)
      (at_end : Bool)
      → IsSized V (suc d) least n
      → child n i ≡ some c
      → k ≡ length (before (to_list V d) n i) + j
      → (below : Option (Ancestors d)) → step_next V d c p ≡ some below
      → Stepped d c j at_end below
      → (r : Option (Ancestors (suc d))) × (step_next V (suc d) n (i, p) ≡ some r)
        × Stepped (suc d) n k at_end r
  unfolding step_next
  step_up d n i p c least j k at_end z at_c e (some p') run s =
      (some (i, p'), rw (at_c, ◌>>=◌, run), Next-up d n i c j k at_end p' at_c e s)
  step_up d n i p c least j k at_end z at_c e none run (full, end, _) =
      elim (Bool-cases (i == num_keys n)) [
        | inl last ↦
            let rest : length (after (to_list V d) n i) ≡ 0 =
              rw (==-eq i (num_keys n) last) (after_none V d n) in
            (
              none,
              rw (at_c, ◌>>=◌, run, ◌>>=◌, last),
              (omega (arith, length_at V d n i c at_c), end, tt),
            )
        | inr inner ↦
            let (c', at_c', next) =
              cross d n i c least k z at_c (omega arith)
                (omega (arith, child-range n i c at_c, ==-ne i (num_keys n) inner)) in
            (
              some (i + 1, move_to_first V d c'),
              rw (at_c, ◌>>=◌, run, ◌>>=◌, inner, at_c'),
              rw end next,
            )
      ]

  -- The loop of `moveToNext` below the root.
  step_next-Stepped :
      (d : ℕ) (n : Node V d) (p : Ancestors d) (k least : ℕ)
      → IsSized V d least n
      → IsAt V d n p k
      → (leaf : Node V 0) × (x : ℕ) × (leaf_at V d n p ≡ some (leaf, x))
        × (r : Option (Ancestors d)) × (step_next V d n p ≡ some r)
        × Stepped d n k (x == num_keys leaf) r
  unfolding step_next leaf_at to_list
  step_next-Stepped zero n i k least z (le, e, _) = elim (Bool-cases (i == num_keys n)) [
    | inl end ↦ (n, i, refl, none, rw end, (sym e ∙ ==-eq i (num_keys n) end, end, tt))
    | inr more ↦ (
      n,
      i,
      refl,
      some (i + 1),
      rw more,
      rw more ((omega (arith, ==-ne i (num_keys n) more), rw e, tt), tt),
    )
  ]
  step_next-Stepped (suc d) n (i, p) k least z (c, at_c, j, at, e) =
      let small = All-child (IsSized V d 7) n i c at_c z.2 z.3 in
      let (leaf, x, found, below, run, s) = step_next-Stepped d c p j 7 small at in
      let (r, up, t) = step_up d n i p c least j k (x == num_keys leaf) z at_c e below run s in
      (leaf, x, rw at_c found, r, up, t)

  root_step :
      (d : ℕ) (n : Node V (suc d)) (i : ℕ) (p : Ancestors d) (c : Node V d) (least j k : ℕ)
      (at_end : Bool)
      → IsSized V (suc d) least n
      → child n i ≡ some c
      → k ≡ length (before (to_list V d) n i) + j
      → k < length (to_list V (suc d) n)
      → (below : Option (Ancestors d)) → step_next V d c p ≡ some below
      → Stepped d c j at_end below
      → (p' : Ancestors (suc d)) × (advance V (suc d) n (i, p) ≡ some p')
        × Next (suc d) n k at_end p'
  unfolding advance
  root_step d n i p c least j k at_end z at_c e lt (some p') run s =
      ((i, p'), rw (at_c, ◌>>=◌, run), Next-up d n i c j k at_end p' at_c e s)
  root_step d n i p c least j k at_end z at_c e lt none run (full, end, _) =
      let inside : i ≢ num_keys n = λ last. omega (
        arith,
        length_at V d n i c at_c,
        subst (λ t. length (after (to_list V d) n t) ≡ 0) (sym last) (after_none V d n),
      ) in
      let (c', at_c', next) =
        cross d n i c least k z at_c (omega arith) (omega (arith, child-range n i c at_c)) in
      ((i + 1, move_to_first V d c'), rw (at_c, ◌>>=◌, run, ◌>>=◌, at_c'), rw end next)

  leaf_Valid :
      (d : ℕ) (n : Node V d) (p : Ancestors d) (k least lo : ℕ) (first : Bool) (hi : ℕ)
      (last : Bool)
      → IsOrdered V d n lo first hi last
      → IsSized V d least n
      → IsAt V d n p k
      → (leaf : Node V 0) (x : ℕ) → leaf_at V d n p ≡ some (leaf, x)
      → Valid V d n k last leaf x
  leaf_Valid d n p k least lo first hi last o z at leaf x found =
      let (leaf', x', found', _, valid) = leaf_at-Valid V d n p k least lo first hi last o z at in
      subst (λ (q : Node V 0 × ℕ). Valid V d n k last q.0 q.1)
        (some-injective (leaf', x') (leaf, x) (sym found' ∙ found)) valid

  -- The same with the root on top, where a record follows.
  advance-Next :
      (d : ℕ) (n : Node V d) (p : Ancestors d) (k least : ℕ)
      → IsSized V d least n
      → IsAt V d n p k
      → k < length (to_list V d n)
      → (leaf : Node V 0) × (x : ℕ) × (leaf_at V d n p ≡ some (leaf, x))
        × (p' : Ancestors d) × (advance V d n p ≡ some p')
        × Next d n k (x == num_keys leaf) p'
  unfolding advance leaf_at to_list
  advance-Next zero n i k least z (le, e, _) lt =
      let more : (i == num_keys n) ≡ false = ==-eq-false i (num_keys n) (omega arith) in
      (n, i, refl, i + 1, refl, rw more ((omega arith, rw e, tt), tt))
  advance-Next (suc d) n (i, p) k least z (c, at_c, j, at, e) lt =
      let small = All-child (IsSized V d 7) n i c at_c z.2 z.3 in
      let (leaf, x, found, below, run, s) = step_next-Stepped d c p j 7 small at in
      let (p', up, next) =
        root_step d n i p c least j k (x == num_keys leaf) z at_c e lt below run s in
      (leaf, x, rw at_c found, p', up, next)

  -- `moveToNext` crosses from the end of a leaf to the next one, steps over the record under the
  -- cursor, or stays after the last record.
  pub move_to_next-Next :
      (d : ℕ) (n : Node V d) (p : Ancestors d) (k least lo hi : ℕ) (first : Bool)
      → IsOrdered V d n lo first hi true
      → IsSized V d least n
      → IsAt V d n p k
      → k < length (to_list V d n)
      → (leaf : Node V 0) × (x : ℕ) × (leaf_at V d n p ≡ some (leaf, x))
        × (p' : Ancestors d) × (move_to_next V d n p ≡ some p')
        × Next d n k (x == num_keys leaf) p'
  unfolding move_to_next
  move_to_next-Next d n p k least lo hi first o z at lt =
      let (leaf, x, found, p', run, next) = advance-Next d n p k least z at lt in
      let valid = leaf_Valid d n p k least lo first hi true o z at leaf x found in
      (leaf, x, found, p', rw (found, ◌>>=◌, valid, lt→ltb k _ lt) run, next)

  pub move_to_next_end :
      (d : ℕ) (n : Node V d) (p : Ancestors d) (k least lo hi : ℕ) (first : Bool)
      → IsOrdered V d n lo first hi true
      → IsSized V d least n
      → IsAt V d n p k
      → length (to_list V d n) ≤ k
      → move_to_next V d n p ≡ some p
  unfolding move_to_next
  move_to_next_end d n p k least lo hi first o z at ge =
      let (leaf, x, found, _, valid) = leaf_at-Valid V d n p k least lo first hi true o z at in
      rw (found, ◌>>=◌, valid, ltb-eq-false k _ ge)
