-- ===== src/Relation/Position/Leaf.antt =====
-- The leaf that a cursor leads to: when the cursor is valid, and the entry under it.
use deep_spec_db.Base.{
  ℕ, zero, suc, ◌+◌, ◌≤◌, ◌<◌, ◌≡◌, refl, ap, sym, ◌∙◌, subst, Bool, true, false, some, List, [],
  ◌∷◌, arith, length, length-append, get_elem?, drop, ltb, ◌==◌, if◌then◌else◌, Bool-cases, ==-eq,
  lt→ltb, inl, inr, ◌>>=◌, ==-ne, get_elem?-append_right, get_elem?-append_left, ◌≢◌,
}
use mathlib.Core.Option.{some-injective}
use deep_spec_db.Relation.{Node, Ancestors, num_keys, is_valid}
use deep_spec_db.Relation.Search.{child}
use deep_spec_db.Relation.Moves.{leaf_at}
use deep_spec_db.Relation.Contents.{flat, to_list}
use deep_spec_db.Relation.Order.{All, IsOrdered, IsSized}
use deep_spec_db.Relation.Put.Result.{IsOrdered-le}
use deep_spec_db.Relation.Put.Children.{All-child}
use deep_spec_db.Relation.Position.{before, after, IsAt, IsOn}
use deep_spec_db.Relation.Position.Children.{child-Bounds, child-range, before-after, after_last}

ltb_shift : (a j b k m : ℕ) → k ≡ a + j → m ≡ a + b → ltb j b ≡ ltb k m
ltb_shift a j b k m e f = ground arith

holds : (b : Bool) (k m : ℕ) → k < m → (if b then ltb k m else true) ≡ true
holds true k m h = lt→ltb k m h
holds false k m h = refl

module _ {ℓ} (V : Type ℓ) where
  -- A node other than the root is not empty.
  pub sized_nonempty :
      (d : ℕ) (least : ℕ) (n : Node V d)
      → 0 < least
      → IsSized V d least n
      → 0 < length (to_list V d n)
  unfolding to_list
  sized_nonempty zero least n pos z = omega arith
  sized_nonempty (suc d) least n pos z = omega (
    arith,
    sized_nonempty d 7 n.ptr0 (omega arith) z.2,
    length-append (to_list V d n.ptr0) (flat (to_list V d) n.entries),
  )

  after_nonempty :
      (d : ℕ) (es : List (ℕ × Node V d)) (i : ℕ)
      → All (IsSized V d 7) es
      → i < length es
      → 0 < length (flat (to_list V d) (drop i es))
  unfolding flat
  after_nonempty d [] i z h = absurd (omega arith)
  after_nonempty d (e ∷ es) zero z h = omega (
    arith,
    sized_nonempty d 7 e.1 (omega arith) z.0,
    length-append (to_list V d e.1) (flat (to_list V d) es),
  )
  after_nonempty d (e ∷ es) (suc i) z h = after_nonempty d es i z.1 (omega arith)

  -- The number of records of a node, by a position.
  pub length_at :
      (d : ℕ) (n : Node V (suc d)) (i : ℕ) (c : Node V d)
      → child n i ≡ some c
      → length (to_list V (suc d) n)
        ≡ length (before (to_list V d) n i)
          + (length (to_list V d c) + length (after (to_list V d) n i))
  unfolding to_list
  length_at d n i c h =
      ap length (before-after (to_list V d) n i c h)
      ∙ length-append (before (to_list V d) n i) _
      ∙ ap (λ t. length (before (to_list V d) n i) + t) (length-append (to_list V d c) _)

  pub after_pos :
      (d : ℕ) (n : Node V (suc d)) (i : ℕ) (least : ℕ)
      → IsSized V (suc d) least n
      → i < num_keys n
      → 0 < length (after (to_list V d) n i)
  after_pos d n i least z h = after_nonempty d n.entries i z.3 h

  pub after_none : (d : ℕ) (n : Node V (suc d)) → length (after (to_list V d) n (num_keys n)) ≡ 0
  after_none d n = ap length (after_last (to_list V d) n)

  -- `isValid` says whether records follow, in the part of the tree that ends with the last leaf.
  abbrev pub Valid : (d : ℕ) → Node V d → ℕ → Bool → Node V 0 → ℕ → Type 0
  Valid d n k last leaf i =
      is_valid leaf i ≡ (if last then ltb k (length (to_list V d n)) else true)

  Valid-leaf :
      (n : Node V 0) (i : ℕ) (last : Bool) → n.last ≡ last → i ≤ num_keys n → Valid 0 n i last n i
  unfolding is_valid to_list
  Valid-leaf n i false e h = rw e (ground arith)
  Valid-leaf n i true e h = rw e (ground arith)

  Valid-up :
      (d : ℕ) (n : Node V (suc d)) (i : ℕ) (least : ℕ) (c : Node V d) (j k : ℕ)
      (last at_last : Bool) (leaf : Node V 0) (x : ℕ)
      → IsSized V (suc d) least n
      → child n i ≡ some c
      → k ≡ length (before (to_list V d) n i) + j
      → j ≤ length (to_list V d c)
      → at_last ≡ (if i == num_keys n then last else false)
      → Valid d c j at_last leaf x
      → Valid (suc d) n k last leaf x
  Valid-up d n i least c j k last at_last leaf x z at_c e le b v =
      let size = length_at d n i c at_c in
      elim (Bool-cases (i == num_keys n)) [
        | inl end ↦
            let rest : length (after (to_list V d) n i) ≡ 0 =
              rw (==-eq i (num_keys n) end) (after_none d n) in
            let same : at_last ≡ last = rw end at b in
            let shift : ltb j (length (to_list V d c)) ≡ ltb k (length (to_list V (suc d) n)) =
              ltb_shift (length (before (to_list V d) n i)) j (length (to_list V d c)) k
                (length (to_list V (suc d) n)) e (omega arith) in
            rw (same, shift) at v
        | inr inner ↦
            let inside : i < num_keys n =
              omega (arith, child-range n i c at_c, ==-ne i (num_keys n) inner) in
            let more = after_pos d n i least z inside in
            let off : at_last ≡ false = rw inner at b in
            let yes_valid : is_valid leaf x ≡ true = rw off at v in
            yes_valid ∙ sym (holds last k (length (to_list V (suc d) n)) (omega arith))
      ]

  -- A cursor stands at most after the last record.
  pub IsAt-le :
      (d : ℕ) (n : Node V d) (p : Ancestors d) (k : ℕ) → IsAt V d n p k → k ≤ length (to_list V d n)
  unfolding to_list
  IsAt-le zero n i k (le, e, _) = omega arith
  IsAt-le (suc d) n (i, p) k (c, at_c, j, at, e) =
      omega (arith, length_at d n i c at_c, IsAt-le d c p j at)

  -- Every cursor leads to a leaf, and is valid unless it stands after the last record.
  pub leaf_at-Valid :
      (d : ℕ) (n : Node V d) (p : Ancestors d) (k least : ℕ) (lo : ℕ) (first : Bool) (hi : ℕ)
      (last : Bool)
      → IsOrdered V d n lo first hi last
      → IsSized V d least n
      → IsAt V d n p k
      → (leaf : Node V 0) × (i : ℕ) × (leaf_at V d n p ≡ some (leaf, i))
        × (i ≤ num_keys leaf)
        × Valid d n k last leaf i
  unfolding leaf_at
  leaf_at-Valid zero n i k least lo first hi last o z (le, e, _) =
      (n, i, refl, le, rw (← e) (Valid-leaf n i last o.2 le))
  leaf_at-Valid (suc d) n (i, p) k least lo first hi last o z (c, at_c, j, at, e) =
      let b =
        child-Bounds (IsOrdered V d) (IsOrdered-le V d) n lo first hi last n.ptr0 n.entries i c o.1
          at_c in
      let small = All-child (IsSized V d 7) n i c at_c z.2 z.3 in
      let (leaf, x, found, x_le, valid) =
        leaf_at-Valid d c p j 7 b.low b.at_first b.high b.at_last b.good small at in
      (
        leaf,
        x,
        rw at_c found,
        x_le,
        Valid-up d n i least c j k last b.at_last leaf x z at_c e (IsAt-le d c p j at) b.last_iff
            valid,
      )

  pub IsOn-lt :
      (d : ℕ) (n : Node V d) (p : Ancestors d) (k : ℕ)
      → IsAt V d n p k
      → IsOn V d n p
      → k < length (to_list V d n)
  unfolding to_list
  IsOn-lt zero n i k (le, e, _) (lt, _) = omega arith
  IsOn-lt (suc d) n (i, p) k (c, at_c, j, at, e) (c', at_c', on) =
      let same : c' ≡ c = some-injective c' c (sym at_c' ∙ at_c) in
      let here = IsOn-lt d c p j at (subst (λ x. IsOn V d x p) same on) in
      omega (arith, length_at d n i c at_c)

  -- The entry under a cursor that is on one is the record at its position.
  pub leaf_at-get_elem? :
      (d : ℕ) (n : Node V d) (p : Ancestors d) (k : ℕ)
      → IsAt V d n p k
      → IsOn V d n p
      → (leaf : Node V 0) × (i : ℕ) × (leaf_at V d n p ≡ some (leaf, i))
        × (get_elem? leaf.entries i ≡ get_elem? (to_list V d n) k)
  unfolding leaf_at to_list
  leaf_at-get_elem? zero n i k (le, e, _) on = (n, i, refl, rw e)
  leaf_at-get_elem? (suc d) n (i, p) k (c, at_c, j, at, e) (c', at_c', on) =
      let same : c' ≡ c = some-injective c' c (sym at_c' ∙ at_c) in
      let on_c = subst (λ x. IsOn V d x p) same on in
      let (leaf, x, found, here) = leaf_at-get_elem? d c p j at on_c in
      (
        leaf,
        x,
        rw at_c found,
        rw (before-after (to_list V d) n i c at_c, e, get_elem?-append_right)
            (here ∙ sym (get_elem?-append_left (to_list V d c) _ j (IsOn-lt d c p j at on_c))),
      )

  -- A cursor that is not at the end of its leaf is on an entry.
  pub not_end-IsOn :
      (d : ℕ) (n : Node V d) (p : Ancestors d) (k : ℕ)
      → IsAt V d n p k
      → (leaf : Node V 0) (x : ℕ) → leaf_at V d n p ≡ some (leaf, x)
      → x ≢ num_keys leaf
      → IsOn V d n p
  unfolding leaf_at
  not_end-IsOn zero n i k (le, e, _) leaf x found ne =
      let same = some-injective (n, i) (leaf, x) found in
      let inner : i ≢ num_keys n = subst (λ (q : Node V 0 × ℕ). q.1 ≢ num_keys q.0) (sym same) ne in
      (omega arith, tt)
  not_end-IsOn (suc d) n (i, p) k (c, at_c, j, at, e) leaf x found ne =
      (c, at_c, not_end-IsOn d c p j at leaf x (rw (at_c, ◌>>=◌) at found) ne)

  pub IsOn-not_end :
      (d : ℕ) (n : Node V d) (p : Ancestors d)
      → IsOn V d n p
      → (leaf : Node V 0) (x : ℕ) → leaf_at V d n p ≡ some (leaf, x)
      → x < num_keys leaf
  unfolding leaf_at
  IsOn-not_end zero n i (lt, _) leaf x found =
      subst (λ (q : Node V 0 × ℕ). q.1 < num_keys q.0) (some-injective (n, i) (leaf, x) found) lt
  IsOn-not_end (suc d) n (i, p) (c, at_c, on) leaf x found =
      IsOn-not_end d c p on leaf x (rw (at_c, ◌>>=◌) at found)
