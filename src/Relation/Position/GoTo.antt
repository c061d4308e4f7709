-- ===== src/Relation/Position/GoTo.antt =====
-- `goToKey` from any cursor of the tree: the ascent stops only at a node that covers the key, so
-- the cursor ends where the descent from the root ends.
use deep_spec_db.Base.{
  ℕ, zero, suc, ◌-◌, ◌≤◌, ◌<◌, ◌≡◌, refl, sym, ◌∙◌, subst, Bool, true, false, ◌&&◌, ◌||◌, Option,
  none, some, List, [], ◌∷◌, arith, length, get_elem?, leb, ◌==◌, if◌then◌else◌, lt→ltb, ◌>>=◌,
  get_elem?-lt, ==-eq-false,
}
use mathlib.Core.Option.{some-injective}
use deep_spec_db.Relation.{Node, Ancestors, num_keys}
use deep_spec_db.Relation.Search.{
  child_index, find_child_index, child, move_to_key, is_leaf_parent, is_node_parent, ascend,
  go_to_key,
}
use deep_spec_db.Relation.Order.{Ascends, Ascends-le, Separates, Separates-le, IsOrdered, IsSized}
use deep_spec_db.Relation.Put.Result.{IsOrdered-le}
use deep_spec_db.Relation.Put.Children.{
  child_index-le, All-child, move_to_key_step, move_to_key_total,
}
use deep_spec_db.Relation.Position.{IsAt}
use deep_spec_db.Relation.Position.Children.{Bounds, child-Bounds}

module _ {ℓ} {A : Type ℓ} where
  Ascends-get_elem? :
      (lo hi : ℕ) (es : List (ℕ × A)) (i : ℕ) (e : ℕ × A)
      → Ascends lo hi es
      → get_elem? es i ≡ some e
      → (lo ≤ e.0) × (e.0 < hi)
  Ascends-get_elem? lo hi [] i e s h = cc
  Ascends-get_elem? lo hi (x ∷ es) zero e s h =
      subst (λ (y : ℕ × A). (lo ≤ y.0) × (y.0 < hi)) (some-injective x e h)
        (s.0, Ascends-le (suc x.0) hi es s.1)
  Ascends-get_elem? lo hi (x ∷ es) (suc i) e s h =
      omega (arith, s.0, Ascends-get_elem? (suc x.0) hi es i e s.1 h)

  module _ (P : A → ℕ → Bool → ℕ → Bool → Type 0)
      (bounds : (c : A) (lo : ℕ) (first : Bool) (hi : ℕ) (last : Bool)
        → P c lo first hi last
        → lo ≤ hi)
      (key : ℕ) where
    child_index-pos :
        (lo : ℕ) (first : Bool) (hi : ℕ) (last : Bool) (c : A) (es : List (ℕ × A))
        → Separates P lo first hi last c es
        → 0 < child_index key es
        → lo ≤ key
    unfolding child_index
    child_index-pos lo first hi last c [] s h = absurd (omega arith)
    child_index-pos lo first hi last c (e ∷ es) s h = ground (arith, s.1)

    child_index-lt :
        (lo : ℕ) (first : Bool) (hi : ℕ) (last : Bool) (c : A) (es : List (ℕ × A))
        → Separates P lo first hi last c es
        → child_index key es < length es
        → key < hi
    unfolding child_index
    child_index-lt lo first hi last c [] s h = absurd (omega arith)
    child_index-lt lo first hi last c (e ∷ es) s h = ground (
      arith,
      Separates-le P bounds e.0 false hi last e.1 es s.2,
      child_index-lt e.0 false hi last e.1 es s.2,
    )

module _ {ℓ} (V : Type ℓ) (key : ℕ) where
  -- A leaf that says yes covers the key, if the bounds do so where its flags claim them.
  leaf_parent_sound :
      (n : Node V 0) (lo : ℕ) (first : Bool) (hi : ℕ) (last : Bool)
      → IsOrdered V 0 n lo first hi last
      → 0 < num_keys n
      → (first ≡ true → lo ≤ key)
      → (last ≡ true → key < hi)
      → (b : Bool) × (is_leaf_parent V n key ≡ some b) × (b ≡ true → (lo ≤ key) × (key < hi))
  unfolding is_leaf_parent
  leaf_parent_sound n lo first hi last o pos f l =
      let (x, at_x, _) = get_elem?-lt n.entries 0 pos in
      let (y, at_y, _) = get_elem?-lt n.entries (num_keys n - 1) (omega arith) in
      let x_in = Ascends-get_elem? lo hi n.entries 0 x o.0 at_x in
      let y_in = Ascends-get_elem? lo hi n.entries (num_keys n - 1) y o.0 at_y in
      (
        (leb x.0 key || n.first) && (leb key y.0 || n.last),
        rw (==-eq-false (num_keys n) 0 (omega arith), at_x, ◌>>=◌, at_y),
        λ e.
            covered x.0 y.0 n.first n.last x_in.0 y_in.1 (λ t. f (sym o.1 ∙ t))
              (λ t. l (sym o.2 ∙ t)) e,
      )
    where
      covered :
          (x y : ℕ) (a b : Bool)
          → lo ≤ x
          → y < hi
          → (a ≡ true → lo ≤ key)
          → (b ≡ true → key < hi)
          → ((leb x key || a) && (leb key y || b)) ≡ true
          → (lo ≤ key) × (key < hi)
      covered x y a b lx yh f' l' e = ground (arith, f', l')

  node_parent_sound :
      (d : ℕ) (n : Node V (suc d)) (lo : ℕ) (first : Bool) (hi : ℕ) (last : Bool)
      → IsOrdered V (suc d) n lo first hi last
      → (b : Bool) × (is_node_parent V (suc d) n key ≡ some b)
        × (b ≡ true → (lo ≤ key) × (key < hi))
  unfolding is_node_parent find_child_index
  node_parent_sound d n lo first hi last o =
      let i = child_index key n.entries in
      let low =
        child_index-pos (IsOrdered V d) (IsOrdered-le V d) key lo first hi last n.ptr0 n.entries
          o.1 in
      let high =
        child_index-lt (IsOrdered V d) (IsOrdered-le V d) key lo first hi last n.ptr0 n.entries
          o.1 in
      let le = child_index-le key n.entries in
      (
        (if (i == 0) || (i == num_keys n) then false else true),
        rw (lt→ltb 0 (num_keys n) o.0),
        λ e. inside i (num_keys n) le low high e,
      )
    where
      inside :
          (i m : ℕ)
          → i ≤ m
          → (0 < i → lo ≤ key)
          → (i < m → key < hi)
          → (if (i == 0) || (i == m) then false else true) ≡ true
          → (lo ≤ key) × (key < hi)
      inside i m le low high e = ground (arith, low, high)

  -- What the ascent says of a node: where it stops, the node covers the key, and the cursor is that
  -- of the descent from the node.
  abbrev Stops : (d : ℕ) → Node V d → ℕ → ℕ → Option (Ancestors d) → Type 0
  Stops d n lo hi none = Unit
  Stops d n lo hi (some p) = (lo ≤ key) × (key < hi) × (move_to_key V d n key ≡ some p)

  descend :
      (d : ℕ) (n : Node V d) (lo : ℕ) (first : Bool) (hi : ℕ) (last : Bool)
      → IsOrdered V d n lo first hi last
      → (b : Bool) → (b ≡ true → (lo ≤ key) × (key < hi))
      → (r : Option (Ancestors d)) × ((if b
            then (move_to_key V d n key >>= λ p. some (some p))
            else some none)
          ≡ some r)
        × Stops d n lo hi r
  descend d n lo first hi last o false c = (none, refl, tt)
  descend d n lo first hi last o true c =
      let inside = c refl in
      let (p, down) = move_to_key_total V d n lo first hi last key o inside.0 inside.1 in
      (some p, rw down, (inside.0, inside.1, down))

  -- The step of the ascent at an intern node.
  ascend_up :
      (d : ℕ) (n : Node V (suc d)) (i : ℕ) (p : Ancestors d) (c : Node V d) (lo : ℕ) (first : Bool)
      (hi : ℕ) (last : Bool)
      → IsOrdered V (suc d) n lo first hi last
      → child n i ≡ some c
      → (b : Bounds (IsOrdered V d) lo first hi last n.entries i c) → (below : Option (Ancestors d))
      → ascend V d c p key ≡ some below
      → Stops d c b.low b.high below
      → (r : Option (Ancestors (suc d))) × (ascend V (suc d) n (i, p) key ≡ some r)
        × Stops (suc d) n lo hi r
  unfolding ascend
  ascend_up d n i p c lo first hi last o at_c b (some p') run s =
      let found = b.covers key s.0 s.1 in
      (
        some (i, p'),
        rw (at_c, ◌>>=◌, run),
        (
          omega (arith, s.0, b.low_ge),
          omega (arith, s.1, b.high_le),
          rw found at (move_to_key_step V d n key c p' o.0 (rw found at_c) s.2),
        ),
      )
  ascend_up d n i p c lo first hi last o at_c b none run s =
      let (here, at_here, sound) = node_parent_sound d n lo first hi last o in
      let (r, down, stops) = descend (suc d) n lo first hi last o here sound in
      (r, rw (at_c, ◌>>=◌, run, ◌>>=◌, at_here, ◌>>=◌) down, stops)

  ascend-Stops :
      (d : ℕ) (n : Node V d) (p : Ancestors d) (k : ℕ) (lo : ℕ) (first : Bool) (hi : ℕ)
      (last : Bool)
      → IsOrdered V d n lo first hi last
      → IsSized V d 7 n
      → IsAt V d n p k
      → (first ≡ true → lo ≤ key)
      → (last ≡ true → key < hi)
      → (r : Option (Ancestors d)) × (ascend V d n p key ≡ some r) × Stops d n lo hi r
  unfolding ascend is_node_parent
  ascend-Stops zero n p k lo first hi last o z at f l =
      let (here, at_here, sound) =
        leaf_parent_sound n lo first hi last o (omega (arith, z.0)) f l in
      let (r, down, stops) = descend zero n lo first hi last o here sound in
      (r, rw (at_here, ◌>>=◌) down, stops)
  ascend-Stops (suc d) n (i, p) k lo first hi last o z (c, at_c, j, at, e) f l =
      let b =
        child-Bounds (IsOrdered V d) (IsOrdered-le V d) n lo first hi last n.ptr0 n.entries i c o.1
          at_c in
      let (below, run, stops) =
        ascend-Stops d c p j b.low b.at_first b.high b.at_last b.good
          (All-child (IsSized V d 7) n i c at_c z.2 z.3) at
          (λ t. let (t', same) = b.low_first t in rw same (f t'))
          (λ t. let (t', same) = b.high_last t in rw same (l t')) in
      ascend_up d n i p c lo first hi last o at_c b below run stops

  -- From every cursor of an ordered tree of legal size, whose leaves at both ends have their flags
  -- set, and for a key within the bounds of the tree, goToKey gives what the descent from the root
  -- gives.
  pub go_to_key-move_to_key :
      (d : ℕ) (n : Node V d) (p : Ancestors d) (k : ℕ) (lo hi least : ℕ)
      → IsOrdered V d n lo true hi true
      → IsSized V d least n
      → IsAt V d n p k
      → lo ≤ key
      → key < hi
      → go_to_key V d n p key ≡ move_to_key V d n key
  unfolding go_to_key
  go_to_key-move_to_key zero n p k lo hi least o z at l u = refl
  go_to_key-move_to_key (suc d) n (i, p) k lo hi least o z (c, at_c, j, at, e) l u =
      let b =
        child-Bounds (IsOrdered V d) (IsOrdered-le V d) n lo true hi true n.ptr0 n.entries i c o.1
          at_c in
      let (below, run, stops) =
        ascend-Stops d c p j b.low b.at_first b.high b.at_last b.good
          (All-child (IsSized V d 7) n i c at_c z.2 z.3) at
          (λ t. let (t', same) = b.low_first t in rw same l)
          (λ t. let (t', same) = b.high_last t in rw same u) in
      rw (at_c, ◌>>=◌, run) (arrive below b stops)
    where
      arrive :
          (below : Option (Ancestors d)) (b : Bounds (IsOrdered V d) lo true hi true n.entries i c)
          → Stops d c b.low b.high below
          → (elim below [ some p' ↦ some (i, p') | none ↦ move_to_key V (suc d) n key ])
            ≡ move_to_key V (suc d) n key
      arrive none b s = refl
      arrive (some p') b s =
          let found = b.covers key s.0 s.1 in
          sym (rw found at (move_to_key_step V d n key c p' o.0 (rw found at_c) s.2))
