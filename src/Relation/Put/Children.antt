-- ===== src/Relation/Put/Children.antt =====
-- The entries of an intern node after a change of one child, and the descent through the node.
use deep_spec_db.Base.{
  ℕ, zero, suc, ◌≤◌, ◌<◌, ◌≡◌, refl, ap, sym, ◌∙◌, Bool, some, List, [], ◌∷◌, ◌++◌, append_assoc,
  arith, length, insert_at, lt→ltb, ◌>>=◌, get_elem?, subst,
}
use mathlib.Core.Option.{some-injective}
use deep_spec_db.Relation.{BtNode, Node, Ancestors, num_keys}
use deep_spec_db.Relation.Search.{child_index, find_child_index, child, move_to_key}
use deep_spec_db.Relation.Contents.{flat, to_list}
use deep_spec_db.Relation.Order.{All, IsOrdered}
use deep_spec_db.Relation.Slot.{slot}
use deep_spec_db.Relation.Put.{set_ptr, set_child}
use deep_spec_db.Relation.Put.Result.{to_list-Ascends}

module _ {ℓ} {A : Type ℓ} where
  child_index-set_ptr :
      (key : ℕ) (es : List (ℕ × A)) (i : ℕ) (a : A)
      → child_index key (set_ptr es i a) ≡ child_index key es
  unfolding child_index set_ptr
  child_index-set_ptr key [] i a = refl
  child_index-set_ptr key (e ∷ es) zero a = refl
  child_index-set_ptr key (e ∷ es) (suc i) a = rw (child_index-set_ptr key es i a)

  pub child_index-set_child :
      (key : ℕ) (n : BtNode A A) (i : ℕ) (a : A)
      → child_index key (set_child n i a).entries ≡ child_index key n.entries
  unfolding set_child
  child_index-set_child key n zero a = refl
  child_index-set_child key n (suc i) a = child_index-set_ptr key n.entries i a

  pub child_index-le : (key : ℕ) (es : List (ℕ × A)) → child_index key es ≤ length es
  unfolding child_index
  child_index-le key [] = omega arith
  child_index-le key (e ∷ es) = ground (arith, child_index-le key es)

  length-set_ptr : (es : List (ℕ × A)) (i : ℕ) (a : A) → length (set_ptr es i a) ≡ length es
  unfolding set_ptr
  length-set_ptr [] i a = refl
  length-set_ptr (e ∷ es) zero a = refl
  length-set_ptr (e ∷ es) (suc i) a = ap suc (length-set_ptr es i a)

  pub length-set_child :
      (n : BtNode A A) (i : ℕ) (a : A) → length (set_child n i a).entries ≡ length n.entries
  unfolding set_child
  length-set_child n zero a = refl
  length-set_child n (suc i) a = length-set_ptr n.entries i a

  All-set_ptr :
      (Q : A → Type 0) (es : List (ℕ × A)) (i : ℕ) (a : A) → All Q es → Q a → All Q (set_ptr es i a)
  unfolding set_ptr
  All-set_ptr Q [] i a h q = tt
  All-set_ptr Q (e ∷ es) zero a h q = (q, h.1)
  All-set_ptr Q (e ∷ es) (suc i) a h q = (h.0, All-set_ptr Q es i a h.1 q)

  pub All-set_child :
      (Q : A → Type 0) (n : BtNode A A) (i : ℕ) (a : A)
      → Q n.ptr0
      → All Q n.entries
      → Q a
      → Q (set_child n i a).ptr0 × All Q (set_child n i a).entries
  unfolding set_child
  All-set_child Q n zero a p h q = (q, h)
  All-set_child Q n (suc i) a p h q = (p, All-set_ptr Q n.entries i a h q)

  pub All-insert_at :
      (Q : A → Type 0) (i : ℕ) (e : ℕ × A) (es : List (ℕ × A))
      → Q e.1
      → All Q es
      → All Q (insert_at i e es)
  All-insert_at Q zero e es q h = (q, h)
  All-insert_at Q (suc i) e [] q h = (q, tt)
  All-insert_at Q (suc i) e (x ∷ es) q h = (h.0, All-insert_at Q i e es q h.1)

  All-get_elem? :
      (Q : A → Type 0) (es : List (ℕ × A)) (i : ℕ) (c : A)
      → (get_elem? es i >>= λ e. some e.1) ≡ some c
      → All Q es
      → Q c
  All-get_elem? Q [] i c h a = cc
  All-get_elem? Q (e ∷ es) zero c h a = subst Q (some-injective e.1 c h) a.0
  All-get_elem? Q (e ∷ es) (suc i) c h a = All-get_elem? Q es i c h a.1

  -- What holds of all the children holds of the one at a position.
  pub All-child :
      (Q : A → Type 0) (n : BtNode A A) (i : ℕ) (c : A)
      → child n i ≡ some c
      → Q n.ptr0
      → All Q n.entries
      → Q c
  unfolding child
  All-child Q n zero c h p a = subst Q (some-injective n.ptr0 c h) p
  All-child Q n (suc i) c h p a = All-get_elem? Q n.entries i c h a

  pub flat-append {κ} :
      {X : Type κ} (g : A → List X) (a b : List (ℕ × A)) → flat g (a ++ b) ≡ flat g a ++ flat g b
  unfolding flat
  flat-append g [] b = refl
  flat-append g (e ∷ a) b =
      ap (λ (t : List _). g e.1 ++ t) (flat-append g a b) ∙ sym (append_assoc (g e.1) _ _)

module _ {ℓ} (V : Type ℓ) where
  -- One step of the descent.
  pub move_to_key_step :
      (d : ℕ) (n : Node V (suc d)) (key : ℕ) (c : Node V d) (p : Ancestors d)
      → 0 < num_keys n
      → child n (child_index key n.entries) ≡ some c
      → move_to_key V d c key ≡ some p
      → move_to_key V (suc d) n key ≡ some (child_index key n.entries, p)
  unfolding move_to_key find_child_index
  move_to_key_step d n key c p pos at_c at_p = rw (lt→ltb _ _ pos, at_c, ◌>>=◌, at_p)

  -- The descent to a key within the bounds of an ordered tree reaches a leaf, with no failed
  -- `assert` and no access out of an array.
  pub move_to_key_total :
      (d : ℕ) (n : Node V d) (lo : ℕ) (first : Bool) (hi : ℕ) (last : Bool) (key : ℕ)
      → IsOrdered V d n lo first hi last
      → lo ≤ key
      → key < hi
      → (p : Ancestors d) × (move_to_key V d n key ≡ some p)
  unfolding move_to_key
  move_to_key_total zero n lo first hi last key h l u = (_, refl)
  move_to_key_total (suc d) n lo first hi last key h l u =
      let s =
        slot (IsOrdered V d) (to_list V d) (to_list-Ascends V d) n lo first hi last key n.ptr0
          n.entries l u h.1 in
      let below =
        move_to_key_total d s.here s.low s.at_first s.high s.at_last key s.good s.low_le s.key_lt in
      (_, move_to_key_step d n key s.here below.0 h.0 s.at_child below.1)
