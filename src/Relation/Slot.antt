-- ===== src/Relation/Slot.antt =====
-- The child of an intern node that covers a key: its place among the children, and what replacing
-- it, alone or by two children with a new key between them, does to the node.
use deep_spec_db.Base.{
  ℕ, zero, suc, ◌≤◌, ◌<◌, ◌≡◌, refl, ap, sym, ◌∙◌, Bool, false, some, List, [], ◌∷◌, ◌++◌,
  append-nil, append_assoc, arith, take, insert_at, inl, inr, ltb, Bool-cases, ltb→lt, ltb-le,
  le→leb, leb-eq-false,
}
use deep_spec_db.Relation.{BtNode}
use deep_spec_db.Relation.Search.{child_index, find_record_index, child}
use deep_spec_db.Relation.Put.{set_ptr, set_child}
use deep_spec_db.Relation.Contents.{flat}
use deep_spec_db.Relation.Position.{before}
use deep_spec_db.Relation.Order.{Ascends, Separates, append-Ascends}

module _ {ℓ κ} {A : Type ℓ} {X : Type κ} (g : A → List (ℕ × X)) where
  -- The records below an intern node.
  abbrev pub below : BtNode A A → List (ℕ × X)
  below n = g n.ptr0 ++ flat g n.entries

module _ {ℓ} {A : Type ℓ} where
  abbrev pub with_entry : BtNode A A → ℕ → ℕ × A → BtNode A A
  with_entry n i e = record n { entries = insert_at i e n.entries }

-- The place `i` of a node's child, its bounds, and the effect of a change there.
pub record Slot {ℓ κ} {A : Type ℓ} {X : Type κ} (P : A → ℕ → Bool → ℕ → Bool → Type 0)
    (g : A → List (ℕ × X)) (lo : ℕ) (first : Bool) (hi : ℕ) (last : Bool) (key : ℕ) (n : BtNode A A)
    (i : ℕ) : Type (ℓ ⊔ κ) where
  pub here : A
  pub low : ℕ
  pub high : ℕ
  pub at_first : Bool
  pub at_last : Bool
  pub at_child : child n i ≡ some here
  pub good : P here low at_first high at_last
  pub lo_le : lo ≤ low
  pub low_le : low ≤ key
  pub key_lt : key < high
  pub pre : List (ℕ × X)
  pub post : List (ℕ × X)
  pub pre_ascends : Ascends lo low pre
  pub post_ascends : Ascends high hi post
  pub pre_before : pre ≡ before g n i
  pub whole : below g n ≡ pre ++ (g here ++ post)
  pub child_set : (a : A) → child (set_child n i a) i ≡ some a
  pub whole_set : (a : A) → below g (set_child n i a) ≡ pre ++ (g a ++ post)
  pub good_set :
      (a : A)
      → P a low at_first high at_last
      → Separates P lo first hi last (set_child n i a).ptr0 (set_child n i a).entries
  pub whole_split :
      (a : A) (k : ℕ) (b : A)
      → below g (with_entry (set_child n i a) i (k, b)) ≡ pre ++ ((g a ++ g b) ++ post)
  pub good_split :
      (a : A) (k : ℕ) (b : A)
      → P a low at_first k false
      → low < k
      → k < high
      → P b k false high at_last
      → Separates P lo first hi last
          (set_child n i a).ptr0
          (insert_at i (k, b) (set_child n i a).entries)
  pub index_split :
      (a : A) (k : ℕ) → low < k → k < high → find_record_index k (set_child n i a).entries ≡ i

module _ {ℓ κ} {A : Type ℓ} {X : Type κ} (P : A → ℕ → Bool → ℕ → Bool → Type 0)
    (g : A → List (ℕ × X))
    (ascends : (c : A) (lo : ℕ) (first : Bool) (hi : ℕ) (last : Bool)
      → P c lo first hi last
      → Ascends lo hi (g c)) where
  -- The records of well-ordered children ascend.
  pub below-Ascends :
      (lo : ℕ) (first : Bool) (hi : ℕ) (last : Bool) (c : A) (es : List (ℕ × A))
      → Separates P lo first hi last c es
      → Ascends lo hi (g c ++ flat g es)
  unfolding flat
  below-Ascends lo first hi last c [] h = rw append-nil (ascends c lo first hi last h)
  below-Ascends lo first hi last c (e ∷ es) h =
      append-Ascends lo e.0 hi (g c) _ (ascends c lo first e.0 false h.0)
        (below-Ascends e.0 false hi last e.1 es h.2)

  Slot-only :
      (n : BtNode A A) (lo : ℕ) (first : Bool) (hi : ℕ) (last : Bool) (key : ℕ) (c : A)
      → lo ≤ key
      → key < hi
      → P c lo first hi last
      → Slot P g lo first hi last key (record n { ptr0 = c; entries = [] }) 0
  unfolding flat child set_child find_record_index
  Slot-only n lo first hi last key c l u h = record {
    here = c;
    low = lo;
    high = hi;
    at_first = first;
    at_last = last;
    at_child = refl;
    good = h;
    lo_le = omega arith;
    low_le = l;
    key_lt = u;
    pre = [];
    post = [];
    pre_ascends = omega arith;
    post_ascends = omega arith;
    pre_before = refl;
    whole = refl;
    child_set = λ a. refl;
    whole_set = λ a. refl;
    good_set = λ a p. p;
    whole_split = λ a k b. sym (append_assoc (g a) (g b) []);
    good_split = λ a k b p lk kh q. (p, lk, q);
    index_split = λ a k lk kh. refl;
  }

  Slot-before :
      (n : BtNode A A) (lo : ℕ) (first : Bool) (hi : ℕ) (last : Bool) (key : ℕ) (c : A) (e : ℕ × A)
      (es : List (ℕ × A))
      → lo ≤ key
      → key < e.0
      → Separates P lo first hi last c (e ∷ es)
      → Slot P g lo first hi last key (record n { ptr0 = c; entries = e ∷ es }) 0
  unfolding flat child set_child find_record_index
  Slot-before n lo first hi last key c e es l u h = record {
    here = c;
    low = lo;
    high = e.0;
    at_first = first;
    at_last = false;
    at_child = refl;
    good = h.0;
    lo_le = omega arith;
    low_le = l;
    key_lt = u;
    pre = [];
    post = g e.1 ++ flat g es;
    pre_ascends = omega arith;
    post_ascends = below-Ascends e.0 false hi last e.1 es h.2;
    pre_before = refl;
    whole = refl;
    child_set = λ a. refl;
    whole_set = λ a. refl;
    good_set = λ a p. (p, h.1, h.2);
    whole_split = λ a k b. sym (append_assoc (g a) (g b) (g e.1 ++ flat g es));
    good_split = λ a k b p lk kh q. (p, lk, (q, kh, h.2));
    index_split = λ a k lk kh. rw (le→leb k e.0 (omega arith));
  }

  set_child-next :
      (n : BtNode A A) (c : A) (e : ℕ × A) (es : List (ℕ × A)) (i : ℕ) (a : A)
      → let m = set_child (record n { ptr0 = e.1; entries = es }) i a in
        set_child (record n { ptr0 = c; entries = e ∷ es }) (suc i) a
        ≡ record n { ptr0 = c; entries = (e.0, m.ptr0) ∷ m.entries }
  unfolding set_child set_ptr
  set_child-next n c e es zero a = refl
  set_child-next n c e es (suc i) a = refl

  child-next :
      (n : BtNode A A) (c : A) (e : ℕ × A) (es : List (ℕ × A)) (i : ℕ)
      → child (record n { ptr0 = c; entries = e ∷ es }) (suc i)
        ≡ child (record n { ptr0 = e.1; entries = es }) i
  unfolding child
  child-next n c e es zero = refl
  child-next n c e es (suc i) = refl

  child-record :
      (n m : BtNode A A) (i : ℕ)
      → child (record n { ptr0 = m.ptr0; entries = m.entries }) i ≡ child m i
  unfolding child
  child-record n m zero = refl
  child-record n m (suc i) = refl

  before_next :
      (n : BtNode A A) (c : A) (e : ℕ × A) (es : List (ℕ × A)) (i : ℕ)
      → before g (record n { ptr0 = e.1; entries = es }) i ≡ flat g (take i (e ∷ es))
  unfolding flat
  before_next n c e es zero = refl
  before_next n c e es (suc i) = refl

  Slot-after :
      (n : BtNode A A) (lo : ℕ) (first : Bool) (hi : ℕ) (last : Bool) (key : ℕ) (c : A) (e : ℕ × A)
      (es : List (ℕ × A)) (i : ℕ)
      → P c lo first e.0 false
      → lo < e.0
      → Slot P g e.0 false hi last key (record n { ptr0 = e.1; entries = es }) i
      → Slot P g lo first hi last key (record n { ptr0 = c; entries = e ∷ es }) (suc i)
  unfolding flat find_record_index
  Slot-after n lo first hi last key c e es i p lt s = record {
    here = s.here;
    low = s.low;
    high = s.high;
    at_first = s.at_first;
    at_last = s.at_last;
    at_child = child-next n c e es i ∙ s.at_child;
    good = s.good;
    lo_le = omega (arith, s.lo_le);
    low_le = s.low_le;
    key_lt = s.key_lt;
    pre = g c ++ s.pre;
    post = s.post;
    pre_ascends =
        append-Ascends lo e.0 s.low (g c) s.pre (ascends c lo first e.0 false p) s.pre_ascends;
    post_ascends = s.post_ascends;
    pre_before = ap (λ (t : List (ℕ × X)). g c ++ t) (s.pre_before ∙ before_next n c e es i);
    whole = ap (λ (t : List (ℕ × X)). g c ++ t) s.whole ∙ sym (append_assoc (g c) s.pre _);
    child_set = λ a. rw (set_child-next n c e es i a) (
        child-next n c (e.0, (set_child (record n { ptr0 = e.1; entries = es }) i a).ptr0) _ i
        ∙ child-record n (set_child (record n { ptr0 = e.1; entries = es }) i a) i
        ∙ s.child_set a);
    whole_set = λ a.
        rw (set_child-next n c e es i a)
          (ap (λ (t : List (ℕ × X)). g c ++ t) (s.whole_set a) ∙ sym (append_assoc (g c) s.pre _));
    good_set = λ a q. rw (set_child-next n c e es i a) (p, lt, s.good_set a q);
    whole_split = λ a k b. rw (set_child-next n c e es i a) (
        ap (λ (t : List (ℕ × X)). g c ++ t) (s.whole_split a k b)
        ∙ sym (append_assoc (g c) s.pre _));
    good_split =
        λ a k b q lk kh r. rw (set_child-next n c e es i a) (p, lt, s.good_split a k b q lk kh r);
    index_split = λ a k lk kh.
        rw (set_child-next n c e es i a, leb-eq-false k e.0 (omega (arith, s.lo_le)))
          (ap suc (s.index_split a k lk kh));
  }

  -- The position that `findChildIndex` returns is the slot of the key.
  pub slot :
      (n : BtNode A A) (lo : ℕ) (first : Bool) (hi : ℕ) (last : Bool) (key : ℕ) (c : A)
      (es : List (ℕ × A))
      → lo ≤ key
      → key < hi
      → Separates P lo first hi last c es
      → Slot P g lo first hi last key (record n { ptr0 = c; entries = es }) (child_index key es)
  unfolding child_index
  slot n lo first hi last key c [] l u h = Slot-only n lo first hi last key c l u h
  slot n lo first hi last key c (e ∷ es) l u h = elim (Bool-cases (ltb key e.0)) [
    | inl lt ↦ rw lt (Slot-before n lo first hi last key c e es l (ltb→lt key e.0 lt) h)
    | inr ge ↦ rw ge (
        Slot-after n lo first hi last key c e es (child_index key es) h.0 h.1
          (slot n e.0 false hi last key e.1 es (ltb-le key e.0 ge) u h.2))
  ]
