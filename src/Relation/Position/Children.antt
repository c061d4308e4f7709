-- ===== src/Relation/Position/Children.antt =====
-- The children of an intern node by position: their bounds, and the records before and after them.
use deep_spec_db.Base.{
  ℕ, zero, suc, ◌≤◌, ◌<◌, ◌≡◌, refl, ap, sym, ◌∙◌, subst, Bool, true, false, some, List, [], ◌∷◌,
  ◌++◌, append-nil, append_assoc, arith, length, get_elem?, take, drop, ◌==◌, if◌then◌else◌, lt→ltb,
  ltb-eq-false, ◌>>=◌, drop-length, get_elem?-lt, ==-eq-false, ==-suc,
}
use mathlib.Core.Option.{some-injective}
use deep_spec_db.Relation.{BtNode}
use deep_spec_db.Relation.Search.{child_index, child}
use deep_spec_db.Relation.Contents.{flat}
use deep_spec_db.Relation.Order.{Separates, Separates-le}
use deep_spec_db.Relation.Position.{before, after}

module _ {ℓ} {A : Type ℓ} where
  child_cons :
      (n : BtNode A A) (c : A) (e : ℕ × A) (es : List (ℕ × A)) (i : ℕ)
      → child (record n { ptr0 = c; entries = e ∷ es }) (suc i)
        ≡ child (record n { ptr0 = e.1; entries = es }) i
  unfolding child
  child_cons n c e es zero = refl
  child_cons n c e es (suc i) = refl

  -- A position up to the number of keys has a child, and no other has one.
  pub child-le : (n : BtNode A A) (i : ℕ) → i ≤ length n.entries → (c : A) × (child n i ≡ some c)
  unfolding child
  child-le n zero h = (n.ptr0, refl)
  child-le n (suc i) h = let (e, at_e, _) = get_elem?-lt n.entries i h in (e.1, rw at_e)

  get_elem?-range :
      (es : List (ℕ × A)) (i : ℕ) (c : A)
      → (get_elem? es i >>= λ e. some e.1) ≡ some c
      → i < length es
  get_elem?-range [] i c h = cc
  get_elem?-range (e ∷ es) zero c h = omega arith
  get_elem?-range (e ∷ es) (suc i) c h = omega (arith, get_elem?-range es i c h)

  pub child-range : (n : BtNode A A) (i : ℕ) (c : A) → child n i ≡ some c → i ≤ length n.entries
  unfolding child
  child-range n zero c h = omega arith
  child-range n (suc i) c h = get_elem?-range n.entries i c h

module _ {ℓ κ} {A : Type ℓ} {X : Type κ} (g : A → List X) where
  flat-take :
      (es : List (ℕ × A)) (i : ℕ) (c : A)
      → (get_elem? es i >>= λ e. some e.1) ≡ some c
      → flat g (take (suc i) es) ≡ flat g (take i es) ++ g c
  unfolding flat
  flat-take [] i c h = cc
  flat-take (e ∷ es) zero c h = rw (some-injective e.1 c h, append-nil)
  flat-take (e ∷ es) (suc i) c h =
      ap (λ (t : List X). g e.1 ++ t) (flat-take es i c h) ∙ sym (append_assoc (g e.1) _ _)

  pub before-suc :
      (n : BtNode A A) (i : ℕ) (c : A)
      → child n i ≡ some c
      → before g n (suc i) ≡ before g n i ++ g c
  unfolding child flat
  before-suc n zero c h = rw (some-injective n.ptr0 c h, append-nil)
  before-suc n (suc i) c h =
      ap (λ (t : List X). g n.ptr0 ++ t) (flat-take n.entries i c h)
      ∙ sym (append_assoc (g n.ptr0) _ _)

  flat-drop : (es : List (ℕ × A)) (i : ℕ) → flat g es ≡ flat g (take i es) ++ flat g (drop i es)
  unfolding flat
  flat-drop es zero = refl
  flat-drop [] (suc i) = refl
  flat-drop (e ∷ es) (suc i) =
      ap (λ (t : List X). g e.1 ++ t) (flat-drop es i) ∙ sym (append_assoc (g e.1) _ _)

  -- The records of a node are those before a child, its own, and those after it.
  pub before-after :
      (n : BtNode A A) (i : ℕ) (c : A)
      → child n i ≡ some c
      → g n.ptr0 ++ flat g n.entries ≡ before g n i ++ (g c ++ after g n i)
  before-after n i c h =
      ap (λ (t : List X). g n.ptr0 ++ t) (flat-drop n.entries i)
      ∙ sym (append_assoc (g n.ptr0) _ _)
      ∙ ap (λ (t : List X). t ++ after g n i) (before-suc n i c h)
      ∙ append_assoc (before g n i) (g c) (after g n i)

  pub after_last : (n : BtNode A A) → after g n (length n.entries) ≡ []
  unfolding flat
  after_last n = rw (drop-length n.entries)

-- The bounds of the child at a position, and when it is the one that covers a key.
pub record Bounds {ℓ} {A : Type ℓ} (P : A → ℕ → Bool → ℕ → Bool → Type 0) (lo : ℕ) (first : Bool)
    (hi : ℕ) (last : Bool) (es : List (ℕ × A)) (i : ℕ) (c : A) : Type 0 where
  pub low : ℕ
  pub high : ℕ
  pub at_first : Bool
  pub at_last : Bool
  pub good : P c low at_first high at_last
  pub low_first : at_first ≡ true → (first ≡ true) × (low ≡ lo)
  pub high_last : at_last ≡ true → (last ≡ true) × (high ≡ hi)
  pub last_iff : at_last ≡ (if i == length es then last else false)
  pub low_ge : lo ≤ low
  pub high_le : high ≤ hi
  pub covers : (key : ℕ) → low ≤ key → key < high → child_index key es ≡ i

module _ {ℓ} {A : Type ℓ} (P : A → ℕ → Bool → ℕ → Bool → Type 0)
    (bounds : (c : A) (lo : ℕ) (first : Bool) (hi : ℕ) (last : Bool)
      → P c lo first hi last
      → lo ≤ hi) where
  pub child-Bounds :
      (n : BtNode A A) (lo : ℕ) (first : Bool) (hi : ℕ) (last : Bool) (c' : A) (es : List (ℕ × A))
      (i : ℕ) (c : A)
      → Separates P lo first hi last c' es
      → child (record n { ptr0 = c'; entries = es }) i ≡ some c
      → Bounds P lo first hi last es i c
  unfolding child child_index
  child-Bounds n lo first hi last c' [] zero c s h = record {
    low = lo;
    high = hi;
    at_first = first;
    at_last = last;
    good = subst (λ x. P x lo first hi last) (some-injective c' c h) s;
    low_first = λ e. (e, refl);
    high_last = λ e. (e, refl);
    last_iff = refl;
    low_ge = omega arith;
    high_le = omega arith;
    covers = λ key l u. refl;
  }
  child-Bounds n lo first hi last c' [] (suc i) c s h = cc
  child-Bounds n lo first hi last c' (e ∷ es) zero c s h = record {
    low = lo;
    high = e.0;
    at_first = first;
    at_last = false;
    good = subst (λ x. P x lo first e.0 false) (some-injective c' c h) s.0;
    low_first = λ e. (e, refl);
    high_last = λ e. cc;
    last_iff = rw (==-eq-false 0 (suc (length es)) (omega arith));
    low_ge = omega arith;
    high_le = Separates-le P bounds e.0 false hi last e.1 es s.2;
    covers = λ key l u. rw (lt→ltb key e.0 u);
  }
  child-Bounds n lo first hi last c' (e ∷ es) (suc i) c s h =
      let r = child-Bounds n e.0 false hi last e.1 es i c s.2 (sym (child_cons n c' e es i) ∙ h) in
      let step : (suc i == suc (length es)) ≡ (i == length es) = ==-suc i (length es) in
      record {
        low = r.low;
        high = r.high;
        at_first = r.at_first;
        at_last = r.at_last;
        good = r.good;
        low_first = λ t. cc ((r.low_first t).0);
        high_last = r.high_last;
        last_iff = rw step r.last_iff;
        low_ge = omega (arith, s.1, r.low_ge);
        high_le = r.high_le;
        covers = λ key l u.
            rw (ltb-eq-false key e.0 (omega (arith, r.low_ge))) (ap suc (r.covers key l u));
      }
