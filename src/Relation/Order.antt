-- ===== src/Relation/Order.antt =====
-- The well-formedness of a B+ tree: keys in order below every node, and the number of keys per node.
use deep_spec_db.Base.{
  ℕ, zero, suc, ◌+◌, ◌≤◌, ◌<◌, ◌≡◌, List, [], ◌∷◌, ◌++◌, arith, length, Bool, false,
}
use deep_spec_db.Relation.{Node, num_keys, fanout}

module _ {ℓ} {A : Type ℓ} where
  -- The keys ascend strictly, from `lo` on and below `hi`.
  abbrev pub Ascends : ℕ → ℕ → List (ℕ × A) → Type 0
  Ascends lo hi [] = lo ≤ hi
  Ascends lo hi (e ∷ es) = (lo ≤ e.0) × Ascends (suc e.0) hi es

  -- A first child and the entries after it: the keys separate what `P` says of the children. The
  -- flags say whether a child is the first or the last one of the whole level.
  abbrev pub Separates :
      (A → ℕ → Bool → ℕ → Bool → Type 0) → ℕ → Bool → ℕ → Bool → A → List (ℕ × A) → Type 0
  Separates P lo first hi last c [] = P c lo first hi last
  Separates P lo first hi last c (e ∷ es) =
      P c lo first e.0 false × (lo < e.0) × Separates P e.0 false hi last e.1 es

  abbrev pub All {κ} : (A → Type κ) → List (ℕ × A) → Type κ
  All P [] = Unit
  All P (e ∷ es) = P e.1 × All P es

module _ {ℓ} (V : Type ℓ) where
  -- The keys below a node are from `lo` on and below `hi`, in order and separated; `First` and
  -- `Last` are set at most at the two ends of the leaves, as `first` and `last` say.
  abbrev pub IsOrdered : (d : ℕ) → Node V d → ℕ → Bool → ℕ → Bool → Type 0
  IsOrdered zero n lo first hi last = Ascends lo hi n.entries × (n.first ≡ first) × (n.last ≡ last)
  IsOrdered (suc d) n lo first hi last =
      (0 < num_keys n) × Separates (IsOrdered d) lo first hi last n.ptr0 n.entries

  -- A node has at least `least` keys and no more than `FANOUT`, and the nodes below it at least
  -- `FANOUT / 2`, as `ASSERT_NODE_INVARIANT` asks.
  abbrev pub IsSized : (d : ℕ) → ℕ → Node V d → Type 0
  IsSized zero least n = (least ≤ num_keys n) × (num_keys n ≤ fanout)
  IsSized (suc d) least n =
      (least ≤ num_keys n)
      × (num_keys n ≤ fanout)
      × IsSized d 7 n.ptr0
      × All (IsSized d 7) n.entries

module _ {ℓ} {A : Type ℓ} where
  pub Ascends-le : (lo hi : ℕ) (es : List (ℕ × A)) → Ascends lo hi es → lo ≤ hi
  Ascends-le lo hi [] h = h
  Ascends-le lo hi (e ∷ es) h = omega (arith, Ascends-le (suc e.0) hi es h.1)

  pub Ascends-widen :
      (lo mid hi : ℕ) (es : List (ℕ × A)) → lo ≤ mid → Ascends mid hi es → Ascends lo hi es
  Ascends-widen lo mid hi [] h k = omega arith
  Ascends-widen lo mid hi (e ∷ es) h k = (omega arith, k.1)

  pub Ascends-append :
      (lo hi : ℕ) (a : List (ℕ × A)) (m : ℕ × A) (b : List (ℕ × A))
      → Ascends lo hi (a ++ m ∷ b)
      → Ascends lo m.0 a × Ascends m.0 hi (m ∷ b) × (lo + length a ≤ m.0)
  Ascends-append lo hi [] m b h = (h.0, (omega arith, h.1), omega arith)
  Ascends-append lo hi (e ∷ a) m b h =
      let (l, r, s) = Ascends-append (suc e.0) hi a m b h.1 in ((h.0, l), r, omega arith)

  pub Separates-append :
      (P : A → ℕ → Bool → ℕ → Bool → Type 0) (lo : ℕ) (first : Bool) (hi : ℕ) (last : Bool) (c : A)
      (a : List (ℕ × A)) (m : ℕ × A) (b : List (ℕ × A))
      → Separates P lo first hi last c (a ++ m ∷ b)
      → Separates P lo first m.0 false c a × Separates P m.0 false hi last m.1 b × (lo < m.0)
  Separates-append P lo first hi last c [] m b h = (h.0, h.2, h.1)
  Separates-append P lo first hi last c (e ∷ a) m b h =
      let (l, r, s) = Separates-append P e.0 false hi last e.1 a m b h.2 in
      ((h.0, h.1, l), r, omega arith)

  -- Separated children leave room between the bounds.
  pub Separates-le :
      (P : A → ℕ → Bool → ℕ → Bool → Type 0)
      → ((c : A) (lo : ℕ) (first : Bool) (hi : ℕ) (last : Bool) → P c lo first hi last → lo ≤ hi)
      → (lo : ℕ) (first : Bool) (hi : ℕ) (last : Bool) (c : A) (es : List (ℕ × A))
      → Separates P lo first hi last c es
      → lo ≤ hi
  Separates-le P bounds lo first hi last c [] h = bounds c lo first hi last h
  Separates-le P bounds lo first hi last c (e ∷ es) h =
      omega (arith, h.1, Separates-le P bounds e.0 false hi last e.1 es h.2)

  pub Separates-lt :
      (P : A → ℕ → Bool → ℕ → Bool → Type 0)
      → ((c : A) (lo : ℕ) (first : Bool) (hi : ℕ) (last : Bool) → P c lo first hi last → lo ≤ hi)
      → (lo : ℕ) (first : Bool) (hi : ℕ) (last : Bool) (c : A) (es : List (ℕ × A))
      → Separates P lo first hi last c es
      → 0 < length es
      → lo < hi
  Separates-lt P bounds lo first hi last c [] h pos = absurd (omega arith)
  Separates-lt P bounds lo first hi last c (e ∷ es) h pos =
      omega (arith, h.1, Separates-le P bounds e.0 false hi last e.1 es h.2)

  -- Two ranges of entries, one after the other.
  pub append-Ascends :
      (lo mid hi : ℕ) (a b : List (ℕ × A))
      → Ascends lo mid a
      → Ascends mid hi b
      → Ascends lo hi (a ++ b)
  append-Ascends lo mid hi [] b h k = Ascends-widen lo mid hi b h k
  append-Ascends lo mid hi (e ∷ a) b h k = (h.0, append-Ascends (suc e.0) mid hi a b h.1 k)

  pub All-append {κ} :
      (P : A → Type κ) (a : List (ℕ × A)) (m : ℕ × A) (b : List (ℕ × A))
      → All P (a ++ m ∷ b)
      → All P a × P m.1 × All P b
  All-append P [] m b h = (tt, h.0, h.1)
  All-append P (e ∷ a) m b h = let (l, x, r) = All-append P a m b h.1 in ((h.0, l), x, r)
