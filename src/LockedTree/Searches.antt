-- ===== src/LockedTree/Searches.antt =====
-- concurrency/bst_conc.c: which `tree_t` the search for a key passes, and what it finds.
use deep_spec_db.Base.{
  ℕ, ◌≤◌, ◌<◌, ◌≡◌, refl, sym, ap, subst, ◌∙◌, arith, Option, none, some, List, length, get_elem?,
}
use mathlib.Core.Option.{some-injective}
use deep_spec_db.LockedTree.{Tree, root}

module _ {ℓ} {V : Type ℓ} where
  -- The search for a key from the root comes to an address.
  pub data Leads (trees : List (Option (Tree V))) (x : ℕ) : ℕ → Type ℓ where
    from_root : Leads trees x root
    to_left :
        {n : ℕ} (p : Tree V)
        → Leads trees x n
        → get_elem? trees n ≡ some (some p)
        → x < p.key
        → Leads trees x p.left
    to_right :
        {n : ℕ} (p : Tree V)
        → Leads trees x n
        → get_elem? trees n ≡ some (some p)
        → p.key < x
        → Leads trees x p.right

  -- What the search for a key finds from an address on.
  pub data Finds (trees : List (Option (Tree V))) (x : ℕ) : ℕ → Option V → Type ℓ where
    nothing : {n : ℕ} → get_elem? trees n ≡ some none → Finds trees x n none
    its_key :
        {n : ℕ} (p : Tree V)
        → get_elem? trees n ≡ some (some p)
        → p.key ≡ x
        → Finds trees x n (some p.value)
    in_left :
        {n : ℕ} {r : Option V} (p : Tree V)
        → get_elem? trees n ≡ some (some p)
        → x < p.key
        → Finds trees x p.left r
        → Finds trees x n r
    in_right :
        {n : ℕ} {r : Option V} (p : Tree V)
        → get_elem? trees n ≡ some (some p)
        → p.key < x
        → Finds trees x p.right r
        → Finds trees x n r

  -- What the search finds where it comes, it finds from the root.
  pub Finds-root :
      (trees : List (Option (Tree V))) (x n : ℕ) (r : Option V)
      → Leads trees x n
      → Finds trees x n r
      → Finds trees x root r
  Finds-root trees x n r from_root h = h
  Finds-root trees x n r (to_left {n = m} p l at lt) h =
      Finds-root trees x m r l (in_left p at lt h)
  Finds-root trees x n r (to_right {n = m} p l at lt) h =
      Finds-root trees x m r l (in_right p at lt h)

  pub same_tree :
      (trees : List (Option (Tree V))) (n : ℕ) (p q : Tree V)
      → get_elem? trees n ≡ some (some p)
      → get_elem? trees n ≡ some (some q)
      → p ≡ q
  same_tree trees n p q at at' =
      some-injective p q (some-injective (some p) (some q) (sym at ∙ at'))

  pub no_tree :
      (trees : List (Option (Tree V))) (n : ℕ) (p : Tree V)
      → get_elem? trees n ≡ some none
      → get_elem? trees n ≡ some (some p)
      → ⊥
  no_tree trees n p at at' =
      let clash : none ≡ some p = some-injective none (some p) (sym at ∙ at') in cc

  Finds-left :
      (trees : List (Option (Tree V))) (x n : ℕ) (r : Option V) (p : Tree V)
      → get_elem? trees n ≡ some (some p)
      → x < p.key
      → Finds trees x n r
      → Finds trees x p.left r
  Finds-left trees x n r p at lt (nothing at') = absurd (no_tree trees n p at' at)
  Finds-left trees x n r p at lt (its_key q at' e) =
      absurd (omega (arith, ap (λ (t : Tree V). t.key) (same_tree trees n p q at at')))
  Finds-left trees x n r p at lt (in_left q at' lt' h) =
      subst (λ k. Finds trees x k r) (ap (λ (t : Tree V). t.left) (same_tree trees n q p at' at)) h
  Finds-left trees x n r p at lt (in_right q at' lt' h) =
      absurd (omega (arith, ap (λ (t : Tree V). t.key) (same_tree trees n p q at at')))

  Finds-right :
      (trees : List (Option (Tree V))) (x n : ℕ) (r : Option V) (p : Tree V)
      → get_elem? trees n ≡ some (some p)
      → p.key < x
      → Finds trees x n r
      → Finds trees x p.right r
  Finds-right trees x n r p at lt (nothing at') = absurd (no_tree trees n p at' at)
  Finds-right trees x n r p at lt (its_key q at' e) =
      absurd (omega (arith, ap (λ (t : Tree V). t.key) (same_tree trees n p q at at')))
  Finds-right trees x n r p at lt (in_right q at' lt' h) =
      subst (λ k. Finds trees x k r) (ap (λ (t : Tree V). t.right) (same_tree trees n q p at' at)) h
  Finds-right trees x n r p at lt (in_left q at' lt' h) =
      absurd (omega (arith, ap (λ (t : Tree V). t.key) (same_tree trees n p q at at')))

  Finds-key :
      (trees : List (Option (Tree V))) (x n : ℕ) (r : Option V) (p : Tree V)
      → get_elem? trees n ≡ some (some p)
      → p.key ≡ x
      → Finds trees x n r
      → r ≡ some p.value
  Finds-key trees x n r p at e (nothing at') = absurd (no_tree trees n p at' at)
  Finds-key trees x n r p at e (its_key q at' e') =
      ap (λ (t : Tree V). some t.value) (same_tree trees n q p at' at)
  Finds-key trees x n r p at e (in_left q at' lt h) =
      absurd (omega (arith, ap (λ (t : Tree V). t.key) (same_tree trees n p q at at')))
  Finds-key trees x n r p at e (in_right q at' lt h) =
      absurd (omega (arith, ap (λ (t : Tree V). t.key) (same_tree trees n p q at at')))

  Finds-none :
      (trees : List (Option (Tree V))) (x n : ℕ) (r : Option V)
      → get_elem? trees n ≡ some none
      → Finds trees x n r
      → r ≡ none
  Finds-none trees x n r at (nothing at') = refl
  Finds-none trees x n r at (its_key p at' e) = absurd (no_tree trees n p at at')
  Finds-none trees x n r at (in_left p at' lt h) = absurd (no_tree trees n p at at')
  Finds-none trees x n r at (in_right p at' lt h) = absurd (no_tree trees n p at at')

  -- A search has one result.
  pub Finds-unique :
      (trees : List (Option (Tree V))) (x n : ℕ) (r r' : Option V)
      → Finds trees x n r
      → Finds trees x n r'
      → r ≡ r'
  Finds-unique trees x n r r' (nothing at) k = sym (Finds-none trees x n r' at k)
  Finds-unique trees x n r r' (its_key p at e) k = sym (Finds-key trees x n r' p at e k)
  Finds-unique trees x n r r' (in_left p at lt h) k =
      Finds-unique trees x p.left r r' h (Finds-left trees x n r' p at lt k)
  Finds-unique trees x n r r' (in_right p at lt h) k =
      Finds-unique trees x p.right r r' h (Finds-right trees x n r' p at lt k)

  -- A tree keeps its key and its children.
  pub record Grows (trees trees' : List (Option (Tree V))) : Type ℓ where
    pub more : length trees ≤ length trees'
    pub stays :
        (n : ℕ) (p : Tree V)
        → get_elem? trees n ≡ some (some p)
        → (p' : Tree V) × (get_elem? trees' n ≡ some (some p'))
          × (p'.key ≡ p.key)
          × (p'.left ≡ p.left)
          × (p'.right ≡ p.right)

  pub Leads-Grows :
      (trees trees' : List (Option (Tree V))) (x n : ℕ)
      → Grows trees trees'
      → Leads trees x n
      → Leads trees' x n
  Leads-Grows trees trees' x n g from_root = from_root
  Leads-Grows trees trees' x n g (to_left {n = m} p l at lt) =
      let (p', at', key, left, right) = g.stays m p at in
      subst (λ k. Leads trees' x k) left
        (to_left p' (Leads-Grows trees trees' x m g l) at' (omega (arith, key)))
  Leads-Grows trees trees' x n g (to_right {n = m} p l at lt) =
      let (p', at', key, left, right) = g.stays m p at in
      subst (λ k. Leads trees' x k) right
        (to_right p' (Leads-Grows trees trees' x m g l) at' (omega (arith, key)))
