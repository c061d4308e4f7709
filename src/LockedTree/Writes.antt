-- ===== src/LockedTree/Writes.antt =====
-- concurrency/bst_conc.c: how the two writes of `insert` change what searches pass and find.
use deep_spec_db.Base.{
  ℕ, suc, ◌+◌, ◌≡◌, ◌≢◌, refl, sym, ap, subst, ◌∙◌, arith, Option, none, some, List, [], ◌∷◌, ◌++◌,
  length, get_elem?, get_elem?-some, get_elem?-append_left, get_elem?-append_right,
  get_elem?-set_same, get_elem?-set_other, length-set, length-append, set, ltb, ltb→lt, ltb-le,
  ◌==◌, ==-eq, ==-ne, Bool-cases, inl, inr,
}
use mathlib.Core.Option.{some-injective}
use deep_spec_db.LockedTree.{Tree}
use deep_spec_db.LockedTree.Searches.{
  Finds, nothing, its_key, in_left, in_right, Grows, same_tree, no_tree,
}

module _ {ℓ} {V : Type ℓ} where
  -- The write that adds a tree.
  module _ (trees : List (Option (Tree V))) (n x : ℕ) (v : V)
      (here : get_elem? trees n ≡ some none) where
    abbrev pub added : Tree V
    added = record { key = x; value = v; left = length trees; right = suc (length trees) }

    abbrev pub grown : List (Option (Tree V))
    grown = set trees n (some added) ++ none ∷ none ∷ []

    pub length-grown : length grown ≡ length trees + 2
    length-grown = omega (
      arith,
      length-append (set trees n (some added)) (none ∷ none ∷ []),
      length-set trees n (some added),
    )

    pub grown_same : get_elem? grown n ≡ some (some added)
    grown_same =
        let inside = get_elem?-some trees n none here in
        get_elem?-append_left (set trees n (some added)) _ n
          (omega (arith, length-set trees n (some added)))
        ∙ get_elem?-set_same trees n (some added) inside

    pub grown_other :
        (m : ℕ) (t : Option (Tree V))
        → get_elem? trees m ≡ some t
        → n ≢ m
        → get_elem? grown m ≡ some t
    grown_other m t at ne =
        let inside = get_elem?-some trees m t at in
        get_elem?-append_left (set trees n (some added)) _ m
          (omega (arith, length-set trees n (some added)))
        ∙ (get_elem?-set_other trees n m (some added) ne ∙ at)

    pub grown_new :
        (get_elem? grown added.left ≡ some none) × (get_elem? grown added.right ≡ some none)
    grown_new =
        let e : length (set trees n (some added)) + 0 ≡ length trees =
          omega (arith, length-set trees n (some added)) in
        let e' : length (set trees n (some added)) + 1 ≡ suc (length trees) =
          omega (arith, length-set trees n (some added)) in
        (
          subst (λ k. get_elem? grown k ≡ some none) e
              (get_elem?-append_right (set trees n (some added)) (none ∷ none ∷ []) 0),
          subst (λ k. get_elem? grown k ≡ some none) e'
              (get_elem?-append_right (set trees n (some added)) (none ∷ none ∷ []) 1),
        )

    taken : (m : ℕ) (p : Tree V) → get_elem? trees m ≡ some (some p) → n ≢ m
    taken m p at e =
        let clash : none ≡ some p =
          some-injective none (some p)
            (sym here ∙ subst (λ k. get_elem? trees k ≡ some (some p)) (sym e) at) in
        cc

    pub grown-Grows : Grows trees grown
    grown-Grows = record {
      more = omega (arith, length-grown);
      stays = λ m p at. (p, grown_other m (some p) at (taken m p at), refl, refl, refl);
    }

    -- The search for another key finds what it found.
    pub Finds-grown : (y m : ℕ) (r : Option V) → y ≢ x → Finds trees y m r → Finds grown y m r
    Finds-grown y m r ne (nothing at) = elim (Bool-cases (n == m)) [
      | inl t ↦
          let e = ==-eq n m t in
          let at' = subst (λ k. get_elem? grown k ≡ some (some added)) e grown_same in
          elim (Bool-cases (ltb y x)) [
            | inl lt ↦ in_left added at' (ltb→lt y x lt) (nothing grown_new.0)
            | inr ge ↦ in_right added at' (omega (arith, ltb-le y x ge, ne)) (nothing grown_new.1)
          ]
      | inr f ↦ nothing (grown_other m none at (==-ne n m f))
    ]
    Finds-grown y m r ne (its_key p at e) = its_key p (grown_other m (some p) at (taken m p at)) e
    Finds-grown y m r ne (in_left p at lt h) =
        in_left p (grown_other m (some p) at (taken m p at)) lt (Finds-grown y p.left r ne h)
    Finds-grown y m r ne (in_right p at lt h) =
        in_right p (grown_other m (some p) at (taken m p at)) lt (Finds-grown y p.right r ne h)

  -- The write that changes a value.
  module _ (trees : List (Option (Tree V))) (n : ℕ) (p : Tree V) (v : V)
      (here : get_elem? trees n ≡ some (some p)) where
    abbrev pub written : List (Option (Tree V))
    written = set trees n (some (record p { value = v }))

    pub written_same : get_elem? written n ≡ some (some (record p { value = v }))
    written_same = get_elem?-set_same trees n _ (get_elem?-some trees n (some p) here)

    pub written-Grows : Grows trees written
    written-Grows = record {
      more = omega (arith, length-set trees n (some (record p { value = v })));
      stays = λ m q at. elim (Bool-cases (n == m)) [
        | inl t ↦
            let e = ==-eq n m t in
            let is : p ≡ q =
              same_tree trees n p q here
                (subst (λ k. get_elem? trees k ≡ some (some q)) (sym e) at) in
            (
              record p { value = v },
              subst (λ k. get_elem? written k ≡ some (some (record p { value = v }))) e
                  written_same,
              ap (λ (t : Tree V). t.key) is,
              ap (λ (t : Tree V). t.left) is,
              ap (λ (t : Tree V). t.right) is,
            )
        | inr f ↦ (q, get_elem?-set_other trees n m _ (==-ne n m f) ∙ at, refl, refl, refl)
      ];
    }

    pub Finds-written :
        (y m : ℕ) (r : Option V) → y ≢ p.key → Finds trees y m r → Finds written y m r
    Finds-written y m r ne (nothing at) = nothing (
        get_elem?-set_other trees n m _
          (λ e. no_tree trees m p at (subst (λ k. get_elem? trees k ≡ some (some p)) e here))
        ∙ at)
    Finds-written y m r ne (its_key q at e) =
        its_key q
          (get_elem?-set_other trees n m _ (λ t. ne (
              sym e
              ∙ ap (λ (t : Tree V). t.key)
                  (same_tree trees m q p at
                    (subst (λ k. get_elem? trees k ≡ some (some p)) t here))))
            ∙ at)
          e
    Finds-written y m r ne (in_left q at lt h) =
        let (q', at', key, left, right) = written-Grows.stays m q at in
        in_left q' at' (omega (arith, key))
          (subst (λ k. Finds written y k r) (sym left) (Finds-written y q.left r ne h))
    Finds-written y m r ne (in_right q at lt h) =
        let (q', at', key, left, right) = written-Grows.stays m q at in
        in_right q' at' (omega (arith, key))
          (subst (λ k. Finds written y k r) (sym right) (Finds-written y q.right r ne h))
