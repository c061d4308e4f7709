-- ===== src/LockedTree/Kept.antt =====
-- concurrency/bst_conc.c: every turn of a thread keeps the invariant of the system.
use deep_spec_db.Base.{
  put, put_cases, put_other, put_same, ℕ, suc, ◌≤◌, ◌<◌, ◌≡◌, ◌↔◌, refl, sym, ap, subst, ◌∙◌, arith,
  Option, none, some, List, [], ◌∷◌, length, set, get_elem?, get_elem?-some, get_elem?-append_left,
  get_elem?-set_other, length-set, ltb, ltb→lt, ltb-le, ◌==◌, ==-eq, ==-ne, Bool-cases, inl, inr,
}
use mathlib.Core.Option.{some-injective}
use deep_spec_db.LockedTree.{
  Tree, Call, insert, lookup, Thread, at_node, releases, System, treebox_new, at_null, at_key,
  Reaches, start, later,
}
use deep_spec_db.LockedTree.Searches.{Grows}
use deep_spec_db.LockedTree.Writes.{
  grown, added, grown-Grows, grown_same, grown_new, length-grown, written, written-Grows,
  written_same,
}
use deep_spec_db.LockedTree.Invariant.{
  Holds, IsAt, IsLinked, IsSystem, IsSystem-turn, treebox_new-IsSystem,
}
use deep_spec_db.LockedTree.Turns.{Turn, takes, gives, ends_at_null, ends_at_key, step-Turn}

module _ {ℓ} {V : Type ℓ} where
  Grows-refl : (trees : List (Option (Tree V))) → Grows trees trees
  Grows-refl trees = record { more = omega arith; stays = λ n p at. (p, at, refl, refl, refl) }

  module _ (trees : List (Option (Tree V))) (linked : IsLinked trees) (n : ℕ) where
    grown-IsLinked :
        (x : ℕ) (v : V) (here : get_elem? trees n ≡ some none) → IsLinked (grown trees n x v here)
    grown-IsLinked x v here m q at =
        let g = grown trees n x v here in
        let new = added trees n x v here in
        let long = length-grown trees n x v here in
        elim (Bool-cases (n == m)) [
          | inl t ↦
              let e = ==-eq n m t in
              let is : new ≡ q = some-injective new q (
                some-injective (some new) (some q) (
                  sym (subst (λ k. get_elem? g k ≡ some (some new)) e (grown_same trees n x v here))
                  ∙ at)) in
              let inside = get_elem?-some trees n none here in
              subst
                (λ (q : Tree V).
                  (m < q.left) × (q.left < length g) × (m < q.right) × (q.right < length g))
                is (omega (arith, e), omega (arith, long), omega (arith, e), omega (arith, long))
          | inr f ↦ elim (Bool-cases (ltb m (length trees))) [
            | inl lt ↦
                let old : get_elem? trees m ≡ some (some q) =
                  sym (
                    get_elem?-append_left (set trees n (some new)) (none ∷ none ∷ []) m
                      (omega (arith, ltb→lt m (length trees) lt, length-set trees n (some new)))
                    ∙ get_elem?-set_other trees n m (some new) (==-ne n m f))
                  ∙ at in
                let (above_l, in_l, above_r, in_r) = linked m q old in
                (above_l, omega (arith, long), above_r, omega (arith, long))
            | inr ge ↦
                let none_there : get_elem? g m ≡ some none = elim (Bool-cases (m == length trees)) [
                  | inl t ↦
                      subst (λ k. get_elem? g k ≡ some none) (sym (==-eq m _ t))
                        (grown_new trees n x v here).0
                  | inr f' ↦
                      let is : m ≡ suc (length trees) = omega (
                        arith,
                        ltb-le m (length trees) ge,
                        ==-ne m _ f',
                        get_elem?-some g m (some q) at,
                        long,
                      ) in
                      subst (λ k. get_elem? g k ≡ some none) (sym is) (grown_new trees n x v here).1
                ] in
                let clash : none ≡ some q = some-injective none (some q) (sym none_there ∙ at) in cc
          ]
        ]

    written-IsLinked :
        (p : Tree V) (v : V) (here : get_elem? trees n ≡ some (some p))
        → IsLinked (written trees n p v here)
    written-IsLinked p v here m q at =
        let same : length (written trees n p v here) ≡ length trees = length-set trees n _ in
        elim (Bool-cases (n == m)) [
          | inl t ↦
              let e = ==-eq n m t in
              let new : Tree V = record p { value = v } in
              let is : new ≡ q = some-injective new q (
                some-injective (some new) (some q) (
                  sym (
                    subst (λ k. get_elem? (written trees n p v here) k ≡ some (some new)) e
                      (written_same trees n p v here))
                  ∙ at)) in
              let (above_l, in_l, above_r, in_r) = linked n p here in
              subst
                (λ (q : Tree V).
                  (m < q.left)
                  × (q.left < length (written trees n p v here))
                  × (m < q.right)
                  × (q.right < length (written trees n p v here)))
                is (omega (arith, e), omega (arith, same), omega (arith, e), omega (arith, same))
          | inr f ↦
              let (above_l, in_l, above_r, in_r) =
                linked m q (sym (get_elem?-set_other trees n m _ (==-ne n m f)) ∙ at) in
              (above_l, omega (arith, same), above_r, omega (arith, same))
        ]

  module _ (s : System V) (ok : IsSystem s) (i : ℕ) where
    -- A turn that keeps the thread's lock.
    keeps_lock :
        (next was : Thread V)
        → s.threads i ≡ was
        → ((m : ℕ) → Holds next m → Holds was m)
        → ((m : ℕ) → Holds was m → Holds next m)
        → (trees : List (Option (Tree V))) → Grows s.trees trees
        → IsLinked trees
        → IsAt trees next
        → IsSystem (record { trees = trees; locks = s.locks; threads = put s.threads i next })
    keeps_lock next was e back forth trees g linked at' =
        IsSystem-turn s ok i next trees s.locks g linked
          (λ m h. forth m (subst (λ t. Holds t m) e (ok.held i m h)))
          (λ m h.
            let mine = subst (λ t. Holds t m) (sym e) (back m h) in
            (ok.holding i m mine, omega (arith, ok.inside i m mine, g.more)))
          (λ j m ne. ((λ h. h), (λ h. h))) at'

    -- The locks of new addresses are free as they were.
    fresh_locks :
        (m j : ℕ)
        → (put (put s.locks (length s.trees) none) (suc (length s.trees)) none m ≡ some j)
          ↔ (s.locks m ≡ some j)
    fresh_locks m j =
        let first = put s.locks (length s.trees) none in
        let free : length s.trees ≤ m → s.locks m ≡ some j → ⊥ =
          λ le h. omega (arith, ok.inside j m (ok.held j m h)) in
        elim (put_cases first (suc (length s.trees)) none m) [
          | inl (k, is) ↦ (
            (λ h. let never : none ≡ some j = sym is ∙ h in cc),
            (λ h. absurd (free (omega (arith, k)) h)),
          )
          | inr (_, k) ↦ elim (put_cases s.locks (length s.trees) none m) [
            | inl (k', is) ↦ (
              (λ h. let never : none ≡ some j = sym is ∙ (sym k ∙ h) in cc),
              (λ h. absurd (free (omega (arith, k')) h)),
            )
            | inr (_, k') ↦ ((λ h. sym (k ∙ k') ∙ h), (λ h. (k ∙ k') ∙ h))
          ]
        ]

    Turn-IsSystem : (u : System V) → Turn s i u → IsSystem u
    unfolding at_null at_key
    Turn-IsSystem u (takes was next n e same free inside gains keeps own at) =
        IsSystem-turn s ok i next s.trees (put s.locks n (some i)) (Grows-refl s.trees) ok.linked
          (λ m h. elim (put_cases s.locks n (some i) m) [
            | inl (k, _) ↦ subst (λ x. Holds next x) (sym k) own
            | inr (ne, k) ↦ keeps m (subst (λ t. Holds t m) e (ok.held i m (sym k ∙ h)))
          ])
          (λ m h. elim (gains m h) [
            | inl w ↦
                let mine = subst (λ t. Holds t m) (sym e) w in
                let lock = ok.holding i m mine in
                (
                  elim (put_cases s.locks n (some i) m) [ inl (_, k) ↦ k | inr (_, k) ↦ k ∙ lock ],
                  ok.inside i m mine,
                )
            | inr k ↦
                (ap (put s.locks n (some i)) k ∙ put_same s.locks n (some i), omega (arith, k))
          ])
          (λ j m ne. elim (put_cases s.locks n (some i) m) [
            | inl (k, is) ↦ (
              (λ h. absurd (ne (sym (some-injective i j (sym is ∙ h))))),
              (λ h. let never : none ≡ some j = sym free ∙ (sym (ap s.locks k) ∙ h) in cc),
            )
            | inr (_, k) ↦ ((λ h. sym k ∙ h), (λ h. k ∙ h))
          ])
          at
    Turn-IsSystem u (gives was next n e same mine losing keeps at) =
        IsSystem-turn s ok i next s.trees (put s.locks n none) (Grows-refl s.trees) ok.linked
          (λ m h. elim (put_cases s.locks n none m) [
            | inl (k, is) ↦ let never : none ≡ some i = sym is ∙ h in cc
            | inr (ne, k) ↦ keeps m (subst (λ t. Holds t m) e (ok.held i m (sym k ∙ h))) ne
          ])
          (λ m h.
            let (w, ne) = losing m h in
            let has = subst (λ t. Holds t m) (sym e) w in
            (put_other s.locks n none m ne ∙ ok.holding i m has, ok.inside i m has))
          (λ j m ne. elim (put_cases s.locks n none m) [
            | inl (k, is) ↦ (
              (λ h. let never : none ≡ some j = sym is ∙ h in cc),
              (λ h. absurd (ne (some-injective j i (sym h ∙ (ap s.locks k ∙ mine))))),
            )
            | inr (_, k) ↦ ((λ h. sym k ∙ h), (λ h. k ∙ h))
          ])
          at
    Turn-IsSystem u (ends_at_null (insert x v) n e at) =
        let new = releases n none in
        let g = grown-Grows s.trees n x v at in
        IsSystem-turn s ok i new (grown s.trees n x v at) _ g
          (grown-IsLinked s.trees ok.linked n x v at)
          (λ m h. subst (λ t. Holds t m) e (ok.held i m ((fresh_locks m i).0 h)))
          (λ m h.
            let mine = subst (λ t. Holds t m) (sym e) h in
            ((fresh_locks m i).1 (ok.holding i m mine), omega (arith, ok.inside i m mine, g.more)))
          (λ j m ne. fresh_locks m j) tt
    Turn-IsSystem u (ends_at_null (lookup x) n e at) =
        keeps_lock (releases n none) (at_node (lookup x) n) e (λ m h. h) (λ m h. h) s.trees
          (Grows-refl s.trees) ok.linked tt
    Turn-IsSystem u (ends_at_key (insert x v) n p e at same) =
        keeps_lock (releases n none) (at_node (insert x v) n) e (λ m h. h) (λ m h. h)
          (written s.trees n p v at) (written-Grows s.trees n p v at)
          (written-IsLinked s.trees ok.linked n p v at) tt
    Turn-IsSystem u (ends_at_key (lookup x) n p e at same) =
        keeps_lock (releases n (some p.value)) (at_node (lookup x) n) e (λ m h. h) (λ m h. h)
          s.trees (Grows-refl s.trees) ok.linked tt

  -- A system that threads reach from a new tree.
  pub Reaches-IsSystem :
      (calls : ℕ → Call V) (s : System V) → Reaches (treebox_new calls) s → IsSystem s
  Reaches-IsSystem calls s start = treebox_new-IsSystem calls
  Reaches-IsSystem calls s (later {t} h i e) =
      let ok = Reaches-IsSystem calls t h in Turn-IsSystem t ok i s (step-Turn t ok i s e)
