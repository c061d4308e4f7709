-- ===== src/KvStore/Steps.antt =====
-- src/btrees and tries (Adewale)/kvstore.c: each change of the store keeps its invariant, and leaves the
-- nodes before the one where it is made.
use deep_spec_db.Base.{
  ℕ, suc, ◌≤◌, ◌<◌, ◌≡◌, refl, sym, ap, subst, ◌∙◌, arith, some, [], ◌∷◌, ◌++◌, length, set,
  get_elem?, get_elem?-some, get_elem?-append, get_elem?-append_left, get_elem?-set_same,
  get_elem?-set_other, length-set, length-append, ◌==◌, ==-eq, ==-ne, ==_self, ==-eq-false,
  if◌then◌else◌, ◌>>=◌, Bool-cases, inl, inr,
}
use mathlib.Core.Option.{some-injective}
use deep_spec_db.Relation.{Cursor}
use deep_spec_db.Relation.Api.{new_relation, new_cursor}
use deep_spec_db.Relation.Refines.{key_limit}
use deep_spec_db.KvStore.{KvStore, Border, set_node, set_border, count_key, new_kv_node, put_border}
use deep_spec_db.KvStore.Directory.{view, IsCursor, new_cursor-view, put_record-view}
use deep_spec_db.KvStore.Spec.{IsBorder, HasBorder, IsNode, IsStore}

module _ {ℓ} {V : Type ℓ} where
  -- A store that only changed at the node `n` and later ones.
  pub record Keeps (n : ℕ) (s : KvStore V) (own : ℕ → ℕ) (s' : KvStore V) (own' : ℕ → ℕ)
      : Type ℓ where
    pub nodes : (m : ℕ) → m < n → get_elem? s'.nodes m ≡ get_elem? s.nodes m
    pub more_nodes : length s.nodes ≤ length s'.nodes
    pub borders :
        (b : ℕ) → b < length s.borders → own b < n → get_elem? s'.borders b ≡ get_elem? s.borders b
    pub more_borders : length s.borders ≤ length s'.borders
    pub owners : (b : ℕ) → b < length s.borders → own' b ≡ own b
    pub root : s'.root_node ≡ s.root_node

  pub Keeps-trans :
      (n n' : ℕ) (s : KvStore V) (own : ℕ → ℕ) (s' : KvStore V) (own' : ℕ → ℕ) (s'' : KvStore V)
      (own'' : ℕ → ℕ)
      → n ≤ n'
      → Keeps n s own s' own'
      → Keeps n' s' own' s'' own''
      → Keeps n s own s'' own''
  Keeps-trans n n' s own s' own' s'' own'' le h k = record {
    nodes = λ m lt. k.nodes m (omega arith) ∙ h.nodes m lt;
    more_nodes = omega (arith, h.more_nodes, k.more_nodes);
    borders = λ b lt below.
        k.borders b (omega (arith, h.more_borders)) (omega (arith, h.owners b lt))
        ∙ h.borders b lt below;
    more_borders = omega (arith, h.more_borders, k.more_borders);
    owners = λ b lt. k.owners b (omega (arith, h.more_borders)) ∙ h.owners b lt;
    root = k.root ∙ h.root;
  }

  -- A border node that did not change.
  HasBorder-keep :
      (s : KvStore V) (own : ℕ → ℕ) (s' : KvStore V) (own' : ℕ → ℕ) (n b : ℕ)
      → HasBorder s own n b
      → get_elem? s'.borders b ≡ get_elem? s.borders b
      → length s.nodes ≤ length s'.nodes
      → own' b ≡ own b
      → HasBorder s' own' n b
  HasBorder-keep s own s' own' n b h e more same = record {
    bn = h.bn;
    at = e ∙ h.at;
    owner = same ∙ h.owner;
    good = record {
      size = h.good.size;
      linked = λ p l.
          let (next, is, after, within) = h.good.linked p l in (next, is, after, omega arith);
      filled = h.good.filled;
    };
  }

  module _ (s : KvStore V) (own : ℕ → ℕ) (ok : IsStore s own) where
    -- A cursor that moves.
    pub set_node-IsStore :
        (n : ℕ) (c c' : Cursor ℕ)
        → get_elem? s.nodes n ≡ some c
        → IsCursor c'
        → ((j : ℕ) → view c' j ≡ view c j)
        → IsStore (set_node s n c') own × Keeps n s own (set_node s n c') own
    set_node-IsStore n c c' at good same =
        let more : length s.nodes ≤ length (set s.nodes n c') =
          omega (arith, length-set s.nodes n c') in
        (
          (λ m x at_m. elim (Bool-cases (n == m)) [
            | inl t ↦
                let e = ==-eq n m t in
                let is : c' ≡ x = some-injective c' x (
                  sym (get_elem?-set_same s.nodes n c' (get_elem?-some s.nodes n c at))
                  ∙ subst (λ i. get_elem? (set s.nodes n c') i ≡ some x) (sym e) at_m) in
                subst (λ x. IsNode (set_node s n c') own m x) is
                  (record {
                    well_formed = good;
                    borders = λ slice b h.
                        HasBorder-keep s own (set_node s n c') own m b
                          (subst (λ m. HasBorder s own m b) e
                            ((ok n c at).borders slice b (sym (same slice) ∙ h)))
                          refl more refl;
                  })
            | inr f ↦
                let old = ok m x (sym (get_elem?-set_other s.nodes n m c' (==-ne n m f)) ∙ at_m) in
                record {
                  well_formed = old.well_formed;
                  borders = λ slice b h.
                      HasBorder-keep s own (set_node s n c') own m b (old.borders slice b h) refl
                        more refl;
                }
          ]),
          record {
            nodes = λ m lt. get_elem?-set_other s.nodes n m c' (λ e. absurd (omega (arith, e)));
            more_nodes = more;
            borders = λ b lt below. refl;
            more_borders = omega arith;
            owners = λ b lt. refl;
            root = refl;
          },
        )

    -- A border node that changes.
    pub set_border-IsStore :
        (n b : ℕ) (bn : Border V)
        → own b ≡ n
        → b < length s.borders
        → IsBorder n (length s.nodes) bn
        → IsStore (set_border s b bn) own × Keeps n s own (set_border s b bn) own
    set_border-IsStore n b bn mine inside good = (
      (λ m x at_m.
          let old = ok m x at_m in
          record {
            well_formed = old.well_formed;
            borders = λ slice b' h. elim (Bool-cases (b == b')) [
              | inl t ↦
                  let e = ==-eq b b' t in
                  let hb = old.borders slice b' h in
                  let owned : n ≡ m = sym mine ∙ (ap own e ∙ hb.owner) in
                  record {
                    bn = bn;
                    at =
                        subst (λ i. get_elem? (set s.borders b bn) i ≡ some bn) e
                          (get_elem?-set_same s.borders b bn inside);
                    owner = hb.owner;
                    good = subst (λ i. IsBorder i (length s.nodes) bn) owned good;
                  }
              | inr f ↦
                  HasBorder-keep s own (set_border s b bn) own m b' (old.borders slice b' h)
                    (get_elem?-set_other s.borders b b' bn (==-ne b b' f)) (omega arith) refl
            ];
          }),
      record {
        nodes = λ m lt. refl;
        more_nodes = omega arith;
        borders = λ b' lt below.
            get_elem?-set_other s.borders b b' bn (λ e. absurd (omega (arith, ap own e)));
        more_borders = omega (arith, length-set s.borders b bn);
        owners = λ b' lt. refl;
        root = refl;
      },
    )

    -- The count of the keys.
    pub count_key-IsStore : IsStore (count_key s) own × ((n : ℕ) → Keeps n s own (count_key s) own)
    count_key-IsStore = (
      (λ m x at_m.
          let old = ok m x at_m in
          record {
            well_formed = old.well_formed;
            borders = λ slice b h.
                HasBorder-keep s own (count_key s) own m b (old.borders slice b h) refl
                  (omega arith) refl;
          }),
      (λ n. record {
        nodes = λ m lt. refl;
        more_nodes = omega arith;
        borders = λ b lt below. refl;
        more_borders = omega arith;
        owners = λ b lt. refl;
        root = refl;
      }),
    )

    -- A new node.
    pub new_kv_node-IsStore :
        IsStore (new_kv_node s) own
        × ((n : ℕ) → n ≤ length s.nodes → Keeps n s own (new_kv_node s) own)
        × (get_elem? (new_kv_node s).nodes (length s.nodes) ≡ some (new_cursor new_relation))
        × (length (new_kv_node s).nodes ≡ suc (length s.nodes))
    new_kv_node-IsStore =
        let c : Cursor ℕ = new_cursor new_relation in
        let longer : length (s.nodes ++ c ∷ []) ≡ suc (length s.nodes) =
          omega (arith, length-append s.nodes (c ∷ [])) in
        (
          (λ m x at_m. elim (Bool-cases (m == length s.nodes)) [
            | inl t ↦
                let e = ==-eq m (length s.nodes) t in
                let is : c ≡ x =
                  some-injective c x (sym (get_elem?-append s.nodes [] c) ∙ (rw e at at_m)) in
                subst (λ x. IsNode (new_kv_node s) own m x) is
                  (record {
                    well_formed = (new_cursor-view {V = ℕ}).0;
                    borders = λ slice b h. let no = sym h ∙ (new_cursor-view {V = ℕ}).1 slice in cc;
                  })
            | inr f ↦
                let within : m < length s.nodes = omega (
                  arith,
                  ==-ne m (length s.nodes) f,
                  get_elem?-some (s.nodes ++ c ∷ []) m x at_m,
                  longer,
                ) in
                let old = ok m x (sym (get_elem?-append_left s.nodes (c ∷ []) m within) ∙ at_m) in
                record {
                  well_formed = old.well_formed;
                  borders = λ slice b h.
                      HasBorder-keep s own (new_kv_node s) own m b (old.borders slice b h) refl
                        (omega (arith, longer)) refl;
                }
          ]),
          (λ n le. record {
            nodes = λ m lt. get_elem?-append_left s.nodes (c ∷ []) m (omega arith);
            more_nodes = omega (arith, longer);
            borders = λ b lt below. refl;
            more_borders = omega arith;
            owners = λ b lt. refl;
            root = refl;
          }),
          get_elem?-append s.nodes [] c,
          longer,
        )

    -- A new border node of the node `n`, put into its relation.
    pub put_border-IsStore :
        (n slice : ℕ) (c : Cursor ℕ) (bn : Border V)
        → get_elem? s.nodes n ≡ some c
        → slice < key_limit
        → IsBorder n (length s.nodes) bn
        → (s' : KvStore V) × (own' : ℕ → ℕ) × (c' : Cursor ℕ) × (put_border s n slice bn ≡ some s')
          × IsStore s' own'
          × Keeps n s own s' own'
          × (length s'.nodes ≡ length s.nodes)
          × (get_elem? s'.nodes n ≡ some c')
          × ((j : ℕ) → view c' j ≡ (if slice == j then some (length s.borders) else view c j))
          × (get_elem? s'.borders (length s.borders) ≡ some bn)
          × (own' (length s.borders) ≡ n)
          × ((x : ℕ) → x < length s.borders → get_elem? s'.borders x ≡ get_elem? s.borders x)
    unfolding put_border
    put_border-IsStore n slice c bn at fits good =
        let b = length s.borders in
        let own' : ℕ → ℕ = λ x. if x == b then n else own x in
        let (c', run, ok', after) = put_record-view c slice b (ok n c at).well_formed fits in
        let s' = set_node (record s { borders = s.borders ++ bn ∷ [] }) n c' in
        let more : length s'.nodes ≡ length s.nodes = length-set s.nodes n c' in
        let longer : length (s.borders ++ bn ∷ []) ≡ suc b =
          omega (arith, length-append s.borders (bn ∷ [])) in
        let mine : own' b ≡ n = rw (==_self b) refl in
        let others : (x : ℕ) → x < b → own' x ≡ own x =
          λ x lt. rw (==-eq-false x b (λ e. absurd (omega (arith, e)))) refl in
        let kept : (m x : ℕ) → HasBorder s own m x → HasBorder s' own' m x = λ m x h.
          let lt = get_elem?-some s.borders x h.bn h.at in
          HasBorder-keep s own s' own' m x h (get_elem?-append_left s.borders (bn ∷ []) x lt)
            (omega (arith, more)) (others x lt) in
        let added : get_elem? s'.borders b ≡ some bn = get_elem?-append s.borders [] bn in
        let is_new : get_elem? s'.nodes n ≡ some c' =
          get_elem?-set_same s.nodes n c' (get_elem?-some s.nodes n c at) in
        (
          s',
          own',
          c',
          rw (at, ◌>>=◌, run, ◌>>=◌) refl,
          (λ m x at_m. elim (Bool-cases (n == m)) [
            | inl t ↦
                let e = ==-eq n m t in
                let is : c' ≡ x =
                  some-injective c' x
                    (sym is_new ∙ subst (λ i. get_elem? s'.nodes i ≡ some x) (sym e) at_m) in
                subst (λ x. IsNode s' own' m x) is
                  (record {
                    well_formed = ok';
                    borders = λ j b' h. elim (Bool-cases (slice == j)) [
                      | inl hit ↦
                          let there : b ≡ b' =
                            some-injective b b' (sym (rw hit at (after j)) ∙ h) in
                          subst (λ x. HasBorder s' own' m x) there
                            (record {
                              bn = bn;
                              at = added;
                              owner = mine ∙ e;
                              good =
                                  subst (λ i. IsBorder i (length s'.nodes) bn) e
                                    (subst (λ k. IsBorder n k bn) (sym more) good);
                            })
                      | inr miss ↦ kept m b' (
                          subst (λ m. HasBorder s own m b') e
                            ((ok n c at).borders j b' (sym (rw miss at (after j)) ∙ h)))
                    ];
                  })
            | inr f ↦
                let old = ok m x (sym (get_elem?-set_other s.nodes n m c' (==-ne n m f)) ∙ at_m) in
                record {
                  well_formed = old.well_formed;
                  borders = λ j b' h. kept m b' (old.borders j b' h);
                }
          ]),
          record {
            nodes = λ m lt. get_elem?-set_other s.nodes n m c' (λ e. absurd (omega (arith, e)));
            more_nodes = omega (arith, more);
            borders = λ x lt below. get_elem?-append_left s.borders (bn ∷ []) x lt;
            more_borders = omega (arith, longer);
            owners = others;
            root = refl;
          },
          more,
          is_new,
          after,
          added,
          mine,
          λ x lt. get_elem?-append_left s.borders (bn ∷ []) x lt,
        )
