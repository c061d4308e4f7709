-- ===== src/KvStore/Gets.antt =====
-- src/btrees and tries (Adewale)/kvstore.c: `getValueOfPartialKey` moves cursors only, and returns what
-- the store holds.
use deep_spec_db.Base.{
  ℕ, zero, suc, ◌≡◌, refl, sym, ap, subst, ◌∙◌, Option, none, some, List, length, set, drop,
  get_elem?, get_elem?-some, get_elem?-set_same, get_elem?-set_other, leb, ◌>>=◌, ◌==◌, ==-eq,
  ==-ne, Bool-cases, Option-cases, inl, inr,
}
use mathlib.Core.Option.{some-injective}
use deep_spec_db.Relation.{Cursor}
use deep_spec_db.BorderNode.{has_suffix, get_link}
use deep_spec_db.KeySlice.{keyslice_length}
use deep_spec_db.KvStore.{
  KvStore, LinkOrValue, Border, set_node, key_slice, get_value_of_partial_key,
}
use deep_spec_db.KvStore.Directory.{view, find_record-view}
use deep_spec_db.KvStore.Spec.{border_get, stored, IsStore}
use deep_spec_db.KvStore.Borders.{key_slice_lem}
use deep_spec_db.KvStore.Steps.{set_node-IsStore}

module _ {ℓ} {V : Type ℓ} where
  -- What the directory entry of a slice leads to.
  abbrev entered :
      List (Border V)
      → List ℕ
      → Option ℕ
      → (ℕ → Option (Option (LinkOrValue V)))
      → Option (Option (LinkOrValue V))
  entered borders key none below = some none
  entered borders key (some b) below = get_elem? borders b >>= (λ bn. border_get bn key below)

  stored-entered :
      (f : ℕ) (s : KvStore V) (m : ℕ) (c : Cursor ℕ) (key : List ℕ) (k : ℕ)
      → key_slice key ≡ some k
      → get_elem? s.nodes m ≡ some c
      → stored (suc f) s m key
        ≡ entered s.borders key (view c k) (λ next. stored f s next (drop keyslice_length key))
  unfolding stored
  stored-entered f s m c key k e at =
      rw (e, ◌>>=◌, at)
        (elim (view c k)
          as (λ (o : Option ℕ).
            (elim o [
              | none ↦ some none
              | some b ↦
                  get_elem? s.borders b
                  >>= (λ bn. border_get bn key (λ next. stored f s next (drop keyslice_length key)))
            ])
            ≡ entered s.borders key o (λ next. stored f s next (drop keyslice_length key))) [
              | none ↦ refl
              | some b ↦ refl
            ])

  -- What a node holds depends on the next layer only by its results.
  stored_next :
      (f : ℕ) (s s' : KvStore V) (m : ℕ) (c c' : Cursor ℕ) (key : List ℕ)
      → get_elem? s.nodes m ≡ some c
      → get_elem? s'.nodes m ≡ some c'
      → s'.borders ≡ s.borders
      → ((j : ℕ) → view c' j ≡ view c j)
      → ((next : ℕ)
          → stored f s' next (drop keyslice_length key)
            ≡ stored f s next (drop keyslice_length key))
      → stored (suc f) s' m key ≡ stored (suc f) s m key
  stored_next f s s' m c c' key at at' same views below =
      let (k, e, _) = key_slice_lem key in
      stored-entered f s' m c' key k e at'
      ∙ (ap (λ bs. entered bs key (view c' k) (λ next. stored f s' next (drop keyslice_length key)))
            same
          ∙ (ap (λ o. entered s.borders key o (λ next. stored f s' next (drop keyslice_length key)))
                (views k)
              ∙ (ap (λ g. entered s.borders key (view c k) g) (λ i next. below next i)
                  ∙ sym (stored-entered f s m c key k e at))))

  -- A cursor that moves changes nothing of what the store holds.
  pub stored-set_node :
      (f : ℕ) (s : KvStore V) (n : ℕ) (c c' : Cursor ℕ)
      → get_elem? s.nodes n ≡ some c
      → ((j : ℕ) → view c' j ≡ view c j)
      → (m : ℕ) (key : List ℕ) → stored f (set_node s n c') m key ≡ stored f s m key
  unfolding stored
  stored-set_node zero s n c c' at views m key = refl
  stored-set_node (suc f) s n c c' at views m key = elim (Bool-cases (n == m)) [
    | inl t ↦
        let e = ==-eq n m t in
        let at_m : get_elem? s.nodes m ≡ some c = rw e at at in
        let at_m' : get_elem? (set s.nodes n c') m ≡ some c' =
          subst (λ x. get_elem? (set s.nodes n c') x ≡ some c') e
            (get_elem?-set_same s.nodes n c' (get_elem?-some s.nodes n c at)) in
        stored_next f s (set_node s n c') m c c' key at_m at_m' refl views
          (λ next. stored-set_node f s n c c' at views next (drop keyslice_length key))
    | inr other ↦
        let away = get_elem?-set_other s.nodes n m c' (==-ne n m other) in
        elim (Option-cases (get_elem? s.nodes m)) [
          | inl gone ↦ let (k, e, _) = key_slice_lem key in rw (e, ◌>>=◌, away, gone) refl
          | inr (x, at_m) ↦
              stored_next f s (set_node s n c') m x x key at_m (away ∙ at_m) refl (λ j. refl)
                (λ next. stored-set_node f s n c c' at views next (drop keyslice_length key))
        ]
  ]

  -- The store after a get.
  pub record IsGet (f : ℕ) (s : KvStore V) (own : ℕ → ℕ) (n : ℕ) (key : List ℕ)
      (v : Option (LinkOrValue V)) : Type ℓ where
    pub result : KvStore V
    pub runs : get_value_of_partial_key f s n key ≡ some (v, result)
    pub good : IsStore result own
    pub same : (g m : ℕ) (k : List ℕ) → stored g result m k ≡ stored g s m k
    pub root : result.root_node ≡ s.root_node
    pub count : result.num_keys ≡ s.num_keys

  -- A get returns what the store holds, and the store holds the same after it.
  pub get_value_of_partial_key_lem :
      (f : ℕ) (s : KvStore V) (own : ℕ → ℕ)
      → IsStore s own
      → (n : ℕ) (key : List ℕ) (v : Option (LinkOrValue V)) → stored f s n key ≡ some v
      → IsGet f s own n key v
  unfolding get_value_of_partial_key stored border_get
  get_value_of_partial_key_lem zero s own ok n key v h = cc
  get_value_of_partial_key_lem (suc f) s own ok n key v h =
      let (k, e, fits) = key_slice_lem key in
      elim (Option-cases (get_elem? s.nodes n)) [
        | inl gone ↦ let never : none ≡ some v = rw (e, ◌>>=◌, gone) at h in cc
        | inr (c, at) ↦
            let (c', run, ok', views) = find_record-view c k (ok n c at).well_formed fits in
            let s' = set_node s n c' in
            let (good, keeps) = set_node-IsStore s own ok n c c' at ok' views in
            let finish : get_value_of_partial_key (suc f) s n key ≡ some (v, s')
                → IsGet (suc f) s own n key v =
              λ runs. record {
                result = s';
                runs = runs;
                good = good;
                root = refl;
                count = refl;
                same = λ g m k. stored-set_node g s n c c' at views m k;
              } in
            elim (Option-cases (view c k)) [
              | inl missing ↦ finish (
                  rw (e, ◌>>=◌, at, run, missing)
                    (ap (λ o. some (o, s'))
                      (some-injective none v (rw (e, ◌>>=◌, at, missing) at h))))
              | inr (b, hit) ↦
                  let hb = (ok n c at).borders k b hit in
                  let there = hb.at in
                  elim (Bool-cases (leb (length key) keyslice_length)) [
                    | inl short ↦ finish (
                        rw
                          (
                            e,
                            ◌>>=◌,
                            at,
                            run,
                            hit,
                            there,
                            short,
                            (rw (e, ◌>>=◌, at, hit, there, short) at h),
                          )
                          refl)
                    | inr long ↦ elim (Bool-cases (has_suffix hb.bn)) [
                      | inl suffixed ↦ finish (
                          rw (e, ◌>>=◌, at, run, hit, there, long, suffixed)
                            (ap (λ o. some (o, s'))
                              (some-injective _ v
                                (rw (e, ◌>>=◌, at, hit, there, long, suffixed) at h))))
                      | inr plain ↦ elim (Option-cases (get_link hb.bn)) [
                        | inl none_linked ↦ finish (
                            rw (e, ◌>>=◌, at, run, hit, there, long, plain, none_linked)
                              (ap (λ o. some (o, s'))
                                (some-injective _ v
                                  (rw (e, ◌>>=◌, at, hit, there, long, plain, none_linked) at h))))
                        | inr (p, linked) ↦
                            let (next, is, after, within) = hb.good.linked p linked in
                            let to_next = linked ∙ ap (λ x. some x) is in
                            let below =
                              get_value_of_partial_key_lem f s' own good next
                                (drop keyslice_length key) v
                                (stored-set_node f s n c c' at views next (drop keyslice_length key)
                                  ∙ (rw (e, ◌>>=◌, at, hit, there, long, plain, to_next) at h)) in
                            record {
                              result = below.result;
                              runs =
                                  rw (e, ◌>>=◌, at, run, hit, there, long, plain, to_next)
                                    below.runs;
                              good = below.good;
                              same = λ g m k.
                                  below.same g m k ∙ stored-set_node g s n c c' at views m k;
                              root = below.root;
                              count = below.count;
                            }
                      ]
                    ]
                  ]
            ]
      ]
