-- ===== src/KvStore/Laws.antt =====
-- src/btrees and tries (Adewale)/kvstore.c: `KV_Put` and `KV_Get` on a whole store.
use deep_spec_db.Base.{
  ℕ, zero, suc, ◌+◌, ◌^◌, ◌<◌, ◌≡◌, refl, sym, ap, subst, ◌∙◌, arith, true, false, Option, none,
  some, List, [], ◌∷◌, length, length-drop, get_elem?, get_elem?-lt, drop, leb, leb→le, leb-lt,
  lt→ltb, ◌>>=◌, Bool-cases, Option-cases, inl, inr,
}
use mathlib.Core.Option.{some-injective}
use deep_spec_db.Relation.{Cursor}
use deep_spec_db.Relation.Api.{new_relation, new_cursor}
use deep_spec_db.BorderNode.{
  new_border_node, max_bn_size, set_value, set_prefix_value, set_suffix_value, get_link,
  get_prefix_value, has_suffix, test_suffix,
}
use deep_spec_db.KeySlice.{keyslice_length}
use deep_spec_db.KvStore.{
  KvStore, LinkOrValue, value, Border, set_node, key_slice, put_tail, put_one, put_turn, put_loop,
  kv_new_store, kv_put, kv_get,
}
use deep_spec_db.KvStore.Directory.{view, find_record, new_cursor-view}
use deep_spec_db.KvStore.Spec.{stored, IsNode, IsStore}
use deep_spec_db.KvStore.Borders.{
  key_slice_lem, border_get-set_value, border_get-set_suffix_value, new_border_node-IsBorder,
}
use deep_spec_db.KvStore.Gets.{get_value_of_partial_key_lem}
use deep_spec_db.KvStore.Second.{IsPut, IsLeft}
use deep_spec_db.BorderNode.Laws.{test_suffix_differs}
use deep_spec_db.KvStore.Paths.{in_node, in_layer, IsClear, Leads-set_node}
use deep_spec_db.KvStore.First.{found_tail, found_same, found_new}
use deep_spec_db.KvStore.Layers.{fresh, follow, push_down}

only_one : {A : Type 0} (n : ℕ) (x y : A) → get_elem? (x ∷ []) n ≡ some y → x ≡ y
only_one zero x y e = some-injective x y e
only_one (suc n) x y e = cc

module _ {ℓ} {V : Type ℓ} where
  -- The next turn after a new slice.
  slice_is_new :
      (s : KvStore V) (own : ℕ → ℕ) (ok : IsStore s own) (n : ℕ) (c : Cursor ℕ)
      (at : get_elem? s.nodes n ≡ some c) (key : List ℕ) (val : Option (LinkOrValue V)) (slice : ℕ)
      → key_slice key ≡ some slice
      → slice < 2 ^ 64
      → view c slice ≡ none
      → 0 < length key
      → (fuel : ℕ) → IsPut (suc (suc fuel)) s own n key val none
  unfolding set_value
  slice_is_new s own ok n c at key val slice e fits missing low fuel =
      elim (Bool-cases (leb (length key) keyslice_length)) [
        | inl short ↦
            let high = leb→le (length key) keyslice_length short in
            let (bn, made, good, _) =
              border_get-set_value n (length s.nodes) new_border_node key val
                (new_border_node-IsBorder n _) low in
            fresh s own ok n c at key val slice e fits bn missing made good (suc fuel)
              (λ s' own' ok' c' at' b hit there.
                found_tail s' own' ok' n c' at' key val slice e fits b hit low high fuel)
        | inr over ↦
            let long = leb-lt (length key) keyslice_length over in
            let (good, suffixed, same, _) =
              border_get-set_suffix_value n (length s.nodes) new_border_node key val
                (new_border_node-IsBorder n _) long in
            fresh s own ok n c at key val slice e fits
              (set_suffix_value new_border_node (drop keyslice_length key) val) missing
              (rw (lt→ltb max_bn_size (length key) long) refl) good (suc fuel)
              (λ s' own' ok' c' at' b hit there.
                found_same s' own' ok' n c' at' key val slice e fits b hit long
                  (set_suffix_value new_border_node (drop keyslice_length key) val) there suffixed
                  same fuel)
      ]

  has_suffix-some :
      (bn : Border V) → has_suffix bn ≡ true → (suffix : List ℕ) × (bn.key_suffix ≡ some suffix)
  unfolding has_suffix
  has_suffix-some bn h = elim (Option-cases bn.key_suffix) [
    | inl gone ↦ let no_suffix : false ≡ true = rw gone at h in cc
    | inr there ↦ there
  ]

  -- The loop of `KV_Put` for a key that is not empty and clashes with no suffix.
  put_loop_lem :
      (fuel : ℕ) (s : KvStore V) (own : ℕ → ℕ)
      → IsStore s own
      → (n : ℕ) (c : Cursor ℕ) → get_elem? s.nodes n ≡ some c
      → (key : List ℕ) (val : Option (LinkOrValue V)) → 0 < length key
      → length key + 1 < fuel
      → IsClear s n key
      → IsPut fuel s own n key val none
  put_loop_lem zero s own ok n c at key val low enough clear = absurd (omega arith)
  put_loop_lem (suc zero) s own ok n c at key val low enough clear = absurd (omega arith)
  put_loop_lem (suc (suc fuel)) s own ok n c at key val low enough clear =
      let (k, e, fits) = key_slice_lem key in
      elim (Option-cases (view c k)) [
        | inl missing ↦ slice_is_new s own ok n c at key val k e fits missing low fuel
        | inr (b, h) ↦ elim (Bool-cases (leb (length key) keyslice_length)) [
          | inl short ↦
              found_tail s own ok n c at key val k e fits b h low (leb→le _ _ short) (suc fuel)
          | inr over ↦
              let long = leb-lt (length key) keyslice_length over in
              let hb = (ok n c at).borders k b h in
              elim (Bool-cases (has_suffix hb.bn)) [
                | inl suffixed ↦ elim (Bool-cases (test_suffix hb.bn key)) [
                  | inl same ↦
                      found_same s own ok n c at key val k e fits b h long hb.bn hb.at suffixed same
                        (suc fuel)
                  | inr differs ↦
                      let (suffix, is) = has_suffix-some hb.bn suffixed in
                      push_down s own ok n c at key val k e fits b h long hb.bn hb.at suffix is
                        suffixed differs
                        (clear b _ hb.bn suffix (in_node k c e at h long refl) hb.at is
                          (test_suffix_differs hb.bn key suffix is differs))
                        (suc fuel) (omega arith)
                ]
                | inr plain ↦ elim (Option-cases (get_link hb.bn)) [
                  | inl none_linked ↦
                      found_new s own ok n c at key val k e fits b h long hb.bn hb.at plain
                        none_linked (suc fuel)
                  | inr (p, linked) ↦
                      let (next, is, after, within) = hb.good.linked p linked in
                      follow s own ok n c at key val k e fits b h long hb.bn hb.at next plain
                        (linked ∙ ap (λ x. some x) is) after (suc fuel)
                        (λ f.
                          let s' = set_node s n f.moved in
                          let (x, at_x, _) =
                            get_elem?-lt s'.nodes next (omega (arith, f.keeps.more_nodes)) in
                          put_loop_lem (suc fuel) s' own f.good next x at_x
                            (drop keyslice_length key) val
                            (omega (arith, length-drop keyslice_length key))
                            (omega (arith, length-drop keyslice_length key))
                            (λ b' rest bn suffix leads. clear b' rest bn suffix (
                              in_layer k c b hb.bn next e at h long hb.at
                                (linked ∙ ap (λ x. some x) is)
                                (Leads-set_node s n c f.moved at f.same next
                                  (drop keyslice_length key) b' rest leads))))
                ]
              ]
        ]
      ]

  -- On a well-formed store, for a key that is not empty and such that a suffix on the key's way
  -- through the layers which clashes with the rest of the key there is that rest, KV_Put returns a
  -- well-formed store and leaves the caller's key at the beginning of one of its slices, not at
  -- its end; KV_Get of the key as it was before the call then returns the value and a well-formed
  -- store that holds the same under every key.
  pub kv_put-kv_get :
      (s : KvStore V) (own : ℕ → ℕ)
      → IsStore s own
      → s.root_node < length s.nodes
      → (key : List ℕ) (v : V) → 0 < length key
      → IsClear s s.root_node key
      → (s' : KvStore V) × (left : List ℕ) × (own' : ℕ → ℕ) × (s'' : KvStore V) × (kv_put s key v
          ≡ some (s', left))
        × IsLeft key left
        × IsStore s' own'
        × (s'.root_node < length s'.nodes)
        × (kv_get s' key ≡ some (some (value v), s''))
        × IsStore s'' own'
        × ((f n : ℕ) (k : List ℕ) → stored f s'' n k ≡ stored f s' n k)
  unfolding kv_put kv_get
  kv_put-kv_get s own ok rooted key v low clear =
      let (c, at, _) = get_elem?-lt s.nodes s.root_node rooted in
      let put =
        put_loop_lem (length key + 2) s own ok s.root_node c at key (some (value v)) low
          (omega arith) clear in
      let s' = put.result in
      let got =
        get_value_of_partial_key_lem (length key + 1) s' put.owners put.good s'.root_node key
          (some (value v))
          (ap (λ n. stored (length key + 1) s' n key) put.keeps.root
            ∙ put.holds (length key + 1) (omega arith)) in
      (
        s',
        put.left,
        put.owners,
        got.result,
        put.runs,
        put.is_left,
        put.good,
        omega (arith, put.keeps.root, put.keeps.more_nodes),
        got.runs,
        got.good,
        got.same,
      )

  stored_new : (f : ℕ) (key : List ℕ) → 0 < f → stored f (kv_new_store {V = V}) 0 key ≡ some none
  unfolding kv_new_store stored
  stored_new zero key low = absurd (omega arith)
  stored_new (suc f) key low =
      let (k, e, _) = key_slice_lem key in rw (e, ◌>>=◌, (new_cursor-view {V = ℕ}).1 k) refl

  -- A new store is well formed, and `KV_Get` finds no key in it.
  pub kv_new_store-IsStore :
      (own : ℕ → ℕ)
      → IsStore (kv_new_store {V = V}) own
        × ((key : List ℕ)
            → (s' : KvStore V) × (kv_get kv_new_store key ≡ some (none, s')) × IsStore s' own)
  unfolding kv_new_store kv_get stored
  kv_new_store-IsStore own =
      let (good, empty) = new_cursor-view {V = ℕ} in
      let ok : IsStore (kv_new_store {V = V}) own = λ n c at.
        let is : (new_cursor (new_relation {V = ℕ})) ≡ c = only_one n _ c at in
        subst (λ c. IsNode (kv_new_store {V = V}) own n c) is
          (record {
            well_formed = good;
            borders = λ slice b h. let never : none ≡ some b = sym (empty slice) ∙ h in cc;
          }) in
      (
        ok,
        λ key.
            let got =
              get_value_of_partial_key_lem (length key + 1) kv_new_store own ok 0 key none
                (stored_new (length key + 1) key (omega arith)) in
            (got.result, got.runs, got.good),
      )

  -- KV_Put of the empty key fails an assert or an access in every store.
  pub kv_put_empty : (s : KvStore V) (v : V) → kv_put s [] v ≡ none
  unfolding kv_put put_loop put_turn put_one put_tail set_value set_prefix_value get_prefix_value
  kv_put_empty s v =
      let (k, e, _) = key_slice_lem [] in
      elim (Option-cases (get_elem? s.nodes s.root_node)) [
        | inl gone ↦ rw (e, ◌>>=◌, gone) refl
        | inr (c, at) ↦ elim (Option-cases (find_record c k)) [
          | inl stuck ↦ rw (e, ◌>>=◌, at, stuck) refl
          | inr ((none, c'), run) ↦ rw (e, ◌>>=◌, at, run) refl
          | inr ((some b, c'), run) ↦ elim (Option-cases (get_elem? s.borders b)) [
            | inl gone ↦ rw (e, ◌>>=◌, at, run, gone) refl
            | inr (bn, there) ↦ rw (e, ◌>>=◌, at, run, there) refl
          ]
        ]
      ]
