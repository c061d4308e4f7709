-- ===== src/KvStore/Layers.antt =====
-- src/btrees and tries (Adewale)/kvstore.c: the turns of `KV_Put` after which the loop goes on.
use deep_spec_db.Base.{
  ℕ, suc, ◌^◌, ◌<◌, ◌≡◌, refl, sym, subst, ◌∙◌, arith, true, false, Option, none, some, List,
  length, length-drop, length-set, get_elem?, get_elem?-some, get_elem?-set_same, drop,
  leb-eq-false, ==_self, ◌>>=◌,
}
use mathlib.Core.Option.{some-injective}
use deep_spec_db.Relation.{Cursor}
use deep_spec_db.BorderNode.{
  new_border_node, set_value, set_link, get_link, has_suffix, test_suffix, export_suffix_value,
}
use deep_spec_db.KeySlice.{keyslice_length}
use deep_spec_db.KvStore.{
  KvStore, LinkOrValue, link, Border, again, count_key, set_node, set_border, new_kv_node,
  key_slice, put_rest, put_one, put_turn, put_loop,
}
use deep_spec_db.KvStore.Directory.{view, find_record, find_record-view}
use deep_spec_db.KvStore.Spec.{IsBorder, IsStore}
use deep_spec_db.KvStore.Steps.{
  Keeps-trans, set_node-IsStore, set_border-IsStore, count_key-IsStore, new_kv_node-IsStore,
  put_border-IsStore,
}
use deep_spec_db.KvStore.Second.{Clash, IsPut, stored_link, two_keys_lem}
use deep_spec_db.KvStore.First.{Found, found}

module _ {ℓ} {V : Type ℓ} where
  -- Case 1.1.1.1: the turn exports the suffix and links to a new node.
  put_rest-differs :
      (s : KvStore V) (b : ℕ) (bn : Border V) (key : List ℕ) (val : Option (LinkOrValue V))
      (suffix : List ℕ)
      → bn.key_suffix ≡ some suffix
      → has_suffix bn ≡ true
      → test_suffix bn key ≡ false
      → put_rest s b bn key val
        ≡ some (
            again
              (set_border (new_kv_node s) b (record {
                prefix_links = bn.prefix_links;
                suffix_link = some (link (length s.nodes));
                key_suffix = none;
              }))
              (length s.nodes)
              (drop keyslice_length key)
              (some (suffix, bn.suffix_link)))
  unfolding put_rest export_suffix_value set_link
  put_rest-differs s b bn key val suffix is suffixed differs = rw (suffixed, differs, is) refl

  put_one_found :
      (s : KvStore V) (n : ℕ) (c : Cursor ℕ) (key : List ℕ) (val : Option (LinkOrValue V))
      (slice b : ℕ) (c' : Cursor ℕ) (bn : Border V)
      → key_slice key ≡ some slice
      → get_elem? s.nodes n ≡ some c
      → find_record c slice ≡ some (some b, c')
      → get_elem? s.borders b ≡ some bn
      → keyslice_length < length key
      → put_one s n key val ≡ put_rest (set_node s n c') b bn key val
  unfolding put_one
  put_one_found s n c key val slice b c' bn e at run there long =
      rw (e, ◌>>=◌, at, run, there, leb-eq-false (length key) keyslice_length long) refl

  put_loop_again :
      (fuel : ℕ) (s : KvStore V) (n : ℕ) (key : List ℕ) (val : Option (LinkOrValue V))
      (s' : KvStore V) (n' : ℕ) (key' : List ℕ) (snd : Option (List ℕ × Option (LinkOrValue V)))
      → put_one s n key val ≡ some (again s' n' key' snd)
      → put_loop (suc fuel) s n key val none ≡ put_loop fuel s' n' key' val snd
  unfolding put_loop put_turn
  put_loop_again fuel s n key val s' n' key' snd e = rw (e, ◌>>=◌) refl

module _ {ℓ} {V : Type ℓ} (s : KvStore V) (own : ℕ → ℕ) (ok : IsStore s own) (n : ℕ) (c : Cursor ℕ)
    (at : get_elem? s.nodes n ≡ some c) (key : List ℕ) (val : Option (LinkOrValue V)) (slice : ℕ)
    (e : key_slice key ≡ some slice) (fits : slice < 2 ^ 64) where
  pub fresh :
      (bn : Border V)
      → view c slice ≡ none
      → set_value new_border_node key val ≡ some bn
      → IsBorder n (length s.nodes) bn
      → (fuel : ℕ)
      → ((s' : KvStore V) (own' : ℕ → ℕ) (ok' : IsStore s' own') (c' : Cursor ℕ)
          → get_elem? s'.nodes n ≡ some c'
          → (b : ℕ) → view c' slice ≡ some b
          → get_elem? s'.borders b ≡ some bn
          → IsPut fuel s' own' n key val none)
      → IsPut (suc fuel) s own n key val none
  unfolding put_loop put_turn put_one
  fresh bn missing made good fuel next =
      let (c1, run1, ok_c1, same1) = find_record-view c slice (ok n c at).well_formed fits in
      let (ok1, keeps1) = set_node-IsStore s own ok n c c1 at ok_c1 same1 in
      let s1 = set_node s n c1 in
      let at1 = get_elem?-set_same s.nodes n c1 (get_elem?-some s.nodes n c at) in
      let (s2, own2, c2, run2, ok2, keeps2, more2, at2, after2, added2, mine2, _) =
        put_border-IsStore s1 own ok1 n slice c1 bn at1 fits
          (subst (λ k. IsBorder n k bn) (sym (length-set s.nodes n c1)) good) in
      let (ok3, keeps3) = count_key-IsStore s2 own2 ok2 in
      let put =
        next (count_key s2) own2 ok3 c2 at2 (length s.borders)
          (rw (==_self slice) at (after2 slice)) added2 in
      record {
        result = put.result;
        owners = put.owners;
        left = put.left;
        is_left = put.is_left;
        runs = rw (e, ◌>>=◌, at, run1, missing, made, ◌>>=◌, run2, ◌>>=◌) put.runs;
        good = put.good;
        keeps = Keeps-trans n n s own s1 own put.result put.owners (omega arith) keeps1 (
            Keeps-trans n n s1 own s2 own2 put.result put.owners (omega arith) keeps2 (
              Keeps-trans n n s2 own2 (count_key s2) own2 put.result put.owners (omega arith)
                (keeps3 n) put.keeps));
        holds = put.holds;
      }

  module _ (b : ℕ) (h : view c slice ≡ some b) (long : keyslice_length < length key) (bn : Border V)
      (there : get_elem? s.borders b ≡ some bn) where
    -- Case 1.1.1: the link leads to the next layer, where the rest of the key is put.
    pub follow :
        (next : ℕ)
        → has_suffix bn ≡ false
        → get_link bn ≡ some (link next)
        → n < next
        → (fuel : ℕ)
        → ((f : Found s own ok n c at key val slice e fits b)
            → IsPut fuel (set_node s n f.moved) own next (drop keyslice_length key) val none)
        → IsPut (suc fuel) s own n key val none
    unfolding put_loop put_turn put_one put_rest
    follow next suffix linked after fuel below =
        let f = found s own ok n c at key val slice e fits b h in
        let s' = set_node s n f.moved in
        let put = below f in
        let inside = get_elem?-some s.borders b bn there in
        record {
          result = put.result;
          owners = put.owners;
          left = put.left;
          is_left = (put.is_left.0, suc put.is_left.1, put.is_left.2);
          runs =
              rw
                (
                  e,
                  ◌>>=◌,
                  at,
                  f.searched,
                  there,
                  leb-eq-false (length key) keyslice_length long,
                  suffix,
                  linked,
                )
                put.runs;
          good = put.good;
          keeps =
              Keeps-trans n next s own s' own put.result put.owners (omega arith) f.keeps put.keeps;
          holds = λ g lt.
              stored_link g put.result n key slice f.moved b bn next (some val) e
                (put.keeps.nodes n after ∙ f.at_n) f.hit
                (put.keeps.borders b inside (omega (arith, f.border.owner)) ∙ there) long suffix
                linked put.holds lt;
        }

    -- Case 1.1.1.1: the node's suffix moves to a new layer, together with the rest of the key.
    pub push_down :
        (suffix : List ℕ)
        → bn.key_suffix ≡ some suffix
        → has_suffix bn ≡ true
        → test_suffix bn key ≡ false
        → ¬ Clash (drop keyslice_length key) suffix
        → (fuel : ℕ) → length key < suc fuel
        → IsPut (suc fuel) s own n key val none
    unfolding has_suffix get_link
    push_down suffix is_suffix suffixed differs apart fuel enough =
        let f = found s own ok n c at key val slice e fits b h in
        let s0 = set_node s n f.moved in
        let same : f.border.bn ≡ bn = some-injective f.border.bn bn (sym f.border.at ∙ there) in
        let good_bn : IsBorder n (length s0.nodes) bn =
          subst (λ x. IsBorder n (length s0.nodes) x) same f.border.good in
        let next = length s0.nodes in
        let after : n < next = get_elem?-some s0.nodes n f.moved f.at_n in
        let inside = get_elem?-some s.borders b bn there in
        let (ok1, keeps1, at_next, longer) = new_kv_node-IsStore s0 own f.good in
        let bn' : Border V = record {
          prefix_links = bn.prefix_links;
          suffix_link = some (link next);
          key_suffix = none;
        } in
        let good' : IsBorder n (length (new_kv_node s0).nodes) bn' = record {
          size = good_bn.size;
          linked =
              λ p l. (next, some-injective p (link next) (sym l), after, omega (arith, longer));
          filled = λ k l. cc;
        } in
        let (ok2, keeps2) =
          set_border-IsStore (new_kv_node s0) own ok1 n b bn' f.border.owner inside good' in
        let s2 = set_border (new_kv_node s0) b bn' in
        let (put, _) =
          two_keys_lem fuel s2 own ok2 next _ at_next (drop keyslice_length key) val suffix
            bn.suffix_link (omega (arith, length-drop keyslice_length key))
            (good_bn.filled suffix is_suffix) (omega (arith, length-drop keyslice_length key))
            apart in
        record {
          result = put.result;
          owners = put.owners;
          left = put.left;
          is_left = (put.is_left.0, suc put.is_left.1, put.is_left.2);
          runs =
              put_loop_again fuel s n key val s2 next (drop keyslice_length key)
                (some (suffix, bn.suffix_link))
                (put_one_found s n c key val slice b f.moved bn e at f.searched there long
                  ∙ put_rest-differs s0 b bn key val suffix is_suffix suffixed differs)
              ∙ put.runs;
          good = put.good;
          keeps = Keeps-trans n n s own s0 own put.result put.owners (omega arith) f.keeps (
              Keeps-trans n n s0 own (new_kv_node s0) own put.result put.owners (omega arith)
                (keeps1 n (omega arith))
                (Keeps-trans n next (new_kv_node s0) own s2 own put.result put.owners (omega arith)
                  keeps2 put.keeps));
          holds = λ g lt.
              stored_link g put.result n key slice f.moved b bn' next (some val) e
                (put.keeps.nodes n after ∙ ((keeps1 next (omega arith)).nodes n after ∙ f.at_n))
                f.hit
                (put.keeps.borders b (omega (arith, length-set s.borders b bn', inside))
                    (omega (arith, f.border.owner))
                  ∙ get_elem?-set_same s.borders b bn' inside)
                long refl refl put.holds lt;
        }
