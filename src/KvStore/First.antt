-- ===== src/KvStore/First.antt =====
-- src/btrees and tries (Adewale)/kvstore.c: the turns of `KV_Put` that change a border
-- node and end the loop.
use deep_spec_db.Base.{
  ℕ, suc, ◌^◌, ◌≤◌, ◌<◌, ◌≡◌, refl, sym, ap, subst, ◌∙◌, arith, true, false, Option, none, some,
  List, length, get_elem?, get_elem?-some, get_elem?-set_same, drop, le→leb, leb-eq-false, ◌>>=◌,
}
use mathlib.Core.Option.{some-injective}
use deep_spec_db.Relation.{Cursor}
use deep_spec_db.BorderNode.{get_prefix_value, set_suffix_value, get_link, has_suffix, test_suffix}
use deep_spec_db.KeySlice.{keyslice_length}
use deep_spec_db.KvStore.{
  KvStore, LinkOrValue, Border, count_key, set_node, set_border, key_slice, put_tail, put_rest,
  put_one, put_turn, put_loop,
}
use deep_spec_db.KvStore.Directory.{view, find_record, find_record-view}
use deep_spec_db.KvStore.Spec.{border_get, IsBorder, HasBorder, IsStore}
use deep_spec_db.KvStore.Borders.{border_get-set_prefix_value, border_get-set_suffix_value}
use deep_spec_db.KvStore.Steps.{
  Keeps, Keeps-trans, set_node-IsStore, set_border-IsStore, count_key-IsStore,
}
use deep_spec_db.KvStore.Second.{IsPut, stored_border}

module _ {ℓ} {V : Type ℓ} (s : KvStore V) (own : ℕ → ℕ) (ok : IsStore s own) (n : ℕ) (c : Cursor ℕ)
    (at : get_elem? s.nodes n ≡ some c) (key : List ℕ) (val : Option (LinkOrValue V)) (slice : ℕ)
    (e : key_slice key ≡ some slice) (fits : slice < 2 ^ 64) where
  -- The store after the search in the node's relation, with the border node of the slice.
  pub record Found (b : ℕ) : Type ℓ where
    pub moved : Cursor ℕ
    pub searched : find_record c slice ≡ some (some b, moved)
    pub good : IsStore (set_node s n moved) own
    pub keeps : Keeps n s own (set_node s n moved) own
    pub at_n : get_elem? (set_node s n moved).nodes n ≡ some moved
    pub same : (k : ℕ) → view moved k ≡ view c k
    pub hit : view moved slice ≡ some b
    pub border : HasBorder (set_node s n moved) own n b

  pub found : (b : ℕ) → view c slice ≡ some b → Found b
  found b h =
      let (c', run, ok', same) = find_record-view c slice (ok n c at).well_formed fits in
      let (good, keeps) = set_node-IsStore s own ok n c c' at ok' same in
      let at' = get_elem?-set_same s.nodes n c' (get_elem?-some s.nodes n c at) in
      let hit = same slice ∙ h in
      record {
        moved = c';
        searched = run ∙ ap (λ o. some (o, c')) h;
        good = good;
        keeps = keeps;
        at_n = at';
        same = same;
        hit = hit;
        border = (good n c' at').borders slice b hit;
      }

  -- A change of the border node that stores the value ends the loop.
  finish :
      (b : ℕ) (f : Found b) (s' : KvStore V) (bn' : Border V)
      → IsStore s' own
      → Keeps n (set_node s n f.moved) own s' own
      → s'.nodes ≡ (set_node s n f.moved).nodes
      → s'.borders ≡ s.borders
      → IsBorder n (length s'.nodes) bn'
      → ((below : ℕ → Option (Option (LinkOrValue V))) → border_get bn' key below ≡ some val)
      → 0 < length key
      → (fuel : ℕ) → put_loop fuel s n key val none ≡ some (set_border s' b bn', key)
      → IsPut fuel s own n key val none
  finish b f s' bn' ok' keeps' nodes borders good' got low fuel run =
      let inside : b < length s'.borders =
        omega (arith, get_elem?-some s.borders b f.border.bn f.border.at, ap length borders) in
      let (ok'', keeps'') = set_border-IsStore s' own ok' n b bn' f.border.owner inside good' in
      record {
        result = set_border s' b bn';
        owners = own;
        left = key;
        is_left = (low, 0, refl);
        runs = run;
        good = ok'';
        keeps =
            Keeps-trans n n s own (set_node s n f.moved) own (set_border s' b bn') own (omega arith)
              f.keeps
              (Keeps-trans n n (set_node s n f.moved) own s' own (set_border s' b bn') own
                (omega arith) keeps' keeps'');
        holds = λ g lt.
            stored_border g (set_border s' b bn') n key slice f.moved b bn' (some val) e
              (ap (λ l. get_elem? l n) nodes ∙ f.at_n) f.hit
              (get_elem?-set_same s'.borders b bn' inside) got lt;
      }

  Keeps-refl : (s' : KvStore V) → Keeps n s' own s' own
  Keeps-refl s' = record {
    nodes = λ m lt. refl;
    more_nodes = omega arith;
    borders = λ b lt below. refl;
    more_borders = omega arith;
    owners = λ b lt. refl;
    root = refl;
  }

  -- Case 1.1.0.
  pub found_tail :
      (b : ℕ)
      → view c slice ≡ some b
      → 0 < length key
      → length key ≤ keyslice_length
      → (fuel : ℕ) → IsPut (suc fuel) s own n key val none
  unfolding put_loop put_turn put_one put_tail
  found_tail b h low high fuel =
      let f = found b h in
      let s' = set_node s n f.moved in
      let (old, bn', read, run, good, got) =
        border_get-set_prefix_value n (length s'.nodes) f.border.bn key val f.border.good low
          high in
      let (ok_c, keeps_c) = count_key-IsStore s' own f.good in
      elim old
          as (λ old.
            get_prefix_value f.border.bn (length key) ≡ some old
            → IsPut (suc fuel) s own n key val none) [
              | none ↦ λ read.
                  finish b f (count_key s') bn' ok_c (keeps_c n) refl refl good got low (suc fuel) (
                    rw
                      (
                        e,
                        ◌>>=◌,
                        at,
                        f.searched,
                        f.border.at,
                        le→leb (length key) keyslice_length high,
                        read,
                        run,
                      )
                      refl)
              | some v ↦ λ read.
                  finish b f s' bn' f.good (Keeps-refl s') refl refl good got low (suc fuel) (
                    rw
                      (
                        e,
                        ◌>>=◌,
                        at,
                        f.searched,
                        f.border.at,
                        le→leb (length key) keyslice_length high,
                        read,
                        run,
                      )
                      refl)
            ]
        read

  module _ (b : ℕ) (h : view c slice ≡ some b) (long : keyslice_length < length key) where
    -- Case 1.1.1.0: the node's suffix is the key's.
    pub found_same :
        (bn : Border V)
        → get_elem? s.borders b ≡ some bn
        → has_suffix bn ≡ true
        → test_suffix bn key ≡ true
        → (fuel : ℕ) → IsPut (suc fuel) s own n key val none
    unfolding put_loop put_turn put_one put_rest
    found_same bn there suffix same fuel =
        let f = found b h in
        let s' = set_node s n f.moved in
        let is : f.border.bn ≡ bn = some-injective f.border.bn bn (sym f.border.at ∙ there) in
        let (good, _, _, got) =
          border_get-set_suffix_value n (length s'.nodes) bn key val
            (subst (λ x. IsBorder n (length s'.nodes) x) is f.border.good) long in
        finish b f s' (set_suffix_value bn (drop keyslice_length key) val) f.good (Keeps-refl s')
          refl refl good got (omega arith) (suc fuel)
          (rw
            (
              e,
              ◌>>=◌,
              at,
              f.searched,
              there,
              leb-eq-false (length key) keyslice_length long,
              suffix,
              same,
            )
            refl)

    -- Case 1.1.2: the node has nothing for longer keys.
    pub found_new :
        (bn : Border V)
        → get_elem? s.borders b ≡ some bn
        → has_suffix bn ≡ false
        → get_link bn ≡ none
        → (fuel : ℕ) → IsPut (suc fuel) s own n key val none
    unfolding put_loop put_turn put_one put_rest
    found_new bn there suffix none_linked fuel =
        let f = found b h in
        let s' = set_node s n f.moved in
        let is : f.border.bn ≡ bn = some-injective f.border.bn bn (sym f.border.at ∙ there) in
        let (good, _, _, got) =
          border_get-set_suffix_value n (length s'.nodes) bn key val
            (subst (λ x. IsBorder n (length s'.nodes) x) is f.border.good) long in
        let (ok_c, keeps_c) = count_key-IsStore s' own f.good in
        finish b f (count_key s') (set_suffix_value bn (drop keyslice_length key) val) ok_c
          (keeps_c n) refl refl good got (omega arith) (suc fuel)
          (rw
            (
              e,
              ◌>>=◌,
              at,
              f.searched,
              there,
              leb-eq-false (length key) keyslice_length long,
              suffix,
              none_linked,
            )
            refl)
    -- Case 1.0: the slice is new, and the next turn finds it.
