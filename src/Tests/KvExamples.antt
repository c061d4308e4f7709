-- ===== src/Tests/KvExamples.antt =====
-- The theorems about the key-value store on concrete inputs.
use mathlib.Core.Option.{some-injective}
use deep_spec_db.KvStore.Second.{Clash, ends, goes_on, IsLeft}
use deep_spec_db.KvStore.Paths.{in_node, in_layer, IsClear}
use deep_spec_db.BorderNode.{get_link}
use deep_spec_db.Base.{
  ℕ, zero, suc, true, drop, sym, ap, ◌∙◌, subst, ◌≢◌, ◌<◌, ◌≡◌, refl, arith, some, none, List, [],
  ◌∷◌, length, replicate, inl,
}
use deep_spec_db.KvStore.{
  KvStore, Border, key_slice, value, link, completed, put_two, kv_new_store, kv_put, kv_get,
}
use deep_spec_db.KvStore.Spec.{IsStore, stored}
use deep_spec_db.Relation.Api.{new_relation, new_cursor}
use deep_spec_db.KvStore.Clashes.{put_two_lem}
use deep_spec_db.KvStore.Laws.{kv_put-kv_get, kv_new_store-IsStore, kv_put_empty}

abbrev long_key : List ℕ
long_key = 1 ∷ 2 ∷ 3 ∷ 4 ∷ 5 ∷ 6 ∷ 7 ∷ 8 ∷ 9 ∷ 10 ∷ []

abbrev new_store : KvStore ℕ
new_store = kv_new_store

new_store-IsStore : IsStore new_store (λ b. 0)
new_store-IsStore = (kv_new_store-IsStore (λ b. 0)).0

-- The store with one long key: a node with one slice, whose border node has the rest of the key.
abbrev one_border : Border ℕ
one_border = record {
  prefix_links = replicate 8 none;
  suffix_link = some (value 7);
  key_suffix = some (9 ∷ 10 ∷ []);
}

abbrev one_key : KvStore ℕ
one_key = record {
  nodes =
      record {
        relation = record {
          depth = 0;
          root = record {
            first = true;
            last = true;
            ptr0 = tt;
            entries = (72623859790382856, 0) ∷ [];
          };
          num_records = 1;
        };
        idx = 0;
      }
      ∷ [];
  borders = one_border ∷ [];
  root_node = 0;
  num_keys = 1;
}

one_key-runs : kv_put new_store long_key 7 ≡ some (one_key, long_key)
unfolding kv_new_store kv_put deep_spec_db.KvStore.put_loop deep_spec_db.KvStore.put_turn
    deep_spec_db.KvStore.put_one key_slice deep_spec_db.KeySlice.get_next_key_slice
    deep_spec_db.KeySlice.util_min deep_spec_db.KvStore.Directory.find_record
    deep_spec_db.Relation.Api.rl_move_to_key deep_spec_db.Relation.Api.cursor_go_to_key
    deep_spec_db.Relation.Search.go_to_key new_cursor new_relation
    deep_spec_db.Relation.Search.move_to_key deep_spec_db.Relation.Api.cursor_is_valid
    deep_spec_db.Relation.Moves.leaf_at deep_spec_db.Relation.is_valid
    deep_spec_db.Relation.Search.find_record_index deep_spec_db.BorderNode.Strings.chars_equal
    deep_spec_db.BorderNode.Strings.str_equal deep_spec_db.BorderNode.get_link
    deep_spec_db.BorderNode.has_suffix deep_spec_db.BorderNode.new_border_node
    deep_spec_db.BorderNode.set_suffix_value deep_spec_db.BorderNode.set_value
    deep_spec_db.BorderNode.test_suffix deep_spec_db.KeySlice.pad deep_spec_db.KeySlice.shift_chars
    deep_spec_db.KeySlice.shift_in deep_spec_db.KvStore.put_border deep_spec_db.KvStore.put_rest
    deep_spec_db.Relation.Api.get_entry deep_spec_db.Relation.Api.get_key
    deep_spec_db.Relation.Api.get_record deep_spec_db.Relation.Api.put_record
    deep_spec_db.Relation.Api.put_root deep_spec_db.Relation.Api.settle
    deep_spec_db.Relation.Moves.move_to_first deep_spec_db.Relation.Put.holds_key
    deep_spec_db.Relation.Put.put_entry deep_spec_db.Relation.Put.put_leaf
    deep_spec_db.Relation.Search.ascend deep_spec_db.Relation.Search.find_child_index
    deep_spec_db.Relation.Split.insert_entry deep_spec_db.Relation.create_new_node
    deep_spec_db.Base.Arrays.shift deep_spec_db.Base.Arrays.write
    deep_spec_db.Relation.Api.rl_move_to_next deep_spec_db.Relation.Api.cursor_next
    deep_spec_db.Relation.Moves.move_to_next deep_spec_db.Relation.Moves.advance
one_key-runs = refl

one_key-IsStore : (own : ℕ → ℕ) × IsStore one_key own
unfolding kv_new_store
one_key-IsStore =
    let (s', left, own', _, run, _, good, _, _, _, _) =
      kv_put-kv_get new_store (λ b. 0) new_store-IsStore (omega arith) long_key 7 (omega arith)
        (λ b rest bn suffix leads at. cc) in
    let same = some-injective (s', left) (one_key, long_key) (sym run ∙ one_key-runs) in
    (own', subst (λ s. IsStore s own') (ap (λ p. p.0) same) good)

-- A key with the same first slice and another end, so that both go to a new layer.
abbrev other_key : List ℕ
other_key = 1 ∷ 2 ∷ 3 ∷ 4 ∷ 5 ∷ 6 ∷ 7 ∷ 8 ∷ 11 ∷ 12 ∷ []

other_slices : (a : List ℕ) → Clash a (9 ∷ 10 ∷ []) → key_slice a ≡ key_slice (9 ∷ 10 ∷ [])
other_slices a (ends same short) = same
other_slices a (goes_on same rest) = same

slices_differ : key_slice (11 ∷ 12 ∷ []) ≢ key_slice (9 ∷ 10 ∷ [])
unfolding key_slice deep_spec_db.KeySlice.get_next_key_slice deep_spec_db.KeySlice.util_min
    deep_spec_db.KeySlice.pad deep_spec_db.KeySlice.shift_chars deep_spec_db.KeySlice.shift_in
slices_differ h = absurd (omega (arith, some-injective 796011234137735168 651333096108457984 h))

other_key-IsClear : IsClear one_key 0 other_key
unfolding deep_spec_db.BorderNode.get_link
other_key-IsClear (suc b) rest bn suffix leads at has differs clash = cc
other_key-IsClear zero rest bn suffix (in_node k c e at_n hit long is) at has differs clash =
    let same : one_border ≡ bn = some-injective one_border bn at in
    let suffix_is : (9 ∷ 10 ∷ []) ≡ suffix =
      some-injective (9 ∷ 10 ∷ []) suffix (ap (λ (x : Border ℕ). x.key_suffix) same ∙ has) in
    let clash' = subst (λ t. Clash rest t) (sym suffix_is) clash in
    slices_differ (other_slices (11 ∷ 12 ∷ []) (subst (λ r. Clash r (9 ∷ 10 ∷ [])) (sym is) clash'))
other_key-IsClear zero rest bn suffix
      (in_layer k c zero bn' next e at_n hit long there linked below) at has differs clash =
    let same : one_border ≡ bn' = some-injective one_border bn' there in
    let none_linked : none ≡ some (link next) = ap (λ (x : Border ℕ). get_link x) same ∙ linked in
    cc
other_key-IsClear zero rest bn suffix
      (in_layer k c (suc b') bn' next e at_n hit long there linked below) at has differs clash =
    cc

kv_put-kv_get_example :
    (s' : KvStore ℕ) × (left : List ℕ) × (own' : ℕ → ℕ) × (s'' : KvStore ℕ) × (kv_put one_key
        other_key 8
      ≡ some (s', left))
    × IsLeft other_key left
    × IsStore s' own'
    × (s'.root_node < length s'.nodes)
    × (kv_get s' other_key ≡ some (some (value 8), s''))
    × IsStore s'' own'
    × ((f n : ℕ) (k : List ℕ) → stored f s'' n k ≡ stored f s' n k)
kv_put-kv_get_example =
    kv_put-kv_get one_key one_key-IsStore.0 one_key-IsStore.1 (omega arith) other_key 8
      (omega arith) other_key-IsClear

kv_put_empty_example : kv_put new_store [] 7 ≡ none
kv_put_empty_example = kv_put_empty new_store 7

-- Eight characters, and ten that begin with them.
put_two_lem_example :
    (s' : KvStore ℕ) × (own' : ℕ → ℕ) × (put_two new_store 0
        (replicate 8 98)
        (some (value 7))
        (replicate 10 98)
        (some (value 3))
      ≡ some (completed s'))
    × IsStore s' own'
    × (stored 9 s' 0 (replicate 8 98) ≡ some (some (value 3)))
unfolding kv_new_store deep_spec_db.KvStore.key_slice deep_spec_db.KeySlice.util_min
put_two_lem_example =
    put_two_lem new_store (λ b. 0) new_store-IsStore 0 (new_cursor new_relation) refl
      (replicate 8 98) (some (value 7)) (replicate 10 98) (some (value 3)) (omega arith) refl
      (inl (omega arith)) 9 (omega arith)
