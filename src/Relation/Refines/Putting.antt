-- ===== src/Relation/Refines/Putting.antt =====
-- RL_PutRecord refines the insertion into the sorted list of records.
use deep_spec_db.Base.{
  ℕ, suc, ◌+◌, ◌<◌, ◌≡◌, refl, ap, sym, ◌∙◌, subst, true, some, List, [], ◌∷◌, ◌++◌, append-nil,
  arith, length, ltb, ◌==◌, Bool-cases, le→leb, lt→ltb, ltb→lt, inl, inr, ◌>>=◌,
}
use mathlib.Core.Option.{some-injective}
use deep_spec_db.Relation.{Node, Ancestors, Relation, create_new_node}
use deep_spec_db.Relation.Search.{find_record_index}
use deep_spec_db.Relation.Contents.{contents, to_list, flat, insert}
use deep_spec_db.Relation.Api.{put_root, put_record}
use deep_spec_db.Relation.Put.{Put, done, split, put_entry}
use deep_spec_db.Relation.Put.Result.{IsDone, IsSplit, IsPut}
use deep_spec_db.Relation.Put.Correct.{put_entry-IsPut}
use deep_spec_db.Relation.Position.Find.{move_to_key-IsAt}
use deep_spec_db.Relation.Refines.{IsRelation, At, cursor, key_limit}
use deep_spec_db.Relation.Refines.Moving.{rl_move_to_next-At}
use deep_spec_db.Relation.Refines.Finding.{cursor_go_to_key-At}

module _ {ℓ} {V : Type ℓ} (key : ℕ) (v : V) where
  -- The key's record stands where the search found its place.
  pub find-insert :
      (es : List (ℕ × V)) → find_record_index key (insert key v es) ≡ find_record_index key es
  unfolding find_record_index insert
  find-insert [] = rw (le→leb key key (omega arith))
  find-insert (e ∷ es) = elim (Bool-cases (ltb key e.0)) [
    | inl lt ↦
        rw (lt, le→leb key key (omega arith), le→leb key e.0 (omega (arith, ltb→lt key e.0 lt)))
    | inr ge ↦ elim (Bool-cases (key == e.0)) [
      | inl eq ↦ rw (ge, eq)
      | inr ne ↦ rw (ge, ne) (rw (find-insert es))
    ]
  ]

  pub find-insert_lt : (es : List (ℕ × V)) → find_record_index key es < length (insert key v es)
  unfolding find_record_index insert
  find-insert_lt [] = omega arith
  find-insert_lt (e ∷ es) = ground (arith, find-insert_lt es)

module _ {ℓ} {V : Type ℓ} (r : Relation V) (ok : IsRelation r) (key : ℕ) (v : V)
    (fits : key < key_limit) where
  put_root-done :
      (n : Node V r.depth) (p : Ancestors r.depth) (count : ℕ)
      → IsDone V r.depth r.root key v 0 true key_limit true 0 n p count
      → (r' : Relation V) × (p' : Ancestors r'.depth) × (put_root r key (done n p count)
          ≡ some (cursor r' p'))
        × IsRelation r'
        × (contents r' ≡ insert key v (contents r))
        × At r' p' (find_record_index key (contents r'))
  unfolding put_root contents
  put_root-done n p count h =
      let (p', down, at) =
        move_to_key-IsAt V r.depth n 0 true key_limit true key h.ordered (omega arith) fits in
      (
        record { depth = r.depth; root = n; num_records = r.num_records + count },
        p,
        refl,
        record {
          ordered = h.ordered;
          sized = h.sized;
          counted = omega (arith, ok.counted, h.counted);
        },
        h.records,
        subst
            (λ q.
              At (record { depth = r.depth; root = n; num_records = r.num_records + count }) q
                (find_record_index key (to_list V r.depth n)))
            (some-injective p' p (sym down ∙ h.cursor)) at,
      )

  put_root-split :
      (a : Node V r.depth) (k : ℕ) (b : Node V r.depth)
      → IsSplit V r.depth r.root key v 0 true key_limit true a k b
      → (r' : Relation V) × (p' : Ancestors r'.depth) × (put_root r key (split a k b)
          ≡ some (cursor r' p'))
        × IsRelation r'
        × (contents r' ≡ insert key v (contents r))
        × At r' p' (find_record_index key (contents r'))
  unfolding put_root contents to_list flat create_new_node
  put_root-split a k b h =
      let top : Node V (suc r.depth) = record {
        first = true;
        last = true;
        ptr0 = a;
        entries = (k, b) ∷ [];
      } in
      let joined : to_list V r.depth a ++ (to_list V r.depth b ++ [])
          ≡ to_list V r.depth a ++ to_list V r.depth b =
        rw append-nil in
      let (p', down, at) =
        move_to_key-IsAt V (suc r.depth) top 0 true key_limit true key
          (omega arith, (h.left, h.above, h.right)) (omega arith) fits in
      (
        record { depth = suc r.depth; root = top; num_records = r.num_records + 1 },
        p',
        rw down,
        record {
          ordered = (omega arith, (h.left, h.above, h.right));
          sized = (omega arith, omega arith, h.sized_left, (h.sized_right, tt));
          counted = omega (arith, ok.counted, h.counted, ap length joined);
        },
        joined ∙ h.records,
        at,
      )

  put_root-IsPut :
      (put : Put V r.depth)
      → IsPut V r.depth r.root key v 0 true key_limit true 0 put
      → (r' : Relation V) × (p' : Ancestors r'.depth) × (put_root r key put ≡ some (cursor r' p'))
        × IsRelation r'
        × (contents r' ≡ insert key v (contents r))
        × At r' p' (find_record_index key (contents r'))
  put_root-IsPut (done n p count) h = put_root-done n p count h
  put_root-IsPut (split a k b) h = put_root-split a k b h

  -- From any cursor of a well-formed relation and for a key below 2^64, RL_PutRecord returns; the
  -- relation is well formed again and holds the old records with the record put under the key, and
  -- the cursor stands right after the key.
  pub put_record-At :
      (p : Ancestors r.depth) (k : ℕ)
      → At r p k
      → (r' : Relation V) × (p' : Ancestors r'.depth) × (put_record (cursor r p) key v
          ≡ some (cursor r' p'))
        × IsRelation r'
        × (contents r' ≡ insert key v (contents r))
        × At r' p' (find_record_index key (contents r) + 1)
  unfolding put_record
  put_record-At p k at =
      let (q, gone, _, down) = cursor_go_to_key-At r ok p k at key fits in
      let (q', put, down', run, good) =
        put_entry-IsPut V r.depth r.root key v 0 true key_limit true 0 ok.ordered ok.sized
          (omega arith) fits in
      let same : q' ≡ q = some-injective q' q (sym down' ∙ down) in
      let run_q : put_entry V r.depth r.root q key v ≡ some put =
        subst (λ x. put_entry V r.depth r.root x key v ≡ some put) same run in
      let (r', p', rooted, ok', holds, at') = put_root-IsPut put good in
      let (p'', moved, at'') = rl_move_to_next-At r' ok' p' _ at' in
      let place : find_record_index key (contents r') ≡ find_record_index key (contents r) =
        ap (find_record_index key) holds ∙ find-insert key v (contents r) in
      let inside : find_record_index key (contents r') < length (contents r') =
        rw holds (rw (find-insert key v (contents r)) (find-insert_lt key v (contents r))) in
      (
        r',
        p'',
        rw (gone, ◌>>=◌, run_q, ◌>>=◌, rooted, ◌>>=◌) moved,
        ok',
        holds,
        rw (lt→ltb _ _ inside, place) at at'',
      )
