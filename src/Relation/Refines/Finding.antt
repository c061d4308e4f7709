-- ===== src/Relation/Refines/Finding.antt =====
-- RL_MoveToKey refines the search in the sorted list of records, from any position.
use deep_spec_db.Base.{
  ℕ, ◌<◌, ◌≡◌, true, some, arith, length, ltb, Bool-cases, ltb→lt, ltb-le, inl, inr, ◌>>=◌,
}
use deep_spec_db.Relation.{Ancestors, Relation}
use deep_spec_db.Relation.Search.{find_record_index, move_to_key}
use deep_spec_db.Relation.Contents.{contents}
use deep_spec_db.Relation.Order.{Ascends}
use deep_spec_db.Relation.Api.{cursor_go_to_key, rl_move_to_key}
use deep_spec_db.Relation.Split.Laws.{find_record_index-le}
use deep_spec_db.Relation.Put.Result.{to_list-Ascends}
use deep_spec_db.Relation.Position.GoTo.{go_to_key-move_to_key}
use deep_spec_db.Relation.Position.Find.{held, held-get_elem?, held_past, move_to_key-IsAt}
use deep_spec_db.Relation.Refines.{IsRelation, At, cursor, key_limit}
use deep_spec_db.Relation.Refines.Moving.{cursor_is_valid_lem, get_entry-At}

module _ {ℓ} {V : Type ℓ} (r : Relation V) (ok : IsRelation r) (p : Ancestors r.depth) (k : ℕ)
    (at : At r p k) (key : ℕ) (fits : key < key_limit) where
  -- `goToKey` stops before the first record whose key is at least the search key, where the descent
  -- from the root stops.
  pub cursor_go_to_key-At :
      (p' : Ancestors r.depth) × (cursor_go_to_key (cursor r p) key ≡ some (cursor r p'))
      × At r p' (find_record_index key (contents r))
      × (move_to_key V r.depth r.root key ≡ some p')
  unfolding cursor_go_to_key contents
  cursor_go_to_key-At =
      let same =
        go_to_key-move_to_key V key r.depth r.root p k 0 key_limit 0 ok.ordered ok.sized at
          (omega arith) fits in
      let (p', down, at') =
        move_to_key-IsAt V r.depth r.root 0 true key_limit true key ok.ordered (omega arith) fits in
      (p', rw (same, down), at', down)

  pub contents-Ascends : Ascends 0 key_limit (contents r)
  unfolding contents
  contents-Ascends = to_list-Ascends V r.depth r.root 0 true key_limit true ok.ordered

  -- From any cursor of a well-formed relation and for a key below 2^64, RL_MoveToKey returns
  -- whether some record has the key, and leaves the cursor before the first record whose key is at
  -- least the search key.
  pub rl_move_to_key-At :
      (p' : Ancestors r.depth) × (rl_move_to_key (cursor r p) key
        ≡ some (held key (contents r), cursor r p'))
      × At r p' (find_record_index key (contents r))
  unfolding rl_move_to_key
  rl_move_to_key-At =
      let (p', gone, at', _) = cursor_go_to_key-At in
      let place = find_record_index key (contents r) in
      let valid = cursor_is_valid_lem r ok p' place at' in
      elim (Bool-cases (ltb place (length (contents r)))) [
        | inl more ↦
            let (e, p'', at_e, got, _, at'') = get_entry-At r ok p' place at' (ltb→lt _ _ more) in
            let found = held-get_elem? key 0 key_limit (contents r) e contents-Ascends at_e in
            (p'', rw (gone, ◌>>=◌, valid, more, got, ◌>>=◌, found), at'')
        | inr past ↦
            let end : place ≡ length (contents r) = omega (
              arith,
              ltb-le place (length (contents r)) past,
              find_record_index-le key (contents r),
            ) in
            let missing = held_past key 0 key_limit (contents r) contents-Ascends end in
            (p', rw (gone, ◌>>=◌, valid, past, missing), at')
      ]
