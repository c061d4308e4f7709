-- ===== src/Relation/Refines/Moving.antt =====
-- RL_NewRelation, RL_MoveToFirst, RL_CursorIsValid, RL_GetKey, RL_GetRecord and RL_MoveToNext refine
-- a position in the sorted list of records.
use deep_spec_db.Base.{
  ℕ, ◌+◌, ◌≤◌, ◌<◌, ◌≡◌, refl, ap, ◌∙◌, Bool, true, false, none, some, [], arith, length, get_elem?,
  ltb, ◌==◌, if◌then◌else◌, Bool-cases, lt→ltb, ltb-eq-false, inl, inr, ◌>>=◌, ==-ne, get_elem?-lt,
  ltb→lt, ltb-le, ==-eq-false,
}
use deep_spec_db.Relation.{Node, Ancestors, Relation, create_new_node, num_keys}
use deep_spec_db.Relation.Moves.{leaf_at, move_to_next, move_to_first}
use deep_spec_db.Relation.Contents.{contents, to_list}
use deep_spec_db.Relation.Api.{
  new_relation, new_cursor, cursor_is_valid, rl_move_to_first, cursor_next, settle, get_entry,
  get_key, get_record, rl_move_to_next,
}
use deep_spec_db.Relation.Position.{IsOn}
use deep_spec_db.Relation.Position.Leaf.{
  leaf_at-Valid, leaf_at-get_elem?, IsOn-not_end, not_end-IsOn,
}
use deep_spec_db.Relation.Position.Next.{
  Next, move_to_first-IsAt, move_to_next-Next, move_to_next_end,
}
use deep_spec_db.Relation.Refines.{IsRelation, At, cursor}

-- A new relation is well formed and holds no record.
pub new_relation-IsRelation {ℓ} :
    {V : Type ℓ} → IsRelation (new_relation {V = V}) × (contents (new_relation {V = V}) ≡ [])
unfolding new_relation create_new_node contents to_list
new_relation-IsRelation =
    (record { ordered = (omega arith, refl, refl); sized = omega arith; counted = refl }, refl)

module _ {ℓ} {V : Type ℓ} (r : Relation V) (ok : IsRelation r) where
  -- For any cursor of a well-formed relation, RL_MoveToFirst puts it before every record and
  -- returns whether there is one.
  pub rl_move_to_first-At :
      (q : Ancestors r.depth)
      → (p : Ancestors r.depth) × (rl_move_to_first (cursor r q)
          ≡ some (ltb 0 (length (contents r)), cursor r p))
        × At r p 0
  unfolding rl_move_to_first new_cursor cursor_is_valid contents
  rl_move_to_first-At q =
      let p = move_to_first V r.depth r.root in
      let at = move_to_first-IsAt V r.depth r.root in
      let (leaf, i, found, _, valid) =
        leaf_at-Valid V r.depth r.root p 0 0 0 true _ true ok.ordered ok.sized at in
      (p, rw (found, ◌>>=◌, valid), at)

  module _ (p : Ancestors r.depth) (k : ℕ) (at : At r p k) where
    -- For a cursor of a well-formed relation, RL_CursorIsValid returns whether there are more
    -- records than the ones before the cursor.
    pub cursor_is_valid_lem : cursor_is_valid (cursor r p) ≡ some (ltb k (length (contents r)))
    unfolding cursor_is_valid contents
    cursor_is_valid_lem =
        let (leaf, i, found, _, valid) =
          leaf_at-Valid V r.depth r.root p k 0 0 true _ true ok.ordered ok.sized at in
        rw (found, ◌>>=◌, valid)

    Next-step :
        k < length (contents r)
        → (leaf : Node V 0) × (x : ℕ) × (leaf_at V r.depth r.root p ≡ some (leaf, x))
          × (p' : Ancestors r.depth) × (move_to_next V r.depth r.root p ≡ some p')
          × Next V r.depth r.root k (x == num_keys leaf) p'
    unfolding contents
    Next-step lt = move_to_next-Next V r.depth r.root p k 0 0 _ true ok.ordered ok.sized at lt

    -- Before a record, the cursor settles on the entry of the record.
    pub settle-IsOn :
        k < length (contents r)
        → (p' : Ancestors r.depth) × (settle (cursor r p) ≡ some (cursor r p'))
          × At r p' k
          × IsOn V r.depth r.root p'
    unfolding settle cursor_next
    settle-IsOn lt =
        let (leaf, x, found, p', run, next) = Next-step lt in
        elim (Bool-cases (x == num_keys leaf)) [
          | inl end ↦
              let landed : Next V r.depth r.root k true p' = rw end at next in
              (p', rw (found, ◌>>=◌, end, run), landed.0, landed.1)
          | inr on ↦ (
            p,
            rw (found, ◌>>=◌, on),
            at,
            not_end-IsOn V r.depth r.root p k at leaf x found (==-ne x (num_keys leaf) on),
          )
        ]

    -- From a cursor of a well-formed relation with k records before it and more to come, RL_GetKey
    -- and RL_GetRecord return the key and the record of record number k, and the cursor has k
    -- records before it again.
    pub get_entry-At :
        k < length (contents r)
        → (e : ℕ × V) × (p' : Ancestors r.depth) × (get_elem? (contents r) k ≡ some e)
          × (get_key (cursor r p) ≡ some (e.0, cursor r p'))
          × (get_record (cursor r p) ≡ some (e.1, cursor r p'))
          × At r p' k
    unfolding get_key get_record get_entry
    get_entry-At lt =
        let (p', settled, at', on) = settle-IsOn lt in
        let (leaf, x, found, here) = leaf_at-get_elem? V r.depth r.root p' k at' on in
        let (e, at_e, _) = get_elem?-lt (contents r) k lt in
        let entry : get_elem? leaf.entries x ≡ some e = unfold contents in here ∙ at_e in
        let valid =
          cursor_is_valid_lem ∙ ap (λ (b : Bool). some b) (lt→ltb k (length (contents r)) lt) in
        (
          e,
          p',
          at_e,
          rw (valid, ◌>>=◌, settled, ◌>>=◌, found, ◌>>=◌, entry),
          rw (valid, ◌>>=◌, settled, ◌>>=◌, found, ◌>>=◌, entry),
          at',
        )

    -- After the last record both fail their `assert`.
    pub get_entry_end :
        length (contents r) ≤ k → (get_key (cursor r p) ≡ none) × (get_record (cursor r p) ≡ none)
    unfolding get_key get_record get_entry
    get_entry_end ge =
        let invalid =
          cursor_is_valid_lem
          ∙ ap (λ (b : Bool). some b) (ltb-eq-false k (length (contents r)) ge) in
        (rw invalid, rw invalid)

  step_on :
      (p : Ancestors r.depth) (k : ℕ) (at : At r p k)
      → IsOn V r.depth r.root p
      → k < length (contents r)
      → (p' : Ancestors r.depth) × (cursor_next (cursor r p) ≡ some (cursor r p')) × At r p' (k + 1)
  unfolding cursor_next
  step_on p k at on lt =
      let (leaf, x, found, p', run, next) = Next-step p k at lt in
      let inner = IsOn-not_end V r.depth r.root p on leaf x found in
      let stepped : Next V r.depth r.root k false p' =
        rw (==-eq-false x (num_keys leaf) (omega arith)) at next in
      (p', rw run, stepped.0)

  forward :
      (p : Ancestors r.depth) (k : ℕ) (at : At r p k)
      → k < length (contents r)
      → (p' : Ancestors r.depth) × (rl_move_to_next (cursor r p) ≡ some (cursor r p'))
        × At r p' (k + 1)
  unfolding rl_move_to_next
  forward p k at lt =
      let (mid, settled, at', on) = settle-IsOn p k at lt in
      let (p', run, next) = step_on mid k at' on lt in (p', rw (settled, ◌>>=◌) run, next)

  stay :
      (p : Ancestors r.depth) (k : ℕ) (at : At r p k)
      → length (contents r) ≤ k
      → rl_move_to_next (cursor r p) ≡ some (cursor r p)
  unfolding rl_move_to_next settle cursor_next contents
  stay p k at ge =
      let (leaf, x, found, _, valid) =
        leaf_at-Valid V r.depth r.root p k 0 0 true _ true ok.ordered ok.sized at in
      let still = move_to_next_end V r.depth r.root p k 0 0 _ true ok.ordered ok.sized at ge in
      elim (Bool-cases (x == num_keys leaf)) [
        | inl end ↦ rw (found, ◌>>=◌, end, still, ◌>>=◌, still)
        | inr on ↦ rw (found, ◌>>=◌, on, ◌>>=◌, still)
      ]

  -- From a cursor of a well-formed relation with k records before it, RL_MoveToNext returns a
  -- cursor with one more before it, or with k again if there are no more.
  pub rl_move_to_next-At :
      (p : Ancestors r.depth) (k : ℕ) (at : At r p k)
      → (p' : Ancestors r.depth) × (rl_move_to_next (cursor r p) ≡ some (cursor r p'))
        × At r p' (if ltb k (length (contents r)) then k + 1 else k)
  rl_move_to_next-At p k at = elim (Bool-cases (ltb k (length (contents r)))) [
    | inl more ↦ rw more (forward p k at (ltb→lt _ _ more))
    | inr none_left ↦ rw none_left (p, stay p k at (ltb-le _ _ none_left), at)
  ]
