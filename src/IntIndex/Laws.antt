-- ===== src/IntIndex/Laws.antt =====
-- src/btrees and tries (Adewale)/index_int.c: what the index returns.
use deep_spec_db.Base.{
  ℕ, zero, suc, ◌+◌, ◌≤◌, ◌<◌, true, Option, some, length, ltb, if◌then◌else◌, ◌>>=◌, ◌≡◌, refl,
  subst, arith, Bool-cases, inl, inr, ltb→lt, ltb-le, lt→ltb, ltb-eq-false,
}
use deep_spec_db.Relation.{Ancestors, Relation, Cursor}
use deep_spec_db.Relation.Contents.{contents}
use deep_spec_db.Relation.Api.{move_to_next_valid}
use deep_spec_db.Relation.Refines.{IsRelation, At, cursor, key_limit}
use deep_spec_db.Relation.Refines.Moving.{rl_move_to_next-At, cursor_is_valid_lem}
use deep_spec_db.Relation.Refines.Lookup.{put_record-get_record}
use deep_spec_db.IntIndex.{iput, imove_cursor, iget_value, move_to_end}

-- From any cursor of a well-formed index and for a key below 2^64, Iput of a value that is not
-- NULL returns, Imove_cursor to the key then gives a cursor that is not NULL, and Iget_value there
-- returns True and the value, whatever its variable held before.
pub iput-iget_value {ℓ} :
    {V : Type ℓ} (r : Relation (Option V))
    → IsRelation r
    → (p : Ancestors r.depth) (k : ℕ) → At r p k
    → (key : ℕ) (v : V) (held : Option V) → key < key_limit
    → (c : Cursor (Option V)) × (found : Cursor (Option V)) × (read : Cursor (Option V)) × (iput key
          (some v)
          (cursor r p)
        ≡ some c)
      × (imove_cursor key (some c) ≡ some (some found))
      × (iget_value (some found) held ≡ some (true, some v, some read))
unfolding iput imove_cursor iget_value
iput-iget_value r ok p k at key v held fits =
    let (c, found, read, run, moved, got) = put_record-get_record r ok key (some v) fits p k at in
    (c, found, read, run, rw (moved, ◌>>=◌) refl, rw (got, ◌>>=◌) refl)

module _ {ℓ} {V : Type ℓ} (r : Relation V) (ok : IsRelation r) where
  -- A move to the next record, and whether there is one.
  pub move_to_next_valid-At :
      (p : Ancestors r.depth) (k : ℕ)
      → At r p k
      → (k' : ℕ) → (if ltb k (length (contents r)) then k + 1 else k) ≡ k'
      → (p' : Ancestors r.depth) × (move_to_next_valid (cursor r p)
          ≡ some (ltb k' (length (contents r)), cursor r p'))
        × At r p' k'
  unfolding move_to_next_valid
  move_to_next_valid-At p k at k' e =
      let (p', run, at') = rl_move_to_next-At r ok p k at in
      let at_k' : At r p' k' = subst (λ j. At r p' j) e at' in
      (p', rw (run, ◌>>=◌, cursor_is_valid_lem r ok p' k' at_k', ◌>>=◌) refl, at_k')

module _ {ℓ} {V : Type ℓ} (r : Relation (Option V)) (ok : IsRelation r) where
  -- A move that leads past the last record ends the loop.
  move_to_end_stop :
      (n : ℕ) (p : Ancestors r.depth) (k : ℕ)
      → At r p k
      → (if ltb k (length (contents r)) then k + 1 else k) ≡ length (contents r)
      → (p' : Ancestors r.depth) × (move_to_end (suc n) (cursor r p) ≡ some (cursor r p'))
        × At r p' (length (contents r))
  unfolding move_to_end
  move_to_end_stop n p k at e =
      let (p', run, at') = move_to_next_valid-At r ok p k at (length (contents r)) e in
      (
        p',
        rw (run, ◌>>=◌, ltb-eq-false (length (contents r)) (length (contents r)) (omega arith))
            refl,
        at',
      )

  -- From a cursor of a well-formed index, the loop of Ilast_cursor returns when its fuel exceeds
  -- the number of records after the cursor, and leaves the cursor past the last record.
  pub move_to_end-At :
      (n : ℕ) (p : Ancestors r.depth) (k : ℕ)
      → At r p k
      → k ≤ length (contents r)
      → length (contents r) ≤ k + n
      → (p' : Ancestors r.depth) × (move_to_end (suc n) (cursor r p) ≡ some (cursor r p'))
        × At r p' (length (contents r))
  unfolding move_to_end
  move_to_end-At zero p k at low high =
      move_to_end_stop zero p k at
        (rw (ltb-eq-false k (length (contents r)) (omega arith)) (omega arith))
  move_to_end-At (suc n) p k at low high = elim (Bool-cases (ltb (k + 1) (length (contents r)))) [
    | inl more ↦
        let (p', run, at') =
          move_to_next_valid-At r ok p k at (k + 1)
            (rw (lt→ltb k (length (contents r)) (omega (arith, ltb→lt _ _ more))) refl) in
        let (p'', rest, at'') =
          move_to_end-At n p' (k + 1) at' (omega (arith, ltb→lt _ _ more)) (omega arith) in
        (p'', rw (run, ◌>>=◌, more) rest, at'')
    | inr last ↦ move_to_end_stop (suc n) p k at (elim (Bool-cases (ltb k (length (contents r)))) [
      | inl lt ↦ rw lt (omega (arith, ltb→lt k _ lt, ltb-le (k + 1) _ last))
      | inr ge ↦ rw ge (omega (arith, ltb-le k _ ge))
    ])
  ]
