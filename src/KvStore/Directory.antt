-- ===== src/KvStore/Directory.antt =====
-- src/btrees and tries (Adewale)/kvstore.c: what the store relies on of the relation in a trie node,
-- whose records are the addresses of border nodes.
use deep_spec_db.Base.{
  ℕ, suc, ◌<◌, ◌≡◌, refl, sym, ap, ◌∙◌, true, false, Option, none, some, List, [], ◌∷◌, arith,
  get_elem?, get_elem?-some, leb, ◌==◌, if◌then◌else◌, ◌>>=◌, Bool-cases, inl, inr, ==-eq, leb→le,
  le→leb,
}
use mathlib.Core.Option.{some-injective}
use deep_spec_db.Relation.{Cursor}
use deep_spec_db.Relation.Contents.{contents, lookup}
use deep_spec_db.Relation.Search.{find_record_index}
use deep_spec_db.Relation.Api.{new_relation, new_cursor, put_record, rl_move_to_key, get_record}
use deep_spec_db.Relation.Order.{Ascends}
use deep_spec_db.Relation.Position.Find.{held, find_none}
use deep_spec_db.Relation.Refines.{IsRelation, At, cursor, key_limit}
use deep_spec_db.Relation.Refines.Moving.{new_relation-IsRelation, get_entry-At}
use deep_spec_db.Relation.Refines.Finding.{rl_move_to_key-At, contents-Ascends}
use deep_spec_db.Relation.Refines.Putting.{put_record-At}
use deep_spec_db.Relation.Refines.Lookup.{lookup-insert_sorted}
use deep_spec_db.Relation.Position.Next.{move_to_first-IsAt}

module _ {ℓ} {V : Type ℓ} where
  -- `RL_MoveToKey`, and `RL_GetRecord` when it returns True.
  unfoldable pub find_record : Cursor V → ℕ → Option (Option V × Cursor V)
  find_record c key = do
    (found, c') ← rl_move_to_key c key
    if found then (do (v, c'') ← get_record c'; some (some v, c'')) else some (none, c')

  -- The map that a cursor's relation stands for.
  abbrev pub view : Cursor V → ℕ → Option V
  view c j = lookup j (contents c.relation)

  -- A well-formed relation, and a position in it.
  pub record IsCursor (c : Cursor V) : Type ℓ where
    pub relation : IsRelation c.relation
    pub place : ℕ
    pub at : At c.relation c.idx place

  -- The record before which the search for a key stops is the one of the key, if there is one.
  held-lookup :
      (key lo hi : ℕ) (es : List (ℕ × V))
      → Ascends lo hi es
      → (held key es ≡ true
          → (v : V) × (get_elem? es (find_record_index key es) ≡ some (key, v))
            × (lookup key es ≡ some v))
        × (held key es ≡ false → lookup key es ≡ none)
  unfolding held lookup find_record_index
  held-lookup key lo hi [] s = ((λ h. cc), (λ h. refl))
  held-lookup key lo hi (e ∷ es) s = elim (Bool-cases (e.0 == key)) [
    | inl t ↦
        (let same = ==-eq e.0 key t in
          (
            (λ h. (
              e.1,
              rw (le→leb key e.0 (omega (arith, same))) (ap (λ k. some (k, e.1)) same),
              rw t refl,
            )),
            (λ h. let no : true ≡ false = rw t at h in cc),
          ))
    | inr f ↦
        (let (found, missing) = held-lookup key (suc e.0) hi es s.1 in
          (
            (λ h.
                let there : held key es ≡ true = rw f at h in
                elim (Bool-cases (leb key e.0)) [
                  | inl le ↦
                      let gone : held key es ≡ false =
                        find_none key (suc e.0) hi es s.1 (omega (arith, leb→le key e.0 le)) in
                      let no : true ≡ false = sym there ∙ gone in cc
                  | inr gt ↦ let (v, at, got) = found there in (v, rw gt at, rw f got)
                ]),
            (λ h. rw f (missing (rw f at h))),
          ))
  ]

  -- A search returns what the map has for the key and keeps the map.
  pub find_record-view :
      (c : Cursor V) (key : ℕ)
      → IsCursor c
      → key < key_limit
      → (c' : Cursor V) × (find_record c key ≡ some (view c key, c'))
        × IsCursor c'
        × ((j : ℕ) → view c' j ≡ view c j)
  unfolding find_record
  find_record-view c key ok fits =
      let r = c.relation in
      let (p, moved, at) = rl_move_to_key-At r ok.relation c.idx ok.place ok.at key fits in
      let (found, missing) =
        held-lookup key 0 key_limit (contents r)
          (contents-Ascends r ok.relation c.idx ok.place ok.at key fits) in
      elim (Bool-cases (held key (contents r))) [
        | inl t ↦
            let (v, here, got) = found t in
            let (e, q, at_e, _, read, at') =
              get_entry-At r ok.relation p _ at (get_elem?-some _ _ (key, v) here) in
            let same : e.1 ≡ v =
              ap (λ (x : ℕ × V). x.1) (some-injective e (key, v) (sym at_e ∙ here)) in
            (
              cursor r q,
              rw (moved, ◌>>=◌, t, read, ◌>>=◌, got, same) refl,
              record { relation = ok.relation; place = _; at = at' },
              λ j. refl,
            )
        | inr f ↦ (
          cursor r p,
          rw (moved, ◌>>=◌, f, missing f) refl,
          record { relation = ok.relation; place = _; at = at },
          λ j. refl,
        )
      ]

  -- A put changes the map at the key, and nowhere else.
  pub put_record-view :
      (c : Cursor V) (key : ℕ) (v : V)
      → IsCursor c
      → key < key_limit
      → (c' : Cursor V) × (put_record c key v ≡ some c')
        × IsCursor c'
        × ((j : ℕ) → view c' j ≡ (if key == j then some v else view c j))
  put_record-view c key v ok fits =
      let r = c.relation in
      let (r', p', run, ok', holds, at') =
        put_record-At r ok.relation key v fits c.idx ok.place ok.at in
      (
        cursor r' p',
        run,
        record { relation = ok'; place = _; at = at' },
        λ j. ap (lookup j) holds ∙ lookup-insert_sorted j key v (contents r),
      )

  -- The map of a new relation is empty.
  pub new_cursor-view :
      IsCursor (new_cursor (new_relation {V = V}))
      × ((j : ℕ) → view (new_cursor (new_relation {V = V})) j ≡ none)
  unfolding new_cursor lookup
  new_cursor-view =
      let (ok, empty) = new_relation-IsRelation {V = V} in
      (record { relation = ok; place = 0; at = move_to_first-IsAt V _ _ }, λ j. ap (lookup j) empty)
