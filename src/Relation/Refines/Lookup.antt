-- ===== src/Relation/Refines/Lookup.antt =====
-- The sorted list of records as a map: what an insertion changes, and what RL_PutRecord followed by
-- RL_MoveToKey and RL_GetRecord returns.
use deep_spec_db.Base.{
  ℕ, ◌<◌, ◌≡◌, refl, ap, sym, ◌∙◌, Bool, true, some, List, [], ◌∷◌, arith, length, get_elem?, ltb,
  ◌==◌, if◌then◌else◌, Bool-cases, ltb→lt, le→leb, ==-eq, ==_self, ==-ne, leb-eq-false, ltb-le, inl,
  inr,
}
use mathlib.Core.Option.{some-injective}
use deep_spec_db.Relation.{Ancestors, Relation, Cursor}
use deep_spec_db.Relation.Search.{find_record_index}
use deep_spec_db.Relation.Contents.{contents, lookup, insert}
use deep_spec_db.Relation.Api.{put_record, rl_move_to_key, get_record}
use deep_spec_db.Relation.Position.Find.{held}
use deep_spec_db.Relation.Refines.{IsRelation, At, cursor, key_limit}
use deep_spec_db.Relation.Refines.Moving.{get_entry-At}
use deep_spec_db.Relation.Refines.Finding.{rl_move_to_key-At}
use deep_spec_db.Relation.Refines.Putting.{put_record-At, find-insert, find-insert_lt}

module _ {ℓ} {V : Type ℓ} where
  pub lookup-insert_sorted :
      (j key : ℕ) (v : V) (es : List (ℕ × V))
      → lookup j (insert key v es) ≡ (if key == j then some v else lookup j es)
  unfolding lookup insert
  lookup-insert_sorted j key v [] = refl
  lookup-insert_sorted j key v (e ∷ es) = elim (Bool-cases (ltb key e.0)) [
    | inl lt ↦ rw lt
    | inr ge ↦ elim (Bool-cases (key == e.0)) [
      | inl eq ↦
          (rw (ge, eq, ==-eq key e.0 eq)
            elim (Bool-cases (e.0 == j)) [ inl t ↦ rw t refl | inr f ↦ rw f refl ])
      | inr ne ↦
          (rw (ge, ne, lookup-insert_sorted j key v es)
            elim (Bool-cases (e.0 == j)) [
              | inl t ↦ (elim (Bool-cases (key == j)) [
                | inl t' ↦ absurd (==-ne key e.0 ne (==-eq key j t' ∙ sym (==-eq e.0 j t)))
                | inr f' ↦ rw (t, f') refl
              ])
              | inr f ↦ rw f refl
            ])
    ]
  ]

  held-insert : (key : ℕ) (v : V) (es : List (ℕ × V)) → held key (insert key v es) ≡ true
  unfolding held insert
  held-insert key v [] = rw (==_self key) refl
  held-insert key v (e ∷ es) = elim (Bool-cases (ltb key e.0)) [
    | inl lt ↦ rw (lt, ==_self key) refl
    | inr ge ↦ elim (Bool-cases (key == e.0)) [
      | inl eq ↦ rw (ge, eq, ==-eq key e.0 eq, ==_self e.0) refl
      | inr ne ↦ elim (Bool-cases (e.0 == key)) [
        | inl t ↦ rw (ge, ne, t) refl
        | inr f ↦ rw (ge, ne, f) (held-insert key v es)
      ]
    ]
  ]

  get_elem?-insert :
      (key : ℕ) (v : V) (es : List (ℕ × V))
      → get_elem? (insert key v es) (find_record_index key es) ≡ some (key, v)
  unfolding find_record_index insert
  get_elem?-insert key v [] = refl
  get_elem?-insert key v (e ∷ es) = elim (Bool-cases (ltb key e.0)) [
    | inl lt ↦ rw (lt, le→leb key e.0 (omega (arith, ltb→lt key e.0 lt))) refl
    | inr ge ↦ elim (Bool-cases (key == e.0)) [
      | inl eq ↦
          (let same = ==-eq key e.0 eq in rw (ge, eq, le→leb key e.0 (omega arith)) (rw same refl))
      | inr ne ↦
          rw (ge, ne, leb-eq-false key e.0 (omega (arith, ltb-le key e.0 ge, ==-ne key e.0 ne)))
            (get_elem?-insert key v es)
    ]
  ]

module _ {ℓ} {V : Type ℓ} (r : Relation V) (ok : IsRelation r) (key : ℕ) (v : V)
    (fits : key < key_limit) where
  -- From any cursor of a well-formed relation and for a key below 2^64, RL_PutRecord returns,
  -- RL_MoveToKey then returns True, and RL_GetRecord then returns the record that was put.
  pub put_record-get_record :
      (p : Ancestors r.depth) (k : ℕ)
      → At r p k
      → (c : Cursor V) × (found : Cursor V) × (read : Cursor V) × (put_record (cursor r p) key v
          ≡ some c)
        × (rl_move_to_key c key ≡ some (true, found))
        × (get_record found ≡ some (v, read))
  put_record-get_record p k at =
      let (r', p', run, ok', holds, at') = put_record-At r ok key v fits p k at in
      let (q, moved, at_q) = rl_move_to_key-At r' ok' p' _ at' key fits in
      let here : get_elem? (contents r') (find_record_index key (contents r')) ≡ some (key, v) =
        rw (holds, find-insert key v (contents r)) (get_elem?-insert key v (contents r)) in
      let inside : find_record_index key (contents r') < length (contents r') =
        rw holds (rw (find-insert key v (contents r)) (find-insert_lt key v (contents r))) in
      let (e, q', at_e, _, got, _) = get_entry-At r' ok' q _ at_q inside in
      let same : e ≡ (key, v) = some-injective e (key, v) (sym at_e ∙ here) in
      (
        cursor r' p',
        cursor r' q,
        cursor r' q',
        run,
        moved
            ∙ ap (λ (es : List (ℕ × V)). some (held key es, cursor r' q)) holds
            ∙ ap (λ (b : Bool). some (b, cursor r' q)) (held-insert key v (contents r)),
        got ∙ ap (λ (x : ℕ × V). some (x.1, cursor r' q')) same,
      )

  -- From any cursor of a well-formed relation and for a key below 2^64, RL_PutRecord returns and
  -- changes the map that the relation stands for at the key, and nowhere else.
  pub put_record-lookup :
      (p : Ancestors r.depth) (k : ℕ)
      → At r p k
      → (c : Cursor V) × (put_record (cursor r p) key v ≡ some c)
        × ((j : ℕ)
            → lookup j (contents c.relation) ≡ (if key == j then some v else lookup j (contents r)))
  put_record-lookup p k at =
      let (r', p', run, ok', holds, at') = put_record-At r ok key v fits p k at in
      (cursor r' p', run, λ j. ap (lookup j) holds ∙ lookup-insert_sorted j key v (contents r))
