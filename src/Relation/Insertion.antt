-- ===== src/Relation/Insertion.antt =====
-- Insertion into the entries of a leaf: the index that the search finds is where the sorted
-- association list has the key, or would have it.
use deep_spec_db.Base.{
  ℕ, suc, ◌≤◌, ◌<◌, ◌≡◌, refl, ap, true, false, List, [], ◌∷◌, arith, length, insert_at, leb, ◌≢◌,
  sym, inl, inr, Bool-cases, leb→le, le→leb, lt→ltb, ltb-eq-false, leb-eq-false, leb-lt, ◌∙◌,
  ==-eq-false,
}
use deep_spec_db.Relation.Search.{find_record_index}
use deep_spec_db.Relation.Put.{holds_key, set_ptr}
use deep_spec_db.Relation.Contents.{insert}
use deep_spec_db.Relation.Order.{Ascends}

module _ {ℓ} {V : Type ℓ} (key : ℕ) (v : V) where
  -- Where the leaf holds the key, the store to the record is the insertion.
  pub insert-set_ptr :
      (lo hi : ℕ) (es : List (ℕ × V))
      → Ascends lo hi es
      → holds_key es (find_record_index key es) key ≡ true
      → let es' = set_ptr es (find_record_index key es) v in
        (es' ≡ insert key v es)
        × Ascends lo hi es'
        × (length es' ≡ length es)
        × (find_record_index key es' ≡ find_record_index key es)
  unfolding find_record_index holds_key set_ptr insert
  insert-set_ptr lo hi [] s h = cc
  insert-set_ptr lo hi (e ∷ es) s h = ground (arith, insert-set_ptr (suc e.0) hi es s.1)

  pub insert-below :
      (e : ℕ × V) (es : List (ℕ × V)) → key < e.0 → insert key v (e ∷ es) ≡ (key, v) ∷ e ∷ es
  unfolding insert
  insert-below e es h = rw (lt→ltb key e.0 h)

  pub insert-above :
      (e : ℕ × V) (es : List (ℕ × V)) → e.0 < key → insert key v (e ∷ es) ≡ e ∷ insert key v es
  unfolding insert
  insert-above e es h = rw (ltb-eq-false key e.0 (omega arith), ==-eq-false key e.0 (omega arith))

  pub find_record_index_stop :
      (e : ℕ × V) (es : List (ℕ × V)) → key ≤ e.0 → find_record_index key (e ∷ es) ≡ 0
  unfolding find_record_index
  find_record_index_stop e es h = rw (le→leb key e.0 h)

  pub find_record_index_pass :
      (e : ℕ × V) (es : List (ℕ × V))
      → e.0 < key
      → find_record_index key (e ∷ es) ≡ suc (find_record_index key es)
  unfolding find_record_index
  find_record_index_pass e es h = rw (leb-eq-false key e.0 h)

  holds_key_tail :
      (e : ℕ × V) (es : List (ℕ × V))
      → find_record_index key (e ∷ es) ≡ suc (find_record_index key es)
      → holds_key (e ∷ es) (find_record_index key (e ∷ es)) key ≡ false
      → holds_key es (find_record_index key es) key ≡ false
  unfolding holds_key
  holds_key_tail e es pass h = rw pass at h

  -- Elsewhere the new entry goes before the entry that the search found.
  pub insert-insert_at :
      (lo hi : ℕ) (es : List (ℕ × V))
      → Ascends lo hi es
      → lo ≤ key
      → key < hi
      → holds_key es (find_record_index key es) key ≡ false
      → let es' = insert_at (find_record_index key es) (key, v) es in
        (es' ≡ insert key v es)
        × Ascends lo hi es'
        × (find_record_index key es' ≡ find_record_index key es)
  insert-insert_at lo hi [] s l u h =
      unfold find_record_index insert in (refl, (l, u), rw (le→leb key key (omega arith)))
  insert-insert_at lo hi (e ∷ es) s l u h = elim (Bool-cases (leb key e.0)) [
    | inl le ↦
        let stop = find_record_index_stop e es (leb→le key e.0 le) in
        let ne : e.0 ≢ key = unfold holds_key in ground (arith, stop) in
        rw stop (
          sym (insert-below e es (omega (arith, leb→le key e.0 le))),
          (l, (omega (arith, leb→le key e.0 le), s.1)),
          find_record_index_stop (key, v) (e ∷ es) (omega arith),
        )
    | inr gt ↦
        let above : e.0 < key = leb-lt key e.0 gt in
        let pass = find_record_index_pass e es above in
        let absent : holds_key es (find_record_index key es) key ≡ false =
          holds_key_tail e es pass h in
        let r = insert-insert_at (suc e.0) hi es s.1 above u absent in
        rw pass (
          ap (λ (t : List (ℕ × V)). e ∷ t) r.0 ∙ sym (insert-above e es above),
          (s.0, r.1),
          find_record_index_pass e _ above ∙ ap suc r.2,
        )
  ]
