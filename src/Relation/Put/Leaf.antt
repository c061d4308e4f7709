-- ===== src/Relation/Put/Leaf.antt =====
-- `putEntry` at a leaf meets its specification on each of its branches: the update, the insertion
-- into a leaf with room, and the split of a full leaf.
use deep_spec_db.Base.{
  ℕ, suc, ◌≤◌, ◌<◌, ◌≡◌, refl, ap, sym, ◌∙◌, Bool, true, false, some, ◌∷◌, arith, length, insert_at,
  length-insert_at, inl, inr, ltb, Bool-cases, ltb→lt, ltb-le,
}
use deep_spec_db.Relation.{Node, fanout}
use deep_spec_db.Relation.Search.{find_record_index, move_to_key}
use deep_spec_db.Relation.Split.Laws.{
  Halves, halves, insert_entry_lem, find_record_index-le, split_leaf_lem,
}
use deep_spec_db.Relation.Contents.{to_list}
use deep_spec_db.Relation.Order.{Ascends-le, Ascends-append, IsOrdered, IsSized}
use deep_spec_db.Relation.Insertion.{insert-set_ptr, insert-insert_at}
use deep_spec_db.Relation.Put.{Put, done, split, holds_key, set_ptr, put_leaf}
use deep_spec_db.Relation.Put.Result.{IsDone, IsSplit, IsPut}

module _ {ℓ} (V : Type ℓ) (n : Node V 0) (key : ℕ) (v : V) (lo : ℕ) (first : Bool) (hi : ℕ)
    (last : Bool) (least : ℕ) (ordered : IsOrdered V 0 n lo first hi last)
    (sized : IsSized V 0 least n) (low : lo ≤ key) (high : key < hi) where
  abbrev place : ℕ
  place = find_record_index key n.entries

  update-IsDone :
      holds_key n.entries place key ≡ true
      → IsDone V 0 n key v lo first hi last least
          (record n { entries = set_ptr n.entries place v })
          place
          0
  unfolding to_list move_to_key
  update-IsDone h =
      let r = insert-set_ptr key v lo hi n.entries ordered.0 h in
      record {
        ordered = (r.1, ordered.1, ordered.2);
        sized = omega (arith, r.2);
        records = r.0;
        counted = omega (arith, r.2);
        cursor = ap (λ (i : ℕ). some i) r.3;
      }

  insertion-IsDone :
      holds_key n.entries place key ≡ false
      → length n.entries < fanout
      → IsDone V 0 n key v lo first hi last least
          (record n { entries = insert_at place (key, v) n.entries })
          place
          1
  unfolding to_list move_to_key
  insertion-IsDone h room =
      let r = insert-insert_at key v lo hi n.entries ordered.0 low high h in
      let size = length-insert_at place (key, v) n.entries in
      record {
        ordered = (r.1, ordered.1, ordered.2);
        sized = omega (arith, size);
        records = r.0;
        counted = omega (arith, size);
        cursor = ap (λ (i : ℕ). some i) r.2;
      }

  halves-IsSplit :
      holds_key n.entries place key ≡ false
      → length n.entries ≡ fanout
      → (h : Halves (insert_at place (key, v) n.entries))
      → IsSplit V 0 n key v lo first hi last
          (record n { last = false; entries = h.low })
          h.mid.0
          (record { first = false; last = n.last; ptr0 = n.ptr0; entries = h.mid ∷ h.high })
  unfolding to_list
  halves-IsSplit absent full h =
      let r = insert-insert_at key v lo hi n.entries ordered.0 low high absent in
      let s = Ascends-append lo hi h.low h.mid h.high (rw h.whole at r.1) in
      record {
        above = omega (arith, s.2, h.length_low);
        under = omega (arith, Ascends-le (suc h.mid.0) hi h.high s.1.1);
        left = (s.0, ordered.1, refl);
        right = (s.1, refl, ordered.2);
        sized_left = omega (arith, h.length_low);
        sized_right = omega (arith, h.length_high);
        records = sym h.whole ∙ r.0;
        counted = rw (← h.whole) (omega (arith, length-insert_at place (key, v) n.entries));
      }

  -- The result of `putEntry` at the leaf of the key.
  pub put_leaf-IsPut :
      (r : Put V 0) × (put_leaf V n place key v ≡ some r)
      × IsPut V 0 n key v lo first hi last least r
  unfolding put_leaf
  put_leaf-IsPut = elim (Bool-cases (holds_key n.entries place key)) [
    | inl held ↦ (done _ _ _, rw held, update-IsDone held)
    | inr absent ↦ elim (Bool-cases (ltb (length n.entries) fanout)) [
      | inl room ↦ (
        done _ _ _,
        rw (
          absent,
          room,
          insert_entry_lem n.entries place (key, v) (find_record_index-le key n.entries),
        ),
        insertion-IsDone absent (ltb→lt _ _ room),
      )
      | inr no_room ↦
          let full : length n.entries ≡ fanout =
            omega (arith, ltb-le (length n.entries) fanout no_room) in
          let h =
            halves (insert_at place (key, v) n.entries)
              (omega (arith, length-insert_at place (key, v) n.entries)) in
          (
            split _ _ _,
            rw (absent, no_room, split_leaf_lem n (key, v) full h),
            halves-IsSplit absent full h,
          )
    ]
  ]
