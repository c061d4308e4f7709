-- ===== src/Relation/Put/Intern.antt =====
-- `putEntry` at an intern node meets its specification, given that it does so at the child.
use deep_spec_db.Base.{
  ℕ, suc, ◌+◌, ◌≤◌, ◌<◌, ◌≡◌, ap, sym, ◌∙◌, Bool, false, some, List, ◌∷◌, ◌++◌, append_assoc, arith,
  length, length-insert_at, length-append, inl, inr, ltb, Bool-cases, ltb→lt, ltb-le, ltb-eq-false,
  lt→ltb, ◌>>=◌,
}
use native.Mathlib.Nat.{le_of_eq}
use deep_spec_db.Relation.{Node, Ancestors, num_keys, fanout}
use deep_spec_db.Relation.Search.{child_index, move_to_key}
use deep_spec_db.Relation.Split.Laws.{Halves, halves, insert_entry_lem, split_intern_lem}
use deep_spec_db.Relation.Contents.{flat, to_list, insert}
use deep_spec_db.Relation.Order.{
  Separates, Separates-append, Separates-lt, All, All-append, IsOrdered, IsSized,
}
use deep_spec_db.Relation.Slot.{Slot, with_entry}
use deep_spec_db.Relation.Put.{Put, done, split, set_child, put_intern}
use deep_spec_db.Relation.Put.Children.{
  child_index-set_child, child_index-le, length-set_child, All-set_child, All-insert_at,
  flat-append, move_to_key_step, move_to_key_total,
}
use deep_spec_db.Relation.Put.Result.{IsDone, IsSplit, IsPut, IsOrdered-le, insert-middle}

module _ {ℓ} (V : Type ℓ) (d : ℕ) (n : Node V (suc d)) (key : ℕ) (v : V) (lo : ℕ) (first : Bool)
    (hi : ℕ) (last : Bool) (least : ℕ) (ordered : IsOrdered V (suc d) n lo first hi last)
    (sized : IsSized V (suc d) least n) (low : lo ≤ key) (high : key < hi)
    (s : Slot
      (IsOrdered V d)
      (to_list V d)
      lo
      first
      hi
      last
      key
      n
      (child_index key n.entries)) where
  abbrev place : ℕ
  place = child_index key n.entries

  -- What the child's records become, the node's records become.
  records_here :
      (xs : List (ℕ × V))
      → xs ≡ insert key v (to_list V d s.here)
      → s.pre ++ (xs ++ s.post) ≡ insert key v (to_list V (suc d) n)
  unfolding to_list
  records_here xs e =
      rw (e, s.whole)
        (sym (
          insert-middle V key v lo s.low s.high hi s.pre _ s.post s.pre_ascends s.low_le s.key_lt
            s.post_ascends))

  counted_here :
      (xs : List (ℕ × V)) (count : ℕ)
      → length xs ≡ length (to_list V d s.here) + count
      → length (s.pre ++ (xs ++ s.post)) ≡ length (to_list V (suc d) n) + count
  unfolding to_list
  counted_here xs count e = rw s.whole (simp length-append (omega arith))

  IsSized-child : (a : Node V d) → IsSized V d 7 a → IsSized V (suc d) least (set_child n place a)
  IsSized-child a h =
      let size = length-set_child n place a in
      let parts = All-set_child (IsSized V d 7) n place a sized.2 sized.3 h in
      (omega arith, omega arith, parts.0, parts.1)

  -- The child was changed in place.
  pub set_child-IsDone :
      (c : Node V d) (p : Ancestors d) (count : ℕ)
      → IsDone V d s.here key v s.low s.at_first s.high s.at_last 7 c p count
      → IsDone V (suc d) n key v lo first hi last least (set_child n place c) (place, p) count
  unfolding to_list
  set_child-IsDone c p count r =
      let same = child_index-set_child key n place c in
      record {
        ordered = (omega (arith, ordered.0, length-set_child n place c), s.good_set c r.ordered);
        sized = IsSized-child c r.sized;
        records = s.whole_set c ∙ records_here _ r.records;
        counted = ap length (s.whole_set c) ∙ counted_here _ count r.counted;
        cursor = rw same at (
            move_to_key_step V d (set_child n place c) key c p
              (omega (arith, ordered.0, length-set_child n place c)) (rw same (s.child_set c))
              r.cursor);
      }

  module _ (a : Node V d) (k : ℕ) (b : Node V d)
      (r : IsSplit V d s.here key v s.low s.at_first s.high s.at_last a k b) where
    abbrev grown : Node V (suc d)
    grown = with_entry (set_child n place a) place (k, b)

    length_grown : length grown.entries ≡ suc (num_keys n)
    length_grown =
        length-insert_at place (k, b) (set_child n place a).entries
        ∙ ap suc (length-set_child n place a)

    grown_parts : IsSized V d 7 grown.ptr0 × All (IsSized V d 7) grown.entries
    grown_parts =
        let parts = All-set_child (IsSized V d 7) n place a sized.2 sized.3 r.sized_left in
        (parts.0, All-insert_at (IsSized V d 7) place (k, b) _ r.sized_right parts.1)

    grown-Separates : Separates (IsOrdered V d) lo first hi last grown.ptr0 grown.entries
    grown-Separates = s.good_split a k b r.left r.above r.under r.right

    -- The node has room for the new entry.
    room-IsDone :
        (p : Ancestors (suc d))
        → num_keys n < fanout
        → move_to_key V (suc d) grown key ≡ some p
        → IsDone V (suc d) n key v lo first hi last least grown p 1
    unfolding to_list
    room-IsDone p room e = record {
      ordered = (omega (arith, length_grown), grown-Separates);
      sized =
          (omega (arith, length_grown), omega (arith, length_grown), grown_parts.0, grown_parts.1);
      records = s.whole_split a k b ∙ records_here _ r.records;
      counted = ap length (s.whole_split a k b) ∙ counted_here _ 1 r.counted;
      cursor = e;
    }

    -- The node was full, and splits in turn.
    full-IsSplit :
        (is_last : Bool)
        → num_keys n ≡ fanout
        → (h : Halves grown.entries)
        → IsSplit V
            (suc d)
            n
            key
            v
            lo
            first
            hi
            last
            (record (set_child n place a) { last = false; entries = h.low })
            h.mid.0
            (record { first = false; last = is_last; ptr0 = h.mid.1; entries = h.high })
    unfolding to_list flat
    full-IsSplit is_last full h =
        let t =
          Separates-append (IsOrdered V d) lo first hi last grown.ptr0 h.low h.mid h.high
            (rw h.whole at grown-Separates) in
        let joined : (to_list V d grown.ptr0 ++ flat (to_list V d) h.low)
              ++ (to_list V d h.mid.1 ++ flat (to_list V d) h.high)
            ≡ to_list V d grown.ptr0 ++ flat (to_list V d) grown.entries =
          append_assoc (to_list V d grown.ptr0) _ _
          ∙ ap (λ (t : List (ℕ × V)). to_list V d grown.ptr0 ++ t)
              (sym (flat-append (to_list V d) h.low (h.mid ∷ h.high))
                ∙ ap (flat (to_list V d)) (sym h.whole)) in
        let parts = All-append (IsSized V d 7) h.low h.mid h.high (rw h.whole at grown_parts.1) in
        record {
          above = t.2;
          under =
              Separates-lt (IsOrdered V d) (IsOrdered-le V d) h.mid.0 false hi last h.mid.1 h.high
                t.1 (omega (arith, h.length_high));
          left = (omega (arith, h.length_low), t.0);
          right = (omega (arith, h.length_high), t.1);
          sized_left =
              (omega (arith, h.length_low), omega (arith, h.length_low), grown_parts.0, parts.0);
          sized_right =
              (omega (arith, h.length_high), omega (arith, h.length_high), parts.1, parts.2);
          records = joined ∙ (s.whole_split a k b ∙ records_here _ r.records);
          counted = ap length (joined ∙ s.whole_split a k b) ∙ counted_here _ 1 r.counted;
        }

    room_run :
        (p : Ancestors (suc d))
        → num_keys n < fanout
        → move_to_key V (suc d) grown key ≡ some p
        → put_intern V d (set_child n place a) place key (k, b) ≡ some (done grown p 1)
    unfolding put_intern
    room_run p room e =
        let size = length-set_child n place a in
        let inserted =
          insert_entry_lem (set_child n place a).entries place (k, b)
            (omega (arith, child_index-le key n.entries, size)) in
        rw (lt→ltb (length (set_child n place a).entries) fanout (omega arith), inserted, ◌>>=◌, e)

    full_run :
        num_keys n ≡ fanout
        → (h : Halves grown.entries)
        → put_intern V d (set_child n place a) place key (k, b)
          ≡ some (
              split
                (record (set_child n place a) { last = false; entries = h.low })
                h.mid.0
                (record {
                  first = false;
                  last = (set_child n place a).last;
                  ptr0 = h.mid.1;
                  entries = h.high;
                }))
    unfolding put_intern
    full_run full h =
        let size = length-set_child n place a ∙ full in
        let index = s.index_split a k r.above r.under in
        rw (
          ltb-eq-false _ fanout (le_of_eq (sym size)),
          split_intern_lem (set_child n place a) (k, b) place size index h,
        )

    -- The recursive call of `putEntry` on the parent with the entry that the split left.
    pub put_intern-IsPut :
        (r' : Put V (suc d)) × (put_intern V d (set_child n place a) place key (k, b) ≡ some r')
        × IsPut V (suc d) n key v lo first hi last least r'
    put_intern-IsPut = elim (Bool-cases (ltb (num_keys n) fanout)) [
      | inl room ↦
          let (p, down) =
            move_to_key_total V (suc d) grown lo first hi last key
              (omega (arith, length_grown), grown-Separates) low high in
          (done grown p 1, room_run p (ltb→lt _ _ room) down, room-IsDone p (ltb→lt _ _ room) down)
      | inr no_room ↦
          let full : num_keys n ≡ fanout = omega (arith, ltb-le (num_keys n) fanout no_room) in
          let h = halves grown.entries (omega (arith, length_grown)) in
          (_, full_run full h, full-IsSplit (set_child n place a).last full h)
    ]
