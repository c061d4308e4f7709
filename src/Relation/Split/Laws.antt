-- ===== src/Relation/Split/Laws.antt =====
-- verif/btrees/relation_mem.c: the loops of `splitnode` and `putEntry` in closed form.
use deep_spec_db.Base.{
  ℕ, suc, ◌+◌, ◌-◌, ◌≤◌, ◌<◌, ◌≡◌, refl, sym, ◌∙◌, false, inl, inr, some, List, [], ◌∷◌, ◌++◌,
  append-nil, append_assoc, arith, length, get_elem?, take, drop, insert_at, length-take,
  length-drop, take-append-drop, insert_at-take-drop, take-append_le, take-append_ge, take_all,
  get_elem?-lt, length-insert_at, drop-get_elem?, ltb, Bool-cases, ltb→lt, ◌>>=◌,
}
use deep_spec_db.Base.Arrays.{copy}
use deep_spec_db.Base.Arrays.Laws.{shift-write, copy_end, copy_over, write_end, length-snoc}
use deep_spec_db.Relation.{BtNode, create_new_node, fanout, middle}
use deep_spec_db.Relation.Search.{find_record_index}
use deep_spec_db.Relation.Split.{insert_entry, all_entries, keep_first, split_leaf, split_intern}

module _ {ℓ} {A : Type ℓ} where
  -- At an index no greater than the number of entries, the loop that shifts entries to the right
  -- and the store after it insert the entry there.
  pub insert_entry_lem :
      (es : List (ℕ × A)) (tgt : ℕ) (e : ℕ × A)
      → tgt ≤ length es
      → insert_entry es tgt e ≡ some (insert_at tgt e es)
  unfolding insert_entry
  insert_entry_lem es tgt e h =
      let at_tgt : length (take tgt es) ≡ tgt = length-take tgt es h in
      rw (insert_at-take-drop tgt e es) (
        simp (at_tgt, length-drop, take-append-drop) at (shift-write (take tgt es) (drop tgt es) e))

  all_entries_append :
      (a b : List (ℕ × A)) (e : ℕ × A)
      → length a + length b ≡ fanout
      → all_entries (a ++ b) (length a) e ≡ some (a ++ e ∷ b)
  unfolding all_entries
  all_entries_append a b e h =
      let rounds : fanout - length a ≡ length b = omega arith in
      let next : length a + 1 ≡ length (a ++ e ∷ []) = omega (arith, length-snoc a e) in
      rw (copy_end a [] b [], ◌>>=◌, write_end a e, ◌>>=◌, rounds, next)
        (simp (append-nil, append_assoc) at (copy_end b a [] (a ++ e ∷ [])))

  keep_first_append :
      (a b : List (ℕ × A)) (e : ℕ × A)
      → length a + length b ≡ fanout
      → keep_first (a ++ b) (length a) (a ++ e ∷ b) ≡ some (take middle (a ++ e ∷ b))
  unfolding keep_first
  keep_first_append a b e h = elim (Bool-cases (ltb (length a) middle)) [
    | inl low ↦
        let short : length a < 8 = ltb→lt _ _ low in
        let n = middle - length a in
        let m = take n (e ∷ b) in
        let size : length m ≡ n = length-take n (e ∷ b) (omega arith) in
        let same : length (take n b) ≡ length m = length-take n b (omega arith) ∙ sym size in
        let loop : copy n (length a) (length a) (a ++ e ∷ b) (a ++ b)
            ≡ some (a ++ (m ++ drop n b)) =
          simp (take-append-drop, size) at
            (copy_over m a (drop n (e ∷ b)) a (take n b) (drop n b) same) in
        rw (low, loop, ◌>>=◌)
          (rw (
            take-append_ge middle a (m ++ drop n b) (omega arith),
            take-append_ge middle a (e ∷ b) (omega arith),
            take-append_le n m (drop n b) (omega arith),
            take_all n m (omega arith),
          ))
    | inr high ↦
        let long : 8 ≤ length a = ground arith in
        rw high (rw (take-append_le middle a b long, take-append_le middle a (e ∷ b) long))
  ]

  pub find_record_index-le : (key : ℕ) (es : List (ℕ × A)) → find_record_index key es ≤ length es
  unfolding find_record_index
  find_record_index-le key [] = omega arith
  find_record_index-le key (e ∷ es) = ground (arith, find_record_index-le key es)

  -- Both arrays of `splitnode`, for a full node and any index in it.
  arrays :
      (es : List (ℕ × A)) (tgt : ℕ) (e : ℕ × A)
      → length es ≡ fanout
      → tgt ≤ length es
      → (all_entries es tgt e ≡ some (insert_at tgt e es))
        × (keep_first es tgt (insert_at tgt e es) ≡ some (take middle (insert_at tgt e es)))
  arrays es tgt e full h =
      let a = take tgt es in
      let b = drop tgt es in
      let at_tgt : length a ≡ tgt = length-take tgt es h in
      let both : length a + length b ≡ fanout = omega (arith, length-drop tgt es) in
      rw (insert_at-take-drop tgt e es) (
        simp (take-append-drop, at_tgt) at (all_entries_append a b e both),
        simp (take-append-drop, at_tgt) at (keep_first_append a b e both),
      )

  -- The entries that are copied into the new node, from index `i` on.
  copy_rest :
      (all : List (ℕ × A)) (n i : ℕ) → length all ≡ i + n → copy n i 0 all [] ≡ some (drop i all)
  copy_rest all n i h =
      let at_i : length (take i all) ≡ i = length-take i all (omega arith) in
      let rest : length (drop i all) ≡ n = omega (arith, length-drop i all) in
      simp (append-nil, take-append-drop, at_i, rest) at (copy_end (drop i all) (take i all) [] [])

-- What a split does to the sixteen entries `all`: the first eight stay, the ninth gives the key.
pub record Halves {ℓ} {A : Type ℓ} (all : List (ℕ × A)) : Type ℓ where
  pub low : List (ℕ × A)
  pub mid : ℕ × A
  pub high : List (ℕ × A)
  pub whole : all ≡ low ++ mid ∷ high
  pub length_low : length low ≡ middle
  pub length_high : length high ≡ fanout - middle
  pub at_mid : get_elem? all middle ≡ some mid
  pub taken : take middle all ≡ low
  pub dropped : drop middle all ≡ mid ∷ high
  pub dropped_mid : drop (middle + 1) all ≡ high

module _ {ℓ} {A : Type ℓ} where
  pub halves : (all : List (ℕ × A)) → length all ≡ fanout + 1 → Halves all
  halves all h =
      let v = get_elem?-lt all middle (omega arith) in
      record {
        low = take middle all;
        mid = v.0;
        high = drop (suc middle) all;
        whole = v.2;
        length_low = length-take middle all (omega arith);
        length_high = omega (arith, length-drop (suc middle) all);
        at_mid = v.1;
        taken = refl;
        dropped = drop-get_elem? all middle v.0 v.1;
        dropped_mid = refl;
      }

  -- splitnode of a full leaf copies without an access out of the arrays: of the entries with the
  -- new one in its place, the node keeps those before the middle entry, the new node has the
  -- others, and the key for the parent is the middle one's.
  pub split_leaf_lem :
      (n : BtNode Unit A) (e : ℕ × A)
      → length n.entries ≡ fanout
      → (h : Halves (insert_at (find_record_index e.0 n.entries) e n.entries))
      → split_leaf n e
        ≡ some (
          record n { last = false; entries = h.low },
          h.mid.0,
          record { first = false; last = n.last; ptr0 = n.ptr0; entries = h.mid ∷ h.high },
        )
  unfolding split_leaf create_new_node
  split_leaf_lem n e full h =
      let tgt = find_record_index e.0 n.entries in
      let all = insert_at tgt e n.entries in
      let size : length all ≡ fanout + 1 = omega (arith, length-insert_at tgt e n.entries) in
      let loops = arrays n.entries tgt e full (find_record_index-le e.0 n.entries) in
      let rest : copy 8 8 0 all [] ≡ some (drop 8 all) = copy_rest all 8 8 size in
      rw (loops.0, ◌>>=◌, loops.1, ◌>>=◌, rest, ◌>>=◌, h.at_mid, ◌>>=◌, h.taken, h.dropped)

  -- splitnode of a full intern node copies without an access out of the arrays: of the entries
  -- with the new one in its place, the node keeps those before the middle entry, the new node has
  -- its child as ptr0 and the entries after it, and the key for the parent is the middle one's.
  pub split_intern_lem :
      (n : BtNode A A) (e : ℕ × A) (tgt : ℕ)
      → length n.entries ≡ fanout
      → find_record_index e.0 n.entries ≡ tgt
      → (h : Halves (insert_at tgt e n.entries))
      → split_intern n e
        ≡ some (
          record n { last = false; entries = h.low },
          h.mid.0,
          record { first = false; last = n.last; ptr0 = h.mid.1; entries = h.high },
        )
  unfolding split_intern create_new_node
  split_intern_lem n e tgt full found h =
      let all = insert_at tgt e n.entries in
      let size : length all ≡ fanout + 1 = omega (arith, length-insert_at tgt e n.entries) in
      let loops = arrays n.entries tgt e full (rw (← found) (find_record_index-le e.0 n.entries)) in
      let rest : copy 7 9 0 all [] ≡ some (drop 9 all) = copy_rest all 7 9 size in
      rw (
        found, loops.0, ◌>>=◌, loops.1, ◌>>=◌, rest, ◌>>=◌, h.at_mid, ◌>>=◌, h.taken, h.dropped_mid,
      )
