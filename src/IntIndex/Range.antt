-- ===== src/IntIndex/Range.antt =====
-- src/btrees and tries (Adewale)/relapps.c: the range query.
use deep_spec_db.Base.{
  ℕ, zero, suc, ◌+◌, ◌≤◌, ◌<◌, Bool, true, false, Option, none, some, leb, leb-eq-false, le→leb,
  ◌++◌, length-append, append-nil, append_assoc, List, [], ◌∷◌, length, drop, ltb, if◌then◌else◌,
  ◌>>=◌, ◌>>◌, assert, ◌≡◌, refl, sym, ◌∙◌, arith, Bool-cases, inl, inr, ltb→lt, ltb-le, lt→ltb,
  drop-get_elem?,
}
use deep_spec_db.Relation.{Ancestors, Relation}
use deep_spec_db.Relation.Contents.{contents}
use deep_spec_db.Relation.Refines.{IsRelation, At, cursor, key_limit}
use deep_spec_db.Relation.Refines.Moving.{get_entry-At, get_entry_end, cursor_is_valid_lem}
use deep_spec_db.Relation.Refines.Finding.{rl_move_to_key-At}
use deep_spec_db.Relation.Search.{find_record_index}
use mathlib.Core.Option
use mathlib.Core.Option.{some-injective}
use deep_spec_db.Base.Arrays.Laws.{length-snoc}
use deep_spec_db.IntIndex.{
  HeapArray, collect, range_query, make_room, resize_array, has_element, unless_empty,
}
use deep_spec_db.IntIndex.Laws.{move_to_next_valid-At}

module _ {ℓ} {V : Type ℓ} where
  -- The values of the records up to the first key above `upper`.
  unfoldable pub up_to : ℕ → List (ℕ × V) → List V
  up_to upper [] = []
  up_to upper (e ∷ es) = if ltb upper e.0 then [] else e.1 ∷ up_to upper es

drop_all {ℓ} : {A : Type ℓ} (n : ℕ) (xs : List A) → length xs ≤ n → drop n xs ≡ []
drop_all zero [] h = refl
drop_all zero (x ∷ xs) h = absurd (omega arith)
drop_all (suc n) [] h = refl
drop_all (suc n) (x ∷ xs) h = drop_all n xs (omega arith)

-- How many records the array has room for: two at first, and four after a growth, since
-- `arr_length` stays 2.
unfoldable pub capacity : Bool → ℕ
capacity grows = if grows then 4 else 2

-- The records, or a write outside of the array when they are too many.
unfoldable pub that_fit {ℓ} : {V : Type ℓ} → Bool → List V → Option (List V)
that_fit grows vs = if leb (length vs) (capacity grows) then some vs else none

-- The array at the head of the loop, with so many records in it.
unfoldable array_at : ℕ → HeapArray
array_at count = some (if leb count 2 then 2 else 4)

make_room_lem :
    (grows : Bool) (count : ℕ)
    → count ≤ capacity grows
    → (array' : HeapArray) × (make_room grows 2 (array_at count) count ≡ some array')
      × (has_element array' count ≡ ltb count (capacity grows))
      × (count < capacity grows → array' ≡ array_at (suc count))
unfolding make_room array_at capacity has_element resize_array
make_room_lem true zero h = (some 2, refl, refl, λ l. refl)
make_room_lem true (suc zero) h = (some 2, refl, refl, λ l. refl)
make_room_lem true (suc (suc zero)) h = (some 4, refl, refl, λ l. refl)
make_room_lem true (suc (suc (suc zero))) h = (some 4, refl, refl, λ l. refl)
make_room_lem true (suc (suc (suc (suc zero)))) h = (some 4, refl, refl, λ l. absurd (omega arith))
make_room_lem true (suc (suc (suc (suc (suc n))))) h = absurd (omega arith)
make_room_lem false zero h = (some 2, refl, refl, λ l. refl)
make_room_lem false (suc zero) h = (some 2, refl, refl, λ l. refl)
make_room_lem false (suc (suc zero)) h = (none, refl, refl, λ l. absurd (omega arith))
make_room_lem false (suc (suc (suc n))) h = absurd (omega arith)

-- Records that are one too many do not fit.
that_fit_not {ℓ} :
    {V : Type ℓ} (grows : Bool) (vs ws : List V) (w : V)
    → ltb (length vs) (capacity grows) ≡ false
    → that_fit grows (vs ++ w ∷ ws) ≡ none
unfolding that_fit
that_fit_not grows vs ws w full =
    rw
      (
        length-append vs (w ∷ ws),
        leb-eq-false (length vs + suc (length ws)) (capacity grows)
            (omega (arith, ltb-le (length vs) (capacity grows) full)),
      )
      refl

that_fit_yes {ℓ} :
    {V : Type ℓ} (grows : Bool) (vs : List V)
    → length vs ≤ capacity grows
    → that_fit grows vs ≡ some vs
unfolding that_fit
that_fit_yes grows vs h = rw (le→leb (length vs) (capacity grows) h) refl

module _ {ℓ} {V : Type ℓ} (r : Relation V) (ok : IsRelation r) (grows : Bool) where
  -- The loop from a cursor with records to come.
  collect-At :
      (n : ℕ) (p : Ancestors r.depth) (k upper : ℕ) (records : List V)
      → At r p k
      → k < length (contents r)
      → length (contents r) ≤ k + n
      → length records ≤ capacity grows
      → collect grows n (cursor r p) upper 2 (array_at (length records)) records
        ≡ that_fit grows (records ++ up_to upper (drop k (contents r)))
  unfolding collect up_to
  collect-At zero p k upper records at low high few = absurd (omega arith)
  collect-At (suc n) p k upper records at low high few =
      let (e, p1, at_e, key_run, _, at1) = get_entry-At r ok p k at low in
      let (e', p2, at_e', _, read_run, at2) = get_entry-At r ok p1 k at1 low in
      let same : e' ≡ e = some-injective e' e (sym at_e' ∙ at_e) in
      let (p3, run, at3) =
        move_to_next_valid-At r ok p2 k at2 (suc k)
          (rw (lt→ltb k (length (contents r)) low) (omega arith)) in
      let here = drop-get_elem? (contents r) k e at_e in
      let (array', made, has, after) = make_room_lem grows (length records) few in
      elim (Bool-cases (ltb upper e.0)) [
        | inl past ↦
            rw (key_run, ◌>>=◌, past, here, past, append-nil records)
              (sym (that_fit_yes grows records few))
        | inr within ↦ elim (Bool-cases (ltb (length records) (capacity grows))) [
          | inr full ↦
              rw
                (
                  key_run, ◌>>=◌, within, made, ◌>>=◌, read_run, ◌>>=◌, has, full, ◌>>◌, assert,
                  here, within,
                )
                (sym
                  (that_fit_not grows records (up_to upper (drop (suc k) (contents r))) e.1 full))
          | inl room ↦
              let fits : length records < capacity grows = ltb→lt _ _ room in
              let grown : array' ≡ array_at (suc (length records)) = after fits in
              elim (Bool-cases (ltb (suc k) (length (contents r)))) [
                | inl more ↦
                    let rest =
                      collect-At n p3 (suc k) upper (records ++ e.1 ∷ []) at3 (ltb→lt _ _ more)
                        (omega arith) (rw (length-snoc records e.1) (omega (arith, fits))) in
                    let rest' = simp (length-snoc records e.1, append_assoc) at rest in
                    rw
                      (
                        key_run, ◌>>=◌, within, made, ◌>>=◌, read_run, ◌>>=◌, has, room, ◌>>◌,
                        assert, run, ◌>>=◌, more, here, within, same, grown,
                      )
                      rest'
                | inr last ↦
                    let none_left : drop (suc k) (contents r) ≡ [] =
                      drop_all (suc k) (contents r) (ltb-le (suc k) (length (contents r)) last) in
                    rw
                      (
                        key_run, ◌>>=◌, within, made, ◌>>=◌, read_run, ◌>>=◌, has, room, ◌>>◌,
                        assert, run, ◌>>=◌, last, here, within, same, none_left,
                      )
                      (sym (
                        that_fit_yes grows (records ++ e.1 ∷ [])
                          (rw (length-snoc records e.1) (omega (arith, fits)))))
              ]
        ]
      ]

  collect_end :
      (n : ℕ) (p : Ancestors r.depth) (k upper : ℕ) (array : HeapArray) (records : List V)
      → At r p k
      → length (contents r) ≤ k
      → collect grows n (cursor r p) upper 2 array records ≡ none
  unfolding collect
  collect_end zero p k upper array records at ge = refl
  collect_end (suc n) p k upper array records at ge = rw (get_entry_end r ok p k at ge).0 refl

  first_turn :
      (n : ℕ) (p : Ancestors r.depth) (k upper : ℕ)
      → At r p k
      → k < length (contents r)
      → length (contents r) ≤ k + n
      → collect grows n (cursor r p) upper 2 (some 2) []
        ≡ that_fit grows (up_to upper (drop k (contents r)))
  unfolding array_at
  first_turn n p k upper at low high = collect-At n p k upper [] at low high (omega arith)

  bind-some :
      (o : Option (List V)) → (o >>= λ vs. some (unless_empty vs)) ≡ Option.map unless_empty o
  bind-some none = refl
  bind-some (some vs) = refl

  -- From a cursor of a well-formed relation that is before a record, for a lower bound below 2^64
  -- and with more fuel than records, RLAPP_RangeQuery behaves so: it returns NULL when malloc
  -- fails; it runs into the failing assert of RL_GetKey when every key is below the lower bound;
  -- otherwise, with the values of the records from the first key on that is at least the lower
  -- bound, up to the first key above the upper bound, it returns them, or NULL for none of them,
  -- when they are at most four, or at most two if realloc fails, and writes outside of its array
  -- when they are more.
  pub range_query-At :
      (allocates : Bool) (fuel : ℕ) (p : Ancestors r.depth) (k lower upper : ℕ)
      → At r p k
      → k < length (contents r)
      → lower < key_limit
      → length (contents r) < fuel
      → range_query allocates grows fuel (cursor r p) (some r) lower upper ≡ (
          if allocates
          then (if ltb (find_record_index lower (contents r)) (length (contents r))
              then Option.map unless_empty (
                  that_fit grows
                    (up_to upper (drop (find_record_index lower (contents r)) (contents r))))
              else none)
          else some none)
  unfolding range_query
  range_query-At false fuel p k lower upper at valid fits enough =
      rw
        (cursor_is_valid_lem r ok p k at, ◌>>=◌, lt→ltb k (length (contents r)) valid, ◌>>◌, assert)
        refl
  range_query-At true fuel p k lower upper at valid fits enough =
      let (p', run, at') = rl_move_to_key-At r ok p k at lower fits in
      let start = find_record_index lower (contents r) in
      let is_valid = cursor_is_valid_lem r ok p k at in
      let yes = lt→ltb k (length (contents r)) valid in
      elim (Bool-cases (ltb start (length (contents r)))) [
        | inl inside ↦
            rw
              (
                is_valid,
                ◌>>=◌,
                yes,
                ◌>>◌,
                assert,
                run,
                inside,
                first_turn fuel p' start upper at' (ltb→lt _ _ inside) (omega arith),
              )
              (bind-some (that_fit grows (up_to upper (drop start (contents r)))))
        | inr past ↦
            rw
              (
                is_valid,
                ◌>>=◌,
                yes,
                ◌>>◌,
                assert,
                run,
                past,
                collect_end fuel p' start upper (some 2) [] at' (ltb-le _ _ past),
              )
              refl
      ]
