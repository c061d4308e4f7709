-- ===== src/StringList/Cursors.antt =====
-- src/low level algos (Pablo)/stringlist.c: the cursor operations.
use deep_spec_db.Base.{
  ℕ, zero, suc, ◌+◌, ◌≤◌, ◌<◌, Bool, true, some, List, [], ◌∷◌, ◌≡◌, refl, ap, ◌∙◌, arith,
  Bool-cases, inl, inr, length, get_elem?, ltb-eq-false, lt→ltb, ==-eq-false, ==_self,
}
use deep_spec_db.StringList.{
  pos, succ, pred_of, exceeds, not_positive, same_int, ListCursor, Scell, stringlist_lookup,
  stringlist_cardinality, find_position, pair_from, stringlist_get_cursor, stringlist_get_pair,
  stringlist_move_to_next, stringlist_move_to_first,
}
use deep_spec_db.StringList.Laws.{holds}

module _ {ℓ κ} {K : Type ℓ} {V : Type κ} where
  cardinality-length : (p : List (Scell K V)) → stringlist_cardinality p ≡ length p
  unfolding stringlist_cardinality
  cardinality-length [] = refl
  cardinality-length (q ∷ qs) = ap suc (cardinality-length qs)

  pair_from_lem : (p : List (Scell K V)) (n at : ℕ) → pair_from p (pos (at + n)) at ≡ get_elem? p n
  unfolding pair_from same_int
  pair_from_lem [] n at = refl
  pair_from_lem (q ∷ qs) zero at = let e : at + 0 ≡ at = omega arith in rw (e, ==_self at) refl
  pair_from_lem (q ∷ qs) (suc n) at =
      let e : at + suc n ≡ suc at + n = omega arith in
      rw (==-eq-false (at + suc n) at (λ h. absurd (omega (arith, h))), e)
        (pair_from_lem qs n (suc at))

  pair_from-get_elem? : (p : List (Scell K V)) (n : ℕ) → pair_from p (pos n) 0 ≡ get_elem? p n
  pair_from-get_elem? p n = let e : 0 + n ≡ n = omega arith in rw e at (pair_from_lem p n 0)

  find_position_lem :
      (strcmp_eq : K → K → Bool) (p : List (Scell K V)) (key : K) (cur : ℕ)
      → holds strcmp_eq p key ≡ true
      → (n : ℕ) × (q : Scell K V) × (find_position strcmp_eq p key cur ≡ cur + n)
        × (get_elem? p n ≡ some q)
        × (strcmp_eq q.key key ≡ true)
        × (q.value ≡ stringlist_lookup strcmp_eq p key)
  unfolding find_position holds stringlist_lookup
  find_position_lem strcmp_eq [] key cur h = cc
  find_position_lem strcmp_eq (q ∷ qs) key cur h = elim (Bool-cases (strcmp_eq q.key key)) [
    | inl eq ↦ (0, q, rw eq (omega arith), refl, eq, rw eq refl)
    | inr ne ↦
        let (n, r, at, got, same, value) =
          find_position_lem strcmp_eq qs key (suc cur) (rw ne at h) in
        (suc n, r, rw ne (omega (arith, at)), got, same, rw ne value)
  ]

  -- The cursor of a key that the list holds reads a record of that key, with the value that
  -- stringlist_lookup returns.
  pub get_pair-get_cursor :
      (strcmp_eq : K → K → Bool) (p : List (Scell K V)) (key : K)
      → holds strcmp_eq p key ≡ true
      → (q : Scell K V) × (stringlist_get_pair (stringlist_get_cursor strcmp_eq p key) ≡ some q)
        × (strcmp_eq q.key key ≡ true)
        × (q.value ≡ stringlist_lookup strcmp_eq p key)
  unfolding stringlist_get_pair stringlist_get_cursor
  get_pair-get_cursor strcmp_eq p key h =
      let (n, q, at, got, same, value) = find_position_lem strcmp_eq p key 0 h in
      (q, rw at (pair_from_lem p n 0 ∙ got), same, value)

  -- `k` steps of `stringlist_move_to_next`.
  unfoldable pub advance : ℕ → ListCursor K V → ListCursor K V
  advance zero mc = mc
  advance (suc k) mc = stringlist_move_to_next (advance k mc)

  move_to_next_inside :
      (p : List (Scell K V)) (k : ℕ)
      → k < length p
      → stringlist_move_to_next (record { list = p; cur = pos k })
        ≡ record { list = p; cur = pos (suc k) }
  unfolding stringlist_move_to_next succ exceeds not_positive
  move_to_next_inside p k h =
      rw
        (
          cardinality-length p,
          ltb-eq-false (length p) (suc k) (omega arith),
          ==-eq-false (suc k) 0 (λ h. absurd (omega (arith, h))),
        )
        refl

  move_to_next_past :
      (p : List (Scell K V)) (n : ℕ)
      → length p ≡ suc n
      → stringlist_move_to_next (record { list = p; cur = pos (suc n) })
        ≡ record { list = p; cur = pos n }
  unfolding stringlist_move_to_next succ exceeds pred_of
  move_to_next_past p n h =
      rw (cardinality-length p, h, lt→ltb (suc n) (suc (suc n)) (omega arith)) refl

  advance_lem :
      (mc : ListCursor K V) (k : ℕ)
      → k ≤ length mc.list
      → advance k (stringlist_move_to_first mc) ≡ record { list = mc.list; cur = pos k }
  unfolding advance stringlist_move_to_first
  advance_lem mc zero h = refl
  advance_lem mc (suc k) h =
      rw (advance_lem mc k (omega arith)) (move_to_next_inside mc.list k (omega arith))

  -- From the first position, k moves lead to record number k, and as many moves as there are
  -- records to no record; if there is a record, one more move leads back to the last one.
  pub move_to_next_lem :
      (mc : ListCursor K V)
      → ((k : ℕ)
          → k ≤ length mc.list
          → stringlist_get_pair (advance k (stringlist_move_to_first mc)) ≡ get_elem? mc.list k)
        × ((n : ℕ)
            → length mc.list ≡ suc n
            → stringlist_get_pair (advance (suc (suc n)) (stringlist_move_to_first mc))
              ≡ get_elem? mc.list n)
  unfolding advance stringlist_get_pair
  move_to_next_lem mc = (
    λ k h. rw (advance_lem mc k h) (pair_from-get_elem? mc.list k),
    λ n h.
        rw (advance_lem mc (suc n) (omega (arith, h)), move_to_next_past mc.list n h)
          (pair_from-get_elem? mc.list n),
  )
