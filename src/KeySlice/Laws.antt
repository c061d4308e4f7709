-- ===== src/KeySlice/Laws.antt =====
-- src/btrees and tries (Adewale)/util.c: the binary search, and the size of a permutation in
-- permuter.c.
use deep_spec_db.Base.{
  ℕ, zero, suc, ◌+◌, ◌/◌, ◌%◌, ◌≤◌, ◌<◌, Option, none, some, List, length, get_elem?, get_elem?-lt,
  ltb, ◌==◌, ◌>>=◌, ◌≡◌, ◌≢◌, refl, ap, ◌∙◌, arith, Bool-cases, inl, inr, ==-eq, ==-ne, ltb→lt,
  ltb-le, leb, lt→ltb, ◌>>◌, assert, ◌^◌, leb→le, leb-lt,
}
use deep_spec_db.KeySlice.{binary_search, permuter_size, permuter_set_size, permuter_get}

-- The array ascends.
abbrev pub Sorted : List ℕ → Type 0
Sorted a = (i j x y : ℕ) → i ≤ j → get_elem? a i ≡ some x → get_elem? a j ≡ some y → x ≤ y

-- A result of the search for `tgt` from `lo` on and below `hi`: a position of it in this range, or
-- -1, and then it is not in this range.
abbrev pub IsResult : List ℕ → ℕ → ℕ → ℕ → Option ℕ → Type 0
IsResult a tgt lo hi (some i) = (lo ≤ i) × (i < hi) × (get_elem? a i ≡ some tgt)
IsResult a tgt lo hi none = (i : ℕ) → lo ≤ i → i < hi → get_elem? a i ≢ some tgt

right_half :
    (a : List ℕ) (tgt lo mid hi : ℕ) (r : Option ℕ)
    → lo ≤ mid
    → ((i : ℕ) → i ≤ mid → get_elem? a i ≢ some tgt)
    → IsResult a tgt (mid + 1) hi r
    → IsResult a tgt lo hi r
right_half a tgt lo mid hi (some i) le absent h = (omega (arith, h.0), h.1, h.2)
right_half a tgt lo mid hi none le absent h = λ i l u. elim (Bool-cases (leb i mid)) [
  | inl t ↦ absent i (leb→le i mid t)
  | inr f ↦ h i (omega (arith, leb-lt i mid f)) u
]

left_half :
    (a : List ℕ) (tgt lo mid hi : ℕ) (r : Option ℕ)
    → mid ≤ hi
    → ((i : ℕ) → mid ≤ i → get_elem? a i ≢ some tgt)
    → IsResult a tgt lo mid r
    → IsResult a tgt lo hi r
left_half a tgt lo mid hi (some i) le absent h = (h.0, omega (arith, h.1), h.2)
left_half a tgt lo mid hi none le absent h = λ i l u. elim (Bool-cases (leb mid i)) [
  | inl t ↦ absent i (leb→le mid i t)
  | inr f ↦ h i l (leb-lt mid i f)
]

-- On an array that ascends, for a range within it that ends at 2^30 or before and with more fuel
-- than the range has elements, UTIL_BinarySearch returns a position of the target in the range, or
-- -1, and then the target is not in the range.
pub binary_search-IsResult :
    (n : ℕ) (a : List ℕ) (tgt lo hi : ℕ)
    → Sorted a
    → lo ≤ hi
    → hi ≤ length a
    → hi ≤ 2 ^ 30
    → hi < lo + n
    → (r : Option ℕ) × (binary_search n a tgt lo hi ≡ some r) × IsResult a tgt lo hi r
unfolding binary_search
binary_search-IsResult zero a tgt lo hi sorted le inside small enough = absurd (omega arith)
binary_search-IsResult (suc n) a tgt lo hi sorted le inside small enough =
    elim (Bool-cases (ltb lo hi)) [
      | inr f ↦ (none, rw f refl, λ i l u. absurd (omega (arith, ltb-le lo hi f)))
      | inl t ↦
          let mid = (lo + hi) / 2 in
          let below : mid < hi = omega (arith, ltb→lt lo hi t) in
          let above : lo ≤ mid = omega (arith, ltb→lt lo hi t) in
          let fits = lt→ltb (lo + hi) (2 ^ 31) (omega (arith, ltb→lt lo hi t)) in
          let (val, at, _) = get_elem?-lt a mid (omega arith) in
          elim (Bool-cases (val == tgt)) [
            | inl same ↦ (
              some mid,
              rw (t, fits, ◌>>◌, assert, at, ◌>>=◌, same) refl,
              (above, below, at ∙ ap (λ x. some x) (==-eq val tgt same)),
            )
            | inr other ↦ elim (Bool-cases (ltb val tgt)) [
              | inl less ↦
                  let (r, run, good) =
                    binary_search-IsResult n a tgt (mid + 1) hi sorted (omega arith) inside small
                      (omega arith) in
                  (
                    r,
                    rw (t, fits, ◌>>◌, assert, at, ◌>>=◌, other, less) run,
                    right_half a tgt lo mid hi r above
                        (λ i l e.
                          absurd (omega (arith, sorted i mid tgt val l e at, ltb→lt val tgt less)))
                        good,
                  )
              | inr more ↦
                  let (r, run, good) =
                    binary_search-IsResult n a tgt lo mid sorted above (omega arith) (omega arith)
                      (omega arith) in
                  (
                    r,
                    rw (t, fits, ◌>>◌, assert, at, ◌>>=◌, other, more) run,
                    left_half a tgt lo mid hi r (omega arith)
                        (λ i l e. absurd (
                          ==-ne val tgt other
                            (omega (arith, sorted mid i val tgt l at e, ltb-le val tgt more))))
                        good,
                  )
            ]
          ]
    ]

-- `Permuter_setSize` sets the size to the lower four bits and keeps the first element.
pub permuter_set_size_lem :
    (permutation size : ℕ)
    → (permuter_size (permuter_set_size permutation size) ≡ size % 16)
      × (permuter_get (permuter_set_size permutation size) 0 ≡ permuter_get permutation 0)
unfolding permuter_size permuter_set_size permuter_get
permuter_set_size_lem permutation size = (omega arith, omega arith)
