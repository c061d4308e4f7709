-- ===== src/StringBag/Fresh.antt =====
-- src/btrees and tries (Adewale)/stringbag.c: a new bag.
use deep_spec_db.Base.{
  ℕ, zero, suc, ◌+◌, ◌-◌, ◌*◌, ◌^◌, ◌≤◌, ◌<◌, ◌≡◌, subst, ◌∙◌, arith, none, some, replicate, leb,
  leb→le, ltb, ltb→lt, ltb-le, put_same, put, Bool-cases, inl, inr,
}
use mathlib.Core.Option.{some-injective}
use deep_spec_db.StringBag.{
  StringBag, chars, memcpy, of_bytes, read_word, write_word, size_at, capacity_at, pos_at, len_at,
  info_size, sb_overhead, sb_max_size, sb_new_string_bag,
}
use deep_spec_db.StringBag.Words.{memcpy_other, read_word_same, read-write_same, read-write_other}
use deep_spec_db.StringBag.Spec.{header_end, IsBag}

memset_lem :
    (b : StringBag) (start n j : ℕ)
    → start ≤ j
    → j < start + n
    → memcpy b start (replicate n 0) j ≡ 0
unfolding memcpy
memset_lem b start zero j le lt = absurd (omega arith)
memset_lem b start (suc n) j le lt = elim (Bool-cases (ltb start j)) [
  | inl t ↦ memset_lem (put b start 0) (suc start) n j (ltb→lt start j t) (omega arith)
  | inr f ↦
      let e : start ≡ j = omega (arith, ltb-le start j f) in
      memcpy_other (put b start 0) (suc start) (replicate n 0) j (λ l m. omega (arith, e, l))
      ∙ subst (λ k. put b start 0 k ≡ 0) e (put_same b start 0)
]

read_word_zero :
    (b : StringBag) (o : ℕ) → ((j : ℕ) → o ≤ j → j < o + 8 → b j ≡ 0) → read_word b o ≡ 0
unfolding read_word chars of_bytes
read_word_zero b o all = read_word_same b (λ x. 0) o all

-- The header that `SB_NewStringBag` writes.
module _ (mem : StringBag) (width size capacity : ℕ) (some_width : 0 < width)
    (is_size : size ≡ header_end width) (le : size ≤ capacity) (fits : capacity < 2 ^ 64) where
  abbrev words : StringBag
  words = write_word (write_word mem size_at size) capacity_at capacity

  abbrev fresh : StringBag
  fresh = memcpy words (pos_at 0) (replicate (info_size * width) 0)

  before : (o : ℕ) → o + 8 ≤ 16 → read_word fresh o ≡ read_word words o
  before o low = read_word_same fresh words o (λ j l m.
      memcpy_other words (pos_at 0) (replicate (info_size * width) 0) j
        (λ a c. omega (arith, low, l, m, a)))

  size_word : read_word fresh size_at ≡ size
  size_word =
      before size_at (omega arith)
      ∙ (read-write_other (write_word mem size_at size) capacity_at capacity size_at
            (inl (omega arith))
          ∙ read-write_same mem size_at size (omega (arith, le, fits)))

  room_word : read_word fresh capacity_at ≡ capacity
  room_word =
      before capacity_at (omega arith)
      ∙ read-write_same (write_word mem size_at size) capacity_at capacity fits

  info_word : (o : ℕ) → 16 ≤ o → o + 8 ≤ header_end width → read_word fresh o ≡ 0
  info_word o low high = read_word_zero fresh o (λ j l m.
      memset_lem words (pos_at 0) (info_size * width) j (omega (arith, low, l))
        (omega (arith, high, m)))

  fresh-IsBag : IsBag fresh width
  fresh-IsBag =
      let no_pos : (p : ℕ) → p < width → read_word fresh (pos_at p) ≡ 0 =
        λ p lt. info_word (pos_at p) (omega arith) (omega (arith, lt)) in
      let no_len : (p : ℕ) → p < width → read_word fresh (len_at p) ≡ 0 =
        λ p lt. info_word (len_at p) (omega arith) (omega (arith, lt)) in
      record {
        header = omega (arith, is_size, size_word);
        used = omega (arith, le, size_word, room_word);
        fits = omega (arith, fits, room_word);
        placed = λ p lt. omega (arith, no_pos p lt);
        short = λ p lt. omega (arith, no_len p lt);
        inside = λ p lt some_len. absurd (omega (arith, no_len p lt, some_len));
        apart = λ p q lp lq ne x l1 l2 l3 l4. omega (arith, no_pos p lp, no_len p lp, l2, l1);
      }

-- A new bag is well formed.
pub sb_new_string_bag-IsBag :
    (mem : StringBag) (width capacity : ℕ) (bag : StringBag)
    → sb_new_string_bag mem width capacity ≡ some bag
    → IsBag bag width
unfolding sb_new_string_bag sb_overhead sb_max_size
sb_new_string_bag-IsBag mem width capacity bag h = elim (Bool-cases (ltb 0 width)) [
  | inr f ↦ let never : none ≡ some bag = rw f at h in cc
  | inl w ↦
      let size = 32 + (width - 1) * info_size in
      elim (Bool-cases (leb size capacity)) [
        | inr f ↦ let never : none ≡ some bag = rw (w, f) at h in cc
        | inl t ↦ elim (Bool-cases (leb capacity (2 ^ 64 - 1))) [
          | inr f ↦ let never : none ≡ some bag = rw (w, t, f) at h in cc
          | inl u ↦
              let lt = ltb→lt 0 width w in
              subst (λ b. IsBag b width) (some-injective _ bag (rw (w, t, u) at h))
                (fresh-IsBag mem width size capacity lt (omega (arith, lt)) (leb→le _ _ t)
                  (omega (arith, leb→le _ _ u)))
        ]
      ]
]
