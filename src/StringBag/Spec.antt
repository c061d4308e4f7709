-- ===== src/StringBag/Spec.antt =====
-- src/btrees and tries (Adewale)/stringbag.c: the representation invariant of a bag, and a bag of which
-- more memory is used.
use deep_spec_db.Base.{
  ℕ, ◌+◌, ◌*◌, ◌%◌, ◌^◌, ◌≤◌, ◌<◌, ◌≡◌, ◌≢◌, refl, sym, ap, ◌∙◌, arith, Option, none, some, List,
  lt→ltb, inr, ℤ, pos, negsuc,
}
use deep_spec_db.StringBag.{
  StringBag, chars, read_word, write_word, size_at, capacity_at, pos_at, len_at, to_int, sb_get,
}
use deep_spec_db.StringBag.Words.{chars_same, write_word_other, read-write_same, read-write_other}

-- Where the infos of a bag of so many strings end.
abbrev pub header_end : ℕ → ℕ
header_end width = 16 + 16 * width

-- Behind the header and in the used part of the bag the strings stand apart from each other.
pub record IsBag (bag : StringBag) (width : ℕ) : Type 0 where
  pub header : header_end width ≤ read_word bag size_at
  pub used : read_word bag size_at ≤ read_word bag capacity_at
  pub fits : read_word bag capacity_at < 2 ^ 64
  pub placed : (p : ℕ) → p < width → read_word bag (pos_at p) ≤ read_word bag size_at
  pub short : (p : ℕ) → p < width → read_word bag (len_at p) < 2 ^ 31
  pub inside :
      (p : ℕ)
      → p < width
      → 0 < read_word bag (len_at p)
      → (header_end width ≤ read_word bag (pos_at p))
        × (read_word bag (pos_at p) + read_word bag (len_at p) ≤ read_word bag size_at)
  pub apart :
      (p q : ℕ)
      → p < width
      → q < width
      → p ≢ q
      → (x : ℕ) → read_word bag (pos_at p) ≤ x
      → x < read_word bag (pos_at p) + read_word bag (len_at p)
      → read_word bag (pos_at q) ≤ x
      → x < read_word bag (pos_at q) + read_word bag (len_at q)
      → ⊥

-- The string at the offset and of the length that SB_Get returns, none for a negative length.
unfoldable pub read_string : StringBag → ℕ × ℤ → Option (List ℕ)
read_string bag (start, pos n) = some (chars bag start n)
read_string bag (start, negsuc n) = none

to_int_small : (v : ℕ) → v < 2 ^ 31 → to_int v ≡ pos v
unfolding to_int
to_int_small v h = let e : v % 2 ^ 32 ≡ v = omega arith in rw (e, lt→ltb v (2 ^ 31) h) refl

pub read_string_lem :
    (bag : StringBag) (width p : ℕ)
    → IsBag bag width
    → p < width
    → read_string bag (sb_get bag p)
      ≡ some (chars bag (read_word bag (pos_at p)) (read_word bag (len_at p)))
unfolding sb_get read_string
read_string_lem bag width p ok lt =
    ap (λ l. read_string bag (read_word bag (pos_at p), l))
      (to_int_small (read_word bag (len_at p)) (ok.short p lt))

-- The bag after more of its memory is used.
module _ (bag : StringBag) (width : ℕ) (ok : IsBag bag width) (size : ℕ)
    (more : read_word bag size_at ≤ size) (room : size ≤ read_word bag capacity_at) where
  pub grown_size : read_word (write_word bag size_at size) size_at ≡ size
  grown_size = read-write_same bag size_at size (omega (arith, ok.fits))

  pub grown_word : (o : ℕ) → 8 ≤ o → read_word (write_word bag size_at size) o ≡ read_word bag o
  grown_word o h = read-write_other bag size_at size o (inr (omega (arith, h)))

  pub grown-IsBag : IsBag (write_word bag size_at size) width
  grown-IsBag = record {
    header = omega (arith, ok.header, grown_size);
    used = omega (arith, grown_size, grown_word capacity_at (omega arith));
    fits = omega (arith, ok.fits, grown_word capacity_at (omega arith));
    placed = λ p lt. omega (arith, ok.placed p lt, grown_size, grown_word (pos_at p) (omega arith));
    short = λ p lt. omega (arith, ok.short p lt, grown_word (len_at p) (omega arith));
    inside = λ p lt some_len.
        let at_pos = grown_word (pos_at p) (omega arith) in
        let at_len = grown_word (len_at p) (omega arith) in
        let was = ok.inside p lt (omega (arith, at_len)) in
        (omega (arith, was.0, at_pos), omega (arith, was.1, at_pos, at_len, grown_size));
    apart = λ p q lp lq ne x l1 l2 l3 l4.
        let at_pos = grown_word (pos_at p) (omega arith) in
        let at_len = grown_word (len_at p) (omega arith) in
        let at_pos' = grown_word (pos_at q) (omega arith) in
        let at_len' = grown_word (len_at q) (omega arith) in
        ok.apart p q lp lq ne x (omega (arith, at_pos)) (omega (arith, at_pos, at_len))
          (omega (arith, at_pos')) (omega (arith, at_pos', at_len'));
  }

  pub grown_string :
      (p : ℕ)
      → p < width
      → read_string (write_word bag size_at size) (sb_get (write_word bag size_at size) p)
        ≡ read_string bag (sb_get bag p)
  grown_string p lt =
      let b = write_word bag size_at size in
      let at_pos = grown_word (pos_at p) (omega arith) in
      let at_len = grown_word (len_at p) (omega arith) in
      read_string_lem b width p grown-IsBag lt
      ∙ (ap (λ o. some (chars b o (read_word b (len_at p)))) at_pos
          ∙ (ap (λ n. some (chars b (read_word bag (pos_at p)) n)) at_len
              ∙ (ap (λ t. some t)
                    (chars_same b bag (read_word bag (pos_at p)) (read_word bag (len_at p))
                      (λ j le l.
                        write_word_other bag size_at size j
                          (inr (omega (arith, (ok.inside p lt (omega arith)).0)))))
                  ∙ sym (read_string_lem bag width p ok lt))))
