-- ===== src/StringBag/Words.antt =====
-- src/btrees and tries (Adewale)/stringbag.c: bytes and words of the memory after a write.
use deep_spec_db.Base.{
  ℕ, zero, suc, ◌+◌, ◌/◌, ◌^◌, ◌≤◌, ◌<◌, ◌≡◌, ◌⊎◌, refl, sym, ap, ◌∙◌, arith, List, [], ◌∷◌, length,
  put, put_same, put_other, inl, inr,
}
use deep_spec_db.StringBag.{StringBag, chars, memcpy, to_bytes, of_bytes, read_word, write_word}

pub memcpy_other :
    (buf : StringBag) (start : ℕ) (s : List ℕ) (i : ℕ)
    → (start ≤ i → i < start + length s → ⊥)
    → memcpy buf start s i ≡ buf i
unfolding memcpy
memcpy_other buf start [] i out = refl
memcpy_other buf start (c ∷ s) i out =
    memcpy_other (put buf start c) (suc start) s i (λ le lt. out (omega arith) (omega arith))
    ∙ put_other buf start c i (λ e. out (omega (arith, e)) (omega (arith, e)))

pub chars-memcpy :
    (buf : StringBag) (start : ℕ) (s : List ℕ) → chars (memcpy buf start s) start (length s) ≡ s
unfolding chars memcpy
chars-memcpy buf start [] = refl
chars-memcpy buf start (c ∷ s) =
    let first =
      memcpy_other (put buf start c) (suc start) s start (λ le lt. omega arith)
      ∙ put_same buf start c in
    let rest = chars-memcpy (put buf start c) (suc start) s in λ i. first i ∷ rest i

pub chars_same :
    (b b' : ℕ → ℕ) (start n : ℕ)
    → ((j : ℕ) → start ≤ j → j < start + n → b j ≡ b' j)
    → chars b start n ≡ chars b' start n
unfolding chars
chars_same b b' start zero same = refl
chars_same b b' start (suc n) same =
    let first = same start (omega arith) (omega arith) in
    let rest = chars_same b b' (suc start) n (λ j le lt. same j (omega arith) (omega arith)) in
    λ i. first i ∷ rest i

of_bytes-to_bytes : (n v : ℕ) → v < 256 ^ n → of_bytes (to_bytes n v) ≡ v
unfolding of_bytes to_bytes
of_bytes-to_bytes zero v h = omega (arith, h)
of_bytes-to_bytes (suc n) v h =
    let rest = of_bytes-to_bytes n (v / 256) (omega (arith, h)) in omega (arith, rest)

word_of_bytes : (v : ℕ) → v < 2 ^ 64 → of_bytes (to_bytes 8 v) ≡ v
word_of_bytes v h = of_bytes-to_bytes 8 v (omega arith)

length-to_bytes : (n v : ℕ) → length (to_bytes n v) ≡ n
unfolding to_bytes
length-to_bytes zero v = refl
length-to_bytes (suc n) v = ap suc (length-to_bytes n (v / 256))

-- A word of which no byte changes.
pub read_word_same :
    (b b' : StringBag) (start : ℕ)
    → ((j : ℕ) → start ≤ j → j < start + 8 → b j ≡ b' j)
    → read_word b start ≡ read_word b' start
unfolding read_word
read_word_same b b' start same = ap of_bytes (chars_same b b' start 8 same)

pub write_word_other :
    (b : StringBag) (start v i : ℕ) → (i < start) ⊎ (start + 8 ≤ i) → write_word b start v i ≡ b i
unfolding write_word
write_word_other b start v i out =
    memcpy_other b start (to_bytes 8 v) i (λ le lt. elim out [
      | inl h ↦ omega (arith, h)
      | inr h ↦ omega (arith, h, length-to_bytes 8 v)
    ])

pub read-write_same :
    (b : StringBag) (start v : ℕ) → v < 2 ^ 64 → read_word (write_word b start v) start ≡ v
unfolding read_word write_word
read-write_same b start v h =
    ap (λ n. of_bytes (chars (memcpy b start (to_bytes 8 v)) start n)) (sym (length-to_bytes 8 v))
    ∙ (ap of_bytes (chars-memcpy b start (to_bytes 8 v)) ∙ word_of_bytes v h)

pub read-write_other :
    (b : StringBag) (start v other : ℕ)
    → (other + 8 ≤ start) ⊎ (start + 8 ≤ other)
    → read_word (write_word b start v) other ≡ read_word b other
read-write_other b start v other out = read_word_same (write_word b start v) b other (λ j le lt.
    write_word_other b start v j
      (elim out [ inl h ↦ inl (omega (arith, h)) | inr h ↦ inr (omega (arith, h)) ]))
