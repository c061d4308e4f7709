-- ===== src/StringBag/Placing.antt =====
-- src/btrees and tries (Adewale)/stringbag.c: a string that is written into the bag.
use deep_spec_db.Base.{
  ℕ, ◌+◌, ◌^◌, ◌≤◌, ◌<◌, ◌≡◌, ◌≢◌, ◌⊎◌, sym, ap, subst, ◌∙◌, arith, some, List, length, ltb, ltb→lt,
  ltb-le, ◌==◌, ==-eq, ==-ne, Bool-cases, inl, inr,
}
use deep_spec_db.StringBag.{
  StringBag, chars, memcpy, read_word, write_word, size_at, capacity_at, pos_at, len_at, sb_get,
  assign_at,
}
use deep_spec_db.StringBag.Words.{
  memcpy_other, chars-memcpy, chars_same, read_word_same, write_word_other, read-write_same,
  read-write_other,
}
use deep_spec_db.StringBag.Spec.{header_end, IsBag, read_string, read_string_lem}

-- Whether an offset is outside of the info of a string.
abbrev Beside : ℕ → ℕ → ℕ → Type 0
Beside p o n = (o + n ≤ pos_at p) ⊎ (pos_at p + 16 ≤ o)

beside : (p q : ℕ) → p ≢ q → Beside p (pos_at q) 16
beside p q ne = elim (Bool-cases (ltb q p)) [
  | inl t ↦ inl (omega (arith, ltb→lt q p t))
  | inr f ↦ elim (Bool-cases (ltb p q)) [
    | inl t ↦ inr (omega (arith, ltb→lt p q t))
    | inr g ↦ absurd (ne (omega (arith, ltb-le q p f, ltb-le p q g)))
  ]
]

-- A string that is written behind the header, where no other one stands.
module _ (bag : StringBag) (width : ℕ) (ok : IsBag bag width) (p : ℕ) (here : p < width)
    (s : List ℕ) (fits : length s < 2 ^ 31) (start : ℕ)
    (behind : 0 < length s → header_end width ≤ start)
    (room : start + length s ≤ read_word bag size_at)
    (free : (q : ℕ)
      → q < width
      → p ≢ q
      → (x : ℕ) → start ≤ x
      → x < start + length s
      → read_word bag (pos_at q) ≤ x
      → x < read_word bag (pos_at q) + read_word bag (len_at q)
      → ⊥) where
  abbrev after : StringBag
  after = assign_at bag p s start

  infos_other : (i : ℕ) → Beside p i 1 → after i ≡ memcpy bag start s i
  unfolding assign_at
  infos_other i out =
      let written = write_word (memcpy bag start s) (pos_at p) start in
      write_word_other written (len_at p) (length s) i
        (elim out [ inl h ↦ inl (omega (arith, h)) | inr h ↦ inr (omega (arith, h)) ])
      ∙ write_word_other (memcpy bag start s) (pos_at p) start i
          (elim out [ inl h ↦ inl (omega (arith, h)) | inr h ↦ inr (omega (arith, h)) ])

  word_other :
      (o : ℕ) → o + 8 ≤ header_end width → Beside p o 8 → read_word after o ≡ read_word bag o
  word_other o low out = read_word_same after bag o (λ j le lt.
      infos_other j (elim out [ inl h ↦ inl (omega (arith, h)) | inr h ↦ inr (omega (arith, h)) ])
      ∙ memcpy_other bag start s j (λ l m. omega (arith, behind (omega (arith, l, m)))))

  new_len : read_word after (len_at p) ≡ length s
  unfolding assign_at
  new_len =
      read-write_same (write_word (memcpy bag start s) (pos_at p) start) (len_at p) (length s)
        (omega (arith, fits))

  new_pos : read_word after (pos_at p) ≡ start
  unfolding assign_at
  new_pos =
      read-write_other (write_word (memcpy bag start s) (pos_at p) start) (len_at p) (length s)
        (pos_at p) (inl (omega arith))
      ∙ read-write_same (memcpy bag start s) (pos_at p) start
          (omega (arith, room, ok.used, ok.fits))

  new_chars : chars after start (length s) ≡ s
  new_chars =
      chars_same after (memcpy bag start s) start (length s)
        (λ j le lt. infos_other j (inr (omega (arith, here, behind (omega (arith, le, lt))))))
      ∙ chars-memcpy bag start s

  size_kept : read_word after size_at ≡ read_word bag size_at
  size_kept = word_other size_at (omega arith) (inl (omega arith))

  capacity_kept : read_word after capacity_at ≡ read_word bag capacity_at
  capacity_kept = word_other capacity_at (omega arith) (inl (omega arith))

  pos_kept : (q : ℕ) → q < width → p ≢ q → read_word after (pos_at q) ≡ read_word bag (pos_at q)
  pos_kept q lt ne =
      word_other (pos_at q) (omega (arith, lt))
        (elim (beside p q ne) [ inl h ↦ inl (omega (arith, h)) | inr h ↦ inr (omega (arith, h)) ])

  len_kept : (q : ℕ) → q < width → p ≢ q → read_word after (len_at q) ≡ read_word bag (len_at q)
  len_kept q lt ne =
      word_other (len_at q) (omega (arith, lt))
        (elim (beside p q ne) [ inl h ↦ inl (omega (arith, h)) | inr h ↦ inr (omega (arith, h)) ])

  -- The infos after the call: the new one, or that of another string.
  infos :
      (q : ℕ)
      → q < width
      → ((p ≡ q) × (read_word after (pos_at q) ≡ start) × (read_word after (len_at q) ≡ length s))
        ⊎ ((p ≢ q)
            × (read_word after (pos_at q) ≡ read_word bag (pos_at q))
            × (read_word after (len_at q) ≡ read_word bag (len_at q)))
  infos q lt = elim (Bool-cases (p == q)) [
    | inl t ↦
        let e = ==-eq p q t in
        inl (
          e,
          subst (λ k. read_word after (pos_at k) ≡ start) e new_pos,
          subst (λ k. read_word after (len_at k) ≡ length s) e new_len,
        )
    | inr f ↦ let ne = ==-ne p q f in inr (ne, pos_kept q lt ne, len_kept q lt ne)
  ]

  after-IsBag : IsBag after width
  after-IsBag = record {
    header = omega (arith, ok.header, size_kept);
    used = omega (arith, ok.used, size_kept, capacity_kept);
    fits = omega (arith, ok.fits, capacity_kept);
    placed = λ q lt. elim (infos q lt) [
      | inl (_, at, len) ↦ omega (arith, at, room, size_kept)
      | inr (_, at, len) ↦ omega (arith, at, ok.placed q lt, size_kept)
    ];
    short = λ q lt. elim (infos q lt) [
      | inl (_, at, len) ↦ omega (arith, len, fits)
      | inr (_, at, len) ↦ omega (arith, len, ok.short q lt)
    ];
    inside = λ q lt some_len. elim (infos q lt) [
      | inl (_, at, len) ↦ (
        omega (arith, at, behind (omega (arith, len, some_len))),
        omega (arith, at, len, room, size_kept),
      )
      | inr (_, at, len) ↦
          let was = ok.inside q lt (omega (arith, len, some_len)) in
          (omega (arith, at, was.0), omega (arith, at, len, was.1, size_kept))
    ];
    apart = λ a b la lb ne x l1 l2 l3 l4. elim (infos a la) [
      | inl (e, at, len) ↦ elim (infos b lb) [
        | inl (e', _, _) ↦ ne (sym e ∙ e')
        | inr (ne', at', len') ↦
            free b lb ne' x (omega (arith, at, l1)) (omega (arith, at, len, l2))
              (omega (arith, at', l3)) (omega (arith, at', len', l4))
      ]
      | inr (ne', at, len) ↦ elim (infos b lb) [
        | inl (e', at', len') ↦
            free a la ne' x (omega (arith, at', l3)) (omega (arith, at', len', l4))
              (omega (arith, at, l1)) (omega (arith, at, len, l2))
        | inr (_, at', len') ↦
            ok.apart a b la lb ne x (omega (arith, at, l1)) (omega (arith, at, len, l2))
              (omega (arith, at', l3)) (omega (arith, at', len', l4))
      ]
    ];
  }

  new_string : read_string after (sb_get after p) ≡ some s
  new_string =
      read_string_lem after width p after-IsBag here
      ∙ (ap (λ o. some (chars after o (read_word after (len_at p)))) new_pos
          ∙ (ap (λ n. some (chars after start n)) new_len ∙ ap (λ t. some t) new_chars))

  kept_string :
      (q : ℕ)
      → q < width
      → p ≢ q
      → read_string after (sb_get after q) ≡ read_string bag (sb_get bag q)
  kept_string q lt ne =
      read_string_lem after width q after-IsBag lt
      ∙ (ap (λ o. some (chars after o (read_word after (len_at q)))) (pos_kept q lt ne)
          ∙ (ap (λ n. some (chars after (read_word bag (pos_at q)) n)) (len_kept q lt ne)
              ∙ (ap (λ t. some t)
                    (chars_same after bag (read_word bag (pos_at q)) (read_word bag (len_at q))
                      (λ j le l.
                        infos_other j (inr (omega (arith, here, (ok.inside q lt (omega arith)).0)))
                        ∙ memcpy_other bag start s j (λ l1 l2. free q lt ne j l1 l2 le l)))
                  ∙ sym (read_string_lem bag width q ok lt))))

  -- The bag is well formed, and only this string is another one.
  pub assign_at_lem :
      IsBag after width
      × (read_string after (sb_get after p) ≡ some s)
      × ((q : ℕ)
          → q < width
          → p ≢ q
          → read_string after (sb_get after q) ≡ read_string bag (sb_get bag q))
  assign_at_lem = (after-IsBag, new_string, kept_string)
