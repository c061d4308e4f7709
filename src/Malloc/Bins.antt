-- ===== src/Malloc/Bins.antt =====
-- memmgr/malloc.c: the sizes and the bins, as the claims at the end of the file state them.
use deep_spec_db.Base.{
  ℕ, ◌+◌, ◌-◌, ◌*◌, ◌/◌, ◌%◌, ◌≤◌, ◌<◌, none, some, ltb, ◌≡◌, refl, ap, sym, ◌∙◌, Bool-cases, inl,
  inr, ltb→lt, ltb-le, arith, ltb-eq-false, lt→ltb,
}
use deep_spec_db.Malloc.{word, align, bins, bin2size, size2bin}

-- A size that the bins serve has a bin in range whose blocks are large enough, and the size of
-- these blocks has the same bin.
pub size2bin_lem :
    (s : ℕ)
    → s ≤ bin2size (bins - 1)
    → (b : ℕ) × (size2bin s ≡ some b)
      × (b < bins)
      × (s ≤ bin2size b)
      × (size2bin (bin2size b) ≡ some b)
unfolding bin2size size2bin
size2bin_lem s h =
    let b = (s + 7) / 16 in
    (
      b,
      rw (ltb-eq-false 120 s h) refl,
      omega arith,
      omega arith,
      rw (ltb-eq-false 120 ((((s + 7) / 16 + 1) * 2 - 1) * 8) (omega arith))
          (ap (λ x. some x) (omega arith)),
    )

-- A size above those of the bins has no bin.
pub size2bin_above : (s : ℕ) → bin2size (bins - 1) < s → size2bin s ≡ none
unfolding bin2size size2bin
size2bin_above s h = rw (lt→ltb 120 s h) refl

-- With its header, a block of a bin keeps the alignment.
pub bin2size_aligned : (b : ℕ) → (bin2size b + word) % (word * align) ≡ 0
unfolding bin2size
bin2size_aligned b = omega arith

pub size2bin-bin2size : (b : ℕ) → b < bins → size2bin (bin2size b) ≡ some b
unfolding bin2size size2bin
size2bin-bin2size b h =
    rw (ltb-eq-false 120 (((b + 1) * 2 - 1) * 8) (omega arith)) (ap (λ x. some x) (omega arith))

pub size2bin-le : (s b : ℕ) → size2bin s ≡ some b → s ≤ bin2size (bins - 1)
size2bin-le s b h = elim (Bool-cases (ltb (bin2size (bins - 1)) s)) [
  | inl above ↦ let e : none ≡ some b = sym (size2bin_above s (ltb→lt _ _ above)) ∙ h in cc
  | inr le ↦ ltb-le _ _ le
]
