-- ===== src/Malloc/Blocks.antt =====
-- memmgr/malloc.c: the free lists that `fill_bin` builds, and `malloc` and `free` on them.
use deep_spec_db.Base.{
  ℕ, zero, suc, ◌+◌, ◌-◌, ◌*◌, ◌%◌, ◌≤◌, ◌<◌, none, some, List, [], ◌∷◌, length, get_elem?, set,
  ltb, leb, ◌==◌, le→leb, get_elem?-set_same, set-set_back, ◌>>=◌, true, false, ◌≡◌, ◌≢◌, refl, ap,
  ◌∙◌, arith, ltb-eq-false, ==-eq-false, ==_self,
}
use native.Mathlib.Nat.{suc-mul, div-mul-le_self, le-div_iff_mul-le}
use deep_spec_db.Malloc.{
  word, align, waste, big_block, bins, bin2size, size2bin, Memory, store, State, fill_blocks,
  block_count, fill_bin, malloc_small, malloc, free_small, free,
}
use deep_spec_db.Malloc.Bins.{size2bin-bin2size, size2bin-le}

-- The list from an address on, up to NULL: the links stand at the blocks' addresses and the size
-- `s` in the word before each.
abbrev pub FreeList : Memory → ℕ → ℕ → List ℕ → Type 0
FreeList m s a [] = a ≡ 0
FreeList m s a (p ∷ ps) = (a ≡ p) × (p ≢ 0) × (m (p - word) ≡ s) × FreeList m s (m p) ps

-- `n + 1` blocks of size `s` one after the other, each behind its header.
abbrev pub block_addresses : ℕ → ℕ → ℕ → List ℕ
block_addresses zero p s = p ∷ []
block_addresses (suc n) p s = p ∷ block_addresses n (p + (s + word)) s

-- Aligned blocks that lie, headers included, from `lo` on and up to `hi`, one after the other.
abbrev pub Placed : ℕ → ℕ → ℕ → List ℕ → Type 0
Placed s lo hi [] = lo ≤ hi
Placed s lo hi (p ∷ ps) = (p % (word * align) ≡ 0) × (lo + word ≤ p) × Placed s (p + s) hi ps

fill_blocks-frame : (n : ℕ) (m : Memory) (q s x : ℕ) → x < q → fill_blocks n m q s x ≡ m x
unfolding fill_blocks store
fill_blocks-frame zero m q s x h =
    rw
      (
        ==-eq-false x (q + word) (λ e. absurd (omega (arith, e))),
        ==-eq-false x q (λ e. absurd (omega (arith, e))),
      )
      refl
fill_blocks-frame (suc n) m q s x h =
    fill_blocks-frame n _ (q + (s + word)) s x (omega arith)
    ∙ (rw
        (
          ==-eq-false x (q + word) (λ e. absurd (omega (arith, e))),
          ==-eq-false x q (λ e. absurd (omega (arith, e))),
        )
        refl)

-- A block written before the ones behind it.
block_written :
    (m : Memory) (q s link : ℕ)
    → (store (store m q s) (q + word) link q ≡ s)
      × (store (store m q s) (q + word) link (q + word) ≡ link)
unfolding store
block_written m q s link = (
  rw (==-eq-false q (q + word) (λ e. absurd (omega (arith, e))), ==_self q) refl,
  rw (==_self (q + word)) refl,
)

fill_blocks-FreeList :
    (n : ℕ) (m : Memory) (q s : ℕ)
    → word ≤ s
    → FreeList (fill_blocks n m q s) s (q + word) (block_addresses n (q + word) s)
unfolding fill_blocks
fill_blocks-FreeList zero m q s h =
    let (size, link) = block_written m q s 0 in
    let e : q + word - word ≡ q = omega arith in
    (refl, (λ z. absurd (omega (arith, z))), rw e size, link)
fill_blocks-FreeList (suc n) m q s h =
    let (size, link) = block_written m q s (q + word + (s + word)) in
    let e : q + word - word ≡ q = omega arith in
    let next : q + (s + word) + word ≡ q + word + (s + word) = omega arith in
    let m' = store (store m q s) (q + word) (q + word + (s + word)) in
    (
      refl,
      (λ z. absurd (omega (arith, z))),
      rw e (fill_blocks-frame n m' (q + (s + word)) s q (omega arith) ∙ size),
      rw (fill_blocks-frame n m' (q + (s + word)) s (q + word) (omega arith) ∙ link)
          (rw next at (fill_blocks-FreeList n m' (q + (s + word)) s h)),
    )

block_addresses-Placed :
    (n p s lo hi : ℕ)
    → p % 16 ≡ 0
    → (s + word) % 16 ≡ 0
    → lo + word ≤ p
    → p + s + n * (s + word) ≤ hi
    → Placed s lo hi (block_addresses n p s)
block_addresses-Placed zero p s lo hi a b l u = (a, l, omega arith)
block_addresses-Placed (suc n) p s lo hi a b l u =
    let e : suc n * (s + word) ≡ n * (s + word) + (s + word) = suc-mul n (s + word) in
    (
      a,
      l,
      block_addresses-Placed n (p + (s + word)) s (p + s) hi (omega arith) b (omega arith)
          (omega (arith, e)),
    )

block_addresses-length : (n p s : ℕ) → length (block_addresses n p s) ≡ suc n
block_addresses-length zero p s = refl
block_addresses-length (suc n) p s = ap suc (block_addresses-length n (p + (s + word)) s)

size_bounds :
    (b : ℕ) → b < bins → ((word ≤ bin2size b) × (bin2size b ≤ 120)) × ((bin2size b + word) % 16 ≡ 0)
unfolding bin2size
size_bounds b h = ((omega arith, omega arith), omega arith)

split_last : (c x : ℕ) → 1 ≤ c → c * x ≡ (c - 1) * x + x
split_last zero x h = absurd (omega arith)
split_last (suc n) x h = let e : suc n - 1 ≡ n = omega arith in rw e (suc-mul n x)

block_count-fits :
    (s : ℕ)
    → word ≤ s
    → s ≤ 120
    → (1 ≤ block_count s) × (block_count s * (s + word) + waste ≤ big_block)
unfolding block_count
block_count-fits s l u = (
  (le-div_iff_mul-le (omega arith)).1 (omega arith),
  omega (arith, div-mul-le_self 1048568 (s + word)),
)

-- From a big block that is not NULL and aligned to two words, and for a bin in range, fill_bin
-- makes a free list of Nblocks blocks of the bin's size; they are aligned, do not overlap, and lie
-- with their headers within the big block.
pub fill_bin_lem :
    (mapped : ℕ) (m : Memory) (b : ℕ)
    → mapped ≢ 0
    → mapped % (word * align) ≡ 0
    → b < bins
    → (ps : List ℕ) × FreeList (fill_bin mapped m b).1 (bin2size b) (fill_bin mapped m b).0 ps
      × (length ps ≡ block_count (bin2size b))
      × Placed (bin2size b) (mapped + waste) (mapped + big_block) ps
unfolding fill_bin
fill_bin_lem mapped m b nz al h =
    let s = bin2size b in
    let (bounds, aligned) = size_bounds b h in
    let n = block_count s - 1 in
    let (some_blocks, fits) = block_count-fits s bounds.0 bounds.1 in
    let last : block_count s * (s + word) ≡ n * (s + word) + (s + word) =
      split_last (block_count s) (s + word) some_blocks in
    rw (==-eq-false mapped 0 nz) (
      block_addresses n (mapped + waste + word) s,
      fill_blocks-FreeList n m (mapped + waste) s bounds.0,
      block_addresses-length n (mapped + waste + word) s ∙ omega arith,
      block_addresses-Placed n (mapped + waste + word) s (mapped + waste) (mapped + big_block)
          (omega arith) aligned (omega arith) (omega (arith, last, fits)),
    )

-- In a state with all bins, free of a block that is not NULL and has the size of a bin makes it
-- the head of that bin's list, linked to the old head, and calls no munmap; the next malloc of a
-- size of that bin returns the block and leaves the bins as they were before.
pub malloc-free :
    (mapped : ℕ) (s : State) (p q b nbytes : ℕ)
    → length s.bin ≡ bins
    → p ≢ 0
    → b < bins
    → s.memory (p - word) ≡ bin2size b
    → get_elem? s.bin b ≡ some q
    → size2bin nbytes ≡ some b
    → (s' : State) × (s'' : State) × (free s p ≡ some (s', none))
      × (get_elem? s'.bin b ≡ some p)
      × (s'.memory p ≡ q)
      × (malloc mapped s' nbytes ≡ some (p, s''))
      × (s''.bin ≡ s.bin)
unfolding free free_small malloc malloc_small store
malloc-free mapped s p q b nbytes len nz h size at fits =
    let (bounds, _) = size_bounds b h in
    let bin_of : size2bin (bin2size b) ≡ some b = size2bin-bin2size b h in
    let small : leb (bin2size b) (bin2size (bins - 1)) ≡ true =
      le→leb _ _ (size2bin-le (bin2size b) b bin_of) in
    let small_n : ltb (bin2size (bins - 1)) nbytes ≡ false =
      ltb-eq-false _ _ (size2bin-le nbytes b fits) in
    let not_null : (p == 0) ≡ false = ==-eq-false p 0 nz in
    let head : get_elem? (set s.bin b p) b ≡ some p = get_elem?-set_same s.bin b p (omega arith) in
    (
      record { bin = set s.bin b p; memory = store s.memory p q },
      record { bin = set (set s.bin b p) b q; memory = store s.memory p q },
      rw (not_null, size, small, bin_of, ◌>>=◌, at, ◌>>=◌) refl,
      head,
      rw (==_self p) refl,
      rw (small_n, fits, ◌>>=◌, head, ◌>>=◌, not_null, ==_self p) refl,
      set-set_back s.bin b p q at,
    )
