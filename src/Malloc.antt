-- ===== src/Malloc.antt =====
-- memmgr/malloc.c and memmgr/malloc.h: the allocator with a free list for each block size. An address
-- is a number and zero is NULL; the memory maps the address of a word to its value. What `mmap0`
-- returns is an argument, and a call of `munmap` is a result.
pub mod Bins
pub mod Blocks
use deep_spec_db.Base.{
  ℕ, zero, suc, ◌+◌, ◌-◌, ◌*◌, ◌/◌, ◌^◌, Option, none, some, List, [], ◌∷◌, get_elem?, set,
  replicate, ltb, leb, ◌==◌, if◌then◌else◌, ◌>>=◌,
}

-- The constants of malloc.h, on a machine with words of 8 bytes.
abbrev pub word : ℕ
word = 8

abbrev pub align : ℕ
align = 2

abbrev pub waste : ℕ
waste = 8

abbrev pub big_block : ℕ
big_block = 1048576

abbrev pub bins : ℕ
bins = 8

unfoldable pub bin2size : ℕ → ℕ
bin2size b = ((b + 1) * align - 1) * word

-- `none` is the result -1.
unfoldable pub size2bin : ℕ → Option ℕ
size2bin s =
    if ltb (bin2size (bins - 1)) s
    then none
    else some ((s + (word * (align - 1) - 1)) / (word * align))

abbrev pub Memory : Type 0
Memory = ℕ → ℕ

unfoldable pub store : Memory → ℕ → ℕ → Memory
store m a w x = if x == a then w else m x

-- `static void *bin[BINS]` and the memory.
pub record State : Type 0 where
  pub bin : List ℕ
  pub memory : Memory

unfoldable pub initial : Memory → State
initial m = record { bin = replicate bins 0; memory = m }

-- The loop of `fill_bin` with `n` blocks to go before the last one, and the stores of the last one.
unfoldable pub fill_blocks : ℕ → Memory → ℕ → ℕ → Memory
fill_blocks zero m q s = store (store m q s) (q + word) 0
fill_blocks (suc n) m q s =
    fill_blocks n (store (store m q s) (q + word) (q + word + (s + word))) (q + (s + word)) s

-- `Nblocks`
unfoldable pub block_count : ℕ → ℕ
block_count s = (big_block - waste) / (s + word)

-- `fill_bin`, where `p` is what `mmap0` returns.
unfoldable pub fill_bin : ℕ → Memory → ℕ → ℕ × Memory
fill_bin p m b =
    if p == 0
    then (0, m)
    else (p + waste + word, fill_blocks (block_count (bin2size b) - 1) m (p + waste) (bin2size b))

-- `none` is an index out of `bin`.
unfoldable pub malloc_small : ℕ → State → ℕ → Option (ℕ × State)
malloc_small mapped s nbytes = do
  b ← size2bin nbytes
  p ← get_elem? s.bin b
  let (first, m) = fill_bin mapped s.memory b
  if p == 0
      then (if first == 0
          then some (0, s)
          else some (first, record { bin = set s.bin b (m first); memory = m }))
      else some (p, record s { bin = set s.bin b (s.memory p) })

unfoldable pub malloc_large : ℕ → State → ℕ → ℕ × State
malloc_large mapped s nbytes =
    if mapped == 0
    then (0, s)
    else (mapped + waste + word, record s { memory = store s.memory (mapped + waste) nbytes })

unfoldable pub malloc : ℕ → State → ℕ → Option (ℕ × State)
malloc mapped s nbytes =
    if ltb (bin2size (bins - 1)) nbytes
    then some (malloc_large mapped s nbytes)
    else malloc_small mapped s nbytes

unfoldable pub free_small : State → ℕ → ℕ → Option State
free_small s p size = do
  b ← size2bin size
  q ← get_elem? s.bin b
  some (record { bin = set s.bin b p; memory = store s.memory p q })

-- `free`, with the arguments of its call of `munmap`.
unfoldable pub free : State → ℕ → Option (State × Option (ℕ × ℕ))
free s p =
    if p == 0
    then some (s, none)
    else (let size = s.memory (p - word) in
        if leb size (bin2size (bins - 1))
        then (do s' ← free_small s p size; some (s', none))
        else some (s, some (p - (waste + word), size + waste + word)))
