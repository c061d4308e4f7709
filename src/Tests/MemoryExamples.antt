-- ===== src/Tests/MemoryExamples.antt =====
-- The theorems about the allocator and the queue on concrete inputs.
use deep_spec_db.Base.{
  ℕ, ◌+◌, ◌<◌, ◌≤◌, ◌≡◌, refl, arith, if◌then◌else◌, ◌==◌, false, some, none, List, [], ◌∷◌, length,
  get_elem?, replicate,
}
use deep_spec_db.Fifo.{Heap, Queue, fifo_put, fifo_get, fifo_empty}
use deep_spec_db.Fifo.Laws.{IsQueue, fifo_put-IsQueue, fifo_get-IsQueue}
use deep_spec_db.Malloc.{
  waste, big_block, bins, bin2size, size2bin, State, Memory, block_count, fill_bin, malloc, free,
}
use deep_spec_db.Malloc.Bins.{size2bin_lem}
use deep_spec_db.Malloc.Blocks.{FreeList, Placed, fill_bin_lem, malloc-free}

-- Element 1 is linked to element 2.
abbrev heap : Heap ℕ
heap a = record { data_of = a; next = if a == 1 then 2 else 0 }

abbrev queue : Queue
queue = record { head = 1; tail = 2 }

queue-IsQueue : IsQueue heap queue (1 ∷ 2 ∷ [])
queue-IsQueue = record {
  chain = (refl, (λ e. absurd (omega (arith, e))), (refl, (λ e. absurd (omega (arith, e))), refl));
  distinct = (((λ e. absurd (omega (arith, e))), tt), (tt, tt));
  at_tail = refl;
}

fifo_put-IsQueue_example :
    IsQueue (fifo_put heap queue 3).0 (fifo_put heap queue 3).1 (1 ∷ 2 ∷ 3 ∷ [])
fifo_put-IsQueue_example =
    fifo_put-IsQueue heap queue (1 ∷ 2 ∷ []) 3 queue-IsQueue (λ e. absurd (omega (arith, e)))
      ((λ e. absurd (omega (arith, e))), ((λ e. absurd (omega (arith, e))), tt))

fifo_get-IsQueue_example :
    (fifo_empty queue ≡ false)
    × (q' : Queue) × (fifo_get heap queue ≡ some (1, q'))
    × IsQueue heap q' (2 ∷ [])
fifo_get-IsQueue_example = fifo_get-IsQueue heap queue (2 ∷ []) 1 queue-IsQueue

abbrev zeroed : Memory
zeroed a = 0

fill_bin_lem_example :
    (ps : List ℕ) × FreeList (fill_bin 4096 zeroed 1).1 (bin2size 1) (fill_bin 4096 zeroed 1).0 ps
    × (length ps ≡ block_count (bin2size 1))
    × Placed (bin2size 1) (4096 + waste) (4096 + big_block) ps
fill_bin_lem_example =
    fill_bin_lem 4096 zeroed 1 (λ e. absurd (omega (arith, e))) (omega arith) (omega arith)

-- The block at address 32 has the size 24 of bin 1.
abbrev used : State
used = record { bin = replicate bins 0; memory = λ a. 24 }

malloc-free_example :
    (s' : State) × (s'' : State) × (free used 32 ≡ some (s', none))
    × (get_elem? s'.bin 1 ≡ some 32)
    × (s'.memory 32 ≡ 0)
    × (malloc 4096 s' 20 ≡ some (32, s''))
    × (s''.bin ≡ used.bin)
unfolding bin2size size2bin
malloc-free_example =
    malloc-free 4096 used 32 0 1 20 refl (λ e. absurd (omega (arith, e))) (omega arith) refl refl
      refl

size2bin_lem_example :
    (b : ℕ) × (size2bin 100 ≡ some b)
    × (b < bins)
    × (100 ≤ bin2size b)
    × (size2bin (bin2size b) ≡ some b)
unfolding bin2size
size2bin_lem_example = size2bin_lem 100 (omega arith)
