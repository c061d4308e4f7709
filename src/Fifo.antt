-- ===== src/Fifo.antt =====
-- src/low level algos (Pablo)/queue2.c: the queue. Elements are addresses, zero is NULL, and the heap
-- maps an address to the element there. `none` is an access through NULL.
pub mod Laws
use deep_spec_db.Base.{ℕ, zero, suc, Bool, Option, none, some, ◌==◌, if◌then◌else◌}

-- `struct elem`
pub record Elem {ℓ} (D : Type ℓ) : Type ℓ where
  pub data_of : D
  pub next : ℕ

-- `struct fifo`
pub record Queue : Type 0 where
  pub head : ℕ
  pub tail : ℕ

abbrev pub Heap {ℓ} : Type ℓ → Type ℓ
Heap D = ℕ → Elem D

module _ {ℓ} {D : Type ℓ} where
  -- `p->next = n`
  unfoldable pub set_next : Heap D → ℕ → ℕ → Heap D
  set_next heap p n a = if a == p then record (heap a) { next = n } else heap a

  unfoldable pub fifo_put : Heap D → Queue → ℕ → Heap D × Queue
  fifo_put heap q p =
      let cleared = set_next heap p 0 in
      if q.head == 0
      then (cleared, record { head = p; tail = p })
      else (set_next cleared q.tail p, record q { tail = p })

  unfoldable pub fifo_get : Heap D → Queue → Option (ℕ × Queue)
  fifo_get heap q =
      if q.head == 0 then none else some (q.head, record q { head = (heap q.head).next })

-- `fifo_new` and `fifo_empty`
unfoldable pub fifo_new : Queue
fifo_new = record { head = 0; tail = 0 }

unfoldable pub fifo_empty : Queue → Bool
fifo_empty q = q.head == 0
