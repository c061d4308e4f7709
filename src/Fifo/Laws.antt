-- ===== src/Fifo/Laws.antt =====
-- src/low level algos (Pablo)/queue2.c: the queue as a list of elements.
use deep_spec_db.Base.{
  ℕ, true, false, some, List, [], ◌∷◌, ◌++◌, ◌==◌, ◌≡◌, ◌≢◌, refl, sym, ap, ◌∙◌, ==_self,
  ==-eq-false,
}
use deep_spec_db.Fifo.{Queue, Heap, set_next, fifo_put, fifo_get, fifo_new, fifo_empty}

abbrev pub Avoids : ℕ → List ℕ → Type 0
Avoids x [] = Unit
Avoids x (p ∷ ps) = (p ≢ x) × Avoids x ps

abbrev pub Distinct : List ℕ → Type 0
Distinct [] = Unit
Distinct (p ∷ ps) = Avoids p ps × Distinct ps

abbrev pub last_of : ℕ → List ℕ → ℕ
last_of d [] = d
last_of d (p ∷ ps) = last_of p ps

abbrev pub IsTail : ℕ → List ℕ → Type 0
IsTail t [] = Unit
IsTail t (p ∷ ps) = t ≡ last_of p ps

IsTail-rest : (t p : ℕ) (ps : List ℕ) → t ≡ last_of p ps → IsTail t ps
IsTail-rest t p [] h = tt
IsTail-rest t p (r ∷ ps) h = h

last_of-append : (p x : ℕ) (ps : List ℕ) → last_of p (ps ++ x ∷ []) ≡ x
last_of-append p x [] = refl
last_of-append p x (r ∷ ps) = last_of-append r x ps

Avoids-last_of : (x p : ℕ) (ps : List ℕ) → Avoids x (p ∷ ps) → last_of p ps ≢ x
Avoids-last_of x p [] v = v.0
Avoids-last_of x p (r ∷ ps) v = Avoids-last_of x r ps v.1

Avoids-append : (x y : ℕ) (ps : List ℕ) → Avoids x ps → y ≢ x → Avoids x (ps ++ y ∷ [])
Avoids-append x y [] v h = (h, tt)
Avoids-append x y (p ∷ ps) v h = (v.0, Avoids-append x y ps v.1 h)

Distinct-append : (x : ℕ) (ps : List ℕ) → Distinct ps → Avoids x ps → Distinct (ps ++ x ∷ [])
Distinct-append x [] d v = (tt, tt)
Distinct-append x (p ∷ ps) d v =
    (Avoids-append p x ps d.0 (λ e. v.0 (sym e)), Distinct-append x ps d.1 v.1)

module _ {ℓ} {D : Type ℓ} where
  -- The elements from an address on, up to NULL.
  abbrev pub Chain : Heap D → ℕ → List ℕ → Type 0
  Chain heap a [] = a ≡ 0
  Chain heap a (p ∷ ps) = (a ≡ p) × (p ≢ 0) × Chain heap (heap p).next ps

  -- The queue holds the elements, no element twice, and `tail` is the last one.
  pub record IsQueue (heap : Heap D) (q : Queue) (ps : List ℕ) : Type 0 where
    pub chain : Chain heap q.head ps
    pub distinct : Distinct ps
    pub at_tail : IsTail q.tail ps

  -- A write to an element out of the chain leaves it.
  Chain-set_next :
      (heap : Heap D) (a x n : ℕ) (ps : List ℕ)
      → Avoids x ps
      → Chain heap a ps
      → Chain (set_next heap x n) a ps
  unfolding set_next
  Chain-set_next heap a x n [] v h = h
  Chain-set_next heap a x n (p ∷ ps) v h =
      (h.0, h.1, rw (==-eq-false p x v.0) (Chain-set_next heap (heap p).next x n ps v.1 h.2))

  -- The last element of a chain is linked to a new one.
  Chain-append :
      (heap : Heap D) (a p x : ℕ) (ps : List ℕ)
      → Distinct (p ∷ ps)
      → Avoids x (p ∷ ps)
      → x ≢ 0
      → (heap x).next ≡ 0
      → Chain heap a (p ∷ ps)
      → Chain (set_next heap (last_of p ps) x) a (p ∷ (ps ++ x ∷ []))
  unfolding set_next
  Chain-append heap a p x [] d v nz e h =
      (h.0, h.1, rw (==_self p) (refl, nz, rw (==-eq-false x p (λ y. v.0 (sym y))) e))
  Chain-append heap a p x (r ∷ ps) d v nz e h = (
    h.0,
    h.1,
    rw (==-eq-false p (last_of r ps) (λ y. Avoids-last_of p r ps d.0 (sym y)))
        (Chain-append heap (heap p).next r x ps d.1 v.1 nz e h.2),
  )

  cleared : (heap : Heap D) (p : ℕ) → (set_next heap p 0 p).next ≡ 0
  unfolding set_next
  cleared heap p = rw (==_self p) refl

  -- A new queue is empty.
  pub fifo_new-IsQueue : (heap : Heap D) → IsQueue heap fifo_new []
  unfolding fifo_new
  fifo_new-IsQueue heap = record { chain = refl; distinct = tt; at_tail = tt }

  -- fifo_put of an element that is not NULL and not in a well-formed queue leaves a well-formed
  -- queue with the element behind the others.
  pub fifo_put-IsQueue :
      (heap : Heap D) (q : Queue) (ps : List ℕ) (p : ℕ)
      → IsQueue heap q ps
      → p ≢ 0
      → Avoids p ps
      → IsQueue (fifo_put heap q p).0 (fifo_put heap q p).1 (ps ++ p ∷ [])
  unfolding fifo_put
  fifo_put-IsQueue heap q [] p h nz v =
      let e : (q.head == 0) ≡ true = rw h.chain refl in
      rw e (record { chain = (refl, nz, cleared heap p); distinct = (tt, tt); at_tail = refl })
  fifo_put-IsQueue heap q (r ∷ ps) p h nz v =
      let e : (q.head == 0) ≡ false = ==-eq-false q.head 0 (λ y. h.chain.1 (sym h.chain.0 ∙ y)) in
      rw (e, h.at_tail)
        (record {
          chain =
              Chain-append (set_next heap p 0) q.head r p ps h.distinct v nz (cleared heap p)
                (Chain-set_next heap q.head p 0 (r ∷ ps) v h.chain);
          distinct = Distinct-append p (r ∷ ps) h.distinct v;
          at_tail = sym (last_of-append r p ps);
        })

  -- For a well-formed queue with a first element fifo_empty is false, and fifo_get returns that
  -- element and leaves a well-formed queue of the others.
  pub fifo_get-IsQueue :
      (heap : Heap D) (q : Queue) (ps : List ℕ) (p : ℕ)
      → IsQueue heap q (p ∷ ps)
      → (fifo_empty q ≡ false)
        × (q' : Queue) × (fifo_get heap q ≡ some (p, q'))
        × IsQueue heap q' ps
  unfolding fifo_get fifo_empty
  fifo_get-IsQueue heap q ps p h =
      let e : (q.head == 0) ≡ false = ==-eq-false q.head 0 (λ y. h.chain.1 (sym h.chain.0 ∙ y)) in
      (
        e,
        record q { head = (heap p).next },
        rw e (ap (λ a. some (a, record q { head = (heap a).next })) h.chain.0),
        record {
          chain = h.chain.2;
          distinct = h.distinct.1;
          at_tail = IsTail-rest q.tail p ps h.at_tail;
        },
      )
