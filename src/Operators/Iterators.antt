-- ===== src/Operators/Iterators.antt =====
-- src/low level algos (Pablo)/db_operations_light.c: `materialize` makes a queue of what an iterator
-- returns.
use deep_spec_db.Base.{
  ℕ, zero, suc, ◌+◌, ◌≤◌, ◌<◌, ◌≡◌, ◌≢◌, refl, sym, ap, subst, ◌∙◌, arith, none, some, List, [],
  ◌∷◌, ◌++◌, map, append_assoc, append-nil, map-append, length, ==_self, ==-eq-false, ◌>>=◌,
}
use deep_spec_db.Fifo.{Queue, Heap, set_next, fifo_new, fifo_put}
use deep_spec_db.Fifo.Laws.{Avoids, Chain, IsQueue, fifo_new-IsQueue, fifo_put-IsQueue}
use deep_spec_db.Operators.{Iterator, make_elem, drain, materialize}

-- Calls of `surely_malloc` return addresses that are not NULL and not in use.
pub record IsFresh (surely_malloc : ℕ → ℕ) : Type 0 where
  pub not_null : (k : ℕ) → surely_malloc k ≢ 0
  pub new : (j k : ℕ) → j < k → surely_malloc j ≢ surely_malloc k

-- The iterator returns the elements one after the other, and then NULL.
abbrev pub Yields {ℓ} : {T : Type ℓ} (it : Iterator T) → it.Env → List T → Type ℓ
Yields it env [] = (env' : it.Env) × (it.next env ≡ some (none, env'))
Yields it env (t ∷ ts) = (env' : it.Env) × (it.next env ≡ some (some t, env')) × Yields it env' ts

-- The addresses that the calls from `j` on return.
abbrev pub blocks : (ℕ → ℕ) → ℕ → ℕ → List ℕ
blocks surely_malloc j zero = []
blocks surely_malloc j (suc n) = surely_malloc j ∷ blocks surely_malloc (suc j) n

module _ (surely_malloc : ℕ → ℕ) (fresh : IsFresh surely_malloc) where
  blocks_next :
      (j n : ℕ)
      → blocks surely_malloc j (suc n) ≡ blocks surely_malloc j n ++ surely_malloc (j + n) ∷ []
  blocks_next j zero = let e : j ≡ j + 0 = omega arith in ap (λ i. surely_malloc i ∷ []) e
  blocks_next j (suc n) =
      let e : suc j + n ≡ j + suc n = omega arith in
      ap (λ (l : List ℕ). surely_malloc j ∷ l)
        (blocks_next (suc j) n ∙ ap (λ i. blocks surely_malloc (suc j) n ++ surely_malloc i ∷ []) e)

  blocks-Avoids : (j n k : ℕ) → j + n ≤ k → Avoids (surely_malloc k) (blocks surely_malloc j n)
  blocks-Avoids j zero k le = tt
  blocks-Avoids j (suc n) k le =
      (fresh.new j k (omega arith), blocks-Avoids (suc j) n k (omega arith))

module _ {ℓ} {T : Type ℓ} where
  put_data :
      (heap : Heap T) (q : Queue) (p a : ℕ) → ((fifo_put heap q p).0 a).data_of ≡ (heap a).data_of
  unfolding fifo_put set_next
  put_data heap q p a = ground arith

  next_same : (heap : Heap T) (p a : ℕ) (t : T) → (make_elem heap p t a).next ≡ (heap a).next
  unfolding make_elem
  next_same heap p a t = ground arith

  Chain-make_elem :
      (heap : Heap T) (p : ℕ) (t : T) (a : ℕ) (ps : List ℕ)
      → Chain heap a ps
      → Chain (make_elem heap p t) a ps
  Chain-make_elem heap p t a [] h = h
  Chain-make_elem heap p t a (r ∷ ps) h = (
    h.0,
    h.1,
    subst (λ n. Chain (make_elem heap p t) n ps) (sym (next_same heap p r t))
        (Chain-make_elem heap p t (heap r).next ps h.2),
  )

  put_new :
      (heap : Heap T) (q : Queue) (p : ℕ) (t : T)
      → ((fifo_put (make_elem heap p t) q p).0 p).data_of ≡ t
  unfolding make_elem
  put_new heap q p t = put_data (make_elem heap p t) q p p ∙ rw (==_self p) refl

  -- The elements that are there keep their data.
  put_others :
      (heap : Heap T) (q : Queue) (p : ℕ) (t : T) (ps : List ℕ)
      → Avoids p ps
      → map (λ a. ((fifo_put (make_elem heap p t) q p).0 a).data_of) ps
        ≡ map (λ a. (heap a).data_of) ps
  unfolding make_elem
  put_others heap q p t [] v = refl
  put_others heap q p t (r ∷ ps) v =
      let same : ((fifo_put (make_elem heap p t) q p).0 r).data_of ≡ (heap r).data_of =
        put_data (make_elem heap p t) q p r ∙ rw (==-eq-false r p v.0) refl in
      let others = put_others heap q p t ps v.1 in λ i. same i ∷ others i

  drain_lem :
      (surely_malloc : ℕ → ℕ)
      → IsFresh surely_malloc
      → (fuel : ℕ) (it : Iterator T) (env : it.Env) (ts : List T) → Yields it env ts
      → length ts < fuel
      → (k : ℕ) (heap : Heap T) (q : Queue) (us : List T)
      → IsQueue heap q (blocks surely_malloc 0 k)
      → map (λ a. (heap a).data_of) (blocks surely_malloc 0 k) ≡ us
      → (env' : it.Env) × (heap' : Heap T) × (q' : Queue) × (ps : List ℕ) × (drain surely_malloc
            fuel it env k heap q
          ≡ some (env', heap', q'))
        × IsQueue heap' q' ps
        × (map (λ a. (heap' a).data_of) ps ≡ us ++ ts)
  unfolding drain
  drain_lem surely_malloc fresh zero it env ts yields enough k heap q us ok same =
      absurd (omega arith)
  drain_lem surely_malloc fresh (suc fuel) it env [] yields enough k heap q us ok same =
      let (env', run) = yields in
      (
        it.close env',
        heap,
        q,
        blocks surely_malloc 0 k,
        rw (run, ◌>>=◌) refl,
        ok,
        same ∙ sym (append-nil us),
      )
  drain_lem surely_malloc fresh (suc fuel) it env (t ∷ ts) yields enough k heap q us ok same =
      let (env', run, rest) = yields in
      let p = surely_malloc k in
      let ps = blocks surely_malloc 0 k in
      let away = blocks-Avoids surely_malloc fresh 0 k k (omega arith) in
      let heap1 = make_elem heap p t in
      let heap2 = (fifo_put heap1 q p).0 in
      let ok1 : IsQueue heap1 q ps = record {
        chain = Chain-make_elem heap p t q.head ps ok.chain;
        distinct = ok.distinct;
        at_tail = ok.at_tail;
      } in
      let grown : blocks surely_malloc 0 (suc k) ≡ ps ++ p ∷ [] =
        blocks_next surely_malloc fresh 0 k
        ∙ (let e : 0 + k ≡ k = omega arith in ap (λ i. ps ++ surely_malloc i ∷ []) e) in
      let ok2 =
        subst (λ l. IsQueue heap2 (fifo_put heap1 q p).1 l) (sym grown)
          (fifo_put-IsQueue heap1 q ps p ok1 (fresh.not_null k) away) in
      let same2 : map (λ a. (heap2 a).data_of) (blocks surely_malloc 0 (suc k)) ≡ us ++ t ∷ [] =
        ap (map (λ a. (heap2 a).data_of)) grown
        ∙ (map-append (λ a. (heap2 a).data_of) ps (p ∷ [])
            ∙ (let left = put_others heap q p t ps away ∙ same in
                let right = put_new heap q p t in λ i. left i ++ (right i ∷ []))) in
      let (env'', heap', q', qs, run', ok', same') =
        drain_lem surely_malloc fresh fuel it env' ts rest (omega arith) (suc k) heap2
          (fifo_put heap1 q p).1 (us ++ t ∷ []) ok2 same2 in
      (env'', heap', q', qs, rw (run, ◌>>=◌) run', ok', same' ∙ append_assoc us (t ∷ []) ts)

  -- x
  pub materialize_lem :
      (surely_malloc : ℕ → ℕ)
      → IsFresh surely_malloc
      → (fuel : ℕ) (it : Iterator T) (env env0 : it.Env) (ts : List T) → it.init env ≡ some env0
      → Yields it env0 ts
      → length ts < fuel
      → (heap : Heap T)
      → (env' : it.Env) × (heap' : Heap T) × (q : Queue) × (ps : List ℕ) × (materialize
            surely_malloc fuel it env heap
          ≡ some (env', heap', q))
        × IsQueue heap' q ps
        × (map (λ a. (heap' a).data_of) ps ≡ ts)
  unfolding materialize
  materialize_lem surely_malloc fresh fuel it env env0 ts start yields enough heap =
      let (env', heap', q, ps, run, ok, same) =
        drain_lem surely_malloc fresh fuel it env0 ts yields enough 0 heap fifo_new []
          (fifo_new-IsQueue heap) refl in
      (env', heap', q, ps, rw (start, ◌>>=◌) run, ok, same)
