-- ===== src/Operators/Nested.antt =====
-- src/low level algos (Pablo)/db_operations_light.c: where the index join is the whole join, as a loop over
-- the outer tuples and the inner ones would make it, and where it is not.
use deep_spec_db.Base.{
  ℕ, ◌<◌, ◌≡◌, ◌⊎◌, refl, sym, ap, subst, ◌∙◌, Option, none, some, List, [], ◌∷◌, ◌++◌, append-nil,
  map, length, put, put_same, put_other, put_cases, Option-cases, inl, inr,
}
use deep_spec_db.Fifo.Laws.{IsQueue}
use deep_spec_db.Operators.Iterators.{Yields}
use deep_spec_db.Operators.Join.{JoinPlan, JoinEnv, index_join_init, index_join}
use deep_spec_db.Operators.Matches.{joins, HaveKeys, AllJoinable, index_join-Yields}

module _ {K W : Type 0} (plan : JoinPlan K W) (look : List W → Option ℕ)
    (joined : List W → ℕ → List W) where
  -- The join of every outer tuple with every inner one of its key.
  abbrev pub nested : (ℕ → List ℕ) → List (List W) → List (List W)
  nested inner [] = []
  nested inner (t ∷ ts) = elim (look t) [
    | none ↦ nested inner ts
    | some f ↦ map (joined t) (inner f) ++ nested inner ts
  ]

  -- Some outer tuple's key has the queue at an address.
  abbrev pub Uses : List (List W) → ℕ → Type 0
  Uses [] f = ⊥
  Uses (t ∷ ts) f = (look t ≡ some f) ⊎ Uses ts f

  -- No two outer tuples have one queue.
  abbrev pub HaveOwnQueues : List (List W) → Type 0
  HaveOwnQueues [] = Unit
  HaveOwnQueues (t ∷ ts) = ((f : ℕ) → look t ≡ some f → ¬ Uses ts f) × HaveOwnQueues ts

  joins_agree :
      (ts : List (List W)) (inner inner' : ℕ → List ℕ)
      → ((g : ℕ) → Uses ts g → inner g ≡ inner' g)
      → joins plan look joined inner ts ≡ joins plan look joined inner' ts
  joins_agree [] inner inner' same = refl
  joins_agree (t ∷ ts) inner inner' same = elim (Option-cases (look t)) [
    | inl no_queue ↦ rw (joins, no_queue) (joins_agree ts inner inner' (λ g u. same g (inr u)))
    | inr (f, is) ↦
        let rest = joins_agree ts (put inner f []) (put inner' f []) (λ g u.
          elim (put_cases inner f [] g) [
            | inl (k, gone) ↦ gone ∙ sym (ap (put inner' f []) k ∙ put_same inner' f [])
            | inr (ne, kept) ↦ kept ∙ (same g (inr u) ∙ sym (put_other inner' f [] g ne))
          ]) in
        let first = ap (map (joined t)) (same f (inl is)) in rw (joins, is) (λ i. first i ++ rest i)
  ]

  joins-nested :
      (ts : List (List W)) (inner : ℕ → List ℕ)
      → HaveOwnQueues ts
      → joins plan look joined inner ts ≡ nested inner ts
  joins-nested [] inner own = refl
  joins-nested (t ∷ ts) inner own = elim (Option-cases (look t)) [
    | inl no_queue ↦ rw (joins, nested, no_queue) (joins-nested ts inner own.1)
    | inr (f, is) ↦
        let kept =
          joins_agree ts (put inner f []) inner
            (λ g u. put_other inner f [] g (λ k. own.0 f is (subst (λ x. Uses ts x) k u))) in
        rw (joins, nested, is)
          (ap (λ rs. map (joined t) (inner f) ++ rs) (kept ∙ joins-nested ts inner own.1))
  ]

  -- For outer tuples with keys in the index, no two of them with the same queue, which are
  -- joinable with every element of the queues, and with more fuel than there are outer tuples, the
  -- index join returns after its init the join of every outer tuple with every inner tuple of its
  -- key, in order, and then NULL.
  pub index_join-nested :
      (ts : List (List W)) (fuel : ℕ) (e : JoinEnv plan) (o : plan.outer.Env) (inner : ℕ → List ℕ)
      → plan.outer.init e.outer_env ≡ some o
      → Yields plan.outer o ts
      → length ts < fuel
      → HaveKeys plan look joined ts
      → ((g : ℕ) → IsQueue plan.heap (e.fifos g) (inner g))
      → ((g : ℕ) → AllJoinable plan look joined ts (inner g))
      → HaveOwnQueues ts
      → (e' : JoinEnv plan) × (index_join_init plan e ≡ some e')
        × Yields (index_join plan fuel) e' (nested inner ts)
  index_join-nested ts fuel e o inner start outer enough keys queues fits own =
      let (e', run, yields) =
        index_join-Yields plan look joined ts fuel e o inner start outer enough keys queues fits in
      (
        e',
        run,
        subst (λ rs. Yields (index_join plan fuel) e' rs) (joins-nested ts inner own) yields,
      )

  -- For two outer tuples whose keys have the same queue, which are joinable with every element of
  -- the queues, and with more than two turns of fuel, the index join returns the join of the first
  -- one with the queue, and then NULL, whereas the join of every outer tuple with every inner
  -- tuple of its key has that of the second one behind it.
  pub index_join-lost :
      (t u : List W) (f : ℕ) (fuel : ℕ) (e : JoinEnv plan) (o : plan.outer.Env) (inner : ℕ → List ℕ)
      → look t ≡ some f
      → look u ≡ some f
      → plan.outer.init e.outer_env ≡ some o
      → Yields plan.outer o (t ∷ u ∷ [])
      → 2 < fuel
      → HaveKeys plan look joined (t ∷ u ∷ [])
      → ((g : ℕ) → IsQueue plan.heap (e.fifos g) (inner g))
      → ((g : ℕ) → AllJoinable plan look joined (t ∷ u ∷ []) (inner g))
      → (e' : JoinEnv plan) × (index_join_init plan e ≡ some e')
        × Yields (index_join plan fuel) e' (map (joined t) (inner f))
        × (nested inner (t ∷ u ∷ []) ≡ map (joined t) (inner f) ++ map (joined u) (inner f))
  index_join-lost t u f fuel e o inner at_t at_u start outer enough keys queues fits =
      let (e', run, yields) =
        index_join-Yields plan look joined (t ∷ u ∷ []) fuel e o inner start outer enough keys
          queues fits in
      let gone : joins plan look joined inner (t ∷ u ∷ []) ≡ map (joined t) (inner f) =
        rw (joins, at_t, at_u, put_same inner f []) (append-nil (map (joined t) (inner f))) in
      (
        e',
        run,
        subst (λ rs. Yields (index_join plan fuel) e' rs) gone yields,
        rw (nested, at_t, at_u)
            (ap (λ rs. map (joined t) (inner f) ++ rs) (append-nil (map (joined u) (inner f)))),
      )
