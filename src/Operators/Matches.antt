-- ===== src/Operators/Matches.antt =====
-- src/low level algos (Pablo)/db_operations_light.c: what the index join returns.
use deep_spec_db.Base.{
  ℕ, zero, suc, ◌<◌, ◌≡◌, ◌≢◌, refl, sym, subst, ◌∙◌, arith, true, false, Option, none, some, List,
  [], ◌∷◌, ◌++◌, map, length, put, put_same, put_other, put_cases, Option-cases, inl, inr, ◌>>=◌,
}
use deep_spec_db.Fifo.{Queue, fifo_empty}
use deep_spec_db.Fifo.Laws.{IsQueue, fifo_get-IsQueue}
use deep_spec_db.Schema.{index_lookup}
use deep_spec_db.Operators.{Key, get_projection}
use deep_spec_db.Operators.Iterators.{Yields}
use deep_spec_db.Operators.Join.{
  JoinPlan, JoinEnv, index_join_init, exhausted, find_match, join_tuples, emit, index_join_next,
  index_join,
}

module _ {K W : Type 0} (plan : JoinPlan K W) (look : List W → Option ℕ)
    (joined : List W → ℕ → List W) where
  -- The join of the outer tuples with the elements `inner f` of the queue at `f`, which are gone after
  -- the first outer tuple of their key.
  abbrev pub joins : (ℕ → List ℕ) → List (List W) → List (List W)
  joins inner [] = []
  joins inner (t ∷ ts) = elim (look t) [
    | none ↦ joins inner ts
    | some f ↦ map (joined t) (inner f) ++ joins (put inner f []) ts
  ]

  -- The outer tuples have keys, for which the index has the queue that `look` says.
  abbrev pub HaveKeys : List (List W) → Type 0
  HaveKeys [] = Unit
  HaveKeys (t ∷ ts) =
      ((key : Key W) × (get_projection plan.strcmp_eq plan.outer_attrs t plan.outer_join_attrs
          ≡ some key)
        × (index_lookup plan.ind_on_inner_sch plan.ind_on_inner key ≡ some (look t)))
      × HaveKeys ts

  -- Every outer tuple is joined with every element of a queue.
  abbrev pub Joinable : List (List W) → ℕ → Type 0
  Joinable [] p = Unit
  Joinable (t ∷ ts) p =
      (join_tuples plan t (plan.heap p).data_of ≡ some (joined t p)) × Joinable ts p

  abbrev pub AllJoinable : List (List W) → List ℕ → Type 0
  AllJoinable ts [] = Unit
  AllJoinable ts (p ∷ ps) = Joinable ts p × AllJoinable ts ps

  AllJoinable-rest :
      (t : List W) (ts : List (List W)) (ps : List ℕ) → AllJoinable (t ∷ ts) ps → AllJoinable ts ps
  AllJoinable-rest t ts [] h = tt
  AllJoinable-rest t ts (p ∷ ps) h = (h.0.1, AllJoinable-rest t ts ps h.1)

  -- A call of the join's loop with some fuel, and the calls after it.
  Starts : ℕ → ℕ → JoinEnv plan → List (List W) → Type 0
  Starts F fuel e [] = (e' : JoinEnv plan) × (index_join_next plan fuel e ≡ some (none, e'))
  Starts F fuel e (r ∷ rs) =
      (e' : JoinEnv plan) × (index_join_next plan fuel e ≡ some (some r, e'))
      × Yields (index_join plan F) e' rs

  Starts-Yields :
      (F : ℕ) (e : JoinEnv plan) (rs : List (List W))
      → Starts F F e rs
      → Yields (index_join plan F) e rs
  unfolding Starts
  Starts-Yields F e [] h = h
  Starts-Yields F e (r ∷ rs) h = h

  Starts-step :
      (F fuel fuel' : ℕ) (e e' : JoinEnv plan) (rs : List (List W))
      → index_join_next plan fuel e ≡ index_join_next plan fuel' e'
      → Starts F fuel' e' rs
      → Starts F fuel e rs
  unfolding Starts
  Starts-step F fuel fuel' e e' [] same h = (h.0, same ∙ h.1)
  Starts-step F fuel fuel' e e' (r ∷ rs) same h = (h.0, same ∙ h.1, h.2)

  fifo_empty_lem : (q : Queue) → IsQueue plan.heap q [] → fifo_empty q ≡ true
  unfolding fifo_empty
  fifo_empty_lem q h = rw h.chain refl

  no_queue_exhausted :
      (o : plan.outer.Env) (t : Option (List W)) (fs : ℕ → Queue)
      → exhausted plan
          (record { outer_env = o; current_inner = none; current_outer = t; fifos = fs })
        ≡ true
  unfolding exhausted
  no_queue_exhausted o t fs = refl

  empty_exhausted :
      (o : plan.outer.Env) (t : Option (List W)) (f : ℕ) (fs : ℕ → Queue)
      → IsQueue plan.heap (fs f) []
      → exhausted plan
          (record { outer_env = o; current_inner = some f; current_outer = t; fifos = fs })
        ≡ true
  unfolding exhausted
  empty_exhausted o t f fs h = fifo_empty_lem (fs f) h

  -- A queue with elements ends the loop.
  found :
      (fuel : ℕ) (e : JoinEnv plan)
      → 0 < fuel
      → exhausted plan e ≡ false
      → index_join_next plan fuel e ≡ emit plan e
  unfolding index_join_next find_match
  found zero e lt h = absurd (omega arith)
  found (suc fuel) e lt h = rw (index_join_next, find_match, h) refl

  -- The call for one outer tuple with a queue of inner tuples.
  module _ (F : ℕ) (o : plan.outer.Env) (t : List W) (ts : List (List W)) (f : ℕ) where
    abbrev here : (ℕ → Queue) → JoinEnv plan
    here fs = record { outer_env = o; current_inner = some f; current_outer = some t; fifos = fs }

    takes_one :
        (fs : ℕ → Queue) (p : ℕ) (ps : List ℕ)
        → IsQueue plan.heap (fs f) (p ∷ ps)
        → AllJoinable (t ∷ ts) (p ∷ ps)
        → (exhausted plan (here fs) ≡ false)
          × (q : Queue) × (emit plan (here fs) ≡ some (some (joined t p), here (put fs f q)))
          × IsQueue plan.heap q ps
    unfolding exhausted emit
    takes_one fs p ps mine fits =
        let (some_left, q, taken, rest) = fifo_get-IsQueue plan.heap (fs f) ps p mine in
        (some_left, q, rw (taken, ◌>>=◌, fits.0.0, ◌>>=◌) refl, rest)

    module _ (inner : ℕ → List ℕ) (after : List (List W)) where
      abbrev Next : ℕ → Type 0
      Next fuel =
          (fs : ℕ → Queue)
          → ((g : ℕ) → IsQueue plan.heap (fs g) (put inner f [] g))
          → Starts F fuel (here fs) after

      all_queues :
          (fs : ℕ → Queue)
          → IsQueue plan.heap (fs f) []
          → ((g : ℕ) → g ≢ f → IsQueue plan.heap (fs g) (inner g))
          → (g : ℕ) → IsQueue plan.heap (fs g) (put inner f [] g)
      all_queues fs mine others g = elim (put_cases inner f [] g) [
        | inl (k, is) ↦
            subst (λ l. IsQueue plan.heap (fs g) l) (sym is)
              (subst (λ k. IsQueue plan.heap (fs k) []) (sym k) mine)
        | inr (ne, is) ↦ subst (λ l. IsQueue plan.heap (fs g) l) (sym is) (others g ne)
      ]

      -- The rest of the queue, and what comes after it.
      empties :
          (fuel : ℕ)
          → 0 < fuel
          → Next fuel
          → Next F
          → 0 < F
          → (ps : List ℕ) (fs : ℕ → Queue) → IsQueue plan.heap (fs f) ps
          → AllJoinable (t ∷ ts) ps
          → ((g : ℕ) → g ≢ f → IsQueue plan.heap (fs g) (inner g))
          → Starts F fuel (here fs) (map (joined t) ps ++ after)
      unfolding Starts
      empties fuel lt next next' lt' [] fs mine fits others = next fs (all_queues fs mine others)
      empties fuel lt next next' lt' (p ∷ ps) fs mine fits others =
          let (busy, q, run, rest) = takes_one fs p ps mine fits in
          (
            here (put fs f q),
            found fuel (here fs) lt busy ∙ run,
            Starts-Yields F (here (put fs f q)) (map (joined t) ps ++ after) (
                empties F lt' next' next' lt' ps (put fs f q)
                  (subst (λ x. IsQueue plan.heap x ps) (sym (put_same fs f q)) rest) fits.1
                  (λ g ne.
                    subst (λ x. IsQueue plan.heap x (inner g)) (sym (put_other fs f q g ne))
                      (others g ne))),
          )

  module _ (F : ℕ) where
    -- From an exhausted queue on.
    search :
        (ts : List (List W)) (fuel : ℕ) (e : JoinEnv plan) (inner : ℕ → List ℕ)
        → length ts < fuel
        → length ts < F
        → Yields plan.outer e.outer_env ts
        → HaveKeys ts
        → ((g : ℕ) → IsQueue plan.heap (e.fifos g) (inner g))
        → ((g : ℕ) → AllJoinable ts (inner g))
        → exhausted plan e ≡ true
        → Starts F fuel e (joins inner ts)
    unfolding Starts index_join_next find_match emit
    search ts zero e inner enough enough' outer keys queues fits empty = absurd (omega arith)
    search [] (suc fuel) e inner enough enough' outer keys queues fits empty =
        let (o, run) = outer in
        (
          record {
            outer_env = o;
            current_inner = e.current_inner;
            current_outer = none;
            fifos = e.fifos;
          },
          rw (index_join_next, find_match, empty, run) refl,
        )
    search (t ∷ ts) (suc fuel) e inner enough enough' outer keys queues fits empty =
        let (o, run, rest) = outer in
        let ((key, proj, looked), keys') = keys in
        elim (Option-cases (look t)) [
          | inl no_queue ↦
              let e1 : JoinEnv plan = record {
                outer_env = o;
                current_inner = none;
                current_outer = some t;
                fifos = e.fifos;
              } in
              let same : joins inner ts ≡ joins inner (t ∷ ts) = rw (joins, no_queue) refl in
              subst (λ rs. Starts F (suc fuel) e rs) same
                (Starts-step F (suc fuel) fuel e e1 (joins inner ts)
                  (rw (index_join_next, find_match, empty, run, proj, looked, no_queue) refl)
                  (search ts fuel e1 inner (omega arith) (omega arith) rest keys' queues
                    (λ g. AllJoinable-rest t ts (inner g) (fits g))
                    (no_queue_exhausted o (some t) e.fifos)))
          | inr (f, is) ↦
              let e1 : JoinEnv plan = record {
                outer_env = o;
                current_inner = some f;
                current_outer = some t;
                fifos = e.fifos;
              } in
              let left = joins (put inner f []) ts in
              let same : map (joined t) (inner f) ++ left ≡ joins inner (t ∷ ts) =
                rw (joins, is) refl in
              let fits' : (g : ℕ) → AllJoinable ts (put inner f [] g) = λ g.
                elim (put_cases inner f [] g) [
                  | inl (k, gone) ↦ subst (λ l. AllJoinable ts l) (sym gone) tt
                  | inr (ne, kept) ↦
                      subst (λ l. AllJoinable ts l) (sym kept)
                        (AllJoinable-rest t ts (inner g) (fits g))
                ] in
              let next : (n : ℕ) → length ts < n → Next F o t ts f inner left n = λ n lt fs qs.
                search ts n (here F o t ts f fs) (put inner f []) lt (omega arith) rest keys' qs
                  fits'
                  (empty_exhausted o (some t) f fs
                    (subst (λ l. IsQueue plan.heap (fs f) l) (put_same inner f []) (qs f))) in
              subst (λ rs. Starts F (suc fuel) e rs) same
                (Starts-step F (suc fuel) fuel e e1 (map (joined t) (inner f) ++ left)
                  (rw (index_join_next, find_match, empty, run, proj, looked, is) refl)
                  (empties F o t ts f inner left fuel (omega arith) (next fuel (omega arith))
                    (next F (omega arith)) (omega arith) (inner f) e.fifos (queues f) (fits f)
                    (λ g ne. queues g)))
        ]

  -- x
  pub index_join-Yields :
      (ts : List (List W)) (fuel : ℕ) (e : JoinEnv plan) (o : plan.outer.Env) (inner : ℕ → List ℕ)
      → plan.outer.init e.outer_env ≡ some o
      → Yields plan.outer o ts
      → length ts < fuel
      → HaveKeys ts
      → ((g : ℕ) → IsQueue plan.heap (e.fifos g) (inner g))
      → ((g : ℕ) → AllJoinable ts (inner g))
      → (e' : JoinEnv plan) × (index_join_init plan e ≡ some e')
        × Yields (index_join plan fuel) e' (joins inner ts)
  unfolding index_join_init
  index_join-Yields ts fuel e o inner start outer enough keys queues fits =
      let e' : JoinEnv plan = record {
        outer_env = o;
        current_inner = none;
        current_outer = none;
        fifos = e.fifos;
      } in
      (
        e',
        rw (start, ◌>>=◌) refl,
        Starts-Yields fuel e' (joins inner ts) (
            search fuel ts fuel e' inner enough enough outer keys queues fits
              (no_queue_exhausted o none e.fifos)),
      )
