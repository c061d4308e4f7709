-- ===== src/LockedTree/Atomic.antt =====
-- concurrency/bst_conc.c: a serial order of the threads' calls for each system that they reach, in which
-- the calls are performed one at a time on a map. The order is not related to when a call starts and
-- returns.
use deep_spec_db.Base.{
  put, put-each, put_cases, put_other, put_same, ℕ, ◌≡◌, refl, sym, ap, subst, ◌∙◌, Option, none,
  some, List, inl, inr,
}
use deep_spec_db.LockedTree.{
  Tree, Call, insert, lookup, Thread, at_node, releases, System, root, key_of, treebox_new, at_null,
  at_key, Reaches, start, later,
}
use deep_spec_db.LockedTree.Searches.{
  Leads, Leads-Grows, Finds, nothing, its_key, Finds-root, Finds-unique,
}
use deep_spec_db.LockedTree.Writes.{
  added, grown, grown-Grows, grown_same, Finds-grown, written, written-Grows, written_same,
  Finds-written,
}
use deep_spec_db.LockedTree.Invariant.{IsAt, IsSystem}
use deep_spec_db.LockedTree.Turns.{
  Answer, pending, answered, call_of, Turn, takes, gives, ends_at_null, ends_at_key, step-Turn,
}
use deep_spec_db.LockedTree.Kept.{Reaches-IsSystem}

-- A map, and the calls on it.
pub record Atomic {ℓ} (V : Type ℓ) : Type ℓ where
  pub map : ℕ → Option V
  pub calls : ℕ → Answer V

module _ {ℓ} {V : Type ℓ} where
  -- The answer of a call, and the map after it.
  unfoldable pub perform : Call V → (ℕ → Option V) → Option V × (ℕ → Option V)
  perform (insert x v) m = (none, put m x (some v))
  perform (lookup x) m = (m x, m)

  -- Pending calls are performed one at a time, in any order.
  pub data Performs (a : Atomic V) : Atomic V → Type ℓ where
    at_first : Performs a a
    then_call :
        {b : Atomic V}
        → Performs a b
        → (i : ℕ) (c : Call V) → b.calls i ≡ pending c
        → Performs a (record {
          map = (perform c b.map).1;
          calls = put b.calls i (answered (perform c b.map).0);
        })

  -- The tree stands for the map, and the threads for the calls.
  pub record Shows (s : System V) (a : Atomic V) : Type ℓ where
    pub finds : (x : ℕ) → Finds s.trees x root (a.map x)
    pub calls : (i : ℕ) → a.calls i ≡ call_of (s.threads i)

  abbrev pub uncalled : (ℕ → Call V) → Atomic V
  uncalled calls = record { map = λ x. none; calls = λ i. pending (calls i) }

  module _ (a s_map : Atomic V) (h : Performs a s_map) (s : System V) (ok : IsSystem s)
      (shows : Shows s s_map) (i : ℕ) where
    -- A turn that only moves on.
    silent :
        (was next : Thread V) (locks : ℕ → Option ℕ)
        → s.threads i ≡ was
        → call_of next ≡ call_of was
        → Shows (record { trees = s.trees; locks = locks; threads = put s.threads i next }) s_map
    silent was next locks e same = record {
      finds = shows.finds;
      calls =
          put-each (λ j t. s_map.calls j ≡ call_of t) s.threads i next
            (shows.calls i ∙ (ap call_of e ∙ sym same)) (λ j ne. shows.calls j);
    }

    -- A turn that performs the call.
    performs :
        (c : Call V) (n : ℕ) (r : Option V)
        → (perform c s_map.map).0 ≡ r
        → (trees : List (Option (Tree V))) (locks : ℕ → Option ℕ)
        → ((x : ℕ) → Finds trees x root ((perform c s_map.map).1 x))
        → Shows
            (record { trees = trees; locks = locks; threads = put s.threads i (releases n r) })
            (record {
              map = (perform c s_map.map).1;
              calls = put s_map.calls i (answered (perform c s_map.map).0);
            })
    performs c n r e trees locks finds = record {
      finds = finds;
      calls =
          put-each (λ j t. put s_map.calls i (answered (perform c s_map.map).0) j ≡ call_of t)
            s.threads i (releases n r) (put_same s_map.calls i _ ∙ ap (λ r. answered r) e)
            (λ j ne. put_other s_map.calls i _ j ne ∙ shows.calls j);
    }

    asked : (c : Call V) (n : ℕ) → s.threads i ≡ at_node c n → s_map.calls i ≡ pending c
    asked c n e = shows.calls i ∙ ap call_of e

    came : (c : Call V) (n : ℕ) → s.threads i ≡ at_node c n → Leads s.trees (key_of c) n
    came c n e = subst (λ t. IsAt s.trees t) e (ok.placed i)

    Turn-Shows : (u : System V) → Turn s i u → (b : Atomic V) × Performs a b × Shows u b
    unfolding at_null at_key perform
    Turn-Shows u (takes was next n e same free inside gains keeps own at) =
        (s_map, h, silent was next _ e same)
    Turn-Shows u (gives was next n e same mine losing keeps at) =
        (s_map, h, silent was next _ e same)
    Turn-Shows u (ends_at_null (insert x v) n e at) = (
      _,
      then_call h i (insert x v) (asked (insert x v) n e),
      performs (insert x v) n none refl (grown s.trees n x v at) _ (λ y.
          elim (put_cases s_map.map x (some v) y) [
            | inl (k, is) ↦
                subst (λ r. Finds (grown s.trees n x v at) y root r) (sym is)
                  (subst (λ z. Finds (grown s.trees n x v at) z root (some v)) (sym k)
                    (Finds-root (grown s.trees n x v at) x n (some v)
                      (Leads-Grows s.trees _ x n (grown-Grows s.trees n x v at)
                        (came (insert x v) n e))
                      (its_key (added s.trees n x v at) (grown_same s.trees n x v at) refl)))
            | inr (ne, is) ↦
                subst (λ r. Finds (grown s.trees n x v at) y root r) (sym is)
                  (Finds-grown s.trees n x v at y root (s_map.map y) ne (shows.finds y))
          ]),
    )
    Turn-Shows u (ends_at_null (lookup x) n e at) = (
      _,
      then_call h i (lookup x) (asked (lookup x) n e),
      performs (lookup x) n none
          (Finds-unique s.trees x root (s_map.map x) none (shows.finds x)
            (Finds-root s.trees x n none (came (lookup x) n e) (nothing at)))
          s.trees _ shows.finds,
    )
    Turn-Shows u (ends_at_key (insert x v) n p e at same) =
        let after = written s.trees n p v at in
        (
          _,
          then_call h i (insert x v) (asked (insert x v) n e),
          performs (insert x v) n none refl after _ (λ y. elim (put_cases s_map.map x (some v) y) [
            | inl (k, is) ↦
                subst (λ r. Finds after y root r) (sym is)
                  (subst (λ z. Finds after z root (some v)) (sym k)
                    (Finds-root after x n (some v)
                      (Leads-Grows s.trees _ x n (written-Grows s.trees n p v at)
                        (came (insert x v) n e))
                      (its_key (record p { value = v }) (written_same s.trees n p v at) same)))
            | inr (ne, is) ↦
                subst (λ r. Finds after y root r) (sym is)
                  (Finds-written s.trees n p v at y root (s_map.map y) (λ k. ne (k ∙ same))
                    (shows.finds y))
          ]),
        )
    Turn-Shows u (ends_at_key (lookup x) n p e at same) = (
      _,
      then_call h i (lookup x) (asked (lookup x) n e),
      performs (lookup x) n (some p.value)
          (Finds-unique s.trees x root (s_map.map x) (some p.value) (shows.finds x)
            (Finds-root s.trees x n (some p.value) (came (lookup x) n e) (its_key p at same)))
          s.trees _ shows.finds,
    )

  -- In every system that threads, each with one call of insert or lookup, reach from a new tree by
  -- turns in any order, the tree stands for a map, and the map and the answers of the calls that
  -- are past their last loop are those of performing these calls one at a time on an empty map;
  -- the other calls are still pending.
  pub Reaches-Performs :
      (calls : ℕ → Call V) (s : System V)
      → Reaches (treebox_new calls) s
      → (a : Atomic V) × Performs (uncalled calls) a × Shows s a
  unfolding treebox_new
  Reaches-Performs calls s start =
      (uncalled calls, at_first, record { finds = λ x. nothing refl; calls = λ i. refl })
  Reaches-Performs calls s (later {t} h i e) =
      let (a, performed, shows) = Reaches-Performs calls t h in
      let ok = Reaches-IsSystem calls t h in
      Turn-Shows (uncalled calls) a performed t ok shows i s (step-Turn t ok i s e)
