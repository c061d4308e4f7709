-- ===== src/Tests/ThreadExamples.antt =====
-- The theorems about the threads on one tree on concrete schedules.
use deep_spec_db.Base.{put, ℕ, zero, suc, ◌≡◌, ◌≢◌, refl, some, List, [], ◌∷◌}
use deep_spec_db.LockedTree.{
  Call, insert, lookup, System, Outcome, moved, blocked, finished, crash, treebox_new, acquire,
  release2, at_null, at_tree, turn, step, Reaches, start, later,
}
use deep_spec_db.LockedTree.Safety.{step_safe}
use deep_spec_db.LockedTree.Atomic.{Atomic, Performs, Shows, uncalled, Reaches-Performs}
use deep_spec_db.LockedTree.Progress.{some_step}

after : Outcome ℕ → System ℕ → System ℕ
after (moved u) s = u
after blocked s = s
after finished s = s
after crash s = s

-- The threads take turns in the order of a schedule.
run : System ℕ → List ℕ → System ℕ
run s [] = s
run s (i ∷ schedule) = run (after (step i s) s) schedule

module _ (s0 : System ℕ) where
  after-Reaches :
      (s : System ℕ)
      → Reaches s0 s
      → (i : ℕ) (o : Outcome ℕ) → step i s ≡ o
      → Reaches s0 (after o s)
  unfolding after
  after-Reaches s h i (moved u) e = later h i e
  after-Reaches s h i blocked e = h
  after-Reaches s h i finished e = h
  after-Reaches s h i crash e = h

  run-Reaches : (s : System ℕ) → Reaches s0 s → (schedule : List ℕ) → Reaches s0 (run s schedule)
  unfolding run
  run-Reaches s h [] = h
  run-Reaches s h (i ∷ schedule) =
      run-Reaches (after (step i s) s) (after-Reaches s h i (step i s) refl) schedule

-- Two inserts and a lookup.
abbrev three_calls : ℕ → Call ℕ
three_calls zero = insert 5 50
three_calls (suc zero) = insert 3 30
three_calls (suc (suc i)) = lookup 5

-- The first insert returns, the second stands at the root, and the lookup waits for the root.
abbrev schedule : List ℕ
schedule = 0 ∷ 0 ∷ 0 ∷ 1 ∷ 2 ∷ []

abbrev reached : System ℕ
reached = run (treebox_new three_calls) schedule

reached-Reaches : Reaches (treebox_new three_calls) reached
reached-Reaches = run-Reaches (treebox_new three_calls) (treebox_new three_calls) start schedule

root_is_taken : (reached.locks 0 ≡ some 1) × (step 2 reached ≡ blocked)
unfolding run after treebox_new step turn at_tree at_null acquire release2 put
root_is_taken = (refl, refl)

Reaches-Performs_example : (a : Atomic ℕ) × Performs (uncalled three_calls) a × Shows reached a
Reaches-Performs_example = Reaches-Performs three_calls reached reached-Reaches

step_safe_example : step 2 reached ≢ crash
step_safe_example = step_safe three_calls reached reached-Reaches 2

some_step_example : (j : ℕ) × (u : System ℕ) × (step j reached ≡ moved u)
unfolding run after treebox_new step turn at_tree at_null acquire release2 put
some_step_example = some_step three_calls reached reached-Reaches 2 (λ r e. cc)
