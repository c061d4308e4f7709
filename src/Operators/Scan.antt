-- ===== src/Operators/Scan.antt =====
-- src/low level algos (Pablo)/db_operations_light.c: the sequential scan returns the records of a
-- relation in the order of their keys.
use deep_spec_db.Base.{
  ℕ, zero, suc, ◌+◌, ◌≤◌, ◌<◌, ◌≡◌, refl, sym, ap, subst, ◌∙◌, arith, true, false, Option, none,
  some, List, [], ◌∷◌, map, length, get_elem?, get_elem?-lt, drop, drop-get_elem?, lt→ltb,
  ltb-eq-false, ==-eq-false, Bool-cases, inl, inr, ◌>>=◌,
}
use mathlib.Core.Option.{some-injective}
use deep_spec_db.Relation.{Relation, Ancestors, Node}
use deep_spec_db.Relation.Order.{IsOrdered}
use deep_spec_db.Relation.Contents.{contents, to_list}
use deep_spec_db.Relation.Api.{is_empty, new_cursor}
use deep_spec_db.Relation.Refines.{IsRelation, At, cursor, key_limit}
use deep_spec_db.Relation.Refines.Moving.{
  rl_move_to_first-At, rl_move_to_next-At, get_entry-At, cursor_is_valid_lem,
}
use deep_spec_db.Fifo.{Queue, Heap}
use deep_spec_db.Fifo.Laws.{IsQueue}
use deep_spec_db.Operators.{
  SeqScanEnv, seq_scan_init, seq_scan_next, seq_scan, seq_scan_env, materialize,
}
use deep_spec_db.Operators.Iterators.{IsFresh, Yields, materialize_lem}

no_keys {ℓ} :
    (T : Type ℓ) (d : ℕ) (root : Node (Option T) d) (count : ℕ) (p : Ancestors d)
    → IsOrdered (Option T) d root 0 true key_limit true
    → 0 < length (to_list (Option T) d root)
    → is_empty (cursor (record { depth = d; root = root; num_records = count }) p) ≡ false
unfolding is_empty to_list
no_keys T zero root count p h lt = ==-eq-false _ 0 (λ e. omega (arith, e))
no_keys T (suc d) root count p h lt = ==-eq-false _ 0 (λ e. omega (arith, e, h.0))

length-map {ℓ κ} :
    {A : Type ℓ} {B : Type κ} (f : A → B) (xs : List A) → length (map f xs) ≡ length xs
length-map f [] = refl
length-map f (x ∷ xs) = ap suc (length-map f xs)

module _ {ℓ} {T : Type ℓ} (r : Relation (Option T)) (ok : IsRelation r) where
  abbrev at_cursor : Ancestors r.depth → SeqScanEnv T
  at_cursor p = record { bt = r; c = some (cursor r p) }

  -- A relation with a record is not empty.
  is_empty_lem : (p : Ancestors r.depth) → 0 < length (contents r) → is_empty (cursor r p) ≡ false
  unfolding contents
  is_empty_lem p lt = no_keys T r.depth r.root r.num_records p ok.ordered lt

  next_end :
      (p : Ancestors r.depth) (k : ℕ)
      → At r p k
      → length (contents r) ≤ k
      → seq_scan_next (at_cursor p) ≡ some (none, at_cursor p)
  unfolding seq_scan_next
  next_end p k at ge =
      let valid =
        cursor_is_valid_lem r ok p k at
        ∙ ap (λ b. some b) (ltb-eq-false k (length (contents r)) ge) in
      elim (Bool-cases (is_empty (cursor r p))) [
        | inl t ↦ rw (valid, ◌>>=◌, t) refl
        | inr f ↦ rw (valid, ◌>>=◌, f) refl
      ]

  next_record :
      (p : Ancestors r.depth) (k : ℕ)
      → At r p k
      → (e : ℕ × Option T) → get_elem? (contents r) k ≡ some e
      → k < length (contents r)
      → (p' : Ancestors r.depth) × (seq_scan_next (at_cursor p) ≡ some (e.1, at_cursor p'))
        × At r p' (suc k)
  unfolding seq_scan_next
  next_record p k at e here lt =
      let valid =
        cursor_is_valid_lem r ok p k at ∙ ap (λ b. some b) (lt→ltb k (length (contents r)) lt) in
      let (e', q, here', _, read, at_q) = get_entry-At r ok p k at lt in
      let (p', moved, at') = rl_move_to_next-At r ok q k at_q in
      let same : e'.1 ≡ e.1 =
        ap (λ (x : ℕ × Option T). x.1) (some-injective e' e (sym here' ∙ here)) in
      (
        p',
        rw (valid, ◌>>=◌, is_empty_lem p (omega arith), read, ◌>>=◌, moved, ◌>>=◌, same) refl,
        subst (λ j. At r p' j) (rw (lt→ltb k (length (contents r)) lt) (omega arith)) at',
      )

  -- From a cursor on, the scan returns the records that are left.
  next-Yields :
      (ts : List T) (p : Ancestors r.depth) (k : ℕ)
      → At r p k
      → map (λ e. e.1) (drop k (contents r)) ≡ map (λ t. some t) ts
      → k + length ts ≡ length (contents r)
      → Yields seq_scan (at_cursor p) ts
  next-Yields [] p k at same left = (at_cursor p, next_end p k at (omega (arith, left)))
  next-Yields (t ∷ ts) p k at same left =
      let lt : k < length (contents r) = omega (arith, left) in
      let (e, here, _) = get_elem?-lt (contents r) k lt in
      let cut = drop-get_elem? (contents r) k e here in
      let same' : e.1 ∷ map (λ e. e.1) (drop (suc k) (contents r)) ≡ some t ∷ map (λ t. some t) ts =
        sym (ap (map (λ (e : ℕ × Option T). e.1)) cut) ∙ same in
      let (p', run, at') = next_record p k at e here lt in
      let is : e.1 ≡ some t = cc in
      (
        at_cursor p',
        run ∙ ap (λ o. some (o, at_cursor p')) is,
        next-Yields ts p' (suc k) at' (cc) (omega (arith, left)),
      )

  -- For a well-formed relation whose records are not NULL, materialize of its sequential scan,
  -- with more fuel than there are records and with surely_malloc returning blocks that are not
  -- NULL and not in use, returns a well-formed queue of the records in the order of their keys.
  pub materialize-seq_scan :
      (ts : List T)
      → map (λ e. e.1) (contents r) ≡ map (λ t. some t) ts
      → (surely_malloc : ℕ → ℕ) → IsFresh surely_malloc
      → (fuel : ℕ) → length (contents r) < fuel
      → (heap : Heap T)
      → (env' : SeqScanEnv T) × (heap' : Heap T) × (q : Queue) × (ps : List ℕ) × (materialize
            surely_malloc fuel seq_scan
            (seq_scan_env r)
            heap
          ≡ some (env', heap', q))
        × IsQueue heap' q ps
        × (map (λ a. (heap' a).data_of) ps ≡ ts)
  unfolding seq_scan_env seq_scan_init new_cursor
  materialize-seq_scan ts same surely_malloc fresh fuel enough heap =
      let (p, first, at) = rl_move_to_first-At r ok (new_cursor r).idx in
      let count : length ts ≡ length (contents r) =
        sym (length-map (λ t. some t) ts)
        ∙ (sym (ap length same) ∙ length-map (λ e. e.1) (contents r)) in
      materialize_lem surely_malloc fresh fuel seq_scan (seq_scan_env r) (at_cursor p) ts
        (rw (first, ◌>>=◌) refl) (next-Yields ts p 0 at same (omega (arith, count)))
        (omega (arith, count)) heap
