-- ===== src/Base/Arrays/Laws.antt =====
-- What the copying loops compute, and that they stay inside of the arrays.
use Prim.Native.Nat.{ℕ, zero, suc, ◌+◌}
use mathlib.Core.Path.{◌≡◌, refl, ap, sym, subst}
use mathlib.Core.List.{List, [], ◌∷◌, ◌++◌, append-nil, append_assoc}
use mathlib.Core.Option.{some}
use native.Mathlib.Nat.{zero-add, suc-add}
use mathlib.Core.Logic.{inl, inr}
use deep_spec_db.Base.Tests.{Option-cases}
use native.Mathlib.Omega.{arith}
use deep_spec_db.Base.Fault.{◌>>=◌, >>=-eq-some}
use deep_spec_db.Base.Lists.{length, get_elem?, drop, get_elem?-append}
use deep_spec_db.Base.Arrays.{write, copy, shift}

module _ {ℓ} {A : Type ℓ} where
  pub write-append : (p r : List A) (y x : A) → write (p ++ y ∷ r) (length p) x ≡ some (p ++ x ∷ r)
  unfolding write
  write-append [] r y x = refl
  write-append (z ∷ p) r y x = rw (write-append p r y x)

  pub write_end : (p : List A) (x : A) → write p (length p) x ≡ some (p ++ x ∷ [])
  unfolding write
  write_end [] x = refl
  write_end (z ∷ p) x = rw (write_end p x)

  write_next :
      (p s : List A) (x v : A)
      → write (p ++ x ∷ s) (suc (length p)) v ≡ some (p ++ x ∷ v ∷ drop 1 s)
  unfolding write
  write_next [] [] x v = refl
  write_next [] (y ∷ s) x v = refl
  write_next (z ∷ p) s x v = rw (write_next p s x v)

  pub length-snoc : (p : List A) (x : A) → length (p ++ x ∷ []) ≡ suc (length p)
  length-snoc [] x = refl
  length-snoc (y ∷ p) x = ap suc (length-snoc p x)

  -- A copy past the slots in use appends.
  pub copy_end :
      (m a z p : List A) → copy (length m) (length a) (length p) (a ++ (m ++ z)) p ≡ some (p ++ m)
  unfolding copy
  copy_end [] a z p = rw append-nil
  copy_end (x ∷ m) a z p =
      rw (get_elem?-append a (m ++ z) x, ◌>>=◌, write_end p x, ◌>>=◌)
        (simp (length-snoc, append_assoc) at (copy_end m (a ++ x ∷ []) z (p ++ x ∷ [])))

  -- A copy over slots in use replaces as many.
  pub copy_over :
      (m a z p q r : List A)
      → length q ≡ length m
      → copy (length m) (length a) (length p) (a ++ (m ++ z)) (p ++ (q ++ r)) ≡ some (p ++ (m ++ r))
  unfolding copy
  copy_over [] a z p [] r h = refl
  copy_over [] a z p (y ∷ q) r h = absurd (omega arith)
  copy_over (x ∷ m) a z p [] r h = absurd (omega arith)
  copy_over (x ∷ m) a z p (y ∷ q) r h =
      rw (get_elem?-append a (m ++ z) x, ◌>>=◌, write-append p (q ++ r) y x, ◌>>=◌)
        (simp (length-snoc, append_assoc) at
          (copy_over m (a ++ x ∷ []) z (p ++ x ∷ []) q r (omega arith)))

  snoc_view :
      (n : ℕ) (p : List A)
      → length p ≡ suc n
      → (p' : List A) × (x : A) × (p ≡ p' ++ x ∷ []) × (length p' ≡ n)
  snoc_view n [] h = absurd (omega arith)
  snoc_view zero (x ∷ []) h = ([], x, refl, refl)
  snoc_view zero (x ∷ y ∷ p) h = absurd (omega arith)
  snoc_view (suc n) (x ∷ []) h = absurd (omega arith)
  snoc_view (suc n) (x ∷ y ∷ p) h =
      let (p', z, e, l) = snoc_view n (y ∷ p) (omega arith) in
      (x ∷ p', z, ap (λ (t : List A). x ∷ t) e, ap suc l)

  shift_step :
      (n : ℕ) (p s : List A) (x e : A)
      → length p ≡ n
      → (shift n 0 (p ++ x ∷ x ∷ drop 1 s) >>= λ a. write a 0 e) ≡ some (e ∷ (p ++ x ∷ drop 1 s))
      → (shift (suc n) 0 (p ++ x ∷ s) >>= λ a. write a 0 e) ≡ some (e ∷ (p ++ x ∷ drop 1 s))
  unfolding shift
  shift_step n p s x e h rest =
      rw (zero-add, ← h, get_elem?-append p s x, ◌>>=◌, write_next p s x x, ◌>>=◌) (rw h rest)

  -- The loop at the front of an array, and the store that follows it.
  shift_front :
      (n : ℕ) (p s : List A) (e : A)
      → length p ≡ n
      → (shift n 0 (p ++ s) >>= λ a. write a 0 e) ≡ some (e ∷ (p ++ drop 1 s))
  unfolding shift write
  shift_front zero [] [] e h = refl
  shift_front zero [] (y ∷ s) e h = refl
  shift_front zero (x ∷ p) s e h = absurd (omega arith)
  shift_front (suc n) p s e h =
      let v = snoc_view n p h in
      subst
        (λ (q : List A).
          (shift (suc n) 0 (q ++ s) >>= λ a. write a 0 e) ≡ some (e ∷ (q ++ drop 1 s)))
        (sym v.2)
        (simp append_assoc
          (shift_step n v.0 s v.1 e v.3 (shift_front n v.0 (v.1 ∷ v.1 ∷ drop 1 s) e v.3)))

  write_cons :
      (y : A) (a : List A) (i : ℕ) (v : A)
      → write (y ∷ a) (suc i) v ≡ (write a i v >>= λ r. some (y ∷ r))
  unfolding write
  write_cons y a i v = refl

  shift_cons :
      (n tgt : ℕ) (y : A) (a : List A)
      → shift n (suc tgt) (y ∷ a) ≡ (shift n tgt a >>= λ r. some (y ∷ r))
  unfolding shift
  shift_cons zero tgt y a = refl
  shift_cons (suc n) tgt y a = rw suc-add (elim (Option-cases (get_elem? a (tgt + n))) [
    | inl e ↦ rw e
    | inr (x, e) ↦
        rw (e, ◌>>=◌, write_cons)
          (elim (Option-cases (write a (suc (tgt + n)) x)) [
            | inl w ↦ rw w
            | inr (r, w) ↦ rw (w, ◌>>=◌) (shift_cons n tgt y r)
          ])
  ])

  -- The loop that makes room, followed by the store, inserts.
  pub shift-write :
      (a b : List A) (e : A)
      → (shift (length b) (length a) (a ++ b) >>= λ r. write r (length a) e) ≡ some (a ++ e ∷ b)
  shift-write [] b e = simp append-nil at (shift_front (length b) b [] e refl)
  shift-write (y ∷ a) b e =
      let v = >>=-eq-some (shift (length b) (length a) (a ++ b)) _ (shift-write a b e) in
      rw (shift_cons (length b) (length a) y (a ++ b), v.1, ◌>>=◌, write_cons, v.2)
