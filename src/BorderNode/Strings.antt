-- ===== src/BorderNode/Strings.antt =====
-- src/btrees and tries (Adewale)/util.c: `UTIL_StrEqual`.
use deep_spec_db.Base.{
  ℕ, Bool, true, false, List, [], ◌∷◌, length, ◌==◌, if◌then◌else◌, ◌≡◌, ◌↔◌, refl, ap, arith,
  Bool-cases, inl, inr, ==-eq, ==_self, true≢false, sym,
}

-- The loop over two arrays of one length.
unfoldable pub chars_equal : List ℕ → List ℕ → Bool
chars_equal [] bs = true
chars_equal (a ∷ rest) [] = true
chars_equal (a ∷ rest) (b ∷ bs) = if a == b then chars_equal rest bs else false

unfoldable pub str_equal : List ℕ → List ℕ → Bool
str_equal a b = if length a == length b then chars_equal a b else false

chars_equal-eq : (a b : List ℕ) → length a ≡ length b → chars_equal a b ≡ true → a ≡ b
unfolding chars_equal
chars_equal-eq [] [] l h = refl
chars_equal-eq [] (y ∷ ys) l h = absurd (omega arith)
chars_equal-eq (x ∷ xs) [] l h = absurd (omega arith)
chars_equal-eq (x ∷ xs) (y ∷ ys) l h = elim (Bool-cases (x == y)) [
  | inl t ↦
      rw (==-eq x y t) (ap (λ (s : List ℕ). y ∷ s) (chars_equal-eq xs ys (omega arith) (rw t at h)))
  | inr f ↦ absurd (true≢false (sym (rw f at h)))
]

chars_equal_self : (a : List ℕ) → chars_equal a a ≡ true
unfolding chars_equal
chars_equal_self [] = refl
chars_equal_self (x ∷ xs) = rw (==_self x) (chars_equal_self xs)

-- UTIL_StrEqual returns True exactly for two equal strings.
pub str_equal_iff : (a b : List ℕ) → (str_equal a b ≡ true) ↔ (a ≡ b)
unfolding str_equal
str_equal_iff a b = (
  (λ h. elim (Bool-cases (length a == length b)) [
    | inl t ↦ chars_equal-eq a b (==-eq (length a) (length b) t) (rw t at h)
    | inr f ↦ absurd (true≢false (sym (rw f at h)))
  ]),
  (λ e. rw e (rw (==_self (length b)) (chars_equal_self b))),
)
