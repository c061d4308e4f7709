-- ===== src/Base/Families.antt =====
-- Families over the natural numbers: what hangs on an address or on the number of a thread.
use Prim.Native.Nat.{ℕ}
use mathlib.Core.Path.{◌≡◌, refl, sym, ap, ◌∙◌, subst}
use mathlib.Core.Logic.{◌≢◌, ◌⊎◌, inl, inr}
use deep_spec_db.Base.Tests.{◌==◌, ==-eq, ==-ne, ==_self, ==-eq-false, if◌then◌else◌, Bool-cases}

-- A family with a new value at one index.
unfoldable pub put {ℓ} : {A : Type ℓ} → (ℕ → A) → ℕ → A → ℕ → A
put f n v m = if m == n then v else f m

module _ {ℓ} {A : Type ℓ} where
  pub put_same : (f : ℕ → A) (n : ℕ) (v : A) → put f n v n ≡ v
  unfolding put
  put_same f n v = rw (==_self n) refl

  pub put_other : (f : ℕ → A) (n : ℕ) (v : A) (m : ℕ) → m ≢ n → put f n v m ≡ f m
  unfolding put
  put_other f n v m ne = rw (==-eq-false m n ne) refl

-- What holds of the new value and of every other one.
pub put-each {ℓ ℓ'} :
    {A : Type ℓ} (P : ℕ → A → Type ℓ') (f : ℕ → A) (i : ℕ) (v : A)
    → P i v
    → ((j : ℕ) → j ≢ i → P j (f j))
    → (j : ℕ) → P j (put f i v j)
put-each P f i v own rest j = elim (Bool-cases (j == i)) [
  | inl t ↦
      let e = ==-eq j i t in
      subst (λ k. P k (put f i v k)) (sym e) (subst (λ x. P i x) (sym (put_same f i v)) own)
  | inr other ↦
      let ne = ==-ne j i other in subst (λ x. P j x) (sym (put_other f i v j ne)) (rest j ne)
]

pub put_cases {ℓ} :
    {A : Type ℓ} (f : ℕ → A) (n : ℕ) (v : A) (m : ℕ)
    → ((m ≡ n) × (put f n v m ≡ v)) ⊎ ((m ≢ n) × (put f n v m ≡ f m))
put_cases f n v m = elim (Bool-cases (m == n)) [
  | inl t ↦ let e = ==-eq m n t in inl (e, ap (put f n v) e ∙ put_same f n v)
  | inr other ↦ let ne = ==-ne m n other in inr (ne, put_other f n v m ne)
]
