-- ===== src/Base/Arrays.antt =====
-- C arrays of a fixed capacity as the list of the slots written so far, and the loops that copy.
pub mod Laws
use Prim.Native.Nat.{ℕ, zero, suc, ◌+◌, ◌≤◌}
use mathlib.Core.Path.{◌≡◌, refl, ap, ◌∙◌, sym}
use mathlib.Core.List.{List, [], ◌∷◌, ◌++◌, append-nil, append_assoc}
use mathlib.Core.Option.{Option, none, some}
use native.Mathlib.Omega.{arith}
use deep_spec_db.Base.Fault.{◌>>=◌}
use deep_spec_db.Base.Lists.{length, get_elem?, length-append}

module _ {ℓ} {A : Type ℓ} where
  -- `a[i] = v`: a store over a slot in use, or to the first unused one. `none` is a store that
  -- would leave unwritten slots below it.
  unfoldable pub write : List A → ℕ → A → Option (List A)
  write [] zero v = some (v ∷ [])
  write [] (suc i) v = none
  write (x ∷ xs) zero v = some (v ∷ xs)
  write (x ∷ xs) (suc i) v = do r ← write xs i v; some (x ∷ r)

  -- `for (k = 0; k < n; k++) dst[j + k] = src[i + k];` with `n` rounds
  unfoldable pub copy : ℕ → ℕ → ℕ → List A → List A → Option (List A)
  copy zero i j src dst = some dst
  copy (suc n) i j src dst = do
    x ← get_elem? src i
    dst' ← write dst j x
    copy n (suc i) (suc j) src dst'

  -- `for (i = tgt + n; i > tgt; i--) a[i] = a[i-1];` with `n` rounds
  unfoldable pub shift : ℕ → ℕ → List A → Option (List A)
  shift zero tgt a = some a
  shift (suc n) tgt a = do x ← get_elem? a (tgt + n); a' ← write a (suc (tgt + n)) x; shift n tgt a'
