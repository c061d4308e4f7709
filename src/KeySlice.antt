-- ===== src/KeySlice.antt =====
-- src/btrees and tries (Adewale)/permuter.c, and the searches and key slices of util.c. A `long` is
-- the number of its 64 bits, and a shift to the left drops what leaves them.
pub mod Laws
use deep_spec_db.Base.{
  ℕ, zero, suc, ◌+◌, ◌-◌, ◌*◌, ◌/◌, ◌%◌, ◌^◌, Option, none, some, List, [], ◌∷◌, length, get_elem?,
  ltb, leb, ◌==◌, if◌then◌else◌, ◌>>=◌, ◌>>◌, assert,
}

unfoldable pub permuter_size : ℕ → ℕ
permuter_size permutation = permutation % 16

unfoldable pub permuter_set_size : ℕ → ℕ → ℕ
permuter_set_size permutation size = permutation / 16 * 16 + size % 16

unfoldable pub permuter_get : ℕ → ℕ → ℕ
permuter_get permutation i = permutation / 2 ^ (4 * i + 4) % 16

-- `none` is the shift of the `int` 15 out of its range, from the element 6 on.
unfoldable pub permuter_set : ℕ → ℕ → ℕ → Option ℕ
permuter_set permutation i val =
    if leb i 5
    then some
        (permutation - permuter_get permutation i * 2 ^ (4 * i + 4) + val % 16 * 2 ^ (4 * i + 4))
    else none

-- The bytes of a key slice.
abbrev pub keyslice_length : ℕ
keyslice_length = 8

-- `res <<= 8; res |= c & mask`
unfoldable pub shift_in : ℕ → ℕ → ℕ
shift_in res c = res * 256 % 2 ^ 64 + c % 256

-- The two loops of `UTIL_GetNextKeySlice`: over the characters, and over the bytes that are left.
unfoldable pub shift_chars : ℕ → List ℕ → ℕ
shift_chars res [] = res
shift_chars res (c ∷ cs) = shift_chars (shift_in res c) cs

unfoldable pub pad : ℕ → ℕ → ℕ
pad zero res = res
pad (suc n) res = pad n (shift_in res 0)

-- `UTIL_GetNextKeySlice`, with its assert.
unfoldable pub get_next_key_slice : List ℕ → Option ℕ
get_next_key_slice str = do
  assert (leb (length str) keyslice_length)
  some (pad (keyslice_length - length str) (shift_chars 0 str))

unfoldable pub util_min : ℕ → ℕ → ℕ
util_min a b = if leb a b then a else b

-- The loop of `UTIL_BinarySearch`, with fuel; the outer `none` is its end, an index out of `a` or an
-- `int` sum `lo + hi` that overflows, the inner one the result -1.
unfoldable pub binary_search : ℕ → List ℕ → ℕ → ℕ → ℕ → Option (Option ℕ)
binary_search zero a tgt lo hi = none
binary_search (suc n) a tgt lo hi =
    let mid = (lo + hi) / 2 in
    let above = binary_search n a tgt (mid + 1) hi in
    let below = binary_search n a tgt lo mid in
    if ltb lo hi
    then (do
      assert (ltb (lo + hi) (2 ^ 31))
      val ← get_elem? a mid
      if val == tgt then some (some mid) else if ltb val tgt then above else below)
    else some none
