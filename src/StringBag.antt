-- ===== src/StringBag.antt =====
-- src/btrees and tries (Adewale)/stringbag.c: a bag of strings in one piece of memory. The header and
-- the strings are a union, so that a bag is the byte at every offset from its start, and the fields of
-- the header are words among these bytes, least byte first. A string is a list of bytes. `none` is a
-- failed assert or a read behind the end of the string that is assigned.
pub mod Words
pub mod Spec
pub mod Placing
pub mod Fresh
pub mod Laws
use deep_spec_db.Base.{
  ℕ, zero, suc, ◌+◌, ◌-◌, ◌*◌, ◌/◌, ◌%◌, ◌^◌, Bool, true, false, ◌&&◌, Option, none, some, List, [],
  ◌∷◌, length, take, replicate, leb, ltb, put, assert, if◌then◌else◌, ◌>>=◌, ◌>>◌, ℤ, pos, negsuc,
}

-- `struct StringBag`: the bytes of its header and of `strBuf`
abbrev pub StringBag : Type 0
StringBag = ℕ → ℕ

-- The `n` bytes from an offset on.
unfoldable pub chars : StringBag → ℕ → ℕ → List ℕ
chars bag start zero = []
chars bag start (suc n) = bag start ∷ chars bag (suc start) n

-- `memcpy` of a string to an offset
unfoldable pub memcpy : StringBag → ℕ → List ℕ → StringBag
memcpy bag start [] = bag
memcpy bag start (c ∷ s) = memcpy (put bag start c) (suc start) s

-- The bytes of a number, and the number that they stand for.
unfoldable pub to_bytes : ℕ → ℕ → List ℕ
to_bytes zero v = []
to_bytes (suc n) v = v % 256 ∷ to_bytes n (v / 256)

unfoldable pub of_bytes : List ℕ → ℕ
of_bytes [] = 0
of_bytes (c ∷ cs) = c + 256 * of_bytes cs

-- A `size_t` at an offset.
unfoldable pub read_word : StringBag → ℕ → ℕ
read_word bag start = of_bytes (chars bag start 8)

unfoldable pub write_word : StringBag → ℕ → ℕ → StringBag
write_word bag start v = memcpy bag start (to_bytes 8 v)

-- The offsets in `struct Header` of `size`, `capacity`, `info[p].pos` and `info[p].len`.
abbrev pub size_at : ℕ
size_at = 0

abbrev pub capacity_at : ℕ
capacity_at = 8

abbrev pub pos_at : ℕ → ℕ
pos_at p = 16 + 16 * p

abbrev pub len_at : ℕ → ℕ
len_at p = 24 + 16 * p

-- The conversions from `int` to `size_t` and back.
unfoldable pub to_size : ℤ → ℕ
to_size (pos n) = n
to_size (negsuc n) = 2 ^ 64 - suc n

unfoldable pub to_int : ℕ → ℤ
to_int v = if ltb (v % 2 ^ 32) (2 ^ 31) then pos (v % 2 ^ 32) else negsuc (2 ^ 32 - 1 - v % 2 ^ 32)

-- `sizeof(struct StringBag)` and `sizeof(struct InfoType)`, with a `size_t` of eight bytes
abbrev pub bag_size : ℕ
bag_size = 32

abbrev pub info_size : ℕ
info_size = 16

unfoldable pub sb_max_size : ℕ
sb_max_size = 2 ^ 64 - 1

unfoldable pub sb_overhead : ℕ → Option ℕ
sb_overhead width = do assert (ltb 0 width); some (bag_size + (width - 1) * info_size)

unfoldable pub sb_safe_size : ℕ → ℕ → Option ℕ
sb_safe_size width len = do o ← sb_overhead width; some ((o + len) % 2 ^ 64)

-- `SB_NewStringBag` in the memory at `mem`, which is not NULL: the size, the capacity, and `memset` of
-- the infos.
unfoldable pub sb_new_string_bag : (mem : StringBag) → ℕ → ℕ → Option StringBag
sb_new_string_bag mem width capacity = do
  first_pos ← sb_overhead width
  assert (leb first_pos capacity && leb capacity sb_max_size)
  let header = write_word (write_word mem size_at first_pos) capacity_at capacity
  some (memcpy header (pos_at 0) (replicate (info_size * width) 0))

unfoldable pub sb_capacity : StringBag → ℕ
sb_capacity bag = read_word bag capacity_at

unfoldable pub sb_used_capacity : StringBag → ℕ
sb_used_capacity bag = read_word bag size_at

-- The offset that `SB_Get` returns, and `*pLen`.
unfoldable pub sb_get : StringBag → ℕ → ℕ × ℤ
sb_get bag p = (read_word bag (pos_at p), to_int (read_word bag (len_at p)))

-- The end of `SB_Assign`: the string and its info.
unfoldable pub assign_at : StringBag → ℕ → List ℕ → ℕ → StringBag
assign_at bag p s start =
    write_word (write_word (memcpy bag start s) (pos_at p) start) (len_at p) (length s)

-- The characters that `memcpy` reads, none behind the end of `s`.
unfoldable pub first_chars : List ℕ → ℕ → Option (List ℕ)
first_chars s n = if leb n (length s) then some (take n s) else none

unfoldable pub sb_assign : StringBag → ℕ → List ℕ → ℤ → Option (Bool × StringBag)
sb_assign bag p s len =
    let size = read_word bag size_at in
    let grown = (size + to_size len) % 2 ^ 64 in
    if leb (to_size len) (read_word bag (len_at p))
    then (do
      t ← first_chars s (to_size len)
      some (true, assign_at bag p t (read_word bag (pos_at p))))
    else if leb grown (read_word bag capacity_at)
    then (do
      t ← first_chars s (to_size len)
      some (true, assign_at (write_word bag size_at grown) p t size))
    else some (false, bag)
