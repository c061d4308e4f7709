-- ===== src/KvStore/Borders.antt =====
-- src/btrees and tries (Adewale)/kvstore.c: the slices of keys, and what a border node holds for a key
-- after each of the store's changes to it.
use deep_spec_db.Base.{
  ℕ, zero, suc, ◌-◌, ◌^◌, ◌≤◌, ◌<◌, ◌≡◌, refl, ap, ◌∙◌, arith, true, Option, some, List, [], ◌∷◌,
  length, set, get_elem?-lt, take, drop, length-take, length-drop, leb, le→leb, leb-eq-false,
  lt→ltb, ltb-eq-false, length-set, get_elem?-set_same, if◌then◌else◌, ◌>>=◌, ◌>>◌, assert,
  Bool-cases, inl, inr, leb→le, leb-lt,
}
use mathlib.Core.Option.{some-injective}
use deep_spec_db.BorderNode.{
  max_bn_size, new_border_node, set_value, set_prefix_value, get_prefix_value, set_suffix_value,
  get_suffix_value, has_suffix, get_link, test_suffix,
}
use deep_spec_db.BorderNode.Strings.{str_equal, str_equal_iff}
use deep_spec_db.KeySlice.{
  shift_in, shift_chars, pad, get_next_key_slice, util_min, keyslice_length,
}
use deep_spec_db.KvStore.{LinkOrValue, Border, key_slice}
use deep_spec_db.KvStore.Spec.{border_get, IsBorder}

shift_chars_lt : (cs : List ℕ) (res : ℕ) → res < 2 ^ 64 → shift_chars res cs < 2 ^ 64
unfolding shift_chars shift_in
shift_chars_lt [] res h = h
shift_chars_lt (c ∷ cs) res h = shift_chars_lt cs _ (omega arith)

pad_lt : (n res : ℕ) → res < 2 ^ 64 → pad n res < 2 ^ 64
unfolding pad shift_in
pad_lt zero res h = h
pad_lt (suc n) res h = pad_lt n _ (omega arith)

-- A slice of a key fits in 64 bits.
pub key_slice_lem : (key : List ℕ) → (slice : ℕ) × (key_slice key ≡ some slice) × (slice < 2 ^ 64)
unfolding key_slice get_next_key_slice util_min
key_slice_lem key =
    let n = if leb keyslice_length (length key) then keyslice_length else length key in
    let first = take n key in
    let short : length first ≤ keyslice_length =
      elim (Bool-cases (leb keyslice_length (length key))) [
        | inl t ↦
            rw t (
              omega
                (arith, length-take keyslice_length key (leb→le keyslice_length (length key) t)))
        | inr f ↦ rw f (
            omega (
              arith,
              length-take (length key) key (omega arith),
              leb-lt keyslice_length (length key) f,
            ))
      ] in
    (
      pad (keyslice_length - length first) (shift_chars 0 first),
      rw (le→leb (length first) keyslice_length short, ◌>>◌, ◌>>=◌, assert) refl,
      pad_lt _ _ (shift_chars_lt first 0 (omega arith)),
    )

module _ {ℓ} {V : Type ℓ} where
  -- `BN_SetPrefixValue` for a key that ends in the slice.
  pub border_get-set_prefix_value :
      (n count : ℕ) (bn : Border V) (key : List ℕ) (val : Option (LinkOrValue V))
      → IsBorder n count bn
      → 0 < length key
      → length key ≤ keyslice_length
      → (old : Option (LinkOrValue V)) × (bn' : Border V) × (get_prefix_value bn (length key)
          ≡ some old)
        × (set_prefix_value bn (length key) val ≡ some bn')
        × IsBorder n count bn'
        × ((below : ℕ → Option (Option (LinkOrValue V))) → border_get bn' key below ≡ some val)
  unfolding set_prefix_value get_prefix_value border_get get_link
  border_get-set_prefix_value n count bn key val ok low high =
      let (old, at, _) = get_elem?-lt bn.prefix_links (length key - 1) (omega (arith, ok.size)) in
      (
        old,
        record bn { prefix_links = set bn.prefix_links (length key - 1) val },
        rw (lt→ltb 0 (length key) low, le→leb (length key) max_bn_size high, ◌>>◌, ◌>>=◌, assert)
            at,
        rw (lt→ltb 0 (length key) low, le→leb (length key) max_bn_size high, ◌>>◌, ◌>>=◌, assert)
            refl,
        record {
          size = length-set bn.prefix_links (length key - 1) val ∙ ok.size;
          linked = ok.linked;
          filled = ok.filled;
        },
        λ below.
            rw
              (
                le→leb (length key) keyslice_length high,
                lt→ltb 0 (length key) low,
                ◌>>◌,
                ◌>>=◌,
                assert,
              )
              (get_elem?-set_same bn.prefix_links (length key - 1) val (omega (arith, ok.size))),
      )

  -- `BN_SetSuffixValue` for a key that goes on.
  pub border_get-set_suffix_value :
      (n count : ℕ) (bn : Border V) (key : List ℕ) (val : Option (LinkOrValue V))
      → IsBorder n count bn
      → keyslice_length < length key
      → IsBorder n count (set_suffix_value bn (drop keyslice_length key) val)
        × (has_suffix (set_suffix_value bn (drop keyslice_length key) val) ≡ true)
        × (test_suffix (set_suffix_value bn (drop keyslice_length key) val) key ≡ true)
        × ((below : ℕ → Option (Option (LinkOrValue V)))
            → border_get (set_suffix_value bn (drop keyslice_length key) val) key below ≡ some val)
  unfolding set_suffix_value get_suffix_value has_suffix test_suffix border_get get_link
  border_get-set_suffix_value n count bn key val ok long =
      let same : str_equal (drop keyslice_length key) (drop keyslice_length key) ≡ true =
        (str_equal_iff (drop keyslice_length key) (drop keyslice_length key)).1 refl in
      (
        record {
          size = ok.size;
          linked = λ p e. cc;
          filled = λ suffix e.
              omega (arith, ap length (some-injective _ suffix e), length-drop keyslice_length key);
        },
        refl,
        same,
        λ below. rw (leb-eq-false (length key) keyslice_length long, same) refl,
      )

  pub new_border_node-IsBorder :
      (n count : ℕ) → IsBorder n count (new_border_node {V = LinkOrValue V})
  unfolding new_border_node get_link
  new_border_node-IsBorder n count = record {
    size = refl;
    linked = λ p e. cc;
    filled = λ suffix e. cc;
  }

  -- `BN_SetValue` for a key that is not empty.
  pub border_get-set_value :
      (n count : ℕ) (bn : Border V) (key : List ℕ) (val : Option (LinkOrValue V))
      → IsBorder n count bn
      → 0 < length key
      → (bn' : Border V) × (set_value bn key val ≡ some bn')
        × IsBorder n count bn'
        × ((below : ℕ → Option (Option (LinkOrValue V))) → border_get bn' key below ≡ some val)
  unfolding set_value
  border_get-set_value n count bn key val ok low =
      elim (Bool-cases (leb (length key) keyslice_length)) [
        | inl short ↦
            let high = leb→le (length key) keyslice_length short in
            let (_, bn', _, run, good, got) =
              border_get-set_prefix_value n count bn key val ok low high in
            (bn', rw (ltb-eq-false max_bn_size (length key) high) run, good, got)
        | inr long ↦
            let beyond = leb-lt (length key) keyslice_length long in
            let (good, _, _, got) = border_get-set_suffix_value n count bn key val ok beyond in
            (
              set_suffix_value bn (drop keyslice_length key) val,
              rw (lt→ltb max_bn_size (length key) beyond) refl,
              good,
              got,
            )
      ]
