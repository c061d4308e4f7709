-- ===== src/BorderNode.antt =====
-- src/btrees and tries (Adewale)/bordernode.c, and the comparison of strings in util.c: the node of
-- the key-value store that holds the keys of one slice. A character array with its length is a list,
-- and a NULL pointer `none`; the outer `none` of an operation is a failed assert.
pub mod Strings
pub mod Laws
use deep_spec_db.Base.{
  ℕ, zero, suc, ◌-◌, Bool, true, false, ◌&&◌, Option, none, some, List, [], length, get_elem?, set,
  drop, replicate, ltb, leb, ◌==◌, if◌then◌else◌, ◌>>=◌, ◌>>◌, assert,
}
use deep_spec_db.BorderNode.Strings.{str_equal}

-- `MAX_BN_SIZE`, the number of bytes of a key slice.
abbrev pub max_bn_size : ℕ
max_bn_size = 8

-- `struct BorderNode`, where the suffix is with its length.
pub record BorderNode {ℓ} (V : Type ℓ) : Type ℓ where
  pub prefix_links : List (Option V)
  pub suffix_link : Option V
  pub key_suffix : Option (List ℕ)

module _ {ℓ} {V : Type ℓ} where
  unfoldable pub new_border_node : BorderNode V
  new_border_node = record {
    prefix_links = replicate max_bn_size none;
    suffix_link = none;
    key_suffix = none;
  }

  unfoldable pub set_prefix_value : BorderNode V → ℕ → Option V → Option (BorderNode V)
  set_prefix_value bn i val = do
    assert (ltb 0 i)
    assert (leb i max_bn_size)
    some (record bn { prefix_links = set bn.prefix_links (i - 1) val })

  unfoldable pub get_prefix_value : BorderNode V → ℕ → Option (Option V)
  get_prefix_value bn i = do
    assert (ltb 0 i)
    assert (leb i max_bn_size)
    get_elem? bn.prefix_links (i - 1)

  unfoldable pub set_suffix_value : BorderNode V → List ℕ → Option V → BorderNode V
  set_suffix_value bn suffix val = record bn { key_suffix = some suffix; suffix_link = val }

  -- `BN_TestSuffix`. A key of less than a slice is read outside of its array in the C code.
  unfoldable pub test_suffix : BorderNode V → List ℕ → Bool
  test_suffix bn key = elim bn.key_suffix [
    | some suffix ↦ str_equal (drop max_bn_size key) suffix
    | none ↦ false
  ]

  unfoldable pub get_suffix_value : BorderNode V → List ℕ → Option V
  get_suffix_value bn suf = elim bn.key_suffix [
    | none ↦ none
    | some suffix ↦ if str_equal suf suffix then bn.suffix_link else none
  ]

  -- `BN_ExportSuffixValue`: the suffix as a key, the value, and the node without them.
  unfoldable pub export_suffix_value : BorderNode V → Option (List ℕ) × Option V × BorderNode V
  export_suffix_value bn =
      (bn.key_suffix, bn.suffix_link, record bn { key_suffix = none; suffix_link = none })

  unfoldable pub set_link : BorderNode V → Option V → BorderNode V
  set_link bn val = record bn { key_suffix = none; suffix_link = val }

  unfoldable pub get_link : BorderNode V → Option V
  get_link bn = elim bn.key_suffix [ some suffix ↦ none | none ↦ bn.suffix_link ]

  unfoldable pub has_suffix : BorderNode V → Bool
  has_suffix bn = elim bn.key_suffix [ some suffix ↦ true | none ↦ false ]

  unfoldable pub set_value : BorderNode V → List ℕ → Option V → Option (BorderNode V)
  set_value bn key val =
      if ltb max_bn_size (length key)
      then some (set_suffix_value bn (drop max_bn_size key) val)
      else set_prefix_value bn (length key) val
