-- ===== src/BorderNode/Laws.antt =====
-- src/btrees and tries (Adewale)/bordernode.c: what a border node returns after a value is set.
use deep_spec_db.Base.{
  ℕ, ◌-◌, ◌≤◌, ◌<◌, true, Option, none, some, false, true≢false, sym, List, length, set, drop, ltb,
  if◌then◌else◌, ◌>>=◌, ◌>>◌, assert, ◌≡◌, ◌≢◌, refl, ◌∙◌, arith, Bool-cases, inl, inr, ltb→lt,
  lt→ltb, le→leb, ltb-eq-false, length-set, get_elem?-set_same, get_elem?-set_other,
}
use deep_spec_db.BorderNode.{
  BorderNode, max_bn_size, set_prefix_value, get_prefix_value, set_suffix_value, get_suffix_value,
  test_suffix, has_suffix, set_value,
}
use deep_spec_db.BorderNode.Strings.{str_equal, str_equal_iff}

module _ {ℓ} {V : Type ℓ} where
  -- What the node has for a key: by its length, the value of a prefix or of the suffix.
  unfoldable pub get_value : BorderNode V → List ℕ → Option (Option V)
  get_value bn key =
      if ltb max_bn_size (length key)
      then some (get_suffix_value bn (drop max_bn_size key))
      else get_prefix_value bn (length key)

  -- On a node of MAX_BN_SIZE links, BN_SetValue of a key that is not empty and no longer than a
  -- slice returns such a node, in which the key has the value and every key of another length what
  -- it had.
  pub set_value_short :
      (bn : BorderNode V) (key : List ℕ) (val : Option V)
      → length bn.prefix_links ≡ max_bn_size
      → 0 < length key
      → length key ≤ max_bn_size
      → (bn' : BorderNode V) × (set_value bn key val ≡ some bn')
        × (length bn'.prefix_links ≡ max_bn_size)
        × (get_value bn' key ≡ some val)
        × ((other : List ℕ) → length other ≢ length key → get_value bn' other ≡ get_value bn other)
  unfolding set_value set_prefix_value get_value get_prefix_value get_suffix_value
  set_value_short bn key val size low high = (
    record bn { prefix_links = set bn.prefix_links (length key - 1) val },
    rw
        (
          ltb-eq-false max_bn_size (length key) high,
          lt→ltb 0 (length key) low,
          le→leb (length key) max_bn_size high,
          ◌>>◌,
          ◌>>=◌,
          assert,
        )
        refl,
    length-set bn.prefix_links (length key - 1) val ∙ size,
    rw
        (
          ltb-eq-false max_bn_size (length key) high,
          lt→ltb 0 (length key) low,
          le→leb (length key) max_bn_size high,
          ◌>>◌,
          ◌>>=◌,
          assert,
        )
        (get_elem?-set_same bn.prefix_links (length key - 1) val (omega arith)),
    λ other differs. elim (Bool-cases (ltb max_bn_size (length other))) [
      | inl long ↦ rw long refl
      | inr short ↦ elim (Bool-cases (ltb 0 (length other))) [
        | inl more ↦
            rw
              (
                short,
                more,
                get_elem?-set_other bn.prefix_links (length key - 1) (length other - 1) val
                    (λ e. differs (omega (arith, e, ltb→lt 0 (length other) more))),
              )
              refl
        | inr empty ↦ rw (short, empty) refl
      ]
    ],
  )

  -- BN_SetValue of a key longer than a slice returns a node with a suffix, which BN_TestSuffix
  -- finds for the key; the key has the value, a key longer than a slice with another suffix has
  -- nothing, and a key no longer than a slice what it had.
  pub set_value_long :
      (bn : BorderNode V) (key : List ℕ) (val : Option V)
      → max_bn_size < length key
      → (bn' : BorderNode V) × (set_value bn key val ≡ some bn')
        × (has_suffix bn' ≡ true)
        × (test_suffix bn' key ≡ true)
        × (get_value bn' key ≡ some val)
        × ((other : List ℕ)
            → max_bn_size < length other
            → drop max_bn_size other ≢ drop max_bn_size key
            → get_value bn' other ≡ some none)
        × ((other : List ℕ) → length other ≤ max_bn_size → get_value bn' other ≡ get_value bn other)
  unfolding set_value set_suffix_value has_suffix test_suffix get_value get_suffix_value
      get_prefix_value
  set_value_long bn key val long =
      let same : str_equal (drop max_bn_size key) (drop max_bn_size key) ≡ true =
        (str_equal_iff (drop max_bn_size key) (drop max_bn_size key)).1 refl in
      (
        record bn { key_suffix = some (drop max_bn_size key); suffix_link = val },
        rw (lt→ltb max_bn_size (length key) long) refl,
        refl,
        same,
        rw (lt→ltb max_bn_size (length key) long, same) refl,
        (λ other l differs.
            elim (Bool-cases (str_equal (drop max_bn_size other) (drop max_bn_size key))) [
              | inl t ↦
                  absurd
                    (differs ((str_equal_iff (drop max_bn_size other) (drop max_bn_size key)).0 t))
              | inr f ↦ rw (lt→ltb max_bn_size (length other) l, f) refl
            ]),
        (λ other l. rw (ltb-eq-false max_bn_size (length other) l) refl),
      )

-- A node whose suffix is not found for a key has another suffix.
pub test_suffix_differs {ℓ} :
    {V : Type ℓ} (bn : BorderNode V) (key suffix : List ℕ)
    → bn.key_suffix ≡ some suffix
    → test_suffix bn key ≡ false
    → drop max_bn_size key ≢ suffix
unfolding test_suffix
test_suffix_differs bn key suffix is differs same =
    let differ : str_equal (drop max_bn_size key) suffix ≡ false = rw is at differs in
    let equal = (str_equal_iff (drop max_bn_size key) suffix).1 same in
    true≢false (sym equal ∙ differ)
