-- ===== src/Operators/Columns.antt =====
-- src/low level algos (Pablo)/db_operations_light.c: where `get_offset` finds a column, and the words that
-- `get_projection` takes of a tuple.
use deep_spec_db.Base.{
  ℕ, zero, suc, ◌+◌, ◌<◌, ◌≡◌, ◌≢◌, ◌↔◌, refl, sym, ap, ◌∙◌, arith, Bool, true, false, Option, none,
  some, List, [], ◌∷◌, length, get_elem?, Bool-cases, inl, inr, if◌then◌else◌, ◌>>=◌,
}
use mathlib.Core.Option.{some-injective}
use deep_spec_db.Operators.{
  Attribute, Domain, int, str, same_domain, offset_from, get_offset, Key, word, keypair, field,
  get_projection,
}

-- Columns of a table, and the words that a tuple has in them.
pub data InColumns {ℓ κ} {K : Type ℓ} {W : Type κ} (attrs : List (Attribute K)) (t : List W)
    : List (Attribute K) → List W → Type (ℓ ⊔ κ) where
  no_columns : InColumns attrs t [] []
  in_column :
      {a : Attribute K} {w : W} {l : List (Attribute K)} {ws : List W} (n : ℕ)
      → get_elem? attrs n ≡ some a
      → get_elem? t n ≡ some w
      → InColumns attrs t l ws
      → InColumns attrs t (a ∷ l) (w ∷ ws)

-- The key of words: the last one, and pairs before it.
abbrev pub key_of {ℓ} : {W : Type ℓ} → List W → Option (Key W)
key_of [] = none
key_of (w ∷ []) = some (word w)
key_of (w ∷ v ∷ ws) = do rest ← key_of (v ∷ ws); some (keypair w rest)

-- No column before a position has the name.
abbrev pub Misses {ℓ} : {K : Type ℓ} → List (Attribute K) → K → ℕ → Type ℓ
Misses {K} attrs id n = (m : ℕ) (b : Attribute K) → m < n → get_elem? attrs m ≡ some b → b.id ≢ id

abbrev pub IsNamed {ℓ} : {K : Type ℓ} → List (Attribute K) → Type ℓ
IsNamed {K} attrs =
    (m n : ℕ) (a b : Attribute K)
    → get_elem? attrs m ≡ some a
    → get_elem? attrs n ≡ some b
    → a.id ≡ b.id
    → m ≡ n

same_domain_self : (d : Domain) → same_domain d d ≡ true
unfolding same_domain
same_domain_self int = refl
same_domain_self str = refl

module _ {ℓ} {K : Type ℓ} (strcmp_eq : K → K → Bool)
    (strcmp_iff : (a b : K) → (strcmp_eq a b ≡ true) ↔ (a ≡ b)) where
  differs : (a b : K) → b ≢ a → strcmp_eq a b ≡ false
  differs a b ne = elim (Bool-cases (strcmp_eq a b)) [
    | inl t ↦ absurd (ne (sym ((strcmp_iff a b).0 t)))
    | inr f ↦ f
  ]

  module _ (id : K) (dom : Domain) where
    offset_from_hit :
        (attrs : List (Attribute K)) (res n : ℕ) (a : Attribute K)
        → get_elem? attrs n ≡ some a
        → a.id ≡ id
        → Misses attrs id n
        → offset_from strcmp_eq res attrs id dom
          ≡ (if same_domain dom a.domain then some (some (res + n)) else none)
    unfolding offset_from
    offset_from_hit [] res n a at same before = cc
    offset_from_hit (x ∷ attrs) res zero a at same before =
        let is : x ≡ a = some-injective x a at in
        let hit : strcmp_eq id x.id ≡ true =
          (strcmp_iff id x.id).1 (sym (ap (λ (y : Attribute K). y.id) is ∙ same)) in
        let e : res ≡ res + 0 = omega arith in
        rw hit (
          ap (λ (y : Attribute K). if same_domain dom y.domain then some (some res) else none) is
          ∙ ap (λ k. if same_domain dom a.domain then some (some k) else none) e)
    offset_from_hit (x ∷ attrs) res (suc n) a at same before =
        let e : suc res + n ≡ res + suc n = omega arith in
        rw (differs id x.id (before 0 x (omega arith) refl)) (
          offset_from_hit attrs (suc res) n a at same (λ m b lt h. before (suc m) b (omega arith) h)
          ∙ ap (λ k. if same_domain dom a.domain then some (some k) else none) e)

    offset_from_miss :
        (attrs : List (Attribute K)) (res : ℕ)
        → Misses attrs id (length attrs)
        → offset_from strcmp_eq res attrs id dom ≡ some none
    unfolding offset_from
    offset_from_miss [] res before = refl
    offset_from_miss (x ∷ attrs) res before =
        rw (differs id x.id (before 0 x (omega arith) refl))
          (offset_from_miss attrs (suc res) (λ m b lt h. before (suc m) b (omega arith) h))

    -- When strcmp returns zero exactly for equal strings, get_offset returns the position of the
    -- first column that has the name, if its domain is the one asked for, and exits otherwise.
    pub get_offset_lem :
        (attrs : List (Attribute K)) (n : ℕ) (a : Attribute K)
        → get_elem? attrs n ≡ some a
        → a.id ≡ id
        → Misses attrs id n
        → get_offset strcmp_eq attrs id dom
          ≡ (if same_domain dom a.domain then some (some n) else none)
    unfolding get_offset
    get_offset_lem [] n a at same before = cc
    get_offset_lem (x ∷ attrs) n a at same before =
        let e : 0 + n ≡ n = omega arith in
        offset_from_hit (x ∷ attrs) 0 n a at same before
        ∙ ap (λ k. if same_domain dom a.domain then some (some k) else none) e

    get_offset_missing :
        (attrs : List (Attribute K))
        → 0 < length attrs
        → Misses attrs id (length attrs)
        → get_offset strcmp_eq attrs id dom ≡ some none
    unfolding get_offset
    get_offset_missing [] lt before = absurd (omega arith)
    get_offset_missing (x ∷ attrs) lt before = offset_from_miss (x ∷ attrs) 0 before

  module _ {κ} {W : Type κ} (attrs : List (Attribute K)) (named : IsNamed attrs) (t : List W) where
    field_lem :
        (n : ℕ) (a : Attribute K) (w : W)
        → get_elem? attrs n ≡ some a
        → get_elem? t n ≡ some w
        → field strcmp_eq attrs t a ≡ some w
    unfolding field
    field_lem n a w at there =
        let found =
          get_offset_lem a.id a.domain attrs n a at refl
            (λ m b lt h e. absurd (omega (arith, named m n b a h at e))) in
        rw (found, same_domain_self a.domain) there

    -- When strcmp returns zero exactly for equal strings, and no two columns of a table have one
    -- name, get_projection of a tuple on columns of the table returns the key of the words that
    -- the tuple has there, and fails for no columns.
    pub get_projection_lem :
        (attrs_proj : List (Attribute K)) (ws : List W)
        → InColumns attrs t attrs_proj ws
        → get_projection strcmp_eq attrs t attrs_proj ≡ key_of ws
    unfolding get_projection
    get_projection_lem attrs_proj ws no_columns = refl
    get_projection_lem attrs_proj ws (in_column {a} {w} n at there no_columns) =
        rw (field_lem n a w at there) refl
    get_projection_lem attrs_proj ws
          (in_column {a} {w} n at there
            (in_column {a = b} {w = v} {l = l} {ws = us} m at' there' rest)) =
        rw
          (
            field_lem n a w at there,
            get_projection_lem (b ∷ l) (v ∷ us) (in_column m at' there' rest),
          )
          refl
