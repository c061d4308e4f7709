-- ===== src/KvStore/Spec.antt =====
-- src/btrees and tries (Adewale)/kvstore.c: the representation invariant of the store, and what the
-- store holds for a key below a node, read without moving a cursor.
use deep_spec_db.Base.{
  ℕ, zero, suc, ◌<◌, ◌≡◌, Option, none, some, List, length, get_elem?, drop, leb, if◌then◌else◌,
  ◌>>=◌,
}
use deep_spec_db.Relation.{Cursor}
use deep_spec_db.BorderNode.{max_bn_size, get_prefix_value, get_suffix_value, has_suffix, get_link}
use deep_spec_db.KeySlice.{keyslice_length}
use deep_spec_db.KvStore.{KvStore, LinkOrValue, value, link, Border, key_slice}
use deep_spec_db.KvStore.Directory.{view, IsCursor}

module _ {ℓ} {V : Type ℓ} where
  -- What a node's border node has for a key; a link leads on, with less fuel.
  unfoldable pub border_get :
      Border V → List ℕ → (ℕ → Option (Option (LinkOrValue V))) → Option (Option (LinkOrValue V))
  border_get bn key below =
      if leb (length key) keyslice_length
      then get_prefix_value bn (length key)
      else if has_suffix bn
      then some (get_suffix_value bn (drop keyslice_length key))
      else elim (get_link bn) [
        | none ↦ some none
        | some (value v) ↦ none
        | some (link next) ↦ below next
      ]

  unfoldable pub stored : ℕ → KvStore V → ℕ → List ℕ → Option (Option (LinkOrValue V))
  stored zero s n key = none
  stored (suc fuel) s n key = do
    slice ← key_slice key
    c ← get_elem? s.nodes n
    elim (view c slice) [
      | none ↦ some none
      | some b ↦ do
        bn ← get_elem? s.borders b
        border_get bn key (λ next. stored fuel s next (drop keyslice_length key))
    ]

  -- A border node has all its prefixes; its link, if any, is to a later node of the store, and its
  -- suffix, if any, is not empty.
  pub record IsBorder (n count : ℕ) (bn : Border V) : Type ℓ where
    pub size : length bn.prefix_links ≡ max_bn_size
    pub linked :
        (p : LinkOrValue V)
        → get_link bn ≡ some p
        → (next : ℕ) × (p ≡ link next) × (n < next) × (next < count)
    pub filled : (suffix : List ℕ) → bn.key_suffix ≡ some suffix → 0 < length suffix

  -- The border node at an address belongs to the node `n`.
  pub record HasBorder (s : KvStore V) (own : ℕ → ℕ) (n b : ℕ) : Type ℓ where
    pub bn : Border V
    pub at : get_elem? s.borders b ≡ some bn
    pub owner : own b ≡ n
    pub good : IsBorder n (length s.nodes) bn

  pub record IsNode (s : KvStore V) (own : ℕ → ℕ) (n : ℕ) (c : Cursor ℕ) : Type ℓ where
    pub well_formed : IsCursor c
    pub borders : (slice b : ℕ) → view c slice ≡ some b → HasBorder s own n b

  -- Every node is well formed, where `own` says to which node a border node belongs.
  abbrev pub IsStore : KvStore V → (ℕ → ℕ) → Type ℓ
  IsStore s own = (n : ℕ) (c : Cursor ℕ) → get_elem? s.nodes n ≡ some c → IsNode s own n c
