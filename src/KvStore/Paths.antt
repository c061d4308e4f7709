-- ===== src/KvStore/Paths.antt =====
-- src/btrees and tries (Adewale)/kvstore.c: the border nodes that a key leads to, layer by layer.
use deep_spec_db.Base.{
  ℕ, ◌<◌, ◌≡◌, ◌≢◌, refl, sym, ap, subst, ◌∙◌, some, List, length, get_elem?, get_elem?-some,
  get_elem?-set_same, get_elem?-set_other, drop, ◌==◌, ==-eq, ==-ne, Bool-cases, inl, inr,
}
use mathlib.Core.Option.{some-injective}
use deep_spec_db.Relation.{Cursor}
use deep_spec_db.BorderNode.{get_link}
use deep_spec_db.KeySlice.{keyslice_length}
use deep_spec_db.KvStore.{KvStore, link, Border, set_node, key_slice}
use deep_spec_db.KvStore.Directory.{view}
use deep_spec_db.KvStore.Second.{Clash}

-- From a node on, a key longer than a slice leads to a border node, with a rest of the key: to the one of
-- its slice, or by the link of that one to another node, and from there on with the key's rest.
pub data Leads {ℓ} {V : Type ℓ} (s : KvStore V) : ℕ → List ℕ → ℕ → List ℕ → Type ℓ where
  in_node :
      {n : ℕ} {key : List ℕ} {b : ℕ} {rest : List ℕ} (k : ℕ) (c : Cursor ℕ)
      → key_slice key ≡ some k
      → get_elem? s.nodes n ≡ some c
      → view c k ≡ some b
      → keyslice_length < length key
      → drop keyslice_length key ≡ rest
      → Leads s n key b rest
  in_layer :
      {n : ℕ} {key : List ℕ} {b : ℕ} {rest : List ℕ} (k : ℕ) (c : Cursor ℕ) (b' : ℕ) (bn : Border V)
      (next : ℕ)
      → key_slice key ≡ some k
      → get_elem? s.nodes n ≡ some c
      → view c k ≡ some b'
      → keyslice_length < length key
      → get_elem? s.borders b' ≡ some bn
      → get_link bn ≡ some (link next)
      → Leads s next (drop keyslice_length key) b rest
      → Leads s n key b rest

-- A suffix on the key's way that clashes with the rest of the key there is the same string.
abbrev pub IsClear {ℓ} : {V : Type ℓ} → KvStore V → ℕ → List ℕ → Type ℓ
IsClear {V} s n key =
    (b : ℕ) (rest : List ℕ) (bn : Border V) (suffix : List ℕ)
    → Leads s n key b rest
    → get_elem? s.borders b ≡ some bn
    → bn.key_suffix ≡ some suffix
    → rest ≢ suffix
    → ¬ Clash rest suffix

module _ {ℓ} {V : Type ℓ} (s : KvStore V) (n : ℕ) (c moved : Cursor ℕ)
    (at : get_elem? s.nodes n ≡ some c) (same : (k : ℕ) → view moved k ≡ view c k) where
  node_before :
      (m : ℕ) (c' : Cursor ℕ)
      → get_elem? (set_node s n moved).nodes m ≡ some c'
      → (was : Cursor ℕ) × (get_elem? s.nodes m ≡ some was) × ((k : ℕ) → view was k ≡ view c' k)
  node_before m c' at' = elim (Bool-cases (n == m)) [
    | inl t ↦
        let e = ==-eq n m t in
        let there = get_elem?-set_same s.nodes n moved (get_elem?-some s.nodes n c at) in
        let at_n = subst (λ x. get_elem? (set_node s n moved).nodes x ≡ some c') (sym e) at' in
        let is : moved ≡ c' = some-injective moved c' (sym there ∙ at_n) in
        (
          c,
          subst (λ x. get_elem? s.nodes x ≡ some c) e at,
          λ k. sym (same k) ∙ ap (λ x. view x k) is,
        )
    | inr f ↦ (c', sym (get_elem?-set_other s.nodes n m moved (==-ne n m f)) ∙ at', λ k. refl)
  ]

  -- A move of a node's cursor does not change where a key leads.
  pub Leads-set_node :
      (m : ℕ) (key : List ℕ) (b : ℕ) (rest : List ℕ)
      → Leads (set_node s n moved) m key b rest
      → Leads s m key b rest
  Leads-set_node m key b rest (in_node k c' e at' hit long is) =
      let (was, at_m, views) = node_before m c' at' in in_node k was e at_m (views k ∙ hit) long is
  Leads-set_node m key b rest (in_layer k c' b' bn next e at' hit long there linked below) =
      let (was, at_m, views) = node_before m c' at' in
      in_layer k was b' bn next e at_m (views k ∙ hit) long there linked
        (Leads-set_node next (drop keyslice_length key) b rest below)
