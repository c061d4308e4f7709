-- ===== src/Relation/Contents.antt =====
-- What a relation holds: its records in key order, and the map of keys to records that they make.
use deep_spec_db.Base.{
  ℕ, zero, suc, Option, none, some, List, [], ◌∷◌, ◌++◌, ltb, ◌==◌, if◌then◌else◌,
}
use deep_spec_db.Relation.{Node, Relation}

module _ {ℓ κ} {A : Type ℓ} {X : Type κ} where
  -- The lists of the children behind an intern node's entries, one after the other.
  unfoldable pub flat : (A → List X) → List (ℕ × A) → List X
  flat f [] = []
  flat f (e ∷ es) = f e.1 ++ flat f es

module _ {ℓ} (V : Type ℓ) where
  -- The records below a node, from left to right.
  unfoldable pub to_list : (d : ℕ) → Node V d → List (ℕ × V)
  to_list zero n = n.entries
  to_list (suc d) n = to_list d n.ptr0 ++ flat (to_list d) n.entries

module _ {ℓ} {V : Type ℓ} where
  unfoldable pub contents : Relation V → List (ℕ × V)
  contents r = to_list V r.depth r.root

  -- Sorted association lists: the map that a relation stands for.
  unfoldable pub lookup : ℕ → List (ℕ × V) → Option V
  lookup key [] = none
  lookup key (e ∷ es) = if e.0 == key then some e.1 else lookup key es

  unfoldable pub insert : ℕ → V → List (ℕ × V) → List (ℕ × V)
  insert key v [] = (key, v) ∷ []
  insert key v (e ∷ es) =
      if ltb key e.0
      then (key, v) ∷ e ∷ es
      else if key == e.0
      then (e.0, v) ∷ es
      else e ∷ insert key v es
