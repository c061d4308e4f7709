-- ===== src/SearchTree/Delete.antt =====
-- concurrency/bst_conc.c: `pushdown_left` and `delete`.
use deep_spec_db.Base.{
  ℕ, suc, none, ltb, ◌==◌, if◌then◌else◌, ◌≤◌, ◌<◌, ◌≡◌, ◌∙◌, inl, inr, refl, arith, Bool-cases,
  ltb→lt, ltb-le,
}
use deep_spec_db.SearchTree.{Tree, nil, node, lookup, pushdown_left, delete, IsSearch}
use deep_spec_db.SearchTree.Laws.{lookup_out}

module _ {ℓ} {V : Type ℓ} where
  IsSearch-widen :
      (t : Tree V) (lo lo' hi hi' : ℕ) → lo ≤ lo' → hi' ≤ hi → IsSearch lo' hi' t → IsSearch lo hi t
  IsSearch-widen nil lo lo' hi hi' a b h = tt
  IsSearch-widen (node l y w r) lo lo' hi hi' a b h = (
    omega (arith, h.0),
    omega (arith, h.1),
    IsSearch-widen l lo lo' y y a (omega arith) h.2,
    IsSearch-widen r (suc y) (suc y) hi hi' (omega arith) b h.3,
  )

  pushdown_left-IsSearch :
      (l : Tree V) (y : ℕ) (w : V) (r : Tree V) (lo hi : ℕ)
      → lo ≤ y
      → y < hi
      → IsSearch lo y l
      → IsSearch (suc y) hi r
      → IsSearch lo hi (pushdown_left l y w r)
  unfolding pushdown_left
  pushdown_left-IsSearch l y w nil lo hi a b hl hr =
      IsSearch-widen l lo lo hi y (omega arith) (omega arith) hl
  pushdown_left-IsSearch l y w (node mid z u r) lo hi a b hl hr = (
    omega (arith, hr.0),
    hr.1,
    pushdown_left-IsSearch l y w mid lo z a (omega (arith, hr.0)) hl hr.2,
    hr.3,
  )

  -- The node goes, and its two subtrees stay.
  pushdown_left-lookup :
      (l : Tree V) (y : ℕ) (w : V) (r : Tree V) (lo hi j : ℕ)
      → IsSearch lo y l
      → IsSearch (suc y) hi r
      → lookup (pushdown_left l y w r) j
        ≡ (if ltb j y then lookup l j else if ltb y j then lookup r j else none)
  unfolding pushdown_left lookup
  pushdown_left-lookup l y w nil lo hi j hl hr = elim (Bool-cases (ltb j y)) [
    | inl lt ↦ rw lt refl
    | inr ge ↦ elim (Bool-cases (ltb y j)) [
      | inl gt ↦ rw (ge, gt) (lookup_out l j lo y hl (inr (ltb-le j y ge)))
      | inr le ↦ rw (ge, le) (lookup_out l j lo y hl (inr (ltb-le j y ge)))
    ]
  ]
  pushdown_left-lookup l y w (node mid z u r) lo hi j hl hr =
      ground (arith, hr.0, pushdown_left-lookup l y w mid lo z j hl hr.2)

  -- A deletion from a tree in search order keeps the search order and the bounds of the keys.
  pub delete-IsSearch : (t : Tree V) (x lo hi : ℕ) → IsSearch lo hi t → IsSearch lo hi (delete t x)
  unfolding delete
  delete-IsSearch nil x lo hi h = tt
  delete-IsSearch (node l y w r) x lo hi h = elim (Bool-cases (ltb x y)) [
    | inl lt ↦ rw lt (h.0, h.1, delete-IsSearch l x lo y h.2, h.3)
    | inr ge ↦ elim (Bool-cases (ltb y x)) [
      | inl gt ↦ rw (ge, gt) (h.0, h.1, h.2, delete-IsSearch r x (suc y) hi h.3)
      | inr le ↦ rw (ge, le) (pushdown_left-IsSearch l y w r lo hi h.0 h.1 h.2 h.3)
    ]
  ]

  -- After a deletion from a tree in search order the key is not found, and every other key has
  -- what it had.
  pub lookup-delete :
      (t : Tree V) (x lo hi : ℕ)
      → IsSearch lo hi t
      → (j : ℕ) → lookup (delete t x) j ≡ (if x == j then none else lookup t j)
  unfolding lookup delete
  lookup-delete nil x lo hi h j = ground arith
  lookup-delete (node l y w r) x lo hi h j = elim (Bool-cases (ltb x y)) [
    | inl lt ↦ rw lt (ground (arith, ltb→lt x y lt, lookup-delete l x lo y h.2 j))
    | inr ge ↦ elim (Bool-cases (ltb y x)) [
      | inl gt ↦ rw (ge, gt) (ground (arith, ltb→lt y x gt, lookup-delete r x (suc y) hi h.3 j))
      | inr le ↦
          rw (ge, le)
            (pushdown_left-lookup l y w r lo hi j h.2 h.3
              ∙ ground (arith, ltb-le x y ge, ltb-le y x le))
    ]
  ]
