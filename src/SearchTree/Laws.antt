-- ===== src/SearchTree/Laws.antt =====
-- concurrency/bst_conc.c: `insert` and `lookup`.
use deep_spec_db.Base.{
  ℕ, suc, none, some, ltb, ◌==◌, if◌then◌else◌, ◌≤◌, ◌<◌, ◌≡◌, ◌⊎◌, inl, inr, refl, arith,
  Bool-cases, ltb→lt, lt→ltb, ltb-eq-false,
}
use deep_spec_db.SearchTree.{Tree, nil, node, insert, lookup, IsSearch}

module _ {ℓ} {V : Type ℓ} where
  -- After an insertion into a search tree the key has the value, and every other key what it had.
  pub lookup-insert :
      (t : Tree V) (x : ℕ) (v : V) (j : ℕ)
      → lookup (insert t x v) j ≡ (if x == j then some v else lookup t j)
  unfolding lookup insert
  lookup-insert nil x v j = ground arith
  lookup-insert (node l y w r) x v j = ground (arith, lookup-insert l x v j, lookup-insert r x v j)

  -- An insertion of a key within the bounds into a tree in search order keeps the search order and
  -- the bounds.
  pub insert-IsSearch :
      (t : Tree V) (x : ℕ) (v : V) (lo hi : ℕ)
      → IsSearch lo hi t
      → lo ≤ x
      → x < hi
      → IsSearch lo hi (insert t x v)
  unfolding insert
  insert-IsSearch nil x v lo hi h l u = (l, u, tt, tt)
  insert-IsSearch (node a y w b) x v lo hi h l u = elim (Bool-cases (ltb x y)) [
    | inl lt ↦ rw lt (h.0, h.1, insert-IsSearch a x v lo y h.2 l (ltb→lt x y lt), h.3)
    | inr ge ↦ elim (Bool-cases (ltb y x)) [
      | inl gt ↦ rw (ge, gt) (h.0, h.1, h.2, insert-IsSearch b x v (suc y) hi h.3 (ltb→lt y x gt) u)
      | inr le ↦ rw (ge, le) (h.0, h.1, h.2, h.3)
    ]
  ]

  -- A key out of the bounds is not there.
  pub lookup_out :
      (t : Tree V) (j lo hi : ℕ) → IsSearch lo hi t → (j < lo) ⊎ (hi ≤ j) → lookup t j ≡ none
  unfolding lookup
  lookup_out nil j lo hi h out = refl
  lookup_out (node l y w r) j lo hi h out = elim out [
    | inl lt ↦ rw (lt→ltb j y (omega (arith, h.0))) (lookup_out l j lo y h.2 (inl lt))
    | inr ge ↦
        rw (ltb-eq-false j y (omega (arith, h.1)), lt→ltb y j (omega (arith, h.1)))
          (lookup_out r j (suc y) hi h.3 (inr ge))
  ]
