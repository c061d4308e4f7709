-- ===== src/Relation/Put/Result.antt =====
-- What `putEntry` must leave at a node for the whole insertion to be right: the specification of
-- its two outcomes.
use deep_spec_db.Base.{
  ℕ, zero, suc, ◌+◌, ◌≤◌, ◌<◌, ◌≡◌, refl, ap, Bool, false, some, List, [], ◌∷◌, ◌++◌, arith, length,
  ◌∙◌, inl, inr, ltb, ◌==◌, Bool-cases,
}
use deep_spec_db.Relation.{Node, Ancestors}
use deep_spec_db.Relation.Search.{move_to_key}
use deep_spec_db.Relation.Contents.{to_list, insert}
use deep_spec_db.Relation.Insertion.{insert-below, insert-above}
use deep_spec_db.Relation.Order.{Ascends, Ascends-le, IsOrdered, IsSized}
use deep_spec_db.Relation.Put.{Put, done, split}
use deep_spec_db.Relation.Slot.{below-Ascends}

module _ {ℓ} (V : Type ℓ) where
  -- The records below an ordered node ascend between its bounds.
  pub to_list-Ascends :
      (d : ℕ) (n : Node V d) (lo : ℕ) (first : Bool) (hi : ℕ) (last : Bool)
      → IsOrdered V d n lo first hi last
      → Ascends lo hi (to_list V d n)
  unfolding to_list
  to_list-Ascends zero n lo first hi last h = h.0
  to_list-Ascends (suc d) n lo first hi last h =
      below-Ascends (IsOrdered V d) (to_list V d) (to_list-Ascends d) lo first hi last n.ptr0
        n.entries h.1

  pub IsOrdered-le :
      (d : ℕ) (n : Node V d) (lo : ℕ) (first : Bool) (hi : ℕ) (last : Bool)
      → IsOrdered V d n lo first hi last
      → lo ≤ hi
  IsOrdered-le d n lo first hi last h =
      Ascends-le lo hi (to_list V d n) (to_list-Ascends d n lo first hi last h)

  -- Insertion between records with smaller and with greater keys.
  pub insert-middle :
      (key : ℕ) (v : V) (lo low high hi : ℕ) (pre xs post : List (ℕ × V))
      → Ascends lo low pre
      → low ≤ key
      → key < high
      → Ascends high hi post
      → insert key v (pre ++ (xs ++ post)) ≡ pre ++ (insert key v xs ++ post)
  unfolding insert
  insert-middle key v lo low high hi [] [] [] a l u b = refl
  insert-middle key v lo low high hi [] [] (e ∷ post) a l u b =
      insert-below key v e post (omega arith)
  insert-middle key v lo low high hi [] (x ∷ xs) post a l u b = elim (Bool-cases (ltb key x.0)) [
    | inl lt ↦ rw lt
    | inr ge ↦ elim (Bool-cases (key == x.0)) [
      | inl eq ↦ rw (ge, eq)
      | inr ne ↦
          rw (ge, ne)
            (ap (λ (t : List (ℕ × V)). x ∷ t)
              (insert-middle key v lo low high hi [] xs post a l u b))
    ]
  ]
  insert-middle key v lo low high hi (e ∷ pre) xs post a l u b =
      insert-above key v e _ (omega (arith, Ascends-le (suc e.0) low pre a.1))
      ∙ ap (λ (t : List (ℕ × V)). e ∷ t)
          (insert-middle key v (suc e.0) low high hi pre xs post a.1 l u b)

module _ {ℓ} (V : Type ℓ) (d : ℕ) (n : Node V d) (key : ℕ) (v : V) (lo : ℕ) (first : Bool) (hi : ℕ)
    (last : Bool) where
  pub record IsDone (least : ℕ) (n' : Node V d) (p : Ancestors d) (count : ℕ) : Type ℓ where
    pub ordered : IsOrdered V d n' lo first hi last
    pub sized : IsSized V d least n'
    pub records : to_list V d n' ≡ insert key v (to_list V d n)
    pub counted : length (to_list V d n') ≡ length (to_list V d n) + count
    pub cursor : move_to_key V d n' key ≡ some p

  pub record IsSplit (a : Node V d) (k : ℕ) (b : Node V d) : Type ℓ where
    pub above : lo < k
    pub under : k < hi
    pub left : IsOrdered V d a lo first k false
    pub right : IsOrdered V d b k false hi last
    pub sized_left : IsSized V d 7 a
    pub sized_right : IsSized V d 7 b
    pub records : to_list V d a ++ to_list V d b ≡ insert key v (to_list V d n)
    pub counted : length (to_list V d a ++ to_list V d b) ≡ length (to_list V d n) + 1

  abbrev pub IsPut : ℕ → Put V d → Type ℓ
  IsPut least (done n' p count) = IsDone least n' p count
  IsPut least (split a k b) = IsSplit a k b
