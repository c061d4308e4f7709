-- ===== src/Relation/Position/Find.antt =====
-- `moveToKey` by position: it stops before the first record whose key is at least the search key.
use deep_spec_db.Base.{
  ℕ, zero, suc, ◌+◌, ◌≤◌, ◌<◌, ◌≡◌, refl, Bool, true, false, some, List, [], ◌∷◌, ◌++◌, arith,
  length, get_elem?, leb, ◌==◌, if◌then◌else◌, Bool-cases, leb-eq-false, le→leb, leb→le, leb-lt,
  inl, inr, ==-eq-false,
}
use mathlib.Core.Option.{some-injective}
use deep_spec_db.Relation.{Node, Ancestors}
use deep_spec_db.Relation.Search.{find_record_index, child_index, move_to_key}
use deep_spec_db.Relation.Contents.{to_list}
use deep_spec_db.Relation.Order.{Ascends, Ascends-le, IsOrdered}
use deep_spec_db.Relation.Slot.{slot}
use deep_spec_db.Relation.Split.Laws.{find_record_index-le}
use deep_spec_db.Relation.Put.Result.{to_list-Ascends}
use deep_spec_db.Relation.Put.Children.{move_to_key_step}
use deep_spec_db.Relation.Position.{IsAt}

module _ {ℓ} {A : Type ℓ} where
  -- Among sorted records: whether one has the key.
  unfoldable pub held : ℕ → List (ℕ × A) → Bool
  held key [] = false
  held key (e ∷ es) = if e.0 == key then true else held key es

  pub find_none :
      (key lo hi : ℕ) (es : List (ℕ × A)) → Ascends lo hi es → key < lo → held key es ≡ false
  unfolding held
  find_none key lo hi [] s h = refl
  find_none key lo hi (e ∷ es) s h =
      rw (==-eq-false e.0 key (omega arith)) (find_none key (suc e.0) hi es s.1 (omega arith))

  -- The record at the found position has the key exactly if some record has it.
  pub held-get_elem? :
      (key lo hi : ℕ) (es : List (ℕ × A)) (e : ℕ × A)
      → Ascends lo hi es
      → get_elem? es (find_record_index key es) ≡ some e
      → (e.0 == key) ≡ held key es
  unfolding held find_record_index
  held-get_elem? key lo hi [] e s h = cc
  held-get_elem? key lo hi (x ∷ es) e s h = elim (Bool-cases (leb key x.0)) [
    | inl le ↦
        let here : x ≡ e = some-injective x e (rw le at h) in
        rw (← here) (ground (arith, leb→le key x.0 le, find_none key (suc x.0) hi es s.1))
    | inr gt ↦
        let there : get_elem? es (find_record_index key es) ≡ some e = rw gt at h in
        rw (==-eq-false x.0 key (omega (arith, leb-lt key x.0 gt)))
          (held-get_elem? key (suc x.0) hi es e s.1 there)
  ]

  pub held_past :
      (key lo hi : ℕ) (es : List (ℕ × A))
      → Ascends lo hi es
      → find_record_index key es ≡ length es
      → held key es ≡ false
  unfolding held find_record_index
  held_past key lo hi [] s h = refl
  held_past key lo hi (x ∷ es) s h = elim (Bool-cases (leb key x.0)) [
    | inl le ↦ let zero_length : 0 ≡ suc (length es) = rw le at h in absurd (omega arith)
    | inr gt ↦
        let there : suc (find_record_index key es) ≡ suc (length es) = rw gt at h in
        rw (==-eq-false x.0 key (omega (arith, leb-lt key x.0 gt)))
          (held_past key (suc x.0) hi es s.1 (omega arith))
  ]

  find_middle :
      (key lo low high hi : ℕ) (pre xs post : List (ℕ × A))
      → Ascends lo low pre
      → low ≤ key
      → key < high
      → Ascends high hi post
      → find_record_index key (pre ++ (xs ++ post)) ≡ length pre + find_record_index key xs
  unfolding find_record_index
  find_middle key lo low high hi [] [] [] a l u b = omega arith
  find_middle key lo low high hi [] [] (e ∷ post) a l u b =
      rw (le→leb key e.0 (omega arith)) (omega arith)
  find_middle key lo low high hi [] (x ∷ xs) post a l u b =
      ground (arith, find_middle key lo low high hi [] xs post a l u b)
  find_middle key lo low high hi (e ∷ pre) xs post a l u b =
      let above : e.0 < key = omega (arith, Ascends-le (suc e.0) low pre a.1) in
      rw (leb-eq-false key e.0 above)
        (omega (arith, find_middle key (suc e.0) low high hi pre xs post a.1 l u b))

module _ {ℓ} (V : Type ℓ) where
  -- The descent to a key within the bounds of an ordered tree.
  pub move_to_key-IsAt :
      (d : ℕ) (n : Node V d) (lo : ℕ) (first : Bool) (hi : ℕ) (last : Bool) (key : ℕ)
      → IsOrdered V d n lo first hi last
      → lo ≤ key
      → key < hi
      → (p : Ancestors d) × (move_to_key V d n key ≡ some p)
        × IsAt V d n p (find_record_index key (to_list V d n))
  unfolding move_to_key to_list
  move_to_key-IsAt zero n lo first hi last key h l u =
      (_, refl, (find_record_index-le key n.entries, refl, tt))
  move_to_key-IsAt (suc d) n lo first hi last key h l u =
      let s =
        slot (IsOrdered V d) (to_list V d) (to_list-Ascends V d) n lo first hi last key n.ptr0
          n.entries l u h.1 in
      let (p, down, at) =
        move_to_key-IsAt d s.here s.low s.at_first s.high s.at_last key s.good s.low_le s.key_lt in
      (
        (child_index key n.entries, p),
        move_to_key_step V d n key s.here p h.0 s.at_child down,
        (
          s.here,
          s.at_child,
          find_record_index key (to_list V d s.here),
          at,
          rw (s.whole, ← s.pre_before)
              (find_middle key lo s.low s.high hi s.pre (to_list V d s.here) s.post s.pre_ascends
                s.low_le s.key_lt s.post_ascends),
        ),
      )
