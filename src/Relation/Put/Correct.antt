-- ===== src/Relation/Put/Correct.antt =====
-- `putEntry` from the cursor of the key is insertion into the sorted records of the tree, at every
-- depth.
use deep_spec_db.Base.{ℕ, zero, suc, ◌≤◌, ◌<◌, ◌≡◌, refl, Bool, some, ◌>>=◌}
use deep_spec_db.Relation.{Node, Ancestors}
use deep_spec_db.Relation.Search.{child_index, find_record_index, move_to_key}
use deep_spec_db.Relation.Contents.{to_list}
use deep_spec_db.Relation.Order.{IsOrdered, IsSized}
use deep_spec_db.Relation.Slot.{Slot, slot}
use deep_spec_db.Relation.Put.{Put, done, split, put_entry, set_child}
use deep_spec_db.Relation.Put.Result.{IsPut, to_list-Ascends}
use deep_spec_db.Relation.Put.Children.{All-child, move_to_key_step}
use deep_spec_db.Relation.Put.Leaf.{put_leaf-IsPut}
use deep_spec_db.Relation.Put.Intern.{set_child-IsDone, put_intern-IsPut}

module _ {ℓ} (V : Type ℓ) where
  -- An intern node passes on what the child left.
  put_up :
      (d : ℕ) (n : Node V (suc d)) (key : ℕ) (v : V) (lo : ℕ) (first : Bool) (hi : ℕ) (last : Bool)
      (least : ℕ)
      → IsOrdered V (suc d) n lo first hi last
      → IsSized V (suc d) least n
      → lo ≤ key
      → key < hi
      → (s : Slot (IsOrdered V d) (to_list V d) lo first hi last key n (child_index key n.entries))
      → (p : Ancestors d) (below : Put V d) → put_entry V d s.here p key v ≡ some below
      → IsPut V d s.here key v s.low s.at_first s.high s.at_last 7 below
      → (r : Put V (suc d)) × (put_entry V (suc d) n (child_index key n.entries, p) key v ≡ some r)
        × IsPut V (suc d) n key v lo first hi last least r
  unfolding put_entry
  put_up d n key v lo first hi last least o z l u s p (done c p' count) e b = (
    done (set_child n (child_index key n.entries) c) (child_index key n.entries, p') count,
    rw (s.at_child, ◌>>=◌, e),
    set_child-IsDone V d n key v lo first hi last least o z l u s c p' count b,
  )
  put_up d n key v lo first hi last least o z l u s p (split a k b) e r =
      let up = put_intern-IsPut V d n key v lo first hi last least o z l u s a k b r in
      (up.0, rw (s.at_child, ◌>>=◌, e, ◌>>=◌) up.1, up.2)

  -- For an ordered node of legal size and a key within its bounds, the descent to the key returns
  -- a cursor and putEntry from it returns: the node with the record put in, or the two halves of a
  -- split, ordered and of legal size, that together hold the records with the new one.
  pub put_entry-IsPut :
      (d : ℕ) (n : Node V d) (key : ℕ) (v : V) (lo : ℕ) (first : Bool) (hi : ℕ) (last : Bool)
      (least : ℕ)
      → IsOrdered V d n lo first hi last
      → IsSized V d least n
      → lo ≤ key
      → key < hi
      → (p : Ancestors d) × (r : Put V d) × (move_to_key V d n key ≡ some p)
        × (put_entry V d n p key v ≡ some r)
        × IsPut V d n key v lo first hi last least r
  unfolding put_entry move_to_key
  put_entry-IsPut zero n key v lo first hi last least o z l u =
      let (r, run, good) = put_leaf-IsPut V n key v lo first hi last least o z l u in
      (find_record_index key n.entries, r, refl, run, good)
  put_entry-IsPut (suc d) n key v lo first hi last least o z l u =
      let s =
        slot (IsOrdered V d) (to_list V d) (to_list-Ascends V d) n lo first hi last key n.ptr0
          n.entries l u o.1 in
      let below =
        put_entry-IsPut d s.here key v s.low s.at_first s.high s.at_last 7 s.good
          (All-child (IsSized V d 7) n (child_index key n.entries) s.here s.at_child z.2 z.3)
          s.low_le s.key_lt in
      let up = put_up d n key v lo first hi last least o z l u s below.0 below.1 below.3 below.4 in
      (
        (child_index key n.entries, below.0),
        up.0,
        move_to_key_step V d n key s.here below.0 o.0 s.at_child below.2,
        up.1,
        up.2,
      )
