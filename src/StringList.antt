-- ===== src/StringList.antt =====
-- src/low level algos (Pablo)/stringlist.c: the association list from strings to pointers, and its
-- cursor. The list is that of the cells from `root`. A `void *` is `none` when it is NULL. The strings
-- and the test `strcmp(a, b) == 0` are parameters.
pub mod Laws
pub mod Cursors
use deep_spec_db.Base.{
  ℕ, zero, suc, Bool, true, false, Option, none, some, List, [], ◌∷◌, ltb, ◌==◌, if◌then◌else◌, ℤ,
  pos, negsuc,
}

-- `cur + 1`, `length - 1`, `cur > length` and `cur <= 0`
unfoldable pub succ : ℤ → ℤ
succ (pos n) = pos (suc n)
succ (negsuc zero) = pos 0
succ (negsuc (suc n)) = negsuc n

unfoldable pub pred_of : ℕ → ℤ
pred_of zero = negsuc 0
pred_of (suc n) = pos n

unfoldable pub exceeds : ℤ → ℕ → Bool
exceeds (pos c) n = ltb n c
exceeds (negsuc c) n = false

unfoldable pub not_positive : ℤ → Bool
not_positive (pos c) = c == 0
not_positive (negsuc c) = true

unfoldable pub same_int : ℤ → ℕ → Bool
same_int (pos c) n = c == n
same_int (negsuc c) n = false

-- `struct scell`
pub record Scell {ℓ κ} (K : Type ℓ) (V : Type κ) : Type (ℓ ⊔ κ) where
  pub key : K
  pub value : Option V

-- `struct cursor`
pub record ListCursor {ℓ κ} (K : Type ℓ) (V : Type κ) : Type (ℓ ⊔ κ) where
  pub list : List (Scell K V)
  pub cur : ℤ

module _ {ℓ κ} {K : Type ℓ} {V : Type κ} where
  unfoldable pub stringlist_new : List (Scell K V)
  stringlist_new = []

  -- `new_scell`, without its `next`.
  unfoldable pub new_scell : K → Option V → Scell K V
  new_scell key value = record { key = key; value = value }

  -- What the key had, NULL if nothing, and the list.
  unfoldable pub stringlist_insert :
      (K → K → Bool) → List (Scell K V) → K → Option V → Option V × List (Scell K V)
  stringlist_insert strcmp_eq [] key value = (none, new_scell key value ∷ [])
  stringlist_insert strcmp_eq (q ∷ qs) key value =
      let (old, rest) = stringlist_insert strcmp_eq qs key value in
      if strcmp_eq q.key key then (q.value, record q { value = value } ∷ qs) else (old, q ∷ rest)

  unfoldable pub stringlist_lookup : (K → K → Bool) → List (Scell K V) → K → Option V
  stringlist_lookup strcmp_eq [] key = none
  stringlist_lookup strcmp_eq (q ∷ qs) key =
      if strcmp_eq q.key key then q.value else stringlist_lookup strcmp_eq qs key

  unfoldable pub stringlist_cardinality : List (Scell K V) → ℕ
  stringlist_cardinality [] = 0
  stringlist_cardinality (q ∷ qs) = suc (stringlist_cardinality qs)

  -- The loop of `stringlist_get_cursor`, which counts from `cur`, and the cursor that it leaves.
  unfoldable pub find_position : (K → K → Bool) → List (Scell K V) → K → ℕ → ℕ
  find_position strcmp_eq [] key cur = 0
  find_position strcmp_eq (q ∷ qs) key cur =
      if strcmp_eq q.key key then cur else find_position strcmp_eq qs key (suc cur)

  unfoldable pub stringlist_get_cursor : (K → K → Bool) → List (Scell K V) → K → ListCursor K V
  stringlist_get_cursor strcmp_eq p key = record {
    list = p;
    cur = pos (find_position strcmp_eq p key 0);
  }

  -- `stringlist_get_pair`, whose loop counts from `position`; `none` is its uninitialised `pair`.
  unfoldable pub pair_from : List (Scell K V) → ℤ → ℕ → Option (Scell K V)
  pair_from [] cur position = none
  pair_from (q ∷ qs) cur position =
      if same_int cur position then some q else pair_from qs cur (suc position)

  unfoldable pub stringlist_get_pair : ListCursor K V → Option (Scell K V)
  stringlist_get_pair mc = pair_from mc.list mc.cur 0

  unfoldable pub stringlist_move_to_next : ListCursor K V → ListCursor K V
  stringlist_move_to_next mc =
      let length = stringlist_cardinality mc.list in
      let cur = succ mc.cur in
      record mc {
        cur =
            if exceeds cur length then pred_of length else if not_positive cur then pos 0 else cur;
      }

  unfoldable pub stringlist_move_to_first : ListCursor K V → ListCursor K V
  stringlist_move_to_first mc = record mc { cur = pos 0 }
