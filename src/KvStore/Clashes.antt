-- ===== src/KvStore/Clashes.antt =====
-- src/btrees and tries (Adewale)/kvstore.c: case 0.0.0 of `KV_Put`, two keys of which one ends in the
-- slice that both have.
use deep_spec_db.Base.{
  ℕ, ◌<◌, ◌≤◌, ◌≡◌, ◌⊎◌, refl, sym, ◌∙◌, true, ◌||◌, Option, some, List, length, get_elem?, leb,
  le→leb, ==_self, ◌>>=◌, Bool-cases, inl, inr,
}
use deep_spec_db.Relation.{Cursor}
use deep_spec_db.BorderNode.{new_border_node}
use deep_spec_db.KeySlice.{keyslice_length}
use deep_spec_db.KvStore.{KvStore, LinkOrValue, completed, count_key, key_slice, put_two}
use deep_spec_db.KvStore.Spec.{stored, IsStore}
use deep_spec_db.KvStore.Borders.{key_slice_lem, border_get-set_value, new_border_node-IsBorder}
use deep_spec_db.KvStore.Steps.{put_border-IsStore, count_key-IsStore}
use deep_spec_db.KvStore.Second.{stored_border}

either :
    (a b : ℕ)
    → (a ≤ keyslice_length) ⊎ (b ≤ keyslice_length)
    → (leb a keyslice_length || leb b keyslice_length) ≡ true
either a b (inl h) = rw (le→leb a keyslice_length h) refl
either a b (inr h) = elim (Bool-cases (leb a keyslice_length)) [
  | inl t ↦ rw t refl
  | inr f ↦ rw (f, le→leb b keyslice_length h) refl
]

module _ {ℓ} {V : Type ℓ} where
  -- On a well-formed store and with more fuel than the first key has characters, case 0.0.0 of
  -- KV_Put with two keys of the same slice of which one ends in it, the first not empty, returns a
  -- well-formed store, and the node then holds the second key's value for the first key.
  pub put_two_lem :
      (s : KvStore V) (own : ℕ → ℕ)
      → IsStore s own
      → (n : ℕ) (c : Cursor ℕ) → get_elem? s.nodes n ≡ some c
      → (key : List ℕ) (val : Option (LinkOrValue V)) (snd_key : List ℕ)
        (snd_value : Option (LinkOrValue V))
      → 0 < length key
      → key_slice key ≡ key_slice snd_key
      → (length key ≤ keyslice_length) ⊎ (length snd_key ≤ keyslice_length)
      → (f : ℕ) → length key < f
      → (s' : KvStore V) × (own' : ℕ → ℕ) × (put_two s n key val snd_key snd_value
          ≡ some (completed s'))
        × IsStore s' own'
        × (stored f s' n key ≡ some snd_value)
  unfolding put_two
  put_two_lem s own ok n c at key val snd_key snd_value low same ends f enough =
      let (k, e, fits) = key_slice_lem key in
      let (bn, run, good, _) =
        border_get-set_value n (length s.nodes) new_border_node key val
          (new_border_node-IsBorder n _) low in
      let (bn', run', good', got) =
        border_get-set_value n (length s.nodes) bn key snd_value good low in
      let (s', own', c', put, ok', _, _, at', after, added, _, _) =
        put_border-IsStore s own ok n k c bn' at fits good' in
      (
        count_key s',
        own',
        rw
            (
              e,
              ◌>>=◌,
              sym same ∙ e,
              ==_self k,
              either (length key) (length snd_key) ends,
              run,
              run',
              put,
            )
            refl,
        (count_key-IsStore s' own' ok').0,
        stored_border f (count_key s') n key k c' (length s.borders) bn' (some snd_value) e at'
            (rw (==_self k) at (after k)) added got enough,
      )
