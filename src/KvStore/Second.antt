-- ===== src/KvStore/Second.antt =====
-- src/btrees and tries (Adewale)/kvstore.c: the loop of `KV_Put` with a second key.
use deep_spec_db.Base.{
  ℕ, zero, suc, ◌^◌, ◌≤◌, ◌<◌, ◌≡◌, ◌⊎◌, refl, sym, ap, ◌∙◌, arith, false, Option, some, List,
  length, length-drop, get_elem?, get_elem?-some, get_elem?-lt, drop, leb, leb→le, leb-lt,
  leb-eq-false, ◌==◌, ==-eq, ==-ne, ==_self, ==-eq-false, ◌>>=◌, Bool-cases, inl, inr,
}
use mathlib.Core.Option.{some-injective}
use deep_spec_db.Relation.{Cursor}
use deep_spec_db.BorderNode.{new_border_node, set_link, get_link, has_suffix}
use deep_spec_db.KeySlice.{keyslice_length}
use deep_spec_db.KvStore.{
  KvStore, LinkOrValue, link, Border, again, count_key, new_kv_node, key_slice, put_two, put_turn,
  put_loop,
}
use deep_spec_db.KvStore.Directory.{view}
use deep_spec_db.KvStore.Spec.{border_get, stored, IsBorder, IsStore}
use deep_spec_db.KvStore.Borders.{key_slice_lem, border_get-set_value, new_border_node-IsBorder}
use deep_spec_db.KvStore.Steps.{
  Keeps, Keeps-trans, count_key-IsStore, new_kv_node-IsStore, put_border-IsStore,
}

-- Two keys that agree slice by slice up to one where at least one of them ends: case 0.0.0.
pub data Clash : List ℕ → List ℕ → Type 0 where
  ends :
      {a b : List ℕ}
      → key_slice a ≡ key_slice b
      → (length a ≤ keyslice_length) ⊎ (length b ≤ keyslice_length)
      → Clash a b
  goes_on :
      {a b : List ℕ}
      → key_slice a ≡ key_slice b
      → Clash (drop keyslice_length a) (drop keyslice_length b)
      → Clash a b

-- What is left of a key after `i` slices.
abbrev pub rest_of : ℕ → List ℕ → List ℕ
rest_of zero key = key
rest_of (suc i) key = rest_of i (drop keyslice_length key)

-- A part of the key that begins at one of its slices.
abbrev pub IsLeft : List ℕ → List ℕ → Type 0
IsLeft key left = (0 < length left) × (i : ℕ) × (left ≡ rest_of i key)

module _ {ℓ} {V : Type ℓ} where
  -- What a node holds for a key whose slice has a border node.
  pub stored_here :
      (f : ℕ) (s : KvStore V) (n : ℕ) (key : List ℕ) (slice : ℕ) (c : Cursor ℕ) (b : ℕ)
      (bn : Border V)
      → key_slice key ≡ some slice
      → get_elem? s.nodes n ≡ some c
      → view c slice ≡ some b
      → get_elem? s.borders b ≡ some bn
      → stored (suc f) s n key
        ≡ border_get bn key (λ next. stored f s next (drop keyslice_length key))
  unfolding stored
  stored_here f s n key slice c b bn e at hit found = rw (e, ◌>>=◌, at, hit, found) refl

  pub border_get_link :
      (bn : Border V) (key : List ℕ) (next : ℕ) (below : ℕ → Option (Option (LinkOrValue V)))
      → keyslice_length < length key
      → has_suffix bn ≡ false
      → get_link bn ≡ some (link next)
      → border_get bn key below ≡ below next
  unfolding border_get
  border_get_link bn key next below long none_left e =
      rw (leb-eq-false (length key) keyslice_length long, none_left, e) refl

  -- The border node has the value itself, or its link leads to the value.
  pub stored_border :
      (f : ℕ) (s : KvStore V) (n : ℕ) (key : List ℕ) (slice : ℕ) (c : Cursor ℕ) (b : ℕ)
      (bn : Border V) (r : Option (Option (LinkOrValue V)))
      → key_slice key ≡ some slice
      → get_elem? s.nodes n ≡ some c
      → view c slice ≡ some b
      → get_elem? s.borders b ≡ some bn
      → ((below : ℕ → Option (Option (LinkOrValue V))) → border_get bn key below ≡ r)
      → length key < f
      → stored f s n key ≡ r
  stored_border zero s n key slice c b bn r e at hit found got lt = absurd (omega arith)
  stored_border (suc f) s n key slice c b bn r e at hit found got lt =
      stored_here f s n key slice c b bn e at hit found ∙ got _

  pub stored_link :
      (f : ℕ) (s : KvStore V) (n : ℕ) (key : List ℕ) (slice : ℕ) (c : Cursor ℕ) (b : ℕ)
      (bn : Border V) (next : ℕ) (r : Option (Option (LinkOrValue V)))
      → key_slice key ≡ some slice
      → get_elem? s.nodes n ≡ some c
      → view c slice ≡ some b
      → get_elem? s.borders b ≡ some bn
      → keyslice_length < length key
      → has_suffix bn ≡ false
      → get_link bn ≡ some (link next)
      → ((g : ℕ)
          → length (drop keyslice_length key) < g
          → stored g s next (drop keyslice_length key) ≡ r)
      → length key < f
      → stored f s n key ≡ r
  stored_link zero s n key slice c b bn next r e at hit found long none_left linked below lt =
      absurd (omega arith)
  stored_link (suc f) s n key slice c b bn next r e at hit found long none_left linked below lt =
      stored_here f s n key slice c b bn e at hit found
      ∙ (border_get_link bn key next _ long none_left linked
          ∙ below f (omega (arith, length-drop keyslice_length key)))

  pub set_link-IsBorder :
      (n count next : ℕ) (bn : Border V)
      → n < next
      → next < count
      → IsBorder n count bn
      → IsBorder n count (set_link bn (some (link next)))
  unfolding set_link get_link
  set_link-IsBorder n count next bn after within h = record {
    size = h.size;
    linked = λ p e. (next, some-injective p (link next) (sym e), after, within);
    filled = λ suffix e. cc;
  }

  -- The store after a put, in which the node holds the value for the key.
  pub record IsPut (fuel : ℕ) (s : KvStore V) (own : ℕ → ℕ) (n : ℕ) (key : List ℕ)
      (val : Option (LinkOrValue V)) (snd : Option (List ℕ × Option (LinkOrValue V))) : Type ℓ where
    pub result : KvStore V
    pub owners : ℕ → ℕ
    pub left : List ℕ
    pub is_left : IsLeft key left
    pub runs : put_loop fuel s n key val snd ≡ some (result, left)
    pub good : IsStore result owners
    pub keeps : Keeps n s own result owners
    pub holds : (f : ℕ) → length key < f → stored f result n key ≡ some val

  -- Two keys whose slices differ.
  two_differ :
      (fuel : ℕ) (s : KvStore V) (own : ℕ → ℕ)
      → IsStore s own
      → (n : ℕ) (c : Cursor ℕ) → get_elem? s.nodes n ≡ some c
      → (key : List ℕ) (val : Option (LinkOrValue V)) (snd_key : List ℕ)
        (snd_value : Option (LinkOrValue V))
      → 0 < length key
      → 0 < length snd_key
      → (slice snd_slice : ℕ) → key_slice key ≡ some slice
      → slice < 2 ^ 64
      → key_slice snd_key ≡ some snd_slice
      → snd_slice < 2 ^ 64
      → (slice == snd_slice) ≡ false
      → (put : IsPut (suc fuel) s own n key val (some (snd_key, snd_value))) × ((f : ℕ)
          → length snd_key < f
          → stored f put.result n snd_key ≡ some snd_value)
  unfolding put_loop put_turn put_two
  two_differ fuel s own ok n c at key val snd_key snd_value low low2 k k2 e fits e2 fits2 differ =
      let (bn, run, good, got) =
        border_get-set_value n (length s.nodes) new_border_node key val
          (new_border_node-IsBorder n _) low in
      let (s1, own1, c1, run1, ok1, keeps1, more1, at1, after1, added1, mine1, _) =
        put_border-IsStore s own ok n k c bn at fits good in
      let (bn2, run2, good2, got2) =
        border_get-set_value n (length s1.nodes) new_border_node snd_key snd_value
          (new_border_node-IsBorder n _) low2 in
      let (s2, own2, c2, run3, ok2, keeps2, more2, at2, after2, added2, mine2, same2) =
        put_border-IsStore s1 own1 ok1 n k2 c1 bn2 at1 fits2 good2 in
      let (ok3, keeps3) = count_key-IsStore s2 own2 ok2 in
      let differ' : (k2 == k) ≡ false = ==-eq-false k2 k (λ h. ==-ne k k2 differ (sym h)) in
      let hit : view c2 k ≡ some (length s.borders) =
        rw differ' at (after2 k) ∙ rw (==_self k) at (after1 k) in
      let hit2 : view c2 k2 ≡ some (length s1.borders) = rw (==_self k2) at (after2 k2) in
      let there : get_elem? s2.borders (length s.borders) ≡ some bn =
        same2 (length s.borders) (get_elem?-some s1.borders _ bn added1) ∙ added1 in
      (
        record {
          result = count_key s2;
          owners = own2;
          left = key;
          is_left = (low, 0, refl);
          runs =
              rw (e, ◌>>=◌, e2, ◌>>=◌, differ, run, ◌>>=◌, run1, ◌>>=◌, run2, ◌>>=◌, run3, ◌>>=◌)
                refl;
          good = ok3;
          keeps =
              Keeps-trans n n s own s1 own1 (count_key s2) own2 (omega arith) keeps1 (
                Keeps-trans n n s1 own1 s2 own2 (count_key s2) own2 (omega arith) keeps2
                  (keeps3 n));
          holds = λ f lt.
              stored_border f (count_key s2) n key k c2 (length s.borders) bn (some val) e at2 hit
                there got lt;
        },
        λ f lt.
            stored_border f (count_key s2) n snd_key k2 c2 (length s1.borders) bn2 (some snd_value)
              e2 at2 hit2 added2 got2 lt,
      )

  put_two_again :
      (fuel : ℕ) (s : KvStore V) (n : ℕ) (key : List ℕ) (val : Option (LinkOrValue V))
      (snd_key : List ℕ) (snd_value : Option (LinkOrValue V)) (s' : KvStore V) (n' : ℕ)
      (key' : List ℕ) (snd : Option (List ℕ × Option (LinkOrValue V)))
      → put_two s n key val snd_key snd_value ≡ some (again s' n' key' snd)
      → put_loop (suc fuel) s n key val (some (snd_key, snd_value))
        ≡ put_loop fuel s' n' key' val snd
  unfolding put_loop put_turn
  put_two_again fuel s n key val snd_key snd_value s' n' key' snd e = rw (e, ◌>>=◌) refl

  -- The loop with two keys that do not clash stores both.
  pub two_keys_lem :
      (fuel : ℕ) (s : KvStore V) (own : ℕ → ℕ)
      → IsStore s own
      → (n : ℕ) (c : Cursor ℕ) → get_elem? s.nodes n ≡ some c
      → (key : List ℕ) (val : Option (LinkOrValue V)) (snd_key : List ℕ)
        (snd_value : Option (LinkOrValue V))
      → 0 < length key
      → 0 < length snd_key
      → length key < fuel
      → ¬ Clash key snd_key
      → (put : IsPut fuel s own n key val (some (snd_key, snd_value))) × ((f : ℕ)
          → length snd_key < f
          → stored f put.result n snd_key ≡ some snd_value)
  unfolding put_loop put_turn put_two set_link get_link has_suffix
  two_keys_lem zero s own ok n c at key val snd_key snd_value low low2 enough apart =
      absurd (omega arith)
  two_keys_lem (suc fuel) s own ok n c at key val snd_key snd_value low low2 enough apart =
      let (k, e, fits) = key_slice_lem key in
      let (k2, e2, fits2) = key_slice_lem snd_key in
      elim (Bool-cases (k == k2)) [
        | inr differ ↦
            two_differ fuel s own ok n c at key val snd_key snd_value low low2 k k2 e fits e2 fits2
              differ
        | inl t ↦
            let same : k ≡ k2 = ==-eq k k2 t in
            let slices : key_slice key ≡ key_slice snd_key = e ∙ (ap (λ x. some x) same ∙ sym e2) in
            elim (Bool-cases (leb (length key) keyslice_length)) [
              | inl ends_here ↦ absurd (apart (ends slices (inl (leb→le _ _ ends_here))))
              | inr long ↦ elim (Bool-cases (leb (length snd_key) keyslice_length)) [
                | inl ends_there ↦ absurd (apart (ends slices (inr (leb→le _ _ ends_there))))
                | inr long2 ↦
                    let beyond = leb-lt (length key) keyslice_length long in
                    let beyond2 = leb-lt (length snd_key) keyslice_length long2 in
                    let next = length s.nodes in
                    let inside = get_elem?-some s.nodes n c at in
                    let (ok1, keeps1, _, longer) = new_kv_node-IsStore s own ok in
                    let at1 = (keeps1 next (omega arith)).nodes n inside ∙ at in
                    let bn = set_link new_border_node (some (link next)) in
                    let (s2, own2, c2, run2, ok2, keeps2, more2, at2, after2, added2, mine2, _) =
                      put_border-IsStore (new_kv_node s) own ok1 n k c bn at1 fits (
                        set_link-IsBorder n _ next new_border_node inside (omega (arith, longer))
                          (new_border_node-IsBorder n _)) in
                    let (x, at_x, _) = get_elem?-lt s2.nodes next (omega (arith, longer, more2)) in
                    let (put, holds2) =
                      two_keys_lem fuel s2 own2 ok2 next x at_x (drop keyslice_length key) val
                        (drop keyslice_length snd_key) snd_value
                        (omega (arith, length-drop keyslice_length key))
                        (omega (arith, length-drop keyslice_length snd_key))
                        (omega (arith, length-drop keyslice_length key))
                        (λ clash. apart (goes_on slices clash)) in
                    let s3 = put.result in
                    let at3 : get_elem? s3.nodes n ≡ some c2 = put.keeps.nodes n inside ∙ at2 in
                    let there : get_elem? s3.borders (length s.borders) ≡ some bn =
                      put.keeps.borders (length s.borders) (get_elem?-some s2.borders _ bn added2)
                        (omega (arith, mine2))
                      ∙ added2 in
                    let hit : view c2 k ≡ some (length s.borders) = rw (==_self k) at (after2 k) in
                    let hit2 : view c2 k2 ≡ some (length s.borders) = rw same at hit in
                    (
                      record {
                        result = s3;
                        owners = put.owners;
                        left = put.left;
                        is_left = (put.is_left.0, suc put.is_left.1, put.is_left.2);
                        runs =
                            put_two_again fuel s n key val snd_key snd_value s2 next
                              (drop keyslice_length key)
                              (some (drop keyslice_length snd_key, snd_value))
                              (rw (e, ◌>>=◌, e2, ◌>>=◌, t, long, long2, run2, ◌>>=◌) refl)
                            ∙ put.runs;
                        good = put.good;
                        keeps =
                            Keeps-trans n n s own (new_kv_node s) own s3 put.owners (omega arith)
                              (keeps1 n (omega arith))
                              (Keeps-trans n next (new_kv_node s) own s2 own2 s3 put.owners
                                (omega arith) keeps2 put.keeps);
                        holds = λ f lt.
                            stored_link f s3 n key k c2 (length s.borders) bn next (some val) e at3
                              hit there beyond refl refl put.holds lt;
                      },
                      λ f lt.
                          stored_link f s3 n snd_key k2 c2 (length s.borders) bn next
                            (some snd_value) e2 at3 hit2 there beyond2 refl refl holds2 lt,
                    )
              ]
            ]
      ]
