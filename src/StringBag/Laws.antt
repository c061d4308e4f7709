-- ===== src/StringBag/Laws.antt =====
-- src/btrees and tries (Adewale)/stringbag.c: an assignment changes one string of the bag.
use deep_spec_db.Base.{ℕ, ◌<◌, ◌≡◌, ◌≢◌, some, List}
use deep_spec_db.StringBag.{StringBag, sb_get}
use deep_spec_db.StringBag.Spec.{IsBag, read_string}

-- The bag with this string in place of that of one index.
abbrev Assigned : StringBag → ℕ → ℕ → List ℕ → StringBag → Type 0
Assigned bag width p s bag' =
    IsBag bag' width
    × (read_string bag' (sb_get bag' p) ≡ some s)
    × ((q : ℕ)
        → q < width
        → p ≢ q
        → read_string bag' (sb_get bag' q) ≡ read_string bag (sb_get bag q))
