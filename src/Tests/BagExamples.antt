-- ===== src/Tests/BagExamples.antt =====
-- The theorem about string bags on a concrete bag.
use deep_spec_db.Base.{ℕ, ◌<◌, replicate}
use deep_spec_db.StringBag.{StringBag, memcpy, write_word}

-- Two strings, with room for sixteen bytes, in memory that holds 255 everywhere.
abbrev bag : StringBag
bag = memcpy (write_word (write_word (λ x. 255) 0 48) 8 64) 16 (replicate 32 0)
