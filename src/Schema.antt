-- ===== src/Schema.antt =====
-- tuplekey/index.h and the schemas of tuplekey: an index behind a table of methods, which the hash
-- table, the string list and a pair of schemas fill. A NULL value is `none`; the outer `none` of a
-- method is a fault. An index that is the value of another one is written back there, since only
-- that one points to it.
pub mod Pair
pub mod Tables
use deep_spec_db.Base.{ℕ, Bool, true, Option, none, some, if◌then◌else◌, ◌>>=◌, ◌≡◌}

-- `struct schema_methods`, with the type of the indexes that the methods work on.
pub record Schema {ℓ} (K V : Type ℓ) : Type (ℓ + 1) where
  pub Index : Type ℓ
  pub schema_new : Index
  pub schema_insert : Index → K → Option V → Option (Option V × Index)
  pub schema_lookup : Index → K → Option (Option V)

-- What the clients of an index rely on: it is a map of the keys to values.
pub record IsMap {ℓ} {K V : Type ℓ} (s : Schema K V) : Type (ℓ + 1) where
  pub same : K → K → Bool
  pub same_self : (a : K) → same a a ≡ true
  pub same-eq : (a b : K) → same a b ≡ true → a ≡ b
  pub IsIndex : s.Index → Type ℓ
  pub new-IsIndex : IsIndex s.schema_new
  pub new-lookup : (key : K) → s.schema_lookup s.schema_new key ≡ some none
  pub insert_lem :
      (i : s.Index) (key : K) (val : Option V)
      → IsIndex i
      → (old : Option V) × (i' : s.Index) × (s.schema_insert i key val ≡ some (old, i'))
        × IsIndex i'
        × (s.schema_lookup i key ≡ some old)
        × ((j : K) → s.schema_lookup i' j ≡ (if same key j then some val else s.schema_lookup i j))

-- `index_new`, `index_insert` and `index_lookup`
unfoldable pub index_new {ℓ} : {K V : Type ℓ} (sch : Schema K V) → sch.Index
index_new sch = sch.schema_new

unfoldable pub index_insert {ℓ} :
    {K V : Type ℓ} (sch : Schema K V) → sch.Index → K → Option V → Option (Option V × sch.Index)
index_insert sch ind key val = sch.schema_insert ind key val

unfoldable pub index_lookup {ℓ} :
    {K V : Type ℓ} (sch : Schema K V) → sch.Index → K → Option (Option V)
index_lookup sch ind key = sch.schema_lookup ind key
