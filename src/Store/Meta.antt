-- ===== src/Store/Meta.antt =====
-- The `meta` table, a key-value table with one row for each key.
use membox.Base.{
  String, ◌≡◌, Option, none, some, List, [], ◌∷◌, arith, str_eq, eq_iff, if◌then◌else◌,
}

module _ {ℓ} {V : Type ℓ} where
  -- `SELECT value FROM meta WHERE key = ?`
  unfoldable pub read : String → List (String × V) → Option V
  read k [] = none
  read k ((j, v) ∷ m) = if str_eq j k then some v else read k m

  -- `DELETE FROM meta WHERE key = ?`
  unfoldable pub delete : String → List (String × V) → List (String × V)
  delete k [] = []
  delete k ((j, v) ∷ m) = let rest = delete k m in if str_eq j k then rest else (j, v) ∷ rest

  -- `INSERT OR REPLACE INTO meta(key, value) VALUES (?, ?)`
  unfoldable pub write : String → V → List (String × V) → List (String × V)
  unfolding delete
  write k v m = (k, v) ∷ delete k m

  pub read-delete :
      (k j : String) (m : List (String × V))
      → read j (delete k m) ≡ (if str_eq k j then none else read j m)
  unfolding read delete
  read-delete k j [] = ground arith
  read-delete k j ((i, v) ∷ m) =
      ground (arith, read-delete k j m, eq_iff i k, eq_iff i j, eq_iff k j)

  pub read-write :
      (k j : String) (v : V) (m : List (String × V))
      → read j (write k v m) ≡ (if str_eq k j then some v else read j m)
  unfolding read write
  read-write k j v m = ground (arith, read-delete k j m)
