-- ===== src/Storage/Mysql/Working.antt =====
-- A database that works, seen as its tables.
use mathlib.Core.List.{Perm}
use eterrain_tf_upload.Base.{
  ℕ, ◌≡◌, ◌≤◌, ◌<◌, true, every, length, none, some, Option, List, [], ◌∷◌, ◌++◌, if◌then◌else◌,
}
use eterrain_tf_upload.Text.{Bytes, codes, equal, has_prefix}
use eterrain_tf_upload.Errors.{ok}
use eterrain_tf_upload.Storage.Csv.{Row, RowLib}
use eterrain_tf_upload.Storage.Mysql.Tables.{name_byte}
use eterrain_tf_upload.Storage.Mysql.{Scan, Database, create_table, insert_into}

abbrev pub Stored : Type 0 → Type 0
Stored Time = Time × Bytes × Bytes

unfoldable pub scanned : {Time : Type 0} → List (Stored Time) → List (Scan Time)
scanned [] = []
scanned (r ∷ rs) = ok r ∷ scanned rs

abbrev pub created : {Time : Type 0} → Option (List (Stored Time)) → Option (List (Stored Time))
created none = some []
created (some rows) = some rows

abbrev pub existing : {Time : Type 0} → Option (List (Stored Time)) → ℕ
existing none = 0
existing (some rows) = 1

-- The name of a table that can stand in a statement without quotes, as MySQL takes it: no word of SQL, of lower-case
-- letters, digits and _, of at most 64 bytes.
pub record IsTableName (t : Bytes) : Type 0 where
  pub no_word : has_prefix t (codes "org_") ≡ true
  pub in_class : every name_byte t ≡ true
  pub at_most_64 : length t ≤ 64

-- The ids that an INT column counts to
abbrev pub max_rows : ℕ
max_rows = 2_147_483_647

-- A database that works, seen as its tables: CREATE TABLE IF NOT EXISTS makes an empty table, INSERT adds a
-- row with its time to the microsecond and its JSON in MySQL's own form, SELECT returns the rows in
-- some order. InRange are the times of a DATETIME(6) column, IsDocument the texts that a JSON column
-- takes: valid, not too deep, and within a packet.
pub record DatabaseLaws (rl : RowLib) {D : Type 0} (database : Database rl.Time D) (db_name : Bytes)
    : Type 1 where
  pub table : Bytes → D → Option (List (Stored rl.Time))
  pub InRange : rl.Time → Type 0
  pub IsDocument : Bytes → Type 0
  pub microseconds : rl.Time → rl.Time
  pub stored_json : Bytes → Bytes
  pub decoded : Row → Row
  pub exec-create :
      (t : Bytes) (d : D) → IsTableName t → (database.exec (create_table t) d).1 ≡ none
  pub table-create :
      (t j : Bytes) (d : D)
      → IsTableName t
      → IsTableName j
      → table j (database.exec (create_table t) d).0
        ≡ (if equal t j then created (table j d) else table j d)
  pub exec-insert :
      (t : Bytes) (time : rl.Time) (org_id json : Bytes) (d : D) (rows : List (Stored rl.Time))
      → IsTableName t
      → InRange time
      → length org_id ≤ 36
      → IsDocument json
      → length rows < max_rows
      → table t d ≡ some rows
      → (database.exec (insert_into t time org_id json) d).1 ≡ none
  pub table-insert :
      (t j : Bytes) (time : rl.Time) (org_id json : Bytes) (d : D) (rows : List (Stored rl.Time))
      → IsTableName t
      → IsTableName j
      → (database.exec (insert_into t time org_id json) d).1 ≡ none
      → table t d ≡ some rows
      → table j (database.exec (insert_into t time org_id json) d).0 ≡ (
          if equal t j
          then some (rows ++ (microseconds time, org_id, stored_json json) ∷ [])
          else table j d)
  pub count-table :
      (t : Bytes) (d : D)
      → IsTableName t
      → database.count_tables db_name t d ≡ ok (existing (table t d))
  pub select-table :
      (t : Bytes) (d : D) (rows : List (Stored rl.Time))
      → IsTableName t
      → table t d ≡ some rows
      → (scans : List (Scan rl.Time)) × (_ : database.select_all t d ≡ ok (scans, none)) × Perm
          scans
          (scanned rows)
  pub unmarshal-stored :
      (row : Row) (json : Bytes)
      → rl.marshal row ≡ ok json
      → IsDocument json
      → rl.unmarshal (stored_json json) ≡ ok (decoded row)
