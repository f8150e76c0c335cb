-- ===== src/Storage/Mysql/History.antt =====
-- Appends to a MySQL storage, over a database that works.
pub mod Reads
use mathlib.Core.List.{append-nil, append_assoc}
use eterrain_tf_upload.Base.{
  ℕ, ◌+◌, ◌≤◌, ◌<◌, length, length-append, ◌≡◌, ◌∙◌, inl, inr, sym, ap, refl, subst, none, some,
  Option, List, [], ◌∷◌, ◌++◌, arith, All, Bool-cases, if◌then◌else◌,
}
use eterrain_tf_upload.Text.{Bytes, codes, equal, equal_iff, has_prefix}
use eterrain_tf_upload.Errors.{Error, ok, err}
use eterrain_tf_upload.Uuid.{UuidLib}
use eterrain_tf_upload.Storage.Csv.{Row, RowLib, DataUpload, report_name_of}
use eterrain_tf_upload.Storage.Csv.History.{Append}
use eterrain_tf_upload.Storage.Mysql.{
  Scan, Database, MysqlStorage, sanitize_table_name, create_table, insert_into, append_data,
  get_org_data, parse_scan, kept, parse_scans, ensure_table_exists,
}
use eterrain_tf_upload.Storage.Mysql.Tables.{table_of, sanitize_table_name-injective}
use eterrain_tf_upload.Storage.Mysql.Working.{
  Stored, scanned, created, existing, IsTableName, max_rows, DatabaseLaws,
}

module _ (lib : UuidLib) (rl : RowLib) {D : Type 0} (database : Database rl.Time D)
    (db_name : Bytes) (laws : DatabaseLaws rl database db_name) where
  open lib use {Uuid, uuid_eq, to_string, parse-to_string}
  open rl use {Time, marshal}

  -- The row can be encoded, its JSON and the time of the append can be stored.
  abbrev pub Stores : Append lib rl → Type 0
  Stores c =
      (json : Bytes) × (_ : marshal c.row ≡ ok json) × laws.IsDocument json × laws.InRange c.time

  pub table_of-IsTableName : (u : Uuid) → IsTableName (table_of lib rl database u)
  unfolding sanitize_table_name has_prefix
  table_of-IsTableName u =
      let (same, class, size) = sanitize_table_name-injective lib rl database u u in
      record { no_word = refl; in_class = class; at_most_64 = omega (arith, size) }

  -- AppendData for each, up to the first error
  unfoldable pub append_all : List (Append lib rl) → MysqlStorage D → MysqlStorage D × Option Error
  append_all [] s = (s, none)
  append_all (c ∷ cs) s =
      let (s', failed) = append_data lib rl database c.time c.org_id c.row s in
      let rest = append_all cs s' in elim failed [ some e ↦ (s', some e) | none ↦ rest ]

  unfoldable json_of : Row → Bytes
  json_of row = elim (marshal row) [ ok s ↦ s | err e ↦ [] ]

  abbrev stored_of : Append lib rl → Stored Time
  stored_of c = (laws.microseconds c.time, to_string c.org_id, laws.stored_json (json_of c.row))

  unfoldable rows_for : Uuid → List (Append lib rl) → List (Stored Time)
  rows_for u [] = []
  rows_for u (c ∷ cs) =
      let rest = rows_for u cs in if uuid_eq.beq c.org_id u then stored_of c ∷ rest else rest

  unfoldable table_with : List (Stored Time) → Option (List (Stored Time))
  table_with [] = none
  table_with (row ∷ rows) = some (row ∷ rows)

  abbrev Holds : D → (Uuid → List (Stored Time)) → Type 0
  Holds d rows = (u : Uuid) → laws.table (table_of lib rl database u) d ≡ table_with (rows u)

  created-table_with : (rows : List (Stored Time)) → created (table_with rows) ≡ some rows
  unfolding table_with
  created-table_with [] = refl
  created-table_with (row ∷ rows) = refl

  table_with-snoc :
      (rows : List (Stored Time)) (row : Stored Time)
      → table_with (rows ++ row ∷ []) ≡ some (rows ++ row ∷ [])
  unfolding table_with
  table_with-snoc [] row = refl
  table_with-snoc (r ∷ rows) row = refl

  equal-table_of :
      (u v : Uuid)
      → equal (table_of lib rl database u) (table_of lib rl database v) ≡ uuid_eq.beq u v
  equal-table_of u v = ground (
    arith,
    (sanitize_table_name-injective lib rl database u v).0,
    equal_iff (table_of lib rl database u) (table_of lib rl database v),
    uuid_eq.beq_iff u v,
  )

  Holds-insert :
      (c : Append lib rl) (d : D) (rows : Uuid → List (Stored Time)) (json : Bytes)
      → marshal c.row ≡ ok json
      → Holds d rows
      → (u : Uuid)
      → (let t = table_of lib rl database c.org_id in
          let j = table_of lib rl database u in
          (if equal t j
            then some (
                rows c.org_id
                ++ (laws.microseconds c.time, to_string c.org_id, laws.stored_json json) ∷ [])
            else laws.table j (database.exec (create_table t) d).0)
          ≡ table_with (rows u ++ rows_for u (c ∷ [])))
  unfolding rows_for json_of
  Holds-insert c d rows json m h u = elim (Bool-cases (uuid_eq.beq c.org_id u)) [
    | inl e ↦ ground (
      arith,
      m,
      equal-table_of c.org_id u,
      ap rows ((uuid_eq.beq_iff c.org_id u).0 e),
      table_with-snoc (rows u) (stored_of c),
    )
    | inr e ↦ ground (
      arith,
      equal-table_of c.org_id u,
      laws.table-create (table_of lib rl database c.org_id) (table_of lib rl database u) d
          (table_of-IsTableName c.org_id) (table_of-IsTableName u),
      h u,
      append-nil (rows u),
    )
  ]

  length-rows_for : (c : Append lib rl) (u : Uuid) → length (rows_for u (c ∷ [])) ≤ 1
  unfolding rows_for
  length-rows_for c u = ground arith

  -- One append
  append_data-Holds :
      (c : Append lib rl) (s : MysqlStorage D) (rows : Uuid → List (Stored Time))
      → Holds s.db rows
      → length (rows c.org_id) < max_rows
      → Stores c
      → (d : D) × (_ : append_data lib rl database c.time c.org_id c.row s
          ≡ (record { db = d; db_name = s.db_name }, none))
        × Holds d (λ u. rows u ++ rows_for u (c ∷ []))
  unfolding append_data ensure_table_exists rows_for json_of
  append_data-Holds c s rows h few (json, m, is, ranges) =
      let t = table_of lib rl database c.org_id in
      let d = (database.exec (create_table t) s.db).0 in
      let org = to_string c.org_id in
      let there : laws.table t d ≡ some (rows c.org_id) =
        laws.table-create t t s.db (table_of-IsTableName c.org_id) (table_of-IsTableName c.org_id)
        ∙ ground (arith, (equal_iff t t).1 refl, h c.org_id, created-table_with (rows c.org_id)) in
      let inserted =
        laws.exec-insert t c.time org json d (rows c.org_id) (table_of-IsTableName c.org_id) ranges
          (omega (arith, lib.length-to_string c.org_id)) is few there in
      (
        (database.exec (insert_into t c.time org json) d).0,
        ground (arith, laws.exec-create t s.db (table_of-IsTableName c.org_id), m, inserted),
        λ u.
            laws.table-insert t (table_of lib rl database u) c.time org json d (rows c.org_id)
              (table_of-IsTableName c.org_id) (table_of-IsTableName u) inserted there
            ∙ Holds-insert c s.db rows json m h u,
      )

  append_all-Holds :
      (cs : List (Append lib rl)) (s : MysqlStorage D) (rows : Uuid → List (Stored Time))
      → Holds s.db rows
      → ((u : Uuid) → length (rows u) + length cs ≤ max_rows)
      → All Stores cs
      → (d : D) × (_ : append_all cs s ≡ (record { db = d; db_name = s.db_name }, none)) × Holds d
          (λ u. rows u ++ rows_for u cs)
  unfolding append_all rows_for
  append_all-Holds [] s rows h few m =
      (s.db, refl, λ u. h u ∙ ap table_with (sym (append-nil (rows u))))
  append_all-Holds (c ∷ cs) s rows h few m =
      let (d, done, holds) = append_data-Holds c s rows h (omega (arith, few c.org_id)) m.0 in
      let (d', rest, whole) =
        append_all-Holds cs (record { db = d; db_name = s.db_name })
          (λ u. rows u ++ rows_for u (c ∷ [])) holds
          (λ u.
            omega (arith, few u, length-append (rows u) (rows_for u (c ∷ [])), length-rows_for c u))
          m.1 in
      (
        d',
        ground (arith, done, rest),
        λ u.
            whole u
            ∙ ap table_with (
                ground (
                  arith,
                  append_assoc (rows u) (stored_of c ∷ []) (rows_for u cs),
                  append-nil (rows u),
                )),
      )
