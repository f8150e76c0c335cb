-- ===== src/Storage/Mysql.antt =====
-- internal/storage/mysql.go: a table for each organization. The database behind database/sql is a parameter: its
-- operations take its state. A statement stands for its SQL text.
pub mod Connect
pub mod Tables
pub mod Working
pub mod History
use eterrain_tf_upload.Base.{
  ℕ, zero, suc, ◌+◌, ◌≡◌, Bool, true, false, Option, none, some, List, [], ◌∷◌, ◌++◌, ◌==◌,
  if◌then◌else◌,
}
use eterrain_tf_upload.Text.{Bytes, codes}
use eterrain_tf_upload.Errors.{Error, wrapf, wrapf_with, bytes, number, Result, ok, err}
use eterrain_tf_upload.Uuid.{UuidLib}
use eterrain_tf_upload.Storage.Csv.{Row, RowLib, DataUpload, report_name_of}

-- What Scan gives of a row: its timestamp, org_id and data, or an error
abbrev pub Scan : Type 0 → Type 0
Scan Time = Result (Time × Bytes × Bytes)

-- CREATE TABLE IF NOT EXISTS and INSERT INTO of a table
pub data Statement (Time : Type 0) : Type 0 where
  create_table : (table : Bytes) → Statement Time
  insert_into : (table : Bytes) (timestamp : Time) (org_id data_json : Bytes) → Statement Time

-- sql.DB, over the type D of the database's states: exec runs a statement, count_tables is the query on
-- information_schema.tables, select_all the SELECT ordered by the timestamp with the rows that Next gives
-- and the error behind them.
pub record Database (Time D : Type 0) : Type 0 where
  pub open_error : Bytes → Option Error
  pub ping : D → D × Option Error
  pub exec : Statement Time → D → D × Option Error
  pub count_tables : Bytes → Bytes → D → Result ℕ
  pub select_all : Bytes → D → Result (List (Scan Time) × Option Error)
  pub close_error : D → Option Error

pub record MysqlStorage (D : Type 0) : Type 0 where
  pub db : D
  pub db_name : Bytes

abbrev pub max_retries : ℕ
max_retries = 30

-- strings.ReplaceAll(text, "-", "_")
unfoldable pub replace_hyphens : Bytes → Bytes
replace_hyphens [] = []
replace_hyphens (c ∷ s) = (if c == b'-' then b'_' else c) ∷ replace_hyphens s

-- An upload, if there is one, before the others
abbrev pub kept : {A : Type 0} → Option A → List A → List A
kept none uploads = uploads
kept (some upload) uploads = upload ∷ uploads

module _ (lib : UuidLib) (rl : RowLib) {D : Type 0} (database : Database rl.Time D) where
  open lib use {Uuid, parse, to_string}
  open rl use {Time, marshal, unmarshal}

  -- The loop of pings: how many are left, and the error so far. The delays are not modelled.
  unfoldable pub ping_loop : ℕ → Option Error → D → D × Option Error
  ping_loop zero last d = (d, last)
  ping_loop (suc n) last d =
      let (d', failed) = database.ping d in
      let again = ping_loop n failed d' in elim failed [ none ↦ (d', none) | some e ↦ again ]

  -- NewMySQLStorage. Of a database that does not answer only the error is left, its Close is not shown; the
  -- settings of the connection pool are not modelled.
  unfoldable pub new_mysql_storage : Bytes → Bytes → D → Result (MysqlStorage D)
  unfolding ping_loop
  new_mysql_storage dsn db_name d = elim (database.open_error dsn) [
    | some e ↦ err (wrapf "failed to connect to MySQL: " e)
    | none ↦
        let (d', failed) = ping_loop max_retries none d in
        elim failed [
          | some e ↦
              err
                (wrapf_with "failed to ping MySQL after %d attempts: " (number max_retries ∷ []) e)
          | none ↦ ok (record { db = d'; db_name = db_name })
        ]
  ]

  unfoldable pub sanitize_table_name : Uuid → Bytes
  unfolding replace_hyphens
  sanitize_table_name org_id = codes "org_" ++ replace_hyphens (to_string org_id)

  unfoldable pub ensure_table_exists : Uuid → MysqlStorage D → MysqlStorage D × Option Error
  unfolding sanitize_table_name
  ensure_table_exists org_id s =
      let table = sanitize_table_name org_id in
      let (d, failed) = database.exec (create_table table) s.db in
      (
        record s { db = d },
        elim failed [
          | none ↦ none
          | some e ↦ some (wrapf_with "failed to create table %s: " (bytes table ∷ []) e)
        ],
      )

  -- AppendData at a time
  unfoldable pub append_data : Time → Uuid → Row → MysqlStorage D → MysqlStorage D × Option Error
  unfolding ensure_table_exists
  append_data timestamp org_id row s =
      let (ensured, failed) = ensure_table_exists org_id s in
      let table = sanitize_table_name org_id in
      elim failed [
        | some e ↦ (ensured, some e)
        | none ↦ elim (marshal row) [
          | err e ↦ (ensured, some (wrapf "failed to marshal data: " e))
          | ok data_json ↦
              let (d, refused) =
                database.exec (insert_into table timestamp (to_string org_id) data_json)
                  ensured.db in
              (
                record ensured { db = d },
                elim refused [
                  | none ↦ none
                  | some e ↦
                      some (wrapf_with "failed to insert data into %s: " (bytes table ∷ []) e)
                ],
              )
        ]
      ]

  -- A row that does not scan or parse is skipped.
  unfoldable pub parse_scan : Scan Time → Option (DataUpload Time Uuid)
  unfolding report_name_of
  parse_scan (err e) = none
  parse_scan (ok (timestamp, org_id, data_json)) = elim (parse org_id) [
    | none ↦ none
    | some u ↦ elim (unmarshal data_json) [
      | err e ↦ none
      | ok row ↦ some (record {
        timestamp = timestamp;
        org_id = u;
        report_name = report_name_of row;
        content = row;
      })
    ]
  ]

  unfoldable pub parse_scans : List (Scan Time) → List (DataUpload Time Uuid)
  unfolding parse_scan
  parse_scans [] = []
  parse_scans (scan ∷ scans) = kept (parse_scan scan) (parse_scans scans)

  unfoldable pub get_org_data : Uuid → MysqlStorage D → Result (List (DataUpload Time Uuid))
  unfolding sanitize_table_name parse_scans
  get_org_data org_id s =
      let table = sanitize_table_name org_id in
      elim (database.count_tables s.db_name table s.db) [
        | err e ↦ err (wrapf "failed to check if table exists: " e)
        | ok table_count ↦
            if table_count == 0 then ok [] else elim (database.select_all table s.db) [
              | err e ↦ err (wrapf_with "failed to query data from %s: " (bytes table ∷ []) e)
              | ok (rows, failed) ↦ elim failed [
                | some e ↦ err (wrapf "error iterating rows: " e)
                | none ↦ ok (parse_scans rows)
              ]
            ]
      ]

  -- Close
  unfoldable pub close : MysqlStorage D → Option Error
  close s = database.close_error s.db
