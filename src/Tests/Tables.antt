-- ===== src/Tests/Tables.antt =====
-- The MySQL storage: a database that is a map of tables, and one that answers the third ping.
use mathlib.Core.List.{Perm}
use mathlib.Core.List.Perm
use eterrain_tf_upload.Base.{
  suc, ◌<◌, ◌≢◌, ◌⊎◌, true, All, not, ◌||◌, length, pos, ℕ, ◌+◌, ◌≡◌, ◌++◌, inl, inr, refl, ap, sym,
  ◌∙◌, Bool, false, Option, none, some, List, [], ◌∷◌, arith, ltb, if◌then◌else◌, Option-cases,
}
use eterrain_tf_upload.Text.{Bytes, codes, equal_iff, bytes_eq, has_prefix}
use eterrain_tf_upload.Errors.{Error, foreign, wrapf_with, number, ok, err}
use eterrain_tf_upload.Maps.{Map, lookup, insert, lookup-insert}
use eterrain_tf_upload.Uuid.{two_uuids}
use eterrain_tf_upload.Config.{Config}
use eterrain_tf_upload.Storage.Csv.{DataUpload}
use eterrain_tf_upload.Storage.Mysql.{
  Database, MysqlStorage, Statement, create_table, insert_into, new_mysql_storage, ping_loop,
  get_org_data, max_retries,
}
use eterrain_tf_upload.Storage.Mysql.Connect.{
  Answers, answer, pinged, new_mysql_storage-Answers, ping_loop-max_retries,
}
use eterrain_tf_upload.Storage.Mysql.Tables.{table_of}
use eterrain_tf_upload.Storage.Mysql.Working.{Stored, scanned, existing, DatabaseLaws}
use eterrain_tf_upload.Storage.Mysql.History.{append_all, Stores}
use eterrain_tf_upload.Storage.Mysql.History.Reads.{uploads_for, Perm-get_org_data-append_all}
use eterrain_tf_upload.Tests.Files.{
  row_lib, row_text, text_row, decoded_row, text_row-row_text, ok_text, appends, net_row,
}

abbrev Tables : Type 0
Tables = Map Bytes (List (Stored Bool))

-- The first byte of a JSON text
unfoldable is_object : Bytes → Bool
unfolding has_prefix
is_object json = has_prefix json (codes "{")

unfoldable run : Statement Bool → Tables → Tables × Option Error
run (create_table t) d =
    if ltb 64 (length t)
    then (d, some (foreign (codes "Identifier name is too long")))
    else elim (lookup t d) [ none ↦ (insert t [] d, none) | some rows ↦ (d, none) ]
run (insert_into t time org_id json) d =
    if ltb 36 (length org_id) || not (is_object json)
    then (d, some (foreign (codes "Data truncation")))
    else elim (lookup t d) [
      | none ↦ (d, some (foreign (codes "no such table")))
      | some rows ↦ (insert t (rows ++ (time, org_id, json) ∷ []) d, none)
    ]

abbrev tables : Database Bool Tables
tables = record {
  open_error = λ dsn. none;
  ping = λ d. (d, none);
  exec = run;
  count_tables = λ db_name t d. ok (existing (lookup t d));
  select_all = λ t d. elim (lookup t d) [
    | none ↦ err (foreign (codes "no such table"))
    | some rows ↦ ok (scanned rows, none)
  ];
  close_error = λ d. none;
}

tables-laws : DatabaseLaws row_lib tables (codes "uploads")
unfolding run
tables-laws = record {
  table = lookup;
  InRange = λ t. Unit;
  IsDocument = λ s. is_object s ≡ true;
  microseconds = λ t. t;
  stored_json = λ s. s;
  decoded = decoded_row;
  exec-create = λ t d name. ground (arith, name.at_most_64);
  table-create = λ t j d name other. elim (Option-cases (lookup t d)) [
    | inl e ↦ ground (arith, lookup-insert t j [] d, equal_iff t j, e, name.at_most_64)
    | inr (rows, e) ↦ ground (arith, equal_iff t j, e, name.at_most_64)
  ];
  exec-insert = λ t time org_id json d rows name range fits is few e. ground (arith, e, is, fits);
  table-insert = λ t j time org_id json d rows name other fine e.
      ground (arith, e, fine, lookup-insert t j (rows ++ (time, org_id, json) ∷ []) d);
  count-table = λ t d name. refl;
  select-table = λ t d rows name e. (scanned rows, ground (arith, e), Perm.refl (scanned rows));
  unmarshal-stored = λ row s e is.
      ap (λ x. ok (text_row x)) (sym (ok_text (row_text row) s e)) ∙ ap ok (text_row-row_text row);
}

abbrev empty_database : MysqlStorage Tables
empty_database = record { db = []; db_name = codes "uploads" }

no_tables : (u : Bool) → lookup (table_of two_uuids row_lib tables u) empty_database.db ≡ none
unfolding lookup
no_tables u = refl

appends-Stores : All (Stores two_uuids row_lib tables (codes "uploads") tables-laws) appends
unfolding tables-laws is_object has_prefix
appends-Stores = (
  (row_text net_row, refl, refl, tt),
  ((row_text [], refl, refl, tt), ((row_text [], refl, refl, tt), tt)),
)

Perm-get_org_data-append_all_example :
    ((append_all two_uuids row_lib tables (codes "uploads") tables-laws appends empty_database).1
      ≡ none)
    × ((u : Bool)
        → (us : List (DataUpload Bool Bool)) × (_ : get_org_data two_uuids row_lib tables u
              (append_all two_uuids row_lib tables
                (codes "uploads")
                tables-laws
                appends
                empty_database).0
            ≡ ok us)
          × Perm us (uploads_for two_uuids row_lib tables (codes "uploads") tables-laws u appends))
unfolding tables-laws lookup
Perm-get_org_data-append_all_example =
    Perm-get_org_data-append_all two_uuids row_lib tables (codes "uploads") tables-laws appends
      empty_database refl no_tables appends-Stores (omega arith)

-- The state counts the pings.
abbrev pub slow : Database Bool ℕ
slow = record {
  open_error = λ dsn. none;
  ping = λ d. (d + 1, if ltb d 2 then some (foreign (codes "connection refused")) else none);
  exec = λ statement d. (d, none);
  count_tables = λ db_name t d. ok 0;
  select_all = λ t d. ok ([], none);
  close_error = λ d. none;
}

new_mysql_storage-Answers_example :
    (Answers two_uuids row_lib slow max_retries 0
      → (s : MysqlStorage ℕ) × (new_mysql_storage two_uuids row_lib slow [] (codes "uploads") 0
          ≡ ok s)
        × (s.db_name ≡ codes "uploads"))
    × (¬ Answers two_uuids row_lib slow max_retries 0
        → (e : Error) × (answer two_uuids row_lib slow 29 0 ≡ some e)
          × (new_mysql_storage two_uuids row_lib slow [] (codes "uploads") 0
              ≡ err (
                  wrapf_with "failed to ping MySQL after %d attempts: "
                    (number max_retries ∷ [])
                    e)))
new_mysql_storage-Answers_example =
    new_mysql_storage-Answers two_uuids row_lib slow [] (codes "uploads") 0 refl

abbrev pub cfg : Config
cfg = record {
  host = codes "127.0.0.1";
  port = pos 7777;
  storage_type = codes "dual";
  storage_path = codes "./data";
  db_host = codes "db";
  db_port = pos 3306;
  db_user = codes "terraform";
  db_password = [];
  db_name = codes "uploads";
  enable_tls = false;
  cert_file = [];
  key_file = [];
}

ping_loop-max_retries_example :
    (i : ℕ) × (_ : i < max_retries) × (_ : (ping_loop two_uuids row_lib slow max_retries none 0).0
      ≡ pinged two_uuids row_lib slow (suc i) 0)
    × (_ : (j : ℕ) → j < i → answer two_uuids row_lib slow j 0 ≢ none) × ((i ≡ 29)
        ⊎ (answer two_uuids row_lib slow i 0 ≡ none))
ping_loop-max_retries_example = ping_loop-max_retries two_uuids row_lib slow 0
