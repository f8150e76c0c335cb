-- ===== src/Storage/Csv.antt =====
-- internal/storage/csv.go: a CSV file for each organization in a data directory. The clock, encoding/json and
-- the formats of package time are parameters; the disk is a map from paths to contents that takes a
-- number of bytes more and may refuse a file.
pub mod Paths
pub mod Writes
pub mod History
use eterrain_tf_upload.Base.{
  ◌&&◌, String, ℕ, ◌≡◌, Bool, true, false, ◌||◌, not, Option, none, some, List, [], ◌∷◌, ◌++◌, leb,
  ◌==◌, if◌then◌else◌, every,
}
use eterrain_tf_upload.Text.{Bytes, codes, equal, has_prefix, bytes_eq}
use eterrain_tf_upload.Errors.{Error, errorf, wrapf, foreign, Result, ok, err}
use eterrain_tf_upload.Maps.{Map, lookup, insert}
use eterrain_tf_upload.Uuid.{UuidLib}
use eterrain_tf_upload.Path.{join, abs}
use eterrain_tf_upload.Csv.{row_pieces, read_all_records}
use eterrain_tf_upload.Io.Buffer.{Sink, Buffered, new_buffered, write_pieces, flush}
use eterrain_tf_upload.Handlers.Value.{Value, text}

abbrev pub Row : Type 0
Row = Map Bytes Value

-- A time with the format RFC3339, and encoding/json on a row
pub record RowLib : Type 1 where
  pub Time : Type 0
  pub format_time : Time → Bytes
  pub parse_time : Bytes → Option Time
  pub marshal : Row → Result Bytes
  pub unmarshal : Bytes → Result Row

-- What is read back of an upload
pub record DataUpload (Time Uuid : Type 0) : Type 0 where
  pub timestamp : Time
  pub org_id : Uuid
  pub report_name : Bytes
  pub content : Row

-- The faults are what os.Stat and os.OpenFile answer, and what a read ends with, for another reason than a
-- missing file.
pub record Disk : Type 0 where
  pub working_dir : Result Bytes
  pub files : Map Bytes Bytes
  pub room : ℕ
  pub stat_fault : Bytes → Option Error
  pub open_fault : Bytes → Option Error
  pub read_fault : Bytes → Option Error

pub record CsvStorage : Type 0 where
  pub data_dir : Bytes
  pub disk : Disk

abbrev no_such_file : Error
no_such_file = foreign (codes "no such file or directory")

-- A call that returns, or panics
pub data Outcome (A : Type 0) : Type 0 where
  returned : A → Outcome A
  panicked : Outcome A

-- NewCSVStorage, from the error of os.MkdirAll
unfoldable pub new_csv_storage : Option Error → Bytes → Disk → Result CsvStorage
new_csv_storage (some e) data_dir disk = err (wrapf "failed to create data directory: " e)
new_csv_storage none data_dir disk = elim (abs disk.working_dir data_dir) [
  | err e ↦ err (wrapf "failed to get absolute path for data directory: " e)
  | ok abs_data_dir ↦ ok (record { data_dir = abs_data_dir; disk = disk })
]

-- strings.ContainsAny(text, "/\\..")
unfoldable pub has_path_byte : Bytes → Bool
has_path_byte [] = false
has_path_byte (c ∷ s) = c == b'/' || c == b'\\' || c == b'.' || has_path_byte s

-- data["report_name"].(string), and else ""
unfoldable pub report_name_of : Row → Bytes
unfolding lookup
report_name_of row = elim (lookup (codes "report_name") row) [ some (text name) ↦ name | _ ↦ [] ]

abbrev pub header : List Bytes
header = codes "timestamp" ∷ codes "org_id" ∷ codes "report_name" ∷ codes "data" ∷ []

-- os.Stat succeeds
unfoldable pub file_exists : Bytes → Disk → Bool
unfolding lookup
file_exists path disk = elim (disk.stat_fault path) [
  | some e ↦ false
  | none ↦ elim (lookup path disk.files) [ none ↦ false | some content ↦ true ]
]

-- The content of a file that os.OpenFile opens or creates
unfoldable pub content_of : Bytes → Disk → Bytes
unfolding lookup
content_of path disk = elim (lookup path disk.files) [ none ↦ [] | some content ↦ content ]

-- The disk after the flush and the closing of a file
unfoldable pub close_file : Bytes → Disk → Buffered → Disk
unfolding flush insert
close_file path disk b =
    let sink = (flush b).sink in
    record disk { files = insert path sink.content disk.files; room = sink.room }

-- The two writes of AppendData, and its error
unfoldable pub write_rows : Bool → List Bytes → Buffered → Buffered × Option Error
write_rows exists row b =
    let headed = if exists then b else write_pieces (row_pieces header) b in
    let written = write_pieces (row_pieces row) headed in
    elim headed.stuck [
      | some e ↦ (headed, some (wrapf "failed to write CSV header: " e))
      | none ↦ elim written.stuck [
        | some e ↦ (written, some (wrapf "failed to write CSV row: " e))
        | none ↦ (written, none)
      ]
    ]

module _ (lib : UuidLib) where
  open lib use {Uuid, to_string}

  unfoldable pub sanitize_file_path : Uuid → CsvStorage → Result Bytes
  unfolding has_path_byte
  sanitize_file_path org_id s =
      let org_id_str = to_string org_id in
      let file_path = join s.data_dir (org_id_str ++ codes ".csv") in
      if has_path_byte org_id_str
      then err (errorf "invalid org ID: contains path traversal characters" [])
      else elim (abs s.disk.working_dir file_path) [
        | err e ↦ err (wrapf "failed to get absolute path: " e)
        | ok abs_path ↦
            if not (has_prefix abs_path (s.data_dir ++ codes "/"))
              && not (equal abs_path s.data_dir)
            then err (errorf "invalid path: attempted directory traversal" [])
            else ok file_path
      ]

module _ (lib : UuidLib) (rl : RowLib) where
  open lib use {Uuid, parse, to_string}
  open rl use {Time, format_time, parse_time, marshal, unmarshal}

  -- The row of an upload
  abbrev pub row_fields : Time → Uuid → Row → Bytes → List Bytes
  row_fields timestamp org_id row data_json =
      format_time timestamp ∷ to_string org_id ∷ report_name_of row ∷ data_json ∷ []

  -- AppendData at a time
  unfoldable pub append_data : Time → Uuid → Row → CsvStorage → CsvStorage × Option Error
  unfolding sanitize_file_path report_name_of file_exists content_of close_file write_rows
  append_data timestamp org_id row s = elim (sanitize_file_path lib org_id s) [
    | err e ↦ (s, some (wrapf "invalid org ID for file path: " e))
    | ok path ↦
        let exists = file_exists path s.disk in
        elim (s.disk.open_fault path) [
          | some e ↦ (s, some (wrapf "failed to open CSV file: " e))
          | none ↦
              let file =
                new_buffered (record { content = content_of path s.disk; room = s.disk.room }) in
              elim (marshal row) [
                | err e ↦ (
                  record s { disk = close_file path s.disk file },
                  some (wrapf "failed to marshal data: " e),
                )
                | ok data_json ↦
                    let (written, failed) =
                      write_rows exists (row_fields timestamp org_id row data_json) file in
                    (record s { disk = close_file path s.disk written }, failed)
              ]
        ]
  ]

  -- The parsing of a row's fields; a row that does not parse is skipped.
  unfoldable pub parse_fields : Bytes → Bytes → Bytes → Bytes → Option (DataUpload Time Uuid)
  parse_fields timestamp org_id report_name data_json = elim (parse_time timestamp) [
    | none ↦ none
    | some t ↦ elim (parse org_id) [
      | none ↦ none
      | some u ↦ elim (unmarshal data_json) [
        | err e ↦ none
        | ok row ↦
            some (record { timestamp = t; org_id = u; report_name = report_name; content = row })
      ]
    ]
  ]

  -- A row of the new format, of the old format with three columns, or of neither
  unfoldable pub parse_row : List Bytes → Option (DataUpload Time Uuid)
  unfolding parse_fields
  parse_row (timestamp ∷ org_id ∷ report_name ∷ data_json ∷ more) =
      parse_fields timestamp org_id report_name data_json
  parse_row (timestamp ∷ org_id ∷ data_json ∷ []) = parse_fields timestamp org_id [] data_json
  parse_row _ = none

  unfoldable pub parse_rows : List (List Bytes) → List (DataUpload Time Uuid)
  unfolding parse_row
  parse_rows [] = []
  parse_rows (row ∷ rows) =
      let uploads = parse_rows rows in
      elim (parse_row row) [ none ↦ uploads | some upload ↦ upload ∷ uploads ]

  -- Behind ReadAll: the first record is the header, and without one the capacity len(records)-1 is
  -- negative.
  unfoldable pub uploads_of : List (List Bytes) → Outcome (Result (List (DataUpload Time Uuid)))
  unfolding parse_rows
  uploads_of [] = panicked
  uploads_of (first ∷ rows) = returned (ok (parse_rows rows))

  -- From os.Open on
  unfoldable pub read_file : Bytes → Bytes → Disk → Outcome (Result (List (DataUpload Time Uuid)))
  unfolding uploads_of
  read_file path content disk = elim (disk.open_fault path) [
    | some e ↦ returned (err (wrapf "failed to open CSV file: " e))
    | none ↦ elim (read_all_records content (disk.read_fault path)) [
      | err e ↦ returned (err (wrapf "failed to read CSV file: " e))
      | ok records ↦ uploads_of records
    ]
  ]

  unfoldable pub get_org_data : Uuid → CsvStorage → Outcome (Result (List (DataUpload Time Uuid)))
  unfolding sanitize_file_path read_file lookup
  get_org_data org_id s = elim (sanitize_file_path lib org_id s) [
    | err e ↦ returned (err (wrapf "invalid org ID for file path: " e))
    | ok path ↦
        elim (s.disk.stat_fault path) as (λ o. Outcome (Result (List (DataUpload Time Uuid)))) [
          | none ↦ elim (lookup path s.disk.files) [
            | none ↦ returned (ok [])
            | some content ↦ read_file path content s.disk
          ]
          | some e ↦ elim (lookup path s.disk.files) [
            | none ↦ returned (err (wrapf "failed to open CSV file: " no_such_file))
            | some content ↦ read_file path content s.disk
          ]
        ]
  ]
