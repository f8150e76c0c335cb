-- ===== src/Tests/Files.antt =====
-- The CSV storage: the data directory /data, two organizations, and a row with a report name or none.
use eterrain_tf_upload.Csv.RoundTrip.{not_return, encode, all_rereads, read_all_records-encode}
use eterrain_tf_upload.Base.{
  ℕ, ◌≤◌, ◌≡◌, ◌⊎◌, inr, refl, ap, sym, ◌∙◌, Bool, true, false, Option, none, some, List, [], ◌∷◌,
  arith, All, length, if◌then◌else◌, every,
}
use eterrain_tf_upload.Text.{Bytes, codes, equal, bytes_eq, has_prefix}
use eterrain_tf_upload.Errors.{errorf, Result, ok, err}
use eterrain_tf_upload.Maps.{lookup}
use eterrain_tf_upload.Uuid.{two_uuids}
use eterrain_tf_upload.Path.{
  split, slashed, joined, keep_element, keep_elements, is_abs, clean, join, abs,
}
use eterrain_tf_upload.Path.Rooted.{IsElement}
use eterrain_tf_upload.Csv.{
  read_all_records, row_pieces, more_pieces, field_pieces, field_needs_quotes, quoted_pieces,
  any_special,
}
use eterrain_tf_upload.Storage.Csv.{
  Row, RowLib, Disk, CsvStorage, new_csv_storage, sanitize_file_path, append_data, get_org_data,
  returned, panicked, row_fields, report_name_of,
}
use eterrain_tf_upload.Storage.Csv.Paths.{
  path_of, sanitize_file_path-below, new_csv_storage-sanitize_file_path,
}
use eterrain_tf_upload.Storage.Csv.Writes.{IsWorking, added}
use eterrain_tf_upload.Storage.Csv.History.{RowLaws, Append, Marshals, append_all, cost}
use eterrain_tf_upload.Storage.Csv.History.Reads.{
  uploads_for, get_org_data-append_all, get_org_data-full_disk,
}
use eterrain_tf_upload.Handlers.Value.{text}

abbrev odd_rows : List (List Bytes)
odd_rows =
    (codes "plain" ∷ codes "a,b" ∷ [])
    ∷ (codes "say \"hi\"" ∷ [] ∷ [])
    ∷ ((b'x' ∷ b'\r' ∷ b'\n' ∷ []) ∷ codes " lead" ∷ [])
    ∷ []

read_all_records-odd_rows : read_all_records (encode odd_rows) none ≡ ok (all_rereads odd_rows)
read_all_records-odd_rows = read_all_records-encode 0 odd_rows (refl, (refl, (refl, tt)))

abbrev time_text : Bool → Bytes
time_text true = codes "2026-01-01T00:00:00Z"
time_text false = codes "2026-01-01T00:00:01Z"

abbrev parse_time_text : Bytes → Option Bool
parse_time_text s =
    if equal s (time_text true)
    then some true
    else if equal s (time_text false)
    then some false
    else none

abbrev pub net_row : Row
net_row = (codes "report_name", text (codes "net")) ∷ []

abbrev pub row_text : Row → Bytes
row_text [] = codes "{}"
row_text (field ∷ fields) = codes "{\"report_name\":\"net\"}"

abbrev pub decoded_row : Row → Row
decoded_row [] = []
decoded_row (field ∷ fields) = net_row

abbrev pub text_row : Bytes → Row
text_row s = if equal s (codes "{}") then [] else net_row

abbrev pub row_lib : RowLib
row_lib = record {
  Time = Bool;
  format_time = time_text;
  parse_time = parse_time_text;
  marshal = λ row. ok (row_text row);
  unmarshal = λ s. ok (text_row s);
}

parse_time_text-time_text : (t : Bool) → parse_time_text (time_text t) ≡ some t
unfolding equal
parse_time_text-time_text true = refl
parse_time_text-time_text false = refl

pub text_row-row_text : (row : Row) → text_row (row_text row) ≡ decoded_row row
unfolding equal
text_row-row_text [] = refl
text_row-row_text (field ∷ fields) = refl

not_return-row_text : (row : Row) → every not_return (row_text row) ≡ true
not_return-row_text [] = refl
not_return-row_text (field ∷ fields) = refl

not_return-time_text : (t : Bool) → every not_return (time_text t) ≡ true
not_return-time_text true = refl
not_return-time_text false = refl

pub ok_text : (a b : Bytes) → Path (Result Bytes) (ok a) (ok b) → a ≡ b
ok_text a b e = cc e

pub row_laws : RowLaws row_lib
row_laws = record {
  seconds = λ t. t;
  decoded = decoded_row;
  parse-format = parse_time_text-time_text;
  unmarshal-marshal = λ row s e.
      ap (λ x. ok (text_row x)) (sym (ok_text (row_text row) s e)) ∙ ap ok (text_row-row_text row);
  every-format = not_return-time_text;
  every-marshal =
      λ row s e. ap (every not_return) (sym (ok_text (row_text row) s e)) ∙ not_return-row_text row;
}

abbrev pub disk : ℕ → Disk
disk room = record {
  working_dir = ok (codes "/srv");
  files = [];
  room = room;
  stat_fault = λ path. none;
  open_fault = λ path. none;
  read_fault = λ path. none;
}

abbrev pub csv_storage : ℕ → CsvStorage
csv_storage room = record { data_dir = codes "/data"; disk = disk room }

dir-IsElement : IsElement (codes "data")
unfolding equal
dir-IsElement = record { no_slash = refl; no_empty = refl; no_dot = refl; no_dots = refl }

pub csv_storage-IsWorking : (room : ℕ) → IsWorking two_uuids row_lib (csv_storage room)
unfolding joined slashed
csv_storage-IsWorking room = record {
  finds = λ u.
      sanitize_file_path-below two_uuids (csv_storage room) u (codes "data") [] refl
        (dir-IsElement, tt);
  no_stat_fault = λ path. refl;
  no_open_fault = λ path. refl;
  no_read_fault = λ path. refl;
}

abbrev pub appends : List (Append two_uuids row_lib)
appends =
    record { time = true; org_id = true; row = net_row }
    ∷ record { time = false; org_id = false; row = [] }
    ∷ record { time = false; org_id = true; row = [] }
    ∷ []

pub appends-Marshals : All (Marshals two_uuids row_lib) appends
appends-Marshals = ((row_text net_row, refl), ((row_text [], refl), ((row_text [], refl), tt)))

pub no_files :
    (room : ℕ) (u : Bool)
    → lookup (path_of two_uuids (csv_storage room) u) (csv_storage room).disk.files ≡ none
unfolding lookup
no_files room u = refl

abbrev enough : ℕ
enough = cost two_uuids row_lib appends

get_org_data-append_all_example :
    ((append_all two_uuids row_lib appends (csv_storage enough)).1 ≡ none)
    × ((u : Bool)
        → get_org_data two_uuids row_lib u
            (append_all two_uuids row_lib appends (csv_storage enough)).0
          ≡ returned (ok (uploads_for two_uuids row_lib row_laws u appends)))
get_org_data-append_all_example =
    get_org_data-append_all two_uuids row_lib row_laws appends (csv_storage enough)
      (csv_storage-IsWorking enough) (no_files enough) appends-Marshals (omega arith)

small_upload : length (added false (row_fields two_uuids row_lib true true [] (codes "{}"))) ≤ 4096
unfolding encode row_pieces more_pieces field_pieces field_needs_quotes quoted_pieces any_special
    equal report_name_of
small_upload = omega arith

get_org_data-full_disk_example :
    ((append_data two_uuids row_lib true true [] (csv_storage 0)).1 ≡ none)
    × (get_org_data two_uuids row_lib true
          (append_data two_uuids row_lib true true [] (csv_storage 0)).0
        ≡ panicked)
get_org_data-full_disk_example =
    get_org_data-full_disk two_uuids row_lib row_laws true true [] (codes "{}") (csv_storage 0)
      (csv_storage-IsWorking 0) (no_files 0 true) refl refl small_upload

made :
    new_csv_storage none (codes "data") (disk 0)
    ≡ ok (record { data_dir = codes "/srv/data"; disk = disk 0 })
unfolding new_csv_storage abs join clean split keep_elements keep_element joined slashed equal
    is_abs has_prefix
made = refl

wd-is_abs : is_abs (codes "/srv") ≡ true
unfolding is_abs has_prefix
wd-is_abs = refl

new_csv_storage-sanitize_file_path_example :
    (let s : CsvStorage = record { data_dir = codes "/srv/data"; disk = disk 0 } in
      ((codes "/srv/data" ≡ codes "/")
        × ((u : Bool)
            → sanitize_file_path two_uuids u s
              ≡ err (errorf "invalid path: attempted directory traversal" [])))
      ⊎ ((u : Bool) → sanitize_file_path two_uuids u s ≡ ok (path_of two_uuids s u)))
new_csv_storage-sanitize_file_path_example =
    new_csv_storage-sanitize_file_path two_uuids (codes "data") (disk 0)
      (record { data_dir = codes "/srv/data"; disk = disk 0 }) (inr (codes "/srv", refl, wd-is_abs))
      made
