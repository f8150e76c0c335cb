-- ===== src/Csv.antt =====
-- Package encoding/csv with its default settings, which internal/storage/csv.go writes and reads its files
-- with. A row is a list of fields.
pub mod Fields
pub mod Reading
pub mod RoundTrip
use eterrain_tf_upload.Base.{
  onto_first, String, ℕ, ◌+◌, ◌≡◌, refl, Bool, true, false, not, ◌&&◌, ◌||◌, Option, none, some,
  List, [], ◌∷◌, ◌++◌, arith, ◌==◌, if◌then◌else◌, length,
}
use eterrain_tf_upload.Text.{Bytes, codes, equal, space_width}
use eterrain_tf_upload.Errors.{Error, errorf, Result, ok, err}

-- A byte for which a field is quoted
abbrev pub special : ℕ → Bool
special c = c == b'\n' || c == b'\r' || c == b'"' || c == b','

unfoldable pub any_special : Bytes → Bool
any_special [] = false
any_special (c ∷ s) = special c || any_special s

-- Writer.fieldNeedsQuotes
unfoldable pub field_needs_quotes : Bytes → Bool
unfolding any_special space_width
field_needs_quotes [] = false
field_needs_quotes (c ∷ s) =
    equal (c ∷ s) (codes "\\.") || any_special (c ∷ s) || not (space_width (c ∷ s) == 0)

-- The writes for the inside of a quoted field: what stands before a quote or a line end, that byte
-- with a quote doubled, and so on
unfoldable pub quoted_pieces : Bytes → List Bytes
quoted_pieces [] = [] ∷ []
quoted_pieces (c ∷ s) =
    let rest = quoted_pieces s in
    if c == b'"'
    then [] ∷ codes "\"\"" ∷ rest
    else if c == b'\n' || c == b'\r'
    then [] ∷ (c ∷ []) ∷ rest
    else onto_first c rest

unfoldable pub field_pieces : Bytes → List Bytes
unfolding field_needs_quotes quoted_pieces
field_pieces field =
    if field_needs_quotes field
    then codes "\"" ∷ (quoted_pieces field ++ codes "\"" ∷ [])
    else field ∷ []

-- The fields after the first
unfoldable pub more_pieces : List Bytes → List Bytes
unfolding field_pieces
more_pieces [] = []
more_pieces (field ∷ fields) = codes "," ∷ (field_pieces field ++ more_pieces fields)

-- The writes of Writer.Write, in their order
unfoldable pub row_pieces : List Bytes → List Bytes
unfolding more_pieces
row_pieces [] = (b'\n' ∷ []) ∷ []
row_pieces (field ∷ fields) = field_pieces field ++ (more_pieces fields ++ (b'\n' ∷ []) ∷ [])

-- Line ends as Reader.readLine gives them: \r\n is \n, and at the end of the file a \r is dropped.
abbrev pub ends_line : Bool → Bytes → Bool
ends_line at_end [] = at_end
ends_line at_end (c ∷ s) = c == b'\n'

unfoldable pub normalize : Bool → Bytes → Bytes
normalize at_end [] = []
normalize at_end (c ∷ s) =
    let rest = normalize at_end s in if c == b'\r' && ends_line at_end s then rest else c ∷ rest

-- Where Reader.readRecord is
pub data Phase : Type 0 where
  line_start field_start plain quoted quote_seen : Phase
  failed : Error → Phase

-- `width` is FieldsPerRecord, which the first record sets.
pub record Reader : Type 0 where
  pub phase : Phase
  pub field : Bytes
  pub fields : List Bytes
  pub records : List (List Bytes)
  pub width : ℕ

abbrev pub new_reader : Reader
new_reader = record { phase = line_start; field = []; fields = []; records = []; width = 0 }

abbrev pub fail_with : String → Reader → Reader
fail_with message r = record r { phase = failed (errorf message []) }

abbrev pub add_byte : ℕ → Phase → Reader → Reader
add_byte c phase r = record r { phase = phase; field = r.field ++ c ∷ [] }

abbrev pub end_field : Reader → Reader
end_field r = record r { phase = field_start; field = []; fields = r.fields ++ r.field ∷ [] }

-- The end of a record: its fields are counted
abbrev pub end_record : Reader → Reader
end_record r =
    let fields = r.fields ++ r.field ∷ [] in
    if r.width == 0 || r.width == length fields
    then record {
      phase = line_start;
      field = [];
      fields = [];
      records = r.records ++ fields ∷ [];
      width = length fields;
    }
    else fail_with "wrong number of fields" r

-- A byte at the start of a field
abbrev pub start_byte : ℕ → Reader → Reader
start_byte c r =
    if c == b'"'
    then record r { phase = quoted }
    else if c == b','
    then end_field r
    else if c == b'\n'
    then end_record r
    else add_byte c plain r

unfoldable pub read_byte : ℕ → Reader → Reader
read_byte c r = elim r.phase [
  | line_start ↦ if c == b'\n' then r else start_byte c r
  | field_start ↦ start_byte c r
  | plain ↦
      if c == b'"'
      then fail_with "bare \" in non-quoted-field" r
      else if c == b','
      then end_field r
      else if c == b'\n'
      then end_record r
      else add_byte c plain r
  | quoted ↦ if c == b'"' then record r { phase = quote_seen } else add_byte c quoted r
  | quote_seen ↦
      if c == b'"'
      then add_byte c quoted r
      else if c == b','
      then end_field r
      else if c == b'\n'
      then end_record r
      else fail_with "extraneous or missing \" in quoted-field" r
  | failed e ↦ r
]

unfoldable pub read_bytes : Bytes → Reader → Reader
unfolding read_byte
read_bytes [] r = r
read_bytes (c ∷ s) r = read_bytes s (read_byte c r)

abbrev pub records_of : Reader → Result (List (List Bytes))
records_of r = elim r.phase [ failed e ↦ err e | _ ↦ ok r.records ]

-- The end of the file, or the error of a read
unfoldable pub read_end : Option Error → Reader → Result (List (List Bytes))
read_end none r = elim r.phase [
  | line_start ↦ ok r.records
  | field_start ↦ records_of (end_record r)
  | plain ↦ records_of (end_record r)
  | quoted ↦ err (errorf "extraneous or missing \" in quoted-field" [])
  | quote_seen ↦ records_of (end_record r)
  | failed e ↦ err e
]
read_end (some e) r = elim r.phase [ failed f ↦ err f | _ ↦ err e ]

-- Reader.ReadAll; its positions in errors are left out.
unfoldable pub read_all_records : Bytes → Option Error → Result (List (List Bytes))
unfolding normalize read_bytes read_end
read_all_records s failure =
    let at_end : Bool = elim failure [ none ↦ true | some e ↦ false ] in
    read_end failure (read_bytes (normalize at_end s) new_reader)
