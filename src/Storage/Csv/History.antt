-- ===== src/Storage/Csv/History.antt =====
-- Appends to a CSV storage: what is in the files afterwards.
pub mod Joined
pub mod Reads
use eterrain_tf_upload.Storage.Csv.Writes.{
  append_data-put, Enough, with_file-IsWorking, opened, with_file, added, IsWorking,
}
use eterrain_tf_upload.Base.{
  sym, ◌∙◌, subst, All, inr, inl, Bool-cases, flat, length-append, refl, take_all, ap, ◌-◌, ◌+◌,
  true, if◌then◌else◌, every, arith, [], ◌≤◌, ◌∷◌, ◌++◌, ℕ, some, none, false, Option, Bool, length,
  ◌≡◌, List,
}
use eterrain_tf_upload.Maps.{lookup-insert, insert, lookup}
use eterrain_tf_upload.Csv.{row_pieces}
use eterrain_tf_upload.Storage.Csv.Paths.{path_of-injective, path_of}
use eterrain_tf_upload.Storage.Csv.{
  equal, Disk, row_fields, CsvStorage, content_of, file_exists, Row, RowLib, append_data, header,
}
use eterrain_tf_upload.Errors.{Error, err, ok}
use eterrain_tf_upload.Text.{equal_iff, Bytes, bytes_eq}
use eterrain_tf_upload.Csv.RoundTrip.{not_return, encode-append, encode}
use eterrain_tf_upload.Uuid.{UuidLib}
use mathlib.Core.List.{append_assoc, append-nil}
use eterrain_tf_upload.Io.Buffer.{Sink, put}

-- What the reading and the writing of a row have to do with each other: the format keeps the seconds, a
-- row that is encoded decodes to something, and neither text has a carriage return.
pub record RowLaws (rl : RowLib) : Type 0 where
  pub seconds : rl.Time → rl.Time
  pub decoded : Row → Row
  pub parse-format : (t : rl.Time) → rl.parse_time (rl.format_time t) ≡ some (seconds t)
  pub unmarshal-marshal :
      (row : Row) (s : Bytes) → rl.marshal row ≡ ok s → rl.unmarshal s ≡ ok (decoded row)
  pub every-format : (t : rl.Time) → every not_return (rl.format_time t) ≡ true
  pub every-marshal : (row : Row) (s : Bytes) → rl.marshal row ≡ ok s → every not_return s ≡ true

module _ (lib : UuidLib) (rl : RowLib) where
  open lib use {Uuid, uuid_eq}
  open rl use {Time, marshal}

  pub record Append : Type 0 where
    pub time : Time
    pub org_id : Uuid
    pub row : Row

  -- AppendData for each, up to the first error
  unfoldable pub append_all : List Append → CsvStorage → CsvStorage × Option Error
  append_all [] s = (s, none)
  append_all (c ∷ cs) s =
      let (s', failed) = append_data lib rl c.time c.org_id c.row s in
      let rest = append_all cs s' in elim failed [ some e ↦ (s', some e) | none ↦ rest ]

  unfoldable pub json_of : Row → Bytes
  json_of row = elim (marshal row) [ ok s ↦ s | err e ↦ [] ]

  abbrev pub fields_of : Append → List Bytes
  fields_of c = row_fields lib rl c.time c.org_id c.row (json_of c.row)

  unfoldable rows_for : Uuid → List Append → List (List Bytes)
  rows_for u [] = []
  rows_for u (c ∷ cs) =
      let rest = rows_for u cs in if uuid_eq.beq c.org_id u then fields_of c ∷ rest else rest

  -- Bytes that are enough for all rows, each with a header
  unfoldable pub cost : List Append → ℕ
  cost [] = 0
  cost (c ∷ cs) = length (added false (fields_of c)) + cost cs

  unfoldable file_of : List (List Bytes) → Option Bytes
  file_of [] = none
  file_of (row ∷ rows) = some (encode (header ∷ row ∷ rows))

  abbrev Holds : CsvStorage → (Uuid → List (List Bytes)) → Type 0
  Holds s rows = (u : Uuid) → lookup (path_of lib s u) s.disk.files ≡ file_of (rows u)

  abbrev pub Marshals : Append → Type 0
  Marshals c = (s : Bytes) × (marshal c.row ≡ ok s)

  abbrev has_rows : List (List Bytes) → Bool
  has_rows [] = false
  has_rows (row ∷ rows) = true

  abbrev more : (Uuid → List (List Bytes)) → List Append → Uuid → List (List Bytes)
  more rows cs u = rows u ++ rows_for u cs

  file_exists-Holds :
      (s : CsvStorage) (path : Bytes) (rows : List (List Bytes))
      → s.disk.stat_fault path ≡ none
      → lookup path s.disk.files ≡ file_of rows
      → file_exists path s.disk ≡ has_rows rows
  unfolding file_exists file_of
  file_exists-Holds s path [] n h = ground arith
  file_exists-Holds s path (row ∷ rows) n h = ground arith

  file_of-snoc :
      (disk : Disk) (path : Bytes) (rows : List (List Bytes)) (row : List Bytes)
      → lookup path disk.files ≡ file_of rows
      → file_of (rows ++ row ∷ []) ≡ some (content_of path disk ++ added (has_rows rows) row)
  unfolding file_of content_of
  file_of-snoc disk path [] row h = ground arith
  file_of-snoc disk path (r ∷ rows) row h =
      ground (arith, encode-append (header ∷ r ∷ rows) (row ∷ []))

  added-le :
      (exists : Bool) (row : List Bytes) → length (added exists row) ≤ length (added false row)
  unfolding encode
  added-le true row =
      omega (arith, length-append (flat (row_pieces header)) (flat (row_pieces row) ++ []))
  added-le false row = omega arith

  put-fits :
      (text : Bytes) (k : Sink)
      → length text ≤ k.room
      → ((put text k).content ≡ k.content ++ text) × ((put text k).room ≡ k.room - length text)
  unfolding put
  put-fits text k h = (ap (λ t. k.content ++ t) (take_all k.room text h), refl)

  json_of-ok : (row : Row) (json : Bytes) → marshal row ≡ ok json → marshal row ≡ ok (json_of row)
  unfolding json_of
  json_of-ok row json m = ground arith

  Holds-insert :
      (c : Append) (s : CsvStorage) (rows : Uuid → List (List Bytes)) (content : Bytes)
      → Holds s rows
      → file_of (rows c.org_id ++ fields_of c ∷ []) ≡ some content
      → (u : Uuid)
      → lookup (path_of lib s u) (insert (path_of lib s c.org_id) content s.disk.files)
        ≡ file_of (more rows (c ∷ []) u)
  unfolding rows_for
  Holds-insert c s rows content h new u =
      let mine = path_of lib s c.org_id in
      elim (Bool-cases (uuid_eq.beq c.org_id u)) [
        | inl e ↦
            subst
              (λ v.
                lookup (path_of lib s v) (insert mine content s.disk.files)
                ≡ file_of (more rows (c ∷ []) v))
              ((uuid_eq.beq_iff c.org_id u).0 e)
              (ground (
                arith,
                lookup-insert mine mine content s.disk.files,
                (equal_iff mine mine).1 refl,
                (uuid_eq.beq_iff c.org_id c.org_id).1 refl,
                new,
              ))
        | inr e ↦
            let other : equal mine (path_of lib s u) ≡ false =
              elim (Bool-cases (equal mine (path_of lib s u))) [
                | inl same ↦ absurd (
                    cc (
                      e,
                      (uuid_eq.beq_iff c.org_id u).1 (
                          path_of-injective lib s c.org_id u
                            ((equal_iff mine (path_of lib s u)).0 same)),
                    ))
                | inr differs ↦ differs
              ] in
            ground (
              arith,
              lookup-insert mine (path_of lib s u) content s.disk.files,
              other,
              h u,
              append-nil (rows u),
            )
      ]

  -- One append
  append_data-Holds :
      (c : Append) (s : CsvStorage) (rows : Uuid → List (List Bytes))
      → IsWorking lib rl s
      → Holds s rows
      → Marshals c
      → length (added false (fields_of c)) ≤ s.disk.room
      → (k : Sink) × (_ : append_data lib rl c.time c.org_id c.row s
          ≡ (with_file lib rl s (path_of lib s c.org_id) k, none))
        × (_ : Holds (with_file lib rl s (path_of lib s c.org_id) k) (more rows (c ∷ [])))
        × (s.disk.room ≤ k.room + length (added false (fields_of c)))
  append_data-Holds c s rows w h (json, m) room =
      let path = path_of lib s c.org_id in
      let exists = file_exists-Holds s path (rows c.org_id) (w.no_stat_fault path) (h c.org_id) in
      let row = fields_of c in
      let text = added (has_rows (rows c.org_id)) row in
      let fits : length text ≤ s.disk.room =
        omega (arith, room, added-le (has_rows (rows c.org_id)) row) in
      let from = opened lib rl s c.org_id in
      let (content, left) = put-fits text from fits in
      (
        put text from,
        subst
            (λ b.
              Enough (length (added b row)) s.disk.room
              → append_data lib rl c.time c.org_id c.row s
                ≡ (with_file lib rl s path (put (added b row) from), none))
            exists
            (append_data-put lib rl c.time c.org_id c.row (json_of c.row) s w
              (json_of-ok c.row json m))
            (inl fits),
        Holds-insert c s rows (put text from).content h
            (file_of-snoc s.disk path (rows c.org_id) row (h c.org_id) ∙ ap some (sym content)),
        omega (arith, left, fits, added-le (has_rows (rows c.org_id)) row),
      )

  Holds-more :
      (s : CsvStorage) (rows : Uuid → List (List Bytes)) (c : Append) (cs : List Append)
      → Holds s (more (more rows (c ∷ [])) cs)
      → Holds s (more rows (c ∷ cs))
  unfolding rows_for
  Holds-more s rows c cs h u =
      h u
      ∙ ap file_of (
          ground
            (arith, append_assoc (rows u) (fields_of c ∷ []) (rows_for u cs), append-nil (rows u)))

  append_all-Holds :
      (cs : List Append) (s : CsvStorage) (rows : Uuid → List (List Bytes))
      → IsWorking lib rl s
      → Holds s rows
      → All Marshals cs
      → cost cs ≤ s.disk.room
      → ((append_all cs s).1 ≡ none)
        × IsWorking lib rl (append_all cs s).0
        × Holds (append_all cs s).0 (more rows cs)
  unfolding append_all rows_for cost
  append_all-Holds [] s rows w h m room =
      (refl, w, λ u. h u ∙ ap file_of (sym (append-nil (rows u))))
  append_all-Holds (c ∷ cs) s rows w h m room =
      let (k, done, holds, left) = append_data-Holds c s rows w h m.0 (omega (arith, room)) in
      let s' = with_file lib rl s (path_of lib s c.org_id) k in
      let (fine, works, rest) =
        append_all-Holds cs s' (more rows (c ∷ []))
          (with_file-IsWorking lib rl s (path_of lib s c.org_id) k w) holds m.1
          (omega (arith, room, left)) in
      let whole : append_all (c ∷ cs) s ≡ append_all cs s' = ground (arith, done) in
      subst
        (λ (r : CsvStorage × Option Error).
          (r.1 ≡ none) × IsWorking lib rl r.0 × Holds r.0 (more rows (c ∷ cs)))
        (sym whole) (fine, works, Holds-more (append_all cs s').0 rows c cs rest)
