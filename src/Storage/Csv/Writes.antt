-- ===== src/Storage/Csv/Writes.antt =====
-- What AppendData does to the file of its organization.
use eterrain_tf_upload.Storage.Csv.{
  row_fields, file_exists, Row, ok, insert, content_of, close_file, sanitize_file_path, append_data,
  CsvStorage, RowLib, UuidLib, header, write_rows,
}
use eterrain_tf_upload.Storage.Csv.Paths.{path_of}
use eterrain_tf_upload.Server.States.{written}
use mathlib.Core.List.{append-nil}
use eterrain_tf_upload.Base.{
  ℕ, ◌≤◌, ◌≡◌, ◌∙◌, ◌⊎◌, inl, inr, sym, ap, refl, Bool, true, false, none, List, [], ◌∷◌, ◌++◌,
  arith, subst, length, length-append, flat, flat-append,
}
use eterrain_tf_upload.Text.{Bytes, bytes_eq}
use eterrain_tf_upload.Csv.{row_pieces}
use eterrain_tf_upload.Csv.RoundTrip.{encode}
use eterrain_tf_upload.Io.Buffer.{
  Sink, put, Buffered, buffer_size, new_buffered, write_pieces, flush,
}
use eterrain_tf_upload.Io.Buffer.Whole.{write_pieces-Whole}

write_pieces-append :
    (ps qs : List Bytes) (b : Buffered)
    → write_pieces (ps ++ qs) b ≡ write_pieces qs (write_pieces ps b)
unfolding write_pieces
write_pieces-append [] qs b = refl
write_pieces-append (p ∷ ps) qs b = write_pieces-append ps qs _

-- The bytes that an upload adds to a file, and to no file
abbrev pub added : Bool → List Bytes → Bytes
added true row = encode (row ∷ [])
added false row = encode (header ∷ row ∷ [])

abbrev pub Enough : ℕ → ℕ → Type 0
Enough n room = (n ≤ room) ⊎ (n ≤ buffer_size)

fine :
    (pieces : List Bytes) (k : Sink)
    → Enough (length (flat pieces)) k.room
    → (write_pieces pieces (new_buffered k)).stuck ≡ none
fine pieces k (inl h) = (write_pieces-Whole pieces k).by_room h
fine pieces k (inr h) = (write_pieces-Whole pieces k).by_buffer h

Enough-less : (m n room : ℕ) → m ≤ n → Enough n room → Enough m room
Enough-less m n room le (inl h) = inl (omega arith)
Enough-less m n room le (inr h) = inr (omega arith)

-- All rows are written, if the disk or the buffer takes them.
pub write_rows-added :
    (exists : Bool) (row : List Bytes) (k : Sink)
    → Enough (length (added exists row)) k.room
    → (b : Buffered) × (_ : write_rows exists row (new_buffered k) ≡ (b, none)) × ((flush b).sink
        ≡ put (added exists row) k)
unfolding write_rows encode
write_rows-added true row k enough =
    let pieces = row_pieces row in
    let text : flat pieces ++ [] ≡ flat pieces = append-nil (flat pieces) in
    let same = fine pieces k (subst (λ t. Enough (length t) k.room) text enough) in
    (
      write_pieces pieces (new_buffered k),
      ground (arith, same),
      (write_pieces-Whole pieces k).sunk ∙ ap (λ t. put t k) (sym text),
    )
write_rows-added false row k enough =
    let pieces = row_pieces header ++ row_pieces row in
    let text : flat (row_pieces header) ++ (flat (row_pieces row) ++ []) ≡ flat pieces =
      ap (λ t. flat (row_pieces header) ++ t) (append-nil (flat (row_pieces row)))
      ∙ sym (flat-append (row_pieces header) (row_pieces row)) in
    let whole = subst (λ t. Enough (length t) k.room) text enough in
    let headed = fine (row_pieces header) k (
      Enough-less (length (flat (row_pieces header))) (length (flat pieces)) k.room
        (omega (
          arith,
          ap length (flat-append (row_pieces header) (row_pieces row)),
          length-append (flat (row_pieces header)) (flat (row_pieces row)),
        ))
        whole) in
    let both = write_pieces-append (row_pieces header) (row_pieces row) (new_buffered k) in
    let same = fine pieces k whole in
    (
      write_pieces pieces (new_buffered k),
      ground (arith, headed, both, same),
      (write_pieces-Whole pieces k).sunk ∙ ap (λ t. put t k) (sym text),
    )

module _ (lib : UuidLib) (rl : RowLib) where
  open lib use {Uuid}
  open rl use {Time, marshal}

  -- A storage whose files are found and are not refused
  pub record IsWorking (s : CsvStorage) : Type 0 where
    pub finds : (u : Uuid) → sanitize_file_path lib u s ≡ ok (path_of lib s u)
    pub no_stat_fault : (path : Bytes) → s.disk.stat_fault path ≡ none
    pub no_open_fault : (path : Bytes) → s.disk.open_fault path ≡ none
    pub no_read_fault : (path : Bytes) → s.disk.read_fault path ≡ none

  -- The storage with a file changed
  abbrev pub with_file : CsvStorage → Bytes → Sink → CsvStorage
  with_file s path k = record s {
    disk = record s.disk { files = insert path k.content s.disk.files; room = k.room };
  }

  pub with_file-IsWorking :
      (s : CsvStorage) (path : Bytes) (k : Sink) → IsWorking s → IsWorking (with_file s path k)
  unfolding sanitize_file_path
  with_file-IsWorking s path k w = record {
    finds = w.finds;
    no_stat_fault = w.no_stat_fault;
    no_open_fault = w.no_open_fault;
    no_read_fault = w.no_read_fault;
  }

  abbrev pub opened : CsvStorage → Uuid → Sink
  opened s u = record { content = content_of (path_of lib s u) s.disk; room = s.disk.room }

  -- If the disk takes the new bytes or the buffer holds them, AppendData succeeds, and the file has grown by
  -- those of the bytes that the disk takes.
  pub append_data-put :
      (t : Time) (u : Uuid) (row : Row) (data_json : Bytes) (s : CsvStorage)
      → IsWorking s
      → marshal row ≡ ok data_json
      → (let text =
            added (file_exists (path_of lib s u) s.disk) (row_fields lib rl t u row data_json) in
          Enough (length text) s.disk.room
          → append_data lib rl t u row s
            ≡ (with_file s (path_of lib s u) (put text (opened s u)), none))
  unfolding append_data close_file
  append_data-put t u row data_json s w m enough =
      let path = path_of lib s u in
      let (b, written, sunk) =
        write_rows-added (file_exists path s.disk) (row_fields lib rl t u row data_json)
          (opened s u) enough in
      ground (arith, w.finds u, w.no_open_fault path, m, written, sunk)
