-- ===== src/Storage/Csv/History/Reads.antt =====
-- What GetOrgData returns after appends, and after an append to a full disk.
use eterrain_tf_upload.Text.{equal_iff, Bytes, bytes_eq}
use eterrain_tf_upload.Maps.{lookup-insert, lookup}
use eterrain_tf_upload.Storage.Csv.Writes.{
  with_file-IsWorking, Enough, IsWorking, append_data-put, added, with_file, opened,
}
use eterrain_tf_upload.Errors.{Error, ok}
use eterrain_tf_upload.Storage.Csv.{
  content_of, Row, RowLib, DataUpload, CsvStorage, append_data, get_org_data, header, returned,
  panicked, report_name_of, parse_row, parse_rows, row_fields,
}
use eterrain_tf_upload.Base.{
  ◌≤◌, ◌≡◌, ◌∙◌, inl, inr, ap, refl, true, false, Bool-cases, none, some, Option, List, [], ◌∷◌,
  arith, if◌then◌else◌, All, every, subst, length,
}
use eterrain_tf_upload.Uuid.{UuidLib, uuid_byte}
use eterrain_tf_upload.Csv.{read_all_records}
use eterrain_tf_upload.Csv.RoundTrip.{
  reread, rereads, all_rereads, not_return, reread-every, HasWidth, read_all_records-encode,
}
use eterrain_tf_upload.Io.Buffer.{put, buffer_size}
use eterrain_tf_upload.Storage.Csv.Paths.{path_of}
use eterrain_tf_upload.Storage.Csv.History.{
  RowLaws, Append, append_all, json_of, fields_of, rows_for, cost, file_of, Marshals,
  file_exists-Holds, append_all-Holds,
}

module _ (lib : UuidLib) (rl : RowLib) (laws : RowLaws rl) where
  open lib use {Uuid, uuid_eq, parse-to_string}
  open rl use {Time, marshal}

  -- An upload as it is read back: its time in seconds, its name with \r\n as \n
  unfoldable pub upload_of : Append lib rl → DataUpload Time Uuid
  upload_of c = record {
    timestamp = laws.seconds c.time;
    org_id = c.org_id;
    report_name = reread (report_name_of c.row);
    content = laws.decoded c.row;
  }

  unfoldable pub uploads_for : Uuid → List (Append lib rl) → List (DataUpload Time Uuid)
  uploads_for u [] = []
  uploads_for u (c ∷ cs) =
      let rest = uploads_for u cs in if uuid_eq.beq c.org_id u then upload_of c ∷ rest else rest

  every-uuid : (s : Bytes) → every uuid_byte s ≡ true → every not_return s ≡ true
  every-uuid [] h = refl
  every-uuid (c ∷ s) h = ground (arith, every-uuid s)

  parse_row-rereads :
      (c : Append lib rl)
      → Marshals lib rl c
      → parse_row lib rl (rereads (fields_of lib rl c)) ≡ some (upload_of c)
  unfolding parse_row rereads upload_of json_of
  parse_row-rereads c (json, m) = ground (
    arith,
    m,
    laws.parse-format c.time,
    laws.unmarshal-marshal c.row json m,
    parse-to_string c.org_id,
    reread-every (rl.format_time c.time) (laws.every-format c.time),
    reread-every json (laws.every-marshal c.row json m),
    reread-every (lib.to_string c.org_id)
        (every-uuid (lib.to_string c.org_id) (lib.every-to_string c.org_id)),
  )

  parse_rows-rows_for :
      (u : Uuid) (cs : List (Append lib rl))
      → All (Marshals lib rl) cs
      → parse_rows lib rl (all_rereads (rows_for lib rl u cs)) ≡ uploads_for u cs
  unfolding parse_rows all_rereads rows_for uploads_for
  parse_rows-rows_for u [] m = refl
  parse_rows-rows_for u (c ∷ cs) m =
      ground (arith, parse_rows-rows_for u cs m.1, parse_row-rereads c m.0)

  rows_for-HasWidth :
      (u : Uuid) (cs : List (Append lib rl)) → All (HasWidth 2) (rows_for lib rl u cs)
  unfolding rows_for
  rows_for-HasWidth u [] = tt
  rows_for-HasWidth u (c ∷ cs) =
      let rest = rows_for-HasWidth u cs in
      elim (Bool-cases (uuid_eq.beq c.org_id u)) [ inl e ↦ rw e (refl, rest) | inr e ↦ rw e rest ]

  get_org_data-Holds :
      (s : CsvStorage) (u : Uuid) (rows : List (List Bytes))
      → IsWorking lib rl s
      → lookup (path_of lib s u) s.disk.files ≡ file_of lib rl rows
      → All (HasWidth 2) rows
      → get_org_data lib rl u s ≡ returned (ok (parse_rows lib rl (all_rereads rows)))
  unfolding get_org_data file_of parse_rows all_rereads
  get_org_data-Holds s u [] w h p = ground (arith, w.finds u, w.no_stat_fault (path_of lib s u), h)
  get_org_data-Holds s u (row ∷ rows) w h p =
      let path = path_of lib s u in
      ground (
        arith,
        w.finds u,
        w.no_stat_fault path,
        w.no_open_fault path,
        w.no_read_fault path,
        h,
        read_all_records-encode 2 (header ∷ row ∷ rows) (refl, p),
      )

  -- On a storage that works, holds no file yet and has room for all rows: AppendData succeeds for each of
  -- a list of uploads that can be encoded, and then GetOrgData returns, for every organization, exactly
  -- its own uploads in their order, each with its time in seconds, its report name with \r\n as \n, and
  -- its data as the encoding decodes.
  pub get_org_data-append_all :
      (cs : List (Append lib rl)) (s : CsvStorage)
      → IsWorking lib rl s
      → ((u : Uuid) → lookup (path_of lib s u) s.disk.files ≡ none)
      → All (Marshals lib rl) cs
      → cost lib rl cs ≤ s.disk.room
      → ((append_all lib rl cs s).1 ≡ none)
        × ((u : Uuid)
            → get_org_data lib rl u (append_all lib rl cs s).0 ≡ returned (ok (uploads_for u cs)))
  unfolding file_of
  get_org_data-append_all cs s w empty m room =
      let (fine, works, holds) = append_all-Holds lib rl cs s (λ u. []) w empty m room in
      (
        fine,
        λ u.
            get_org_data-Holds (append_all lib rl cs s).0 u (rows_for lib rl u cs) works (holds u)
              (rows_for-HasWidth u cs)
            ∙ ap (λ us. returned (ok us)) (parse_rows-rows_for u cs m),
      )

  get_org_data-empty :
      (s : CsvStorage) (u : Uuid)
      → IsWorking lib rl s
      → lookup (path_of lib s u) s.disk.files ≡ some []
      → get_org_data lib rl u s ≡ panicked
  unfolding get_org_data read_all_records
  get_org_data-empty s u w h =
      let path = path_of lib s u in
      ground (arith, w.finds u, w.no_stat_fault path, w.no_open_fault path, w.no_read_fault path, h)

  -- The disk is full, and the new file of an organization is to have at most 4096 bytes: AppendData
  -- reports no error, the upload is lost, and GetOrgData panics.
  pub get_org_data-full_disk :
      (t : Time) (u : Uuid) (row : Row) (data_json : Bytes) (s : CsvStorage)
      → IsWorking lib rl s
      → lookup (path_of lib s u) s.disk.files ≡ none
      → marshal row ≡ ok data_json
      → s.disk.room ≡ 0
      → length (added false (row_fields lib rl t u row data_json)) ≤ buffer_size
      → ((append_data lib rl t u row s).1 ≡ none)
        × (get_org_data lib rl u (append_data lib rl t u row s).0 ≡ panicked)
  unfolding content_of put file_of
  get_org_data-full_disk t u row data_json s w empty m full small =
      let path = path_of lib s u in
      let text = added false (row_fields lib rl t u row data_json) in
      let k = put text (opened lib rl s u) in
      let nothing : k.content ≡ [] = ground (arith, empty, full) in
      let done : append_data lib rl t u row s ≡ (with_file lib rl s path k, none) =
        subst
          (λ b.
            let new = added b (row_fields lib rl t u row data_json) in
            Enough (length new) s.disk.room
            → append_data lib rl t u row s
              ≡ (with_file lib rl s path (put new (opened lib rl s u)), none))
          (file_exists-Holds lib rl s path [] (w.no_stat_fault path) empty)
          (append_data-put lib rl t u row data_json s w m) (inr small) in
      (
        ap (λ (r : CsvStorage × Option Error). r.1) done,
        ap (λ (r : CsvStorage × Option Error). get_org_data lib rl u r.0) done
            ∙ get_org_data-empty (with_file lib rl s path k) u
                (with_file-IsWorking lib rl s path k w)
                (ground (
                  arith,
                  lookup-insert path path k.content s.disk.files,
                  (equal_iff path path).1 refl,
                  nothing,
                )),
      )
