-- ===== src/Server/Csv.antt =====
-- cmd/server/main.go with the storage type "csv": the storage, the clock that AppendData reads, and chi's
-- Recoverer, which answers a request whose handler panics. What a handler does after the call that
-- panics has no effect, and its answer is dropped.
pub mod Stamped
pub mod RoundTrip
use eterrain_tf_upload.Base.{ℕ, suc, Bool, true, false, List, [], if◌then◌else◌}
use eterrain_tf_upload.Text.{Bytes, codes}
use eterrain_tf_upload.Errors.{Error, foreign, Result, ok, err}
use eterrain_tf_upload.Maps.{Map}
use eterrain_tf_upload.Uuid.{UuidLib}
use eterrain_tf_upload.Float.{Float}
use eterrain_tf_upload.Http.{Response, Handler}
use eterrain_tf_upload.Auth.FileStore.{Comparison}
use eterrain_tf_upload.Storage.{DataStorage}
use eterrain_tf_upload.Storage.Csv.{
  Row, RowLib, DataUpload, CsvStorage, append_data, get_org_data, returned, panicked,
}
use eterrain_tf_upload.Handlers.Upload.{UploadLib, UploadJson}
use eterrain_tf_upload.Server.Data.{DataState, UploadRoute, serve_upload}

-- The storage, the number of times that time.Now was called, and whether a handler panics.
pub record ClockedCsv : Type 0 where
  pub storage : CsvStorage
  pub calls : ℕ
  pub panicking : Bool

module _ (lib : UuidLib) (rl : RowLib) (times : ℕ → rl.Time) where
  open lib use {Uuid}
  open rl use {Time}

  -- The CSV storage as the data storage of the handlers
  abbrev pub csv_data_storage : DataStorage Uuid Row (DataUpload Time Uuid) ClockedCsv
  csv_data_storage = record {
    append_data = λ u row s.
        let (t, failed) = append_data lib rl (times s.calls) u row s.storage in
        (record s { storage = t; calls = suc s.calls }, failed);
    get_org_data = λ u s. elim (get_org_data lib rl u s.storage) [
      | returned result ↦ (s, result)
      | panicked ↦ (record s { panicking = true }, ok [])
    ];
  }

  module _ (f : Float) (ul : UploadLib) (compare_hash : Bytes → Bytes → Comparison) where
    abbrev pub CsvService : Type 0
    CsvService = DataState f ul lib csv_data_storage

    module _ (recovered : Response (UploadJson (DataUpload Time Uuid))) where
      -- middleware.Recoverer, with the answer that it gives
      unfoldable pub recover :
          Handler Uuid CsvService (UploadJson (DataUpload Time Uuid))
          → Handler Uuid CsvService (UploadJson (DataUpload Time Uuid))
      recover next r s =
          let (s', response) = next r s in
          if s'.store.panicking
          then (record s' { store = record s'.store { panicking = false } }, recovered)
          else (s', response)

      unfoldable pub serve_csv :
          UploadRoute → Handler Uuid CsvService (UploadJson (DataUpload Time Uuid))
      unfolding recover
      serve_csv route = recover (serve_upload f ul lib csv_data_storage compare_hash route)
