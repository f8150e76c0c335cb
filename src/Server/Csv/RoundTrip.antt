-- ===== src/Server/Csv/RoundTrip.antt =====
-- Uploads through the whole chain of a service over CSV files.
use eterrain_tf_upload.Base.{
  ap, sym, subst, false, ◌∙◌, ◌≡◌, ◌≤◌, none, arith, length, ℕ, List, ◌++◌, All,
}
use eterrain_tf_upload.Text.{Bytes, bytes_eq}
use eterrain_tf_upload.Errors.{ok}
use eterrain_tf_upload.Maps.{lookup}
use eterrain_tf_upload.Uuid.{UuidLib}
use eterrain_tf_upload.Float.{Float}
use eterrain_tf_upload.Http.{Request, Response, json_response}
use eterrain_tf_upload.Auth.FileStore.{Comparison}
use eterrain_tf_upload.Auth.Middleware.{get_org_id-with_value}
use eterrain_tf_upload.Storage.{DataStorage}
use eterrain_tf_upload.Storage.Csv.{Row, RowLib, DataUpload, CsvStorage, returned, get_org_data}
use eterrain_tf_upload.Storage.Csv.Paths.{path_of}
use eterrain_tf_upload.Storage.Csv.Writes.{IsWorking}
use eterrain_tf_upload.Storage.Csv.History.{RowLaws, Append, append_all, cost, Marshals}
use eterrain_tf_upload.Storage.Csv.History.Reads.{uploads_for, get_org_data-append_all}
use eterrain_tf_upload.Storage.Csv.History.Joined.{append_all-append}
use eterrain_tf_upload.Handlers.Resource.{ResourceUpload}
use eterrain_tf_upload.Handlers.Upload
use eterrain_tf_upload.Handlers.Upload.{
  UploadLib, UploadJson, org_data, upload_data, store_upload, max_body,
}
use eterrain_tf_upload.Handlers.Upload.Process.{append_rows, rows_of, AllChecked}
use eterrain_tf_upload.Handlers.Upload.Outcome.{IsAcceptable, store_upload-taken}
use eterrain_tf_upload.Server.Data.{
  UploadRoute, post_upload, get_data, data_storage, upload_route, serve_upload,
}
use eterrain_tf_upload.Server.Data.Chain.{Comes, serve_upload-Comes, serve_upload-post, Uploads}
use eterrain_tf_upload.Server.Csv.Stamped.{stamped, State, append_rows-stamped}
use eterrain_tf_upload.Server.Csv.{ClockedCsv, csv_data_storage, serve_csv}

module _ (lib : UuidLib) (rl : RowLib) (times : ℕ → rl.Time) (f : Float) (ul : UploadLib)
    (compare_hash : Bytes → Bytes → Comparison)
    (recovered : Response (UploadJson (DataUpload rl.Time lib.Uuid))) where
  open lib use {Uuid, to_string}
  open rl use {Time}

  abbrev pub storage_of : DataStorage Uuid Row (DataUpload Time Uuid) ClockedCsv
  storage_of = csv_data_storage lib rl times

  abbrev pub Service : Type 0
  Service = State lib rl times f ul

  -- No handler panics, and the storage is a first storage after some appends.
  pub record IsRecorded (cs : List (Append lib rl)) (first : CsvStorage) (s : Service)
      : Type 0 where
    pub storage : s.store.storage ≡ (append_all lib rl cs first).0
    pub calm : s.store.panicking ≡ false

  serve_csv-calm :
      (route : UploadRoute) (r : Request Uuid) (s : Service)
      → (serve_upload f ul lib storage_of compare_hash route r s).0.store.panicking ≡ false
      → serve_csv lib rl times f ul compare_hash recovered route r s
        ≡ serve_upload f ul lib storage_of compare_hash route r s
  unfolding serve_csv
  serve_csv-calm route r s h = ground arith

  -- The answer to a request for data
  pub data_response :
      Uuid → List (DataUpload Time Uuid) → Response (UploadJson (DataUpload Time Uuid))
  data_response v uploads = json_response 200 (org_data (to_string v) (length uploads) uploads)

  serve_upload-get :
      (r : Request Uuid) (s : Service) (v : Uuid) (uploads : List (DataUpload Time Uuid))
      → Comes f ul lib storage_of compare_hash r s v
      → get_org_data lib rl v s.store.storage ≡ returned (ok uploads)
      → serve_upload f ul lib storage_of compare_hash get_data r s ≡ (s, data_response v uploads)
  unfolding upload_route Upload.get_org_data data_response
  serve_upload-get r s v uploads c h =
      serve_upload-Comes f ul lib storage_of compare_hash get_data r s v c
      ∙ ground (arith, get_org_id-with_value r.context v, h)

  -- The appends that an upload comes to
  abbrev pub new_appends : Uuid → ResourceUpload → Service → List (Append lib rl)
  new_appends u x s = stamped lib rl times u s.store.calls (rows_of x 0 x.instances)

  abbrev pub handler_storage : DataStorage Uuid Row (DataUpload Time Uuid) Service
  handler_storage = data_storage f ul lib storage_of

  -- A POST of an upload whose rows the storage takes
  serve_csv-post :
      (s : Service) (r : Request Uuid) (u : Uuid) (x : ResourceUpload)
      → s.store.panicking ≡ false
      → Comes f ul lib storage_of compare_hash r s u
      → Uploads f ul lib storage_of compare_hash r x
      → IsAcceptable ul lib handler_storage x
      → AllChecked ul lib handler_storage 0 x.instances
      → (append_all lib rl (new_appends u x s) s.store.storage).1 ≡ none
      → ((serve_csv lib rl times f ul compare_hash recovered post_upload r s).1.status ≡ 200)
        × ((serve_csv lib rl times f ul compare_hash recovered post_upload r s).0
            ≡ append_rows ul lib handler_storage u (rows_of x 0 x.instances) s)
  serve_csv-post s r u x calm c h fields checked fine =
      let stored = append_rows-stamped lib rl times f ul u (rows_of x 0 x.instances) s fine in
      let (answered, state) =
        store_upload-taken ul lib handler_storage u x s fields checked stored.taken in
      let reached = serve_upload-post f ul lib storage_of compare_hash r s u x c h in
      let quiet = serve_csv-calm post_upload r s (
        ap (λ (end : Service × Response (UploadJson (DataUpload Time Uuid))). end.0.store.panicking)
          reached
        ∙ ap (λ (t : Service). t.store.panicking) state
        ∙ stored.panicking
        ∙ calm) in
      (
        ap (λ (end : Service × Response (UploadJson (DataUpload Time Uuid))). end.1.status)
              (quiet ∙ reached)
            ∙ answered,
        ap (λ (end : Service × Response (UploadJson (DataUpload Time Uuid))). end.0)
              (quiet ∙ reached)
            ∙ state,
      )

  serve_csv-get :
      (s : Service) (r : Request Uuid) (v : Uuid) (uploads : List (DataUpload Time Uuid))
      → s.store.panicking ≡ false
      → Comes f ul lib storage_of compare_hash r s v
      → get_org_data lib rl v s.store.storage ≡ returned (ok uploads)
      → serve_csv lib rl times f ul compare_hash recovered get_data r s
        ≡ (s, data_response v uploads)
  serve_csv-get s r v uploads calm c h =
      let got = serve_upload-get r s v uploads c h in
      serve_csv-calm get_data r s (
        ap (λ (end : Service × Response (UploadJson (DataUpload Time Uuid))). end.0.store.panicking)
          got
        ∙ calm)
      ∙ got

  -- Credentials do not depend on what is stored.
  Comes-credentials :
      (r : Request Uuid) (s s' : Service) (v : Uuid)
      → s'.credentials ≡ s.credentials
      → Comes f ul lib storage_of compare_hash r s v
      → Comes f ul lib storage_of compare_hash r s' v
  Comes-credentials r s s' v e c = record {
    credentials = record {
      has_org_id = c.credentials.has_org_id;
      names_org = c.credentials.names_org;
      has_api_key = c.credentials.has_api_key;
      accepted = rw e c.credentials.accepted;
    };
    no_value = c.no_value;
  }

  module _ (laws : RowLaws rl) where
    -- Through the whole chain of a service over CSV files, of requests that bring no value under the
    -- limiter's key: let the storage be one that works, held no file at first, and has taken some
    -- uploads. If it has room for these and for the rows of one more, all of which can be encoded, then
    -- a POST of the one more, with acceptable fields and instances that pass their checks, is answered
    -- 200, and a GET with the credentials of any organization is then answered 200 with exactly its own
    -- uploads, the old ones and the new, in their order.
    pub serve_csv-get-post :
        (cs : List (Append lib rl)) (first : CsvStorage) (s : Service) (r r' : Request Uuid)
        (u v : Uuid) (x : ResourceUpload)
        → IsWorking lib rl first
        → ((w : Uuid) → lookup (path_of lib first w) first.disk.files ≡ none)
        → All (Marshals lib rl) (cs ++ new_appends u x s)
        → cost lib rl (cs ++ new_appends u x s) ≤ first.disk.room
        → IsRecorded cs first s
        → Comes f ul lib storage_of compare_hash r s u
        → Comes f ul lib storage_of compare_hash r' s v
        → Uploads f ul lib storage_of compare_hash r x
        → IsAcceptable ul lib handler_storage x
        → AllChecked ul lib handler_storage 0 x.instances
        → ((serve_csv lib rl times f ul compare_hash recovered post_upload r s).1.status ≡ 200)
          × ((serve_csv lib rl times f ul compare_hash recovered get_data r'
                (serve_csv lib rl times f ul compare_hash recovered post_upload r s).0).1
              ≡ data_response v (uploads_for lib rl laws v (cs ++ new_appends u x s)))
    serve_csv-get-post cs first s r r' u v x w empty m room rec c c' h fields checked =
        let new = new_appends u x s in
        let rows = rows_of x 0 x.instances in
        let (fine, reads) = get_org_data-append_all lib rl laws (cs ++ new) first w empty m room in
        let (rest, joined) = append_all-append lib rl cs new first fine in
        let here = subst (λ t. (append_all lib rl new t).1 ≡ none) (sym rec.storage) rest in
        let (answered, state) = serve_csv-post s r u x rec.calm c h fields checked here in
        let stored = append_rows-stamped lib rl times f ul u rows s here in
        let s' = append_rows ul lib handler_storage u rows s in
        let held : s'.store.storage ≡ (append_all lib rl (cs ++ new) first).0 =
          stored.storage ∙ ap (λ t. (append_all lib rl new t).0) rec.storage ∙ sym joined in
        let got =
          serve_csv-get s' r' v (uploads_for lib rl laws v (cs ++ new))
            (stored.panicking ∙ rec.calm) (Comes-credentials r' s s' v stored.credentials c')
            (ap (λ t. get_org_data lib rl v t) held ∙ reads v) in
        (
          answered,
          ap (λ (t : Service). (serve_csv lib rl times f ul compare_hash recovered get_data r' t).1)
                state
              ∙ ap (λ (end : Service × Response (UploadJson (DataUpload Time Uuid))). end.1) got,
        )
