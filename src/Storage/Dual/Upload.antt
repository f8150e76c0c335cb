-- ===== src/Storage/Dual/Upload.antt =====
-- An upload to two storages of which the first is down.
use eterrain_tf_upload.Base.{◌≡◌, none, some, List, ◌∷◌, arith}
use eterrain_tf_upload.Text.{Bytes}
use eterrain_tf_upload.Errors.{Error}
use eterrain_tf_upload.Maps.{Map}
use eterrain_tf_upload.Uuid.{UuidLib}
use eterrain_tf_upload.Storage.{DataStorage}
use eterrain_tf_upload.Storage.Dual.{DualStorage, dual_storage, append_data}
use eterrain_tf_upload.Handlers.Value.{Value}
use eterrain_tf_upload.Handlers.Resource.{InstanceUpload, ResourceUpload, row_of}
use eterrain_tf_upload.Handlers.Upload.{UploadLib, store_upload, process_instances, check_instance}
use eterrain_tf_upload.Handlers.Upload.Outcome.{IsAcceptable, check_upload-accepts}

module _ (ul : UploadLib) (lib : UuidLib) {Upload S T : Type 0}
    (csv : DataStorage lib.Uuid (Map Bytes Value) Upload S)
    (mysql : DataStorage lib.Uuid (Map Bytes Value) Upload T) where
  open lib use {Uuid}

  -- If the CSV storage fails on the first row, an acceptable upload whose first instance passes its
  -- checks is answered 500, and the MySQL
  -- storage is handed the row of the first instance and of no other, however many there are.
  pub store_upload_csv_down :
      (u : Uuid) (upload : ResourceUpload) (i : InstanceUpload) (is : List InstanceUpload)
      (s : DualStorage S T) (e : Error)
      → IsAcceptable ul lib (dual_storage csv mysql) upload
      → upload.instances ≡ i ∷ is
      → check_instance ul lib (dual_storage csv mysql) 0 i ≡ none
      → (csv.append_data u (row_of upload 0 i) s.csv).1 ≡ some e
      → ((store_upload ul lib (dual_storage csv mysql) u upload s).1.status ≡ 500)
        × ((store_upload ul lib (dual_storage csv mysql) u upload s).0.mysql
            ≡ (mysql.append_data u (row_of upload 0 i) s.mysql).0)
  unfolding store_upload process_instances append_data
  store_upload_csv_down u upload i is s e a h c down =
      let fields = check_upload-accepts ul lib (dual_storage csv mysql) upload a in
      (ground (arith, fields, h, c, down), ground (arith, fields, h, c, down))
