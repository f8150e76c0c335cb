-- ===== src/Tests/Chain.antt =====
-- Uploads through the chain of a service over CSV files, which hold earlier uploads.
use eterrain_tf_upload.Base.{ℕ, ◌≡◌, refl, Bool, true, false, List, ◌++◌, arith, All}
use eterrain_tf_upload.Text.{equal}
use eterrain_tf_upload.Errors.{ok}
use eterrain_tf_upload.Maps.{lookup}
use eterrain_tf_upload.Uuid.{two_uuids, bool_beq}
use eterrain_tf_upload.Float.{whole}
use eterrain_tf_upload.Http.{Response, value, http_error}
use eterrain_tf_upload.Auth.FileStore.{validate_credentials, keys_of}
use eterrain_tf_upload.Validation.{
  word_byte, validate_json_string, validate_attribute_key, validate_attribute_value,
}
use eterrain_tf_upload.Storage.Csv.{DataUpload}
use eterrain_tf_upload.Storage.Csv.History.{Append, append_all, cost, Marshals}
use eterrain_tf_upload.Storage.Csv.History.Reads.{uploads_for}
use eterrain_tf_upload.Handlers.Value.{sprint}
use eterrain_tf_upload.Handlers.Upload.{UploadLib, UploadJson, check_instance}
use eterrain_tf_upload.Handlers.Upload.Process.{AllChecked, rows_of}
use eterrain_tf_upload.Handlers.Upload.Outcome.{IsAcceptable}
use eterrain_tf_upload.Server.{start}
use eterrain_tf_upload.Server.Data.{DataService, post_upload, get_data}
use eterrain_tf_upload.Server.Data.Chain.{Comes, Uploads}
use eterrain_tf_upload.Server.Csv.{ClockedCsv, serve_csv}
use eterrain_tf_upload.Server.Csv.Stamped.{stamped}
use eterrain_tf_upload.Server.Csv.RoundTrip.{
  data_response, handler_storage, storage_of, serve_csv-get-post,
}
use eterrain_tf_upload.Tests.Access.{compare_hash, credentials, request}
use eterrain_tf_upload.Tests.Files.{
  row_lib, row_laws, row_text, csv_storage, csv_storage-IsWorking, no_files, appends,
  appends-Marshals,
}
use eterrain_tf_upload.Tests.Service.{post}
use eterrain_tf_upload.Tests.Uploads.{upload, upload_lib}

abbrev decode_lib : UploadLib
decode_lib = record upload_lib { unmarshal_upload = λ s. ok upload }

abbrev times : ℕ → Bool
times n = true

abbrev recovered : Response (UploadJson (DataUpload Bool Bool))
recovered = http_error 500 "Internal Server Error"

abbrev all : List (Append two_uuids row_lib)
all = appends ++ stamped two_uuids row_lib times true 0 (rows_of upload 0 upload.instances)

abbrev room : ℕ
room = cost two_uuids row_lib all

abbrev service : DataService Bool ℕ ClockedCsv
service = record {
  store = record {
    storage = (append_all two_uuids row_lib appends (csv_storage room)).0;
    calls = 0;
    panicking = false;
  };
  credentials = credentials;
  limiter = (start whole two_uuids credentials 0).limiter;
  clock = 0;
}

all-Marshals : All (Marshals two_uuids row_lib) all
unfolding stamped rows_of
all-Marshals = (
  appends-Marshals.0,
  (appends-Marshals.1.0, (appends-Marshals.1.1.0, ((row_text _, refl), ((row_text _, refl), tt)))),
)

request-Comes :
    Comes whole decode_lib two_uuids
      (storage_of two_uuids row_lib times whole decode_lib compare_hash recovered)
      compare_hash
      request
      service
      true
unfolding equal start validate_credentials keys_of lookup bool_beq value
request-Comes = record {
  credentials = record {
    has_org_id = λ e. cc e;
    names_org = refl;
    has_api_key = λ e. cc e;
    accepted = refl;
  };
  no_value = refl;
}

post-Comes :
    Comes whole decode_lib two_uuids
      (storage_of two_uuids row_lib times whole decode_lib compare_hash recovered)
      compare_hash
      post
      service
      true
unfolding equal start validate_credentials keys_of lookup bool_beq value
post-Comes = record {
  credentials = record {
    has_org_id = λ e. cc e;
    names_org = refl;
    has_api_key = λ e. cc e;
    accepted = refl;
  };
  no_value = refl;
}

post-Uploads :
    Uploads whole decode_lib two_uuids
      (storage_of two_uuids row_lib times whole decode_lib compare_hash recovered)
      compare_hash
      post
      upload
unfolding validate_json_string
post-Uploads = record { failure = refl; in_limit = omega arith; valid = refl; decoded = refl }

posted-IsAcceptable :
    IsAcceptable decode_lib two_uuids
      (handler_storage two_uuids row_lib times whole decode_lib compare_hash recovered)
      upload
unfolding word_byte
posted-IsAcceptable = record {
  provider = record { at_least_one = omega arith; at_most_max = omega arith; in_class = refl };
  category = record { at_least_one = omega arith; at_most_max = omega arith; in_class = refl };
  resource_type = record { at_least_one = omega arith; at_most_max = omega arith; in_class = refl };
  some_instance = omega arith;
  few_instances = omega arith;
}

posted-AllChecked :
    AllChecked decode_lib two_uuids
      (handler_storage two_uuids row_lib times whole decode_lib compare_hash recovered)
      0
      upload.instances
unfolding AllChecked check_instance validate_attribute_key validate_attribute_value sprint
posted-AllChecked = (refl, (refl, tt))

serve_csv-get-post_example :
    ((serve_csv two_uuids row_lib times whole decode_lib compare_hash recovered post_upload post
        service).1.status
      ≡ 200)
    × ((serve_csv two_uuids row_lib times whole decode_lib compare_hash recovered get_data request
          (serve_csv two_uuids row_lib times whole decode_lib compare_hash recovered post_upload
            post service).0).1
        ≡ data_response two_uuids row_lib times whole decode_lib compare_hash recovered true
            (uploads_for two_uuids row_lib row_laws true all))
serve_csv-get-post_example =
    serve_csv-get-post two_uuids row_lib times whole decode_lib compare_hash recovered row_laws
      appends (csv_storage room) service post request true true upload (csv_storage-IsWorking room)
      (no_files room) all-Marshals (omega arith) (record { storage = refl; calm = refl }) post-Comes
      request-Comes post-Uploads posted-IsAcceptable posted-AllChecked
