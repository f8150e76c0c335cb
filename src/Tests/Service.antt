-- ===== src/Tests/Service.antt =====
-- The chain of the server, and two storages at once.
use eterrain_tf_upload.Base.{◌⊎◌, Bool, ◌≡◌, ◌≢◌, true, false, some, none, [], ◌∷◌, refl, arith}
use eterrain_tf_upload.Text.{codes, equal}
use eterrain_tf_upload.Errors.{foreign}
use eterrain_tf_upload.Maps.{lookup}
use eterrain_tf_upload.Uuid.{two_uuids, bool_beq}
use eterrain_tf_upload.Float.{whole}
use eterrain_tf_upload.Http.{Request, value, raw, json_headers}
use eterrain_tf_upload.Auth.FileStore.{validate_credentials, keys_of}
use eterrain_tf_upload.Auth.Middleware.{Authenticates, authenticated}
use eterrain_tf_upload.Validation.{
  validate_attribute_value, validate_attribute_key, word_byte, validate_state_name,
}
use eterrain_tf_upload.Storage.Memory.Spec.{view}
use eterrain_tf_upload.Storage.Dual.{DualStorage, dual_storage}
use eterrain_tf_upload.Storage.Dual.Upload.{store_upload_csv_down}
use eterrain_tf_upload.Handlers.Value.{sprint}
use eterrain_tf_upload.Handlers.Resource.{row_of}
use eterrain_tf_upload.Handlers.Upload.{check_instance, store_upload}
use eterrain_tf_upload.Handlers.Upload.Outcome.{IsAcceptable}
use eterrain_tf_upload.Server.{
  ServiceState, start, serve, post_route, get_route, delete_route, credential_store,
}
use eterrain_tf_upload.Server.Data.{
  DataService, post_upload, serve_upload, upload_credentials, Touches, serve_upload-Touches,
}
use eterrain_tf_upload.Server.Tenants.{serve-other}
use eterrain_tf_upload.Server.States.{Comes, Carries, serve-get-post}
use eterrain_tf_upload.Tests.Access.{compare_hash, credentials, request}
use eterrain_tf_upload.Tests.Storage.{json}
use eterrain_tf_upload.Tests.Uploads.{Rows, rows, full, upload_lib, upload, first, second}

abbrev service : ServiceState whole two_uuids
service = start whole two_uuids credentials 0

abbrev pub post : Request two_uuids.Uuid
post = record request { body = record { content = codes "{1}"; failure = none } }

not_second : two_uuids.parse (request.header (codes "X-Org-ID")) ≢ some false
unfolding equal
not_second e = cc e

serve-other_example :
    view two_uuids
      (serve whole two_uuids json compare_hash delete_route request service).0.memory
      false
      (codes "prod")
    ≡ view two_uuids service.memory false (codes "prod")
unfolding value
serve-other_example =
    serve-other whole two_uuids json compare_hash delete_route request service false (codes "prod")
      refl not_second

request-Authenticates :
    Authenticates two_uuids
      (credential_store whole two_uuids json compare_hash)
      request
      service
      true
unfolding equal start validate_credentials keys_of lookup bool_beq
request-Authenticates = record {
  has_org_id = λ e. cc e;
  names_org = refl;
  has_api_key = λ e. cc e;
  accepted = refl;
}

request-Comes : Comes whole two_uuids json compare_hash request service true
unfolding value
request-Comes = record { credentials = request-Authenticates; no_value = refl }

post-Comes : Comes whole two_uuids json compare_hash post service true
unfolding value
post-Comes = record {
  credentials = record {
    has_org_id = request-Authenticates.has_org_id;
    names_org = request-Authenticates.names_org;
    has_api_key = request-Authenticates.has_api_key;
    accepted = request-Authenticates.accepted;
  };
  no_value = refl;
}

post-Carries : Carries whole two_uuids json compare_hash post (codes "{1}")
post-Carries = record { content = refl; failure = refl; in_limit = omega arith; valid = refl }

pub prod_is_valid : validate_state_name (codes "prod") ≡ none
unfolding validate_state_name
prod_is_valid = refl

serve-get-post_example :
    ((serve whole two_uuids json compare_hash post_route post service).1.status ≡ 200)
    × (serve whole two_uuids json compare_hash get_route request
          (serve whole two_uuids json compare_hash post_route post service).0
        ≡ (
          (serve whole two_uuids json compare_hash post_route post service).0,
          record { status = 200; headers = json_headers; body = raw (codes "{1}") },
        ))
serve-get-post_example =
    serve-get-post whole two_uuids json compare_hash post request service true (codes "{1}")
      post-Comes request-Comes prod_is_valid refl post-Carries

abbrev inside : Request two_uuids.Uuid
inside = authenticated post true

abbrev two_stores : DualStorage Rows Rows
two_stores = record { csv = []; mysql = [] }

upload_two-IsAcceptable : IsAcceptable upload_lib two_uuids (dual_storage full rows) upload
unfolding word_byte
upload_two-IsAcceptable = record {
  provider = record { at_least_one = omega arith; at_most_max = omega arith; in_class = refl };
  category = record { at_least_one = omega arith; at_most_max = omega arith; in_class = refl };
  resource_type = record { at_least_one = omega arith; at_most_max = omega arith; in_class = refl };
  some_instance = omega arith;
  few_instances = omega arith;
}

first_is_checked : check_instance upload_lib two_uuids (dual_storage full rows) 0 first ≡ none
unfolding check_instance validate_attribute_key validate_attribute_value sprint
first_is_checked = refl

store_upload_csv_down_example :
    ((store_upload upload_lib two_uuids (dual_storage full rows) true upload two_stores).1.status
      ≡ 500)
    × ((store_upload upload_lib two_uuids (dual_storage full rows) true upload two_stores).0.mysql
        ≡ (rows.append_data true (row_of upload 0 first) two_stores.mysql).0)
store_upload_csv_down_example =
    store_upload_csv_down upload_lib two_uuids full rows true upload first (second ∷ []) two_stores
      (foreign (codes "disk full")) upload_two-IsAcceptable refl first_is_checked refl

abbrev data_service : DataService Bool whole.Float64 Rows
data_service = record {
  store = [];
  credentials = credentials;
  limiter = service.limiter;
  clock = 0;
}

serve_upload-Touches_example :
    ((serve_upload whole upload_lib two_uuids rows compare_hash post_upload post data_service).0
      ≡ data_service)
    ⊎ ((u : Bool) × Authenticates two_uuids
          (upload_credentials whole upload_lib two_uuids rows compare_hash)
          post
          data_service
          u
        × Touches whole upload_lib two_uuids rows compare_hash u data_service
            (serve_upload whole upload_lib two_uuids rows compare_hash post_upload post
              data_service).0)
unfolding value
serve_upload-Touches_example =
    serve_upload-Touches whole upload_lib two_uuids rows compare_hash post_upload post data_service
      refl
