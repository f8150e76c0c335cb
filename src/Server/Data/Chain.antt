-- ===== src/Server/Data/Chain.antt =====
-- A request for uploads that carries credentials, through the whole chain.
use eterrain_tf_upload.Base.{false, ◌^◌, ◌*◌, ◌∙◌, ◌≡◌, ◌≤◌, none, arith, ltb, length, ℕ, take_all}
use eterrain_tf_upload.Text.{Bytes}
use eterrain_tf_upload.Errors.{ok}
use eterrain_tf_upload.Maps.{Map}
use eterrain_tf_upload.Uuid.{UuidLib}
use eterrain_tf_upload.Float.{Float}
use eterrain_tf_upload.Io.{Stream, max_bytes_reader, read_all, limit_reader}
use eterrain_tf_upload.Http.{Request, value}
use eterrain_tf_upload.Auth.FileStore.{Comparison}
use eterrain_tf_upload.Auth.Middleware.{
  Authenticates, authenticated, get_org_id-with_value, middleware-passes,
}
use eterrain_tf_upload.RateLimit.{org_id_context_key}
use eterrain_tf_upload.RateLimit.Requests.{rate_limit_bypassed}
use eterrain_tf_upload.Validation.{validate_json_string}
use eterrain_tf_upload.Storage.{DataStorage}
use eterrain_tf_upload.Handlers.Value.{Value}
use eterrain_tf_upload.Handlers.Resource.{ResourceUpload}
use eterrain_tf_upload.Handlers.Upload.{UploadLib, upload_data, store_upload, max_body}
use eterrain_tf_upload.Server.Data.{
  DataState, UploadRoute, post_upload, data_storage, data_limiter, upload_credentials, upload_route,
  serve_upload,
}

ltb-false : (m n : ℕ) → n ≤ m → ltb m n ≡ false
ltb-false m n h = ground arith

-- A stream within both limits is read whole.
read_all-within :
    (n : ℕ) (s : Stream)
    → length s.content ≤ n
    → s.failure ≡ none
    → read_all (limit_reader n (max_bytes_reader n s)) ≡ ok s.content
unfolding read_all limit_reader max_bytes_reader
read_all-within n s h e =
    rw (ltb-false n (length s.content) h) (ground (arith, take_all n s.content h))

module _ (f : Float) (ul : UploadLib) (lib : UuidLib) {Upload S : Type 0}
    (storage : DataStorage lib.Uuid (Map Bytes Value) Upload S)
    (compare_hash : Bytes → Bytes → Comparison) where
  open lib use {Uuid}

  -- The request comes with the credentials of an organization, and with no value of the limiter's own.
  pub record Comes (r : Request Uuid) (s : DataState f ul lib storage) (u : Uuid) : Type 0 where
    pub credentials : Authenticates lib (upload_credentials f ul lib storage compare_hash) r s u
    pub no_value : value r.context org_id_context_key ≡ none

  -- The request behind the limit of its body
  abbrev pub limited_upload : Request Uuid → Request Uuid
  limited_upload r = record r { body = max_bytes_reader (10 * 2 ^ 20) r.body }

  -- A request with credentials reaches its handler.
  pub serve_upload-Comes :
      (route : UploadRoute) (r : Request Uuid) (s : DataState f ul lib storage) (u : Uuid)
      → Comes r s u
      → serve_upload f ul lib storage compare_hash route r s
        ≡ upload_route f ul lib storage compare_hash route (authenticated (limited_upload r) u) s
  unfolding serve_upload
  serve_upload-Comes route r s u c =
      rate_limit_bypassed f lib (data_limiter f ul lib storage)
        (upload_credentials f ul lib storage compare_hash)
        (upload_route f ul lib storage compare_hash route) (limited_upload r) s c.no_value
      ∙ middleware-passes lib (upload_credentials f ul lib storage compare_hash)
          (upload_route f ul lib storage compare_hash route) (limited_upload r) s u
          (record {
            has_org_id = c.credentials.has_org_id;
            names_org = c.credentials.names_org;
            has_api_key = c.credentials.has_api_key;
            accepted = c.credentials.accepted;
          })

  -- The body of the request is read to its end, is valid JSON within the limits, and decodes to an upload.
  pub record Uploads (r : Request Uuid) (x : ResourceUpload) : Type 0 where
    pub failure : r.body.failure ≡ none
    pub in_limit : length r.body.content ≤ max_body
    pub valid : validate_json_string ul.valid r.body.content max_body ≡ none
    pub decoded : ul.unmarshal_upload r.body.content ≡ ok x

  read_all-Uploads :
      (r : Request Uuid) (x : ResourceUpload)
      → Uploads r x
      → read_all (limit_reader max_body (max_bytes_reader max_body r.body)) ≡ ok r.body.content
  read_all-Uploads r x c = read_all-within max_body r.body c.in_limit c.failure

  -- A POST of an upload stores it.
  pub serve_upload-post :
      (r : Request Uuid) (s : DataState f ul lib storage) (u : Uuid) (x : ResourceUpload)
      → Comes r s u
      → Uploads r x
      → serve_upload f ul lib storage compare_hash post_upload r s
        ≡ store_upload ul lib (data_storage f ul lib storage) u x s
  unfolding upload_route upload_data
  serve_upload-post r s u x c h =
      serve_upload-Comes post_upload r s u c
      ∙ ground
          (arith, get_org_id-with_value r.context u, read_all-Uploads r x h, h.valid, h.decoded)
