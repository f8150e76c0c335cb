-- ===== src/Server/Data.antt =====
-- cmd/server/main.go with a storage type that takes uploads: the routes of uploads and of health, over any data
-- storage. A panic of the storage, which chi's Recoverer catches, is not modelled here.
pub mod Chain
use eterrain_tf_upload.Base.{
  subst, sym, ◌*◌, ◌^◌, [], ℕ, ◌≡◌, ◌⊎◌, ◌∙◌, inl, inr, ap, arith, Bool, none, some, Option,
  Option-cases, List, take,
}
use eterrain_tf_upload.Text.{Bytes, codes}
use eterrain_tf_upload.Errors.{Error, Result-cases}
use eterrain_tf_upload.Maps.{Map}
use eterrain_tf_upload.Uuid.{UuidLib}
use eterrain_tf_upload.Float.{Float}
use eterrain_tf_upload.Io.{max_bytes_reader, read_all, limit_reader}
use eterrain_tf_upload.Http.{Request, Response, Handler, value}
use eterrain_tf_upload.Auth.FileStore.{Comparison, validate_credentials}
use eterrain_tf_upload.Auth.Middleware.{
  middleware, middleware_cases, Authenticates, authenticated, get_org_id_from_context,
  get_org_id-with_value,
}
use eterrain_tf_upload.RateLimit.{
  org_id_context_key, PerOrgRateLimiter, LimiterPlace, rate_limit_middleware,
}
use eterrain_tf_upload.RateLimit.Requests.{rate_limit_bypassed}
use eterrain_tf_upload.Validation.{validate_json_string}
use eterrain_tf_upload.Storage.{DataStorage}
use eterrain_tf_upload.Handlers.Value.{Value}
use eterrain_tf_upload.Handlers.Upload.{
  UploadLib, UploadJson, upload_data, get_org_data, store_upload, max_body,
}
use eterrain_tf_upload.Handlers.Upload.Process.{append_rows, rows_of}
use eterrain_tf_upload.Handlers.Upload.Outcome.{store_upload-Ends}
use eterrain_tf_upload.Handlers.Resource.{ResourceUpload}
use eterrain_tf_upload.Handlers.Health.{HealthResponse, check}
use eterrain_tf_upload.Server.{limit_body}

-- What main sets up for uploads.
pub record DataService (Uuid F S : Type 0) : Type 0 where
  pub store : S
  pub credentials : Map Uuid (List Bytes)
  pub limiter : PerOrgRateLimiter Uuid F
  pub clock : ℕ

-- /api/v1/upload and /api/v1/data
pub data UploadRoute : Type 0 where
  post_upload get_data : UploadRoute

-- The constant that the health handler is made with
abbrev pub version : Bytes
version = codes "1.0.0"

-- /health
unfoldable pub serve_health : {Uuid S : Type 0} → Handler Uuid S HealthResponse
unfolding limit_body check
serve_health = limit_body (check version)

module _ (f : Float) (ul : UploadLib) (lib : UuidLib) {Upload S : Type 0}
    (storage : DataStorage lib.Uuid (Map Bytes Value) Upload S) where
  open lib use {Uuid, uuid_eq, parse}

  abbrev pub DataState : Type 0
  DataState = DataService Uuid f.Float64 S

  -- The data storage of the service
  abbrev pub data_storage : DataStorage Uuid (Map Bytes Value) Upload DataState
  data_storage = record {
    append_data = λ u row s.
        let (t, failed) = storage.append_data u row s.store in (record s { store = t }, failed);
    get_org_data =
        λ u s. let (t, result) = storage.get_org_data u s.store in (record s { store = t }, result);
  }

  abbrev pub data_limiter : LimiterPlace DataState (PerOrgRateLimiter Uuid f.Float64)
  data_limiter = record {
    get = λ s. s.limiter;
    set = λ l s. record s { limiter = l };
    now = λ s. s.clock;
  }

  module _ (compare_hash : Bytes → Bytes → Comparison) where
    unfoldable pub upload_route : UploadRoute → Handler Uuid DataState (UploadJson Upload)
    upload_route post_upload = upload_data ul lib data_storage
    upload_route get_data = get_org_data ul lib data_storage

    abbrev pub upload_credentials : Uuid → Bytes → DataState → Bool × Option Error
    upload_credentials org_id api_key s =
        validate_credentials ⦃uuid_eq = uuid_eq⦄ compare_hash org_id api_key s.credentials

    unfoldable pub protected_upload : UploadRoute → Handler Uuid DataState (UploadJson Upload)
    protected_upload route =
        middleware lib upload_credentials
          (rate_limit_middleware f ⦃uuid_eq = uuid_eq⦄ data_limiter (upload_route route))

    unfoldable pub serve_upload : UploadRoute → Handler Uuid DataState (UploadJson Upload)
    unfolding limit_body protected_upload
    serve_upload route = limit_body (protected_upload route)

    -- What a route does to the store for an organization: some rows are appended, or its data is read.
    abbrev pub Touches : Uuid → DataState → DataState → Type 0
    Touches u s s' =
        ((rows : List (Map Bytes Value)) × (s' ≡ append_rows ul lib data_storage u rows s))
        ⊎ (s' ≡ (data_storage.get_org_data u s).0)

    upload_data-store_upload :
        (u : Uuid) (r : Request Uuid) (s : DataState)
        → get_org_id_from_context r.context ≡ some u
        → (upload_data ul lib data_storage r s).0 ≡ s
          ⊎ ((x : ResourceUpload) × (upload_data ul lib data_storage r s
                ≡ store_upload ul lib data_storage u x s))
    unfolding upload_data
    upload_data-store_upload u r s h =
        elim (Result-cases (read_all (limit_reader max_body r.body))) [
          | inr (e, c) ↦ inl (ground arith)
          | inl (bytes, c) ↦ elim (Option-cases (validate_json_string ul.valid bytes max_body)) [
            | inr (e, d) ↦ inl (ground arith)
            | inl d ↦ elim (Result-cases (ul.unmarshal_upload bytes)) [
              | inr (e, g) ↦ inl (ground arith)
              | inl (x, g) ↦ inr (x, ground arith)
            ]
          ]
        ]

    upload_route-Touches :
        (route : UploadRoute) (u : Uuid) (r : Request Uuid) (s : DataState)
        → get_org_id_from_context r.context ≡ some u
        → Touches u s (upload_route route r s).0
    unfolding upload_route get_org_data append_rows
    upload_route-Touches get_data u r s h =
        inr (elim (Result-cases (data_storage.get_org_data u s).1) [
          | inl (uploads, e) ↦ ground arith
          | inr (e, d) ↦ ground arith
        ])
    upload_route-Touches post_upload u r s h = elim (upload_data-store_upload u r s h) [
      | inl same ↦ inl ([], same)
      | inr (x, e) ↦
          let ends = store_upload-Ends ul lib data_storage u x s in
          inl (
            take ends.stored (rows_of x 0 x.instances),
            ap (λ (end : DataState × Response (UploadJson Upload)). end.0) e ∙ ends.state,
          )
    ]

    -- A request for uploads that brings no value under the limiter's key either leaves the service as it was,
    -- or it carries the credentials of an organization, and all that happens is that rows are appended
    -- to that organization's data or that its data is read.
    pub serve_upload-Touches :
        (route : UploadRoute) (r : Request Uuid) (s : DataState)
        → value r.context org_id_context_key ≡ none
        → ((serve_upload route r s).0 ≡ s)
          ⊎ ((u : Uuid) × Authenticates lib upload_credentials r s u
              × Touches u s (serve_upload route r s).0)
    unfolding serve_upload
    serve_upload-Touches route r s h =
        let r1 : Request Uuid = record r { body = max_bytes_reader (10 * 2 ^ 20) r.body } in
        let through =
          rate_limit_bypassed f lib data_limiter upload_credentials (upload_route route) r1 s h in
        elim (middleware_cases lib upload_credentials (upload_route route) r1 s) [
          | inr away ↦
              inl
                (ap (λ (end : DataState × Response (UploadJson Upload)). end.0) through ∙ away.1.0)
          | inl (u, a, e) ↦ inr (
            u,
            record {
              has_org_id = a.has_org_id;
              names_org = a.names_org;
              has_api_key = a.has_api_key;
              accepted = a.accepted;
            },
            subst (Touches u s)
                (sym (ap (λ (end : DataState × Response (UploadJson Upload)). end.0) (through ∙ e)))
                (upload_route-Touches route u (authenticated r1 u) s
                  (get_org_id-with_value r1.context u)),
          )
        ]
