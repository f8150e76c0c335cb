-- ===== src/Handlers/Upload.antt =====
-- internal/handlers/upload.go. The log lines are not modelled; encoding/json and the printing of a
-- float64 are parameters. A Go map is ranged over in the order of its list, so what is proved holds
-- for every order.
pub mod Limits
pub mod Rows
pub mod Process
pub mod Outcome
use eterrain_tf_upload.Base.{
  ℕ, suc, ◌+◌, ◌*◌, ◌^◌, Bool, true, false, not, Option, none, some, List, [], ◌∷◌, ◌++◌,
  if◌then◌else◌, ltb, ◌==◌, length, String,
}
use eterrain_tf_upload.Text.{Bytes, codes, show, bytes_eq}
use eterrain_tf_upload.Errors.{Error, Arg, bytes, number, Result, ok, err}
use eterrain_tf_upload.Maps.{Map, lookup, insert}
use eterrain_tf_upload.Uuid.{UuidLib}
use eterrain_tf_upload.Io.{read_all, limit_reader}
use eterrain_tf_upload.Http.{Request, Response, Handler, http_error, http_error_with, json_response}
use eterrain_tf_upload.Auth.Middleware.{get_org_id_from_context}
use eterrain_tf_upload.Validation.{
  is_empty, validate_json_string, validate_provider, validate_category, validate_resource_type,
  validate_attribute_key, validate_attribute_value,
}
use eterrain_tf_upload.Validation.Dynamic.{
  Dynamic, other, structure, mapping, slice, Elements, nil, cons, validate_json_depth,
  validate_json_complexity,
}
use eterrain_tf_upload.Storage.{DataStorage}
use eterrain_tf_upload.Handlers.Resource.{
  InstanceUpload, ResourceUpload, dynamic_attributes, dynamic_instances, dynamic_upload,
  text_attribute, resource_name, add_attributes, base_row, row_of,
}
use eterrain_tf_upload.Handlers.Value.{Value, text, sprint, dynamic}

-- What the handler encodes: the answer to an upload, or the uploads of an organization.
pub data UploadJson (Upload : Type 0) : Type 0 where
  uploaded :
      (status message org_id : Bytes) (instances_count : ℕ) (report_name : Option Bytes)
      → UploadJson Upload
  org_data : (org_id : Bytes) (count : ℕ) (uploads : List Upload) → UploadJson Upload

-- What the handlers take from encoding/json and from fmt.
pub record UploadLib : Type 0 where
  pub valid : Bytes → Bool
  pub unmarshal_upload : Bytes → Result ResourceUpload
  pub format_float : ℕ → Bytes

-- 10<<20
abbrev pub max_body : ℕ
max_body = 10 * 2 ^ 20

module _ (ul : UploadLib) (lib : UuidLib) {Upload S : Type 0}
    (storage : DataStorage lib.Uuid (Map Bytes Value) Upload S) where
  open lib use {Uuid, to_string}

  -- The answer to a faulty attribute, if there is one
  unfoldable pub check_attributes : ℕ → Map Bytes Value → Option (Response (UploadJson Upload))
  check_attributes idx [] = none
  check_attributes idx ((k, v) ∷ kvs) =
      let rest = check_attributes idx kvs in
      elim (validate_attribute_key k) [
        | some e ↦ some (
            http_error_with [] 400 "Invalid attribute key '%s' in instance %d: "
              (bytes k ∷ number idx ∷ []) (some e))
        | none ↦ elim (validate_attribute_value (sprint ul.format_float v)) [
          | some e ↦ some (
              http_error_with [] 400 "Invalid attribute value for '%s' in instance %d: "
                (bytes k ∷ number idx ∷ []) (some e))
          | none ↦ rest
        ]
      ]

  unfoldable pub check_instance : ℕ → InstanceUpload → Option (Response (UploadJson Upload))
  unfolding check_attributes
  check_instance idx instance_upload =
      if ltb 100 (length instance_upload.attributes)
      then some (
          http_error_with [] 400
            "Instance %d has too many attributes: maximum 100 attributes per instance"
            (number idx ∷ []) none)
      else check_attributes idx instance_upload.attributes

  -- The loop over the instances: an early return leaves what was appended before.
  unfoldable pub process_instances :
      Uuid
      → ResourceUpload
      → ℕ
      → List InstanceUpload
      → S
      → S × Option (Response (UploadJson Upload))
  process_instances org_id upload idx [] s = (s, none)
  process_instances org_id upload idx (instance_upload ∷ rest) s =
      elim (check_instance idx instance_upload) [
        | some failed ↦ (s, some failed)
        | none ↦
            let (s', failed) = storage.append_data org_id (row_of upload idx instance_upload) s in
            elim failed [
              | some e ↦ (s', some (http_error_with [] 500 "Failed to store data: " [] (some e)))
              | none ↦ process_instances org_id upload (idx + 1) rest s'
            ]
      ]

  -- The checks between decoding and the loop
  unfoldable pub check_upload : ResourceUpload → Option (Response (UploadJson Upload))
  unfolding dynamic_upload
  check_upload upload = elim (validate_json_depth (dynamic_upload upload) 10) [
    | some e ↦ some (http_error 400 "JSON structure too deeply nested")
    | none ↦ elim (validate_json_complexity (dynamic_upload upload) 1000) [
      | some e ↦ some (http_error 400 "JSON structure too complex")
      | none ↦ elim (validate_provider upload.provider) [
        | some e ↦ some (http_error_with [] 400 "Invalid provider: " [] (some e))
        | none ↦ elim (validate_category upload.category) [
          | some e ↦ some (http_error_with [] 400 "Invalid category: " [] (some e))
          | none ↦ elim (validate_resource_type upload.resource_type) [
            | some e ↦ some (http_error_with [] 400 "Invalid resource_type: " [] (some e))
            | none ↦
                if length upload.instances == 0
                then some
                    (http_error 400 "At least one instance is required in the instances array")
                else if ltb 100 (length upload.instances)
                then some (http_error 400 "Too many instances: maximum 100 instances per request")
                else none
          ]
        ]
      ]
    ]
  ]

  unfoldable pub success_json : Uuid → ResourceUpload → UploadJson Upload
  unfolding is_empty show
  success_json org_id upload =
      uploaded (codes "success")
        (codes "Successfully uploaded " ++ (show (length upload.instances) ++ codes " instance(s)"))
        (to_string org_id) (length upload.instances)
        (if not (is_empty upload.name) then some upload.name else none)

  -- What is left of UploadData once the body is decoded
  unfoldable pub store_upload : Uuid → ResourceUpload → S → S × Response (UploadJson Upload)
  store_upload org_id upload s = elim (check_upload upload) [
    | some rejected ↦ (s, rejected)
    | none ↦
        let (s', failed) = process_instances org_id upload 0 upload.instances s in
        elim failed [
          | some response ↦ (s', response)
          | none ↦ (s', json_response 200 (success_json org_id upload))
        ]
  ]

  unfoldable pub upload_data : Handler Uuid S (UploadJson Upload)
  upload_data r s = elim (get_org_id_from_context r.context) [
    | none ↦ (s, http_error 401 "Unauthorized")
    | some org_id ↦ elim (read_all (limit_reader max_body r.body)) [
      | err e ↦ (s, http_error 400 "Failed to read request body")
      | ok body_bytes ↦ elim (validate_json_string ul.valid body_bytes max_body) [
        | some e ↦ (s, http_error 400 "Invalid JSON data")
        | none ↦ elim (ul.unmarshal_upload body_bytes) [
          | err e ↦ (s, http_error 400 "Failed to decode request body")
          | ok upload ↦ store_upload org_id upload s
        ]
      ]
    ]
  ]

  unfoldable pub get_org_data : Handler Uuid S (UploadJson Upload)
  get_org_data r s = elim (get_org_id_from_context r.context) [
    | none ↦ (s, http_error 401 "Unauthorized")
    | some org_id ↦
        let (s', result) = storage.get_org_data org_id s in
        elim result [
          | err e ↦ (s', http_error 500 "Failed to retrieve data")
          | ok uploads ↦
              (s', json_response 200 (org_data (to_string org_id) (length uploads) uploads))
        ]
  ]
