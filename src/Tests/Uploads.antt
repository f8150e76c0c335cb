-- ===== src/Tests/Uploads.antt =====
-- An upload of two instances to a storage that takes every row, and to one that takes none.
use eterrain_tf_upload.Base.{◌≡◌, Bool, true, some, none, List, [], ◌∷◌, refl, arith}
use eterrain_tf_upload.Text.{Bytes, codes, equal, bytes_eq}
use eterrain_tf_upload.Errors.{ok, err, foreign}
use eterrain_tf_upload.Maps.{Map, lookup, Distinct}
use eterrain_tf_upload.Uuid.{two_uuids}
use eterrain_tf_upload.Storage.{DataStorage}
use eterrain_tf_upload.Validation.{word_byte, validate_attribute_key, validate_attribute_value}
use eterrain_tf_upload.Validation.Dynamic.{validate_json_depth, validate_json_complexity}
use eterrain_tf_upload.Handlers.Value.{Value, text, sprint}
use eterrain_tf_upload.Handlers.Resource.{
  ResourceUpload, InstanceUpload, dynamic_upload, row_of, base_row,
}
use eterrain_tf_upload.Handlers.Upload.{UploadLib, check_instance}
use eterrain_tf_upload.Handlers.Upload.Process.{AllChecked}
use eterrain_tf_upload.Handlers.Upload.Outcome.{IsAcceptable}
use eterrain_tf_upload.Handlers.Upload.Limits.{limits_accept_all}
use eterrain_tf_upload.Handlers.Upload.Rows.{or_else, lookup-row_of}

abbrev pub Rows : Type 0
Rows = List (Map Bytes Value)

-- Rows in memory, the last first.
abbrev pub rows : DataStorage Bool (Map Bytes Value) (Map Bytes Value) Rows
rows = record { append_data = λ u row s. (row ∷ s, none); get_org_data = λ u s. (s, ok s) }

abbrev pub full : DataStorage Bool (Map Bytes Value) (Map Bytes Value) Rows
full = record {
  append_data = λ u row s. (s, some (foreign (codes "disk full")));
  get_org_data = λ u s. (s, ok s);
}

abbrev pub upload_lib : UploadLib
upload_lib = record {
  valid = λ s. true;
  unmarshal_upload = λ s. err (foreign (codes "unexpected end of JSON input"));
  format_float = λ x. codes "1.5";
}

abbrev pub first : InstanceUpload
first = record {
  attributes = (codes "id", text (codes "i-1")) ∷ (codes "provider", text (codes "gcp")) ∷ [];
}

abbrev pub second : InstanceUpload
second = record { attributes = [] }

abbrev pub upload : ResourceUpload
upload = record {
  provider = codes "aws";
  category = codes "compute";
  resource_type = codes "aws_instance";
  name = [];
  instances = first ∷ second ∷ [];
}

first-Distinct : Distinct first.attributes
unfolding lookup equal
first-Distinct = (refl, (refl, tt))

pub upload-IsAcceptable : IsAcceptable upload_lib two_uuids rows upload
unfolding word_byte
upload-IsAcceptable = record {
  provider = record { at_least_one = omega arith; at_most_max = omega arith; in_class = refl };
  category = record { at_least_one = omega arith; at_most_max = omega arith; in_class = refl };
  resource_type = record { at_least_one = omega arith; at_most_max = omega arith; in_class = refl };
  some_instance = omega arith;
  few_instances = omega arith;
}

upload-AllChecked : AllChecked upload_lib two_uuids rows 0 upload.instances
unfolding AllChecked check_instance validate_attribute_key validate_attribute_value sprint
upload-AllChecked = (refl, (refl, tt))

limits_accept_all_example :
    (validate_json_depth (dynamic_upload upload) 10 ≡ none)
    × (validate_json_complexity (dynamic_upload upload) 1000 ≡ none)
limits_accept_all_example = limits_accept_all upload 10 1000 (omega arith)

lookup-row_of_example :
    (lookup (codes "id") (row_of upload 0 first)
      ≡ or_else
          (lookup (codes "id") first.attributes)
          (lookup (codes "id") (base_row upload 0 first.attributes)))
    × (lookup (codes "provider") (row_of upload 0 first)
        ≡ or_else (lookup (codes "provider") first.attributes) (some (text upload.provider)))
    × (lookup (codes "category") (row_of upload 0 first)
        ≡ or_else (lookup (codes "category") first.attributes) (some (text upload.category)))
    × (lookup (codes "resource_type") (row_of upload 0 first)
        ≡ or_else
            (lookup (codes "resource_type") first.attributes)
            (some (text upload.resource_type)))
lookup-row_of_example = lookup-row_of upload 0 first (codes "id") first-Distinct
