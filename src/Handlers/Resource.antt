-- ===== src/Handlers/Resource.antt =====
-- The resources of internal/handlers/upload.go: what an upload decodes to, how package reflect shows it, and
-- the row that UploadData makes of an instance. A Go map is ranged over in the order of its list.
use eterrain_tf_upload.Base.{ℕ, not, Option, none, some, List, [], ◌∷◌, ◌++◌, if◌then◌else◌}
use eterrain_tf_upload.Text.{Bytes, codes, show, bytes_eq}
use eterrain_tf_upload.Maps.{Map, lookup, insert}
use eterrain_tf_upload.Validation.{is_empty}
use eterrain_tf_upload.Validation.Dynamic.{
  Dynamic, other, structure, mapping, slice, Elements, nil, cons,
}
use eterrain_tf_upload.Handlers.Value.{Value, text, dynamic}

pub record InstanceUpload : Type 0 where
  pub attributes : Map Bytes Value

pub record ResourceUpload : Type 0 where
  pub provider : Bytes
  pub category : Bytes
  pub resource_type : Bytes
  pub name : Bytes
  pub instances : List InstanceUpload

-- A ResourceUpload as package reflect shows it: the kind of its value is Struct.
unfoldable pub dynamic_attributes : Map Bytes Value → Elements
unfolding dynamic
dynamic_attributes [] = nil
dynamic_attributes ((k, v) ∷ kvs) = cons (dynamic v) (dynamic_attributes kvs)

unfoldable pub dynamic_instances : List InstanceUpload → Elements
unfolding dynamic_attributes
dynamic_instances [] = nil
dynamic_instances (i ∷ is) =
    cons (structure (cons (mapping (dynamic_attributes i.attributes)) nil)) (dynamic_instances is)

unfoldable pub dynamic_upload : ResourceUpload → Dynamic
unfolding dynamic_instances
dynamic_upload u = structure (
    cons other
      (cons other (cons other (cons other (cons (slice (dynamic_instances u.instances)) nil)))))

-- The (string) assertion on an attribute, where "" also counts as absent
unfoldable pub text_attribute : Bytes → Map Bytes Value → Option Bytes
text_attribute key attributes = elim (lookup key attributes) [
  | none ↦ none
  | some v ↦ elim v [ text s ↦ (if is_empty s then none else some s) | _ ↦ none ]
]

-- "%s-%d"
unfoldable pub resource_name : ResourceUpload → ℕ → Map Bytes Value → Bytes
unfolding text_attribute show
resource_name upload idx attributes = elim (text_attribute (codes "name") attributes) [
  | some name ↦ name
  | none ↦ elim (text_attribute (codes "id") attributes) [
    | some id ↦ id
    | none ↦ upload.resource_type ++ (b'-' ∷ show idx)
  ]
]

-- for k, v := range instance.Attributes { data[k] = v }
unfoldable pub add_attributes : Map Bytes Value → Map Bytes Value → Map Bytes Value
add_attributes [] row = row
add_attributes ((k, v) ∷ kvs) row = add_attributes kvs (insert k v row)

-- The fields that the service itself writes to a row
unfoldable pub base_row : ResourceUpload → ℕ → Map Bytes Value → Map Bytes Value
unfolding is_empty resource_name
base_row upload idx attributes =
    let fields = insert (codes "resource_type") (text upload.resource_type) (
      insert (codes "category") (text upload.category)
        (insert (codes "provider") (text upload.provider) [])) in
    let named =
      if not (is_empty upload.name)
      then insert (codes "report_name") (text upload.name) fields
      else fields in
    insert (codes "resource_name") (text (resource_name upload idx attributes)) named

unfoldable pub row_of : ResourceUpload → ℕ → InstanceUpload → Map Bytes Value
unfolding add_attributes base_row
row_of upload idx instance_upload =
    add_attributes instance_upload.attributes (base_row upload idx instance_upload.attributes)
