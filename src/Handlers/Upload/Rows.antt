-- ===== src/Handlers/Upload/Rows.antt =====
-- The rows that an upload stores.
use eterrain_tf_upload.Base.{◌∙◌, ℕ, ◌≡◌, refl, Option, none, some, [], ◌∷◌, arith}
use eterrain_tf_upload.Text.{Bytes, codes, equal, equal_iff, bytes_eq}
use eterrain_tf_upload.Maps.{Map, lookup, insert, lookup-insert, Distinct}
use eterrain_tf_upload.Handlers.Value.{Value, text}
use eterrain_tf_upload.Handlers.Resource.{
  ResourceUpload, InstanceUpload, add_attributes, base_row, row_of,
}

abbrev pub or_else : Option Value → Option Value → Option Value
or_else none b = b
or_else (some v) b = some v

lookup-add_attributes :
    (kvs row : Map Bytes Value) (k : Bytes)
    → Distinct kvs
    → lookup k (add_attributes kvs row) ≡ or_else (lookup k kvs) (lookup k row)
unfolding add_attributes lookup
lookup-add_attributes [] row k d = refl
lookup-add_attributes ((j, v) ∷ kvs) row k d = ground (
  arith,
  lookup-add_attributes kvs (insert j v row) k d.1,
  lookup-insert j k v row,
  equal_iff j k,
)

lookup-base_row :
    (u : ResourceUpload) (idx : ℕ) (kvs : Map Bytes Value)
    → (lookup (codes "provider") (base_row u idx kvs) ≡ some (text u.provider))
      × (lookup (codes "category") (base_row u idx kvs) ≡ some (text u.category))
      × (lookup (codes "resource_type") (base_row u idx kvs) ≡ some (text u.resource_type))
unfolding base_row lookup insert equal
lookup-base_row u idx kvs = (ground arith, ground arith, ground arith)

-- Of an instance whose attributes have distinct names: its row holds under each key the attribute of that name if the instance has one, and else what the
-- service writes; under `provider`, `category` and `resource_type` that is the upload's own field. So
-- an attribute of one of these names takes the place of the field that was validated.
pub lookup-row_of :
    (u : ResourceUpload) (idx : ℕ) (i : InstanceUpload) (k : Bytes)
    → Distinct i.attributes
    → (lookup k (row_of u idx i)
        ≡ or_else (lookup k i.attributes) (lookup k (base_row u idx i.attributes)))
      × (lookup (codes "provider") (row_of u idx i)
          ≡ or_else (lookup (codes "provider") i.attributes) (some (text u.provider)))
      × (lookup (codes "category") (row_of u idx i)
          ≡ or_else (lookup (codes "category") i.attributes) (some (text u.category)))
      × (lookup (codes "resource_type") (row_of u idx i)
          ≡ or_else (lookup (codes "resource_type") i.attributes) (some (text u.resource_type)))
unfolding row_of
lookup-row_of u idx i k d =
    let at = λ (j : Bytes). lookup-add_attributes i.attributes (base_row u idx i.attributes) j d in
    let base = lookup-base_row u idx i.attributes in
    (
      at k,
      at (codes "provider") ∙ rw base.0,
      at (codes "category") ∙ rw base.1,
      at (codes "resource_type") ∙ rw base.2,
    )
