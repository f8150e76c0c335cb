-- ===== src/Handlers/Upload/Limits.antt =====
-- The limits on the depth and size of an upload.
use eterrain_tf_upload.Base.{refl, ℕ, ◌≤◌, ◌≡◌, none, arith}
use eterrain_tf_upload.Validation.Dynamic.{validate_json_depth, validate_json_complexity}
use eterrain_tf_upload.Validation.Depth.{depth, validate_json_depth_iff}
use eterrain_tf_upload.Validation.Complexity.{size, validate_json_complexity_iff}
use eterrain_tf_upload.Handlers.Resource.{ResourceUpload, dynamic_upload}

depth-dynamic_upload : (u : ResourceUpload) → depth (dynamic_upload u) ≡ 0
unfolding depth dynamic_upload
depth-dynamic_upload u = refl

size-dynamic_upload : (u : ResourceUpload) → size (dynamic_upload u) ≡ 1
unfolding size dynamic_upload
size-dynamic_upload u = refl

-- The two checks accept every upload, however deep its attributes nest and however many values they
-- hold, at every limit of the depth and at every limit of at least one element: UploadData hands
-- them a struct, and they look into maps and slices only.
pub limits_accept_all :
    (u : ResourceUpload) (max_depth max_elements : ℕ)
    → 1 ≤ max_elements
    → (validate_json_depth (dynamic_upload u) max_depth ≡ none)
      × (validate_json_complexity (dynamic_upload u) max_elements ≡ none)
limits_accept_all u d n h = (
  (validate_json_depth_iff (dynamic_upload u) d).1 (omega (arith, depth-dynamic_upload u)),
  (validate_json_complexity_iff (dynamic_upload u) n).1 (omega (arith, size-dynamic_upload u)),
)
