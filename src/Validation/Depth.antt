-- ===== src/Validation/Depth.antt =====
-- The depth check against the depth of a value.
use eterrain_tf_upload.Base.{ℕ, suc, ◌+◌, ◌≤◌, ◌≡◌, ◌↔◌, refl, max, none, arith}
use eterrain_tf_upload.Validation.Dynamic.{
  Dynamic, other, structure, mapping, slice, pointer, nil_pointer, Elements, nil, cons,
  validate_depth_recursive, validate_depth_elements, validate_json_depth,
}

-- How many maps and slices stand around the innermost value that the checks see.
unfoldable mutual
  pub depth : Dynamic → ℕ
  depth other = 0
  depth (structure es) = 0
  depth nil_pointer = 0
  depth (mapping es) = depth_elements es
  depth (slice es) = depth_elements es
  depth (pointer v) = depth v

  -- One more than the deepest element, and 0 if there is none.
  pub depth_elements : Elements → ℕ
  depth_elements nil = 0
  depth_elements (cons v es) = max (suc (depth v)) (depth_elements es)

-- What a check that starts at depth `c` accepts.
mutual
  unfolding depth validate_depth_recursive

  accepted : (v : Dynamic) (c m : ℕ) → c + depth v ≤ m → validate_depth_recursive v c m ≡ none
  accepted other c m h = ground arith
  accepted (structure es) c m h = ground arith
  accepted nil_pointer c m h = ground arith
  accepted (mapping es) c m h = ground (arith, accepted_elements es c m h)
  accepted (slice es) c m h = ground (arith, accepted_elements es c m h)
  accepted (pointer v) c m h = ground (arith, accepted v c m h)

  accepted_elements :
      (es : Elements) (c m : ℕ)
      → c + depth_elements es ≤ m
      → validate_depth_elements es (c + 1) m ≡ none
  accepted_elements nil c m h = refl
  accepted_elements (cons v es) c m h =
      ground (arith, accepted v (c + 1) m (omega arith), accepted_elements es c m (omega arith))

mutual
  unfolding depth validate_depth_recursive

  bounded : (v : Dynamic) (c m : ℕ) → validate_depth_recursive v c m ≡ none → c + depth v ≤ m
  bounded other c m h = ground arith
  bounded (structure es) c m h = ground arith
  bounded nil_pointer c m h = ground arith
  bounded (mapping es) c m h = ground (arith, bounded_elements es c m)
  bounded (slice es) c m h = ground (arith, bounded_elements es c m)
  bounded (pointer v) c m h = ground (arith, bounded v c m)

  bounded_elements :
      (es : Elements) (c m : ℕ)
      → c ≤ m
      → validate_depth_elements es (c + 1) m ≡ none
      → c + depth_elements es ≤ m
  bounded_elements nil c m le h = omega arith
  bounded_elements (cons v es) c m le h =
      ground (arith, bounded v (c + 1) m, bounded_elements es c m le)

-- ValidateJSONDepth accepts a value exactly when its maps and slices nest at most maxDepth deep.
pub validate_json_depth_iff :
    (v : Dynamic) (max_depth : ℕ) → (validate_json_depth v max_depth ≡ none) ↔ (depth v ≤ max_depth)
unfolding validate_json_depth
validate_json_depth_iff v m =
    (λ h. omega (arith, bounded v 0 m h), λ h. accepted v 0 m (omega arith))
