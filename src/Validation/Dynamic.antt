-- ===== src/Validation/Dynamic.antt =====
-- Go values as package reflect shows them to internal/validation/validation.go, and the two
-- recursive checks.
use eterrain_tf_upload.Base.{ℕ, ◌+◌, Option, none, some, [], ◌∷◌, ltb, if◌then◌else◌}
use eterrain_tf_upload.Errors.{Error, errorf, number}

-- `other` is every kind with nothing inside: numbers, texts, booleans, a nil interface. Neither
-- check has a case for reflect.Struct, so a structure falls to the end of each switch.
mutual
  pub data Dynamic : Type 0 where
    other : Dynamic
    structure : Elements → Dynamic
    mapping : Elements → Dynamic
    slice : Elements → Dynamic
    pointer : Dynamic → Dynamic
    nil_pointer : Dynamic

  pub data Elements : Type 0 where
    nil : Elements
    cons : Dynamic → Elements → Elements

-- An early `return err` leaves the other elements unvisited.
unfoldable mutual
  pub validate_depth_recursive : Dynamic → ℕ → ℕ → Option Error
  validate_depth_recursive other current_depth max_depth =
      if ltb max_depth current_depth
      then some (errorf "JSON exceeds maximum nesting depth of %d" (number max_depth ∷ []))
      else none
  validate_depth_recursive (structure es) current_depth max_depth =
      if ltb max_depth current_depth
      then some (errorf "JSON exceeds maximum nesting depth of %d" (number max_depth ∷ []))
      else none
  validate_depth_recursive nil_pointer current_depth max_depth =
      if ltb max_depth current_depth
      then some (errorf "JSON exceeds maximum nesting depth of %d" (number max_depth ∷ []))
      else none
  validate_depth_recursive (mapping es) current_depth max_depth =
      if ltb max_depth current_depth
      then some (errorf "JSON exceeds maximum nesting depth of %d" (number max_depth ∷ []))
      else validate_depth_elements es (current_depth + 1) max_depth
  validate_depth_recursive (slice es) current_depth max_depth =
      if ltb max_depth current_depth
      then some (errorf "JSON exceeds maximum nesting depth of %d" (number max_depth ∷ []))
      else validate_depth_elements es (current_depth + 1) max_depth
  validate_depth_recursive (pointer v) current_depth max_depth =
      if ltb max_depth current_depth
      then some (errorf "JSON exceeds maximum nesting depth of %d" (number max_depth ∷ []))
      else validate_depth_recursive v current_depth max_depth

  pub validate_depth_elements : Elements → ℕ → ℕ → Option Error
  validate_depth_elements nil depth max_depth = none
  validate_depth_elements (cons v es) depth max_depth =
      let rest = validate_depth_elements es depth max_depth in
      elim (validate_depth_recursive v depth max_depth) [ some err ↦ some err | none ↦ rest ]

unfoldable pub validate_json_depth : Dynamic → ℕ → Option Error
unfolding validate_depth_recursive
validate_json_depth data_value max_depth = validate_depth_recursive data_value 0 max_depth

-- The counter is passed on: the result is its last value and the error.
unfoldable mutual
  pub count_elements_recursive : Dynamic → ℕ → ℕ → ℕ × Option Error
  count_elements_recursive other count max_elements =
      if ltb max_elements (count + 1)
      then (count + 1, some (errorf "JSON complexity limit exceeded" []))
      else (count + 1, none)
  count_elements_recursive (structure es) count max_elements =
      if ltb max_elements (count + 1)
      then (count + 1, some (errorf "JSON complexity limit exceeded" []))
      else (count + 1, none)
  count_elements_recursive nil_pointer count max_elements =
      if ltb max_elements (count + 1)
      then (count + 1, some (errorf "JSON complexity limit exceeded" []))
      else (count + 1, none)
  count_elements_recursive (mapping es) count max_elements =
      if ltb max_elements (count + 1)
      then (count + 1, some (errorf "JSON complexity limit exceeded" []))
      else count_elements es (count + 1) max_elements
  count_elements_recursive (slice es) count max_elements =
      if ltb max_elements (count + 1)
      then (count + 1, some (errorf "JSON complexity limit exceeded" []))
      else count_elements es (count + 1) max_elements
  count_elements_recursive (pointer v) count max_elements =
      if ltb max_elements (count + 1)
      then (count + 1, some (errorf "JSON complexity limit exceeded" []))
      else count_elements_recursive v (count + 1) max_elements

  pub count_elements : Elements → ℕ → ℕ → ℕ × Option Error
  count_elements nil count max_elements = (count, none)
  count_elements (cons v es) count max_elements =
      let (c, failed) = count_elements_recursive v count max_elements in
      elim failed [ some err ↦ (c, some err) | none ↦ count_elements es c max_elements ]

unfoldable pub validate_json_complexity : Dynamic → ℕ → Option Error
unfolding count_elements_recursive
validate_json_complexity data_value max_elements =
    let (count, failed) = count_elements_recursive data_value 0 max_elements in
    elim failed [
      | some err ↦ some err
      | none ↦
          if ltb max_elements count
          then some (
              errorf "JSON has too many elements: %d (max: %d)"
                (number count ∷ number max_elements ∷ []))
          else none
    ]
