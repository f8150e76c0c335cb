-- ===== src/Validation/Complexity.antt =====
-- The complexity check against the number of values.
use eterrain_tf_upload.Base.{ℕ, suc, ◌+◌, ◌≤◌, ◌<◌, ◌≡◌, ◌↔◌, Option, none, some, arith}
use eterrain_tf_upload.Errors.{Error}
use eterrain_tf_upload.Validation.Dynamic.{
  Dynamic, other, structure, mapping, slice, pointer, nil_pointer, Elements, nil, cons,
  count_elements_recursive, count_elements, validate_json_complexity,
}

-- How many values the checks see in a value, itself included.
unfoldable mutual
  pub size : Dynamic → ℕ
  size other = 1
  size (structure es) = 1
  size nil_pointer = 1
  size (mapping es) = suc (size_elements es)
  size (slice es) = suc (size_elements es)
  size (pointer v) = suc (size v)

  pub size_elements : Elements → ℕ
  size_elements nil = 0
  size_elements (cons v es) = size v + size_elements es

-- From a counter within the limit: the whole size is counted, or the check stops at the first
-- value past the limit.
abbrev pub Counts : ℕ → ℕ → ℕ → ℕ × Option Error → Type 0
Counts c n m (k, none) = (k ≡ c + n) × (c + n ≤ m)
Counts c n m (k, some e) = (k ≡ suc m) × (m < c + n)

mutual
  unfolding size count_elements_recursive

  counted : (v : Dynamic) (c m : ℕ) → c ≤ m → Counts c (size v) m (count_elements_recursive v c m)
  counted other c m h = ground arith
  counted (structure es) c m h = ground arith
  counted nil_pointer c m h = ground arith
  counted (mapping es) c m h = ground (arith, counted_elements es (c + 1) m)
  counted (slice es) c m h = ground (arith, counted_elements es (c + 1) m)
  counted (pointer v) c m h = ground (arith, counted v (c + 1) m)

  counted_elements :
      (es : Elements) (c m : ℕ) → c ≤ m → Counts c (size_elements es) m (count_elements es c m)
  counted_elements nil c m h = ground arith
  counted_elements (cons v es) c m h =
      ground (arith, counted v c m h, counted_elements es (count_elements_recursive v c m).0 m)

-- ValidateJSONComplexity accepts a value exactly when it has at most maxElements values.
pub validate_json_complexity_iff :
    (v : Dynamic) (max_elements : ℕ)
    → (validate_json_complexity v max_elements ≡ none) ↔ (size v ≤ max_elements)
unfolding validate_json_complexity
validate_json_complexity_iff v m =
    (λ h. ground (arith, counted v 0 m), λ h. ground (arith, counted v 0 m))

-- The counter never passes maxElements + 1: a value that is too large is not walked to its end.
pub count_elements_recursive-le :
    (v : Dynamic) (max_elements : ℕ)
    → (count_elements_recursive v 0 max_elements).0 ≤ max_elements + 1
count_elements_recursive-le v m = ground (arith, counted v 0 m)
