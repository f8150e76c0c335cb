-- ===== src/Validation.antt =====
-- internal/validation/validation.go. A regular expression `^[class]+$` matches a text exactly when
-- it is not empty and each byte is in the class: the classes are ASCII, and Go reads a byte that is
-- no ASCII as part of another character. The limits on depth and size are in the child modules.
pub mod Dynamic
pub mod Names
pub mod Depth
pub mod Complexity
use eterrain_tf_upload.Base.{
  ℕ, Bool, true, false, not, ◌&&◌, ◌||◌, Option, none, some, List, [], ◌∷◌, leb, ltb, ◌==◌,
  if◌then◌else◌, length, every,
}
use eterrain_tf_upload.Text.{Bytes, codes, equal, contains, within}
use eterrain_tf_upload.Errors.{Error, errorf, number}

-- [a-zA-Z0-9_-]
unfoldable pub word_byte : ℕ → Bool
word_byte c =
    within b'a' b'z' c || within b'A' b'Z' c || within b'0' b'9' c || c == b'_' || c == b'-'

-- stateNameRegex, attributeKeyRegex: [a-zA-Z0-9_.-]
unfoldable pub name_byte : ℕ → Bool
unfolding word_byte
name_byte c = word_byte c || c == b'.'

-- MatchString of ^[class]+$
unfoldable pub matches : (ℕ → Bool) → Bytes → Bool
matches class [] = false
matches class (c ∷ s) = every class (c ∷ s)

unfoldable pub is_empty : Bytes → Bool
is_empty [] = true
is_empty (c ∷ s) = false

unfoldable pub validate_state_name : Bytes → Option Error
unfolding is_empty contains matches name_byte
validate_state_name name =
    if is_empty name
    then some (errorf "state name is required" [])
    else if contains name (codes "..") || contains name (codes "/") || contains name (codes "\\")
    then some (errorf "invalid state name: path traversal detected" [])
    else if not (matches name_byte name)
    then some (
        errorf
          "invalid state name: only alphanumeric characters, hyphens, underscores, and dots allowed"
          [])
    else if ltb 255 (length name)
    then some (errorf "state name too long: maximum 255 characters" [])
    else none

unfoldable pub validate_attribute_key : Bytes → Option Error
unfolding is_empty matches name_byte
validate_attribute_key key =
    if is_empty key
    then some (errorf "attribute key cannot be empty" [])
    else if ltb 100 (length key)
    then some (errorf "attribute key too long: maximum 100 characters" [])
    else if not (matches name_byte key)
    then some (
        errorf
          "invalid attribute key: only alphanumeric characters, hyphens, underscores, and dots allowed"
          [])
    else none

-- The argument is what fmt.Sprintf("%v", val) prints.
unfoldable pub validate_attribute_value : Bytes → Option Error
validate_attribute_value str =
    if ltb 10000 (length str)
    then some (errorf "attribute value too long: maximum 10000 characters" [])
    else none

unfoldable pub validate_resource_type : Bytes → Option Error
unfolding is_empty matches word_byte
validate_resource_type resource_type =
    if is_empty resource_type
    then some (errorf "resource_type is required" [])
    else if ltb 200 (length resource_type)
    then some (errorf "resource_type too long: maximum 200 characters" [])
    else if not (matches word_byte resource_type)
    then some (
        errorf
          "invalid resource_type: only alphanumeric characters, hyphens, and underscores allowed"
          [])
    else none

unfoldable pub validate_provider : Bytes → Option Error
unfolding is_empty matches word_byte
validate_provider provider =
    if is_empty provider
    then some (errorf "provider is required" [])
    else if ltb 100 (length provider)
    then some (errorf "provider too long: maximum 100 characters" [])
    else if not (matches word_byte provider)
    then some (
        errorf "invalid provider: only alphanumeric characters, hyphens, and underscores allowed"
          [])
    else none

unfoldable pub validate_category : Bytes → Option Error
unfolding is_empty matches word_byte
validate_category category =
    if is_empty category
    then some (errorf "category is required" [])
    else if ltb 100 (length category)
    then some (errorf "category too long: maximum 100 characters" [])
    else if not (matches word_byte category)
    then some (
        errorf "invalid category: only alphanumeric characters, hyphens, and underscores allowed"
          [])
    else none

-- json.Valid is a parameter: encoding/json is not modelled.
module _ (json_valid : Bytes → Bool) where
  unfoldable pub validate_json_string : Bytes → ℕ → Option Error
  validate_json_string json_data max_size =
      if ltb max_size (length json_data)
      then some (
          errorf "JSON data too large: %d bytes (max: %d)"
            (number (length json_data) ∷ number max_size ∷ []))
      else if not (json_valid json_data)
      then some (errorf "invalid JSON format" [])
      else none
