-- ===== src/Validation/Names.antt =====
-- What the validators of names and fields accept.
use eterrain_tf_upload.Base.{
  ℕ, ◌≤◌, ◌≡◌, ◌≢◌, ◌↔◌, refl, Bool, true, false, none, [], ◌∷◌, ◌++◌, arith, length, every,
  Bool-cases, inl, inr,
}
use eterrain_tf_upload.Text.{Bytes, codes, contains}
use eterrain_tf_upload.Text.Laws.{contains-append, contains-split, contains-every}
use eterrain_tf_upload.Validation.{
  word_byte, name_byte, validate_state_name, validate_attribute_key, validate_provider,
  validate_category, validate_resource_type,
}

-- A text of 1 to `max` bytes of a class.
pub record IsName (class : ℕ → Bool) (max : ℕ) (s : Bytes) : Type 0 where
  pub at_least_one : 1 ≤ length s
  pub at_most_max : length s ≤ max
  pub in_class : every class s ≡ true

-- No two dots in a row.
abbrev pub NoDotDot : Bytes → Type 0
NoDotDot s = (a b : Bytes) → s ≢ a ++ (codes ".." ++ b)

no_dot_dot : (s : Bytes) → contains s (codes "..") ≡ false → NoDotDot s
no_dot_dot s h a b e = cc (contains-append a (codes "..") b, e, h)

contains-NoDotDot : (s : Bytes) → NoDotDot s → contains s (codes "..") ≡ false
contains-NoDotDot s h = elim (Bool-cases (contains s (codes ".."))) [
  | inl found ↦ let (a, b, e) = contains-split s (codes "..") found in absurd (h a b e)
  | inr e ↦ e
]

slash_free : (s : Bytes) → every name_byte s ≡ true → contains s (codes "/") ≡ false
unfolding name_byte
slash_free s = contains-every name_byte s b'/' refl

backslash_free : (s : Bytes) → every name_byte s ≡ true → contains s (codes "\\") ≡ false
unfolding name_byte
backslash_free s = contains-every name_byte s b'\\' refl

validate_state_name-IsName :
    (s : Bytes) → validate_state_name s ≡ none → IsName name_byte 255 s × NoDotDot s
unfolding validate_state_name
validate_state_name-IsName [] h = cc
validate_state_name-IsName (c ∷ s) h = (
  record { at_least_one = omega arith; at_most_max = ground arith; in_class = ground arith },
  no_dot_dot (c ∷ s) (ground arith),
)

state_name_valid : (s : Bytes) → IsName name_byte 255 s → NoDotDot s → validate_state_name s ≡ none
unfolding validate_state_name
state_name_valid [] n d = absurd (omega arith)
state_name_valid (c ∷ s) n d =
    rw
      (
        contains-NoDotDot (c ∷ s) d,
        slash_free (c ∷ s) n.in_class,
        backslash_free (c ∷ s) n.in_class,
      )
      (ground arith)

-- ValidateStateName accepts exactly the texts of 1 to 255 bytes among letters, digits, `_`, `-` and
-- `.` with no two dots in a row.
pub validate_state_name_iff :
    (s : Bytes) → (validate_state_name s ≡ none) ↔ (IsName name_byte 255 s × NoDotDot s)
validate_state_name_iff s = (validate_state_name-IsName s, λ h. state_name_valid s h.0 h.1)

-- ValidateProvider, ValidateCategory, ValidateResourceType and ValidateAttributeKey accept exactly
-- the texts of at least one byte, of at most 100, 100, 200 and 100 bytes, and of letters, digits, `_`
-- and `-`, the last also of `.`.
pub validate_fields_iff :
    (s : Bytes)
    → ((validate_provider s ≡ none) ↔ IsName word_byte 100 s)
      × ((validate_category s ≡ none) ↔ IsName word_byte 100 s)
      × ((validate_resource_type s ≡ none) ↔ IsName word_byte 200 s)
      × ((validate_attribute_key s ≡ none) ↔ IsName name_byte 100 s)
unfolding validate_provider validate_category validate_resource_type validate_attribute_key
validate_fields_iff [] = (
  (λ h. cc, λ n. absurd (omega arith)),
  (λ h. cc, λ n. absurd (omega arith)),
  (λ h. cc, λ n. absurd (omega arith)),
  (λ h. cc, λ n. absurd (omega arith)),
)
validate_fields_iff (c ∷ s) = (
  (λ h. ground arith, λ n. ground arith),
  (λ h. ground arith, λ n. ground arith),
  (λ h. ground arith, λ n. ground arith),
  (λ h. ground arith, λ n. ground arith),
)
