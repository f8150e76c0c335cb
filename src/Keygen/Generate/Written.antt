-- ===== src/Keygen/Generate/Written.antt =====
-- What the service reads in a file that generateAuthConfig has written.
use mathlib.Core.List.{reverse-append}
use eterrain_tf_upload.Base.{
  suc, ◌-◌, ◌≡◌, ◌∙◌, refl, ap, true, [], ◌∷◌, ◌++◌, arith, length, length-append, every, take,
  drop,
}
use eterrain_tf_upload.Text.{Bytes, codes, equal, has_prefix, has_suffix, trim_space}
use eterrain_tf_upload.Text.Visible.{visible, every-append, every-visible, trim_space-visible}
use eterrain_tf_upload.Uuid.{UuidLib, uuid_byte}
use eterrain_tf_upload.Auth.Config.{is_skipped, is_header, header_text}
use eterrain_tf_upload.Auth.FileStore.{is_bcrypt}
use eterrain_tf_upload.Auth.FileStore.Load.{header, key, line_of}
use eterrain_tf_upload.Keygen.Generate.Bcrypt.{IsHash, bcrypt_byte}
use eterrain_tf_upload.Io.Lines.{IsLine}

every-bcrypt_byte : (s : Bytes) → every bcrypt_byte s ≡ true → every visible s ≡ true
every-bcrypt_byte [] h = refl
every-bcrypt_byte (c ∷ s) h = ground (arith, every-bcrypt_byte s)

every-uuid_byte : (s : Bytes) → every uuid_byte s ≡ true → every visible s ≡ true
every-uuid_byte [] h = refl
every-uuid_byte (c ∷ s) h = ground (arith, every-uuid_byte s)

pub IsHash-IsLine : (h : Bytes) → IsHash h → IsLine h
IsHash-IsLine h i = record {
  is_printable = every-visible h (every-bcrypt_byte h i.in_class);
  is_short = omega (arith, i.is_60);
}

-- The lines of an organization's section.
abbrev pub header_line : Bytes → Bytes
header_line id = b'[' ∷ (id ++ b']' ∷ [])

take-length : (s t : Bytes) → take (length s) (s ++ t) ≡ s
take-length [] t = refl
take-length (c ∷ s) t = ap (◌∷◌ c) (take-length s t)

length-header_line : (s : Bytes) → length (header_line s) - 1 ≡ suc (length s)
length-header_line s = omega (arith, length-append s (b']' ∷ []))

inside : (s : Bytes) → drop 1 (take (length (header_line s) - 1) (header_line s)) ≡ s
inside s = rw (length-header_line s) (take-length s (b']' ∷ []))

module _ (lib : UuidLib) where
  open lib use {Uuid, parse, to_string, parse-to_string, length-to_string, every-to_string}

  to_string_visible : (u : Uuid) → every visible (to_string u) ≡ true
  to_string_visible u = every-uuid_byte (to_string u) (every-to_string u)

  header_line-visible : (u : Uuid) → every visible (header_line (to_string u)) ≡ true
  header_line-visible u =
      ground (arith, every-append visible (to_string u) (b']' ∷ []), to_string_visible u)

  pub header_line-IsLine : (u : Uuid) → IsLine (header_line (to_string u))
  header_line-IsLine u = record {
    is_printable = every-visible (header_line (to_string u)) (header_line-visible u);
    is_short = omega (arith, length-append (to_string u) (b']' ∷ []), length-to_string u);
  }

  header_text-header_line : (u : Uuid) → header_text (header_line (to_string u)) ≡ to_string u
  unfolding header_text
  header_text-header_line u =
      ap trim_space (inside (to_string u)) ∙ trim_space-visible (to_string u) (to_string_visible u)

  is_header-header_line : (u : Uuid) → is_header (header_line (to_string u)) ≡ true
  unfolding is_header has_prefix has_suffix
  is_header-header_line u =
      ap (λ t. has_prefix t (codes "]")) (reverse-append (b'[' ∷ to_string u) (codes "]"))

  pub line_of-header_line : (u : Uuid) → line_of lib (header_line (to_string u)) ≡ header u
  unfolding line_of is_skipped equal has_prefix
  line_of-header_line u = ground (
    arith,
    trim_space-visible (header_line (to_string u)) (header_line-visible u),
    is_header-header_line u,
    header_text-header_line u,
    parse-to_string u,
  )

  pub line_of-IsHash : (h : Bytes) → IsHash h → line_of lib h ≡ key h
  unfolding line_of is_skipped is_header equal has_prefix is_bcrypt
  line_of-IsHash [] i = absurd (omega (arith, i.is_60))
  line_of-IsHash (c ∷ h) i =
      ground (arith, trim_space-visible (c ∷ h) (every-bcrypt_byte (c ∷ h) i.in_class), i.is_marked)
