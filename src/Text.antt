-- ===== src/Text.antt =====
-- Go strings and byte slices as lists of bytes, and the functions of package strings and strconv
-- that the service calls.
pub mod Laws
pub mod Fuel
pub mod Visible
use Prim.Native.Char.{code}
use mathlib.Core.List.{reverse}
use eterrain_tf_upload.Base.{
  ℕ, zero, suc, ◌+◌, ◌/◌, ◌%◌, ◌≡◌, ◌↔◌, refl, String, Bool, true, false, ◌&&◌, ◌||◌, List, [], ◌∷◌,
  ◌++◌, arith, leb, ◌==◌, Eq, if◌then◌else◌, length, get_or, drop,
}

abbrev pub Bytes : Type 0
Bytes = List ℕ

-- The bytes of an ASCII literal.
abbrev pub codes : String → Bytes
codes String.[] = []
codes (String.◌∷◌ c s) = code c ∷ codes s

-- a == b on strings, and the verdict of subtle.ConstantTimeCompare
unfoldable pub equal : Bytes → Bytes → Bool
equal [] [] = true
equal [] (d ∷ t) = false
equal (c ∷ s) [] = false
equal (c ∷ s) (d ∷ t) = c == d && equal s t

pub equal_iff : (s t : Bytes) → (equal s t ≡ true) ↔ (s ≡ t)
unfolding equal
equal_iff [] t = ground arith
equal_iff (c ∷ s) [] = ground arith
equal_iff (c ∷ s) (d ∷ t) = ground (arith, equal_iff s t)

instance abbrev pub bytes_eq : Eq Bytes
bytes_eq = record { beq = equal; beq_iff = equal_iff }

-- strings.HasPrefix
unfoldable pub has_prefix : Bytes → Bytes → Bool
has_prefix s [] = true
has_prefix [] (p ∷ ps) = false
has_prefix (c ∷ s) (p ∷ ps) = c == p && has_prefix s ps

-- strings.HasSuffix
unfoldable pub has_suffix : Bytes → Bytes → Bool
unfolding has_prefix
has_suffix s p = has_prefix (reverse s) (reverse p)

-- strings.Contains
unfoldable pub contains : Bytes → Bytes → Bool
unfolding has_prefix
contains [] p = has_prefix [] p
contains (c ∷ s) p = has_prefix (c ∷ s) p || contains s p

abbrev pub within : ℕ → ℕ → ℕ → Bool
within lo hi c = leb lo c && leb c hi

-- The white space of unicode.IsSpace below 0x80
abbrev pub ascii_space : ℕ → Bool
ascii_space c = within 9 13 c || c == 32

-- U+1680, U+2000 to U+200A, U+2028, U+2029, U+202F, U+205F and U+3000 in UTF-8
abbrev pub wide_space : ℕ → ℕ → ℕ → Bool
wide_space a b c =
    (a == 0xE1 && b == 0x9A && c == 0x80)
    || (a == 0xE2 && b == 0x80 && (within 0x80 0x8A c || c == 0xA8 || c == 0xA9 || c == 0xAF))
    || (a == 0xE2 && b == 0x81 && c == 0x9F)
    || (a == 0xE3 && b == 0x80 && c == 0x80)

-- How many bytes the first character takes if it is white space, and else 0. The reversed text is
-- read with its bytes swapped back. U+0085 and U+00A0 take two bytes.
unfoldable pub space_width : Bytes → ℕ
space_width s =
    let a = get_or s 0 0 in
    let b = get_or s 1 0 in
    let c = get_or s 2 0 in
    if ascii_space a
    then 1
    else if a == 0xC2 && (b == 0x85 || b == 0xA0)
    then 2
    else if wide_space a b c
    then 3
    else 0

unfoldable pub last_space_width : Bytes → ℕ
last_space_width s =
    let a = get_or s 0 0 in
    let b = get_or s 1 0 in
    let c = get_or s 2 0 in
    if ascii_space a
    then 1
    else if b == 0xC2 && (a == 0x85 || a == 0xA0)
    then 2
    else if wide_space c b a
    then 3
    else 0

-- Drop characters while their width is not 0. Fuel: each round drops a byte at least.
unfoldable pub trim_by : (Bytes → ℕ) → ℕ → Bytes → Bytes
trim_by width zero s = s
trim_by width (suc fuel) s =
    let rest = trim_by width fuel (drop (width s) s) in if width s == 0 then s else rest

-- strings.TrimSpace
unfoldable pub trim_space : Bytes → Bytes
unfolding trim_by space_width last_space_width
trim_space s =
    let t = trim_by space_width (length s) s in
    reverse (trim_by last_space_width (length t) (reverse t))

-- %d of a number that is not negative. Fuel: n + 1 digits are enough for n.
unfoldable pub show_onto : ℕ → ℕ → Bytes → Bytes
show_onto zero n out = out
show_onto (suc fuel) n out =
    let digit = 48 + n % 10 in
    let rest = show_onto fuel (n / 10) (digit ∷ out) in if n / 10 == 0 then digit ∷ out else rest

unfoldable pub show : ℕ → Bytes
unfolding show_onto
show n = show_onto (n + 1) n []
