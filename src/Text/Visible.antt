-- ===== src/Text/Visible.antt =====
-- Texts of printable ASCII: what TrimSpace leaves of them.
use mathlib.Core.List.{reverse, reverse-cons, reverse-reverse}
use eterrain_tf_upload.Base.{
  ℕ, zero, suc, ◌≡◌, ◌∙◌, refl, ap, Bool, true, ◌&&◌, [], ◌∷◌, ◌++◌, arith, every, length,
}
use eterrain_tf_upload.Text.{Bytes, within, space_width, last_space_width, trim_by, trim_space}

-- Printable ASCII, with and without the space.
abbrev pub printable : ℕ → Bool
printable c = within 32 126 c

abbrev pub visible : ℕ → Bool
visible c = within 33 126 c

pub every-append : (p : ℕ → Bool) (s t : Bytes) → every p (s ++ t) ≡ (every p s && every p t)
every-append p [] t = refl
every-append p (c ∷ s) t = ground (arith, every-append p s t)

pub every-reverse : (p : ℕ → Bool) (s : Bytes) → every p (reverse s) ≡ every p s
every-reverse p [] = refl
every-reverse p (c ∷ s) =
    ap (every p) (reverse-cons c s)
    ∙ ground (arith, every-append p (reverse s) (c ∷ []), every-reverse p s)

pub every-visible : (s : Bytes) → every visible s ≡ true → every printable s ≡ true
every-visible [] h = refl
every-visible (c ∷ s) h = ground (arith, every-visible s)

trim_by_fixed : (width : Bytes → ℕ) (fuel : ℕ) (s : Bytes) → width s ≡ 0 → trim_by width fuel s ≡ s
unfolding trim_by
trim_by_fixed width zero s h = refl
trim_by_fixed width (suc fuel) s h = ground arith

-- A text with no space at either end.
pub trim_space_fixed :
    (s : Bytes) → space_width s ≡ 0 → last_space_width (reverse s) ≡ 0 → trim_space s ≡ s
unfolding trim_space
trim_space_fixed s h k =
    rw
      (
        trim_by_fixed space_width (length s) s h,
        trim_by_fixed last_space_width (length s) (reverse s) k,
      )
      (reverse-reverse s)

space_width-visible : (s : Bytes) → every visible s ≡ true → space_width s ≡ 0
unfolding space_width
space_width-visible [] h = refl
space_width-visible (c ∷ s) h = ground arith

last_space_width-visible : (s : Bytes) → every visible s ≡ true → last_space_width s ≡ 0
unfolding last_space_width
last_space_width-visible [] h = refl
last_space_width-visible (c ∷ []) h = ground arith
last_space_width-visible (c ∷ b ∷ s) h = ground arith

pub trim_space-visible : (s : Bytes) → every visible s ≡ true → trim_space s ≡ s
trim_space-visible s h =
    trim_space_fixed s (space_width-visible s h)
      (last_space_width-visible (reverse s) (every-reverse visible s ∙ h))
