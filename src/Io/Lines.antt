-- ===== src/Io/Lines.antt =====
-- The scanner reads back the lines of a printed text.
use mathlib.Core.List.{reverse, reverse_aux, reverse-reverse, append_assoc}
use eterrain_tf_upload.Base.{
  sym, ap, ℕ, ◌+◌, ◌<◌, ◌≡◌, ◌∙◌, refl, true, none, some, List, [], ◌∷◌, ◌++◌, arith, every, All,
  length, ◌==◌, if◌then◌else◌,
}
use eterrain_tf_upload.Text.{Bytes}
use eterrain_tf_upload.Text.Visible.{printable, every-reverse}
use eterrain_tf_upload.Errors.{errorf}
use eterrain_tf_upload.Io.{line_of, max_line, scan_onto, scan_lines}

-- Each line with its end.
unfoldable pub unlines : List Bytes → Bytes
unlines [] = []
unlines (line ∷ lines) = line ++ (b'\n' ∷ unlines lines)

pub unlines-append : (ls ms : List Bytes) → unlines (ls ++ ms) ≡ unlines ls ++ unlines ms
unfolding unlines
unlines-append [] ms = refl
unlines-append (l ∷ ls) ms =
    ap (λ t. l ++ (b'\n' ∷ t)) (unlines-append ls ms)
    ∙ sym (append_assoc l (b'\n' ∷ unlines ls) (unlines ms))

-- A line of printable ASCII that the scanner's buffer holds.
pub record IsLine (line : Bytes) : Type 0 where
  pub is_printable : every printable line ≡ true
  pub is_short : length line < max_line

scan_onto-cons :
    (line : Bytes) (n c : ℕ) (s : Bytes)
    → scan_onto line n (c ∷ s) ≡ (
        if c == b'\n'
        then (line_of line ∷ (scan_onto [] 0 s).0, (scan_onto [] 0 s).1)
        else if n + 1 == max_line
        then ([], some (errorf "bufio.Scanner: token too long" []))
        else scan_onto (c ∷ line) (n + 1) s)
unfolding scan_onto
scan_onto-cons [] n c s = refl
scan_onto-cons (l ∷ line) n c s = refl

scan_onto-line :
    (line before : Bytes) (n : ℕ) (rest : Bytes)
    → every printable line ≡ true
    → n + length line < max_line
    → scan_onto before n (line ++ (b'\n' ∷ rest))
      ≡ (line_of (reverse_aux line before) ∷ (scan_onto [] 0 rest).0, (scan_onto [] 0 rest).1)
scan_onto-line [] before n rest p h = scan_onto-cons before n b'\n' rest
scan_onto-line (c ∷ line) before n rest p h = ground (
  arith,
  scan_onto-cons before n c (line ++ (b'\n' ∷ rest)),
  scan_onto-line line (c ∷ before) (n + 1) rest,
)

line_of-printable : (s : Bytes) → every printable s ≡ true → line_of s ≡ reverse s
unfolding line_of
line_of-printable [] h = refl
line_of-printable (c ∷ s) h = ground arith

line_of-reverse : (line : Bytes) → every printable line ≡ true → line_of (reverse line) ≡ line
line_of-reverse line h =
    line_of-printable (reverse line) (every-reverse printable line ∙ h) ∙ reverse-reverse line

scan_onto-unlines :
    (lines : List Bytes) → All IsLine lines → scan_onto [] 0 (unlines lines) ≡ (lines, none)
unfolding unlines scan_onto
scan_onto-unlines [] h = refl
scan_onto-unlines (line ∷ lines) h = ground (
  arith,
  scan_onto-line line [] 0 (unlines lines) h.0.is_printable,
  h.0.is_short,
  line_of-reverse line h.0.is_printable,
  scan_onto-unlines lines h.1,
)

pub scan_lines-unlines :
    (lines : List Bytes)
    → All IsLine lines
    → scan_lines (record { content = unlines lines; failure = none }) ≡ (lines, none)
unfolding scan_lines
scan_lines-unlines lines h = ground (arith, scan_onto-unlines lines h)
