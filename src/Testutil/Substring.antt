-- ===== src/Testutil/Substring.antt =====
-- contains of the test helpers is strings.Contains.
use eterrain_tf_upload.Base.{
  ℕ, zero, suc, ◌+◌, ◌-◌, ◌<◌, ◌≡◌, ◌∙◌, refl, ap, sym, true, false, [], ◌∷◌, arith, leb, ltb, ◌==◌,
  length, take, drop, Bool-cases, inl, inr,
}
use mathlib.Core.List.{append-nil}
use eterrain_tf_upload.Text.Laws.{contains-append}
use eterrain_tf_upload.Text.{Bytes, equal, equal_iff, has_prefix, contains}
use eterrain_tf_upload.Testutil.{find_from, find_substring, contains_text}

has_prefix-take : (s p : Bytes) → has_prefix s p ≡ equal (take (length p) s) p
unfolding has_prefix equal
has_prefix-take s [] = refl
has_prefix-take [] (c ∷ p) = refl
has_prefix-take (d ∷ s) (c ∷ p) = ground (arith, has_prefix-take s p)

contains-short : (s p : Bytes) → length s < length p → contains s p ≡ false
unfolding contains has_prefix
contains-short [] [] h = absurd (omega arith)
contains-short [] (c ∷ p) h = refl
contains-short (d ∷ s) p h =
    let t = has_prefix-short (d ∷ s) p h in ground (arith, t, contains-short s p)
  where
    has_prefix-short : (s p : Bytes) → length s < length p → has_prefix s p ≡ false
    has_prefix-short s [] h = absurd (omega arith)
    has_prefix-short [] (c ∷ p) h = refl
    has_prefix-short (d ∷ s) (c ∷ p) h = ground (arith, has_prefix-short s p)

drop-drop : (i : ℕ) (s : Bytes) → drop (i + 1) s ≡ drop 1 (drop i s)
drop-drop zero s = refl
drop-drop (suc i) [] = ground arith
drop-drop (suc i) (c ∷ s) = ground (arith, drop-drop i s)

-- The rounds from i on find the text in what is left from i on.
find_from-contains :
    (rounds i : ℕ) (s p t : Bytes)
    → drop i s ≡ t
    → length t + 1 ≡ rounds + length p
    → find_from s p i rounds ≡ contains t p
unfolding find_from contains equal
find_from-contains zero i s p t d h = sym (contains-short t p (omega arith))
find_from-contains (suc rounds) i s [] [] d h = refl
find_from-contains (suc rounds) i s (x ∷ p) [] d h = absurd (omega arith)
find_from-contains (suc rounds) i s p (c ∷ t) d h =
    let later =
      find_from-contains rounds (i + 1) s p t (drop-drop i s ∙ ap (drop 1) d) (omega arith) in
    ground (arith, later, has_prefix-take (c ∷ t) p, ap (λ u. equal (take (length p) u) p) d)

find_substring-contains : (s p : Bytes) → find_substring s p ≡ contains s p
unfolding find_substring
find_substring-contains s p = elim (Bool-cases (ltb (length s) (length p))) [
  | inl e ↦ rw e (sym (contains-short s p (ground arith)))
  | inr e ↦ rw e (find_from-contains (suc (length s - length p)) 0 s p s refl (ground arith))
]

contains_self : (s : Bytes) → contains s s ≡ true
contains_self s = ap (λ t. contains t s) (sym (append-nil s)) ∙ contains-append [] s []

contains_empty : (s : Bytes) → contains s [] ≡ true
contains_empty s = contains-append [] [] s

no_bytes : (p : Bytes) → (length p == 0) ≡ true → p ≡ []
no_bytes [] h = refl
no_bytes (c ∷ p) h = ground arith

-- The helper for texts gives what strings.Contains gives: the shortcuts for equal texts and for the
-- empty text change nothing.
pub contains_text-contains : (s p : Bytes) → contains_text s p ≡ contains s p
unfolding contains_text
contains_text-contains s p = elim (Bool-cases (leb (length p) (length s))) [
  | inr e ↦ rw e (sym (contains-short s p (ground arith)))
  | inl e ↦ elim (Bool-cases (equal s p)) [
    | inl same ↦ let t = (equal_iff s p).0 same in ground (arith, contains_self s, t)
    | inr differs ↦ elim (Bool-cases (length p == 0)) [
      | inl none ↦ ground (arith, no_bytes p none, contains_empty s)
      | inr some ↦ ground (arith, find_substring-contains s p)
    ]
  ]
]
