-- ===== src/Text/Laws.antt =====
-- Laws of the texts: equality, concatenation and lengths.
use eterrain_tf_upload.Base.{
  inr, ap, inl, every, false, Bool-cases, Bool, ℕ, ◌≡◌, refl, true, [], ◌∷◌, ◌++◌, arith, length,
}
use eterrain_tf_upload.Text.{has_prefix, contains, Bytes, equal, equal_iff}

pub equal_refl : (a : Bytes) → equal a a ≡ true
equal_refl a = (equal_iff a a).1 refl

pub equal_sym : (a b : Bytes) → equal a b ≡ equal b a
unfolding equal
equal_sym [] [] = refl
equal_sym [] (y ∷ b) = refl
equal_sym (x ∷ a) [] = refl
equal_sym (x ∷ a) (y ∷ b) = ground (arith, equal_sym a b)

-- Two concatenations whose first parts have one length are equal only part by part.
pub append-injective : (a b c d : Bytes) → length a ≡ length b → a ++ c ≡ b ++ d → (a ≡ b) × (c ≡ d)
append-injective [] [] c d h e = (refl, e)
append-injective [] (y ∷ b) c d h e = absurd (omega arith)
append-injective (x ∷ a) [] c d h e = absurd (omega arith)
append-injective (x ∷ a) (y ∷ b) c d h e = ground (arith, append-injective a b c d)

pub has_prefix-append : (p s : Bytes) → has_prefix (p ++ s) p ≡ true
unfolding has_prefix
has_prefix-append [] [] = refl
has_prefix-append [] (c ∷ s) = refl
has_prefix-append (x ∷ p) s = ground (arith, has_prefix-append p s)

pub has_prefix-split : (s p : Bytes) → has_prefix s p ≡ true → (rest : Bytes) × (s ≡ p ++ rest)
unfolding has_prefix
has_prefix-split s [] h = (s, refl)
has_prefix-split [] (y ∷ p) h = cc
has_prefix-split (x ∷ s) (y ∷ p) h =
    let (rest, e) = has_prefix-split s p (ground arith) in (rest, ground arith)

pub contains-append : (a p b : Bytes) → contains (a ++ (p ++ b)) p ≡ true
unfolding contains
contains-append [] [] [] = refl
contains-append [] [] (c ∷ b) = refl
contains-append [] (x ∷ p) b = rw (has_prefix-append (x ∷ p) b)
contains-append (y ∷ a) p b = ground (arith, contains-append a p b)

pub contains-split :
    (s p : Bytes) → contains s p ≡ true → (a : Bytes) × (b : Bytes) × (s ≡ a ++ (p ++ b))
unfolding contains
contains-split [] p h = let (b, e) = has_prefix-split [] p h in ([], b, e)
contains-split (c ∷ s) p h = elim (Bool-cases (has_prefix (c ∷ s) p)) [
  | inl here ↦ let (b, e) = has_prefix-split (c ∷ s) p here in ([], b, e)
  | inr later ↦ let (a, b, e) = contains-split s p (ground arith) in (c ∷ a, b, ap (◌∷◌ c) e)
]

pub every-append-false :
    (class : ℕ → Bool) (a b : Bytes) (c : ℕ) → class c ≡ false → every class (a ++ c ∷ b) ≡ false
every-append-false class [] b c h = ground arith
every-append-false class (x ∷ a) b c h = ground (arith, every-append-false class a b c h)

-- A text of allowed bytes holds no text with a byte that is not allowed.
pub contains-every :
    (class : ℕ → Bool) (s : Bytes) (c : ℕ)
    → class c ≡ false
    → every class s ≡ true
    → contains s (c ∷ []) ≡ false
contains-every class s c h all = elim (Bool-cases (contains s (c ∷ []))) [
  | inl found ↦
      let (a, b, e) = contains-split s (c ∷ []) found in cc (every-append-false class a b c h)
  | inr not_found ↦ not_found
]
