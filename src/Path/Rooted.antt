-- ===== src/Path/Rooted.antt =====
-- Absolute paths: what Abs and Join give of them.
use mathlib.Core.List.{reverse, reverse-reverse, append_assoc, append-nil, reverse_aux}
use eterrain_tf_upload.Base.{
  ℕ, ◌≡◌, ◌∙◌, inl, inr, sym, ap, refl, Bool, true, false, not, ◌||◌, Bool-cases, List, [], ◌∷◌,
  ◌++◌, onto_first, arith, ◌==◌, All, every,
}
use eterrain_tf_upload.Text.{Bytes, codes, equal, has_prefix}
use eterrain_tf_upload.Path.{
  split, slashed, joined, keep_element, keep_elements, is_abs, clean, join,
}

abbrev pub not_slash : ℕ → Bool
not_slash c = not (c == b'/')

-- A name of a file or a directory
pub record IsElement (e : Bytes) : Type 0 where
  pub no_slash : every not_slash e ≡ true
  pub no_empty : equal e [] ≡ false
  pub no_dot : equal e (codes ".") ≡ false
  pub no_dots : equal e (codes "..") ≡ false

-- An absolute path in its shortest form
abbrev pub rooted : List Bytes → Bytes
rooted es = b'/' ∷ joined es

split-slash : (e s : Bytes) → every not_slash e ≡ true → split (e ++ (b'/' ∷ s)) ≡ e ∷ split s
unfolding split
split-slash [] s h = refl
split-slash (c ∷ e) s h = ground (arith, split-slash e s)

split-no_slash : (e : Bytes) → every not_slash e ≡ true → split e ≡ e ∷ []
unfolding split
split-no_slash [] h = refl
split-no_slash (c ∷ e) h = ground (arith, split-no_slash e)

split-joined :
    (e : Bytes) (es : List Bytes) → All IsElement (e ∷ es) → split (joined (e ∷ es)) ≡ e ∷ es
unfolding split joined slashed
split-joined e [] h = rw (append-nil e) (split-no_slash e h.0.no_slash)
split-joined e (f ∷ es) h =
    split-slash e (f ++ slashed es) h.0.no_slash ∙ ap (◌∷◌ e) (split-joined f es h.1)

keep_elements-All :
    (out es : List Bytes) → All IsElement es → keep_elements true out es ≡ reverse_aux es out
unfolding keep_elements keep_element
keep_elements-All out [] h = refl
keep_elements-All out (e ∷ es) h =
    ground (arith, h.0.no_empty, h.0.no_dot, h.0.no_dots, keep_elements-All (e ∷ out) es h.1)

-- A path with its elements is its own shortest form.
pub clean-rooted : (es : List Bytes) → All IsElement es → clean (rooted es) ≡ rooted es
unfolding clean split is_abs has_prefix keep_elements keep_element equal
clean-rooted [] h = refl
clean-rooted (e ∷ es) h =
    ap (λ xs. b'/' ∷ joined (reverse (keep_elements true [] xs))) (split-joined e es h)
    ∙ ap (λ xs. b'/' ∷ joined (reverse xs)) (keep_elements-All [] (e ∷ es) h)
    ∙ ap rooted (reverse-reverse (e ∷ es))

NoSlashes : List Bytes → Type 0
NoSlashes es = All (λ (e : Bytes). every not_slash e ≡ true) es

onto_first-NoSlashes :
    (c : ℕ) (es : List Bytes) → not_slash c ≡ true → NoSlashes es → NoSlashes (onto_first c es)
unfolding NoSlashes
onto_first-NoSlashes c [] h p = (ground arith, tt)
onto_first-NoSlashes c (e ∷ es) h p = (ground (arith, p.0), p.1)

split-NoSlashes : (s : Bytes) → NoSlashes (split s)
unfolding split NoSlashes
split-NoSlashes [] = (refl, tt)
split-NoSlashes (c ∷ s) =
    let rest = split-NoSlashes s in
    elim (Bool-cases (c == b'/')) [
      | inl h ↦ rw h (refl, rest)
      | inr h ↦ rw h (onto_first-NoSlashes c (split s) (ground arith) rest)
    ]

element :
    (e : Bytes)
    → every not_slash e ≡ true
    → (equal e [] || equal e (codes ".")) ≡ false
    → equal e (codes "..") ≡ false
    → IsElement e
element e p x y = record {
  no_slash = p;
  no_empty = ground arith;
  no_dot = ground arith;
  no_dots = y;
}

keep_element-IsElement :
    (out : List Bytes) (e : Bytes)
    → All IsElement out
    → every not_slash e ≡ true
    → All IsElement (keep_element true out e)
unfolding keep_element
keep_element-IsElement [] e h p = elim (Bool-cases (equal e [] || equal e (codes "."))) [
  | inl x ↦ rw x tt
  | inr x ↦ elim (Bool-cases (equal e (codes ".."))) [
    | inl y ↦ rw (x, y) tt
    | inr y ↦ rw (x, y) (element e p x y, tt)
  ]
]
keep_element-IsElement (top ∷ below) e h p = elim (Bool-cases (equal e [] || equal e (codes "."))) [
  | inl x ↦ rw x h
  | inr x ↦ elim (Bool-cases (equal e (codes ".."))) [
    | inl y ↦ rw (x, y, h.0.no_dots) h.1
    | inr y ↦ rw (x, y) (element e p x y, h)
  ]
]

keep_elements-IsElement :
    (out es : List Bytes)
    → All IsElement out
    → NoSlashes es
    → All IsElement (keep_elements true out es)
unfolding keep_elements NoSlashes
keep_elements-IsElement out [] h p = h
keep_elements-IsElement out (e ∷ es) h p =
    keep_elements-IsElement (keep_element true out e) es (keep_element-IsElement out e h p.0) p.1

reverse_aux-All :
    (es out : List Bytes)
    → All IsElement es
    → All IsElement out
    → All IsElement (reverse_aux es out)
reverse_aux-All [] out h p = p
reverse_aux-All (e ∷ es) out h p = reverse_aux-All es (e ∷ out) h.1 (h.0, p)

-- An absolute path has a shortest form.
pub clean-cases :
    (path : Bytes)
    → is_abs path ≡ true
    → (es : List Bytes) × (_ : All IsElement es) × (clean path ≡ rooted es)
unfolding clean
clean-cases path h =
    let kept = keep_elements true [] (split path) in
    (
      reverse kept,
      reverse_aux-All kept [] (keep_elements-IsElement [] (split path) tt (split-NoSlashes path))
          tt,
      rw h refl,
    )

slashed-append : (es fs : List Bytes) → slashed (es ++ fs) ≡ slashed es ++ slashed fs
unfolding slashed
slashed-append [] fs = refl
slashed-append (e ∷ es) fs =
    ap (λ t. b'/' ∷ (e ++ t)) (slashed-append es fs)
    ∙ ap (λ t. b'/' ∷ t) (sym (append_assoc e (slashed es) (slashed fs)))

pub All-snoc :
    (es : List Bytes) (e : Bytes) → All IsElement es → IsElement e → All IsElement (es ++ e ∷ [])
All-snoc [] e h p = (p, tt)
All-snoc (d ∷ es) e h p = (h.0, All-snoc es e h.1 p)

-- A directory, a slash and a name
pub rooted-snoc :
    (d : Bytes) (es : List Bytes) (e : Bytes)
    → rooted (d ∷ es ++ e ∷ []) ≡ rooted (d ∷ es) ++ (b'/' ∷ e)
unfolding slashed joined
rooted-snoc d es e =
    ap (λ t. b'/' ∷ (d ++ t))
      (slashed-append es (e ∷ []) ∙ ap (λ t. slashed es ++ (b'/' ∷ t)) (append-nil e))
    ∙ ap (λ t. b'/' ∷ t) (sym (append_assoc d (slashed es) (b'/' ∷ e)))

pub join-rooted :
    (es : List Bytes) (name : Bytes)
    → All IsElement es
    → IsElement name
    → join (rooted es) name ≡ rooted (es ++ name ∷ [])
unfolding join equal
join-rooted [] name h p =
    ap (λ xs. b'/' ∷ joined (reverse (keep_elements true [] xs))) (split-no_slash name p.no_slash)
    ∙ ap (λ xs. b'/' ∷ joined (reverse xs)) (keep_elements-All [] (name ∷ []) (p, tt))
join-rooted (e ∷ es) name h p =
    ap clean (sym (rooted-snoc e es name))
    ∙ clean-rooted (e ∷ es ++ name ∷ []) (All-snoc (e ∷ es) name h p)
