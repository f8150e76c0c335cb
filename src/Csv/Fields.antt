-- ===== src/Csv/Fields.antt =====
-- The text of a field, and what the reader makes of it.
use mathlib.Core.List.{append-nil, List}
use eterrain_tf_upload.Base.{
  onto_first, flat-append, flat, ℕ, ◌≡◌, ◌⊎◌, refl, Bool, true, false, List, [], ◌∷◌, ◌++◌, arith,
  ◌==◌, if◌then◌else◌,
}
use eterrain_tf_upload.Text.{Bytes, codes}
use eterrain_tf_upload.Csv.{
  any_special, field_needs_quotes, quoted_pieces, field_pieces, ends_line, normalize,
}

-- A text with its quotes doubled
unfoldable pub escape : Bytes → Bytes
escape [] = []
escape (c ∷ s) = if c == b'"' then c ∷ c ∷ escape s else c ∷ escape s

abbrev pub wrapped : Bool → Bytes → Bytes
wrapped true s = b'"' ∷ (escape s ++ codes "\"")
wrapped false s = s

flat-onto_first : (c : ℕ) (ps : List Bytes) → flat (onto_first c ps) ≡ c ∷ flat ps
flat-onto_first c [] = refl
flat-onto_first c (p ∷ ps) = refl

flat-quoted_pieces : (s : Bytes) → flat (quoted_pieces s) ≡ escape s
unfolding quoted_pieces escape
flat-quoted_pieces [] = refl
flat-quoted_pieces (c ∷ s) =
    ground (arith, flat-quoted_pieces s, flat-onto_first c (quoted_pieces s))

pub flat-field_pieces : (f : Bytes) → flat (field_pieces f) ≡ wrapped (field_needs_quotes f) f
unfolding field_pieces
flat-field_pieces f =
    ground
      (arith, flat-append (quoted_pieces f) (codes "\"" ∷ []), flat-quoted_pieces f, append-nil f)

pub needs_quotes-any_special : (f : Bytes) → field_needs_quotes f ≡ false → any_special f ≡ false
unfolding field_needs_quotes any_special
needs_quotes-any_special [] h = refl
needs_quotes-any_special (c ∷ s) h = ground arith

-- Line ends inside a field
pub normalize-unquoted :
    (at_end : Bool) (f : Bytes) (c : ℕ) (t : Bytes)
    → any_special f ≡ false
    → (c ≡ b',') ⊎ (c ≡ b'\n')
    → normalize at_end (f ++ (c ∷ t)) ≡ f ++ (c ∷ normalize at_end t)
unfolding any_special normalize
normalize-unquoted at_end [] c t h e = ground arith
normalize-unquoted at_end (d ∷ f) c t h e = ground (arith, normalize-unquoted at_end f c t)

ends_line-escape :
    (at_end : Bool) (s t : Bytes) → ends_line at_end (escape s ++ (b'"' ∷ t)) ≡ ends_line false s
unfolding escape
ends_line-escape at_end [] t = refl
ends_line-escape at_end (c ∷ s) t = ground arith

pub normalize-escape :
    (at_end : Bool) (s t : Bytes)
    → normalize at_end (escape s ++ (b'"' ∷ t))
      ≡ escape (normalize false s) ++ (b'"' ∷ normalize at_end t)
unfolding escape normalize
normalize-escape at_end [] t = refl
normalize-escape at_end (c ∷ s) t =
    ground (arith, normalize-escape at_end s t, ends_line-escape at_end s t)
