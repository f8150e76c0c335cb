-- ===== src/Csv/Reading.antt =====
-- What the reader makes of the text of a field.
use mathlib.Core.List.{append_assoc, append-nil}
use eterrain_tf_upload.Base.{
  ℕ, ◌≡◌, ◌⊎◌, refl, Bool, true, false, List, [], ◌∷◌, ◌++◌, arith, ◌==◌, if◌then◌else◌,
}
use eterrain_tf_upload.Text.{Bytes, codes}
use eterrain_tf_upload.Csv.{
  any_special, Phase, line_start, field_start, plain, quoted, Reader, end_field, end_record,
  read_byte, read_bytes,
}
use eterrain_tf_upload.Csv.Fields.{escape, wrapped}

abbrev pub at : Phase → Bytes → List Bytes → List (List Bytes) → ℕ → Reader
at p f fs rs w = record { phase = p; field = f; fields = fs; records = rs; width = w }

read_bytes-plain :
    (s t f : Bytes) (fs : List Bytes) (rs : List (List Bytes)) (w : ℕ)
    → any_special s ≡ false
    → read_bytes (s ++ t) (at plain f fs rs w) ≡ read_bytes t (at plain (f ++ s) fs rs w)
unfolding read_bytes read_byte any_special
read_bytes-plain [] t f fs rs w h = rw (append-nil f) refl
read_bytes-plain (c ∷ s) t f fs rs w h =
    ground (arith, read_bytes-plain s t (f ++ (c ∷ [])) fs rs w, append_assoc f (c ∷ []) s)

read_bytes-escape :
    (s t f : Bytes) (fs : List Bytes) (rs : List (List Bytes)) (w : ℕ)
    → read_bytes (escape s ++ t) (at quoted f fs rs w) ≡ read_bytes t (at quoted (f ++ s) fs rs w)
unfolding read_bytes read_byte escape
read_bytes-escape [] t f fs rs w = rw (append-nil f) refl
read_bytes-escape (c ∷ s) t f fs rs w =
    ground (arith, read_bytes-escape s t (f ++ (c ∷ [])) fs rs w, append_assoc f (c ∷ []) s)

-- Where a field may begin, by the byte that ends it
abbrev pub Begins : Phase → ℕ → Type 0
Begins p c = (p ≡ field_start) ⊎ ((p ≡ line_start) × (c ≡ b','))

-- A field up to the byte that ends it
pub read_bytes-field :
    (quotes : Bool) (f : Bytes) (c : ℕ) (t : Bytes) (p : Phase) (fs : List Bytes)
    (rs : List (List Bytes)) (w : ℕ)
    → (quotes ≡ false → any_special f ≡ false)
    → Begins p c
    → (c ≡ b',') ⊎ (c ≡ b'\n')
    → read_bytes (wrapped quotes f ++ (c ∷ t)) (at p [] fs rs w)
      ≡ read_bytes t
          (if c == b',' then end_field (at plain f fs rs w) else end_record (at plain f fs rs w))
unfolding read_bytes read_byte any_special
read_bytes-field true f c t p fs rs w h b e = ground (
  arith,
  read_bytes-escape f (b'"' ∷ c ∷ t) [] fs rs w,
  append_assoc (escape f) (codes "\"") (c ∷ t),
)
read_bytes-field false [] c t p fs rs w h b e = ground arith
read_bytes-field false (d ∷ f) c t p fs rs w h b e =
    ground (arith, read_bytes-plain f (c ∷ t) (d ∷ []) fs rs w)
