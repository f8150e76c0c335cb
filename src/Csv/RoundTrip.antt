-- ===== src/Csv/RoundTrip.antt =====
-- The reader reads what the writer wrote.
use eterrain_tf_upload.Base.{
  not, every, flat, flat-append, suc, ℕ, ◌+◌, ◌≡◌, ◌∙◌, ◌⊎◌, inl, inr, sym, ap, refl, Bool, true,
  false, none, List, [], ◌∷◌, ◌++◌, arith, ◌==◌, if◌then◌else◌, length, All,
}
use mathlib.Core.List.{append_assoc, append-nil}
use eterrain_tf_upload.Text.{Bytes, codes}
use eterrain_tf_upload.Errors.{ok}
use eterrain_tf_upload.Csv.{
  any_special, field_needs_quotes, field_pieces, more_pieces, row_pieces, normalize, Phase,
  line_start, field_start, plain, end_field, end_record, read_bytes, read_end, read_all_records,
}
use eterrain_tf_upload.Csv.Fields.{
  escape, wrapped, flat-field_pieces, needs_quotes-any_special, normalize-unquoted,
  normalize-escape,
}
use eterrain_tf_upload.Csv.Reading.{at, Begins, read_bytes-field}

-- A field as it is read back: \r\n is \n.
abbrev pub reread : Bytes → Bytes
reread f = normalize false f

abbrev pub raw : Bytes → Bytes
raw f = wrapped (field_needs_quotes f) f

abbrev clean : Bytes → Bytes
clean f = wrapped (field_needs_quotes f) (reread f)

-- The fields after the first, the line end, and what follows
unfoldable pub text_onto : (Bytes → Bytes) → List Bytes → Bytes → Bytes
text_onto text [] s = b'\n' ∷ s
text_onto text (f ∷ fs) s = b',' ∷ (text f ++ text_onto text fs s)

flat-field :
    (f : Bytes) (ps : List Bytes) (s : Bytes)
    → flat (field_pieces f ++ ps) ++ s ≡ raw f ++ (flat ps ++ s)
flat-field f ps s =
    ap (λ t. t ++ s) (flat-append (field_pieces f) ps)
    ∙ append_assoc (flat (field_pieces f)) (flat ps) s
    ∙ ap (λ t. t ++ (flat ps ++ s)) (flat-field_pieces f)

flat-more_pieces :
    (fs : List Bytes) (s : Bytes)
    → flat (more_pieces fs ++ (b'\n' ∷ []) ∷ []) ++ s ≡ text_onto raw fs s
unfolding more_pieces text_onto
flat-more_pieces [] s = refl
flat-more_pieces (f ∷ fs) s =
    let ends = (b'\n' ∷ []) ∷ [] in
    ap (λ ps. b',' ∷ (flat ps ++ s)) (append_assoc (field_pieces f) (more_pieces fs) ends)
    ∙ ap (λ t. b',' ∷ t)
        (flat-field f (more_pieces fs ++ ends) s ∙ ap (λ t. raw f ++ t) (flat-more_pieces fs s))

pub flat-row_pieces :
    (f : Bytes) (fs : List Bytes) (s : Bytes)
    → flat (row_pieces (f ∷ fs)) ++ s ≡ raw f ++ text_onto raw fs s
unfolding row_pieces
flat-row_pieces f fs s =
    flat-field f (more_pieces fs ++ (b'\n' ∷ []) ∷ []) s
    ∙ ap (λ t. raw f ++ t) (flat-more_pieces fs s)

any_special-reread : (f : Bytes) → any_special f ≡ false → reread f ≡ f
unfolding any_special normalize
any_special-reread [] h = refl
any_special-reread (c ∷ f) h = ground (arith, any_special-reread f)

normalize-field :
    (at_end : Bool) (f : Bytes) (c : ℕ) (t : Bytes)
    → (c ≡ b',') ⊎ (c ≡ b'\n')
    → normalize at_end (raw f ++ (c ∷ t)) ≡ clean f ++ (c ∷ normalize at_end t)
unfolding normalize
normalize-field at_end f c t e = ground (
  arith,
  normalize-unquoted at_end f c t,
  needs_quotes-any_special f,
  any_special-reread f,
  append_assoc (escape f) (codes "\"") (c ∷ t),
  append_assoc (escape (reread f)) (codes "\"") (c ∷ normalize at_end t),
  normalize-escape at_end f (c ∷ t),
)

normalize-text_onto :
    (at_end : Bool) (f : Bytes) (fs : List Bytes) (s : Bytes)
    → normalize at_end (raw f ++ text_onto raw fs s)
      ≡ clean f ++ text_onto clean fs (normalize at_end s)
unfolding text_onto
normalize-text_onto at_end f [] s = normalize-field at_end f b'\n' s (inr refl)
normalize-text_onto at_end f (g ∷ fs) s =
    normalize-field at_end f b',' (raw g ++ text_onto raw fs s) (inl refl)
    ∙ ap (λ t. clean f ++ (b',' ∷ t)) (normalize-text_onto at_end g fs s)

unfoldable pub rereads : List Bytes → List Bytes
rereads [] = []
rereads (f ∷ fs) = reread f ∷ rereads fs

clean-any_special : (f : Bytes) → field_needs_quotes f ≡ false → any_special (reread f) ≡ false
clean-any_special f h =
    let h' = needs_quotes-any_special f h in ap any_special (any_special-reread f h') ∙ h'

read_bytes-clean :
    (f : Bytes) (c : ℕ) (t : Bytes) (p : Phase) (fs : List Bytes) (rs : List (List Bytes)) (w : ℕ)
    → Begins p c
    → (c ≡ b',') ⊎ (c ≡ b'\n')
    → read_bytes (clean f ++ (c ∷ t)) (at p [] fs rs w)
      ≡ read_bytes t (
          if c == b','
          then end_field (at plain (reread f) fs rs w)
          else end_record (at plain (reread f) fs rs w))
read_bytes-clean f c t p fs rs w =
    read_bytes-field (field_needs_quotes f) (reread f) c t p fs rs w (clean-any_special f)

-- The fields of a row behind those that are read already
read_bytes-text_onto :
    (f : Bytes) (fs : List Bytes) (t : Bytes) (pre : List Bytes) (rs : List (List Bytes)) (w : ℕ)
    → (w ≡ 0) ⊎ (w ≡ length (pre ++ rereads (f ∷ fs)))
    → read_bytes (clean f ++ text_onto clean fs t) (at field_start [] pre rs w)
      ≡ read_bytes t (
          at line_start [] []
            (rs ++ (pre ++ rereads (f ∷ fs)) ∷ [])
            (length (pre ++ rereads (f ∷ fs))))
unfolding text_onto rereads
read_bytes-text_onto f [] t pre rs w e =
    ground (arith, read_bytes-clean f b'\n' t field_start pre rs w (inl refl) (inr refl))
read_bytes-text_onto f (g ∷ fs) t pre rs w e =
    read_bytes-clean f b',' (clean g ++ text_onto clean fs t) field_start pre rs w (inl refl)
      (inl refl)
    ∙ ground (
      arith,
      read_bytes-text_onto g fs t (pre ++ (reread f ∷ [])) rs w,
      append_assoc pre (reread f ∷ []) (rereads (g ∷ fs)),
    )

length-rereads : (fs : List Bytes) → length (rereads fs) ≡ length fs
unfolding rereads
length-rereads [] = refl
length-rereads (f ∷ fs) = ap suc (length-rereads fs)

read_bytes-row :
    (f g : Bytes) (fs : List Bytes) (t : Bytes) (rs : List (List Bytes)) (w : ℕ)
    → (w ≡ 0) ⊎ (w ≡ length (f ∷ g ∷ fs))
    → read_bytes (clean f ++ text_onto clean (g ∷ fs) t) (at line_start [] [] rs w)
      ≡ read_bytes t (at line_start [] [] (rs ++ rereads (f ∷ g ∷ fs) ∷ []) (length (f ∷ g ∷ fs)))
unfolding text_onto rereads
read_bytes-row f g fs t rs w e =
    read_bytes-clean f b',' (clean g ++ text_onto clean fs t) line_start [] rs w (inr (refl, refl))
      (inl refl)
    ∙ ground (arith, read_bytes-text_onto g fs t (reread f ∷ []) rs w, length-rereads (f ∷ g ∷ fs))

-- A file: what is written for its rows
unfoldable pub encode : List (List Bytes) → Bytes
encode [] = []
encode (row ∷ rows) = flat (row_pieces row) ++ encode rows

pub encode-append : (xs ys : List (List Bytes)) → encode (xs ++ ys) ≡ encode xs ++ encode ys
unfolding encode
encode-append [] ys = refl
encode-append (x ∷ xs) ys =
    ap (λ t. flat (row_pieces x) ++ t) (encode-append xs ys)
    ∙ sym (append_assoc (flat (row_pieces x)) (encode xs) (encode ys))

unfoldable pub all_rereads : List (List Bytes) → List (List Bytes)
all_rereads [] = []
all_rereads (row ∷ rows) = rereads row ∷ all_rereads rows

-- Rows of n + 2 fields
abbrev pub HasWidth : ℕ → List Bytes → Type 0
HasWidth n row = length row ≡ n + 2

read_bytes-encode :
    (n w : ℕ) (rows rs : List (List Bytes))
    → All (HasWidth n) rows
    → (w ≡ 0) ⊎ (w ≡ n + 2)
    → (v : ℕ) × (read_bytes (normalize true (encode rows)) (at line_start [] [] rs w)
        ≡ at line_start [] [] (rs ++ all_rereads rows) v)
unfolding encode all_rereads normalize read_bytes
read_bytes-encode n w [] rs h e = (w, ap (λ xs. at line_start [] [] xs w) (sym (append-nil rs)))
read_bytes-encode n w ([] ∷ rows) rs h e = absurd (omega (arith, h.0))
read_bytes-encode n w ((f ∷ []) ∷ rows) rs h e = absurd (omega (arith, h.0))
read_bytes-encode n w ((f ∷ g ∷ fs) ∷ rows) rs h e =
    let (v, rest) =
      read_bytes-encode n (n + 2) rows (rs ++ rereads (f ∷ g ∷ fs) ∷ []) h.1 (inr refl) in
    (
      v,
      ap (λ t. read_bytes (normalize true t) (at line_start [] [] rs w))
            (flat-row_pieces f (g ∷ fs) (encode rows))
          ∙ ap (λ t. read_bytes t (at line_start [] [] rs w))
              (normalize-text_onto true f (g ∷ fs) (encode rows))
          ∙ read_bytes-row f g fs (normalize true (encode rows)) rs w (ground (arith, h.0))
          ∙ ap
              (λ k.
                read_bytes (normalize true (encode rows))
                  (at line_start [] [] (rs ++ rereads (f ∷ g ∷ fs) ∷ []) k))
              h.0
          ∙ rest
          ∙ ap (λ xs. at line_start [] [] xs v)
              (append_assoc rs (rereads (f ∷ g ∷ fs) ∷ []) (all_rereads rows)),
    )

-- Rows of the same number of fields, which is at least 2, are written to a file and read back: the reader
-- returns all of them in order with each field as it was, but that \r\n inside a field has become \n.
pub read_all_records-encode :
    (n : ℕ) (rows : List (List Bytes))
    → All (HasWidth n) rows
    → read_all_records (encode rows) none ≡ ok (all_rereads rows)
unfolding read_all_records read_end
read_all_records-encode n rows h =
    let (v, done) = read_bytes-encode n 0 rows [] h (inl refl) in ap (λ r. read_end none r) done

abbrev pub not_return : ℕ → Bool
not_return c = not (c == b'\r')

-- A field without a carriage return is read back as it was.
pub reread-every : (f : Bytes) → every not_return f ≡ true → reread f ≡ f
unfolding normalize
reread-every [] h = refl
reread-every (c ∷ f) h = ground (arith, reread-every f)
