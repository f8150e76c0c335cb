-- ===== src/Storage/Csv/Paths.antt =====
-- Which files an organization's uploads go to.
use eterrain_tf_upload.Base.{
  inr, ◌⊎◌, none, inl, take, drop, zero, suc, length, Bool-cases, sym, ap, ℕ, ◌≡◌, ◌∙◌, ap, refl,
  true, false, List, [], ◌∷◌, ◌++◌, arith, All, every, length,
}
use eterrain_tf_upload.Text.{Bytes, codes, equal, has_prefix}
use eterrain_tf_upload.Text.Visible.{every-append}
use eterrain_tf_upload.Errors.{errorf, ok, err}
use eterrain_tf_upload.Uuid.{to_string-injective, UuidLib, uuid_byte}
use eterrain_tf_upload.Path.{clean, is_abs, slashed, joined, join, abs}
use eterrain_tf_upload.Path.Rooted.{
  clean-cases, rooted, IsElement, clean-rooted, join-rooted, rooted-snoc, not_slash, All-snoc,
}
use eterrain_tf_upload.Storage.Csv.{
  new_csv_storage, Disk, CsvStorage, has_path_byte, sanitize_file_path,
}

module _ (lib : UuidLib) where
  open lib use {Uuid, to_string, every-to_string, length-to_string}

  abbrev pub file_name : Uuid → Bytes
  file_name u = to_string u ++ codes ".csv"

  has_path_byte-uuid : (s : Bytes) → every uuid_byte s ≡ true → has_path_byte s ≡ false
  unfolding has_path_byte
  has_path_byte-uuid [] h = refl
  has_path_byte-uuid (c ∷ s) h = ground (arith, has_path_byte-uuid s)

  no_slash_uuid : (s : Bytes) → every uuid_byte s ≡ true → every not_slash s ≡ true
  no_slash_uuid [] h = refl
  no_slash_uuid (c ∷ s) h = ground (arith, no_slash_uuid s)

  equal-long : (c d : ℕ) (s : Bytes) → equal (c ∷ d ∷ s ++ codes ".csv") (codes "..") ≡ false
  unfolding equal
  equal-long c d [] = ground arith
  equal-long c d (e ∷ s) = ground arith

  long-IsElement :
      (s : Bytes) → every not_slash s ≡ true → length s ≡ 36 → IsElement (s ++ codes ".csv")
  unfolding equal
  long-IsElement [] p n = absurd (omega (arith, n))
  long-IsElement (c ∷ []) p n = absurd (omega (arith, n))
  long-IsElement (c ∷ d ∷ s) p n = record {
    no_slash = every-append not_slash (c ∷ d ∷ s) (codes ".csv") ∙ rw p refl;
    no_empty = refl;
    no_dot = ground arith;
    no_dots = equal-long c d s;
  }

  file_name-IsElement : (u : Uuid) → IsElement (file_name u)
  file_name-IsElement u =
      long-IsElement (to_string u) (no_slash_uuid (to_string u) (every-to_string u))
        (length-to_string u)

  has_prefix-append : (p s : Bytes) → has_prefix (p ++ (b'/' ∷ s)) (p ++ codes "/") ≡ true
  unfolding has_prefix
  has_prefix-append [] s = refl
  has_prefix-append (c ∷ p) s = ground (arith, has_prefix-append p s)

  not-root :
      (name : Bytes)
      → IsElement name
      → (has_prefix (rooted (name ∷ [])) (codes "//") ≡ false)
        × (equal (rooted (name ∷ [])) (codes "/") ≡ false)
  unfolding has_prefix equal joined slashed
  not-root [] h = absurd (ground (arith, h.no_empty))
  not-root (c ∷ name) h = (ground (arith, h.no_slash), ground arith)

  module _ (s : CsvStorage) (u : Uuid) where
    abs-joined :
        (es : List Bytes)
        → s.data_dir ≡ rooted es
        → All IsElement es
        → (join s.data_dir (file_name u) ≡ rooted (es ++ file_name u ∷ []))
          × (abs s.disk.working_dir (rooted (es ++ file_name u ∷ []))
              ≡ ok (rooted (es ++ file_name u ∷ [])))
    unfolding abs
    abs-joined es e h = (
      ap (λ d. join d (file_name u)) e ∙ join-rooted es (file_name u) h (file_name-IsElement u),
      ground (
        arith,
        clean-rooted (es ++ file_name u ∷ []) (All-snoc es (file_name u) h (file_name-IsElement u)),
      ),
    )

    -- A data directory below the root
    pub sanitize_file_path-below :
        (e : Bytes) (es : List Bytes)
        → s.data_dir ≡ rooted (e ∷ es)
        → All IsElement (e ∷ es)
        → sanitize_file_path lib u s ≡ ok (s.data_dir ++ (b'/' ∷ file_name u))
    unfolding sanitize_file_path
    sanitize_file_path-below e es d h =
        let (joins, abses) = abs-joined (e ∷ es) d h in
        ground (
          arith,
          joins,
          abses,
          d,
          has_path_byte-uuid (to_string u) (every-to_string u),
          rooted-snoc e es (file_name u),
          has_prefix-append (rooted (e ∷ es)) (file_name u),
        )

    -- The root itself
    pub sanitize_file_path-root :
        s.data_dir ≡ codes "/"
        → sanitize_file_path lib u s ≡ err (errorf "invalid path: attempted directory traversal" [])
    unfolding sanitize_file_path joined
    sanitize_file_path-root d =
        let (joins, abses) = abs-joined [] d tt in
        let (no_prefix, not_same) = not-root (file_name u) (file_name-IsElement u) in
        ground (
          arith,
          joins,
          abses,
          d,
          has_path_byte-uuid (to_string u) (every-to_string u),
          no_prefix,
          not_same,
        )

-- A working directory, if the data directory needs one
abbrev pub Locates : Bytes → Disk → Type 0
Locates data_dir disk =
    (is_abs data_dir ≡ true) ⊎ ((wd : Bytes) × (_ : disk.working_dir ≡ ok wd) × (is_abs wd ≡ true))

is_abs-append : (s t : Bytes) → is_abs s ≡ true → is_abs (s ++ t) ≡ true
unfolding is_abs has_prefix
is_abs-append [] t h = absurd (ground (arith, h))
is_abs-append (c ∷ s) t h = ground (arith, h)

abs-join : (wd path : Bytes) → is_abs wd ≡ true → join wd path ≡ clean (wd ++ (b'/' ∷ path))
unfolding join is_abs has_prefix
abs-join [] path h = absurd (ground (arith, h))
abs-join (c ∷ wd) path h = refl

-- What filepath.Abs gives
abs-cases :
    (data_dir : Bytes) (disk : Disk)
    → Locates data_dir disk
    → (es : List Bytes) × (_ : All IsElement es) × (abs disk.working_dir data_dir ≡ ok (rooted es))
unfolding abs
abs-cases data_dir disk located = elim (Bool-cases (is_abs data_dir)) [
  | inl h ↦ let (es, p, e) = clean-cases data_dir h in (es, p, ground (arith, e))
  | inr h ↦ elim located [
    | inl k ↦ absurd (cc (h, k))
    | inr (wd, e, k) ↦
        let (es, p, c) =
          clean-cases (wd ++ (b'/' ∷ data_dir)) (is_abs-append wd (b'/' ∷ data_dir) k) in
        (es, p, ground (arith, e, c, abs-join wd data_dir k))
  ]
]

module _ (lib : UuidLib) where
  open lib use {Uuid, to_string, length-to_string}

  -- The file of an organization
  abbrev pub path_of : CsvStorage → Uuid → Bytes
  path_of s u = s.data_dir ++ (b'/' ∷ file_name lib u)

  sanitize_file_path_cases :
      (s : CsvStorage) (es : List Bytes)
      → All IsElement es
      → s.data_dir ≡ rooted es
      → ((s.data_dir ≡ codes "/")
          × ((u : Uuid)
              → sanitize_file_path lib u s
                ≡ err (errorf "invalid path: attempted directory traversal" [])))
        ⊎ ((u : Uuid) → sanitize_file_path lib u s ≡ ok (path_of s u))
  unfolding joined
  sanitize_file_path_cases s [] p d = inl (d, λ u. sanitize_file_path-root lib s u d)
  sanitize_file_path_cases s (e ∷ es) p d = inr (λ u. sanitize_file_path-below lib s u e es d p)

  -- A storage that NewCSVStorage makes, for any data directory that it finds, either has the root as its
  -- data directory, and then sanitizeFilePath refuses every organization, or it gives each
  -- organization the file of its identifier directly in the data directory.
  pub new_csv_storage-sanitize_file_path :
      (data_dir : Bytes) (disk : Disk) (s : CsvStorage)
      → Locates data_dir disk
      → new_csv_storage none data_dir disk ≡ ok s
      → ((s.data_dir ≡ codes "/")
          × ((u : Uuid)
              → sanitize_file_path lib u s
                ≡ err (errorf "invalid path: attempted directory traversal" [])))
        ⊎ ((u : Uuid) → sanitize_file_path lib u s ≡ ok (path_of s u))
  unfolding new_csv_storage
  new_csv_storage-sanitize_file_path data_dir disk s located made =
      let (es, p, e) = abs-cases data_dir disk located in
      sanitize_file_path_cases s es p (ground (arith, e, made))

  drop-length : (s t : Bytes) → drop (length s) (s ++ t) ≡ t
  drop-length [] t = refl
  drop-length (c ∷ s) t = drop-length s t

  take-length : (n : ℕ) (s t : Bytes) → length s ≡ n → take n (s ++ t) ≡ s
  take-length zero [] t h = refl
  take-length zero (c ∷ s) t h = absurd (omega (arith, h))
  take-length (suc n) [] t h = absurd (omega (arith, h))
  take-length (suc n) (c ∷ s) t h = ap (◌∷◌ c) (take-length n s t (omega (arith, h)))

  -- Different organizations have different files.
  pub path_of-injective : (s : CsvStorage) (u v : Uuid) → path_of s u ≡ path_of s v → u ≡ v
  path_of-injective s u v e =
      let names : (b'/' ∷ file_name lib u) ≡ (b'/' ∷ file_name lib v) =
        sym (drop-length s.data_dir (b'/' ∷ file_name lib u))
        ∙ ap (drop (length s.data_dir)) e
        ∙ drop-length s.data_dir (b'/' ∷ file_name lib v) in
      to_string-injective lib u v (
        sym (take-length 36 (to_string u) (codes ".csv") (length-to_string u))
        ∙ ap (λ t. take 36 (drop 1 t)) names
        ∙ take-length 36 (to_string v) (codes ".csv") (length-to_string v))
