-- ===== src/Testutil/Corrupted.antt =====
-- What the service makes of the files that CreateCorruptedAuthConfig writes.
use eterrain_tf_upload.Text.{has_suffix, equal_iff, Bytes, codes, equal, trim_space, has_prefix}
use eterrain_tf_upload.Auth.Config.{header_text, is_header, is_skipped}
use eterrain_tf_upload.Maps.{Map}
use eterrain_tf_upload.Auth.FileStore.{
  broken, check_keys, is_bcrypt, Comparison, keys_of, validate_credentials, load_from_file,
}
use eterrain_tf_upload.Base.{
  ◌≢◌, ◌⊎◌, inl, inr, Bool-cases, ◌≡◌, ◌∙◌, refl, ap, subst, true, false, none, some, List, [], ◌∷◌,
  arith, All, Option,
}
use eterrain_tf_upload.Testutil.{corrupted_content}
use eterrain_tf_upload.Errors.{wrapf, Error, ok}
use eterrain_tf_upload.Uuid.{UuidLib}
use eterrain_tf_upload.Io.{Stream}
use eterrain_tf_upload.Io.Lines.{IsLine, unlines, scan_lines-unlines}
use eterrain_tf_upload.Auth.FileStore.Validate.{validate-check}
use eterrain_tf_upload.Auth.FileStore.Load.{line_of, keys_under, is_valid, load_from_file_iff}

abbrev file_of : Bytes → Stream
file_of content = record { content = content; failure = none }

-- A file that holds faulty lines is refused.
refused :
    (lib : UuidLib) (lines : List Bytes)
    → All IsLine lines
    → is_valid lib none lines ≡ false
    → (load_from_file lib (ok (file_of (unlines lines))) []).1 ≢ none
refused lib lines are e fine =
    let read = scan_lines-unlines lines are in
    let (keys, faults) = load_from_file_iff lib (file_of (unlines lines)) [] in
    cc (ap (λ (w : List Bytes × Option Error). is_valid lib none w.0) read, (faults.0 fine).0, e)

abbrev sample_header : Bytes
sample_header = codes "[11111111-2222-3333-4444-555555555555]"

abbrev sample_id : Bytes
sample_id = codes "11111111-2222-3333-4444-555555555555"

abbrev sample_hash : Bytes
sample_hash = codes "$2a$invalid$hash"

two-IsLine : (a b : Bytes) → IsLine a → IsLine b → All IsLine (a ∷ b ∷ [])
two-IsLine a b p q = (p, (q, tt))

module _ (lib : UuidLib) (compare_hash : Bytes → Bytes → Comparison) (u : lib.Uuid) (e : Error)
    (no_id : lib.parse (codes "not-a-uuid") ≡ none) (an_id : lib.parse sample_id ≡ some u)
    (no_hash : (k : Bytes) → compare_hash sample_hash k ≡ broken e) where
  open lib use {Uuid, uuid_eq}

  abbrev pub loaded : Bytes → Map Uuid (List Bytes) × Option Error
  loaded content = load_from_file lib (ok (file_of content)) []

  invalid_uuid : is_valid lib none (codes "[not-a-uuid]" ∷ codes "test-key" ∷ []) ≡ false
  unfolding is_valid line_of is_skipped is_header header_text equal has_prefix has_suffix trim_space
  invalid_uuid = rw (no_id, is_valid) refl

  key_before_org : is_valid lib none (codes "test-key" ∷ sample_header ∷ []) ≡ false
  unfolding is_valid line_of is_skipped is_header equal has_prefix has_suffix trim_space
  key_before_org = refl

  incomplete_bracket :
      is_valid lib none (codes "[11111111-2222-3333-4444-555555555555" ∷ codes "test-key" ∷ [])
      ≡ false
  unfolding is_valid line_of is_skipped is_header equal has_prefix has_suffix trim_space
  incomplete_bracket = refl

  malformed_bcrypt : is_valid lib none (sample_header ∷ sample_hash ∷ []) ≡ true
  unfolding is_valid line_of is_skipped is_header header_text equal has_prefix has_suffix trim_space
  malformed_bcrypt = rw (an_id, is_valid) refl

  malformed_keys : keys_under lib u none (sample_header ∷ sample_hash ∷ []) ≡ sample_hash ∷ []
  unfolding keys_under line_of is_skipped is_header header_text equal has_prefix has_suffix
      trim_space
  malformed_keys = rw (an_id, keys_under) (ground (arith, (uuid_eq.beq_iff u u).1 refl))

  -- One loads, and no key is then accepted.
  malformed :
      (k : Bytes)
      → ((loaded (unlines (sample_header ∷ sample_hash ∷ []))).1 ≡ none)
        × (validate_credentials ⦃uuid_eq = uuid_eq⦄ compare_hash u k
              (loaded (unlines (sample_header ∷ sample_hash ∷ []))).0
            ≡ (false, some (wrapf "bcrypt comparison failed: " e)))
  unfolding check_keys is_bcrypt has_prefix
  malformed k =
      let lines = sample_header ∷ sample_hash ∷ [] in
      let are =
        two-IsLine sample_header sample_hash
          (record { is_printable = refl; is_short = omega arith })
          (record { is_printable = refl; is_short = omega arith }) in
      let read = scan_lines-unlines lines are in
      let (keys, faults) = load_from_file_iff lib (file_of (unlines lines)) [] in
      let credentials = (loaded (unlines lines)).0 in
      let listed : keys_of ⦃uuid_eq = uuid_eq⦄ u credentials ≡ sample_hash ∷ [] =
        keys u ∙ rw read malformed_keys in
      (
        faults.1 (rw read (malformed_bcrypt, refl)),
        validate-check compare_hash k ⦃uuid_eq = uuid_eq⦄ u credentials
            ∙ ap (check_keys compare_hash k) listed
            ∙ rw (no_hash k, check_keys) refl,
      )

  -- The contents that there are
  corrupted_content_cases :
      (t content : Bytes)
      → corrupted_content t ≡ some content
      → (unlines (codes "[not-a-uuid]" ∷ codes "test-key" ∷ []) ≡ content)
        ⊎ (unlines (codes "test-key" ∷ sample_header ∷ []) ≡ content)
        ⊎ ((equal t (codes "malformed-bcrypt") ≡ true)
            × (unlines (sample_header ∷ sample_hash ∷ []) ≡ content))
        ⊎ (unlines (codes "[11111111-2222-3333-4444-555555555555" ∷ codes "test-key" ∷ [])
            ≡ content)
  unfolding corrupted_content
  corrupted_content_cases t content h = elim (Bool-cases (equal t (codes "invalid-uuid"))) [
    | inl a ↦ inl (ground arith)
    | inr a ↦ elim (Bool-cases (equal t (codes "key-before-org"))) [
      | inl b ↦ inr (inl (ground arith))
      | inr b ↦ elim (Bool-cases (equal t (codes "malformed-bcrypt"))) [
        | inl m ↦ inr (inr (inl (m, ground arith)))
        | inr m ↦ elim (Bool-cases (equal t (codes "incomplete-bracket"))) [
          | inl d ↦ inr (inr (inr (ground arith)))
          | inr d ↦ ground arith
        ]
      ]
    ]
  ]

  refused_content :
      (a b content : Bytes)
      → IsLine a
      → IsLine b
      → is_valid lib none (a ∷ b ∷ []) ≡ false
      → unlines (a ∷ b ∷ []) ≡ content
      → (loaded content).1 ≢ none
  refused_content a b content p q faulty same =
      subst (λ x. (loaded x).1 ≢ none) same (refused lib (a ∷ b ∷ []) (two-IsLine a b p q) faulty)

  -- Where "not-a-uuid" does not parse, the UUID of the contents does, and bcrypt refuses the malformed
  -- hash with an error: LoadFromFile refuses every content that is made to be corrupted but
  -- malformed-bcrypt. That loads without an error, and ValidateCredentials answers every key of its
  -- organization with an error.
  pub load-corrupted :
      (corruption_type content k : Bytes)
      → corrupted_content corruption_type ≡ some content
      → ((loaded content).1 ≢ none)
        ⊎ ((corruption_type ≡ codes "malformed-bcrypt")
            × ((loaded content).1 ≡ none)
            × (validate_credentials ⦃uuid_eq = uuid_eq⦄ compare_hash u k (loaded content).0
                ≡ (false, some (wrapf "bcrypt comparison failed: " e))))
  load-corrupted t content k h = elim (corrupted_content_cases t content h) [
    | inl c ↦ inl (
        refused_content _ _ content (record { is_printable = refl; is_short = omega arith })
          (record { is_printable = refl; is_short = omega arith }) invalid_uuid c)
    | inr (inl c) ↦ inl (
        refused_content _ _ content (record { is_printable = refl; is_short = omega arith })
          (record { is_printable = refl; is_short = omega arith }) key_before_org c)
    | inr (inr (inl (m, c))) ↦
        let (fine, denied) = malformed k in
        inr (
          (equal_iff t (codes "malformed-bcrypt")).0 m,
          subst (λ x. (loaded x).1 ≡ none) c fine,
          subst
              (λ x.
                validate_credentials ⦃uuid_eq = uuid_eq⦄ compare_hash u k (loaded x).0
                ≡ (false, some (wrapf "bcrypt comparison failed: " e)))
              c denied,
        )
    | inr (inr (inr c)) ↦ inl (
        refused_content _ _ content (record { is_printable = refl; is_short = omega arith })
          (record { is_printable = refl; is_short = omega arith }) incomplete_bracket c)
  ]
