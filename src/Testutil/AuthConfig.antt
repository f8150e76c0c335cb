-- ===== src/Testutil/AuthConfig.antt =====
-- What the service reads of the file that WriteAuthConfig writes, and of the corrupted ones.
use eterrain_tf_upload.Base.{
  ℕ, ◌+◌, ◌≤◌, ◌≡◌, ◌∙◌, refl, ap, sym, subst, Bool, true, false, none, some, List, [], ◌∷◌, ◌++◌,
  arith, All, length, take_all, Option,
}
use eterrain_tf_upload.Text.{Bytes, equal, trim_space, has_prefix}
use eterrain_tf_upload.Errors.{Error, Result, ok}
use eterrain_tf_upload.Uuid.{UuidLib}
use eterrain_tf_upload.Io.{Stream, scan_lines}
use eterrain_tf_upload.Io.Lines.{IsLine, unlines, unlines-append, scan_lines-unlines}
use eterrain_tf_upload.Auth.Config.{is_skipped}
use eterrain_tf_upload.Auth.FileStore.{Comparison, keys_of, validate_credentials, load_from_file}
use eterrain_tf_upload.Auth.FileStore.Validate.{validate-check}
use eterrain_tf_upload.Auth.FileStore.Load.{line_of, keys_under, is_valid, load_from_file_iff}
use eterrain_tf_upload.Keygen.{OrgConfig}
use eterrain_tf_upload.Keygen.Agreement.{keys_in}
use eterrain_tf_upload.Keygen.Generate.{write_keys, write_orgs}
use eterrain_tf_upload.Keygen.Generate.Bcrypt.{BcryptLaws}
use eterrain_tf_upload.Keygen.Generate.Sections.{Hashes, Short, All-append, write_orgs-Sections}
use eterrain_tf_upload.Keygen.Generate.Accepted.{check_keys-Hashes}
use eterrain_tf_upload.Testutil.{test_preamble, write_test_keys, write_test_orgs, write_auth_config}

test_preamble-IsLine : All IsLine test_preamble
test_preamble-IsLine = (
  record { is_printable = refl; is_short = omega arith },
  (
    record { is_printable = refl; is_short = omega arith },
    (record { is_printable = refl; is_short = omega arith }, tt),
  ),
)

module _ (lib : UuidLib) where
  open lib use {Uuid, uuid_eq, to_string}

  is_valid-preamble :
      (lines : List Bytes) → is_valid lib none (test_preamble ++ lines) ≡ is_valid lib none lines
  unfolding is_valid line_of is_skipped equal has_prefix trim_space
  is_valid-preamble lines = refl

  keys_under-preamble :
      (u : Uuid) (lines : List Bytes)
      → keys_under lib u none (test_preamble ++ lines) ≡ keys_under lib u none lines
  unfolding keys_under line_of is_skipped equal has_prefix trim_space
  keys_under-preamble u lines = refl

  module _ (hash : ℕ → ℕ → Bytes → Result Bytes) (cost : ℕ)
      (compare_hash : Bytes → Bytes → Comparison) (laws : BcryptLaws (hash cost) compare_hash) where
    -- Where no key fails, the helper writes what the key generator writes.
    write_test_keys-same :
        (id : Bytes) (n : ℕ) (ks : List Bytes)
        → Short ks
        → write_test_keys hash cost n ks ≡ write_keys (hash cost) id n ks
    unfolding write_test_keys write_keys
    write_test_keys-same id n [] short = refl
    write_test_keys-same id n (k ∷ ks) short =
        let (h, e) = laws.hash-short n k short.0 in
        ground (arith, e, write_test_keys-same id (n + 1) ks short.1)

    write_test_orgs-same :
        (first : Bool) (n : ℕ) (orgs : List (OrgConfig Uuid))
        → All (λ (org : OrgConfig Uuid). Short org.api_keys) orgs
        → write_test_orgs hash lib cost first n orgs ≡ write_orgs (hash cost) lib first n orgs
    unfolding write_test_orgs write_orgs
    write_test_orgs-same first n [] short = refl
    write_test_orgs-same first n (org ∷ orgs) short = ground (
      arith,
      write_test_keys-same (to_string org.org_id) n org.api_keys short.0,
      write_test_orgs-same false (write_keys (hash cost) (to_string org.org_id) n org.api_keys).1
          orgs short.1,
    )

    abbrev pub auth_text : List (OrgConfig Uuid) → Bytes
    auth_text orgs = unlines test_preamble ++ (write_test_orgs hash lib cost true 0 orgs).0

    -- If all keys have at most 72 bytes and the disk takes the whole file, then WriteAuthConfig succeeds,
    -- and ValidateCredentials accepts every key of every organization with what LoadFromFile reads,
    -- without an error, from its file.
    pub validate-write_auth_config :
        (orgs : List (OrgConfig Uuid)) (room : ℕ) (u : Uuid) (before : List Bytes) (k : Bytes)
        (after : List Bytes)
        → All (λ (org : OrgConfig Uuid). Short org.api_keys) orgs
        → length (auth_text orgs) ≤ room
        → keys_in lib u orgs ≡ before ++ (k ∷ after)
        → (output : Bytes) × (_ : write_auth_config hash lib cost none room orgs
            ≡ (some output, none))
          × ((load_from_file lib (ok (record { content = output; failure = none })) []).1 ≡ none)
          × (validate_credentials ⦃uuid_eq = uuid_eq⦄ compare_hash u k
                (load_from_file lib (ok (record { content = output; failure = none })) []).0
              ≡ (true, none))
    unfolding write_auth_config
    validate-write_auth_config orgs room u before k after short fits listed =
        let sections = write_orgs-Sections (hash cost) compare_hash laws lib true 0 orgs short in
        let lines = test_preamble ++ sections.lines in
        let same = write_test_orgs-same true 0 orgs short ∙ sections.text in
        let whole : auth_text orgs ≡ unlines lines =
          ap (λ (w : Bytes × Option Error). unlines test_preamble ++ w.0) same
          ∙ sym (unlines-append test_preamble sections.lines) in
        let file : Stream = record { content = auth_text orgs; failure = none } in
        let read : scan_lines file ≡ (lines, none) =
          ap (λ t. scan_lines (record { content = t; failure = none })) whole
          ∙ scan_lines-unlines lines (
              All-append IsLine test_preamble sections.lines test_preamble-IsLine
                sections.are_lines) in
        let (keys, faults) = load_from_file_iff lib file [] in
        let credentials = (load_from_file lib (ok file) []).0 in
        let hashed =
          subst (Hashes (hash cost) (keys_in lib u orgs))
            (sym (keys u ∙ rw read (keys_under-preamble u sections.lines)))
            (sections.keys u none) in
        (
          auth_text orgs,
          ground (arith, take_all room (auth_text orgs) fits, same),
          faults.1 (rw read (is_valid-preamble sections.lines ∙ sections.valid none, refl)),
          validate-check compare_hash k ⦃uuid_eq = uuid_eq⦄ u credentials
              ∙ check_keys-Hashes lib (hash cost) compare_hash laws before k after
                  (keys_of ⦃uuid_eq = uuid_eq⦄ u credentials)
                  (subst (λ ks. Hashes (hash cost) ks (keys_of ⦃uuid_eq = uuid_eq⦄ u credentials))
                    listed hashed),
        )
