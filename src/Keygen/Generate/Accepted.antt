-- ===== src/Keygen/Generate/Accepted.antt =====
-- From the keys that are configured to the keys that the service accepts.
use eterrain_tf_upload.Base.{
  take_all, ℕ, ◌≤◌, ◌≡◌, ◌∙◌, refl, ap, sym, subst, true, none, some, List, [], ◌∷◌, ◌++◌, arith,
  All, length, inl, inr,
}
use eterrain_tf_upload.Text.{Bytes, equal, trim_space, has_prefix}
use eterrain_tf_upload.Errors.{Result, ok}
use eterrain_tf_upload.Uuid.{UuidLib}
use eterrain_tf_upload.Io.{Stream, scan_lines}
use eterrain_tf_upload.Io.Lines.{IsLine, unlines, unlines-append, scan_lines-unlines}
use eterrain_tf_upload.Auth.Config.{is_skipped}
use eterrain_tf_upload.Auth.FileStore.{
  Comparison, check_keys, keys_of, validate_credentials, load_from_file,
}
use eterrain_tf_upload.Auth.FileStore.Validate.{validate-check}
use eterrain_tf_upload.Auth.FileStore.Load.{line_of, keys_under, is_valid, load_from_file_iff}
use eterrain_tf_upload.Keygen.{OrgConfig}
use eterrain_tf_upload.Keygen.Agreement.{keys_in}
use eterrain_tf_upload.Keygen.Generate.{preamble, auth_config, generate_auth_config}
use eterrain_tf_upload.Keygen.Generate.Bcrypt.{BcryptLaws}
use eterrain_tf_upload.Keygen.Generate.Sections.{Hashes, Short, All-append, write_orgs-Sections}

preamble-IsLine : All IsLine preamble
preamble-IsLine = (
  record { is_printable = refl; is_short = omega arith },
  (
    record { is_printable = refl; is_short = omega arith },
    (
      record { is_printable = refl; is_short = omega arith },
      (
        record { is_printable = refl; is_short = omega arith },
        (record { is_printable = refl; is_short = omega arith }, tt),
      ),
    ),
  ),
)

module _ (lib : UuidLib) where
  open lib use {Uuid, uuid_eq}

  is_valid-preamble :
      (lines : List Bytes) → is_valid lib none (preamble ++ lines) ≡ is_valid lib none lines
  unfolding is_valid line_of is_skipped equal has_prefix trim_space
  is_valid-preamble lines = refl

  keys_under-preamble :
      (u : Uuid) (lines : List Bytes)
      → keys_under lib u none (preamble ++ lines) ≡ keys_under lib u none lines
  unfolding keys_under line_of is_skipped equal has_prefix trim_space
  keys_under-preamble u lines = refl

  module _ (hash : ℕ → Bytes → Result Bytes) (compare_hash : Bytes → Bytes → Comparison)
      (laws : BcryptLaws hash compare_hash) where
    pub check_keys-Hashes :
        (before : List Bytes) (k : Bytes) (after hs : List Bytes)
        → Hashes hash (before ++ (k ∷ after)) hs
        → check_keys compare_hash k hs ≡ (true, none)
    unfolding check_keys Hashes
    check_keys-Hashes [] k after [] p = elim p [ ]
    check_keys-Hashes [] k after (h ∷ hs) p =
        let (n, e) = p.0 in
        ground (arith, laws.compare-hash n k h e, (laws.hash-IsHash n k h e).is_marked)
    check_keys-Hashes (j ∷ before) k after [] p = elim p [ ]
    check_keys-Hashes (j ∷ before) k after (h ∷ hs) p =
        let (n, e) = p.0 in
        let marked = (laws.hash-IsHash n j h e).is_marked in
        elim (laws.compare-other n j h k e) [
          | inl same ↦ ground arith
          | inr other ↦ ground (arith, check_keys-Hashes before k after hs p.1)
        ]

    -- The file that is written, as the service opens it.
    abbrev pub written_file : List (OrgConfig Uuid) → Stream
    written_file orgs = record { content = (auth_config hash lib orgs).0; failure = none }

    -- If all keys have at most 72 bytes and the disk takes the whole file, then generateAuthConfig succeeds,
    -- LoadFromFile reads its file with no error, and the keys on record for each organization are
    -- hashes of its configured keys, one for each, in their order.
    pub generate_auth_config-load :
        (room : ℕ) (orgs : List (OrgConfig Uuid))
        → All (λ (org : OrgConfig Uuid). Short org.api_keys) orgs
        → length (auth_config hash lib orgs).0 ≤ room
        → (generate_auth_config hash lib none room orgs
            ≡ (some (auth_config hash lib orgs).0, none))
          × ((load_from_file lib (ok (written_file orgs)) []).1 ≡ none)
          × ((u : Uuid)
              → Hashes hash (keys_in lib u orgs) (
                  keys_of ⦃uuid_eq = uuid_eq⦄ u (load_from_file lib (ok (written_file orgs)) []).0))
    unfolding generate_auth_config auth_config
    generate_auth_config-load room orgs short fits =
        let sections = write_orgs-Sections hash compare_hash laws lib true 0 orgs short in
        let lines = preamble ++ sections.lines in
        let whole : (auth_config hash lib orgs) ≡ (unlines lines, none) =
          ground (arith, sections.text, unlines-append preamble sections.lines) in
        let read : scan_lines (written_file orgs) ≡ (lines, none) =
          ap (λ (w : Bytes × _). scan_lines (record { content = w.0; failure = none })) whole
          ∙ scan_lines-unlines lines
              (All-append IsLine preamble sections.lines preamble-IsLine sections.are_lines) in
        let (keys, faults) = load_from_file_iff lib (written_file orgs) [] in
        (
          ground (arith, sections.text, take_all room (auth_config hash lib orgs).0 fits),
          faults.1 (rw read (is_valid-preamble sections.lines ∙ sections.valid none, refl)),
          λ u.
              subst (Hashes hash (keys_in lib u orgs))
                (sym (keys u ∙ rw read (keys_under-preamble u sections.lines)))
                (sections.keys u none),
        )

    -- If all keys have at most 72 bytes, every key that is configured for an organization is accepted by
    -- ValidateCredentials with what LoadFromFile reads from the file that generateAuthConfig writes.
    pub validate-generate_auth_config :
        (orgs : List (OrgConfig Uuid)) (u : Uuid) (before : List Bytes) (k : Bytes)
        (after : List Bytes)
        → All (λ (org : OrgConfig Uuid). Short org.api_keys) orgs
        → keys_in lib u orgs ≡ before ++ (k ∷ after)
        → validate_credentials ⦃uuid_eq = uuid_eq⦄ compare_hash u k
            (load_from_file lib (ok (written_file orgs)) []).0
          ≡ (true, none)
    validate-generate_auth_config orgs u before k after short listed =
        let credentials = (load_from_file lib (ok (written_file orgs)) []).0 in
        let loaded =
          generate_auth_config-load (length (auth_config hash lib orgs).0) orgs short
            (omega arith) in
        validate-check compare_hash k ⦃uuid_eq = uuid_eq⦄ u credentials
        ∙ check_keys-Hashes before k after (keys_of ⦃uuid_eq = uuid_eq⦄ u credentials) (
            subst (λ ks. Hashes hash ks (keys_of ⦃uuid_eq = uuid_eq⦄ u credentials)) listed
              (loaded.2 u))
