-- ===== src/Keygen/Main.antt =====
-- main of cmd/keygen/main.go: the file names, and from the input file to the output file. log.Fatalf, which
-- ends the process, is an error.
use eterrain_tf_upload.Base.{
  ℕ, ◌≤◌, ◌≡◌, ◌∙◌, inl, inr, sym, arith, true, none, some, Option, List, [], ◌∷◌, ◌++◌, All,
  length,
}
use eterrain_tf_upload.Text.{Bytes, codes}
use eterrain_tf_upload.Errors.{Error, wrapf, Result, ok, err}
use eterrain_tf_upload.Uuid.{UuidLib}
use eterrain_tf_upload.Io.{Stream}
use eterrain_tf_upload.Auth.FileStore.{Comparison, keys_of, validate_credentials, load_from_file}
use eterrain_tf_upload.Keygen.{OrgConfig, read_init_config}
use eterrain_tf_upload.Keygen.Agreement.{keys_in, read_init_config_cases}
use eterrain_tf_upload.Keygen.Generate.{auth_config, generate_auth_config}
use eterrain_tf_upload.Keygen.Generate.Bcrypt.{BcryptLaws}
use eterrain_tf_upload.Keygen.Generate.Sections.{Short}
use eterrain_tf_upload.Keygen.Generate.Accepted.{
  generate_auth_config-load, validate-generate_auth_config,
}

-- inputFile and outputFile, from os.Args
unfoldable pub file_names : List Bytes → Bytes × Bytes
file_names (program ∷ input ∷ output ∷ more) = (input, output)
file_names (program ∷ input ∷ []) = (input, codes "./auth.cfg")
file_names (program ∷ []) = (codes "./init-config.cfg", codes "./auth.cfg")
file_names [] = (codes "./init-config.cfg", codes "./auth.cfg")

module _ (lib : UuidLib) (hash : ℕ → Bytes → Result Bytes) where
  open lib use {Uuid, uuid_eq}

  -- What os.Open gives of the input, what os.Create gives of the output, and how many bytes the disk
  -- takes; the output file, if there is one, and the error.
  unfoldable pub keygen : Result Stream → Option Error → ℕ → Option Bytes × Option Error
  keygen input create_error room = elim (read_init_config lib input) [
    | err e ↦ (none, some (wrapf "Failed to read init config: " e))
    | ok orgs ↦
        let (output, failed) = generate_auth_config hash lib create_error room orgs in
        (
          output,
          elim failed [ none ↦ none | some e ↦ some (wrapf "Failed to generate auth config: " e) ],
        )
  ]

  module _ (compare_hash : Bytes → Bytes → Comparison) (laws : BcryptLaws hash compare_hash) where
    -- The key generator reads organizations from its input, their keys have at most 72 bytes, and the disk takes
    -- the whole output: it succeeds, and each key that the input lists for an organization, read as
    -- LoadFromFile reads it, is accepted by ValidateCredentials with what LoadFromFile reads from the
    -- output.
    pub validate-keygen :
        (input : Stream) (room : ℕ) (orgs : List (OrgConfig Uuid)) (u : Uuid) (before : List Bytes)
        (k : Bytes) (after : List Bytes)
        → read_init_config lib (ok input) ≡ ok orgs
        → All (λ (org : OrgConfig Uuid). Short org.api_keys) orgs
        → length (auth_config hash lib orgs).0 ≤ room
        → keys_of ⦃uuid_eq = uuid_eq⦄ u (load_from_file lib (ok input) []).0 ≡ before ++ (k ∷ after)
        → (output : Bytes) × (_ : keygen (ok input) none room ≡ (some output, none))
          × (validate_credentials ⦃uuid_eq = uuid_eq⦄ compare_hash u k
                (load_from_file lib (ok (record { content = output; failure = none })) []).0
              ≡ (true, none))
    unfolding keygen
    validate-keygen input room orgs u before k after reads short fits listed =
        let (made, rest, keys) =
          generate_auth_config-load lib hash compare_hash laws room orgs short fits in
        let same : keys_of ⦃uuid_eq = uuid_eq⦄ u (load_from_file lib (ok input) []).0
            ≡ keys_in lib u orgs =
          elim (read_init_config_cases lib input) [
            | inl (orgs', e, f, g) ↦ ground (arith, reads, e, g u)
            | inr (x, e, f) ↦ absurd (ground (arith, reads, e))
          ] in
        (
          (auth_config hash lib orgs).0,
          ground (arith, reads, made),
          validate-generate_auth_config lib hash compare_hash laws orgs u before k after short
              (sym same ∙ listed),
        )
