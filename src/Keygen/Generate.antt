-- ===== src/Keygen/Generate.antt =====
-- generateAuthConfig and hashAPIKey of cmd/keygen/main.go. bcrypt.GenerateFromPassword is a parameter: it
-- takes the number of the call, since each call draws its own salt.
pub mod Bcrypt
pub mod Written
pub mod Sections
pub mod Accepted
use eterrain_tf_upload.Base.{
  ℕ, ◌+◌, Bool, true, false, Option, none, some, List, [], ◌∷◌, ◌++◌, if◌then◌else◌, take,
}
use eterrain_tf_upload.Text.{Bytes, codes}
use eterrain_tf_upload.Errors.{Error, wrapf, wrapf_with, bytes, Result, ok, err}
use eterrain_tf_upload.Uuid.{UuidLib}
use eterrain_tf_upload.Io.Lines.{unlines}
use eterrain_tf_upload.Keygen.{OrgConfig}

-- The four lines before the organizations, and an empty one
abbrev pub preamble : List Bytes
preamble =
    codes "# Authentication configuration file"
    ∷ codes "# Generated automatically - DO NOT EDIT MANUALLY"
    ∷ codes "# Format: [OrgID]"
    ∷ codes "# followed by bcrypt-hashed API keys (one per line)"
    ∷ []
    ∷ []

module _ (hash : ℕ → Bytes → Result Bytes) where
  unfoldable pub hash_api_key : ℕ → Bytes → Result Bytes
  hash_api_key n api_key = elim (hash n api_key) [
    | err e ↦ err (wrapf "failed to hash API key: " e)
    | ok hashed ↦ ok hashed
  ]

  -- The loop over the keys of an organization: what it writes, the next call, and its error
  unfoldable pub write_keys : Bytes → ℕ → List Bytes → Bytes × ℕ × Option Error
  unfolding hash_api_key
  write_keys org_id n [] = ([], n, none)
  write_keys org_id n (api_key ∷ api_keys) =
      let (rest, m, failed) = write_keys org_id (n + 1) api_keys in
      elim (hash_api_key n api_key) [
        | err e ↦ (
          [],
          n + 1,
          some (wrapf_with "failed to hash API key for org %s: " (bytes org_id ∷ []) e),
        )
        | ok hashed ↦ (hashed ++ (b'\n' ∷ rest), m, failed)
      ]

  module _ (lib : UuidLib) where
    open lib use {Uuid, to_string}

    -- The loop over the organizations; `first` is i == 0
    unfoldable pub write_orgs : Bool → ℕ → List (OrgConfig Uuid) → Bytes × Option Error
    unfolding write_keys
    write_orgs first n [] = ([], none)
    write_orgs first n (org ∷ orgs) =
        let (keys, m, failed) = write_keys (to_string org.org_id) n org.api_keys in
        let (rest, later) = write_orgs false m orgs in
        let separator : Bytes = if first then [] else b'\n' ∷ [] in
        let header = b'[' ∷ (to_string org.org_id ++ (b']' ∷ b'\n' ∷ [])) in
        elim failed [
          | some e ↦ (separator ++ (header ++ keys), some e)
          | none ↦ (separator ++ (header ++ (keys ++ rest)), later)
        ]

    -- All that generateAuthConfig writes, and its error
    unfoldable pub auth_config : List (OrgConfig Uuid) → Bytes × Option Error
    unfolding unlines write_orgs
    auth_config orgs =
        let (text, failed) = write_orgs true 0 orgs in (unlines preamble ++ text, failed)

    -- generateAuthConfig: what os.Create gives, how many bytes the disk takes, the organizations. The
    -- first result is the file, if it was created: the writer is flushed on every return, and errors of
    -- its writes are not looked at.
    unfoldable pub generate_auth_config :
        Option Error → ℕ → List (OrgConfig Uuid) → Option Bytes × Option Error
    unfolding auth_config
    generate_auth_config (some e) room orgs =
        (none, some (wrapf "failed to create output file: " e))
    generate_auth_config none room orgs =
        let (text, failed) = auth_config orgs in (some (take room text), failed)
