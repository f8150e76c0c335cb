-- ===== src/Auth/FileStore.antt =====
-- FileStore of internal/auth/store.go: loading auth.cfg and checking a key. bcrypt is a parameter.
pub mod Validate
pub mod Load
pub mod Watch
use eterrain_tf_upload.Base.{
  ℕ, ◌+◌, Bool, true, false, not, ◌||◌, Option, none, some, List, [], ◌∷◌, ◌++◌, Eq, if◌then◌else◌,
}
use eterrain_tf_upload.Text.{Bytes, codes, equal, has_prefix, trim_space}
use eterrain_tf_upload.Errors.{Error, errorf, wrapf, bytes, number, Result, ok, err}
use eterrain_tf_upload.Maps.{Map, lookup, insert}
use eterrain_tf_upload.Uuid.{UuidLib}
use eterrain_tf_upload.Io.{Stream, scan_lines}
use eterrain_tf_upload.Auth.Config.{is_skipped, is_header, header_text}

-- What bcrypt.CompareHashAndPassword returns: nil, ErrMismatchedHashAndPassword, another error.
pub data Comparison : Type 0 where
  matched mismatched : Comparison
  broken : Error → Comparison

-- strings.HasPrefix(hashedKey, "$2a$") || … "$2b$" || … "$2y$"
unfoldable pub is_bcrypt : Bytes → Bool
unfolding has_prefix
is_bcrypt key =
    has_prefix key (codes "$2a$") || has_prefix key (codes "$2b$") || has_prefix key (codes "$2y$")

-- bcrypt.CompareHashAndPassword
module _ (compare_hash : Bytes → Bytes → Comparison) where
  -- The loop over the keys of an organization
  unfoldable pub check_keys : Bytes → List Bytes → Bool × Option Error
  unfolding is_bcrypt equal
  check_keys api_key [] = (false, none)
  check_keys api_key (hashed_key ∷ keys) =
      let rest = check_keys api_key keys in
      if is_bcrypt hashed_key
      then elim (compare_hash hashed_key api_key) [
        | matched ↦ (true, none)
        | mismatched ↦ rest
        | broken e ↦ (false, some (wrapf "bcrypt comparison failed: " e))
      ]
      else if equal hashed_key api_key
      then (true, none)
      else rest

module _ {Uuid : Type 0} ⦃uuid_eq : Eq Uuid⦄ where
  -- credentials[orgID], which is empty where the organization is not there
  unfoldable pub keys_of : Uuid → Map Uuid (List Bytes) → List Bytes
  keys_of org_id credentials = elim (lookup org_id credentials) [ none ↦ [] | some keys ↦ keys ]

  -- ValidateCredentials
  unfoldable pub validate_credentials :
      (Bytes → Bytes → Comparison) → Uuid → Bytes → Map Uuid (List Bytes) → Bool × Option Error
  unfolding keys_of check_keys
  validate_credentials compare_hash org_id api_key credentials = elim (keys_of org_id credentials) [
    | [] ↦ (false, none)
    | key ∷ keys ↦ check_keys compare_hash api_key (key ∷ keys)
  ]

module _ (lib : UuidLib) where
  open lib use {Uuid, uuid_eq, parse}

  -- if _, exists := s.credentials[currentOrgID]; !exists { … = []string{} }
  unfoldable pub declare_org : Uuid → Map Uuid (List Bytes) → Map Uuid (List Bytes)
  declare_org org_id credentials = elim (lookup ⦃eq = uuid_eq⦄ org_id credentials) [
    | none ↦ insert ⦃eq = uuid_eq⦄ org_id [] credentials
    | some keys ↦ credentials
  ]

  unfoldable pub add_key : Uuid → Bytes → Map Uuid (List Bytes) → Map Uuid (List Bytes)
  unfolding keys_of
  add_key org_id api_key credentials =
      insert ⦃eq = uuid_eq⦄ org_id (keys_of ⦃uuid_eq = uuid_eq⦄ org_id credentials ++ api_key ∷ [])
        credentials

  -- The loop over the lines: `current` is currentOrgID where hasCurrentOrg is set. An error leaves the
  -- credentials as the lines before it made them.
  unfoldable pub load_lines :
      Map Uuid (List Bytes) → Option Uuid → ℕ → List Bytes → Map Uuid (List Bytes) × Option Error
  load_lines credentials current line_num [] = (credentials, none)
  load_lines credentials current line_num (text ∷ texts) =
      let n = line_num + 1 in
      let line = trim_space text in
      let skipped = load_lines credentials current n texts in
      let opened =
        λ (org_id : Uuid). load_lines (declare_org org_id credentials) (some org_id) n texts in
      let added = λ (org_id : Uuid). load_lines (add_key org_id line credentials) current n texts in
      if is_skipped line
      then skipped
      else if is_header line
      then elim (parse (header_text line)) [
        | none ↦ (
          credentials,
          some (errorf "invalid UUID on line %d: %s" (number n ∷ bytes (header_text line) ∷ [])),
        )
        | some org_id ↦ opened org_id
      ]
      else elim current [
        | none ↦ (
          credentials,
          some (errorf "API key on line %d appears before any org ID declaration" (number n ∷ [])),
        )
        | some org_id ↦ added org_id
      ]

  -- s.credentials = make(map[uuid.UUID][]string)
  abbrev pub clear_credentials : Map Uuid (List Bytes) → Map Uuid (List Bytes)
  clear_credentials credentials = []

  -- LoadFromFile, on what os.Open gives and the credentials of the store, which are cleared first.
  unfoldable pub load_from_file :
      Result Stream → Map Uuid (List Bytes) → Map Uuid (List Bytes) × Option Error
  load_from_file (err e) credentials =
      (clear_credentials credentials, some (wrapf "failed to open auth config file: " e))
  load_from_file (ok file) credentials =
      let (lines, read_error) = scan_lines file in
      let (loaded, failed) = load_lines (clear_credentials credentials) none 0 lines in
      elim failed [
        | some e ↦ (loaded, some e)
        | none ↦ elim read_error [
          | some e ↦ (loaded, some (wrapf "error reading auth config file: " e))
          | none ↦ (loaded, none)
        ]
      ]

  abbrev pub reload : Result Stream → Map Uuid (List Bytes) → Map Uuid (List Bytes) × Option Error
  reload = load_from_file

  -- NewFileStore, from what os.Open gives and the errors of fsnotify.NewWatcher and of Watcher.Add: the
  -- credentials with which the watching starts
  unfoldable pub new_file_store :
      Result Stream → Option Error → Option Error → Result (Map Uuid (List Bytes))
  unfolding load_from_file
  new_file_store opened watcher_error add_error =
      let (credentials, failed) = load_from_file opened [] in
      elim failed [
        | some e ↦ err (wrapf "failed to load credentials from file: " e)
        | none ↦ elim watcher_error [
          | some e ↦ err (wrapf "failed to create file watcher: " e)
          | none ↦ elim add_error [
            | some e ↦ err (wrapf "failed to watch auth config file: " e)
            | none ↦ ok credentials
          ]
        ]
      ]
