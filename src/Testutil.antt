-- ===== src/Testutil.antt =====
-- internal/auth/testutil/helpers.go: the fixtures of the tests. The calls of package testing are results:
-- t.Errorf lets a test go on, t.Fatalf ends it. bcrypt is a parameter that takes the cost and the number of the
-- call, and uuid.New one that takes the number of the call. The type of its organizations is that
-- of cmd/keygen, which declares the same fields.
pub mod Substring
pub mod InitConfig
pub mod AuthConfig
pub mod Corrupted
pub mod Fixture
use eterrain_tf_upload.Base.{
  ℕ, zero, suc, ◌+◌, ◌-◌, Bool, true, false, not, ◌&&◌, ◌||◌, Option, none, some, List, [], ◌∷◌,
  ◌++◌, if◌then◌else◌, leb, ltb, ◌==◌, length, take, drop,
}
use eterrain_tf_upload.Text.{Bytes, codes, equal, show}
use eterrain_tf_upload.Errors.{Error, wrapf, Result, ok, err}
use eterrain_tf_upload.Path.{join}
use eterrain_tf_upload.Uuid.{UuidLib}
use eterrain_tf_upload.Io.Lines.{unlines}
use eterrain_tf_upload.Keygen.{OrgConfig}

abbrev pub default_bcrypt_cost : ℕ
default_bcrypt_cost = 4

-- How a helper leaves its test
pub data TestResult : Type 0 where
  passed errored fatal : TestResult

-- The loop of findSubstring, from i on for a number of rounds
unfoldable pub find_from : Bytes → Bytes → ℕ → ℕ → Bool
find_from s substr i zero = false
find_from s substr i (suc rounds) =
    let rest = find_from s substr (i + 1) rounds in
    if equal (take (length substr) (drop i s)) substr then true else rest

-- len(s)-len(substr) may be negative, and then there is no round.
unfoldable pub find_substring : Bytes → Bytes → Bool
unfolding find_from
find_substring s substr =
    if ltb (length s) (length substr)
    then false
    else find_from s substr 0 (suc (length s - length substr))

-- contains
unfoldable pub contains_text : Bytes → Bytes → Bool
unfolding find_substring
contains_text s substr =
    leb (length substr) (length s)
    && (equal s substr || length substr == 0 || find_substring s substr)

-- AssertFileContains and AssertFileNotContains, on what os.ReadFile gives
unfoldable pub assert_file_contains : Result Bytes → Bytes → TestResult
unfolding contains_text
assert_file_contains (err e) substring = fatal
assert_file_contains (ok content) substring =
    if not (contains_text content substring) then errored else passed

unfoldable pub assert_file_not_contains : Result Bytes → Bytes → TestResult
unfolding contains_text
assert_file_not_contains (err e) substring = fatal
assert_file_not_contains (ok content) substring =
    if contains_text content substring then errored else passed

-- AssertFileExists, on what os.IsNotExist says of the error of os.Stat
unfoldable pub assert_file_exists : Bool → TestResult
assert_file_exists true = fatal
assert_file_exists false = passed

-- WaitForFileChange, on the error of os.WriteFile; it does not wait.
unfoldable pub wait_for_file_change : Option Error → TestResult
wait_for_file_change (some e) = fatal
wait_for_file_change none = passed

-- ValidateTestCredentials, on what the validator gives
unfoldable pub validate_test_credentials : Bool × Option Error → Bool → TestResult
validate_test_credentials (valid, some e) expect_valid = fatal
validate_test_credentials (true, none) true = passed
validate_test_credentials (true, none) false = errored
validate_test_credentials (false, none) true = errored
validate_test_credentials (false, none) false = passed

-- The contents that CreateCorruptedAuthConfig writes; any other type is fatal.
unfoldable pub corrupted_content : Bytes → Option Bytes
unfolding equal
corrupted_content corruption_type =
    if equal corruption_type (codes "invalid-uuid")
    then some (unlines (codes "[not-a-uuid]" ∷ codes "test-key" ∷ []))
    else if equal corruption_type (codes "key-before-org")
    then some (unlines (codes "test-key" ∷ codes "[11111111-2222-3333-4444-555555555555]" ∷ []))
    else if equal corruption_type (codes "malformed-bcrypt")
    then some
        (unlines (codes "[11111111-2222-3333-4444-555555555555]" ∷ codes "$2a$invalid$hash" ∷ []))
    else if equal corruption_type (codes "incomplete-bracket")
    then some (unlines (codes "[11111111-2222-3333-4444-555555555555" ∷ codes "test-key" ∷ []))
    else none

-- The keys of a loop over j, from j on
unfoldable pub keys_from : (ℕ → Bytes) → ℕ → ℕ → List Bytes
keys_from format j zero = []
keys_from format j (suc keys) = format j ∷ keys_from format (j + 1) keys

-- "test-key-%d-%d"
abbrev pub test_key : ℕ → ℕ → Bytes
test_key i j = codes "test-key-" ++ (show i ++ (b'-' ∷ show j))

-- "key-org%d-%d"
abbrev pub multi_org_key : ℕ → ℕ → Bytes
multi_org_key i j = codes "key-org" ++ (show i ++ (b'-' ∷ show j))

module _ {Uuid : Type 0} where
  -- The organizations of a loop over i, from i on
  unfoldable pub orgs_from : (ℕ → Uuid) → (ℕ → ℕ → Bytes) → ℕ → ℕ → ℕ → List (OrgConfig Uuid)
  unfolding keys_from
  orgs_from new_uuid format i zero keys_per_org = []
  orgs_from new_uuid format i (suc orgs) keys_per_org =
      record { org_id = new_uuid i; api_keys = keys_from (format i) 0 keys_per_org }
      ∷ orgs_from new_uuid format (i + 1) orgs keys_per_org

  -- GenerateTestOrgs
  unfoldable pub generate_test_orgs : (ℕ → Uuid) → ℕ → ℕ → List (OrgConfig Uuid)
  unfolding orgs_from
  generate_test_orgs new_uuid num_orgs keys_per_org =
      orgs_from new_uuid test_key 0 num_orgs keys_per_org

module _ (lib : UuidLib) where
  open lib use {Uuid, to_string}

  -- The loop of WriteInitConfig; `first` is i == 0
  unfoldable pub write_init_orgs : Bool → List (OrgConfig Uuid) → Bytes
  unfolding unlines
  write_init_orgs first [] = []
  write_init_orgs first (org ∷ orgs) =
      let separator : Bytes = if first then [] else b'\n' ∷ [] in
      let header = b'[' ∷ (to_string org.org_id ++ (b']' ∷ b'\n' ∷ [])) in
      separator ++ (header ++ (unlines org.api_keys ++ write_init_orgs false orgs))

  -- WriteInitConfig: what os.Create gives, how many bytes the disk takes, the organizations
  unfoldable pub write_init_config :
      Option Error → ℕ → List (OrgConfig Uuid) → Option Bytes × Option Error
  unfolding write_init_orgs
  write_init_config (some e) room orgs = (none, some (wrapf "failed to create init config: " e))
  write_init_config none room orgs = (some (take room (write_init_orgs true orgs)), none)

abbrev pub test_preamble : List Bytes
test_preamble =
    codes "# Auto-generated authentication config" ∷ codes "# Generated for testing" ∷ [] ∷ []

module _ (hash : ℕ → ℕ → Bytes → Result Bytes) where
  -- HashAPIKey
  unfoldable pub hash_test_key : ℕ → ℕ → Bytes → Result Bytes
  hash_test_key cost n api_key = elim (hash cost n api_key) [
    | err e ↦ err e
    | ok hashed ↦ ok hashed
  ]

  abbrev pub hash_test_key_default : ℕ → Bytes → Result Bytes
  hash_test_key_default = hash_test_key default_bcrypt_cost

  -- MustHashAPIKey, where none is the panic
  unfoldable pub must_hash_test_key : ℕ → ℕ → Bytes → Option Bytes
  unfolding hash_test_key
  must_hash_test_key cost n api_key = elim (hash_test_key cost n api_key) [
    | err e ↦ none
    | ok hashed ↦ some hashed
  ]

  -- The loop over the keys of an organization: what it writes, the next call, and its error
  unfoldable pub write_test_keys : ℕ → ℕ → List Bytes → Bytes × ℕ × Option Error
  write_test_keys cost n [] = ([], n, none)
  write_test_keys cost n (key ∷ keys) =
      let (rest, m, failed) = write_test_keys cost (n + 1) keys in
      elim (hash cost n key) [
        | err e ↦ ([], n + 1, some (wrapf "failed to hash key: " e))
        | ok hashed ↦ (hashed ++ (b'\n' ∷ rest), m, failed)
      ]

  module _ (lib : UuidLib) where
    open lib use {Uuid, to_string}

    -- The loop of WriteAuthConfig
    unfoldable pub write_test_orgs : ℕ → Bool → ℕ → List (OrgConfig Uuid) → Bytes × Option Error
    unfolding write_test_keys
    write_test_orgs cost first n [] = ([], none)
    write_test_orgs cost first n (org ∷ orgs) =
        let (keys, m, failed) = write_test_keys cost n org.api_keys in
        let (rest, later) = write_test_orgs cost false m orgs in
        let separator : Bytes = if first then [] else b'\n' ∷ [] in
        let header = b'[' ∷ (to_string org.org_id ++ (b']' ∷ b'\n' ∷ [])) in
        elim failed [
          | some e ↦ (separator ++ (header ++ keys), some e)
          | none ↦ (separator ++ (header ++ (keys ++ rest)), later)
        ]

    -- WriteAuthConfig: the file, if it was created, and the error. The writer is flushed on every return.
    unfoldable pub write_auth_config :
        ℕ → Option Error → ℕ → List (OrgConfig Uuid) → Option Bytes × Option Error
    unfolding write_test_orgs unlines
    write_auth_config cost (some e) room orgs =
        (none, some (wrapf "failed to create auth config: " e))
    write_auth_config cost none room orgs =
        let (text, failed) = write_test_orgs cost true 0 orgs in
        (some (take room (unlines test_preamble ++ text)), failed)

    -- CreateSimpleAuthConfig: an error is fatal.
    unfoldable pub create_simple_auth_config :
        Option Error → ℕ → Uuid → Bytes → Option Bytes × Option Error
    unfolding write_auth_config
    create_simple_auth_config create_error room org_id api_key =
        write_auth_config default_bcrypt_cost create_error room
          (record { org_id = org_id; api_keys = api_key ∷ [] } ∷ [])

    -- CreateMultiOrgAuthConfig: an error is fatal.
    unfoldable pub create_multi_org_auth_config :
        (ℕ → Uuid)
        → Option Error
        → ℕ
        → ℕ
        → ℕ
        → (Option Bytes × Option Error) × List (OrgConfig Uuid)
    unfolding write_auth_config orgs_from
    create_multi_org_auth_config new_uuid create_error room num_orgs keys_per_org =
        let orgs = orgs_from new_uuid multi_org_key 0 num_orgs keys_per_org in
        (write_auth_config default_bcrypt_cost create_error room orgs, orgs)
