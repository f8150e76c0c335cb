-- ===== src/Tests/Helpers.antt =====
-- The test helpers: the files of two organizations, and a malformed hash.
use eterrain_tf_upload.Base.{ℕ, ◌≡◌, refl, true, none, some, [], ◌∷◌, arith, length}
use eterrain_tf_upload.Text.{Bytes, codes}
use eterrain_tf_upload.Errors.{Result, ok}
use eterrain_tf_upload.Uuid.{two_uuids, bool_beq}
use eterrain_tf_upload.Auth.FileStore.{validate_credentials, load_from_file}
use eterrain_tf_upload.Keygen.Agreement.{keys_in}
use eterrain_tf_upload.Testutil.{write_auth_config}
use eterrain_tf_upload.Testutil.AuthConfig.{auth_text, validate-write_auth_config}
use eterrain_tf_upload.Tests.Keys.{hash, compare_hash, hash-laws, orgs, orgs-Short}

abbrev cost_hash : ℕ → ℕ → Bytes → Result Bytes
cost_hash cost = hash

abbrev auth_room : ℕ
auth_room = length (auth_text two_uuids cost_hash 4 compare_hash hash-laws orgs)

keys_in-true : keys_in two_uuids true orgs ≡ codes "first" ∷ codes "second" ∷ []
unfolding keys_in bool_beq
keys_in-true = refl

validate-write_auth_config_example :
    (output : Bytes) × (_ : write_auth_config cost_hash two_uuids 4 none auth_room orgs
      ≡ (some output, none))
    × ((load_from_file two_uuids (ok (record { content = output; failure = none })) []).1 ≡ none)
    × (validate_credentials ⦃uuid_eq = two_uuids.uuid_eq⦄ compare_hash true
          (codes "second")
          (load_from_file two_uuids (ok (record { content = output; failure = none })) []).0
        ≡ (true, none))
validate-write_auth_config_example =
    validate-write_auth_config two_uuids cost_hash 4 compare_hash hash-laws orgs auth_room true
      (codes "first" ∷ []) (codes "second") [] orgs-Short (omega arith) keys_in-true
