-- ===== src/Testutil/Fixture.antt =====
-- TestFixture and BenchmarkHelper of internal/auth/testutil/helpers.go. A method that writes a file gives the
-- path with what the function of the same name makes of it; Cleanup does nothing.
use eterrain_tf_upload.Base.{ℕ, Option, List, [], ◌∷◌, ◌++◌}
use eterrain_tf_upload.Text.{Bytes, codes}
use eterrain_tf_upload.Errors.{Error, Result}
use eterrain_tf_upload.Path.{join}
use eterrain_tf_upload.Uuid.{UuidLib}
use eterrain_tf_upload.Keygen.{OrgConfig}
use eterrain_tf_upload.Testutil.{default_bcrypt_cost, write_init_config, write_auth_config}

pub record TestFixture (Uuid : Type 0) : Type 0 where
  pub temp_dir : Bytes
  pub init_config : Bytes
  pub auth_config : Bytes
  pub orgs : List (OrgConfig Uuid)

pub record BenchmarkHelper : Type 0 where
  pub temp_dir : Bytes
  pub auth_config : Bytes

-- NewTestFixture in the directory that t.TempDir gives
unfoldable pub new_test_fixture : {Uuid : Type 0} → Bytes → TestFixture Uuid
unfolding join
new_test_fixture tmp_dir = record {
  temp_dir = tmp_dir;
  init_config = join tmp_dir (codes "init-config.cfg");
  auth_config = join tmp_dir (codes "auth.cfg");
  orgs = [];
}

unfoldable pub new_benchmark_helper : Bytes → BenchmarkHelper
unfolding join
new_benchmark_helper tmp_dir = record {
  temp_dir = tmp_dir;
  auth_config = join tmp_dir (codes "auth.cfg");
}

module _ {Uuid : Type 0} where
  unfoldable pub add_org : Uuid → List Bytes → TestFixture Uuid → TestFixture Uuid
  add_org org_id api_keys f = record f {
    orgs = f.orgs ++ record { org_id = org_id; api_keys = api_keys } ∷ [];
  }

  -- AddRandomOrg, with what uuid.New gives
  abbrev pub add_random_org : Uuid → List Bytes → TestFixture Uuid → TestFixture Uuid
  add_random_org random_id = add_org random_id

  abbrev pub clean_up : TestFixture Uuid → TestFixture Uuid
  clean_up f = f

module _ (lib : UuidLib) where
  open lib use {Uuid}

  unfoldable pub fixture_init_config :
      Option Error → ℕ → TestFixture Uuid → Bytes × (Option Bytes × Option Error)
  unfolding write_init_config
  fixture_init_config create_error room f =
      (f.init_config, write_init_config lib create_error room f.orgs)

  module _ (hash : ℕ → ℕ → Bytes → Result Bytes) where
    unfoldable pub fixture_auth_config :
        ℕ → Option Error → ℕ → TestFixture Uuid → Bytes × (Option Bytes × Option Error)
    unfolding write_auth_config
    fixture_auth_config cost create_error room f =
        (f.auth_config, write_auth_config hash lib cost create_error room f.orgs)

    abbrev pub fixture_auth_config_default :
        Option Error → ℕ → TestFixture Uuid → Bytes × (Option Bytes × Option Error)
    fixture_auth_config_default = fixture_auth_config default_bcrypt_cost

    -- SetupAuthConfig
    unfoldable pub set_up_auth_config :
        ℕ
        → Option Error
        → ℕ
        → List (OrgConfig Uuid)
        → BenchmarkHelper
        → Bytes × (Option Bytes × Option Error)
    unfolding write_auth_config
    set_up_auth_config cost create_error room orgs h =
        (h.auth_config, write_auth_config hash lib cost create_error room orgs)
