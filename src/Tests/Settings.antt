-- ===== src/Tests/Settings.antt =====
-- Files of keys, the configuration, and the two storages behind one.
use eterrain_tf_upload.Base.{if◌then◌else◌, ◌≡◌, ◌≢◌, ◌⊎◌, none, List, [], ◌∷◌, refl}
use eterrain_tf_upload.Text.{Bytes, codes, equal}
use eterrain_tf_upload.Errors.{Error, ok, err}
use eterrain_tf_upload.Maps.{Map}
use eterrain_tf_upload.Uuid.{two_uuids}
use eterrain_tf_upload.Handlers.Value.{Value, text}
use eterrain_tf_upload.Auth.FileStore
use eterrain_tf_upload.Auth.FileStore.{keys_of}
use eterrain_tf_upload.Keygen.{OrgConfig, read_init_config}
use eterrain_tf_upload.Keygen.Agreement.{keys_in, read_init_config_cases}
use eterrain_tf_upload.Config.{
  IniFile, Env, load, validated, validate, dsn, ini_config, load_from_file,
}
use eterrain_tf_upload.Config.Valid.{dsn-load}
use eterrain_tf_upload.Storage.Dual.{DualStorage}
use eterrain_tf_upload.Tests.Access.{file}
use eterrain_tf_upload.Tests.Uploads.{Rows}

read_init_config_cases_example :
    ((orgs : List (OrgConfig two_uuids.Uuid)) × (read_init_config two_uuids (ok file) ≡ ok orgs)
      × ((FileStore.load_from_file two_uuids (ok file) []).1 ≡ none)
      × ((u : two_uuids.Uuid)
          → keys_of ⦃uuid_eq = two_uuids.uuid_eq⦄ u
              (FileStore.load_from_file two_uuids (ok file) []).0
            ≡ keys_in two_uuids u orgs))
    ⊎ ((e : Error) × (read_init_config two_uuids (ok file) ≡ err e)
        × ((FileStore.load_from_file two_uuids (ok file) []).1 ≢ none))
read_init_config_cases_example = read_init_config_cases two_uuids file

-- A file that sets nothing but the storage type.
abbrev ini : IniFile
ini = record {
  text = λ section key. [];
  must_string = λ section key default. if equal key (codes "type") then codes "mysql" else default;
  must_int = λ section key default. default;
  must_bool = λ section key default. default;
}

abbrev env : Env
env key = if equal key (codes "DB_USER") then codes "terraform" else []

dsn-load_example : dsn (ini_config ini) ≡ codes ":@tcp(:0)/?parseTime=true&charset=utf8mb4"
unfolding load load_from_file validated validate ini_config
dsn-load_example = dsn-load (ok ini) env (ini_config ini) refl

abbrev stores : DualStorage Rows Rows
stores = record { csv = []; mysql = [] }

abbrev row : Map Bytes Value
row = (codes "id", text (codes "i-1")) ∷ []
