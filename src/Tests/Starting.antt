-- ===== src/Tests/Starting.antt =====
-- The start of a service that takes its configuration from the environment, with the storage type memory.
use eterrain_tf_upload.Base.{◌≡◌, inl, refl, none, [], if◌then◌else◌}
use eterrain_tf_upload.Text.{codes, equal, trim_space}
use eterrain_tf_upload.Errors.{ok}
use eterrain_tf_upload.Maps.{lookup, insert}
use eterrain_tf_upload.Float.{whole}
use eterrain_tf_upload.Uuid.{bool_beq, two_uuids}
use eterrain_tf_upload.Io.{scan_lines}
use eterrain_tf_upload.Config.{
  Env, load, env_config, get_env, get_env_as_int, get_env_as_bool, validate, validated,
}
use eterrain_tf_upload.Auth.Config.{is_skipped, is_header, header_text}
use eterrain_tf_upload.Auth.FileStore.{load_from_file, load_lines, add_key, declare_org}
use eterrain_tf_upload.Server.{post_route}
use eterrain_tf_upload.Server.Main.{state, has_route, StartsUp, start_application_iff}
use eterrain_tf_upload.Server.Main.Routes.{serves, start_application-routes}
use eterrain_tf_upload.Tests.Access.{file}
use eterrain_tf_upload.Tests.Files.{row_lib, disk}
use eterrain_tf_upload.Tests.Tables.{slow}

abbrev env : Env
env key = if equal key (codes "STORAGE_TYPE") then codes "memory" else []

loads : load none env ≡ ok (env_config env)
unfolding load validated validate env_config get_env get_env_as_int get_env_as_bool equal
loads = refl

of_memory : (env_config env).storage_type ≡ codes "memory"
unfolding env_config get_env equal
of_memory = refl

file_loads : (load_from_file two_uuids (ok file) []).1 ≡ none
unfolding load_from_file bool_beq lookup load_lines scan_lines is_skipped trim_space is_header
    header_text add_key insert declare_org
file_loads = refl

started : StartsUp whole two_uuids row_lib slow none env none (disk 0) 0 (ok file) none none
started =
    (start_application_iff whole two_uuids row_lib slow none env none (disk 0) 0 (ok file) none
        none).1
      (env_config env, loads, inl of_memory, file_loads, refl, refl)

start_application-routes_example :
    has_route started.0.backend (state post_route)
    ≡ serves started.0.config.storage_type (state post_route)
start_application-routes_example =
    start_application-routes two_uuids row_lib slow whole none env none (disk 0) 0 (ok file) none
      none started.0 (state post_route) started.1
