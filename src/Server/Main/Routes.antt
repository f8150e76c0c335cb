-- ===== src/Server/Main/Routes.antt =====
-- The routes of a service that starts, by its storage type.
use eterrain_tf_upload.Base.{◌≡◌, refl, ap, inl, inr, arith, Bool, true, not, Option, Bool-cases}
use eterrain_tf_upload.Text.{Bytes, codes, equal}
use eterrain_tf_upload.Errors.{Error, Result, Result-cases, ok}
use eterrain_tf_upload.Float.{Float}
use eterrain_tf_upload.Uuid.{UuidLib}
use eterrain_tf_upload.Io.{Stream}
use eterrain_tf_upload.Config.{Config, IniFile, Env, load, dsn}
use eterrain_tf_upload.Auth.FileStore.{new_file_store}
use eterrain_tf_upload.Storage.Csv.{RowLib, Disk, new_csv_storage}
use eterrain_tf_upload.Storage.Mysql.{Database, new_mysql_storage}
use eterrain_tf_upload.Server.Start.{Backend, initialize_storage}
use eterrain_tf_upload.Server.Main.{
  Route, health, upload, state, Application, has_state_handler, has_upload_handler, has_route,
  start_application,
}

-- States are served by the storage type memory, uploads by every other.
abbrev pub serves : Bytes → Route → Bool
serves storage_type health = true
serves storage_type (upload route) = not (equal storage_type (codes "memory"))
serves storage_type (state route) = equal storage_type (codes "memory")

module _ (lib : UuidLib) (rl : RowLib) {D : Type 0} (database : Database rl.Time D) where
  open lib use {Uuid}

  initialize_storage-handlers :
      (cfg : Config) (mkdir_error : Option Error) (disk : Disk) (d : D) (b : Backend Uuid D)
      → initialize_storage lib rl database cfg mkdir_error disk d ≡ ok b
      → (has_state_handler b ≡ equal cfg.storage_type (codes "memory"))
        × (has_upload_handler b ≡ not (equal cfg.storage_type (codes "memory")))
  unfolding initialize_storage has_state_handler has_upload_handler
  initialize_storage-handlers cfg mkdir_error disk d b h =
      let type = cfg.storage_type in
      elim (Bool-cases (equal type (codes "memory"))) [
        | inl m ↦ ground (arith, h)
        | inr m ↦ elim (Bool-cases (equal type (codes "csv"))) [
          | inl c ↦ elim (Result-cases (new_csv_storage mkdir_error cfg.storage_path disk)) [
            | inl (s, p) ↦ ground (arith, h)
            | inr (e, p) ↦ ground (arith, h)
          ]
          | inr c ↦
              elim (Result-cases (new_mysql_storage lib rl database (dsn cfg) cfg.db_name d)) [
                | inr (e, q) ↦
                    elim (Result-cases (new_csv_storage mkdir_error cfg.storage_path disk)) [
                      | inl (s, p) ↦ ground (arith, h)
                      | inr (x, p) ↦ ground (arith, h)
                    ]
                | inl (t, q) ↦
                    elim (Result-cases (new_csv_storage mkdir_error cfg.storage_path disk)) [
                      | inl (s, p) ↦ ground (arith, h)
                      | inr (x, p) ↦ ground (arith, h)
                    ]
              ]
        ]
      ]

  module _ (f : Float) where
    by_route :
        (route : Route) (a : Application Uuid D f.Float64) (cfg : Config) (b : Backend Uuid D)
        → a.config ≡ cfg
        → a.backend ≡ b
        → (has_state_handler b ≡ equal cfg.storage_type (codes "memory"))
          × (has_upload_handler b ≡ not (equal cfg.storage_type (codes "memory")))
        → has_route a.backend route ≡ serves a.config.storage_type route
    unfolding has_route
    by_route health a cfg b c e handlers = refl
    by_route (upload route) a cfg b c e handlers =
        ground (arith, handlers.1, ap has_upload_handler e, ap (λ (t : Config). t.storage_type) c)
    by_route (state route) a cfg b c e handlers =
        ground (arith, handlers.0, ap has_state_handler e, ap (λ (t : Config). t.storage_type) c)

    -- Of a service that starts: it serves the routes of states exactly with the storage type memory, those of
    -- uploads exactly with another, and /health always.
    pub start_application-routes :
        (file : Option (Result IniFile)) (env : Env) (mkdir_error : Option Error) (disk : Disk)
        (d : D) (opened : Result Stream) (watcher_error add_error : Option Error)
        (a : Application Uuid D f.Float64) (route : Route)
        → start_application f lib rl database file env mkdir_error disk d opened watcher_error
            add_error
          ≡ ok a
        → has_route a.backend route ≡ serves a.config.storage_type route
    unfolding start_application has_route
    start_application-routes file env mkdir_error disk d opened watcher_error add_error a route h =
        elim (Result-cases (load file env)) [
          | inr (e, l) ↦ ground (arith, h)
          | inl (cfg, l) ↦
              elim (Result-cases (initialize_storage lib rl database cfg mkdir_error disk d)) [
                | inr (e, s) ↦ ground (arith, h)
                | inl (b, s) ↦
                    let handlers = initialize_storage-handlers cfg mkdir_error disk d b s in
                    elim (Result-cases (new_file_store lib opened watcher_error add_error)) [
                      | inr (e, c) ↦ ground (arith, h)
                      | inl (credentials, c) ↦
                          by_route route a cfg b (ground (arith, h)) (ground (arith, h)) handlers
                    ]
              ]
        ]
