-- ===== src/Server/Main.antt =====
-- main of cmd/server/main.go: what it starts with, the routes that it registers, how it listens, and what it
-- releases at its end. log.Fatalf, which ends the process, is an error; the signals, the timeouts of
-- the server and the 30 seconds of its shutdown are not modelled.
pub mod Routes
use eterrain_tf_upload.Base.{
  ◌≡◌, ◌↔◌, ◌∙◌, inl, inr, arith, ap, Bool, true, false, not, none, some, Option, Bool-cases,
  if◌then◌else◌, List, [], ◌∷◌,
}
use eterrain_tf_upload.Text.{Bytes, codes, equal}
use eterrain_tf_upload.Errors.{Error, wrapf, Result, Result-cases, ok, err}
use eterrain_tf_upload.Maps.{Map}
use eterrain_tf_upload.Float.{Float}
use eterrain_tf_upload.Uuid.{UuidLib}
use eterrain_tf_upload.Io.{Stream}
use eterrain_tf_upload.Config.{Config, IniFile, Env, load, dsn}
use eterrain_tf_upload.Auth.FileStore.{load_from_file, new_file_store}
use eterrain_tf_upload.Auth.FileStore.Load.{new_file_store_iff}
use eterrain_tf_upload.RateLimit.{PerOrgRateLimiter, new_per_org_rate_limiter}
use eterrain_tf_upload.Storage.Csv.{RowLib, Disk, new_csv_storage}
use eterrain_tf_upload.Storage.Mysql.{Database, new_mysql_storage}
use eterrain_tf_upload.Server.{StateRoute}
use eterrain_tf_upload.Server.Data.{UploadRoute}
use eterrain_tf_upload.Server.Start.{
  Backend, memory_store, csv_store, mysql_store, dual_store, initialize_storage,
  initialize_storage_iff, Ready,
}

-- The routes that main may register
pub data Route : Type 0 where
  health : Route
  upload : UploadRoute → Route
  state : StateRoute → Route

-- What main has deferred to release
pub data Resource : Type 0 where
  rate_limiter credential_store dual_storage mysql_storage : Resource

-- How ListenAndServe and ListenAndServeTLS end
pub data ServeEnd : Type 0 where
  server_closed : ServeEnd
  failed : Error → ServeEnd

pub record Application (Uuid D F : Type 0) : Type 0 where
  pub config : Config
  pub backend : Backend Uuid D
  pub credentials : Map Uuid (List Bytes)
  pub limiter : PerOrgRateLimiter Uuid F

module _ {Uuid D : Type 0} where
  -- stateHandler != nil
  unfoldable pub has_state_handler : Backend Uuid D → Bool
  has_state_handler (memory_store s) = true
  has_state_handler (csv_store s) = false
  has_state_handler (mysql_store s) = false
  has_state_handler (dual_store s) = false

  -- uploadHandler != nil
  unfoldable pub has_upload_handler : Backend Uuid D → Bool
  has_upload_handler (memory_store s) = false
  has_upload_handler (csv_store s) = true
  has_upload_handler (mysql_store s) = true
  has_upload_handler (dual_store s) = true

  -- The routes behind which a handler stands
  unfoldable pub has_route : Backend Uuid D → Route → Bool
  unfolding has_state_handler has_upload_handler
  has_route backend health = true
  has_route backend (upload route) = has_upload_handler backend
  has_route backend (state route) = has_state_handler backend

  -- The deferred calls in the order in which they run, the last first
  unfoldable pub deferred : Backend Uuid D → List Resource
  deferred (memory_store s) = rate_limiter ∷ credential_store ∷ []
  deferred (csv_store s) = rate_limiter ∷ credential_store ∷ []
  deferred (mysql_store s) = rate_limiter ∷ credential_store ∷ mysql_storage ∷ []
  deferred (dual_store s) = rate_limiter ∷ credential_store ∷ dual_storage ∷ mysql_storage ∷ []

  -- From the signal on, with what srv.Shutdown gives: what is released, and the error. log.Fatalf runs no
  -- deferred call.
  unfoldable pub shut_down : Backend Uuid D → Option Error → List Resource × Option Error
  unfolding deferred
  shut_down backend (some e) = ([], some (wrapf "Server forced to shutdown: " e))
  shut_down backend none = (deferred backend, none)

-- The goroutine that serves, and the error with which it ends the process
unfoldable pub serve_failure : Config → ServeEnd → Option Error
serve_failure cfg server_closed = none
serve_failure cfg (failed e) =
    if cfg.enable_tls
    then some (wrapf "Failed to start HTTPS server: " e)
    else some (wrapf "Failed to start HTTP server: " e)

module _ (f : Float) (lib : UuidLib) (rl : RowLib) {D : Type 0}
    (database : Database rl.Time D) where
  open lib use {Uuid, uuid_eq}

  -- main up to its handlers: what it finds of backend_service.cfg, the environment, the error of
  -- os.MkdirAll, the disk, the database, auth.cfg, and the errors of fsnotify
  unfoldable pub start_application :
      Option (Result IniFile)
      → Env
      → Option Error
      → Disk
      → D
      → Result Stream
      → Option Error
      → Option Error
      → Result (Application Uuid D f.Float64)
  start_application file env mkdir_error disk d opened watcher_error add_error =
      elim (load file env) [
        | err e ↦ err (wrapf "Failed to load configuration: " e)
        | ok cfg ↦ elim (initialize_storage lib rl database cfg mkdir_error disk d) [
          | err e ↦ err e
          | ok backend ↦ elim (new_file_store lib opened watcher_error add_error) [
            | err e ↦ err (wrapf "Failed to load authentication config: " e)
            | ok credentials ↦ ok (record {
              config = cfg;
              backend = backend;
              credentials = credentials;
              limiter = new_per_org_rate_limiter f ⦃uuid_eq = uuid_eq⦄ (f.of_nat 60);
            })
          ]
        ]
      ]

  module _ (file : Option (Result IniFile)) (env : Env) (mkdir_error : Option Error) (disk : Disk)
      (d : D) (opened : Result Stream) (watcher_error add_error : Option Error) where
    abbrev pub StartsUp : Type 0
    StartsUp =
        (a : Application Uuid D f.Float64) × (start_application file env mkdir_error disk d opened
            watcher_error add_error
          ≡ ok a)

    -- All that main needs
    abbrev pub Prepared : Type 0
    Prepared =
        (cfg : Config) × (_ : load file env ≡ ok cfg) × Ready lib rl database cfg mkdir_error disk d
        × ((load_from_file lib opened []).1 ≡ none)
        × (watcher_error ≡ none)
        × (add_error ≡ none)

    StartsUp-Prepared : StartsUp → Prepared
    unfolding start_application
    StartsUp-Prepared (a, started) = elim (Result-cases (load file env)) [
      | inr (e, l) ↦ ground (arith, started, l)
      | inl (cfg, l) ↦
          let initialized = initialize_storage lib rl database cfg mkdir_error disk d in
          elim (Result-cases initialized) [
            | inr (e, s) ↦ ground (arith, started, l, s)
            | inl (b, s) ↦ elim (Result-cases (new_file_store lib opened watcher_error add_error)) [
              | inr (e, c) ↦ ground (arith, started, l, s, c)
              | inl (credentials, c) ↦
                  let loaded =
                    (new_file_store_iff lib opened watcher_error add_error credentials).0 c in
                  (
                    cfg,
                    l,
                    (initialize_storage_iff lib rl database cfg mkdir_error disk d).0 (b, s),
                    ap (λ (t : Map Uuid (List Bytes) × Option Error). t.1) loaded.0,
                    loaded.1,
                    loaded.2,
                  )
            ]
          ]
    ]

    Prepared-StartsUp : Prepared → StartsUp
    unfolding start_application
    Prepared-StartsUp (cfg, l, ready, loads, watched, added) =
        let (b, s) = (initialize_storage_iff lib rl database cfg mkdir_error disk d).1 ready in
        let credentials = (load_from_file lib opened []).0 in
        let c =
          (new_file_store_iff lib opened watcher_error add_error credentials).1
            (ground (arith, loads), watched, added) in
        (
          record {
            config = cfg;
            backend = b;
            credentials = credentials;
            limiter = new_per_org_rate_limiter f ⦃uuid_eq = uuid_eq⦄ (f.of_nat 60);
          },
          ground (arith, l, s, c),
        )

    pub start_application_iff : StartsUp ↔ Prepared
    start_application_iff = (StartsUp-Prepared, Prepared-StartsUp)
