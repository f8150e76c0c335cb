-- ===== src/Server/Start.antt =====
-- cmd/server/main.go: the storage that the service starts with, by the type that is configured. log.Fatalf, which
-- ends the process, is an error.
use eterrain_tf_upload.Base.{
  ◌≡◌, ◌⊎◌, ◌↔◌, inl, inr, arith, Bool-cases, Option-cases, none, Option, if◌then◌else◌, [], ◌∷◌,
}
use eterrain_tf_upload.Text.{codes, equal, equal_iff}
use eterrain_tf_upload.Errors.{Error, errorf, wrapf, bytes, Result, Result-cases, ok, err}
use eterrain_tf_upload.Uuid.{UuidLib}
use eterrain_tf_upload.Config.{Config, dsn}
use eterrain_tf_upload.Storage.Memory.{MemoryStorage, new_memory_storage}
use eterrain_tf_upload.Storage.Csv.{CsvStorage, RowLib, Disk, new_csv_storage}
use eterrain_tf_upload.Storage.Mysql.{Database, MysqlStorage, new_mysql_storage, max_retries}
use eterrain_tf_upload.Storage.Mysql.Connect.{
  Answers, new_mysql_storage-Answers, new_mysql_storage-ok,
}
use eterrain_tf_upload.Storage.Dual.{DualStorage, new_dual_storage}

-- The variables store and dataStore, of which one is set
pub data Backend (Uuid D : Type 0) : Type 0 where
  memory_store : MemoryStorage Uuid → Backend Uuid D
  csv_store : CsvStorage → Backend Uuid D
  mysql_store : MysqlStorage D → Backend Uuid D
  dual_store : DualStorage CsvStorage (MysqlStorage D) → Backend Uuid D

module _ (lib : UuidLib) (rl : RowLib) {D : Type 0} (database : Database rl.Time D) where
  open lib use {Uuid}

  -- The switch on cfg.StorageType, from the error of os.MkdirAll
  unfoldable pub initialize_storage : Config → Option Error → Disk → D → Result (Backend Uuid D)
  unfolding new_dual_storage
  initialize_storage cfg mkdir_error disk d =
      let csv = new_csv_storage mkdir_error cfg.storage_path disk in
      let mysql = new_mysql_storage lib rl database (dsn cfg) cfg.db_name d in
      if equal cfg.storage_type (codes "memory")
      then ok (memory_store (new_memory_storage Uuid))
      else if equal cfg.storage_type (codes "csv")
      then elim csv [
        | err e ↦ err (wrapf "Failed to initialize CSV storage: " e)
        | ok s ↦ ok (csv_store s)
      ]
      else if equal cfg.storage_type (codes "mysql")
      then elim mysql [
        | err e ↦ err (wrapf "Failed to initialize MySQL storage: " e)
        | ok t ↦ ok (mysql_store t)
      ]
      else if equal cfg.storage_type (codes "dual")
      then elim csv [
        | err e ↦ err (wrapf "Failed to initialize CSV storage: " e)
        | ok s ↦ elim mysql [
          | err e ↦ err (wrapf "Failed to initialize MySQL storage: " e)
          | ok t ↦ ok (dual_store (new_dual_storage s t))
        ]
      ]
      else err (
          errorf "Unsupported storage type: %s (supported: memory, csv, mysql, dual)"
            (bytes cfg.storage_type ∷ []))

  module _ (cfg : Config) (mkdir_error : Option Error) (disk : Disk) (d : D) where
    -- The data directory is there, or can be made, and is found.
    abbrev pub CsvReady : Type 0
    CsvReady = (s : CsvStorage) × (new_csv_storage mkdir_error cfg.storage_path disk ≡ ok s)

    -- The data source can be opened, and the database answers one of 30 pings.
    abbrev pub MysqlReady : Type 0
    MysqlReady = (database.open_error (dsn cfg) ≡ none) × Answers lib rl database max_retries d

    abbrev pub Ready : Type 0
    Ready =
        (cfg.storage_type ≡ codes "memory")
        ⊎ ((cfg.storage_type ≡ codes "csv") × CsvReady)
        ⊎ ((cfg.storage_type ≡ codes "mysql") × MysqlReady)
        ⊎ ((cfg.storage_type ≡ codes "dual") × CsvReady × MysqlReady)

    abbrev pub Starts : Type 0
    Starts = (b : Backend Uuid D) × (initialize_storage cfg mkdir_error disk d ≡ ok b)

    Ready-Starts : Ready → Starts
    unfolding initialize_storage equal
    Ready-Starts (inl e) = (memory_store (new_memory_storage Uuid), ground (arith, e))
    Ready-Starts (inr (inl (e, (s, c)))) = (csv_store s, ground (arith, e, c))
    Ready-Starts (inr (inr (inl (e, (opens, a))))) =
        let (t, m, n) =
          (new_mysql_storage-Answers lib rl database (dsn cfg) cfg.db_name d opens).0 a in
        (mysql_store t, ground (arith, e, m))
    Ready-Starts (inr (inr (inr (e, (s, c), (opens, a))))) =
        let (t, m, n) =
          (new_mysql_storage-Answers lib rl database (dsn cfg) cfg.db_name d opens).0 a in
        (dual_store (record { csv = s; mysql = t }), ground (arith, e, c, m))

    mysql_ready :
        (t : MysqlStorage D)
        → new_mysql_storage lib rl database (dsn cfg) cfg.db_name d ≡ ok t
        → MysqlReady
    unfolding new_mysql_storage
    mysql_ready t m = elim (Option-cases (database.open_error (dsn cfg))) [
      | inl opens ↦ (opens, new_mysql_storage-ok lib rl database (dsn cfg) cfg.db_name d t m opens)
      | inr (e, refused) ↦ ground (arith, m, refused)
    ]

    Starts-Ready : Starts → Ready
    unfolding initialize_storage
    Starts-Ready (b, started) =
        let type = cfg.storage_type in
        let csv = new_csv_storage mkdir_error cfg.storage_path disk in
        let mysql = new_mysql_storage lib rl database (dsn cfg) cfg.db_name d in
        elim (Bool-cases (equal type (codes "memory"))) [
          | inl e ↦ inl ((equal_iff type (codes "memory")).0 e)
          | inr e ↦ elim (Bool-cases (equal type (codes "csv"))) [
            | inl f ↦ elim (Result-cases csv) [
              | inl (s, c) ↦ inr (inl ((equal_iff type (codes "csv")).0 f, (s, c)))
              | inr (x, c) ↦ ground (arith, started)
            ]
            | inr f ↦ elim (Bool-cases (equal type (codes "mysql"))) [
              | inl g ↦ elim (Result-cases mysql) [
                | inl (t, m) ↦
                    inr (inr (inl ((equal_iff type (codes "mysql")).0 g, mysql_ready t m)))
                | inr (x, m) ↦ ground (arith, started)
              ]
              | inr g ↦ elim (Bool-cases (equal type (codes "dual"))) [
                | inl h ↦ elim (Result-cases csv) [
                  | inl (s, c) ↦ elim (Result-cases mysql) [
                    | inl (t, m) ↦
                        inr
                          (inr (inr ((equal_iff type (codes "dual")).0 h, (s, c), mysql_ready t m)))
                    | inr (x, m) ↦ ground (arith, started)
                  ]
                  | inr (x, c) ↦ ground (arith, started)
                ]
                | inr h ↦ ground (arith, started)
              ]
            ]
          ]
        ]

    -- The service gets a storage exactly for the types memory, csv, mysql and dual, where csv and dual need a
    -- data directory, and mysql and dual a data source that can be opened and a database that answers
    -- one of 30 pings.
    pub initialize_storage_iff : Starts ↔ Ready
    initialize_storage_iff = (Starts-Ready, Ready-Starts)
