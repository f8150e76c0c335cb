-- ===== src/Config.antt =====
-- internal/config/config.go. gopkg.in/ini.v1 is a parameter: what its readers of a key give. An int is
-- a 64-bit number.
pub mod Valid
use eterrain_tf_upload.Base.{
  ℤ, pos, negsuc, ℕ, suc, ◌+◌, ◌-◌, ◌*◌, ◌^◌, Bool, true, false, ◌||◌, Option, none, some, [], ◌∷◌,
  ◌++◌, if◌then◌else◌, ltb, leb, ◌==◌,
}
use eterrain_tf_upload.Text.{Bytes, codes, equal, within, show}
use eterrain_tf_upload.Errors.{Error, errorf, wrapf, bytes, Result, ok, err}

pub record Config : Type 0 where
  pub host : Bytes
  pub port : ℤ
  pub storage_type : Bytes
  pub storage_path : Bytes
  pub db_host : Bytes
  pub db_port : ℤ
  pub db_user : Bytes
  pub db_password : Bytes
  pub db_name : Bytes
  pub enable_tls : Bool
  pub cert_file : Bytes
  pub key_file : Bytes

-- A file that ini.Load has read: the Must functions give the value of a key of a section, or their
-- default.
pub record IniFile : Type 0 where
  pub text : (section key : Bytes) → Bytes
  pub must_string : (section key default : Bytes) → Bytes
  pub must_int : (section key : Bytes) → ℤ → ℤ
  pub must_bool : (section key : Bytes) → Bool → Bool

-- os.Getenv, which gives "" for a variable that is not set
abbrev pub Env : Type 0
Env = Bytes → Bytes

-- %d on an int
unfoldable pub show_int : ℤ → Bytes
unfolding show
show_int (pos n) = show n
show_int (negsuc n) = b'-' ∷ show (n + 1)

-- The digits of a decimal number, read onto the number before them
unfoldable pub digits_onto : ℕ → Bytes → Option ℕ
digits_onto n [] = some n
digits_onto n (c ∷ s) =
    let rest = digits_onto (n * 10 + (c - b'0')) s in if within b'0' b'9' c then rest else none

unfoldable pub digits : Bytes → Option ℕ
unfolding digits_onto
digits [] = none
digits (c ∷ s) = digits_onto 0 (c ∷ s)

abbrev at_least_zero : Option ℕ → Option ℤ
at_least_zero none = none
at_least_zero (some n) = if ltb n (2 ^ 63) then some (pos n) else none

abbrev at_most_zero : Option ℕ → Option ℤ
at_most_zero none = none
at_most_zero (some n) =
    if n == 0 then some (pos 0) else if leb n (2 ^ 63) then some (negsuc (n - 1)) else none

-- strconv.Atoi: a sign and digits, within the range of an int64
unfoldable pub atoi : Bytes → Option ℤ
unfolding digits
atoi [] = none
atoi (c ∷ s) =
    if c == b'-'
    then at_most_zero (digits s)
    else if c == b'+'
    then at_least_zero (digits s)
    else at_least_zero (digits (c ∷ s))

-- strconv.ParseBool
unfoldable pub parse_bool : Bytes → Option Bool
unfolding equal
parse_bool s =
    if equal s (codes "1")
      || equal s (codes "t")
      || equal s (codes "T")
      || equal s (codes "TRUE")
      || equal s (codes "true")
      || equal s (codes "True")
    then some true
    else if equal s (codes "0")
        || equal s (codes "f")
        || equal s (codes "F")
        || equal s (codes "FALSE")
        || equal s (codes "false")
        || equal s (codes "False")
    then some false
    else none

module _ (env : Env) where
  unfoldable pub get_env : Bytes → Bytes → Bytes
  get_env key default_value = if equal (env key) [] then default_value else env key

  unfoldable pub get_env_as_int : Bytes → ℤ → ℤ
  unfolding atoi
  get_env_as_int key default_value =
      if equal (env key) []
      then default_value
      else elim (atoi (env key)) [ none ↦ default_value | some value ↦ value ]

  unfoldable pub get_env_as_bool : Bytes → Bool → Bool
  unfolding parse_bool
  get_env_as_bool key default_value =
      if equal (env key) []
      then default_value
      else elim (parse_bool (env key)) [ none ↦ default_value | some value ↦ value ]

  -- The configuration that Load takes from the environment
  unfoldable pub env_config : Config
  env_config = record {
    host = get_env (codes "HOST") (codes "127.0.0.1");
    port = get_env_as_int (codes "PORT") (pos 7777);
    storage_type = get_env (codes "STORAGE_TYPE") (codes "csv");
    storage_path = get_env (codes "STORAGE_PATH") (codes "./data");
    db_host = get_env (codes "DB_HOST") (codes "localhost");
    db_port = get_env_as_int (codes "DB_PORT") (pos 3306);
    db_user = get_env (codes "DB_USER") [];
    db_password = get_env (codes "DB_PASSWORD") [];
    db_name = get_env (codes "DB_NAME") (codes "data");
    enable_tls = get_env_as_bool (codes "ENABLE_TLS") false;
    cert_file = get_env (codes "TLS_CERT_FILE") [];
    key_file = get_env (codes "TLS_KEY_FILE") [];
  }

-- c.Port < 1 || c.Port > 65535
unfoldable pub bad_port : ℤ → Bool
bad_port (pos n) = ltb n 1 || ltb 65535 n
bad_port (negsuc n) = true

unfoldable pub validate : Config → Option Error
unfolding bad_port
validate c =
    if bad_port c.port
    then some (errorf "invalid port: %d" (bytes (show_int c.port) ∷ []))
    else if c.enable_tls
    then if equal c.cert_file []
      then some (errorf "TLS enabled but TLS_CERT_FILE not set" [])
      else if equal c.key_file []
      then some (errorf "TLS enabled but TLS_KEY_FILE not set" [])
      else none
    else none

-- The end of both loaders
unfoldable pub validated : Config → Result Config
unfolding validate
validated c = elim (validate c) [ some e ↦ err (wrapf "invalid configuration: " e) | none ↦ ok c ]

-- The configuration that LoadFromFile takes from a file; the fields that it does not set are zero.
unfoldable pub ini_config : IniFile → Config
ini_config cfg = record {
  host = cfg.must_string (codes "server") (codes "hostname") (codes "127.0.0.1");
  port = cfg.must_int (codes "server") (codes "port") (pos 7777);
  storage_type = cfg.must_string (codes "storage") (codes "type") (codes "csv");
  storage_path = cfg.must_string (codes "storage") (codes "path") (codes "./data");
  db_host = [];
  db_port = pos 0;
  db_user = [];
  db_password = [];
  db_name = [];
  enable_tls = cfg.must_bool (codes "security") (codes "enable_tls") false;
  cert_file = cfg.text (codes "security") (codes "cert_file");
  key_file = cfg.text (codes "security") (codes "key_file");
}

-- LoadFromFile, on what ini.Load gives
unfoldable pub load_from_file : Result IniFile → Result Config
unfolding ini_config validated
load_from_file (err e) = err (wrapf "failed to load config file: " e)
load_from_file (ok cfg) = validated (ini_config cfg)

-- Load, where `file` is none if backend_service.cfg is not there
unfoldable pub load : Option (Result IniFile) → Env → Result Config
unfolding load_from_file env_config
load (some file) env = load_from_file file
load none env = validated (env_config env)

unfoldable pub address : Config → Bytes
unfolding show_int
address c = c.host ++ (b':' ∷ show_int c.port)

unfoldable pub dsn : Config → Bytes
unfolding show_int
dsn c =
    c.db_user
    ++ (b':'
        ∷ (c.db_password
            ++ (codes "@tcp("
                ++ (c.db_host
                    ++ (b':'
                        ∷ (show_int c.db_port
                            ++ (codes ")/"
                                ++ (c.db_name ++ codes "?parseTime=true&charset=utf8mb4"))))))))
