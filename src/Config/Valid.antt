-- ===== src/Config/Valid.antt =====
-- The configurations that are loaded.
use eterrain_tf_upload.Base.{
  ◌∙◌, sym, subst, ap, ℤ, pos, negsuc, ◌≤◌, ◌≡◌, ◌≢◌, ◌↔◌, ◌⊎◌, refl, false, Option, none, some, [],
  arith, Bool-cases, Option-cases, inl, inr,
}
use eterrain_tf_upload.Text.{codes, equal_iff, show}
use eterrain_tf_upload.Errors.{Result, ok, err}
use eterrain_tf_upload.Config.{
  env_config, Config, IniFile, Env, bad_port, validate, validated, ini_config, load_from_file, load,
  dsn, show_int,
}

-- A port that a server can listen on.
abbrev pub IsPort : ℤ → Type 0
IsPort (pos n) = (1 ≤ n) × (n ≤ 65535)
IsPort (negsuc n) = ⊥

pub record IsValid (c : Config) : Type 0 where
  pub port : IsPort c.port
  pub tls : (c.enable_tls ≡ false) ⊎ ((c.cert_file ≢ []) × (c.key_file ≢ []))

bad_port-IsPort : (p : ℤ) → (bad_port p ≡ false) ↔ IsPort p
unfolding bad_port
bad_port-IsPort (pos n) = (λ h. ground arith, λ h. ground arith)
bad_port-IsPort (negsuc n) = (λ h. cc h, λ h. absurd h)

validate-IsValid : (c : Config) → validate c ≡ none → IsValid c
unfolding validate
validate-IsValid c h = elim (Bool-cases (bad_port c.port)) [
  | inl p ↦ ground arith
  | inr p ↦ record {
    port = (bad_port-IsPort c.port).0 p;
    tls = elim (Bool-cases c.enable_tls) [
      | inr t ↦ inl t
      | inl t ↦ inr (
        λ e. ground (arith, (equal_iff c.cert_file []).1 e),
        λ e. ground (arith, (equal_iff c.key_file []).1 e),
      )
    ];
  }
]

-- Validate accepts exactly the configurations whose port is in 1 to 65535 and which, if TLS is enabled,
-- name a certificate and a key.
pub validate_lem : (c : Config) → (validate c ≡ none) ↔ IsValid c
unfolding validate
validate_lem c = (
  validate-IsValid c,
  λ v. ground (
    arith,
    (bad_port-IsPort c.port).1 v.port,
    v.tls,
    equal_iff c.cert_file [],
    equal_iff c.key_file [],
  ),
)

dsn-ini_config :
    (cfg : IniFile) → dsn (ini_config cfg) ≡ codes ":@tcp(:0)/?parseTime=true&charset=utf8mb4"
unfolding dsn ini_config show_int show
dsn-ini_config cfg = refl

validated-ok : (c d : Config) → validated c ≡ ok d → (c ≡ d) × (validate c ≡ none)
unfolding validated
validated-ok c d h = elim (Option-cases (validate c)) [
  | inl e ↦ (ground arith, e)
  | inr (x, e) ↦ ground arith
]

-- A configuration that Load returns, from a file or from the environment, is valid.
pub load-IsValid :
    (file : Option (Result IniFile)) (env : Env) (c : Config) → load file env ≡ ok c → IsValid c
unfolding load load_from_file
load-IsValid none env c h =
    let (same, valid) = validated-ok (env_config env) c h in
    (validate_lem c).0 (subst (λ d. validate d ≡ none) same valid)
load-IsValid (some (err e)) env c h = cc
load-IsValid (some (ok cfg)) env c h =
    let (same, valid) = validated-ok (ini_config cfg) c h in
    (validate_lem c).0 (subst (λ d. validate d ≡ none) same valid)

-- A configuration that comes from a file has one data source name, whatever the file and the
-- environment hold: one with no user, no password, no host, port 0 and no database.
pub dsn-load :
    (file : Result IniFile) (env : Env) (c : Config)
    → load (some file) env ≡ ok c
    → dsn c ≡ codes ":@tcp(:0)/?parseTime=true&charset=utf8mb4"
unfolding load load_from_file ini_config
dsn-load (err e) env c h = cc
dsn-load (ok cfg) env c h = ap dsn (sym (validated-ok (ini_config cfg) c h).0) ∙ dsn-ini_config cfg
