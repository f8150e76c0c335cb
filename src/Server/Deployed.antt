-- ===== src/Server/Deployed.antt =====
-- cmd/keygen/main.go and cmd/server/main.go together: the key generator writes auth.cfg, and a service with the
-- storage type "memory" is started with what it loads from that file.
use eterrain_tf_upload.Base.{
  ℕ, ◌≡◌, ◌≢◌, ◌≤◌, ◌∙◌, ap, none, true, some, List, [], ◌∷◌, ◌++◌, All, length,
}
use eterrain_tf_upload.Text.{Bytes, codes}
use eterrain_tf_upload.Errors.{Result, ok}
use eterrain_tf_upload.Uuid.{UuidLib}
use eterrain_tf_upload.Float.{Float}
use eterrain_tf_upload.Io.{Stream}
use eterrain_tf_upload.Http.{Request, value, raw, json_headers}
use eterrain_tf_upload.Auth.FileStore.{Comparison, keys_of, validate_credentials, load_from_file}
use eterrain_tf_upload.RateLimit.{org_id_context_key}
use eterrain_tf_upload.Validation.{validate_state_name}
use eterrain_tf_upload.Handlers.State.{StateJson}
use eterrain_tf_upload.Keygen.{OrgConfig, read_init_config}
use eterrain_tf_upload.Keygen.Generate.{auth_config}
use eterrain_tf_upload.Keygen.Generate.Bcrypt.{BcryptLaws}
use eterrain_tf_upload.Keygen.Generate.Sections.{Short}
use eterrain_tf_upload.Keygen.Main.{keygen, validate-keygen}
use eterrain_tf_upload.Server.{ServiceState, start, serve, post_route, get_route}
use eterrain_tf_upload.Server.States.{Comes, Carries, serve-get-post}

module _ (f : Float) (lib : UuidLib) (js : StateJson) (hash : ℕ → Bytes → Result Bytes)
    (compare_hash : Bytes → Bytes → Comparison) where
  open lib use {Uuid, uuid_eq, parse}

  -- The headers of the request name an organization and a key; it has no value of the limiter's own.
  pub record Brings (r : Request Uuid) (u : Uuid) (k : Bytes) : Type 0 where
    pub has_org_id : r.header (codes "X-Org-ID") ≢ []
    pub names_org : parse (r.header (codes "X-Org-ID")) ≡ some u
    pub has_api_key : r.header (codes "X-API-Key") ≢ []
    pub api_key : r.header (codes "X-API-Key") ≡ k
    pub no_value : value r.context org_id_context_key ≡ none

  -- The service that starts with auth.cfg
  abbrev pub deployed : Bytes → ℕ → ServiceState f lib
  deployed auth_cfg clock =
      start f lib (load_from_file lib (ok (record { content = auth_cfg; failure = none })) []).0
        clock

  Brings-Comes :
      (r : Request Uuid) (u : Uuid) (k auth_cfg : Bytes) (clock : ℕ)
      → Brings r u k
      → validate_credentials ⦃uuid_eq = uuid_eq⦄ compare_hash u k
          (load_from_file lib (ok (record { content = auth_cfg; failure = none })) []).0
        ≡ (true, none)
      → Comes f lib js compare_hash r (deployed auth_cfg clock) u
  unfolding start
  Brings-Comes r u k auth_cfg clock b accepts = record {
    credentials = record {
      has_org_id = b.has_org_id;
      names_org = b.names_org;
      has_api_key = b.has_api_key;
      accepted =
          ap
            (λ key.
              validate_credentials ⦃uuid_eq = uuid_eq⦄ compare_hash u key
                (load_from_file lib (ok (record { content = auth_cfg; failure = none })) []).0)
            b.api_key
          ∙ accepts;
    };
    no_value = b.no_value;
  }

  module _ (laws : BcryptLaws hash compare_hash) where
    -- The key generator reads organizations from its input, their keys have at most 72 bytes, and the
    -- disk takes the whole output: it writes a file such that a service started with it serves every key
    -- that the input lists for an organization. Of requests that bring such a key and no value under
    -- the limiter's key, a POST of valid JSON of at most 10 MB to a valid name is answered 200, and a
    -- GET of the name is then answered 200 with these bytes.
    pub serve-keygen :
        (input : Stream) (room : ℕ) (orgs : List (OrgConfig Uuid)) (u : Uuid) (before : List Bytes)
        (k : Bytes) (after : List Bytes) (clock : ℕ) (r r' : Request Uuid) (x : Bytes)
        → read_init_config lib (ok input) ≡ ok orgs
        → All (λ (org : OrgConfig Uuid). Short org.api_keys) orgs
        → length (auth_config hash lib orgs).0 ≤ room
        → keys_of ⦃uuid_eq = uuid_eq⦄ u (load_from_file lib (ok input) []).0 ≡ before ++ (k ∷ after)
        → Brings r u k
        → Brings r' u k
        → validate_state_name r.name_param ≡ none
        → r'.name_param ≡ r.name_param
        → Carries f lib js compare_hash r x
        → (output : Bytes) × (_ : keygen lib hash (ok input) none room ≡ (some output, none))
          × ((serve f lib js compare_hash post_route r (deployed output clock)).1.status ≡ 200)
          × ((serve f lib js compare_hash get_route r'
                (serve f lib js compare_hash post_route r (deployed output clock)).0).1
              ≡ record { status = 200; headers = json_headers; body = raw x })
    serve-keygen input room orgs u before k after clock r r' x reads short fits listed b b' n same
          carries =
        let (output, made, accepts) =
          validate-keygen lib hash compare_hash laws input room orgs u before k after reads short
            fits listed in
        let (posted, got) =
          serve-get-post f lib js compare_hash r r' (deployed output clock) u x
            (Brings-Comes r u k output clock b accepts)
            (Brings-Comes r' u k output clock b' accepts) n same carries in
        (output, made, posted, ap (λ t. t.1) got)
