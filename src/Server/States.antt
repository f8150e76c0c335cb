-- ===== src/Server/States.antt =====
-- States through the whole chain of the server.
use eterrain_tf_upload.Base.{
  refl, ◌^◌, ◌*◌, false, ◌∙◌, ◌≡◌, ◌≤◌, true, none, arith, ltb, length, ℕ,
}
use eterrain_tf_upload.Text.{Bytes, bytes_eq}
use eterrain_tf_upload.Text.Laws.{equal_refl}
use eterrain_tf_upload.Maps.{lookup, lookup-insert}
use eterrain_tf_upload.Uuid.{UuidLib}
use eterrain_tf_upload.Float.{Float}
use eterrain_tf_upload.Errors.{ok}
use eterrain_tf_upload.Io.{max_bytes_reader, read_all}
use eterrain_tf_upload.Http.{Request, value, raw, json_headers}
use eterrain_tf_upload.Auth.FileStore.{Comparison}
use eterrain_tf_upload.Auth.Middleware.{
  Authenticates, authenticated, get_org_id-with_value, middleware-passes,
}
use eterrain_tf_upload.RateLimit.{org_id_context_key}
use eterrain_tf_upload.Validation.{validate_state_name}
use eterrain_tf_upload.Storage.Memory
use eterrain_tf_upload.Storage.Memory.{state_key, next_version}
use eterrain_tf_upload.Storage.Memory.Spec.{owned}
use eterrain_tf_upload.Handlers.State.{StateJson, get_state, put_state, success}
use eterrain_tf_upload.Server.{
  ServiceState, StateRoute, get_route, post_route, credential_store, state_route, serve,
}
use eterrain_tf_upload.Server.Tenants.{limited_request, serve-middleware}

module _ (f : Float) (lib : UuidLib) (js : StateJson)
    (compare_hash : Bytes → Bytes → Comparison) where
  open lib use {Uuid}

  -- The request comes with the credentials of an organization, and with no value of the limiter's own.
  pub record Comes (r : Request Uuid) (s : ServiceState f lib) (u : Uuid) : Type 0 where
    pub credentials : Authenticates lib (credential_store f lib js compare_hash) r s u
    pub no_value : value r.context org_id_context_key ≡ none

  -- A request with credentials reaches its handler.
  pub serve-Comes :
      (route : StateRoute) (r : Request Uuid) (s : ServiceState f lib) (u : Uuid)
      → Comes r s u
      → serve f lib js compare_hash route r s
        ≡ state_route f lib js compare_hash route
            (authenticated (limited_request f lib js compare_hash r) u)
            s
  serve-Comes route r s u c =
      serve-middleware f lib js compare_hash route r s c.no_value
      ∙ middleware-passes lib (credential_store f lib js compare_hash)
          (state_route f lib js compare_hash route) (limited_request f lib js compare_hash r) s u
          (record {
            has_org_id = c.credentials.has_org_id;
            names_org = c.credentials.names_org;
            has_api_key = c.credentials.has_api_key;
            accepted = c.credentials.accepted;
          })

  -- The service after a write.
  abbrev pub written : Uuid → Bytes → Bytes → ServiceState f lib → ServiceState f lib
  written u a x s = record s { memory = (Memory.put_state lib u a x s.memory).0 }

  -- The body of the request is valid JSON within the limit, and is read to its end.
  pub record Carries (r : Request Uuid) (x : Bytes) : Type 0 where
    pub content : r.body.content ≡ x
    pub failure : r.body.failure ≡ none
    pub in_limit : length x ≤ 10 * 2 ^ 20
    pub valid : js.valid x ≡ true

  ltb-false : (m n : ℕ) → n ≤ m → ltb m n ≡ false
  ltb-false m n h = ground arith

  read_all-Carries :
      (r : Request Uuid) (x : Bytes)
      → Carries r x
      → read_all (max_bytes_reader (10 * 2 ^ 20) r.body) ≡ ok x
  unfolding read_all max_bytes_reader
  read_all-Carries r x c =
      rw (c.content, ltb-false (10 * 2 ^ 20) (length x) c.in_limit)
        (ground (arith, c.failure, c.content))

  serve-post :
      (r : Request Uuid) (s : ServiceState f lib) (u : Uuid) (x : Bytes)
      → Comes r s u
      → validate_state_name r.name_param ≡ none
      → Carries r x
      → serve f lib js compare_hash post_route r s ≡ (written u r.name_param x s, success)
  unfolding state_route put_state Memory.put_state
  serve-post r s u x c n b =
      serve-Comes post_route r s u c
      ∙ ground (arith, get_org_id-with_value r.context u, n, read_all-Carries r x b, b.valid)

  -- Through the whole chain, of requests that bring no value under the limiter's key: a POST of valid
  -- JSON of at most 10 MB to a valid name with the credentials of an organization is answered 200, and a
  -- GET of the same name with its credentials then returns these bytes with 200, and changes nothing.
  pub serve-get-post :
      (r r' : Request Uuid) (s : ServiceState f lib) (u : Uuid) (x : Bytes)
      → Comes r s u
      → Comes r' s u
      → validate_state_name r.name_param ≡ none
      → r'.name_param ≡ r.name_param
      → Carries r x
      → ((serve f lib js compare_hash post_route r s).1.status ≡ 200)
        × (serve f lib js compare_hash get_route r' (serve f lib js compare_hash post_route r s).0
            ≡ (
              (serve f lib js compare_hash post_route r s).0,
              record { status = 200; headers = json_headers; body = raw x },
            ))
  unfolding state_route get_state Memory.put_state Memory.get_state
  serve-get-post r r' s u x c c' n same b =
      let key = state_key lib u r.name_param in
      let s' = written u r.name_param x s in
      let found =
        lookup-insert key key
          (owned u r.name_param x (next_version lib (lookup key s.memory.states)))
          s.memory.states in
      let later : Comes r' s' u = record {
        credentials = record {
          has_org_id = c'.credentials.has_org_id;
          names_org = c'.credentials.names_org;
          has_api_key = c'.credentials.has_api_key;
          accepted = c'.credentials.accepted;
        };
        no_value = c'.no_value;
      } in
      let posted = serve-post r s u x c n b in
      (
        rw posted refl,
        rw posted (
            serve-Comes get_route r' s' u later
            ∙ ground (arith, get_org_id-with_value r'.context u, n, same, found, equal_refl key)),
      )
