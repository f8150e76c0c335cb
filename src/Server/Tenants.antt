-- ===== src/Server/Tenants.antt =====
-- The chain of the server keeps organizations apart.
use eterrain_tf_upload.Base.{◌^◌, ◌*◌, ap, ◌∙◌, ◌≡◌, ◌≢◌, Bool-cases, none, some, inl, inr, arith}
use eterrain_tf_upload.Text.{Bytes, codes}
use eterrain_tf_upload.Uuid.{UuidLib}
use eterrain_tf_upload.Float.{Float}
use eterrain_tf_upload.Io.{max_bytes_reader}
use eterrain_tf_upload.Http.{Request, value}
use eterrain_tf_upload.Auth.FileStore.{Comparison}
use eterrain_tf_upload.Auth.Middleware.{
  middleware, authenticated, get_org_id_from_context, get_org_id-with_value, middleware_cases,
}
use eterrain_tf_upload.RateLimit.{org_id_context_key}
use eterrain_tf_upload.RateLimit.Requests.{rate_limit_bypassed}
use eterrain_tf_upload.Storage.Memory.Keys.{same, same-eq}
use eterrain_tf_upload.Storage.Memory.Spec.{put, delete, acquire, release, exec, view, Op}
use eterrain_tf_upload.Storage.Memory.Refinement.{exec-view}
use eterrain_tf_upload.Handlers.State.{StateJson}
use eterrain_tf_upload.Handlers.State.Steps.{
  Stepped, stays, puts, deletes, locks, unlocks, handlers-Stepped,
}
use eterrain_tf_upload.Server.{
  ServiceState, StateRoute, get_route, post_route, delete_route, post_lock_route, delete_lock_route,
  service_storage, service_limiter, credential_store, state_route, serve,
}

module _ (f : Float) (lib : UuidLib) where
  open lib use {Uuid, parse}

  exec-other :
      (u v : Uuid) (a b : Bytes) (op : Op) (s : ServiceState f lib)
      → u ≢ v
      → view lib (exec lib u a op s.memory).0 v b ≡ view lib s.memory v b
  exec-other u v a b op s ne = elim (Bool-cases (same lib u a v b)) [
    | inl e ↦ absurd (ne (same-eq lib u v a b e).0)
    | inr e ↦ ground (arith, exec-view lib u a op s.memory v b)
  ]

  Stepped-other :
      (u v : Uuid) (a b : Bytes) (s s' : ServiceState f lib)
      → u ≢ v
      → Stepped (service_storage f lib) u a s s'
      → view lib s'.memory v b ≡ view lib s.memory v b
  unfolding exec
  Stepped-other u v a b s s' ne (stays e) = ap (λ t. view lib t.memory v b) e
  Stepped-other u v a b s s' ne (puts x e) =
      ap (λ t. view lib t.memory v b) e ∙ exec-other u v a b (put x) s ne
  Stepped-other u v a b s s' ne (deletes e) =
      ap (λ t. view lib t.memory v b) e ∙ exec-other u v a b delete s ne
  Stepped-other u v a b s s' ne (locks l e) =
      ap (λ t. view lib t.memory v b) e ∙ exec-other u v a b (acquire l) s ne
  Stepped-other u v a b s s' ne (unlocks id e) =
      ap (λ t. view lib t.memory v b) e ∙ exec-other u v a b (release id) s ne

  module _ (js : StateJson) (compare_hash : Bytes → Bytes → Comparison) where
    state_route-Stepped :
        (route : StateRoute) (u : Uuid) (r : Request Uuid) (s : ServiceState f lib)
        → get_org_id_from_context r.context ≡ some u
        → Stepped
            (service_storage f lib)
            u
            r.name_param
            s
            (state_route f lib js compare_hash route r s).0
    unfolding state_route
    state_route-Stepped get_route u r s h =
        stays (handlers-Stepped js (service_storage f lib) u r s h).0
    state_route-Stepped post_route u r s h = (handlers-Stepped js (service_storage f lib) u r s h).1
    state_route-Stepped delete_route u r s h =
        (handlers-Stepped js (service_storage f lib) u r s h).2
    state_route-Stepped post_lock_route u r s h =
        (handlers-Stepped js (service_storage f lib) u r s h).3
    state_route-Stepped delete_lock_route u r s h =
        (handlers-Stepped js (service_storage f lib) u r s h).4

    -- A request with its body behind the limit.
    abbrev pub limited_request : Request Uuid → Request Uuid
    limited_request r = record r { body = max_bytes_reader (10 * 2 ^ 20) r.body }

    -- The rate limiter drops out of the chain.
    pub serve-middleware :
        (route : StateRoute) (r : Request Uuid) (s : ServiceState f lib)
        → value r.context org_id_context_key ≡ none
        → serve f lib js compare_hash route r s
          ≡ middleware lib
              (credential_store f lib js compare_hash)
              (state_route f lib js compare_hash route)
              (limited_request r)
              s
    unfolding serve
    serve-middleware route r s h =
        rate_limit_bypassed f lib (service_limiter f lib) (credential_store f lib js compare_hash)
          (state_route f lib js compare_hash route) (limited_request r) s h

    -- Served at any route of states, a request that brings no value under the limiter's key and whose
    -- X-Org-ID header does not name an organization leaves every state and every lock of that
    -- organization as it was.
    pub serve-other :
        (route : StateRoute) (r : Request Uuid) (s : ServiceState f lib) (v : Uuid) (b : Bytes)
        → value r.context org_id_context_key ≡ none
        → parse (r.header (codes "X-Org-ID")) ≢ some v
        → view lib (serve f lib js compare_hash route r s).0.memory v b ≡ view lib s.memory v b
    serve-other route r s v b h ne =
        let r1 = limited_request r in
        ap (λ end. view lib end.0.memory v b) (serve-middleware route r s h)
        ∙ elim (middleware_cases lib (credential_store f lib js compare_hash)
            (state_route f lib js compare_hash route) r1 s) [
              | inr away ↦ ap (λ t. view lib t.memory v b) away.1.0
              | inl (u, a, e) ↦
                  ap (λ end. view lib end.0.memory v b) e
                  ∙ Stepped-other u v r1.name_param b s _ (λ p. ne (a.names_org ∙ ap some p))
                      (state_route-Stepped route u (authenticated r1 u) s
                        (get_org_id-with_value r1.context u))
            ]
