-- ===== src/RateLimit/Requests.antt =====
-- The middleware: whom it limits, and how it stands behind internal/auth.
use eterrain_tf_upload.Base.{◌∙◌, ◌≡◌, refl, Bool, Option, none, arith}
use eterrain_tf_upload.Text.{Bytes}
use eterrain_tf_upload.Errors.{Error}
use eterrain_tf_upload.Uuid.{UuidLib}
use eterrain_tf_upload.Float.{Float}
use eterrain_tf_upload.Http.{value, Request, Handler}
use eterrain_tf_upload.Auth.Middleware.{middleware-ext, middleware, authenticated}
use eterrain_tf_upload.RateLimit.{
  PerOrgRateLimiter, LimiterPlace, org_id_context_key, rate_limit_middleware,
}

value-authenticated :
    {Uuid : Type 0} (r : Request Uuid) (u : Uuid)
    → value (authenticated r u).context org_id_context_key ≡ value r.context org_id_context_key
unfolding value
value-authenticated r u = refl

module _ (f : Float) (lib : UuidLib) {S J : Type 0}
    (place : LimiterPlace S (PerOrgRateLimiter lib.Uuid f.Float64)) where
  open lib use {Uuid, uuid_eq}

  abbrev limited : Handler Uuid S J → Handler Uuid S J
  limited = rate_limit_middleware f ⦃uuid_eq = uuid_eq⦄ place

  limited_without_org :
      (next : Handler Uuid S J) (r : Request Uuid) (s : S)
      → value r.context org_id_context_key ≡ none
      → limited next r s ≡ next r s
  unfolding rate_limit_middleware
  limited_without_org next r s h = ground arith

  -- Behind the middleware of internal/auth, whose key is of another type, the rate limit has no
  -- effect: a request whose context holds no value under this package's key is answered, and
  -- changes the state, as if the limiter were not there.
  pub rate_limit_bypassed :
      (validate_credentials : Uuid → Bytes → S → Bool × Option Error) (next : Handler Uuid S J)
      (r : Request Uuid) (s : S)
      → value r.context org_id_context_key ≡ none
      → middleware lib validate_credentials (limited next) r s
        ≡ middleware lib validate_credentials next r s
  rate_limit_bypassed validate_credentials next r s h =
      middleware-ext lib validate_credentials (limited next) next r s
        λ u. limited_without_org next (authenticated r u) s (value-authenticated r u ∙ h)
