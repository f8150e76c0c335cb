-- ===== src/RateLimit.antt =====
-- internal/middleware/ratelimit.go. Times are nanoseconds of the monotonic clock. Here each method is one
-- step, and a bucket belongs to the organization under which the map holds it, so that updating it
-- through its pointer is a write to the map; the child Shared has the pointers, the locks and the
-- goroutines.
pub mod Bucket
pub mod Orgs
pub mod Cleanup
pub mod Requests
pub mod Refill
pub mod Shared
use eterrain_tf_upload.Base.{
  ℕ, ◌-◌, Bool, true, false, not, Option, none, some, List, [], ◌∷◌, Eq, if◌then◌else◌, ltb, sub_ℕ,
}
use eterrain_tf_upload.Text.{Bytes, codes}
use eterrain_tf_upload.Maps.{Map, lookup, insert}
use eterrain_tf_upload.Float.{Float}
use eterrain_tf_upload.Http.{
  middleware_package, ContextKey, uuid, other, value, Request, Response, Handler, http_error_with,
}

pub record TokenBucket (F : Type 0) : Type 0 where
  pub tokens : F
  pub max_tokens : F
  pub refill_rate : F
  pub last_refill_time : ℕ

pub record PerOrgRateLimiter (Uuid F : Type 0) : Type 0 where
  pub buckets : Map Uuid (TokenBucket F)
  pub max_tokens : F
  pub refill_rate : F
  pub max_idle_time : ℕ

-- What the select of cleanupRoutine receives: a tick, at a time, or the closing of stopCleanup.
pub data CleanupEvent : Type 0 where
  tick : ℕ → CleanupEvent
  stopped : CleanupEvent

-- The ticker of the cleanup, and whether stopCleanup is closed
pub record CleanupControl : Type 0 where
  pub ticking : Bool
  pub stop_closed : Bool

-- Stop: a second closing of stopCleanup panics, which is none.
unfoldable pub stop_limiter : CleanupControl → Option CleanupControl
stop_limiter c =
    if c.stop_closed then none else some (record { ticking = false; stop_closed = true })

-- The loop of cleanupRoutine over the buckets
unfoldable pub cleanup_buckets :
    {Uuid F : Type 0} → ℕ → ℕ → Map Uuid (TokenBucket F) → Map Uuid (TokenBucket F)
cleanup_buckets max_idle_time now [] = []
cleanup_buckets max_idle_time now ((org_id, bucket) ∷ buckets) =
    let rest = cleanup_buckets max_idle_time now buckets in
    if ltb max_idle_time (now - bucket.last_refill_time) then rest else (org_id, bucket) ∷ rest

module _ (f : Float) where
  open f use {Float64, plus, minus, times, over, gt, ge, of_nat, seconds}

  unfoldable pub new_token_bucket : Float64 → Float64 → ℕ → TokenBucket Float64
  new_token_bucket max_tokens refill_rate now = record {
    tokens = max_tokens;
    max_tokens = max_tokens;
    refill_rate = refill_rate;
    last_refill_time = now;
  }

  -- The tokens after the refill of Allow
  unfoldable pub refill : TokenBucket Float64 → ℕ → Float64
  refill tb now =
      let elapsed = seconds (sub_ℕ now tb.last_refill_time) in
      let tokens = plus tb.tokens (times elapsed tb.refill_rate) in
      if gt tokens tb.max_tokens then tb.max_tokens else tokens

  -- TokenBucket.Allow
  unfoldable pub bucket_allow : TokenBucket Float64 → ℕ → TokenBucket Float64 × Bool
  unfolding refill
  bucket_allow tb now =
      let tokens = refill tb now in
      if ge tokens (of_nat 1)
      then (record tb { tokens = minus tokens (of_nat 1); last_refill_time = now }, true)
      else (record tb { tokens = tokens; last_refill_time = now }, false)

  module _ {Uuid : Type 0} ⦃uuid_eq : Eq Uuid⦄ where
    unfoldable pub new_per_org_rate_limiter : Float64 → PerOrgRateLimiter Uuid Float64
    new_per_org_rate_limiter max_requests_per_minute = record {
      buckets = [];
      max_tokens = max_requests_per_minute;
      refill_rate = over max_requests_per_minute (of_nat 60);
      max_idle_time = 600_000_000_000;
    }

    -- One iteration over the buckets; deleting the entry at hand during a range skips no other.
    unfoldable pub cleanup : PerOrgRateLimiter Uuid Float64 → ℕ → PerOrgRateLimiter Uuid Float64
    unfolding cleanup_buckets
    cleanup rl now = record rl { buckets = cleanup_buckets rl.max_idle_time now rl.buckets }

    -- getBucket
    unfoldable pub get_bucket :
        PerOrgRateLimiter Uuid Float64
        → Uuid
        → ℕ
        → PerOrgRateLimiter Uuid Float64 × TokenBucket Float64
    unfolding new_token_bucket
    get_bucket rl org_id now = elim (lookup org_id rl.buckets) [
      | some bucket ↦ (rl, bucket)
      | none ↦
          let bucket = new_token_bucket rl.max_tokens rl.refill_rate now in
          (record rl { buckets = insert org_id bucket rl.buckets }, bucket)
    ]

    -- PerOrgRateLimiter.Allow
    unfoldable pub allow :
        PerOrgRateLimiter Uuid Float64 → Uuid → ℕ → PerOrgRateLimiter Uuid Float64 × Bool
    unfolding get_bucket bucket_allow
    allow rl org_id now =
        let (found, bucket) = get_bucket rl org_id now in
        let (spent, allowed) = bucket_allow bucket now in
        (record found { buckets = insert org_id spent found.buckets }, allowed)

    -- cleanupRoutine: it returns when it is stopped.
    unfoldable pub cleanup_routine :
        PerOrgRateLimiter Uuid Float64 → List CleanupEvent → PerOrgRateLimiter Uuid Float64
    unfolding cleanup
    cleanup_routine rl [] = rl
    cleanup_routine rl (tick now ∷ events) = cleanup_routine (cleanup rl now) events
    cleanup_routine rl (stopped ∷ events) = rl

-- OrgIDContextKey of this package
abbrev pub org_id_context_key : ContextKey
org_id_context_key = record { owner = middleware_package; text = codes "orgid" }

-- Where the service's state holds the limiter, and its clock.
pub record LimiterPlace (S L : Type 0) : Type 0 where
  pub get : S → L
  pub set : L → S → S
  pub now : S → ℕ

module _ (f : Float) {Uuid S J : Type 0} ⦃uuid_eq : Eq Uuid⦄
    (place : LimiterPlace S (PerOrgRateLimiter Uuid f.Float64)) where
  -- RateLimitMiddleware
  unfoldable pub rate_limit_middleware : Handler Uuid S J → Handler Uuid S J
  rate_limit_middleware next r s = elim (value r.context org_id_context_key) [
    | none ↦ next r s
    | some org_id_value ↦ elim org_id_value [
      | other ↦ next r s
      | uuid org_id ↦
          let (limiter, allowed) = allow f (place.get s) org_id (place.now s) in
          let s' = place.set limiter s in
          if not allowed
          then (
            s',
            http_error_with
                ((codes "X-RateLimit-Limit", codes "60")
                  ∷ (codes "X-RateLimit-Remaining", codes "0")
                  ∷ (codes "Retry-After", codes "60")
                  ∷ [])
                429 "Rate limit exceeded. Please try again later." [] none,
          )
          else next r s'
    ]
  ]
