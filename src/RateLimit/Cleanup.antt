-- ===== src/RateLimit/Cleanup.antt =====
-- The sweep of idle buckets, and what every limiter keeps.
use eterrain_tf_upload.Base.{
  ℕ, ◌-◌, ◌≡◌, refl, Bool, false, Option, none, some, List, [], ◌∷◌, arith, Eq, ltb, if◌then◌else◌,
  Option-cases, inl, inr,
}
use eterrain_tf_upload.Maps.{Map, lookup, lookup-empty, Distinct, insert-Distinct}
use eterrain_tf_upload.Float.{Float, FloatLaws}
use eterrain_tf_upload.RateLimit.{
  bucket_allow, TokenBucket, PerOrgRateLimiter, new_per_org_rate_limiter, get_bucket,
  new_token_bucket, allow, cleanup_buckets, cleanup,
}
use eterrain_tf_upload.RateLimit.Bucket.{bucket_allow-Capped}
use eterrain_tf_upload.RateLimit.Orgs.{bucket_of, lookup-allow, allow-rates}

-- A request of an organization, or a tick of the cleanup, at a time.
pub data Event (Uuid : Type 0) : Type 0 where
  request : Uuid → ℕ → Event Uuid
  sweep : ℕ → Event Uuid

module _ {F : Type 0} where
  -- Not asked for longer than the limit.
  abbrev pub idle : ℕ → ℕ → TokenBucket F → Bool
  idle limit now b = ltb limit (now - b.last_refill_time)

  -- What the sweep leaves of an entry.
  abbrev pub swept : ℕ → ℕ → Option (TokenBucket F) → Option (TokenBucket F)
  swept limit now none = none
  swept limit now (some b) = if idle limit now b then none else some b

module _ (f : Float) {Uuid : Type 0} ⦃uuid_eq : Eq Uuid⦄ where
  open f use {Float64, gt}

  lookup-none-cleanup :
      (limit now : ℕ) (u : Uuid) (m : Map Uuid (TokenBucket Float64))
      → lookup u m ≡ none
      → lookup u (cleanup_buckets limit now m) ≡ none
  unfolding cleanup_buckets lookup
  lookup-none-cleanup limit now u [] h = h
  lookup-none-cleanup limit now u ((v, b) ∷ m) h = ground (arith, lookup-none-cleanup limit now u m)

  lookup-cleanup_buckets :
      (limit now : ℕ) (u : Uuid) (m : Map Uuid (TokenBucket Float64))
      → Distinct m
      → lookup u (cleanup_buckets limit now m) ≡ swept limit now (lookup u m)
  unfolding cleanup_buckets lookup
  lookup-cleanup_buckets limit now u [] d = refl
  lookup-cleanup_buckets limit now u ((v, b) ∷ m) d = ground (
    arith,
    uuid_eq.beq_iff v u,
    lookup-none-cleanup limit now u m,
    lookup-cleanup_buckets limit now u m d.1,
  )

  cleanup_buckets-Distinct :
      (limit now : ℕ) (m : Map Uuid (TokenBucket Float64))
      → Distinct m
      → Distinct (cleanup_buckets limit now m)
  unfolding cleanup_buckets
  cleanup_buckets-Distinct limit now [] d = tt
  cleanup_buckets-Distinct limit now ((v, b) ∷ m) d =
      ground
        (arith, lookup-none-cleanup limit now v m d.0, cleanup_buckets-Distinct limit now m d.1)

  -- Every bucket holds at most its capacity, which is the limiter's, and no organization has two.
  pub record IsValid (rl : PerOrgRateLimiter Uuid Float64) : Type 0 where
    pub distinct : Distinct rl.buckets
    pub capped :
        (u : Uuid) (b : TokenBucket Float64)
        → lookup u rl.buckets ≡ some b
        → (gt b.tokens b.max_tokens ≡ false) × (b.max_tokens ≡ rl.max_tokens)

  get_bucket-Distinct :
      (rl : PerOrgRateLimiter Uuid Float64) (u : Uuid) (now : ℕ)
      → Distinct rl.buckets
      → Distinct (get_bucket f rl u now).0.buckets
  unfolding get_bucket
  get_bucket-Distinct rl u now d = elim (Option-cases (lookup u rl.buckets)) [
    | inl e ↦
        rw (e, get_bucket)
          (insert-Distinct u (new_token_bucket f rl.max_tokens rl.refill_rate now) rl.buckets d)
    | inr (b, e) ↦ rw (e, get_bucket) d
  ]

  allow-Distinct :
      (rl : PerOrgRateLimiter Uuid Float64) (u : Uuid) (now : ℕ)
      → Distinct rl.buckets
      → Distinct (allow f rl u now).0.buckets
  unfolding allow
  allow-Distinct rl u now d =
      insert-Distinct u (bucket_allow f (bucket_of f rl u now) now).0
        (get_bucket f rl u now).0.buckets (get_bucket-Distinct rl u now d)

  max_tokens-bucket_of :
      (rl : PerOrgRateLimiter Uuid Float64) (u : Uuid) (now : ℕ)
      → IsValid rl
      → (bucket_of f rl u now).max_tokens ≡ rl.max_tokens
  unfolding get_bucket
  max_tokens-bucket_of rl u now v = elim (Option-cases (lookup u rl.buckets)) [
    | inl e ↦ ground arith
    | inr (b, e) ↦ ground (arith, v.capped u b e)
  ]

  pub run : PerOrgRateLimiter Uuid Float64 → List (Event Uuid) → PerOrgRateLimiter Uuid Float64
  run rl [] = rl
  run rl (request u now ∷ events) = run (allow f rl u now).0 events
  run rl (sweep now ∷ events) = run (cleanup f rl now) events

  module _ (laws : FloatLaws f) where
    pub new-IsValid : (max : Float64) → IsValid (new_per_org_rate_limiter f max)
    unfolding new_per_org_rate_limiter
    new-IsValid max = record {
      distinct = tt;
      capped = λ u b h. cc (lookup-empty {V = TokenBucket Float64} u, h);
    }

    pub allow-IsValid :
        (rl : PerOrgRateLimiter Uuid Float64) (u : Uuid) (now : ℕ)
        → IsValid rl
        → IsValid (allow f rl u now).0
    allow-IsValid rl u now v = record {
      distinct = allow-Distinct rl u now v.distinct;
      capped = λ w b h. ground (
        arith,
        v.capped w b,
        lookup-allow f rl u w now,
        allow-rates f rl u now,
        bucket_allow-Capped f laws (bucket_of f rl u now) now,
        max_tokens-bucket_of rl u now v,
      );
    }

    pub cleanup-IsValid :
        (rl : PerOrgRateLimiter Uuid Float64) (now : ℕ) → IsValid rl → IsValid (cleanup f rl now)
    unfolding cleanup
    cleanup-IsValid rl now v = record {
      distinct = cleanup_buckets-Distinct rl.max_idle_time now rl.buckets v.distinct;
      capped = λ u b h. ground (
        arith,
        v.capped u b,
        lookup-cleanup_buckets rl.max_idle_time now u rl.buckets v.distinct,
      );
    }

    run-IsValid :
        (events : List (Event Uuid)) (rl : PerOrgRateLimiter Uuid Float64)
        → IsValid rl
        → IsValid (run rl events)
    unfolding run
    run-IsValid [] rl v = v
    run-IsValid (request u now ∷ events) rl v = run-IsValid events _ (allow-IsValid rl u now v)
    run-IsValid (sweep now ∷ events) rl v = run-IsValid events _ (cleanup-IsValid rl now v)

    -- After any requests and sweeps, at any times, no bucket of a limiter holds more tokens than its
    -- capacity, which is the limiter's, and no organization has two buckets.
    pub run-new-IsValid :
        (max : Float64) (events : List (Event Uuid))
        → IsValid (run (new_per_org_rate_limiter f max) events)
    run-new-IsValid max events = run-IsValid events _ (new-IsValid max)

  -- Of a limiter that is valid, a sweep forgets exactly the buckets that were not asked for longer than the limit of idle time, and
  -- leaves the others as they are.
  pub lookup-cleanup :
      (rl : PerOrgRateLimiter Uuid Float64) (now : ℕ) (u : Uuid)
      → IsValid rl
      → lookup u (cleanup f rl now).buckets ≡ swept rl.max_idle_time now (lookup u rl.buckets)
  unfolding cleanup
  lookup-cleanup rl now u v = lookup-cleanup_buckets rl.max_idle_time now u rl.buckets v.distinct
