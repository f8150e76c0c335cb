-- ===== src/RateLimit/Orgs.antt =====
-- The limiter of all organizations.
use eterrain_tf_upload.Base.{
  ap, ℕ, suc, ◌-◌, ◌≤◌, ◌≡◌, ◌≢◌, refl, some, List, [], ◌∷◌, arith, Eq, ltb, if◌then◌else◌,
  Bool-cases, Option-cases, inl, inr,
}
use eterrain_tf_upload.Maps.{lookup, lookup-insert, lookup-empty}
use eterrain_tf_upload.Float.{Float, FloatLaws, exact}
use eterrain_tf_upload.RateLimit.{
  TokenBucket, PerOrgRateLimiter, new_per_org_rate_limiter, bucket_allow, get_bucket, allow,
}
use eterrain_tf_upload.RateLimit.Bucket.{whole_bucket, bucket_allow-whole}

minus_zero : (n : ℕ) → n - 0 ≡ n
minus_zero n = omega arith

minus_suc : (n m : ℕ) → n - suc m ≡ n - m - 1
minus_suc n m = omega arith

module _ (f : Float) {Uuid : Type 0} ⦃uuid_eq : Eq Uuid⦄ where
  open f use {Float64, of_nat, over, gt}

  -- The bucket that an organization has, or would be given now.
  abbrev pub bucket_of : PerOrgRateLimiter Uuid Float64 → Uuid → ℕ → TokenBucket Float64
  bucket_of rl u now = (get_bucket f rl u now).1

  pub allow-result :
      (rl : PerOrgRateLimiter Uuid Float64) (u : Uuid) (now : ℕ)
      → (allow f rl u now).1 ≡ (bucket_allow f (bucket_of rl u now) now).1
  unfolding allow
  allow-result rl u now = refl

  pub allow-rates :
      (rl : PerOrgRateLimiter Uuid Float64) (u : Uuid) (now : ℕ)
      → ((allow f rl u now).0.max_tokens ≡ rl.max_tokens)
        × ((allow f rl u now).0.refill_rate ≡ rl.refill_rate)
  unfolding allow get_bucket
  allow-rates rl u now = ground arith

  pub lookup-allow :
      (rl : PerOrgRateLimiter Uuid Float64) (u v : Uuid) (now : ℕ)
      → lookup v (allow f rl u now).0.buckets ≡ (
          if uuid_eq.beq u v
          then some (bucket_allow f (bucket_of rl u now) now).0
          else lookup v rl.buckets)
  unfolding allow get_bucket
  lookup-allow rl u v now = elim (Option-cases (lookup u rl.buckets)) [
    | inl e ↦ ground (
      arith,
      lookup-insert u v (bucket_allow f (bucket_of rl u now) now).0
          (get_bucket f rl u now).0.buckets,
      lookup-insert u v (bucket_of rl u now) rl.buckets,
    )
    | inr (b, e) ↦ ground (arith, lookup-insert u v (bucket_allow f b now).0 rl.buckets)
  ]

  pub bucket_of-allow :
      (rl : PerOrgRateLimiter Uuid Float64) (u v : Uuid) (now later : ℕ)
      → bucket_of (allow f rl u now).0 v later ≡ (
          if uuid_eq.beq u v
          then (bucket_allow f (bucket_of rl u now) now).0
          else bucket_of rl v later)
  unfolding get_bucket
  bucket_of-allow rl u v now later = ground (arith, lookup-allow rl u v now, allow-rates rl u now)

  -- A request of one organization changes neither the answer to a request of another, at any time, nor
  -- the bucket of another.
  pub allow_other :
      (rl : PerOrgRateLimiter Uuid Float64) (u v : Uuid) (now later : ℕ)
      → u ≢ v
      → ((allow f (allow f rl u now).0 v later).1 ≡ (allow f rl v later).1)
        × (lookup v (allow f rl u now).0.buckets ≡ lookup v rl.buckets)
  allow_other rl u v now later ne = (
    ground (
      arith,
      uuid_eq.beq_iff u v,
      bucket_of-allow rl u v now later,
      allow-result (allow f rl u now).0 v later,
      allow-result rl v later,
    ),
    ground (arith, uuid_eq.beq_iff u v, lookup-allow rl u v now),
  )

  -- How many of the requests are of an organization.
  pub count : Uuid → List Uuid → ℕ
  count u [] = 0
  count u (v ∷ vs) = if uuid_eq.beq v u then suc (count u vs) else count u vs

  -- The limiter after requests at one instant; the last request stands first.
  pub after : PerOrgRateLimiter Uuid Float64 → ℕ → List Uuid → PerOrgRateLimiter Uuid Float64
  after rl now [] = rl
  after rl now (v ∷ vs) = (allow f (after rl now vs) v now).0

  module _ (laws : FloatLaws f) (max now : ℕ) (bound : max ≤ exact) where
    abbrev pub fresh : PerOrgRateLimiter Uuid Float64
    fresh = new_per_org_rate_limiter f (of_nat max)

    bucket_of-after :
        (us : List Uuid) (u : Uuid)
        → bucket_of (after fresh now us) u now ≡ whole_bucket f (max - count u us) max now
    unfolding after count get_bucket new_per_org_rate_limiter
    bucket_of-after [] u =
        ground (arith, lookup-empty {V = TokenBucket Float64} u, ap of_nat (minus_zero max))
    bucket_of-after (v ∷ vs) u = elim (Bool-cases (uuid_eq.beq v u)) [
      | inl e ↦ ground (
        arith,
        bucket_of-allow (after fresh now vs) v u now now,
        (uuid_eq.beq_iff v u).0 e,
        bucket_of-after vs u,
        bucket_allow-whole f laws (max - count u vs) max now (omega arith) bound,
        ap of_nat (minus_suc max (count u vs)),
      )
      | inr e ↦
          ground (arith, bucket_of-allow (after fresh now vs) v u now now, bucket_of-after vs u)
    ]

    -- Of a fresh limiter for `max` requests per minute, at most 2^53: at one instant, and whatever the other
    -- organizations ask meanwhile, an organization is allowed exactly its first `max` requests.
    pub burst :
        (us : List Uuid) (u : Uuid) → (allow f (after fresh now us) u now).1 ≡ ltb (count u us) max
    burst us u = ground (
      arith,
      allow-result (after fresh now us) u now,
      bucket_of-after us u,
      bucket_allow-whole f laws (max - count u us) max now (omega arith) bound,
    )
