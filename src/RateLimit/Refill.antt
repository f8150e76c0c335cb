-- ===== src/RateLimit/Refill.antt =====
-- What a bucket of whole capacity has at a later time, and what is taken from it.
use eterrain_tf_upload.Base.{
  ℕ, ◌-◌, ◌≤◌, ◌≡◌, Bool, true, false, Option, none, some, arith, ltb, if◌then◌else◌, pos, sub_ℕ,
  Bool-cases, inl, inr,
}
use eterrain_tf_upload.Float.{Float, RefillLaws, exact}
use eterrain_tf_upload.RateLimit.{TokenBucket, new_token_bucket, refill, bucket_allow}

module _ (f : Float) (k : ℕ) where
  open f use {Float64, plus, minus, times, over, gt, ge, of_nat, seconds}

  abbrev pub bucket_with : Float64 → ℕ → TokenBucket Float64
  bucket_with tokens now = record {
    tokens = tokens;
    max_tokens = of_nat k;
    refill_rate = over (of_nat k) (of_nat 60);
    last_refill_time = now;
  }

  -- A bucket of a limiter for k requests per minute, at the time of the clock.
  pub record IsSound (clock : ℕ) (b : TokenBucket Float64) : Type 0 where
    pub capacity : b.max_tokens ≡ of_nat k
    pub rate : b.refill_rate ≡ over (of_nat k) (of_nat 60)
    pub past : b.last_refill_time ≤ clock
    pub tokens : ge b.tokens (of_nat 0) ≡ true

  abbrev pub AllSound : ℕ → Option (TokenBucket Float64) → Type 0
  AllSound clock none = Unit
  AllSound clock (some b) = IsSound clock b

  -- The tokens that a request would find. An organization without a bucket is given a full one.
  abbrev pub avail : Option (TokenBucket Float64) → ℕ → Float64
  avail none t = of_nat k
  avail (some b) t = refill f b t

  -- The bucket after a request that found so many tokens, and the answer.
  abbrev pub taken : Float64 → ℕ → TokenBucket Float64 × Bool
  taken tokens now =
      if ge tokens (of_nat 1)
      then (bucket_with (minus tokens (of_nat 1)) now, true)
      else (bucket_with tokens now, false)

  pub AllSound-later :
      (o : Option (TokenBucket Float64)) (clock later : ℕ)
      → clock ≤ later
      → AllSound clock o
      → AllSound later o
  AllSound-later none clock later h s = tt
  AllSound-later (some b) clock later h s = ground arith

  pub bucket_allow-taken :
      (clock now : ℕ) (b : TokenBucket Float64)
      → IsSound clock b
      → bucket_allow f b now ≡ taken (refill f b now) now
  unfolding bucket_allow
  bucket_allow-taken clock now b s = elim (Bool-cases (ge (refill f b now) (of_nat 1))) [
    | inl e ↦ ground arith
    | inr e ↦ ground arith
  ]

sub_ℕ_later : (a b : ℕ) → a ≤ b → sub_ℕ b a ≡ pos (b - a)
sub_ℕ_later a b h = ground arith

module _ (f : Float) (laws : RefillLaws f) (k : ℕ) (bound : k ≤ exact) where
  open f use {Float64, plus, minus, times, over, gt, ge, of_nat, seconds}
  open laws use {ge-zero, ge-minus_one, ge-refill, refill_full, refill_idle}

  -- A new bucket stays full until it is asked.
  pub refill-new :
      (now t : ℕ)
      → now ≤ t
      → refill f (new_token_bucket f (of_nat k) (over (of_nat k) (of_nat 60)) now) t ≡ of_nat k
  unfolding refill new_token_bucket
  refill-new now t h = rw (sub_ℕ_later now t h) (ground (arith, refill_full k (t - now) bound))

  -- A bucket that was not asked for ten minutes is full.
  pub refill-idle :
      (clock t : ℕ) (b : TokenBucket Float64)
      → IsSound f k clock b
      → clock ≤ t
      → ltb 600_000_000_000 (clock - b.last_refill_time) ≡ true
      → refill f b t ≡ of_nat k
  unfolding refill
  refill-idle clock t b s h idle =
      rw (sub_ℕ_later b.last_refill_time t (ground arith), s.rate, s.capacity)
        (ground (arith, s, refill_idle b.tokens k (t - b.last_refill_time)))

  ge-refill_zero :
      (clock t : ℕ) (b : TokenBucket Float64)
      → IsSound f k clock b
      → clock ≤ t
      → ge (refill f b t) (of_nat 0) ≡ true
  unfolding refill
  ge-refill_zero clock t b s h =
      rw (sub_ℕ_later b.last_refill_time t (ground arith), s.rate, s.capacity)
        (ground (arith, s, ge-zero k bound, ge-refill b.tokens k (t - b.last_refill_time)))

  pub ge-avail :
      (clock t : ℕ) (o : Option (TokenBucket Float64))
      → AllSound f k clock o
      → clock ≤ t
      → ge (avail f k o t) (of_nat 0) ≡ true
  ge-avail clock t none s h = ge-zero k bound
  ge-avail clock t (some b) s h = ge-refill_zero clock t b s h

  pub taken-IsSound :
      (tokens : Float64) (now : ℕ)
      → ge tokens (of_nat 0) ≡ true
      → IsSound f k now (taken f k tokens now).0
  taken-IsSound tokens now h = elim (Bool-cases (ge tokens (of_nat 1))) [
    | inl e ↦ ground (arith, ge-minus_one tokens e)
    | inr e ↦ ground arith
  ]

  pub new-IsSound :
      (now : ℕ) → IsSound f k now (new_token_bucket f (of_nat k) (over (of_nat k) (of_nat 60)) now)
  unfolding new_token_bucket
  new-IsSound now = ground (arith, ge-zero k bound)
