-- ===== src/RateLimit/Shared/Sequential.antt =====
-- The answers of the steps are those of the limiter that serves one call after the other.
pub mod Simulation
pub mod Answers
use eterrain_tf_upload.Base.{
  ℕ, ◌≤◌, ◌≡◌, refl, Bool, Option, none, some, List, [], ◌∷◌, arith, Eq, if◌then◌else◌, inl, inr,
  Option-cases, ap, sym, ◌∙◌,
}
use eterrain_tf_upload.Maps.{lookup}
use eterrain_tf_upload.Float.{Float, RefillLaws, exact}
use eterrain_tf_upload.RateLimit.{
  TokenBucket, PerOrgRateLimiter, bucket_allow, get_bucket, new_token_bucket, allow,
}
use eterrain_tf_upload.RateLimit.Orgs.{bucket_of, allow-result, lookup-allow, allow-rates}
use eterrain_tf_upload.RateLimit.Refill.{
  IsSound, AllSound, AllSound-later, avail, taken, bucket_allow-taken, refill-new, ge-avail,
  taken-IsSound, new-IsSound,
}
use eterrain_tf_upload.RateLimit.Shared.{Shared, Call}

-- The bucket at a pointer
abbrev pub bucket_at : {F : Type 0} → (ℕ → TokenBucket F) → Option ℕ → Option (TokenBucket F)
bucket_at memory none = none
bucket_at memory (some p) = some (memory p)

module _ (f : Float) {Uuid : Type 0} ⦃uuid_eq : Eq Uuid⦄ where
  open f use {Float64, over, of_nat}

  -- The answers of the limiter to calls at their times, one call after the other.
  pub answers : PerOrgRateLimiter Uuid Float64 → List (Call Uuid) → List Bool
  answers rl [] = []
  answers rl (call ∷ calls) =
      let (rl', allowed) = allow f rl call.org_id call.time in allowed ∷ answers rl' calls

  pub decisions : List (Call Uuid) → List Bool
  decisions [] = []
  decisions (call ∷ calls) = call.allowed ∷ decisions calls

  module _ (laws : RefillLaws f) (k : ℕ) (bound : k ≤ exact) where
    -- A limiter for k requests per minute.
    pub record IsSequential (clock : ℕ) (rl : PerOrgRateLimiter Uuid Float64) : Type 0 where
      pub capacity : rl.max_tokens ≡ of_nat k
      pub rate : rl.refill_rate ≡ over (of_nat k) (of_nat 60)
      pub sound : (u : Uuid) → AllSound f k clock (lookup u rl.buckets)

    bucket_of-none :
        (clock : ℕ) (rl : PerOrgRateLimiter Uuid Float64) (u : Uuid)
        → IsSequential clock rl
        → lookup u rl.buckets ≡ none
        → bucket_of f rl u clock ≡ new_token_bucket f (of_nat k) (over (of_nat k) (of_nat 60)) clock
    unfolding get_bucket new_token_bucket
    bucket_of-none clock rl u seq e = ground (arith, seq.capacity, seq.rate)

    bucket_of-some :
        (clock : ℕ) (rl : PerOrgRateLimiter Uuid Float64) (u : Uuid) (b : TokenBucket Float64)
        → lookup u rl.buckets ≡ some b
        → bucket_of f rl u clock ≡ b
    unfolding get_bucket
    bucket_of-some clock rl u b e = ground arith

    allow-taken :
        (clock : ℕ) (rl : PerOrgRateLimiter Uuid Float64) (u : Uuid)
        → IsSequential clock rl
        → bucket_allow f (bucket_of f rl u clock) clock
          ≡ taken f k (avail f k (lookup u rl.buckets) clock) clock
    allow-taken clock rl u seq = elim (Option-cases (lookup u rl.buckets)) [
      | inl e ↦
          ap (λ b. bucket_allow f b clock) (bucket_of-none clock rl u seq e)
          ∙ bucket_allow-taken f k clock clock _ (new-IsSound f laws k bound clock)
          ∙ ap (λ t. taken f k t clock)
              (refill-new f laws k bound clock clock (omega arith)
                ∙ ap (λ o. avail f k o clock) (sym e))
      | inr (b, e) ↦
          let s : IsSound f k clock b = ground (arith, seq.sound u) in
          ap (λ c. bucket_allow f c clock) (bucket_of-some clock rl u b e)
          ∙ bucket_allow-taken f k clock clock b s
          ∙ ap (λ o. taken f k (avail f k o clock) clock) (sym e)
    ]

    pub allow-decision :
        (clock : ℕ) (rl : PerOrgRateLimiter Uuid Float64) (u : Uuid)
        → IsSequential clock rl
        → (allow f rl u clock).1 ≡ (taken f k (avail f k (lookup u rl.buckets) clock) clock).1
    allow-decision clock rl u seq =
        ground (arith, allow-result f rl u clock, allow-taken clock rl u seq)

    pub lookup-allow_taken :
        (clock : ℕ) (rl : PerOrgRateLimiter Uuid Float64) (u v : Uuid)
        → IsSequential clock rl
        → lookup v (allow f rl u clock).0.buckets ≡ (
            if uuid_eq.beq u v
            then some (taken f k (avail f k (lookup u rl.buckets) clock) clock).0
            else lookup v rl.buckets)
    lookup-allow_taken clock rl u v seq =
        ground (arith, lookup-allow f rl u v clock, allow-taken clock rl u seq)

    pub allow-IsSequential :
        (clock : ℕ) (rl : PerOrgRateLimiter Uuid Float64) (u : Uuid)
        → IsSequential clock rl
        → IsSequential clock (allow f rl u clock).0
    allow-IsSequential clock rl u seq = record {
      capacity = ground (arith, allow-rates f rl u clock, seq.capacity);
      rate = ground (arith, allow-rates f rl u clock, seq.rate);
      sound = λ v. ground (
        arith,
        seq.sound v,
        lookup-allow_taken clock rl u v seq,
        taken-IsSound f laws k bound (avail f k (lookup u rl.buckets) clock) clock
            (ge-avail f laws k bound clock clock (lookup u rl.buckets) (seq.sound u) (omega arith)),
      );
    }

    pub IsSequential-later :
        (clock later : ℕ) (rl : PerOrgRateLimiter Uuid Float64)
        → clock ≤ later
        → IsSequential clock rl
        → IsSequential later rl
    IsSequential-later clock later rl h seq = record {
      capacity = seq.capacity;
      rate = seq.rate;
      sound = λ u. AllSound-later f k (lookup u rl.buckets) clock later h (seq.sound u);
    }
