-- ===== src/RateLimit/Shared/Sequential/Simulation.antt =====
-- A state of the goroutines beside a state of the limiter that serves one call after the other.
use eterrain_tf_upload.RateLimit.{new_token_bucket, TokenBucket, PerOrgRateLimiter, allow}
use eterrain_tf_upload.Base.{
  ℕ, ◌≤◌, ◌≡◌, refl, none, some, arith, Eq, if◌then◌else◌, ap, ◌∙◌, inl, inr, Option-cases, Option,
}
use eterrain_tf_upload.Maps.{lookup, lookup-insert}
use eterrain_tf_upload.Float.{Float, RefillLaws, exact}
use eterrain_tf_upload.RateLimit.Refill.{
  IsSound, AllSound, AllSound-later, avail, taken, bucket_allow-taken, refill-new, refill-idle,
  ge-avail, taken-IsSound, new-IsSound,
}
use eterrain_tf_upload.RateLimit.Shared.{Shared, System, find_or_create, spend, sweep}
use eterrain_tf_upload.RateLimit.Shared.Apart.{IsApart, lookup-sweep_pointers}
use eterrain_tf_upload.RateLimit.Shared.Sequential.{
  bucket_at, IsSequential, IsSequential-later, allow-IsSequential, allow-decision,
  lookup-allow_taken,
}

module _ (f : Float) {Uuid : Type 0} ⦃uuid_eq : Eq Uuid⦄ (laws : RefillLaws f) (k : ℕ)
    (bound : k ≤ exact) where
  open f use {Float64, over, of_nat}

  -- An organization's bucket
  abbrev pub held : Shared Uuid Float64 → Uuid → Option (TokenBucket Float64)
  held s u = bucket_at s.memory (lookup u s.pointers)

  -- The buckets in memory give every organization, at every later time, what the other limiter gives.
  pub record Simulates (clock : ℕ) (s : Shared Uuid Float64) (rl : PerOrgRateLimiter Uuid Float64)
      : Type 0 where
    pub capacity : s.max_tokens ≡ of_nat k
    pub rate : s.refill_rate ≡ over (of_nat k) (of_nat 60)
    pub limit : s.max_idle_time ≡ 600_000_000_000
    pub sound : (u : Uuid) → AllSound f k clock (held s u)
    pub sequential : IsSequential f laws k bound clock rl
    pub same :
        (u : Uuid) (t : ℕ) → clock ≤ t → avail f k (held s u) t ≡ avail f k (lookup u rl.buckets) t

  pub Simulates-later :
      (clock later : ℕ) (s : Shared Uuid Float64) (rl : PerOrgRateLimiter Uuid Float64)
      → clock ≤ later
      → Simulates clock s rl
      → Simulates later s rl
  Simulates-later clock later s rl h sim = record {
    capacity = sim.capacity;
    rate = sim.rate;
    limit = sim.limit;
    sound = λ u. AllSound-later f k (held s u) clock later h (sim.sound u);
    sequential = IsSequential-later f laws k bound clock later rl h sim.sequential;
    same = λ u t g. sim.same u t (omega arith);
  }

  -- Another state of the memory in which every organization has as many tokens.
  Simulates-as :
      (clock : ℕ) (s s' : Shared Uuid Float64) (rl : PerOrgRateLimiter Uuid Float64)
      → s'.max_tokens ≡ s.max_tokens
      → s'.refill_rate ≡ s.refill_rate
      → s'.max_idle_time ≡ s.max_idle_time
      → ((u : Uuid) → AllSound f k clock (held s' u))
      → ((u : Uuid) (t : ℕ) → clock ≤ t → avail f k (held s' u) t ≡ avail f k (held s u) t)
      → Simulates clock s rl
      → Simulates clock s' rl
  Simulates-as clock s s' rl a b c sound equal sim = record {
    capacity = a ∙ sim.capacity;
    rate = b ∙ sim.rate;
    limit = c ∙ sim.limit;
    sound = sound;
    sequential = sim.sequential;
    same = λ u t h. equal u t h ∙ sim.same u t h;
  }

  held-create :
      (y : System Uuid Float64) (w u : Uuid)
      → IsApart y
      → lookup w y.shared.pointers ≡ none
      → held (find_or_create f y.shared w y.clock).0 u ≡ (
          if uuid_eq.beq w u
          then some (new_token_bucket f y.shared.max_tokens y.shared.refill_rate y.clock)
          else held y.shared u)
  unfolding find_or_create
  held-create y w u inv n = elim (Option-cases (lookup u y.shared.pointers)) [
    | inl e ↦ ground (arith, lookup-insert w u y.shared.allocated y.shared.pointers)
    | inr (p, e) ↦ ground (
      arith,
      uuid_eq.beq_iff w u,
      inv.within u p (inl e),
      lookup-insert w u y.shared.allocated y.shared.pointers,
    )
  ]

  pub Simulates-create :
      (y : System Uuid Float64) (w : Uuid) (rl : PerOrgRateLimiter Uuid Float64)
      → IsApart y
      → Simulates y.clock y.shared rl
      → Simulates y.clock (find_or_create f y.shared w y.clock).0 rl
  unfolding find_or_create
  Simulates-create y w rl inv sim = elim (Option-cases (lookup w y.shared.pointers)) [
    | inr (p, e) ↦ rw (e, find_or_create) sim
    | inl n ↦
        let made = new_token_bucket f y.shared.max_tokens y.shared.refill_rate y.clock in
        let fresh : made ≡ new_token_bucket f (of_nat k) (over (of_nat k) (of_nat 60)) y.clock =
          rw (sim.capacity, sim.rate) refl in
        Simulates-as y.clock y.shared (find_or_create f y.shared w y.clock).0 rl
          (rw (n, find_or_create) refl) (rw (n, find_or_create) refl) (rw (n, find_or_create) refl)
          (λ u. ground (
            arith,
            fresh,
            held-create y w u inv n,
            new-IsSound f laws k bound y.clock,
            sim.sound u,
          ))
          (λ u t h. ground (
            arith,
            fresh,
            uuid_eq.beq_iff w u,
            held-create y w u inv n,
            refill-new f laws k bound y.clock t h,
          ))
          sim
  ]

  pub Simulates-tick :
      (y : System Uuid Float64) (rl : PerOrgRateLimiter Uuid Float64)
      → IsApart y
      → Simulates y.clock y.shared rl
      → Simulates y.clock (sweep f y.shared y.clock) rl
  unfolding sweep
  Simulates-tick y rl inv sim =
      let swept = λ (u : Uuid).
        lookup-sweep_pointers y.shared.max_idle_time y.clock y.shared.memory u y.shared.pointers
          inv.distinct in
      Simulates-as y.clock y.shared (sweep f y.shared y.clock) rl refl refl refl
        (λ u. elim (Option-cases (lookup u y.shared.pointers)) [
          | inl e ↦ ground (arith, swept u)
          | inr (p, e) ↦ ground (arith, swept u, sim.sound u)
        ])
        (λ u t h. elim (Option-cases (lookup u y.shared.pointers)) [
          | inl e ↦ ground (arith, swept u)
          | inr (p, e) ↦
              let s : IsSound f k y.clock (y.shared.memory p) = ground (arith, sim.sound u) in
              ground (
                arith,
                swept u,
                sim.limit,
                refill-idle f laws k bound y.clock t (y.shared.memory p) s h,
              )
        ])
        sim

  held-spend :
      (y : System Uuid Float64) (p : ℕ) (w u : Uuid)
      → IsApart y
      → lookup w y.shared.pointers ≡ some p
      → IsSound f k y.clock (y.shared.memory p)
      → held (spend f y.shared p y.clock).0 u ≡ (
          if uuid_eq.beq w u
          then some (taken f k (avail f k (held y.shared w) y.clock) y.clock).0
          else held y.shared u)
  unfolding spend
  held-spend y p w u inv e s = elim (Option-cases (lookup u y.shared.pointers)) [
    | inl n ↦ ground (arith, uuid_eq.beq_iff w u)
    | inr (q, n) ↦ ground (
      arith,
      uuid_eq.beq_iff w u,
      inv.apart w u p (inl e),
      ap (λ o. avail f k (bucket_at y.shared.memory o) y.clock) e,
      bucket_allow-taken f k y.clock y.clock (y.shared.memory p) s,
    )
  ]

  -- A request on the bucket in the map is the request of the other limiter, with the same answer.
  pub Simulates-answer :
      (y : System Uuid Float64) (p : ℕ) (w : Uuid) (rl : PerOrgRateLimiter Uuid Float64)
      → IsApart y
      → lookup w y.shared.pointers ≡ some p
      → Simulates y.clock y.shared rl
      → Simulates y.clock (spend f y.shared p y.clock).0 (allow f rl w y.clock).0
        × ((spend f y.shared p y.clock).1 ≡ (allow f rl w y.clock).1)
  unfolding spend
  Simulates-answer y p w rl inv e sim =
      let s : IsSound f k y.clock (y.shared.memory p) = ground (arith, sim.sound w) in
      let tokens = avail f k (held y.shared w) y.clock in
      let agree = sim.same w y.clock (omega arith) in
      let now = λ (u : Uuid). held-spend y p w u inv e s in
      let other = λ (u : Uuid). lookup-allow_taken f laws k bound y.clock rl w u sim.sequential in
      (
        record {
          capacity = sim.capacity;
          rate = sim.rate;
          limit = sim.limit;
          sound = λ u. ground (
            arith,
            now u,
            sim.sound u,
            taken-IsSound f laws k bound tokens y.clock (
                ge-avail f laws k bound y.clock y.clock (held y.shared w) (sim.sound w)
                  (omega arith)),
          );
          sequential = allow-IsSequential f laws k bound y.clock rl w sim.sequential;
          same = λ u t h.
              ground (
                arith,
                now u,
                other u,
                ap (λ x. some (taken f k x y.clock).0) agree,
                sim.same u t h,
              );
        },
        ground (
          arith,
          bucket_allow-taken f k y.clock y.clock (y.shared.memory p) s,
          ap (λ o. avail f k (bucket_at y.shared.memory o) y.clock) e,
          ap (λ x. (taken f k x y.clock).1) agree,
          allow-decision f laws k bound y.clock rl w sim.sequential,
        ),
      )
