-- ===== src/RateLimit/Shared/Sequential/Answers.antt =====
-- The answers that goroutines get, and those of one call after the other.
use eterrain_tf_upload.Base.{ℕ, ◌≤◌, ◌≡◌, refl, none, some, List, arith, Eq}
use eterrain_tf_upload.Maps.{lookup-empty}
use eterrain_tf_upload.Float.{Float, RefillLaws, exact}
use eterrain_tf_upload.RateLimit.{TokenBucket, PerOrgRateLimiter, new_per_org_rate_limiter, allow}
use eterrain_tf_upload.RateLimit.Shared.{
  Call, System, Step, wait, enter, create, answer, tick, Runs, ends, silent, answered, start,
}
use eterrain_tf_upload.RateLimit.Shared.Apart.{IsApart, Step-IsApart, start-IsApart}
use eterrain_tf_upload.RateLimit.Shared.Current.{Spares, Current, Step-Current}
use eterrain_tf_upload.RateLimit.Shared.Sequential.{answers, decisions}
use eterrain_tf_upload.RateLimit.Shared.Sequential.Simulation.{
  Simulates, Simulates-later, Simulates-create, Simulates-tick, Simulates-answer,
}

module _ (f : Float) {Uuid : Type 0} ⦃uuid_eq : Eq Uuid⦄ (laws : RefillLaws f) (k : ℕ)
    (bound : k ≤ exact) where
  open f use {Float64, of_nat}

  Step-Simulates :
      (y y' : System Uuid Float64) (rl : PerOrgRateLimiter Uuid Float64)
      → Step f Spares y y' none
      → IsApart y
      → Simulates f laws k bound y.clock y.shared rl
      → Simulates f laws k bound y'.clock y'.shared rl
  Step-Simulates y y' rl (wait later h e) inv sim =
      rw e (Simulates-later f laws k bound y.clock later y.shared rl h sim)
  Step-Simulates y y' rl (enter i w _ e) inv sim = rw e sim
  Step-Simulates y y' rl (create i w _ e) inv sim =
      rw e (Simulates-create f laws k bound y w rl inv sim)
  Step-Simulates y y' rl (tick _ e) inv sim = rw e (Simulates-tick f laws k bound y rl inv sim)

  Step-answer :
      (y y' : System Uuid Float64) (call : Call Uuid) (rl : PerOrgRateLimiter Uuid Float64)
      → Step f Spares y y' (some call)
      → IsApart y
      → Current y
      → Simulates f laws k bound y.clock y.shared rl
      → Simulates f laws k bound y'.clock y'.shared (allow f rl call.org_id call.time).0
        × (call.allowed ≡ (allow f rl call.org_id call.time).1)
  Step-answer y y' _ rl (answer i p w h e) inv now sim =
      rw e (Simulates-answer f laws k bound y p w rl inv (now i p w h) sim)

  Runs-answers :
      (end y : System Uuid Float64) (calls : List (Call Uuid)) (rl : PerOrgRateLimiter Uuid Float64)
      → Runs f Spares end y calls
      → IsApart y
      → Current y
      → Simulates f laws k bound y.clock y.shared rl
      → answers f rl calls ≡ decisions f calls
  unfolding answers decisions
  Runs-answers end y _ rl (ends _ e) inv now sim = refl
  Runs-answers end y calls rl (silent _ y' _ step rest) inv now sim =
      Runs-answers end y' calls rl rest (Step-IsApart f Spares y y' none step inv)
        (Step-Current f y y' none step inv now) (Step-Simulates y y' rl step inv sim)
  Runs-answers end y _ rl (answered _ y' call calls step rest) inv now sim =
      let (next, agreed) = Step-answer y y' call rl step inv now sim in
      let rl' = (allow f rl call.org_id call.time).0 in
      let onward =
        Runs-answers end y' calls rl' rest (Step-IsApart f Spares y y' (some call) step inv)
          (Step-Current f y y' (some call) step inv now) next in
      ground (arith, onward)

  start-Simulates :
      (clock : ℕ) (memory : ℕ → TokenBucket Float64)
      → Simulates f laws k bound clock
          (start f {Uuid = Uuid} (of_nat k) clock memory).shared
          (new_per_org_rate_limiter f (of_nat k))
  unfolding new_per_org_rate_limiter
  start-Simulates clock memory = record {
    capacity = refl;
    rate = refl;
    limit = refl;
    sound = λ u. ground (arith, lookup-empty {V = ℕ} u);
    sequential = record {
      capacity = refl;
      rate = refl;
      sound = λ u. ground (arith, lookup-empty {V = TokenBucket Float64} u);
    };
    same =
        λ u t h. ground (arith, lookup-empty {V = ℕ} u, lookup-empty {V = TokenBucket Float64} u);
  }

  -- Of a limiter for k requests per minute, k at most 2^53: however the goroutines take turns, with
  -- ticks of the sweep that spare the buckets which goroutines hold, the answers are those of a limiter
  -- without a sweep that serves the same calls one after the other, in the order in which they took the
  -- mutex of their bucket.
  pub Runs-start-answers :
      (clock : ℕ) (memory : ℕ → TokenBucket Float64) (end : System Uuid Float64)
      (calls : List (Call Uuid))
      → Runs f Spares end (start f (of_nat k) clock memory) calls
      → answers f (new_per_org_rate_limiter f (of_nat k)) calls ≡ decisions f calls
  Runs-start-answers clock memory end calls runs =
      Runs-answers end _ calls _ runs (start-IsApart f Spares (of_nat k) clock memory)
        (λ i p u h. cc) (start-Simulates clock memory)
