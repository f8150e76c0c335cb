-- ===== src/RateLimit/Shared/Current.antt =====
-- The double check of getBucket: while the sweep spares the buckets that goroutines hold, the bucket that a
-- goroutine holds is the one in the map.
use eterrain_tf_upload.Base.{
  ℕ, ◌-◌, ◌≡◌, false, Option, none, some, List, arith, Eq, ltb, inl, inr, Option-cases,
}
use eterrain_tf_upload.Maps.{lookup, lookup-insert}
use eterrain_tf_upload.Float.{Float}
use eterrain_tf_upload.RateLimit.{TokenBucket}
use eterrain_tf_upload.RateLimit.Shared.{
  update, holding, Call, System, find_bucket, find_or_create, spend, sweep, Step, wait, enter,
  create, answer, tick, Runs, ends, silent, answered, start,
}
use eterrain_tf_upload.RateLimit.Shared.Apart.{
  IsApart, Step-IsApart, start-IsApart, lookup-sweep_pointers,
}

module _ {Uuid F : Type 0} where
  -- No bucket that a goroutine holds was idle for longer than the limit.
  abbrev pub Spares : System Uuid F → Type 0
  Spares y =
      (i p : ℕ) (u : Uuid)
      → y.phases i ≡ holding u p
      → ltb y.shared.max_idle_time (y.clock - (y.shared.memory p).last_refill_time) ≡ false

module _ {Uuid F : Type 0} ⦃uuid_eq : Eq Uuid⦄ where
  abbrev pub Current : System Uuid F → Type 0
  Current y = (i p : ℕ) (u : Uuid) → y.phases i ≡ holding u p → lookup u y.shared.pointers ≡ some p

module _ (f : Float) {Uuid : Type 0} ⦃uuid_eq : Eq Uuid⦄ where
  open f use {Float64}

  Current-enter :
      (y : System Uuid Float64) (i : ℕ) (w : Uuid)
      → Current y
      → Current (record y { phases = update y.phases i (find_bucket f y.shared w) })
  unfolding find_bucket
  Current-enter y i w now j p u e = elim (Option-cases (lookup w y.shared.pointers)) [
    | inl n ↦ ground (arith, now j p u)
    | inr (q, n) ↦ ground (arith, now j p u)
  ]

  Current-create :
      (y : System Uuid Float64) (i : ℕ) (w : Uuid)
      → Current y
      → Current (record y {
        shared = (find_or_create f y.shared w y.clock).0;
        phases = update y.phases i (holding w (find_or_create f y.shared w y.clock).1);
      })
  unfolding find_or_create
  Current-create y i w now j p u e = elim (Option-cases (lookup w y.shared.pointers)) [
    | inl n ↦ ground (
      arith,
      now j p u,
      uuid_eq.beq_iff w u,
      lookup-insert w u y.shared.allocated y.shared.pointers,
    )
    | inr (q, n) ↦ ground (arith, now j p u)
  ]

  Current-tick :
      (y : System Uuid Float64)
      → IsApart y
      → Spares y
      → Current y
      → Current (record y { shared = sweep f y.shared y.clock })
  unfolding sweep
  Current-tick y inv spared now j p u e = ground (
    arith,
    now j p u e,
    spared j p u e,
    lookup-sweep_pointers y.shared.max_idle_time y.clock y.shared.memory u y.shared.pointers
        inv.distinct,
  )

  pub Step-Current :
      (y y' : System Uuid Float64) (answered : Option (Call Uuid))
      → Step f Spares y y' answered
      → IsApart y
      → Current y
      → Current y'
  unfolding spend
  Step-Current y y' _ (wait later h e) inv now = rw e now
  Step-Current y y' _ (enter i w _ e) inv now = rw e (Current-enter y i w now)
  Step-Current y y' _ (create i w _ e) inv now = rw e (Current-create y i w now)
  Step-Current y y' _ (answer i q w _ e) inv now = rw e λ j p u h. ground (arith, now j p u)
  Step-Current y y' _ (tick spared e) inv now = rw e (Current-tick y inv spared now)

  Runs-Current :
      (end y : System Uuid Float64) (calls : List (Call Uuid))
      → Runs f Spares end y calls
      → IsApart y
      → Current y
      → Current end
  Runs-Current end y _ (ends _ e) inv now = rw e now
  Runs-Current end y calls (silent _ y' _ step rest) inv now =
      Runs-Current end y' calls rest (Step-IsApart f Spares y y' none step inv)
        (Step-Current y y' none step inv now)
  Runs-Current end y _ (answered _ y' call calls step rest) inv now =
      Runs-Current end y' calls rest (Step-IsApart f Spares y y' (some call) step inv)
        (Step-Current y y' (some call) step inv now)

  -- In every state that is reached from the start by steps in which each tick of the sweep spares the
  -- buckets that goroutines hold: two goroutines that hold a bucket for the same organization hold the
  -- same one, and it is the one in the map.
  pub Runs-one_bucket :
      (max : Float64) (clock : ℕ) (memory : ℕ → TokenBucket Float64) (end : System Uuid Float64)
      (calls : List (Call Uuid)) (i j p q : ℕ) (u : Uuid)
      → Runs f Spares end (start f max clock memory) calls
      → end.phases i ≡ holding u p
      → end.phases j ≡ holding u q
      → (p ≡ q) × (lookup u end.shared.pointers ≡ some p)
  Runs-one_bucket max clock memory end calls i j p q u runs hi hj =
      let now : Current end =
        Runs-Current end _ calls runs (start-IsApart f Spares max clock memory) λ i p u h. cc in
      ground (arith, now i p u, now j q u)
