-- ===== src/RateLimit/Shared.antt =====
-- internal/middleware/ratelimit.go as goroutines run it: the map holds pointers, and Allow takes the
-- read lock, the write lock and the mutex of a bucket one after the other. What is done under one lock is
-- one step; between two steps any other goroutine may run, and so may the sweep. Each step reads one
-- clock, which does not go back. That a goroutine waits for a lock is not modelled: nothing is said of
-- whether calls come to an end.
pub mod Apart
pub mod Current
pub mod Sequential
use eterrain_tf_upload.Base.{
  ℕ, suc, ◌-◌, ◌≤◌, ◌≡◌, Bool, Option, none, some, List, [], ◌∷◌, Eq, ◌==◌, if◌then◌else◌, ltb,
}
use eterrain_tf_upload.Maps.{Map, lookup, insert}
use eterrain_tf_upload.Float.{Float}
use eterrain_tf_upload.RateLimit.{TokenBucket, new_token_bucket, bucket_allow}

abbrev pub update {ℓ} : {A : Type ℓ} → (ℕ → A) → ℕ → A → ℕ → A
update g i a j = if i == j then a else g j

-- The limiter with its buckets in memory; the addresses from `allocated` on are free.
pub record Shared (Uuid F : Type 0) : Type 0 where
  pub pointers : Map Uuid ℕ
  pub memory : ℕ → TokenBucket F
  pub allocated : ℕ
  pub max_tokens : F
  pub refill_rate : F
  pub max_idle_time : ℕ

-- Where a goroutine stands: outside of Allow; in getBucket, having found no bucket under the read lock; in Allow,
-- with the bucket that getBucket returned.
pub data Phase (Uuid : Type 0) : Type 0 where
  outside : Phase Uuid
  missed : Uuid → Phase Uuid
  holding : Uuid → ℕ → Phase Uuid

-- An answer of Allow
pub record Call (Uuid : Type 0) : Type 0 where
  pub org_id : Uuid
  pub time : ℕ
  pub allowed : Bool

pub record System (Uuid F : Type 0) : Type 0 where
  pub shared : Shared Uuid F
  pub clock : ℕ
  pub phases : ℕ → Phase Uuid

-- The loop of cleanupRoutine over the pointers
unfoldable pub sweep_pointers :
    {Uuid F : Type 0} → ℕ → ℕ → (ℕ → TokenBucket F) → Map Uuid ℕ → Map Uuid ℕ
sweep_pointers limit now memory [] = []
sweep_pointers limit now memory ((org_id, p) ∷ pointers) =
    let rest = sweep_pointers limit now memory pointers in
    if ltb limit (now - (memory p).last_refill_time) then rest else (org_id, p) ∷ rest

module _ (f : Float) {Uuid : Type 0} ⦃uuid_eq : Eq Uuid⦄ where
  open f use {Float64}

  -- getBucket under the read lock
  unfoldable pub find_bucket : Shared Uuid Float64 → Uuid → Phase Uuid
  find_bucket s org_id = elim (lookup org_id s.pointers) [
    | some p ↦ holding org_id p
    | none ↦ missed org_id
  ]

  -- getBucket under the write lock
  unfoldable pub find_or_create : Shared Uuid Float64 → Uuid → ℕ → Shared Uuid Float64 × ℕ
  find_or_create s org_id now = elim (lookup org_id s.pointers) [
    | some p ↦ (s, p)
    | none ↦
        let p = s.allocated in
        (
          record s {
            pointers = insert org_id p s.pointers;
            memory = update s.memory p (new_token_bucket f s.max_tokens s.refill_rate now);
            allocated = suc p;
          },
          p,
        )
  ]

  -- bucket.Allow
  unfoldable pub spend : Shared Uuid Float64 → ℕ → ℕ → Shared Uuid Float64 × Bool
  spend s p now =
      let (spent, allowed) = bucket_allow f (s.memory p) now in
      (record s { memory = update s.memory p spent }, allowed)

  -- A tick of cleanupRoutine
  unfoldable pub sweep : Shared Uuid Float64 → ℕ → Shared Uuid Float64
  unfolding sweep_pointers
  sweep s now = record s { pointers = sweep_pointers s.max_idle_time now s.memory s.pointers }

  -- One step of the system, with the answer that it gives. A tick of the sweep comes only in states that
  -- MaySweep describes.
  pub data Step (MaySweep : System Uuid Float64 → Type 0) (y y' : System Uuid Float64)
      : Option (Call Uuid) → Type 0 where
    wait :
        (later : ℕ) → y.clock ≤ later → y' ≡ (record y { clock = later }) → Step MaySweep y y' none
    enter :
        (i : ℕ) (org_id : Uuid)
        → y.phases i ≡ outside
        → y' ≡ (record y { phases = update y.phases i (find_bucket y.shared org_id) })
        → Step MaySweep y y' none
    create :
        (i : ℕ) (org_id : Uuid)
        → y.phases i ≡ missed org_id
        → y' ≡ (record y {
          shared = (find_or_create y.shared org_id y.clock).0;
          phases = update y.phases i (holding org_id (find_or_create y.shared org_id y.clock).1);
        })
        → Step MaySweep y y' none
    answer :
        (i p : ℕ) (org_id : Uuid)
        → y.phases i ≡ holding org_id p
        → y'
          ≡ (record y { shared = (spend y.shared p y.clock).0; phases = update y.phases i outside })
        → Step MaySweep y y' (
            some
              (record { org_id = org_id; time = y.clock; allowed = (spend y.shared p y.clock).1 }))
    tick :
        MaySweep y → y' ≡ (record y { shared = sweep y.shared y.clock }) → Step MaySweep y y' none

  -- The steps that lead to an end, with their answers in order.
  pub data Runs (MaySweep : System Uuid Float64 → Type 0) (end : System Uuid Float64)
      : System Uuid Float64 → List (Call Uuid) → Type 0 where
    ends : (y : System Uuid Float64) → end ≡ y → Runs MaySweep end y []
    silent :
        (y y' : System Uuid Float64) (calls : List (Call Uuid))
        → Step MaySweep y y' none
        → Runs MaySweep end y' calls
        → Runs MaySweep end y calls
    answered :
        (y y' : System Uuid Float64) (call : Call Uuid) (calls : List (Call Uuid))
        → Step MaySweep y y' (some call)
        → Runs MaySweep end y' calls
        → Runs MaySweep end y (call ∷ calls)

  -- NewPerOrgRateLimiter, before any goroutine asks it.
  abbrev pub start : Float64 → ℕ → (ℕ → TokenBucket Float64) → System Uuid Float64
  start max_requests_per_minute clock memory = record {
    shared = record {
      pointers = [];
      memory = memory;
      allocated = 0;
      max_tokens = max_requests_per_minute;
      refill_rate = f.over max_requests_per_minute (f.of_nat 60);
      max_idle_time = 600_000_000_000;
    };
    clock = clock;
    phases = λ i. outside;
  }
