-- ===== src/RateLimit/Shared/Apart.antt =====
-- Two organizations never share a bucket, whatever the order of the steps.
use eterrain_tf_upload.Base.{
  ℕ, ◌-◌, ◌<◌, ◌≡◌, refl, Option, none, some, List, [], ◌∷◌, arith, Eq, ◌==◌, if◌then◌else◌, ltb,
  ◌⊎◌, inl, inr, Bool-cases, Option-cases,
}
use eterrain_tf_upload.Maps.{Map, lookup, Distinct, lookup-insert, lookup-empty, insert-Distinct}
use eterrain_tf_upload.Float.{Float}
use eterrain_tf_upload.RateLimit.{TokenBucket}
use eterrain_tf_upload.RateLimit.Shared.{
  update, outside, holding, Call, System, sweep_pointers, find_bucket, find_or_create, spend, sweep,
  Step, wait, enter, create, answer, tick, Runs, ends, silent, answered, start,
}

-- What the sweep leaves of a pointer.
abbrev pub swept_pointer : {F : Type 0} → ℕ → ℕ → (ℕ → TokenBucket F) → Option ℕ → Option ℕ
swept_pointer limit now memory none = none
swept_pointer limit now memory (some p) =
    if ltb limit (now - (memory p).last_refill_time) then none else some p

module _ {Uuid F : Type 0} ⦃uuid_eq : Eq Uuid⦄ where
  lookup-none-sweep_pointers :
      (limit now : ℕ) (memory : ℕ → TokenBucket F) (u : Uuid) (m : Map Uuid ℕ)
      → lookup u m ≡ none
      → lookup u (sweep_pointers limit now memory m) ≡ none
  unfolding sweep_pointers lookup
  lookup-none-sweep_pointers limit now memory u [] h = h
  lookup-none-sweep_pointers limit now memory u ((v, p) ∷ m) h =
      ground (arith, lookup-none-sweep_pointers limit now memory u m)

  pub lookup-sweep_pointers :
      (limit now : ℕ) (memory : ℕ → TokenBucket F) (u : Uuid) (m : Map Uuid ℕ)
      → Distinct m
      → lookup u (sweep_pointers limit now memory m) ≡ swept_pointer limit now memory (lookup u m)
  unfolding sweep_pointers lookup
  lookup-sweep_pointers limit now memory u [] d = refl
  lookup-sweep_pointers limit now memory u ((v, p) ∷ m) d = ground (
    arith,
    uuid_eq.beq_iff v u,
    lookup-none-sweep_pointers limit now memory u m,
    lookup-sweep_pointers limit now memory u m d.1,
  )

  sweep_pointers-Distinct :
      (limit now : ℕ) (memory : ℕ → TokenBucket F) (m : Map Uuid ℕ)
      → Distinct m
      → Distinct (sweep_pointers limit now memory m)
  unfolding sweep_pointers
  sweep_pointers-Distinct limit now memory [] d = tt
  sweep_pointers-Distinct limit now memory ((v, p) ∷ m) d = ground (
    arith,
    lookup-none-sweep_pointers limit now memory v m d.0,
    sweep_pointers-Distinct limit now memory m d.1,
  )

  -- The organization's bucket is at p, in the map or in the hands of a goroutine.
  abbrev pub Names : System Uuid F → Uuid → ℕ → Type 0
  Names y u p = (lookup u y.shared.pointers ≡ some p) ⊎ ((i : ℕ) × (y.phases i ≡ holding u p))

  -- Every bucket that is named is in allocated memory, and it is one organization's.
  pub record IsApart (y : System Uuid F) : Type 0 where
    pub distinct : Distinct y.shared.pointers
    pub within : (u : Uuid) (p : ℕ) → Names y u p → p < y.shared.allocated
    pub apart : (u v : Uuid) (p : ℕ) → Names y u p → Names y v p → u ≡ v

  -- A state that names no more than another.
  IsApart-fewer :
      (y y' : System Uuid F)
      → IsApart y
      → Distinct y'.shared.pointers
      → y'.shared.allocated ≡ y.shared.allocated
      → ((u : Uuid) (p : ℕ) → Names y' u p → Names y u p)
      → IsApart y'
  IsApart-fewer y y' inv d e fewer = record {
    distinct = d;
    within = λ u p n. let lt = inv.within u p (fewer u p n) in ground arith;
    apart = λ u v p n m. inv.apart u v p (fewer u p n) (fewer v p m);
  }

module _ (f : Float) {Uuid : Type 0} ⦃uuid_eq : Eq Uuid⦄ where
  open f use {Float64}

  Names-enter :
      (y : System Uuid Float64) (i : ℕ) (w u : Uuid) (p : ℕ)
      → Names (record y { phases = update y.phases i (find_bucket f y.shared w) }) u p
      → Names y u p
  unfolding find_bucket
  Names-enter y i w u p (inl e) = inl e
  Names-enter y i w u p (inr (j, e)) = elim (Option-cases (lookup w y.shared.pointers)) [
    | inl n ↦ elim (Bool-cases (i == j)) [ inl s ↦ ground arith | inr s ↦ inr (j, ground arith) ]
    | inr (q, n) ↦ elim (Bool-cases (i == j)) [
      | inl s ↦ inl (ground arith)
      | inr s ↦ inr (j, ground arith)
    ]
  ]

  Names-create :
      (y : System Uuid Float64) (i : ℕ) (w u : Uuid) (p : ℕ)
      → lookup w y.shared.pointers ≡ none
      → Names
          (record y {
            shared = (find_or_create f y.shared w y.clock).0;
            phases = update y.phases i (holding w (find_or_create f y.shared w y.clock).1);
          })
          u
          p
      → Names y u p ⊎ ((u ≡ w) × (p ≡ y.shared.allocated))
  unfolding find_or_create
  Names-create y i w u p n (inl e) = elim (Bool-cases (uuid_eq.beq w u)) [
    | inl s ↦ inr (
        ground (arith, uuid_eq.beq_iff w u, lookup-insert w u y.shared.allocated y.shared.pointers))
    | inr s ↦ inl (inl (ground (arith, lookup-insert w u y.shared.allocated y.shared.pointers)))
  ]
  Names-create y i w u p n (inr (j, e)) = elim (Bool-cases (i == j)) [
    | inl s ↦ inr (ground arith)
    | inr s ↦ inl (inr (j, ground arith))
  ]

  Names-found :
      (y : System Uuid Float64) (i : ℕ) (w u : Uuid) (p q : ℕ)
      → lookup w y.shared.pointers ≡ some q
      → Names (record y { phases = update y.phases i (holding w q) }) u p
      → Names y u p
  Names-found y i w u p q n (inl e) = inl e
  Names-found y i w u p q n (inr (j, e)) = elim (Bool-cases (i == j)) [
    | inl s ↦ inl (ground arith)
    | inr s ↦ inr (j, ground arith)
  ]

  -- A goroutine that leaves Allow.
  Names-answer :
      (y : System Uuid Float64) (i q : ℕ) (u : Uuid) (p : ℕ)
      → Names
          (record y { shared = (spend f y.shared q y.clock).0; phases = update y.phases i outside })
          u
          p
      → Names y u p
  unfolding spend
  Names-answer y i q u p (inl e) = inl e
  Names-answer y i q u p (inr (j, e)) = elim (Bool-cases (i == j)) [
    | inl s ↦ ground arith
    | inr s ↦ inr (j, ground arith)
  ]

  Names-tick :
      (y : System Uuid Float64) (u : Uuid) (p : ℕ)
      → Distinct y.shared.pointers
      → Names (record y { shared = sweep f y.shared y.clock }) u p
      → Names y u p
  unfolding sweep
  Names-tick y u p d (inl e) = inl (
      ground (
        arith,
        lookup-sweep_pointers y.shared.max_idle_time y.clock y.shared.memory u y.shared.pointers d,
      ))
  Names-tick y u p d (inr h) = inr h

  IsApart-create :
      (y : System Uuid Float64) (i : ℕ) (w : Uuid)
      → IsApart y
      → IsApart (record y {
        shared = (find_or_create f y.shared w y.clock).0;
        phases = update y.phases i (holding w (find_or_create f y.shared w y.clock).1);
      })
  unfolding find_or_create
  IsApart-create y i w inv = elim (Option-cases (lookup w y.shared.pointers)) [
    | inr (q, n) ↦
        rw (n, find_or_create)
          (IsApart-fewer y (record y { phases = update y.phases i (holding w q) }) inv inv.distinct
            refl λ u p. Names-found y i w u p q n)
    | inl n ↦
        let was = λ (u : Uuid) (p : ℕ). Names-create y i w u p n in
        record {
          distinct =
              rw (n, find_or_create)
                (insert-Distinct w y.shared.allocated y.shared.pointers inv.distinct);
          within = λ u p h. ground (arith, was u p h, inv.within u p);
          apart = λ u v p h g.
              ground (arith, was u p h, was v p g, inv.within u p, inv.within v p, inv.apart u v p);
        }
  ]

  module _ (MaySweep : System Uuid Float64 → Type 0) where
    pub Step-IsApart :
        (y y' : System Uuid Float64) (answered : Option (Call Uuid))
        → Step f MaySweep y y' answered
        → IsApart y
        → IsApart y'
    unfolding sweep spend
    Step-IsApart y y' _ (wait later h e) inv =
        rw e (IsApart-fewer y (record y { clock = later }) inv inv.distinct refl λ u p n. n)
    Step-IsApart y y' _ (enter i w _ e) inv =
        rw e (IsApart-fewer y _ inv inv.distinct refl λ u p. Names-enter y i w u p)
    Step-IsApart y y' _ (create i w _ e) inv = rw e (IsApart-create y i w inv)
    Step-IsApart y y' _ (answer i q w _ e) inv =
        rw e (IsApart-fewer y _ inv inv.distinct refl λ u p. Names-answer y i q u p)
    Step-IsApart y y' _ (tick _ e) inv = rw e (
        IsApart-fewer y _ inv
          (sweep_pointers-Distinct y.shared.max_idle_time y.clock y.shared.memory y.shared.pointers
            inv.distinct)
          refl λ u p. Names-tick y u p inv.distinct)

    pub start-IsApart :
        (max : Float64) (clock : ℕ) (memory : ℕ → TokenBucket Float64)
        → IsApart (start f {Uuid = Uuid} max clock memory)
    start-IsApart max clock memory = record {
      distinct = tt;
      within = λ u p h. ground (arith, lookup-empty {V = ℕ} u);
      apart = λ u v p h g. ground (arith, lookup-empty {V = ℕ} u);
    }

    Runs-IsApart :
        (end y : System Uuid Float64) (calls : List (Call Uuid))
        → Runs f MaySweep end y calls
        → IsApart y
        → IsApart end
    Runs-IsApart end y _ (ends _ e) inv = rw e inv
    Runs-IsApart end y calls (silent _ y' _ step rest) inv =
        Runs-IsApart end y' calls rest (Step-IsApart y y' none step inv)
    Runs-IsApart end y _ (answered _ y' call calls step rest) inv =
        Runs-IsApart end y' calls rest (Step-IsApart y y' (some call) step inv)

    -- In every state that is reached from the start, with ticks of the sweep at any time: if two
    -- organizations each have a bucket at an address, in the map or in the hands of a goroutine inside
    -- of Allow, they are the same organization, and the address was allocated.
    pub Runs-apart :
        (max : Float64) (clock : ℕ) (memory : ℕ → TokenBucket Float64) (end : System Uuid Float64)
        (calls : List (Call Uuid)) (u v : Uuid) (p : ℕ)
        → Runs f MaySweep end (start f max clock memory) calls
        → Names end u p
        → Names end v p
        → (u ≡ v) × (p < end.shared.allocated)
    Runs-apart max clock memory end calls u v p runs n m =
        let inv = Runs-IsApart end _ calls runs (start-IsApart max clock memory) in
        (inv.apart u v p n m, inv.within u p n)
