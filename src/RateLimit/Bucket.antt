-- ===== src/RateLimit/Bucket.antt =====
-- One token bucket.
use eterrain_tf_upload.Base.{ap, ℕ, zero, suc, ◌+◌, ◌-◌, ◌≤◌, ◌≡◌, false, arith, ltb, pos, sub_ℕ}
use eterrain_tf_upload.Float.{Float, FloatLaws, exact}
use eterrain_tf_upload.RateLimit.{TokenBucket, bucket_allow}

module _ (f : Float) where
  open f use {Float64, over, of_nat}

  -- A bucket that holds n of `max` whole tokens and was refilled at `now`.
  abbrev pub whole_bucket : ℕ → ℕ → ℕ → TokenBucket Float64
  whole_bucket n max now = record {
    tokens = of_nat n;
    max_tokens = of_nat max;
    refill_rate = over (of_nat max) (of_nat 60);
    last_refill_time = now;
  }

module _ (f : Float) (laws : FloatLaws f) where
  open f use {Float64, plus, minus, times, over, gt, ge, of_nat, seconds}
  open laws use {gt_self, gt-minus_one, plus_idle, minus-of_nat, ge-of_nat, gt-of_nat}

  -- Never more tokens than the bucket holds.
  abbrev pub Capped : TokenBucket Float64 → Type 0
  Capped b = gt b.tokens b.max_tokens ≡ false

  -- From any bucket, at any time: afterwards the bucket is capped, whatever its state was before, and
  -- its capacity and rate are the same.
  pub bucket_allow-Capped :
      (b : TokenBucket Float64) (now : ℕ)
      → Capped (bucket_allow f b now).0
        × ((bucket_allow f b now).0.max_tokens ≡ b.max_tokens)
        × ((bucket_allow f b now).0.refill_rate ≡ b.refill_rate)
        × ((bucket_allow f b now).0.last_refill_time ≡ now)
  unfolding bucket_allow
  bucket_allow-Capped b now =
      let elapsed = seconds (sub_ℕ now b.last_refill_time) in
      let tokens = plus b.tokens (times elapsed b.refill_rate) in
      ground (
        arith,
        gt_self b.max_tokens,
        gt-minus_one b.max_tokens b.max_tokens (gt_self b.max_tokens),
        gt-minus_one tokens b.max_tokens,
      )

  ltb-false : (m n : ℕ) → n ≤ m → ltb m n ≡ false
  ltb-false m n h = ground arith

  suc-add-one : (n : ℕ) → suc n ≡ n + 1
  suc-add-one n = omega arith

  sub_ℕ_self : (n : ℕ) → sub_ℕ n n ≡ pos 0
  sub_ℕ_self n = ground arith

  -- A request at the instant of the last refill takes one whole token, or is refused if none is left.
  pub bucket_allow-whole :
      (n max now : ℕ)
      → n ≤ max
      → max ≤ exact
      → bucket_allow f (whole_bucket f n max now) now ≡ (whole_bucket f (n - 1) max now, ltb 0 n)
  unfolding bucket_allow
  bucket_allow-whole zero max now h b =
      rw
        (
          sub_ℕ_self now,
          plus_idle 0 max (omega arith) b,
          gt-of_nat 0 max (omega arith) b,
          ltb-false max 0 h,
          ge-of_nat 0 (omega arith),
        )
        (ground arith)
  bucket_allow-whole (suc n) max now h b =
      rw
        (
          sub_ℕ_self now,
          plus_idle (suc n) max (omega arith) b,
          gt-of_nat (suc n) max (omega arith) b,
          ltb-false max (suc n) h,
          ge-of_nat (suc n) (omega arith),
        )
        (ground (arith, minus-of_nat n (omega arith), ap of_nat (suc-add-one n)))
