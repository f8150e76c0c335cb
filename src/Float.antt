-- ===== src/Float.antt =====
-- Go's float64 as a parameter: the operations that the rate limiter calls, and what IEEE 754
-- arithmetic guarantees of them. Rounding is monotone, comparisons with NaN are false, and whole
-- numbers up to 2^53 are exact.
use eterrain_tf_upload.Base.{
  ℕ, ◌+◌, ◌-◌, ◌*◌, ◌/◌, ◌^◌, ◌≤◌, ◌≡◌, Bool, true, false, arith, leb, ltb, ℤ, pos, negsuc,
}

pub record Float : Type 1 where
  pub Float64 : Type 0
  pub plus : Float64 → Float64 → Float64
  pub minus : Float64 → Float64 → Float64
  pub times : Float64 → Float64 → Float64
  pub over : Float64 → Float64 → Float64
  -- a > b and a >= b
  pub gt : Float64 → Float64 → Bool
  pub ge : Float64 → Float64 → Bool
  -- a constant
  pub of_nat : ℕ → Float64
  -- time.Duration(ns).Seconds()
  pub seconds : ℤ → Float64

abbrev pub exact : ℕ
exact = 2 ^ 53

module _ (f : Float) where
  open f use {Float64, plus, minus, times, over, gt, ge, of_nat, seconds}

  pub record FloatLaws : Type 0 where
    pub gt_self : (x : Float64) → gt x x ≡ false
    pub gt-minus_one : (x m : Float64) → gt x m ≡ false → gt (minus x (of_nat 1)) m ≡ false
    pub plus_idle :
        (n k : ℕ)
        → n ≤ exact
        → k ≤ exact
        → plus (of_nat n) (times (seconds (pos 0)) (over (of_nat k) (of_nat 60))) ≡ of_nat n
    pub minus-of_nat : (n : ℕ) → n + 1 ≤ exact → minus (of_nat (n + 1)) (of_nat 1) ≡ of_nat n
    pub ge-of_nat : (n : ℕ) → n ≤ exact → ge (of_nat n) (of_nat 1) ≡ leb 1 n
    pub gt-of_nat : (m n : ℕ) → m ≤ exact → n ≤ exact → gt (of_nat m) (of_nat n) ≡ ltb n m

  -- What the refill of a bucket of whole capacity k at the rate k / 60 relies on: no token is lost by
  -- it, and ten minutes fill the bucket.
  pub record RefillLaws : Type 0 where
    pub ge-zero : (k : ℕ) → k ≤ exact → ge (of_nat k) (of_nat 0) ≡ true
    pub ge-minus_one :
        (x : Float64) → ge x (of_nat 1) ≡ true → ge (minus x (of_nat 1)) (of_nat 0) ≡ true
    pub ge-refill :
        (x : Float64) (k ns : ℕ)
        → ge x (of_nat 0) ≡ true
        → k ≤ exact
        → ge (plus x (times (seconds (pos ns)) (over (of_nat k) (of_nat 60)))) (of_nat 0) ≡ true
    pub refill_full :
        (k ns : ℕ)
        → k ≤ exact
        → gt (plus (of_nat k) (times (seconds (pos ns)) (over (of_nat k) (of_nat 60)))) (of_nat k)
          ≡ false
        → plus (of_nat k) (times (seconds (pos ns)) (over (of_nat k) (of_nat 60))) ≡ of_nat k
    pub refill_idle :
        (x : Float64) (k ns : ℕ)
        → ge x (of_nat 0) ≡ true
        → k ≤ exact
        → 600_000_000_000 ≤ ns
        → gt (plus x (times (seconds (pos ns)) (over (of_nat k) (of_nat 60)))) (of_nat k) ≡ false
        → plus x (times (seconds (pos ns)) (over (of_nat k) (of_nat 60))) ≡ of_nat k

-- Whole tokens and whole seconds: an arithmetic that meets the laws.
abbrev whole_seconds : ℤ → ℕ
whole_seconds (pos ns) = ns / 1_000_000_000
whole_seconds (negsuc n) = 0

abbrev pub whole : Float
whole = record {
  Float64 = ℕ;
  plus = λ a b. a + b;
  minus = λ a b. a - b;
  times = λ a b. a * b;
  over = λ a b. a / b;
  gt = λ a b. ltb b a;
  ge = λ a b. leb b a;
  of_nat = λ n. n;
  seconds = whole_seconds;
}

pub whole-FloatLaws : FloatLaws whole
whole-FloatLaws = record {
  gt_self = λ x. ground arith;
  gt-minus_one = λ x m h. ground arith;
  plus_idle = λ n k a b. ground arith;
  minus-of_nat = λ n h. ground arith;
  ge-of_nat = λ n h. ground arith;
  gt-of_nat = λ m n a b. ground arith;
}

-- Sixtieths of a token and of a second: whole rates refill without a loss.
abbrev pub sixtieths : Float
sixtieths = record {
  Float64 = ℕ;
  plus = λ a b. a + b;
  minus = λ a b. a - b;
  times = λ a b. a * b / 60;
  over = λ a b. a * 60 / b;
  gt = λ a b. ltb b a;
  ge = λ a b. leb b a;
  of_nat = λ n. n * 60;
  seconds = λ d. whole_seconds d * 60;
}

-- The tokens that a minute's rate of k gives in s seconds
refilled : (s k : ℕ) → s * 60 * (k * 60 * 60 / 3600) / 60 ≡ s * k
refilled s k =
    let rate : k * 60 * 60 / 3600 ≡ k = omega arith in
    let total : s * 60 * k ≡ s * k * 60 = grind arith in rw (rate, total) (omega arith)

mul-large : (s k : ℕ) → 600 ≤ s → 600 * k ≤ s * k
mul-large s k h = grind arith

pub sixtieths-RefillLaws : RefillLaws sixtieths
sixtieths-RefillLaws = record {
  ge-zero = λ k b. ground arith;
  ge-minus_one = λ x h. ground arith;
  ge-refill = λ x k ns h b. ground arith;
  refill_full = λ k ns b h. ground (arith, refilled (ns / 1_000_000_000) k);
  refill_idle = λ x k ns h b w full.
      ground
        (arith, refilled (ns / 1_000_000_000) k, mul-large (ns / 1_000_000_000) k (omega arith));
}
