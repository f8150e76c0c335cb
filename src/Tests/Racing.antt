-- ===== src/Tests/Racing.antt =====
-- Goroutines that ask the rate limiter at once.
use eterrain_tf_upload.RateLimit.Shared.{
  holding, Call, System, find_bucket, find_or_create, spend, sweep, wait, enter, create, answer,
  tick, Runs, ends, silent, answered, start,
}
use eterrain_tf_upload.Base.{
  ℕ, ◌≤◌, ◌<◌, ◌≡◌, refl, Bool, true, false, some, List, [], inr, ◌∷◌, arith, Eq,
}
use eterrain_tf_upload.Maps.{lookup, insert}
use eterrain_tf_upload.Uuid.{two_uuids, bool_beq}
use eterrain_tf_upload.Float.{sixtieths, sixtieths-RefillLaws, exact}
use eterrain_tf_upload.RateLimit.{
  TokenBucket, new_per_org_rate_limiter, new_token_bucket, bucket_allow,
}
use eterrain_tf_upload.RateLimit.Shared.Apart.{Runs-apart}
use eterrain_tf_upload.RateLimit.Shared.Current.{Spares, Runs-one_bucket}
use eterrain_tf_upload.RateLimit.Shared.Sequential.{answers, decisions}
use eterrain_tf_upload.RateLimit.Shared.Sequential.Answers.{Runs-start-answers}

instance bool_eq : Eq Bool
bool_eq = two_uuids.uuid_eq

abbrev blank : ℕ → TokenBucket ℕ
blank p = record { tokens = 0; max_tokens = 0; refill_rate = 0; last_refill_time = 0 }

-- One request per minute.
abbrev begin : System Bool ℕ
begin = start sixtieths 60 5 blank

-- Both goroutines miss the bucket, and the second finds the one that the first made.
both_holding :
    (end : System Bool ℕ) × Runs sixtieths Spares end begin []
    × (end.phases 0 ≡ holding true 0)
    × (end.phases 1 ≡ holding true 0)
unfolding find_bucket find_or_create lookup insert bool_eq bool_beq
both_holding = (
  _,
  silent _ _ _ (enter 0 true refl refl) (
      silent _ _ _ (enter 1 true refl refl) (
        silent _ _ _ (create 0 true refl refl)
          (silent _ _ _ (create 1 true refl refl) (ends _ refl)))),
  refl,
  refl,
)

Runs-one_bucket_example : ◌≡◌ {A = ℕ} 0 0 × (lookup true both_holding.0.shared.pointers ≡ some 0)
Runs-one_bucket_example =
    Runs-one_bucket sixtieths 60 5 blank both_holding.0 [] 0 1 0 0 true both_holding.1
      both_holding.2 both_holding.3

Runs-apart_example : (true ≡ true) × (0 < both_holding.0.shared.allocated)
Runs-apart_example =
    Runs-apart sixtieths Spares 60 5 blank both_holding.0 [] true true 0 both_holding.1
      (inr (0, both_holding.2)) (inr (1, both_holding.3))

race_calls : List (Call Bool)
race_calls =
    record { org_id = true; time = 5; allowed = true }
    ∷ record { org_id = true; time = 5; allowed = false }
    ∷ []

race : (end : System Bool ℕ) × Runs sixtieths Spares end begin race_calls
unfolding race_calls find_bucket find_or_create spend bucket_allow lookup insert new_token_bucket
    bool_eq bool_beq
race = (
  _,
  silent _ _ _ (enter 0 true refl refl) (
      silent _ _ _ (enter 1 true refl refl) (
        silent _ _ _ (create 0 true refl refl) (
          silent _ _ _ (create 1 true refl refl) (
            answered _ _ _ _ (answer 0 0 true refl refl)
              (answered _ _ _ _ (answer 1 0 true refl refl) (ends _ refl)))))),
)

one-le-exact : 1 ≤ exact
one-le-exact = omega arith

Runs-start-answers_example :
    answers sixtieths (new_per_org_rate_limiter sixtieths 60) race_calls
    ≡ decisions sixtieths race_calls
Runs-start-answers_example =
    Runs-start-answers sixtieths sixtieths-RefillLaws 1 one-le-exact 5 blank race.0 race_calls
      race.1

-- The same answers for an organization that comes back while a tick takes the bucket which another
-- goroutine holds: two requests of the one allowed per minute.
abbrev orphan_calls : List (Call Bool)
orphan_calls =
    record { org_id = true; time = 700_000_000_005; allowed = true }
    ∷ record { org_id = true; time = 700_000_000_005; allowed = true }
    ∷ []

orphan_run : (end : System Bool ℕ) × Runs sixtieths (λ y. Unit) end begin orphan_calls
unfolding find_bucket find_or_create spend sweep bucket_allow lookup insert new_token_bucket bool_eq
    bool_beq
orphan_run = (
  _,
  silent _ _ _ (enter 0 true refl refl) (
      silent _ _ _ (create 0 true refl refl) (
        silent _ _ _ (wait 700_000_000_005 (omega arith) refl) (
          silent _ _ _ (tick tt refl) (
            silent _ _ _ (enter 1 true refl refl) (
              silent _ _ _ (create 1 true refl refl) (
                answered _ _ _ _ (answer 1 1 true refl refl)
                  (answered _ _ _ _ (answer 0 0 true refl refl) (ends _ refl)))))))),
)
