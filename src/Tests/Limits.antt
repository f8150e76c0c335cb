-- ===== src/Tests/Limits.antt =====
-- The rate limiter and the validators.
use eterrain_tf_upload.Base.{
  ℕ, ◌≤◌, ◌≡◌, ◌≢◌, ◌↔◌, Bool, true, false, none, List, [], ◌∷◌, arith, ltb,
}
use eterrain_tf_upload.Text.{codes}
use eterrain_tf_upload.Uuid.{two_uuids}
use eterrain_tf_upload.Float.{whole, whole-FloatLaws, exact}
use eterrain_tf_upload.RateLimit.{PerOrgRateLimiter, new_per_org_rate_limiter, allow}
use eterrain_tf_upload.RateLimit.Orgs.{count, after, fresh, burst}
use eterrain_tf_upload.RateLimit.Cleanup.{
  Event, request, sweep, IsValid, run, run-new-IsValid, new-IsValid, allow-IsValid,
}
use eterrain_tf_upload.Validation.{name_byte, validate_state_name}
use eterrain_tf_upload.Validation.Names.{IsName, NoDotDot, validate_state_name_iff}
use eterrain_tf_upload.Validation.Dynamic.{
  Dynamic, other, mapping, slice, cons, nil, validate_json_depth, validate_json_complexity,
}
use eterrain_tf_upload.Validation.Depth.{depth, validate_json_depth_iff}
use eterrain_tf_upload.Validation.Complexity.{size, validate_json_complexity_iff}

true-false : true ≢ false
true-false e = cc e

abbrev Limiter : Type 0
Limiter = PerOrgRateLimiter Bool ℕ

abbrev limiter : Limiter
limiter = new_per_org_rate_limiter whole ⦃uuid_eq = two_uuids.uuid_eq⦄ 2

two-le-exact : 2 ≤ exact
two-le-exact = omega arith

burst_example :
    (allow whole ⦃uuid_eq = two_uuids.uuid_eq⦄
      (after whole ⦃uuid_eq = two_uuids.uuid_eq⦄
        (fresh whole ⦃uuid_eq = two_uuids.uuid_eq⦄ whole-FloatLaws 2 5 two-le-exact)
        5
        (true ∷ false ∷ true ∷ []))
      true
      5).1
    ≡ ltb (count whole ⦃uuid_eq = two_uuids.uuid_eq⦄ true (true ∷ false ∷ true ∷ [])) 2
burst_example =
    burst whole ⦃uuid_eq = two_uuids.uuid_eq⦄ whole-FloatLaws 2 5 two-le-exact
      (true ∷ false ∷ true ∷ []) true

abbrev events : List (Event Bool)
events =
    request true 5 ∷ request true 7 ∷ sweep 900_000_000_000 ∷ request false 900_000_000_001 ∷ []

run-new-IsValid_example :
    IsValid whole ⦃uuid_eq = two_uuids.uuid_eq⦄
      (run whole ⦃uuid_eq = two_uuids.uuid_eq⦄ limiter events)
run-new-IsValid_example =
    run-new-IsValid whole ⦃uuid_eq = two_uuids.uuid_eq⦄ whole-FloatLaws 2 events

limiter-IsValid : IsValid whole ⦃uuid_eq = two_uuids.uuid_eq⦄ limiter
limiter-IsValid = new-IsValid whole ⦃uuid_eq = two_uuids.uuid_eq⦄ whole-FloatLaws 2

asked-IsValid :
    IsValid whole ⦃uuid_eq = two_uuids.uuid_eq⦄
      (allow whole ⦃uuid_eq = two_uuids.uuid_eq⦄ limiter true 5).0
asked-IsValid =
    allow-IsValid whole ⦃uuid_eq = two_uuids.uuid_eq⦄ whole-FloatLaws limiter true 5 limiter-IsValid

validate_state_name_iff_example :
    (validate_state_name (codes "a..b") ≡ none)
    ↔ (IsName name_byte 255 (codes "a..b") × NoDotDot (codes "a..b"))
validate_state_name_iff_example = validate_state_name_iff (codes "a..b")

abbrev nested : Dynamic
nested = mapping (cons other (cons (slice (cons other nil)) nil))

validate_json_depth_iff_example : (validate_json_depth nested 1 ≡ none) ↔ (depth nested ≤ 1)
validate_json_depth_iff_example = validate_json_depth_iff nested 1

validate_json_complexity_iff_example :
    (validate_json_complexity nested 4 ≡ none) ↔ (size nested ≤ 4)
validate_json_complexity_iff_example = validate_json_complexity_iff nested 4
