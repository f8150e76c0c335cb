-- ===== src/Tests/Access.antt =====
-- Authentication and the rate limit: a file of one organization with two keys, of which one is hashed.
use eterrain_tf_upload.Base.{
  ◌++◌, ℕ, ◌≡◌, ◌≢◌, ◌↔◌, ◌⊎◌, Bool, true, false, Option, none, List, [], ◌∷◌, All, refl,
  if◌then◌else◌,
}
use eterrain_tf_upload.Text.{Bytes, codes, equal}
use eterrain_tf_upload.Errors.{Error, ok}
use eterrain_tf_upload.Maps.{Map}
use eterrain_tf_upload.Uuid.{two_uuids}
use eterrain_tf_upload.Float.{whole}
use eterrain_tf_upload.Io.{Stream, scan_lines}
use eterrain_tf_upload.Http.{Request, Handler, value, json_response}
use eterrain_tf_upload.Auth.FileStore.{
  Comparison, matched, mismatched, keys_of, validate_credentials, load_from_file,
}
use eterrain_tf_upload.Auth.FileStore.Validate.{Accepted, Rejects, validate_iff}
use eterrain_tf_upload.Auth.FileStore.Load.{keys_under, is_valid, load_from_file_iff}
use eterrain_tf_upload.Auth.Middleware.{
  middleware, Authenticates, Reaches, TurnedAway, middleware_cases,
}
use eterrain_tf_upload.RateLimit.{
  PerOrgRateLimiter, LimiterPlace, new_per_org_rate_limiter, rate_limit_middleware,
}
use eterrain_tf_upload.RateLimit.Requests.{rate_limit_bypassed}

-- Takes a key for the hash of itself behind the mark of bcrypt.
abbrev pub compare_hash : Bytes → Bytes → Comparison
compare_hash hashed key = if equal hashed (codes "$2a$" ++ key) then matched else mismatched

abbrev pub file : Stream
file = record {
  content =
      codes "# keys"
      ++ (b'\n'
          ∷ (codes "[11111111-2222-3333-4444-555555555555]"
              ++ (b'\n' ∷ (codes "$2a$first" ++ (b'\n' ∷ codes "second")))));
  failure = none;
}

abbrev pub credentials : Map Bool (List Bytes)
credentials = (true, codes "$2a$first" ∷ codes "second" ∷ []) ∷ []

load_from_file_iff_example :
    ((u : two_uuids.Uuid)
      → keys_of ⦃uuid_eq = two_uuids.uuid_eq⦄ u (load_from_file two_uuids (ok file) credentials).0
        ≡ keys_under two_uuids u none (scan_lines file).0)
    × (((load_from_file two_uuids (ok file) credentials).1 ≡ none)
        ↔ ((is_valid two_uuids none (scan_lines file).0 ≡ true) × ((scan_lines file).1 ≡ none)))
load_from_file_iff_example = load_from_file_iff two_uuids file credentials

validate_iff_example :
    ((validate_credentials ⦃uuid_eq = two_uuids.uuid_eq⦄ compare_hash true
          (codes "second")
          credentials
        ≡ (true, none))
      ↔ Accepted compare_hash
          (codes "second")
          (keys_of ⦃uuid_eq = two_uuids.uuid_eq⦄ true credentials))
    × ((validate_credentials ⦃uuid_eq = two_uuids.uuid_eq⦄ compare_hash true
            (codes "second")
            credentials
          ≡ (false, none))
        ↔ All
            (Rejects compare_hash (codes "second"))
            (keys_of ⦃uuid_eq = two_uuids.uuid_eq⦄ true credentials))
validate_iff_example =
    validate_iff compare_hash (codes "second") ⦃uuid_eq = two_uuids.uuid_eq⦄ true credentials

abbrev plain : Map Bool Bytes
plain = (true, codes "old") ∷ (false, codes "other") ∷ []

true-false : true ≢ false
true-false e = cc e

-- The state of the service is its limiter.
abbrev Limiter : Type 0
Limiter = PerOrgRateLimiter Bool ℕ

abbrev place : LimiterPlace Limiter Limiter
place = record { get = λ s. s; set = λ l s. l; now = λ s. 0 }

abbrev limiter : Limiter
limiter = new_per_org_rate_limiter whole ⦃uuid_eq = two_uuids.uuid_eq⦄ 60

abbrev pub headers : Bytes → Bytes
headers h =
    if equal h (codes "X-Org-ID")
    then codes "11111111-2222-3333-4444-555555555555"
    else if equal h (codes "X-API-Key")
    then codes "first"
    else []

abbrev pub request : Request two_uuids.Uuid
request = record {
  method = codes "GET";
  path = codes "api" ∷ codes "v1" ∷ codes "state" ∷ codes "prod" ∷ [];
  header = headers;
  context = [];
  name_param = codes "prod";
  body = record { content = []; failure = none };
}

abbrev store : two_uuids.Uuid → Bytes → Limiter → Bool × Option Error
store u k s = validate_credentials ⦃uuid_eq = two_uuids.uuid_eq⦄ compare_hash u k credentials

abbrev answers : Handler two_uuids.Uuid Limiter Bytes
answers r s = (s, json_response 200 (codes "{}"))

rate_limit_bypassed_example :
    middleware two_uuids store
      (rate_limit_middleware whole ⦃uuid_eq = two_uuids.uuid_eq⦄ place answers)
      request
      limiter
    ≡ middleware two_uuids store answers request limiter
unfolding value
rate_limit_bypassed_example =
    rate_limit_bypassed whole two_uuids place store answers request limiter refl

middleware_cases_example :
    Reaches two_uuids store answers request limiter
    ⊎ (((u : two_uuids.Uuid) → ¬ (Authenticates two_uuids store request limiter u))
        × TurnedAway two_uuids store answers request limiter)
middleware_cases_example = middleware_cases two_uuids store answers request limiter
