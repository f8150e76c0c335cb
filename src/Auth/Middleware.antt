-- ===== src/Auth/Middleware.antt =====
-- internal/auth/middleware.go. The log lines are not modelled.
use eterrain_tf_upload.Base.{
  Option-cases, inr, inl, arith, Bool-cases, true, ◌⊎◌, ◌≢◌, refl, ◌≡◌, ℕ, ◌-◌, Bool, not, ◌&&◌,
  Option, none, some, [], if◌then◌else◌, ltb, length, take, drop,
}
use mathlib.Core.List.{map}
use eterrain_tf_upload.Text.{equal_iff, Bytes, codes, equal, within}
use eterrain_tf_upload.Errors.{Error}
use eterrain_tf_upload.Uuid.{UuidLib}
use eterrain_tf_upload.Http.{
  Response, Request, auth_package, ContextKey, uuid, other, Context, with_value, value, Handler,
  http_error,
}

-- OrgIDContextKey
abbrev pub org_id_context_key : ContextKey
org_id_context_key = record { owner = auth_package; text = codes "orgid" }

-- GetOrgIDFromContext
unfoldable pub get_org_id_from_context : {Uuid : Type 0} → Context Uuid → Option Uuid
get_org_id_from_context context = elim (value context org_id_context_key) [
  | none ↦ none
  | some v ↦ elim v [ uuid u ↦ some u | other ↦ none ]
]

module _ (lib : UuidLib) {S J : Type 0} where
  open lib use {Uuid, parse}

  -- Middleware, over what the store answers in the present state.
  unfoldable pub middleware :
      (Uuid → Bytes → S → Bool × Option Error) → Handler Uuid S J → Handler Uuid S J
  unfolding equal
  middleware validate_credentials next r s =
      let org_id_str = r.header (codes "X-Org-ID") in
      let api_key = r.header (codes "X-API-Key") in
      if equal org_id_str []
      then (s, http_error 401 "Missing X-Org-ID header")
      else elim (parse org_id_str) [
        | none ↦ (s, http_error 401 "Invalid X-Org-ID format: must be a valid UUID")
        | some org_id ↦
            if equal api_key []
            then (s, http_error 401 "Missing X-API-Key header")
            else let (valid, failed) = validate_credentials org_id api_key s in
              elim failed [
                | some e ↦ (s, http_error 500 "Internal server error")
                | none ↦
                    if not valid
                    then (s, http_error 401 "Invalid credentials")
                    else next
                        (record r {
                          context = with_value r.context org_id_context_key (uuid org_id);
                        })
                        s
              ]
      ]

-- strings.ToUpper, on ASCII
unfoldable pub to_upper : ℕ → ℕ
to_upper c = if within b'a' b'z' c then c - 32 else c

-- ExtractBearerToken, on the Authorization header
unfoldable pub extract_bearer_token : Bytes → Bytes
unfolding to_upper equal
extract_bearer_token bearer_token =
    if ltb 7 (length bearer_token) && equal (map to_upper (take 7 bearer_token)) (codes "BEARER ")
    then drop 7 bearer_token
    else []

module _ (lib : UuidLib) {S : Type 0}
    (validate_credentials : lib.Uuid → Bytes → S → Bool × Option Error) where
  open lib use {Uuid, parse}

  -- The organization that the headers name and whose key the store accepts.
  pub record Authenticates (r : Request Uuid) (s : S) (u : Uuid) : Type 0 where
    pub has_org_id : r.header (codes "X-Org-ID") ≢ []
    pub names_org : parse (r.header (codes "X-Org-ID")) ≡ some u
    pub has_api_key : r.header (codes "X-API-Key") ≢ []
    pub accepted : validate_credentials u (r.header (codes "X-API-Key")) s ≡ (true, none)

module _ {Uuid : Type 0} where
  abbrev pub authenticated : Request Uuid → Uuid → Request Uuid
  authenticated r u = record r { context = with_value r.context org_id_context_key (uuid u) }

  pub get_org_id-with_value :
      (c : Context Uuid) (u : Uuid)
      → get_org_id_from_context (with_value c org_id_context_key (uuid u)) ≡ some u
  unfolding get_org_id_from_context value equal
  get_org_id-with_value c u = refl

module _ (lib : UuidLib) {S J : Type 0}
    (validate_credentials : lib.Uuid → Bytes → S → Bool × Option Error)
    (next : Handler lib.Uuid S J) (r : Request lib.Uuid) (s : S) where
  open lib use {Uuid, parse}

  abbrev pub answer : S × Response J
  answer = middleware lib validate_credentials next r s

  -- Answered by the handler behind the middleware.
  abbrev pub Reaches : Type 0
  Reaches =
      (u : Uuid) × Authenticates lib validate_credentials r s u
      × (answer ≡ next (authenticated r u) s)

  -- Turned away, with nothing changed.
  abbrev pub TurnedAway : Type 0
  TurnedAway = (answer.0 ≡ s) × ((answer.1.status ≡ 401) ⊎ (answer.1.status ≡ 500))

  pub middleware-passes :
      (u : Uuid)
      → Authenticates lib validate_credentials r s u
      → answer ≡ next (authenticated r u) s
  unfolding middleware
  middleware-passes u a = ground (
    arith,
    a.has_org_id,
    a.names_org,
    a.has_api_key,
    a.accepted,
    equal_iff (r.header (codes "X-Org-ID")) [],
    equal_iff (r.header (codes "X-API-Key")) [],
  )

  -- A request reaches the handler behind the middleware exactly when its headers name an organization
  -- and a key that the store accepts, and then with that organization in its context. Any other is
  -- answered 401 or 500 and changes nothing.
  pub middleware_cases :
      Reaches ⊎ (((u : Uuid) → ¬ (Authenticates lib validate_credentials r s u)) × TurnedAway)
  unfolding middleware
  middleware_cases =
      let org_id_str = r.header (codes "X-Org-ID") in
      let api_key = r.header (codes "X-API-Key") in
      elim (Bool-cases (equal org_id_str [])) [
        | inl e ↦ inr (λ u a. a.has_org_id ((equal_iff org_id_str []).0 e), ground arith)
        | inr e ↦ elim (Option-cases (parse org_id_str)) [
          | inl p ↦ inr (λ u a. cc (p, a.names_org), ground arith)
          | inr (u, p) ↦ elim (Bool-cases (equal api_key [])) [
            | inl k ↦ inr (λ v a. a.has_api_key ((equal_iff api_key []).0 k), ground arith)
            | inr k ↦ elim (Option-cases (validate_credentials u api_key s).1) [
              | inr (x, f) ↦ inr (λ v a. ground (arith, a.names_org, a.accepted), ground arith)
              | inl f ↦ elim (Bool-cases (validate_credentials u api_key s).0) [
                | inl ok ↦
                    let a : Authenticates lib validate_credentials r s u = record {
                      has_org_id = λ q. cc ((equal_iff org_id_str []).1 q, e);
                      names_org = p;
                      has_api_key = λ q. cc ((equal_iff api_key []).1 q, k);
                      accepted = ground arith;
                    } in
                    inl (u, a, middleware-passes u a)
                | inr bad ↦ inr (λ v a. ground (arith, a.names_org, a.accepted), ground arith)
              ]
            ]
          ]
        ]
      ]

-- The middleware makes one request of the handler behind it, with an organization in its context.
pub middleware-ext :
    (lib : UuidLib) {S J : Type 0}
    (validate_credentials : lib.Uuid → Bytes → S → Bool × Option Error)
    (next other_next : Handler lib.Uuid S J) (r : Request lib.Uuid) (s : S)
    → ((u : lib.Uuid) → next (authenticated r u) s ≡ other_next (authenticated r u) s)
    → middleware lib validate_credentials next r s
      ≡ middleware lib validate_credentials other_next r s
unfolding middleware
middleware-ext lib validate_credentials next other_next r s h =
    elim (Option-cases (lib.parse (r.header (codes "X-Org-ID")))) [
      | inl e ↦ ground arith
      | inr (u, e) ↦ ground (arith, h u)
    ]
