-- ===== src/Http.antt =====
-- net/http and context, as far as the service uses them.
use eterrain_tf_upload.Base.{
  ℕ, ◌≡◌, ◌↔◌, Bool, true, false, ◌&&◌, Option, none, List, [], ◌∷◌, arith, String, Eq,
}
use eterrain_tf_upload.Text.{Bytes, codes, equal, equal_iff}
use eterrain_tf_upload.Errors.{Error, Arg}
use eterrain_tf_upload.Maps.{Map, lookup}
use eterrain_tf_upload.Io.{Stream}

-- internal/auth and internal/middleware each declare a type `contextKey` of their own.
pub data Package : Type 0 where
  auth_package middleware_package : Package

abbrev same_package : Package → Package → Bool
same_package auth_package auth_package = true
same_package middleware_package middleware_package = true
same_package _ _ = false

-- A key of a context: its dynamic type, which is the `contextKey` of a package, and its text.
-- Two keys are equal only if both are.
pub record ContextKey : Type 0 where
  pub owner : Package
  pub text : Bytes

unfoldable pub key_beq : ContextKey → ContextKey → Bool
key_beq a b = same_package a.owner b.owner && equal a.text b.text

pub key_beq_iff : (a b : ContextKey) → (key_beq a b ≡ true) ↔ (a ≡ b)
unfolding key_beq
key_beq_iff a b = ground (arith, equal_iff a.text b.text)

instance abbrev pub key_eq : Eq ContextKey
key_eq = record { beq = key_beq; beq_iff = key_beq_iff }

-- A value of type `any`: a uuid.UUID, or of another type.
pub data Any (Uuid : Type 0) : Type 0 where
  uuid : Uuid → Any Uuid
  other : Any Uuid

abbrev pub Context : Type 0 → Type 0
Context Uuid = Map ContextKey (Any Uuid)

module _ {Uuid : Type 0} where
  -- context.WithValue
  abbrev pub with_value : Context Uuid → ContextKey → Any Uuid → Context Uuid
  with_value c k v = (k, v) ∷ c

  -- Context.Value, where `none` is nil
  unfoldable pub value : Context Uuid → ContextKey → Option (Any Uuid)
  unfolding lookup key_beq
  value c k = lookup k c

-- `header` is Header.Get, which returns "" for a header that is not there.
pub record Request (Uuid : Type 0) : Type 0 where
  pub method : Bytes
  pub path : List Bytes
  pub header : Bytes → Bytes
  pub context : Context Uuid
  pub name_param : Bytes
  pub body : Stream

-- A response body: nothing, bytes, what http.Error prints (a format with its arguments and the error
-- at its end), or a value that json.NewEncoder encodes.
pub data Body (J : Type 0) : Type 0 where
  empty : Body J
  raw : Bytes → Body J
  message : String → List Arg → Option Error → Body J
  json : J → Body J

pub record Response (J : Type 0) : Type 0 where
  pub status : ℕ
  pub headers : List (Bytes × Bytes)
  pub body : Body J

-- http.HandlerFunc over the state S of the service
abbrev pub Handler : Type 0 → Type 0 → Type 0 → Type 0
Handler Uuid S J = Request Uuid → S → S × Response J

abbrev pub json_headers : List (Bytes × Bytes)
json_headers = (codes "Content-Type", codes "application/json") ∷ []

module _ {J : Type 0} where
  -- http.Error after the handler has set `headers`
  abbrev pub http_error_with :
      List (Bytes × Bytes) → ℕ → String → List Arg → Option Error → Response J
  http_error_with headers status format args e = record {
    status = status;
    headers =
        (codes "Content-Type", codes "text/plain; charset=utf-8")
        ∷ (codes "X-Content-Type-Options", codes "nosniff")
        ∷ headers;
    body = message format args e;
  }

  abbrev pub http_error : ℕ → String → Response J
  http_error status text = http_error_with [] status text [] none

  abbrev pub json_response : ℕ → J → Response J
  json_response status j = record { status = status; headers = json_headers; body = json j }
