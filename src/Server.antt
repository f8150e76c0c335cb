-- ===== src/Server.antt =====
-- cmd/server/main.go with the storage type "memory": the state of the service, and the chain that a
-- request for a state passes. Signals and shutdown are not modelled, nor the middlewares of chi, and its
-- router is represented by the route that it finds.
pub mod Tenants
pub mod States
pub mod Data
pub mod Csv
pub mod Start
pub mod Main
pub mod Deployed
use eterrain_tf_upload.Base.{ℕ, ◌*◌, ◌^◌, Bool, Option, List}
use eterrain_tf_upload.Text.{Bytes}
use eterrain_tf_upload.Errors.{Error}
use eterrain_tf_upload.Maps.{Map}
use eterrain_tf_upload.Uuid.{UuidLib}
use eterrain_tf_upload.Float.{Float}
use eterrain_tf_upload.Io.{max_bytes_reader}
use eterrain_tf_upload.Http.{Handler}
use eterrain_tf_upload.Auth.FileStore.{Comparison, validate_credentials}
use eterrain_tf_upload.Auth.Middleware.{middleware}
use eterrain_tf_upload.RateLimit.{
  PerOrgRateLimiter, LimiterPlace, new_per_org_rate_limiter, rate_limit_middleware,
}
use eterrain_tf_upload.Storage.{Storage, LockInfo}
use eterrain_tf_upload.Storage.Memory
use eterrain_tf_upload.Storage.Memory.{MemoryStorage, new_memory_storage, get_lock}
use eterrain_tf_upload.Handlers.State.{
  StateJson, get_state, put_state, delete_state, lock_state, unlock_state,
}

-- What main sets up: the store, the credentials and the limiter, and the clock that it reads.
pub record Service (Uuid F : Type 0) : Type 0 where
  pub memory : MemoryStorage Uuid
  pub credentials : Map Uuid (List Bytes)
  pub limiter : PerOrgRateLimiter Uuid F
  pub clock : ℕ

-- The routes below /api/v1/state/{name}
pub data StateRoute : Type 0 where
  get_route post_route delete_route post_lock_route delete_lock_route : StateRoute

-- http.MaxBytesReader(w, r.Body, 10<<20)
unfoldable pub limit_body : {Uuid S J : Type 0} → Handler Uuid S J → Handler Uuid S J
limit_body next r s = next (record r { body = max_bytes_reader (10 * 2 ^ 20) r.body }) s

module _ (f : Float) (lib : UuidLib) where
  open lib use {Uuid, uuid_eq}

  abbrev pub ServiceState : Type 0
  ServiceState = Service Uuid f.Float64

  -- The service as main starts it, with the credentials that were loaded
  unfoldable pub start : Map Uuid (List Bytes) → ℕ → ServiceState
  start credentials clock = record {
    memory = new_memory_storage Uuid;
    credentials = credentials;
    limiter = new_per_org_rate_limiter f ⦃uuid_eq = uuid_eq⦄ (f.of_nat 60);
    clock = clock;
  }

  -- A change of the store inside the service
  abbrev within_service :
      ServiceState → MemoryStorage Uuid × Option Error → ServiceState × Option Error
  within_service s end = (record s { memory = end.0 }, end.1)

  -- The memory storage of the service
  abbrev pub service_storage : Storage Uuid ServiceState
  service_storage = record {
    get_state = λ u a s. Memory.get_state lib u a s.memory;
    put_state = λ u a x s. within_service s (Memory.put_state lib u a x s.memory);
    delete_state = λ u a s. within_service s (Memory.delete_state lib u a s.memory);
    lock_state = λ u a l s. within_service s (Memory.lock_state lib u a l s.memory);
    unlock_state = λ u a id s. within_service s (Memory.unlock_state lib u a id s.memory);
    get_lock = λ u a s. get_lock lib u a s.memory;
  }

  -- orgRateLimiter
  abbrev pub service_limiter : LimiterPlace ServiceState (PerOrgRateLimiter Uuid f.Float64)
  service_limiter = record {
    get = λ s. s.limiter;
    set = λ l s. record s { limiter = l };
    now = λ s. s.clock;
  }

  module _ (js : StateJson) (compare_hash : Bytes → Bytes → Comparison) where
    unfoldable pub state_route : StateRoute → Handler Uuid ServiceState LockInfo
    state_route get_route = get_state js service_storage
    state_route post_route = put_state js service_storage
    state_route delete_route = delete_state js service_storage
    state_route post_lock_route = lock_state js service_storage
    state_route delete_lock_route = unlock_state js service_storage

    -- credStore.ValidateCredentials
    abbrev pub credential_store : Uuid → Bytes → ServiceState → Bool × Option Error
    credential_store org_id api_key s =
        validate_credentials ⦃uuid_eq = uuid_eq⦄ compare_hash org_id api_key s.credentials

    -- r.Use(auth.Middleware(credStore)), r.Use(custommw.RateLimitMiddleware(orgRateLimiter))
    unfoldable pub protected : StateRoute → Handler Uuid ServiceState LockInfo
    protected route =
        middleware lib credential_store
          (rate_limit_middleware f ⦃uuid_eq = uuid_eq⦄ service_limiter (state_route route))

    -- What the router serves at a route of states
    unfoldable pub serve : StateRoute → Handler Uuid ServiceState LockInfo
    unfolding limit_body protected
    serve route = limit_body (protected route)
