-- ===== src/Tests/Storage.antt =====
-- The storage and the handlers of states: an organization's state is written and locked, and both the
-- organization and another one call.
use eterrain_tf_upload.Base.{
  List, ◌≡◌, refl, true, false, some, none, [], ◌∷◌, arith, if◌then◌else◌,
}
use eterrain_tf_upload.Text.{Bytes, codes, equal}
use eterrain_tf_upload.Errors.{ok}
use eterrain_tf_upload.Uuid.{two_uuids}
use eterrain_tf_upload.Maps.{lookup, insert}
use eterrain_tf_upload.Http.{Request, value, uuid, http_error, json_response}
use eterrain_tf_upload.Auth.Middleware.{org_id_context_key, get_org_id_from_context}
use eterrain_tf_upload.Storage.{LockInfo}
use eterrain_tf_upload.Storage.Memory
use eterrain_tf_upload.Storage.Memory.{MemoryStorage, new_memory_storage, memory_storage, state_key}
use eterrain_tf_upload.Storage.Memory.Keys.{same, same-eq}
use eterrain_tf_upload.Storage.Memory.Spec.{
  get, put, delete, acquire, release, query, exec, view, cell_step, state, owned,
}
use eterrain_tf_upload.Storage.Memory.Refinement.{
  IsWellFormed, new_memory_storage-IsWellFormed, exec-IsWellFormed, exec-refines,
}
use eterrain_tf_upload.Storage.Memory.History.{
  Call, OnCell, KeepsLock, KeepsContent, run, IsHeld, run-IsHeld, get-run-put, version_after,
}
use eterrain_tf_upload.Handlers.State.{
  StateJson, get_state, put_state, delete_state, lock_state, unlock_state,
}
use eterrain_tf_upload.Handlers.State.Guards.{unauthorized, handlers-Refused}
use eterrain_tf_upload.Handlers.State.Memory.{Names, lock_of, state_of, locked_cases}
use eterrain_tf_upload.Validation.{validate_state_name}

abbrev pub prod : Bytes
prod = codes "prod"

abbrev pub lock_info : LockInfo
lock_info = record {
  id = codes "lock-1";
  operation = codes "apply";
  info = [];
  who = codes "ci";
  version = codes "1.9";
  created = [];
  path = [];
}

abbrev empty_storage : MemoryStorage two_uuids.Uuid
empty_storage = new_memory_storage two_uuids.Uuid

empty_storage-IsWellFormed : IsWellFormed two_uuids empty_storage
empty_storage-IsWellFormed = new_memory_storage-IsWellFormed two_uuids

abbrev with_state : MemoryStorage two_uuids.Uuid
with_state = (exec two_uuids true prod (put (codes "{}")) empty_storage).0

with_state-IsWellFormed : IsWellFormed two_uuids with_state
with_state-IsWellFormed =
    exec-IsWellFormed two_uuids true prod (put (codes "{}")) empty_storage
      empty_storage-IsWellFormed

abbrev with_lock : MemoryStorage two_uuids.Uuid
with_lock = (exec two_uuids true prod (acquire lock_info) with_state).0

abbrev calls : List (Call two_uuids.Uuid)
calls =
    record { org_id = false; name = prod; op = put (codes "[]") }
    ∷ record { org_id = true; name = prod; op = query }
    ∷ []

abbrev attack : List (Call two_uuids.Uuid)
attack =
    record { org_id = true; name = prod; op = release (codes "lock-2") }
    ∷ record { org_id = true; name = prod; op = delete }
    ∷ record { org_id = false; name = prod; op = release (codes "lock-1") }
    ∷ []

attack-KeepsLock : OnCell two_uuids (KeepsLock lock_info.id) true prod attack
attack-KeepsLock =
    (λ h e. ground arith, (λ h. tt, (λ h e. cc (same-eq two_uuids false true prod prod h).0, tt)))

calls-KeepsContent : OnCell two_uuids KeepsContent true prod calls
calls-KeepsContent = (λ h. cc (same-eq two_uuids false true prod prod h).0, (λ h. tt, tt))

exec-refines_example :
    ((exec two_uuids true prod delete with_lock).1
      ≡ (cell_step true prod delete (view two_uuids with_lock true prod)).1)
    × ((v : two_uuids.Uuid) (b : Bytes)
        → view two_uuids (exec two_uuids true prod delete with_lock).0 v b ≡ (
            if same two_uuids true prod v b
            then (cell_step true prod delete (view two_uuids with_lock true prod)).0
            else view two_uuids with_lock v b))
    × IsWellFormed two_uuids (exec two_uuids true prod delete with_lock).0
exec-refines_example =
    exec-refines two_uuids true prod delete with_lock
      (exec-IsWellFormed two_uuids true prod (acquire lock_info) with_state with_state-IsWellFormed)

with_lock-IsHeld : IsHeld two_uuids lock_info (view two_uuids with_lock true prod)
unfolding exec lookup Memory.lock_state Memory.put_state new_memory_storage insert equal state_key
    view
with_lock-IsHeld = record { lock = refl; stored = λ e. ground arith }

run-IsHeld_example :
    IsHeld two_uuids lock_info (view two_uuids (run two_uuids with_lock attack) true prod)
run-IsHeld_example =
    run-IsHeld two_uuids true prod lock_info attack with_lock attack-KeepsLock with_lock-IsHeld

get-run-put_example :
    (exec two_uuids true prod get
      (run two_uuids (exec two_uuids true prod (put (codes "{1}")) with_state).0 calls)).1
    ≡ state (
        owned true prod
          (codes "{1}")
          (version_after two_uuids (view two_uuids with_state true prod)))
get-run-put_example =
    get-run-put two_uuids true prod (codes "{1}") calls with_state with_state-IsWellFormed
      calls-KeepsContent

abbrev pub json : StateJson
json = record { valid = λ s. true; decode_lock_info = λ s. ok lock_info }

abbrev request : Bytes → Request two_uuids.Uuid
request content = record {
  method = codes "POST";
  path = codes "api" ∷ codes "v1" ∷ codes "state" ∷ prod ∷ [];
  header = λ h. [];
  context = (org_id_context_key, uuid true) ∷ [];
  name_param = prod;
  body = record { content = content; failure = none };
}

abbrev anonymous : Request two_uuids.Uuid
anonymous = record (request []) { context = [] }

request-Names : (s : Bytes) → Names json two_uuids (request s) true
unfolding get_org_id_from_context value equal validate_state_name
request-Names s = record { org_id = refl; valid_name = refl }

with_lock-locked : lock_of json two_uuids with_lock true prod ≡ some lock_info
unfolding exec lookup Memory.lock_state Memory.put_state new_memory_storage insert equal state_key
with_lock-locked = refl

locked_cases_example :
    ((delete_state json (memory_storage two_uuids) (request []) with_lock).0 ≡ with_lock)
    × ((delete_state json (memory_storage two_uuids) (request []) with_lock).1.status
        ≡ (elim (state_of json two_uuids with_lock true prod) [ none ↦ 404 | some found ↦ 423 ]))
    × (lock_state json (memory_storage two_uuids) (request []) with_lock
        ≡ (with_lock, json_response 423 lock_info))
    × ((unlock_state json (memory_storage two_uuids) (request []) with_lock).1.status
        ≡ (if equal lock_info.id lock_info.id then 200 else 500))
    × (lock_of json two_uuids
          (unlock_state json (memory_storage two_uuids) (request []) with_lock).0
          true
          prod
        ≡ (if equal lock_info.id lock_info.id then none else some lock_info))
    × ((unlock_state json (memory_storage two_uuids) (request []) with_lock).0.states
        ≡ with_lock.states)
locked_cases_example =
    locked_cases json two_uuids (request []) true with_lock lock_info lock_info (request-Names [])
      refl with_lock-locked

handlers-Refused_example :
    (get_state json (memory_storage two_uuids) anonymous with_lock
      ≡ (with_lock, http_error 401 "Unauthorized"))
    × (put_state json (memory_storage two_uuids) anonymous with_lock
        ≡ (with_lock, http_error 401 "Unauthorized"))
    × (delete_state json (memory_storage two_uuids) anonymous with_lock
        ≡ (with_lock, http_error 401 "Unauthorized"))
    × (lock_state json (memory_storage two_uuids) anonymous with_lock
        ≡ (with_lock, http_error 401 "Unauthorized"))
    × (unlock_state json (memory_storage two_uuids) anonymous with_lock
        ≡ (with_lock, http_error 401 "Unauthorized"))
unfolding get_org_id_from_context value
handlers-Refused_example =
    handlers-Refused json (memory_storage two_uuids) anonymous with_lock
      (http_error 401 "Unauthorized") (unauthorized refl)
