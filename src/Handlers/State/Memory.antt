-- ===== src/Handlers/State/Memory.antt =====
-- The handlers of states over the in-memory storage.
use eterrain_tf_upload.Base.{
  if◌then◌else◌, true, ◌≡◌, Option, none, some, arith, inl, inr, Option-cases,
}
use eterrain_tf_upload.Text.{Bytes, equal, bytes_eq}
use eterrain_tf_upload.Text.Laws.{equal_refl}
use eterrain_tf_upload.Errors.{ok, is_error}
use eterrain_tf_upload.Maps.{lookup-insert, lookup, lookup-remove}
use eterrain_tf_upload.Uuid.{UuidLib}
use eterrain_tf_upload.Http.{Request, json_response, raw, json_headers}
use eterrain_tf_upload.Auth.Middleware.{get_org_id_from_context}
use eterrain_tf_upload.Validation.{validate_state_name}
use eterrain_tf_upload.Storage.{LockInfo, StateData}
use eterrain_tf_upload.Storage.Memory
use eterrain_tf_upload.Storage.Memory.{MemoryStorage, memory_storage, state_key, next_version}
use eterrain_tf_upload.Storage.Memory.Spec.{owned}
use eterrain_tf_upload.Io.{read_all}
use eterrain_tf_upload.Handlers.State.{
  get_state, put_state, StateJson, delete_state, lock_state, unlock_state,
}

module _ (js : StateJson) (lib : UuidLib) where
  open lib use {Uuid}

  -- The request comes from organization u, and names a state.
  pub record Names (r : Request Uuid) (u : Uuid) : Type 0 where
    pub org_id : get_org_id_from_context r.context ≡ some u
    pub valid_name : validate_state_name r.name_param ≡ none

  abbrev pub lock_of : MemoryStorage Uuid → Uuid → Bytes → Option LockInfo
  lock_of m u a = lookup (state_key lib u a) m.locks

  abbrev pub state_of : MemoryStorage Uuid → Uuid → Bytes → Option (StateData Uuid)
  state_of m u a = lookup (state_key lib u a) m.states

  module _ (r : Request Uuid) (u : Uuid) (m : MemoryStorage Uuid) (l info : LockInfo)
      (n : Names r u) (decoded : js.decode_lock_info r.body ≡ ok info)
      (held : lock_of m u r.name_param ≡ some l) where
    delete_locked :
        ((delete_state js (memory_storage lib) r m).0 ≡ m)
        × ((delete_state js (memory_storage lib) r m).1.status
            ≡ (elim (state_of m u r.name_param) [ none ↦ 404 | some found ↦ 423 ]))
    unfolding delete_state Memory.delete_state is_error
    delete_locked = elim (Option-cases (state_of m u r.name_param)) [
      | inl absent ↦ ground (arith, n.org_id, n.valid_name, held, absent)
      | inr (state, there) ↦ ground (arith, n.org_id, n.valid_name, held, there)
    ]

    lock_locked : lock_state js (memory_storage lib) r m ≡ (m, json_response 423 l)
    unfolding lock_state Memory.lock_state Memory.get_lock is_error
    lock_locked = ground (arith, n.org_id, n.valid_name, held, decoded)

    unlock_locked :
        ((unlock_state js (memory_storage lib) r m).1.status
          ≡ (if equal l.id info.id then 200 else 500))
        × (lock_of (unlock_state js (memory_storage lib) r m).0 u r.name_param
            ≡ (if equal l.id info.id then none else some l))
        × ((unlock_state js (memory_storage lib) r m).0.states ≡ m.states)
    unfolding unlock_state Memory.unlock_state is_error
    unlock_locked =
        let key = state_key lib u r.name_param in
        ground (
          arith,
          n.org_id,
          n.valid_name,
          held,
          decoded,
          lookup-remove key key m.locks,
          equal_refl key,
        )

    -- While a state is locked, to a request that names it and carries a lock: DELETE changes nothing and is
    -- refused, with 404 if there is no state and with 423 if there is one; LOCK is answered 423 with the
    -- lock that is there and changes nothing; UNLOCK is answered 200 and takes the lock away if it names
    -- the lock's id, and else is answered 500 and leaves it, and leaves the states in both cases.
    pub locked_cases :
        ((delete_state js (memory_storage lib) r m).0 ≡ m)
        × ((delete_state js (memory_storage lib) r m).1.status
            ≡ (elim (state_of m u r.name_param) [ none ↦ 404 | some found ↦ 423 ]))
        × (lock_state js (memory_storage lib) r m ≡ (m, json_response 423 l))
        × ((unlock_state js (memory_storage lib) r m).1.status
            ≡ (if equal l.id info.id then 200 else 500))
        × (lock_of (unlock_state js (memory_storage lib) r m).0 u r.name_param
            ≡ (if equal l.id info.id then none else some l))
        × ((unlock_state js (memory_storage lib) r m).0.states ≡ m.states)
    locked_cases =
        let unlocked = unlock_locked in
        (delete_locked.0, delete_locked.1, lock_locked, unlocked.0, unlocked.1, unlocked.2)

  -- A PUT of valid JSON is answered 200, and a GET of the same state by any request of the organization
  -- then returns these bytes with 200. The lock is neither asked for nor changed: this holds whether or
  -- not the state is locked, and by whomever.
  pub get-put :
      (r r' : Request Uuid) (u : Uuid) (m : MemoryStorage Uuid) (x : Bytes)
      → Names r u
      → Names r' u
      → r'.name_param ≡ r.name_param
      → read_all r.body ≡ ok x
      → js.valid x ≡ true
      → ((put_state js (memory_storage lib) r m).1.status ≡ 200)
        × ((put_state js (memory_storage lib) r m).0.locks ≡ m.locks)
        × (get_state js (memory_storage lib) r' (put_state js (memory_storage lib) r m).0 ≡ (
          (put_state js (memory_storage lib) r m).0,
          record { status = 200; headers = json_headers; body = raw x },
        ))
  unfolding put_state get_state Memory.put_state Memory.get_state
  get-put r r' u m x n n' same body valid =
      let key = state_key lib u r.name_param in
      let found =
        lookup-insert key key (owned u r.name_param x (next_version lib (lookup key m.states)))
          m.states in
      (
        ground (arith, n.org_id, n.valid_name, body, valid),
        ground (arith, n.org_id, n.valid_name, body, valid),
        ground (
          arith,
          n.org_id,
          n.valid_name,
          n'.org_id,
          n'.valid_name,
          body,
          valid,
          found,
          equal_refl key,
          same,
        ),
      )
