-- ===== src/Storage/Memory.antt =====
-- internal/storage/memory.go: each method takes the lock for its whole body, so it is one step on
-- the two maps. The copies that it makes keep the stored bytes from being shared: here every value
-- is a copy.
pub mod Keys
pub mod Spec
pub mod Refinement
pub mod History
use eterrain_tf_upload.Base.{
  ℕ, ◌+◌, ◌%◌, ◌^◌, Bool, not, Option, none, some, [], ◌∷◌, ◌++◌, Eq, if◌then◌else◌,
}
use eterrain_tf_upload.Text.{Bytes, equal, bytes_eq}
use eterrain_tf_upload.Errors.{
  Error, sentinel, errorf, bytes, not_found, already_locked, not_locked, Result, ok, err,
}
use eterrain_tf_upload.Maps.{Map, lookup, insert, remove}
use eterrain_tf_upload.Uuid.{UuidLib}
use eterrain_tf_upload.Storage.{StateData, LockInfo, Storage}

pub record MemoryStorage (Uuid : Type 0) : Type 0 where
  pub states : Map Bytes (StateData Uuid)
  pub locks : Map Bytes LockInfo

unfoldable pub new_memory_storage : (Uuid : Type 0) → MemoryStorage Uuid
new_memory_storage Uuid = record { states = []; locks = [] }

-- 2^64, for the wrap-around of an int64
abbrev pub int64_mod : ℕ
int64_mod = 2 ^ 64

module _ (lib : UuidLib) where
  open lib use {Uuid, to_string}

  -- "%s:%s"
  unfoldable pub state_key : Uuid → Bytes → Bytes
  state_key org_id name = to_string org_id ++ (b':' ∷ name)

  unfoldable pub get_state : Uuid → Bytes → MemoryStorage Uuid → Result (StateData Uuid)
  get_state org_id name m = elim (lookup (state_key org_id name) m.states) [
    | none ↦ err (sentinel not_found)
    | some state ↦ ok state
  ]

  -- One more than the version that is there, and 1 if none is.
  unfoldable pub next_version : Option (StateData Uuid) → ℕ
  next_version none = 1
  next_version (some existing) = (existing.version + 1) % int64_mod

  unfoldable pub put_state :
      Uuid → Bytes → Bytes → MemoryStorage Uuid → MemoryStorage Uuid × Option Error
  unfolding next_version
  put_state org_id name content m =
      let key = state_key org_id name in
      let state : StateData Uuid = record {
        org_id = org_id;
        name = name;
        content = content;
        lock_id = [];
        version = next_version (lookup key m.states);
      } in
      (record m { states = insert key state m.states }, none)

  unfoldable pub delete_state :
      Uuid → Bytes → MemoryStorage Uuid → MemoryStorage Uuid × Option Error
  delete_state org_id name m =
      let key = state_key org_id name in
      elim (lookup key m.states) [
        | none ↦ (m, some (sentinel not_found))
        | some state ↦ elim (lookup key m.locks) [
          | some lock ↦ (m, some (sentinel already_locked))
          | none ↦ (record m { states = remove key m.states }, none)
        ]
      ]

  unfoldable pub lock_state :
      Uuid → Bytes → LockInfo → MemoryStorage Uuid → MemoryStorage Uuid × Option Error
  lock_state org_id name lock_info m =
      let key = state_key org_id name in
      elim (lookup key m.locks) [
        | some lock ↦ (m, some (sentinel already_locked))
        | none ↦ (record m { locks = insert key lock_info m.locks }, none)
      ]

  unfoldable pub unlock_state :
      Uuid → Bytes → Bytes → MemoryStorage Uuid → MemoryStorage Uuid × Option Error
  unlock_state org_id name lock_id m =
      let key = state_key org_id name in
      elim (lookup key m.locks) [
        | none ↦ (m, some (sentinel not_locked))
        | some lock ↦
            if not (equal lock.id lock_id)
            then (
              m,
              some (
                  errorf "lock ID mismatch: expected %s, got %s"
                    (bytes lock.id ∷ bytes lock_id ∷ [])),
            )
            else (record m { locks = remove key m.locks }, none)
      ]

  unfoldable pub get_lock : Uuid → Bytes → MemoryStorage Uuid → Result LockInfo
  get_lock org_id name m = elim (lookup (state_key org_id name) m.locks) [
    | none ↦ err (sentinel not_found)
    | some lock ↦ ok lock
  ]

  -- *MemoryStorage as a Storage
  abbrev pub memory_storage : Storage Uuid (MemoryStorage Uuid)
  memory_storage = record {
    get_state = get_state;
    put_state = put_state;
    delete_state = delete_state;
    lock_state = lock_state;
    unlock_state = unlock_state;
    get_lock = get_lock;
  }
