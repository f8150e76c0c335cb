-- ===== src/Storage/Memory/Spec.antt =====
-- What a Storage promises, with no maps: each pair of an organization and a name has a cell of its
-- own, and an operation is a step of one cell.
use eterrain_tf_upload.Base.{ℕ, ◌+◌, ◌%◌, Option, none, some, [], ◌∷◌, if◌then◌else◌}
use eterrain_tf_upload.Text.{Bytes, equal, bytes_eq}
use eterrain_tf_upload.Errors.{
  Error, sentinel, errorf, bytes, not_found, already_locked, not_locked, Result, ok, err,
}
use eterrain_tf_upload.Maps.{lookup}
use eterrain_tf_upload.Uuid.{UuidLib}
use eterrain_tf_upload.Storage.{StateData, LockInfo}
use eterrain_tf_upload.Storage.Memory.{
  MemoryStorage, int64_mod, state_key, get_state, put_state, delete_state, lock_state, unlock_state,
  get_lock,
}

-- The stored bytes with their version, and the lock.
pub record Cell : Type 0 where
  pub stored : Option (Bytes × ℕ)
  pub lock : Option LockInfo

pub data Op : Type 0 where
  get : Op
  put : Bytes → Op
  delete : Op
  acquire : LockInfo → Op
  release : Bytes → Op
  query : Op

pub data Reply (Uuid : Type 0) : Type 0 where
  state : StateData Uuid → Reply Uuid
  lock_info : LockInfo → Reply Uuid
  done : Reply Uuid
  failed : Error → Reply Uuid

module _ {Uuid : Type 0} (org_id : Uuid) (name : Bytes) where
  -- The state that a cell holds for its owner.
  abbrev pub owned : Bytes → ℕ → StateData Uuid
  owned content version = record {
    org_id = org_id;
    name = name;
    content = content;
    lock_id = [];
    version = version;
  }

  cell_get : Cell → Option (Bytes × ℕ) → Cell × Reply Uuid
  cell_get c none = (c, failed (sentinel not_found))
  cell_get c (some (content, version)) = (c, state (owned content version))

  cell_put : Bytes → Cell → Option (Bytes × ℕ) → Cell × Reply Uuid
  cell_put content c none = (record c { stored = some (content, 1) }, done)
  cell_put content c (some (_, version)) =
      (record c { stored = some (content, (version + 1) % int64_mod) }, done)

  cell_delete : Cell → Option (Bytes × ℕ) → Option LockInfo → Cell × Reply Uuid
  cell_delete c none l = (c, failed (sentinel not_found))
  cell_delete c (some _) (some _) = (c, failed (sentinel already_locked))
  cell_delete c (some _) none = (record c { stored = none }, done)

  cell_acquire : LockInfo → Cell → Option LockInfo → Cell × Reply Uuid
  cell_acquire info c (some _) = (c, failed (sentinel already_locked))
  cell_acquire info c none = (record c { lock = some info }, done)

  cell_release : Bytes → Cell → Option LockInfo → Cell × Reply Uuid
  cell_release id c none = (c, failed (sentinel not_locked))
  cell_release id c (some l) =
      if equal l.id id
      then (record c { lock = none }, done)
      else (c, failed (errorf "lock ID mismatch: expected %s, got %s" (bytes l.id ∷ bytes id ∷ [])))

  cell_query : Cell → Option LockInfo → Cell × Reply Uuid
  cell_query c none = (c, failed (sentinel not_found))
  cell_query c (some l) = (c, lock_info l)

  unfoldable pub cell_step : Op → Cell → Cell × Reply Uuid
  unfolding cell_get cell_put cell_delete cell_acquire cell_release cell_query
  cell_step get c = cell_get c c.stored
  cell_step (put content) c = cell_put content c c.stored
  cell_step delete c = cell_delete c c.stored c.lock
  cell_step (acquire info) c = cell_acquire info c c.lock
  cell_step (release id) c = cell_release id c c.lock
  cell_step query c = cell_query c c.lock

module _ {Uuid : Type 0} where
  abbrev pub reply_of : Option Error → Reply Uuid
  reply_of none = done
  reply_of (some e) = failed e

  abbrev pub state_reply : Result (StateData Uuid) → Reply Uuid
  state_reply (ok s) = state s
  state_reply (err e) = failed e

  abbrev pub lock_reply : Result LockInfo → Reply Uuid
  lock_reply (ok l) = lock_info l
  lock_reply (err e) = failed e

module _ (lib : UuidLib) where
  open lib use {Uuid}

  -- One call of the in-memory storage.
  unfoldable pub exec : Uuid → Bytes → Op → MemoryStorage Uuid → MemoryStorage Uuid × Reply Uuid
  exec u a get m = (m, state_reply (get_state lib u a m))
  exec u a (put content) m = let (m', e) = put_state lib u a content m in (m', reply_of e)
  exec u a delete m = let (m', e) = delete_state lib u a m in (m', reply_of e)
  exec u a (acquire info) m = let (m', e) = lock_state lib u a info m in (m', reply_of e)
  exec u a (release id) m = let (m', e) = unlock_state lib u a id m in (m', reply_of e)
  exec u a query m = (m, lock_reply (get_lock lib u a m))

  abbrev pub contents_of : Option (StateData Uuid) → Option (Bytes × ℕ)
  contents_of none = none
  contents_of (some s) = some (s.content, s.version)

  -- The cell of an organization and a name.
  unfoldable pub view : MemoryStorage Uuid → Uuid → Bytes → Cell
  view m u a = record {
    stored = contents_of (lookup (state_key lib u a) m.states);
    lock = lookup (state_key lib u a) m.locks;
  }
