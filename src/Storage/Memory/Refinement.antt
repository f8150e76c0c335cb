-- ===== src/Storage/Memory/Refinement.antt =====
-- The two maps implement the cells.
use eterrain_tf_upload.Base.{◌↔◌, Option-cases, ◌≡◌, true, some, [], arith, if◌then◌else◌, inl, inr}
use eterrain_tf_upload.Text.{Bytes, equal, equal_iff, bytes_eq}
use eterrain_tf_upload.Maps.{lookup, lookup-insert, lookup-remove}
use eterrain_tf_upload.Uuid.{UuidLib}
use eterrain_tf_upload.Storage.{StateData}
use eterrain_tf_upload.Storage.Memory.{
  next_version, MemoryStorage, new_memory_storage, state_key, get_state, put_state, delete_state,
  lock_state, unlock_state, get_lock,
}
use eterrain_tf_upload.Storage.Memory.Keys.{same, equal-state_key, state_key-injective}
use eterrain_tf_upload.Storage.Memory.Spec.{
  owned, Op, get, put, delete, acquire, release, query, cell_step, exec, view,
}

module _ (lib : UuidLib) where
  open lib use {Uuid}

  -- Every stored state names its owner and carries no lock id.
  pub record IsOwned (u : Uuid) (a : Bytes) (s : StateData Uuid) : Type 0 where
    pub org_id : s.org_id ≡ u
    pub name : s.name ≡ a
    pub lock_id : s.lock_id ≡ []

  pub record IsWellFormed (m : MemoryStorage Uuid) : Type 0 where
    pub owners :
        (u : Uuid) (a : Bytes) (s : StateData Uuid)
        → lookup (state_key lib u a) m.states ≡ some s
        → IsOwned u a s

  pub new_memory_storage-IsWellFormed : IsWellFormed (new_memory_storage Uuid)
  unfolding new_memory_storage lookup
  new_memory_storage-IsWellFormed = record { owners = λ u a s h. cc }

  pub exec-reply :
      (u : Uuid) (a : Bytes) (op : Op) (m : MemoryStorage Uuid)
      → IsWellFormed m
      → (exec lib u a op m).1 ≡ (cell_step u a op (view lib m u a)).1
  unfolding exec cell_step view get_state put_state delete_state lock_state unlock_state get_lock
  exec-reply u a get m w = elim (Option-cases (lookup (state_key lib u a) m.states)) [
    | inl e ↦ ground arith
    | inr (s, e) ↦ ground (arith, w.owners u a s e)
  ]
  exec-reply u a (put content) m w = ground arith
  exec-reply u a delete m w = ground arith
  exec-reply u a (acquire info) m w = ground arith
  exec-reply u a (release id) m w = ground arith
  exec-reply u a query m w = ground arith

  -- The two keys are equal exactly when the two cells are one.
  keys :
      (u : Uuid) (a : Bytes) (v : Uuid) (b : Bytes)
      → (equal (state_key lib u a) (state_key lib v b) ≡ same lib u a v b)
        × ((equal (state_key lib u a) (state_key lib v b) ≡ true)
            ↔ (state_key lib u a ≡ state_key lib v b))
  keys u a v b = (equal-state_key lib u v a b, equal_iff (state_key lib u a) (state_key lib v b))

  abbrev written : Uuid → Bytes → Bytes → MemoryStorage Uuid → StateData Uuid
  written u a content m = owned u a content (next_version lib (lookup (state_key lib u a) m.states))

  pub exec-view :
      (u : Uuid) (a : Bytes) (op : Op) (m : MemoryStorage Uuid) (v : Uuid) (b : Bytes)
      → view lib (exec lib u a op m).0 v b
        ≡ (if same lib u a v b then (cell_step u a op (view lib m u a)).0 else view lib m v b)
  unfolding exec cell_step view get_state put_state delete_state lock_state unlock_state get_lock
  exec-view u a get m v b = ground (arith, keys u a v b)
  exec-view u a (put content) m v b = ground (
    arith,
    keys u a v b,
    lookup-insert (state_key lib u a) (state_key lib v b) (written u a content m) m.states,
  )
  exec-view u a delete m v b =
      ground (arith, keys u a v b, lookup-remove (state_key lib u a) (state_key lib v b) m.states)
  exec-view u a (acquire info) m v b =
      ground
        (arith, keys u a v b, lookup-insert (state_key lib u a) (state_key lib v b) info m.locks)
  exec-view u a (release id) m v b =
      ground (arith, keys u a v b, lookup-remove (state_key lib u a) (state_key lib v b) m.locks)
  exec-view u a query m v b = ground (arith, keys u a v b)

  pub exec-IsWellFormed :
      (u : Uuid) (a : Bytes) (op : Op) (m : MemoryStorage Uuid)
      → IsWellFormed m
      → IsWellFormed (exec lib u a op m).0
  unfolding exec put_state delete_state lock_state unlock_state
  exec-IsWellFormed u a get m w = w
  exec-IsWellFormed u a (put content) m w = record {
    owners = λ v b s h. ground (
      arith,
      w.owners v b s,
      state_key-injective lib u v a b,
      equal_iff (state_key lib u a) (state_key lib v b),
      lookup-insert (state_key lib u a) (state_key lib v b) (written u a content m) m.states,
    );
  }
  exec-IsWellFormed u a delete m w = record {
    owners = λ v b s h.
        ground
          (arith, w.owners v b s, lookup-remove (state_key lib u a) (state_key lib v b) m.states);
  }
  exec-IsWellFormed u a (acquire info) m w = record {
    owners = λ v b s h. ground (arith, w.owners v b s);
  }
  exec-IsWellFormed u a (release id) m w = record {
    owners = λ v b s h. ground (arith, w.owners v b s);
  }
  exec-IsWellFormed u a query m w = w

  -- From a well-formed storage each call answers as the cell of its organization and name does, leaves
  -- that cell as the step of the cell says and every other cell as it was, and keeps the storage
  -- well formed.
  pub exec-refines :
      (u : Uuid) (a : Bytes) (op : Op) (m : MemoryStorage Uuid)
      → IsWellFormed m
      → ((exec lib u a op m).1 ≡ (cell_step u a op (view lib m u a)).1)
        × ((v : Uuid) (b : Bytes)
            → view lib (exec lib u a op m).0 v b ≡ (
                if same lib u a v b then (cell_step u a op (view lib m u a)).0 else view lib m v b))
        × IsWellFormed (exec lib u a op m).0
  exec-refines u a op m w =
      (exec-reply u a op m w, exec-view u a op m, exec-IsWellFormed u a op m w)
