-- ===== src/Handlers/State/Steps.antt =====
-- How far a handler reaches into the storage, over any storage.
use eterrain_tf_upload.Base.{subst, ◌≡◌, some, arith, Option-cases, Bool-cases, inl, inr}
use eterrain_tf_upload.Text.{Bytes}
use eterrain_tf_upload.Errors.{Result-cases}
use eterrain_tf_upload.Io.{read_all}
use eterrain_tf_upload.Http.{Request, Response}
use eterrain_tf_upload.Auth.Middleware.{get_org_id_from_context}
use eterrain_tf_upload.Validation.{validate_state_name}
use eterrain_tf_upload.Storage.{Storage, LockInfo}
use eterrain_tf_upload.Handlers.State.{
  StateJson, with_org_and_name, get_state_of, put_state_of, delete_state_of, lock_state_of,
  unlock_state_of, get_state, put_state, delete_state, lock_state, unlock_state,
}

-- At most one call changed the storage, for this organization and this name.
pub data Stepped {Uuid S : Type 0} (storage : Storage Uuid S) (u : Uuid) (a : Bytes) (s s' : S)
    : Type 0 where
  stays : s' ≡ s → Stepped storage u a s s'
  puts : (x : Bytes) → s' ≡ (storage.put_state u a x s).0 → Stepped storage u a s s'
  deletes : s' ≡ (storage.delete_state u a s).0 → Stepped storage u a s s'
  locks : (l : LockInfo) → s' ≡ (storage.lock_state u a l s).0 → Stepped storage u a s s'
  unlocks : (id : Bytes) → s' ≡ (storage.unlock_state u a id s).0 → Stepped storage u a s s'

module _ (js : StateJson) {Uuid S : Type 0} (storage : Storage Uuid S) (u : Uuid) (r : Request Uuid)
    (s : S) where
  get_state_of-stays : (a : Bytes) → (get_state_of js storage u a r s).0 ≡ s
  unfolding get_state_of
  get_state_of-stays a = ground arith

  put_state_of-Stepped : (a : Bytes) → Stepped storage u a s (put_state_of js storage u a r s).0
  unfolding put_state_of
  put_state_of-Stepped a = elim (Result-cases (read_all r.body)) [
    | inr (e, h) ↦ stays (ground arith)
    | inl (x, h) ↦ elim (Bool-cases (js.valid x)) [
      | inl v ↦ puts x (ground arith)
      | inr v ↦ stays (ground arith)
    ]
  ]

  delete_state_of-Stepped :
      (a : Bytes) → Stepped storage u a s (delete_state_of js storage u a r s).0
  unfolding delete_state_of
  delete_state_of-Stepped a = deletes (ground arith)

  lock_state_of-Stepped : (a : Bytes) → Stepped storage u a s (lock_state_of js storage u a r s).0
  unfolding lock_state_of
  lock_state_of-Stepped a = elim (Result-cases (js.decode_lock_info r.body)) [
    | inr (e, h) ↦ stays (ground arith)
    | inl (l, h) ↦ locks l (ground arith)
  ]

  unlock_state_of-Stepped :
      (a : Bytes) → Stepped storage u a s (unlock_state_of js storage u a r s).0
  unfolding unlock_state_of
  unlock_state_of-Stepped a = elim (Result-cases (js.decode_lock_info r.body)) [
    | inr (e, h) ↦ stays (ground arith)
    | inl (l, h) ↦ unlocks l.id (ground arith)
  ]

  with_org_and_name-Stepped :
      (handle : Uuid → Bytes → Request Uuid → S → S × Response LockInfo)
      → get_org_id_from_context r.context ≡ some u
      → Stepped storage u r.name_param s (handle u r.name_param r s).0
      → Stepped storage u r.name_param s (with_org_and_name js storage handle r s).0
  unfolding with_org_and_name
  with_org_and_name-Stepped handle h step = elim (Option-cases (validate_state_name r.name_param)) [
    | inl e ↦
        let reached : handle u r.name_param r s ≡ with_org_and_name js storage handle r s =
          ground (arith, h, e) in
        subst (λ end. Stepped storage u r.name_param s end.0) reached step
    | inr (x, e) ↦ stays (ground arith)
  ]

  -- A handler of states, asked by an organization, leaves the storage as it was or as one call of a
  -- method leaves it, for that organization and the name of the request; GetState leaves it as it was.
  pub handlers-Stepped :
      get_org_id_from_context r.context ≡ some u
      → ((get_state js storage r s).0 ≡ s)
        × Stepped storage u r.name_param s (put_state js storage r s).0
        × Stepped storage u r.name_param s (delete_state js storage r s).0
        × Stepped storage u r.name_param s (lock_state js storage r s).0
        × Stepped storage u r.name_param s (unlock_state js storage r s).0
  unfolding get_state put_state delete_state lock_state unlock_state with_org_and_name
  handlers-Stepped h = (
    ground (arith, get_state_of-stays r.name_param),
    with_org_and_name-Stepped (put_state_of js storage) h (put_state_of-Stepped r.name_param),
    with_org_and_name-Stepped (delete_state_of js storage) h (delete_state_of-Stepped r.name_param),
    with_org_and_name-Stepped (lock_state_of js storage) h (lock_state_of-Stepped r.name_param),
    with_org_and_name-Stepped (unlock_state_of js storage) h (unlock_state_of-Stepped r.name_param),
  )
