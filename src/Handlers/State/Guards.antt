-- ===== src/Handlers/State/Guards.antt =====
-- The guards of the five handlers, over any storage.
use eterrain_tf_upload.Base.{◌≡◌, none, some, arith, Option-cases, inl, inr}
use eterrain_tf_upload.Text.{Bytes}
use eterrain_tf_upload.Http.{Request, Response, http_error}
use eterrain_tf_upload.Auth.Middleware.{get_org_id_from_context}
use eterrain_tf_upload.Validation.{name_byte, validate_state_name}
use eterrain_tf_upload.Validation.Names.{IsName, NoDotDot, validate_state_name_iff}
use eterrain_tf_upload.Storage.{Storage, LockInfo}
use eterrain_tf_upload.Handlers.State.{
  StateJson, with_org_and_name, get_state_of, put_state_of, delete_state_of, lock_state_of,
  unlock_state_of, get_state, put_state, delete_state, lock_state, unlock_state,
}

-- A state name of 1 to 255 allowed bytes with no two dots in a row.
abbrev pub IsStateName : Bytes → Type 0
IsStateName a = IsName name_byte 255 a × NoDotDot a

-- How a request is refused before the storage is asked: 401 if its context has no organization, 400
-- if the name is not a state name.
pub data Refused {Uuid : Type 0} (r : Request Uuid) : Response LockInfo → Type 0 where
  unauthorized :
      get_org_id_from_context r.context ≡ none → Refused r (http_error 401 "Unauthorized")
  bad_name :
      (u : Uuid)
      → get_org_id_from_context r.context ≡ some u
      → ¬ (IsStateName r.name_param)
      → Refused r (http_error 400 "Invalid state name")

module _ (js : StateJson) {Uuid S : Type 0} (storage : Storage Uuid S) (r : Request Uuid)
    (s : S) where
  guarded :
      (handle : Uuid → Bytes → Request Uuid → S → S × Response LockInfo) (x : Response LockInfo)
      → Refused r x
      → with_org_and_name js storage handle r s ≡ (s, x)
  unfolding with_org_and_name
  guarded handle x (unauthorized h) = ground arith
  guarded handle x (bad_name u h bad) = elim (Option-cases (validate_state_name r.name_param)) [
    | inl e ↦ absurd (bad ((validate_state_name_iff r.name_param).0 e))
    | inr (y, e) ↦ ground arith
  ]

  -- A request without an organization is answered 401, and one for a name that is not a state name, an
  -- empty one included, 400 with the text "Invalid state name", by each of the five handlers of states,
  -- and the storage stays as it was, whatever storage it is.
  pub handlers-Refused :
      (x : Response LockInfo)
      → Refused r x
      → (get_state js storage r s ≡ (s, x))
        × (put_state js storage r s ≡ (s, x))
        × (delete_state js storage r s ≡ (s, x))
        × (lock_state js storage r s ≡ (s, x))
        × (unlock_state js storage r s ≡ (s, x))
  unfolding get_state put_state delete_state lock_state unlock_state
  handlers-Refused x h = (
    guarded (get_state_of js storage) x h,
    guarded (put_state_of js storage) x h,
    guarded (delete_state_of js storage) x h,
    guarded (lock_state_of js storage) x h,
    guarded (unlock_state_of js storage) x h,
  )
