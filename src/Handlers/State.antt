-- ===== src/Handlers/State.antt =====
-- internal/handlers/state.go. The log lines are not modelled; encoding/json is a parameter.
pub mod Guards
pub mod Memory
pub mod Steps
use eterrain_tf_upload.Base.{
  ℕ, Bool, true, false, not, Option, none, some, List, [], if◌then◌else◌, String,
}
use eterrain_tf_upload.Text.{Bytes}
use eterrain_tf_upload.Errors.{
  Error, is_error, not_found, already_locked, not_locked, Result, ok, err,
}
use eterrain_tf_upload.Io.{Stream, read_all}
use eterrain_tf_upload.Http.{
  Request, Response, Handler, raw, empty, json_headers, http_error, http_error_with, json_response,
}
use eterrain_tf_upload.Auth.Middleware.{get_org_id_from_context}
use eterrain_tf_upload.Validation.{validate_state_name}
use eterrain_tf_upload.Storage.{Storage, StateData, LockInfo}

-- What the handlers take from encoding/json: json.Valid, and a Decoder that reads a LockInfo.
pub record StateJson : Type 0 where
  pub valid : Bytes → Bool
  pub decode_lock_info : Stream → Result LockInfo

-- http.Error with fmt.Sprintf("…: %v", err)
abbrev pub failure : ℕ → String → Error → Response LockInfo
failure status text e = http_error_with [] status text [] (some e)

-- w.WriteHeader(http.StatusOK)
abbrev pub success : Response LockInfo
success = record { status = 200; headers = []; body = empty }

module _ (js : StateJson) {Uuid S : Type 0} (storage : Storage Uuid S) where
  -- The two guards with which every handler begins
  unfoldable pub with_org_and_name :
      (Uuid → Bytes → Request Uuid → S → S × Response LockInfo) → Handler Uuid S LockInfo
  with_org_and_name handle r s = elim (get_org_id_from_context r.context) [
    | none ↦ (s, http_error 401 "Unauthorized")
    | some org_id ↦ elim (validate_state_name r.name_param) [
      | some e ↦ (s, http_error 400 "Invalid state name")
      | none ↦ handle org_id r.name_param r s
    ]
  ]

  unfoldable pub get_state_of : Uuid → Bytes → Request Uuid → S → S × Response LockInfo
  get_state_of org_id name r s = elim (storage.get_state org_id name s) [
    | err e ↦
        if is_error e not_found
        then (s, http_error 404 "State not found")
        else (s, failure 500 "Failed to retrieve state: " e)
    | ok state ↦ (s, record { status = 200; headers = json_headers; body = raw state.content })
  ]

  unfoldable pub put_state_of : Uuid → Bytes → Request Uuid → S → S × Response LockInfo
  put_state_of org_id name r s = elim (read_all r.body) [
    | err e ↦ (s, failure 400 "Failed to read request body: " e)
    | ok content ↦
        if not (js.valid content)
        then (s, http_error 400 "Invalid JSON state data")
        else let (s', failed) = storage.put_state org_id name content s in
          elim failed [
            | some e ↦ (s', failure 500 "Failed to store state: " e)
            | none ↦ (s', success)
          ]
  ]

  unfoldable pub delete_state_of : Uuid → Bytes → Request Uuid → S → S × Response LockInfo
  delete_state_of org_id name r s =
      let (s', failed) = storage.delete_state org_id name s in
      elim failed [
        | none ↦ (s', success)
        | some e ↦
            if is_error e not_found
            then (s', http_error 404 "State not found")
            else if is_error e already_locked
            then (s', http_error 423 "State is locked")
            else (s', failure 500 "Failed to delete state: " e)
      ]

  -- The answer to ErrAlreadyLocked: the lock that is there, if it still is
  unfoldable pub already_locked_response : Result LockInfo → Response LockInfo
  already_locked_response (ok current_lock) = json_response 423 current_lock
  already_locked_response (err e) = http_error 423 "State is already locked"

  unfoldable pub lock_state_of : Uuid → Bytes → Request Uuid → S → S × Response LockInfo
  unfolding already_locked_response
  lock_state_of org_id name r s = elim (js.decode_lock_info r.body) [
    | err e ↦ (s, failure 400 "Failed to decode lock info: " e)
    | ok lock_info ↦
        let (s', failed) = storage.lock_state org_id name lock_info s in
        elim failed [
          | none ↦ (s', success)
          | some e ↦
              if is_error e already_locked
              then (s', already_locked_response (storage.get_lock org_id name s'))
              else (s', failure 500 "Failed to lock state: " e)
        ]
  ]

  unfoldable pub unlock_state_of : Uuid → Bytes → Request Uuid → S → S × Response LockInfo
  unlock_state_of org_id name r s = elim (js.decode_lock_info r.body) [
    | err e ↦ (s, failure 400 "Failed to decode lock info: " e)
    | ok lock_info ↦
        let (s', failed) = storage.unlock_state org_id name lock_info.id s in
        elim failed [
          | none ↦ (s', success)
          | some e ↦
              if is_error e not_locked
              then (s', http_error 409 "State is not locked")
              else (s', failure 500 "Failed to unlock state: " e)
        ]
  ]

  unfoldable pub get_state : Handler Uuid S LockInfo
  unfolding with_org_and_name get_state_of
  get_state = with_org_and_name get_state_of

  unfoldable pub put_state : Handler Uuid S LockInfo
  unfolding with_org_and_name put_state_of
  put_state = with_org_and_name put_state_of

  unfoldable pub delete_state : Handler Uuid S LockInfo
  unfolding with_org_and_name delete_state_of
  delete_state = with_org_and_name delete_state_of

  unfoldable pub lock_state : Handler Uuid S LockInfo
  unfolding with_org_and_name lock_state_of
  lock_state = with_org_and_name lock_state_of

  unfoldable pub unlock_state : Handler Uuid S LockInfo
  unfolding with_org_and_name unlock_state_of
  unlock_state = with_org_and_name unlock_state_of
