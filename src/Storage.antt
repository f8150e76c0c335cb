-- ===== src/Storage.antt =====
-- internal/storage/storage.go: the data of the Terraform states and locks, and the two interfaces
-- behind which a storage stands. A method takes the storage and returns it, changed, with its result.
pub mod Memory
pub mod Dual
pub mod Csv
pub mod Mysql
use eterrain_tf_upload.Base.{ℕ, Option, List}
use eterrain_tf_upload.Text.{Bytes}
use eterrain_tf_upload.Errors.{Error, Result}

-- `version` is the bit pattern of an int64.
pub record StateData (Uuid : Type 0) : Type 0 where
  pub org_id : Uuid
  pub name : Bytes
  pub content : Bytes
  pub lock_id : Bytes
  pub version : ℕ

pub record LockInfo : Type 0 where
  pub id : Bytes
  pub operation : Bytes
  pub info : Bytes
  pub who : Bytes
  pub version : Bytes
  pub created : Bytes
  pub path : Bytes

-- Storage, over the type S of the storage's states.
pub record Storage (Uuid S : Type 0) : Type 0 where
  pub get_state : Uuid → Bytes → S → Result (StateData Uuid)
  pub put_state : Uuid → Bytes → Bytes → S → S × Option Error
  pub delete_state : Uuid → Bytes → S → S × Option Error
  pub lock_state : Uuid → Bytes → LockInfo → S → S × Option Error
  pub unlock_state : Uuid → Bytes → Bytes → S → S × Option Error
  pub get_lock : Uuid → Bytes → S → Result LockInfo

-- DataStorage, over the type Row of the uploaded maps and the type Upload of what is read back.
pub record DataStorage (Uuid Row Upload S : Type 0) : Type 0 where
  pub append_data : Uuid → Row → S → S × Option Error
  pub get_org_data : Uuid → S → S × Result (List Upload)
