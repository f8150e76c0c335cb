-- ===== src/Errors.antt =====
-- Go's `error` values: the sentinels of internal/storage/storage.go and of bcrypt, the results of
-- fmt.Errorf with and without %w, and errors that code outside the repository makes.
use eterrain_tf_upload.Base.{◌≡◌, ◌⊎◌, inl, inr, refl, ℕ, String, Bool, true, false, List}
use eterrain_tf_upload.Text.{Bytes}

-- A value that a format string prints.
pub data Arg : Type 0 where
  bytes : Bytes → Arg
  number : ℕ → Arg

-- ErrNotFound, ErrAlreadyLocked and ErrNotLocked
pub data Sentinel : Type 0 where
  not_found already_locked not_locked : Sentinel

pub data Error : Type 0 where
  sentinel : Sentinel → Error
  errorf : String → List Arg → Error
  wrapf : String → Error → Error
  wrapf_with : String → List Arg → Error → Error
  both : String → Error → Error → Error
  foreign : Bytes → Error

abbrev pub same_sentinel : Sentinel → Sentinel → Bool
same_sentinel not_found not_found = true
same_sentinel already_locked already_locked = true
same_sentinel not_locked not_locked = true
same_sentinel _ _ = false

-- errors.Is: an error is a target if it is that value, or wraps one that is.
unfoldable pub is_error : Error → Sentinel → Bool
is_error (sentinel s) t = same_sentinel s t
is_error (errorf f args) t = false
is_error (wrapf f e) t = is_error e t
is_error (wrapf_with f args e) t = is_error e t
is_error (both f a b) t = false
is_error (foreign m) t = false

-- A Go result pair (value, error) of which exactly one half is read.
pub data Result {ℓ} (A : Type ℓ) : Type ℓ where
  ok : A → Result A
  err : Error → Result A

pub Result-cases {ℓ} :
    {A : Type ℓ} (r : Result A) → ((a : A) × (r ≡ ok a)) ⊎ ((e : Error) × (r ≡ err e))
Result-cases (ok a) = inl (a, refl)
Result-cases (err e) = inr (e, refl)
