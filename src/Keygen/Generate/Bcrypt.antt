-- ===== src/Keygen/Generate/Bcrypt.antt =====
-- What golang.org/x/crypto/bcrypt documents of its two functions.
use eterrain_tf_upload.Base.{ℕ, ◌≤◌, ◌≡◌, ◌⊎◌, Bool, true, ◌||◌, ◌==◌, length, every}
use eterrain_tf_upload.Text.{Bytes, within}
use eterrain_tf_upload.Errors.{Result, ok}
use eterrain_tf_upload.Auth.FileStore.{Comparison, matched, mismatched, is_bcrypt}

-- The alphabet of a hash: ./A-Za-z0-9 and the separator $
abbrev pub bcrypt_byte : ℕ → Bool
bcrypt_byte c = within b'.' b'9' c || within b'A' b'Z' c || within b'a' b'z' c || c == b'$'

-- A hash: 60 characters that begin with the mark of an algorithm.
pub record IsHash (h : Bytes) : Type 0 where
  pub is_marked : is_bcrypt h ≡ true
  pub in_class : every bcrypt_byte h ≡ true
  pub is_60 : length h ≡ 60

pub record BcryptLaws (hash : ℕ → Bytes → Result Bytes) (compare_hash : Bytes → Bytes → Comparison)
    : Type 0 where
  -- GenerateFromPassword takes passwords of up to 72 bytes.
  pub hash-short : (n : ℕ) (k : Bytes) → length k ≤ 72 → (h : Bytes) × (hash n k ≡ ok h)
  pub hash-IsHash : (n : ℕ) (k h : Bytes) → hash n k ≡ ok h → IsHash h
  -- CompareHashAndPassword accepts the password of a hash, and has no other error on a hash than the
  -- mismatch.
  pub compare-hash : (n : ℕ) (k h : Bytes) → hash n k ≡ ok h → compare_hash h k ≡ matched
  pub compare-other :
      (n : ℕ) (k h j : Bytes)
      → hash n k ≡ ok h
      → (compare_hash h j ≡ matched) ⊎ (compare_hash h j ≡ mismatched)
