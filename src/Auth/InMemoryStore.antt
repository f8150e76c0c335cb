-- ===== src/Auth/InMemoryStore.antt =====
-- InMemoryStore of internal/auth/store.go. Each method holds the lock for its whole body.
use eterrain_tf_upload.Base.{
  [], inr, inl, refl, Option-cases, ◌≡◌, ◌≢◌, ◌↔◌, Bool, true, false, Option, none, some, arith, Eq,
  if◌then◌else◌,
}
use eterrain_tf_upload.Text.{Bytes, equal, equal_iff}
use eterrain_tf_upload.Errors.{Error}
use eterrain_tf_upload.Maps.{Map, lookup, insert, remove, lookup-insert, lookup-remove}

-- NewInMemoryStore
unfoldable pub new_in_memory_store : (Uuid : Type 0) → Map Uuid Bytes
new_in_memory_store Uuid = []

module _ {Uuid : Type 0} ⦃uuid_eq : Eq Uuid⦄ where
  unfoldable pub add_credentials : Uuid → Bytes → Map Uuid Bytes → Map Uuid Bytes
  add_credentials org_id api_key credentials = insert org_id api_key credentials

  unfoldable pub remove_credentials : Uuid → Map Uuid Bytes → Map Uuid Bytes
  remove_credentials org_id credentials = remove org_id credentials

  unfoldable pub validate_credentials : Uuid → Bytes → Map Uuid Bytes → Bool × Option Error
  validate_credentials org_id api_key credentials = elim (lookup org_id credentials) [
    | none ↦ (false, none)
    | some stored_key ↦ if equal stored_key api_key then (true, none) else (false, none)
  ]

  -- A key is valid for an organization exactly when it is the key on record, and there is no error.
  validates :
      (u : Uuid) (k : Bytes) (m : Map Uuid Bytes)
      → ((validate_credentials u k m ≡ (true, none)) ↔ (lookup u m ≡ some k))
        × ((validate_credentials u k m).1 ≡ none)
  unfolding validate_credentials
  validates u k m = elim (Option-cases (lookup u m)) [
    | inl e ↦ ((λ h. ground arith, λ h. ground arith), ground arith)
    | inr (s, e) ↦
        ((λ h. ground (arith, equal_iff s k), λ h. ground (arith, equal_iff s k)), ground arith)
  ]

  -- After AddCredentials exactly the new key of the organization is valid, after RemoveCredentials
  -- none is, and of another organization the validity of any key is what it was.
  pub validate-add-remove :
      (u v : Uuid) (k l : Bytes) (m : Map Uuid Bytes)
      → u ≢ v
      → ((validate_credentials u l (add_credentials u k m) ≡ (true, none)) ↔ (l ≡ k))
        × (validate_credentials u l (remove_credentials u m) ≡ (false, none))
        × (validate_credentials v l (add_credentials u k m) ≡ validate_credentials v l m)
        × (validate_credentials v l (remove_credentials u m) ≡ validate_credentials v l m)
  unfolding validate_credentials add_credentials remove_credentials
  validate-add-remove u v k l m ne =
      let self = (uuid_eq.beq_iff u u).1 refl in
      let added = lookup-insert u u k m in
      let removed = lookup-remove u u m in
      (
        (
          λ h. ground (arith, self, added, equal_iff k l),
          λ h. ground (arith, self, added, equal_iff k l),
        ),
        ground (arith, self, removed),
        ground (arith, ne, uuid_eq.beq_iff u v, lookup-insert u v k m),
        ground (arith, ne, uuid_eq.beq_iff u v, lookup-remove u v m),
      )
