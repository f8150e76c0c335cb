-- ===== src/Auth/FileStore/Validate.antt =====
-- Which keys ValidateCredentials of FileStore accepts.
use eterrain_tf_upload.Base.{
  ap, ◌∙◌, sym, ◌≡◌, ◌≢◌, ◌↔◌, ◌⊎◌, refl, true, false, none, some, List, [], ◌∷◌, ◌++◌, arith, Eq,
  All, Bool-cases, inl, inr,
}
use eterrain_tf_upload.Text.{Bytes, equal, equal_iff}
use eterrain_tf_upload.Errors.{Error, wrapf}
use eterrain_tf_upload.Maps.{Map}
use eterrain_tf_upload.Auth.FileStore.{
  Comparison, matched, mismatched, broken, is_bcrypt, check_keys, keys_of, validate_credentials,
}

module _ (compare_hash : Bytes → Bytes → Comparison) (api_key : Bytes) where
  -- A stored key that is the hash of the given one, or is not hashed and equal to it.
  abbrev pub Accepts : Bytes → Type 0
  Accepts k =
      ((is_bcrypt k ≡ true) × (compare_hash k api_key ≡ matched))
      ⊎ ((is_bcrypt k ≡ false) × (k ≡ api_key))

  -- A stored key that is the hash of another, or is not hashed and different.
  abbrev pub Rejects : Bytes → Type 0
  Rejects k =
      ((is_bcrypt k ≡ true) × (compare_hash k api_key ≡ mismatched))
      ⊎ ((is_bcrypt k ≡ false) × (k ≢ api_key))

  -- A stored key that looks hashed and that bcrypt cannot read.
  abbrev pub Breaks : Bytes → Error → Type 0
  Breaks k e = (is_bcrypt k ≡ true) × (compare_hash k api_key ≡ broken e)

  Comparison-cases :
      (c : Comparison) → (c ≡ matched) ⊎ (c ≡ mismatched) ⊎ ((e : Error) × (c ≡ broken e))
  Comparison-cases matched = inl refl
  Comparison-cases mismatched = inr (inl refl)
  Comparison-cases (broken e) = inr (inr (e, refl))

  verdict : (k : Bytes) → Accepts k ⊎ Rejects k ⊎ ((e : Error) × Breaks k e)
  verdict k = elim (Bool-cases (is_bcrypt k)) [
    | inl h ↦ elim (Comparison-cases (compare_hash k api_key)) [
      | inl c ↦ inl (inl (h, c))
      | inr (inl c) ↦ inr (inl (inl (h, c)))
      | inr (inr (e, c)) ↦ inr (inr (e, (h, c)))
    ]
    | inr h ↦ elim (Bool-cases (equal k api_key)) [
      | inl c ↦ inl (inr (h, (equal_iff k api_key).0 c))
      | inr c ↦ inr (inl (inr (h, λ p. cc ((equal_iff k api_key).1 p, c))))
    ]
  ]

  check-Accepts :
      (k : Bytes) (ks : List Bytes)
      → Accepts k
      → check_keys compare_hash api_key (k ∷ ks) ≡ (true, none)
  unfolding check_keys
  check-Accepts k ks (inl (h, c)) = ground arith
  check-Accepts k ks (inr (h, c)) = ground (arith, (equal_iff k api_key).1 c)

  check-Rejects :
      (k : Bytes) (ks : List Bytes)
      → Rejects k
      → check_keys compare_hash api_key (k ∷ ks) ≡ check_keys compare_hash api_key ks
  unfolding check_keys
  check-Rejects k ks (inl (h, c)) = ground arith
  check-Rejects k ks (inr (h, c)) = ground (arith, equal_iff k api_key)

  check-Breaks :
      (k : Bytes) (ks : List Bytes) (e : Error)
      → Breaks k e
      → check_keys compare_hash api_key (k ∷ ks)
        ≡ (false, some (wrapf "bcrypt comparison failed: " e))
  unfolding check_keys
  check-Breaks k ks e h = ground arith

  -- Some key accepts, and those before it reject.
  pub record Accepted (keys : List Bytes) : Type 0 where
    pub before : List Bytes
    pub key : Bytes
    pub after : List Bytes
    pub splits : keys ≡ before ++ (key ∷ after)
    pub rejected : All Rejects before
    pub accepts : Accepts key

  accepted :
      (keys : List Bytes) → check_keys compare_hash api_key keys ≡ (true, none) → Accepted keys
  unfolding check_keys
  accepted [] h = cc
  accepted (k ∷ ks) h = elim (verdict k) [
    | inl a ↦ record { before = []; key = k; after = ks; splits = refl; rejected = tt; accepts = a }
    | inr (inl r) ↦
        let later = accepted ks (sym (check-Rejects k ks r) ∙ h) in
        record {
          before = k ∷ later.before;
          key = later.key;
          after = later.after;
          splits = ap (◌∷◌ k) later.splits;
          rejected = (r, later.rejected);
          accepts = later.accepts;
        }
    | inr (inr (e, b)) ↦ cc (check-Breaks k ks e b, h)
  ]

  accepting :
      (before : List Bytes) (key : Bytes) (after : List Bytes)
      → All Rejects before
      → Accepts key
      → check_keys compare_hash api_key (before ++ (key ∷ after)) ≡ (true, none)
  accepting [] key after r a = check-Accepts key after a
  accepting (k ∷ before) key after r a = check-Rejects k _ r.0 ∙ accepting before key after r.1 a

  All-Rejects :
      (keys : List Bytes) → check_keys compare_hash api_key keys ≡ (false, none) → All Rejects keys
  All-Rejects [] h = tt
  All-Rejects (k ∷ ks) h = elim (verdict k) [
    | inl a ↦ cc (check-Accepts k ks a, h)
    | inr (inl r) ↦ (r, All-Rejects ks (sym (check-Rejects k ks r) ∙ h))
    | inr (inr (e, b)) ↦ cc (check-Breaks k ks e b, h)
  ]

  rejecting :
      (keys : List Bytes) → All Rejects keys → check_keys compare_hash api_key keys ≡ (false, none)
  unfolding check_keys
  rejecting [] r = refl
  rejecting (k ∷ ks) r = check-Rejects k ks r.0 ∙ rejecting ks r.1

  module _ {Uuid : Type 0} ⦃uuid_eq : Eq Uuid⦄ (org_id : Uuid)
      (credentials : Map Uuid (List Bytes)) where
    pub validate-check :
        validate_credentials compare_hash org_id api_key credentials
        ≡ check_keys compare_hash api_key (keys_of org_id credentials)
    unfolding validate_credentials
    validate-check = ground arith

    -- A key is valid for an organization exactly when some key on record accepts it and every key
    -- before that one rejects it; it is refused with no error exactly when every key on record rejects
    -- it.
    pub validate_iff :
        ((validate_credentials compare_hash org_id api_key credentials ≡ (true, none))
          ↔ Accepted (keys_of org_id credentials))
        × ((validate_credentials compare_hash org_id api_key credentials ≡ (false, none))
            ↔ All Rejects (keys_of org_id credentials))
    validate_iff = (
      (
        λ h. accepted (keys_of org_id credentials) (sym validate-check ∙ h),
        λ a. validate-check ∙ rw a.splits (accepting a.before a.key a.after a.rejected a.accepts),
      ),
      (
        λ h. All-Rejects (keys_of org_id credentials) (sym validate-check ∙ h),
        λ r. validate-check ∙ rejecting (keys_of org_id credentials) r,
      ),
    )
