-- ===== src/Storage/Memory/Keys.antt =====
-- The keys of the two maps: "org:name" tells organizations and names apart.
use eterrain_tf_upload.Base.{refl, true, ◌≡◌, Bool, ◌&&◌, ◌∷◌, arith}
use eterrain_tf_upload.Text.{Bytes, equal, equal_iff}
use eterrain_tf_upload.Text.Laws.{append-injective}
use eterrain_tf_upload.Uuid.{UuidLib, to_string-injective}
use eterrain_tf_upload.Storage.Memory.{state_key}

module _ (lib : UuidLib) where
  open lib use {Uuid, to_string, uuid_eq, length-to_string}

  -- Two pairs of an organization and a name have one key only if they are equal, whatever bytes the
  -- names hold.
  pub state_key-injective :
      (u v : Uuid) (a b : Bytes) → state_key lib u a ≡ state_key lib v b → (u ≡ v) × (a ≡ b)
  unfolding state_key
  state_key-injective u v a b e =
      let (texts, rests) =
        append-injective (to_string u) (to_string v) (b':' ∷ a) (b':' ∷ b)
          (cc (length-to_string u, length-to_string v)) e in
      (to_string-injective lib u v texts, cc)

  -- Is it the same organization and the same name?
  pub same : Uuid → Bytes → Uuid → Bytes → Bool
  same u a v b = uuid_eq.beq u v && equal a b

  pub equal-state_key :
      (u v : Uuid) (a b : Bytes) → equal (state_key lib u a) (state_key lib v b) ≡ same u a v b
  unfolding same
  equal-state_key u v a b = ground (
    arith,
    equal_iff (state_key lib u a) (state_key lib v b),
    uuid_eq.beq_iff u v,
    equal_iff a b,
    state_key-injective u v a b,
  )

  pub same-eq : (u v : Uuid) (a b : Bytes) → same u a v b ≡ true → (u ≡ v) × (a ≡ b)
  unfolding same
  same-eq u v a b h = ground (arith, uuid_eq.beq_iff u v, equal_iff a b)

  pub same_refl : (u : Uuid) (a : Bytes) → same u a u a ≡ true
  unfolding same
  same_refl u a = ground (arith, (uuid_eq.beq_iff u u).1 refl, (equal_iff a a).1 refl)
