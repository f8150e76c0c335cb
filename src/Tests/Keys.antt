-- ===== src/Tests/Keys.antt =====
-- The key generator: a configuration of two organizations, with a hash that is constant but for two keys.
use eterrain_tf_upload.Base.{
  ◌++◌, ℕ, ◌≡◌, inl, inr, refl, sym, subst, Bool, true, false, none, List, [], ◌∷◌, arith, All,
  Bool-cases, length, if◌then◌else◌,
}
use eterrain_tf_upload.Text.{trim_space, Bytes, codes, equal, equal_iff}
use eterrain_tf_upload.Errors.{Result, ok}
use eterrain_tf_upload.Uuid.{two_uuids, bool_beq}
use eterrain_tf_upload.Auth.FileStore.{
  load_lines, add_key, declare_org, Comparison, matched, mismatched, is_bcrypt, keys_of,
  load_from_file,
}
use eterrain_tf_upload.Io.{Stream, scan_lines}
use eterrain_tf_upload.Maps.{lookup, insert}
use eterrain_tf_upload.Auth.Config.{is_skipped, is_header, header_text}
use eterrain_tf_upload.Keygen.{OrgConfig, read_init_config, read_lines, save}
use eterrain_tf_upload.Keygen.Generate.{auth_config}
use eterrain_tf_upload.Keygen.Generate.Bcrypt.{IsHash, BcryptLaws}
use eterrain_tf_upload.Keygen.Generate.Sections.{Short}

abbrev pub hash_of : Bytes → Bytes
hash_of k =
    if equal k (codes "first")
    then codes "$2a$12$abcdefghijklmnopqrstuvwxyzABCDEFGHIJKLMNOPQRSTUVWXYZ."
    else if equal k (codes "second")
    then codes "$2a$12$zbcdefghijklmnopqrstuvwxyzABCDEFGHIJKLMNOPQRSTUVWXYZ/"
    else codes "$2a$12$01234567890123456789012345678901234567890123456789012"

abbrev pub hash : ℕ → Bytes → Result Bytes
hash n k = ok (hash_of k)

abbrev pub compare_hash : Bytes → Bytes → Comparison
compare_hash h k = if equal h (hash_of k) then matched else mismatched

hash_of-IsHash : (k : Bytes) → IsHash (hash_of k)
unfolding is_bcrypt
hash_of-IsHash k = elim (Bool-cases (equal k (codes "first"))) [
  | inl e ↦ rw e (record { is_marked = refl; in_class = refl; is_60 = refl })
  | inr e ↦ elim (Bool-cases (equal k (codes "second"))) [
    | inl f ↦ rw (e, f) (record { is_marked = refl; in_class = refl; is_60 = refl })
    | inr f ↦ rw (e, f) (record { is_marked = refl; in_class = refl; is_60 = refl })
  ]
]

ok_injective : (a b : Bytes) → Path (Result Bytes) (ok a) (ok b) → a ≡ b
ok_injective a b e = cc e

pub hash-laws : BcryptLaws hash compare_hash
hash-laws = record {
  hash-short = λ n k h. (hash_of k, refl);
  hash-IsHash = λ n k h e. subst IsHash (ok_injective (hash_of k) h e) (hash_of-IsHash k);
  compare-hash =
      λ n k h e. ground (arith, (equal_iff h (hash_of k)).1 (sym (ok_injective (hash_of k) h e)));
  compare-other = λ n k h j e. elim (Bool-cases (equal h (hash_of j))) [
    | inl same ↦ inl (ground (arith, same))
    | inr other ↦ inr (ground (arith, other))
  ];
}

abbrev pub orgs : List (OrgConfig Bool)
orgs =
    record { org_id = true; api_keys = codes "first" ∷ codes "second" ∷ [] }
    ∷ record { org_id = false; api_keys = codes "third" ∷ [] }
    ∷ []

pub orgs-Short : All (λ (org : OrgConfig Bool). Short org.api_keys) orgs
orgs-Short = ((omega arith, (omega arith, tt)), ((omega arith, tt), tt))

abbrev pub input : Stream
input = record {
  content =
      codes "[11111111-2222-3333-4444-555555555555]"
      ++ (b'\n' ∷ (codes " first" ++ (b'\n' ∷ (codes "second" ++ (b'\n' ∷ [])))));
  failure = none;
}

abbrev pub listed_orgs : List (OrgConfig Bool)
listed_orgs = record { org_id = true; api_keys = codes "first" ∷ codes "second" ∷ [] } ∷ []

pub input-orgs : read_init_config two_uuids (ok input) ≡ ok listed_orgs
unfolding read_init_config read_lines save scan_lines is_skipped trim_space is_header header_text
input-orgs = refl

pub input-keys :
    keys_of ⦃uuid_eq = two_uuids.uuid_eq⦄ true (load_from_file two_uuids (ok input) []).0
    ≡ codes "first" ∷ codes "second" ∷ []
unfolding load_from_file keys_of bool_beq lookup load_lines scan_lines is_skipped trim_space
    is_header header_text add_key insert declare_org
input-keys = refl

abbrev pub all_room : ℕ
all_room = length (auth_config hash two_uuids listed_orgs).0
