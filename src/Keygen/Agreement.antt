-- ===== src/Keygen/Agreement.antt =====
-- The key generator and the service read the same text the same way.
use eterrain_tf_upload.Base.{
  ◌≢◌, ◌⊎◌, ◌∙◌, sym, ap, ◌≡◌, refl, ℕ, ◌+◌, Bool, true, false, Option, none, some, List, [], ◌∷◌,
  ◌++◌, arith, Option-cases, inl, inr, if◌then◌else◌,
}
use mathlib.Core.List.{append-nil, append_assoc}
use eterrain_tf_upload.Text.{Bytes, trim_space}
use eterrain_tf_upload.Errors.{wrapf, Result-cases, Error, Result, ok, err}
use eterrain_tf_upload.Uuid.{UuidLib}
use eterrain_tf_upload.Io.{Stream, scan_lines}
use eterrain_tf_upload.Auth.Config.{header_text}
use eterrain_tf_upload.Auth.FileStore.{load_from_file, keys_of}
use eterrain_tf_upload.Auth.FileStore.Load.{load_from_file_iff, keys_under, line_of, is_valid}
use eterrain_tf_upload.Keygen.{save, read_init_config, OrgConfig, read_lines}

module _ (lib : UuidLib) where
  open lib use {Uuid, uuid_eq, parse}

  -- The keys of an organization in all of its sections.
  unfoldable pub keys_in : Uuid → List (OrgConfig Uuid) → List Bytes
  keys_in u [] = []
  keys_in u (org ∷ orgs) = (if uuid_eq.beq org.org_id u then org.api_keys else []) ++ keys_in u orgs

  keys_in-append :
      (u : Uuid) (xs ys : List (OrgConfig Uuid))
      → keys_in u (xs ++ ys) ≡ keys_in u xs ++ keys_in u ys
  unfolding keys_in
  keys_in-append u [] ys = refl
  keys_in-append u (x ∷ xs) ys =
      ap (λ r. (if uuid_eq.beq x.org_id u then x.api_keys else []) ++ r) (keys_in-append u xs ys)
      ∙ sym (
          append_assoc (if uuid_eq.beq x.org_id u then x.api_keys else []) (keys_in u xs)
            (keys_in u ys))

  abbrev id_of : Option (OrgConfig Uuid) → Option Uuid
  id_of none = none
  id_of (some org) = some org.org_id

  abbrev is_ok : {A : Type 0} → Result A → Bool
  is_ok (ok a) = true
  is_ok (err e) = false

  abbrev orgs_of : Result (List (OrgConfig Uuid)) → List (OrgConfig Uuid)
  orgs_of (ok orgs) = orgs
  orgs_of (err e) = []

  abbrev opened : Uuid → OrgConfig Uuid
  opened v = record { org_id = v; api_keys = [] }

  abbrev added : OrgConfig Uuid → Bytes → OrgConfig Uuid
  added org k = record org { api_keys = org.api_keys ++ k ∷ [] }

  is_ok-read_lines :
      (texts : List Bytes) (orgs : List (OrgConfig Uuid)) (current : Option (OrgConfig Uuid))
      (n : ℕ)
      → is_ok (read_lines lib orgs current n texts) ≡ is_valid lib (id_of current) texts
  unfolding read_lines is_valid line_of
  is_ok-read_lines [] orgs current n = refl
  is_ok-read_lines (text ∷ texts) orgs none n =
      let line = trim_space text in
      elim (Option-cases (parse (header_text line))) [
        | inl e ↦ ground (arith, is_ok-read_lines texts orgs none (n + 1))
        | inr (v, e) ↦ ground (
          arith,
          is_ok-read_lines texts orgs none (n + 1),
          is_ok-read_lines texts orgs (some (opened v)) (n + 1),
        )
      ]
  is_ok-read_lines (text ∷ texts) orgs (some org) n =
      let line = trim_space text in
      elim (Option-cases (parse (header_text line))) [
        | inl e ↦ ground (
          arith,
          is_ok-read_lines texts orgs (some org) (n + 1),
          is_ok-read_lines texts orgs (some (added org line)) (n + 1),
        )
        | inr (v, e) ↦ ground (
          arith,
          is_ok-read_lines texts orgs (some org) (n + 1),
          is_ok-read_lines texts orgs (some (added org line)) (n + 1),
          is_ok-read_lines texts (orgs ++ org ∷ []) (some (opened v)) (n + 1),
        )
      ]

  keys_in-opened :
      (u v : Uuid) (orgs : List (OrgConfig Uuid))
      → keys_in u (save orgs (some (opened v))) ≡ keys_in u orgs
  unfolding save keys_in
  keys_in-opened u v orgs =
      ground (arith, keys_in-append u orgs (opened v ∷ []), append-nil (keys_in u orgs))

  keys_in-added :
      (u : Uuid) (orgs : List (OrgConfig Uuid)) (org : OrgConfig Uuid) (k : Bytes)
      → keys_in u (save orgs (some (added org k)))
        ≡ keys_in u (save orgs (some org)) ++ (if uuid_eq.beq org.org_id u then k ∷ [] else [])
  unfolding save keys_in
  keys_in-added u orgs org k = ground (
    arith,
    keys_in-append u orgs (added org k ∷ []),
    keys_in-append u orgs (org ∷ []),
    append-nil org.api_keys,
    append-nil (org.api_keys ++ k ∷ []),
    append-nil (keys_in u orgs),
    append_assoc (keys_in u orgs) org.api_keys (k ∷ []),
  )

  keys_in-read_lines :
      (u : Uuid) (texts : List Bytes) (orgs : List (OrgConfig Uuid))
      (current : Option (OrgConfig Uuid)) (n : ℕ)
      → is_valid lib (id_of current) texts ≡ true
      → keys_in u (orgs_of (read_lines lib orgs current n texts))
        ≡ keys_in u (save orgs current) ++ keys_under lib u (id_of current) texts
  unfolding read_lines is_valid keys_under line_of
  keys_in-read_lines u [] orgs current n h = sym (append-nil (keys_in u (save orgs current)))
  keys_in-read_lines u (text ∷ texts) orgs none n h =
      let line = trim_space text in
      elim (Option-cases (parse (header_text line))) [
        | inl e ↦ ground (arith, keys_in-read_lines u texts orgs none (n + 1))
        | inr (v, e) ↦ ground (
          arith,
          keys_in-read_lines u texts orgs none (n + 1),
          keys_in-read_lines u texts (save orgs none) (some (opened v)) (n + 1),
          keys_in-opened u v (save orgs none),
        )
      ]
  keys_in-read_lines u (text ∷ texts) orgs (some org) n h =
      let line = trim_space text in
      let own = if uuid_eq.beq org.org_id u then line ∷ [] else [] in
      let before = keys_in u (save orgs (some org)) in
      let grown = keys_in-added u orgs org line in
      let regrouped = append_assoc before own (keys_under lib u (some org.org_id) texts) in
      elim (Option-cases (parse (header_text line))) [
        | inl e ↦ ground (
          arith,
          keys_in-read_lines u texts orgs (some org) (n + 1),
          keys_in-read_lines u texts orgs (some (added org line)) (n + 1),
          grown,
          regrouped,
        )
        | inr (v, e) ↦ ground (
          arith,
          keys_in-read_lines u texts orgs (some org) (n + 1),
          keys_in-read_lines u texts orgs (some (added org line)) (n + 1),
          grown,
          regrouped,
          keys_in-read_lines u texts (save orgs (some org)) (some (opened v)) (n + 1),
          keys_in-opened u v (save orgs (some org)),
        )
      ]

  -- On every file that opens, readInitConfig and LoadFromFile agree: either both succeed, and the keys of
  -- each organization are the same and in the same order, or both return an error.
  pub read_init_config_cases :
      (file : Stream)
      → ((orgs : List (OrgConfig Uuid)) × (read_init_config lib (ok file) ≡ ok orgs)
          × ((load_from_file lib (ok file) []).1 ≡ none)
          × ((u : Uuid)
              → keys_of ⦃uuid_eq = uuid_eq⦄ u (load_from_file lib (ok file) []).0 ≡ keys_in u orgs))
        ⊎ ((e : Error) × (read_init_config lib (ok file) ≡ err e)
            × ((load_from_file lib (ok file) []).1 ≢ none))
  unfolding read_init_config keys_in save
  read_init_config_cases file =
      let lines = (scan_lines file).0 in
      let (keys, faults) = load_from_file_iff lib file [] in
      let valid = is_ok-read_lines lines [] none 0 in
      elim (Result-cases (read_lines lib [] none 0 lines)) [
        | inr (e, h) ↦ inr (e, ground arith, λ p. ground (arith, faults.0 p, valid, h))
        | inl (orgs, h) ↦ elim (Option-cases (scan_lines file).1) [
          | inr (e, k) ↦
              inr (wrapf "error reading file: " e, ground arith, λ p. ground (arith, faults.0 p, k))
          | inl k ↦ inl (
            orgs,
            ground arith,
            ground (arith, faults.1, valid, h, k),
            λ u.
                let found : is_valid lib none lines ≡ true = ground (arith, valid, h) in
                keys u
                ∙ sym (keys_in-read_lines u lines [] none 0 found)
                ∙ ap (λ x. keys_in u (orgs_of x)) h,
          )
        ]
      ]
