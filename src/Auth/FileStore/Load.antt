-- ===== src/Auth/FileStore/Load.antt =====
-- What LoadFromFile reads from auth.cfg.
use eterrain_tf_upload.Errors.{Result, Error, ok, err}
use eterrain_tf_upload.Auth.FileStore.{
  new_file_store, Comparison, validate_credentials, load_from_file, keys_of, declare_org, add_key,
  load_lines,
}
use eterrain_tf_upload.Base.{
  refl, ◌↔◌, sym, ℕ, ◌+◌, ◌≡◌, Bool, true, false, Option, none, some, List, [], ◌∷◌, ◌++◌, arith,
  Option-cases, inl, inr, if◌then◌else◌,
}
use mathlib.Core.List.{append-nil, append_assoc}
use eterrain_tf_upload.Text.{Bytes, trim_space}
use eterrain_tf_upload.Io.{Stream, scan_lines}
use eterrain_tf_upload.Maps.{lookup-empty, Map, lookup-insert}
use eterrain_tf_upload.Uuid.{UuidLib}
use eterrain_tf_upload.Auth.Config.{is_skipped, is_header, header_text}

-- What a line of the file says.
pub data Line (Uuid : Type 0) : Type 0 where
  blank : Line Uuid
  header : Uuid → Line Uuid
  bad_header : Line Uuid
  key : Bytes → Line Uuid

module _ (lib : UuidLib) where
  open lib use {Uuid, uuid_eq, parse}

  abbrev header_of : Option Uuid → Line Uuid
  header_of none = bad_header
  header_of (some u) = header u

  unfoldable pub line_of : Bytes → Line Uuid
  line_of text =
      let line = trim_space text in
      if is_skipped line
      then blank
      else if is_header line
      then header_of (parse (header_text line))
      else key line

  -- The keys that stand in the sections of an organization, up to the first faulty line. `current` is
  -- the organization of the section at the start.
  unfoldable pub keys_under : Uuid → Option Uuid → List Bytes → List Bytes
  keys_under u current [] = []
  keys_under u current (text ∷ texts) =
      let same_section = keys_under u current texts in
      let next_section = λ (v : Uuid). keys_under u (some v) texts in
      elim (line_of text) [
        | blank ↦ same_section
        | bad_header ↦ []
        | header v ↦ next_section v
        | key k ↦ elim current [
          | none ↦ []
          | some v ↦ (if uuid_eq.beq v u then k ∷ [] else []) ++ same_section
        ]
      ]

  -- Every header holds a UUID, and no key stands before the first header.
  unfoldable pub is_valid : Option Uuid → List Bytes → Bool
  is_valid current [] = true
  is_valid current (text ∷ texts) =
      let same_section = is_valid current texts in
      let next_section = λ (v : Uuid). is_valid (some v) texts in
      elim (line_of text) [
        | blank ↦ same_section
        | bad_header ↦ false
        | header v ↦ next_section v
        | key k ↦ elim current [ none ↦ false | some v ↦ same_section ]
      ]

  keys_of-declare_org :
      (u v : Uuid) (m : Map Uuid (List Bytes))
      → keys_of ⦃uuid_eq = uuid_eq⦄ u (declare_org lib v m) ≡ keys_of ⦃uuid_eq = uuid_eq⦄ u m
  unfolding keys_of declare_org
  keys_of-declare_org u v m =
      ground (arith, uuid_eq.beq_iff v u, lookup-insert ⦃eq = uuid_eq⦄ v u [] m)

  keys_of-add_key :
      (u v : Uuid) (k : Bytes) (m : Map Uuid (List Bytes))
      → keys_of ⦃uuid_eq = uuid_eq⦄ u (add_key lib v k m)
        ≡ keys_of ⦃uuid_eq = uuid_eq⦄ u m ++ (if uuid_eq.beq v u then k ∷ [] else [])
  unfolding keys_of add_key
  keys_of-add_key u v k m = ground (
    arith,
    uuid_eq.beq_iff v u,
    lookup-insert ⦃eq = uuid_eq⦄ v u (keys_of ⦃uuid_eq = uuid_eq⦄ v m ++ k ∷ []) m,
    append-nil (keys_of ⦃uuid_eq = uuid_eq⦄ u m),
  )

  load_lines-keys :
      (u : Uuid) (texts : List Bytes) (m : Map Uuid (List Bytes)) (current : Option Uuid) (n : ℕ)
      → keys_of ⦃uuid_eq = uuid_eq⦄ u (load_lines lib m current n texts).0
        ≡ keys_of ⦃uuid_eq = uuid_eq⦄ u m ++ keys_under u current texts
  unfolding load_lines keys_under line_of
  load_lines-keys u [] m current n = sym (append-nil (keys_of ⦃uuid_eq = uuid_eq⦄ u m))
  load_lines-keys u (text ∷ texts) m current n =
      let found = keys_of ⦃uuid_eq = uuid_eq⦄ u m in
      let line = trim_space text in
      elim (Option-cases (parse (header_text line))) [
        | inl e ↦ elim (Option-cases current) [
          | inl c ↦ ground (arith, load_lines-keys u texts m current (n + 1), append-nil found)
          | inr (w, c) ↦ ground (
            arith,
            load_lines-keys u texts m current (n + 1),
            append-nil found,
            load_lines-keys u texts (add_key lib w line m) current (n + 1),
            keys_of-add_key u w line m,
            append_assoc found (if uuid_eq.beq w u then line ∷ [] else [])
                (keys_under u current texts),
          )
        ]
        | inr (v, e) ↦ elim (Option-cases current) [
          | inl c ↦ ground (
            arith,
            load_lines-keys u texts m current (n + 1),
            append-nil found,
            load_lines-keys u texts (declare_org lib v m) (some v) (n + 1),
            keys_of-declare_org u v m,
          )
          | inr (w, c) ↦ ground (
            arith,
            load_lines-keys u texts m current (n + 1),
            append-nil found,
            load_lines-keys u texts (declare_org lib v m) (some v) (n + 1),
            keys_of-declare_org u v m,
            load_lines-keys u texts (add_key lib w line m) current (n + 1),
            keys_of-add_key u w line m,
            append_assoc found (if uuid_eq.beq w u then line ∷ [] else [])
                (keys_under u current texts),
          )
        ]
      ]

  load_lines-is_valid :
      (texts : List Bytes) (m : Map Uuid (List Bytes)) (current : Option Uuid) (n : ℕ)
      → ((load_lines lib m current n texts).1 ≡ none) ↔ (is_valid current texts ≡ true)
  unfolding load_lines is_valid line_of
  load_lines-is_valid [] m current n = (λ h. refl, λ h. refl)
  load_lines-is_valid (text ∷ texts) m current n =
      let line = trim_space text in
      let same = load_lines-is_valid texts m current (n + 1) in
      let opened = λ (v : Uuid). load_lines-is_valid texts (declare_org lib v m) (some v) (n + 1) in
      let added = λ (w : Uuid). load_lines-is_valid texts (add_key lib w line m) current (n + 1) in
      elim (Option-cases (parse (header_text line))) [
        | inl e ↦ elim (Option-cases current) [
          | inl c ↦ (λ h. ground (arith, same.0), λ h. ground (arith, same.1))
          | inr (w, c) ↦
              (λ h. ground (arith, same.0, (added w).0), λ h. ground (arith, same.1, (added w).1))
        ]
        | inr (v, e) ↦ elim (Option-cases current) [
          | inl c ↦
              (λ h. ground (arith, same.0, (opened v).0), λ h. ground (arith, same.1, (opened v).1))
          | inr (w, c) ↦ (
            λ h. ground (arith, same.0, (opened v).0, (added w).0),
            λ h. ground (arith, same.1, (opened v).1, (added w).1),
          )
        ]
      ]

  -- After LoadFromFile on a file that opens, whatever credentials were there before, the keys of each
  -- organization are those that stand in its sections, up to the first faulty line, in the order of the
  -- file. It returns no error exactly when no line is faulty and the scanner met no error.
  pub load_from_file_iff :
      (file : Stream) (before : Map Uuid (List Bytes))
      → ((u : Uuid)
          → keys_of ⦃uuid_eq = uuid_eq⦄ u (load_from_file lib (ok file) before).0
            ≡ keys_under u none (scan_lines file).0)
        × (((load_from_file lib (ok file) before).1 ≡ none)
            ↔ ((is_valid none (scan_lines file).0 ≡ true) × ((scan_lines file).1 ≡ none)))
  unfolding load_from_file
  load_from_file_iff file before =
      let lines = (scan_lines file).0 in
      let valid = load_lines-is_valid lines [] none 0 in
      (
        λ u.
            unfold keys_of in
            ground (
              arith,
              load_lines-keys u lines [] none 0,
              lookup-empty {V = List Bytes} ⦃eq = uuid_eq⦄ u,
            ),
        (λ h. ground (arith, valid.0), λ h. ground (arith, valid.1)),
      )

  -- A load that cannot open the file leaves every key of every organization refused, whatever credentials were there before.
  pub validate-load_from_file-err :
      (e : Error) (compare_hash : Bytes → Bytes → Comparison) (u : Uuid) (k : Bytes)
      (before : Map Uuid (List Bytes))
      → validate_credentials ⦃uuid_eq = uuid_eq⦄ compare_hash u k
          (load_from_file lib (err e) before).0
        ≡ (false, none)
  unfolding load_from_file validate_credentials
  validate-load_from_file-err e compare_hash u k before =
      ground (arith, lookup-empty {V = List Bytes} ⦃eq = uuid_eq⦄ u)

  -- NewFileStore succeeds exactly with the credentials of a file that loads and can be watched.
  pub new_file_store_iff :
      (opened : Result Stream) (watcher_error add_error : Option Error)
      (credentials : Map Uuid (List Bytes))
      → (new_file_store lib opened watcher_error add_error ≡ ok credentials) ↔ (
          (load_from_file lib opened [] ≡ (credentials, none))
          × (watcher_error ≡ none)
          × (add_error ≡ none))
  unfolding new_file_store
  new_file_store_iff opened watcher_error add_error credentials =
      (λ h. ground (arith, h), λ h. ground (arith, h))
