-- ===== src/Keygen.antt =====
-- cmd/keygen/main.go: the reader of init-config.cfg, and the writer of auth.cfg in the child Generate. The
-- log lines are not modelled.
pub mod Agreement
pub mod Generate
pub mod Main
pub mod Random
use eterrain_tf_upload.Base.{ℕ, ◌+◌, Option, none, some, List, [], ◌∷◌, ◌++◌, if◌then◌else◌}
use eterrain_tf_upload.Text.{Bytes, trim_space}
use eterrain_tf_upload.Errors.{Error, errorf, wrapf, bytes, number, Result, ok, err}
use eterrain_tf_upload.Uuid.{UuidLib}
use eterrain_tf_upload.Io.{Stream, scan_lines}
use eterrain_tf_upload.Auth.Config.{is_skipped, is_header, header_text}

pub record OrgConfig (Uuid : Type 0) : Type 0 where
  pub org_id : Uuid
  pub api_keys : List Bytes

-- if currentOrg != nil { orgs = append(orgs, *currentOrg) }
unfoldable pub save :
    {Uuid : Type 0} → List (OrgConfig Uuid) → Option (OrgConfig Uuid) → List (OrgConfig Uuid)
save orgs none = orgs
save orgs (some current_org) = orgs ++ current_org ∷ []

module _ (lib : UuidLib) where
  open lib use {Uuid, parse}

  -- The loop over the lines, and the saving of the last organization
  unfoldable pub read_lines :
      List (OrgConfig Uuid)
      → Option (OrgConfig Uuid)
      → ℕ
      → List Bytes
      → Result (List (OrgConfig Uuid))
  unfolding save
  read_lines orgs current_org line_num [] = ok (save orgs current_org)
  read_lines orgs current_org line_num (text ∷ texts) =
      let n = line_num + 1 in
      let line = trim_space text in
      let skipped = read_lines orgs current_org n texts in
      let opened = λ (org_id : Uuid).
        read_lines (save orgs current_org) (some (record { org_id = org_id; api_keys = [] })) n
          texts in
      let added = λ (org : OrgConfig Uuid).
        read_lines orgs (some (record org { api_keys = org.api_keys ++ line ∷ [] })) n texts in
      if is_skipped line
      then skipped
      else if is_header line
      then elim (parse (header_text line)) [
        | none ↦
            err (errorf "invalid UUID on line %d: %s" (number n ∷ bytes (header_text line) ∷ []))
        | some org_id ↦ opened org_id
      ]
      else elim current_org [
        | none ↦
            err (errorf "API key on line %d appears before any org ID declaration" (number n ∷ []))
        | some org ↦ added org
      ]

  -- readInitConfig, on what os.Open gives
  unfoldable pub read_init_config : Result Stream → Result (List (OrgConfig Uuid))
  read_init_config (err e) = err (wrapf "failed to open file: " e)
  read_init_config (ok file) =
      let (lines, read_error) = scan_lines file in
      elim (read_lines [] none 0 lines) [
        | err e ↦ err e
        | ok orgs ↦ elim read_error [
          | some e ↦ err (wrapf "error reading file: " e)
          | none ↦ ok orgs
        ]
      ]
