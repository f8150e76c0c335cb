-- ===== src/Testutil/InitConfig.antt =====
-- What the key generator reads of the file that WriteInitConfig writes.
use mathlib.Core.List.{append_assoc, append-nil}
use eterrain_tf_upload.Base.{
  ℕ, ◌+◌, ◌≤◌, ◌<◌, ◌≡◌, ◌∙◌, refl, ap, sym, Bool, true, false, Option, none, some, List, [], ◌∷◌,
  ◌++◌, arith, All, every, length, take_all,
}
use eterrain_tf_upload.Text.{Bytes, equal, trim_space}
use eterrain_tf_upload.Text.Visible.{visible, every-visible, trim_space-visible}
use eterrain_tf_upload.Errors.{ok}
use eterrain_tf_upload.Uuid.{UuidLib}
use eterrain_tf_upload.Io.{max_line}
use eterrain_tf_upload.Io.Lines.{IsLine, unlines, unlines-append, scan_lines-unlines}
use eterrain_tf_upload.Auth.Config.{is_skipped, is_header}
use eterrain_tf_upload.Auth.FileStore.Load.{line_of}
use eterrain_tf_upload.Keygen.{OrgConfig, save, read_lines, read_init_config}
use eterrain_tf_upload.Keygen.Generate.Written.{
  header_line, header_line-IsLine, line_of-header_line,
}
use eterrain_tf_upload.Keygen.Generate.Sections.{All-append}
use eterrain_tf_upload.Testutil.{write_init_orgs, write_init_config}

-- A key that the file can hold: visible ASCII on one line, which is no comment and no header.
pub record IsKey (k : Bytes) : Type 0 where
  pub is_visible : every visible k ≡ true
  pub no_comment : is_skipped k ≡ false
  pub no_header : is_header k ≡ false
  pub is_short : length k < max_line

IsKey-IsLine : (ks : List Bytes) → All IsKey ks → All IsLine ks
IsKey-IsLine [] h = tt
IsKey-IsLine (k ∷ ks) h = (
  record { is_printable = every-visible k h.0.is_visible; is_short = h.0.is_short },
  IsKey-IsLine ks h.1,
)

abbrev separator : Bool → List Bytes
separator true = []
separator false = [] ∷ []

module _ (lib : UuidLib) where
  open lib use {Uuid, parse, to_string}

  init_lines : Bool → List (OrgConfig Uuid) → List Bytes
  init_lines first [] = []
  init_lines first (org ∷ orgs) =
      separator first
      ++ (header_line (to_string org.org_id) ∷ (org.api_keys ++ init_lines false orgs))

  abbrev pub HasKeys : OrgConfig Uuid → Type 0
  HasKeys org = All IsKey org.api_keys

  header_start :
      (id t : Bytes) → (b'[' ∷ (id ++ (b']' ∷ b'\n' ∷ []))) ++ t ≡ header_line id ++ (b'\n' ∷ t)
  header_start id t =
      ap (◌∷◌ b'[')
        (append_assoc id (b']' ∷ b'\n' ∷ []) t ∙ sym (append_assoc id (b']' ∷ []) (b'\n' ∷ t)))

  write_init_orgs-lines :
      (first : Bool) (orgs : List (OrgConfig Uuid))
      → write_init_orgs lib first orgs ≡ unlines (init_lines first orgs)
  unfolding write_init_orgs init_lines unlines
  write_init_orgs-lines first [] = refl
  write_init_orgs-lines true (org ∷ orgs) = ground (
    arith,
    write_init_orgs-lines false orgs,
    unlines-append org.api_keys (init_lines false orgs),
    header_start (to_string org.org_id) (unlines org.api_keys ++ write_init_orgs lib false orgs),
  )
  write_init_orgs-lines false (org ∷ orgs) = ground (
    arith,
    write_init_orgs-lines false orgs,
    unlines-append org.api_keys (init_lines false orgs),
    header_start (to_string org.org_id) (unlines org.api_keys ++ write_init_orgs lib false orgs),
  )

  init_lines-IsLine :
      (first : Bool) (orgs : List (OrgConfig Uuid))
      → All HasKeys orgs
      → All IsLine (init_lines first orgs)
  unfolding init_lines
  init_lines-IsLine first [] h = tt
  init_lines-IsLine true (org ∷ orgs) h = (
    header_line-IsLine lib org.org_id,
    All-append IsLine org.api_keys (init_lines false orgs) (IsKey-IsLine org.api_keys h.0)
        (init_lines-IsLine false orgs h.1),
  )
  init_lines-IsLine false (org ∷ orgs) h = (
    record { is_printable = refl; is_short = omega arith },
    (
      header_line-IsLine lib org.org_id,
      All-append IsLine org.api_keys (init_lines false orgs) (IsKey-IsLine org.api_keys h.0)
          (init_lines-IsLine false orgs h.1),
    ),
  )

  abbrev added : OrgConfig Uuid → List Bytes → OrgConfig Uuid
  added org ks = record org { api_keys = org.api_keys ++ ks }

  read_lines-key :
      (k : Bytes) (rest : List Bytes) (done : List (OrgConfig Uuid)) (org : OrgConfig Uuid) (n : ℕ)
      → IsKey k
      → read_lines lib done (some org) n (k ∷ rest)
        ≡ read_lines lib done (some (added org (k ∷ []))) (n + 1) rest
  unfolding read_lines
  read_lines-key k rest done org n h =
      ground (arith, trim_space-visible k h.is_visible, h.no_comment, h.no_header)

  -- The keys of a section are added to its organization.
  read_lines-keys :
      (ks rest : List Bytes) (done : List (OrgConfig Uuid)) (org : OrgConfig Uuid) (n m : ℕ)
      → n + length ks ≡ m
      → All IsKey ks
      → read_lines lib done (some org) n (ks ++ rest)
        ≡ read_lines lib done (some (added org ks)) m rest
  read_lines-keys [] rest done org n m e h =
      let e' : n ≡ m = omega arith in ground (arith, append-nil org.api_keys)
  read_lines-keys (k ∷ ks) rest done org n m e h =
      read_lines-key k (ks ++ rest) done org n h.0
      ∙ read_lines-keys ks rest done (added org (k ∷ [])) (n + 1) m (omega arith) h.1
      ∙ ap (λ t. read_lines lib done (some (record org { api_keys = t })) m rest)
          (append_assoc org.api_keys (k ∷ []) ks)

  read_lines-blank :
      (rest : List Bytes) (done : List (OrgConfig Uuid)) (current : Option (OrgConfig Uuid)) (n : ℕ)
      → read_lines lib done current n ([] ∷ rest) ≡ read_lines lib done current (n + 1) rest
  unfolding read_lines is_skipped equal trim_space
  read_lines-blank rest done current n = refl

  read_lines-header :
      (u : Uuid) (rest : List Bytes) (done : List (OrgConfig Uuid))
      (current : Option (OrgConfig Uuid)) (n : ℕ)
      → read_lines lib done current n (header_line (to_string u) ∷ rest)
        ≡ read_lines lib
            (save done current)
            (some (record { org_id = u; api_keys = [] }))
            (n + 1)
            rest
  unfolding read_lines line_of
  read_lines-header u rest done current n = ground (arith, line_of-header_line lib u)

  abbrev section : OrgConfig Uuid → List Bytes → List Bytes
  section org rest = header_line (to_string org.org_id) ∷ (org.api_keys ++ rest)

  read_lines-section :
      (org : OrgConfig Uuid) (rest : List Bytes) (done : List (OrgConfig Uuid))
      (current : Option (OrgConfig Uuid)) (n : ℕ)
      → HasKeys org
      → read_lines lib done current n (section org rest)
        ≡ read_lines lib (save done current) (some org) (n + 1 + length org.api_keys) rest
  read_lines-section org rest done current n h =
      read_lines-header org.org_id (org.api_keys ++ rest) done current n
      ∙ read_lines-keys org.api_keys rest (save done current)
          (record { org_id = org.org_id; api_keys = [] }) (n + 1) _ refl h

  save-append :
      (done : List (OrgConfig Uuid)) (current : Option (OrgConfig Uuid)) (org : OrgConfig Uuid)
      (orgs : List (OrgConfig Uuid))
      → save (save done current) (some org) ++ orgs ≡ save done current ++ (org ∷ orgs)
  unfolding save
  save-append done current org orgs = append_assoc (save done current) (org ∷ []) orgs

  -- The reader ends with the organizations that it had and those of the lines.
  read_lines-init_lines :
      (first : Bool) (orgs done : List (OrgConfig Uuid)) (current : Option (OrgConfig Uuid)) (n : ℕ)
      → All HasKeys orgs
      → read_lines lib done current n (init_lines first orgs) ≡ ok (save done current ++ orgs)
  unfolding init_lines read_lines
  read_lines-init_lines first [] done current n h = ap ok (sym (append-nil (save done current)))
  read_lines-init_lines true (org ∷ orgs) done current n h =
      read_lines-section org (init_lines false orgs) done current n h.0
      ∙ read_lines-init_lines false orgs (save done current) (some org) _ h.1
      ∙ ap ok (save-append done current org orgs)
  read_lines-init_lines false (org ∷ orgs) done current n h =
      read_lines-blank (section org (init_lines false orgs)) done current n
      ∙ read_lines-section org (init_lines false orgs) done current (n + 1) h.0
      ∙ read_lines-init_lines false orgs (save done current) (some org) _ h.1
      ∙ ap ok (save-append done current org orgs)

  -- If every key is visible ASCII on one line, and neither a comment nor a header, and the disk takes
  -- the whole file, then WriteInitConfig succeeds, and readInitConfig of the key generator reads the
  -- very organizations from its file, in their order, those without keys and those that stand twice
  -- included.
  pub read-write_init_config :
      (orgs : List (OrgConfig Uuid)) (room : ℕ)
      → All HasKeys orgs
      → length (write_init_orgs lib true orgs) ≤ room
      → (output : Bytes) × (_ : write_init_config lib none room orgs ≡ (some output, none))
        × (read_init_config lib (ok (record { content = output; failure = none })) ≡ ok orgs)
  unfolding write_init_config read_init_config save
  read-write_init_config orgs room h fits =
      let text = write_init_orgs-lines true orgs in
      let read = scan_lines-unlines (init_lines true orgs) (init_lines-IsLine true orgs h) in
      (
        write_init_orgs lib true orgs,
        ground (arith, take_all room (write_init_orgs lib true orgs) fits),
        ap (λ t. read_init_config lib (ok (record { content = t; failure = none }))) text
            ∙ ground (arith, read, read_lines-init_lines true orgs [] none 0 h),
      )
