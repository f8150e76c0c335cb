-- ===== src/Keygen/Generate/Sections.antt =====
-- The sections that generateAuthConfig writes, and what LoadFromFile makes of their lines.
use mathlib.Core.List.{append_assoc}
use eterrain_tf_upload.Base.{
  ℕ, ◌+◌, ◌≤◌, ◌≡◌, ◌∙◌, refl, ap, sym, subst, Bool, true, false, Option, none, some, List, [], ◌∷◌,
  ◌++◌, arith, All, length, if◌then◌else◌,
}
use eterrain_tf_upload.Text.{Bytes, equal, trim_space}
use eterrain_tf_upload.Errors.{Result, ok}
use eterrain_tf_upload.Uuid.{UuidLib}
use eterrain_tf_upload.Auth.Config.{is_skipped}
use eterrain_tf_upload.Auth.FileStore.Load.{blank, line_of, keys_under, is_valid}
use eterrain_tf_upload.Io.Lines.{IsLine, unlines, unlines-append}
use eterrain_tf_upload.Keygen.{OrgConfig}
use eterrain_tf_upload.Keygen.Agreement.{keys_in}
use eterrain_tf_upload.Keygen.Generate.{write_keys, write_orgs, hash_api_key}
use eterrain_tf_upload.Keygen.Generate.Bcrypt.{IsHash, BcryptLaws}
use eterrain_tf_upload.Keygen.Generate.Written.{
  header_line, header_line-IsLine, IsHash-IsLine, line_of-header_line, line_of-IsHash,
}
use eterrain_tf_upload.Auth.FileStore.{Comparison}

module _ (hash : ℕ → Bytes → Result Bytes) where
  -- Each of the second texts is a hash of the first at its place.
  unfoldable pub Hashes : List Bytes → List Bytes → Type 0
  Hashes [] [] = Unit
  Hashes [] (h ∷ hs) = ⊥
  Hashes (k ∷ ks) [] = ⊥
  Hashes (k ∷ ks) (h ∷ hs) = ((n : ℕ) × (hash n k ≡ ok h)) × Hashes ks hs

  Hashes-append :
      (ks hs ls is : List Bytes) → Hashes ks hs → Hashes ls is → Hashes (ks ++ ls) (hs ++ is)
  unfolding Hashes
  Hashes-append [] [] ls is p q = q
  Hashes-append [] (h ∷ hs) ls is p q = elim p [ ]
  Hashes-append (k ∷ ks) [] ls is p q = elim p [ ]
  Hashes-append (k ∷ ks) (h ∷ hs) ls is p q = (p.0, Hashes-append ks hs ls is p.1 q)

  Hashes_if :
      (b : Bool) (ks hs : List Bytes)
      → Hashes ks hs
      → Hashes (if b then ks else []) (if b then hs else [])
  unfolding Hashes
  Hashes_if true ks hs p = p
  Hashes_if false ks hs p = tt

pub All-append :
    {A : Type 0} (P : A → Type 0) (xs ys : List A) → All P xs → All P ys → All P (xs ++ ys)
All-append P [] ys hx hy = hy
All-append P (x ∷ xs) ys hx hy = (hx.0, All-append P xs ys hx.1 hy)

All-IsHash : (hs : List Bytes) → All IsHash hs → All IsLine hs
All-IsHash [] h = tt
All-IsHash (k ∷ hs) h = (IsHash-IsLine k h.0, All-IsHash hs h.1)

-- bcrypt takes these keys.
abbrev pub Short : List Bytes → Type 0
Short = All (λ k. length k ≤ 72)

module _ (hash : ℕ → Bytes → Result Bytes) (compare_hash : Bytes → Bytes → Comparison)
    (laws : BcryptLaws hash compare_hash) where
  -- The hashes that the loop over the keys writes.
  record Hashed (id : Bytes) (n : ℕ) (ks : List Bytes) : Type 0 where
    hashes : List Bytes
    next_call : ℕ
    text : write_keys hash id n ks ≡ (unlines hashes, next_call, none)
    each : Hashes hash ks hashes
    are_hashes : All IsHash hashes

  write_keys-Hashed : (id : Bytes) (n : ℕ) (ks : List Bytes) → Short ks → Hashed id n ks
  unfolding write_keys hash_api_key unlines Hashes
  write_keys-Hashed id n [] short = record {
    hashes = [];
    next_call = n;
    text = refl;
    each = tt;
    are_hashes = tt;
  }
  write_keys-Hashed id n (k ∷ ks) short =
      let (h, e) = laws.hash-short n k short.0 in
      let later = write_keys-Hashed id (n + 1) ks short.1 in
      record {
        hashes = h ∷ later.hashes;
        next_call = later.next_call;
        text = ground (arith, e, later.text);
        each = ((n, e), later.each);
        are_hashes = (laws.hash-IsHash n k h e, later.are_hashes);
      }

  module _ (lib : UuidLib) where
    open lib use {Uuid, uuid_eq, to_string}

    -- Hashes under a header.
    keys_under-hashes :
        (u v : Uuid) (hs rest : List Bytes)
        → All IsHash hs
        → keys_under lib u (some v) (hs ++ rest)
          ≡ (if uuid_eq.beq v u then hs else []) ++ keys_under lib u (some v) rest
    unfolding keys_under
    keys_under-hashes u v [] rest i = ground arith
    keys_under-hashes u v (h ∷ hs) rest i =
        ground (arith, line_of-IsHash lib h i.0, keys_under-hashes u v hs rest i.1)

    is_valid-hashes :
        (v : Uuid) (hs rest : List Bytes)
        → All IsHash hs
        → is_valid lib (some v) (hs ++ rest) ≡ is_valid lib (some v) rest
    unfolding is_valid
    is_valid-hashes v [] rest i = refl
    is_valid-hashes v (h ∷ hs) rest i =
        ground (arith, line_of-IsHash lib h i.0, is_valid-hashes v hs rest i.1)

    line_of_empty : line_of lib [] ≡ blank
    unfolding line_of is_skipped equal trim_space
    line_of_empty = refl

    -- The lines that the loop over the organizations writes, and what LoadFromFile makes of them.
    pub record Sections (first : Bool) (n : ℕ) (orgs : List (OrgConfig Uuid)) : Type 0 where
      pub lines : List Bytes
      pub text : write_orgs hash lib first n orgs ≡ (unlines lines, none)
      pub are_lines : All IsLine lines
      pub valid : (current : Option Uuid) → is_valid lib current lines ≡ true
      pub keys :
          (u : Uuid) (current : Option Uuid)
          → Hashes hash (keys_in lib u orgs) (keys_under lib u current lines)

    abbrev separator : Bool → List Bytes
    separator true = []
    separator false = [] ∷ []

    header_start :
        (id t : Bytes) → (b'[' ∷ (id ++ (b']' ∷ b'\n' ∷ []))) ++ t ≡ header_line id ++ (b'\n' ∷ t)
    header_start id t =
        ap (◌∷◌ b'[')
          (append_assoc id (b']' ∷ b'\n' ∷ []) t ∙ sym (append_assoc id (b']' ∷ []) (b'\n' ∷ t)))

    write_orgs-cons :
        (first : Bool) (n : ℕ) (org : OrgConfig Uuid) (orgs : List (OrgConfig Uuid))
        (hs : List Bytes) (m : ℕ) (lines : List Bytes)
        → write_keys hash (to_string org.org_id) n org.api_keys ≡ (unlines hs, m, none)
        → write_orgs hash lib false m orgs ≡ (unlines lines, none)
        → write_orgs hash lib first n (org ∷ orgs) ≡ (
          unlines (separator first ++ (header_line (to_string org.org_id) ∷ (hs ++ lines))),
          none,
        )
    unfolding write_orgs unlines
    write_orgs-cons true n org orgs hs m lines p q = ground (
      arith,
      unlines-append hs lines,
      header_start (to_string org.org_id) (unlines hs ++ unlines lines),
    )
    write_orgs-cons false n org orgs hs m lines p q = ground (
      arith,
      unlines-append hs lines,
      header_start (to_string org.org_id) (unlines hs ++ unlines lines),
    )

    is_valid-section :
        (first : Bool) (v : Uuid) (current : Option Uuid) (hs lines : List Bytes)
        → All IsHash hs
        → is_valid lib current (separator first ++ (header_line (to_string v) ∷ (hs ++ lines)))
          ≡ is_valid lib (some v) lines
    unfolding is_valid
    is_valid-section true v current hs lines i =
        ground (arith, line_of-header_line lib v, is_valid-hashes v hs lines i)
    is_valid-section false v current hs lines i =
        ground (arith, line_of_empty, line_of-header_line lib v, is_valid-hashes v hs lines i)

    keys_under-section :
        (first : Bool) (u v : Uuid) (current : Option Uuid) (hs lines : List Bytes)
        → All IsHash hs
        → keys_under lib u current (separator first ++ (header_line (to_string v) ∷ (hs ++ lines)))
          ≡ (if uuid_eq.beq v u then hs else []) ++ keys_under lib u (some v) lines
    unfolding keys_under
    keys_under-section true u v current hs lines i =
        ground (arith, line_of-header_line lib v, keys_under-hashes u v hs lines i)
    keys_under-section false u v current hs lines i =
        ground (arith, line_of_empty, line_of-header_line lib v, keys_under-hashes u v hs lines i)

    separator-IsLine : (first : Bool) → All IsLine (separator first)
    separator-IsLine true = tt
    separator-IsLine false = (record { is_printable = refl; is_short = omega arith }, tt)

    pub write_orgs-Sections :
        (first : Bool) (n : ℕ) (orgs : List (OrgConfig Uuid))
        → All (λ (org : OrgConfig Uuid). Short org.api_keys) orgs
        → Sections first n orgs
    unfolding write_orgs unlines is_valid keys_under keys_in Hashes
    write_orgs-Sections first n [] short = record {
      lines = [];
      text = refl;
      are_lines = tt;
      valid = λ current. refl;
      keys = λ u current. tt;
    }
    write_orgs-Sections first n (org ∷ orgs) short =
        let own = write_keys-Hashed (to_string org.org_id) n org.api_keys short.0 in
        let later = write_orgs-Sections false own.next_call orgs short.1 in
        let body = header_line (to_string org.org_id) ∷ (own.hashes ++ later.lines) in
        record {
          lines = separator first ++ body;
          text =
              write_orgs-cons first n org orgs own.hashes own.next_call later.lines own.text
                later.text;
          are_lines = All-append IsLine (separator first) body (separator-IsLine first) (
            header_line-IsLine lib org.org_id,
            All-append IsLine own.hashes later.lines (All-IsHash own.hashes own.are_hashes)
                later.are_lines,
          );
          valid = λ current.
              is_valid-section first org.org_id current own.hashes later.lines own.are_hashes
              ∙ later.valid (some org.org_id);
          keys = λ u current.
              subst (Hashes hash (keys_in lib u (org ∷ orgs)))
                (sym (
                  keys_under-section first u org.org_id current own.hashes later.lines
                    own.are_hashes))
                (Hashes-append hash (if uuid_eq.beq org.org_id u then org.api_keys else [])
                  (if uuid_eq.beq org.org_id u then own.hashes else []) (keys_in lib u orgs)
                  (keys_under lib u (some org.org_id) later.lines)
                  (Hashes_if hash (uuid_eq.beq org.org_id u) org.api_keys own.hashes own.each)
                  (later.keys u (some org.org_id)));
        }
