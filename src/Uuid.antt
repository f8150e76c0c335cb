-- ===== src/Uuid.antt =====
-- Package github.com/google/uuid, which is not part of the repository: its type and the two
-- functions that the service calls are parameters, with what they are documented to do.
use eterrain_tf_upload.Base.{
  ◌==◌, ◌||◌, ℕ, every, ◌≡◌, ◌↔◌, refl, ap, Bool, true, false, Option, none, some, arith, Eq,
  if◌then◌else◌, length,
}
use eterrain_tf_upload.Text.{within, Bytes, codes, equal}

-- A digit of the canonical form, or one of its hyphens.
abbrev pub uuid_byte : ℕ → Bool
uuid_byte c = within b'0' b'9' c || within b'a' b'f' c || c == b'-'

-- uuid.UUID with ==, uuid.Parse and UUID.String
pub record UuidLib : Type 1 where
  pub Uuid : Type 0
  pub uuid_eq : Eq Uuid
  pub parse : Bytes → Option Uuid
  pub to_string : Uuid → Bytes
  -- String gives the form of 36 characters, which Parse reads back.
  pub parse-to_string : (u : Uuid) → parse (to_string u) ≡ some u
  pub length-to_string : (u : Uuid) → length (to_string u) ≡ 36
  pub every-to_string : (u : Uuid) → every uuid_byte (to_string u) ≡ true

module _ (lib : UuidLib) where
  open lib use {Uuid, parse, to_string, parse-to_string}

  pub to_string-injective : (u v : Uuid) → to_string u ≡ to_string v → u ≡ v
  to_string-injective u v e = cc (parse-to_string u, parse-to_string v, ap parse e)

-- Two identifiers, to show that the parameters can be given.
abbrev first_text : Bytes
first_text = codes "11111111-2222-3333-4444-555555555555"

abbrev second_text : Bytes
second_text = codes "22222222-3333-4444-5555-666666666666"

abbrev pub two_text : Bool → Bytes
two_text true = first_text
two_text false = second_text

abbrev pub two_parse : Bytes → Option Bool
two_parse s =
    if equal s first_text then some true else if equal s second_text then some false else none

unfoldable pub bool_beq : Bool → Bool → Bool
bool_beq true b = b
bool_beq false true = false
bool_beq false false = true

pub bool_beq_iff : (a b : Bool) → (bool_beq a b ≡ true) ↔ (a ≡ b)
unfolding bool_beq
bool_beq_iff a b = ground arith

pub two_parse_text : (b : Bool) → two_parse (two_text b) ≡ some b
unfolding equal
two_parse_text true = refl
two_parse_text false = refl

pub length-two_text : (b : Bool) → length (two_text b) ≡ 36
length-two_text true = refl
length-two_text false = refl

pub every-two_text : (b : Bool) → every uuid_byte (two_text b) ≡ true
every-two_text true = refl
every-two_text false = refl

abbrev pub two_uuids : UuidLib
two_uuids = record {
  Uuid = Bool;
  uuid_eq = record { beq = bool_beq; beq_iff = bool_beq_iff };
  parse = two_parse;
  to_string = two_text;
  parse-to_string = two_parse_text;
  length-to_string = length-two_text;
  every-to_string = every-two_text;
}
