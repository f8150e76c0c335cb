-- ===== src/Handlers/Value.antt =====
-- What encoding/json decodes into `any`, how fmt prints it with %v, and what package reflect shows of
-- it. A number is the bit pattern of a float64, and a parameter prints it.
use eterrain_tf_upload.Base.{ℕ, Bool, true, false, [], ◌∷◌, ◌++◌}
use eterrain_tf_upload.Text.{Bytes, codes}
use eterrain_tf_upload.Validation.Dynamic.{Dynamic, other, mapping, slice, Elements, nil, cons}

-- The fields of an object stand in the order of their keys, in which fmt prints a map.
mutual
  pub data Value : Type 0 where
    null : Value
    bool : Bool → Value
    float : ℕ → Value
    text : Bytes → Value
    array : Values → Value
    object : Fields → Value

  pub data Values : Type 0 where
    none_left : Values
    item : Value → Values → Values

  pub data Fields : Type 0 where
    no_fields : Fields
    field : Bytes → Value → Fields → Fields

-- A space before each element but the first
abbrev pub spaced : Bool → Bytes → Bytes
spaced true s = s
spaced false s = b' ' ∷ s

-- %v; the first argument prints a float64
unfoldable mutual
  pub sprint : (ℕ → Bytes) → Value → Bytes
  sprint format_float null = codes "<nil>"
  sprint format_float (bool true) = codes "true"
  sprint format_float (bool false) = codes "false"
  sprint format_float (float x) = format_float x
  sprint format_float (text s) = s
  sprint format_float (array vs) = b'[' ∷ (sprint_items format_float true vs ++ codes "]")
  sprint format_float (object fs) =
      codes "map[" ++ (sprint_fields format_float true fs ++ codes "]")

  pub sprint_items : (ℕ → Bytes) → Bool → Values → Bytes
  sprint_items format_float first none_left = []
  sprint_items format_float first (item v vs) =
      spaced first (sprint format_float v ++ sprint_items format_float false vs)

  pub sprint_fields : (ℕ → Bytes) → Bool → Fields → Bytes
  sprint_fields format_float first no_fields = []
  sprint_fields format_float first (field k v fs) =
      spaced first (k ++ (b':' ∷ (sprint format_float v ++ sprint_fields format_float false fs)))

unfoldable mutual
  pub dynamic : Value → Dynamic
  dynamic null = other
  dynamic (bool b) = other
  dynamic (float x) = other
  dynamic (text s) = other
  dynamic (array vs) = slice (dynamic_items vs)
  dynamic (object fs) = mapping (dynamic_fields fs)

  pub dynamic_items : Values → Elements
  dynamic_items none_left = nil
  dynamic_items (item v vs) = cons (dynamic v) (dynamic_items vs)

  pub dynamic_fields : Fields → Elements
  dynamic_fields no_fields = nil
  dynamic_fields (field k v fs) = cons (dynamic v) (dynamic_fields fs)
