-- ===== src/Storage/Mysql/Tables.antt =====
-- The names of the tables of organizations.
use eterrain_tf_upload.Base.{
  ℕ, suc, ◌≡◌, ◌↔◌, ap, refl, Bool, true, ◌||◌, [], ◌∷◌, arith, every, length, ◌==◌,
}
use eterrain_tf_upload.Text.{Bytes, within, bytes_eq}
use eterrain_tf_upload.Uuid.{UuidLib, uuid_byte, to_string-injective}
use eterrain_tf_upload.Storage.Csv.{RowLib}
use eterrain_tf_upload.Storage.Mysql.{Database, replace_hyphens, sanitize_table_name}

-- A byte that an SQL name has without quotes: a lower-case letter, a digit or _
abbrev pub name_byte : ℕ → Bool
name_byte c = within b'a' b'z' c || within b'0' b'9' c || c == b'_'

replace_hyphens-injective :
    (s t : Bytes)
    → every uuid_byte s ≡ true
    → every uuid_byte t ≡ true
    → replace_hyphens s ≡ replace_hyphens t
    → s ≡ t
unfolding replace_hyphens
replace_hyphens-injective [] [] p q e = refl
replace_hyphens-injective [] (d ∷ t) p q e = ground (arith, e)
replace_hyphens-injective (c ∷ s) [] p q e = ground (arith, e)
replace_hyphens-injective (c ∷ s) (d ∷ t) p q e = ground (arith, e, replace_hyphens-injective s t)

every-replace_hyphens :
    (s : Bytes) → every uuid_byte s ≡ true → every name_byte (replace_hyphens s) ≡ true
unfolding replace_hyphens
every-replace_hyphens [] h = refl
every-replace_hyphens (c ∷ s) h = ground (arith, every-replace_hyphens s)

length-replace_hyphens : (s : Bytes) → length (replace_hyphens s) ≡ length s
unfolding replace_hyphens
length-replace_hyphens [] = refl
length-replace_hyphens (c ∷ s) = ap suc (length-replace_hyphens s)

module _ (lib : UuidLib) (rl : RowLib) {D : Type 0} (database : Database rl.Time D) where
  open lib use {Uuid, to_string, every-to_string, length-to_string}
  open rl use {Time, marshal}

  abbrev pub table_of : Uuid → Bytes
  table_of u = sanitize_table_name lib rl database u

  -- Different organizations have different tables, and a table's name has 40 bytes, each a lower-case letter,
  -- a digit or _, so that it can stand in a statement as it is.
  pub sanitize_table_name-injective :
      (u v : Uuid)
      → ((table_of u ≡ table_of v) ↔ (u ≡ v))
        × (every name_byte (table_of u) ≡ true)
        × (length (table_of u) ≡ 40)
  unfolding sanitize_table_name
  sanitize_table_name-injective u v = (
    (
      λ e. to_string-injective lib u v (
          replace_hyphens-injective (to_string u) (to_string v) (every-to_string u)
            (every-to_string v) (ground (arith, e))),
      λ e. ap (sanitize_table_name lib rl database) e,
    ),
    ground (arith, every-replace_hyphens (to_string u) (every-to_string u)),
    omega (arith, length-replace_hyphens (to_string u), length-to_string u),
  )
