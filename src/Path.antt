-- ===== src/Path.antt =====
-- Package path/filepath on Unix, as far as internal/storage/csv.go uses it.
pub mod Rooted
use mathlib.Core.List.{reverse}
use eterrain_tf_upload.Base.{
  ℕ, Bool, true, false, ◌||◌, List, [], ◌∷◌, ◌++◌, onto_first, ◌==◌, if◌then◌else◌,
}
use eterrain_tf_upload.Text.{Bytes, codes, equal, has_prefix}
use eterrain_tf_upload.Errors.{Result, ok, err}

-- strings.Split(path, "/")
unfoldable pub split : Bytes → List Bytes
split [] = [] ∷ []
split (c ∷ s) = let rest = split s in if c == b'/' then [] ∷ rest else onto_first c rest

-- A slash before each element
unfoldable pub slashed : List Bytes → Bytes
slashed [] = []
slashed (e ∷ es) = b'/' ∷ (e ++ slashed es)

-- strings.Join(elements, "/")
unfoldable pub joined : List Bytes → Bytes
unfolding slashed
joined [] = []
joined (e ∷ es) = e ++ slashed es

-- An empty element and . are dropped, and .. takes the one before it along. The elements kept come in
-- reverse.
unfoldable pub keep_element : Bool → List Bytes → Bytes → List Bytes
keep_element rooted out e =
    if equal e [] || equal e (codes ".")
    then out
    else if equal e (codes "..")
    then elim out [
      | [] ↦ if rooted then [] else e ∷ []
      | top ∷ below ↦ if equal top (codes "..") then e ∷ top ∷ below else below
    ]
    else e ∷ out

unfoldable pub keep_elements : Bool → List Bytes → List Bytes → List Bytes
unfolding keep_element
keep_elements rooted out [] = out
keep_elements rooted out (e ∷ es) = keep_elements rooted (keep_element rooted out e) es

-- filepath.IsAbs
unfoldable pub is_abs : Bytes → Bool
unfolding has_prefix
is_abs path = has_prefix path (codes "/")

-- filepath.Clean
unfoldable pub clean : Bytes → Bytes
unfolding split joined keep_elements is_abs
clean path =
    let out = joined (reverse (keep_elements (is_abs path) [] (split path))) in
    if is_abs path then b'/' ∷ out else if equal out [] then codes "." else out

-- filepath.Join of two elements
unfoldable pub join : Bytes → Bytes → Bytes
unfolding clean
join [] [] = []
join [] (d ∷ t) = clean (d ∷ t)
join (c ∷ s) t = clean ((c ∷ s) ++ (b'/' ∷ t))

-- filepath.Abs, from what os.Getwd gives
unfoldable pub abs : Result Bytes → Bytes → Result Bytes
unfolding join
abs getwd path =
    if is_abs path
    then ok (clean path)
    else elim getwd [ err e ↦ err e | ok wd ↦ ok (join wd path) ]
