-- ===== src/Keygen/Random.antt =====
-- generateRandomAPIKey of cmd/keygen/main.go, with base64.URLEncoding.
use eterrain_tf_upload.Base.{
  ℕ, ◌+◌, ◌-◌, ◌*◌, ◌/◌, ◌%◌, ◌≤◌, ◌<◌, ◌≡◌, ◌≢◌, ◌↔◌, refl, ap, true, false, [], ◌∷◌, arith, ltb,
  ◌==◌, if◌then◌else◌, every, All, length,
}
use eterrain_tf_upload.Text.{Bytes, equal, has_prefix}
use eterrain_tf_upload.Text.Visible.{visible}
use eterrain_tf_upload.Errors.{Result, ok, err}
use eterrain_tf_upload.Auth.Config.{is_skipped, is_header}

-- The alphabet A-Z a-z 0-9 - _ of a number below 64
unfoldable pub url_byte : ℕ → ℕ
url_byte v =
    if ltb v 26
    then v + 65
    else if ltb v 52
    then v + 71
    else if ltb v 62
    then v - 4
    else if v == 62
    then b'-'
    else b'_'

-- base64.URLEncoding.EncodeToString
unfoldable pub encode_url : Bytes → Bytes
encode_url [] = []
encode_url (a ∷ []) = url_byte (a / 4) ∷ url_byte (a % 4 * 16) ∷ b'=' ∷ b'=' ∷ []
encode_url (a ∷ b ∷ []) =
    url_byte (a / 4) ∷ url_byte (a % 4 * 16 + b / 16) ∷ url_byte (b % 16 * 4) ∷ b'=' ∷ []
encode_url (a ∷ b ∷ c ∷ s) =
    url_byte (a / 4)
    ∷ url_byte (a % 4 * 16 + b / 16)
    ∷ url_byte (b % 16 * 4 + c / 64)
    ∷ url_byte (c % 64)
    ∷ encode_url s

-- generateRandomAPIKey, on what rand.Read gives into 32 bytes
unfoldable pub generate_random_api_key : Result Bytes → Result Bytes
unfolding encode_url url_byte
generate_random_api_key (err e) = err e
generate_random_api_key (ok b) = ok (encode_url b)

abbrev pub IsByte : ℕ → Type 0
IsByte c = c < 256

url_byte-visible : (v : ℕ) → v < 64 → visible (url_byte v) ≡ true
unfolding url_byte
url_byte-visible v h = ground arith

url_byte-injective : (v w : ℕ) → v < 64 → w < 64 → url_byte v ≡ url_byte w → v ≡ w
unfolding url_byte
url_byte-injective v w h k e = ground arith

url_byte-ne-padding : (v : ℕ) → v < 64 → url_byte v ≢ b'='
unfolding url_byte
url_byte-ne-padding v h e = ground arith

triple-injective :
    (a b c x y z : ℕ)
    → IsByte a
    → IsByte b
    → IsByte c
    → IsByte x
    → IsByte y
    → IsByte z
    → a / 4 ≡ x / 4
    → a % 4 * 16 + b / 16 ≡ x % 4 * 16 + y / 16
    → b % 16 * 4 + c / 64 ≡ y % 16 * 4 + z / 64
    → c % 64 ≡ z % 64
    → (a ≡ x) × (b ≡ y) × (c ≡ z)
triple-injective a b c x y z i j k l m n p q r s = omega arith

-- Four equal characters come from three equal bytes.
four-injective :
    (a b c x y z : ℕ) (s t : Bytes)
    → IsByte a
    → IsByte b
    → IsByte c
    → IsByte x
    → IsByte y
    → IsByte z
    → encode_url (a ∷ b ∷ c ∷ s) ≡ encode_url (x ∷ y ∷ z ∷ t)
    → (a ≡ x) × (b ≡ y) × (c ≡ z) × (encode_url s ≡ encode_url t)
unfolding encode_url
four-injective a b c x y z s t i j k l m n e =
    let p : url_byte (a / 4) ≡ url_byte (x / 4) = cc in
    let q : url_byte (a % 4 * 16 + b / 16) ≡ url_byte (x % 4 * 16 + y / 16) = cc in
    let r : url_byte (b % 16 * 4 + c / 64) ≡ url_byte (y % 16 * 4 + z / 64) = cc in
    let w : url_byte (c % 64) ≡ url_byte (z % 64) = cc in
    let (d, f, g) =
      triple-injective a b c x y z i j k l m n
        (url_byte-injective (a / 4) (x / 4) (omega arith) (omega arith) p)
        (url_byte-injective _ _ (omega arith) (omega arith) q)
        (url_byte-injective _ _ (omega arith) (omega arith) r)
        (url_byte-injective (c % 64) (z % 64) (omega arith) (omega arith) w) in
    (d, f, g, cc)

-- The padding is the same for the same length.
encode_url-injective :
    (s t : Bytes)
    → All IsByte s
    → All IsByte t
    → length s ≡ length t
    → encode_url s ≡ encode_url t
    → s ≡ t
unfolding encode_url
encode_url-injective [] [] h k n e = refl
encode_url-injective [] (x ∷ t) h k n e = absurd (omega (arith, n))
encode_url-injective (a ∷ s) [] h k n e = absurd (omega (arith, n))
encode_url-injective (a ∷ []) (x ∷ []) h k n e =
    let p : url_byte (a / 4) ≡ url_byte (x / 4) = cc in
    let q : url_byte (a % 4 * 16) ≡ url_byte (x % 4 * 16) = cc in
    let r =
      triple-injective a 0 0 x 0 0 h.0 (omega arith) (omega arith) k.0 (omega arith) (omega arith)
        (url_byte-injective (a / 4) (x / 4) (omega arith) (omega arith) p)
        (omega (arith, url_byte-injective (a % 4 * 16) (x % 4 * 16) (omega arith) (omega arith) q))
        refl refl in
    ap (λ v. v ∷ []) r.0
encode_url-injective (a ∷ b ∷ []) (x ∷ y ∷ []) h k n e =
    let p : url_byte (a / 4) ≡ url_byte (x / 4) = cc in
    let q : url_byte (a % 4 * 16 + b / 16) ≡ url_byte (x % 4 * 16 + y / 16) = cc in
    let w : url_byte (b % 16 * 4) ≡ url_byte (y % 16 * 4) = cc in
    let r =
      triple-injective a b 0 x y 0 h.0 h.1.0 (omega arith) k.0 k.1.0 (omega arith)
        (url_byte-injective (a / 4) (x / 4) (omega arith) (omega arith) p)
        (url_byte-injective _ _ (omega arith) (omega arith) q)
        (omega (arith, url_byte-injective (b % 16 * 4) (y % 16 * 4) (omega arith) (omega arith) w))
        refl in
    cc (r.0, r.1)
encode_url-injective (a ∷ []) (x ∷ y ∷ t) h k n e = absurd (omega (arith, n))
encode_url-injective (a ∷ b ∷ s) (x ∷ []) h k n e = absurd (omega (arith, n))
encode_url-injective (a ∷ b ∷ []) (x ∷ y ∷ z ∷ t) h k n e = absurd (omega (arith, n))
encode_url-injective (a ∷ b ∷ c ∷ s) (x ∷ y ∷ []) h k n e = absurd (omega (arith, n))
encode_url-injective (a ∷ b ∷ c ∷ s) (x ∷ y ∷ z ∷ t) h k n e =
    let (d, f, g, rest) = four-injective a b c x y z s t h.0 h.1.0 h.1.1.0 k.0 k.1.0 k.1.1.0 e in
    let same = encode_url-injective s t h.1.1.1 k.1.1.1 (omega (arith, n)) rest in
    cc (d, f, g, same)

-- What the key generator and the service take for a key: visible, no comment and no header, and of at
-- most 72 bytes.
pub record IsUsable (key : Bytes) : Type 0 where
  pub is_visible : every visible key ≡ true
  pub no_comment : is_skipped key ≡ false
  pub no_header : is_header key ≡ false
  pub is_44 : length key ≡ 44

length-encode_url : (s : Bytes) → length (encode_url s) ≡ 4 * ((length s + 2) / 3)
unfolding encode_url
length-encode_url [] = omega arith
length-encode_url (a ∷ []) = omega arith
length-encode_url (a ∷ b ∷ []) = omega arith
length-encode_url (a ∷ b ∷ c ∷ s) = omega (arith, length-encode_url s)

every-encode_url : (s : Bytes) → All IsByte s → every visible (encode_url s) ≡ true
unfolding encode_url
every-encode_url [] h = refl
every-encode_url (a ∷ []) h =
    ground
      (arith, url_byte-visible (a / 4) (omega arith), url_byte-visible (a % 4 * 16) (omega arith))
every-encode_url (a ∷ b ∷ []) h = ground (
  arith,
  url_byte-visible (a / 4) (omega arith),
  url_byte-visible (a % 4 * 16 + b / 16) (omega arith),
  url_byte-visible (b % 16 * 4) (omega arith),
)
every-encode_url (a ∷ b ∷ c ∷ s) h = ground (
  arith,
  url_byte-visible (a / 4) (omega arith),
  url_byte-visible (a % 4 * 16 + b / 16) (omega arith),
  url_byte-visible (b % 16 * 4 + c / 64) (omega arith),
  url_byte-visible (c % 64) (omega arith),
  every-encode_url s h.1.1.1,
)

url_byte-plain : (v : ℕ) → v < 64 → (url_byte v ≢ b'#') × (url_byte v ≢ b'[')
unfolding url_byte
url_byte-plain v h = ground arith

encode_url-plain :
    (s : Bytes)
    → All IsByte s
    → 3 ≤ length s
    → (is_skipped (encode_url s) ≡ false) × (is_header (encode_url s) ≡ false)
unfolding encode_url is_skipped is_header equal has_prefix
encode_url-plain [] h n = absurd (omega (arith, n))
encode_url-plain (a ∷ []) h n = absurd (omega (arith, n))
encode_url-plain (a ∷ b ∷ []) h n = absurd (omega (arith, n))
encode_url-plain (a ∷ b ∷ c ∷ s) h n = ground (arith, url_byte-plain (a / 4) (omega arith))

-- From 32 random bytes the generator makes a key of 44 visible characters that is neither a comment nor
-- a header, and two keys are the same exactly if their bytes are.
pub generate_random_api_key-IsUsable :
    (s t : Bytes)
    → All IsByte s
    → All IsByte t
    → length s ≡ 32
    → length t ≡ 32
    → (key : Bytes) × (_ : generate_random_api_key (ok s) ≡ ok key) × IsUsable key
      × ((generate_random_api_key (ok t) ≡ ok key) ↔ (t ≡ s))
unfolding generate_random_api_key
generate_random_api_key-IsUsable s t h k n m =
    let (no_comment, no_header) = encode_url-plain s h (omega (arith, n)) in
    (
      encode_url s,
      refl,
      record {
        is_visible = every-encode_url s h;
        no_comment = no_comment;
        no_header = no_header;
        is_44 = omega (arith, length-encode_url s, n);
      },
      (
        λ e. encode_url-injective t s k h (omega (arith, n, m)) (cc e),
        λ e. ap (λ x. ok (encode_url x)) e,
      ),
    )
