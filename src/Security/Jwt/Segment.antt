-- ===== src/Security/Jwt/Segment.antt =====
-- `encodeSegment` and `decodeSegment` of security/auth/jwt/jwt.go, with Go's RawURLEncoding written
-- out: the alphabet for URLs, no padding, line breaks skipped, unused bits not looked at.
use forge_go.Prelude.{
  ℕ, ◌+◌, ◌-◌, ◌*◌, ◌/◌, ◌%◌, ◌<◌, ◌≡◌, ◌≢◌, refl, arith, ◌||◌, [], ◌∷◌, Option, none, some, ltb,
  ◌==◌, if◌then◌else◌, Bytes, All,
}
use forge_go.Prelude.Utf8.{within}

url_digit : ℕ → ℕ
url_digit v =
    if ltb v 26
    then b'A' + v
    else if ltb v 52
    then b'a' + (v - 26)
    else if ltb v 62
    then b'0' + (v - 52)
    else if v == 62
    then b'-'
    else b'_'

url_value : ℕ → Option ℕ
url_value c =
    if within b'A' b'Z' c
    then some (c - b'A')
    else if within b'a' b'z' c
    then some (c - b'a' + 26)
    else if within b'0' b'9' c
    then some (c - b'0' + 52)
    else if c == b'-'
    then some 62
    else if c == b'_'
    then some 63
    else none

unfoldable pub encode_segment : Bytes → Bytes
unfolding url_digit
encode_segment [] = []
encode_segment (x ∷ []) = url_digit (x / 4) ∷ url_digit (x % 4 * 16) ∷ []
encode_segment (x ∷ y ∷ []) =
    url_digit (x / 4) ∷ url_digit (x % 4 * 16 + y / 16) ∷ url_digit (y % 16 * 4) ∷ []
encode_segment (x ∷ y ∷ z ∷ more) =
    url_digit (x / 4)
    ∷ url_digit (x % 4 * 16 + y / 16)
    ∷ url_digit (y % 16 * 4 + z / 64)
    ∷ url_digit (z % 64)
    ∷ encode_segment more

one_byte : Option ℕ → Option ℕ → Option Bytes
one_byte (some p) (some q) = some ((p * 4 + q / 16) ∷ [])
one_byte _ _ = none

two_bytes : Option ℕ → Option ℕ → Option ℕ → Option Bytes
two_bytes (some p) (some q) (some r) = some ((p * 4 + q / 16) ∷ (q % 16 * 16 + r / 4) ∷ [])
two_bytes _ _ _ = none

three_bytes : Option ℕ → Option ℕ → Option ℕ → Option ℕ → Option Bytes → Option Bytes
three_bytes (some p) (some q) (some r) (some s) (some more) =
    some ((p * 4 + q / 16) ∷ (q % 16 * 16 + r / 4) ∷ (r % 4 * 64 + s) ∷ more)
three_bytes _ _ _ _ _ = none

quanta : Bytes → Option Bytes
quanta [] = some []
quanta (k ∷ []) = none
quanta (k ∷ l ∷ []) = one_byte (url_value k) (url_value l)
quanta (k ∷ l ∷ m ∷ []) = two_bytes (url_value k) (url_value l) (url_value m)
quanta (k ∷ l ∷ m ∷ n ∷ more) =
    three_bytes (url_value k) (url_value l) (url_value m) (url_value n) (quanta more)

skip_breaks : Bytes → Bytes
skip_breaks [] = []
skip_breaks (c ∷ cs) = if c == b'\n' || c == b'\r' then skip_breaks cs else c ∷ skip_breaks cs

unfoldable pub decode_segment : Bytes → Option Bytes
unfolding url_value one_byte two_bytes three_bytes quanta skip_breaks
decode_segment s = quanta (skip_breaks s)

url_value-digit : (v : ℕ) → v < 64 → url_value (url_digit v) ≡ some v
unfolding url_value url_digit
url_value-digit v h = ground arith

quanta-encode_segment : (s : Bytes) → All (λ b. b < 256) s → quanta (encode_segment s) ≡ some s
unfolding quanta encode_segment one_byte two_bytes three_bytes
quanta-encode_segment [] h = refl
quanta-encode_segment (x ∷ []) h =
    ground (arith, url_value-digit (x / 4), url_value-digit (x % 4 * 16))
quanta-encode_segment (x ∷ y ∷ []) h = ground (
  arith,
  url_value-digit (x / 4),
  url_value-digit (x % 4 * 16 + y / 16),
  url_value-digit (y % 16 * 4),
)
quanta-encode_segment (x ∷ y ∷ z ∷ more) h = ground (
  arith,
  quanta-encode_segment more h.1.1.1,
  url_value-digit (x / 4),
  url_value-digit (x % 4 * 16 + y / 16),
  url_value-digit (y % 16 * 4 + z / 64),
  url_value-digit (z % 64),
)

-- No dot and no line break, so that a segment stands alone between the dots of a token.
abbrev pub IsSolid : ℕ → Type 0
IsSolid c = (c ≢ b'.') × (c ≢ b'\n') × (c ≢ b'\r')

url_digit-IsSolid : (v : ℕ) → v < 64 → IsSolid (url_digit v)
unfolding url_digit
url_digit-IsSolid v h = ground arith

pub encode_segment-IsSolid : (s : Bytes) → All (λ b. b < 256) s → All IsSolid (encode_segment s)
unfolding encode_segment
encode_segment-IsSolid [] h = tt
encode_segment-IsSolid (x ∷ []) h =
    (url_digit-IsSolid (x / 4) (omega arith), (url_digit-IsSolid (x % 4 * 16) (omega arith), tt))
encode_segment-IsSolid (x ∷ y ∷ []) h = (
  url_digit-IsSolid (x / 4) (omega arith),
  (
    url_digit-IsSolid (x % 4 * 16 + y / 16) (omega arith),
    (url_digit-IsSolid (y % 16 * 4) (omega arith), tt),
  ),
)
encode_segment-IsSolid (x ∷ y ∷ z ∷ more) h = (
  url_digit-IsSolid (x / 4) (omega arith),
  (
    url_digit-IsSolid (x % 4 * 16 + y / 16) (omega arith),
    (
      url_digit-IsSolid (y % 16 * 4 + z / 64) (omega arith),
      (url_digit-IsSolid (z % 64) (omega arith), encode_segment-IsSolid more h.1.1.1),
    ),
  ),
)

skip_breaks_id : (s : Bytes) → All IsSolid s → skip_breaks s ≡ s
unfolding skip_breaks
skip_breaks_id [] h = refl
skip_breaks_id (c ∷ s) h = ground (arith, skip_breaks_id s h.1)

pub decode_segment-encode :
    (s : Bytes) → All (λ b. b < 256) s → decode_segment (encode_segment s) ≡ some s
unfolding decode_segment
decode_segment-encode s h =
    rw (skip_breaks_id (encode_segment s) (encode_segment-IsSolid s h)) (quanta-encode_segment s h)
