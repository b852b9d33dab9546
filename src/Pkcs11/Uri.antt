-- ===== src/Pkcs11/Uri.antt =====
-- encrypt/pkcs11/uri.go: parsing and printing of RFC 7512 key references. Strings are byte lists.
-- `strings.Split`, `strings.Cut`, `url.PathUnescape` and `hex.EncodeToString` are Go's library,
-- written out for what this file asks of them.
pub mod Format
pub mod Escape
pub mod Scan
pub mod Attributes
pub mod Printed
pub mod RoundTrip
pub mod Accepted
pub mod Tests
use mathlib.Core.Option
use forge_go.Prelude.{
  ℕ, ◌+◌, ◌-◌, ◌*◌, ◌/◌, ◌%◌, Bool, true, false, not, ◌&&◌, ◌||◌, List, [], ◌∷◌, ◌++◌, Option, none,
  some, ltb, ◌==◌, if◌then◌else◌, drop, Bytes, codes, equal, has_prefix,
}
use forge_go.Prelude.Utf8.{within}
use forge_go.Prelude.Utf8.Trim.{trim_space}

pub data UriError : Type 0 where
  not_uri no_attributes no_key unsupported_type : UriError
  malformed_attribute bad_escape pin_attribute : Bytes → UriError

pub data Result {ℓ} (A : Type ℓ) : Type ℓ where
  ok : A → Result A
  err : UriError → Result A

infixl 5 ◌>>=◌
abbrev pub ◌>>=◌ {ℓ κ} : {V : Type ℓ} {W : Type κ} → Result V → (V → Result W) → Result W
ok value >>= rest = rest value
err refusal >>= rest = err refusal

abbrev pub uri_scheme : Bytes
uri_scheme = codes "pkcs11:"

abbrev pub class_data : ℕ
class_data = 0

abbrev pub class_certificate : ℕ
class_certificate = 1

abbrev pub class_public_key : ℕ
class_public_key = 2

abbrev pub class_private_key : ℕ
class_private_key = 3

abbrev pub class_secret_key : ℕ
class_secret_key = 4

pub record KeyUri : Type 0 where
  pub token : Bytes
  pub object : Bytes
  pub id : Bytes
  pub class : ℕ
  pub has_class : Bool

abbrev pub empty_uri : KeyUri
empty_uri = record { token = []; object = []; id = []; class = 0; has_class = false }

abbrev pub is_empty : Bytes → Bool
is_empty [] = true
is_empty (_ ∷ _) = false

pub is_key_uri : Bytes → Bool
unfolding has_prefix
is_key_uri reference = has_prefix (trim_space reference) uri_scheme

pub class_from_type : Bytes → Result ℕ
unfolding equal
class_from_type value =
    if equal value (codes "private")
    then ok class_private_key
    else if equal value (codes "public")
    then ok class_public_key
    else if equal value (codes "secret-key")
    then ok class_secret_key
    else if equal value (codes "cert")
    then ok class_certificate
    else if equal value (codes "data")
    then ok class_data
    else err unsupported_type

-- `none` is the error for an unknown class.
pub type_from_class : ℕ → Option Bytes
type_from_class class =
    if class == class_private_key
    then some (codes "private")
    else if class == class_public_key
    then some (codes "public")
    else if class == class_secret_key
    then some (codes "secret-key")
    else if class == class_certificate
    then some (codes "cert")
    else if class == class_data
    then some (codes "data")
    else none

abbrev cons_head : ℕ → List Bytes → List Bytes
cons_head x [] = (x ∷ []) ∷ []
cons_head x (s ∷ ss) = (x ∷ s) ∷ ss

-- `strings.Split` at one byte.
pub split : ℕ → Bytes → List Bytes
split c [] = [] ∷ []
split c (x ∷ xs) = let rest = split c xs in if x == c then [] ∷ rest else cons_head x rest

abbrev cons_before : ℕ → Option (Bytes × Bytes) → Option (Bytes × Bytes)
cons_before x none = none
cons_before x (some (a, b)) = some (x ∷ a, b)

-- `strings.Cut` at one byte; `none` when it does not occur.
pub cut : ℕ → Bytes → Option (Bytes × Bytes)
cut c [] = none
cut c (x ∷ xs) = if x == c then some ([], xs) else cons_before x (cut c xs)

pub hex_value : ℕ → Option ℕ
hex_value b =
    if within b'0' b'9' b
    then some (b - b'0')
    else if within b'a' b'f' b
    then some (b - b'a' + 10)
    else if within b'A' b'F' b
    then some (b - b'A' + 10)
    else none

pub data Pending : Type 0 where
  plain want_two : Pending
  want_one : ℕ → Pending

-- `url.PathUnescape`: `none` for a `%` that two hexadecimal digits do not follow.
pub unescape : Pending → Bytes → Option Bytes
unescape plain [] = some []
unescape want_two [] = none
unescape (want_one hi) [] = none
unescape plain (b ∷ bs) = elim (b == b'%') [
  | true ↦ unescape want_two bs
  | false ↦ Option.map (◌∷◌ b) (unescape plain bs)
]
unescape want_two (b ∷ bs) = elim (hex_value b) [
  | none ↦ none
  | some hi ↦ unescape (want_one hi) bs
]
unescape (want_one hi) (b ∷ bs) = elim (hex_value b) [
  | none ↦ none
  | some lo ↦ Option.map (◌∷◌ (hi * 16 + lo)) (unescape plain bs)
]

abbrev set_class : KeyUri → Result ℕ → Result KeyUri
set_class u (ok class) = ok (record u { class = class; has_class = true })
set_class u (err e) = err e

-- The `switch name` of the loop.
pub set_attribute : KeyUri → Bytes → Bytes → Result KeyUri
unfolding class_from_type equal
set_attribute u name value =
    if equal name (codes "token")
    then ok (record u { token = value })
    else if equal name (codes "object")
    then ok (record u { object = value })
    else if equal name (codes "id")
    then ok (record u { id = value })
    else if equal name (codes "type")
    then set_class u (class_from_type value)
    else ok u

-- One round of the loop over the segments.
pub parse_segment : KeyUri → Bytes → Result KeyUri
parse_segment u [] = ok u
parse_segment u (b ∷ bs) = elim (cut b'=' (b ∷ bs)) [
  | none ↦ err (malformed_attribute (b ∷ bs))
  | some (name, raw) ↦ elim (unescape plain raw) [
    | none ↦ err (bad_escape name)
    | some value ↦ set_attribute u name value
  ]
]

pub parse_segments : KeyUri → List Bytes → Result KeyUri
parse_segments u [] = ok u
parse_segments u (s ∷ ss) = parse_segment u s >>= λ v. parse_segments v ss

abbrev pub name_of : Bytes → Option (Bytes × Bytes) → Bytes
name_of segment none = segment
name_of segment (some (name, _)) = name

abbrev pub is_pin : Bytes → Bool
is_pin name = equal name (codes "pin-value") || equal name (codes "pin-source")

pub reject_segments : List Bytes → Result (Unit {0})
unfolding equal
reject_segments [] = ok tt
reject_segments (s ∷ ss) =
    let name = name_of s (cut b'=' s) in
    if is_pin name then err (pin_attribute name) else reject_segments ss

pub reject_pin_attributes : Bytes → Result (Unit {0})
unfolding reject_segments split cut
reject_pin_attributes [] = ok tt
reject_pin_attributes (b ∷ bs) = reject_segments (split b'&' (b ∷ bs))

-- The path and the query of a reference behind its scheme.
pub split_query : Bytes → Bytes × Bytes
unfolding cut
split_query body = elim (cut b'?' body) [ none ↦ (body, []) | some (path, query) ↦ (path, query) ]

pub parse_body : Bytes × Bytes → Result KeyUri
parse_body (path, query) = reject_pin_attributes query >>= λ _.
    if is_empty path
    then err no_attributes
    else parse_segments empty_uri (split b';' path) >>= λ u.
        if is_empty u.object && is_empty u.id then err no_key else ok u

pub parse_key_uri : Bytes → Result KeyUri
parse_key_uri reference =
    let trimmed = trim_space reference in
    if not (is_key_uri trimmed) then err not_uri else parse_body (split_query (drop 7 trimmed))
