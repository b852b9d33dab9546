-- ===== src/Pkcs11/Uri/Format.antt =====
-- encrypt/pkcs11/uri.go: printing a key reference, `String` and `escapeAttribute`.
use forge_go.Prelude.{
  ℕ, ◌+◌, ◌-◌, ◌/◌, ◌%◌, Bool, true, false, ◌||◌, [], ◌∷◌, ◌++◌, Option, none, some, ltb, ◌==◌,
  if◌then◌else◌, Bytes, codes,
}
use forge_go.Prelude.Utf8.{within}
use forge_go.Pkcs11.Uri.{KeyUri, uri_scheme, is_empty, type_from_class}

unfoldable pub unreserved_attribute_byte : ℕ → Bool
unreserved_attribute_byte b =
    within b'A' b'Z' b
    || within b'a' b'z' b
    || within b'0' b'9' b
    || b == b'-'
    || b == b'.'
    || b == b'_'
    || b == b'~'
    || b == b':'
    || b == b'['
    || b == b']'
    || b == b'@'
    || b == b'!'
    || b == b'$'
    || b == b'\''
    || b == b'('
    || b == b')'
    || b == b'*'
    || b == b'+'
    || b == b','

-- `strings.ToUpper` of one lower-case hexadecimal digit.
unfoldable pub hex_upper : ℕ → ℕ
hex_upper d =
    let digit = if ltb d 10 then b'0' + d else b'a' + (d - 10) in
    if within b'a' b'z' digit then digit - 32 else digit

unfoldable pub escape_byte : ℕ → Bytes
unfolding unreserved_attribute_byte hex_upper
escape_byte b =
    if unreserved_attribute_byte b
    then b ∷ []
    else b'%' ∷ hex_upper (b / 16) ∷ hex_upper (b % 16) ∷ []

unfoldable pub escape_attribute : Bytes → Bytes
unfolding escape_byte
escape_attribute [] = []
escape_attribute (b ∷ bs) = escape_byte b ++ escape_attribute bs

-- The builder's content, and the flag `first`.
abbrev pub Builder : Type 0
Builder = Bytes × Bool

unfoldable pub append_attribute : Builder → Bytes → Bytes → Builder
append_attribute (out, first) name value =
    (out ++ ((if first then [] else b';' ∷ []) ++ (name ++ (b'=' ∷ escape_attribute value))), false)

abbrev append_type : Builder → Option Bytes → Builder
append_type s none = s
append_type s (some name) = append_attribute s (codes "type") name

-- `String` on the fields, with the outcome of `typeFromClass` if `HasClass` is set.
unfoldable pub format_parts : Bytes → Bytes → Bytes → Option Bytes → Bytes
unfolding append_attribute escape_attribute
format_parts token object id type_name =
    let s0 : Builder = (uri_scheme, true) in
    let s1 = if is_empty token then s0 else append_attribute s0 (codes "token") token in
    let s2 = if is_empty object then s1 else append_attribute s1 (codes "object") object in
    let s3 = if is_empty id then s2 else append_attribute s2 (codes "id") id in
    (append_type s3 type_name).0

unfoldable pub format : KeyUri → Bytes
unfolding format_parts
format u =
    format_parts u.token u.object u.id (if u.has_class then type_from_class u.class else none)
