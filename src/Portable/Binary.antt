-- ===== src/Portable/Binary.antt =====
-- share/portable/binary.go: binary values as canonical standard Base64, and the two Base64
-- operations. `encoding/base64` is Go's library, written out for the standard alphabet with padding;
-- its strict decoder skips carriage returns and newlines, as Go's does. Clearing a buffer
-- (`zeroBytes`) has no effect on a value and is not modelled.
pub mod Base64
pub mod RoundTrip
use forge_go.Prelude.{
  ℕ, zero, suc, ◌+◌, ◌-◌, ◌*◌, ◌/◌, Bool, true, false, not, ◌&&◌, ◌||◌, List, [], ◌∷◌, ◌++◌, Option,
  none, some, ℤ, pos, negsuc, lt_int, ltb, ◌%◌, if◌then◌else◌, length, Bytes, codes, equal,
}
use forge_go.Prelude.Utf8.{valid}
use forge_go.Portable.Errors.{
  Result, ok, err, ◌>>=◌, ◌>>◌, refuse_if, new_abi_error, invalid_utf8, input_too_large,
  invalid_base64,
}
use forge_go.Portable.Abi.{Limits}
use Base64.{encode, decode_strict}

abbrev negated : ℕ → ℤ
negated zero = pos 0
negated (suc n) = negsuc n

-- An int of 64 bits from its residue.
abbrev signed : ℕ → ℤ
signed n = if ltb n 9223372036854775808 then pos n else negsuc (18446744073709551615 - n)

-- The int that a result wraps around to.
abbrev wrap : ℤ → ℤ
wrap (pos n) = signed (n % 18446744073709551616)
wrap (negsuc n) = signed (18446744073709551615 - n % 18446744073709551616)

abbrev plus_two : ℤ → ℤ
plus_two (pos n) = pos (n + 2)
plus_two (negsuc zero) = pos 1
plus_two (negsuc (suc n)) = negated n

-- `n / 3 * 4` with division towards 0.
abbrev thirds : ℤ → ℤ
thirds (pos n) = pos (n / 3 * 4)
thirds (negsuc n) = negated ((n + 1) / 3 * 4)

-- `base64.StdEncoding.EncodedLen(n)`, `(n + 2) / 3 * 4` on ints.
pub encoded_len : ℤ → ℤ
encoded_len n = wrap (thirds (wrap (plus_two n)))

decoded_canonical : Bytes → Bytes → ℤ → Option Bytes → Result Bytes
decoded_canonical encoded field max_bytes none = err (new_abi_error invalid_base64 field)
decoded_canonical encoded field max_bytes (some decoded) =
    refuse_if (not (equal (encode decoded) encoded)) invalid_base64 field
    >> refuse_if (lt_int max_bytes (pos (length decoded))) input_too_large field
    >> ok decoded

pub decode_binary : Bytes → Bytes → ℤ → Result Bytes
unfolding decoded_canonical
decode_binary encoded field max_bytes =
    refuse_if (lt_int (encoded_len max_bytes) (pos (length encoded))) input_too_large field
    >> decoded_canonical encoded field max_bytes (decode_strict encoded)

pub encode_binary : Bytes → Bytes
encode_binary = encode

-- `base64Encode` behind the decoding of its payload, a record with the one field `text`.
pub base64_encode : Limits → Bytes → Result Bytes
unfolding encode_binary
base64_encode limits text =
    refuse_if (not (valid text)) invalid_utf8 (codes "payload.text")
    >> refuse_if (lt_int limits.max_string_bytes (pos (length text))) input_too_large
        (codes "payload.text")
    >> ok (encode_binary text)

-- `base64Decode` behind the decoding of its payload, a record with the one field `encoded`.
pub base64_decode : Limits → Bytes → Result Bytes
base64_decode limits encoded =
    decode_binary encoded (codes "payload.encoded") limits.max_string_bytes >>= λ decoded.
    refuse_if (not (valid decoded)) invalid_utf8 (codes "payload.encoded") >> ok decoded
