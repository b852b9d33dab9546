-- ===== src/Portable/Json.antt =====
-- share/portable/json.go: the strict decoding of a JSON object. The tokens of `json.Decoder`, its
-- typed decoding and `json.Unmarshal` into a map are `encoding/json`'s, and are parameters here.
--
-- A document is the list of its tokens: `broken` stands where `Token` fails, and the end of the
-- list is the end of the input. `More` holds unless a closing token or the end comes next; where
-- the two might differ from Go on malformed input, the outcome is `invalid_json` either way.
pub mod Tree
pub mod Total
pub mod Complete
pub mod Sound
pub mod Structure
use forge_go.Prelude.{
  ℕ, zero, suc, ◌+◌, Bool, true, false, not, ◌&&◌, ◌||◌, List, [], ◌∷◌, ◌++◌, Option, none, some, ℤ,
  pos, lt_int, ltb, ◌==◌, if◌then◌else◌, length, Bytes, codes, equal,
}
use mathlib.Core.List.{reverse}
use forge_go.Prelude.Utf8.{valid}
use forge_go.Prelude.Utf8.Trim.{trim_space}
use forge_go.Portable.Errors.{
  AbiError, Result, ok, err, ◌>>=◌, ◌>>◌, refuse_if, new_abi_error, invalid_json, duplicate_field,
  unknown_field, invalid_request, invalid_utf8,
}

pub data Token : Type 0 where
  open_object close_object open_array close_array scalar broken : Token
  text : Bytes → Token

-- What a scan gives: the tokens that are left, an error, or no answer for want of fuel.
pub data Scan : Type 0 where
  done : List Token → Scan
  failed : AbiError → Scan
  spent : Scan

infixl 5 ◌then◌
abbrev ◌then◌ : Scan → (List Token → Scan) → Scan
done ts then f = f ts
failed e then f = failed e
spent then f = spent

abbrev pub malformed : Scan
malformed = failed (new_abi_error invalid_json [])

abbrev pub contains : List Bytes → Bytes → Bool
contains [] k = false
contains (j ∷ js) k = equal j k || contains js k

-- `decoder.More()`.
pub more : List Token → Bool
more [] = false
more (close_object ∷ _) = false
more (close_array ∷ _) = false
more (_ ∷ _) = true

-- The closing token behind a loop.
pub close_object_at : List Token → Scan
close_object_at (close_object ∷ rest) = done rest
close_object_at _ = malformed

pub close_array_at : List Token → Scan
close_array_at (close_array ∷ rest) = done rest
close_array_at _ = malformed

-- `scanValue`, and its two loops. Each call takes one unit of fuel; the depth is that of the value.
mutual
  pub scan_value : ℕ → ℤ → ℕ → List Token → Scan
  scan_value zero max depth ts = spent
  scan_value (suc f) max depth ts =
      let value : Scan = elim ts [
        | [] ↦ malformed
        | t ∷ rest ↦ elim t [
          | open_object ↦ scan_fields f max depth [] rest
          | open_array ↦ scan_items f max depth rest
          | scalar ↦ done rest
          | text _ ↦ done rest
          | _ ↦ malformed
        ]
      ] in
      if lt_int max (pos depth) then malformed else value

  -- The keys seen so far; the tokens start behind the last field.
  pub scan_fields : ℕ → ℤ → ℕ → List Bytes → List Token → Scan
  scan_fields zero max depth seen ts = spent
  scan_fields (suc f) max depth seen ts =
      let field : Scan = elim ts [
        | [] ↦ malformed
        | t ∷ rest ↦ elim t [
          | text key ↦
              let later =
                scan_value f max (depth + 1) rest then scan_fields f max depth (key ∷ seen) in
              if contains seen key then failed (new_abi_error duplicate_field key) else later
          | _ ↦ malformed
        ]
      ] in
      if more ts then field else close_object_at ts

  pub scan_items : ℕ → ℤ → ℕ → List Token → Scan
  scan_items zero max depth ts = spent
  scan_items (suc f) max depth ts =
      let later = scan_value f max (depth + 1) ts then scan_items f max depth in
      if more ts then later else close_array_at ts

abbrev pub finish : Scan → Result (Unit {0})
finish (done []) = ok tt
finish (done (_ ∷ _)) = err (new_abi_error invalid_json [])
finish (failed e) = err e
finish spent = err (new_abi_error invalid_json [])

-- Two calls of the scanner to a token are enough: see `scan_value-ne-spent`.
abbrev pub enough : List Token → ℕ
enough ts = suc (length ts + length ts)

pub validate_json_structure : List Token → ℤ → Result (Unit {0})
validate_json_structure ts max = finish (scan_value (enough ts) max 1 ts)

-- `Decode` into a struct, and whether only the end of the input is left.
pub data Decoding (A : Type 0) : Type 0 where
  decoded : A → Bool → Decoding A
  unknown malformed_value : Decoding A

-- What the package takes from `encoding/json`.
pub record Reader : Type 0 where
  pub tokens : Bytes → List Token
  pub fields : Bytes → Option (Bytes → Option Bytes)

module _ {A : Type 0} (reader : Reader) (decode : Bytes → Decoding A) where
  abbrev checked : Decoding A → Result A
  checked (decoded a true) = ok a
  checked (decoded a false) = err (new_abi_error invalid_json [])
  checked unknown = err (new_abi_error unknown_field [])
  checked malformed_value = err (new_abi_error invalid_json [])

  pub strict_decode : Bytes → ℤ → Result A
  strict_decode document max_depth =
      refuse_if (not (valid document)) invalid_utf8 []
      >> validate_json_structure (reader.tokens document) max_depth
      >> checked (decode document)

  abbrev starts_with : ℕ → Bytes → Bool
  starts_with c [] = false
  starts_with c (b ∷ _) = b == c

  pub strict_decode_object : Bytes → ℤ → Result A
  strict_decode_object document max_depth =
      let trimmed = trim_space document in
      refuse_if
        (ltb (length trimmed) 2
          || not (starts_with b'{' trimmed)
          || not (starts_with b'}' (reverse trimmed)))
        invalid_json (codes "payload")
      >> strict_decode trimmed max_depth

abbrev missing : Option Bytes → Bool
missing none = true
missing (some value) = equal (trim_space value) (codes "null")

pub require_fields : (Bytes → Option Bytes) → List Bytes → Result (Unit {0})
require_fields object [] = ok tt
require_fields object (field ∷ rest) =
    refuse_if (missing (object field)) invalid_request (codes "payload." ++ field)
    >> require_fields object rest

abbrev with_object : Option (Bytes → Option Bytes) → List Bytes → Result (Unit {0})
with_object none names = err (new_abi_error invalid_json (codes "payload"))
with_object (some object) names = require_fields object names

pub require_json_fields : Reader → Bytes → List Bytes → Result (Unit {0})
require_json_fields reader document names = with_object (reader.fields document) names
