-- ===== src/Portable/Text.antt =====
-- share/portable/text.go: normalisation and validation of text. The payloads are the decoded
-- structs; decoding them is in Portable/Json.
pub mod Normalize
pub mod Rules
pub mod Tests
use forge_go.Prelude.{
  ℕ, zero, suc, ◌+◌, Bool, true, false, not, ◌&&◌, ◌||◌, List, [], ◌∷◌, ◌++◌, ℤ, pos, lt_int, ltb,
  leb, if◌then◌else◌, length, drop, Bytes, codes, has_prefix,
}
use Prim.Native.Nat.{◌-◌}
use mathlib.Core.List.{reverse}
use forge_go.Prelude.Utf8.{within, runes, valid, encode, is_space, is_control}
use forge_go.Prelude.Utf8.Trim.{trim_space}
use forge_go.Portable.Errors.{
  AbiError, Result, ok, err, ◌>>=◌, ◌>>◌, refuse_if, new_abi_error, invalid_utf8, input_too_large,
  invalid_request,
}
use forge_go.Portable.Abi.{Limits}

pub record NormalizePayload : Type 0 where
  pub value : Bytes
  pub trim : Bool
  pub collapse_whitespace : Bool
  pub lowercase_ascii : Bool

pub record ValidationRules : Type 0 where
  pub required : Bool
  pub ascii : Bool
  pub forbid_control : Bool
  pub forbid_whitespace : Bool
  pub min_bytes : ℤ
  pub max_bytes : ℤ
  pub min_runes : ℤ
  pub max_runes : ℤ
  pub prefix : Bytes
  pub suffix : Bytes

pub record ValidatePayload : Type 0 where
  pub value : Bytes
  pub rules : ValidationRules

-- `validationViolation.Code`.
pub data Violation : Type 0 where
  required min_bytes max_bytes min_runes max_runes ascii control whitespace prefix suffix :
      Violation

pub record ValidateResult : Type 0 where
  pub valid : Bool
  pub violations : List Violation

abbrev pub is_empty {ℓ} : {A : Type ℓ} → List A → Bool
is_empty [] = true
is_empty (_ ∷ _) = false

-- The loop of `collapseWhitespace`; the flag is `inWhitespace`, which after each rune says whether
-- that rune was white space.
pub collapse_runes : Bool → List ℕ → List ℕ
collapse_runes in_whitespace [] = []
collapse_runes in_whitespace (r ∷ rs) =
    let rest = collapse_runes (is_space r) rs in
    if is_space r then if in_whitespace then rest else 0x20 ∷ rest else r ∷ rest

pub collapse_whitespace : Bytes → Bytes
collapse_whitespace value = encode (collapse_runes false (runes value))

abbrev pub lower_rune : ℕ → ℕ
lower_rune r = if within b'A' b'Z' r then r + (b'a' - b'A') else r

pub lower_runes : List ℕ → List ℕ
lower_runes [] = []
lower_runes (r ∷ rs) = lower_rune r ∷ lower_runes rs

pub lowercase_ascii : Bytes → Bytes
lowercase_ascii value = encode (lower_runes (runes value))

-- `normalize` behind the decoding of its payload.
pub normalize : Limits → NormalizePayload → Result Bytes
normalize limits input =
    refuse_if (not (valid input.value)) invalid_utf8 (codes "payload.value")
    >> refuse_if (lt_int limits.max_string_bytes (pos (length input.value))) input_too_large
        (codes "payload.value")
    >> let trimmed = if input.trim then trim_space input.value else input.value in
      let collapsed = if input.collapse_whitespace then collapse_whitespace trimmed else trimmed in
      ok (if input.lowercase_ascii then lowercase_ascii collapsed else collapsed)

abbrev negative : ℤ → Bool
negative a = lt_int a (pos 0)

abbrev positive : ℤ → Bool
positive a = lt_int (pos 0) a

pub validate_rules : ValidationRules → ℤ → Result (Unit {0})
validate_rules rules maximum =
    refuse_if
      (negative rules.min_bytes
        || negative rules.max_bytes
        || negative rules.min_runes
        || negative rules.max_runes
        || lt_int maximum rules.min_bytes
        || lt_int maximum rules.max_bytes
        || lt_int maximum rules.min_runes
        || lt_int maximum rules.max_runes
        || (positive rules.max_bytes && lt_int rules.max_bytes rules.min_bytes)
        || (positive rules.max_runes && lt_int rules.max_runes rules.min_runes))
      invalid_request (codes "payload.rules")

pub is_ascii : Bytes → Bool
is_ascii [] = true
is_ascii (b ∷ bs) = if ltb 0x7f b then false else is_ascii bs

pub contains_control : List ℕ → Bool
contains_control [] = false
contains_control (r ∷ rs) = if is_control r then true else contains_control rs

pub contains_whitespace : List ℕ → Bool
contains_whitespace [] = false
contains_whitespace (r ∷ rs) = if is_space r then true else contains_whitespace rs

-- `strings.HasSuffix`
abbrev pub has_suffix : Bytes → Bytes → Bool
has_suffix s t = has_prefix (reverse s) (reverse t)

-- One `if` of `validate`: the code is appended where the rule is broken.
abbrev pub report : Bool → Violation → List Violation → List Violation
report broken code violations = if broken then violations ++ code ∷ [] else violations

pub find_violations : ValidationRules → Bytes → List Violation
find_violations rules value =
    let rune_count = length (runes value) in
    let v1 = report (rules.required && is_empty value) Violation.required [] in
    let v2 =
      report (positive rules.min_bytes && lt_int (pos (length value)) rules.min_bytes)
        Violation.min_bytes v1 in
    let v3 =
      report (positive rules.max_bytes && lt_int rules.max_bytes (pos (length value)))
        Violation.max_bytes v2 in
    let v4 =
      report (positive rules.min_runes && lt_int (pos rune_count) rules.min_runes)
        Violation.min_runes v3 in
    let v5 =
      report (positive rules.max_runes && lt_int rules.max_runes (pos rune_count))
        Violation.max_runes v4 in
    let v6 = report (rules.ascii && not (is_ascii value)) Violation.ascii v5 in
    let v7 = report (rules.forbid_control && contains_control (runes value)) Violation.control v6 in
    let v8 =
      report (rules.forbid_whitespace && contains_whitespace (runes value)) Violation.whitespace
        v7 in
    let v9 =
      report (not (is_empty rules.prefix) && not (has_prefix value rules.prefix)) Violation.prefix
        v8 in
    report (not (is_empty rules.suffix) && not (has_suffix value rules.suffix)) Violation.suffix v9

-- `validate` behind the decoding of its payload.
pub validate : Limits → ValidatePayload → Result ValidateResult
validate limits input =
    refuse_if
      (not (valid input.value) || not (valid input.rules.prefix) || not (valid input.rules.suffix))
      invalid_utf8 (codes "payload")
    >> refuse_if
        (lt_int limits.max_string_bytes (pos (length input.value))
          || lt_int limits.max_string_bytes (pos (length input.rules.prefix))
          || lt_int limits.max_string_bytes (pos (length input.rules.suffix)))
        input_too_large (codes "payload")
    >> validate_rules input.rules limits.max_string_bytes
    >> let violations = find_violations input.rules input.value in
      ok (record { valid = is_empty violations; violations = violations })
