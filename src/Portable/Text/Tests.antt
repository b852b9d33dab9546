-- ===== src/Portable/Text/Tests.antt =====
-- share/portable/text.go on concrete texts.
use forge_go.Prelude.{◌≡◌, ◌↔◌, refl, true, false, [], ◌∷◌, pos, codes, has_prefix}
use forge_go.Prelude.Utf8.{valid_from, decode, runes_from, is_space, is_control}
use forge_go.Portable.Errors.{ok}
use forge_go.Portable.Abi.{default_limits}
use forge_go.Portable.Text.{
  Violation, ValidationRules, ValidatePayload, ValidateResult, find_violations, validate, is_ascii,
  contains_control, contains_whitespace, validate_rules,
}
use forge_go.Portable.Text.Rules.{Broken, member, validate_reports}

-- An ASCII text with a capital prefix, no spaces, and at most three bytes.
abbrev rules : ValidationRules
rules = record {
  required = true;
  min_bytes = pos 0;
  max_bytes = pos 3;
  min_runes = pos 0;
  max_runes = pos 0;
  ascii = true;
  forbid_control = true;
  forbid_whitespace = true;
  prefix = codes "A";
  suffix = [];
}

abbrev payload : ValidatePayload
payload = record { value = codes "b cd"; rules = rules }

abbrev report_of : ValidateResult
report_of = record {
  valid = false;
  violations = Violation.max_bytes ∷ Violation.whitespace ∷ Violation.prefix ∷ [];
}

validate-payload : validate default_limits payload ≡ ok report_of
unfolding validate validate_rules find_violations is_ascii contains_control contains_whitespace
    valid_from decode has_prefix runes_from is_space is_control
validate-payload = refl

validate_reports_example :
    ((c : Violation) → (member c report_of.violations ≡ true) ↔ Broken rules (codes "b cd") c)
    × ((false ≡ true) ↔ ((c : Violation) → ¬ Broken rules (codes "b cd") c))
validate_reports_example = validate_reports default_limits payload report_of validate-payload
