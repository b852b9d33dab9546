-- ===== src/Portable/Text/Rules.antt =====
-- share/portable/text.go: `validate` reports exactly the rules that the text breaks.
use mathlib.Core.Logic.{ite}
use mathlib.Core.List.{reverse, reverse-append, reverse-reverse}
use forge_go.Prelude.{
  ℕ, ◌<◌, ◌≡◌, ◌≢◌, ◌↔◌, refl, sym, ap, ◌∙◌, Bool, true, false, not, ◌&&◌, ◌||◌, List, [], ◌∷◌,
  ◌++◌, arith, All, Bytes, Bool-cases, inl, inr, length, pos, lt_int, has_prefix, has_prefix_iff,
}
use forge_go.Prelude.Utf8.{runes, is_space, is_control}
use forge_go.Portable.Errors.{ok}
use forge_go.Portable.Abi.{Limits}
use forge_go.Portable.Text.{
  Violation, ValidationRules, ValidatePayload, ValidateResult, find_violations, validate, is_ascii,
  contains_control, contains_whitespace, has_suffix, is_empty, report, validate_rules,
}

Violation-discrete : Discrete Violation
Violation-discrete = hlevel

abbrev same : Violation → Violation → Bool
same a b = ite (Violation-discrete a b) true false

pub member : Violation → List Violation → Bool
unfolding Violation-discrete
member c [] = false
member c (d ∷ ds) = same c d || member c ds

member-append :
    (c : Violation) (xs ys : List Violation) → member c (xs ++ ys) ≡ (member c xs || member c ys)
unfolding member
member-append c [] ys = refl
member-append c (x ∷ xs) ys = ground (arith, member-append c xs ys)

member-report :
    (c d : Violation) (broken : Bool) (vs : List Violation)
    → member c (report broken d vs) ≡ (member c vs || (broken && member c (d ∷ [])))
member-report c d true vs = member-append c vs (d ∷ [])
member-report c d false vs = ground arith

-- What it means that a text breaks the rule with the given code.
abbrev pub Broken : ValidationRules → Bytes → Violation → Type 0
Broken r v Violation.required = (r.required ≡ true) × (v ≡ [])
Broken r v Violation.min_bytes =
    (lt_int (pos 0) r.min_bytes ≡ true) × (lt_int (pos (length v)) r.min_bytes ≡ true)
Broken r v Violation.max_bytes =
    (lt_int (pos 0) r.max_bytes ≡ true) × (lt_int r.max_bytes (pos (length v)) ≡ true)
Broken r v Violation.min_runes =
    (lt_int (pos 0) r.min_runes ≡ true) × (lt_int (pos (length (runes v))) r.min_runes ≡ true)
Broken r v Violation.max_runes =
    (lt_int (pos 0) r.max_runes ≡ true) × (lt_int r.max_runes (pos (length (runes v))) ≡ true)
Broken r v Violation.ascii = (r.ascii ≡ true) × ¬ All (λ b. b < 128) v
Broken r v Violation.control =
    (r.forbid_control ≡ true) × ¬ All (λ c. is_control c ≡ false) (runes v)
Broken r v Violation.whitespace =
    (r.forbid_whitespace ≡ true) × ¬ All (λ c. is_space c ≡ false) (runes v)
Broken r v Violation.prefix = (r.prefix ≢ []) × ¬ ((u : Bytes) × (v ≡ r.prefix ++ u))
Broken r v Violation.suffix = (r.suffix ≢ []) × ¬ ((u : Bytes) × (v ≡ u ++ r.suffix))

is_ascii_iff : (v : Bytes) → (is_ascii v ≡ true) ↔ All (λ b. b < 128) v
unfolding is_ascii
is_ascii_iff [] = ((λ _. tt), (λ _. refl))
is_ascii_iff (b ∷ bs) = ground (arith, is_ascii_iff bs)

pub contains_control_iff :
    (rs : List ℕ) → (contains_control rs ≡ false) ↔ All (λ c. is_control c ≡ false) rs
unfolding contains_control
contains_control_iff [] = ((λ _. tt), (λ _. refl))
contains_control_iff (b ∷ bs) = ground (arith, contains_control_iff bs)

contains_whitespace_iff :
    (rs : List ℕ) → (contains_whitespace rs ≡ false) ↔ All (λ c. is_space c ≡ false) rs
unfolding contains_whitespace
contains_whitespace_iff [] = ((λ _. tt), (λ _. refl))
contains_whitespace_iff (b ∷ bs) = ground (arith, contains_whitespace_iff bs)

has_suffix_iff :
    (s t : Bytes) → (has_prefix (reverse s) (reverse t) ≡ true) ↔ ((u : Bytes) × (s ≡ u ++ t))
has_suffix_iff s t = (found, starts)
  where
    found : has_prefix (reverse s) (reverse t) ≡ true → (u : Bytes) × (s ≡ u ++ t)
    found h =
        let (u, e) = (has_prefix_iff (reverse s) (reverse t)).0 h in
        (
          reverse u,
          sym (reverse-reverse s)
              ∙ ap reverse e
              ∙ reverse-append (reverse t) u
              ∙ ap (◌++◌ (reverse u)) (reverse-reverse t),
        )

    starts : ((u : Bytes) × (s ≡ u ++ t)) → has_prefix (reverse s) (reverse t) ≡ true
    starts p =
        (has_prefix_iff (reverse s) (reverse t)).1
          (reverse p.0, ap reverse p.1 ∙ reverse-append p.0 t)

pub is_empty_iff {ℓ} : {A : Type ℓ} (xs : List A) → (is_empty xs ≡ true) ↔ (xs ≡ [])
is_empty_iff [] = ((λ _. refl), (λ _. refl))
is_empty_iff (x ∷ xs) = ((λ e. cc), (λ e. cc))

and_false : (b : Bool) → (b && false) ≡ false
and_false true = refl
and_false false = refl

and_true : (b : Bool) → (b && true) ≡ b
and_true true = refl
and_true false = refl

or_false : (b : Bool) → (b || false) ≡ b
or_false true = refl
or_false false = refl

ruleset reports = (member-report, and_false, and_true, or_false)

-- The test that `validate` makes for a code.
abbrev tested : ValidationRules → Bytes → Violation → Bool
tested r v Violation.required = r.required && is_empty v
tested r v Violation.min_bytes = lt_int (pos 0) r.min_bytes && lt_int (pos (length v)) r.min_bytes
tested r v Violation.max_bytes = lt_int (pos 0) r.max_bytes && lt_int r.max_bytes (pos (length v))
tested r v Violation.min_runes =
    lt_int (pos 0) r.min_runes && lt_int (pos (length (runes v))) r.min_runes
tested r v Violation.max_runes =
    lt_int (pos 0) r.max_runes && lt_int r.max_runes (pos (length (runes v)))
tested r v Violation.ascii = r.ascii && not (is_ascii v)
tested r v Violation.control = r.forbid_control && contains_control (runes v)
tested r v Violation.whitespace = r.forbid_whitespace && contains_whitespace (runes v)
tested r v Violation.prefix = not (is_empty r.prefix) && not (has_prefix v r.prefix)
tested r v Violation.suffix = not (is_empty r.suffix) && not (has_suffix v r.suffix)

member-tested :
    (r : ValidationRules) (v : Bytes) (c : Violation)
    → member c (find_violations r v) ≡ tested r v c
unfolding find_violations member
member-tested r v Violation.required = simp reports
member-tested r v _ = simp reports

tested_iff :
    (r : ValidationRules) (v : Bytes) (c : Violation) → (tested r v c ≡ true) ↔ Broken r v c
tested_iff r v Violation.required = ground (arith, is_empty_iff v)
tested_iff r v Violation.ascii = ground (arith, is_ascii_iff v)
tested_iff r v Violation.control = ground (arith, contains_control_iff (runes v))
tested_iff r v Violation.whitespace = ground (arith, contains_whitespace_iff (runes v))
tested_iff r v Violation.prefix = ground (arith, is_empty_iff r.prefix, has_prefix_iff v r.prefix)
tested_iff r v Violation.suffix = ground (arith, is_empty_iff r.suffix, has_suffix_iff v r.suffix)
tested_iff r v _ = ground arith

find_violations_iff :
    (r : ValidationRules) (v : Bytes) (c : Violation)
    → (member c (find_violations r v) ≡ true) ↔ Broken r v c
find_violations_iff r v c = rw (member-tested r v c) (tested_iff r v c)

nonempty-member :
    (cs : List Violation) → is_empty cs ≡ false → (c : Violation) × (member c cs ≡ true)
unfolding member
nonempty-member [] h = cc
nonempty-member (c ∷ cs) h = (c, first c)
  where
    first : (c : Violation) → member c (c ∷ cs) ≡ true
    first Violation.required = refl
    first _ = refl

not_member : (c : Violation) (cs : List Violation) → cs ≡ [] → ¬ (member c cs ≡ true)
unfolding member
not_member c [] e h = cc
not_member c (x ∷ cs) e h = cc

none-Broken :
    (r : ValidationRules) (v : Bytes)
    → (is_empty (find_violations r v) ≡ true) ↔ ((c : Violation) → ¬ Broken r v c)
none-Broken r v = (clean, silent)
  where
    clean : is_empty (find_violations r v) ≡ true → (c : Violation) → ¬ Broken r v c
    clean h c b = not_member c _ ((is_empty_iff _).0 h) ((find_violations_iff r v c).1 b)

    silent : ((c : Violation) → ¬ Broken r v c) → is_empty (find_violations r v) ≡ true
    silent h = elim (Bool-cases (is_empty (find_violations r v))) [
      | inl e ↦ e
      | inr e ↦ let (c, m) = nonempty-member _ e in absurd (h c ((find_violations_iff r v c).0 m))
    ]

validate-eq-ok :
    (l : Limits) (p : ValidatePayload) (r : ValidateResult)
    → validate l p ≡ ok r
    → r ≡ record {
      valid = is_empty (find_violations p.rules p.value);
      violations = find_violations p.rules p.value;
    }
unfolding validate validate_rules
validate-eq-ok l p r h = ground arith

-- A text that `validate` judges is reported with exactly the codes of the rules that it breaks, as
-- the rules are meant: bytes and decoded runes are counted against the bounds that are set, and
-- a prefix or suffix is a part of the text. It is valid exactly when it breaks none.
pub validate_reports :
    (l : Limits) (p : ValidatePayload) (r : ValidateResult)
    → validate l p ≡ ok r
    → ((c : Violation) → (member c r.violations ≡ true) ↔ Broken p.rules p.value c)
      × ((r.valid ≡ true) ↔ ((c : Violation) → ¬ Broken p.rules p.value c))
validate_reports l p r h =
    rw (validate-eq-ok l p r h) (find_violations_iff p.rules p.value, none-Broken p.rules p.value)
