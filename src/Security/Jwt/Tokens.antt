-- ===== src/Security/Jwt/Tokens.antt =====
-- The tokens of security/auth/jwt/jwt.go: how one is parsed, checked and decoded. What the
-- code takes of encoding/json, strconv and float64 is the record `Platform`.
use forge_go.Prelude.{
  ℕ, Bool, true, false, not, ◌||◌, List, [], ◌∷◌, ◌++◌, Option, none, some, ℤ, Bytes, equal, ◌==◌,
  if◌then◌else◌,
}
use forge_go.Prelude.Utf8.{within}
use forge_go.Prelude.Utf8.Trim.{trim_space}
use forge_go.Security.Jwt.Segment.{decode_segment}
use forge_go.Security.Jwt.Strategy.{
  Context, JwtError, nil_strategy, invalid_token, unexpected_alg, nil_destination,
  missing_validation, invalid_expiration_claim, invalid_not_before_claim, token_expired,
  token_not_yet_valid, header_not_decoded, header_not_parsed, claims_not_decoded,
  signature_not_decoded, claims_not_parsed, Answer, accepted, rejected, Strategy, Crypto, algorithm,
  verify_strategy,
}
use forge_go.Security.Jwt.Service.{Header, Token, Validator, Float64, Service}

-- `times` gives the raw values of `exp` and `nbf`, empty where there is none.
pub record Platform : Type 0 where
  pub crypto : Crypto
  pub marshal_header : Header → Option Bytes
  pub unmarshal_header : Bytes → Option Header
  pub json_valid : Bytes → Bool
  pub times : Bytes → Option (Bytes × Bytes)
  pub parse_float : Bytes → Option Float64
  pub is_inf : Float64 → Bool
  pub is_nan : Float64 → Bool
  pub plus : Float64 → Float64 → Float64
  pub at_least : Float64 → Float64 → Bool
  pub less : Float64 → Float64 → Bool
  pub seconds : ℤ → Float64
  pub now : Float64
  pub background : Context
  pub with_timeout : ℤ → Context → Context

infixl 20 ◌>>=◌
abbrev pub ◌>>=◌ {ℓ κ} : {A : Type ℓ} {B : Type κ} → Answer A → (A → Answer B) → Answer B
rejected problem >>= next = rejected problem
accepted a >>= next = next a

abbrev pub require : Bool → JwtError → Answer {0} Unit
require true problem = accepted tt
require false problem = rejected problem

abbrev pub present {ℓ} : {A : Type ℓ} → JwtError → Option A → Answer A
present problem none = rejected problem
present problem (some a) = accepted a

abbrev pub no_error : Option JwtError → Answer {0} Unit
no_error none = accepted tt
no_error (some problem) = rejected problem

-- `contextFor`
abbrev pub context_for : Platform → Service → Option Context → Context
context_for p service none =
    if service.context_timeout_on
    then p.with_timeout service.context_timeout p.background
    else p.background
context_for p service (some ctx) =
    if service.context_timeout_on then p.with_timeout service.context_timeout ctx else ctx

abbrev pub joined : Bytes → Bytes → Bytes
joined left right = left ++ b'.' ∷ right

-- `strings.Split` at the dots.
unfoldable pub cons_first : ℕ → List Bytes → List Bytes
cons_first c [] = (c ∷ []) ∷ []
cons_first c (part ∷ parts) = (c ∷ part) ∷ parts

unfoldable pub split_dots : Bytes → List Bytes
unfolding cons_first
split_dots [] = [] ∷ []
split_dots (c ∷ cs) = let rest = split_dots cs in if c == b'.' then [] ∷ rest else cons_first c rest

unfoldable pub starts_number : ℕ → Bool
starts_number c = c == b'-' || within b'0' b'9' c

abbrev pub finite : Platform → JwtError → Float64 → Answer (Option Float64)
finite p problem seconds =
    if p.is_inf seconds || p.is_nan seconds then rejected problem else accepted (some seconds)

unfoldable pub numeric_value : Platform → JwtError → Bytes → Answer (Option Float64)
unfolding starts_number
numeric_value p problem [] = accepted none
numeric_value p problem (c ∷ cs) = require (starts_number c) problem >>= λ _.
    present problem (p.parse_float (c ∷ cs)) >>= finite p problem

unfoldable pub numeric_date_claim : Platform → JwtError → Bytes → Answer (Option Float64)
unfolding numeric_value
numeric_date_claim p problem value = numeric_value p problem (trim_space value)

-- The reading of the clock, and the two comparisons.
abbrev pub reading : Platform → Service → Float64
reading p service = elim service.clock [ none ↦ p.now | some clock ↦ clock ]

abbrev pub is_expired : Platform → Service → Option Float64 → Bool
is_expired p service none = false
is_expired p service (some expiration) =
    p.at_least (reading p service) (p.plus expiration (p.seconds service.leeway))

abbrev pub is_early : Platform → Service → Option Float64 → Bool
is_early p service none = false
is_early p service (some not_before) =
    p.less (p.plus (reading p service) (p.seconds service.leeway)) not_before

unfoldable pub validate_times : Platform → Service → Option (Bytes × Bytes) → Answer {0} Unit
validate_times p service none = rejected claims_not_parsed
validate_times p service (some (exp, nbf)) =
    numeric_date_claim p invalid_expiration_claim exp >>= λ expiration.
    numeric_date_claim p invalid_not_before_claim nbf >>= λ not_before.
    require (not (is_expired p service expiration)) token_expired >>= λ _.
    require (not (is_early p service not_before)) token_not_yet_valid

abbrev pub is_object : Bytes → Bool
is_object [] = false
is_object (c ∷ _) = c == b'{'

unfoldable pub validate_registered_time_claims : Platform → Service → Bytes → Answer {0} Unit
unfolding validate_times
validate_registered_time_claims p service claims =
    let trimmed = trim_space claims in
    require (p.json_valid trimmed) claims_not_parsed >>= λ _.
    if is_object trimmed then validate_times p service (p.times trimmed) else accepted tt

unfoldable pub validate_parts :
    Platform → Service → Context → Strategy → Bytes → List Bytes → Answer Token
validate_parts p service ctx strategy token (head ∷ body ∷ last ∷ []) =
    present header_not_decoded (decode_segment head) >>= λ header_bytes.
    present header_not_parsed (p.unmarshal_header header_bytes) >>= λ header.
    require (equal header.algorithm_name (algorithm strategy)) unexpected_alg >>= λ _.
    present claims_not_decoded (decode_segment body) >>= λ claims.
    present signature_not_decoded (decode_segment last) >>= λ signature.
    no_error (verify_strategy p.crypto ctx strategy (joined head body) signature) >>= λ _.
    validate_registered_time_claims p service claims >>= λ _.
    accepted (record { raw = token; header = header; claims = claims; signature = last })
validate_parts p service ctx strategy token _ = rejected invalid_token

unfoldable pub parse_with : Platform → Service → Context → Bytes → Option Strategy → Answer Token
unfolding validate_parts
parse_with p service ctx token none = rejected nil_strategy
parse_with p service ctx token (some strategy) =
    validate_parts p service ctx strategy token (split_dots token)

unfoldable pub parse_and_validate : Platform → Service → Context → Bytes → Answer Token
unfolding parse_with
parse_and_validate p service ctx token = parse_with p service ctx token service.strategy

unfoldable pub validate_signature_with_context :
    Platform → Service → Option Context → Bytes → Answer {0} Unit
validate_signature_with_context p service ctx token =
    parse_and_validate p service (context_for p service ctx) token >>= λ _. accepted tt

unfoldable pub run_validators : Context → Token → List (Option Validator) → Answer {0} Unit
run_validators ctx token [] = accepted tt
run_validators ctx token (none ∷ validators) = rejected missing_validation
run_validators ctx token (some validator ∷ validators) =
    let rest = run_validators ctx token validators in no_error (validator ctx token) >>= λ _. rest

-- A destination is what `json.Unmarshal` into it answers.
unfoldable pub decode_token :
    Platform
    → Service
    → Option Context
    → Bytes
    → Option (Bytes → Option JwtError)
    → List (Option Validator)
    → Answer Token
decode_token p service ctx token none validators = rejected nil_destination
decode_token p service ctx token (some destination) validators =
    let bounded = context_for p service ctx in
    parse_and_validate p service bounded token >>= λ parsed.
    no_error (destination parsed.claims) >>= λ _.
    run_validators bounded parsed (service.validators ++ validators) >>= λ _. accepted parsed
