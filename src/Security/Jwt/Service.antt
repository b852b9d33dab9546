-- ===== src/Security/Jwt/Service.antt =====
-- The service of security/auth/jwt/jwt.go and its options. A nil function, key or option is `none`.
use forge_go.Prelude.{
  ℕ, Bool, true, false, List, [], ◌∷◌, ◌++◌, Option, none, some, ℤ, pos, lt_int, le_int, Bytes,
  if◌then◌else◌,
}
use forge_go.Prelude.Utf8.Trim.{trim_space}
use forge_go.Security.Jwt.Strategy.{
  Context, JwtError, nil_strategy, missing_secret, missing_private_key, missing_public_key,
  missing_eddsa_private_key, missing_eddsa_public_key, nil_validator, missing_algorithm,
  missing_sign_func, missing_verify_func, nil_clock, invalid_leeway, Answer, accepted, rejected,
  Callbacks, Strategy, hmac_sha256, rsa_sha256, rsa_pss_sha256, ed25519_strategy, custom,
}

pub record Header : Type 0 where
  pub type_name : Bytes
  pub algorithm_name : Bytes

pub record Token : Type 0 where
  pub raw : Bytes
  pub header : Header
  pub claims : Bytes
  pub signature : Bytes

abbrev pub Validator : Type 0
Validator = Context → Token → Option JwtError

-- A float64 is its bit pattern; a clock is what it reads, in seconds.
abbrev pub Float64 : Type 0
Float64 = ℕ

pub record Service : Type 0 where
  pub strategy : Option Strategy
  pub validators : List (Option Validator)
  pub clock : Option Float64
  pub leeway : ℤ
  pub context_timeout : ℤ
  pub context_timeout_on : Bool

pub data ServiceOption : Type 0 where
  with_hmac_sha256 : Bytes → ServiceOption
  with_rsa_sha256 with_rsa_pss_sha256 : Option Bytes → Option Bytes → ServiceOption
  with_ed25519 : Bytes → Bytes → ServiceOption
  with_custom_strategy : Bytes → Callbacks → ServiceOption
  with_strategy : Option Strategy → ServiceOption
  with_validator : Option Validator → ServiceOption
  with_clock : Option Float64 → ServiceOption
  with_leeway with_context_timeout : ℤ → ServiceOption

abbrev pub set_strategy : Service → Strategy → Service
set_strategy service strategy = record service { strategy = some strategy }

unfoldable pub set_keys :
    (Option Bytes → Option Bytes → Strategy)
    → Option Bytes
    → Option Bytes
    → Service
    → Answer Service
set_keys new none public service = rejected missing_private_key
set_keys new (some private) none service = rejected missing_public_key
set_keys new (some private) (some public) service =
    accepted (set_strategy service (new (some private) (some public)))

unfoldable pub set_ed25519 : Bytes → Bytes → Service → Answer Service
set_ed25519 [] public service = rejected missing_eddsa_private_key
set_ed25519 (k ∷ private) [] service = rejected missing_eddsa_public_key
set_ed25519 (k ∷ private) (l ∷ public) service =
    accepted (set_strategy service (ed25519_strategy (k ∷ private) (l ∷ public)))

unfoldable pub with_callbacks :
    Bytes
    → Option (Context → Bytes → Answer Bytes)
    → Option (Context → Bytes → Bytes → Option JwtError)
    → Answer Strategy
with_callbacks name none verify = rejected missing_sign_func
with_callbacks name (some sign) none = rejected missing_verify_func
with_callbacks name (some sign) (some verify) =
    accepted (custom name (record { sign = some sign; verify = some verify }))

unfoldable pub checked_callbacks : Bytes → Callbacks → Answer Strategy
unfolding with_callbacks
checked_callbacks [] callbacks = rejected missing_algorithm
checked_callbacks (c ∷ name) callbacks = with_callbacks (c ∷ name) callbacks.sign callbacks.verify

unfoldable pub new_custom_strategy : Bytes → Callbacks → Answer Strategy
unfolding checked_callbacks
new_custom_strategy name callbacks = checked_callbacks (trim_space name) callbacks

unfoldable pub set_custom : Service → Answer Strategy → Answer Service
set_custom service (rejected problem) = rejected problem
set_custom service (accepted strategy) = accepted (set_strategy service strategy)

abbrev pub timed : ℤ → Service → Service
timed timeout service =
    if le_int timeout (pos 0)
    then record service { context_timeout = pos 0; context_timeout_on = false }
    else record service { context_timeout = timeout; context_timeout_on = true }

-- The functions that the options are.
unfoldable pub apply_option : ServiceOption → Service → Answer Service
unfolding set_keys set_ed25519 set_custom
apply_option (with_hmac_sha256 []) service = rejected missing_secret
apply_option (with_hmac_sha256 (b ∷ secret)) service =
    accepted (set_strategy service (hmac_sha256 (b ∷ secret)))
apply_option (with_rsa_sha256 private public) service = set_keys rsa_sha256 private public service
apply_option (with_rsa_pss_sha256 private public) service =
    set_keys rsa_pss_sha256 private public service
apply_option (with_ed25519 private public) service = set_ed25519 private public service
apply_option (with_custom_strategy name callbacks) service =
    set_custom service (new_custom_strategy name callbacks)
apply_option (with_strategy none) service = rejected nil_strategy
apply_option (with_strategy (some strategy)) service = accepted (set_strategy service strategy)
apply_option (with_validator none) service = rejected nil_validator
apply_option (with_validator (some validator)) service =
    accepted (record service { validators = service.validators ++ some validator ∷ [] })
apply_option (with_clock none) service = rejected nil_clock
apply_option (with_clock (some clock)) service = accepted (record service { clock = some clock })
apply_option (with_leeway leeway) service =
    if lt_int leeway (pos 0)
    then rejected invalid_leeway
    else accepted (record service { leeway = leeway })
apply_option (with_context_timeout timeout) service = accepted (timed timeout service)

unfoldable pub apply_options : List (Option ServiceOption) → Service → Answer Service
apply_options [] service = accepted service
apply_options (none ∷ options) service = apply_options options service
apply_options (some option ∷ options) service = elim (apply_option option service) [
  | rejected problem ↦ rejected problem
  | accepted changed ↦ apply_options options changed
]

abbrev pub first_service : Float64 → Service
first_service now = record {
  strategy = none;
  validators = [];
  clock = some now;
  leeway = pos 0;
  context_timeout = pos 0;
  context_timeout_on = false;
}

unfoldable pub configured : Service → Option Strategy → Answer Service
configured service none = rejected nil_strategy
configured service (some _) = accepted service

unfoldable pub with_a_strategy : Answer Service → Answer Service
unfolding configured
with_a_strategy (rejected problem) = rejected problem
with_a_strategy (accepted service) = configured service service.strategy

-- `New`, at a time that `time.Now` reads.
unfoldable pub new_service : Float64 → List (Option ServiceOption) → Answer Service
unfolding with_a_strategy
new_service now options = with_a_strategy (apply_options options (first_service now))
