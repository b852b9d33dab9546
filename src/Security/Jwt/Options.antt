-- ===== src/Security/Jwt/Options.antt =====
-- What `New` of security/auth/jwt/jwt.go lets through.
use mathlib.Core.Path.{subst}
use forge_go.Prelude.{
  ℕ, ◌≡◌, refl, inl, inr, arith, List, [], ◌∷◌, Option, none, some, ℤ, pos, lt_int, Bytes,
  Bool-cases, All, All-append,
}
use forge_go.Prelude.Utf8.Trim.{trim_space}
use forge_go.Security.Jwt.Strategy.{
  Context, JwtError, Answer, accepted, rejected, Callbacks, Strategy, rsa_sha256, rsa_pss_sha256,
}
use forge_go.Security.Jwt.Service.{
  Float64, timed, Service, ServiceOption, with_hmac_sha256, with_rsa_sha256, with_rsa_pss_sha256,
  with_ed25519, with_custom_strategy, with_strategy, with_validator, with_clock, with_leeway,
  with_context_timeout, set_keys, set_ed25519, with_callbacks, configured, checked_callbacks,
  new_custom_strategy, set_custom, apply_option, apply_options, first_service, with_a_strategy,
  new_service,
}
use forge_go.Security.Jwt.Accepted.{Answer-cases}
use forge_go.Security.Jwt.WellFormed.{
  IsPresent, IsUsable, BringsUsable, IsWellFormed, set_strategy-IsWellFormed,
}

abbrev WellFormedIfAccepted : Answer Service → Type 0
WellFormedIfAccepted (rejected _) = Unit
WellFormedIfAccepted (accepted service) = IsWellFormed service

set_keys-WellFormed :
    (new : Option Bytes → Option Bytes → Strategy) (private public : Option Bytes)
    (service : Service)
    → ((a b : Bytes) → IsUsable (new (some a) (some b)))
    → IsWellFormed service
    → WellFormedIfAccepted (set_keys new private public service)
unfolding set_keys
set_keys-WellFormed new none public service usable w = tt
set_keys-WellFormed new (some a) none service usable w = tt
set_keys-WellFormed new (some a) (some b) service usable w =
    set_strategy-IsWellFormed service (new (some a) (some b)) (usable a b) w

set_ed25519-WellFormed :
    (private public : Bytes) (service : Service)
    → IsWellFormed service
    → WellFormedIfAccepted (set_ed25519 private public service)
unfolding set_ed25519
set_ed25519-WellFormed [] public service w = tt
set_ed25519-WellFormed (k ∷ private) [] service w = tt
set_ed25519-WellFormed (k ∷ private) (l ∷ public) service w =
    set_strategy-IsWellFormed service _ ((λ e. absurd (ground arith)), (λ e. absurd (ground arith)))
      w

with_callbacks-WellFormed :
    (c : ℕ) (name : Bytes) (sign : Option (Context → Bytes → Answer Bytes))
    (verify : Option (Context → Bytes → Bytes → Option JwtError)) (service : Service)
    → IsWellFormed service
    → WellFormedIfAccepted (set_custom service (with_callbacks (c ∷ name) sign verify))
unfolding set_custom with_callbacks
with_callbacks-WellFormed c name none verify service w = tt
with_callbacks-WellFormed c name (some sign) none service w = tt
with_callbacks-WellFormed c name (some sign) (some verify) service w =
    set_strategy-IsWellFormed service _ ((λ e. absurd (ground arith)), tt, tt) w

set_custom-WellFormed :
    (name : Bytes) (callbacks : Callbacks) (service : Service)
    → IsWellFormed service
    → WellFormedIfAccepted (set_custom service (checked_callbacks name callbacks))
unfolding set_custom checked_callbacks
set_custom-WellFormed [] callbacks service w = tt
set_custom-WellFormed (c ∷ name) callbacks service w =
    with_callbacks-WellFormed c name callbacks.sign callbacks.verify service w

timed-IsWellFormed :
    (timeout : ℤ) (service : Service) → IsWellFormed service → IsWellFormed (timed timeout service)
timed-IsWellFormed timeout service w = elim (Bool-cases (lt_int (pos 0) timeout)) [
  | inl positive ↦ rw positive (record {
    usable = w.usable;
    validators_present = w.validators_present;
    clock_present = w.clock_present;
    leeway_not_negative = w.leeway_not_negative;
    timeout_positive = λ on. positive;
  })
  | inr none_left ↦ rw none_left (record {
    usable = w.usable;
    validators_present = w.validators_present;
    clock_present = w.clock_present;
    leeway_not_negative = w.leeway_not_negative;
    timeout_positive = λ on. absurd (ground arith);
  })
]

apply_option-WellFormed :
    (option : ServiceOption) (service : Service)
    → BringsUsable (some option)
    → IsWellFormed service
    → WellFormedIfAccepted (apply_option option service)
unfolding apply_option new_custom_strategy
apply_option-WellFormed (with_hmac_sha256 []) service brings w = tt
apply_option-WellFormed (with_hmac_sha256 (b ∷ secret)) service brings w =
    set_strategy-IsWellFormed service _ (λ e. absurd (ground arith)) w
apply_option-WellFormed (with_rsa_sha256 private public) service brings w =
    set_keys-WellFormed rsa_sha256 private public service (λ a b. (tt, tt)) w
apply_option-WellFormed (with_rsa_pss_sha256 private public) service brings w =
    set_keys-WellFormed rsa_pss_sha256 private public service (λ a b. (tt, tt)) w
apply_option-WellFormed (with_ed25519 private public) service brings w =
    set_ed25519-WellFormed private public service w
apply_option-WellFormed (with_custom_strategy name callbacks) service brings w =
    set_custom-WellFormed (trim_space name) callbacks service w
apply_option-WellFormed (with_strategy none) service brings w = tt
apply_option-WellFormed (with_strategy (some strategy)) service brings w =
    set_strategy-IsWellFormed service strategy brings w
apply_option-WellFormed (with_validator none) service brings w = tt
apply_option-WellFormed (with_validator (some validator)) service brings w = record {
  usable = w.usable;
  validators_present =
      All-append IsPresent service.validators (some validator ∷ []) w.validators_present (tt, tt);
  clock_present = w.clock_present;
  leeway_not_negative = w.leeway_not_negative;
  timeout_positive = w.timeout_positive;
}
apply_option-WellFormed (with_clock none) service brings w = tt
apply_option-WellFormed (with_clock (some clock)) service brings w = record {
  usable = w.usable;
  validators_present = w.validators_present;
  clock_present = tt;
  leeway_not_negative = w.leeway_not_negative;
  timeout_positive = w.timeout_positive;
}
apply_option-WellFormed (with_leeway leeway) service brings w =
    elim (Bool-cases (lt_int leeway (pos 0))) [
      | inl negative ↦ rw negative tt
      | inr fine ↦ rw fine (record {
        usable = w.usable;
        validators_present = w.validators_present;
        clock_present = w.clock_present;
        leeway_not_negative = fine;
        timeout_positive = w.timeout_positive;
      })
    ]
apply_option-WellFormed (with_context_timeout timeout) service brings w =
    timed-IsWellFormed timeout service w

apply_options-WellFormed :
    (options : List (Option ServiceOption)) (service : Service)
    → All BringsUsable options
    → IsWellFormed service
    → WellFormedIfAccepted (apply_options options service)
unfolding apply_options
apply_options-WellFormed [] service brings w = w
apply_options-WellFormed (none ∷ options) service brings w =
    apply_options-WellFormed options service brings.1 w
apply_options-WellFormed (some option ∷ options) service brings w =
    elim (Answer-cases (apply_option option service)) [
      | inl (problem, e) ↦ rw (apply_options, e) tt
      | inr (changed, e) ↦
          rw (apply_options, e)
            (apply_options-WellFormed options changed brings.1
              (subst WellFormedIfAccepted e (apply_option-WellFormed option service brings.0 w)))
    ]

-- The outcome of `New`: a strategy, and what else is well formed.
abbrev pub IsConfigured : Answer Service → Type 0
IsConfigured (rejected _) = Unit
IsConfigured (accepted service) = IsPresent service.strategy × IsWellFormed service

configured-IsConfigured :
    (service : Service) (strategy : Option Strategy)
    → service.strategy ≡ strategy
    → IsWellFormed service
    → IsConfigured (configured service strategy)
unfolding configured
configured-IsConfigured service none e w = tt
configured-IsConfigured service (some strategy) e w = (rw e tt, w)

with_a_strategy-IsConfigured :
    (result : Answer Service) → WellFormedIfAccepted result → IsConfigured (with_a_strategy result)
unfolding with_a_strategy
with_a_strategy-IsConfigured (rejected problem) w = tt
with_a_strategy-IsConfigured (accepted service) w =
    configured-IsConfigured service service.strategy refl w

-- When every strategy given by WithStrategy is usable, a service that New returns has a strategy
-- with all the keys, secrets or functions that it needs, no nil validator, a clock, a leeway that
-- is not negative, and a positive timeout if it has one, whatever the options and their order.
pub new_service_lem :
    (now : Float64) (options : List (Option ServiceOption)) (service : Service)
    → All BringsUsable options
    → new_service now options ≡ accepted service
    → IsPresent service.strategy × IsWellFormed service
unfolding new_service
new_service_lem now options service brings e = subst IsConfigured e (
    with_a_strategy-IsConfigured _ (
      apply_options-WellFormed options (first_service now) brings (record {
        usable = tt;
        validators_present = tt;
        clock_present = tt;
        leeway_not_negative = refl;
        timeout_positive = λ on. absurd (ground arith);
      })))
