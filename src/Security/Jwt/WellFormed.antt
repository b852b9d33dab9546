-- ===== src/Security/Jwt/WellFormed.antt =====
-- What a service of security/auth/jwt/jwt.go needs to do its work.
use forge_go.Prelude.{◌≡◌, ◌≢◌, true, false, [], Option, none, some, pos, lt_int, All}
use forge_go.Security.Jwt.Strategy.{
  Strategy, hmac_sha256, rsa_sha256, rsa_pss_sha256, ed25519_strategy, custom, plain,
}
use forge_go.Security.Jwt.Service.{set_strategy, Service, ServiceOption, with_strategy}

abbrev pub IsPresent {ℓ} : {A : Type ℓ} → Option A → Type 0
IsPresent none = ⊥
IsPresent (some _) = Unit

-- A strategy that has what it needs to sign and to verify.
abbrev pub IsUsable : Strategy → Type 0
IsUsable (hmac_sha256 secret) = secret ≢ []
IsUsable (rsa_sha256 private public) = IsPresent private × IsPresent public
IsUsable (rsa_pss_sha256 private public) = IsPresent private × IsPresent public
IsUsable (ed25519_strategy private public) = (private ≢ []) × (public ≢ [])
IsUsable (custom name callbacks) =
    (name ≢ []) × IsPresent callbacks.sign × IsPresent callbacks.verify
IsUsable (plain _ _ _) = Unit

abbrev pub IsUsableIfAny : Option Strategy → Type 0
IsUsableIfAny none = Unit
IsUsableIfAny (some strategy) = IsUsable strategy

-- Only `WithStrategy` takes a strategy as it is.
abbrev pub BringsUsable : Option ServiceOption → Type 0
BringsUsable (some (with_strategy (some strategy))) = IsUsable strategy
BringsUsable _ = Unit

-- All but the presence of a strategy.
pub record IsWellFormed (service : Service) : Type 0 where
  pub usable : IsUsableIfAny service.strategy
  pub validators_present : All IsPresent service.validators
  pub clock_present : IsPresent service.clock
  pub leeway_not_negative : lt_int service.leeway (pos 0) ≡ false
  pub timeout_positive :
      service.context_timeout_on ≡ true → lt_int (pos 0) service.context_timeout ≡ true

pub set_strategy-IsWellFormed :
    (service : Service) (strategy : Strategy)
    → IsUsable strategy
    → IsWellFormed service
    → IsWellFormed (set_strategy service strategy)
set_strategy-IsWellFormed service strategy usable w = record {
  usable = usable;
  validators_present = w.validators_present;
  clock_present = w.clock_present;
  leeway_not_negative = w.leeway_not_negative;
  timeout_positive = w.timeout_positive;
}
