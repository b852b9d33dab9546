-- ===== src/Security/Jwt/Config.antt =====
-- The services that security/auth/jwt/jwt.go makes from the configuration. Viper, the case mapping
-- of package strings, the file system and the readers of keys are the record `Settings`.
use forge_go.Prelude.{
  Bool, not, ◌&&◌, ◌||◌, List, [], ◌∷◌, Option, none, some, Bytes, codes, equal, if◌then◌else◌,
}
use forge_go.Prelude.Utf8.Trim.{trim_space}
use forge_go.Security.Jwt.Strategy.{
  JwtError, missing_algorithm, unsupported_alg, private_key_not_parsed, public_key_not_parsed,
  Answer, rejected,
}
use forge_go.Security.Jwt.Service.{
  Validator, Float64, Service, ServiceOption, with_hmac_sha256, with_rsa_sha256,
  with_rsa_pss_sha256, with_ed25519, with_validator, new_service,
}

-- The readers of one kind of key pair: from a PEM file, and from Base64.
pub record KeyReaders : Type 0 where
  pub private_from_file : Bytes → Option Bytes
  pub private_from_base64 : Bytes → Option Bytes
  pub public_from_file : Bytes → Option Bytes
  pub public_from_base64 : Bytes → Option Bytes

pub record Settings : Type 0 where
  pub get_string : Bytes → Bytes
  pub to_upper : Bytes → Bytes
  pub to_lower : Bytes → Bytes
  pub file_exists : Bytes → Bool
  pub rsa : KeyReaders
  pub ed25519 : KeyReaders

abbrev algorithm_key : Bytes
algorithm_key = codes "jwt.algorithm"

abbrev hmac_secret_key : Bytes
hmac_secret_key = codes "jwt.hmac.secret"

abbrev private_key_key : Bytes
private_key_key = codes "jwt.keys.private_key"

abbrev public_key_key : Bytes
public_key_key = codes "jwt.keys.public_key"

abbrev is_blank : Bytes → Bool
is_blank s = equal (trim_space s) []

-- `strings.HasSuffix`
pub has_suffix : Bytes → Bytes → Bool
has_suffix [] suffix = equal [] suffix
has_suffix (c ∷ s) suffix = equal (c ∷ s) suffix || has_suffix s suffix

unfoldable pub should_read_pem_file : Settings → Bytes → Bool
should_read_pem_file settings value =
    let trimmed = trim_space value in
    not (equal trimmed [])
    && (has_suffix (settings.to_lower trimmed) (codes ".pem") || settings.file_exists trimmed)

abbrev from_config :
    Settings → (Bytes → Option Bytes) → (Bytes → Option Bytes) → Bytes → Option Bytes
from_config settings from_file from_base64 value =
    let trimmed = trim_space value in
    if should_read_pem_file settings trimmed then from_file trimmed else from_base64 trimmed

-- The value and the name of its key.
unfoldable pub asymmetric_config_value : Settings → Bytes → Bytes → Bytes × Bytes
asymmetric_config_value settings primary legacy =
    if not (is_blank (settings.get_string primary))
    then (settings.get_string primary, primary)
    else (settings.get_string legacy, legacy)

abbrev validating : Option Validator → List (Option ServiceOption)
validating none = []
validating (some validator) = some (with_validator (some validator)) ∷ []

with_keys :
    Float64
    → Option Validator
    → (Bytes → Bytes → ServiceOption)
    → Bytes
    → Bytes
    → Option Bytes
    → Option Bytes
    → Answer Service
with_keys now validator option private_name public_name none public =
    rejected (private_key_not_parsed private_name)
with_keys now validator option private_name public_name (some private) none =
    rejected (public_key_not_parsed public_name)
with_keys now validator option private_name public_name (some private) (some public) =
    new_service now (some (option private public) ∷ validating validator)

-- What the three constructors for key pairs share.
abbrev asymmetric_service :
    Settings
    → Float64
    → Option Validator
    → KeyReaders
    → Bytes
    → Bytes
    → (Bytes → Bytes → ServiceOption)
    → Answer Service
asymmetric_service settings now validator readers private_legacy public_legacy option =
    let (private_value, private_name) =
      asymmetric_config_value settings private_key_key private_legacy in
    let (public_value, public_name) =
      asymmetric_config_value settings public_key_key public_legacy in
    with_keys now validator option private_name public_name
      (from_config settings readers.private_from_file readers.private_from_base64 private_value)
      (from_config settings readers.public_from_file readers.public_from_base64 public_value)

unfoldable pub new_rsa_pss_service : Settings → Float64 → Option Validator → Answer Service
unfolding with_keys
new_rsa_pss_service settings now validator =
    asymmetric_service settings now validator settings.rsa (codes "jwt.rsa.private_key")
      (codes "jwt.rsa.public_key")
      (λ private public. with_rsa_pss_sha256 (some private) (some public))

unfoldable pub new_rsa_service : Settings → Float64 → Option Validator → Answer Service
unfolding with_keys
new_rsa_service settings now validator =
    asymmetric_service settings now validator settings.rsa (codes "jwt.rsa.private_key")
      (codes "jwt.rsa.public_key") (λ private public. with_rsa_sha256 (some private) (some public))

unfoldable pub new_ed25519_service : Settings → Float64 → Option Validator → Answer Service
unfolding with_keys
new_ed25519_service settings now validator =
    asymmetric_service settings now validator settings.ed25519 (codes "jwt.eddsa.private_key")
      (codes "jwt.eddsa.public_key") with_ed25519

unfoldable pub new_hmac_service : Settings → Float64 → Option Validator → Answer Service
new_hmac_service settings now validator =
    new_service now
      (some (with_hmac_sha256 (settings.get_string hmac_secret_key)) ∷ validating validator)

unfoldable pub new_configured_service : Settings → Float64 → Option Validator → Answer Service
new_configured_service settings now validator =
    let name = settings.to_upper (trim_space (settings.get_string algorithm_key)) in
    if equal name []
    then rejected missing_algorithm
    else if equal name (codes "HS256")
    then new_hmac_service settings now validator
    else if equal name (codes "RS256")
    then new_rsa_service settings now validator
    else if equal name (codes "PS256")
    then new_rsa_pss_service settings now validator
    else if equal name (codes "EDDSA")
    then new_ed25519_service settings now validator
    else rejected unsupported_alg

-- Viper, over a state of its own: whether a key has a value, and the two ways to give it one.
pub record Viper (State : Type 0) : Type 0 where
  pub is_set : Bytes → State → Bool
  pub set : Bytes → Bytes → State → State
  pub set_default : Bytes → Bytes → State → State

module _ {State : Type 0} (viper : Viper State) where
  abbrev set_jwt_config_value : Bytes → Bytes → State → State
  set_jwt_config_value key value s =
      if viper.is_set key s then viper.set key value s else viper.set_default key value s

  -- The error, and the settings.
  pub set_jwt_asymmetric_keys :
      (Bytes → Bytes) → Bytes → Bytes → Bytes → State → Option JwtError × State
  set_jwt_asymmetric_keys to_upper private public alg s =
      let name = to_upper (trim_space alg) in
      if equal name (codes "RSA")
        || equal name (codes "RS256")
        || equal name (codes "PS256")
        || equal name (codes "EDDSA")
      then (
        none,
        set_jwt_config_value public_key_key public (set_jwt_config_value private_key_key private s),
      )
      else (some unsupported_alg, s)
