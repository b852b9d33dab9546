-- ===== src/Security/Jwt/Tests.antt =====
-- Tokens of security/auth/jwt/jwt.go at concrete inputs. The stand-in for HMAC adds up bytes, the
-- one for encoding/json writes the name of the algorithm alone.
use forge_go.Prelude.{
  ℕ, ◌+◌, ◌%◌, ◌≡◌, ◌≢◌, refl, arith, true, false, not, ltb, List, [], ◌∷◌, ◌++◌, Option, none,
  some, pos, Bytes, codes, equal, inr,
}
use forge_go.Prelude.Utf8.Trim.{trim_space}
use forge_go.Security.Jwt.Segment.{decode_segment, encode_segment}
use forge_go.Security.Jwt.Strategy.{
  Context, of_crypto, token_expired, accepted, rejected, Signer, Crypto, hmac_sha256, algorithm,
  verify_strategy, hmac_sign, hmac_compare,
}
use forge_go.Security.Jwt.Service.{
  Token, Service, ServiceOption, with_hmac_sha256, with_leeway, new_service, apply_options,
  apply_option,
}
use forge_go.Security.Jwt.Tokens.{
  Platform, joined, parse_and_validate, parse_with, validate_parts, split_dots, cons_first,
  numeric_date_claim, validate_registered_time_claims,
}
use forge_go.Security.Jwt.Creation.{create_with_context}
use forge_go.Security.Jwt.Valid.{IsValid, parse_and_validate_iff}
use forge_go.Security.Jwt.WellFormed.{IsPresent, IsWellFormed}
use forge_go.Security.Jwt.Options.{new_service_lem}
use forge_go.Security.Jwt.RoundTrip.{header_of, KeepsHeader}
use forge_go.Security.Jwt.Hmac.{create_with_context-parse, hmac_authentic}

abbrev total : Bytes → ℕ
total [] = 0
total (b ∷ bytes) = b + total bytes

abbrev some_crypto : Crypto
some_crypto =
    let none_signs : Signer = record {
      sign = λ ctx key input. inr (of_crypto 1);
      verify = λ ctx input key signature. some (of_crypto 1);
    } in
    record {
      hmac = λ secret input. (total (secret ++ input) % 256) ∷ [];
      repository = record {
        rsa_pkcs1v15_sha256 = none_signs;
        rsa_pss = none_signs;
        ed25519 = none_signs;
      };
    }

abbrev live : Context
live = record { problem = none; interruption = none }

abbrev some_platform : Platform
some_platform = record {
  crypto = some_crypto;
  marshal_header = λ header. some header.algorithm_name;
  unmarshal_header = λ json. some (record { type_name = codes "JWT"; algorithm_name = json });
  json_valid = λ json. true;
  times = λ json. some (codes "100", []);
  parse_float = λ text. some 100;
  is_inf = λ seconds. false;
  is_nan = λ seconds. false;
  plus = λ a b. a + b;
  at_least = λ a b. not (ltb a b);
  less = λ a b. ltb a b;
  seconds = λ leeway. 5;
  now = 90;
  background = live;
  with_timeout = λ timeout ctx. ctx;
}

abbrev secret : Bytes
secret = codes "key"

abbrev some_options : List (Option ServiceOption)
some_options = some (with_hmac_sha256 secret) ∷ none ∷ some (with_leeway (pos 5)) ∷ []

abbrev service_at : ℕ → Service
service_at now = record {
  strategy = some (hmac_sha256 secret);
  validators = [];
  clock = some now;
  leeway = pos 5;
  context_timeout = pos 0;
  context_timeout_on = false;
}

abbrev claims : Bytes
claims = codes "{}"

configures : new_service 90 some_options ≡ accepted (service_at 90)
unfolding new_service apply_options apply_option
configures = refl

holds : validate_registered_time_claims some_platform (service_at 90) claims ≡ accepted tt
unfolding validate_registered_time_claims trim_space numeric_date_claim
holds = refl

expires :
    validate_registered_time_claims some_platform (service_at 105) claims ≡ rejected token_expired
unfolding validate_registered_time_claims trim_space numeric_date_claim
expires = refl

new_service_example : IsPresent (service_at 90).strategy × IsWellFormed (service_at 90)
new_service_example =
    new_service_lem 90 some_options (service_at 90) (tt, (tt, (tt, tt))) configures

keeps : KeepsHeader some_platform (header_of (hmac_sha256 secret))
unfolding algorithm
keeps = (codes "HS256", refl, ground arith, refl)

create_with_context-parse_example :
    (token : Bytes) × (result : Token) × (create_with_context some_platform
        (service_at 90)
        none
        (some claims)
      ≡ accepted token)
    × (parse_and_validate some_platform (service_at 90) live token ≡ accepted result)
    × (result.header ≡ header_of (hmac_sha256 secret))
    × (result.claims ≡ claims)
create_with_context-parse_example =
    create_with_context-parse some_platform (service_at 90) none secret claims refl
      (λ e. absurd (ground arith)) refl keeps (λ s i. (omega arith, tt)) (ground arith) holds

abbrev head : Bytes
head = encode_segment (codes "HS256")

abbrev body : Bytes
body = encode_segment claims

abbrev signature : Bytes
signature = encode_segment (some_crypto.hmac secret (joined head body))

abbrev some_token : Bytes
some_token = joined (joined head body) signature

abbrev read_token : Token
read_token = record {
  raw = some_token;
  header = header_of (hmac_sha256 secret);
  claims = claims;
  signature = signature;
}

parses : parse_and_validate some_platform (service_at 90) live some_token ≡ accepted read_token
unfolding parse_and_validate parse_with validate_parts split_dots cons_first encode_segment
    decode_segment algorithm verify_strategy hmac_sign hmac_compare equal
    validate_registered_time_claims trim_space numeric_date_claim
parses = refl

parse_and_validate_iff_example : IsValid some_platform (service_at 90) live some_token read_token
parse_and_validate_iff_example =
    (parse_and_validate_iff some_platform (service_at 90) live some_token read_token).0 parses

hmac_authentic_example :
    (h : Bytes) × (b : Bytes) × (some_token ≡ joined (joined h b) read_token.signature)
    × (decode_segment b ≡ some claims)
    × (read_token.header.algorithm_name ≡ codes "HS256")
    × (secret ≢ [])
    × (decode_segment read_token.signature ≡ some (some_crypto.hmac secret (joined h b)))
hmac_authentic_example =
    hmac_authentic some_platform (service_at 90) live secret some_token read_token refl parses
