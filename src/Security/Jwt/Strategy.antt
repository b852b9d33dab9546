-- ===== src/Security/Jwt/Strategy.antt =====
-- The signing strategies of security/auth/jwt/jwt.go. HMAC and the signature repository are what
-- the code relies on from elsewhere; a key of a pair is its marshalled form.
use forge_go.Prelude.{
  ℕ, [], ◌∷◌, Option, none, some, ◌⊎◌, inl, inr, Bytes, codes, equal, if◌then◌else◌,
}
use forge_go.Portable.Binary.Base64.{encode, decode_std}

pub data ContextProblem : Type 0 where
  canceled deadline_exceeded : ContextProblem

-- What `ctx.Err` answers when it is asked, and what ends the context before a result is there.
pub record Context : Type 0 where
  pub problem : Option ContextProblem
  pub interruption : Option ContextProblem

pub data JwtError : Type 0 where
  nil_strategy missing_secret missing_private_key missing_public_key : JwtError
  missing_eddsa_private_key missing_eddsa_public_key : JwtError
  invalid_token invalid_signature unexpected_alg nil_destination nil_validator : JwtError
  missing_validation unsupported_alg missing_algorithm missing_sign_func : JwtError
  missing_verify_func invalid_expiration_claim invalid_not_before_claim : JwtError
  token_expired token_not_yet_valid nil_clock invalid_leeway : JwtError
  header_not_encoded claims_not_encoded header_not_decoded header_not_parsed : JwtError
  claims_not_decoded signature_not_decoded claims_not_parsed not_base64 : JwtError
  in_context : ContextProblem → JwtError
  private_key_not_parsed public_key_not_parsed : Bytes → JwtError
  foreign : ℕ → JwtError
  signing : JwtError → JwtError

pub data Answer {ℓ} (A : Type ℓ) : Type ℓ where
  accepted : A → Answer A
  rejected : JwtError → Answer A

pub data RepositoryError : Type 0 where
  of_context : ContextProblem → RepositoryError
  of_crypto : ℕ → RepositoryError

-- One pair of operations of `encrypt.SignatureRepository`: a key, and Base64 signatures.
pub record Signer : Type 0 where
  pub sign : Context → Bytes → Bytes → Bytes ⊎ RepositoryError
  pub verify : Context → Bytes → Bytes → Bytes → Option RepositoryError

pub record SignatureRepository : Type 0 where
  pub rsa_pkcs1v15_sha256 : Signer
  pub rsa_pss : Signer
  pub ed25519 : Signer

pub record Callbacks : Type 0 where
  pub sign : Option (Context → Bytes → Answer Bytes)
  pub verify : Option (Context → Bytes → Bytes → Option JwtError)

-- The strategies of the package; a plain one is another implementation of the interface `Strategy`
-- that has no methods with a context.
pub data Strategy : Type 0 where
  hmac_sha256 : Bytes → Strategy
  rsa_sha256 rsa_pss_sha256 : Option Bytes → Option Bytes → Strategy
  ed25519_strategy : Bytes → Bytes → Strategy
  custom : Bytes → Callbacks → Strategy
  plain : Bytes → (Bytes → Answer Bytes) → (Bytes → Bytes → Option JwtError) → Strategy

-- HMAC-SHA-256 of a secret and a message.
pub record Crypto : Type 0 where
  pub hmac : Bytes → Bytes → Bytes
  pub repository : SignatureRepository

unfoldable pub algorithm : Strategy → Bytes
algorithm (hmac_sha256 _) = codes "HS256"
algorithm (rsa_sha256 _ _) = codes "RS256"
algorithm (rsa_pss_sha256 _ _) = codes "PS256"
algorithm (ed25519_strategy _ _) = codes "EdDSA"
algorithm (custom name _) = name
algorithm (plain name _ _) = name

abbrev repository_error : RepositoryError → JwtError
repository_error (of_context problem) = in_context problem
repository_error (of_crypto code) = foreign code

unfoldable pub signature_error : RepositoryError → JwtError
signature_error (of_context problem) = in_context problem
signature_error (of_crypto code) = invalid_signature

unfoldable pub signature_problem : Option RepositoryError → Option JwtError
unfolding signature_error
signature_problem none = none
signature_problem (some problem) = some (signature_error problem)

decoded_signature : Bytes ⊎ RepositoryError → Answer Bytes
decoded_signature (inr problem) = rejected (repository_error problem)
decoded_signature (inl text) = elim (decode_std text) [
  | none ↦ rejected not_base64
  | some signature ↦ accepted signature
]

unfoldable pub hmac_sign : Crypto → Context → Bytes → Bytes → Answer Bytes
hmac_sign c ctx secret input = elim ctx.problem [
  | some problem ↦ rejected (in_context problem)
  | none ↦ elim secret [
    | [] ↦ rejected missing_secret
    | b ∷ bytes ↦ accepted (c.hmac (b ∷ bytes) input)
  ]
]

rsa_sign : Signer → Context → Option Bytes → Bytes → Answer Bytes
unfolding decoded_signature
rsa_sign signer ctx none input = rejected missing_private_key
rsa_sign signer ctx (some key) input = decoded_signature (signer.sign ctx key input)

unfoldable pub rsa_verify : Signer → Context → Option Bytes → Bytes → Bytes → Option JwtError
unfolding signature_problem
rsa_verify signer ctx none input signature = some missing_public_key
rsa_verify signer ctx (some key) input signature =
    signature_problem (signer.verify ctx input key (encode signature))

ed25519_sign : Signer → Context → Bytes → Bytes → Answer Bytes
unfolding decoded_signature
ed25519_sign signer ctx [] input = rejected missing_eddsa_private_key
ed25519_sign signer ctx (k ∷ key) input = decoded_signature (signer.sign ctx (k ∷ key) input)

unfoldable pub ed25519_verify : Signer → Context → Bytes → Bytes → Bytes → Option JwtError
unfolding signature_problem
ed25519_verify signer ctx [] input signature = some missing_eddsa_public_key
ed25519_verify signer ctx (k ∷ key) input signature =
    signature_problem (signer.verify ctx input (k ∷ key) (encode signature))

unfoldable pub hmac_compare : Bytes → Answer Bytes → Option JwtError
hmac_compare signature (rejected problem) = some problem
hmac_compare signature (accepted expected) =
    if equal signature expected then none else some invalid_signature

custom_sign : Option (Context → Bytes → Answer Bytes) → Context → Bytes → Answer Bytes
custom_sign none ctx input = rejected missing_sign_func
custom_sign (some sign) ctx input = sign ctx input

unfoldable pub custom_verify :
    Option (Context → Bytes → Bytes → Option JwtError) → Context → Bytes → Bytes → Option JwtError
custom_verify none ctx input signature = some missing_verify_func
custom_verify (some verify) ctx input signature = verify ctx input signature

-- `runStrategyWithContext`, which takes the result unless the context has ended.
abbrev pub run_strategy_with_context {ℓ} : {A : Type ℓ} → (ContextProblem → A) → Context → A → A
run_strategy_with_context fail ctx result = elim ctx.problem [
  | some problem ↦ fail problem
  | none ↦ elim ctx.interruption [ some problem ↦ fail problem | none ↦ result ]
]

unfoldable pub sign_strategy : Crypto → Context → Strategy → Bytes → Answer Bytes
unfolding hmac_sign rsa_sign ed25519_sign custom_sign
sign_strategy c ctx (hmac_sha256 secret) input = hmac_sign c ctx secret input
sign_strategy c ctx (rsa_sha256 private _) input =
    rsa_sign c.repository.rsa_pkcs1v15_sha256 ctx private input
sign_strategy c ctx (rsa_pss_sha256 private _) input =
    rsa_sign c.repository.rsa_pss ctx private input
sign_strategy c ctx (ed25519_strategy private _) input =
    ed25519_sign c.repository.ed25519 ctx private input
sign_strategy c ctx (custom _ callbacks) input = custom_sign callbacks.sign ctx input
sign_strategy c ctx (plain _ sign _) input =
    run_strategy_with_context (λ problem. rejected (in_context problem)) ctx (sign input)

-- The error, or none when the signature is that of the input.
unfoldable pub verify_strategy : Crypto → Context → Strategy → Bytes → Bytes → Option JwtError
unfolding hmac_compare hmac_sign rsa_verify ed25519_verify custom_verify
verify_strategy c ctx (hmac_sha256 secret) input signature =
    hmac_compare signature (hmac_sign c ctx secret input)
verify_strategy c ctx (rsa_sha256 _ public) input signature =
    rsa_verify c.repository.rsa_pkcs1v15_sha256 ctx public input signature
verify_strategy c ctx (rsa_pss_sha256 _ public) input signature =
    rsa_verify c.repository.rsa_pss ctx public input signature
verify_strategy c ctx (ed25519_strategy _ public) input signature =
    ed25519_verify c.repository.ed25519 ctx public input signature
verify_strategy c ctx (custom _ callbacks) input signature =
    custom_verify callbacks.verify ctx input signature
verify_strategy c ctx (plain _ _ verify) input signature =
    run_strategy_with_context (λ problem. some (in_context problem)) ctx (verify input signature)
