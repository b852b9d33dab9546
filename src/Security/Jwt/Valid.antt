-- ===== src/Security/Jwt/Valid.antt =====
-- security/auth/jwt/jwt.go: the tokens that are valid, described without the parser.
use mathlib.Core.Path.{subst}
use forge_go.Prelude.{
  ◌≡◌, ◌≢◌, ◌↔◌, refl, arith, inl, inr, Option-cases, Bytes, ap, ◌∙◌, All, [], ◌∷◌, Option, none,
  some, equal_iff,
}
use forge_go.Security.Jwt.Segment.{decode_segment}
use forge_go.Portable.Binary.Base64.{encode}
use forge_go.Security.Jwt.Strategy.{
  Context, JwtError, Signer, Crypto, Strategy, hmac_sha256, rsa_sha256, rsa_pss_sha256,
  ed25519_strategy, custom, plain, accepted, algorithm, verify_strategy, hmac_compare, hmac_sign,
  rsa_verify, ed25519_verify, custom_verify, signature_problem,
}
use forge_go.Security.Jwt.Service.{Token, Service}
use forge_go.Security.Jwt.Tokens.{Platform, joined, split_dots, parse_and_validate}
use forge_go.Security.Jwt.Accepted.{NoDot, IsChecked, parse_and_validate-IsChecked}
use forge_go.Security.Jwt.Split.{split_dots_three, split_dots_inverse, split_dots-NoDot}
use forge_go.Security.Jwt.Times.{TimesHold, validate_registered_time_claims_iff}

-- A verifier of the repository takes the signature under the key, which is there.
abbrev Takes : Signer → Context → Option Bytes → Bytes → Bytes → Type 0
Takes signer ctx key input signature =
    (k : Bytes) × (key ≡ some k) × (signer.verify ctx input k (encode signature) ≡ none)

-- The signature is that of the input under the strategy, whose key or function is there; where the
-- package itself looks at the context, this has not ended.
abbrev pub Verified : Crypto → Context → Strategy → Bytes → Bytes → Type 0
Verified c ctx (hmac_sha256 secret) input signature =
    (ctx.problem ≡ none) × (secret ≢ []) × (signature ≡ c.hmac secret input)
Verified c ctx (rsa_sha256 _ public) input signature =
    Takes c.repository.rsa_pkcs1v15_sha256 ctx public input signature
Verified c ctx (rsa_pss_sha256 _ public) input signature =
    Takes c.repository.rsa_pss ctx public input signature
Verified c ctx (ed25519_strategy _ public) input signature =
    (public ≢ []) × Takes c.repository.ed25519 ctx (some public) input signature
Verified c ctx (custom _ callbacks) input signature =
    (verify : Context → Bytes → Bytes → Option JwtError) × (callbacks.verify ≡ some verify)
    × (verify ctx input signature ≡ none)
Verified c ctx (plain _ _ verify) input signature =
    (ctx.problem ≡ none) × (ctx.interruption ≡ none) × (verify input signature ≡ none)

module _ (c : Crypto) (ctx : Context) (input signature : Bytes) where
  verify_strategy_sound :
      (strategy : Strategy)
      → verify_strategy c ctx strategy input signature ≡ none
      → Verified c ctx strategy input signature
  unfolding verify_strategy hmac_compare hmac_sign rsa_verify ed25519_verify custom_verify
      signature_problem
  verify_strategy_sound (hmac_sha256 []) h = elim (Option-cases ctx.problem) [
    | inr (problem, ended) ↦ absurd (ground arith)
    | inl alive ↦ absurd (ground arith)
  ]
  verify_strategy_sound (hmac_sha256 (b ∷ secret)) h = elim (Option-cases ctx.problem) [
    | inr (problem, ended) ↦ absurd (ground arith)
    | inl alive ↦ (
      alive,
      (λ e. absurd (ground arith)),
      (equal_iff signature (c.hmac (b ∷ secret) input)).0 (ground arith),
    )
  ]
  verify_strategy_sound (rsa_sha256 _ none) h = absurd (ground arith)
  verify_strategy_sound (rsa_sha256 _ (some key)) h = (key, refl, ground arith)
  verify_strategy_sound (rsa_pss_sha256 _ none) h = absurd (ground arith)
  verify_strategy_sound (rsa_pss_sha256 _ (some key)) h = (key, refl, ground arith)
  verify_strategy_sound (ed25519_strategy _ []) h = absurd (ground arith)
  verify_strategy_sound (ed25519_strategy _ (k ∷ key)) h =
      ((λ e. absurd (ground arith)), (k ∷ key, refl, ground arith))
  verify_strategy_sound (custom _ callbacks) h = elim (Option-cases callbacks.verify) [
    | inl e ↦ absurd (ground arith)
    | inr (verify, e) ↦ (verify, e, ground arith)
  ]
  verify_strategy_sound (plain _ _ verify) h = (ground arith, ground arith, ground arith)

  verify_strategy_total :
      (strategy : Strategy)
      → Verified c ctx strategy input signature
      → verify_strategy c ctx strategy input signature ≡ none
  unfolding verify_strategy hmac_compare hmac_sign rsa_verify ed25519_verify custom_verify
      signature_problem
  verify_strategy_total (hmac_sha256 []) (alive, given, same) = absurd (given refl)
  verify_strategy_total (hmac_sha256 (b ∷ secret)) (alive, given, same) =
      rw (alive, (equal_iff signature (c.hmac (b ∷ secret) input)).1 same) refl
  verify_strategy_total (rsa_sha256 _ public) (key, e, h) = rw (e, h) refl
  verify_strategy_total (rsa_pss_sha256 _ public) (key, e, h) = rw (e, h) refl
  verify_strategy_total (ed25519_strategy _ []) (given, _) = absurd (given refl)
  verify_strategy_total (ed25519_strategy _ (k ∷ rest)) (given, (key, e, h)) = ground arith
  verify_strategy_total (custom _ callbacks) (verify, e, h) = rw (e, h) refl
  verify_strategy_total (plain _ _ verify) (alive, going, h) = rw (alive, going, h) refl

-- The token is made of three segments without a dot, between two dots; the header names the
-- algorithm of the configured strategy, the signature is that of the first two segments, the time
-- claims hold, and what is returned was decoded from these segments.
pub record IsValid (p : Platform) (service : Service) (ctx : Context) (token : Bytes)
    (result : Token) : Type 0 where
  pub strategy : Strategy
  pub head : Bytes
  pub body : Bytes
  pub header_json : Bytes
  pub signature : Bytes
  pub configured : service.strategy ≡ some strategy
  pub segments : token ≡ joined (joined head body) result.signature
  pub dots : NoDot head × NoDot body × NoDot result.signature
  pub header_decoded : decode_segment head ≡ some header_json
  pub header_parsed : p.unmarshal_header header_json ≡ some result.header
  pub same_algorithm : result.header.algorithm_name ≡ algorithm strategy
  pub claims_decoded : decode_segment body ≡ some result.claims
  pub signature_decoded : decode_segment result.signature ≡ some signature
  pub verified : Verified p.crypto ctx strategy (joined head body) signature
  pub times_hold : TimesHold p service result.claims
  pub same_token : result.raw ≡ token

module _ (p : Platform) (service : Service) (ctx : Context) (token : Bytes) (result : Token) where
  IsChecked-IsValid : IsChecked p service ctx token result → IsValid p service ctx token result
  IsChecked-IsValid c =
      let parts : All NoDot (c.head ∷ c.body ∷ result.signature ∷ []) =
        subst (All NoDot) c.segments (split_dots-NoDot token) in
      record {
        strategy = c.strategy;
        head = c.head;
        body = c.body;
        header_json = c.header_json;
        signature = c.signature;
        configured = c.configured;
        segments = split_dots_inverse token c.head c.body result.signature c.segments;
        dots = (parts.0, parts.1.0, parts.1.1.0);
        header_decoded = c.header_decoded;
        header_parsed = c.header_parsed;
        same_algorithm = c.same_algorithm;
        claims_decoded = c.claims_decoded;
        signature_decoded = c.signature_decoded;
        verified =
            verify_strategy_sound p.crypto ctx (joined c.head c.body) c.signature c.strategy
              c.verified;
        times_hold = (validate_registered_time_claims_iff p service result.claims).0 c.times_hold;
        same_token = c.same_token;
      }

  IsValid-IsChecked : IsValid p service ctx token result → IsChecked p service ctx token result
  IsValid-IsChecked v = record {
    strategy = v.strategy;
    head = v.head;
    body = v.body;
    header_json = v.header_json;
    signature = v.signature;
    configured = v.configured;
    segments =
        ap split_dots v.segments
        ∙ split_dots_three v.head v.body result.signature v.dots.0 v.dots.1 v.dots.2;
    header_decoded = v.header_decoded;
    header_parsed = v.header_parsed;
    same_algorithm = v.same_algorithm;
    claims_decoded = v.claims_decoded;
    signature_decoded = v.signature_decoded;
    verified =
        verify_strategy_total p.crypto ctx (joined v.head v.body) v.signature v.strategy v.verified;
    times_hold = (validate_registered_time_claims_iff p service result.claims).1 v.times_hold;
    same_token = v.same_token;
  }

-- For any platform and service, parseAndValidate returns a token exactly when the text is three
-- segments without a dot between two dots, which decode; its header parses and names the algorithm
-- of the configured strategy; the signature is that of the first two segments under the strategy,
-- whose secret, key or function is there; the claims are JSON and, when they are an object, exp
-- and nbf are empty or finite numbers that the clock has, with the leeway, not passed and reached;
-- and the token is made of what was decoded.
pub parse_and_validate_iff :
    (p : Platform) (service : Service) (ctx : Context) (token : Bytes) (result : Token)
    → (parse_and_validate p service ctx token ≡ accepted result)
      ↔ IsValid p service ctx token result
parse_and_validate_iff p service ctx token result =
    let (sound, complete) = parse_and_validate-IsChecked p service ctx token result in
    (
      (λ h. IsChecked-IsValid p service ctx token result (sound h)),
      (λ v. complete (IsValid-IsChecked p service ctx token result v)),
    )
