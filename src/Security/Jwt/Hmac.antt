-- ===== src/Security/Jwt/Hmac.antt =====
-- HS256 in security/auth/jwt/jwt.go: tokens read back, and only those with the right HMAC do.
use mathlib.Core.Path.{subst}
use forge_go.Prelude.{
  ◌≡◌, ◌≢◌, refl, ◌∙◌, ap, inl, inr, arith, [], ◌∷◌, Option, none, some, Bytes, codes, equal_iff,
  equal_refl, Option-cases,
}
use forge_go.Security.Jwt.Segment.{decode_segment, encode_segment}
use forge_go.Security.Jwt.Strategy.{
  Context, accepted, hmac_sha256, Crypto, algorithm, sign_strategy, verify_strategy, hmac_sign,
  hmac_compare,
}
use forge_go.Security.Jwt.Service.{Token, Service}
use forge_go.Security.Jwt.Creation.{signed_token, create_with, create_for, create_with_context}
use forge_go.Security.Jwt.Tokens.{
  Platform, joined, context_for, validate_registered_time_claims, parse_and_validate,
}
use forge_go.Security.Jwt.Accepted.{parse_and_validate-IsChecked}
use forge_go.Security.Jwt.Split.{split_dots_inverse}
use forge_go.Security.Jwt.RoundTrip.{
  AreBytes, header_of, KeepsHeader, VerifiesOwn, ReadsBack, create_with_context_lem,
}

-- HMAC gives bytes.
abbrev pub GivesBytes : Crypto → Type 0
GivesBytes c = (secret input : Bytes) → AreBytes (c.hmac secret input)

hmac_sign_lem :
    (c : Crypto) (ctx : Context) (secret input : Bytes)
    → ctx.problem ≡ none
    → secret ≢ []
    → hmac_sign c ctx secret input ≡ accepted (c.hmac secret input)
unfolding hmac_sign
hmac_sign_lem c ctx [] input alive given = absurd (given refl)
hmac_sign_lem c ctx (b ∷ secret) input alive given = rw alive refl

hmac-VerifiesOwn :
    (c : Crypto) (ctx : Context) (secret : Bytes)
    → GivesBytes c
    → ctx.problem ≡ none
    → secret ≢ []
    → VerifiesOwn c ctx (hmac_sha256 secret)
unfolding sign_strategy verify_strategy hmac_compare
hmac-VerifiesOwn c ctx secret gives alive given input signature e =
    let signs = hmac_sign_lem c ctx secret input alive given in
    let same : signature ≡ c.hmac secret input = ground (arith, signs) in
    (rw same (gives secret input), rw (signs, same, equal_refl (c.hmac secret input)) refl)

created_hmac :
    (p : Platform) (service : Service) (ctx : Option Context) (secret claims : Bytes)
    → service.strategy ≡ some (hmac_sha256 secret)
    → KeepsHeader p (header_of (hmac_sha256 secret))
    → (context_for p service ctx).problem ≡ none
    → secret ≢ []
    → (token : Bytes) × (create_with_context p service ctx (some claims) ≡ accepted token)
unfolding create_with_context create_for create_with signed_token sign_strategy
created_hmac p service ctx secret claims s (json, e, _, _) alive given =
    let input = joined (encode_segment json) (encode_segment claims) in
    let signs = hmac_sign_lem p.crypto (context_for p service ctx) secret input alive given in
    (
      joined input (encode_segment (p.crypto.hmac secret input)),
      ap (create_for p (context_for p service ctx) (some claims)) s ∙ rw (e, signs) refl,
    )

-- With HS256, a secret that is not empty and a context that has not ended, when encoding/json
-- writes and reads back the header, HMAC and the claims are bytes and the time claims hold:
-- CreateWithContext gives a token, and parseAndValidate of that token gives back the header and
-- the claims.
pub create_with_context-parse :
    (p : Platform) (service : Service) (ctx : Option Context) (secret claims : Bytes)
    → service.strategy ≡ some (hmac_sha256 secret)
    → secret ≢ []
    → (context_for p service ctx).problem ≡ none
    → KeepsHeader p (header_of (hmac_sha256 secret))
    → GivesBytes p.crypto
    → AreBytes claims
    → validate_registered_time_claims p service claims ≡ accepted tt
    → (token : Bytes) × (result : Token) × (create_with_context p service ctx (some claims)
        ≡ accepted token)
      × (parse_and_validate p service (context_for p service ctx) token ≡ accepted result)
      × (result.header ≡ header_of (hmac_sha256 secret))
      × (result.claims ≡ claims)
create_with_context-parse p service ctx secret claims s given alive keeps gives cb times =
    let bounded = context_for p service ctx in
    let (token, made) = created_hmac p service ctx secret claims s keeps alive given in
    let back : ReadsBack p service bounded (hmac_sha256 secret) claims (accepted token) =
      subst (ReadsBack p service bounded (hmac_sha256 secret) claims) made (
        create_with_context_lem p service ctx (hmac_sha256 secret) claims s keeps cb
          (hmac-VerifiesOwn p.crypto bounded secret gives alive given) times) in
    (token, back.0, made, back.1, back.2, back.3)

hmac_verified :
    (c : Crypto) (ctx : Context) (secret input signature : Bytes)
    → hmac_compare signature (hmac_sign c ctx secret input) ≡ none
    → (secret ≢ []) × (signature ≡ c.hmac secret input)
unfolding hmac_compare hmac_sign
hmac_verified c ctx [] input signature e = elim (Option-cases ctx.problem) [
  | inr (problem, ended) ↦ absurd (ground arith)
  | inl alive ↦ absurd (ground arith)
]
hmac_verified c ctx (b ∷ secret) input signature e = elim (Option-cases ctx.problem) [
  | inr (problem, ended) ↦ absurd (ground arith)
  | inl alive ↦ (
    λ empty. absurd (ground arith),
    (equal_iff signature (c.hmac (b ∷ secret) input)).0 (ground arith),
  )
]

-- Whatever the text, a token that a service with HS256 accepts consists of two segments and a
-- signature segment that decodes to the HMAC of exactly those two segments under the secret, which
-- is not empty; its header names HS256, so no other algorithm can be claimed.
pub hmac_authentic :
    (p : Platform) (service : Service) (ctx : Context) (secret token : Bytes) (result : Token)
    → service.strategy ≡ some (hmac_sha256 secret)
    → parse_and_validate p service ctx token ≡ accepted result
    → (head : Bytes) × (body : Bytes) × (token ≡ joined (joined head body) result.signature)
      × (decode_segment body ≡ some result.claims)
      × (result.header.algorithm_name ≡ codes "HS256")
      × (secret ≢ [])
      × (decode_segment result.signature ≡ some (p.crypto.hmac secret (joined head body)))
unfolding verify_strategy hmac_compare hmac_sign algorithm
hmac_authentic p service ctx secret token result s accepts =
    let c = (parse_and_validate-IsChecked p service ctx token result).0 accepts in
    let same : c.strategy ≡ hmac_sha256 secret = ground (arith, c.configured) in
    let verified = hmac_verified p.crypto ctx secret (joined c.head c.body) c.signature (
      subst (λ o. verify_strategy p.crypto ctx o (joined c.head c.body) c.signature ≡ none) same
        c.verified) in
    (
      c.head,
      c.body,
      split_dots_inverse token c.head c.body result.signature c.segments,
      c.claims_decoded,
      c.same_algorithm ∙ ap algorithm same,
      verified.0,
      c.signature_decoded ∙ ap some verified.1,
    )
