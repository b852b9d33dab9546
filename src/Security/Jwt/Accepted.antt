-- ===== src/Security/Jwt/Accepted.antt =====
-- What a token that security/auth/jwt/jwt.go accepts has been checked for.
use mathlib.Core.Path.{subst}
use forge_go.Prelude.{
  ◌≡◌, ◌≢◌, refl, sym, ◌∙◌, ap, ◌↔◌, ◌⊎◌, inl, inr, arith, true, List, [], ◌∷◌, Option, none, some,
  Bytes, equal, equal_iff, Bool-cases, Option-cases, All,
}
use forge_go.Security.Jwt.Segment.{decode_segment}
use forge_go.Security.Jwt.Strategy.{
  Context, JwtError, Answer, accepted, rejected, Strategy, algorithm, verify_strategy,
}
use forge_go.Security.Jwt.Service.{Token, Service}
use forge_go.Security.Jwt.Tokens.{
  Platform, joined, split_dots, validate_registered_time_claims, validate_parts, parse_with,
  parse_and_validate,
}

abbrev pub NoDot : Bytes → Type 0
NoDot s = All (λ c. c ≢ b'.') s

pub Answer-cases {ℓ} :
    {A : Type ℓ} (a : Answer A)
    → ((problem : JwtError) × (a ≡ rejected problem)) ⊎ ((x : A) × (a ≡ accepted x))
Answer-cases (rejected problem) = inl (problem, refl)
Answer-cases (accepted x) = inr (x, refl)

abbrev token_of : Token → Answer Token → Token
token_of other (accepted token) = token
token_of other (rejected _) = other

-- What is known of an accepted token: its three segments, which have no dot, and the checks.
pub record IsChecked (p : Platform) (service : Service) (ctx : Context) (token : Bytes)
    (result : Token) : Type 0 where
  pub strategy : Strategy
  pub head : Bytes
  pub body : Bytes
  pub header_json : Bytes
  pub signature : Bytes
  pub configured : service.strategy ≡ some strategy
  pub segments : split_dots token ≡ head ∷ body ∷ result.signature ∷ []
  pub header_decoded : decode_segment head ≡ some header_json
  pub header_parsed : p.unmarshal_header header_json ≡ some result.header
  pub same_algorithm : result.header.algorithm_name ≡ algorithm strategy
  pub claims_decoded : decode_segment body ≡ some result.claims
  pub signature_decoded : decode_segment result.signature ≡ some signature
  pub verified : verify_strategy p.crypto ctx strategy (joined head body) signature ≡ none
  pub times_hold : validate_registered_time_claims p service result.claims ≡ accepted tt
  pub same_token : result.raw ≡ token

validate_parts-IsChecked :
    (p : Platform) (service : Service) (ctx : Context) (strategy : Strategy) (token : Bytes)
    (parts : List Bytes) (result : Token)
    → service.strategy ≡ some strategy
    → split_dots token ≡ parts
    → validate_parts p service ctx strategy token parts ≡ accepted result
    → IsChecked p service ctx token result
unfolding validate_parts
validate_parts-IsChecked p service ctx strategy token [] result s e h = absurd (ground arith)
validate_parts-IsChecked p service ctx strategy token (a ∷ []) result s e h = absurd (ground arith)
validate_parts-IsChecked p service ctx strategy token (a ∷ b ∷ []) result s e h =
    absurd (ground arith)
validate_parts-IsChecked p service ctx strategy token (a ∷ b ∷ c ∷ d ∷ more) result s e h =
    absurd (ground arith)
validate_parts-IsChecked p service ctx strategy token (head ∷ body ∷ last ∷ []) result s e h =
    elim (Option-cases (decode_segment head)) [
      | inl e1 ↦ absurd (ground arith)
      | inr (header_json, e1) ↦ elim (Option-cases (p.unmarshal_header header_json)) [
        | inl e2 ↦ absurd (ground arith)
        | inr (header, e2) ↦ elim (Bool-cases (equal header.algorithm_name (algorithm strategy))) [
          | inr e3 ↦ absurd (ground arith)
          | inl e3 ↦ elim (Option-cases (decode_segment body)) [
            | inl e4 ↦ absurd (ground arith)
            | inr (claims, e4) ↦ elim (Option-cases (decode_segment last)) [
              | inl e5 ↦ absurd (ground arith)
              | inr (signature, e5) ↦
                  elim (Option-cases
                    (verify_strategy p.crypto ctx strategy (joined head body) signature)) [
                      | inr (problem, e6) ↦ absurd (ground arith)
                      | inl e6 ↦
                          elim (Answer-cases (validate_registered_time_claims p service claims)) [
                            | inl (problem, e7) ↦ absurd (ground arith)
                            | inr (u, e7) ↦
                                let same =
                                  ap (token_of result) (rw (e1, e2, e3, e4, e5, e6, e7) at h) in
                                subst (IsChecked p service ctx token) same (record {
                                  strategy = strategy;
                                  head = head;
                                  body = body;
                                  header_json = header_json;
                                  signature = signature;
                                  configured = s;
                                  segments = e;
                                  header_decoded = e1;
                                  header_parsed = e2;
                                  same_algorithm =
                                      (equal_iff header.algorithm_name (algorithm strategy)).0 e3;
                                  claims_decoded = e4;
                                  signature_decoded = e5;
                                  verified = e6;
                                  times_hold = e7;
                                  same_token = refl;
                                })
                          ]
                    ]
            ]
          ]
        ]
      ]
    ]

parse_with-IsChecked :
    (p : Platform) (service : Service) (ctx : Context) (token : Bytes) (result : Token)
    (configured : Option Strategy)
    → service.strategy ≡ configured
    → parse_with p service ctx token configured ≡ accepted result
    → IsChecked p service ctx token result
unfolding parse_with
parse_with-IsChecked p service ctx token result none s h = absurd (ground arith)
parse_with-IsChecked p service ctx token result (some strategy) s h =
    validate_parts-IsChecked p service ctx strategy token (split_dots token) result s refl h

IsChecked-accepted :
    (p : Platform) (service : Service) (ctx : Context) (token : Bytes) (result : Token)
    → IsChecked p service ctx token result
    → parse_and_validate p service ctx token ≡ accepted result
unfolding parse_and_validate parse_with validate_parts
IsChecked-accepted p service ctx token result c =
    ap (parse_with p service ctx token) c.configured ∙ passes
  where
    same : equal result.header.algorithm_name (algorithm c.strategy) ≡ true
    same = (equal_iff result.header.algorithm_name (algorithm c.strategy)).1 c.same_algorithm

    passes : parse_with p service ctx token (some c.strategy) ≡ accepted result
    passes =
        rw
          (
            c.segments,
            c.header_decoded,
            c.header_parsed,
            same,
            c.claims_decoded,
            c.signature_decoded,
            c.verified,
            c.times_hold,
            sym c.same_token,
          )
          refl

-- The checks that parseAndValidate makes are exactly those of `IsChecked`.
pub parse_and_validate-IsChecked :
    (p : Platform) (service : Service) (ctx : Context) (token : Bytes) (result : Token)
    → (parse_and_validate p service ctx token ≡ accepted result)
      ↔ IsChecked p service ctx token result
unfolding parse_and_validate
parse_and_validate-IsChecked p service ctx token result = (
  parse_with-IsChecked p service ctx token result service.strategy refl,
  IsChecked-accepted p service ctx token result,
)
