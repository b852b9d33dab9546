-- ===== src/Security/Jwt/RoundTrip.antt =====
-- The tokens that security/auth/jwt/jwt.go makes, and the ones that it accepts under HS256.
use mathlib.Core.Path.{subst}
use forge_go.Prelude.{◌<◌, ◌≡◌, refl, inl, inr, arith, Option, none, some, Bytes, codes, All}
use forge_go.Security.Jwt.Segment.{encode_segment, encode_segment-IsSolid, decode_segment-encode}
use forge_go.Security.Jwt.Strategy.{
  Context, Answer, accepted, rejected, Strategy, Crypto, algorithm, sign_strategy, verify_strategy,
}
use forge_go.Security.Jwt.Service.{Header, Token, Service}
use forge_go.Security.Jwt.Creation.{signed_token, create_with, create_for, create_with_context}
use forge_go.Security.Jwt.Tokens.{
  Platform, joined, context_for, validate_registered_time_claims, parse_and_validate,
}
use forge_go.Security.Jwt.Split.{solid_NoDot, split_dots_three}
use forge_go.Security.Jwt.Accepted.{IsChecked, parse_and_validate-IsChecked, Answer-cases}

abbrev pub AreBytes : Bytes → Type 0
AreBytes s = All (λ b. b < 256) s

abbrev pub header_of : Strategy → Header
header_of strategy = record { type_name = codes "JWT"; algorithm_name = algorithm strategy }

-- encoding/json writes a header and reads it back.
abbrev pub KeepsHeader : Platform → Header → Type 0
KeepsHeader p header =
    (json : Bytes) × (p.marshal_header header ≡ some json)
    × AreBytes json
    × (p.unmarshal_header json ≡ some header)

-- A strategy verifies what it signs.
abbrev pub VerifiesOwn : Crypto → Context → Strategy → Type 0
VerifiesOwn c ctx strategy =
    (input signature : Bytes)
    → sign_strategy c ctx strategy input ≡ accepted signature
    → AreBytes signature × (verify_strategy c ctx strategy input signature ≡ none)

-- The outcome of reading a token back.
abbrev pub ReadsBack : Platform → Service → Context → Strategy → Bytes → Answer Bytes → Type 0
ReadsBack p service ctx strategy claims (rejected _) = Unit
ReadsBack p service ctx strategy claims (accepted token) =
    (result : Token) × (parse_and_validate p service ctx token ≡ accepted result)
    × (result.header ≡ header_of strategy)
    × (result.claims ≡ claims)

joined-ReadsBack :
    (p : Platform) (service : Service) (ctx : Context) (strategy : Strategy)
    (header_json claims signature : Bytes)
    → service.strategy ≡ some strategy
    → AreBytes header_json
    → p.unmarshal_header header_json ≡ some (header_of strategy)
    → AreBytes claims
    → AreBytes signature
    → verify_strategy p.crypto ctx strategy
        (joined (encode_segment header_json) (encode_segment claims))
        signature
      ≡ none
    → validate_registered_time_claims p service claims ≡ accepted tt
    → ReadsBack p service ctx strategy claims (
        accepted (
          joined
            (joined (encode_segment header_json) (encode_segment claims))
            (encode_segment signature)))
joined-ReadsBack p service ctx strategy header_json claims signature s hb parsed cb sb verified
      times =
    let head = encode_segment header_json in
    let body = encode_segment claims in
    let last = encode_segment signature in
    let token = joined (joined head body) last in
    let result : Token = record {
      raw = token;
      header = header_of strategy;
      claims = claims;
      signature = last;
    } in
    let checked : IsChecked p service ctx token result = record {
      strategy = strategy;
      head = head;
      body = body;
      header_json = header_json;
      signature = signature;
      configured = s;
      segments =
          split_dots_three head body last (solid_NoDot head (encode_segment-IsSolid header_json hb))
            (solid_NoDot body (encode_segment-IsSolid claims cb))
            (solid_NoDot last (encode_segment-IsSolid signature sb));
      header_decoded = decode_segment-encode header_json hb;
      header_parsed = parsed;
      same_algorithm = refl;
      claims_decoded = decode_segment-encode claims cb;
      signature_decoded = decode_segment-encode signature sb;
      verified = verified;
      times_hold = times;
      same_token = refl;
    } in
    (result, (parse_and_validate-IsChecked p service ctx token result).1 checked, refl, refl)

signed-ReadsBack :
    (p : Platform) (service : Service) (ctx : Context) (strategy : Strategy)
    (header_json claims : Bytes)
    → service.strategy ≡ some strategy
    → AreBytes header_json
    → p.unmarshal_header header_json ≡ some (header_of strategy)
    → AreBytes claims
    → VerifiesOwn p.crypto ctx strategy
    → validate_registered_time_claims p service claims ≡ accepted tt
    → ReadsBack p service ctx strategy claims (
        signed_token header_json claims (
          sign_strategy p.crypto ctx strategy
            (joined (encode_segment header_json) (encode_segment claims))))
unfolding signed_token
signed-ReadsBack p service ctx strategy header_json claims s hb parsed cb own times =
    let input = joined (encode_segment header_json) (encode_segment claims) in
    elim (Answer-cases (sign_strategy p.crypto ctx strategy input)) [
      | inl (problem, e) ↦ rw e tt
      | inr (signature, e) ↦ rw e (
          joined-ReadsBack p service ctx strategy header_json claims signature s hb parsed cb
            (own input signature e).0 (own input signature e).1 times)
    ]

create_with-ReadsBack :
    (p : Platform) (service : Service) (ctx : Context) (strategy : Strategy) (claims : Bytes)
    → service.strategy ≡ some strategy
    → KeepsHeader p (header_of strategy)
    → AreBytes claims
    → VerifiesOwn p.crypto ctx strategy
    → validate_registered_time_claims p service claims ≡ accepted tt
    → ReadsBack p service ctx strategy claims (create_with p ctx strategy (some claims))
unfolding create_with
create_with-ReadsBack p service ctx strategy claims s (json, writes, bytes, reads) cb own times =
    rw writes (signed-ReadsBack p service ctx strategy json claims s bytes reads cb own times)

create_for-ReadsBack :
    (p : Platform) (service : Service) (ctx : Context) (strategy : Strategy) (claims : Bytes)
    (configured : Option Strategy)
    → configured ≡ some strategy
    → ReadsBack p service ctx strategy claims (create_with p ctx strategy (some claims))
    → ReadsBack p service ctx strategy claims (create_for p ctx (some claims) configured)
unfolding create_for
create_for-ReadsBack p service ctx strategy claims none e back = tt
create_for-ReadsBack p service ctx strategy claims (some other) e back =
    let same : strategy ≡ other = ground arith in
    subst (λ o. ReadsBack p service ctx strategy claims (create_with p ctx o (some claims))) same
      back

-- Reading back.
pub create_with_context_lem :
    (p : Platform) (service : Service) (ctx : Option Context) (strategy : Strategy) (claims : Bytes)
    → service.strategy ≡ some strategy
    → KeepsHeader p (header_of strategy)
    → AreBytes claims
    → VerifiesOwn p.crypto (context_for p service ctx) strategy
    → validate_registered_time_claims p service claims ≡ accepted tt
    → ReadsBack p service
        (context_for p service ctx)
        strategy
        claims
        (create_with_context p service ctx (some claims))
unfolding create_with_context
create_with_context_lem p service ctx strategy claims s keeps cb own times =
    create_for-ReadsBack p service (context_for p service ctx) strategy claims service.strategy s (
      create_with-ReadsBack p service (context_for p service ctx) strategy claims s keeps cb own
        times)
