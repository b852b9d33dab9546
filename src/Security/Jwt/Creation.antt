-- ===== src/Security/Jwt/Creation.antt =====
-- How a token of security/auth/jwt/jwt.go is made.
use forge_go.Prelude.{Option, none, some, Bytes, codes}
use forge_go.Security.Jwt.Segment.{encode_segment}
use forge_go.Security.Jwt.Strategy.{
  Context, nil_strategy, header_not_encoded, claims_not_encoded, signing, Answer, accepted,
  rejected, Strategy, algorithm, sign_strategy,
}
use forge_go.Security.Jwt.Service.{Service}
use forge_go.Security.Jwt.Tokens.{Platform, ◌>>=◌, present, context_for, joined}

unfoldable pub signed_token : Bytes → Bytes → Answer Bytes → Answer Bytes
signed_token header_json claims (rejected problem) = rejected (signing problem)
signed_token header_json claims (accepted signature) = accepted (
    joined (joined (encode_segment header_json) (encode_segment claims)) (encode_segment signature))

unfoldable pub create_with : Platform → Context → Strategy → Option Bytes → Answer Bytes
unfolding signed_token
create_with p ctx strategy claims_json =
    present header_not_encoded
      (p.marshal_header (record { type_name = codes "JWT"; algorithm_name = algorithm strategy }))
    >>= λ header_json. present claims_not_encoded claims_json >>= λ claims.
        signed_token header_json claims (
          sign_strategy p.crypto ctx strategy
            (joined (encode_segment header_json) (encode_segment claims)))

unfoldable pub create_for : Platform → Context → Option Bytes → Option Strategy → Answer Bytes
unfolding create_with
create_for p ctx claims_json none = rejected nil_strategy
create_for p ctx claims_json (some strategy) = create_with p ctx strategy claims_json

-- `CreateWithContext` behind `json.Marshal` of the claims.
unfoldable pub create_with_context :
    Platform → Service → Option Context → Option Bytes → Answer Bytes
unfolding create_for
create_with_context p service ctx claims_json =
    create_for p (context_for p service ctx) claims_json service.strategy
