-- ===== src/Portable/Dispatch.antt =====
-- share/portable/dispatcher.go and operations.go: the choice of the operation, and the response.
-- `encoding/json` (the reader, the typed decoders and the encoders) and the cryptographic
-- primitives are parameters.
pub mod Respond
use forge_go.Prelude.{
  ℕ, Bool, true, false, not, ◌&&◌, ◌||◌, List, [], ◌∷◌, Option, none, some, ℤ, pos, lt_int, le_int,
  ltb, ◌==◌, if◌then◌else◌, length, Bytes, codes, equal,
}
use forge_go.Prelude.Utf8.{within, runes, valid, is_control}
use forge_go.Portable.Errors.{
  ErrorCode, AbiError, Result, ok, err, ◌>>=◌, ◌>>◌, refuse_if, new_abi_error, invalid_request,
  request_too_large, invalid_abi, unknown_operation, input_too_large, capability_unavailable,
  execution_state_required, deadline_exceeded, cancellation_requested, response_too_large, internal,
}
use forge_go.Portable.Abi.{
  Limits, Request, RequestMetadata, ExecutionState, Response, Operation, abi_version,
  is_known_operation, supports_capability, operation_normalize, operation_validate,
  operation_sha256, operation_hmac_sha256, operation_aes_gcm_encrypt, operation_aes_gcm_decrypt,
  operation_base64_encode, operation_base64_decode,
}
use forge_go.Portable.Json.{Reader, Decoding, strict_decode_object, require_json_fields, contains}
use forge_go.Portable.Text.{
  NormalizePayload, ValidatePayload, ValidateResult, normalize, validate, is_empty,
  contains_control,
}
use forge_go.Portable.Binary.{base64_encode, base64_decode}
use forge_go.Portable.Crypto.{
  Primitives, HmacPayload, AesPayload, sha256, hmac_sha256, aes_gcm_encrypt, aes_gcm_decrypt,
}
use forge_go.Portable.Dispatcher.{Dispatcher, validate_request, validate_identifier, is_refused}

-- The struct that an operation returns, as `any`.
pub data OperationResult : Type 0 where
  normalized digest mac ciphertext plaintext encoded decoded_text : Bytes → OperationResult
  validated : ValidateResult → OperationResult

-- What the package takes from `encoding/json`: typed decoding by `Decode`, and `Marshal`.
pub record Codec : Type 0 where
  pub reader : Reader
  pub decode_request : Bytes → Decoding Request
  pub decode_normalize : Bytes → Decoding NormalizePayload
  pub decode_validate : Bytes → Decoding ValidatePayload
  pub decode_sha256 : Bytes → Decoding Bytes
  pub decode_hmac : Bytes → Decoding HmacPayload
  pub decode_encrypt : Bytes → Decoding AesPayload
  pub decode_decrypt : Bytes → Decoding AesPayload
  pub decode_encode : Bytes → Decoding Bytes
  pub decode_decode : Bytes → Decoding Bytes
  pub marshal_result : OperationResult → Option Bytes
  pub marshal_response : Response → Option Bytes

abbrev tagged : (Bytes → OperationResult) → Result Bytes → Result OperationResult
tagged f (ok b) = ok (f b)
tagged f (err e) = err e

abbrev validation : Result ValidateResult → Result OperationResult
validation (ok r) = ok (validated r)
validation (err e) = err e

pub error_response : Bytes → AbiError → Response
error_response id e = record {
  abi = abi_version;
  id = id;
  succeeded = false;
  result = none;
  error = some e;
}

pub safe_response_id : Bytes → ℤ → Bytes
safe_response_id id max = if is_refused (validate_identifier id max) then [] else id

abbrev pub last_resort : Bytes
last_resort =
    codes
      "{\"abi\":\"goforge.abi.v1\",\"id\":\"\",\"ok\":false,\"error\":{\"code\":\"internal\",\"message\":\"portable operation failed without a safe public detail\",\"retryable\":false}}"

module _ (codec : Codec) (prims : Primitives) (d : Dispatcher) where
  -- The first lines of every operation: the strict decoding of its payload and its required fields.
  pub decode_payload : {A : Type 0} → (Bytes → Decoding A) → List Bytes → Bytes → Result A
  decode_payload decode names payload =
      strict_decode_object codec.reader decode payload d.limits.max_json_depth >>= λ input.
      require_json_fields codec.reader payload names >> ok input

  pub run_normalize : Bytes → Result OperationResult
  run_normalize payload =
      decode_payload codec.decode_normalize (codes "value" ∷ []) payload >>= λ input.
      tagged normalized (normalize d.limits input)

  pub run_validate : Bytes → Result OperationResult
  run_validate payload =
      decode_payload codec.decode_validate (codes "value" ∷ codes "rules" ∷ []) payload >>= λ input.
      validation (validate d.limits input)

  pub run_sha256 : Bytes → Result OperationResult
  run_sha256 payload = decode_payload codec.decode_sha256 (codes "data" ∷ []) payload >>= λ input.
      tagged digest (sha256 prims d.limits input)

  pub run_hmac_sha256 : Bytes → Result OperationResult
  run_hmac_sha256 payload =
      decode_payload codec.decode_hmac (codes "key" ∷ codes "data" ∷ []) payload >>= λ input.
      tagged mac (hmac_sha256 prims d.limits input)

  pub run_aes_gcm_encrypt : Bytes → Result OperationResult
  run_aes_gcm_encrypt payload =
      decode_payload codec.decode_encrypt
        (codes "key" ∷ codes "nonce" ∷ codes "aad" ∷ codes "plaintext" ∷ []) payload
      >>= λ input. tagged ciphertext (aes_gcm_encrypt prims d.limits input)

  pub run_aes_gcm_decrypt : Bytes → Result OperationResult
  run_aes_gcm_decrypt payload =
      decode_payload codec.decode_decrypt
        (codes "key" ∷ codes "nonce" ∷ codes "aad" ∷ codes "ciphertext" ∷ []) payload
      >>= λ input. tagged plaintext (aes_gcm_decrypt prims d.limits input)

  pub run_base64_encode : Bytes → Result OperationResult
  run_base64_encode payload =
      decode_payload codec.decode_encode (codes "text" ∷ []) payload >>= λ input.
      tagged encoded (base64_encode d.limits input)

  pub run_base64_decode : Bytes → Result OperationResult
  run_base64_decode payload =
      decode_payload codec.decode_decode (codes "encoded" ∷ []) payload >>= λ input.
      tagged decoded_text (base64_decode d.limits input)

  pub execute : Operation → Bytes → Result OperationResult
  execute operation payload =
      if equal operation operation_normalize
      then run_normalize payload
      else if equal operation operation_validate
      then run_validate payload
      else if equal operation operation_sha256
      then run_sha256 payload
      else if equal operation operation_hmac_sha256
      then run_hmac_sha256 payload
      else if equal operation operation_aes_gcm_encrypt
      then run_aes_gcm_encrypt payload
      else if equal operation operation_aes_gcm_decrypt
      then run_aes_gcm_decrypt payload
      else if equal operation operation_base64_encode
      then run_base64_encode payload
      else if equal operation operation_base64_decode
      then run_base64_decode payload
      else err (new_abi_error unknown_operation (codes "operation"))

  abbrev encoded_response : Bytes → Option Bytes → Response
  encoded_response id none = error_response id (new_abi_error internal [])
  encoded_response id (some text) = record {
    abi = abi_version;
    id = id;
    succeeded = true;
    result = some text;
    error = none;
  }

  abbrev pub respond : Bytes → Result OperationResult → Response
  respond id (err e) = error_response id e
  respond id (ok result) = encoded_response id (codec.marshal_result result)

  pub dispatch : Request → ExecutionState → Response
  dispatch r state =
      respond (safe_response_id r.id d.limits.max_id_bytes)
        (validate_request d r state >> execute r.operation r.payload)

  abbrev pub within_limit : Option Bytes → Option Bytes
  within_limit none = none
  within_limit (some text) =
      if le_int (pos (length text)) d.limits.max_response_bytes then some text else none

  abbrev pub or_else : Option Bytes → Bytes → Bytes
  or_else none other = other
  or_else (some text) other = text

  pub encode_response : Response → Bytes
  encode_response response =
      let fallback = error_response [] (new_abi_error response_too_large []) in
      or_else (within_limit (codec.marshal_response response))
        (or_else (within_limit (codec.marshal_response fallback)) last_resort)

  abbrev pub answer : ExecutionState → Result Request → Bytes
  answer state (err e) = encode_response (error_response [] e)
  answer state (ok request) = encode_response (dispatch request state)

  pub dispatch_json : Bytes → ExecutionState → Bytes
  dispatch_json document state =
      if lt_int d.limits.max_request_bytes (pos (length document))
      then encode_response (error_response [] (new_abi_error request_too_large []))
      else answer state
          (strict_decode_object codec.reader codec.decode_request document d.limits.max_json_depth)
