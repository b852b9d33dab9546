-- ===== src/Portable/Dispatcher.antt =====
-- share/portable/dispatcher.go: the limits of a dispatcher, and the checks on a request.
pub mod Validate
use forge_go.Prelude.{
  ℕ, Bool, true, false, not, ◌&&◌, ◌||◌, List, [], ◌∷◌, Option, none, some, ℤ, pos, lt_int, le_int,
  ltb, ◌==◌, if◌then◌else◌, length, Bytes, codes, equal,
}
use forge_go.Prelude.Utf8.{within, runes, valid, is_control}
use forge_go.Portable.Errors.{
  ErrorCode, AbiError, Result, ok, err, ◌>>=◌, ◌>>◌, refuse_if, new_abi_error, invalid_request,
  request_too_large, invalid_abi, unknown_operation, input_too_large, capability_unavailable,
  execution_state_required, deadline_exceeded, cancellation_requested, response_too_large, internal,
}
use forge_go.Portable.Abi.{
  Limits, Request, RequestMetadata, ExecutionState, Response, Operation, abi_version,
  is_known_operation, supports_capability, operation_normalize, operation_validate,
  operation_sha256, operation_hmac_sha256, operation_aes_gcm_encrypt, operation_aes_gcm_decrypt,
  operation_base64_encode, operation_base64_decode,
}
use forge_go.Portable.Json.{Reader, Decoding, strict_decode_object, require_json_fields, contains}
use forge_go.Portable.Text.{
  NormalizePayload, ValidatePayload, ValidateResult, normalize, validate, is_empty,
  contains_control,
}
use forge_go.Portable.Binary.{base64_encode, base64_decode}
use forge_go.Portable.Crypto.{
  Primitives, HmacPayload, AesPayload, sha256, hmac_sha256, aes_gcm_encrypt, aes_gcm_decrypt,
}

pub record Dispatcher : Type 0 where
  pub limits : Limits

abbrev at_most_zero : ℤ → Bool
at_most_zero a = le_int a (pos 0)

pub new_dispatcher : Limits → Result Dispatcher
new_dispatcher l =
    refuse_if
      (at_most_zero l.max_request_bytes
        || lt_int l.max_response_bytes (pos 512)
        || lt_int l.max_binary_bytes (pos 32)
        || at_most_zero l.max_string_bytes
        || at_most_zero l.max_id_bytes
        || at_most_zero l.max_cancellation_token_bytes
        || at_most_zero l.max_required_capabilities
        || at_most_zero l.max_json_depth
        || lt_int l.max_request_bytes l.max_binary_bytes
        || lt_int l.max_request_bytes l.max_string_bytes)
      invalid_request (codes "limits")
    >> ok (record { limits = l })

-- The common body of `validateIdentifier` and `validateToken`.
pub checked_text : Bytes → ℤ → Bytes → Result (Unit {0})
checked_text value max field =
    refuse_if (is_empty value || lt_int max (pos (length value)) || not (valid value))
      invalid_request field
    >> refuse_if (contains_control (runes value)) invalid_request field

pub validate_identifier : Bytes → ℤ → Result (Unit {0})
unfolding checked_text
validate_identifier value max = checked_text value max (codes "id")

pub validate_token : Bytes → ℤ → Result (Unit {0})
unfolding checked_text
validate_token value max = checked_text value max (codes "metadata.cancellation_token")

abbrev pub in_name : ℕ → Bool
in_name r = within b'a' b'z' r || within b'0' b'9' r || r == b'.' || r == b'-'

pub all_in_name : List ℕ → Bool
all_in_name [] = true
all_in_name (r ∷ rs) = if not (in_name r) then false else all_in_name rs

pub validate_capability_name : Bytes → Result (Unit {0})
unfolding all_in_name
validate_capability_name value =
    refuse_if (is_empty value || lt_int (pos 128) (pos (length value))) invalid_request
      (codes "metadata.required_capabilities")
    >> refuse_if (not (all_in_name (runes value))) invalid_request
        (codes "metadata.required_capabilities")

abbrev pub is_refused : Result (Unit {0}) → Bool
is_refused (ok _) = false
is_refused (err _) = true

-- The loop over the required capabilities, with those seen so far.
pub check_capabilities : List Bytes → List Bytes → Result (Unit {0})
check_capabilities seen [] = ok tt
check_capabilities seen (c ∷ cs) =
    refuse_if (is_refused (validate_capability_name c)) invalid_request
      (codes "metadata.required_capabilities")
    >> refuse_if (contains seen c) invalid_request (codes "metadata.required_capabilities")
    >> refuse_if (not (supports_capability c)) capability_unavailable
        (codes "metadata.required_capabilities")
    >> check_capabilities (c ∷ seen) cs

pub check_deadline : Option ℤ → ExecutionState → Result (Unit {0})
check_deadline none state = ok tt
check_deadline (some deadline) state =
    refuse_if (at_most_zero deadline) invalid_request (codes "metadata.deadline_unix_ms")
    >> refuse_if (not state.clock_checked) execution_state_required
        (codes "metadata.deadline_unix_ms")
    >> refuse_if (le_int deadline state.now_unix_milliseconds) deadline_exceeded
        (codes "metadata.deadline_unix_ms")

pub check_token : Limits → Bytes → ExecutionState → Result (Unit {0})
check_token limits [] state = ok tt
check_token limits (b ∷ bs) state =
    let token = b ∷ bs in
    refuse_if (is_refused (validate_token token limits.max_cancellation_token_bytes))
      invalid_request (codes "metadata.cancellation_token")
    >> refuse_if (not state.cancellation_checked || not (equal state.cancellation_token token))
        execution_state_required (codes "metadata.cancellation_token")
    >> refuse_if state.cancellation_requested cancellation_requested
        (codes "metadata.cancellation_token")

pub check_metadata : Limits → Option RequestMetadata → ExecutionState → Result (Unit {0})
check_metadata limits none state = ok tt
check_metadata limits (some m) state =
    refuse_if (lt_int limits.max_required_capabilities (pos (length m.required_capabilities)))
      input_too_large (codes "metadata.required_capabilities")
    >> check_capabilities [] m.required_capabilities
    >> check_deadline m.deadline_unix_milliseconds state
    >> check_token limits m.cancellation_token state

pub validate_request : Dispatcher → Request → ExecutionState → Result (Unit {0})
validate_request d r state =
    refuse_if (not (equal r.abi abi_version)) invalid_abi (codes "abi")
    >> validate_identifier r.id d.limits.max_id_bytes
    >> refuse_if (not (is_known_operation r.operation)) unknown_operation (codes "operation")
    >> refuse_if (is_empty r.payload) invalid_request (codes "payload")
    >> check_metadata d.limits r.metadata state
