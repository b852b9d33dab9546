-- ===== src/Portable/Abi.antt =====
-- share/portable/abi.go and manifest.go: the types of the ABI, its limits, and the tables of
-- operations and capabilities. A Go `int` or `int64` is an integer; an `omitempty` value that may
-- be absent is an option.
pub mod Tables
use forge_go.Prelude.{
  ℕ, Bool, true, false, ◌||◌, List, [], ◌∷◌, Option, none, some, ℤ, pos, Bytes, codes, equal,
  if◌then◌else◌,
}
use forge_go.Portable.Errors.{AbiError, ErrorDefinition, error_definitions}

abbrev pub package_name : Bytes
package_name = codes "pointerbyte:goforge"

abbrev pub package_version : Bytes
package_version = codes "0.1.0"

abbrev pub abi_version : Bytes
abi_version = codes "goforge.abi.v1"

abbrev pub manifest_schema : Bytes
manifest_schema = codes "goforge.manifest.v1"

-- `Operation` is a string type.
abbrev pub Operation : Type 0
Operation = Bytes

abbrev pub operation_normalize : Bytes
operation_normalize = codes "text.normalize"

abbrev pub operation_validate : Bytes
operation_validate = codes "text.validate"

abbrev pub operation_sha256 : Bytes
operation_sha256 = codes "crypto.sha256"

abbrev pub operation_hmac_sha256 : Bytes
operation_hmac_sha256 = codes "crypto.hmac-sha256"

abbrev pub operation_aes_gcm_encrypt : Bytes
operation_aes_gcm_encrypt = codes "crypto.aes-gcm.encrypt"

abbrev pub operation_aes_gcm_decrypt : Bytes
operation_aes_gcm_decrypt = codes "crypto.aes-gcm.decrypt"

abbrev pub operation_base64_encode : Bytes
operation_base64_encode = codes "encoding.base64.encode"

abbrev pub operation_base64_decode : Bytes
operation_base64_decode = codes "encoding.base64.decode"

pub record Limits : Type 0 where
  pub max_request_bytes : ℤ
  pub max_response_bytes : ℤ
  pub max_binary_bytes : ℤ
  pub max_string_bytes : ℤ
  pub max_id_bytes : ℤ
  pub max_cancellation_token_bytes : ℤ
  pub max_required_capabilities : ℤ
  pub max_json_depth : ℤ

abbrev pub default_limits : Limits
default_limits = record {
  max_request_bytes = pos 1048576;
  max_response_bytes = pos 1048576;
  max_binary_bytes = pos 524288;
  max_string_bytes = pos 65536;
  max_id_bytes = pos 128;
  max_cancellation_token_bytes = pos 256;
  max_required_capabilities = pos 32;
  max_json_depth = pos 32;
}

pub record RequestMetadata : Type 0 where
  pub deadline_unix_milliseconds : Option ℤ
  pub cancellation_token : Bytes
  pub required_capabilities : List Bytes

pub record Request : Type 0 where
  pub abi : Bytes
  pub id : Bytes
  pub operation : Operation
  pub metadata : Option RequestMetadata
  pub payload : Bytes

pub record ExecutionState : Type 0 where
  pub clock_checked : Bool
  pub now_unix_milliseconds : ℤ
  pub cancellation_checked : Bool
  pub cancellation_token : Bytes
  pub cancellation_requested : Bool

pub record Response : Type 0 where
  pub abi : Bytes
  pub id : Bytes
  pub succeeded : Bool
  pub result : Option Bytes
  pub error : Option AbiError

pub record OperationDefinition : Type 0 where
  pub name : Operation
  pub capability : Bytes

pub record CapabilityDefinition : Type 0 where
  pub name : Bytes
  pub version : Bytes
  pub host : Bool
  pub operations : List Operation

pub record Manifest : Type 0 where
  pub schema : Bytes
  pub package_id : Bytes
  pub version : Bytes
  pub abi : Bytes
  pub json_encoding : Bytes
  pub binary_encoding : Bytes
  pub limits : Limits
  pub operations : List OperationDefinition
  pub capabilities : List CapabilityDefinition
  pub errors : List ErrorDefinition

abbrev operation : Operation → Bytes → OperationDefinition
operation n c = record { name = n; capability = c }

abbrev portable : Bytes → List Operation → CapabilityDefinition
portable n ops = record { name = n; version = codes "1"; host = false; operations = ops }

abbrev host_control : Bytes → CapabilityDefinition
host_control n = record { name = n; version = codes "1"; host = true; operations = [] }

pub manifest_for : Limits → Manifest
manifest_for limits = record {
  schema = manifest_schema;
  package_id = package_name;
  version = package_version;
  abi = abi_version;
  json_encoding = codes "RFC 8259; UTF-8; unique object fields; unknown fields rejected";
  binary_encoding = codes "RFC 4648 standard alphabet with required padding";
  limits = limits;
  operations =
      operation operation_normalize (codes "portable.normalize")
      ∷ operation operation_validate (codes "portable.validate")
      ∷ operation operation_sha256 (codes "crypto.sha256")
      ∷ operation operation_hmac_sha256 (codes "crypto.hmac-sha256")
      ∷ operation operation_aes_gcm_encrypt (codes "crypto.aes-gcm")
      ∷ operation operation_aes_gcm_decrypt (codes "crypto.aes-gcm")
      ∷ operation operation_base64_encode (codes "encoding.base64")
      ∷ operation operation_base64_decode (codes "encoding.base64")
      ∷ [];
  capabilities =
      portable (codes "portable.normalize") (operation_normalize ∷ [])
      ∷ portable (codes "portable.validate") (operation_validate ∷ [])
      ∷ portable (codes "crypto.sha256") (operation_sha256 ∷ [])
      ∷ portable (codes "crypto.hmac-sha256") (operation_hmac_sha256 ∷ [])
      ∷ portable (codes "crypto.aes-gcm")
          (operation_aes_gcm_encrypt ∷ operation_aes_gcm_decrypt ∷ [])
      ∷ portable (codes "encoding.base64") (operation_base64_encode ∷ operation_base64_decode ∷ [])
      ∷ host_control (codes "control.deadline")
      ∷ host_control (codes "control.cancellation")
      ∷ [];
  errors = error_definitions;
}

pub is_known_operation : Operation → Bool
is_known_operation o =
    equal o operation_normalize
    || equal o operation_validate
    || equal o operation_sha256
    || equal o operation_hmac_sha256
    || equal o operation_aes_gcm_encrypt
    || equal o operation_aes_gcm_decrypt
    || equal o operation_base64_encode
    || equal o operation_base64_decode

unfoldable pub supports_capability : Bytes → Bool
supports_capability c =
    equal c (codes "portable.normalize")
    || equal c (codes "portable.validate")
    || equal c (codes "crypto.sha256")
    || equal c (codes "crypto.hmac-sha256")
    || equal c (codes "crypto.aes-gcm")
    || equal c (codes "encoding.base64")
    || equal c (codes "control.deadline")
    || equal c (codes "control.cancellation")
