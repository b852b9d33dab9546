-- ===== src/Portable/Errors.antt =====
-- share/portable/errors.go: the error codes, their catalogue, and the result of a fallible call.
pub mod Catalog
use mathlib.Core.Logic.{ite}
use forge_go.Prelude.{ℕ, Bool, true, false, List, [], ◌∷◌, ◌≡◌, refl, Bytes, codes, if◌then◌else◌}

pub data ErrorCode : Type 0 where
  invalid_json unknown_field duplicate_field request_too_large response_too_large : ErrorCode
  invalid_abi invalid_request unknown_operation capability_unavailable : ErrorCode
  execution_state_required deadline_exceeded cancellation_requested : ErrorCode
  invalid_base64 invalid_utf8 input_too_large invalid_key invalid_nonce : ErrorCode
  authentication_failed internal : ErrorCode

pub ErrorCode-discrete : Discrete ErrorCode
ErrorCode-discrete = hlevel

pub record AbiError : Type 0 where
  pub code : ErrorCode
  pub message : Bytes
  pub retryable : Bool
  pub field : Bytes

pub record ErrorDefinition : Type 0 where
  pub code : ErrorCode
  pub message : Bytes
  pub retryable : Bool

abbrev entry : ErrorCode → Bytes → Bool → ErrorDefinition
entry c m r = record { code = c; message = m; retryable = r }

pub error_catalog : List ErrorDefinition
error_catalog =
    entry invalid_json (codes "JSON is malformed or not canonical ABI input") false
    ∷ entry unknown_field (codes "JSON contains an unknown field") false
    ∷ entry duplicate_field (codes "JSON contains a duplicate object field") false
    ∷ entry request_too_large (codes "request exceeds the configured byte limit") false
    ∷ entry response_too_large (codes "response exceeds the configured byte limit") false
    ∷ entry invalid_abi (codes "request ABI version is unsupported") false
    ∷ entry invalid_request (codes "request does not satisfy the ABI contract") false
    ∷ entry unknown_operation (codes "operation is unsupported") false
    ∷ entry capability_unavailable (codes "required capability is unavailable") false
    ∷ entry execution_state_required (codes "host did not provide checked execution state") false
    ∷ entry deadline_exceeded (codes "request deadline has been exceeded") true
    ∷ entry cancellation_requested (codes "request cancellation was requested") false
    ∷ entry invalid_base64 (codes "value is not canonical standard padded Base64") false
    ∷ entry invalid_utf8 (codes "value is not valid UTF-8") false
    ∷ entry input_too_large (codes "operation input exceeds the configured byte limit") false
    ∷ entry invalid_key (codes "cryptographic key has an invalid length") false
    ∷ entry invalid_nonce (codes "AES-GCM nonce must be exactly 12 bytes") false
    ∷ entry authentication_failed (codes "AES-GCM authentication failed") false
    ∷ entry internal (codes "portable operation failed without a safe public detail") false
    ∷ []

-- The loop of `newABIError`; past the end it gives the error without a field.
find_error : List ErrorDefinition → ErrorCode → Bytes → AbiError
unfolding ErrorCode-discrete
find_error [] code field = record {
  code = internal;
  message = codes "portable operation failed without a safe public detail";
  retryable = false;
  field = [];
}
find_error (d ∷ ds) code field =
    ite (ErrorCode-discrete d.code code)
      (record { code = d.code; message = d.message; retryable = d.retryable; field = field })
      (find_error ds code field)

pub new_abi_error : ErrorCode → Bytes → AbiError
unfolding find_error error_catalog
new_abi_error code field = find_error error_catalog code field

pub error_definitions : List ErrorDefinition
unfolding error_catalog
error_definitions = error_catalog

pub data Result {ℓ} (A : Type ℓ) : Type ℓ where
  ok : A → Result A
  err : AbiError → Result A

-- The rest of a function behind a call: it goes on with the value, or returns the error.
infixl 5 ◌>>=◌
abbrev pub ◌>>=◌ {ℓ κ} : {V : Type ℓ} {W : Type κ} → Result V → (V → Result W) → Result W
ok value >>= rest = rest value
err refusal >>= rest = err refusal

-- The same behind a check, which has no value.
infixl 5 ◌>>◌
abbrev pub ◌>>◌ {ℓ} : {W : Type ℓ} → Result (Unit {0}) → Result W → Result W
check >> rest = check >>= λ _. rest

-- `if refused { return newABIError(code, field) }`
abbrev pub refuse_if : Bool → ErrorCode → Bytes → Result (Unit {0})
refuse_if refused code field = if refused then err (new_abi_error code field) else ok tt
