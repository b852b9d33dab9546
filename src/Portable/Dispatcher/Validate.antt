-- ===== src/Portable/Dispatcher/Validate.antt =====
-- share/portable/dispatcher.go: which limits make a dispatcher, and which requests pass its checks.
use forge_go.Prelude.{
  ◌≡◌, ◌≢◌, ◌↔◌, refl, true, false, List, [], ◌∷◌, Option, none, some, arith, ℤ, pos, lt_int,
  le_int, length, All, Bytes, codes, equal, equal_iff,
}
use forge_go.Prelude.Utf8.{runes, runes_from, decode, valid, is_control}
use forge_go.Portable.Errors.{ok}
use forge_go.Portable.Abi.{
  Limits, Request, RequestMetadata, ExecutionState, abi_version, is_known_operation,
  supports_capability,
}
use forge_go.Portable.Json.{contains}
use forge_go.Portable.Text.Rules.{is_empty_iff, contains_control_iff}
use forge_go.Portable.Dispatcher.{
  Dispatcher, new_dispatcher, validate_identifier, validate_token, validate_capability_name,
  check_capabilities, check_deadline, check_token, check_metadata, validate_request, checked_text,
  is_refused,
}

-- Every limit is positive, a response can hold any error, a binary value can hold a key, and one
-- binary or text value is no larger than a whole request.
pub record AreSound (l : Limits) : Type 0 where
  pub request : lt_int (pos 0) l.max_request_bytes ≡ true
  pub response : le_int (pos 512) l.max_response_bytes ≡ true
  pub binary : le_int (pos 32) l.max_binary_bytes ≡ true
  pub string : lt_int (pos 0) l.max_string_bytes ≡ true
  pub id : lt_int (pos 0) l.max_id_bytes ≡ true
  pub token : lt_int (pos 0) l.max_cancellation_token_bytes ≡ true
  pub capabilities : lt_int (pos 0) l.max_required_capabilities ≡ true
  pub depth : lt_int (pos 0) l.max_json_depth ≡ true
  pub binary_in_request : le_int l.max_binary_bytes l.max_request_bytes ≡ true
  pub string_in_request : le_int l.max_string_bytes l.max_request_bytes ≡ true

-- `NewDispatcher` succeeds exactly on sound limits, and keeps them unchanged.
pub new_dispatcher_iff :
    (l : Limits) (d : Dispatcher) → (new_dispatcher l ≡ ok d) ↔ (AreSound l × (d.limits ≡ l))
unfolding new_dispatcher
new_dispatcher_iff l d = ((λ h. ground arith), (λ h. ground arith))

-- A text that `validateIdentifier` and `validateToken` take.
pub record IsLabel (value : Bytes) (max : ℤ) : Type 0 where
  pub nonempty : value ≢ []
  pub short : le_int (pos (length value)) max ≡ true
  pub utf8 : valid value ≡ true
  pub printable : All (λ r. is_control r ≡ false) (runes value)

checked_text_iff :
    (value : Bytes) (max : ℤ) (field : Bytes)
    → (checked_text value max field ≡ ok tt) ↔ IsLabel value max
unfolding checked_text
checked_text_iff value max field = (
  (λ h. ground (arith, is_empty_iff value, contains_control_iff (runes value))),
  (λ h. ground (arith, is_empty_iff value, contains_control_iff (runes value))),
)

-- Each capability differs from those seen and from each other, and the dispatcher supports it.
abbrev pub Distinct : List Bytes → List Bytes → Type 0
Distinct seen [] = Unit
Distinct seen (c ∷ cs) = All (λ j. c ≢ j) seen × Distinct (c ∷ seen) cs

contains-false_iff :
    (seen : List Bytes) (c : Bytes) → (contains seen c ≡ false) ↔ All (λ j. c ≢ j) seen
contains-false_iff [] c = ((λ _. tt), (λ _. refl))
contains-false_iff (j ∷ seen) c = ground (arith, equal_iff j c, contains-false_iff seen c)

named :
    (c name : Bytes)
    → validate_capability_name name ≡ ok tt
    → equal c name ≡ true
    → validate_capability_name c ≡ ok tt
named c name h e = rw ((equal_iff c name).0 e) h

-- Every supported capability has a well-formed name.
supported_name : (c : Bytes) → supports_capability c ≡ true → validate_capability_name c ≡ ok tt
unfolding supports_capability validate_capability_name runes_from decode
supported_name c h = ground (
  arith,
  named c (codes "portable.normalize") refl,
  named c (codes "portable.validate") refl,
  named c (codes "crypto.sha256") refl,
  named c (codes "crypto.hmac-sha256") refl,
  named c (codes "crypto.aes-gcm") refl,
  named c (codes "encoding.base64") refl,
  named c (codes "control.deadline") refl,
  named c (codes "control.cancellation") refl,
)

check_capabilities_iff :
    (seen cs : List Bytes)
    → (check_capabilities seen cs ≡ ok tt)
      ↔ (Distinct seen cs × All (λ c. supports_capability c ≡ true) cs)
unfolding check_capabilities
check_capabilities_iff seen [] = ((λ _. (tt, tt)), (λ _. refl))
check_capabilities_iff seen (c ∷ cs) =
    ground
      (arith, supported_name c, contains-false_iff seen c, check_capabilities_iff (c ∷ seen) cs)

-- A deadline is a positive time that the host's checked clock has not reached.
abbrev pub InTime : Option ℤ → ExecutionState → Type 0
InTime none state = Unit
InTime (some deadline) state =
    (lt_int (pos 0) deadline ≡ true)
    × (state.clock_checked ≡ true)
    × (lt_int state.now_unix_milliseconds deadline ≡ true)

check_deadline_iff :
    (deadline : Option ℤ) (state : ExecutionState)
    → (check_deadline deadline state ≡ ok tt) ↔ InTime deadline state
unfolding check_deadline
check_deadline_iff none state = ((λ _. tt), (λ _. refl))
check_deadline_iff (some deadline) state = ground arith

-- A cancellation token is one that the host has checked for this very request, and not cancelled.
abbrev pub NotCancelled : Limits → Bytes → ExecutionState → Type 0
NotCancelled limits [] state = Unit
NotCancelled limits (b ∷ bs) state =
    IsLabel (b ∷ bs) limits.max_cancellation_token_bytes
    × (state.cancellation_checked ≡ true)
    × (state.cancellation_token ≡ b ∷ bs)
    × (state.cancellation_requested ≡ false)

validate_token_iff :
    (value : Bytes) (max : ℤ) → (is_refused (validate_token value max) ≡ false) ↔ IsLabel value max
unfolding validate_token
validate_token_iff value max =
    ground (arith, checked_text_iff value max (codes "metadata.cancellation_token"))

check_token_iff :
    (limits : Limits) (token : Bytes) (state : ExecutionState)
    → (check_token limits token state ≡ ok tt) ↔ NotCancelled limits token state
unfolding check_token
check_token_iff limits [] state = ((λ _. tt), (λ _. refl))
check_token_iff limits (b ∷ bs) state = ground (
  arith,
  validate_token_iff (b ∷ bs) limits.max_cancellation_token_bytes,
  equal_iff state.cancellation_token (b ∷ bs),
)

abbrev pub MetadataHolds : Limits → Option RequestMetadata → ExecutionState → Type 0
MetadataHolds limits none state = Unit
MetadataHolds limits (some m) state =
    (le_int (pos (length m.required_capabilities)) limits.max_required_capabilities ≡ true)
    × Distinct [] m.required_capabilities
    × All (λ c. supports_capability c ≡ true) m.required_capabilities
    × InTime m.deadline_unix_milliseconds state
    × NotCancelled limits m.cancellation_token state

check_metadata_iff :
    (limits : Limits) (m : Option RequestMetadata) (state : ExecutionState)
    → (check_metadata limits m state ≡ ok tt) ↔ MetadataHolds limits m state
unfolding check_metadata
check_metadata_iff limits none state = ((λ _. tt), (λ _. refl))
check_metadata_iff limits (some m) state = ground (
  arith,
  check_capabilities_iff [] m.required_capabilities,
  check_deadline_iff m.deadline_unix_milliseconds state,
  check_token_iff limits m.cancellation_token state,
)

-- What a request must satisfy, in the words of the ABI.
pub record IsAcceptable (d : Dispatcher) (r : Request) (state : ExecutionState) : Type 0 where
  pub abi : r.abi ≡ abi_version
  pub id : IsLabel r.id d.limits.max_id_bytes
  pub operation : is_known_operation r.operation ≡ true
  pub payload : r.payload ≢ []
  pub metadata : MetadataHolds d.limits r.metadata state

pub validate_identifier_iff :
    (value : Bytes) (max : ℤ) → (validate_identifier value max ≡ ok tt) ↔ IsLabel value max
unfolding validate_identifier
validate_identifier_iff value max = checked_text_iff value max (codes "id")

-- `validateRequest` passes a request exactly when it is acceptable: its version and operation are
-- known, its id is a short printable label, its payload is there, and its metadata holds: few enough
-- capabilities, all different and supported, a positive deadline that the checked clock has not
-- reached, and a printable token that the host has checked and not cancelled.
pub validate_request_iff :
    (d : Dispatcher) (r : Request) (state : ExecutionState)
    → (validate_request d r state ≡ ok tt) ↔ IsAcceptable d r state
unfolding validate_request
validate_request_iff d r state = (
  (λ h. ground (
    arith,
    equal_iff r.abi abi_version,
    validate_identifier_iff r.id d.limits.max_id_bytes,
    is_empty_iff r.payload,
    check_metadata_iff d.limits r.metadata state,
  )),
  (λ h. ground (
    arith,
    equal_iff r.abi abi_version,
    validate_identifier_iff r.id d.limits.max_id_bytes,
    is_empty_iff r.payload,
    check_metadata_iff d.limits r.metadata state,
  )),
)
