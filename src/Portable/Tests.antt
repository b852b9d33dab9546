-- ===== src/Portable/Tests.antt =====
-- The theorems of share/portable at concrete requests, documents and texts.
use forge_go.Prelude.{
  ◌≡◌, ◌≢◌, ◌↔◌, ◌<◌, ◌≤◌, refl, arith, true, false, List, [], ◌∷◌, some, pos, le_int, length, All,
  codes,
}
use forge_go.Prelude.Utf8.{runes}
use forge_go.Portable.Errors.{ok}
use forge_go.Portable.Abi.{Request, ExecutionState, abi_version, default_limits, operation_sha256}
use forge_go.Portable.Json.{
  Token, open_object, close_object, scalar, text, decoded, unknown, validate_json_structure,
  scan_value, enough, spent, done,
}
use forge_go.Portable.Json.Tree.{Value, print, Fits}
use forge_go.Portable.Json.Structure.{validate_json_structure_iff, scan_value_terminates}
use forge_go.Portable.Binary.{decode_binary, encode_binary}
use forge_go.Portable.Binary.RoundTrip.{decode_binary_iff}
use forge_go.Portable.Text.{collapse_whitespace, lowercase_ascii}
use forge_go.Portable.Text.Normalize.{
  Collapsed, words, gaps, NoCapital, SameButCase, collapse_whitespace_lem, lowercase_ascii_lem,
}
use forge_go.Portable.Crypto.{Primitives}
use forge_go.Portable.Dispatcher.{Dispatcher, new_dispatcher, validate_request}
use forge_go.Portable.Dispatcher.Validate.{
  AreSound, IsLabel, IsAcceptable, new_dispatcher_iff, validate_request_iff,
}
use forge_go.Portable.Dispatch.{Codec, dispatch, dispatch_json}
use forge_go.Portable.Dispatch.Respond.{IsEnvelope, dispatch_lem, dispatch_json-length}

abbrev dispatcher : Dispatcher
dispatcher = record { limits = default_limits }

-- A host whose clock is checked and stands before the deadline.
abbrev host : ExecutionState
host = record {
  clock_checked = true;
  now_unix_milliseconds = pos 1000;
  cancellation_checked = true;
  cancellation_token = codes "t1";
  cancellation_requested = false;
}

abbrev request : Request
request = record {
  abi = abi_version;
  id = codes "r-1";
  operation = operation_sha256;
  metadata = some (record {
    deadline_unix_milliseconds = some (pos 2000);
    cancellation_token = codes "t1";
    required_capabilities = codes "crypto.sha256" ∷ codes "control.deadline" ∷ [];
  });
  payload = codes "{\"data\":\"\"}";
}

-- A JSON package that decodes every document as one request, and primitives that add 16 zeros.
abbrev codec : Codec
codec = record {
  reader = record {
    tokens = λ _. open_object ∷ text (codes "data") ∷ scalar ∷ close_object ∷ [];
    fields = λ _. some (λ _. some (codes "1"));
  };
  decode_request = λ _. decoded request true;
  decode_normalize = λ _. unknown;
  decode_validate = λ _. unknown;
  decode_sha256 = λ _. decoded [] true;
  decode_hmac = λ _. unknown;
  decode_encrypt = λ _. unknown;
  decode_decrypt = λ _. unknown;
  decode_encode = λ _. unknown;
  decode_decode = λ _. unknown;
  marshal_result = λ _. some (codes "{}");
  marshal_response = λ q. some q.id;
}

abbrev primitives : Primitives
primitives = record {
  sha256_sum = λ b. b;
  hmac_sum = λ _ b. b;
  new_cipher = λ _. true;
  seal = λ _ _ b _. b;
  open_sealed = λ _ _ b _. some b;
}

validate_request_example :
    (validate_request dispatcher request host ≡ ok tt) ↔ IsAcceptable dispatcher request host
validate_request_example = validate_request_iff dispatcher request host

new_dispatcher_example :
    (new_dispatcher default_limits ≡ ok dispatcher)
    ↔ (AreSound default_limits × (default_limits ≡ default_limits))
new_dispatcher_example = new_dispatcher_iff default_limits dispatcher

dispatch_example :
    ((dispatch codec primitives dispatcher request host).abi ≡ abi_version)
    × (IsLabel (codes "r-1") (pos 128)
        → (dispatch codec primitives dispatcher request host).id ≡ codes "r-1")
    × (¬ IsLabel (codes "r-1") (pos 128)
        → (dispatch codec primitives dispatcher request host).id ≡ [])
    × IsEnvelope (dispatch codec primitives dispatcher request host)
    × ((dispatch codec primitives dispatcher request host).succeeded ≡ true
        → IsAcceptable dispatcher request host)
dispatch_example = dispatch_lem codec primitives dispatcher request host

default_limits-AreSound : AreSound default_limits
default_limits-AreSound = record {
  request = refl;
  response = refl;
  binary = refl;
  string = refl;
  id = refl;
  token = refl;
  capabilities = refl;
  depth = refl;
  binary_in_request = refl;
  string_in_request = refl;
}

dispatch_json-length_example :
    le_int
      (pos (length (dispatch_json codec primitives dispatcher (codes "{}") host)))
      (pos 1048576)
    ≡ true
dispatch_json-length_example =
    dispatch_json-length codec primitives default_limits dispatcher
      ((new_dispatcher_iff default_limits dispatcher).1 (default_limits-AreSound, refl))
      (codes "{}") host

-- `{"a": 1, "a": 2}`
abbrev repeated : List Token
repeated = open_object ∷ text (codes "a") ∷ scalar ∷ text (codes "a") ∷ scalar ∷ close_object ∷ []

validate_json_structure_example :
    (validate_json_structure repeated (pos 32) ≡ ok tt)
    ↔ ((v : Value) × (repeated ≡ print v []) × Fits (pos 32) 1 v)
validate_json_structure_example = validate_json_structure_iff repeated (pos 32)

scan_value_terminates_example :
    (scan_value (enough repeated) (pos 32) 1 repeated ≢ spent)
    × ((rest : List Token)
        → scan_value (enough repeated) (pos 32) 1 repeated ≡ done rest
        → length rest < 6)
scan_value_terminates_example = scan_value_terminates repeated (pos 32) 1

decode_binary_example :
    (decode_binary (codes "aGk=") (codes "payload.data") (pos 32) ≡ ok (codes "hi")) ↔ (
      (codes "aGk=" ≡ encode_binary (codes "hi"))
      × All (λ b. b < 256) (codes "hi")
      × (length (codes "hi") ≤ 32))
decode_binary_example =
    decode_binary_iff (codes "aGk=") (codes "payload.data") 32 (codes "hi") (omega arith)

collapse_whitespace_example :
    Collapsed false (runes (collapse_whitespace (codes "a \t b")))
    × (words (runes (collapse_whitespace (codes "a \t b"))) ≡ words (runes (codes "a \t b")))
    × (gaps false (runes (collapse_whitespace (codes "a \t b")))
        ≡ gaps false (runes (codes "a \t b")))
    × (collapse_whitespace (collapse_whitespace (codes "a \t b"))
        ≡ collapse_whitespace (codes "a \t b"))
collapse_whitespace_example = collapse_whitespace_lem (codes "a \t b")

lowercase_ascii_example :
    SameButCase (runes (lowercase_ascii (codes "Ab"))) (runes (codes "Ab"))
    × All NoCapital (runes (lowercase_ascii (codes "Ab")))
    × (lowercase_ascii (lowercase_ascii (codes "Ab")) ≡ lowercase_ascii (codes "Ab"))
lowercase_ascii_example = lowercase_ascii_lem (codes "Ab")
