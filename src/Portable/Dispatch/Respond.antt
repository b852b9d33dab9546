-- ===== src/Portable/Dispatch/Respond.antt =====
-- share/portable/dispatcher.go: the shape of every response, and the bound on its encoding.
use forge_go.Prelude.{
  ◌≡◌, ◌⊎◌, inl, inr, refl, sym, ap, ◌∙◌, true, false, [], Option, none, some, arith, ℤ, pos,
  lt_int, le_int, length, Bytes, Bool-cases, Option-cases,
}
use mathlib.Core.Path.{subst}
use forge_go.Portable.Errors.{
  AbiError, Result, ok, err, ◌>>◌, new_abi_error, response_too_large, request_too_large,
}
use forge_go.Portable.Abi.{Limits, Request, ExecutionState, Response, abi_version}
use forge_go.Portable.Crypto.{Primitives}
use forge_go.Portable.Json.{strict_decode_object}
use forge_go.Portable.Dispatcher.{
  Dispatcher, new_dispatcher, validate_request, validate_identifier, is_refused,
}
use forge_go.Portable.Dispatcher.Validate.{
  IsAcceptable, IsLabel, new_dispatcher_iff, validate_request_iff, validate_identifier_iff,
}
use forge_go.Portable.Dispatch.{
  Codec, OperationResult, dispatch, execute, respond, error_response, safe_response_id,
  encode_response, within_limit, last_resort, dispatch_json, answer, or_else,
}

-- Exactly one of the result and the error is there, and the flag says which.
abbrev pub IsEnvelope : Response → Type 0
IsEnvelope q =
    ((q.succeeded ≡ true) × ((b : Bytes) × (q.result ≡ some b)) × (q.error ≡ none))
    ⊎ ((q.succeeded ≡ false) × (q.result ≡ none) × ((e : AbiError) × (q.error ≡ some e)))

some_eq : (t b : Bytes) → some t ≡ some b → t ≡ b
some_eq t b h = cc

module _ (codec : Codec) (prims : Primitives) (d : Dispatcher) where
  respond-IsEnvelope :
      (id : Bytes) (r : Result OperationResult) → IsEnvelope (respond codec prims d id r)
  unfolding error_response
  respond-IsEnvelope id (err e) = inr (refl, refl, (e, refl))
  respond-IsEnvelope id (ok result) = elim (Option-cases (codec.marshal_result result)) [
    | inl e ↦ rw e (inr (refl, refl, (_, refl)))
    | inr (b, e) ↦ rw e (inl (refl, (b, refl), refl))
  ]

  respond_labels :
      (id : Bytes) (r : Result OperationResult)
      → ((respond codec prims d id r).abi ≡ abi_version) × ((respond codec prims d id r).id ≡ id)
  unfolding error_response
  respond_labels id (err e) = (refl, refl)
  respond_labels id (ok result) = elim (Option-cases (codec.marshal_result result)) [
    | inl e ↦ rw e (refl, refl)
    | inr (b, e) ↦ rw e (refl, refl)
  ]

  respond_succeeded :
      (id : Bytes) (r : Result OperationResult)
      → (respond codec prims d id r).succeeded ≡ true
      → (o : OperationResult) × (r ≡ ok o)
  unfolding error_response
  respond_succeeded id (err e) h = cc
  respond_succeeded id (ok result) h = (result, refl)

  safe_response_id_lem :
      (id : Bytes) (max : ℤ)
      → (IsLabel id max → safe_response_id id max ≡ id)
        × (¬ IsLabel id max → safe_response_id id max ≡ [])
  unfolding safe_response_id
  safe_response_id_lem id max = elim (Bool-cases (is_refused (validate_identifier id max))) [
    | inl refused ↦ ((λ l. absurd (unlike id max refused l)), (λ _. rw refused))
    | inr taken ↦ ((λ _. rw taken), (λ h. absurd (h (like id max taken))))
  ]
    where
      unlike :
          (id : Bytes) (max : ℤ) → is_refused (validate_identifier id max) ≡ true → ¬ IsLabel id max
      unlike id max e l = cc (rw ((validate_identifier_iff id max).1 l) at e)

      like :
          (id : Bytes) (max : ℤ) → is_refused (validate_identifier id max) ≡ false → IsLabel id max
      like id max e = (validate_identifier_iff id max).0 (ground arith)

  -- Whatever the request, the host's state, the codec and the primitives: a response carries the
  -- version, the request's id if that is a label and no id otherwise, and either a result or an
  -- error; and a request that succeeds was acceptable.
  pub dispatch_lem :
      (r : Request) (state : ExecutionState)
      → ((dispatch codec prims d r state).abi ≡ abi_version)
        × (IsLabel r.id d.limits.max_id_bytes → (dispatch codec prims d r state).id ≡ r.id)
        × (¬ IsLabel r.id d.limits.max_id_bytes → (dispatch codec prims d r state).id ≡ [])
        × IsEnvelope (dispatch codec prims d r state)
        × ((dispatch codec prims d r state).succeeded ≡ true → IsAcceptable d r state)
  unfolding dispatch
  dispatch_lem r state = (
    (respond_labels _ outcome).0,
    (λ h. (respond_labels _ outcome).1 ∙ (safe_response_id_lem r.id d.limits.max_id_bytes).0 h),
    (λ h. (respond_labels _ outcome).1 ∙ (safe_response_id_lem r.id d.limits.max_id_bytes).1 h),
    respond-IsEnvelope _ outcome,
    λ h. (validate_request_iff d r state).0 (passed (respond_succeeded _ outcome h)),
  )
    where
      outcome : Result OperationResult
      outcome = validate_request d r state >> execute codec prims d r.operation r.payload

      passed : ((o : OperationResult) × (outcome ≡ ok o)) → validate_request d r state ≡ ok tt
      passed p = ground (arith, p.1)

  -- A text that is no longer than the limit.
  abbrev Bounded : Bytes → Type 0
  Bounded text = le_int (pos (length text)) d.limits.max_response_bytes ≡ true

  last_resort-Bounded : le_int (pos 512) d.limits.max_response_bytes ≡ true → Bounded last_resort
  last_resort-Bounded room = ground arith

  within_limit-Bounded :
      (o : Option Bytes) (b : Bytes) → within_limit codec prims d o ≡ some b → Bounded b
  within_limit-Bounded none b h = cc
  within_limit-Bounded (some t) b h =
      elim (Bool-cases (le_int (pos (length t)) d.limits.max_response_bytes)) [
        | inl fits ↦ subst Bounded (some_eq t b (rw fits at h)) fits
        | inr large ↦ cc (rw large at h)
      ]

  or_else-Bounded :
      (o : Option Bytes) (t : Bytes)
      → ((b : Bytes) → o ≡ some b → Bounded b)
      → Bounded t
      → Bounded (or_else codec prims d o t)
  or_else-Bounded none t h k = k
  or_else-Bounded (some b) t h k = h b refl

  encode_response-Bounded :
      (response : Response)
      → le_int (pos 512) d.limits.max_response_bytes ≡ true
      → Bounded (encode_response codec prims d response)
  unfolding encode_response
  encode_response-Bounded response room =
      let fallback =
        codec.marshal_response (error_response [] (new_abi_error response_too_large [])) in
      let shorter = or_else codec prims d (within_limit codec prims d fallback) last_resort in
      or_else-Bounded (within_limit codec prims d (codec.marshal_response response)) shorter
        (within_limit-Bounded (codec.marshal_response response))
        (or_else-Bounded (within_limit codec prims d fallback) last_resort
          (within_limit-Bounded fallback) (last_resort-Bounded room))

  answer-Bounded :
      (state : ExecutionState) (r : Result Request)
      → le_int (pos 512) d.limits.max_response_bytes ≡ true
      → Bounded (answer codec prims d state r)
  answer-Bounded state (err e) room = encode_response-Bounded (error_response [] e) room
  answer-Bounded state (ok r) room = encode_response-Bounded (dispatch codec prims d r state) room

  dispatch_json-Bounded :
      (document : Bytes) (state : ExecutionState)
      → le_int (pos 512) d.limits.max_response_bytes ≡ true
      → Bounded (dispatch_json codec prims d document state)
  unfolding dispatch_json
  dispatch_json-Bounded document state room =
      elim (Bool-cases (lt_int d.limits.max_request_bytes (pos (length document)))) [
        | inl large ↦
            rw large (
              encode_response-Bounded (error_response [] (new_abi_error request_too_large [])) room)
        | inr fits ↦ rw fits (
            answer-Bounded state
              (strict_decode_object codec.reader codec.decode_request document
                d.limits.max_json_depth)
              room)
      ]

-- No answer is longer than the response limit of the dispatcher, for any limits that `NewDispatcher`
-- takes, any input document and any behaviour of the JSON package and of the primitives: where the
-- response is too long, or cannot be encoded, a shorter error stands in for it.
pub dispatch_json-length :
    (codec : Codec) (prims : Primitives) (l : Limits) (d : Dispatcher)
    → new_dispatcher l ≡ ok d
    → (document : Bytes) (state : ExecutionState)
    → le_int (pos (length (dispatch_json codec prims d document state))) l.max_response_bytes ≡ true
dispatch_json-length codec prims l d made document state =
    let (sound, e) = (new_dispatcher_iff l d).0 made in
    let size = length (dispatch_json codec prims d document state) in
    ap (λ (k : Limits). le_int (pos size) k.max_response_bytes) (sym e)
    ∙ dispatch_json-Bounded codec prims d document state
        (ap (λ (k : Limits). le_int (pos 512) k.max_response_bytes) e ∙ sound.response)
