-- ===== src/Portable/Errors/Catalog.antt =====
-- share/portable/errors.go: the catalogue covers every code.
use forge_go.Prelude.{◌≡◌, ◌≢◌, ◌↔◌, refl, true, [], arith, Bytes}
use forge_go.Portable.Errors.{ErrorCode, deadline_exceeded, invalid_json, new_abi_error}

-- `newABIError` never takes its fallback: for every declared code the error carries that code, a
-- message and the given field, and it is retryable exactly when the code is the expired deadline.
new_abi_error_lem :
    (code : ErrorCode) (field : Bytes)
    → ((new_abi_error code field).code ≡ code)
      × ((new_abi_error code field).field ≡ field)
      × ((new_abi_error code field).message ≢ [])
      × (((new_abi_error code field).retryable ≡ true) ↔ (code ≡ deadline_exceeded))
unfolding new_abi_error
new_abi_error_lem invalid_json field = (refl, refl, (λ e. cc), ((λ e. cc), (λ e. cc)))
new_abi_error_lem _ field = ground arith
