-- ===== src/Pkcs11/Modules/Slots.antt =====
-- `slotFor` of encrypt/pkcs11/session.go, and what it resolves and clamps. The answers of the
-- library, `C_GetSlotList` and `C_GetMechanismList`, are arguments; `none` is an error.
use forge_go.Prelude.{
  ℕ, ◌-◌, ◌%◌, inl, inr, Bool, false, ◌&&◌, List, [], ◌∷◌, Option, none, some, ◌⊎◌, ℤ, pos, negsuc,
  ltb, ◌==◌, if◌then◌else◌, Bytes, equal,
}
use forge_go.Prelude.Utf8.Trim.{trim_space}
use forge_go.Pkcs11.Sessions.{new_session_pool}
use forge_go.Pkcs11.Modules.{SlotState, ModuleEntry}

pub record SlotInfo : Type 0 where
  pub id : ℕ
  pub token_label : Bytes
  pub max_sessions : ℕ

pub record Config : Type 0 where
  pub token_label : Bytes
  pub has_slot_id : Bool
  pub slot_id : ℕ
  pub max_session : ℤ

pub data SlotError : Type 0 where
  token_required no_such_token library_error : SlotError

abbrev labelled : Bytes → List SlotInfo → SlotError ⊎ ℕ
labelled label [] = inl no_such_token
labelled label (slot ∷ slots) =
    let rest = labelled label slots in
    if equal (trim_space slot.token_label) label then inr slot.id else rest

abbrev labelled_in : Bytes → Option (List SlotInfo) → SlotError ⊎ ℕ
labelled_in label none = inl library_error
labelled_in label (some slots) = labelled label slots

unfoldable pub resolve_slot_id : Config → Option (List SlotInfo) → SlotError ⊎ ℕ
resolve_slot_id cfg listed =
    if equal cfg.token_label []
    then if cfg.has_slot_id then inr cfg.slot_id else inl token_required
    else labelled_in cfg.token_label listed

-- The conversions between `int` and `uint64`, which wrap around at 2 ^ 64.
abbrev pub to_uint64 : ℤ → ℕ
to_uint64 (pos n) = n % 18446744073709551616
to_uint64 (negsuc n) = 18446744073709551615 - n % 18446744073709551616

abbrev pub to_int : ℕ → ℤ
to_int n = if ltb n 9223372036854775808 then pos n else negsuc (18446744073709551615 - n)

unfoldable pub clamp : ℤ → ℕ → List SlotInfo → ℤ
clamp size slot_id [] = size
clamp size slot_id (slot ∷ slots) =
    let rest = clamp size slot_id slots in
    if slot.id == slot_id && ltb 0 slot.max_sessions && ltb slot.max_sessions (to_uint64 size)
    then to_int slot.max_sessions
    else rest

unfoldable pub pool_size : Config → ℕ → Option (List SlotInfo) → ℤ
unfolding clamp
pool_size cfg slot_id none = cfg.max_session
pool_size cfg slot_id (some slots) = clamp cfg.max_session slot_id slots

unfoldable pub find_slot : ℕ → List SlotState → Option SlotState
find_slot id [] = none
find_slot id (slot ∷ slots) =
    let rest = find_slot id slots in if slot.id == id then some slot else rest

abbrev pub new_slot : Config → ℕ → List ℕ → Option (List SlotInfo) → SlotState
new_slot cfg id mechanisms listed = record {
  id = id;
  mechanisms = mechanisms;
  pool = new_session_pool (pool_size cfg id listed);
  logged_in = false;
}

unfoldable pub cached :
    Config
    → ℕ
    → Option (List ℕ)
    → Option (List SlotInfo)
    → ModuleEntry
    → Option SlotState
    → (SlotError ⊎ SlotState) × ModuleEntry
cached cfg id mechanisms listed e (some slot) = (inr slot, e)
cached cfg id none listed e none = (inl library_error, e)
cached cfg id (some mechanisms) listed e none =
    let slot = new_slot cfg id mechanisms listed in (inr slot, record e { slots = slot ∷ e.slots })

unfoldable pub resolved_slot :
    Config
    → Option (List ℕ)
    → Option (List SlotInfo)
    → ModuleEntry
    → SlotError ⊎ ℕ
    → (SlotError ⊎ SlotState) × ModuleEntry
unfolding cached
resolved_slot cfg mechanisms listed e (inl problem) = (inl problem, e)
resolved_slot cfg mechanisms listed e (inr id) =
    cached cfg id mechanisms listed e (find_slot id e.slots)

-- `slotFor`, where the library lists its slots the same way twice.
unfoldable pub slot_for :
    Config
    → Option (List ℕ)
    → Option (List SlotInfo)
    → ModuleEntry
    → (SlotError ⊎ SlotState) × ModuleEntry
unfolding resolved_slot
slot_for cfg mechanisms listed e =
    resolved_slot cfg mechanisms listed e (resolve_slot_id cfg listed)
