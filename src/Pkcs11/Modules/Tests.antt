-- ===== src/Pkcs11/Modules/Tests.antt =====
-- The libraries, slots and logins of encrypt/pkcs11/session.go at concrete inputs.
use forge_go.Prelude.{
  ℕ, ◌≡◌, ◌≤◌, refl, arith, inl, inr, true, false, List, [], ◌∷◌, some, pos, negsuc, Bytes, codes,
  equal,
}
use forge_go.Prelude.Utf8.Trim.{trim_space}
use forge_go.Pkcs11.Sessions.{new_session_pool}
use forge_go.Pkcs11.Modules.{
  loaded, SlotState, ModuleEntry, not_found, ready, lookup, put, load_once, acquire_module, release,
  release_in, release_slots, finalize_all, shutdown,
}
use forge_go.Pkcs11.Modules.Slots.{
  SlotInfo, Config, pool_size, resolve_slot_id, slot_for, resolved_slot, cached, find_slot,
}
use forge_go.Pkcs11.Modules.Capacity.{Within, pool_size_lem}
use forge_go.Pkcs11.Modules.Once.{
  Call, acquire, let_go, end_all, make, make_all, empty_registry, IsOnce, acquire_module_lem,
}

abbrev some_path : Bytes
some_path = codes "/lib/token.so"

-- Acquired twice, released, shut down, and acquired again.
abbrev some_calls : List Call
some_calls =
    acquire some_path ready
    ∷ acquire some_path ready
    ∷ let_go some_path
    ∷ end_all false (λ q. true)
    ∷ acquire some_path ready
    ∷ []

initializes : (make_all some_calls empty_registry).process.initialized some_path ≡ true
unfolding make_all make acquire_module load_once lookup put release_in release release_slots
    shutdown finalize_all equal
initializes = refl

empty_registry-IsOnce : IsOnce empty_registry
unfolding lookup
empty_registry-IsOnce = ((λ q. refl), refl)

acquire_module_example :
    let (result, after) = acquire_module some_path (not_found 2) empty_registry in
    ((entry : ModuleEntry) → result ≡ inl entry → after.process.initialized some_path ≡ true)
    × ((problem : ℕ)
        → result ≡ inr problem
        → let (second, later) = acquire_module some_path ready after in
          (second ≡ inr problem) × (later.process ≡ after.process))
acquire_module_example =
    acquire_module_lem some_path (not_found 2) ready empty_registry empty_registry-IsOnce

abbrev some_slots : List SlotInfo
some_slots =
    record { id = 3; token_label = codes "a"; max_sessions = 0 }
    ∷ record { id = 5; token_label = codes "b"; max_sessions = 4 }
    ∷ []

abbrev some_config : Config
some_config = record {
  token_label = codes "b";
  has_slot_id = false;
  slot_id = 0;
  max_session = negsuc 0;
}

-- A negative size is a large number of 64 bits, so that it is clamped too.
clamps : pool_size some_config 5 (some some_slots) ≡ pos 4
unfolding pool_size
clamps = refl

resolves : resolve_slot_id some_config (some some_slots) ≡ inr 5
unfolding resolve_slot_id equal trim_space
resolves = refl

abbrev no_slots : ModuleEntry
no_slots = record { path = some_path; loading = loaded; refs = pos 1; slots = [] }

abbrev fifth : SlotState
fifth = record { id = 5; mechanisms = 1 ∷ []; pool = new_session_pool (pos 4); logged_in = false }

opens_fifth :
    slot_for some_config (some (1 ∷ [])) (some some_slots) no_slots
    ≡ (inr fifth, record no_slots { slots = fifth ∷ [] })
unfolding slot_for resolved_slot cached resolve_slot_id find_slot pool_size equal trim_space
opens_fifth = refl

pool_size_example : (1 ≤ fifth.pool.size) × Within fifth.pool.size 5 some_slots
unfolding find_slot
pool_size_example =
    pool_size_lem some_config (some (1 ∷ [])) some_slots no_slots
      (record no_slots { slots = fifth ∷ [] }) fifth (omega arith)
      (((λ e. absurd (omega arith)), tt), (tt, tt)) refl opens_fifth
