-- ===== src/Pkcs11/Modules.antt =====
-- encrypt/pkcs11/session.go: the registry of loaded libraries, the slots of each, and the login. A
-- library is its path; what it answers is an argument of the operation that asks it. An entry that
-- Shutdown has taken out of the registry is only left to those who hold it.
pub mod Slots
pub mod Capacity
pub mod Entries
pub mod Once
pub mod Tests
use forge_go.Prelude.{
  ℕ, zero, suc, ◌+◌, ◌-◌, ◌%◌, ◌<◌, Bool, true, false, not, ◌&&◌, ◌||◌, List, [], ◌∷◌, ◌++◌, Option,
  none, some, ◌⊎◌, inl, inr, ℤ, pos, negsuc, ltb, ◌==◌, if◌then◌else◌, length, Bytes, equal,
}
use forge_go.Prelude.Utf8.Trim.{trim_space}
use forge_go.Pkcs11.Sessions.{SessionPool, new_session_pool}

pub record SlotState : Type 0 where
  pub id : ℕ
  pub mechanisms : List ℕ
  pub pool : SessionPool
  pub logged_in : Bool

-- What `once` has done: nothing yet, or it has failed, or the library is initialized.
pub data Loading : Type 0 where
  not_run loaded : Loading
  failed : ℕ → Loading

pub record ModuleEntry : Type 0 where
  pub path : Bytes
  pub loading : Loading
  pub refs : ℤ
  pub slots : List SlotState

-- Which libraries are initialized, and how often one was initialized that was so already.
pub record Process : Type 0 where
  pub initialized : Bytes → Bool
  pub clashes : ℕ

pub record Registry : Type 0 where
  pub entries : List ModuleEntry
  pub process : Process

-- `filepath.Abs` and `filepath.EvalSymlinks` of its result.
pub resolve_module_path : Bytes → Option Bytes → Option Bytes → Bytes
resolve_module_path path none _ = path
resolve_module_path path (some absolute) none = absolute
resolve_module_path path (some absolute) (some resolved) = resolved

-- The outcome of `newModuleFn` and of `Initialize`.
pub data Library : Type 0 where
  not_found not_initialized : ℕ → Library
  ready : Library

unfoldable pub lookup : Bytes → List ModuleEntry → Option ModuleEntry
lookup key [] = none
lookup key (e ∷ entries) =
    let rest = lookup key entries in if equal key e.path then some e else rest

unfoldable pub put : ModuleEntry → List ModuleEntry → List ModuleEntry
put entry [] = entry ∷ []
put entry (e ∷ entries) =
    let rest = put entry entries in if equal e.path entry.path then entry ∷ entries else e ∷ rest

abbrev pub new_entry : Bytes → ModuleEntry
new_entry key = record { path = key; loading = not_run; refs = pos 0; slots = [] }

abbrev pub entry_or_new : Bytes → Option ModuleEntry → ModuleEntry
entry_or_new key none = new_entry key
entry_or_new key (some entry) = entry

-- A call of `C_Initialize`.
abbrev pub initialize : Bytes → Bool → Process → Process
initialize key succeeds p = record {
  initialized = λ q. if equal q key then p.initialized q || succeeds else p.initialized q;
  clashes = if p.initialized key then suc p.clashes else p.clashes;
}

abbrev pub next_int : ℤ → ℤ
next_int (pos n) = pos (suc n)
next_int (negsuc zero) = pos 0
next_int (negsuc (suc n)) = negsuc n

abbrev pub previous_int : ℤ → ℤ
previous_int (pos zero) = negsuc 0
previous_int (pos (suc n)) = pos n
previous_int (negsuc n) = negsuc (suc n)

-- The function that runs once.
unfoldable pub load_once : Library → Loading → Bytes → Process → Loading × Process
load_once library loaded key p = (loaded, p)
load_once library (failed problem) key p = (failed problem, p)
load_once (not_found problem) not_run key p = (failed problem, p)
load_once (not_initialized problem) not_run key p = (failed problem, initialize key false p)
load_once ready not_run key p = (loaded, initialize key true p)

-- The error of `acquireModule`, or the entry with one more reference.
abbrev pub acquired : ModuleEntry → Loading → ModuleEntry ⊎ ℕ
acquired entry (failed problem) = inr problem
acquired entry not_run = inl entry
acquired entry loaded = inl (record entry { loading = loaded; refs = next_int entry.refs })

abbrev pub stored_entry : ModuleEntry → Loading → ModuleEntry
stored_entry entry (failed problem) = record entry { loading = failed problem }
stored_entry entry not_run = entry
stored_entry entry loaded = record entry { loading = loaded; refs = next_int entry.refs }

-- `acquireModule` with the resolved path.
unfoldable pub acquire_module : Bytes → Library → Registry → (ModuleEntry ⊎ ℕ) × Registry
unfolding load_once
acquire_module key library r =
    let entry = entry_or_new key (lookup key r.entries) in
    let (loading, process) = load_once library entry.loading key r.process in
    (
      acquired entry loading,
      record { entries = put (stored_entry entry loading) r.entries; process = process },
    )

abbrev pub reset_login : SlotState → SlotState
reset_login slot = record slot { logged_in = false }

-- `drain`, when it is done; it closes what was idle.
abbrev pub drained : SlotState → SlotState
drained slot = record slot { pool = record slot.pool { idle = [] } }

unfoldable pub release_slots : List SlotState → List SlotState
release_slots [] = []
release_slots (slot ∷ slots) = reset_login (drained slot) ∷ release_slots slots

unfoldable pub release : ModuleEntry → ModuleEntry
release entry = record entry { refs = previous_int entry.refs; slots = release_slots entry.slots }

unfoldable pub release_in : Bytes → Registry → Registry
release_in key r = elim (lookup key r.entries) [
  | none ↦ r
  | some entry ↦ record r { entries = put (release entry) r.entries }
]

abbrev pub is_loaded : Loading → Bool
is_loaded loaded = true
is_loaded not_run = false
is_loaded (failed _) = false

-- A call of `C_Finalize`, for a library that was loaded.
abbrev pub finalize : (Bytes → Bool) → ModuleEntry → Process → Process
finalize succeeds e p = record p {
  initialized =
      λ q. if is_loaded e.loading && equal q e.path && succeeds q then false else p.initialized q;
}

unfoldable pub finalize_all : (Bytes → Bool) → List ModuleEntry → Process → Process
finalize_all succeeds [] p = p
finalize_all succeeds (e ∷ entries) p = finalize_all succeeds entries (finalize succeeds e p)

-- `Shutdown`, whose context may have ended.
unfoldable pub shutdown : Bool → (Bytes → Bool) → Registry → Registry
shutdown true succeeds r = r
shutdown false succeeds r = record {
  entries = [];
  process = finalize_all succeeds r.entries r.process;
}

-- A pin provider and `C_Login`, each with its error.
pub data Login : Type 0 where
  no_pin not_accepted : ℕ → Login
  logs_in : Login

-- `login`, with the error.
pub login : Login → SlotState → Option ℕ × SlotState
login answer slot = elim slot.logged_in [
  | true ↦ (none, slot)
  | false ↦ elim answer [
    | no_pin problem ↦ (some problem, slot)
    | not_accepted problem ↦ (some problem, slot)
    | logs_in ↦ (none, record slot { logged_in = true })
  ]
]

abbrev is_member : ℕ → List ℕ → Bool
is_member mechanism [] = false
is_member mechanism (m ∷ mechanisms) = mechanism == m || is_member mechanism mechanisms

pub supports : SlotState → ℕ → Bool
supports slot mechanism = is_member mechanism slot.mechanisms

-- `requireMechanism`; the error names the mechanism.
pub require_mechanism : SlotState → ℕ → Option ℕ
unfolding supports
require_mechanism slot mechanism = if supports slot mechanism then none else some mechanism
