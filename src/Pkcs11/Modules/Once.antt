-- ===== src/Pkcs11/Modules/Once.antt =====
-- encrypt/pkcs11/session.go: how often a library is initialized, over any sequence of calls.
use forge_go.Prelude.{
  ℕ, ◌≡◌, ◌≢◌, refl, sym, ◌∙◌, arith, inl, inr, Bool, true, false, List, [], ◌∷◌, some, Bytes,
  equal_refl,
}
use forge_go.Pkcs11.Modules.{
  Loading, not_run, loaded, failed, ModuleEntry, Registry, Library, lookup, put, entry_or_new,
  load_once, acquired, stored_entry, acquire_module, release_in, is_loaded, shutdown,
}
use forge_go.Pkcs11.Modules.Entries.{
  has_loaded, lookup-path, lookup-put, load_once_lem, stored_entry-path, stored_entry-loading,
  load_once-ran, entry_or_new-path, entry_or_new-loaded,
}

pub data Call : Type 0 where
  acquire : Bytes → Library → Call
  let_go : Bytes → Call
  end_all : Bool → (Bytes → Bool) → Call

unfoldable pub make : Call → Registry → Registry
make (acquire key library) r = (acquire_module key library r).1
make (let_go key) r = release_in key r
make (end_all ended succeeds) r = shutdown ended succeeds r

unfoldable pub make_all : List Call → Registry → Registry
make_all [] r = r
make_all (call ∷ calls) r = make_all calls (make call r)

abbrev pub empty_registry : Registry
empty_registry = record { entries = []; process = record { initialized = λ q. false; clashes = 0 } }

-- `C_Finalize` succeeds.
abbrev pub Finalizes : Call → Type 0
Finalizes (acquire _ _) = Unit
Finalizes (let_go _) = Unit
Finalizes (end_all _ succeeds) = (q : Bytes) → succeeds q ≡ true

-- Exactly the libraries with a loaded entry are initialized, none was initialized twice.
abbrev pub IsOnce : Registry → Type 0
IsOnce r =
    ((q : Bytes) → r.process.initialized q ≡ has_loaded (lookup q r.entries))
    × (r.process.clashes ≡ 0)

acquired_failed :
    (entry : ModuleEntry) (loading : Loading) (problem : ℕ)
    → acquired entry loading ≡ inr problem
    → loading ≡ failed problem
acquired_failed entry loaded problem e = absurd (ground arith)
acquired_failed entry not_run problem e = absurd (ground arith)
acquired_failed entry (failed other) problem e = ground arith

acquired_loaded :
    (entry given : ModuleEntry) (loading : Loading)
    → loading ≢ not_run
    → acquired entry loading ≡ inl given
    → is_loaded loading ≡ true
acquired_loaded entry given loaded ran e = refl
acquired_loaded entry given not_run ran e = absurd (ran refl)
acquired_loaded entry given (failed other) ran e = absurd (ground arith)

acquire_module_again :
    (key : Bytes) (again : Library) (r : Registry) (entry : ModuleEntry) (problem : ℕ)
    → lookup key r.entries ≡ some entry
    → entry.loading ≡ failed problem
    → let (result, after) = acquire_module key again r in
      (result ≡ inr problem) × (after.process ≡ r.process)
unfolding acquire_module load_once
acquire_module_again key again r entry problem e f = rw (e, f) (refl, refl)

-- In a registry that agrees with what is initialized: when acquireModule gives an entry, its
-- library is initialized; when it gives an error, a later call for the library gives the same
-- error and does not touch it, whatever the library would answer then.
pub acquire_module_lem :
    (key : Bytes) (library again : Library) (r : Registry)
    → IsOnce r
    → let (result, after) = acquire_module key library r in
      ((entry : ModuleEntry) → result ≡ inl entry → after.process.initialized key ≡ true)
      × ((problem : ℕ)
          → result ≡ inr problem
          → let (second, later) = acquire_module key again after in
            (second ≡ inr problem) × (later.process ≡ after.process))
unfolding acquire_module
acquire_module_lem key library again r (agrees, fresh) =
    let found = lookup key r.entries in
    let entry = entry_or_new key found in
    let path : entry.path ≡ key = entry_or_new-path key found (lookup-path key r.entries) in
    let known = agrees key ∙ sym (entry_or_new-loaded key found) in
    let ran = load_once-ran library entry.loading key r.process in
    let (loading, process) = load_once library entry.loading key r.process in
    let stored = stored_entry entry loading in
    let there : stored.path ≡ key = stored_entry-path entry loading ∙ path in
    (
      (λ given e.
          (load_once_lem library entry.loading key r.process key known fresh).0
          ∙ rw (equal_refl key) (acquired_loaded entry given loading ran e)),
      (λ problem e.
          acquire_module_again key again
            (record { entries = put stored r.entries; process = process }) stored problem
            (lookup-put key stored r.entries ∙ rw (there, equal_refl key) refl)
            (stored_entry-loading entry loading ran ∙ acquired_failed entry loading problem e)),
    )
