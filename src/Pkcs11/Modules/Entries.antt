-- ===== src/Pkcs11/Modules/Entries.antt =====
-- The entries of the registry of encrypt/pkcs11/session.go, and what runs once for each.
use forge_go.Prelude.{
  ◌≡◌, ◌≢◌, refl, sym, ◌∙◌, ap, arith, inl, inr, Bool, false, List, [], ◌∷◌, Option, none, some,
  if◌then◌else◌, Bytes, equal, equal_iff, equal_refl, Bool-cases,
}
use forge_go.Pkcs11.Modules.{
  Loading, not_run, loaded, failed, ModuleEntry, Process, Library, not_found, not_initialized,
  ready, lookup, put, entry_or_new, load_once, stored_entry, is_loaded,
}

abbrev pub has_loaded : Option ModuleEntry → Bool
has_loaded none = false
has_loaded (some entry) = is_loaded entry.loading

pub lookup-path :
    (key : Bytes) (entries : List ModuleEntry) (entry : ModuleEntry)
    → lookup key entries ≡ some entry
    → entry.path ≡ key
unfolding lookup
lookup-path key [] entry e = absurd (ground arith)
lookup-path key (x ∷ entries) entry e =
    ground (arith, lookup-path key entries entry, (equal_iff key x.path).0)

pub lookup-put :
    (q : Bytes) (entry : ModuleEntry) (entries : List ModuleEntry)
    → lookup q (put entry entries) ≡ (if equal q entry.path then some entry else lookup q entries)
unfolding lookup put
lookup-put q entry [] = refl
lookup-put q entry (x ∷ entries) = elim (Bool-cases (equal x.path entry.path)) [
  | inl same ↦ ground (arith, (equal_iff x.path entry.path).0 same)
  | inr other ↦ ground (
    arith,
    lookup-put q entry entries,
    (equal_iff q x.path).0,
    (equal_iff q entry.path).0,
    equal_refl entry.path,
  )
]

pub load_once_lem :
    (library : Library) (loading : Loading) (path : Bytes) (p : Process) (q : Bytes)
    → p.initialized path ≡ is_loaded loading
    → p.clashes ≡ 0
    → let (result, after) = load_once library loading path p in
      (after.initialized q ≡ (if equal q path then is_loaded result else p.initialized q))
      × (after.clashes ≡ 0)
unfolding load_once
load_once_lem library loaded path p q agrees fresh = (ground (arith, (equal_iff q path).0), fresh)
load_once_lem library (failed problem) path p q agrees fresh =
    (ground (arith, (equal_iff q path).0), fresh)
load_once_lem (not_found problem) not_run path p q agrees fresh =
    (ground (arith, (equal_iff q path).0), fresh)
load_once_lem (not_initialized problem) not_run path p q agrees fresh =
    (ground (arith, (equal_iff q path).0), ground arith)
load_once_lem ready not_run path p q agrees fresh =
    (ground (arith, (equal_iff q path).0), ground arith)

pub stored_entry-path :
    (entry : ModuleEntry) (loading : Loading) → (stored_entry entry loading).path ≡ entry.path
stored_entry-path entry loaded = refl
stored_entry-path entry not_run = refl
stored_entry-path entry (failed problem) = refl

pub stored_entry-loading :
    (entry : ModuleEntry) (loading : Loading)
    → loading ≢ not_run
    → (stored_entry entry loading).loading ≡ loading
stored_entry-loading entry loaded ran = refl
stored_entry-loading entry not_run ran = absurd (ran refl)
stored_entry-loading entry (failed problem) ran = refl

pub load_once-ran :
    (library : Library) (loading : Loading) (path : Bytes) (p : Process)
    → (load_once library loading path p).0 ≢ not_run
unfolding load_once
load_once-ran library loaded path p = λ e. absurd (ground arith)
load_once-ran library (failed problem) path p = λ e. absurd (ground arith)
load_once-ran (not_found problem) not_run path p = λ e. absurd (ground arith)
load_once-ran (not_initialized problem) not_run path p = λ e. absurd (ground arith)
load_once-ran ready not_run path p = λ e. absurd (ground arith)

pub entry_or_new-path :
    (key : Bytes) (found : Option ModuleEntry)
    → ((entry : ModuleEntry) → found ≡ some entry → entry.path ≡ key)
    → (entry_or_new key found).path ≡ key
entry_or_new-path key none paths = refl
entry_or_new-path key (some entry) paths = paths entry refl

pub entry_or_new-loaded :
    (key : Bytes) (found : Option ModuleEntry)
    → is_loaded (entry_or_new key found).loading ≡ has_loaded found
entry_or_new-loaded key none = refl
entry_or_new-loaded key (some entry) = refl

pub lookup_stored :
    (key q : Bytes) (entry : ModuleEntry) (loading : Loading) (entries : List ModuleEntry)
    (old : Bool)
    → entry.path ≡ key
    → loading ≢ not_run
    → old ≡ has_loaded (lookup q entries)
    → (if equal q key then is_loaded loading else old)
      ≡ has_loaded (lookup q (put (stored_entry entry loading) entries))
lookup_stored key q entry loading entries old path ran agrees =
    let stored = stored_entry entry loading in
    let there : stored.path ≡ key = stored_entry-path entry loading ∙ path in
    rw (lookup-put q stored entries, there)
      (elim (Bool-cases (equal q key)) [
        | inl here ↦ rw here (ap is_loaded (sym (stored_entry-loading entry loading ran)))
        | inr away ↦ rw away agrees
      ])
