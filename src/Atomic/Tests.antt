-- ===== src/Atomic/Tests.antt =====
-- Batches of cmd/go-openssl/code/atomic.go at concrete inputs: a directory with one file.
use forge_go.Prelude.{
  ℕ, ◌≡◌, refl, false, ◌==◌, Bytes, List, [], ◌∷◌, Option, none, some, codes, equal, if◌then◌else◌,
  All,
}
use forge_go.Atomic.Host.{
  File, Entry, regular, directory, World, Host, fails_now, parent_is_directory, parent_is_missing,
  lstat, open_file, create_temp, remove_temp, rename, rename_file, chmod, with_mode, remove,
  remove_entry,
}
use forge_go.Atomic.Stage.{
  is_among, resolved, validate_target, same_file, close_snapshot, read_snapshot, opened_snapshot,
  snapshot, close_staged, created, stage_content, staged_content, after_snapshot, inspected,
  checked, stage_one, clean_up, did, committing, appeared, Update, Staged, stage_all,
}
use forge_go.Atomic.Commit.{
  compare_snapshot, compare_existing, compare_absent, compare_target, validate_unchanged,
  sync_directories, restored_mode, restored_content, staged_restore, removed_replacement, restore,
  restore_all, roll_back, finish, commit, validated, replace_staged, after_staging,
  write_atomically,
}
use forge_go.Atomic.View.{view, visible_file}
use forge_go.Atomic.AllOrNothing.{
  ReplacesAllOrNone, write_atomically-refines, replace_staged-changed, seen_result,
}

abbrev certificate : Bytes
certificate = codes "/cert.pem"

abbrev key : Bytes
key = codes "/key.pem"

abbrev root : Bytes
root = codes "/"

abbrev old_key : File
old_key = record { content = codes "old"; mode = 384; identity = 7 }

abbrev some_files : Bytes → Option Entry
some_files path =
    if equal path root
    then some directory
    else if equal path key
    then some (regular old_key)
    else none

abbrev some_world : World
some_world = record { files = some_files; temps = λ t. none; next = 20; clock = 0 }

abbrev host_failing_at : ℕ → Host
host_failing_at n = record { fails = λ k. k == n; absolute = some; parent = λ path. root }

abbrev some_updates : List Update
some_updates =
    record { path = certificate; content = codes "c"; mode = 420 }
    ∷ record { path = key; content = codes "k"; mode = 384 }
    ∷ []

abbrev working : Host
working = host_failing_at 1000

abbrev staged_cert : Staged
staged_cert = record {
  update = record { path = certificate; content = codes "c"; mode = 420 };
  temp = some 20;
  original = none;
  committed = false;
}

abbrev staged_key : Staged
staged_key = record {
  update = record { path = key; content = codes "k"; mode = 384 };
  temp = some 21;
  original = some old_key;
  committed = false;
}

abbrev some_staged : List Staged
some_staged = staged_cert ∷ staged_key ∷ []

abbrev others_write : Bytes → Option Entry
others_write path = if equal path certificate then some (regular old_key) else some_files path

abbrev after_others : (Bytes → Option Entry) → World
after_others files = record (stage_all working some_updates [] [] some_world).1 { files = files }

-- The calls are numbered from 0: the last run meets a failure of the second renaming.
runs :
    ((write_atomically working some_updates some_world).0 ≡ [])
    × (view (write_atomically working some_updates some_world).1 key
        ≡ some (visible_file (codes "k") 384))
    × ((stage_all working some_updates [] [] some_world).0 ≡ did some_staged)
    × ((replace_staged working some_staged (after_others some_files)).0 ≡ [])
    × ((replace_staged working some_staged (after_others others_write)).0
        ≡ appeared certificate ∷ [])
    × ((write_atomically (host_failing_at 25) some_updates some_world).0 ≡ committing key ∷ [])
unfolding fails_now parent_is_missing parent_is_directory lstat open_file create_temp remove_temp
    rename rename_file chmod with_mode remove remove_entry is_among resolved validate_target
    same_file close_snapshot read_snapshot opened_snapshot snapshot close_staged created
    stage_content staged_content after_snapshot inspected checked stage_one clean_up stage_all
    compare_snapshot compare_existing compare_absent compare_target validate_unchanged
    sync_directories restored_mode restored_content staged_restore removed_replacement restore
    restore_all roll_back finish commit validated replace_staged after_staging write_atomically
    equal
runs = (refl, refl, refl, refl, refl, refl)

write_atomically-refines_example :
    ReplacesAllOrNone
      (host_failing_at 25)
      some_updates
      (view some_world)
      (seen_result (write_atomically (host_failing_at 25) some_updates some_world))
write_atomically-refines_example =
    write_atomically-refines (host_failing_at 25) some_updates some_world

replace_staged-changed_example :
    All
      (λ f. view (after_others some_files) f.update.path ≡ view some_world f.update.path)
      some_staged
replace_staged-changed_example =
    replace_staged-changed working some_updates some_world some_files some_staged runs.2 runs.3
