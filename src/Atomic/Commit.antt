-- ===== src/Atomic/Commit.antt =====
-- The second half of cmd/go-openssl/code/atomic.go: the targets are compared with what was
-- remembered of them, then replaced one by one, or all brought back.
use forge_go.Prelude.{
  ℕ, Bool, true, false, ◌&&◌, ◌||◌, List, [], ◌∷◌, ◌++◌, Option, none, some, Bytes, equal, ◌==◌,
  if◌then◌else◌,
}
use forge_go.Atomic.Host.{
  File, regular, directory, link, World, Host, perm, fails_now, tick, Lstat, found, absent, failed,
  lstat, parent_is_missing, remove_temp, rename, chmod, Removal, removed, was_absent, not_removed,
  remove,
}
use forge_go.Atomic.Stage.{
  Reason, changed, not_verified, not_inspected_again, appeared, committing, staging_restore,
  restoring, restoring_mode, removing, directory_not_opened, directory_not_synced,
  directory_not_closed, Attempt, did, gave_up, Update, Staged, is_among, snapshot, stage_content,
  clean_up, stage_all,
}

unfoldable pub compare_snapshot : Bytes → File → Attempt File × World → List Reason × World
compare_snapshot path original (gave_up reason reasons, w) =
    (not_verified path ∷ reason ∷ reasons, w)
compare_snapshot path original (did current, w) = (
  if perm current.mode == perm original.mode && equal current.content original.content
      then []
      else changed path ∷ [],
  w,
)

unfoldable pub compare_existing : Host → Bytes → File → Lstat × World → List Reason × World
unfolding compare_snapshot
compare_existing h path original (found (regular file), w) =
    if original.identity == file.identity
    then compare_snapshot path original (snapshot h path file w)
    else (changed path ∷ [], w)
compare_existing h path original (found directory, w) = (changed path ∷ [], w)
compare_existing h path original (found (link _), w) = (changed path ∷ [], w)
compare_existing h path original (absent, w) = (not_inspected_again path ∷ [], w)
compare_existing h path original (failed, w) = (not_inspected_again path ∷ [], w)

unfoldable pub compare_absent : Bytes → Lstat × World → List Reason × World
compare_absent path (found _, w) = (appeared path ∷ [], w)
compare_absent path (absent, w) = ([], w)
compare_absent path (failed, w) = (not_inspected_again path ∷ [], w)

unfoldable pub compare_target : Host → Bytes → Option File → World → List Reason × World
unfolding compare_existing compare_absent
compare_target h path none w = compare_absent path (lstat h path w)
compare_target h path (some original) w = compare_existing h path original (lstat h path w)

unfoldable pub validate_unchanged : Host → List Staged → World → List Reason × World
unfolding compare_target
validate_unchanged h [] w = ([], w)
validate_unchanged h (f ∷ staged) w =
    let (outcome, v) = compare_target h f.update.path f.original w in
    elim outcome [ [] ↦ validate_unchanged h staged v | reason ∷ reasons ↦ (reason ∷ reasons, v) ]

-- `Sync` and `Close` of an open directory; the second is made whatever the first does.
abbrev pub sync_directory : Host → Bytes → World → List Reason × World
sync_directory h dir w =
    let closing : List Reason =
      if fails_now h (tick w) then directory_not_closed dir ∷ [] else [] in
    (if fails_now h w then directory_not_synced dir ∷ closing else closing, tick (tick w))

abbrev pub open_and_sync : Host → Bytes → Bytes → World → List Reason × World
open_and_sync h path dir w =
    if fails_now h w || parent_is_missing h path w
    then (directory_not_opened dir ∷ [], tick w)
    else sync_directory h dir (tick w)

unfoldable pub sync_directories : Host → List Bytes → List Staged → World → List Reason × World
sync_directories h seen [] w = ([], w)
sync_directories h seen (f ∷ staged) w =
    let (outcome, v) = open_and_sync h f.update.path (h.parent f.update.path) w in
    elim (is_among (h.parent f.update.path) seen) [
      | true ↦ sync_directories h seen staged w
      | false ↦ elim outcome [
        | [] ↦ sync_directories h (h.parent f.update.path ∷ seen) staged v
        | reason ∷ reasons ↦ (reason ∷ reasons, v)
      ]
    ]

unfoldable pub restored_mode : Bytes → Bool × World → List Reason × World
restored_mode path (true, w) = ([], w)
restored_mode path (false, w) = (restoring_mode path ∷ [], w)

unfoldable pub restored_content : Host → Bytes → File → ℕ → Bool × World → List Reason × World
unfolding restored_mode
restored_content h path original temp (true, w) =
    restored_mode path (chmod h path (perm original.mode) w)
restored_content h path original temp (false, w) = (restoring path ∷ [], remove_temp h temp w)

unfoldable pub staged_restore : Host → Bytes → File → Attempt ℕ × World → List Reason × World
unfolding restored_content
staged_restore h path original (gave_up reason reasons, w) =
    (staging_restore path ∷ reason ∷ reasons, w)
staged_restore h path original (did temp, w) =
    restored_content h path original temp (rename h (some temp) path w)

unfoldable pub removed_replacement : Bytes → Removal × World → List Reason × World
removed_replacement path (not_removed, w) = (removing path ∷ [], w)
removed_replacement path (was_absent, w) = ([], w)
removed_replacement path (removed, w) = ([], w)

-- One round of the loop of `rollbackStagedPEMFiles` for a file that was committed.
unfoldable pub restore : Host → Bytes → Option File → World → List Reason × World
unfolding staged_restore removed_replacement
restore h path none w = removed_replacement path (remove h path w)
restore h path (some original) w =
    staged_restore h path original (stage_content h path original.content 384 w)

abbrev pub restore_committed : Host → Staged → World → List Reason × World
restore_committed h f w = elim f.committed [
  | true ↦ restore h f.update.path f.original w
  | false ↦ ([], w)
]

-- The loop, from the last file to the first. No later code reads the mark that it resets.
unfoldable pub restore_all : Host → List Staged → World → List Reason × World
restore_all h [] w = ([], w)
restore_all h (f ∷ staged) w =
    let (later, v) = restore_all h staged w in
    let (own, u) = restore_committed h f v in (later ++ own, u)

unfoldable pub roll_back : Host → List Staged → World → List Reason × World
roll_back h staged w =
    let (reasons, v) = restore_all h staged w in
    let (sync_reasons, u) = sync_directories h [] staged v in (reasons ++ sync_reasons, u)

abbrev pub give_up : Host → List Reason → List Staged → List Staged → World → List Reason × World
give_up h reasons done rest w =
    let (rollback_reasons, v) = roll_back h done w in
    (reasons ++ rollback_reasons, clean_up h rest v)

unfoldable pub finish : Host → List Staged → List Reason × World → List Reason × World
finish h done ([], w) = ([], w)
finish h done (reason ∷ reasons, w) = give_up h (reason ∷ reasons) done done w

abbrev pub commit_mark : Staged → Staged
commit_mark f = record f { temp = none; committed = true }

-- The loop that renames, and the sync of the directories after it.
unfoldable pub commit : Host → List Staged → List Staged → World → List Reason × World
unfolding finish
commit h done [] w = finish h done (sync_directories h [] done w)
commit h done (f ∷ rest) w =
    let (renamed, v) = rename h f.temp f.update.path w in
    elim renamed [
      | true ↦ commit h (done ++ commit_mark f ∷ []) rest v
      | false ↦ give_up h (committing f.update.path ∷ []) done (f ∷ rest) v
    ]

unfoldable pub validated : Host → List Staged → List Reason × World → List Reason × World
validated h staged ([], w) = commit h [] staged w
validated h staged (reason ∷ reasons, w) = (reason ∷ reasons, clean_up h staged w)

-- What is left to do when everything is staged.
unfoldable pub replace_staged : Host → List Staged → World → List Reason × World
unfolding validated
replace_staged h staged w = validated h staged (validate_unchanged h staged w)

unfoldable pub after_staging : Host → Attempt (List Staged) × World → List Reason × World
after_staging h (gave_up reason reasons, w) = (reason ∷ reasons, w)
after_staging h (did staged, w) = replace_staged h staged w

unfoldable pub write_atomically : Host → List Update → World → List Reason × World
unfolding after_staging
write_atomically h [] w = ([], w)
write_atomically h (u ∷ updates) w = after_staging h (stage_all h (u ∷ updates) [] [] w)
