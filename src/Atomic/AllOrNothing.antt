-- ===== src/Atomic/AllOrNothing.antt =====
-- What `writePEMFilesAtomically` promises of the named files.
use mathlib.Core.Path.{subst, fun_ext}
use forge_go.Prelude.{◌≡◌, ◌≢◌, refl, sym, ◌∙◌, ap, arith, true, Bytes, List, [], ◌∷◌, Option, All}
use forge_go.Atomic.Host.{Entry, World, Host}
use forge_go.Atomic.Stage.{Reason, Attempt, did, gave_up, Update, Staged, stage_all}
use forge_go.Atomic.Commit.{
  after_staging, replace_staged, write_atomically, validate_unchanged, validated,
}
use forge_go.Atomic.Keeps.{stage_all-Keeps}
use forge_go.Atomic.View.{View, view, visible_option, put_all, is_rolled_back}
use forge_go.Atomic.Matching.{Matches, validate_unchanged-Matches}
use forge_go.Atomic.Abandoned.{replace_staged-Abandons}
use forge_go.Atomic.Batch.{Grows-All, put_staged, IsBatch, stage_all-IsBatch}
use forge_go.Atomic.Replaced.{replace_staged-Shows}
use forge_go.Atomic.Originals.{RemembersAll, stage_all-RemembersAll}

-- The abstract operation: all the replacements, or none of them.
abbrev pub ReplacesAllOrNone : Host → List Update → View → List Reason × View → Type 0
ReplacesAllOrNone h updates v (reasons, u) =
    (reasons ≡ [] → u ≡ put_all h updates v)
    × (reasons ≢ [] → is_rolled_back reasons ≡ true → u ≡ v)

abbrev pub seen_result : List Reason × World → List Reason × View
seen_result (reasons, w) = (reasons, view w)

staged_batch-refines :
    (h : Host) (updates : List Update) (staged : List Staged) (v : World)
    (others : Bytes → Option Entry)
    → IsBatch h updates [] (did staged, v)
    → let u : World = record v { files = others } in
      ReplacesAllOrNone h updates (view u) (seen_result (replace_staged h staged u))
unfolding put_staged
staged_batch-refines h updates staged v others batch =
    let u : World = record v { files = others } in
    let held = Grows-All staged v u (omega arith, λ t small. refl) batch.0 in
    (
      (λ fine. replace_staged-Shows h staged u held fine ∙ batch.1 (view u)),
      (λ failed back. fun_ext (replace_staged-Abandons h staged u failed back)),
    )

both_match :
    (staged : List Staged) (v u : View)
    → All (Matches v) staged
    → All (Matches u) staged
    → All (λ f. v f.update.path ≡ u f.update.path) staged
both_match [] v u left right = tt
both_match (f ∷ staged) v u left right =
    (left.0 ∙ sym right.0, both_match staged v u left.1 right.1)

validated-fine :
    (h : Host) (staged : List Staged) (result : List Reason × World)
    → (validated h staged result).0 ≡ []
    → result.0 ≡ []
unfolding validated
validated-fine h staged ([], w) fine = refl
validated-fine h staged (reason ∷ reasons, w) fine = fine

replace_staged-Matches :
    (h : Host) (staged : List Staged) (w : World)
    → (replace_staged h staged w).0 ≡ []
    → All (Matches (view w)) staged
unfolding replace_staged
replace_staged-Matches h staged w fine =
    validate_unchanged-Matches h staged w
      (validated-fine h staged (validate_unchanged h staged w) fine)

-- When a batch has been staged and other programs have then changed the named files in any way,
-- what is left to do replaces all targets or none, and what is there before is what the other
-- programs left, unless a rollback step reports a failure.
replace_staged-refines :
    (h : Host) (updates : List Update) (w : World) (others : Bytes → Option Entry)
    (staged : List Staged)
    → (stage_all h updates [] [] w).0 ≡ did staged
    → let u : World = record (stage_all h updates [] [] w).1 { files = others } in
      ReplacesAllOrNone h updates (view u) (seen_result (replace_staged h staged u))
replace_staged-refines h updates w others staged e =
    let v = (stage_all h updates [] [] w).1 in
    staged_batch-refines h updates staged v others
      (subst (λ o. IsBatch h updates [] (o, v)) e (stage_all-IsBatch h updates [] [] w tt))

-- When a batch has been staged, other programs have then changed the named files, and what is left
-- to do gives no error, every target still had the contents and permissions, or the absence, that
-- it had when the batch began: no write of another program is overwritten unseen between staging
-- and validation.
pub replace_staged-changed :
    (h : Host) (updates : List Update) (w : World) (others : Bytes → Option Entry)
    (staged : List Staged)
    → (stage_all h updates [] [] w).0 ≡ did staged
    → let u : World = record (stage_all h updates [] [] w).1 { files = others } in
      (replace_staged h staged u).0 ≡ []
      → All (λ f. view u f.update.path ≡ view w f.update.path) staged
replace_staged-changed h updates w others staged e fine =
    let u : World = record (stage_all h updates [] [] w).1 { files = others } in
    let remembered : All (Matches (view w)) staged =
      subst (RemembersAll (view w)) e (stage_all-RemembersAll h updates [] [] w tt) in
    both_match staged (view u) (view w) (replace_staged-Matches h staged u fine) remembered

after_staging-refines :
    (h : Host) (updates : List Update) (w : World) (result : Attempt (List Staged) × World)
    → IsBatch h updates [] result
    → result.1.files ≡ w.files
    → ReplacesAllOrNone h updates (view w) (seen_result (after_staging h result))
unfolding after_staging
after_staging-refines h updates w (gave_up reason reasons, v) batch same =
    ((λ fine. absurd (ground arith)), λ failed back. ap (λ files q. visible_option (files q)) same)
after_staging-refines h updates w (did staged, v) batch same =
    subst
      (λ files.
        ReplacesAllOrNone h updates (λ q. visible_option (files q))
          (seen_result (replace_staged h staged v)))
      same (staged_batch-refines h updates staged v v.files batch)

-- Whichever calls of the file system fail, writePEMFilesAtomically refines one atomic step on the
-- contents and permissions of the named files: if it gives no error they are those after all the
-- updates, in order; if it gives an error in which no rollback step reports a failure, they are
-- those from before.
pub write_atomically-refines :
    (h : Host) (updates : List Update) (w : World)
    → ReplacesAllOrNone h updates (view w) (seen_result (write_atomically h updates w))
unfolding write_atomically put_all
write_atomically-refines h [] w = ((λ fine. refl), λ failed back. refl)
write_atomically-refines h (u ∷ updates) w =
    after_staging-refines h (u ∷ updates) w (stage_all h (u ∷ updates) [] [] w)
      (stage_all-IsBatch h (u ∷ updates) [] [] w tt) (stage_all-Keeps h (u ∷ updates) [] [] w)
