-- ===== src/Atomic/Abandoned.antt =====
-- A batch that fails is undone, unless a step of the undoing reports that it failed as well.
use forge_go.Prelude.{
  ℕ, ◌≡◌, ◌≢◌, refl, sym, ◌∙◌, ap, inl, inr, arith, true, false, Bytes, List, [], ◌∷◌, ◌++◌, Option,
  none, some, equal, Bool-cases, All, All-append,
}
use forge_go.Atomic.Host.{File, World, Host, rename, rename_file}
use forge_go.Atomic.Stage.{Reason, committing, Staged}
use forge_go.Atomic.Commit.{
  roll_back, commit_mark, give_up, finish, commit, validated, replace_staged,
}
use forge_go.Atomic.Keeps.{Reads, clean_up-files}
use forge_go.Atomic.Matching.{Matches, validate_unchanged-Matches, validate_unchanged-Reads}
use forge_go.Atomic.View.{View, view, visible_option, is_rolled_back}
use forge_go.Atomic.Undone.{
  undo, CanUndo-files, AllCommitted, CanUndo, sync_directories-Reads, roll_back-undo,
  is_rolled_back-append, commit_mark-CanUndo,
}

-- A result that has an error shows what was there at first, unless undoing has failed.
abbrev pub Abandons : View → List Reason × World → Type 0
Abandons first result =
    result.0 ≢ [] → is_rolled_back result.0 ≡ true → (q : Bytes) → view result.1 q ≡ first q

give_up-Abandons :
    (h : Host) (first : View) (reasons : List Reason) (done rest : List Staged) (w : World)
    → AllCommitted done
    → CanUndo first done (view w)
    → Abandons first (give_up h reasons done rest w)
give_up-Abandons h first reasons done rest w marked can failed back q =
    let (rollback_reasons, v) = roll_back h done w in
    let both = sym (is_rolled_back-append reasons rollback_reasons) ∙ back in
    ap (λ files. visible_option (files q)) (clean_up-files h rest v)
    ∙ roll_back-undo h done w marked (ground arith) q
    ∙ can q

finish-Abandons :
    (h : Host) (first : View) (done : List Staged) (w : World) (result : List Reason × World)
    → Reads w result
    → AllCommitted done
    → CanUndo first done (view w)
    → Abandons first (finish h done result)
unfolding finish
finish-Abandons h first done w ([], v) reads marked can = λ failed. absurd (failed refl)
finish-Abandons h first done w (reason ∷ reasons, v) reads marked can =
    give_up-Abandons h first (reason ∷ reasons) done done v marked
      (CanUndo-files first done v w (ap (λ s. s.0) reads) can)

rename-outside :
    (h : Host) (name : Option ℕ) (path : Bytes) (w : World) (q : Bytes)
    → equal q path ≡ false
    → (rename h name path w).1.files q ≡ w.files q
unfolding rename
rename-outside h none path w q away = refl
rename-outside h (some temp) path w q away = by_file (w.temps temp)
  where
    by_file : (file : Option File) → (rename_file h temp path file w).1.files q ≡ w.files q
    by_file none = refl
    by_file (some file) = ground arith

rename-fails :
    (h : Host) (name : Option ℕ) (path : Bytes) (w : World)
    → (rename h name path w).0 ≡ false
    → (rename h name path w).1.files ≡ w.files
unfolding rename
rename-fails h none path w = λ fails. refl
rename-fails h (some temp) path w = by_file (w.temps temp)
  where
    by_file :
        (file : Option File)
        → (rename_file h temp path file w).0 ≡ false
        → (rename_file h temp path file w).1.files ≡ w.files
    by_file none fails = refl
    by_file (some file) fails = ground arith

commit-Abandons :
    (h : Host) (first : View) (done rest : List Staged) (w : World)
    → AllCommitted done
    → CanUndo first done (view w)
    → All (Matches first) rest
    → Abandons first (commit h done rest w)
unfolding commit
commit-Abandons h first done [] w marked can matches =
    finish-Abandons h first done w _ (sync_directories-Reads h [] done w) marked can
commit-Abandons h first done (f ∷ rest) w marked can matches =
    elim (Bool-cases (rename h f.temp f.update.path w).0) [
      | inl renamed ↦
          rw (commit, renamed)
            (commit-Abandons h first (done ++ commit_mark f ∷ []) rest _
              (All-append (λ g. g.committed ≡ true) done (commit_mark f ∷ []) marked (refl, tt))
              (commit_mark-CanUndo first done f (view w) _ matches.0 can
                (λ q away. ap visible_option (rename-outside h f.temp f.update.path w q away)))
              matches.1)
      | inr fails ↦
          rw (commit, fails)
            (give_up-Abandons h first (committing f.update.path ∷ []) done (f ∷ rest)
              (rename h f.temp f.update.path w).1 marked
              (CanUndo-files first done (rename h f.temp f.update.path w).1 w
                (rename-fails h f.temp f.update.path w fails) can))
    ]

validated-Abandons :
    (h : Host) (staged : List Staged) (w : World) (result : List Reason × World)
    → Reads w result
    → (result.0 ≡ [] → All (Matches (view w)) staged)
    → Abandons (view w) (validated h staged result)
unfolding validated undo
validated-Abandons h staged w ([], v) reads matches =
    commit-Abandons h (view w) [] staged v tt (λ q. ap (λ s. visible_option (s.0 q)) reads)
      (matches refl)
validated-Abandons h staged w (reason ∷ reasons, v) reads matches = λ failed back q.
    ap (λ files. visible_option (files q)) (clean_up-files h staged v ∙ ap (λ s. s.0) reads)

pub replace_staged-Abandons :
    (h : Host) (staged : List Staged) (w : World) → Abandons (view w) (replace_staged h staged w)
unfolding replace_staged
replace_staged-Abandons h staged w =
    validated-Abandons h staged w _ (validate_unchanged-Reads h staged w)
      (validate_unchanged-Matches h staged w)
