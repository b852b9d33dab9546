-- ===== src/Atomic/Restored.antt =====
-- A file whose replacement is undone looks as it did before.
use forge_go.Prelude.{
  ℕ, ◌≡◌, refl, ◌∙◌, ap, arith, Bool, true, false, Bytes, List, Option, none, some, ==_iff, equal,
  equal_iff, equal_refl, Bool-cases, inl, inr, if◌then◌else◌,
}
use forge_go.Atomic.Host.{
  File, Entry, regular, directory, link, World, Host, perm, tick, create_temp, rename, rename_file,
  chmod, with_mode, not_removed, remove, remove_entry,
}
use forge_go.Atomic.Stage.{
  Reason, Attempt, did, gave_up, fill, close_staged, created, stage_content,
}
use forge_go.Atomic.Commit.{
  restored_mode, restored_content, staged_restore, removed_replacement, restore,
}
use forge_go.Atomic.Keeps.{stage_content-Keeps}
use forge_go.Atomic.View.{view, visible_option, put_view, before, is_rolled_back}

abbrev written : ℕ → Bytes → ℕ → File
written temp content mode = record { content = content; mode = perm mode; identity = temp }

-- The temporary file that a staging returns holds what was staged.
abbrev pub IsStaged : Bytes → ℕ → Attempt ℕ × World → Type 0
IsStaged content mode (gave_up _ _, w) = Unit
IsStaged content mode (did temp, w) = w.temps temp ≡ some (written temp content mode)

close_staged-IsStaged :
    (h : Host) (temp : ℕ) (content : Bytes) (mode : ℕ) (broken : Bool)
    (filled : Option Reason × World)
    → (filled.0 ≡ none → filled.1.temps temp ≡ some (written temp content mode))
    → IsStaged content mode (close_staged h temp filled.0 broken (tick filled.1))
unfolding close_staged
close_staged-IsStaged h temp content mode false (none, w) e = e refl
close_staged-IsStaged h temp content mode true (none, w) e = tt
close_staged-IsStaged h temp content mode broken (some reason, w) e = tt

fill-temps :
    (h : Host) (temp : ℕ) (content : Bytes) (mode : ℕ) (w : World)
    → (fill h temp content mode w).0 ≡ none
    → (fill h temp content mode w).1.temps temp ≡ some (written temp content mode)
fill-temps h temp content mode w e = ground (arith, (==_iff temp temp).1)

created-IsStaged :
    (h : Host) (content : Bytes) (mode : ℕ) (result : Option ℕ × World)
    → IsStaged content mode (created h content mode result)
unfolding created
created-IsStaged h content mode (none, w) = tt
created-IsStaged h content mode (some temp, w) =
    close_staged-IsStaged h temp content mode _ (fill h temp content mode w)
      (fill-temps h temp content mode w)

pub stage_content-IsStaged :
    (h : Host) (path content : Bytes) (mode : ℕ) (w : World)
    → IsStaged content mode (stage_content h path content mode w)
unfolding stage_content
stage_content-IsStaged h path content mode w =
    created-IsStaged h content mode (create_temp h path w)

-- A result that reports no failed restoration has put the entry back.
abbrev pub PutsBack : Bytes → Option Entry → World → List Reason × World → Type 0
PutsBack path entry w result =
    is_rolled_back result.0 ≡ true → (q : Bytes) → view result.1 q ≡ put_view path entry (view w) q

restored_mode-PutsBack :
    (h : Host) (path : Bytes) (original : File) (q : Bytes) (file : File) (w : World)
    → w.files path ≡ some (regular file)
    → file.content ≡ original.content
    → is_rolled_back (restored_mode path (chmod h path (perm original.mode) w)).0 ≡ true
    → view (restored_mode path (chmod h path (perm original.mode) w)).1 q
      ≡ put_view path (before (some original)) (view w) q
unfolding restored_mode chmod with_mode is_rolled_back
restored_mode-PutsBack h path original q file w there same back = ground arith

-- The renaming of a temporary file that is there, unless it fails.
rename-files :
    (h : Host) (temp : ℕ) (path : Bytes) (file : File) (w : World)
    → w.temps temp ≡ some file
    → (rename h (some temp) path w).0 ≡ true
    → (rename h (some temp) path w).1.files
      ≡ (λ q. if equal q path then some (regular file) else w.files q)
unfolding rename rename_file
rename-files h temp path file w held renamed = ground arith

put_view_over :
    (v w : World) (path : Bytes) (entry : Entry) (last : Option Entry) (q : Bytes)
    → v.files ≡ (λ p. if equal p path then some entry else w.files p)
    → put_view path last (view v) q ≡ put_view path last (view w) q
put_view_over v w path entry last q e = elim (Bool-cases (equal q path)) [
  | inl here ↦ rw here refl
  | inr there ↦ rw there (ap (λ files. visible_option (files q)) e ∙ rw there refl)
]

restored_content-PutsBack :
    (h : Host) (path : Bytes) (original file : File) (temp : ℕ) (w : World) (result : Bool × World)
    → file.content ≡ original.content
    → (result.0 ≡ true
        → result.1.files ≡ (λ q. if equal q path then some (regular file) else w.files q))
    → PutsBack path (before (some original)) w (restored_content h path original temp result)
unfolding restored_content is_rolled_back
restored_content-PutsBack h path original file temp w (false, v) same put back q =
    absurd (ground arith)
restored_content-PutsBack h path original file temp w (true, v) same put back q =
    restored_mode-PutsBack h path original q file v
      (ap (λ files. files path) (put refl) ∙ rw (equal_refl path) refl) same back
    ∙ put_view_over v w path (regular file) _ q (put refl)

staged_restore-PutsBack :
    (h : Host) (path : Bytes) (original : File) (w : World) (result : Attempt ℕ × World)
    → IsStaged original.content 384 result
    → result.1.files ≡ w.files
    → PutsBack path (before (some original)) w (staged_restore h path original result)
unfolding staged_restore is_rolled_back
staged_restore-PutsBack h path original w (gave_up reason reasons, v) held same back q =
    absurd (ground arith)
staged_restore-PutsBack h path original w (did temp, v) held same back q =
    restored_content-PutsBack h path original _ temp v (rename h (some temp) path v) refl
      (rename-files h temp path _ v held) back q
    ∙ ap
        (λ files.
          put_view path (before (some original)) (λ p. view (record w { files = files }) p) q)
        same

removed_replacement-PutsBack :
    (path : Bytes) (w : World) (entry : Option Entry)
    → entry ≡ w.files path
    → PutsBack path none w (removed_replacement path (remove_entry entry w path))
unfolding removed_replacement remove_entry is_rolled_back
removed_replacement-PutsBack path w none e back q = ground (arith, (equal_iff q path).0)
removed_replacement-PutsBack path w (some directory) e back q = absurd (ground arith)
removed_replacement-PutsBack path w (some (regular file)) e back q = ground arith
removed_replacement-PutsBack path w (some (link to_directory)) e back q = ground arith

removal-PutsBack :
    (path : Bytes) (w : World) (broken : Bool)
    → PutsBack path none w (
        removed_replacement path
          (if broken then (not_removed, tick w) else remove_entry (w.files path) w path))
unfolding removed_replacement is_rolled_back
removal-PutsBack path w true back q = absurd (ground arith)
removal-PutsBack path w false back q = removed_replacement-PutsBack path w _ refl back q

pub restore-PutsBack :
    (h : Host) (path : Bytes) (original : Option File) (w : World)
    → PutsBack path (before original) w (restore h path original w)
unfolding restore remove
restore-PutsBack h path none w back q = removal-PutsBack path w _ back q
restore-PutsBack h path (some original) w back q =
    staged_restore-PutsBack h path original w _
      (stage_content-IsStaged h path original.content 384 w)
      (stage_content-Keeps h path original.content 384 w) back q
