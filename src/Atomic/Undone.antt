-- ===== src/Atomic/Undone.antt =====
-- What was committed can be undone: bringing the committed files back leaves all as it was.
use mathlib.Core.Path.{subst}
use forge_go.Prelude.{
  ◌≡◌, refl, sym, ◌∙◌, ap, ◌⊎◌, inl, inr, arith, true, false, ◌&&◌, Bytes, List, [], ◌∷◌, ◌++◌,
  equal, equal_iff, if◌then◌else◌, Bool-cases, All,
}
use forge_go.Atomic.Host.{World, Host}
use forge_go.Atomic.Stage.{Reason, Staged, is_among}
use forge_go.Atomic.Commit.{
  restore_committed, restore_all, roll_back, sync_directories, open_and_sync, commit_mark,
}
use forge_go.Atomic.Keeps.{Reads}
use forge_go.Atomic.Matching.{Matches, List-cases}
use forge_go.Atomic.View.{View, view, visible_option, put_view, before, is_rolled_back}
use forge_go.Atomic.Restored.{PutsBack, restore-PutsBack}

open_and_sync-Reads :
    (h : Host) (path dir : Bytes) (w : World) → Reads w (open_and_sync h path dir w)
open_and_sync-Reads h path dir w = ground arith

pub sync_directories-Reads :
    (h : Host) (seen : List Bytes) (staged : List Staged) (w : World)
    → Reads w (sync_directories h seen staged w)
unfolding sync_directories
sync_directories-Reads h seen [] w = refl
sync_directories-Reads h seen (f ∷ staged) w =
    let dir = h.parent f.update.path in
    let reads = open_and_sync-Reads h f.update.path dir w in
    elim (Bool-cases (is_among dir seen)) [
      | inl known ↦ rw (sync_directories, known) (sync_directories-Reads h seen staged w)
      | inr new ↦ elim (List-cases (open_and_sync h f.update.path dir w).0) [
        | inl e ↦
            rw (sync_directories, new, e) (sync_directories-Reads h (dir ∷ seen) staged _ ∙ reads)
        | inr (reason, reasons, e) ↦ rw (sync_directories, new, e) reads
      ]
    ]

unfoldable pub undo : List Staged → View → View
undo [] v = v
undo (f ∷ staged) v = put_view f.update.path (before f.original) (undo staged v)

abbrev pub AllCommitted : List Staged → Type 0
AllCommitted staged = All (λ f. f.committed ≡ true) staged

pub is_rolled_back-append :
    (xs ys : List Reason) → is_rolled_back (xs ++ ys) ≡ is_rolled_back xs && is_rolled_back ys
unfolding is_rolled_back
is_rolled_back-append [] ys = refl
is_rolled_back-append (x ∷ xs) ys = ground (arith, is_rolled_back-append xs ys)

restore_committed-PutsBack :
    (h : Host) (f : Staged) (w : World)
    → f.committed ≡ true
    → PutsBack f.update.path (before f.original) w (restore_committed h f w)
restore_committed-PutsBack h f w e = rw e (restore-PutsBack h f.update.path f.original w)

restore_all-undo :
    (h : Host) (staged : List Staged) (w : World)
    → AllCommitted staged
    → is_rolled_back (restore_all h staged w).0 ≡ true
    → (q : Bytes) → view (restore_all h staged w).1 q ≡ undo staged (view w) q
unfolding restore_all undo
restore_all-undo h [] w marked back q = refl
restore_all-undo h (f ∷ staged) w marked back q =
    let (later, v) = restore_all h staged w in
    let (own, u) = restore_committed h f v in
    let both = sym (is_rolled_back-append later own) ∙ back in
    restore_committed-PutsBack h f v marked.0 (ground arith) q
    ∙ ap (λ e. if equal q f.update.path then before f.original else e)
        (restore_all-undo h staged w marked.1 (ground arith) q)

pub roll_back-undo :
    (h : Host) (staged : List Staged) (w : World)
    → AllCommitted staged
    → is_rolled_back (roll_back h staged w).0 ≡ true
    → (q : Bytes) → view (roll_back h staged w).1 q ≡ undo staged (view w) q
unfolding roll_back
roll_back-undo h staged w marked back q =
    let (reasons, v) = restore_all h staged w in
    let (sync_reasons, u) = sync_directories h [] staged v in
    let both = sym (is_rolled_back-append reasons sync_reasons) ∙ back in
    ap (λ s. visible_option (s.0 q)) (sync_directories-Reads h [] staged v)
    ∙ restore_all-undo h staged w marked (ground arith) q

undo-cases :
    (staged : List Staged) (q : Bytes)
    → ((v u : View) → undo staged v q ≡ undo staged u q) ⊎ ((v : View) → undo staged v q ≡ v q)
unfolding undo
undo-cases [] q = inr (λ v. refl)
undo-cases (f ∷ staged) q = elim (Bool-cases (equal q f.update.path)) [
  | inl here ↦ inl (λ v u. rw here refl)
  | inr there ↦ elim (undo-cases staged q) [
    | inl covered ↦ inl (λ v u. rw there (covered v u))
    | inr free ↦ inr (λ v. rw there (free v))
  ]
]

-- Undoing what was committed shows what was there at first.
abbrev pub CanUndo : View → List Staged → View → Type 0
CanUndo first done v = (q : Bytes) → undo done v q ≡ first q

undo-append :
    (done : List Staged) (f : Staged) (v : View) (q : Bytes)
    → undo (done ++ f ∷ []) v q ≡ undo done (put_view f.update.path (before f.original) v) q
unfolding undo
undo-append [] f v q = refl
undo-append (g ∷ done) f v q = rw (undo-append done f v q) refl

pub commit_mark-CanUndo :
    (first : View) (done : List Staged) (f : Staged) (v : View) (entry : View)
    → Matches first f
    → CanUndo first done v
    → ((q : Bytes) → equal q f.update.path ≡ false → entry q ≡ v q)
    → CanUndo first (done ++ commit_mark f ∷ []) entry
commit_mark-CanUndo first done f v entry matches can outside q =
    undo-append done (commit_mark f) entry q ∙ elim (undo-cases done q) [
      | inl covered ↦ covered _ v ∙ can q
      | inr free ↦ free _ ∙ elim (Bool-cases (equal q f.update.path)) [
        | inl here ↦ rw (here, (equal_iff q f.update.path).0 here) (sym matches)
        | inr there ↦ rw there (outside q there ∙ sym (free v) ∙ can q)
      ]
    ]

pub CanUndo-files :
    (first : View) (done : List Staged) (v w : World)
    → v.files ≡ w.files
    → CanUndo first done (view w)
    → CanUndo first done (view v)
CanUndo-files first done v w same can =
    subst (CanUndo first done) (sym (ap (λ files q. visible_option (files q)) same)) can
