-- ===== src/Atomic/Replaced.antt =====
-- A batch that reports no error has put every staged file in the place of its target.
use mathlib.Core.Path.{fun_ext}
use forge_go.Prelude.{
  ℕ, ◌≡◌, refl, ◌∙◌, ap, inl, inr, arith, true, Bytes, List, [], ◌∷◌, ◌++◌, Option, none, some,
  Bool-cases, All,
}
use forge_go.Atomic.Host.{File, World, Host, perm, rename, rename_file}
use forge_go.Atomic.Stage.{Reason, Update, Staged}
use forge_go.Atomic.Commit.{commit_mark, finish, commit, validated, replace_staged}
use forge_go.Atomic.Keeps.{Reads, stored}
use forge_go.Atomic.Matching.{validate_unchanged-Reads}
use forge_go.Atomic.View.{View, view, visible_option, visible_file, put_view}
use forge_go.Atomic.Undone.{sync_directories-Reads}
use forge_go.Atomic.Staged.{Holds, Held}
use forge_go.Atomic.Batch.{Grows-All, put_staged}

-- The successful renaming of the temporary file of an update.
rename_file-files :
    (h : Host) (u : Update) (temp : ℕ) (w : World) (file : Option File)
    → ((held : File)
        → file ≡ some held
        → (held.content ≡ u.content) × (perm held.mode ≡ perm u.mode))
    → (rename_file h temp u.path file w).0 ≡ true
    → (q : Bytes)
    → view (rename_file h temp u.path file w).1 q
      ≡ put_view u.path (some (visible_file u.content u.mode)) (view w) q
unfolding rename_file
rename_file-files h u temp w none holds = λ renamed. absurd (ground arith)
rename_file-files h u temp w (some file) holds = λ renamed q. ground (arith, holds file refl)

rename-view :
    (h : Host) (u : Update) (name : Option ℕ) (w : World)
    → Holds u name w
    → (rename h name u.path w).0 ≡ true
    → (q : Bytes)
    → view (rename h name u.path w).1 q
      ≡ put_view u.path (some (visible_file u.content u.mode)) (view w) q
unfolding rename
rename-view h u none w holds = λ renamed. absurd (ground arith)
rename-view h u (some temp) w holds = rename_file-files h u temp w (w.temps temp) holds.1

rename_file-next :
    (h : Host) (temp : ℕ) (path : Bytes) (w : World) (file : Option File)
    → (rename_file h temp path file w).1.next ≡ w.next
unfolding rename_file
rename_file-next h temp path w none = refl
rename_file-next h temp path w (some file) = ground arith

rename_file-temps :
    (h : Host) (temp : ℕ) (path : Bytes) (w : World) (file : Option File) (t : ℕ) (held : File)
    → (rename_file h temp path file w).1.temps t ≡ some held
    → w.temps t ≡ some held
unfolding rename_file
rename_file-temps h temp path w none t held there = there
rename_file-temps h temp path w (some file) t held there = ground arith

-- A renaming leaves what the other updates are staged in.
rename-Holds :
    (h : Host) (name : Option ℕ) (path : Bytes) (w : World) (u : Update) (other : Option ℕ)
    → Holds u other w
    → Holds u other (rename h name path w).1
unfolding rename
rename-Holds h none path w u none holds = tt
rename-Holds h (some temp) path w u none holds = tt
rename-Holds h none path w u (some t) holds = holds
rename-Holds h (some temp) path w u (some t) holds = (
  omega (arith, holds.0, rename_file-next h temp path w (w.temps temp)),
  λ file there. holds.1 file (rename_file-temps h temp path w (w.temps temp) t file there),
)

rename-All :
    (h : Host) (name : Option ℕ) (path : Bytes) (w : World) (staged : List Staged)
    → All (Held w) staged
    → All (Held (rename h name path w).1) staged
rename-All h name path w [] held = tt
rename-All h name path w (f ∷ staged) held =
    (rename-Holds h name path w f.update f.temp held.0, rename-All h name path w staged held.1)

-- A result without an error shows the view that is given.
abbrev pub Shows : View → List Reason × World → Type 0
Shows target result = result.0 ≡ [] → view result.1 ≡ target

finish-Shows :
    (h : Host) (done : List Staged) (w : World) (result : List Reason × World)
    → Reads w result
    → Shows (view w) (finish h done result)
unfolding finish
finish-Shows h done w ([], v) reads = λ fine. ap (λ s q. visible_option (s.0 q)) reads
finish-Shows h done w (reason ∷ reasons, v) reads = λ fine. absurd (ground arith)

commit-Shows :
    (h : Host) (done rest : List Staged) (w : World)
    → All (Held w) rest
    → Shows (put_staged rest (view w)) (commit h done rest w)
unfolding commit put_staged
commit-Shows h done [] w held = finish-Shows h done w _ (sync_directories-Reads h [] done w)
commit-Shows h done (f ∷ rest) w held =
    let u = f.update in
    elim (Bool-cases (rename h f.temp u.path w).0) [
      | inl renamed ↦
          rw (commit, renamed)
            (λ fine.
              commit-Shows h (done ++ commit_mark f ∷ []) rest (rename h f.temp u.path w).1
                (rename-All h f.temp u.path w rest held.1) fine
              ∙ ap (put_staged rest) (fun_ext (rename-view h u f.temp w held.0 renamed)))
      | inr fails ↦ rw (commit, fails) (λ fine. absurd (ground arith))
    ]

Reads-All :
    (w v : World) (staged : List Staged)
    → stored v ≡ stored w
    → All (Held w) staged
    → All (Held v) staged
Reads-All w v staged same held =
    Grows-All staged w v (omega (arith, ap (λ s. s.2) same), λ t small. ap (λ s. s.1 t) same) held

validated-Shows :
    (h : Host) (staged : List Staged) (w : World) (result : List Reason × World)
    → Reads w result
    → All (Held w) staged
    → Shows (put_staged staged (view w)) (validated h staged result)
unfolding validated
validated-Shows h staged w ([], v) reads held = λ fine.
    commit-Shows h [] staged v (Reads-All w v staged reads held) fine
    ∙ ap (λ s. put_staged staged (λ q. visible_option (s.0 q))) reads
validated-Shows h staged w (reason ∷ reasons, v) reads held = λ fine. absurd (ground arith)

pub replace_staged-Shows :
    (h : Host) (staged : List Staged) (w : World)
    → All (Held w) staged
    → Shows (put_staged staged (view w)) (replace_staged h staged w)
unfolding replace_staged
replace_staged-Shows h staged w held =
    validated-Shows h staged w _ (validate_unchanged-Reads h staged w) held
