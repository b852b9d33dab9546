-- ===== src/Atomic/Originals.antt =====
-- What is remembered of a target when it is staged is what it looks like then.
use mathlib.Core.Path.{subst}
use forge_go.Prelude.{
  ℕ, ◌≡◌, refl, sym, ap, inl, inr, arith, Bool, true, false, Bytes, List, [], ◌∷◌, ◌++◌, Option,
  none, some, if◌then◌else◌, All, All-append,
}
use forge_go.Atomic.Host.{
  File, Entry, regular, directory, link, World, Host, fails_now, Lstat, found, absent, failed,
  found_or_absent, lstat,
}
use forge_go.Atomic.Stage.{
  Attempt, Attempt-cases, did, gave_up, Update, Staged, validate_target, snapshot, stage_content,
  staged_content, stage_over, after_snapshot, inspected, checked, stage_one, stage_all,
}
use forge_go.Atomic.Keeps.{validate_target-Reads, stage_one-Keeps}
use forge_go.Atomic.View.{View, view, visible_option, before}
use forge_go.Atomic.Matching.{Matches, snapshot-found}

abbrev pub Remembers : View → Attempt Staged → Type 0
Remembers v (gave_up _ _) = Unit
Remembers v (did f) = Matches v f

staged_content-Remembers :
    (u : Update) (original : Option File) (v : View) (result : Attempt ℕ × World)
    → v u.path ≡ before original
    → Remembers v (staged_content u original result).0
unfolding staged_content
staged_content-Remembers u original v (gave_up _ _, w) same = tt
staged_content-Remembers u original v (did temp, w) same = same

stage_over-Remembers :
    (h : Host) (u : Update) (original : Option File) (v : View) (w : World)
    → v u.path ≡ before original
    → Remembers v (stage_over h u original w).0
stage_over-Remembers h u original v w same =
    staged_content-Remembers u original v (stage_content h u.path u.content u.mode w) same

after_snapshot-Remembers :
    (h : Host) (u : Update) (v : View) (result : Attempt File × World)
    → ((file : File) → result.0 ≡ did file → v u.path ≡ before (some file))
    → Remembers v (after_snapshot h u result).0
unfolding after_snapshot
after_snapshot-Remembers h u v (gave_up _ _, w) read = tt
after_snapshot-Remembers h u v (did file, w) read =
    stage_over-Remembers h u (some file) v w (read file refl)

inspected-Remembers :
    (h : Host) (u : Update) (w : World) (seen : Lstat)
    → (seen ≡ absent → w.files u.path ≡ none)
    → Remembers (view w) (inspected h u (seen, w)).0
unfolding inspected
inspected-Remembers h u w (found (regular file)) gone =
    after_snapshot-Remembers h u (view w) (snapshot h u.path file w)
      (λ g e. ap visible_option (snapshot-found h u.path file g w e))
inspected-Remembers h u w (found directory) gone = tt
inspected-Remembers h u w (found (link _)) gone = tt
inspected-Remembers h u w absent gone =
    stage_over-Remembers h u none (view w) w (ap visible_option (gone refl))
inspected-Remembers h u w failed gone = tt

absent-found :
    (entry : Option Entry) (broken : Bool)
    → (if broken then failed else found_or_absent entry) ≡ absent
    → entry ≡ none
absent-found none broken e = refl
absent-found (some entry) true e = absurd (ground arith)
absent-found (some entry) false e = absurd (ground arith)

checked-Remembers :
    (h : Host) (u : Update) (result : Attempt Bytes × World)
    → Remembers (view result.1) (checked h u result).0
unfolding checked lstat
checked-Remembers h u (gave_up _ _, w) = tt
checked-Remembers h u (did path, w) =
    inspected-Remembers h (record u { path = path }) _ (lstat h path w).0
      (absent-found (w.files path) (fails_now h w))

stage_one-Remembers :
    (h : Host) (u : Update) (seen : List Bytes) (w : World)
    → Remembers (view w) (stage_one h u seen w).0
unfolding stage_one
stage_one-Remembers h u seen w =
    subst (λ v. Remembers v (stage_one h u seen w).0)
      (ap (λ s q. visible_option (s.0 q)) (validate_target-Reads h u.path seen w))
      (checked-Remembers h u (validate_target h u.path seen w))

abbrev pub RemembersAll : View → Attempt (List Staged) → Type 0
RemembersAll v (gave_up _ _) = Unit
RemembersAll v (did all) = All (Matches v) all

pub stage_all-RemembersAll :
    (h : Host) (updates : List Update) (seen : List Bytes) (staged : List Staged) (w : World)
    → All (Matches (view w)) staged
    → RemembersAll (view w) (stage_all h updates seen staged w).0
unfolding stage_all
stage_all-RemembersAll h [] seen staged w matches = matches
stage_all-RemembersAll h (u ∷ updates) seen staged w matches =
    let v = (stage_one h u seen w).1 in
    let same : view v ≡ view w =
      ap (λ files q. visible_option (files q)) (stage_one-Keeps h u seen w) in
    elim (Attempt-cases (stage_one h u seen w).0) [
      | inl (reason, reasons, e) ↦ rw (stage_all, e) tt
      | inr (f, e) ↦
          rw (stage_all, e)
            (subst
              (λ x.
                RemembersAll x (stage_all h updates (f.update.path ∷ seen) (staged ++ f ∷ []) v).0)
              same
              (stage_all-RemembersAll h updates (f.update.path ∷ seen) (staged ++ f ∷ []) v (
                subst (λ x. All (Matches x) (staged ++ f ∷ [])) (sym same)
                  (All-append (Matches (view w)) staged (f ∷ []) matches
                    (subst (Remembers (view w)) e (stage_one-Remembers h u seen w), tt)))))
    ]
