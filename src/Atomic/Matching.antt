-- ===== src/Atomic/Matching.antt =====
-- A target that passes the comparison before the commits looks as it was when it was staged.
use forge_go.Prelude.{
  ◌≡◌, refl, sym, ◌∙◌, ap, ◌⊎◌, inl, inr, arith, Bool, true, false, Bytes, List, [], ◌∷◌, Option,
  none, some, equal_iff, if◌then◌else◌, All,
}
use mathlib.Core.Path.{subst}
use forge_go.Atomic.Host.{
  File, Entry, regular, directory, link, World, Host, fails_now, tick, Lstat, found, absent, failed,
  found_or_absent, lstat, open_file,
}
use forge_go.Atomic.Stage.{
  Reason, Attempt, did, gave_up, Staged, same_file, close_snapshot, read_snapshot, opened_snapshot,
  snapshot,
}
use forge_go.Atomic.Commit.{
  compare_snapshot, compare_existing, compare_absent, compare_target, validate_unchanged,
}
use forge_go.Atomic.Keeps.{Reads, snapshot-Reads}
use forge_go.Atomic.View.{View, view, visible_option, before}

-- What a snapshot returns is the file that was opened.
abbrev IsRead : Option Entry → Attempt File → Type 0
IsRead entry (gave_up _ _) = Unit
IsRead entry (did file) = entry ≡ some (regular file)

same_file-IsRead :
    (h : Host) (expected : File) (entry : Entry) (w : World)
    → IsRead (some entry) (same_file h expected entry w).0
unfolding same_file
same_file-IsRead h expected (regular file) w = ground arith
same_file-IsRead h expected directory w = tt
same_file-IsRead h expected (link _) w = tt

read_snapshot-IsRead :
    (h : Host) (expected : File) (entry : Entry) (w : World)
    → IsRead (some entry) (read_snapshot h expected entry w).0
unfolding read_snapshot
read_snapshot-IsRead h expected entry w = ground (arith, same_file-IsRead h expected entry (tick w))

close_snapshot-IsRead :
    (entry : Option Entry) (result : Attempt File) (broken : Bool)
    → IsRead entry result
    → IsRead entry (close_snapshot result broken)
unfolding close_snapshot
close_snapshot-IsRead entry (did file) false read = read
close_snapshot-IsRead entry (did file) true read = tt
close_snapshot-IsRead entry (gave_up _ _) false read = tt
close_snapshot-IsRead entry (gave_up _ _) true read = tt

opened_snapshot-IsRead :
    (h : Host) (expected : File) (result : Option Entry × World)
    → IsRead result.0 (opened_snapshot h expected result).0
unfolding opened_snapshot
opened_snapshot-IsRead h expected (none, w) = tt
opened_snapshot-IsRead h expected (some entry, w) =
    close_snapshot-IsRead (some entry) _ _ (read_snapshot-IsRead h expected entry w)

pub snapshot-found :
    (h : Host) (path : Bytes) (expected file : File) (w : World)
    → (snapshot h path expected w).0 ≡ did file
    → w.files path ≡ some (regular file)
unfolding snapshot open_file
snapshot-found h path expected file w e =
    let read : IsRead (open_file h path w).0 (did file) =
      subst (λ r. IsRead (open_file h path w).0 r) e
        (opened_snapshot-IsRead h expected (open_file h path w)) in
    ground arith

abbrev pub Agrees : Bytes → Option File → World → List Reason × World → Type 0
Agrees path original w result = result.0 ≡ [] → view w path ≡ before original

compare_snapshot-Agrees :
    (path : Bytes) (original : File) (w : World) (result : Attempt File × World)
    → ((file : File) → result.0 ≡ did file → w.files path ≡ some (regular file))
    → Agrees path (some original) w (compare_snapshot path original result)
unfolding compare_snapshot
compare_snapshot-Agrees path original w (gave_up reason reasons, v) read fine =
    absurd (ground arith)
compare_snapshot-Agrees path original w (did current, v) read fine =
    ground (arith, read current refl, (equal_iff current.content original.content).0)

compare_existing-Agrees :
    (h : Host) (path : Bytes) (original : File) (w : World) (seen : Lstat × World)
    → seen.1.files ≡ w.files
    → Agrees path (some original) w (compare_existing h path original seen)
unfolding compare_existing
compare_existing-Agrees h path original w (found (regular file), v) same fine =
    let same_path : v.files path ≡ w.files path = ap (λ files. files path) same in
    let agrees =
      compare_snapshot-Agrees path original w (snapshot h path file v)
        (λ g e. sym same_path ∙ snapshot-found h path file g v e) in
    ground (arith, agrees)
compare_existing-Agrees h path original w (found directory, v) same fine = absurd (ground arith)
compare_existing-Agrees h path original w (found (link _), v) same fine = absurd (ground arith)
compare_existing-Agrees h path original w (absent, v) same fine = absurd (ground arith)
compare_existing-Agrees h path original w (failed, v) same fine = absurd (ground arith)

compare_absent-Agrees :
    (path : Bytes) (w : World) (entry : Option Entry) (broken : Bool)
    → (compare_absent path (if broken then failed else found_or_absent entry, w)).0 ≡ []
    → entry ≡ none
unfolding compare_absent
compare_absent-Agrees path w none broken fine = refl
compare_absent-Agrees path w (some entry) true fine = absurd (ground arith)
compare_absent-Agrees path w (some entry) false fine = absurd (ground arith)

compare_target-Agrees :
    (h : Host) (path : Bytes) (original : Option File) (w : World)
    → Agrees path original w (compare_target h path original w)
unfolding compare_target lstat
compare_target-Agrees h path none w fine =
    ap visible_option (compare_absent-Agrees path (tick w) (w.files path) (fails_now h w) fine)
compare_target-Agrees h path (some original) w fine =
    compare_existing-Agrees h path original w _ refl fine

compare_snapshot-Reads :
    (path : Bytes) (original : File) (result : Attempt File × World)
    → Reads result.1 (compare_snapshot path original result)
unfolding compare_snapshot
compare_snapshot-Reads path original (gave_up reason reasons, w) = refl
compare_snapshot-Reads path original (did file, w) = refl

compare_existing-Reads :
    (h : Host) (path : Bytes) (original : File) (seen : Lstat × World)
    → Reads seen.1 (compare_existing h path original seen)
unfolding compare_existing
compare_existing-Reads h path original (found (regular file), w) =
    let reads =
      compare_snapshot-Reads path original (snapshot h path file w)
      ∙ snapshot-Reads h path file w in
    ground (arith, reads)
compare_existing-Reads h path original (found directory, w) = refl
compare_existing-Reads h path original (found (link _), w) = refl
compare_existing-Reads h path original (absent, w) = refl
compare_existing-Reads h path original (failed, w) = refl

compare_absent-Reads :
    (path : Bytes) (seen : Lstat × World) → Reads seen.1 (compare_absent path seen)
unfolding compare_absent
compare_absent-Reads path (found _, w) = refl
compare_absent-Reads path (absent, w) = refl
compare_absent-Reads path (failed, w) = refl

compare_target-Reads :
    (h : Host) (path : Bytes) (original : Option File) (w : World)
    → Reads w (compare_target h path original w)
unfolding compare_target lstat
compare_target-Reads h path none w = compare_absent-Reads path _
compare_target-Reads h path (some original) w = compare_existing-Reads h path original _

pub List-cases {ℓ} :
    {A : Type ℓ} (xs : List A) → (xs ≡ []) ⊎ ((x : A) × (rest : List A) × (xs ≡ x ∷ rest))
List-cases [] = inl refl
List-cases (x ∷ rest) = inr (x, rest, refl)

pub validate_unchanged-Reads :
    (h : Host) (staged : List Staged) (w : World) → Reads w (validate_unchanged h staged w)
unfolding validate_unchanged
validate_unchanged-Reads h [] w = refl
validate_unchanged-Reads h (f ∷ staged) w =
    let reads = compare_target-Reads h f.update.path f.original w in
    elim (List-cases (compare_target h f.update.path f.original w).0) [
      | inl e ↦ rw (validate_unchanged, e) (validate_unchanged-Reads h staged _ ∙ reads)
      | inr (reason, reasons, e) ↦ rw (validate_unchanged, e) reads
    ]

-- A staged target looks as it did when it was staged.
abbrev pub Matches : View → Staged → Type 0
Matches v f = v f.update.path ≡ before f.original

pub validate_unchanged-Matches :
    (h : Host) (staged : List Staged) (w : World)
    → (validate_unchanged h staged w).0 ≡ []
    → All (Matches (view w)) staged
unfolding validate_unchanged
validate_unchanged-Matches h [] w = λ fine. tt
validate_unchanged-Matches h (f ∷ staged) w =
    let reads = compare_target-Reads h f.update.path f.original w in
    elim (List-cases (compare_target h f.update.path f.original w).0) [
      | inl e ↦
          rw (validate_unchanged, e)
            (λ fine. (
              compare_target-Agrees h f.update.path f.original w e,
              subst (λ v. All (Matches v) staged) (ap (λ s p. visible_option (s.0 p)) reads)
                  (validate_unchanged-Matches h staged _ fine),
            ))
      | inr (reason, reasons, e) ↦ rw (validate_unchanged, e) (λ fine. absurd (ground arith))
    ]
