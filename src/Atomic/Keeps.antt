-- ===== src/Atomic/Keeps.antt =====
-- Staging, validating and cleaning up leave the named files alone.
use forge_go.Prelude.{
  ℕ, ◌≡◌, refl, ◌∙◌, ap, inl, inr, arith, Bool, true, false, Bytes, List, [], ◌∷◌, Option, none,
  some,
}
use forge_go.Atomic.Host.{
  File, Entry, regular, directory, link, World, Host, tick, Lstat, found, absent, failed, lstat,
  open_file, create_temp, remove_temp,
}
use forge_go.Atomic.Stage.{
  Reason, Attempt, Attempt-cases, did, gave_up, Update, Staged, resolved, validate_target,
  same_file, read_snapshot, opened_snapshot, snapshot, fill, close_staged, created, stage_content,
  staged_content, stage_over, after_snapshot, inspected, checked, stage_one, discard, clean_up,
  stage_all,
}

-- Whatever a call returns, the named files are those from before.
abbrev pub Keeps {ℓ} : {A : Type ℓ} → World → A × World → Type 0
Keeps w result = result.1.files ≡ w.files

-- All but the number of calls that were made.
abbrev pub stored : World → (Bytes → Option Entry) × (ℕ → Option File) × ℕ
stored w = (w.files, w.temps, w.next)

abbrev pub Reads {ℓ} : {A : Type ℓ} → World → A × World → Type 0
Reads w result = stored result.1 ≡ stored w

pub remove_temp-files : (h : Host) (temp : ℕ) (w : World) → (remove_temp h temp w).files ≡ w.files
unfolding remove_temp
remove_temp-files h temp w = ground arith

pub create_temp-Keeps : (h : Host) (path : Bytes) (w : World) → Keeps w (create_temp h path w)
unfolding create_temp
create_temp-Keeps h path w = ground arith

fill-Keeps :
    (h : Host) (temp : ℕ) (content : Bytes) (mode : ℕ) (w : World)
    → Keeps w (fill h temp content mode w)
fill-Keeps h temp content mode w = ground arith

close_staged-Keeps :
    (h : Host) (temp : ℕ) (problem : Option Reason) (broken : Bool) (w : World)
    → Keeps w (close_staged h temp problem broken w)
unfolding close_staged
close_staged-Keeps h temp none false w = refl
close_staged-Keeps h temp none true w = remove_temp-files h temp w
close_staged-Keeps h temp (some reason) broken w = remove_temp-files h temp w

created-Keeps :
    (h : Host) (content : Bytes) (mode : ℕ) (result : Option ℕ × World)
    → Keeps result.1 (created h content mode result)
unfolding created
created-Keeps h content mode (none, w) = refl
created-Keeps h content mode (some temp, w) =
    close_staged-Keeps h temp _ _ _ ∙ fill-Keeps h temp content mode w

pub stage_content-Keeps :
    (h : Host) (path content : Bytes) (mode : ℕ) (w : World)
    → Keeps w (stage_content h path content mode w)
unfolding stage_content
stage_content-Keeps h path content mode w =
    created-Keeps h content mode (create_temp h path w) ∙ create_temp-Keeps h path w

same_file-Reads :
    (h : Host) (expected : File) (entry : Entry) (w : World)
    → Reads w (same_file h expected entry w)
unfolding same_file
same_file-Reads h expected (regular file) w = ground arith
same_file-Reads h expected directory w = refl
same_file-Reads h expected (link _) w = refl

read_snapshot-Reads :
    (h : Host) (expected : File) (entry : Entry) (w : World)
    → Reads w (read_snapshot h expected entry w)
unfolding read_snapshot
read_snapshot-Reads h expected entry w = ground (arith, same_file-Reads h expected entry (tick w))

opened_snapshot-Reads :
    (h : Host) (expected : File) (result : Option Entry × World)
    → Reads result.1 (opened_snapshot h expected result)
unfolding opened_snapshot
opened_snapshot-Reads h expected (none, w) = refl
opened_snapshot-Reads h expected (some entry, w) = read_snapshot-Reads h expected entry w

pub snapshot-Reads :
    (h : Host) (path : Bytes) (expected : File) (w : World) → Reads w (snapshot h path expected w)
unfolding snapshot open_file
snapshot-Reads h path expected w = opened_snapshot-Reads h expected (open_file h path w)

resolved-Reads :
    (h : Host) (seen : List Bytes) (path : Option Bytes) (w : World)
    → Reads w (resolved h seen path w)
unfolding resolved
resolved-Reads h seen none w = refl
resolved-Reads h seen (some path) w = ground arith

pub validate_target-Reads :
    (h : Host) (path : Bytes) (seen : List Bytes) (w : World)
    → Reads w (validate_target h path seen w)
unfolding validate_target
validate_target-Reads h path seen w = ground (arith, resolved-Reads h seen (h.absolute path) w)

staged_content-Keeps :
    (u : Update) (original : Option File) (result : Attempt ℕ × World)
    → Keeps result.1 (staged_content u original result)
unfolding staged_content
staged_content-Keeps u original (gave_up reason reasons, w) = refl
staged_content-Keeps u original (did temp, w) = refl

stage_over-Keeps :
    (h : Host) (u : Update) (original : Option File) (w : World)
    → Keeps w (stage_over h u original w)
stage_over-Keeps h u original w =
    staged_content-Keeps u original _ ∙ stage_content-Keeps h u.path u.content u.mode w

after_snapshot-Keeps :
    (h : Host) (u : Update) (result : Attempt File × World)
    → Keeps result.1 (after_snapshot h u result)
unfolding after_snapshot
after_snapshot-Keeps h u (gave_up reason reasons, w) = refl
after_snapshot-Keeps h u (did file, w) = stage_over-Keeps h u (some file) w

inspected-Keeps :
    (h : Host) (u : Update) (result : Lstat × World) → Keeps result.1 (inspected h u result)
unfolding inspected
inspected-Keeps h u (found (regular file), w) =
    after_snapshot-Keeps h u _ ∙ ap (λ s. s.0) (snapshot-Reads h u.path file w)
inspected-Keeps h u (found directory, w) = refl
inspected-Keeps h u (found (link _), w) = refl
inspected-Keeps h u (absent, w) = stage_over-Keeps h u none w
inspected-Keeps h u (failed, w) = refl

checked-Keeps :
    (h : Host) (u : Update) (result : Attempt Bytes × World) → Keeps result.1 (checked h u result)
unfolding checked lstat
checked-Keeps h u (gave_up reason reasons, w) = refl
checked-Keeps h u (did path, w) = inspected-Keeps h _ (lstat h path w)

pub stage_one-Keeps :
    (h : Host) (u : Update) (seen : List Bytes) (w : World) → Keeps w (stage_one h u seen w)
unfolding stage_one
stage_one-Keeps h u seen w =
    checked-Keeps h u _ ∙ ap (λ s. s.0) (validate_target-Reads h u.path seen w)

discard-files : (h : Host) (name : Option ℕ) (w : World) → (discard h name w).files ≡ w.files
discard-files h none w = refl
discard-files h (some temp) w = remove_temp-files h temp w

pub clean_up-files :
    (h : Host) (staged : List Staged) (w : World) → (clean_up h staged w).files ≡ w.files
unfolding clean_up
clean_up-files h [] w = refl
clean_up-files h (f ∷ staged) w =
    clean_up-files h staged (discard h f.temp w) ∙ discard-files h f.temp w

pub stage_all-Keeps :
    (h : Host) (updates : List Update) (seen : List Bytes) (staged : List Staged) (w : World)
    → Keeps w (stage_all h updates seen staged w)
unfolding stage_all
stage_all-Keeps h [] seen staged w = refl
stage_all-Keeps h (u ∷ updates) seen staged w = elim (Attempt-cases (stage_one h u seen w).0) [
  | inl (reason, reasons, e) ↦
      rw (stage_all, e) (clean_up-files h staged _ ∙ stage_one-Keeps h u seen w)
  | inr (f, e) ↦ rw (stage_all, e) (stage_all-Keeps h updates _ _ _ ∙ stage_one-Keeps h u seen w)
]
