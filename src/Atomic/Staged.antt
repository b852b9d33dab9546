-- ===== src/Atomic/Staged.antt =====
-- A staged update has a temporary file of its own that holds it, and no later staging touches it.
use forge_go.Prelude.{
  ℕ, suc, ◌≤◌, ◌<◌, ◌≡◌, refl, sym, ◌∙◌, ap, inl, inr, arith, Bool, true, false, not, ◌||◌,
  Bool-cases, Bytes, Option, none, some,
}
use forge_go.Atomic.Host.{
  File, regular, directory, link, World, Host, perm, fails_now, tick, Lstat, found, absent, failed,
  parent_is_directory, create_temp,
}
use forge_go.Atomic.Stage.{
  Reason, Attempt, did, gave_up, Update, Staged, snapshot, fill, close_staged, created,
  stage_content, staged_content, stage_over, after_snapshot, inspected,
}
use forge_go.Atomic.Keeps.{stored, snapshot-Reads}
use forge_go.Atomic.Restored.{IsStaged, stage_content-IsStaged}

-- The temporary files from before are as they were.
abbrev pub Grows : World → World → Type 0
Grows w v = w.next ≤ v.next × ((t : ℕ) → t < w.next → v.temps t ≡ w.temps t)

-- The temporary file of an update, if it is there, holds the update.
abbrev pub Holds : Update → Option ℕ → World → Type 0
Holds u none w = Unit
Holds u (some temp) w =
    temp < w.next
    × ((file : File)
        → w.temps temp ≡ some file
        → (file.content ≡ u.content) × (perm file.mode ≡ perm u.mode))

abbrev pub Held : World → Staged → Type 0
Held w f = Holds f.update f.temp w

pub Grows-Holds :
    (u : Update) (name : Option ℕ) (w v : World) → Grows w v → Holds u name w → Holds u name v
Grows-Holds u none w v grows holds = tt
Grows-Holds u (some temp) w v grows holds = (
  omega (arith, grows.0, holds.0),
  λ file there. holds.1 file (sym (grows.1 temp holds.0) ∙ there),
)

fill-next :
    (h : Host) (temp : ℕ) (content : Bytes) (mode : ℕ) (w : World)
    → (fill h temp content mode w).1.next ≡ w.next
fill-next h temp content mode w = ground arith

fill-temps_below :
    (h : Host) (temp : ℕ) (content : Bytes) (mode : ℕ) (w : World) (t : ℕ)
    → t < temp
    → (fill h temp content mode w).1.temps t ≡ w.temps t
fill-temps_below h temp content mode w t below = ground arith

-- The outcome of staging the content of an update.
abbrev IsFresh : World → Attempt ℕ × World → Type 0
IsFresh w (gave_up _ _, v) = Unit
IsFresh w (did temp, v) = Grows w v × (temp < v.next)

close_staged-IsFresh :
    (h : Host) (temp : ℕ) (problem : Option Reason) (broken : Bool) (w v : World)
    → Grows w v
    → temp < v.next
    → IsFresh w (close_staged h temp problem broken v)
unfolding close_staged
close_staged-IsFresh h temp none false w v grows below = (grows, below)
close_staged-IsFresh h temp none true w v grows below = tt
close_staged-IsFresh h temp (some reason) broken w v grows below = tt

-- A new temporary file, if there is one, is the next one.
abbrev IsNext : World → Option ℕ × World → Type 0
IsNext w (none, v) = Unit
IsNext w (some temp, v) =
    (temp ≡ w.next) × (v.next ≡ suc w.next) × ((t : ℕ) → t < w.next → v.temps t ≡ w.temps t)

create_temp-IsNext : (h : Host) (path : Bytes) (w : World) → IsNext w (create_temp h path w)
unfolding create_temp
create_temp-IsNext h path w =
    elim (Bool-cases (fails_now h w || not (parent_is_directory h path w))) [
      | inl fails ↦ rw fails tt
      | inr works ↦ rw works (refl, refl, λ t below. ground arith)
    ]

created-IsFresh :
    (h : Host) (content : Bytes) (mode : ℕ) (w : World) (result : Option ℕ × World)
    → IsNext w result
    → IsFresh w (created h content mode result)
unfolding created
created-IsFresh h content mode w (none, v) new = tt
created-IsFresh h content mode w (some temp, v) (here, next, below) =
    let (filled, u) = fill h temp content mode v in
    let same : u.next ≡ v.next = fill-next h temp content mode v in
    close_staged-IsFresh h temp filled (fails_now h u) w (tick u)
      (
        omega arith,
        λ t small. fill-temps_below h temp content mode v t (omega arith) ∙ below t small,
      )
      (omega arith)

stage_content-IsFresh :
    (h : Host) (path content : Bytes) (mode : ℕ) (w : World)
    → IsFresh w (stage_content h path content mode w)
unfolding stage_content
stage_content-IsFresh h path content mode w =
    created-IsFresh h content mode w _ (create_temp-IsNext h path w)

-- The outcome of staging an update under its cleaned path.
abbrev pub IsStagedAs : Update → World → Attempt Staged × World → Type 0
IsStagedAs u w (gave_up _ _, v) = Unit
IsStagedAs u w (did f, v) = (f.update ≡ u) × Holds u f.temp v × Grows w v

staged_content-IsStagedAs :
    (u : Update) (original : Option File) (w : World) (result : Attempt ℕ × World)
    → IsFresh w result
    → IsStaged u.content u.mode result
    → IsStagedAs u w (staged_content u original result)
unfolding staged_content
staged_content-IsStagedAs u original w (gave_up reason reasons, v) fresh held = tt
staged_content-IsStagedAs u original w (did temp, v) fresh held =
    (refl, (fresh.1, λ file there. ground arith), fresh.0)

stage_over-IsStagedAs :
    (h : Host) (u : Update) (original : Option File) (w : World)
    → IsStagedAs u w (stage_over h u original w)
stage_over-IsStagedAs h u original w =
    staged_content-IsStagedAs u original w _ (stage_content-IsFresh h u.path u.content u.mode w)
      (stage_content-IsStaged h u.path u.content u.mode w)

-- The outcome does not depend on what only reads.
pub Reads-IsStagedAs :
    (u : Update) (w v : World) (result : Attempt Staged × World)
    → stored v ≡ stored w
    → IsStagedAs u v result
    → IsStagedAs u w result
Reads-IsStagedAs u w v (gave_up _ _, x) same staged = tt
Reads-IsStagedAs u w v (did f, x) same (e, holds, grows) =
    let next : v.next ≡ w.next = ap (λ s. s.2) same in
    (e, holds, (omega (arith, grows.0), λ t small. grows.1 t (omega arith) ∙ ap (λ s. s.1 t) same))

after_snapshot-IsStagedAs :
    (h : Host) (u : Update) (result : Attempt File × World)
    → IsStagedAs u result.1 (after_snapshot h u result)
unfolding after_snapshot
after_snapshot-IsStagedAs h u (gave_up reason reasons, w) = tt
after_snapshot-IsStagedAs h u (did file, w) = stage_over-IsStagedAs h u (some file) w

pub inspected-IsStagedAs :
    (h : Host) (u : Update) (result : Lstat × World) → IsStagedAs u result.1 (inspected h u result)
unfolding inspected
inspected-IsStagedAs h u (found (regular file), w) =
    Reads-IsStagedAs u w (snapshot h u.path file w).1 _ (snapshot-Reads h u.path file w)
      (after_snapshot-IsStagedAs h u _)
inspected-IsStagedAs h u (found directory, w) = tt
inspected-IsStagedAs h u (found (link _), w) = tt
inspected-IsStagedAs h u (absent, w) = stage_over-IsStagedAs h u none w
inspected-IsStagedAs h u (failed, w) = tt
