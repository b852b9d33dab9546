-- ===== src/Atomic/Stage.antt =====
-- The first half of cmd/go-openssl/code/atomic.go: a batch is staged in temporary files, and what
-- it replaces is remembered. An error is the list of its reasons: a joined one has those of its
-- parts, a wrapped one follows what wraps it, and nil has none.
use forge_go.Prelude.{
  ◌≡◌, refl, ◌⊎◌, inl, inr, ℕ, Bool, true, false, ◌||◌, List, [], ◌∷◌, ◌++◌, Option, none, some,
  Bytes, equal, ◌==◌, ltb, if◌then◌else◌, length,
}
use forge_go.Atomic.Host.{
  File, Entry, regular, directory, link, World, Host, perm, fails_now, tick, set_temp, Lstat, found,
  absent, failed, lstat, open_file, parent_is_directory, parent_is_missing, create_temp,
  remove_temp,
}

pub data Reason : Type 0 where
  path_required unresolved duplicated parent_not_inspected parent_not_directory : Reason
  not_regular not_inspected snapshot_existing : Bytes → Reason
  not_opened no_stat changed_while_opened not_read too_large not_closed : Reason
  staging : Bytes → Reason
  no_temp not_copied mode_not_set not_synced : Reason
  changed not_verified not_inspected_again appeared committing : Bytes → Reason
  staging_restore restoring restoring_mode removing : Bytes → Reason
  directory_not_opened directory_not_synced directory_not_closed : Bytes → Reason

-- A result with an error, which has reasons.
pub data Attempt {ℓ} (A : Type ℓ) : Type ℓ where
  did : A → Attempt A
  gave_up : Reason → List Reason → Attempt A

pub Attempt-cases {ℓ} :
    {A : Type ℓ} (a : Attempt A)
    → ((reason : Reason) × (reasons : List Reason) × (a ≡ gave_up reason reasons))
      ⊎ ((x : A) × (a ≡ did x))
Attempt-cases (gave_up reason reasons) = inl (reason, reasons, refl)
Attempt-cases (did x) = inr (x, refl)

pub record Update : Type 0 where
  pub path : Bytes
  pub content : Bytes
  pub mode : ℕ

-- The file that existed, if any, is `original`; an empty name of the temporary file is `none`.
pub record Staged : Type 0 where
  pub update : Update
  pub temp : Option ℕ
  pub original : Option File
  pub committed : Bool

abbrev pub maximum_original : ℕ
maximum_original = 16777216

unfoldable pub is_among : Bytes → List Bytes → Bool
is_among path [] = false
is_among path (seen ∷ paths) = equal path seen || is_among path paths

abbrev pub parent_checked : Host → Bytes → World → Attempt Bytes × World
parent_checked h path w =
    if fails_now h w || parent_is_missing h path w
    then (gave_up parent_not_inspected [], tick w)
    else if parent_is_directory h path w
    then (did path, tick w)
    else (gave_up parent_not_directory [], tick w)

unfoldable pub resolved : Host → List Bytes → Option Bytes → World → Attempt Bytes × World
resolved h seen none w = (gave_up unresolved [], w)
resolved h seen (some path) w =
    if is_among path seen then (gave_up duplicated [], w) else parent_checked h path w

unfoldable pub validate_target : Host → Bytes → List Bytes → World → Attempt Bytes × World
unfolding resolved
validate_target h path seen w =
    if equal path [] then (gave_up path_required [], w) else resolved h seen (h.absolute path) w

-- `io.ReadAll` of the limited reader, and the size that it may have.
abbrev pub read_regular : Host → File → World → Attempt File × World
read_regular h file w =
    if fails_now h w
    then (gave_up not_read [], tick w)
    else if ltb maximum_original (length file.content)
    then (gave_up too_large [], tick w)
    else (did file, tick w)

-- The handle is the one of the file that `os.Lstat` has found.
unfoldable pub same_file : Host → File → Entry → World → Attempt File × World
same_file h expected (regular file) w =
    if expected.identity == file.identity
    then read_regular h file w
    else (gave_up changed_while_opened [], w)
same_file h expected directory w = (gave_up changed_while_opened [], w)
same_file h expected (link _) w = (gave_up changed_while_opened [], w)

unfoldable pub close_snapshot : Attempt File → Bool → Attempt File
close_snapshot (did file) false = did file
close_snapshot (did file) true = gave_up not_closed []
close_snapshot (gave_up reason reasons) false = gave_up reason reasons
close_snapshot (gave_up reason reasons) true = gave_up reason (reasons ++ not_closed ∷ [])

unfoldable pub read_snapshot : Host → File → Entry → World → Attempt File × World
unfolding same_file
read_snapshot h expected entry w =
    if fails_now h w then (gave_up no_stat [], tick w) else same_file h expected entry (tick w)

unfoldable pub opened_snapshot : Host → File → Option Entry × World → Attempt File × World
unfolding close_snapshot read_snapshot
opened_snapshot h expected (none, w) = (gave_up not_opened [], w)
opened_snapshot h expected (some entry, w) =
    let (result, u) = read_snapshot h expected entry w in
    (close_snapshot result (fails_now h u), tick u)

unfoldable pub snapshot : Host → Bytes → File → World → Attempt File × World
unfolding opened_snapshot
snapshot h path expected w = opened_snapshot h expected (open_file h path w)

-- The writes to the temporary file, and the first of them that fails.
abbrev pub fill : Host → ℕ → Bytes → ℕ → World → Option Reason × World
fill h temp content mode w =
    if fails_now h w
    then (some not_copied, tick w)
    else let u =
        set_temp temp (some (record { content = content; mode = 384; identity = temp })) (tick w) in
      if fails_now h u
      then (some mode_not_set, tick u)
      else let v =
          set_temp temp (some (record { content = content; mode = perm mode; identity = temp }))
            (tick u) in
        if fails_now h v then (some not_synced, tick v) else (none, tick v)

-- The deferred close of `stagePEMReader`, which removes the file of a failed staging.
unfoldable pub close_staged : Host → ℕ → Option Reason → Bool → World → Attempt ℕ × World
close_staged h temp none false w = (did temp, w)
close_staged h temp none true w = (gave_up not_closed [], remove_temp h temp w)
close_staged h temp (some reason) _ w = (gave_up reason [], remove_temp h temp w)

unfoldable pub created : Host → Bytes → ℕ → Option ℕ × World → Attempt ℕ × World
unfolding close_staged
created h content mode (none, w) = (gave_up no_temp [], w)
created h content mode (some temp, w) =
    let (problem, u) = fill h temp content mode w in
    close_staged h temp problem (fails_now h u) (tick u)

unfoldable pub stage_content : Host → Bytes → Bytes → ℕ → World → Attempt ℕ × World
unfolding created
stage_content h path content mode w = created h content mode (create_temp h path w)

unfoldable pub staged_content : Update → Option File → Attempt ℕ × World → Attempt Staged × World
staged_content u original (gave_up reason reasons, w) =
    (gave_up (staging u.path) (reason ∷ reasons), w)
staged_content u original (did temp, w) =
    (did (record { update = u; temp = some temp; original = original; committed = false }), w)

abbrev pub stage_over : Host → Update → Option File → World → Attempt Staged × World
stage_over h u original w = staged_content u original (stage_content h u.path u.content u.mode w)

unfoldable pub after_snapshot : Host → Update → Attempt File × World → Attempt Staged × World
unfolding staged_content
after_snapshot h u (gave_up reason reasons, w) =
    (gave_up (snapshot_existing u.path) (reason ∷ reasons), w)
after_snapshot h u (did file, w) = stage_over h u (some file) w

unfoldable pub inspected : Host → Update → Lstat × World → Attempt Staged × World
unfolding after_snapshot staged_content
inspected h u (found (regular file), w) = after_snapshot h u (snapshot h u.path file w)
inspected h u (found directory, w) = (gave_up (not_regular u.path) [], w)
inspected h u (found (link _), w) = (gave_up (not_regular u.path) [], w)
inspected h u (absent, w) = stage_over h u none w
inspected h u (failed, w) = (gave_up (not_inspected u.path) [], w)

unfoldable pub checked : Host → Update → Attempt Bytes × World → Attempt Staged × World
unfolding inspected
checked h u (gave_up reason reasons, w) = (gave_up reason reasons, w)
checked h u (did path, w) = inspected h (record u { path = path }) (lstat h path w)

-- The body of the loop that stages one update.
unfoldable pub stage_one : Host → Update → List Bytes → World → Attempt Staged × World
unfolding checked
stage_one h u seen w = checked h u (validate_target h u.path seen w)

abbrev pub discard : Host → Option ℕ → World → World
discard h none w = w
discard h (some temp) w = remove_temp h temp w

unfoldable pub clean_up : Host → List Staged → World → World
clean_up h [] w = w
clean_up h (f ∷ staged) w = clean_up h staged (discard h f.temp w)

-- The staging loop; a failure removes the temporary files of the updates before it.
unfoldable pub stage_all :
    Host → List Update → List Bytes → List Staged → World → Attempt (List Staged) × World
stage_all h [] seen staged w = (did staged, w)
stage_all h (u ∷ updates) seen staged w =
    let (outcome, v) = stage_one h u seen w in
    elim outcome [
      | gave_up reason reasons ↦ (gave_up reason reasons, clean_up h staged v)
      | did f ↦ stage_all h updates (f.update.path ∷ seen) (staged ++ f ∷ []) v
    ]
