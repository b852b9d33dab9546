-- ===== src/Atomic/Batch.antt =====
-- A batch that is staged has one staged file for each update, in the order of the updates.
use mathlib.Core.Path.{subst}
use forge_go.Prelude.{
  ◌≡◌, refl, sym, ◌∙◌, ap, inl, inr, arith, false, ◌||◌, Bytes, List, [], ◌∷◌, ◌++◌, Option, none,
  some, equal, Bool-cases, All, All-append,
}
use forge_go.Atomic.Host.{
  World, Host, lstat, fails_now, tick, parent_is_directory, parent_is_missing,
}
use forge_go.Atomic.Stage.{
  Attempt, Attempt-cases, did, gave_up, Update, Staged, is_among, resolved, validate_target,
  checked, stage_one, stage_all,
}
use forge_go.Atomic.Keeps.{stored, validate_target-Reads}
use forge_go.Atomic.Staged.{
  Grows, Holds, Held, Grows-Holds, IsStagedAs, inspected-IsStagedAs, Reads-IsStagedAs,
}
use forge_go.Atomic.View.{View, put_view, visible_file, put_all}

-- The cleaned path of a valid target, which is a new one.
abbrev IsCleaned : Host → Bytes → List Bytes → Attempt Bytes → Type 0
IsCleaned h path seen (gave_up _ _) = Unit
IsCleaned h path seen (did clean) = (h.absolute path ≡ some clean) × (is_among clean seen ≡ false)

resolved-IsCleaned :
    (h : Host) (path : Bytes) (seen : List Bytes) (clean : Option Bytes) (w : World)
    → h.absolute path ≡ clean
    → IsCleaned h path seen (resolved h seen clean w).0
unfolding resolved
resolved-IsCleaned h path seen none w e = tt
resolved-IsCleaned h path seen (some clean) w e = elim (Bool-cases (is_among clean seen)) [
  | inl known ↦ rw known tt
  | inr new ↦ rw new (elim (Bool-cases (fails_now h w || parent_is_missing h clean w)) [
    | inl fails ↦ rw fails tt
    | inr works ↦ rw works (elim (Bool-cases (parent_is_directory h clean w)) [
      | inl here ↦ rw here (e, new)
      | inr away ↦ rw away tt
    ])
  ])
]

validate_target-IsCleaned :
    (h : Host) (path : Bytes) (seen : List Bytes) (w : World)
    → IsCleaned h path seen (validate_target h path seen w).0
unfolding validate_target
validate_target-IsCleaned h path seen w = elim (Bool-cases (equal path [])) [
  | inl empty ↦ rw empty tt
  | inr present ↦ rw present (resolved-IsCleaned h path seen _ w refl)
]

-- The outcome of staging one update.
abbrev pub IsOne : Host → Update → List Bytes → World → Attempt Staged × World → Type 0
IsOne h u seen w (gave_up _ _, v) = Unit
IsOne h u seen w (did f, v) =
    (h.absolute u.path ≡ some f.update.path)
    × (is_among f.update.path seen ≡ false)
    × (f.update ≡ record u { path = f.update.path })
    × Held v f
    × Grows w v

IsStagedAs-IsOne :
    (h : Host) (u : Update) (seen : List Bytes) (clean : Bytes) (w : World)
    (result : Attempt Staged × World)
    → IsCleaned h u.path seen (did clean)
    → IsStagedAs (record u { path = clean }) w result
    → IsOne h u seen w result
IsStagedAs-IsOne h u seen clean w (gave_up _ _, v) cleaned staged = tt
IsStagedAs-IsOne h u seen clean w (did f, v) (path, new) (e, holds, grows) =
    let same : f.update.path ≡ clean = ap (λ x. x.path) e in
    (
      path ∙ ap some (sym same),
      rw same new,
      e ∙ ap (λ c. record u { path = c }) (sym same),
      subst (λ x. Holds x f.temp v) (sym e) holds,
      grows,
    )

checked-IsOne :
    (h : Host) (u : Update) (seen : List Bytes) (result : Attempt Bytes × World)
    → IsCleaned h u.path seen result.0
    → IsOne h u seen result.1 (checked h u result)
unfolding checked lstat
checked-IsOne h u seen (gave_up reason reasons, w) cleaned = tt
checked-IsOne h u seen (did path, w) cleaned =
    IsStagedAs-IsOne h u seen path w _ cleaned
      (Reads-IsStagedAs _ w (tick w) _ refl (inspected-IsStagedAs h _ (lstat h path w)))

Reads-IsOne :
    (h : Host) (u : Update) (seen : List Bytes) (w v : World) (result : Attempt Staged × World)
    → stored v ≡ stored w
    → IsOne h u seen v result
    → IsOne h u seen w result
Reads-IsOne h u seen w v (gave_up _ _, x) same one = tt
Reads-IsOne h u seen w v (did f, x) same (path, new, e, holds, grows) =
    let next : v.next ≡ w.next = ap (λ s. s.2) same in
    (
      path,
      new,
      e,
      holds,
      (omega (arith, grows.0), λ t small. grows.1 t (omega arith) ∙ ap (λ s. s.1 t) same),
    )

pub stage_one-IsOne :
    (h : Host) (u : Update) (seen : List Bytes) (w : World)
    → IsOne h u seen w (stage_one h u seen w)
unfolding stage_one
stage_one-IsOne h u seen w =
    Reads-IsOne h u seen w (validate_target h u.path seen w).1 _
      (validate_target-Reads h u.path seen w)
      (checked-IsOne h u seen _ (validate_target-IsCleaned h u.path seen w))

-- The commits of staged files, one after the other, as a reader sees them.
unfoldable pub put_staged : List Staged → View → View
put_staged [] v = v
put_staged (f ∷ staged) v =
    put_staged staged
      (put_view f.update.path (some (visible_file f.update.content f.update.mode)) v)

put_staged-append :
    (staged rest : List Staged) (v : View)
    → put_staged (staged ++ rest) v ≡ put_staged rest (put_staged staged v)
unfolding put_staged
put_staged-append [] rest v = refl
put_staged-append (f ∷ staged) rest v = put_staged-append staged rest _

-- The outcome of staging a batch after the files that are staged already.
abbrev pub IsBatch : Host → List Update → List Staged → Attempt (List Staged) × World → Type 0
IsBatch h updates staged (gave_up _ _, v) = Unit
IsBatch h updates staged (did all, v) =
    All (Held v) all
    × ((view : View) → put_staged all view ≡ put_all h updates (put_staged staged view))

pub Grows-All :
    (staged : List Staged) (w v : World) → Grows w v → All (Held w) staged → All (Held v) staged
Grows-All [] w v grows held = tt
Grows-All (f ∷ staged) w v grows held =
    (Grows-Holds f.update f.temp w v grows held.0, Grows-All staged w v grows held.1)

IsBatch-step :
    (h : Host) (u : Update) (updates : List Update) (staged : List Staged) (f : Staged)
    (result : Attempt (List Staged) × World)
    → h.absolute u.path ≡ some f.update.path
    → f.update ≡ record u { path = f.update.path }
    → IsBatch h updates (staged ++ f ∷ []) result
    → IsBatch h (u ∷ updates) staged result
unfolding put_all put_staged
IsBatch-step h u updates staged f (gave_up _ _, v) path e batch = tt
IsBatch-step h u updates staged f (did all, v) path e (held, puts) = (
  held,
  λ view. rw path (
      puts view
      ∙ ap (put_all h updates) (
          put_staged-append staged (f ∷ []) view
          ∙ ap
              (λ x.
                put_view f.update.path (some (visible_file x.content x.mode))
                  (put_staged staged view))
              e)),
)

pub stage_all-IsBatch :
    (h : Host) (updates : List Update) (seen : List Bytes) (staged : List Staged) (w : World)
    → All (Held w) staged
    → IsBatch h updates staged (stage_all h updates seen staged w)
unfolding stage_all put_all
stage_all-IsBatch h [] seen staged w held = (held, λ view. refl)
stage_all-IsBatch h (u ∷ updates) seen staged w held =
    let v = (stage_one h u seen w).1 in
    let one = stage_one-IsOne h u seen w in
    let after : (f : Staged)
        → IsOne h u seen w (did f, v)
        → IsBatch h (u ∷ updates) staged
            (stage_all h updates (f.update.path ∷ seen) (staged ++ f ∷ []) v) =
      λ f p. IsBatch-step h u updates staged f _ p.0 p.2 (
        stage_all-IsBatch h updates (f.update.path ∷ seen) (staged ++ f ∷ []) v
          (All-append (Held v) staged (f ∷ []) (Grows-All staged w v p.4 held) (p.3, tt))) in
    elim (Attempt-cases (stage_one h u seen w).0) [
      | inl (reason, reasons, e) ↦ rw (stage_all, e) tt
      | inr (f, e) ↦
          rw (stage_all, e)
            (after f (subst (λ o. IsOne h u seen w (o, (stage_one h u seen w).1)) e one))
    ]
