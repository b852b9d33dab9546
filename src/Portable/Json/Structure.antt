-- ===== src/Portable/Json/Structure.antt =====
-- share/portable/json.go: which documents `validateJSONStructure` accepts, and that it always answers.
use forge_go.Prelude.{ℕ, ◌<◌, ◌≡◌, ◌≢◌, ◌↔◌, refl, ap, arith, List, [], ◌∷◌, ℤ, length}
use forge_go.Portable.Errors.{ok}
use forge_go.Portable.Json.{
  Token, Scan, done, failed, spent, scan_value, enough, finish, validate_json_structure,
}
use forge_go.Portable.Json.Tree.{Value, print, Fits}
use forge_go.Portable.Json.Total.{Answers, scan_value-Answers}
use forge_go.Portable.Json.Complete.{scan_value-print}
use forge_go.Portable.Json.Sound.{scan_value_sound}

finish-eq-ok : (s : Scan) → finish s ≡ ok tt → s ≡ done []
finish-eq-ok (done []) h = refl
finish-eq-ok (done (_ ∷ _)) h = cc
finish-eq-ok (failed e) h = cc
finish-eq-ok spent h = cc

-- A document passes exactly when its tokens are those of one JSON value, with nothing behind it, in
-- which no value lies deeper than the limit and no object repeats a key.
pub validate_json_structure_iff :
    (ts : List Token) (max : ℤ)
    → (validate_json_structure ts max ≡ ok tt) ↔ ((v : Value) × (ts ≡ print v []) × Fits max 1 v)
validate_json_structure_iff ts max = (accepted, λ p. complete p.0 p.1 p.2)
  where
    accepted :
        validate_json_structure ts max ≡ ok tt → (v : Value) × (ts ≡ print v []) × Fits max 1 v
    accepted h =
        unfold validate_json_structure in
        scan_value_sound (enough ts) 1 max ts [] (finish-eq-ok _ h)

    complete : (v : Value) → ts ≡ print v [] → Fits max 1 v → validate_json_structure ts max ≡ ok tt
    complete v e fit =
        unfold validate_json_structure in rw e (ap finish (scan_value-print v max 1 [] fit))

not-Answers-spent : (n : ℕ) (s : Scan) → Answers n s → s ≢ spent
not-Answers-spent n (done _) h e = cc
not-Answers-spent n (failed _) h e = cc
not-Answers-spent n spent h e = h

-- The recursion ends by itself: with the fuel that `validate_json_structure` gives it, the scanner
-- never runs out, whatever the tokens; and a scan that succeeds has used up at least one token.
pub scan_value_terminates :
    (ts : List Token) (max : ℤ) (depth : ℕ)
    → (scan_value (enough ts) max depth ts ≢ spent)
      × ((rest : List Token)
          → scan_value (enough ts) max depth ts ≡ done rest
          → length rest < length ts)
scan_value_terminates ts max depth = (not-Answers-spent _ _ answers, λ rest e. rw e at answers)
  where
    answers : Answers (length ts) (scan_value (enough ts) max depth ts)
    answers = scan_value-Answers (enough ts) depth max ts (omega arith)
