-- ===== src/Portable/Json/Total.antt =====
-- share/portable/json.go: the scanner always answers, and uses up tokens.
use forge_go.Prelude.{
  ℕ, zero, suc, ◌+◌, ◌<◌, ◌≤◌, arith, Bool, true, false, List, [], ◌∷◌, Bytes, ℤ, pos, lt_int,
  length, if◌then◌else◌,
}
use forge_go.Portable.Json.{
  Token, open_object, close_object, open_array, close_array, scalar, text, Scan, done, failed,
  spent, ◌then◌, scan_value, scan_fields, scan_items, contains, more, close_object_at,
  close_array_at,
}

-- An answer that leaves fewer than `n` tokens.
abbrev pub Answers : ℕ → Scan → Type 0
Answers n (done rest) = length rest < n
Answers n (failed e) = Unit
Answers n spent = ⊥

then-Answers :
    (m n : ℕ) (s : Scan) (f : List Token → Scan)
    → Answers m s
    → ((rest : List Token) → length rest < m → Answers n (f rest))
    → Answers n (s then f)
then-Answers m n (done rest) f h k = k rest h
then-Answers m n (failed e) f h k = tt
then-Answers m n spent f h k = h

Answers-mono : (m n : ℕ) (s : Scan) → m ≤ n → Answers m s → Answers n s
Answers-mono m n (done rest) h k = omega arith
Answers-mono m n (failed e) h k = tt
Answers-mono m n spent h k = k

if-Answers :
    (n : ℕ) (b : Bool) (s t : Scan) → Answers n s → Answers n t → Answers n (if b then s else t)
if-Answers n true s t h k = h
if-Answers n false s t h k = k

close_object_at-Answers : (ts : List Token) → Answers (length ts) (close_object_at ts)
unfolding close_object_at
close_object_at-Answers [] = tt
close_object_at-Answers (close_object ∷ ts) = omega arith
close_object_at-Answers (_ ∷ ts) = tt

close_array_at-Answers : (ts : List Token) → Answers (length ts) (close_array_at ts)
unfolding close_array_at
close_array_at-Answers [] = tt
close_array_at-Answers (close_array ∷ ts) = omega arith
close_array_at-Answers (_ ∷ ts) = tt

module _ (max : ℤ) where
  mutual
    unfolding scan_value scan_fields scan_items

    value-Answers :
        (f depth : ℕ) (ts : List Token)
        → length ts + length ts < f
        → Answers (length ts) (scan_value f max depth ts)
    value-Answers zero depth ts h = absurd (omega arith)
    value-Answers (suc f) depth [] h = if-Answers _ (lt_int max (pos depth)) _ _ tt tt
    value-Answers (suc f) depth (open_object ∷ ts) h =
        if-Answers _ (lt_int max (pos depth)) _ _ tt (
          Answers-mono (length ts) _ (scan_fields f max depth [] ts) (omega arith)
            (fields-Answers f depth [] ts (omega arith)))
    value-Answers (suc f) depth (open_array ∷ ts) h = if-Answers _ (lt_int max (pos depth)) _ _ tt (
        Answers-mono (length ts) _ (scan_items f max depth ts) (omega arith)
          (items-Answers f depth ts (omega arith)))
    value-Answers (suc f) depth (scalar ∷ ts) h =
        if-Answers (suc (length ts)) (lt_int max (pos depth)) _ (done ts) tt (omega arith)
    value-Answers (suc f) depth (text _ ∷ ts) h =
        if-Answers (suc (length ts)) (lt_int max (pos depth)) _ (done ts) tt (omega arith)
    value-Answers (suc f) depth (_ ∷ ts) h = if-Answers _ (lt_int max (pos depth)) _ _ tt tt

    fields-Answers :
        (f depth : ℕ) (seen : List Bytes) (ts : List Token)
        → length ts + length ts < f
        → Answers (length ts) (scan_fields f max depth seen ts)
    fields-Answers zero depth seen ts h = absurd (omega arith)
    fields-Answers (suc f) depth seen [] h =
        if-Answers _ (more []) _ _ tt (close_object_at-Answers [])
    fields-Answers (suc f) depth seen (text key ∷ ts) h =
        if-Answers _ (more (text key ∷ ts)) _ _
          (if-Answers _ (contains seen key) _ _ tt (
            then-Answers (length ts) _ (scan_value f max (depth + 1) ts)
              (scan_fields f max depth (key ∷ seen)) (value-Answers f (depth + 1) ts (omega arith))
              (λ rest k.
                Answers-mono (length rest) _ (scan_fields f max depth (key ∷ seen) rest)
                  (omega arith) (fields-Answers f depth (key ∷ seen) rest (omega arith)))))
          (close_object_at-Answers (text key ∷ ts))
    fields-Answers (suc f) depth seen (t ∷ ts) h =
        if-Answers _ (more (t ∷ ts)) _ _ tt (close_object_at-Answers (t ∷ ts))

    items-Answers :
        (f depth : ℕ) (ts : List Token)
        → length ts + length ts + 1 < f
        → Answers (length ts) (scan_items f max depth ts)
    items-Answers zero depth ts h = absurd (omega arith)
    items-Answers (suc f) depth ts h =
        if-Answers _ (more ts) _ _
          (then-Answers (length ts) _ (scan_value f max (depth + 1) ts) (scan_items f max depth)
            (value-Answers f (depth + 1) ts (omega arith))
            (λ rest k.
              Answers-mono (length rest) _ (scan_items f max depth rest) (omega arith)
                (items-Answers f depth rest (omega arith))))
          (close_array_at-Answers ts)

-- Fuel of twice the tokens and one is enough: the scanner answers, and a value takes a token.
pub scan_value-Answers :
    (f depth : ℕ) (max : ℤ) (ts : List Token)
    → length ts + length ts < f
    → Answers (length ts) (scan_value f max depth ts)
scan_value-Answers f depth max ts h = value-Answers max f depth ts h
