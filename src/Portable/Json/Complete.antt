-- ===== src/Portable/Json/Complete.antt =====
-- share/portable/json.go: the scanner accepts the tokens of every value that fits.
use forge_go.Prelude.{
  ℕ, zero, suc, ◌+◌, ◌≤◌, ◌≡◌, ◌≢◌, refl, ap, ◌∙◌, arith, false, List, [], ◌∷◌, All, Bytes, ℤ,
  length, if◌then◌else◌, equal_iff,
}
use forge_go.Portable.Json.{
  Token, close_object, close_array, text, Scan, done, ◌then◌, scan_value, scan_fields, scan_items,
  contains, more, close_object_at, close_array_at,
}
use forge_go.Portable.Json.Tree.{
  Value, Fields, Items, atom, string, object, array, end, field, nil, item, print, print_fields,
  print_items, Fits, FitsFields, FitsItems,
}

-- The fuel that a value takes.
abbrev mutual
  need : Value → ℕ
  need atom = 1
  need (string s) = 1
  need (object fs) = suc (need_fields fs)
  need (array xs) = suc (need_items xs)

  need_fields : Fields → ℕ
  need_fields end = 1
  need_fields (field k v fs) = suc (need v + need_fields fs)

  need_items : Items → ℕ
  need_items nil = 1
  need_items (item v xs) = suc (need v + need_items xs)

mutual
  need-le :
      (v : Value) (rest : List Token)
      → suc (need v) + (length rest + length rest) ≤ length (print v rest) + length (print v rest)
  need-le atom rest = omega arith
  need-le (string s) rest = omega arith
  need-le (object fs) rest = omega (arith, need_fields-le fs (close_object ∷ rest))
  need-le (array xs) rest = omega (arith, need_items-le xs (close_array ∷ rest))

  need_fields-le :
      (fs : Fields) (rest : List Token)
      → need_fields fs + (length rest + length rest)
        ≤ suc (length (print_fields fs rest) + length (print_fields fs rest))
  need_fields-le end rest = omega arith
  need_fields-le (field k v fs) rest =
      omega (arith, need-le v (print_fields fs rest), need_fields-le fs rest)

  need_items-le :
      (xs : Items) (rest : List Token)
      → need_items xs + (length rest + length rest)
        ≤ suc (length (print_items xs rest) + length (print_items xs rest))
  need_items-le nil rest = omega arith
  need_items-le (item v xs) rest =
      omega (arith, need-le v (print_items xs rest), need_items-le xs rest)

module _ (max : ℤ) where
  scan_item :
      (v : Value) (f depth : ℕ) (rest : List Token)
      → scan_items (suc f) max depth (print v rest)
        ≡ (scan_value f max (depth + 1) (print v rest) then scan_items f max depth)
  unfolding scan_items more
  scan_item atom f depth rest = refl
  scan_item (string s) f depth rest = refl
  scan_item (object fs) f depth rest = refl
  scan_item (array xs) f depth rest = refl

  contains_fresh : (seen : List Bytes) (k : Bytes) → All (λ j. k ≢ j) seen → contains seen k ≡ false
  contains_fresh [] k h = refl
  contains_fresh (j ∷ seen) k h = ground (arith, equal_iff j k, contains_fresh seen k h.1)

  scan_field :
      (f depth : ℕ) (seen : List Bytes) (k : Bytes) (ts : List Token)
      → contains seen k ≡ false
      → scan_fields (suc f) max depth seen (text k ∷ ts)
        ≡ (scan_value f max (depth + 1) ts then scan_fields f max depth (k ∷ seen))
  unfolding scan_fields more
  scan_field f depth seen k ts h = rw h

  mutual
    unfolding scan_value scan_fields scan_items more close_object_at close_array_at

    value-done :
        (v : Value) (f depth : ℕ) (rest : List Token)
        → need v ≤ f
        → Fits max depth v
        → scan_value f max depth (print v rest) ≡ done rest
    value-done atom zero depth rest h fit = absurd (omega arith)
    value-done (string s) zero depth rest h fit = absurd (omega arith)
    value-done (object fs) zero depth rest h fit = absurd (omega arith)
    value-done (array xs) zero depth rest h fit = absurd (omega arith)
    value-done atom (suc f) depth rest h fit = rw fit
    value-done (string s) (suc f) depth rest h fit = rw fit
    value-done (object fs) (suc f) depth rest h fit =
        rw fit.0 (fields-done fs f depth [] rest (omega arith) fit.1)
    value-done (array xs) (suc f) depth rest h fit =
        rw fit.0 (items-done xs f depth rest (omega arith) fit.1)

    fields-done :
        (fs : Fields) (f depth : ℕ) (seen : List Bytes) (rest : List Token)
        → need_fields fs ≤ f
        → FitsFields max depth seen fs
        → scan_fields f max depth seen (print_fields fs (close_object ∷ rest)) ≡ done rest
    fields-done end zero depth seen rest h fit = absurd (omega arith)
    fields-done (field k v fs) zero depth seen rest h fit = absurd (omega arith)
    fields-done end (suc f) depth seen rest h fit = refl
    fields-done (field k v fs) (suc f) depth seen rest h fit =
        scan_field f depth seen k _ (contains_fresh seen k fit.0)
        ∙ ap (λ (s : Scan). s then scan_fields f max depth (k ∷ seen))
            (value-done v f (depth + 1) (print_fields fs (close_object ∷ rest)) (omega arith)
              fit.1.0)
        ∙ fields-done fs f depth (k ∷ seen) rest (omega arith) fit.1.1

    items-done :
        (xs : Items) (f depth : ℕ) (rest : List Token)
        → need_items xs ≤ f
        → FitsItems max depth xs
        → scan_items f max depth (print_items xs (close_array ∷ rest)) ≡ done rest
    items-done nil zero depth rest h fit = absurd (omega arith)
    items-done (item v xs) zero depth rest h fit = absurd (omega arith)
    items-done nil (suc f) depth rest h fit = refl
    items-done (item v xs) (suc f) depth rest h fit =
        scan_item v f depth (print_items xs (close_array ∷ rest))
        ∙ ap (λ (s : Scan). s then scan_items f max depth)
            (value-done v f (depth + 1) (print_items xs (close_array ∷ rest)) (omega arith) fit.0)
        ∙ items-done xs f depth rest (omega arith) fit.1

-- With fuel of twice the tokens and one, as `validateJSONStructure` is given here.
pub scan_value-print :
    (v : Value) (max : ℤ) (depth : ℕ) (rest : List Token)
    → Fits max depth v
    → scan_value (suc (length (print v rest) + length (print v rest))) max depth (print v rest)
      ≡ done rest
scan_value-print v max depth rest fit =
    value-done max v (suc (length (print v rest) + length (print v rest))) depth rest
      (omega (arith, need-le v rest)) fit
