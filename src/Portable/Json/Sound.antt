-- ===== src/Portable/Json/Sound.antt =====
-- share/portable/json.go: what the scanner accepts is the tokens of a value that fits.
use forge_go.Prelude.{
  ℕ, zero, suc, ◌+◌, ◌≡◌, ◌≢◌, refl, ap, ◌∙◌, arith, Bool, true, false, List, [], ◌∷◌, All, Bytes,
  ℤ, pos, lt_int, Bool-cases, inl, inr, if◌then◌else◌, equal_iff,
}
use forge_go.Portable.Json.{
  Token, open_object, close_object, open_array, close_array, scalar, text, Scan, done, failed,
  spent, ◌then◌, scan_value, scan_fields, scan_items, contains, more, close_object_at,
  close_array_at, malformed,
}
use forge_go.Portable.Json.Tree.{
  Value, Fields, Items, atom, string, object, array, end, field, nil, item, print, print_fields,
  print_items, Fits, FitsFields, FitsItems,
}

then-eq-done :
    (s : Scan) (f : List Token → Scan) {rest : List Token}
    → (s then f) ≡ done rest
    → (ts : List Token) × (s ≡ done ts) × (f ts ≡ done rest)
then-eq-done (done ts) f h = (ts, refl, h)
then-eq-done (failed e) f h = cc
then-eq-done spent f h = cc

if-eq-done :
    (b : Bool) (e s : Scan) {rest : List Token}
    → ((r : List Token) → e ≢ done r)
    → (if b then e else s) ≡ done rest
    → (b ≡ false) × (s ≡ done rest)
if-eq-done true e s {rest} ne h = absurd (ne rest h)
if-eq-done false e s ne h = (refl, h)

malformed-ne-done : (r : List Token) → malformed ≢ done r
malformed-ne-done r h = cc

fresh_of_contains :
    (seen : List Bytes) (k : Bytes) → contains seen k ≡ false → All (λ j. k ≢ j) seen
fresh_of_contains [] k h = tt
fresh_of_contains (j ∷ seen) k h = ground (arith, equal_iff j k, fresh_of_contains seen k)

close_object_at-eq-done :
    (ts : List Token) {rest : List Token}
    → close_object_at ts ≡ done rest
    → ts ≡ close_object ∷ rest
unfolding close_object_at
close_object_at-eq-done [] h = cc
close_object_at-eq-done (close_object ∷ ts) h = cc
close_object_at-eq-done (_ ∷ ts) h = cc

close_array_at-eq-done :
    (ts : List Token) {rest : List Token} → close_array_at ts ≡ done rest → ts ≡ close_array ∷ rest
unfolding close_array_at
close_array_at-eq-done [] h = cc
close_array_at-eq-done (close_array ∷ ts) h = cc
close_array_at-eq-done (_ ∷ ts) h = cc

module _ (max : ℤ) where
  abbrev IsValue : ℕ → List Token → List Token → Type 0
  IsValue depth ts rest = (v : Value) × (ts ≡ print v rest) × Fits max depth v

  abbrev AreFields : ℕ → List Bytes → List Token → List Token → Type 0
  AreFields depth seen ts rest =
      (fs : Fields) × (ts ≡ print_fields fs (close_object ∷ rest)) × FitsFields max depth seen fs

  abbrev AreItems : ℕ → List Token → List Token → Type 0
  AreItems depth ts rest =
      (xs : Items) × (ts ≡ print_items xs (close_array ∷ rest)) × FitsItems max depth xs

  mutual
    unfolding scan_value scan_fields scan_items more

    IsValue-sound :
        (f depth : ℕ) (ts rest : List Token)
        → scan_value f max depth ts ≡ done rest
        → IsValue depth ts rest
    IsValue-sound zero depth ts rest h = cc
    IsValue-sound (suc f) depth [] rest h =
        absurd (malformed-ne-done rest (if-eq-done _ _ _ malformed-ne-done h).1)
    IsValue-sound (suc f) depth (open_object ∷ ts) rest h =
        let (fit, inner) =
          if-eq-done (lt_int max (pos depth)) _ (scan_fields f max depth [] ts) malformed-ne-done
            h in
        let (fs, e, fits) = fields_sound f depth [] ts rest inner in
        (object fs, ap (◌∷◌ open_object) e, (fit, fits))
    IsValue-sound (suc f) depth (open_array ∷ ts) rest h =
        let (fit, inner) =
          if-eq-done (lt_int max (pos depth)) _ (scan_items f max depth ts) malformed-ne-done h in
        let (xs, e, fits) = items_sound f depth ts rest inner in
        (array xs, ap (◌∷◌ open_array) e, (fit, fits))
    IsValue-sound (suc f) depth (scalar ∷ ts) rest h =
        let (fit, inner) = if-eq-done (lt_int max (pos depth)) _ (done ts) malformed-ne-done h in
        (atom, cc, fit)
    IsValue-sound (suc f) depth (text s ∷ ts) rest h =
        let (fit, inner) = if-eq-done (lt_int max (pos depth)) _ (done ts) malformed-ne-done h in
        (string s, cc, fit)
    IsValue-sound (suc f) depth (_ ∷ ts) rest h =
        absurd (malformed-ne-done rest (if-eq-done _ _ _ malformed-ne-done h).1)

    fields_sound :
        (f depth : ℕ) (seen : List Bytes) (ts rest : List Token)
        → scan_fields f max depth seen ts ≡ done rest
        → AreFields depth seen ts rest
    fields_sound zero depth seen ts rest h = cc
    fields_sound (suc f) depth seen [] rest h = (end, close_object_at-eq-done [] h, tt)
    fields_sound (suc f) depth seen (text k ∷ ts) rest h =
        let (new, inner) =
          if-eq-done (contains seen k) _
            (scan_value f max (depth + 1) ts then scan_fields f max depth (k ∷ seen)) (λ r e. cc)
            h in
        let (later, first, others) = then-eq-done (scan_value f max (depth + 1) ts) _ inner in
        let (v, ev, fv) = IsValue-sound f (depth + 1) ts later first in
        let (fs, es, ffs) = fields_sound f depth (k ∷ seen) later rest others in
        (
          field k v fs,
          ap (◌∷◌ (text k)) (ev ∙ ap (print v) es),
          (fresh_of_contains seen k new, (fv, ffs)),
        )
    fields_sound (suc f) depth seen (close_object ∷ ts) rest h =
        (end, close_object_at-eq-done (close_object ∷ ts) h, tt)
    fields_sound (suc f) depth seen (close_array ∷ ts) rest h =
        (end, close_object_at-eq-done (close_array ∷ ts) h, tt)
    fields_sound (suc f) depth seen (_ ∷ ts) rest h = cc

    items_sound :
        (f depth : ℕ) (ts rest : List Token)
        → scan_items f max depth ts ≡ done rest
        → AreItems depth ts rest
    items_sound zero depth ts rest h = cc
    items_sound (suc f) depth ts rest h = elim (Bool-cases (more ts)) [
      | inl going ↦
          let (later, first, others) =
            then-eq-done (scan_value f max (depth + 1) ts) (scan_items f max depth)
              (rw going at h) in
          let (v, ev, fv) = IsValue-sound f (depth + 1) ts later first in
          let (xs, es, fxs) = items_sound f depth later rest others in
          (item v xs, ev ∙ ap (print v) es, (fv, fxs))
      | inr stop ↦ (nil, close_array_at-eq-done ts (rw stop at h), tt)
    ]

pub scan_value_sound :
    (f depth : ℕ) (max : ℤ) (ts rest : List Token)
    → scan_value f max depth ts ≡ done rest
    → (v : Value) × (ts ≡ print v rest) × Fits max depth v
scan_value_sound f depth max = IsValue-sound max f depth
