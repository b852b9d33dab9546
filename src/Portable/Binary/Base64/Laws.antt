-- ===== src/Portable/Binary/Base64/Laws.antt =====
-- The Base64 decoder reads back what the encoder writes.
use forge_go.Prelude.{
  ℕ, ◌+◌, ◌*◌, ◌/◌, ◌%◌, ◌<◌, ◌≡◌, ◌≢◌, refl, Bool, true, false, [], ◌∷◌, Option, none, some, arith,
  length, All, Bytes,
}
use forge_go.Portable.Binary.Base64.{
  digit, value_of, encode, without_breaks, padded, combine, groups, decode_strict, decode_std,
}

value_of-digit : (v : ℕ) → v < 64 → value_of (digit v) ≡ some v
unfolding value_of digit
value_of-digit v h = ground arith

value_of-padding : value_of b'=' ≡ none
unfolding value_of
value_of-padding = refl

groups-encode :
    (strict : Bool) (s : Bytes) → All (λ b. b < 256) s → groups strict (encode s) ≡ some s
unfolding groups encode combine padded
groups-encode strict [] h = refl
groups-encode strict (a ∷ []) h =
    ground (arith, value_of-padding, value_of-digit (a / 4), value_of-digit (a % 4 * 16))
groups-encode strict (a ∷ b ∷ []) h = ground (
  arith,
  value_of-padding,
  value_of-digit (a / 4),
  value_of-digit (a % 4 * 16 + b / 16),
  value_of-digit (b % 16 * 4),
)
groups-encode strict (a ∷ b ∷ c ∷ s) h = ground (
  arith,
  groups-encode strict s h.1.1.1,
  value_of-digit (a / 4),
  value_of-digit (a % 4 * 16 + b / 16),
  value_of-digit (b % 16 * 4 + c / 64),
  value_of-digit (c % 64),
)

-- A character that is no line break.
abbrev Solid : ℕ → Type 0
Solid c = (c ≢ b'\n') × (c ≢ b'\r')

digit-Solid : (v : ℕ) → v < 64 → Solid (digit v)
unfolding digit
digit-Solid v h = ground arith

encode-Solid : (s : Bytes) → All (λ b. b < 256) s → All Solid (encode s)
unfolding encode
encode-Solid [] h = tt
encode-Solid (a ∷ []) h =
    (digit-Solid (a / 4) (omega arith), (digit-Solid (a % 4 * 16) (omega arith), omega arith))
encode-Solid (a ∷ b ∷ []) h = (
  digit-Solid (a / 4) (omega arith),
  (
    digit-Solid (a % 4 * 16 + b / 16) (omega arith),
    (digit-Solid (b % 16 * 4) (omega arith), omega arith),
  ),
)
encode-Solid (a ∷ b ∷ c ∷ s) h = (
  digit-Solid (a / 4) (omega arith),
  (
    digit-Solid (a % 4 * 16 + b / 16) (omega arith),
    (
      digit-Solid (b % 16 * 4 + c / 64) (omega arith),
      (digit-Solid (c % 64) (omega arith), encode-Solid s h.1.1.1),
    ),
  ),
)

without_breaks_id : (s : Bytes) → All Solid s → without_breaks s ≡ s
unfolding without_breaks
without_breaks_id [] h = refl
without_breaks_id (c ∷ s) h = ground (arith, without_breaks_id s h.1)

pub decode_strict-encode : (s : Bytes) → All (λ b. b < 256) s → decode_strict (encode s) ≡ some s
unfolding decode_strict
decode_strict-encode s h =
    rw (without_breaks_id (encode s) (encode-Solid s h)) (groups-encode true s h)

pub decode_std-encode : (s : Bytes) → All (λ b. b < 256) s → decode_std (encode s) ≡ some s
unfolding decode_std
decode_std-encode s h =
    rw (without_breaks_id (encode s) (encode-Solid s h)) (groups-encode false s h)

pub length-encode : (s : Bytes) → length (encode s) ≡ (length s + 2) / 3 * 4
unfolding encode
length-encode [] = omega arith
length-encode (a ∷ []) = omega arith
length-encode (a ∷ b ∷ []) = omega arith
length-encode (a ∷ b ∷ c ∷ s) = omega (arith, length-encode s)

abbrev SmallOr : Option ℕ → Type 0
SmallOr none = Unit
SmallOr (some v) = v < 64

value_of-small : (c : ℕ) → SmallOr (value_of c)
unfolding value_of
value_of-small c = ground arith

abbrev BytesOr : Option Bytes → Type 0
BytesOr none = Unit
BytesOr (some s) = All (λ b. b < 256) s

padded-bytes :
    (strict : Bool) (p q r s : ℕ) (rest : Bytes)
    → p < 64
    → q < 64
    → BytesOr (padded strict p q r s rest)
unfolding padded
padded-bytes strict p q r s [] h k = ground (arith, value_of-small r)
padded-bytes strict p q r s (_ ∷ _) h k = tt

combine-bytes :
    (strict : Bool) (r s : ℕ) (rest : Bytes) (later : Option Bytes) (a b u v : Option ℕ)
    → BytesOr later
    → SmallOr a
    → SmallOr b
    → SmallOr u
    → SmallOr v
    → BytesOr (combine strict r s rest later a b u v)
unfolding combine
combine-bytes strict r s rest later none _ _ _ h x y z w = tt
combine-bytes strict r s rest later (some p) none _ _ h x y z w = tt
combine-bytes strict r s rest later (some p) (some q) none _ h x y z w =
    padded-bytes strict p q r s rest x y
combine-bytes strict r s rest later (some p) (some q) (some u) none h x y z w = tt
combine-bytes strict r s rest none (some p) (some q) (some u) (some v) h x y z w = tt
combine-bytes strict r s rest (some l) (some p) (some q) (some u) (some v) h x y z w =
    (omega arith, (omega arith, (omega arith, h)))

groups-bytes : (strict : Bool) (s : Bytes) → BytesOr (groups strict s)
unfolding groups
groups-bytes strict [] = tt
groups-bytes strict (a ∷ []) = tt
groups-bytes strict (a ∷ b ∷ []) = tt
groups-bytes strict (a ∷ b ∷ c ∷ []) = tt
groups-bytes strict (a ∷ b ∷ c ∷ d ∷ s) =
    combine-bytes strict c d s (groups strict s) (value_of a) (value_of b) (value_of d) (value_of c)
      (groups-bytes strict s) (value_of-small a) (value_of-small b) (value_of-small d)
      (value_of-small c)

-- Whatever the decoder returns is a list of bytes.
pub decode_strict-bytes : (s v : Bytes) → decode_strict s ≡ some v → All (λ b. b < 256) v
unfolding decode_strict
decode_strict-bytes s v h = rw h at (groups-bytes true (without_breaks s))
