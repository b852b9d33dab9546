-- ===== src/Prelude/Utf8.antt =====
-- The parts of Go's `unicode/utf8`, `unicode` and `strings` that the code uses, on byte lists:
-- decoding with the replacement rune for an invalid byte, encoding, the classes of runes, and
-- `strings.TrimSpace`.
pub mod RoundTrip
pub mod Trim
use Prim.Native.Nat.{ℕ, zero, suc, ◌+◌, ◌-◌, ◌*◌, ◌/◌, ◌%◌}
use mathlib.Core.Bool.{Bool, true, false, not, ◌&&◌, ◌||◌}
use mathlib.Core.List.{List, [], ◌∷◌, ◌++◌}
use forge_go.Prelude.Tests.{ltb, leb, ◌==◌, if◌then◌else◌}
use forge_go.Prelude.Strings.{Bytes}

abbrev pub within : ℕ → ℕ → ℕ → Bool
within lo hi b = leb lo b && leb b hi

-- One decoded rune: its value, the bytes it takes after the first, and whether it was valid.
pub record Decoded : Type 0 where
  pub rune : ℕ
  pub extra : ℕ
  pub good : Bool

abbrev pub bad : Decoded
bad = record { rune = 0xfffd; extra = 0; good = false }

abbrev second_ok : ℕ → ℕ → Bool
second_ok b c =
    if b == 0xe0
    then within 0xa0 0xbf c
    else if b == 0xed
    then within 0x80 0x9f c
    else if b == 0xf0
    then within 0x90 0xbf c
    else if b == 0xf4
    then within 0x80 0x8f c
    else within 0x80 0xbf c

abbrev two : ℕ → Bytes → Decoded
two b [] = bad
two b (c ∷ _) =
    if within 0x80 0xbf c
    then record { rune = (b - 0xc0) * 64 + (c - 0x80); extra = 1; good = true }
    else bad

abbrev three : ℕ → Bytes → Decoded
three b [] = bad
three b (c ∷ []) = bad
three b (c ∷ d ∷ _) =
    if second_ok b c && within 0x80 0xbf d
    then record { rune = (b - 0xe0) * 4096 + (c - 0x80) * 64 + (d - 0x80); extra = 2; good = true }
    else bad

abbrev four : ℕ → Bytes → Decoded
four b [] = bad
four b (c ∷ []) = bad
four b (c ∷ d ∷ []) = bad
four b (c ∷ d ∷ e ∷ _) =
    if second_ok b c && within 0x80 0xbf d && within 0x80 0xbf e
    then record {
      rune = (b - 0xf0) * 262144 + (c - 0x80) * 4096 + (d - 0x80) * 64 + (e - 0x80);
      extra = 3;
      good = true;
    }
    else bad

-- `utf8.DecodeRune` on the bytes `b ∷ bs`.
unfoldable pub decode : ℕ → Bytes → Decoded
decode b bs =
    if ltb b 0x80
    then record { rune = b; extra = 0; good = true }
    else if within 0xc2 0xdf b
    then two b bs
    else if within 0xe0 0xef b
    then three b bs
    else if within 0xf0 0xf4 b
    then four b bs
    else bad

-- `for _, r := range s`; the number counts the bytes of the current rune still to be skipped.
unfoldable pub runes_from : ℕ → Bytes → List ℕ
runes_from k [] = []
runes_from (suc k) (b ∷ bs) = runes_from k bs
runes_from zero (b ∷ bs) = (decode b bs).rune ∷ runes_from (decode b bs).extra bs

abbrev pub runes : Bytes → List ℕ
runes = runes_from 0

-- `utf8.Valid`
unfoldable pub valid_from : ℕ → Bytes → Bool
valid_from k [] = true
valid_from (suc k) (b ∷ bs) = valid_from k bs
valid_from zero (b ∷ bs) = (decode b bs).good && valid_from (decode b bs).extra bs

abbrev pub valid : Bytes → Bool
valid = valid_from 0

abbrev pub is_scalar : ℕ → Bool
is_scalar r = ltb r 0xd800 || (ltb 0xdfff r && ltb r 0x110000)

-- `utf8.AppendRune`, which is `strings.Builder.WriteRune`.
pub encode_rune : ℕ → Bytes
encode_rune r =
    if ltb r 0x80
    then r ∷ []
    else if ltb r 0x800
    then (0xc0 + r / 64) ∷ (0x80 + r % 64) ∷ []
    else if not (is_scalar r)
    then 0xef ∷ 0xbf ∷ 0xbd ∷ []
    else if ltb r 0x10000
    then (0xe0 + r / 4096) ∷ (0x80 + (r / 64) % 64) ∷ (0x80 + r % 64) ∷ []
    else (0xf0 + r / 262144)
      ∷ (0x80 + (r / 4096) % 64)
      ∷ (0x80 + (r / 64) % 64)
      ∷ (0x80 + r % 64)
      ∷ []

unfoldable pub encode : List ℕ → Bytes
encode [] = []
encode (r ∷ rs) = encode_rune r ++ encode rs

-- `unicode.IsSpace`
unfoldable pub is_space : ℕ → Bool
is_space r =
    within 0x09 0x0d r
    || r == 0x20
    || r == 0x85
    || r == 0xa0
    || r == 0x1680
    || within 0x2000 0x200a r
    || within 0x2028 0x2029 r
    || r == 0x202f
    || r == 0x205f
    || r == 0x3000

-- `unicode.IsControl`
unfoldable pub is_control : ℕ → Bool
is_control r = ltb r 0x20 || within 0x7f 0x9f r
