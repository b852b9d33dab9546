-- ===== src/Portable/Binary/Base64.antt =====
-- Go's `base64.StdEncoding` on byte lists, as share/portable/binary.go uses it: the encoder, and
-- the strict decoder, which skips line breaks and wants the unused bits of the last group clear.
pub mod Laws
use forge_go.Prelude.{
  ℕ, ◌+◌, ◌-◌, ◌*◌, ◌/◌, ◌%◌, Bool, true, false, not, ◌&&◌, ◌||◌, List, [], ◌∷◌, ◌++◌, Option, none,
  some, ltb, ◌==◌, if◌then◌else◌, Bytes,
}
use forge_go.Prelude.Utf8.{within}

pub digit : ℕ → ℕ
digit v =
    if ltb v 26
    then b'A' + v
    else if ltb v 52
    then b'a' + (v - 26)
    else if ltb v 62
    then b'0' + (v - 52)
    else if v == 62
    then b'+'
    else b'/'

pub value_of : ℕ → Option ℕ
value_of c =
    if within b'A' b'Z' c
    then some (c - b'A')
    else if within b'a' b'z' c
    then some (c - b'a' + 26)
    else if within b'0' b'9' c
    then some (c - b'0' + 52)
    else if c == b'+'
    then some 62
    else if c == b'/'
    then some 63
    else none

unfoldable pub encode : Bytes → Bytes
encode [] = []
encode (a ∷ []) = digit (a / 4) ∷ digit (a % 4 * 16) ∷ b'=' ∷ b'=' ∷ []
encode (a ∷ b ∷ []) = digit (a / 4) ∷ digit (a % 4 * 16 + b / 16) ∷ digit (b % 16 * 4) ∷ b'=' ∷ []
encode (a ∷ b ∷ c ∷ rest) =
    digit (a / 4)
    ∷ digit (a % 4 * 16 + b / 16)
    ∷ digit (b % 16 * 4 + c / 64)
    ∷ digit (c % 64)
    ∷ encode rest

pub without_breaks : Bytes → Bytes
without_breaks [] = []
without_breaks (c ∷ cs) =
    let rest = without_breaks cs in if c == b'\n' || c == b'\r' then rest else c ∷ rest

abbrev cons₃ : ℕ → ℕ → ℕ → Option Bytes → Option Bytes
cons₃ a b c none = none
cons₃ a b c (some s) = some (a ∷ b ∷ c ∷ s)

-- Two values and padding: one byte, if the four unused bits are clear or nobody asks.
abbrev last_one : Bool → ℕ → ℕ → Option Bytes
last_one strict p q = if not strict || q % 16 == 0 then some ((p * 4 + q / 16) ∷ []) else none

-- Three values and padding: two bytes, if the two unused bits are clear or nobody asks.
abbrev last_two : Bool → ℕ → ℕ → ℕ → Option Bytes
last_two strict p q r =
    if not strict || r % 4 == 0 then some ((p * 4 + q / 16) ∷ (q % 16 * 16 + r / 4) ∷ []) else none

-- The third place of a group with no fourth value: `=` there wants `=` behind it.
pub padded : Bool → ℕ → ℕ → ℕ → ℕ → Bytes → Option Bytes
padded strict p q r s [] =
    if s == b'='
    then if r == b'='
      then last_one strict p q
      else elim (value_of r) [ none ↦ none | some w ↦ last_two strict p q w ]
    else none
padded strict p q r s (_ ∷ _) = none

-- The values of the first, the second, the fourth and the third character of a group.
pub combine :
    Bool → ℕ → ℕ → Bytes → Option Bytes → Option ℕ → Option ℕ → Option ℕ → Option ℕ → Option Bytes
combine strict r s rest later none _ _ _ = none
combine strict r s rest later (some p) none _ _ = none
combine strict r s rest later (some p) (some q) none _ = padded strict p q r s rest
combine strict r s rest later (some p) (some q) (some v) none = none
combine strict r s rest later (some p) (some q) (some v) (some w) =
    cons₃ (p * 4 + q / 16) (q % 16 * 16 + w / 4) (w % 4 * 64 + v) later

-- One group of four characters, with the outcome for what follows it.
abbrev pub group : Bool → ℕ → ℕ → ℕ → ℕ → Bytes → Option Bytes → Option Bytes
group strict a b r s rest later =
    combine strict r s rest later (value_of a) (value_of b) (value_of s) (value_of r)

pub groups : Bool → Bytes → Option Bytes
groups strict [] = some []
groups strict (a ∷ []) = none
groups strict (a ∷ b ∷ []) = none
groups strict (a ∷ b ∷ c ∷ []) = none
groups strict (a ∷ b ∷ c ∷ d ∷ rest) = group strict a b c d rest (groups strict rest)

-- `base64.StdEncoding.Strict().DecodeString`.
unfoldable pub decode_strict : Bytes → Option Bytes
decode_strict s = groups true (without_breaks s)

-- `base64.StdEncoding.DecodeString`
unfoldable pub decode_std : Bytes → Option Bytes
decode_std s = groups false (without_breaks s)
