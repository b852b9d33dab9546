-- ===== src/Pkcs11/Uri/Escape.antt =====
-- Percent-encoding of attribute values, encrypt/pkcs11/uri.go.
use mathlib.Core.Option
use forge_go.Prelude.{
  ℕ, ◌+◌, ◌*◌, ◌/◌, ◌%◌, ◌<◌, ◌&&◌, not, Bool, true, false, ltb, ◌==◌, ==_iff, inl, inr, Bool-cases,
  all_below, all_below_sound, ◌≡◌, ◌≢◌, refl, ap, ◌∙◌, [], ◌∷◌, ◌++◌, some, arith, All, All-append,
  Bytes,
}
use forge_go.Prelude.Utf8.{is_space}
use forge_go.Prelude.Utf8.Trim.{IsPlain}
use forge_go.Pkcs11.Uri.{unescape, plain, hex_value}
use forge_go.Pkcs11.Uri.Format.{hex_upper, unreserved_attribute_byte, escape_byte, escape_attribute}

abbrev pub IsByte : ℕ → Type 0
IsByte b = b < 256

hex_value-hex_upper : (d : ℕ) → d < 16 → hex_value (hex_upper d) ≡ some d
unfolding hex_value hex_upper
hex_value-hex_upper d h = ground arith

unreserved-ne : (b : ℕ) → unreserved_attribute_byte b ≡ true → (b == b'%') ≡ false
unfolding unreserved_attribute_byte
unreserved-ne b h = elim (Bool-cases (b == b'%')) [
  | inl e ↦ cc (rw ((==_iff b b'%').0 e) at h)
  | inr e ↦ e
]

unescape_literal :
    (b : ℕ) (rest : Bytes)
    → (b == b'%') ≡ false
    → unescape plain (b ∷ rest) ≡ Option.map (◌∷◌ b) (unescape plain rest)
unfolding unescape
unescape_literal b rest h = rw (h, unescape)

unescape_reserved :
    (h l : ℕ) (rest : Bytes)
    → h < 16
    → l < 16
    → unescape plain (b'%' ∷ hex_upper h ∷ hex_upper l ∷ rest)
      ≡ Option.map (◌∷◌ (h * 16 + l)) (unescape plain rest)
unfolding unescape
unescape_reserved h l rest p q =
    rw (hex_value-hex_upper h p, unescape) (rw (hex_value-hex_upper l q, unescape))

escape_byte_reserved :
    (b : ℕ)
    → unreserved_attribute_byte b ≡ false
    → escape_byte b ≡ b'%' ∷ hex_upper (b / 16) ∷ hex_upper (b % 16) ∷ []
unfolding escape_byte
escape_byte_reserved b h = rw (h, escape_byte)

escape_byte_unreserved : (b : ℕ) → unreserved_attribute_byte b ≡ true → escape_byte b ≡ b ∷ []
unfolding escape_byte
escape_byte_unreserved b h = rw (h, escape_byte)

unescape-escape_byte :
    (b : ℕ) (rest : Bytes)
    → IsByte b
    → unescape plain (escape_byte b ++ rest) ≡ Option.map (◌∷◌ b) (unescape plain rest)
unescape-escape_byte b rest h = elim (Bool-cases (unreserved_attribute_byte b)) [
  | inl free ↦ rw (escape_byte_unreserved b free) (unescape_literal b rest (unreserved-ne b free))
  | inr reserved ↦ rw (escape_byte_reserved b reserved) (
      unescape_reserved (b / 16) (b % 16) rest (omega arith) (omega arith)
      ∙ ap (λ (x : ℕ). Option.map (◌∷◌ x) (unescape plain rest)) (omega arith))
]

-- What `escapeAttribute` writes is read back, whatever bytes the value holds.
pub unescape-escape_attribute :
    (v : Bytes) → All IsByte v → unescape plain (escape_attribute v) ≡ some v
unfolding escape_attribute
unescape-escape_attribute [] h = unfold unescape in refl
unescape-escape_attribute (b ∷ bs) h =
    unescape-escape_byte b (escape_attribute bs) h.0 ∙ rw (unescape-escape_attribute bs h.1)

-- A byte that stands inside a printed attribute: no white space, no separator, ASCII.
abbrev pub inner : ℕ → Bool
inner b = ltb b 128 && (not (is_space b) && (not (b == b';') && not (b == b'?')))

abbrev pub IsInner : ℕ → Type 0
IsInner b = inner b ≡ true

abbrev pub all_inner : Bytes → Bool
all_inner [] = true
all_inner (b ∷ bs) = inner b && all_inner bs

inner_table : all_below 256 (λ b. all_inner (escape_byte b)) ≡ true
unfolding all_below escape_byte is_space
inner_table = refl

pub all_inner-All : (s : Bytes) → all_inner s ≡ true → All IsInner s
all_inner-All [] h = tt
all_inner-All (b ∷ bs) h = (ground arith, all_inner-All bs (ground arith))

escape_byte-IsInner : (b : ℕ) → IsByte b → All IsInner (escape_byte b)
escape_byte-IsInner b h =
    all_inner-All _ (all_below_sound 256 (λ b. all_inner (escape_byte b)) b inner_table h)

pub IsInner-IsPlain : (s : Bytes) → All IsInner s → All IsPlain s
IsInner-IsPlain [] h = tt
IsInner-IsPlain (b ∷ bs) h = (ground arith, IsInner-IsPlain bs h.1)

pub IsInner-IsByte : (s : Bytes) → All IsInner s → All IsByte s
IsInner-IsByte [] h = tt
IsInner-IsByte (b ∷ bs) h = (ground arith, IsInner-IsByte bs h.1)

pub IsInner-ne_semicolon : (s : Bytes) → All IsInner s → All (λ x. x ≢ b';') s
IsInner-ne_semicolon [] h = tt
IsInner-ne_semicolon (b ∷ bs) h = (ground arith, IsInner-ne_semicolon bs h.1)

pub IsInner-ne_query : (s : Bytes) → All IsInner s → All (λ x. x ≢ b'?') s
IsInner-ne_query [] h = tt
IsInner-ne_query (b ∷ bs) h = (ground arith, IsInner-ne_query bs h.1)

pub escape_attribute-IsInner : (v : Bytes) → All IsByte v → All IsInner (escape_attribute v)
unfolding escape_attribute
escape_attribute-IsInner [] h = tt
escape_attribute-IsInner (b ∷ bs) h =
    All-append IsInner (escape_byte b) _ (escape_byte-IsInner b h.0)
      (escape_attribute-IsInner bs h.1)
