-- ===== src/Prelude/Utf8/RoundTrip.antt =====
-- Decoding what was encoded.
use Prim.Native.Nat.{ℕ, zero, suc, ◌+◌, ◌*◌, ◌/◌, ◌%◌, ◌≤◌, ◌<◌}
use native.Mathlib.Decide.{dec_lt}
use mathlib.Core.Bool.{true}
use mathlib.Core.List.{List, [], ◌∷◌, ◌++◌}
use mathlib.Core.Path.{◌≡◌, refl, ap}
use native.Mathlib.Omega.{arith}
use forge_go.Prelude.Lists.{All}
use forge_go.Prelude.Strings.{Bytes}
use forge_go.Prelude.Utf8.{decode, runes_from, runes, is_scalar, encode_rune, encode}

abbrev pub IsScalar : ℕ → Type 0
IsScalar r = is_scalar r ≡ true

decode_two :
    (a c : ℕ) (bs : Bytes)
    → 2 ≤ a
    → a < 32
    → c < 64
    → decode (0xc0 + a) ((0x80 + c) ∷ bs) ≡ record { rune = a * 64 + c; extra = 1; good = true }
unfolding decode
decode_two a c bs h k l = ground arith

decode_three :
    (a c d : ℕ) (bs : Bytes)
    → a < 16
    → c < 64
    → d < 64
    → (a ≡ 0 → 32 ≤ c)
    → (a ≡ 13 → c < 32)
    → decode (0xe0 + a) ((0x80 + c) ∷ (0x80 + d) ∷ bs)
      ≡ record { rune = a * 4096 + c * 64 + d; extra = 2; good = true }
unfolding decode
decode_three a c d bs h k l low surrogate = ground arith

decode_four :
    (a c d e : ℕ) (bs : Bytes)
    → a < 5
    → c < 64
    → d < 64
    → e < 64
    → (a ≡ 0 → 16 ≤ c)
    → (a ≡ 4 → c < 16)
    → decode (0xf0 + a) ((0x80 + c) ∷ (0x80 + d) ∷ (0x80 + e) ∷ bs)
      ≡ record { rune = a * 262144 + c * 4096 + d * 64 + e; extra = 3; good = true }
unfolding decode
decode_four a c d e bs h k l m low high = ground arith

module _ (r : ℕ) (rest : Bytes) where
  encode_one : r < 0x80 → runes (encode_rune r ++ rest) ≡ r ∷ runes rest
  unfolding encode_rune runes_from decode
  encode_one h = ground arith

  encode_two : 0x80 ≤ r → r < 0x800 → runes (encode_rune r ++ rest) ≡ r ∷ runes rest
  unfolding encode_rune runes_from
  encode_two h k = ground (arith, decode_two (r / 64) (r % 64) rest)

  encode_three :
      0x800 ≤ r → r < 0x10000 → IsScalar r → runes (encode_rune r ++ rest) ≡ r ∷ runes rest
  unfolding encode_rune runes_from
  encode_three h k scalar = ground (arith, decode_three (r / 4096) ((r / 64) % 64) (r % 64) rest)

  encode_four : 0x10000 ≤ r → IsScalar r → runes (encode_rune r ++ rest) ≡ r ∷ runes rest
  unfolding encode_rune runes_from
  encode_four h scalar =
      ground (arith, decode_four (r / 262144) ((r / 4096) % 64) ((r / 64) % 64) (r % 64) rest)

  -- A scalar value is read back by one step of the loop over a string.
  runes-encode_rune : IsScalar r → runes (encode_rune r ++ rest) ≡ r ∷ runes rest
  runes-encode_rune h = elim (dec_lt r 0x80) [
    | yes one ↦ encode_one one
    | no one ↦ elim (dec_lt r 0x800) [
      | yes two ↦ encode_two (omega arith) two
      | no two ↦ elim (dec_lt r 0x10000) [
        | yes three ↦ encode_three (omega arith) three h
        | no three ↦ encode_four (omega arith) h
      ]
    ]
  ]

pub runes-encode : (rs : List ℕ) → All IsScalar rs → runes (encode rs) ≡ rs
unfolding encode
runes-encode [] h = unfold runes_from in refl
runes-encode (r ∷ rs) h =
    rw (runes-encode_rune r (encode rs) h.0) (ap (◌∷◌ r) (runes-encode rs h.1))

decode-IsScalar : (b : ℕ) (bs : Bytes) → IsScalar (decode b bs).rune
unfolding decode
decode-IsScalar b [] = ground arith
decode-IsScalar b (c ∷ []) = ground arith
decode-IsScalar b (c ∷ d ∷ []) = ground arith
decode-IsScalar b (c ∷ d ∷ e ∷ _) = ground arith

pub runes_from-IsScalar : (k : ℕ) (s : Bytes) → All IsScalar (runes_from k s)
unfolding runes_from
runes_from-IsScalar zero [] = tt
runes_from-IsScalar (suc k) [] = tt
runes_from-IsScalar (suc k) (b ∷ bs) = runes_from-IsScalar k bs
runes_from-IsScalar zero (b ∷ bs) =
    (decode-IsScalar b bs, runes_from-IsScalar (decode b bs).extra bs)
