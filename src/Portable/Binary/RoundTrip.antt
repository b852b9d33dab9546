-- ===== src/Portable/Binary/RoundTrip.antt =====
-- share/portable/binary.go: what `decodeBinary` accepts, and how it fits `encodeBinary`.
use forge_go.Prelude.{
  ℕ, ◌<◌, ◌≤◌, ◌≡◌, ◌↔◌, ◌+◌, ◌/◌, ◌*◌, inl, inr, arith, length, All, Bytes, equal_iff, equal_refl,
  pos, lt_int, true, ◌⊎◌, Option-cases,
}
use forge_go.Portable.Errors.{ok}
use forge_go.Portable.Binary.{decode_binary, encoded_len, encode_binary}
use forge_go.Portable.Binary.Base64.{encode, decode_strict}
use forge_go.Portable.Binary.Base64.Laws.{decode_strict-encode, decode_strict-bytes, length-encode}

leb-cases : (a b : ℕ) → (a ≤ b) ⊎ (b < a)
leb-cases a b = omega arith

encoded_len_small : (n : ℕ) → n < 6917529027641081854 → encoded_len (pos n) ≡ pos ((n + 2) / 3 * 4)
unfolding encoded_len
encoded_len_small n h = ground arith

module _ (encoded field : Bytes) (max : ℕ) (v : Bytes) where
  decode_binary-canonical :
      decode_binary encoded field (pos max) ≡ ok v
      → (encoded ≡ encode_binary v) × All (λ b. b < 256) v × (length v ≤ max)
  unfolding decode_binary encode_binary
  decode_binary-canonical h = elim (Option-cases (decode_strict encoded)) [
    | inl e ↦ ground arith
    | inr (w, e) ↦ ground (arith, decode_strict-bytes encoded w e, equal_iff (encode w) encoded)
  ]

  decode_binary_total :
      max < 6917529027641081854
      → encoded ≡ encode_binary v
      → All (λ b. b < 256) v
      → length v ≤ max
      → decode_binary encoded field (pos max) ≡ ok v
  unfolding decode_binary encode_binary
  decode_binary_total small e h k =
      rw (e, decode_strict-encode v h)
        (ground (arith, equal_refl (encode v), length-encode v, encoded_len_small max small))

encoded_len_wraps :
    (n : ℕ)
    → n < 9223372036854775806
    → 6917529027641081854 ≤ n
    → lt_int (encoded_len (pos n)) (pos 0) ≡ true
unfolding encoded_len
encoded_len_wraps n h k = ground arith

-- A limit under which anything at all is decoded is one for which `EncodedLen` does not wrap around.
pub decode_binary-small :
    (encoded field : Bytes) (max : ℕ) (v : Bytes)
    → max < 9223372036854775806
    → decode_binary encoded field (pos max) ≡ ok v
    → max < 6917529027641081854
unfolding decode_binary
decode_binary-small encoded field max v int h = elim (leb-cases 6917529027641081854 max) [
  | inl big ↦ ground (arith, encoded_len_wraps max int big)
  | inr small ↦ small
]

-- For every limit below 6917529027641081854, for which EncodedLen does not wrap around:
-- decodeBinary returns a value exactly when its text is the canonical encoding of a string of
-- bytes within the limit, and the value is that string.
pub decode_binary_iff :
    (encoded field : Bytes) (max : ℕ) (v : Bytes)
    → max < 6917529027641081854
    → (decode_binary encoded field (pos max) ≡ ok v)
      ↔ ((encoded ≡ encode_binary v) × All (λ b. b < 256) v × (length v ≤ max))
decode_binary_iff encoded field max v small = (
  decode_binary-canonical encoded field max v,
  λ h. decode_binary_total encoded field max v small h.0 h.1 h.2,
)
