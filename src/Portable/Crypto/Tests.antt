-- ===== src/Portable/Crypto/Tests.antt =====
-- share/portable/crypto.go with a transparent cipher.
use forge_go.Prelude.{
  ◌≡◌, ◌<◌, refl, true, [], ◌∷◌, some, All, All-append, arith, drop, Bytes, codes,
}
use forge_go.Portable.Errors.{ok}
use forge_go.Portable.Abi.{default_limits}
use forge_go.Portable.Binary.{encode_binary}
use forge_go.Portable.Binary.RoundTrip.{decode_binary_iff}
use forge_go.Portable.Crypto.{
  Primitives, IsAead, AesPayload, decode_aes_inputs, aes_gcm_encrypt, aes_gcm_decrypt, new_aes_gcm,
  value_limit,
}
use forge_go.Portable.Crypto.RoundTrip.{aes_gcm_decrypt-encrypt}

abbrev zeros : Bytes → Bytes
zeros b = 0 ∷ 0 ∷ 0 ∷ 0 ∷ 0 ∷ 0 ∷ 0 ∷ 0 ∷ 0 ∷ 0 ∷ 0 ∷ 0 ∷ 0 ∷ 0 ∷ 0 ∷ 0 ∷ b

-- The tag is 16 zeros before the plaintext.
abbrev transparent : Primitives
transparent = record {
  sha256_sum = λ b. b;
  hmac_sum = λ _ b. b;
  new_cipher = λ _. true;
  seal = λ _ _ b _. zeros b;
  open_sealed = λ _ _ b _. some (drop 16 b);
}

sixteen_more : (b : Bytes) → All (λ b. b < 256) b → All (λ b. b < 256) (zeros b)
sixteen_more b h = All-append (λ b. b < 256) (zeros []) b (omega arith) h

transparent-IsAead : IsAead transparent
transparent-IsAead = record {
  takes_key = λ key h. refl;
  seal_bytes = λ key nonce b aad h. sixteen_more b h;
  seal_length = λ key nonce b aad. omega arith;
  opens = λ key nonce b aad h. refl;
}

abbrev key : Bytes
key = codes "0123456789abcdef"

abbrev payload : AesPayload
payload = record {
  key = encode_binary key;
  nonce = encode_binary (codes "abcdefghijkl");
  aad = encode_binary [];
  value = encode_binary (codes "hi");
}

encrypt-payload :
    aes_gcm_encrypt transparent default_limits payload ≡ ok (encode_binary (zeros (codes "hi")))
unfolding aes_gcm_encrypt decode_aes_inputs new_aes_gcm value_limit
encrypt-payload = rw (
  (decode_binary_iff (encode_binary key) (codes "payload.key") 524288 key (omega arith)).1
      (refl, omega arith, omega arith),
  (decode_binary_iff (encode_binary (codes "abcdefghijkl")) (codes "payload.nonce") 524288
        (codes "abcdefghijkl") (omega arith)).1
      (refl, omega arith, omega arith),
  (decode_binary_iff (encode_binary []) (codes "payload.aad") 524288 [] (omega arith)).1
      (refl, tt, omega arith),
  (decode_binary_iff (encode_binary (codes "hi")) (codes "payload.plaintext") 524272 (codes "hi")
        (omega arith)).1
      (refl, omega arith, omega arith),
)

aes_gcm_decrypt-encrypt_example :
    aes_gcm_decrypt transparent default_limits
      (record payload { value = encode_binary (zeros (codes "hi")) })
    ≡ ok (encode_binary (codes "hi"))
aes_gcm_decrypt-encrypt_example =
    aes_gcm_decrypt-encrypt transparent default_limits 524288 transparent-IsAead refl (omega arith)
      (omega arith) payload (encode_binary (zeros (codes "hi"))) encrypt-payload
