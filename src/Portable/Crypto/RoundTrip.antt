-- ===== src/Portable/Crypto/RoundTrip.antt =====
-- share/portable/crypto.go: decryption undoes encryption.
use forge_go.Prelude.{
  ℕ, ◌-◌, ◌<◌, ◌≤◌, ◌≡◌, refl, arith, Bool, true, false, not, ◌&&◌, All, pos, ltb, ◌==◌, length,
  Bytes, codes,
}
use forge_go.Portable.Errors.{Result, ok, err, ◌>>=◌}
use forge_go.Portable.Abi.{Limits}
use forge_go.Portable.Binary.{decode_binary, encode_binary}
use forge_go.Portable.Binary.RoundTrip.{decode_binary_iff, decode_binary-small}
use forge_go.Portable.Crypto.{
  Primitives, IsAead, AesPayload, AesInputs, decode_aes_inputs, aes_gcm_encrypt, aes_gcm_decrypt,
  new_aes_gcm, value_limit, value_field,
}

pub >>=-eq-ok {ℓ κ} :
    {V : Type ℓ} {W : Type κ} (first : Result V) (next : V → Result W) {result : W}
    → (first >>= next) ≡ ok result
    → (value : V) × (first ≡ ok value) × (next value ≡ ok result)
>>=-eq-ok (ok value) next returned = (value, refl, returned)
>>=-eq-ok (err refusal) next returned = cc

module _ (l : Limits) (max : ℕ) (bound : l.max_binary_bytes ≡ pos max) (room : 16 ≤ max)
    (int : max < 9223372036854775806) where
  -- The decoded inputs and the texts that they came from.
  record Decoded (p : AesPayload) (decrypt : Bool) (i : AesInputs) : Type 0 where
    key_of : decode_binary p.key (codes "payload.key") l.max_binary_bytes ≡ ok i.key
    nonce_of : decode_binary p.nonce (codes "payload.nonce") l.max_binary_bytes ≡ ok i.nonce
    aad_of : decode_binary p.aad (codes "payload.aad") l.max_binary_bytes ≡ ok i.aad
    value_of :
        decode_binary p.value (value_field decrypt) (value_limit l.max_binary_bytes decrypt)
        ≡ ok i.value
    key_size :
        (not (length i.key == 16) && (not (length i.key == 24) && not (length i.key == 32))) ≡ false
    nonce_size : (length i.nonce == 12) ≡ true
    tag : (decrypt && ltb (length i.value) 16) ≡ false

  inputs-Decoded :
      (p : AesPayload) (decrypt : Bool) (i : AesInputs)
      → decode_aes_inputs l p decrypt ≡ ok i
      → Decoded p decrypt i
  unfolding decode_aes_inputs
  inputs-Decoded p decrypt i h = ground arith

  Decoded-inputs :
      (p : AesPayload) (decrypt : Bool) (i : AesInputs)
      → Decoded p decrypt i
      → decode_aes_inputs l p decrypt ≡ ok i
  unfolding decode_aes_inputs
  Decoded-inputs p decrypt i d = ground arith

  limit_small :
      (p : AesPayload) (decrypt : Bool) (i : AesInputs)
      → Decoded p decrypt i
      → max < 6917529027641081854
  limit_small p decrypt i d =
      decode_binary-small p.key (codes "payload.key") max i.key int (rw bound at d.key_of)

  value_limit_room : value_limit l.max_binary_bytes false ≡ pos (max - 16)
  unfolding value_limit
  value_limit_room = rw bound (ground arith)

  module _ (prims : Primitives) (aead : IsAead prims) where
    sealed : AesInputs → Bytes
    sealed i = prims.seal i.key i.nonce i.value i.aad

    sealed-fits :
        (p : AesPayload) (i : AesInputs)
        → Decoded p false i
        → (p.value ≡ encode_binary i.value)
          × (length (sealed i) ≤ max)
          × (16 ≤ length (sealed i))
          × All (λ b. b < 256) i.value
    unfolding sealed
    sealed-fits p i d =
        let (e, bytes, small) =
          (decode_binary_iff p.value (value_field false) (max - 16) i.value
              (omega (arith, limit_small p false i d))).0
            (rw value_limit_room at d.value_of) in
        (
          e,
          omega (arith, aead.seal_length i.key i.nonce i.value i.aad),
          omega (arith, aead.seal_length i.key i.nonce i.value i.aad),
          bytes,
        )

    decrypt-Decoded :
        (p : AesPayload) (i : AesInputs)
        → Decoded p false i
        → Decoded
            (record p { value = encode_binary (sealed i) })
            true
            (record i { value = sealed i })
    unfolding sealed value_limit
    decrypt-Decoded p i d = record {
      key_of = d.key_of;
      nonce_of = d.nonce_of;
      aad_of = d.aad_of;
      value_of = rw bound (
          (decode_binary_iff (encode_binary (sealed i)) (value_field true) max (sealed i)
              (limit_small p false i d)).1
            (
              refl,
              aead.seal_bytes i.key i.nonce i.value i.aad (sealed-fits p i d).3,
              (sealed-fits p i d).1,
            ));
      key_size = d.key_size;
      nonce_size = d.nonce_size;
      tag = ground (arith, sealed-fits p i d);
    }

    encrypt-eq-ok :
        (p : AesPayload) (c : Bytes)
        → aes_gcm_encrypt prims l p ≡ ok c
        → (i : AesInputs) × Decoded p false i × (c ≡ encode_binary (sealed i))
    unfolding aes_gcm_encrypt new_aes_gcm sealed
    encrypt-eq-ok p c h =
        let (i, di, rest) = >>=-eq-ok (decode_aes_inputs l p false) _ h in
        (i, inputs-Decoded p false i di, ground arith)

    decrypt_sealed :
        (p : AesPayload) (i : AesInputs)
        → Decoded p false i
        → aes_gcm_decrypt prims l (record p { value = encode_binary (sealed i) })
          ≡ ok (encode_binary i.value)
    unfolding aes_gcm_decrypt new_aes_gcm sealed
    decrypt_sealed p i d = rw (Decoded-inputs _ true _ (decrypt-Decoded p i d)) (
        rw (aead.takes_key i.key (ground (arith, d.key_size)))
          (rw (aead.opens i.key i.nonce i.value i.aad (sealed-fits p i d).3)))

-- For primitives that behave as AES-GCM is documented, and a limit on binary values of at least 16
-- bytes and below the two greatest ints: when aesGCMEncrypt gives a ciphertext, aesGCMDecrypt with
-- the same key, nonce and additional data gives the plaintext text back.
pub aes_gcm_decrypt-encrypt :
    (prims : Primitives) (l : Limits) (max : ℕ)
    → IsAead prims
    → l.max_binary_bytes ≡ pos max
    → 16 ≤ max
    → max < 9223372036854775806
    → (p : AesPayload) (c : Bytes) → aes_gcm_encrypt prims l p ≡ ok c
    → aes_gcm_decrypt prims l (record p { value = c }) ≡ ok p.value
aes_gcm_decrypt-encrypt prims l max aead bound room int p c h =
    let (i, d, e) = encrypt-eq-ok l max bound room int prims aead p c h in
    rw (e, (sealed-fits l max bound room int prims aead p i d).0)
      (decrypt_sealed l max bound room int prims aead p i d)
