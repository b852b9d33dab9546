-- ===== src/Portable/Crypto.antt =====
-- share/portable/crypto.go: the cryptographic operations behind the decoding of their payloads. The
-- primitives of `crypto/...` are parameters; clearing a buffer (`zeroBytes`) is not modelled.
pub mod RoundTrip
pub mod Tests
use forge_go.Prelude.{
  ℕ, zero, suc, ◌+◌, ◌-◌, ◌<◌, ◌≡◌, Bool, true, false, not, ◌&&◌, ◌||◌, List, [], ◌∷◌, Option, none,
  some, All, ℤ, pos, negsuc, lt_int, ltb, ◌==◌, if◌then◌else◌, length, Bytes, codes,
}
use forge_go.Portable.Errors.{
  Result, ok, err, ◌>>=◌, ◌>>◌, refuse_if, new_abi_error, invalid_key, invalid_nonce,
  authentication_failed,
}
use forge_go.Portable.Abi.{Limits}
use forge_go.Portable.Binary.{decode_binary, encode_binary}

abbrev pub aes_gcm_nonce_bytes : ℕ
aes_gcm_nonce_bytes = 12

abbrev pub aes_gcm_tag_bytes : ℕ
aes_gcm_tag_bytes = 16

abbrev pub minimum_hmac_key_bytes : ℕ
minimum_hmac_key_bytes = 16

-- Key, nonce, data and additional data, in the order of `Seal` and `Open`. `new_cipher` says whether
-- `aes.NewCipher` takes the key; `cipher.NewGCM` takes every AES cipher.
pub record Primitives : Type 0 where
  pub sha256_sum : Bytes → Bytes
  pub hmac_sum : Bytes → Bytes → Bytes
  pub new_cipher : Bytes → Bool
  pub seal : Bytes → Bytes → Bytes → Bytes → Bytes
  pub open_sealed : Bytes → Bytes → Bytes → Bytes → Option Bytes

-- What `crypto/cipher` documents of GCM with a nonce of 12 bytes: `Seal` appends a tag of 16 bytes,
-- and `Open` with the same key, nonce and additional data gives the plaintext back. `crypto/aes`
-- takes keys of 16, 24 or 32 bytes.
pub record IsAead (p : Primitives) : Type 0 where
  pub takes_key :
      (key : Bytes)
      → (length key == 16 || length key == 24 || length key == 32) ≡ true
      → p.new_cipher key ≡ true
  pub seal_bytes :
      (key nonce plaintext aad : Bytes)
      → All (λ b. b < 256) plaintext
      → All (λ b. b < 256) (p.seal key nonce plaintext aad)
  pub seal_length :
      (key nonce plaintext aad : Bytes)
      → length (p.seal key nonce plaintext aad) ≡ length plaintext + aes_gcm_tag_bytes
  pub opens :
      (key nonce plaintext aad : Bytes)
      → All (λ b. b < 256) plaintext
      → p.open_sealed key nonce (p.seal key nonce plaintext aad) aad ≡ some plaintext

pub record HmacPayload : Type 0 where
  pub key : Bytes
  pub message : Bytes

-- `aesGCMEncryptPayload` and `aesGCMDecryptPayload`: the last field is the plaintext or the
-- ciphertext.
pub record AesPayload : Type 0 where
  pub key : Bytes
  pub nonce : Bytes
  pub aad : Bytes
  pub value : Bytes

pub record AesInputs : Type 0 where
  pub key : Bytes
  pub nonce : Bytes
  pub aad : Bytes
  pub value : Bytes

abbrev less_tag : ℤ → ℤ
less_tag (pos n) = if ltb n aes_gcm_tag_bytes then negsuc (15 - n) else pos (n - aes_gcm_tag_bytes)
less_tag (negsuc n) = negsuc (n + aes_gcm_tag_bytes)

-- `valueLimit`: room is left for the tag of what will be sealed.
pub value_limit : ℤ → Bool → ℤ
value_limit max true = max
value_limit max false = if lt_int (less_tag max) (pos 0) then pos 0 else less_tag max

abbrev pub value_field : Bool → Bytes
value_field true = codes "payload.ciphertext"
value_field false = codes "payload.plaintext"

pub decode_aes_inputs : Limits → AesPayload → Bool → Result AesInputs
decode_aes_inputs limits p decrypt =
    decode_binary p.key (codes "payload.key") limits.max_binary_bytes >>= λ key.
    refuse_if (not (length key == 16) && (not (length key == 24) && not (length key == 32)))
      invalid_key (codes "payload.key")
    >> (decode_binary p.nonce (codes "payload.nonce") limits.max_binary_bytes >>= λ nonce.
        refuse_if (not (length nonce == aes_gcm_nonce_bytes)) invalid_nonce (codes "payload.nonce")
        >> (decode_binary p.aad (codes "payload.aad") limits.max_binary_bytes >>= λ aad.
            decode_binary p.value (value_field decrypt)
              (value_limit limits.max_binary_bytes decrypt)
            >>= λ value.
                refuse_if (decrypt && ltb (length value) aes_gcm_tag_bytes) authentication_failed
                  (value_field decrypt)
                >> ok (record { key = key; nonce = nonce; aad = aad; value = value })))

abbrev opened_text : Option Bytes → Result Bytes
opened_text none = err (new_abi_error authentication_failed (codes "payload.ciphertext"))
opened_text (some plaintext) = ok (encode_binary plaintext)

module _ (prims : Primitives) (limits : Limits) where
  pub sha256 : Bytes → Result Bytes
  sha256 encoded =
      decode_binary encoded (codes "payload.data") limits.max_binary_bytes >>= λ message.
      ok (encode_binary (prims.sha256_sum message))

  pub hmac_sha256 : HmacPayload → Result Bytes
  hmac_sha256 p = decode_binary p.key (codes "payload.key") limits.max_binary_bytes >>= λ key.
      refuse_if (ltb (length key) minimum_hmac_key_bytes) invalid_key (codes "payload.key")
      >> (decode_binary p.message (codes "payload.data") limits.max_binary_bytes >>= λ message.
          ok (encode_binary (prims.hmac_sum key message)))

  pub new_aes_gcm : Bytes → Result (Unit {0})
  new_aes_gcm key = refuse_if (not (prims.new_cipher key)) invalid_key (codes "payload.key")

  pub aes_gcm_encrypt : AesPayload → Result Bytes
  aes_gcm_encrypt p = decode_aes_inputs limits p false >>= λ i.
      new_aes_gcm i.key >> ok (encode_binary (prims.seal i.key i.nonce i.value i.aad))

  pub aes_gcm_decrypt : AesPayload → Result Bytes
  aes_gcm_decrypt p = decode_aes_inputs limits p true >>= λ i.
      new_aes_gcm i.key >> opened_text (prims.open_sealed i.key i.nonce i.value i.aad)
