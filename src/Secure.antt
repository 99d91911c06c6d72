-- ===== src/Secure.antt =====
-- secure/aesgcm.go: the encryptor over an AEAD cipher.
pub mod Sealed
pub mod Examples
use gobox.Base.{
  ℕ, zero, suc, Bool, Option, none, some, List, [], ◌∷◌, ◌++◌, length, take, drop, ltb, ◌==◌, not,
  if◌then◌else◌,
}
use gobox.Base.Errors.{Error, Result, ok, err, errorf, sentinel}

abbrev pub Bytes : Type 0
Bytes = List ℕ

abbrev pub key_size : ℕ
key_size = 32

-- cipher.AEAD, without additional data.
pub record Aead : Type 0 where
  pub nonce_size : ℕ
  pub seal : Bytes → Bytes → Bytes
  pub open_ : Bytes → Bytes → Result Bytes

-- What is used of crypto/aes, crypto/cipher and crypto/rand: `random` draws so many bytes.
pub record Crypto (W : Type 0) : Type 0 where
  pub new_gcm : Bytes → Result Aead
  pub random : W → ℕ → W × Result Bytes

-- `AESGCMEncryptor`
pub record AesGcmEncryptor : Type 0 where
  pub aead : Aead

abbrev pub with_aead : Result Aead → Result AesGcmEncryptor
with_aead (err e) = err errorf
with_aead (ok aead) = ok (record { aead = aead })

module _ {W : Type 0} (v : Crypto W) where
  -- `NewAESGCMEncryptor`
  unfoldable pub new_aes_gcm_encryptor : Bytes → Result AesGcmEncryptor
  new_aes_gcm_encryptor key =
      if not (length key == key_size)
      then err (sentinel "ErrInvalidKeySize")
      else with_aead (v.new_gcm key)

  abbrev pub sealed_with : AesGcmEncryptor → Bytes → W × Result Bytes → W × Result Bytes
  sealed_with e plaintext (w, err x) = (w, err errorf)
  sealed_with e plaintext (w, ok nonce) = (w, ok (nonce ++ e.aead.seal nonce plaintext))

  -- `Encrypt`: Seal appends to the nonce.
  unfoldable pub encrypt : AesGcmEncryptor → W → Bytes → W × Result Bytes
  encrypt e w plaintext = sealed_with e plaintext (v.random w e.aead.nonce_size)

abbrev pub opened : Result Bytes → Result Bytes
opened (err x) = err errorf
opened (ok plaintext) = ok plaintext

-- `Decrypt`
unfoldable pub decrypt : AesGcmEncryptor → Bytes → Result Bytes
decrypt e ciphertext =
    if ltb (length ciphertext) e.aead.nonce_size
    then err (sentinel "ErrCiphertextTooShort")
    else opened
        (e.aead.open_ (take e.aead.nonce_size ciphertext) (drop e.aead.nonce_size ciphertext))
