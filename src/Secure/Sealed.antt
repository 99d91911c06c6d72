-- ===== src/Secure/Sealed.antt =====
-- What Decrypt of secure/aesgcm.go makes of what Encrypt has made.
use gobox.Base.{
  ℕ, ◌≡◌, refl, false, ◌++◌, length, length-append, take-append, drop-append, ltb, arith, ◌∙◌, ap,
}
use gobox.Base.Errors.{Result, ok, err}
use gobox.Secure.{Bytes, Crypto, AesGcmEncryptor, sealed_with, encrypt, opened, decrypt}

decrypt-append :
    (e : AesGcmEncryptor) (nonce sealed : Bytes)
    → length nonce ≡ e.aead.nonce_size
    → decrypt e (nonce ++ sealed) ≡ opened (e.aead.open_ nonce sealed)
unfolding decrypt
decrypt-append e nonce sealed h =
    let long : ltb (length (nonce ++ sealed)) e.aead.nonce_size ≡ false =
      ground (arith, h, length-append nonce sealed) in
    let front = take-append nonce sealed e.aead.nonce_size h in
    let back = drop-append nonce sealed e.aead.nonce_size h in rw (decrypt, long, front, back) refl

module _ {W : Type 0} (v : Crypto W) (e : AesGcmEncryptor)
    (drawn : (w : W) (n : ℕ) (x : Bytes) → (v.random w n).1 ≡ ok x → length x ≡ n) where
  sealed_with-decrypt :
      (w : W) (plaintext ciphertext : Bytes) (x : W × Result Bytes)
      → v.random w e.aead.nonce_size ≡ x
      → (sealed_with v e plaintext x).1 ≡ ok ciphertext
      → (nonce : Bytes) × (decrypt e ciphertext
          ≡ opened (e.aead.open_ nonce (e.aead.seal nonce plaintext)))
  sealed_with-decrypt w plaintext ciphertext (after, err y) is h = absurd (cc)
  sealed_with-decrypt w plaintext ciphertext (after, ok nonce) is h =
      let same : nonce ++ e.aead.seal nonce plaintext ≡ ciphertext = (cc) in
      let size = drawn w e.aead.nonce_size nonce (ap (λ r. r.1) is) in
      (nonce, rw (← same) (decrypt-append e nonce (e.aead.seal nonce plaintext) size))

  -- Decrypt gives back what Encrypt was given, whenever Encrypt succeeds, if the random source gives as
  -- many bytes as it is asked for and the cipher opens with a nonce what it has sealed with it.
  pub decrypt-encrypt :
      ((nonce plaintext : Bytes) → e.aead.open_ nonce (e.aead.seal nonce plaintext) ≡ ok plaintext)
      → (w : W) (plaintext ciphertext : Bytes) → (encrypt v e w plaintext).1 ≡ ok ciphertext
      → decrypt e ciphertext ≡ ok plaintext
  unfolding encrypt
  decrypt-encrypt undone w plaintext ciphertext h =
      let (nonce, is) =
        sealed_with-decrypt w plaintext ciphertext (v.random w e.aead.nonce_size) refl h in
      is ∙ ap opened (undone nonce plaintext)
