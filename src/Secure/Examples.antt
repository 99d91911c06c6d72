-- ===== src/Secure/Examples.antt =====
-- Runs of secure/aesgcm.go.
use gobox.Base.{ℕ, zero, suc, ◌≡◌, refl, [], ◌∷◌, length, arith}
use gobox.Base.Errors.{ok, err, sentinel}
use gobox.Secure.{Bytes, Aead, Crypto, AesGcmEncryptor, encrypt, decrypt}
use gobox.Secure.Sealed.{decrypt-encrypt}

abbrev zeros : ℕ → Bytes
zeros zero = []
zeros (suc n) = 0 ∷ zeros n

length-zeros : (n : ℕ) → length (zeros n) ≡ n
length-zeros zero = refl
length-zeros (suc n) = omega (arith, length-zeros n)

abbrev unmarked : Bytes → Bytes
unmarked [] = []
unmarked (m ∷ x) = x

-- A cipher that seals by a mark in front.
abbrev marking : Aead
marking = record {
  nonce_size = 2;
  seal = λ nonce plaintext. 7 ∷ plaintext;
  open_ = λ nonce sealed. ok (unmarked sealed);
}

abbrev crypto : Crypto ℕ
crypto = record { new_gcm = λ key. ok marking; random = λ w n. (suc w, ok (zeros n)) }

abbrev encryptor : AesGcmEncryptor
encryptor = record { aead = marking }

too_short : decrypt encryptor (1 ∷ []) ≡ err (sentinel "ErrCiphertextTooShort")
unfolding decrypt
too_short = refl

sealed_run : (encrypt crypto encryptor 0 (5 ∷ [])).1 ≡ ok (0 ∷ 0 ∷ 7 ∷ 5 ∷ [])
unfolding encrypt
sealed_run = refl

drawn_size : (w n : ℕ) (x : Bytes) → (crypto.random w n).1 ≡ ok x → length x ≡ n
drawn_size w n x h = let same : zeros n ≡ x = (cc) in rw (← same) (length-zeros n)

decrypt-encrypt_example : decrypt encryptor (0 ∷ 0 ∷ 7 ∷ 5 ∷ []) ≡ ok (5 ∷ [])
decrypt-encrypt_example =
    decrypt-encrypt crypto encryptor drawn_size (λ nonce plaintext. refl) 0 (5 ∷ [])
      (0 ∷ 0 ∷ 7 ∷ 5 ∷ []) sealed_run
