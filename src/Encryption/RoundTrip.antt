-- ===== src/Encryption/RoundTrip.antt =====
-- src/Encryption.cpp: a password that was encrypted is decrypted with the files that encrypting left.
use Prim.Native.String.{len}
use mathlib.Core.Bool.{true≢false}
use platform_event_filter.Common.{
  ℕ, ap, ◌≡◌, ◌≢◌, refl, inl, inr, Option-cases, if◌then◌else◌, Bool, true, false, Option, none,
  some, [], ◌∷◌, String, is_empty,
}
use platform_event_filter.Encryption.{
  base64_encode, base64_decode, read_bytes, Bytes, OpenSsl, KeyFiles, Writable,
  aes_get_key_from_file, encode_ciphertext, encrypt_with, encrypt_from, has_both, prepare_keys,
  encrypt_string, decrypted, decrypt_bytes, decrypt_with, decrypt_string,
}

-- What OpenSSL documents: a Base64 BIO reads the bytes that it wrote, if the buffer takes as many bytes as the
-- text has characters; decryption inverts encryption under the same key
-- and vector, and CBC with padding gives at least one block.
pub record Inverts (ssl : OpenSsl) : Type 0 where
  pub read_write :
      (b : ℕ) (bs : Bytes)
      → ssl.bio_read (ssl.bio_write (b ∷ bs)) (len (ssl.bio_write (b ∷ bs))) ≡ b ∷ bs
  pub decrypt_encrypt :
      (key iv : Bytes) (plaintext : String) (c : Bytes)
      → ssl.encrypt key iv plaintext ≡ some c
      → ssl.decrypt key iv c ≡ some plaintext
  pub padded : (key iv : Bytes) (plaintext : String) → ssl.encrypt key iv plaintext ≢ some []

module _ (ssl : OpenSsl) (inverts : Inverts ssl) where
  -- Decoding gives back what was encoded, unless that is empty.
  base64_decode-base64_encode :
      (b : ℕ) (bs : Bytes) → base64_decode ssl (base64_encode ssl (b ∷ bs)) ≡ some (b ∷ bs)
  unfolding base64_decode base64_encode read_bytes
  base64_decode-base64_encode b bs = ap read_bytes (inverts.read_write b bs)

  bytes_round_trip :
      (key iv : Bytes) (plaintext : String) (c : Bytes)
      → ssl.encrypt key iv plaintext ≡ some c
      → decrypt_bytes ssl key iv (base64_decode ssl (base64_encode ssl c)) ≡ plaintext
  unfolding decrypt_bytes decrypted
  bytes_round_trip key iv plaintext [] e = absurd (inverts.padded key iv plaintext e)
  bytes_round_trip key iv plaintext (b ∷ bs) e =
      rw
        (
          base64_decode-base64_encode b bs,
          decrypt_bytes,
          inverts.decrypt_encrypt key iv plaintext (b ∷ bs) e,
        )
        refl

  with_round_trip :
      (key iv : Option Bytes) (plaintext : String)
      → is_empty (encrypt_with ssl key iv plaintext) ≡ false
      → decrypt_with ssl key iv (encrypt_with ssl key iv plaintext) ≡ plaintext
  unfolding encrypt_with decrypt_with encode_ciphertext
  with_round_trip none iv plaintext h = cc
  with_round_trip (some key) none plaintext h = cc
  with_round_trip (some key) (some iv) plaintext h =
      elim (Option-cases (ssl.encrypt key iv plaintext)) [
        | inl e ↦ absurd (true≢false (rw (e) at h))
        | inr (c, e) ↦ rw (e) (bytes_round_trip key iv plaintext c e)
      ]

  -- Without both files there is no key to encrypt with.
  has_files :
      (key iv : Option String) (plaintext : String)
      → is_empty (
          encrypt_with ssl
            (aes_get_key_from_file ssl key 32)
            (aes_get_key_from_file ssl iv 16)
            plaintext)
        ≡ false
      → has_both ssl key iv ≡ true
  unfolding encrypt_with aes_get_key_from_file has_both
  has_files none iv plaintext h = cc
  has_files (some key) (some iv) plaintext h = refl
  has_files (some key) none plaintext h =
      absurd (no_vector (aes_get_key_from_file ssl (some key) 32) h)
    where
      no_vector : (o : Option Bytes) → ¬ (is_empty (encrypt_with ssl o none plaintext) ≡ false)
      no_vector none h = true≢false h
      no_vector (some k) h = true≢false h

  files_round_trip :
      (files : KeyFiles) (plaintext : String)
      → is_empty (encrypt_from ssl files plaintext) ≡ false
      → decrypt_string ssl files (encrypt_from ssl files plaintext) ≡ plaintext
  unfolding encrypt_from decrypt_string
  files_round_trip files plaintext h =
      rw (h, has_files files.key files.iv plaintext h)
        (with_round_trip (aes_get_key_from_file ssl files.key 32)
          (aes_get_key_from_file ssl files.iv 16) plaintext h)

  -- Where OpenSSL's Base64 reads what it wrote, its decryption inverts its encryption, and no ciphertext is
  -- empty: a text that encryptString encrypts to a text that is not empty is decrypted again, with the files
  -- that it left.
  pub decrypt_string-encrypt_string :
      (writable : Writable) (files : KeyFiles) (plaintext : String)
      → is_empty (encrypt_string ssl writable files plaintext).0 ≡ false
      → decrypt_string ssl
          (encrypt_string ssl writable files plaintext).1
          (encrypt_string ssl writable files plaintext).0
        ≡ plaintext
  unfolding encrypt_string
  decrypt_string-encrypt_string writable files plaintext h =
      when_ready (prepare_keys ssl writable files).0 (prepare_keys ssl writable files).1 h
    where
      when_ready :
          (ready : Bool) (files' : KeyFiles)
          → is_empty (if ready then encrypt_from ssl files' plaintext else "") ≡ false
          → decrypt_string ssl files' (if ready then encrypt_from ssl files' plaintext else "")
            ≡ plaintext
      when_ready true files' k = files_round_trip files' plaintext k
      when_ready false files' k = absurd (true≢false k)
