-- ===== src/Encryption.antt =====
-- src/Encryption.cpp: the passwords of the SNMP users, `AES_GenerateAndSaveKeys`, `AES_GetKeyFromFile`,
-- `base64_encode`, `base64_decode`, `encryptString` and `decryptString`. OpenSSL is a parameter: its random
-- numbers, its Base64 BIO and AES-256-CBC.
pub mod RoundTrip
use Prim.Native.String.{len}
use platform_event_filter.Common.{
  ℕ, ◌==◌, ◌!=◌, ltb, ◌||◌, ◌&&◌, not, if◌then◌else◌, Bool, true, false, Option, none, some, List,
  [], ◌∷◌, String, is_empty, length,
}

abbrev aes_max_key_length : ℕ
aes_max_key_length = 32

abbrev aes_max_iv_length : ℕ
aes_max_iv_length = 16

abbrev pub Bytes : Type 0
Bytes = List ℕ

-- What OpenSSL answers; `none` where a call fails.
pub record OpenSsl : Type 0 where
  -- RAND_bytes for the key and for the vector
  pub rand_key : Option Bytes
  pub rand_iv : Option Bytes
  -- What memory holds once BIO_write and BIO_flush have put the bytes through the Base64 BIO.
  pub bio_write : Bytes → String
  -- What BIO_read gets of a text through it, at most so many bytes; nothing where its result is 0 or less.
  pub bio_read : String → ℕ → Bytes
  -- EVP_EncryptInit_ex to EVP_EncryptFinal_ex, and EVP_DecryptInit_ex to EVP_DecryptFinal_ex, with a key
  -- and a vector
  pub encrypt : Bytes → Bytes → String → Option Bytes
  pub decrypt : Bytes → Bytes → Bytes → Option String

-- The text in the key file and in the vector file, if it is there.
pub record KeyFiles : Type 0 where
  pub key : Option String
  pub iv : Option String

-- Whether the files can be opened for writing.
pub record Writable : Type 0 where
  pub key : Bool
  pub iv : Bool

-- `fopen(file, "wb")`: the file is empty then.
unfoldable pub truncated : Bool → Option String → Option String
truncated opened file = if opened then some "" else file

-- `nullptr` where nothing was read.
unfoldable pub read_bytes : Bytes → Option Bytes
read_bytes [] = none
read_bytes (b ∷ bs) = some (b ∷ bs)

module _ (ssl : OpenSsl) where
  unfoldable pub base64_encode : Bytes → String
  base64_encode input = ssl.bio_write input

  -- The buffer has a byte for each character of the text.
  unfoldable pub base64_decode : String → Option Bytes
  base64_decode input = read_bytes (ssl.bio_read input (len input))

  -- Both files are opened, then written.
  unfoldable pub save_keys : Bytes → Bytes → Writable → KeyFiles → Bool × KeyFiles
  save_keys key iv writable files =
      if not writable.key || not writable.iv
      then (
        false,
        record { key = truncated writable.key files.key; iv = truncated writable.iv files.iv },
      )
      else (true, record { key = some (base64_encode key); iv = some (base64_encode iv) })

  unfoldable pub random_keys : Option Bytes → Option Bytes → Writable → KeyFiles → Bool × KeyFiles
  random_keys none iv writable files = (false, files)
  random_keys (some key) none writable files = (false, files)
  random_keys (some key) (some iv) writable files = save_keys key iv writable files

  unfoldable pub aes_generate_and_save_keys : Writable → KeyFiles → Bool × KeyFiles
  aes_generate_and_save_keys writable files = random_keys ssl.rand_key ssl.rand_iv writable files

  unfoldable pub sized : ℕ → Option Bytes → Option Bytes
  sized buffer_size none = none
  sized buffer_size (some decoded) = if length decoded != buffer_size then none else some decoded

  -- `none` is the result -1.
  unfoldable pub aes_get_key_from_file : Option String → ℕ → Option Bytes
  aes_get_key_from_file none buffer_size = none
  aes_get_key_from_file (some encoded) buffer_size = sized buffer_size (base64_decode encoded)

  unfoldable pub encode_ciphertext : Option Bytes → String
  encode_ciphertext none = ""
  encode_ciphertext (some ciphertext) = base64_encode ciphertext

  unfoldable pub encrypt_with : Option Bytes → Option Bytes → String → String
  encrypt_with none iv plaintext = ""
  encrypt_with (some key) none plaintext = ""
  encrypt_with (some key) (some iv) plaintext = encode_ciphertext (ssl.encrypt key iv plaintext)

  unfoldable pub encrypt_from : KeyFiles → String → String
  encrypt_from files plaintext =
      encrypt_with (aes_get_key_from_file files.key aes_max_key_length)
        (aes_get_key_from_file files.iv aes_max_iv_length) plaintext

  unfoldable pub has_both : Option String → Option String → Bool
  has_both none iv = false
  has_both (some key) none = false
  has_both (some key) (some iv) = true

  -- The keys are made where one of the files is missing.
  unfoldable pub prepare_keys : Writable → KeyFiles → Bool × KeyFiles
  prepare_keys writable files =
      if has_both files.key files.iv
      then (true, files)
      else aes_generate_and_save_keys writable files

  -- The text, empty on any failure, and the files.
  unfoldable pub encrypt_string : Writable → KeyFiles → String → String × KeyFiles
  encrypt_string writable files plaintext =
      let (ready, files') = prepare_keys writable files in
      (if ready then encrypt_from files' plaintext else "", files')

  unfoldable pub decrypted : Option String → String
  decrypted none = ""
  decrypted (some plaintext) = plaintext

  unfoldable pub decrypt_bytes : Bytes → Bytes → Option Bytes → String
  decrypt_bytes key iv none = ""
  decrypt_bytes key iv (some []) = ""
  decrypt_bytes key iv (some (b ∷ bs)) = decrypted (ssl.decrypt key iv (b ∷ bs))

  unfoldable pub decrypt_with : Option Bytes → Option Bytes → String → String
  decrypt_with none iv b64_ciphertext = ""
  decrypt_with (some key) none b64_ciphertext = ""
  decrypt_with (some key) (some iv) b64_ciphertext =
      decrypt_bytes key iv (base64_decode b64_ciphertext)

  -- Empty on any failure.
  unfoldable pub decrypt_string : KeyFiles → String → String
  decrypt_string files b64_ciphertext =
      if is_empty b64_ciphertext
      then ""
      else if not (has_both files.key files.iv)
      then ""
      else decrypt_with (aes_get_key_from_file files.key aes_max_key_length)
          (aes_get_key_from_file files.iv aes_max_iv_length) b64_ciphertext
