-- ===== src/Sealed.antt =====
-- AES-GCM behind base64: cmd/modapi/security/aes.go, whose texts are the tokens, and the master keys
-- of common/bip/evm_compatible.go in `Sealed/Master`.
pub mod Master
pub mod Opened
use walletus.Base.{
  ℕ, zero, suc, String, Option, none, some, List, [], ◌∷◌, ◌++◌, Result, ok, err, ◌>>=◌, ◌>>◌,
  fail_if, ◌≡◌, length, take, drop, ltb,
}
use walletus.Base.Decimal.{Bytes, codes}

-- Packages crypto/aes, crypto/cipher, encoding/base64 and golang.org/x/crypto/argon2. A sealed text
-- ends with its tag; `cipher_error` is the error of `aes.NewCipher` or `NewGCM` for a key.
pub record CipherLib : Type 0 where
  pub base64_encode : Bytes → Bytes
  pub base64_decode : Bytes → Result String Bytes
  pub cipher_error : Bytes → Option String
  pub nonce_size : ℕ
  pub gcm_seal : Bytes → Bytes → Bytes → Bytes
  pub gcm_open : Bytes → Bytes → Bytes → Result String Bytes
  pub argon2_key : Bytes → Bytes → ℕ → ℕ → ℕ → ℕ → Bytes

-- What they document: decoding and opening are inverses, and a key of 16 or 32 bytes is good.
pub record IsCipherLib (l : CipherLib) : Type 0 where
  pub decode_encode : (s : Bytes) → l.base64_decode (l.base64_encode s) ≡ ok s
  pub open_seal : (key nonce s : Bytes) → l.gcm_open key nonce (l.gcm_seal key nonce s) ≡ ok s
  pub aes_128 : (key : Bytes) → length key ≡ 16 → l.cipher_error key ≡ none
  pub aes_256 : (key : Bytes) → length key ≡ 32 → l.cipher_error key ≡ none
  pub length_argon2 :
      (password salt : Bytes) (t m p n : ℕ) → length (l.argon2_key password salt t m p n) ≡ n

-- `if err != nil { return "", err }` on an error that may be there.
abbrev pub fail_with : {E : Type 0} → Option E → Result E (Unit {0})
fail_with none = ok tt
fail_with (some text) = err text

-- `var key`
abbrev pub token_key : Bytes
token_key = codes "0123456789abcdef"

module _ (l : CipherLib) where
  open l use {base64_encode, base64_decode, cipher_error, nonce_size, gcm_seal, gcm_open}

  -- `Encrypt`, with what `io.ReadFull(rand.Reader, nonce)` gives.
  unfoldable pub encrypt : Result String Bytes → Bytes → Result String Bytes
  encrypt random plaintext = do
    fail_with (cipher_error token_key)
    nonce ← random
    ok (base64_encode (nonce ++ gcm_seal token_key nonce plaintext))

  -- The nonce stands in front of a sealed text; `wrap` is what is done to an error of `Open`.
  unfoldable pub open_nonced :
      (Result String Bytes → Result String Bytes) → Bytes → Bytes → Result String Bytes
  open_nonced wrap key text = do
    fail_if (ltb (length text) nonce_size) "ciphertext too short"
    wrap (gcm_open key (take nonce_size text) (drop nonce_size text))

  -- `Decrypt`
  unfoldable pub decrypt : Bytes → Result String Bytes
  unfolding open_nonced
  decrypt encrypted = do
    ciphertext ← base64_decode encrypted
    fail_with (cipher_error token_key)
    open_nonced (λ opened. opened) token_key ciphertext
