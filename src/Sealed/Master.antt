-- ===== src/Sealed/Master.antt =====
-- `encryptMaster`, `decryptMasterXprv` and `decryptMasterSeed` of common/bip/evm_compatible.go with
-- `GenerateMasterXprv` of common/bip/parent.go.
use Prim.Native.String.{◌++◌ as ◌++s◌}
use walletus.Base.{
  ℕ, ◌*◌, String, Option, none, some, ◌++◌, Result, ok, err, ◌>>=◌, ◌>>◌, fail_if, not, Bool, true,
  false, ◌&&◌, ◌||◌, ◌==◌, nat_eq,
}
use walletus.Base.Decimal.{Bytes, codes}
use walletus.Base.Numerals.{hex_encode, hex_decode}
use walletus.Base.Split.{has_prefix, trim_prefix}
use walletus.Sealed.{CipherLib, fail_with, open_nonced}

pub record KdfParams : Type 0 where
  pub alg : String
  pub salt : Bytes  -- hex
  pub time : ℕ
  pub mem : ℕ
  pub par : ℕ

pub record EncMaster : Type 0 where
  pub enc_master_xprv : Bytes
  pub enc_master_seed : Bytes
  pub kdf : KdfParams

abbrev pub tenant_secret_password : Bytes
tenant_secret_password = codes "tenant_secret_password"

abbrev pub gcm_prefix : Bytes
gcm_prefix = codes "gcm:"

-- Behind the prefix of an error.
abbrev pub at_error : {A : Type 0} → String → Result String A → Result String A
at_error text (ok a) = ok a
at_error text (err e) = err (text ++s e)

-- `hex.DecodeString`, whose error has a text of its own.
abbrev pub or_hex_error : Option Bytes → Result String Bytes
or_hex_error none = err "hex decode salt failed"
or_hex_error (some salt) = ok salt

abbrev is_ok : Result String Bytes → Bool
is_ok (ok a) = true
is_ok (err text) = false

abbrev is_some : Option Bytes → Bool
is_some (some a) = true
is_some none = false

module _ (l : CipherLib) where
  open l use {
    base64_encode, base64_decode, cipher_error, nonce_size, gcm_seal, gcm_open, argon2_key,
  }

  abbrev pub sealed_master : (key salt nonce_prv nonce_seed plain seed : Bytes) → EncMaster
  sealed_master key salt nonce_prv nonce_seed plain seed = record {
    enc_master_xprv = gcm_prefix ++ base64_encode (nonce_prv ++ gcm_seal key nonce_prv plain);
    enc_master_seed = gcm_prefix ++ base64_encode (nonce_seed ++ gcm_seal key nonce_seed seed);
    kdf = record { alg = "argon2id"; salt = hex_encode salt; time = 3; mem = 64 * 1024; par = 1 };
  }

  -- `encryptMaster`, with the three texts that `rand.Read` draws; `must` ends the process.
  unfoldable pub encrypt_master :
      (salt nonce_prv nonce_seed plain seed password : Bytes) → Result String EncMaster
  encrypt_master salt nonce_prv nonce_seed plain seed password = do
    let key = argon2_key password salt 3 (64 * 1024) 1 32
    fail_with (cipher_error key)
    ok (sealed_master key salt nonce_prv nonce_seed plain seed)

  -- What the two functions below have in common; `field` is the text of the first error.
  unfoldable pub decrypt_text : String → Bytes → KdfParams → Bytes → Result String Bytes
  unfolding open_nonced
  decrypt_text field text kdf password = do
    fail_if (not (has_prefix text gcm_prefix)) field
    raw ← at_error "base64 decode failed: " (base64_decode (trim_prefix text gcm_prefix))
    salt ← or_hex_error (hex_decode kdf.salt)
    let key = argon2_key password salt kdf.time kdf.mem kdf.par 32
    at_error "aes cipher failed: " (fail_with (cipher_error key))
    open_nonced l (at_error "aes gcm open failed: ") key raw

  -- `argon2.IDKey` panics for a time or a parallelism of 0, if the decryption gets that far.
  unfoldable pub kdf_panics : Bytes → KdfParams → Bool
  kdf_panics text kdf =
      has_prefix text gcm_prefix
      && (is_ok (base64_decode (trim_prefix text gcm_prefix))
          && (is_some (hex_decode kdf.salt) && (kdf.time == 0 || kdf.par == 0)))

  unfoldable pub decrypt_master_xprv : EncMaster → Bytes → Result String Bytes
  unfolding decrypt_text
  decrypt_master_xprv enc = decrypt_text "bad enc_master_xprv format" enc.enc_master_xprv enc.kdf

  unfoldable pub decrypt_master_seed : EncMaster → Bytes → Result String Bytes
  unfolding decrypt_text
  decrypt_master_seed enc = decrypt_text "bad enc_master_seed format" enc.enc_master_seed enc.kdf

-- Packages bip39 and hdkeychain: a mnemonic of an entropy, its seed, and the text of the master key.
pub record SeedLib : Type 0 where
  pub new_mnemonic : Bytes → Result String String
  pub new_seed : String → Bytes
  pub new_master : Bytes → Result String Bytes

-- What is drawn at random: `bip39.NewEntropy(128)` may fail, `rand.Read` is not asked whether it did.
pub record Draws : Type 0 where
  pub entropy : Result String Bytes
  pub salt : Bytes
  pub nonce_prv : Bytes
  pub nonce_seed : Bytes

unfoldable pub generate_master_seed : SeedLib → Result String Bytes → Result String Bytes
generate_master_seed lib drawn = do
  entropy ← at_error "Generate entropy error: " drawn
  mnemonic ← at_error "Generate mnemonic error: " (lib.new_mnemonic entropy)
  ok (lib.new_seed mnemonic)

unfoldable pub generate_master_xprv : CipherLib → SeedLib → Draws → Result String EncMaster
unfolding generate_master_seed encrypt_master
generate_master_xprv l lib draws = do
  seed ← generate_master_seed lib draws.entropy
  master_xprv ← lib.new_master seed
  encrypt_master l draws.salt draws.nonce_prv draws.nonce_seed master_xprv seed
      tenant_secret_password
