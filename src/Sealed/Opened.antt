-- ===== src/Sealed/Opened.antt =====
-- What has been sealed is opened again.
use walletus.Base.{
  ◌*◌, ◌<◌, String, ◌++◌, Result, ok, ◌≡◌, refl, sym, ap, ◌∙◌, arith, length, ltb, All,
  length-append, take_front, drop_front, false,
}
use walletus.Base.Decimal.{Bytes}
use walletus.Base.Numerals.{hex_encode, hex_decode-hex_encode}
use walletus.Base.Split.{has_prefix-append, trim_prefix-append}
use walletus.Sealed.{CipherLib, IsCipherLib, open_nonced, token_key, encrypt, decrypt}
use walletus.Sealed.Master.{
  EncMaster, gcm_prefix, at_error, sealed_master, encrypt_master, decrypt_text, decrypt_master_xprv,
  decrypt_master_seed,
}

module _ (l : CipherLib) (laws : IsCipherLib l) where
  open l use {
    base64_encode, base64_decode, cipher_error, nonce_size, gcm_seal, gcm_open, argon2_key,
  }

  -- The nonce is cut off where it was put on.
  open_nonced_lem :
      (wrap : Result String Bytes → Result String Bytes) (key nonce s : Bytes)
      → length nonce ≡ nonce_size
      → wrap (ok s) ≡ ok s
      → open_nonced l wrap key (nonce ++ gcm_seal key nonce s) ≡ ok s
  unfolding open_nonced
  open_nonced_lem wrap key nonce s size plain =
      let long : ltb (length (nonce ++ gcm_seal key nonce s)) nonce_size ≡ false =
        ground (arith, size, length-append nonce (gcm_seal key nonce s)) in
      rw
        (
          long,
          take_front nonce_size nonce (gcm_seal key nonce s) size,
          drop_front nonce_size nonce (gcm_seal key nonce s) size,
          laws.open_seal key nonce s,
        )
        plain

  -- A text that is encrypted with a whole nonce is decrypted to itself.
  pub decrypt-encrypt :
      (nonce s : Bytes) {sealed : Bytes}
      → length nonce ≡ nonce_size
      → encrypt l (ok nonce) s ≡ ok sealed
      → decrypt l sealed ≡ ok s
  unfolding encrypt decrypt
  decrypt-encrypt nonce s {sealed} size h =
      let good = laws.aes_128 token_key refl in
      let e : base64_encode (nonce ++ gcm_seal token_key nonce s) ≡ sealed =
        ground (arith, h, good) in
      ap (decrypt l) (sym e)
      ∙ rw (laws.decode_encode (nonce ++ gcm_seal token_key nonce s), good)
          (open_nonced_lem (λ opened. opened) token_key nonce s size refl)

  decrypt_text_lem :
      (field : String) (salt nonce s password : Bytes)
      → All (λ b. b < 256) salt
      → length nonce ≡ nonce_size
      → let key = argon2_key password salt 3 (64 * 1024) 1 32 in
        decrypt_text l field
          (gcm_prefix ++ base64_encode (nonce ++ gcm_seal key nonce s))
          (record { alg = "argon2id"; salt = hex_encode salt; time = 3; mem = 64 * 1024; par = 1 })
          password
        ≡ ok s
  unfolding decrypt_text
  decrypt_text_lem field salt nonce s password bytes size =
      let key = argon2_key password salt 3 (64 * 1024) 1 32 in
      let sealed = base64_encode (nonce ++ gcm_seal key nonce s) in
      rw
        (
          has_prefix-append gcm_prefix sealed,
          trim_prefix-append gcm_prefix sealed,
          laws.decode_encode (nonce ++ gcm_seal key nonce s),
          hex_decode-hex_encode salt bytes,
          laws.aes_256 key (laws.length_argon2 password salt 3 (64 * 1024) 1 32),
        )
        (open_nonced_lem (at_error "aes gcm open failed: ") key nonce s size refl)

  -- Encrypting a master key and its seed under a password, with a salt of bytes and with whole
  -- nonces, gives texts that are decrypted to the key and the seed under that password.
  pub decrypt_master-encrypt_master :
      (salt nonce_prv nonce_seed plain seed password : Bytes)
      → All (λ b. b < 256) salt
      → length nonce_prv ≡ nonce_size
      → length nonce_seed ≡ nonce_size
      → (enc : EncMaster) × (encrypt_master l salt nonce_prv nonce_seed plain seed password
          ≡ ok enc)
        × (decrypt_master_xprv l enc password ≡ ok plain)
        × (decrypt_master_seed l enc password ≡ ok seed)
  unfolding encrypt_master decrypt_master_xprv decrypt_master_seed
  decrypt_master-encrypt_master salt nonce_prv nonce_seed plain seed password bytes size size' =
      let good =
        laws.aes_256 (argon2_key password salt 3 (64 * 1024) 1 32)
          (laws.length_argon2 password salt 3 (64 * 1024) 1 32) in
      (
        sealed_master l (argon2_key password salt 3 (64 * 1024) 1 32) salt nonce_prv nonce_seed
            plain seed,
        rw good refl,
        decrypt_text_lem "bad enc_master_xprv format" salt nonce_prv plain password bytes size,
        decrypt_text_lem "bad enc_master_seed format" salt nonce_seed seed password bytes size',
      )
