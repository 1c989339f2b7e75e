-- ===== src/Rpc/Tron/Encoded.antt =====
-- The addresses that common/bip derives for TRON, in the form that common/chain/tron/client.go
-- sends to the token contracts.
use walletus.Base.{
  ℕ, zero, suc, ◌<◌, String, [], ◌∷◌, ◌++◌, length, take, drop, ok, nat_eq, ◌≡◌, refl, All,
  All-append, arith, some, length-append, length-take, take_front, drop_front,
}
use walletus.Base.Decimal.{Bytes, same_bytes_refl}
use walletus.Base.Numerals.{hex_encode, hex_decode, hex_decode-hex_encode, length-hex_encode}
use walletus.Bip.Derive.{KeyLib, tron_address}
use walletus.Rpc.Tron.{
  TronEnv, base58_address_to_hex, encode_balance_of_parameter, zero_bytes, checksum,
}

-- What the packages promise that both sides use: Base58 is read back, an address has 20 bytes, and
-- SHA-256 gives 32.
pub record IsShared (l : KeyLib) (e : TronEnv) : Type 0 where
  pub reads_back :
      (bytes : Bytes) → All (λ b. b < 256) bytes → e.base58_decode (l.base58 bytes) ≡ ok bytes
  pub same_hash : (bytes : Bytes) → e.sha256 bytes ≡ l.sha256 bytes
  pub hash_length : (bytes : Bytes) → length (l.sha256 bytes) ≡ 32
  pub hash_bytes : (bytes : Bytes) → All (λ b. b < 256) (l.sha256 bytes)
  pub address_length : (p : l.Pub) → length (l.address_bytes p) ≡ 20
  pub address_bytes : (p : l.Pub) → All (λ b. b < 256) (l.address_bytes p)

length-zero_bytes : (n : ℕ) → length (zero_bytes n) ≡ n
length-zero_bytes zero = refl
length-zero_bytes (suc n) = omega (arith, length-zero_bytes n)

zero_bytes-All : (n : ℕ) → All (λ b. b < 256) (zero_bytes n)
zero_bytes-All zero = tt
zero_bytes-All (suc n) = (omega arith, zero_bytes-All n)

take-All : (n : ℕ) (s : Bytes) → All (λ b. b < 256) s → All (λ b. b < 256) (take n s)
take-All zero s h = tt
take-All (suc n) [] h = tt
take-All (suc n) (b ∷ s) h = (h.0, take-All n s h.1)

module _ (l : KeyLib) (e : TronEnv) (h : IsShared l e) where
  -- The checks pass on a decoded address of the right form.
  decoded_lem :
      (address : String) (bytes check : Bytes)
      → e.base58_decode address ≡ ok (65 ∷ (bytes ++ check))
      → length bytes ≡ 20
      → length check ≡ 4
      → checksum e (65 ∷ bytes) ≡ check
      → base58_address_to_hex e address ≡ ok bytes
  unfolding base58_address_to_hex
  decoded_lem address bytes check decoded long short sum =
      let size : length (65 ∷ (bytes ++ check)) ≡ 25 = omega (arith, length-append bytes check) in
      let front : take 20 (bytes ++ check) ≡ bytes = take_front 20 bytes check long in
      let back : drop 20 (bytes ++ check) ≡ check = drop_front 20 bytes check long in
      rw (decoded, size, front, back, sum, same_bytes_refl check) refl

  -- Reading a derived TRON address back gives the 20 bytes of its public key's address.
  base58_address_to_hex-tron_address :
      (p : l.Pub) → base58_address_to_hex e (tron_address l p) ≡ ok (l.address_bytes p)
  base58_address_to_hex-tron_address p =
      let bytes = l.address_bytes p in
      let check = take 4 (l.sha256 (l.sha256 (65 ∷ bytes))) in
      let form : All (λ b. b < 256) (65 ∷ (bytes ++ check)) = (
        omega arith,
        All-append (λ b. b < 256) bytes check (h.address_bytes p)
            (take-All 4 (l.sha256 (l.sha256 (65 ∷ bytes))) (h.hash_bytes (l.sha256 (65 ∷ bytes)))),
      ) in
      decoded_lem (tron_address l p) bytes check (h.reads_back (65 ∷ (bytes ++ check)) form)
        (h.address_length p)
        (omega (
          arith,
          length-take 4 (l.sha256 (l.sha256 (65 ∷ bytes))),
          h.hash_length (l.sha256 (65 ∷ bytes)),
        ))
        (rw (h.same_hash (65 ∷ bytes), h.same_hash (l.sha256 (65 ∷ bytes))) refl)

  -- The parameter that is sent for a derived TRON address has 64 hexadecimal digits, which stand for
  -- 12 zeros and the 20 bytes of the address.
  pub encode_balance_of_parameter-tron_address :
      (p : l.Pub)
      → (parameter : Bytes) × (encode_balance_of_parameter e (tron_address l p) ≡ ok parameter)
        × (length parameter ≡ 64)
        × (hex_decode parameter ≡ some (zero_bytes 12 ++ l.address_bytes p))
  unfolding encode_balance_of_parameter
  encode_balance_of_parameter-tron_address p =
      let bytes = l.address_bytes p in
      (
        hex_encode (zero_bytes 12 ++ bytes),
        rw (base58_address_to_hex-tron_address p, h.address_length p) refl,
        omega (
          arith,
          length-hex_encode (zero_bytes 12 ++ bytes),
          length-append (zero_bytes 12) bytes,
          h.address_length p,
          length-zero_bytes 12,
        ),
        hex_decode-hex_encode (zero_bytes 12 ++ bytes) (
            All-append (λ b. b < 256) (zero_bytes 12) bytes (zero_bytes-All 12)
              (h.address_bytes p)),
      )
