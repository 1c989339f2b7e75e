-- ===== src/Bip/Derive.antt =====
-- The keys and addresses of common/bip/evm_compatible.go, over the libraries that it calls.
use walletus.Base.{
  ℕ, ◌^◌, ◌<◌, String, Bool, true, false, not, List, [], ◌∷◌, ◌++◌, Result, ok, err, ◌>>=◌, ◌>>◌,
  fail_if, ◌≡◌, ◌==◌, string_eq, if◌then◌else◌, take,
}
use walletus.Base.Decimal.{Bytes}
use walletus.Bip.Path.{PathError, index, parse_bip44_path, tail, chain_path, address_path}
use walletus.Chain.{ChainDef}

-- Package hdkeychain, the elliptic curve, the hashes and encodings of addresses, and the
-- decryption of a tenant's master key (Argon2id and AES-GCM). An error has its text.
pub record KeyLib : Type 1 where
  pub Enc : Type 0
  pub Key : Type 0
  pub Priv : Type 0
  pub Pub : Type 0
  pub decrypt_master_xprv : Enc → Result String String
  pub new_key_from_string : String → Result String Key
  pub string : Key → String
  pub child : Key → ℕ → Result String Key
  pub neuter : Key → Result String Key
  pub is_private : Key → Bool
  pub ec_pub_key : Key → Result String Pub
  pub ec_priv_key : Key → Result String Priv
  pub public : Priv → Pub
  pub address_hex : Pub → String
  pub address_bytes : Pub → Bytes
  pub sha256 : Bytes → Bytes
  pub base58 : Bytes → String

-- What BIP32 promises of them.
pub record IsKeyLib (l : KeyLib) : Type 0 where
  -- an extended key is read back from its text
  pub reads_back : (k : l.Key) → l.new_key_from_string (l.string k) ≡ ok k
  pub neuter_public : (k n : l.Key) → l.neuter k ≡ ok n → l.is_private n ≡ false
  -- N(CKDpriv(k, i)) = CKDpub(N(k), i) for an index that is not hardened
  pub neuter_child :
      (k n c : l.Key) (i : ℕ)
      → i < 2 ^ 31
      → l.neuter k ≡ ok n
      → l.child k i ≡ ok c
      → (m : l.Key) × (l.child n i ≡ ok m) × (l.neuter c ≡ ok m)
  -- the public key of a neutered key is that of the private key
  pub public_of :
      (k n : l.Key) (priv : l.Priv)
      → l.neuter k ≡ ok n
      → l.ec_priv_key k ≡ ok priv
      → l.ec_pub_key n ≡ ok (l.public priv)

pub data DeriveError : Type 0 where
  lib_error : String → DeriveError
  path_error : PathError → DeriveError
  unsupported_chain : String → DeriveError
  expected_xpub not_private : DeriveError

pub record ChainDerivedPath : Type 0 where
  pub chain : ChainDef
  pub derived_path : Bytes
  pub x_pub : String

-- `return …, err`
abbrev pub lib : {A : Type 0} → Result String A → Result DeriveError A
lib (ok a) = ok a
lib (err text) = err (lib_error text)

abbrev pub from_path : {A : Type 0} → Result PathError A → Result DeriveError A
from_path (ok a) = ok a
from_path (err p) = err (path_error p)

module _ (l : KeyLib) where
  open l use {
    Enc, Key, Priv, Pub, decrypt_master_xprv, new_key_from_string, string, child, neuter,
    is_private, ec_pub_key, ec_priv_key, public, address_hex, address_bytes, sha256, base58,
  }

  -- The loop of `derivePathMust`, and of `DeriveChildXprv` behind the "m".
  unfoldable pub derive_path : Key → List ℕ → Result DeriveError Key
  derive_path key [] = ok key
  derive_path key (i ∷ is) = do key' ← lib (child key i); derive_path key' is

  unfoldable pub generate_evm_derivation_chain :
      ℕ → Enc → ChainDef → Result DeriveError ChainDerivedPath
  generate_evm_derivation_chain tenant enc chain = do
    plain_master ← lib (decrypt_master_xprv enc)
    master ← lib (new_key_from_string plain_master)
    node ← derive_path master (index 44 true ∷ index chain.coin_type true ∷ index tenant true ∷ [])
    xpub_node ← lib (neuter node)
    ok (record {
      chain = chain;
      derived_path = chain_path chain.coin_type tenant;
      x_pub = string xpub_node;
    })

  -- `tronAddressFromPub`, which the two switches repeat: Base58Check(0x41 || the 20 bytes).
  abbrev pub tron_address : Pub → String
  tron_address p = let raw = 65 ∷ address_bytes p in base58 (raw ++ take 4 (sha256 (sha256 raw)))

  -- The `switch` on the chain.
  unfoldable pub chain_address : String → Pub → Result DeriveError String
  chain_address name p =
      if name == "ETH"
      then ok (address_hex p)
      else if name == "BSC"
      then ok (address_hex p)
      else if name == "OP"
      then ok (address_hex p)
      else if name == "ARB"
      then ok (address_hex p)
      else if name == "POLYGON"
      then ok (address_hex p)
      else if name == "TRON"
      then ok (tron_address p)
      else err (unsupported_chain name)

  unfoldable pub derive_evm_address_from_xpub :
      String → ℕ → ℕ → ChainDef → Result DeriveError (String × Bytes)
  derive_evm_address_from_xpub xpub tenant i chain = do
    node ← lib (new_key_from_string xpub)
    fail_if (is_private node) expected_xpub
    ext ← lib (child node 0)
    leaf ← lib (child ext i)
    p ← lib (ec_pub_key leaf)
    addr ← chain_address chain.name p
    ok (addr, address_path chain.coin_type tenant i)

  unfoldable pub derive_child_xprv : Enc → Bytes → Result DeriveError Key
  derive_child_xprv enc path = do
    plain ← lib (decrypt_master_xprv enc)
    master ← lib (new_key_from_string plain)
    idxs ← from_path (parse_bip44_path path)
    node ← derive_path master (tail idxs)
    fail_if (not (is_private node)) not_private
    ok node

  unfoldable pub address_and_priv_from_path :
      Enc → Bytes → String → Result DeriveError (String × Priv)
  address_and_priv_from_path enc path chain_code = do
    leaf ← derive_child_xprv enc path
    priv ← lib (ec_priv_key leaf)
    addr ← chain_address chain_code (public priv)
    ok (addr, priv)
