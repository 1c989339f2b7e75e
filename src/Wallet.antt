-- ===== src/Wallet.antt =====
-- `service.WalletCreate` of cmd/modapi/service/wallet.go, and what common/bip/parent.go and sol.go
-- do for it.
pub mod Create
pub mod Panics
pub mod Issued
use walletus.Base.{
  ℕ, String, Option, Result, ok, err, ◌==◌, string_eq, nat_eq, if◌then◌else◌, ◌++◌, ◌>>=◌, Bool,
  true, false,
}
use walletus.Base.Decimal.{Bytes, codes, format}
use walletus.Bip.{check_valid_chain_code}
use walletus.Bip.Derive.{
  KeyLib, DeriveError, unsupported_chain, ChainDerivedPath, lib, generate_evm_derivation_chain,
  derive_evm_address_from_xpub,
}
use walletus.Chain.{ChainDef, supported_sol}
use walletus.Gorm.{Table, DbError, IsTable, IsApart}
use walletus.Sealed.{CipherLib}
use walletus.Sealed.Master.{
  KdfParams, EncMaster, tenant_secret_password, decrypt_master_xprv, decrypt_master_seed,
  kdf_panics,
}
use walletus.Model.{Tenant, TenantChain, TenantAddress, tenant_chain_key, tenant_address_key}

-- The database, the key library with its own decryption left unused, the ciphers, `json.Unmarshal`
-- of the parameters of the key derivation, the text of decrypted bytes, and packages slip10 and
-- base58 for Solana: the node of a path below a seed, and its public key.
pub record WalletEnv : Type 1 where
  pub Db : Type 0
  pub tenant_chains : Table Db TenantChain
  pub tenant_addresses : Table Db TenantAddress
  pub commit_error : Db → Option String
  pub curve : KeyLib
  pub ciphers : CipherLib
  pub unmarshal_kdf : String → Result String KdfParams
  pub text_of : Bytes → String
  pub Node : Type 0
  pub derive_for_path : Bytes → Bytes → Result String Node
  pub public_bytes : Node → Bytes

pub record IsWalletEnv (e : WalletEnv) : Type 0 where
  pub addresses_table : IsTable tenant_address_key e.tenant_addresses
  pub chains_apart : IsApart e.tenant_chains e.tenant_addresses

-- A derivation stops with an error, or by a panic of Argon2.
pub data Stop : Type 0 where
  derive_error : DeriveError → Stop
  argon2_panics : Stop

abbrev pub from_derive : {A : Type 0} → Result DeriveError A → Result Stop A
from_derive (ok a) = ok a
from_derive (err x) = err (derive_error x)

-- What is computed unless the key derivation before it panics.
abbrev pub unless_panic : {A : Type 0} → Bool → Result DeriveError A → Result Stop A
unless_panic true r = err argon2_panics
unless_panic false r = from_derive r

abbrev pub to_text : (Bytes → String) → Result String Bytes → Result String String
to_text f (ok s) = ok (f s)
to_text f (err x) = err x

module _ (e : WalletEnv) where
  open e use {curve, ciphers, text_of, derive_for_path, public_bytes}

  -- The key library with the tenant's master key under the password in the code.
  abbrev pub keys : KeyLib
  keys = record {
    Enc = EncMaster;
    Key = curve.Key;
    Priv = curve.Priv;
    Pub = curve.Pub;
    decrypt_master_xprv =
        λ enc. to_text text_of (decrypt_master_xprv ciphers enc tenant_secret_password);
    new_key_from_string = curve.new_key_from_string;
    string = curve.string;
    child = curve.child;
    neuter = curve.neuter;
    is_private = curve.is_private;
    ec_pub_key = curve.ec_pub_key;
    ec_priv_key = curve.ec_priv_key;
    public = curve.public;
    address_hex = curve.address_hex;
    address_bytes = curve.address_bytes;
    sha256 = curve.sha256;
    base58 = curve.base58;
  }

  -- `DeriveSOL`: the path of an address, with a further level but for the first one.
  unfoldable pub sol_path : ℕ → ℕ → Bytes
  sol_path tenant i =
      let account = codes "m/44'/501'/" ++ (format tenant ++ codes "'/0'") in
      if i == 0 then account else account ++ (codes "/" ++ (format i ++ codes "'"))

  -- `deriveSOLFromSeed`
  unfoldable pub derive_sol_from_seed : Bytes → Bytes → Result DeriveError (String × Bytes)
  derive_sol_from_seed seed path = do
    node ← lib (derive_for_path path seed)
    ok (curve.base58 (public_bytes node), path)

  unfoldable pub derive_sol : EncMaster → ℕ → ℕ → Result Stop (String × Bytes)
  unfolding sol_path derive_sol_from_seed
  derive_sol enc tenant i = unless_panic (kdf_panics ciphers enc.enc_master_seed enc.kdf) (do
    seed ← lib (decrypt_master_seed ciphers enc tenant_secret_password)
    derive_sol_from_seed seed (sol_path tenant i))

  abbrev generate_sol_derivation_chain : ℕ → ChainDerivedPath
  generate_sol_derivation_chain tenant = record {
    chain = supported_sol;
    derived_path = codes "m/44'/501'/" ++ (format tenant ++ codes "'/0'");
    x_pub = "";
  }

  -- The chain that the code names, or the error of `CheckValidChainCode`. The derivation for an EVM
  -- chain or TRON decrypts the master key first.
  unfoldable pub chain_for :
      Result String ChainDef → ℕ → EncMaster → String → Result Stop ChainDerivedPath
  chain_for (err _) tenant enc code = err (derive_error (unsupported_chain code))
  chain_for (ok chain) tenant enc code =
      if chain.name == "SOLANA"
      then ok (generate_sol_derivation_chain tenant)
      else unless_panic (kdf_panics ciphers enc.enc_master_xprv enc.kdf)
          (generate_evm_derivation_chain keys tenant enc chain)

  unfoldable pub generate_derivation_chain : ℕ → EncMaster → String → Result Stop ChainDerivedPath
  unfolding chain_for
  generate_derivation_chain tenant enc code =
      chain_for (check_valid_chain_code code) tenant enc code

  unfoldable pub address_for :
      Result String ChainDef → EncMaster → String → ℕ → ℕ → String → Result Stop (String × Bytes)
  unfolding derive_sol
  address_for (err _) enc xpub tenant i code = err (derive_error (unsupported_chain code))
  address_for (ok chain) enc xpub tenant i code =
      if chain.name == "SOLANA"
      then derive_sol enc tenant i
      else from_derive (derive_evm_address_from_xpub keys xpub tenant i chain)

  unfoldable pub derive_address_from_xpub :
      EncMaster → String → ℕ → ℕ → String → Result Stop (String × Bytes)
  unfolding address_for
  derive_address_from_xpub enc xpub tenant i code =
      address_for (check_valid_chain_code code) enc xpub tenant i code
