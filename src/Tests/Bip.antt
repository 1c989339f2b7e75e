-- ===== src/Tests/Bip.antt =====
-- The derivation of addresses over a small library of keys.
use walletus.Base.{String, [], ok, ◌≡◌, refl, arith, ◌==◌, string_eq, ap, sym}
use walletus.Base.Decimal.{codes, format, parse_uint, format}
use walletus.Bip.Path.{address_path, parse_bip44_path, parse_segments, chain_path}
use walletus.Base.Split.{split}
use walletus.Bip.Derive.{
  KeyLib, IsKeyLib, ChainDerivedPath, derive_path, generate_evm_derivation_chain, chain_address,
  derive_evm_address_from_xpub, derive_child_xprv, address_and_priv_from_path,
}
use walletus.Bip.Spendable.{derive_evm_address_from_xpub-address_and_priv_from_path}
use walletus.Chain.{chain_def}

-- One private key, "xprv", and its neutered key, "xpub".
abbrev pub key_lib : KeyLib
key_lib = record {
  Enc = String;
  Key = String;
  Priv = String;
  Pub = String;
  decrypt_master_xprv = λ enc. ok enc;
  new_key_from_string = λ s. ok s;
  string = λ k. k;
  child = λ k i. ok k;
  neuter = λ k. ok "xpub";
  is_private = λ k. k == "xprv";
  ec_pub_key = λ k. ok "point";
  ec_priv_key = λ k. ok "scalar";
  public = λ p. "point";
  address_hex = λ p. "0xaddress";
  address_bytes = λ p. [];
  sha256 = λ s. s;
  base58 = λ s. "T";
}

key_lib-IsKeyLib : IsKeyLib key_lib
key_lib-IsKeyLib = record {
  reads_back = λ k. refl;
  neuter_public = λ k n h. let e : "xpub" ≡ n = ground (arith, h) in ap (λ k. k == "xprv") (sym e);
  neuter_child = λ k n c i small h g. (n, refl, h);
  public_of = λ k n priv h g. refl;
}

abbrev cdp : ChainDerivedPath
cdp = record { chain = chain_def "ETH" 60; derived_path = codes "m/44'/60'/12'/0"; x_pub = "xpub" }

derive_evm_address_from_xpub-address_and_priv_from_path_example :
    derive_evm_address_from_xpub key_lib "xpub" 12 3 (chain_def "ETH" 60)
    ≡ ok ("0xaddress", address_path 60 12 3)
unfolding generate_evm_derivation_chain address_and_priv_from_path derive_child_xprv derive_path
    chain_address address_path chain_path format parse_bip44_path parse_segments split parse_uint
derive_evm_address_from_xpub-address_and_priv_from_path_example =
    derive_evm_address_from_xpub-address_and_priv_from_path key_lib key_lib-IsKeyLib "xprv"
      (chain_def "ETH" 60) 12 3 cdp "0xaddress" "scalar" (omega arith) (omega arith) (omega arith)
      refl refl
