-- ===== src/Tests/Wallet.antt =====
-- `WalletCreate` on tables in memory.
use walletus.Base.{none, List, [], ok, refl, ◌≡◌, if◌then◌else◌, ◌==◌, string_eq}
use walletus.Base.Decimal.{Bytes, codes}
use walletus.Bip.{check_valid_chain_code}
use walletus.Bip.Derive.{
  generate_evm_derivation_chain, derive_evm_address_from_xpub, derive_path, chain_address,
}
use walletus.Gorm.Memory.{mem_table, mem_table-IsTable, mem_table-IsApart}
use walletus.Model.{Tenant, TenantChain, TenantAddress, tenant_chain_key, tenant_address_key}
use walletus.Tests.Bip.{key_lib}
use walletus.Base.Numerals.{hex_decode}
use walletus.Base.Split.{has_prefix, trim_prefix}
use walletus.Sealed.{open_nonced}
use walletus.Sealed.Master.{decrypt_master_xprv, decrypt_text, kdf_panics}
use walletus.Tests.Access.{toy}
use walletus.Wallet.{
  WalletEnv, IsWalletEnv, generate_derivation_chain, derive_address_from_xpub, chain_for,
  address_for,
}
use walletus.Wallet.Create.{
  WalletCreateRequest, wallet_create, with_chain, with_kdf, issue, finish, commit, chain_or_new,
  address_or_new, save_new_address, rolled_back,
}
use walletus.Wallet.Issued.{IsOutcome, wallet_create-IsOutcome}

record ChainDb : Type 0 where
  chains : List TenantChain
  addresses : List TenantAddress

abbrev env : WalletEnv
env = record {
  Db = ChainDb;
  tenant_chains = mem_table tenant_chain_key (λ d. d.chains) (λ xs d. record d { chains = xs });
  tenant_addresses =
      mem_table tenant_address_key (λ d. d.addresses) (λ xs d. record d { addresses = xs });
  commit_error = λ db. none;
  curve = key_lib;
  ciphers = toy;
  unmarshal_kdf = λ s. ok (record {
    alg = "argon2id";
    salt = [];
    time = if s == "" then 3 else 0;
    mem = 65536;
    par = 1;
  });
  text_of = λ s. "xprv";
  Node = Bytes;
  derive_for_path = λ path seed. ok seed;
  public_bytes = λ node. node;
}

env-IsWalletEnv : IsWalletEnv env
unfolding mem_table
env-IsWalletEnv = record {
  addresses_table =
      mem_table-IsTable tenant_address_key (λ (d : ChainDb). d.addresses)
        (λ xs d. record d { addresses = xs }) (λ n r. refl) (λ xs db. refl);
  chains_apart =
      mem_table-IsApart tenant_chain_key (λ (d : ChainDb). d.chains)
        (λ xs d. record d { chains = xs }) env.tenant_addresses (λ xs db. refl);
}

abbrev tenant : Tenant
tenant = record {
  id = 12;
  unique_id = "";
  name = "";
  desc = "";
  enc_master_xprv = codes "gcm:nnxprv";
  enc_master_seed = [];
  kdf_params = "";
  add_time = 0;
  version = "";
  callback = "";
  flag = 0;
  api_id = 1;
}

abbrev request : WalletCreateRequest
request = record { tenant_id = 12; unique_id = 3; chain = "ETH" }

abbrev no_rows : ChainDb
no_rows = record { chains = []; addresses = [] }

unfoldable creating : Unit {0}
unfolding wallet_create with_chain with_kdf issue finish commit chain_or_new address_or_new
    save_new_address generate_derivation_chain derive_address_from_xpub check_valid_chain_code
    generate_evm_derivation_chain derive_evm_address_from_xpub derive_path chain_address mem_table
    chain_for address_for kdf_panics decrypt_master_xprv decrypt_text open_nonced has_prefix
    trim_prefix hex_decode
creating = tt

-- With a time of 0 the call answers the zero values, and saves nothing.
wallet_create-panics :
    wallet_create env request (record tenant { kdf_params = "0" }) 5 no_rows
    ≡ (ok (0, ""), no_rows, rolled_back)
unfolding creating
wallet_create-panics = refl

-- The first call saves the chain and the address.
wallet_create-run : (wallet_create env request tenant 5 no_rows).0 ≡ ok (1, "0xaddress")
unfolding creating
wallet_create-run = refl

wallet_create-IsOutcome_example :
    IsOutcome env request tenant no_rows (wallet_create env request tenant 5 no_rows)
wallet_create-IsOutcome_example =
    wallet_create-IsOutcome env request tenant env-IsWalletEnv 5 no_rows
