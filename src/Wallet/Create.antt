-- ===== src/Wallet/Create.antt =====
-- The function `WalletCreate` of the service.
use walletus.Base.{
  ℕ, ◌%◌, ◌^◌, String, Option, none, some, Bool, ◌&&◌, Result, ok, err, ◌>>=◌, ◌==◌, string_eq,
  nat_eq, if◌then◌else◌,
}
use walletus.Base.Decimal.{Bytes}
use walletus.Bip.{check_valid_chain_code}
use walletus.Bip.Derive.{DeriveError, ChainDerivedPath}
use walletus.Chain.{ChainDef}
use walletus.Gorm.{DbError, not_found, failed}
use walletus.Model.{Tenant, TenantChain, TenantAddress}
use walletus.Sealed.Master.{KdfParams, EncMaster}
use walletus.Wallet.{
  WalletEnv, Stop, derive_error, argon2_panics, generate_derivation_chain, derive_address_from_xpub,
}

pub record WalletCreateRequest : Type 0 where
  pub tenant_id : ℕ
  pub unique_id : ℕ  -- uint32
  pub chain : String

-- The errors, in the order of the code; each prints what it holds.
pub data WalletError : Type 0 where
  unsupport_chain : String → WalletError
  kdf_params : String → WalletError
  unknown : DbError → WalletError
  derivation_chain : DeriveError → WalletError
  save_chain : DbError → WalletError
  derive_address : DeriveError → WalletError
  save_address : DbError → WalletError
  commit_failed : String → WalletError

-- What has become of the transaction when the function returns.
pub data TxEnd : Type 0 where
  not_begun committed rolled_back left_open : TxEnd

-- The address was there, or has been saved.
pub data Issue : Type 0 where
  existing : TenantAddress → Issue
  saved : TenantAddress → String → Issue

-- How the steps inside the transaction end early: with an error, or by a panic.
pub data Failure : Type 0 where
  refused : WalletError → Failure
  panicked : Failure

abbrev pub or_error : {A : Type 0} → (DbError → WalletError) → Result DbError A → Result Failure A
or_error f (ok a) = ok a
or_error f (err x) = err (refused (f x))

abbrev pub or_stop : {A : Type 0} → (DeriveError → WalletError) → Result Stop A → Result Failure A
or_stop f (ok a) = ok a
or_stop f (err (derive_error x)) = err (refused (f x))
or_stop f (err argon2_panics) = err panicked

module _ (e : WalletEnv) where
  open e use {Db, tenant_chains, tenant_addresses, commit_error, unmarshal_kdf}

  abbrev new_chain : ℕ → Tenant → ChainDef → ChainDerivedPath → TenantChain
  new_chain now tenant chain path = record {
    id = 0;
    tenant_id = tenant.id;
    chain = chain.name;
    coin_type = chain.coin_type;
    x_pub = path.x_pub;
    derived_path = path.derived_path;
    add_time = now;
  }

  -- The tenant's row for the chain, made if the query finds none.
  unfoldable pub chain_or_new :
      Result DbError TenantChain
      → Tenant
      → ChainDef
      → EncMaster
      → ℕ
      → Db
      → Result Failure (TenantChain × Db)
  chain_or_new (ok row) tenant chain enc now db = ok (row, db)
  chain_or_new (err (failed text)) tenant chain enc now db = err (refused (unknown (failed text)))
  chain_or_new (err not_found) tenant chain enc now db = do
    path ←
        or_stop derivation_chain (generate_derivation_chain e (tenant.id % 2 ^ 32) enc chain.name)
    or_error save_chain (tenant_chains.save (new_chain now tenant chain path) db)

  abbrev pub is_chain_of : WalletCreateRequest → TenantChain → Bool
  is_chain_of request row = row.tenant_id == request.tenant_id && row.chain == request.chain

  abbrev pub is_address_of : WalletCreateRequest → Tenant → TenantChain → TenantAddress → Bool
  is_address_of request tenant chain_row row =
      row.tenant_id == tenant.id
      && (row.tenant_chain_id == chain_row.id && row.address_index == request.unique_id)

  abbrev pub new_address :
      ℕ → WalletCreateRequest → Tenant → TenantChain → String × Bytes → TenantAddress
  new_address now request tenant chain_row (addr, path) = record {
    id = 0;
    tenant_id = tenant.id;
    tenant_chain_id = chain_row.id;
    address_index = request.unique_id;
    address_val = addr;
    derived_path = path;
    add_time = now;
  }

  unfoldable pub save_new_address :
      WalletCreateRequest → Tenant → TenantChain → EncMaster → ℕ → Db → Result Failure (Issue × Db)
  save_new_address request tenant chain_row enc now db = do
    (addr, path) ← or_stop derive_address (
        derive_address_from_xpub e enc chain_row.x_pub (tenant.id % 2 ^ 32) request.unique_id
          chain_row.chain)
    (row, db') ←
        or_error save_address
          (tenant_addresses.save (new_address now request tenant chain_row (addr, path)) db)
    ok (saved row addr, db')

  -- An error of the query for the address is not looked at: only its ID is.
  unfoldable pub address_or_new :
      Result DbError TenantAddress
      → WalletCreateRequest
      → Tenant
      → TenantChain
      → EncMaster
      → ℕ
      → Db
      → Result Failure (Issue × Db)
  unfolding save_new_address
  address_or_new (ok row) request tenant chain_row enc now db =
      if row.id == 0
      then save_new_address request tenant chain_row enc now db
      else ok (existing row, db)
  address_or_new (err _) request tenant chain_row enc now db =
      save_new_address request tenant chain_row enc now db

  -- From `tx.Where` to the last `Save`.
  unfoldable pub issue :
      WalletCreateRequest → Tenant → ChainDef → EncMaster → ℕ → Db → Result Failure (Issue × Db)
  unfolding chain_or_new address_or_new
  issue request tenant chain enc now db = do
    (chain_row, db') ←
        chain_or_new (tenant_chains.first (is_chain_of request) db) tenant chain enc now db
    address_or_new (tenant_addresses.first (is_address_of request tenant chain_row) db') request
        tenant chain_row enc now db'

  -- `tx.Commit()`, and the deferred rollback if it fails.
  unfoldable pub commit :
      Db → Db → ℕ → String → Option String → Result WalletError (ℕ × String) × Db × TxEnd
  commit db db' id addr none = (ok (id, addr), db', committed)
  commit db db' id addr (some text) = (err (commit_failed text), db, rolled_back)

  -- An existing address is returned with `committed` set and neither a commit nor a rollback. After a
  -- panic the deferred function rolls back, and the call returns the zero values of its results, of
  -- which the error is nil.
  unfoldable pub finish :
      Db → Result Failure (Issue × Db) → Result WalletError (ℕ × String) × Db × TxEnd
  unfolding commit
  finish db (err (refused x)) = (err x, db, rolled_back)
  finish db (err panicked) = (ok (0, ""), db, rolled_back)
  finish db (ok (existing row, db')) = (ok (row.id, row.address_val), db, left_open)
  finish db (ok (saved row addr, db')) = commit db db' row.id addr (commit_error db')

  abbrev pub enc_of : Tenant → KdfParams → EncMaster
  enc_of tenant kdf = record {
    enc_master_xprv = tenant.enc_master_xprv;
    enc_master_seed = tenant.enc_master_seed;
    kdf = kdf;
  }

  unfoldable pub with_kdf :
      Result String KdfParams
      → WalletCreateRequest
      → Tenant
      → ChainDef
      → ℕ
      → Db
      → Result WalletError (ℕ × String) × Db × TxEnd
  unfolding issue finish
  with_kdf (err text) request tenant chain now db = (err (kdf_params text), db, not_begun)
  with_kdf (ok kdf) request tenant chain now db =
      finish db (issue request tenant chain (enc_of tenant kdf) now db)

  unfoldable pub with_chain :
      Result String ChainDef
      → WalletCreateRequest
      → Tenant
      → ℕ
      → Db
      → Result WalletError (ℕ × String) × Db × TxEnd
  unfolding with_kdf
  with_chain (err _) request tenant now db = (err (unsupport_chain request.chain), db, not_begun)
  with_chain (ok chain) request tenant now db =
      with_kdf (unmarshal_kdf tenant.kdf_params) request tenant chain now db

  unfoldable pub wallet_create :
      WalletCreateRequest → Tenant → ℕ → Db → Result WalletError (ℕ × String) × Db × TxEnd
  unfolding with_chain
  wallet_create request tenant now db =
      with_chain (check_valid_chain_code request.chain) request tenant now db
