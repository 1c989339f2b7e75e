-- ===== src/Model.antt =====
-- The rows of the tables: common/model/portal.go, tenant.go and sys.go. A number is a uint64 (or
-- the smaller type that the source gives), a time is its Unix seconds, and `D` is the type
-- decimal.Decimal of package shopspring/decimal.
use walletus.Base.{ℕ, String, Option}
use walletus.Base.Decimal.{Bytes}
use walletus.Gorm.{Keyed}

pub record PortalUser : Type 0 where
  pub id : ℕ
  pub login_id : String
  pub name : String
  pub email : String
  pub password : String
  pub add_time : ℕ
  pub flag : ℕ
  pub location : String
  pub type : String

abbrev pub user_key : Keyed PortalUser
user_key = record { key = λ u. u.id; with_key = λ n u. record u { id = n } }

pub record PortalDept : Type 0 where
  pub id : ℕ
  pub name : String
  pub desc : String
  pub add_time : ℕ
  pub flag : ℕ
  pub status : String

pub record PortalDeptUser : Type 0 where
  pub id : ℕ
  pub dept_id : ℕ
  pub user_id : ℕ

pub record PortalUserWallet : Type 0 where
  pub id : ℕ
  pub user_id : ℕ
  pub wallet_address : String
  pub wallet_type : String
  pub wallet_chain : String
  pub add_time : ℕ
  pub flag : ℕ

abbrev pub user_wallet_key : Keyed PortalUserWallet
user_wallet_key = record { key = λ w. w.id; with_key = λ n w. record w { id = n } }

pub record PortalRole : Type 0 where
  pub id : ℕ
  pub name : String
  pub desc : String
  pub add_time : ℕ
  pub flag : ℕ

abbrev pub role_key : Keyed PortalRole
role_key = record { key = λ x. x.id; with_key = λ n x. record x { id = n } }

pub record PortalFunc : Type 0 where
  pub id : ℕ
  pub name : String
  pub flag : ℕ
  pub res_uri : String
  pub perm_code : String
  pub type : String
  pub group : String

abbrev pub func_key : Keyed PortalFunc
func_key = record { key = λ x. x.id; with_key = λ n x. record x { id = n } }

pub record PortalRoleFunc : Type 0 where
  pub id : ℕ
  pub role_id : ℕ
  pub func_id : ℕ

abbrev pub role_func_key : Keyed PortalRoleFunc
role_func_key = record { key = λ x. x.id; with_key = λ n x. record x { id = n } }

pub record PortalUserRole : Type 0 where
  pub id : ℕ
  pub role_id : ℕ
  pub user_id : ℕ

abbrev pub user_role_key : Keyed PortalUserRole
user_role_key = record { key = λ x. x.id; with_key = λ n x. record x { id = n } }

pub record PortalPayroll (D : Type 0) : Type 0 where
  pub id : ℕ
  pub roll_month : String
  pub flag : ℕ
  pub creator_id : ℕ
  pub total_amount : D
  pub status : String
  pub add_time : ℕ
  pub desc : String
  pub pay_time : Option ℕ
  pub tx_hash : String
  pub chain : String

pub record PortalPayslip (D : Type 0) : Type 0 where
  pub id : ℕ
  pub payroll_id : ℕ
  pub user_id : ℕ
  pub wallet_id : ℕ
  pub wallet_address : String
  pub wallet_type : String
  pub wallet_chain : String
  pub amount : D
  pub flag : ℕ
  pub trans_time : ℕ
  pub receipt_hash : String

module _ {D : Type 0} where
  abbrev pub payroll_key : Keyed (PortalPayroll D)
  payroll_key = record { key = λ p. p.id; with_key = λ n p. record p { id = n } }

  abbrev pub payslip_key : Keyed (PortalPayslip D)
  payslip_key = record { key = λ p. p.id; with_key = λ n p. record p { id = n } }

pub record PortalSpec : Type 0 where
  pub id : ℕ
  pub spec_name : String
  pub spec_value : String
  pub spec_type : String
  pub add_time : ℕ
  pub flag : ℕ

abbrev pub spec_key : Keyed PortalSpec
spec_key = record { key = λ s. s.id; with_key = λ n s. record s { id = n } }

pub record SysChannel : Type 0 where
  pub id : ℕ
  pub app_id : Bytes
  pub app_key : Bytes
  pub status : String
  pub chan : String
  pub sig_method : String
  pub create_time : ℕ
  pub update_time : ℕ

pub record Tenant : Type 0 where
  pub id : ℕ
  pub unique_id : String
  pub name : String
  pub desc : String
  pub enc_master_xprv : Bytes
  pub enc_master_seed : Bytes
  pub kdf_params : String
  pub add_time : ℕ
  pub version : String
  pub callback : String
  pub flag : ℕ
  pub api_id : ℕ

pub record TenantChain : Type 0 where
  pub id : ℕ
  pub tenant_id : ℕ
  pub chain : String
  pub coin_type : ℕ
  pub x_pub : String
  pub derived_path : Bytes
  pub add_time : ℕ

pub record TenantAddress : Type 0 where
  pub id : ℕ
  pub tenant_id : ℕ
  pub tenant_chain_id : ℕ
  pub address_index : ℕ
  pub address_val : String
  pub derived_path : Bytes
  pub add_time : ℕ

abbrev pub tenant_chain_key : Keyed TenantChain
tenant_chain_key = record { key = λ c. c.id; with_key = λ n c. record c { id = n } }

abbrev pub tenant_address_key : Keyed TenantAddress
tenant_address_key = record { key = λ a. a.id; with_key = λ n a. record a { id = n } }

abbrev pub channel_key : Keyed SysChannel
channel_key = record { key = λ c. c.id; with_key = λ n c. record c { id = n } }

abbrev pub tenant_key : Keyed Tenant
tenant_key = record { key = λ t. t.id; with_key = λ n t. record t { id = n } }
