-- ===== src/Payroll.antt =====
-- The payroll handlers of cmd/modapi/http/portal/admin.go and the payroll settings of sys.go:
-- what they reach outside the repository, their requests and replies.
pub mod Month
pub mod Settings
pub mod Saved
pub mod ReadBack
pub mod Transactions
pub mod Edit
pub mod Approve
pub mod Pay
pub mod Staff
pub mod Reads
pub mod Inserts
pub mod Lifecycle
pub mod Refusals
pub mod Checks
pub mod Confirmed
pub mod Monthly
pub mod Edited
pub mod Removed
pub mod Decisions
use walletus.Base.{ℕ, String, Bool, Option, none, some, List, Result, ok, err, ◌≡◌, arith}
use walletus.Web.{Flow}
use walletus.Gorm.{DbError, failed, Table, IsTable, IsApart}
use walletus.Model.{
  PortalUser, PortalPayroll, PortalPayslip, PortalSpec, PortalUserWallet, payroll_key, payslip_key,
  spec_key, user_key, user_wallet_key,
}

-- The database, decimal.Decimal, and `IsHexAddress` of go-ethereum.
pub record Env : Type 1 where
  pub Db : Type 0
  pub Decimal : Type 0
  pub payrolls : Table Db (PortalPayroll Decimal)
  pub payslips : Table Db (PortalPayslip Decimal)
  pub specs : Table Db PortalSpec
  pub users : Table Db PortalUser
  pub wallets : Table Db PortalUserWallet
  -- the text of the error, if the transaction cannot begin or commit
  pub begin_error : Db → Option String
  pub commit_error : Db → Option String
  pub is_hex_address : String → Bool

-- What the payroll handlers rely on of the database.
pub record IsEnv (e : Env) : Type 0 where
  pub payrolls_table : IsTable payroll_key e.payrolls
  pub payslips_table : IsTable payslip_key e.payslips
  pub payslips_apart : IsApart e.payslips e.payrolls
  pub wallets_apart : IsApart e.wallets e.payrolls
  pub payrolls_apart : IsApart e.payrolls e.payslips

pub record PayslipItem (D : Type 0) : Type 0 where
  pub user_id : ℕ
  pub wallet_id : ℕ
  pub wallet_address : String
  pub wallet_type : String
  pub wallet_chain : String
  pub amount : D

-- `PortalPayrollCreateRequest`, which the handlers of all payroll operations but pay share.
pub record PayrollRequest (D : Type 0) : Type 0 where
  pub id : ℕ
  pub roll_month : String
  pub total_amount : D
  pub status : String
  pub desc : String
  pub items : List (PayslipItem D)
  pub op : String

pub record PayRequest : Type 0 where
  pub id : ℕ
  pub tx_hash : String

pub record PayrollSettings : Type 0 where
  pub chain : String
  pub pay_contract : String
  pub pay_token : String

-- What stands under "data" in the replies.
pub data Payload (D : Type 0) : Type 0 where
  no_data : Payload D
  payroll_data : PortalPayroll D → Payload D
  settings_data : PayrollSettings → Payload D
  pay_config : PayrollSettings → PortalPayroll D → List (PortalPayslip D) → Payload D
  payslips_data : PortalPayroll D → List (PortalPayslip D) → Payload D

-- What a payroll handler ends with.
abbrev pub Answer : Env → Type 0
Answer e = Flow (Payload e.Decimal) (Unit {0})

module _ (e : Env) where
  open e use {Db, begin_error, commit_error}

  abbrev committed : {A : Type 0} → Result String (A × Db) → Result DbError (A × Db)
  committed (err text) = err (failed text)
  committed (ok (a, db)) = elim (commit_error db) [
    | none ↦ ok (a, db)
    | some text ↦ err (failed text)
  ]

  -- `db.Transaction(f)`: an error of `f` or of the commit rolls back.
  unfoldable pub transaction :
      {A : Type 0} → (Db → Result String (A × Db)) → Db → Result DbError (A × Db)
  transaction f db = elim (begin_error db) [
    | none ↦ committed (f db)
    | some text ↦ err (failed text)
  ]

  pub transaction_ok :
      {A : Type 0} (f : Db → Result String (A × Db)) (db : Db) {a : A} {db' : Db}
      → transaction f db ≡ ok (a, db')
      → f db ≡ ok (a, db')
  unfolding transaction
  transaction_ok f db h = ground arith
