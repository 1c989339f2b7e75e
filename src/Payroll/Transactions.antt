-- ===== src/Payroll/Transactions.antt =====
-- The functions that `PortalPayrollCreate` and `PortalPayrollUpdate` run in a transaction.
use Prim.Native.String.{◌++◌}
use walletus.Base.{
  ℕ, String, Bool, not, ◌&&◌, ◌||◌, List, [], ◌∷◌, map, Result, ok, err, ◌≡◌, ◌>>=◌, ◌==◌,
  string_eq, nat_eq,
}
use walletus.Gorm.{DbError, not_found, failed}
use walletus.Model.{PortalPayroll, PortalPayslip}
use walletus.Payroll.{Env, PayslipItem, PayrollRequest}
use walletus.Web.{error_text, show}

-- `status NOT IN ("rejected", "paid")` in the month.
abbrev pub is_open_in : {D : Type 0} → String → PortalPayroll D → Bool
is_open_in month p = p.roll_month == month && not (p.status == "rejected" || p.status == "paid")

-- `return err`
abbrev pub or_text : {A : Type 0} → Result DbError A → Result String A
or_text (ok a) = ok a
or_text (err e) = err (error_text e)

pub or_text_ok : {A : Type 0} (m : Result DbError A) {a : A} → or_text m ≡ ok a → m ≡ ok a
or_text_ok (ok b) h = cc
or_text_ok (err e) h = cc

module _ (e : Env) where
  open e use {Db, Decimal, payrolls, payslips}

  -- The payslip of an item in `PortalPayrollCreate`: the wallet's ID is left out.
  abbrev pub created_payslip : ℕ → ℕ → PayslipItem Decimal → PortalPayslip Decimal
  created_payslip payroll_id now item = record {
    id = 0;
    payroll_id = payroll_id;
    user_id = item.user_id;
    wallet_id = 0;
    wallet_address = item.wallet_address;
    wallet_type = item.wallet_type;
    wallet_chain = item.wallet_chain;
    amount = item.amount;
    flag = 0;
    trans_time = now;
    receipt_hash = "";
  }

  -- The payslip of an item in `PortalPayrollUpdate`.
  abbrev pub updated_payslip : ℕ → ℕ → PayslipItem Decimal → PortalPayslip Decimal
  updated_payslip payroll_id now item = record (created_payslip payroll_id now item) {
    wallet_id = item.wallet_id;
  }

  -- `if len(request.Items) > 0 { … tx.Create(&payslips) }`
  unfoldable pub insert_payslips :
      (PayslipItem Decimal → PortalPayslip Decimal)
      → List (PayslipItem Decimal)
      → PortalPayroll Decimal
      → Db
      → Result String (PortalPayroll Decimal × Db)
  insert_payslips to_payslip [] p db = ok (p, db)
  insert_payslips to_payslip (item ∷ items) p db = do
    (_, db') ← or_text (payslips.create_all (map to_payslip (item ∷ items)) db)
    ok (p, db')

  unfoldable pub insert_payroll :
      PayrollRequest Decimal
      → PortalPayroll Decimal
      → ℕ
      → Db
      → Result String (PortalPayroll Decimal × Db)
  unfolding insert_payslips
  insert_payroll request new_payroll now db = do
    (p, db') ← or_text (payrolls.create new_payroll db)
    insert_payslips (created_payslip p.id now) request.items p db'

  -- What `PortalPayrollCreate` does with the result of its query for an open payroll.
  unfoldable pub create_unless :
      PayrollRequest Decimal
      → PortalPayroll Decimal
      → ℕ
      → Db
      → Result DbError (PortalPayroll Decimal)
      → Result String (PortalPayroll Decimal × Db)
  unfolding insert_payroll
  create_unless request new_payroll now db (ok existing) = err (
      "payroll for month "
      ++ request.roll_month
      ++ " already exists and is not in 'rejected' status (ID: "
      ++ show existing.id
      ++ ")")
  create_unless request new_payroll now db (err not_found) =
      insert_payroll request new_payroll now db
  create_unless request new_payroll now db (err (failed text)) =
      err ("failed to check existing payroll: " ++ text)

  unfoldable pub create_tx :
      PayrollRequest Decimal
      → PortalPayroll Decimal
      → ℕ
      → Db
      → Result String (PortalPayroll Decimal × Db)
  unfolding create_unless
  create_tx request new_payroll now db =
      create_unless request new_payroll now db (payrolls.first (is_open_in request.roll_month) db)

  -- The payroll with what the request changes. The status is the client's.
  abbrev pub edited : PayrollRequest Decimal → PortalPayroll Decimal → PortalPayroll Decimal
  edited request p = record p {
    roll_month = request.roll_month;
    total_amount = request.total_amount;
    status = request.status;
  }

  unfoldable pub update_tx :
      PayrollRequest Decimal
      → PortalPayroll Decimal
      → ℕ
      → Db
      → Result String (PortalPayroll Decimal × Db)
  unfolding insert_payslips
  update_tx request p now db = do
    (p', db₁) ← or_text (payrolls.save (edited request p) db)
    (_, db₂) ← or_text (payslips.delete (λ s. s.payroll_id == p.id) db₁)
    insert_payslips (updated_payslip p.id now) request.items p' db₂
