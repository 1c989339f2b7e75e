-- ===== src/Payroll/Edit.antt =====
-- `PortalPayrollCreate`, `PortalPayrollUpdate` and `PortalPayrollDelete`.
use Prim.Native.String.{◌++◌}
use walletus.Base.{ℕ, String, not, none, Result, ◌==◌, string_eq, nat_eq, if◌then◌else◌}
use walletus.Gorm.{DbError, has_key}
use walletus.Model.{PortalUser, PortalPayroll, payroll_key}
use walletus.Payroll.{Env, PayrollRequest, Payload, no_data, payroll_data, transaction}
use walletus.Payroll.Month.{is_valid_year_month}
use walletus.Payroll.Transactions.{create_tx, update_tx}
use walletus.Web.{
  Action, Context, ◌>>=◌, ◌>>◌, answer, answer_if, bind_json, require_login, or_answer,
  write_or_answer, error_text,
}
use walletus.Web.Codes.{
  success, err_reqformat, err_exist_obj, err_repeat, err_status_general, err_unknown,
}

-- `"invalid request: " + err.Error()`
abbrev pub invalid_request : String → String
invalid_request text = "invalid request: " ++ text

-- The reply to an error of the transaction of `PortalPayrollCreate`.
abbrev create_error : DbError → ℕ × String
create_error e =
    if error_text e == "payroll month already exists"
    then (err_repeat, error_text e)
    else (err_unknown, error_text e)

abbrev pub save_error : DbError → ℕ × String
save_error e = (err_status_general, "failed to update payroll: " ++ error_text e)

abbrev pub payroll_not_found : DbError → ℕ × String
payroll_not_found _ = (err_exist_obj, "payroll not found")

module _ (e : Env) where
  open e use {Db, Decimal, payrolls}

  -- The guard on the month, which the three handlers share.
  abbrev require_month : PayrollRequest Decimal → Action Db (Payload Decimal) (Unit {0})
  require_month request =
      answer_if no_data (not (is_valid_year_month request.roll_month)) err_reqformat
        "payroll month must be in format YYYY-MM"

  -- `db.First(&payroll, request.ID)`, answering any error as not found.
  abbrev pub first_payroll : ℕ → Action Db (Payload Decimal) (PortalPayroll Decimal)
  first_payroll id = or_answer no_data (payrolls.first (has_key payroll_key id)) payroll_not_found

  -- `payroll.Status != status`
  abbrev pub require_status :
      String → String → PortalPayroll Decimal → Action Db (Payload Decimal) (Unit {0})
  require_status status msg p = answer_if no_data (not (p.status == status)) err_status_general msg

  abbrev pub new_payroll : ℕ → PayrollRequest Decimal → PortalUser → PortalPayroll Decimal
  new_payroll now request u = record {
    id = 0;
    roll_month = request.roll_month;
    flag = 0;
    creator_id = u.id;
    total_amount = request.total_amount;
    status = "create";
    add_time = now;
    desc = "";
    pay_time = none;
    tx_hash = "";
    chain = "";
  }

  unfoldable pub portal_payroll_create :
      Context → Result String (PayrollRequest Decimal) → Action Db (Payload Decimal) (Unit {0})
  portal_payroll_create ctx bound = do
    request ← bind_json no_data bound invalid_request
    portal_user ← require_login no_data ctx
    require_month request
    payroll ←
        write_or_answer no_data
          (transaction e (create_tx e request (new_payroll ctx.now request portal_user) ctx.now))
          create_error
    answer success "success" (payroll_data payroll)

  unfoldable pub portal_payroll_update :
      Context → Result String (PayrollRequest Decimal) → Action Db (Payload Decimal) (Unit {0})
  portal_payroll_update ctx bound = do
    request ← bind_json no_data bound invalid_request
    require_login no_data ctx
    require_month request
    payroll ← first_payroll request.id
    require_status "create" "payroll status must be create" payroll
    payroll' ←
        write_or_answer no_data (transaction e (update_tx e request payroll ctx.now)) save_error
    answer success "success" (payroll_data payroll')

  unfoldable pub portal_payroll_delete :
      Context → Result String (PayrollRequest Decimal) → Action Db (Payload Decimal) (Unit {0})
  portal_payroll_delete ctx bound = do
    request ← bind_json no_data bound invalid_request
    require_login no_data ctx
    require_month request
    payroll ← first_payroll request.id
    require_status "create" "payroll status must be create" payroll
    write_or_answer no_data (payrolls.save (record payroll { flag = 1 })) save_error
    answer success "success" no_data
