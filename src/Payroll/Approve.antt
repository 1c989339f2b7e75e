-- ===== src/Payroll/Approve.antt =====
-- `PortalPayrollSubmit` and `PortalPayrollAudit`.
use Prim.Native.String.{◌++◌}
use walletus.Base.{
  String, Bool, true, false, not, List, [], ◌∷◌, Result, ◌==◌, string_eq, nat_eq, if◌then◌else◌,
}
use walletus.Model.{PortalPayroll, PortalPayslip}
use walletus.Payroll.{Env, PayrollRequest, Payload, no_data}
use walletus.Payroll.Edit.{invalid_request, save_error, first_payroll, require_status}
use walletus.Web.{
  Action, Context, ◌>>=◌, ◌>>◌, answer, answer_if, bind_json, require_login, write_or_answer,
  find_or_nil, pure,
}
use walletus.Web.Codes.{success, err_status_general}

abbrev pub is_empty : {A : Type 0} → List A → Bool
is_empty [] = true
is_empty (_ ∷ _) = false

module _ (e : Env) where
  open e use {Db, Decimal, payrolls, payslips, is_hex_address}

  -- The loop over the payslips: is there one whose wallet address is no hexadecimal address?
  unfoldable pub has_bad_address : List (PortalPayslip Decimal) → Bool
  has_bad_address [] = false
  has_bad_address (v ∷ vs) =
      let rest = has_bad_address vs in if not (is_hex_address v.wallet_address) then true else rest

  -- `if len(request.Desc) > 0 { payroll.Desc = payroll.Desc + "\n" + request.Desc }`
  abbrev with_desc : PayrollRequest Decimal → PortalPayroll Decimal → PortalPayroll Decimal
  with_desc request p = record p {
    desc = if request.desc == "" then p.desc else p.desc ++ "\n" ++ request.desc;
  }

  unfoldable pub portal_payroll_submit :
      Context → Result String (PayrollRequest Decimal) → Action Db (Payload Decimal) (Unit {0})
  portal_payroll_submit ctx bound = do
    request ← bind_json no_data bound invalid_request
    require_login no_data ctx
    payroll ← first_payroll e request.id
    require_status e "create" "payroll status must be create" payroll
    payroll_slip ← find_or_nil no_data (payslips.find (λ s. s.payroll_id == payroll.id))
    answer_if no_data (is_empty payroll_slip) err_status_general "payroll has no payslip"
    answer_if no_data (has_bad_address payroll_slip) err_status_general
        "there is invalid wallet address in payslip"
    write_or_answer no_data
        (payrolls.save (record (with_desc request payroll) { status = "waiting_approval" }))
        save_error
    answer success "success" no_data

  -- Here an empty description is replaced.
  abbrev pub with_audit_desc :
      PayrollRequest Decimal → PortalPayroll Decimal → PortalPayroll Decimal
  with_audit_desc request p = record p {
    desc =
        if request.desc == ""
        then p.desc
        else if p.desc == ""
        then request.desc
        else p.desc ++ "\n" ++ request.desc;
  }

  -- The `switch` on `request.Op`.
  unfoldable pub audited : String → Action Db (Payload Decimal) String
  audited op =
      if op == "approve"
      then pure "approved"
      else if op == "reject"
      then pure "rejected"
      else answer err_status_general "invalid op" no_data

  unfoldable pub portal_payroll_audit :
      Context → Result String (PayrollRequest Decimal) → Action Db (Payload Decimal) (Unit {0})
  portal_payroll_audit ctx bound = do
    request ← bind_json no_data bound invalid_request
    require_login no_data ctx
    payroll ← first_payroll e request.id
    require_status e "waiting_approval" "payroll status must be waiting_approval" payroll
    status ← audited request.op
    write_or_answer no_data
        (payrolls.save (record (with_audit_desc request payroll) { status = status })) save_error
    answer success "success" no_data
