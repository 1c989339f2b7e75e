-- ===== src/Payroll/Pay.antt =====
-- `PortalPayrollPay`, `PortalPayrollPayConfig` and `PortalPayrollStatusCheck`.
use Prim.Native.String.{◌++◌}
use walletus.Base.{
  ℕ, String, not, none, some, Result, ok, err, ◌==◌, string_eq, nat_eq, if◌then◌else◌,
}
use walletus.Base.Decimal.{Bytes}
use walletus.Bip.{check_valid_chain_code}
use walletus.Chain.Gateway.{Registry, get_transaction}
use walletus.Chain.Json.{Json, null, obj, get, as_string}
use walletus.Gorm.{DbError, not_found, failed, has_key}
use walletus.Model.{PortalPayroll, payroll_key}
use walletus.Payroll.{Env, PayRequest, Payload, no_data, pay_config, PayrollSettings}
use walletus.Payroll.Edit.{invalid_request, save_error, first_payroll, require_status}
use walletus.Payroll.Settings.{load_settings, is_valid}
use walletus.Web.{
  Action, Context, ◌>>=◌, ◌>>◌, answer, answer_if, require_login, or_answer, write_or_answer,
  find_or_nil, path_id, pure, panic,
}
use walletus.Web.Codes.{
  success, err_method_unsupport, err_reqformat, err_obj_not_found, err_status_general, err_unknown,
}

module _ (e : Env) where
  open e use {Db, Decimal, payrolls, payslips}

  -- Pay and pay/config answer a request that does not bind with status 200.
  unfoldable pub bind_or_answer : {R : Type 0} → Result String R → Action Db (Payload Decimal) R
  bind_or_answer (ok request) = pure request
  bind_or_answer (err text) = answer err_status_general (invalid_request text) no_data

  -- `if !result.IsValid() { … }`
  unfoldable pub checked_settings : PayrollSettings → Action Db (Payload Decimal) PayrollSettings
  checked_settings result = do
    answer_if no_data (not (is_valid result)) err_status_general "invalid payroll settings"
    pure result

  unfoldable pub require_settings : Action Db (Payload Decimal) PayrollSettings
  require_settings = do result ← load_settings e; checked_settings result

  unfoldable pub portal_payroll_pay :
      Context → Result String PayRequest → Action Db (Payload Decimal) (Unit {0})
  portal_payroll_pay ctx bound = do
    require_login no_data ctx
    request ← bind_or_answer bound
    payroll ← first_payroll e request.id
    require_status e "approved" "payroll status must be approved" payroll
    result ← require_settings
    write_or_answer no_data
        (payrolls.save
          (record payroll { status = "paying"; tx_hash = request.tx_hash; chain = result.chain }))
        save_error
    answer success "success" no_data

  unfoldable pub portal_payroll_pay_config :
      Context → Result String ℕ → Action Db (Payload Decimal) (Unit {0})
  portal_payroll_pay_config ctx bound = do
    require_login no_data ctx
    id ← bind_or_answer bound
    payroll ← first_payroll e id
    require_status e "approved" "payroll status must be approved" payroll
    result ← require_settings
    slips ← find_or_nil no_data (payslips.find (λ s. s.payroll_id == payroll.id))
    answer success "success" (pay_config result payroll slips)

  abbrev check_error : DbError → ℕ × String
  check_error not_found = (err_obj_not_found, "payroll not found")
  check_error (failed text) = (err_unknown, "db error:" ++ text)

  unfoldable pub from_result :
      {A : Type 0} → Result String A → ℕ → (String → String) → Action Db (Payload Decimal) A
  from_result (ok a) code msg = pure a
  from_result (err text) code msg = answer code (msg text) no_data

  -- `receipt.(map[string]interface{})` and `m["status"].(string)`, of which the second may panic.
  unfoldable pub receipt_status : Json → Action Db (Payload Decimal) String
  receipt_status null =
      answer err_status_general "transaction not found or pending to block" no_data
  receipt_status (obj m) = elim (as_string (get "status" m)) [
    | none ↦ λ db. (panic, db)
    | some status ↦ pure status
  ]
  receipt_status _ = answer err_status_general "invalid receipt type" no_data

  -- What follows once the payroll is known to be `paying`.
  unfoldable pub confirm :
      Context → Registry → PortalPayroll Decimal → Action Db (Payload Decimal) (Unit {0})
  confirm ctx registry payroll = do
    chain_def ← from_result (check_valid_chain_code payroll.chain) err_method_unsupport (λ t. t)
    receipt ←
        from_result
          (get_transaction registry
            (record { chain = chain_def; network = "mainnet"; tx_hash = payroll.tx_hash }))
          err_unknown (λ t. "failed to get transaction: " ++ t)
    status ← receipt_status receipt
    answer_if no_data (not (status == "0x1")) err_status_general "transaction not confirmed"
    write_or_answer no_data
        (payrolls.save (record payroll { status = "paid"; pay_time = some ctx.now })) save_error
    answer success "success" no_data

  unfoldable pub portal_payroll_status_check :
      Context → Registry → Bytes → Action Db (Payload Decimal) (Unit {0})
  portal_payroll_status_check ctx registry param = do
    require_login no_data ctx
    id ← path_id no_data param err_reqformat "invalid payroll_id"
    payroll ← or_answer no_data (payrolls.first (has_key payroll_key id)) check_error
    if payroll.status == "paid"
        then answer success "payroll status is paid" no_data
        else if payroll.status == "paying"
        then confirm ctx registry payroll
        else answer err_status_general "payroll status is not paying" no_data
