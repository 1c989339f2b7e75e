-- ===== src/Payroll/Staff.antt =====
-- `PortalPayrollStaffWallet` and `PortalPayrollStaffDelete`.
use Prim.Native.String.{◌++◌}
use walletus.Base.{ℕ, String, Bool, not, ◌&&◌, Result, ok, err, ◌==◌, nat_eq}
use walletus.Base.Decimal.{Bytes}
use walletus.Gorm.{DbError, not_found, failed, has_key}
use walletus.Model.{PortalUserWallet, payslip_key, user_key}
use walletus.Payroll.{Env, Payload, no_data}
use walletus.Payroll.Edit.{invalid_request}
use walletus.Payroll.Pay.{require_settings}
use walletus.Web.{
  Action, Context, ◌>>=◌, ◌>>◌, answer, answer_if, bind_json, path_id, require_login,
  require_login_id, or_answer, write_or_answer, error_text, pure,
}
use walletus.Web.Codes.{success, err_reqformat, err_obj_not_found, err_unknown}

pub record StaffWalletRequest : Type 0 where
  pub user_id : ℕ
  pub wallet_address : String
  pub wallet_type : String
  pub wallet_chain : String

-- `errors.Is(err, gorm.ErrRecordNotFound)`, or another error of the database.
abbrev staff_error : String → DbError → ℕ × String
staff_error msg not_found = (err_obj_not_found, msg)
staff_error msg (failed text) = (err_unknown, "db error")

abbrev failed_to : String → DbError → ℕ × String
failed_to what e = (err_unknown, what ++ error_text e)

-- `var bindWallet model.PortalUserWallet`
abbrev no_wallet : PortalUserWallet
no_wallet = record {
  id = 0;
  user_id = 0;
  wallet_address = "";
  wallet_type = "";
  wallet_chain = "";
  add_time = 0;
  flag = 0;
}

module _ (e : Env) where
  open e use {Db, Decimal, users, wallets, payslips, is_hex_address}

  abbrev is_wallet_of : ℕ → PortalUserWallet → Bool
  is_wallet_of user_id w = w.user_id == user_id && w.flag == 0

  -- The user's wallet, or an empty one if the query gives none; its error is not looked at.
  unfoldable pub wallet_of : ℕ → Action Db (Payload Decimal) PortalUserWallet
  wallet_of user_id db = elim (wallets.first (is_wallet_of user_id) db) [
    | ok w ↦ pure w db
    | err _ ↦ pure no_wallet db
  ]

  unfoldable pub portal_payroll_staff_wallet :
      Context → Result String StaffWalletRequest → Bytes → Action Db (Payload Decimal) (Unit {0})
  portal_payroll_staff_wallet ctx bound user_param = do
    request ← bind_json no_data bound invalid_request
    require_login_id no_data ctx
    user_id ← path_id no_data user_param err_unknown "invalid user_id"
    result ← require_settings e
    bind_user ←
        or_answer no_data (users.first (has_key user_key user_id)) (staff_error "user not existing")
    answer_if no_data (not (is_hex_address request.wallet_address)) err_unknown
        "invalid wallet address"
    bind_wallet ← wallet_of bind_user.id
    write_or_answer no_data
        (wallets.save (record bind_wallet {
          wallet_address = request.wallet_address;
          wallet_type = "ERC20";
          wallet_chain = result.chain;
          flag = 0;
          user_id = bind_user.id;
          add_time = ctx.now;
        }))
        (failed_to "failed to update wallet: ")
    answer success "success" no_data

  unfoldable pub portal_payroll_staff_delete :
      Context → Bytes → Action Db (Payload Decimal) (Unit {0})
  portal_payroll_staff_delete ctx payslip_param = do
    require_login no_data ctx
    payslip_id ← path_id no_data payslip_param err_reqformat "invalid payslip_id"
    payslip ←
        or_answer no_data (payslips.first (has_key payslip_key payslip_id))
          (staff_error "payslip not found")
    write_or_answer no_data (payslips.delete (has_key payslip_key payslip.id))
        (failed_to "failed to delete payslip: ")
    answer success "success" no_data
