-- ===== src/Payroll/Lifecycle/Staff.antt =====
-- The staff routes leave the payrolls alone, and their errors leave everything alone.
use walletus.Base.{ℕ, String, Result, ok, ◌≡◌, some}
use walletus.Base.Decimal.{Bytes, parse_uint}
use walletus.Gorm.{has_key}
use walletus.Model.{PortalUserWallet, PortalPayslip, payslip_key}
use walletus.Payroll.{Env, IsEnv, Answer, no_data}
use walletus.Payroll.Staff.{
  StaffWalletRequest, portal_payroll_staff_wallet, portal_payroll_staff_delete,
}
use walletus.Payroll.Reads.{require_settings-reads, wallet_of-reads}
use walletus.Payroll.Lifecycle.{Follows, Follows-refl, Follows-rows}
use walletus.Web.{Context, answer}
use walletus.Web.Codes.{success}
use walletus.Web.Rules.{
  answer_if-rule, bind_json-rule, require_login-rule, or_answer-rule, write_or_answer-rule,
  reader-rule, path_id-reads, path_id-next, require_login_id-reads,
}

module _ (e : Env) where
  open e use {Db, Decimal, payrolls}

  -- `R` holds after a staff route if it holds of each answer at once, and of the answer "success"
  -- after a write to the wallets or the payslips.
  pub staff_wallet-rule :
      (R : Answer e × Db → Type 0) (ctx : Context) (bound : Result String StaffWalletRequest)
      (param : Bytes) (db : Db)
      → ((x : Answer e) → R (x, db))
      → ((w w' : PortalUserWallet) (db' : Db)
          → e.wallets.save w db ≡ ok (w', db')
          → R (answer success "success" no_data db'))
      → R (portal_payroll_staff_wallet e ctx bound param db)
  unfolding portal_payroll_staff_wallet
  staff_wallet-rule R ctx bound param db now done =
      bind_json-rule no_data R db bound _ _ now λ request _.
        reader-rule no_data R db _ _ (require_login_id-reads no_data ctx db) now λ u _.
          reader-rule no_data R db _ _ (path_id-reads no_data param _ _ db) now λ id _.
            reader-rule no_data R db _ _ (require_settings-reads e db) now λ s _.
              or_answer-rule no_data R db _ _ _ now λ bind_user _.
                answer_if-rule no_data R db _ _ _ _ now λ _.
                  reader-rule no_data R db _ _ (wallet_of-reads e bind_user.id db) now λ w _.
                    write_or_answer-rule no_data R db _ _ _ now λ w' db' saved. done _ w' db' saved

  pub staff_delete-rule :
      (R : Answer e × Db → Type 0) (ctx : Context) (param : Bytes) (db : Db)
      → ((x : Answer e) → R (x, db))
      → ((id : ℕ) (s : PortalPayslip Decimal) (n : ℕ) (db' : Db)
          → parse_uint 64 param ≡ some id
          → e.payslips.first (has_key payslip_key id) db ≡ ok s
          → e.payslips.delete (has_key payslip_key s.id) db ≡ ok (n, db')
          → R (answer success "success" no_data db'))
      → R (portal_payroll_staff_delete e ctx param db)
  unfolding portal_payroll_staff_delete
  staff_delete-rule R ctx param db now done = require_login-rule no_data R db ctx _ now λ u _.
      reader-rule no_data R db _ _ (path_id-reads no_data param _ _ db) now λ id read.
        or_answer-rule no_data R db _ _ _ now λ s found.
          write_or_answer-rule no_data R db _ _ _ now λ n db' deleted.
            done id s n db' (path_id-next no_data param _ _ db id read) found deleted

  module _ (laws : IsEnv e) where
    pub portal_payroll_staff_wallet-Follows :
        (ctx : Context) (bound : Result String StaffWalletRequest) (param : Bytes) (db : Db)
        → Follows e db (portal_payroll_staff_wallet e ctx bound param db).1
    portal_payroll_staff_wallet-Follows ctx bound param db =
        staff_wallet-rule (λ x. Follows e db x.1) ctx bound param db (λ _. Follows-refl e db)
          λ w w' db' saved.
            unfold answer in
            Follows-rows e db db db' (laws.wallets_apart.save_apart w db saved) (Follows-refl e db)

    pub portal_payroll_staff_delete-Follows :
        (ctx : Context) (param : Bytes) (db : Db)
        → Follows e db (portal_payroll_staff_delete e ctx param db).1
    portal_payroll_staff_delete-Follows ctx param db =
        staff_delete-rule (λ x. Follows e db x.1) ctx param db (λ _. Follows-refl e db)
          λ id s n db' _ _ deleted.
            unfold answer in
            Follows-rows e db db db'
              (laws.payslips_apart.delete_apart (has_key payslip_key s.id) db deleted)
              (Follows-refl e db)
