-- ===== src/Payroll/Edited.antt =====
-- What `PortalPayrollUpdate` writes: the status too is the client's.
use walletus.Base.{ℕ, String, Result, ok, ◌≡◌, ◌≢◌, refl, >>=-eq-ok, ◌==◌, nat_eq}
use walletus.Gorm.{replace}
use walletus.Model.{PortalUser, PortalPayroll, payroll_key}
use walletus.Payroll.{Env, IsEnv, PayrollRequest, Answer, no_data, transaction_ok}
use walletus.Payroll.Edit.{portal_payroll_update}
use walletus.Payroll.Inserts.{insert_payslips-rows}
use walletus.Payroll.Lifecycle.{HasPayroll, first_payroll-found, guard_passed}
use walletus.Payroll.Transactions.{update_tx, edited, updated_payslip, or_text, or_text_ok}
use walletus.Web.{Context, user, answer}
use walletus.Web.Rules.{
  answer_if-rule, bind_json-rule, require_login-rule, or_answer-rule, write_or_answer-rule,
}

module _ (e : Env) (laws : IsEnv e) where
  open e use {Db, Decimal, payrolls, payslips}

  update_tx-rows :
      (request : PayrollRequest Decimal) (old p : PortalPayroll Decimal) (now : ℕ) (db db' : Db)
      → HasPayroll e old.id old db
      → update_tx e request old now db ≡ ok (p, db')
      → payrolls.rows db' ≡ replace payroll_key (edited e request old) (payrolls.rows db)
  unfolding update_tx
  update_tx-rows request old p now db db' found h =
      let ((r', db₁), saved, rest) =
        >>=-eq-ok (or_text (payrolls.save (edited e request old) db)) _ h in
      let ((n, db₂), deleted, more) =
        >>=-eq-ok (or_text (payslips.delete (λ s. s.payroll_id == old.id) db₁)) _ rest in
      let kept =
        insert_payslips-rows e laws (updated_payslip e old.id now) request.items r' p db₂ db'
          more in
      let apart =
        laws.payslips_apart.delete_apart (λ s. s.payroll_id == old.id) db₁ (or_text_ok _ deleted) in
      let law =
        laws.payrolls_table.save_rows (edited e request old) db found (or_text_ok _ saved) in
      cc (kept, apart, law.1)

  -- What a change of the database by `PortalPayrollUpdate` is.
  pub record IsEdited (ctx : Context) (bound : Result String (PayrollRequest Decimal)) (db db' : Db)
      : Type 0 where
    pub editor : PortalUser
    pub logged_in : ctx.main_user ≡ user editor
    pub request : PayrollRequest Decimal
    pub read : bound ≡ ok request
    pub payroll : PortalPayroll Decimal
    pub found : HasPayroll e request.id payroll db
    pub new : payroll.status ≡ "create"
    pub written :
        payrolls.rows db'
        ≡ replace payroll_key
            (record payroll {
              roll_month = request.roll_month;
              total_amount = request.total_amount;
              status = request.status;
            })
            (payrolls.rows db)

  -- An update that changes the database was made by a logged-in user for a payroll in status
  -- "create"; it gives the payroll the month, the amount and the status of the request, whatever
  -- status that is, and changes no other payroll.
  pub portal_payroll_update-IsEdited :
      (ctx : Context) (bound : Result String (PayrollRequest Decimal)) (db : Db)
      → (portal_payroll_update e ctx bound db).1 ≢ db
      → IsEdited ctx bound db (portal_payroll_update e ctx bound db).1
  unfolding portal_payroll_update answer
  portal_payroll_update-IsEdited ctx bound db =
      let R = λ (x : Answer e × Db). x.1 ≢ db → IsEdited ctx bound db x.1 in
      let now : (x : Answer e) → R (x, db) = λ x differs. absurd (differs refl) in
      bind_json-rule no_data R db bound _ _ now λ request read.
        require_login-rule no_data R db ctx _ now λ u logged_in.
          answer_if-rule no_data R db _ _ _ _ now λ _.
            or_answer-rule no_data R db _ _ _ now λ p found.
              answer_if-rule no_data R db _ _ _ _ now λ status.
                write_or_answer-rule no_data R db _ _ _ now λ r' db' saved changed. record {
                  editor = u;
                  logged_in = logged_in;
                  request = request;
                  read = read;
                  payroll = p;
                  found = laws.payrolls_table.first_rows _ db found;
                  new = guard_passed _ _ status;
                  written =
                      update_tx-rows request p r' ctx.now db db'
                        (first_payroll-found e laws request.id p db found)
                        (transaction_ok e _ db saved);
                }
