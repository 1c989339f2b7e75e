-- ===== src/Payroll/Lifecycle/Edits.antt =====
-- Create, update and delete move every payroll along its edges.
use walletus.Base.{ℕ, String, Result, ok, ◌≡◌, refl, >>=-eq-ok, ◌==◌, nat_eq, ◌∙◌, err}
use walletus.Gorm.{DbError, not_found, failed}
use walletus.Model.{PortalPayroll}
use walletus.Payroll.{Env, IsEnv, PayrollRequest, Answer, no_data, transaction_ok}
use walletus.Payroll.Edit.{portal_payroll_create, portal_payroll_update, portal_payroll_delete}
use walletus.Payroll.Transactions.{
  create_tx, update_tx, insert_payroll, or_text, or_text_ok, edited, updated_payslip,
  created_payslip, create_unless,
}
use walletus.Payroll.Lifecycle.{
  stay, edit, HasPayroll, Follows, Follows-refl, Follows-rows, save-Follows, create-Follows,
  first_payroll-found, guard_passed,
}
use walletus.Payroll.Inserts.{insert_payslips-rows}
use walletus.Web.{Context, answer}
use walletus.Web.Rules.{
  answer_if-rule, bind_json-rule, require_login-rule, or_answer-rule, write_or_answer-rule,
}

module _ (e : Env) (laws : IsEnv e) where
  open e use {Db, Decimal, payrolls, payslips}

  create_unless-Follows :
      (request : PayrollRequest Decimal) (new p : PortalPayroll Decimal) (now : ℕ) (db db' : Db)
      (r : Result DbError (PortalPayroll Decimal))
      → create_unless e request new now db r ≡ ok (p, db')
      → Follows e db db'
  unfolding create_unless insert_payroll
  create_unless-Follows request new p now db db' (ok x) h = cc
  create_unless-Follows request new p now db db' (err (failed t)) h = cc
  create_unless-Follows request new p now db db' (err not_found) h =
      let ((r', db₁), made, rest) = >>=-eq-ok (or_text (payrolls.create new db)) _ h in
      Follows-rows e db db₁ db'
        (insert_payslips-rows e laws (created_payslip e r'.id now) request.items r' p db₁ db' rest)
        (create-Follows e laws new db r' db₁ (or_text_ok _ made))

  update_tx-Follows :
      (request : PayrollRequest Decimal) (old p : PortalPayroll Decimal) (now : ℕ) (db db' : Db)
      → HasPayroll e old.id old db
      → old.status ≡ "create"
      → update_tx e request old now db ≡ ok (p, db')
      → Follows e db db'
  unfolding update_tx
  update_tx-Follows request old p now db db' found status h =
      let ((r', db₁), saved, rest) =
        >>=-eq-ok (or_text (payrolls.save (edited e request old) db)) _ h in
      let ((n, db₂), deleted, more) =
        >>=-eq-ok (or_text (payslips.delete (λ s. s.payroll_id == old.id) db₁)) _ rest in
      let kept =
        insert_payslips-rows e laws (updated_payslip e old.id now) request.items r' p db₂ db'
          more in
      let apart =
        laws.payslips_apart.delete_apart (λ s. s.payroll_id == old.id) db₁ (or_text_ok _ deleted) in
      Follows-rows e db db₁ db' (kept ∙ apart) (
        save-Follows e laws (edited e request old) old db r' db₁ found (edit status)
          (or_text_ok _ saved))

  pub portal_payroll_update-Follows :
      (ctx : Context) (bound : Result String (PayrollRequest Decimal)) (db : Db)
      → Follows e db (portal_payroll_update e ctx bound db).1
  unfolding portal_payroll_update answer
  portal_payroll_update-Follows ctx bound db =
      let now = λ (_ : Answer e). Follows-refl e db in
      let R = λ (x : Answer e × Db). Follows e db x.1 in
      bind_json-rule no_data R db bound _ _ now λ request _.
        require_login-rule no_data R db ctx _ now λ u _.
          answer_if-rule no_data R db _ _ _ _ now λ _.
            or_answer-rule no_data R db _ _ _ now λ p found.
              answer_if-rule no_data R db _ _ _ _ now λ status.
                write_or_answer-rule no_data R db _ _ _ now λ r' db' saved.
                  update_tx-Follows request p r' ctx.now db db'
                    (first_payroll-found e laws request.id p db found) (guard_passed _ _ status)
                    (transaction_ok e _ db saved)

  pub portal_payroll_create-Follows :
      (ctx : Context) (bound : Result String (PayrollRequest Decimal)) (db : Db)
      → Follows e db (portal_payroll_create e ctx bound db).1
  unfolding portal_payroll_create create_tx answer
  portal_payroll_create-Follows ctx bound db =
      let now = λ (_ : Answer e). Follows-refl e db in
      let R = λ (x : Answer e × Db). Follows e db x.1 in
      bind_json-rule no_data R db bound _ _ now λ request _.
        require_login-rule no_data R db ctx _ now λ u _.
          answer_if-rule no_data R db _ _ _ _ now λ _.
            write_or_answer-rule no_data R db _ _ _ now λ p db' made.
              create_unless-Follows request _ p ctx.now db db' _ (transaction_ok e _ db made)

  pub portal_payroll_delete-Follows :
      (ctx : Context) (bound : Result String (PayrollRequest Decimal)) (db : Db)
      → Follows e db (portal_payroll_delete e ctx bound db).1
  unfolding portal_payroll_delete answer
  portal_payroll_delete-Follows ctx bound db =
      let now = λ (_ : Answer e). Follows-refl e db in
      let R = λ (x : Answer e × Db). Follows e db x.1 in
      bind_json-rule no_data R db bound _ _ now λ request _.
        require_login-rule no_data R db ctx _ now λ u _.
          answer_if-rule no_data R db _ _ _ _ now λ _.
            or_answer-rule no_data R db _ _ _ now λ p found.
              answer_if-rule no_data R db _ _ _ _ now λ status.
                write_or_answer-rule no_data R db _ _ _ now λ r' db' saved.
                  save-Follows e laws (record p { flag = 1 }) p db r' db'
                    (first_payroll-found e laws request.id p db found) (stay refl) saved
