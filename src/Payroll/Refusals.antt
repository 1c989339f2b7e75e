-- ===== src/Payroll/Refusals.antt =====
-- A payroll handler that does not answer "success" leaves the database as it was.
use walletus.Base.{String, Result, ◌≡◌, refl, Bool, false, nat_eq, arith, if-rule, ◌==◌, string_eq}
use walletus.Base.Decimal.{Bytes}
use walletus.Chain.Gateway.{Registry}
use walletus.Model.{PortalPayroll}
use walletus.Payroll.{Env, PayrollRequest, PayRequest, Payload, no_data}
use walletus.Payroll.Edit.{portal_payroll_create, portal_payroll_update, portal_payroll_delete}
use walletus.Payroll.Approve.{portal_payroll_submit, portal_payroll_audit}
use walletus.Payroll.Pay.{portal_payroll_pay, portal_payroll_status_check, confirm}
use walletus.Payroll.Lifecycle.Calls.{
  Call, create, update, delete, submit_call, audit, pay_call, pay_config, status_check,
  staff_wallet, staff_delete, serve,
}
use walletus.Payroll.Reads.{
  audited-reads, bind_or_answer-reads, require_settings-reads, from_result-reads,
  receipt_status-reads, portal_payroll_pay_config-reads,
}
use walletus.Payroll.Lifecycle.Staff.{staff_wallet-rule, staff_delete-rule}
use walletus.Web.{Action, Context, Flow, reply, answer}
use walletus.Web.Codes.{success}
use walletus.Web.Rules.{
  path_id-reads, answer_if-rule, bind_json-rule, require_login-rule, or_answer-rule,
  write_or_answer-rule, find_or_nil-rule, reader-rule,
}

-- Has the handler answered "success"?
unfoldable pub succeeded : {P A : Type 0} → Flow P A → Bool
succeeded (reply res) = res.code == success
succeeded _ = false

abbrev pub IsKept : {Db P A : Type 0} → Db → Flow P A × Db → Type 0
IsKept db x = succeeded x.0 ≡ false → x.1 ≡ db

unchanged : {Db P A : Type 0} (db : Db) (x : Flow P A) → IsKept db (x, db)
unchanged db x h = refl

succeeds :
    {Db P : Type 0} (db db' : Db) (msg : String) (payload : P)
    → IsKept db (answer {A = Unit {0}} success msg payload db')
unfolding answer succeeded
succeeds db db' msg payload h = ground (arith, h)

module _ (e : Env) where
  open e use {Db, Decimal}

  abbrev Kept : Db → Flow (Payload Decimal) (Unit {0}) × Db → Type 0
  Kept db x = IsKept db x

  create-IsKept :
      (ctx : Context) (bound : Result String (PayrollRequest Decimal)) (db : Db)
      → IsKept db (portal_payroll_create e ctx bound db)
  unfolding portal_payroll_create
  create-IsKept ctx bound db =
      let now = unchanged db in
      bind_json-rule no_data (Kept db) db bound _ _ now λ request _.
        require_login-rule no_data (Kept db) db ctx _ now λ u _.
          answer_if-rule no_data (Kept db) db _ _ _ _ now λ _.
            write_or_answer-rule no_data (Kept db) db _ _ _ now λ p db' made. succeeds db db' _ _

  update-IsKept :
      (ctx : Context) (bound : Result String (PayrollRequest Decimal)) (db : Db)
      → IsKept db (portal_payroll_update e ctx bound db)
  unfolding portal_payroll_update
  update-IsKept ctx bound db =
      let now = unchanged db in
      bind_json-rule no_data (Kept db) db bound _ _ now λ request _.
        require_login-rule no_data (Kept db) db ctx _ now λ u _.
          answer_if-rule no_data (Kept db) db _ _ _ _ now λ _.
            or_answer-rule no_data (Kept db) db _ _ _ now λ p found.
              answer_if-rule no_data (Kept db) db _ _ _ _ now λ status.
                write_or_answer-rule no_data (Kept db) db _ _ _ now
                  λ r' db' saved. succeeds db db' _ _

  delete-IsKept :
      (ctx : Context) (bound : Result String (PayrollRequest Decimal)) (db : Db)
      → IsKept db (portal_payroll_delete e ctx bound db)
  unfolding portal_payroll_delete
  delete-IsKept ctx bound db =
      let now = unchanged db in
      bind_json-rule no_data (Kept db) db bound _ _ now λ request _.
        require_login-rule no_data (Kept db) db ctx _ now λ u _.
          answer_if-rule no_data (Kept db) db _ _ _ _ now λ _.
            or_answer-rule no_data (Kept db) db _ _ _ now λ p found.
              answer_if-rule no_data (Kept db) db _ _ _ _ now λ status.
                write_or_answer-rule no_data (Kept db) db _ _ _ now
                  λ r' db' saved. succeeds db db' _ _

  submit-IsKept :
      (ctx : Context) (bound : Result String (PayrollRequest Decimal)) (db : Db)
      → IsKept db (portal_payroll_submit e ctx bound db)
  unfolding portal_payroll_submit
  submit-IsKept ctx bound db =
      let now = unchanged db in
      bind_json-rule no_data (Kept db) db bound _ _ now λ request _.
        require_login-rule no_data (Kept db) db ctx _ now λ u _.
          or_answer-rule no_data (Kept db) db _ _ _ now λ p found.
            answer_if-rule no_data (Kept db) db _ _ _ _ now λ status.
              find_or_nil-rule no_data (Kept db) db _ _ λ slips _.
                answer_if-rule no_data (Kept db) db _ _ _ _ now λ _.
                  answer_if-rule no_data (Kept db) db _ _ _ _ now λ _.
                    write_or_answer-rule no_data (Kept db) db _ _ _ now
                      λ r' db' saved. succeeds db db' _ _

  audit-IsKept :
      (ctx : Context) (bound : Result String (PayrollRequest Decimal)) (db : Db)
      → IsKept db (portal_payroll_audit e ctx bound db)
  unfolding portal_payroll_audit
  audit-IsKept ctx bound db =
      let now = unchanged db in
      bind_json-rule no_data (Kept db) db bound _ _ now λ request _.
        require_login-rule no_data (Kept db) db ctx _ now λ u _.
          or_answer-rule no_data (Kept db) db _ _ _ now λ p found.
            answer_if-rule no_data (Kept db) db _ _ _ _ now λ status.
              reader-rule no_data (Kept db) db _ _ (audited-reads e request.op db) now λ s _.
                write_or_answer-rule no_data (Kept db) db _ _ _ now
                  λ r' db' saved. succeeds db db' _ _

  pay-IsKept :
      (ctx : Context) (bound : Result String PayRequest) (db : Db)
      → IsKept db (portal_payroll_pay e ctx bound db)
  unfolding portal_payroll_pay
  pay-IsKept ctx bound db =
      let now = unchanged db in
      require_login-rule no_data (Kept db) db ctx _ now λ u _.
        reader-rule no_data (Kept db) db _ _ (bind_or_answer-reads e bound db) now λ request _.
          or_answer-rule no_data (Kept db) db _ _ _ now λ p found.
            answer_if-rule no_data (Kept db) db _ _ _ _ now λ status.
              reader-rule no_data (Kept db) db _ _ (require_settings-reads e db) now λ s _.
                write_or_answer-rule no_data (Kept db) db _ _ _ now
                  λ r' db' saved. succeeds db db' _ _

  confirm-IsKept :
      (ctx : Context) (registry : Registry) (p : PortalPayroll Decimal) (db : Db)
      → IsKept db (confirm e ctx registry p db)
  unfolding confirm
  confirm-IsKept ctx registry p db =
      let now = unchanged db in
      reader-rule no_data (Kept db) db _ _ (from_result-reads e _ _ _ db) now λ chain_def _.
        reader-rule no_data (Kept db) db _ _ (from_result-reads e _ _ _ db) now λ receipt _.
          reader-rule no_data (Kept db) db _ _ (receipt_status-reads e receipt db) now λ status _.
            answer_if-rule no_data (Kept db) db _ _ _ _ now λ _.
              write_or_answer-rule no_data (Kept db) db _ _ _ now
                λ r' db' saved. succeeds db db' _ _

  status_check-IsKept :
      (ctx : Context) (registry : Registry) (param : Bytes) (db : Db)
      → IsKept db (portal_payroll_status_check e ctx registry param db)
  unfolding portal_payroll_status_check answer
  status_check-IsKept ctx registry param db =
      let now = unchanged db in
      require_login-rule no_data (Kept db) db ctx _ now λ u _.
        reader-rule no_data (Kept db) db _ _ (path_id-reads no_data param _ _ db) now λ id _.
          or_answer-rule no_data (Kept db) db _ _ _ now λ p found.
            if-rule {A = Action Db (Payload Decimal) (Unit {0})} (λ m. Kept db (m db))
              (p.status == "paid") (λ _ _. refl)
              λ _.
                if-rule {A = Action Db (Payload Decimal) (Unit {0})} (λ m. Kept db (m db))
                  (p.status == "paying") (λ _. confirm-IsKept ctx registry p db) λ _ _. refl

  -- A payroll call that is not answered by "success", be it refused, failed or ended by a panic,
  -- leaves the database as it was, the payslips and all other tables included.
  pub serve-IsKept :
      (ctx : Context) (call : Call Decimal) (db : Db) → IsKept db (serve e ctx call db)
  unfolding serve
  serve-IsKept ctx (create bound) db = create-IsKept ctx bound db
  serve-IsKept ctx (update bound) db = update-IsKept ctx bound db
  serve-IsKept ctx (delete bound) db = delete-IsKept ctx bound db
  serve-IsKept ctx (submit_call bound) db = submit-IsKept ctx bound db
  serve-IsKept ctx (audit bound) db = audit-IsKept ctx bound db
  serve-IsKept ctx (pay_call bound) db = pay-IsKept ctx bound db
  serve-IsKept ctx (pay_config bound) db = λ _. portal_payroll_pay_config-reads e ctx bound db
  serve-IsKept ctx (status_check registry param) db = status_check-IsKept ctx registry param db
  serve-IsKept ctx (staff_wallet bound param) db =
      staff_wallet-rule e (Kept db) ctx bound param db (unchanged db)
        λ w w' db' saved. succeeds db db' _ _
  serve-IsKept ctx (staff_delete param) db =
      staff_delete-rule e (Kept db) ctx param db (unchanged db)
        λ id s n db' _ _ deleted. succeeds db db' _ _
