-- ===== src/Payroll/Lifecycle/Approvals.antt =====
-- Submit, audit, pay and status check move every payroll along its edges.
use walletus.Base.{String, Result, ◌≡◌, refl, Bool-cases, inl, inr, ◌==◌, string_eq, arith, if-rule}
use walletus.Base.Decimal.{Bytes}
use walletus.Chain.Gateway.{Registry}
use walletus.Model.{PortalPayroll}
use walletus.Payroll.{Env, IsEnv, PayrollRequest, PayRequest, Payload, Answer, no_data}
use walletus.Payroll.Approve.{portal_payroll_submit, portal_payroll_audit, audited}
use walletus.Payroll.Pay.{
  portal_payroll_pay, portal_payroll_status_check, bind_or_answer, require_settings, confirm,
}
use walletus.Payroll.Lifecycle.{
  Edge, submit, approve, reject, pay, settle, HasPayroll, Follows, Follows-refl, save-Follows,
  first_payroll-found, guard_passed,
}
use walletus.Web.{Action, next, Context, answer, steps}
use walletus.Web.Rules.{
  path_id-reads, answer_if-rule, bind_json-rule, require_login-rule, or_answer-rule,
  write_or_answer-rule, find_or_nil-rule, reader-rule,
}
use walletus.Payroll.Reads.{
  audited-reads, bind_or_answer-reads, require_settings-reads, from_result-reads,
  receipt_status-reads,
}

module _ (e : Env) (laws : IsEnv e) where
  open e use {Db, Decimal, payrolls, payslips}

  pub portal_payroll_submit-Follows :
      (ctx : Context) (bound : Result String (PayrollRequest Decimal)) (db : Db)
      → Follows e db (portal_payroll_submit e ctx bound db).1
  unfolding portal_payroll_submit answer
  portal_payroll_submit-Follows ctx bound db =
      let now = λ (_ : Answer e). Follows-refl e db in
      let R = λ (x : Answer e × Db). Follows e db x.1 in
      bind_json-rule no_data R db bound _ _ now λ request _.
        require_login-rule no_data R db ctx _ now λ u _.
          or_answer-rule no_data R db _ _ _ now λ p found.
            answer_if-rule no_data R db _ _ _ _ now λ status.
              find_or_nil-rule no_data R db _ _ λ slips _.
                answer_if-rule no_data R db _ _ _ _ now λ _.
                  answer_if-rule no_data R db _ _ _ _ now λ _.
                    write_or_answer-rule no_data R db _ _ _ now λ r' db' saved.
                      save-Follows e laws _ p db r' db'
                        (first_payroll-found e laws request.id p db found)
                        (submit (guard_passed _ _ status) refl) saved

  audited-Edge :
      (op a s : String) (db : Db) → a ≡ "waiting_approval" → (audited e op db).0 ≡ next s → Edge a s
  unfolding audited steps
  audited-Edge op a s db from h = elim (Bool-cases (op == "approve")) [
    | inl y ↦ approve from (ground (arith, y, h))
    | inr n ↦ elim (Bool-cases (op == "reject")) [
      | inl y ↦ reject from (ground (arith, n, y, h))
      | inr n' ↦ absurd (ground (arith, n, n', h))
    ]
  ]

  pub portal_payroll_audit-Follows :
      (ctx : Context) (bound : Result String (PayrollRequest Decimal)) (db : Db)
      → Follows e db (portal_payroll_audit e ctx bound db).1
  unfolding portal_payroll_audit answer
  portal_payroll_audit-Follows ctx bound db =
      let now = λ (_ : Answer e). Follows-refl e db in
      let R = λ (x : Answer e × Db). Follows e db x.1 in
      bind_json-rule no_data R db bound _ _ now λ request _.
        require_login-rule no_data R db ctx _ now λ u _.
          or_answer-rule no_data R db _ _ _ now λ p found.
            answer_if-rule no_data R db _ _ _ _ now λ status.
              reader-rule no_data R db (audited e request.op) _ (audited-reads e request.op db) now
                λ s chosen. write_or_answer-rule no_data R db _ _ _ now λ r' db' saved.
                  save-Follows e laws _ p db r' db'
                    (first_payroll-found e laws request.id p db found)
                    (audited-Edge request.op p.status s db (guard_passed _ _ status) chosen) saved

  pub portal_payroll_pay-Follows :
      (ctx : Context) (bound : Result String PayRequest) (db : Db)
      → Follows e db (portal_payroll_pay e ctx bound db).1
  unfolding portal_payroll_pay answer
  portal_payroll_pay-Follows ctx bound db =
      let now = λ (_ : Answer e). Follows-refl e db in
      let R = λ (x : Answer e × Db). Follows e db x.1 in
      require_login-rule no_data R db ctx _ now λ u _.
        reader-rule no_data R db (bind_or_answer e bound) _ (bind_or_answer-reads e bound db) now
          λ request _. or_answer-rule no_data R db _ _ _ now λ p found.
            answer_if-rule no_data R db _ _ _ _ now λ status.
              reader-rule no_data R db (require_settings e) _ (require_settings-reads e db) now
                λ s _. write_or_answer-rule no_data R db _ _ _ now λ r' db' saved.
                  save-Follows e laws _ p db r' db'
                    (first_payroll-found e laws request.id p db found)
                    (pay (guard_passed _ _ status) refl) saved

  confirm-Follows :
      (ctx : Context) (registry : Registry) (p : PortalPayroll Decimal) (db : Db)
      → HasPayroll e p.id p db
      → p.status ≡ "paying"
      → Follows e db (confirm e ctx registry p db).1
  unfolding confirm answer
  confirm-Follows ctx registry p db found paying =
      let now = λ (_ : Answer e). Follows-refl e db in
      let R = λ (x : Answer e × Db). Follows e db x.1 in
      reader-rule no_data R db _ _ (from_result-reads e _ _ _ db) now λ chain_def _.
        reader-rule no_data R db _ _ (from_result-reads e _ _ _ db) now λ receipt _.
          reader-rule no_data R db _ _ (receipt_status-reads e receipt db) now λ status _.
            answer_if-rule no_data R db _ _ _ _ now λ _.
              write_or_answer-rule no_data R db _ _ _ now
                λ r' db' saved. save-Follows e laws _ p db r' db' found (settle paying refl) saved

  pub portal_payroll_status_check-Follows :
      (ctx : Context) (registry : Registry) (param : Bytes) (db : Db)
      → Follows e db (portal_payroll_status_check e ctx registry param db).1
  unfolding portal_payroll_status_check answer
  portal_payroll_status_check-Follows ctx registry param db =
      let now = λ (_ : Answer e). Follows-refl e db in
      let R = λ (x : Answer e × Db). Follows e db x.1 in
      require_login-rule no_data R db ctx _ now λ u _.
        reader-rule no_data R db _ _ (path_id-reads no_data param _ _ db) now λ id _.
          or_answer-rule no_data R db _ _ _ now λ p found.
            if-rule {A = Action Db (Payload Decimal) (Unit {0})} (λ m. R (m db))
              (p.status == "paid") (λ _. Follows-refl e db)
              λ _.
                if-rule {A = Action Db (Payload Decimal) (Unit {0})} (λ m. R (m db))
                  (p.status == "paying")
                  (λ paying.
                    confirm-Follows ctx registry p db (first_payroll-found e laws id p db found)
                      ((string_eq.decides p.status "paying").0 paying))
                  λ _. Follows-refl e db
