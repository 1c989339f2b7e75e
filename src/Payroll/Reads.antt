-- ===== src/Payroll/Reads.antt =====
-- The steps of the payroll handlers that only read, and leave the database as it was.
use walletus.Base.{ℕ, String, Result, ◌≡◌, refl, string_eq, arith}
use walletus.Chain.Json.{Json, null, bool, num, str, arr, obj}
use walletus.Payroll.{Env, Answer, no_data}
use walletus.Payroll.Approve.{audited}
use walletus.Payroll.Staff.{wallet_of}
use walletus.Payroll.Settings.{load_settings}
use walletus.Payroll.Pay.{
  portal_payroll_pay_config, bind_or_answer, require_settings, checked_settings, from_result,
  receipt_status,
}
use walletus.Web.{pure, Context, answer, steps}
use walletus.Web.Rules.{
  answer_if-rule, require_login-rule, or_answer-rule, find_or_nil-rule, reader-rule,
}

module _ (e : Env) where
  open e use {Db, Decimal, payrolls, payslips}

  pub audited-reads : (op : String) (db : Db) → (audited e op db).1 ≡ db
  unfolding audited steps
  audited-reads op db = ground arith

  pub bind_or_answer-reads :
      {A : Type 0} (bound : Result String A) (db : Db) → (bind_or_answer e bound db).1 ≡ db
  unfolding bind_or_answer steps
  bind_or_answer-reads bound db = ground arith

  pub load_settings-reads : (db : Db) → (load_settings e db).1 ≡ db
  unfolding load_settings pure
  load_settings-reads db = find_or_nil-rule no_data (λ x. x.1 ≡ db) db _ _ λ specs _. refl

  pub require_settings-reads : (db : Db) → (require_settings e db).1 ≡ db
  unfolding require_settings checked_settings pure
  require_settings-reads db =
      reader-rule no_data (λ x. x.1 ≡ db) db (load_settings e) _ (load_settings-reads db)
        (λ _. refl) λ s _. answer_if-rule no_data (λ x. x.1 ≡ db) db _ _ _ _ (λ _. refl) λ _. refl

  pub portal_payroll_pay_config-reads :
      (ctx : Context) (bound : Result String ℕ) (db : Db)
      → (portal_payroll_pay_config e ctx bound db).1 ≡ db
  unfolding portal_payroll_pay_config answer
  portal_payroll_pay_config-reads ctx bound db =
      let R = λ (x : Answer e × Db). x.1 ≡ db in
      require_login-rule no_data R db ctx _ (λ _. refl)
        λ u _.
          reader-rule no_data R db (bind_or_answer e bound) _ (bind_or_answer-reads bound db)
            (λ _. refl)
            λ id _.
              or_answer-rule no_data R db _ _ _ (λ _. refl)
                λ p found.
                  answer_if-rule no_data R db _ _ _ _ (λ _. refl)
                    λ status.
                      reader-rule no_data R db (require_settings e) _ (require_settings-reads db)
                        (λ _. refl) λ s _. find_or_nil-rule no_data R db _ _ λ slips _. refl

  pub from_result-reads :
      {A : Type 0} (r : Result String A) (code : ℕ) (msg : String → String) (db : Db)
      → (from_result e r code msg db).1 ≡ db
  unfolding from_result steps
  from_result-reads r code msg db = ground arith

  pub receipt_status-reads : (receipt : Json) (db : Db) → (receipt_status e receipt db).1 ≡ db
  unfolding receipt_status steps
  receipt_status-reads null db = refl
  receipt_status-reads (bool b) db = refl
  receipt_status-reads (num n) db = refl
  receipt_status-reads (str t) db = refl
  receipt_status-reads (arr xs) db = refl
  receipt_status-reads (obj m) db = ground arith

  pub wallet_of-reads : (user_id : ℕ) (db : Db) → (wallet_of e user_id db).1 ≡ db
  unfolding wallet_of steps
  wallet_of-reads user_id db = ground arith
