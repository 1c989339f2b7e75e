-- ===== src/Payroll/Checks.antt =====
-- What the payroll handlers have checked before they change anything.
use walletus.Base.{
  ℕ, String, true, false, List, [], ◌∷◌, Result, ok, ◌≡◌, ◌≢◌, ◌⊎◌, refl, arith, select, All, ◌==◌,
  nat_eq, string_eq, inl, inr,
}
use walletus.Model.{PortalUser, PortalPayroll, PortalPayslip}
use walletus.Payroll.{Env, IsEnv, PayrollRequest, Answer, no_data}
use walletus.Payroll.Approve.{portal_payroll_submit, has_bad_address, is_empty}
use walletus.Payroll.Lifecycle.{HasPayroll, guard_passed}
use walletus.Web.{Context, user}
use walletus.Web.Rules.{
  answer_if-rule, bind_json-rule, require_login-rule, or_answer-rule, write_or_answer-rule,
  find_or_nil-rule,
}

module _ (e : Env) where
  open e use {Db, Decimal, payrolls, payslips, is_hex_address}

  pub payslips_of : PortalPayroll Decimal → Db → List (PortalPayslip Decimal)
  payslips_of p db = select (λ s. s.payroll_id == p.id) (payslips.rows db)

  -- A payroll may be submitted: it is new, has payslips, and all their addresses are hexadecimal.
  pub record IsSubmittable (id : ℕ) (db : Db) : Type 0 where
    pub payroll : PortalPayroll Decimal
    pub found : HasPayroll e id payroll db
    pub new : payroll.status ≡ "create"
    pub some_payslip : payslips_of payroll db ≢ []
    pub addresses : All (λ s. is_hex_address s.wallet_address ≡ true) (payslips_of payroll db)

  has_bad_address-All :
      (xs : List (PortalPayslip Decimal))
      → has_bad_address e xs ≡ false
      → All (λ s. is_hex_address s.wallet_address ≡ true) xs
  unfolding has_bad_address
  has_bad_address-All [] h = tt
  has_bad_address-All (x ∷ xs) h = (ground (arith, h), has_bad_address-All xs (ground (arith, h)))

  -- Only what the query has returned can pass the two checks.
  checked_payslips :
      IsEnv e
      → (p : PortalPayroll Decimal) (db : Db) (slips : List (PortalPayslip Decimal))
      → (payslips.find (λ s. s.payroll_id == p.id) db ≡ ok slips) ⊎ (slips ≡ [])
      → is_empty slips ≡ false
      → slips ≡ payslips_of p db
  unfolding payslips_of
  checked_payslips laws p db slips (inl h) any = laws.payslips_table.find_rows _ db h
  checked_payslips laws p db slips (inr h) any = ground (arith, h, any)

  not_empty : (xs : List (PortalPayslip Decimal)) → is_empty xs ≡ false → xs ≢ []
  not_empty xs h g = ground (arith, h, g)

  -- A submit that changes the database has been made by a logged-in user for a payroll that is
  -- new, with at least one payslip, and with a hexadecimal wallet address on every payslip.
  pub portal_payroll_submit-IsSubmittable :
      IsEnv e
      → (ctx : Context) (bound : Result String (PayrollRequest Decimal)) (db : Db)
      → (portal_payroll_submit e ctx bound db).1 ≢ db
      → ((u : PortalUser) × ctx.main_user ≡ user u)
        × ((request : PayrollRequest Decimal) × (bound ≡ ok request) × IsSubmittable request.id db)
  unfolding portal_payroll_submit
  portal_payroll_submit-IsSubmittable laws ctx bound db =
      let R = λ (x : Answer e × Db).
        x.1 ≢ db
        → ((u : PortalUser) × ctx.main_user ≡ user u)
          × ((request : PayrollRequest Decimal) × (bound ≡ ok request)
              × IsSubmittable request.id db) in
      let now : (x : Answer e) → R (x, db) = λ x differs. absurd (differs refl) in
      bind_json-rule no_data R db bound _ _ now λ request read.
        require_login-rule no_data R db ctx _ now λ u logged_in.
          or_answer-rule no_data R db _ _ _ now λ p found.
            answer_if-rule no_data R db _ _ _ _ now λ status.
              find_or_nil-rule no_data R db _ _ λ slips listed.
                answer_if-rule no_data R db _ _ _ _ now λ any.
                  answer_if-rule no_data R db _ _ _ _ now λ good.
                    write_or_answer-rule no_data R db _ _ _ now λ r' db' saved changed.
                      let same = checked_payslips laws p db slips listed any in
                      (
                        (u, logged_in),
                        (
                          request,
                          read,
                          record {
                            payroll = p;
                            found = laws.payrolls_table.first_rows _ db found;
                            new = guard_passed _ _ status;
                            some_payslip = rw (← same) (not_empty slips any);
                            addresses = rw (← same) (has_bad_address-All slips good);
                          },
                        ),
                      )
