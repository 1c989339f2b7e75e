-- ===== src/Payroll/Inserts.antt =====
-- Inserting payslips leaves the payrolls alone.
use walletus.Base.{ok, ◌≡◌, List, [], ◌∷◌, >>=-eq-ok, map}
use walletus.Model.{PortalPayroll, PortalPayslip}
use walletus.Payroll.{Env, IsEnv, PayslipItem}
use walletus.Payroll.Transactions.{insert_payslips, or_text, or_text_ok}

module _ (e : Env) (laws : IsEnv e) where
  open e use {Db, Decimal, payrolls, payslips}

  -- Payslips are inserted beside the payrolls.
  pub insert_payslips-rows :
      (to_payslip : PayslipItem Decimal → PortalPayslip Decimal)
      (items : List (PayslipItem Decimal)) (p p' : PortalPayroll Decimal) (db db' : Db)
      → insert_payslips e to_payslip items p db ≡ ok (p', db')
      → payrolls.rows db' ≡ payrolls.rows db
  unfolding insert_payslips
  insert_payslips-rows to_payslip [] p p' db db' h = cc
  insert_payslips-rows to_payslip (item ∷ items) p p' db db' h =
      let ((xs, db₁), made, same) =
        >>=-eq-ok (or_text (payslips.create_all (map to_payslip (item ∷ items)) db)) _ h in
      let moved =
        laws.payslips_apart.create_all_apart (map to_payslip (item ∷ items)) db
          (or_text_ok _ made) in
      cc
