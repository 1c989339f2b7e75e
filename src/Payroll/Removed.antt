-- ===== src/Payroll/Removed.antt =====
-- What the deletion of a payslip removes.
use walletus.Base.{ℕ, ◌≡◌, ◌≢◌, refl, some, reject, find?, find?-holds, nat_eq}
use walletus.Base.Decimal.{Bytes, parse_uint}
use walletus.Gorm.{has_key}
use walletus.Model.{PortalPayslip, payslip_key}
use walletus.Payroll.{Env, IsEnv, Answer}
use walletus.Payroll.Staff.{portal_payroll_staff_delete}
use walletus.Payroll.Lifecycle.Staff.{staff_delete-rule}
use walletus.Web.{Context, answer}

module _ (e : Env) (laws : IsEnv e) where
  open e use {Db, Decimal, payrolls, payslips}

  -- What a change of the database by `PortalPayrollStaffDelete` is.
  pub record IsRemoved (param : Bytes) (db db' : Db) : Type 0 where
    pub id : ℕ
    pub read : parse_uint 64 param ≡ some id
    pub payslip : PortalPayslip Decimal
    pub found : find? (has_key payslip_key id) (payslips.rows db) ≡ some payslip
    pub removed : payslips.rows db' ≡ reject (has_key payslip_key id) (payslips.rows db)
    pub payrolls_kept : payrolls.rows db' ≡ payrolls.rows db

  -- A deletion of a payslip that changes the database removes exactly the payslip whose ID the
  -- path names, which was there, and no payroll.
  pub portal_payroll_staff_delete-IsRemoved :
      (ctx : Context) (param : Bytes) (db : Db)
      → (portal_payroll_staff_delete e ctx param db).1 ≢ db
      → IsRemoved param db (portal_payroll_staff_delete e ctx param db).1
  unfolding answer
  portal_payroll_staff_delete-IsRemoved ctx param db =
      let R = λ (x : Answer e × Db). x.1 ≢ db → IsRemoved param db x.1 in
      staff_delete-rule e R ctx param db (λ x differs. absurd (differs refl))
        λ id s n db' read found deleted changed.
          let row = laws.payslips_table.first_rows _ db found in
          let same : s.id ≡ id =
            (nat_eq.decides s.id id).0
              (find?-holds (has_key payslip_key id) (payslips.rows db) s row) in
          record {
            id = id;
            read = read;
            payslip = s;
            found = row;
            removed = simp (← same) (laws.payslips_table.delete_rows _ db deleted).1;
            payrolls_kept = laws.payslips_apart.delete_apart _ db deleted;
          }
