-- ===== src/Tests/Edited.antt =====
-- An update that pays a new payroll at once.
use walletus.Base.{ℕ, String, [], ◌∷◌, ok, ◌≢◌, refl, ap, string_ne}
use walletus.Gorm.Memory.{mem_table}
use walletus.Payroll.{PayrollRequest, transaction}
use walletus.Payroll.Edit.{portal_payroll_update}
use walletus.Payroll.Edited.{IsEdited, portal_payroll_update-IsEdited}
use walletus.Payroll.Month.{is_valid_year_month}
use walletus.Payroll.Transactions.{update_tx, insert_payslips}
use walletus.Tests.Memory.{MemDb, mem_env, mem_env-IsEnv, ctx, db_in, request}
use walletus.Web.{steps}

abbrev to_paid : PayrollRequest ℕ
to_paid = record request { status = "paid" }

first_status : MemDb → String
first_status db = elim db.payrolls [ [] ↦ "" | p ∷ _ ↦ p.status ]

changes : (portal_payroll_update mem_env ctx (ok to_paid) (db_in "create")).1 ≢ db_in "create"
unfolding first_status portal_payroll_update steps mem_table is_valid_year_month transaction
    update_tx insert_payslips
changes same = string_ne "paid" "create" refl (ap first_status same)

portal_payroll_update-IsEdited_example :
    IsEdited mem_env mem_env-IsEnv ctx
      (ok to_paid)
      (db_in "create")
      (portal_payroll_update mem_env ctx (ok to_paid) (db_in "create")).1
portal_payroll_update-IsEdited_example =
    portal_payroll_update-IsEdited mem_env mem_env-IsEnv ctx (ok to_paid) (db_in "create") changes
