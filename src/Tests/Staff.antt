-- ===== src/Tests/Staff.antt =====
-- The deletion of a payslip on a table in memory.
use walletus.Base.{ℕ, length, ◌≡◌, ◌≢◌, refl, ap, arith}
use walletus.Base.Decimal.{Bytes, codes, parse_uint}
use walletus.Gorm.Memory.{mem_table}
use walletus.Payroll.Staff.{portal_payroll_staff_delete}
use walletus.Payroll.Removed.{IsRemoved, portal_payroll_staff_delete-IsRemoved}
use walletus.Tests.Memory.{MemDb, mem_env, mem_env-IsEnv, ctx, db_in}
use walletus.Web.{steps}

abbrev param : Bytes
param = codes "1"

payslip_count : MemDb → ℕ
payslip_count db = length db.payslips

counts_differ :
    {d d' : MemDb} (n m : ℕ) → payslip_count d ≡ n → payslip_count d' ≡ m → n ≢ m → d ≢ d'
counts_differ n m e e' h same = h (cc (e, e', ap payslip_count same))

deleted : (portal_payroll_staff_delete mem_env ctx param (db_in "paid")).1 ≢ db_in "paid"
unfolding payslip_count portal_payroll_staff_delete steps mem_table parse_uint
deleted = counts_differ 0 1 refl refl (omega arith)

portal_payroll_staff_delete-IsRemoved_example :
    IsRemoved mem_env mem_env-IsEnv param
      (db_in "paid")
      (portal_payroll_staff_delete mem_env ctx param (db_in "paid")).1
portal_payroll_staff_delete-IsRemoved_example =
    portal_payroll_staff_delete-IsRemoved mem_env mem_env-IsEnv ctx param (db_in "paid") deleted
