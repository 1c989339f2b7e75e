-- ===== src/Tests/Settings.antt =====
-- The payroll settings on tables in memory.
use walletus.Base.{some, [], ◌∷◌, ok, refl, ◌≡◌}
use walletus.Gorm.{IsTable, IsBulk}
use walletus.Gorm.Memory.{mem_table, mem_table-IsTable, mem_table-IsBulk}
use walletus.Model.{spec_key}
use walletus.Payroll.{PayrollSettings}
use walletus.Payroll.Saved.{
  new_spec, new_specs, create_specs, portal_payroll_settings, portal_payroll_settings_save,
}
use walletus.Payroll.ReadBack.{portal_payroll_settings-portal_payroll_settings_save}
use walletus.Tests.Memory.{MemDb, mem_env, empty_db, alice, ctx}
use walletus.Web.{reply, steps}

specs-IsTable : IsTable spec_key mem_env.specs
specs-IsTable =
    mem_table-IsTable spec_key (λ (d : MemDb). d.specs) (λ xs d. record d { specs = xs })
      (λ n r. refl) (λ xs db. refl)

specs-IsBulk : IsBulk spec_key mem_env.specs
specs-IsBulk =
    mem_table-IsBulk spec_key (λ (d : MemDb). d.specs) (λ xs d. record d { specs = xs })
      (λ n r. refl) (λ xs db. refl)

abbrev wanted : PayrollSettings
wanted = record { chain = "ARB"; pay_contract = ""; pay_token = "usdt" }

-- The chain was another one before.
abbrev old : MemDb
old = record empty_db { specs = record (new_spec 5 "chain" "ETH") { id = 1 } ∷ [] }

unfoldable saving : Unit {0}
unfolding mem_table steps new_specs create_specs portal_payroll_settings_save
saving = tt

portal_payroll_settings-portal_payroll_settings_save_example :
    (portal_payroll_settings mem_env ctx
      (portal_payroll_settings_save mem_env ctx (ok wanted) old).1).0
    ≡ reply (record { status = 200; code = 0; msg = "success"; payload = some wanted })
unfolding saving
portal_payroll_settings-portal_payroll_settings_save_example =
    portal_payroll_settings-portal_payroll_settings_save mem_env ctx ctx alice wanted old empty_db 1
      (record (new_spec 1000 "chain" "ARB") { id = 1 }
        ∷ record (new_spec 1000 "pay_token" "usdt") { id = 2 }
        ∷ [])
      (record { status = 200; code = 0; msg = ""; payload = tt }) specs-IsTable specs-IsBulk refl
      refl refl refl refl
