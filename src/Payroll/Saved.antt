-- ===== src/Payroll/Saved.antt =====
-- `PortalPayrollSettings` and `PortalPayrollSettingsSave` of cmd/modapi/http/portal/sys.go.
use Prim.Native.String.{◌++◌ as ◌++s◌}
use walletus.Base.{
  ℕ, String, Option, none, some, List, [], ◌∷◌, ◌++◌, Result, ◌==◌, string_eq, nat_eq,
  if◌then◌else◌,
}
use walletus.Model.{PortalSpec}
use walletus.Payroll.{Env, PayrollSettings}
use walletus.Payroll.Edit.{invalid_request}
use walletus.Payroll.Settings.{spec_type_payroll_settings, apply_specs, no_settings, is_setting}
use walletus.Web.{
  Action, Context, ◌>>=◌, ◌>>◌, pure, answer, bind_json, require_login, find_or_nil,
  write_or_answer, write_or_ignore, error_text,
}
use walletus.Web.Codes.{success, err_unknown}

abbrev pub new_spec : ℕ → String → String → PortalSpec
new_spec now name value = record {
  id = 0;
  spec_name = name;
  spec_value = value;
  spec_type = spec_type_payroll_settings;
  add_time = now;
  flag = 0;
}

-- `if value != "" { portalSpec = append(portalSpec, …) }`
abbrev pub spec_unless_empty : ℕ → String → String → List PortalSpec
spec_unless_empty now name value = if value == "" then [] else new_spec now name value ∷ []

unfoldable pub new_specs : ℕ → PayrollSettings → List PortalSpec
new_specs now request =
    spec_unless_empty now "chain" request.chain
    ++ (spec_unless_empty now "pay_contract" request.pay_contract
        ++ spec_unless_empty now "pay_token" request.pay_token)

module _ (e : Env) where
  open e use {Db, specs}

  -- The reply also has a table of contracts that is written out in the code.
  unfoldable pub portal_payroll_settings : Context → Action Db (Option PayrollSettings) (Unit {0})
  unfolding apply_specs
  portal_payroll_settings ctx = do
    require_login none ctx
    found ← find_or_nil none (specs.find is_setting)
    answer success "success" (some (apply_specs no_settings found))

  -- `if len(portalSpec) > 0`
  unfoldable pub create_specs : List PortalSpec → Action Db (Unit {0}) (Unit {0})
  create_specs [] = pure tt
  create_specs (s ∷ ss) = do
    write_or_answer tt (specs.create_all (s ∷ ss))
        (λ x. (err_unknown, "database error: " ++s error_text x))
    pure tt

  -- The message of the reply is not set.
  unfoldable pub portal_payroll_settings_save :
      Context → Result String PayrollSettings → Action Db (Unit {0}) (Unit {0})
  unfolding new_specs create_specs
  portal_payroll_settings_save ctx bound = do
    request ← bind_json tt bound invalid_request
    write_or_ignore (specs.delete is_setting)
    create_specs (new_specs ctx.now request)
    answer success "" tt
