-- ===== src/Payroll/Settings.antt =====
-- The payroll settings, as pay, pay/config, staff/wallet and sys.go read them from the table of
-- specs.
use walletus.Base.{
  String, Bool, ◌||◌, not, List, [], ◌∷◌, ◌==◌, string_eq, nat_eq, ◌&&◌, if◌then◌else◌,
}
use walletus.Model.{PortalSpec}
use walletus.Payroll.{Env, PayrollSettings, Payload, no_data}
use walletus.Web.{Action, find_or_nil, pure, ◌>>=◌}

abbrev pub spec_type_payroll_settings : String
spec_type_payroll_settings = "payroll_settings"

-- One round of the loop: the `switch` on the name.
abbrev pub apply_spec : PayrollSettings → PortalSpec → PayrollSettings
apply_spec s spec =
    if spec.spec_name == "chain"
    then record s { chain = spec.spec_value }
    else if spec.spec_name == "pay_contract"
    then record s { pay_contract = spec.spec_value }
    else if spec.spec_name == "pay_token"
    then record s { pay_token = spec.spec_value }
    else s

unfoldable pub apply_specs : PayrollSettings → List PortalSpec → PayrollSettings
apply_specs s [] = s
apply_specs s (spec ∷ specs) = apply_specs (apply_spec s spec) specs

abbrev pub no_settings : PayrollSettings
no_settings = record { chain = ""; pay_contract = ""; pay_token = "" }

-- `PayrollSettings.IsValid`
unfoldable pub is_valid : PayrollSettings → Bool
is_valid s = not (s.chain == "" || (s.pay_contract == "" || s.pay_token == ""))

-- The `Where` of the settings.
abbrev pub is_setting : PortalSpec → Bool
is_setting spec = spec.flag == 0 && spec.spec_type == spec_type_payroll_settings

module _ (e : Env) where
  open e use {Db, Decimal, specs}

  unfoldable pub load_settings : Action Db (Payload Decimal) PayrollSettings
  unfolding apply_specs
  load_settings = do
    found ← find_or_nil no_data (specs.find is_setting)
    pure (apply_specs no_settings found)
