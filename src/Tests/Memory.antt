-- ===== src/Tests/Memory.antt =====
-- A database in memory, with amounts in ℕ, and payrolls to run the handlers on.
use walletus.Base.{ℕ, String, none, List, [], ◌∷◌, refl, ◌==◌, nat_eq, length}
use walletus.Base.Decimal.{codes}
use walletus.Gorm.Memory.{mem_table, mem_table-IsTable, mem_table-IsApart}
use walletus.Gorm.{IsTable}
use walletus.Model.{
  PortalUser, PortalPayroll, PortalPayslip, PortalSpec, PortalUserWallet, payroll_key, payslip_key,
  spec_key, user_key, user_wallet_key,
}
use walletus.Payroll.{Env, IsEnv, PayrollRequest, PayRequest}
use walletus.Web.{Context, user}

pub record MemDb : Type 0 where
  pub payrolls : List (PortalPayroll ℕ)
  pub payslips : List (PortalPayslip ℕ)
  pub specs : List PortalSpec
  pub users : List PortalUser
  pub wallets : List PortalUserWallet

abbrev pub empty_db : MemDb
empty_db = record { payrolls = []; payslips = []; specs = []; users = []; wallets = [] }

abbrev pub mem_env : Env
mem_env = record {
  Db = MemDb;
  Decimal = ℕ;
  payrolls = mem_table payroll_key (λ d. d.payrolls) (λ xs d. record d { payrolls = xs });
  payslips = mem_table payslip_key (λ d. d.payslips) (λ xs d. record d { payslips = xs });
  specs = mem_table spec_key (λ d. d.specs) (λ xs d. record d { specs = xs });
  users = mem_table user_key (λ d. d.users) (λ xs d. record d { users = xs });
  wallets = mem_table user_wallet_key (λ d. d.wallets) (λ xs d. record d { wallets = xs });
  begin_error = λ db. none;
  commit_error = λ db. none;
  is_hex_address = λ s. length (codes s) == 42;
}

pub mem_env-IsEnv : IsEnv mem_env
unfolding mem_table
mem_env-IsEnv = record {
  payrolls_table =
      mem_table-IsTable payroll_key (λ d. d.payrolls) (λ xs d. record d { payrolls = xs })
        (λ n r. refl) (λ xs db. refl);
  payslips_table =
      mem_table-IsTable payslip_key (λ d. d.payslips) (λ xs d. record d { payslips = xs })
        (λ n r. refl) (λ xs db. refl);
  payslips_apart =
      mem_table-IsApart payslip_key (λ d. d.payslips) (λ xs d. record d { payslips = xs })
        mem_env.payrolls (λ xs db. refl);
  wallets_apart =
      mem_table-IsApart user_wallet_key (λ d. d.wallets) (λ xs d. record d { wallets = xs })
        mem_env.payrolls (λ xs db. refl);
  payrolls_apart =
      mem_table-IsApart payroll_key (λ d. d.payrolls) (λ xs d. record d { payrolls = xs })
        mem_env.payslips (λ xs db. refl);
}

abbrev pub alice : PortalUser
alice = record {
  id = 7;
  login_id = "alice";
  name = "Alice";
  email = "";
  password = "";
  add_time = 0;
  flag = 0;
  location = "";
  type = "";
}

abbrev pub ctx : Context
ctx = record { main_user = user alice; now = 1000 }

abbrev pub payroll_in : String → PortalPayroll ℕ
payroll_in status = record {
  id = 1;
  roll_month = "202501";
  flag = 0;
  creator_id = 7;
  total_amount = 100;
  status = status;
  add_time = 10;
  desc = "";
  pay_time = none;
  tx_hash = "0xabc";
  chain = "ETH";
}

abbrev pub payslip : PortalPayslip ℕ
payslip = record {
  id = 1;
  payroll_id = 1;
  user_id = 7;
  wallet_id = 0;
  wallet_address = "0x00000000000000000000000000000000000000aa";
  wallet_type = "";
  wallet_chain = "";
  amount = 100;
  flag = 0;
  trans_time = 10;
  receipt_hash = "";
}

-- One payroll with a status, and its payslip.
abbrev pub db_in : String → MemDb
db_in status = record empty_db { payrolls = payroll_in status ∷ []; payslips = payslip ∷ [] }

abbrev pub request : PayrollRequest ℕ
request = record {
  id = 1;
  roll_month = "202501";
  total_amount = 100;
  status = "create";
  desc = "";
  items = [];
  op = "approve";
}

pub mem_specs-IsTable : IsTable spec_key mem_env.specs
mem_specs-IsTable =
    mem_table-IsTable spec_key (λ (d : MemDb). d.specs) (λ xs d. record d { specs = xs })
      (λ n r. refl) (λ xs db. refl)

abbrev spec : ℕ → String → String → PortalSpec
spec id name text = record {
  id = id;
  spec_type = "payroll_settings";
  spec_name = name;
  spec_value = text;
  flag = 0;
  add_time = 0;
}

-- An approved payroll, with the settings for its payment.
abbrev pub payable_db : MemDb
payable_db = record (db_in "approved") {
  specs = spec 1 "chain" "ETH" ∷ spec 2 "pay_contract" "0xc" ∷ spec 3 "pay_token" "0xt" ∷ [];
}

abbrev pub pay_request : PayRequest
pay_request = record { id = 1; tx_hash = "0xabc" }
