-- ===== src/Tests/Payroll.antt =====
-- The payroll theorems at concrete databases and requests.
use walletus.Base.{
  ℕ, String, List, [], ◌∷◌, ok, err, map, string_ne, ◌≡◌, ◌≢◌, refl, ap, arith, Result,
}
use walletus.Base.Decimal.{Bytes, codes, parse_uint}
use walletus.Chain.Gateway.{Client, Registry, init_registry, get_transaction}
use walletus.Chain.Json.{obj, str, field, end, get}
use walletus.Model.{PortalPayroll, PortalUser}
use walletus.Payroll.{transaction, PayrollRequest}
use walletus.Payroll.Decisions.{
  portal_payroll_audit-IsAudited, IsAudited, portal_payroll_pay-IsPaying, IsPaying,
}
use walletus.Payroll.Settings.{load_settings, apply_specs, is_valid}
use walletus.Payroll.Checks.{portal_payroll_submit-IsSubmittable, IsSubmittable}
use walletus.Payroll.Confirmed.{portal_payroll_status_check-IsSettled, IsSettled}
use walletus.Payroll.Monthly.{portal_payroll_create-IsCreated, IsCreated}
use walletus.Payroll.Refusals.{serve-IsKept, succeeded}
use walletus.Payroll.Lifecycle.{HasPayroll}
use walletus.Payroll.Lifecycle.Calls.{
  Call, submit_call, audit, serve, serve_all, serve_all-Reaches, serve_all-IsFinal, Reaches,
  IsFinal,
}
use walletus.Payroll.Approve.{portal_payroll_submit, portal_payroll_audit, has_bad_address, audited}
use walletus.Payroll.Edit.{portal_payroll_create}
use walletus.Payroll.Pay.{
  portal_payroll_pay, bind_or_answer, require_settings, checked_settings,
  portal_payroll_status_check, confirm, from_result, receipt_status,
}
use walletus.Payroll.Transactions.{create_tx, insert_payslips, create_unless, insert_payroll}
use walletus.Payroll.Month.{is_valid_year_month}
use walletus.Bip.{check_valid_chain_code}
use walletus.Tests.Memory.{
  mem_specs-IsTable, payable_db, pay_request, MemDb, mem_env, mem_env-IsEnv, ctx, alice, db_in,
  empty_db, payroll_in, request,
}
use walletus.Gorm.Memory.{mem_table}
use walletus.Web.{Context, user, steps}

-- A client whose transactions have all succeeded.
abbrev good_client : Client
good_client = record {
  anchor = λ chain c. err "none";
  native_balance_batch = λ chain xs a. err "none";
  token_balances_batch = λ chain xs a. err "none";
  get_transaction = λ chain hash. ok (obj (field "status" (str "0x1") end));
}

abbrev registry : Registry
registry = init_registry (λ c. good_client) good_client good_client

status_of : MemDb → List String
status_of db = map (λ p. p.status) db.payrolls

first_of : List String → String
first_of [] = ""
first_of (s ∷ _) = s

unfoldable all : Unit {0}
unfolding mem_table steps serve serve_all portal_payroll_submit portal_payroll_audit
    portal_payroll_pay bind_or_answer require_settings checked_settings load_settings is_valid
    apply_specs portal_payroll_create portal_payroll_status_check has_bad_address audited confirm
    from_result receipt_status init_registry status_of first_of succeeded transaction create_tx
    insert_payslips is_valid_year_month check_valid_chain_code get_transaction get parse_uint
    create_unless insert_payroll
all = tt

-- Two calls on a new payroll: it is submitted and approved.
abbrev two_calls : List (Context × Call ℕ)
two_calls = (ctx, submit_call (ok request)) ∷ (ctx, audit (ok request)) ∷ []

two_calls-run : status_of (serve_all mem_env two_calls (db_in "create")) ≡ "approved" ∷ []
unfolding all
two_calls-run = refl

serve_all-Reaches_example :
    (p' : PortalPayroll ℕ) × HasPayroll mem_env 1 p' (serve_all mem_env two_calls (db_in "create"))
    × Reaches "create" p'.status
serve_all-Reaches_example =
    serve_all-Reaches mem_env mem_env-IsEnv two_calls (db_in "create") 1 (payroll_in "create")
      (unfold all in refl)

paid-IsFinal : IsFinal "paid"
paid-IsFinal = (string_ne _ _ refl, string_ne _ _ refl, string_ne _ _ refl, string_ne _ _ refl)

serve_all-IsFinal_example :
    (p' : PortalPayroll ℕ) × HasPayroll mem_env 1 p' (serve_all mem_env two_calls (db_in "paid"))
    × p'.status ≡ "paid"
serve_all-IsFinal_example =
    serve_all-IsFinal mem_env mem_env-IsEnv two_calls (db_in "paid") 1 (payroll_in "paid")
      (unfold all in refl) paid-IsFinal

-- Databases with other payrolls differ.
differ :
    {d d' : MemDb} (xs ys : List String) → status_of d ≡ xs → status_of d' ≡ ys → xs ≢ ys → d ≢ d'
differ xs ys e e' h same = h (cc (e, e', ap status_of same))

serve-IsKept_example :
    (serve mem_env ctx (submit_call (ok request)) (db_in "paid")).1 ≡ db_in "paid"
serve-IsKept_example =
    serve-IsKept mem_env ctx (submit_call (ok request)) (db_in "paid") (unfold all in refl)

submitted : (portal_payroll_submit mem_env ctx (ok request) (db_in "create")).1 ≢ db_in "create"
unfolding first_of
submitted =
    differ ("waiting_approval" ∷ []) ("create" ∷ []) (unfold all in refl) (unfold all in refl)
      (λ h. string_ne _ _ refl (ap first_of h))

portal_payroll_submit-IsSubmittable_example :
    ((u : PortalUser) × user alice ≡ user u)
    × ((r : PayrollRequest ℕ) × (◌≡◌ {A = Result String (PayrollRequest ℕ)} (ok request) (ok r))
        × IsSubmittable mem_env r.id (db_in "create"))
portal_payroll_submit-IsSubmittable_example =
    portal_payroll_submit-IsSubmittable mem_env mem_env-IsEnv ctx (ok request) (db_in "create")
      submitted

abbrev param : Bytes
param = codes "1"

checked :
    (portal_payroll_status_check mem_env ctx registry param (db_in "paying")).1 ≢ db_in "paying"
unfolding first_of
checked =
    differ ("paid" ∷ []) ("paying" ∷ []) (unfold all in refl) (unfold all in refl)
      (λ h. string_ne _ _ refl (ap first_of h))

portal_payroll_status_check-IsSettled_example :
    IsSettled mem_env registry param 1000
      (db_in "paying")
      (portal_payroll_status_check mem_env ctx registry param (db_in "paying")).1
portal_payroll_status_check-IsSettled_example =
    portal_payroll_status_check-IsSettled mem_env mem_env-IsEnv ctx registry param (db_in "paying")
      checked

created : (portal_payroll_create mem_env ctx (ok request) empty_db).1 ≢ empty_db
created =
    differ ("create" ∷ []) [] (unfold all in refl) (unfold all in refl) (λ h. ground (arith, h))

portal_payroll_create-IsCreated_example :
    IsCreated mem_env mem_env-IsEnv ctx
      (ok request)
      empty_db
      (portal_payroll_create mem_env ctx (ok request) empty_db).1
portal_payroll_create-IsCreated_example =
    portal_payroll_create-IsCreated mem_env mem_env-IsEnv ctx (ok request) empty_db created

audit_changes :
    (portal_payroll_audit mem_env ctx (ok request) (db_in "waiting_approval")).1
    ≢ db_in "waiting_approval"
unfolding first_of
audit_changes =
    differ ("approved" ∷ []) ("waiting_approval" ∷ []) (unfold all in refl) (unfold all in refl)
      (λ h. string_ne _ _ refl (ap first_of h))

portal_payroll_audit-IsAudited_example :
    IsAudited mem_env mem_env-IsEnv ctx
      (ok request)
      (db_in "waiting_approval")
      (portal_payroll_audit mem_env ctx (ok request) (db_in "waiting_approval")).1
portal_payroll_audit-IsAudited_example =
    portal_payroll_audit-IsAudited mem_env mem_env-IsEnv ctx (ok request) (db_in "waiting_approval")
      audit_changes

pay_changes : (portal_payroll_pay mem_env ctx (ok pay_request) payable_db).1 ≢ payable_db
unfolding first_of
pay_changes =
    differ ("paying" ∷ []) ("approved" ∷ []) (unfold all in refl) (unfold all in refl)
      (λ h. string_ne _ _ refl (ap first_of h))

portal_payroll_pay-IsPaying_example :
    IsPaying mem_env mem_env-IsEnv ctx
      (ok pay_request)
      payable_db
      (portal_payroll_pay mem_env ctx (ok pay_request) payable_db).1
portal_payroll_pay-IsPaying_example =
    portal_payroll_pay-IsPaying mem_env mem_env-IsEnv mem_specs-IsTable ctx (ok pay_request)
      payable_db pay_changes
