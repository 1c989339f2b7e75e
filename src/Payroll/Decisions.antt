-- ===== src/Payroll/Decisions.antt =====
-- What an audit and a payment write.
use walletus.Base.{
  String, true, false, ◌⊎◌, inl, inr, Result, ok, err, ◌≡◌, ◌≢◌, refl, arith, ◌==◌, string_eq,
  Bool-cases, List, [], select, ap,
}
use walletus.Gorm.{replace, DbError}
use walletus.Model.{PortalUser, PortalPayroll, PortalSpec, payroll_key, spec_key}
use walletus.Gorm.{IsTable}
use walletus.Payroll.{
  Env, IsEnv, PayrollRequest, PayRequest, PayrollSettings, Payload, Answer, no_data,
}
use walletus.Payroll.Approve.{portal_payroll_audit, audited, with_audit_desc}
use walletus.Payroll.Pay.{portal_payroll_pay, bind_or_answer, require_settings, checked_settings}
use walletus.Payroll.Settings.{apply_specs, is_valid, no_settings, is_setting, load_settings}
use walletus.Payroll.Reads.{audited-reads, bind_or_answer-reads, require_settings-reads}
use walletus.Payroll.Lifecycle.{HasPayroll, first_payroll-found, guard_passed}
use walletus.Web.{Context, user, next, steps, answer, pure, ◌>>=◌, find_or_nil}
use walletus.Web.Rules.{
  answer_if-rule, bind_json-rule, require_login-rule, or_answer-rule, write_or_answer-rule,
  reader-rule,
}

-- No specs give no valid settings.
invalid_of_nil : (s : PayrollSettings) → s ≡ apply_specs no_settings [] → is_valid s ≡ true → ⊥
unfolding apply_specs is_valid
invalid_of_nil s same valid =
    let e : is_valid s ≡ false = ap is_valid same in ground (arith, e, valid)

module _ (e : Env) (laws : IsEnv e) where
  open e use {Db, Decimal, payrolls, specs}

  -- What a change of the database by `PortalPayrollAudit` is.
  pub record IsAudited (ctx : Context) (bound : Result String (PayrollRequest Decimal))
      (db db' : Db) : Type 0 where
    pub auditor : PortalUser
    pub logged_in : ctx.main_user ≡ user auditor
    pub request : PayrollRequest Decimal
    pub read : bound ≡ ok request
    pub payroll : PortalPayroll Decimal
    pub found : HasPayroll e request.id payroll db
    pub waiting : payroll.status ≡ "waiting_approval"
    pub decision : String
    pub decided :
        ((request.op ≡ "approve") × (decision ≡ "approved"))
        ⊎ ((request.op ≡ "reject") × (decision ≡ "rejected"))
    pub written :
        payrolls.rows db'
        ≡ replace payroll_key
            (record (with_audit_desc e request payroll) { status = decision })
            (payrolls.rows db)

  audited-next :
      (op s : String) (db : Db)
      → (audited e op db).0 ≡ next s
      → ((op ≡ "approve") × (s ≡ "approved")) ⊎ ((op ≡ "reject") × (s ≡ "rejected"))
  unfolding audited steps
  audited-next op s db h = elim (Bool-cases (op == "approve")) [
    | inl y ↦ inl ((string_eq.decides op "approve").0 y, ground (arith, y, h))
    | inr n ↦ elim (Bool-cases (op == "reject")) [
      | inl y ↦ inr ((string_eq.decides op "reject").0 y, ground (arith, n, y, h))
      | inr n' ↦ absurd (ground (arith, n, n', h))
    ]
  ]

  -- An audit that changes the database was made by a logged-in user for a payroll that waits for
  -- approval; it approves or rejects it as the request says, and changes no other payroll.
  pub portal_payroll_audit-IsAudited :
      (ctx : Context) (bound : Result String (PayrollRequest Decimal)) (db : Db)
      → (portal_payroll_audit e ctx bound db).1 ≢ db
      → IsAudited ctx bound db (portal_payroll_audit e ctx bound db).1
  unfolding portal_payroll_audit answer
  portal_payroll_audit-IsAudited ctx bound db =
      let R = λ (x : Answer e × Db). x.1 ≢ db → IsAudited ctx bound db x.1 in
      let now : (x : Answer e) → R (x, db) = λ x differs. absurd (differs refl) in
      bind_json-rule no_data R db bound _ _ now λ request read.
        require_login-rule no_data R db ctx _ now λ u logged_in.
          or_answer-rule no_data R db _ _ _ now λ p found.
            answer_if-rule no_data R db _ _ _ _ now λ status.
              reader-rule no_data R db _ _ (audited-reads e request.op db) now λ s chosen.
                write_or_answer-rule no_data R db _ _ _ now λ r' db' saved changed. record {
                  auditor = u;
                  logged_in = logged_in;
                  request = request;
                  read = read;
                  payroll = p;
                  found = laws.payrolls_table.first_rows _ db found;
                  waiting = guard_passed _ _ status;
                  decision = s;
                  decided = audited-next request.op s db chosen;
                  written =
                      (laws.payrolls_table.save_rows _ db
                        (first_payroll-found e laws request.id p db found) saved).1;
                }

  -- What a change of the database by `PortalPayrollPay` is.
  pub record IsPaying (ctx : Context) (bound : Result String PayRequest) (db db' : Db)
      : Type 0 where
    pub payer : PortalUser
    pub logged_in : ctx.main_user ≡ user payer
    pub request : PayRequest
    pub read : bound ≡ ok request
    pub payroll : PortalPayroll Decimal
    pub found : HasPayroll e request.id payroll db
    pub approved : payroll.status ≡ "approved"
    pub settings : PayrollSettings
    pub from_specs : settings ≡ apply_specs no_settings (select is_setting (specs.rows db))
    pub valid : is_valid settings ≡ true
    pub written :
        payrolls.rows db'
        ≡ replace payroll_key
            (record payroll {
              status = "paying";
              tx_hash = request.tx_hash;
              chain = settings.chain;
            })
            (payrolls.rows db)

  bind_or_answer-next :
      {A : Type 0} (bound : Result String A) (db : Db) (a : A)
      → (bind_or_answer e bound db).0 ≡ next a
      → bound ≡ ok a
  unfolding bind_or_answer steps
  bind_or_answer-next bound db a h = ground arith

  loaded :
      (db : Db) (r : Result DbError (List PortalSpec))
      → (found : List PortalSpec) × ((r ≡ ok found) ⊎ (found ≡ []))
        × ((find_or_nil {P = Payload Decimal} no_data (λ _. r) >>= λ xs.
                pure (apply_specs no_settings xs))
              db
            ≡ (next (apply_specs no_settings found), db))
  unfolding steps
  loaded db (ok xs) = (xs, inl refl, refl)
  loaded db (err x) = ([], inr refl, refl)

  -- Valid settings have been read from the specs.
  from_query :
      IsTable spec_key specs
      → (db : Db) (s : PayrollSettings) (found : List PortalSpec)
      → (specs.find is_setting db ≡ ok found) ⊎ (found ≡ [])
      → apply_specs no_settings found ≡ s
      → is_valid s ≡ true
      → s ≡ apply_specs no_settings (select is_setting (specs.rows db))
  from_query table db s found (inl h) same valid =
      cc (same, ap (apply_specs no_settings) (table.find_rows _ db h))
  from_query table db s found (inr h) same valid =
      absurd (invalid_of_nil s (cc (same, ap (apply_specs no_settings) h)) valid)

  -- The settings are read from the specs, or from none if the query fails.
  load_settings-next :
      (db : Db)
      → (found : List PortalSpec) × ((specs.find is_setting db ≡ ok found) ⊎ (found ≡ []))
        × (load_settings e db ≡ (next (apply_specs no_settings found), db))
  unfolding load_settings steps
  load_settings-next db = loaded db (specs.find is_setting db)

  checked_settings-next :
      (s s' : PayrollSettings) (db : Db)
      → (checked_settings e s db).0 ≡ next s'
      → (s ≡ s') × (is_valid s ≡ true)
  unfolding checked_settings steps
  checked_settings-next s s' db h = elim (Bool-cases (is_valid s)) [
    | inl valid ↦ (ground (arith, h, valid), valid)
    | inr invalid ↦ absurd (ground (arith, h, invalid))
  ]

  require_settings-next :
      IsTable spec_key specs
      → (db : Db) (s : PayrollSettings) → (require_settings e db).0 ≡ next s
      → (s ≡ apply_specs no_settings (select is_setting (specs.rows db))) × (is_valid s ≡ true)
  unfolding require_settings ◌>>=◌
  require_settings-next table db s h =
      let (found, of_query, loaded) = load_settings-next db in
      let checked : (checked_settings e (apply_specs no_settings found) db).0 ≡ next s =
        cc (h, loaded) in
      let (same, valid) = checked_settings-next (apply_specs no_settings found) s db checked in
      (from_query table db s found of_query same (rw (← same) valid), rw (← same) valid)

  -- A payment that changes the database was made by a logged-in user for a payroll that is
  -- approved, with valid settings, which are those that the specs give; the payroll becomes paying
  -- with the request's transaction hash and the settings' chain, and no other payroll changes.
  pub portal_payroll_pay-IsPaying :
      IsTable spec_key specs
      → (ctx : Context) (bound : Result String PayRequest) (db : Db)
      → (portal_payroll_pay e ctx bound db).1 ≢ db
      → IsPaying ctx bound db (portal_payroll_pay e ctx bound db).1
  unfolding portal_payroll_pay answer
  portal_payroll_pay-IsPaying table ctx bound db =
      let R = λ (x : Answer e × Db). x.1 ≢ db → IsPaying ctx bound db x.1 in
      let now : (x : Answer e) → R (x, db) = λ x differs. absurd (differs refl) in
      require_login-rule no_data R db ctx _ now λ u logged_in.
        reader-rule no_data R db _ _ (bind_or_answer-reads e bound db) now λ request read.
          or_answer-rule no_data R db _ _ _ now λ p found.
            answer_if-rule no_data R db _ _ _ _ now λ status.
              reader-rule no_data R db _ _ (require_settings-reads e db) now λ s settled.
                write_or_answer-rule no_data R db _ _ _ now λ r' db' saved changed.
                  let checked = require_settings-next table db s settled in
                  record {
                    payer = u;
                    logged_in = logged_in;
                    request = request;
                    read = bind_or_answer-next bound db request read;
                    payroll = p;
                    found = laws.payrolls_table.first_rows _ db found;
                    approved = guard_passed _ _ status;
                    settings = s;
                    from_specs = checked.0;
                    valid = checked.1;
                    written =
                        (laws.payrolls_table.save_rows _ db
                          (first_payroll-found e laws request.id p db found) saved).1;
                  }
