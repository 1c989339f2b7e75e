-- ===== src/Payroll/Confirmed.antt =====
-- A payroll is paid only once its transaction is confirmed on its chain.
use walletus.Base.{ℕ, String, some, Result, ok, ◌≡◌, ◌≢◌, refl, arith, ◌==◌, string_eq, if-rule}
use walletus.Base.Decimal.{Bytes, parse_uint}
use walletus.Bip.{check_valid_chain_code}
use walletus.Chain.{ChainDef}
use walletus.Chain.Gateway.{Registry, get_transaction}
use walletus.Chain.Json.{Json, null, bool, num, str, arr, obj, Fields, get, as_string}
use walletus.Gorm.{replace, has_key}
use walletus.Model.{PortalPayroll, payroll_key}
use walletus.Payroll.{Env, IsEnv, Payload, Answer, no_data}
use walletus.Payroll.Pay.{portal_payroll_status_check, confirm, from_result, receipt_status}
use walletus.Payroll.Reads.{from_result-reads, receipt_status-reads}
use walletus.Payroll.Lifecycle.{HasPayroll, first_payroll-found, guard_passed}
use walletus.Web.{Action, Context, next, answer, steps}
use walletus.Web.Rules.{
  path_id-reads, path_id-next, answer_if-rule, require_login-rule, or_answer-rule,
  write_or_answer-rule, reader-rule,
}

-- The client of the payroll's chain reports its transaction with status 0x1.
pub record IsConfirmed {D : Type 0} (registry : Registry) (p : PortalPayroll D) : Type 0 where
  pub chain : ChainDef
  pub known : check_valid_chain_code p.chain ≡ ok chain
  pub fields : Fields
  pub received :
      get_transaction registry (record { chain = chain; network = "mainnet"; tx_hash = p.tx_hash })
      ≡ ok (obj fields)
  pub succeeded : get "status" fields ≡ str "0x1"

as_string-some : (v : Json) (s : String) → as_string v ≡ some s → v ≡ str s
as_string-some (str t) s h = cc
as_string-some null s h = cc
as_string-some (bool b) s h = cc
as_string-some (num n) s h = cc
as_string-some (arr xs) s h = cc
as_string-some (obj m) s h = cc

module _ (e : Env) where
  open e use {Db, Decimal, payrolls}

  from_result-ok :
      {A : Type 0} (r : Result String A) (code : ℕ) (msg : String → String) (db : Db) (a : A)
      → (from_result e r code msg db).0 ≡ next a
      → r ≡ ok a
  unfolding from_result steps
  from_result-ok r code msg db a h = ground arith

  receipt_status-next :
      (receipt : Json) (db : Db) (s : String)
      → (receipt_status e receipt db).0 ≡ next s
      → (fields : Fields) × (receipt ≡ obj fields) × get "status" fields ≡ str s
  unfolding receipt_status steps
  receipt_status-next null db s h = ground (arith, h)
  receipt_status-next (bool b) db s h = ground (arith, h)
  receipt_status-next (num n) db s h = ground (arith, h)
  receipt_status-next (str t) db s h = ground (arith, h)
  receipt_status-next (arr xs) db s h = ground (arith, h)
  receipt_status-next (obj m) db s h =
      (m, refl, as_string-some (get "status" m) s (ground (arith, h)))

  -- What a change of the database by `PortalPayrollStatusCheck` at time `now` is.
  pub record IsSettled (registry : Registry) (param : Bytes) (now : ℕ) (db db' : Db) : Type 0 where
    pub id : ℕ
    pub parsed : parse_uint 64 param ≡ some id
    pub payroll : PortalPayroll Decimal
    pub found : HasPayroll e id payroll db
    pub paying : payroll.status ≡ "paying"
    pub confirmed : IsConfirmed registry payroll
    pub written :
        payrolls.rows db'
        ≡ replace payroll_key
            (record payroll { status = "paid"; pay_time = some now })
            (payrolls.rows db)

  -- What `confirm` has done where it has changed the database.
  abbrev Settles : Context → Registry → PortalPayroll Decimal → Db → Answer e × Db → Type 0
  Settles ctx registry p db x =
      x.1 ≢ db
      → IsConfirmed registry p
        × ((r' : PortalPayroll Decimal) × payrolls.save
                (record p { status = "paid"; pay_time = some ctx.now }) db
              ≡ ok (r', x.1))

  confirm-Settles :
      (ctx : Context) (registry : Registry) (p : PortalPayroll Decimal) (db : Db)
      → Settles ctx registry p db (confirm e ctx registry p db)
  unfolding confirm answer
  confirm-Settles ctx registry p db =
      let R = λ (x : Answer e × Db). Settles ctx registry p db x in
      let now : (x : Answer e) → R (x, db) = λ x differs. absurd (differs refl) in
      reader-rule no_data R db _ _ (from_result-reads e _ _ _ db) now λ chain_def known.
        reader-rule no_data R db _ _ (from_result-reads e _ _ _ db) now λ receipt received.
          reader-rule no_data R db _ _ (receipt_status-reads e receipt db) now λ status read.
            answer_if-rule no_data R db _ _ _ _ now λ is_one.
              write_or_answer-rule no_data R db _ _ _ now λ r' db' saved changed.
                let (fields, is_obj, has_status) = receipt_status-next receipt db status read in
                let one = guard_passed status "0x1" is_one in
                (
                  record {
                    chain = chain_def;
                    known = from_result-ok _ _ _ db _ known;
                    fields = fields;
                    received = cc (from_result-ok _ _ _ db _ received, is_obj);
                    succeeded = simp (← one) has_status;
                  },
                  (r', saved),
                )

  Settles-IsSettled :
      IsEnv e
      → (ctx : Context) (registry : Registry) (param : Bytes) (db : Db) (id : ℕ)
        (p : PortalPayroll Decimal)
      → parse_uint 64 param ≡ some id
      → payrolls.first (has_key payroll_key id) db ≡ ok p
      → p.status ≡ "paying"
      → (x : Answer e × Db) → Settles ctx registry p db x
      → x.1 ≢ db
      → IsSettled registry param ctx.now db x.1
  Settles-IsSettled laws ctx registry param db id p parsed found paying x settles changed =
      let (confirmed, (r', saved)) = settles changed in
      record {
        id = id;
        parsed = parsed;
        payroll = p;
        found = laws.payrolls_table.first_rows _ db found;
        paying = paying;
        confirmed = confirmed;
        written =
            (laws.payrolls_table.save_rows _ db (first_payroll-found e laws id p db found) saved).1;
      }

  -- A status check that changes the database was asked for a payroll that is paying, whose
  -- transaction hash the client of its chain reports with status "0x1"; all it changes of the
  -- payrolls is that this one becomes paid, at the time of the call.
  pub portal_payroll_status_check-IsSettled :
      IsEnv e
      → (ctx : Context) (registry : Registry) (param : Bytes) (db : Db)
      → (portal_payroll_status_check e ctx registry param db).1 ≢ db
      → IsSettled registry param ctx.now db (portal_payroll_status_check e ctx registry param db).1
  unfolding portal_payroll_status_check answer
  portal_payroll_status_check-IsSettled laws ctx registry param db =
      let R = λ (x : Answer e × Db). x.1 ≢ db → IsSettled registry param ctx.now db x.1 in
      let now : (x : Answer e) → R (x, db) = λ x differs. absurd (differs refl) in
      require_login-rule no_data R db ctx _ now λ u _.
        reader-rule no_data R db _ _ (path_id-reads no_data param _ _ db) now λ id parsed.
          or_answer-rule no_data R db _ _ _ now λ p found.
            if-rule {A = Action Db (Payload Decimal) (Unit {0})} (λ m. R (m db))
              (p.status == "paid") (λ _ differs. absurd (differs refl))
              λ _.
                if-rule {A = Action Db (Payload Decimal) (Unit {0})} (λ m. R (m db))
                  (p.status == "paying")
                  (λ paying changed.
                    Settles-IsSettled laws ctx registry param db id p
                      (path_id-next no_data param _ _ db id parsed) found
                      ((string_eq.decides p.status "paying").0 paying) (confirm e ctx registry p db)
                      (confirm-Settles ctx registry p db) changed)
                  λ _ differs. absurd (differs refl)
