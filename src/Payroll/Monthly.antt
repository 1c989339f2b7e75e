-- ===== src/Payroll/Monthly.antt =====
-- `PortalPayrollCreate` keeps at most one open payroll in a month.
use walletus.Base.{
  ℕ, String, Bool, true, List, [], ◌∷◌, ◌++◌, none, Result, ok, err, ◌≡◌, ◌≢◌, refl, arith, find?,
  select, >>=-eq-ok, string_eq, eq_iff,
}
use walletus.Gorm.{DbError, not_found, failed, IsInserted}
use walletus.Model.{PortalUser, PortalPayroll, payroll_key}
use walletus.Payroll.{Env, IsEnv, PayrollRequest, Answer, no_data, transaction_ok}
use walletus.Payroll.Month.{is_valid_year_month}
use walletus.Payroll.Edit.{portal_payroll_create, new_payroll}
use walletus.Payroll.Inserts.{insert_payslips-rows}
use walletus.Payroll.Transactions.{
  create_tx, create_unless, insert_payroll, is_open_in, or_text, or_text_ok, created_payslip,
}
use walletus.Web.{Context, answer, user}
use walletus.Web.Rules.{answer_if-rule, bind_json-rule, require_login-rule, write_or_answer-rule}

module _ {A : Type 0} (p : A → Bool) where
  select-none : (xs : List A) → find? p xs ≡ none → select p xs ≡ []
  select-none [] h = refl
  select-none (x ∷ xs) h = ground (arith, select-none xs)

  select-append_one :
      (xs : List A) (y : A) → p y ≡ true → select p (xs ++ y ∷ []) ≡ select p xs ++ y ∷ []
  select-append_one [] y h = rw h refl
  select-append_one (x ∷ xs) y h = ground (arith, select-append_one xs y)

-- A new open row is the only open one of its month if there was none.
inserted_open :
    {D : Type 0} (month : String) (new r : PortalPayroll D) (xs ys : List (PortalPayroll D))
    → IsInserted payroll_key new r xs ys
    → is_open_in month new ≡ true
    → find? (is_open_in month) xs ≡ none
    → select (is_open_in month) ys ≡ r ∷ []
inserted_open month new r xs ys i o h =
    let opened : is_open_in month r ≡ true = rw i.same o in
    rw
      (
        i.appended,
        select-append_one (is_open_in month) xs r opened,
        select-none (is_open_in month) xs h,
      )
      refl

open_new :
    (e : Env) (now : ℕ) (request : PayrollRequest e.Decimal) (u : PortalUser)
    → is_open_in request.roll_month (new_payroll e now request u) ≡ true
open_new e now request u = ground (arith, eq_iff request.roll_month request.roll_month)

module _ (e : Env) (laws : IsEnv e) where
  open e use {Db, Decimal, payrolls, payslips}

  -- The open payrolls of a month.
  pub open_payrolls : String → Db → List (PortalPayroll Decimal)
  open_payrolls month db = select (is_open_in month) (payrolls.rows db)

  create_unless-open :
      (request : PayrollRequest Decimal) (new p : PortalPayroll Decimal) (now : ℕ) (db db' : Db)
      (r : Result DbError (PortalPayroll Decimal))
      → payrolls.first (is_open_in request.roll_month) db ≡ r
      → is_open_in request.roll_month new ≡ true
      → create_unless e request new now db r ≡ ok (p, db')
      → (open_payrolls request.roll_month db ≡ [])
        × ((r' : PortalPayroll Decimal) × (r' ≡ record new { id = r'.id })
            × open_payrolls request.roll_month db' ≡ r' ∷ [])
  unfolding create_unless insert_payroll open_payrolls
  create_unless-open request new p now db db' (ok x) q o h = cc
  create_unless-open request new p now db db' (err (failed t)) q o h = cc
  create_unless-open request new p now db db' (err not_found) q o h =
      let ((r', db₁), made, rest) = >>=-eq-ok (or_text (payrolls.create new db)) _ h in
      let inserted = laws.payrolls_table.create_rows new db (or_text_ok _ made) in
      let kept =
        insert_payslips-rows e laws (created_payslip e r'.id now) request.items r' p db₁ db' rest in
      let no_open = laws.payrolls_table.first_none _ db q in
      (
        select-none (is_open_in request.roll_month) (payrolls.rows db) no_open,
        (
          r',
          inserted.same,
          rw kept (inserted_open request.roll_month new r' _ _ inserted o no_open),
        ),
      )

  -- What a change of the database by `PortalPayrollCreate` is: the caller is logged in, the month
  -- is a month and had no open payroll, and now has exactly one, in status "create".
  pub record IsCreated (ctx : Context) (bound : Result String (PayrollRequest Decimal))
      (db db' : Db) : Type 0 where
    pub request : PayrollRequest Decimal
    pub read : bound ≡ ok request
    pub creator : PortalUser
    pub logged_in : ctx.main_user ≡ user creator
    pub is_month : is_valid_year_month request.roll_month ≡ true
    pub none_open : open_payrolls request.roll_month db ≡ []
    pub created : PortalPayroll Decimal
    pub is_new : created ≡ record (new_payroll e ctx.now request creator) { id = created.id }
    pub one_open : open_payrolls request.roll_month db' ≡ created ∷ []

  -- A create that changes the database was made by a logged-in user for a valid month that had no
  -- open payroll; afterwards the month has exactly one, which is the request's in status "create".
  pub portal_payroll_create-IsCreated :
      (ctx : Context) (bound : Result String (PayrollRequest Decimal)) (db : Db)
      → (portal_payroll_create e ctx bound db).1 ≢ db
      → IsCreated ctx bound db (portal_payroll_create e ctx bound db).1
  unfolding portal_payroll_create create_tx answer
  portal_payroll_create-IsCreated ctx bound db =
      let R = λ (x : Answer e × Db). x.1 ≢ db → IsCreated ctx bound db x.1 in
      let now : (x : Answer e) → R (x, db) = λ x differs. absurd (differs refl) in
      bind_json-rule no_data R db bound _ _ now λ request read.
        require_login-rule no_data R db ctx _ now λ u logged_in.
          answer_if-rule no_data R db _ _ _ _ now λ valid.
            write_or_answer-rule no_data R db _ _ _ now λ p db' made changed.
              let (before, (created, is_new, after)) =
                create_unless-open request (new_payroll e ctx.now request u) p ctx.now db db' _ refl
                  (open_new e ctx.now request u) (transaction_ok e _ db made) in
              record {
                request = request;
                read = read;
                creator = u;
                logged_in = logged_in;
                is_month = ground (arith, valid);
                none_open = before;
                created = created;
                is_new = is_new;
                one_open = after;
              }
