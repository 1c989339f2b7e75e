-- ===== src/Payroll/Lifecycle/Calls.antt =====
-- The payroll routes as calls, and what any sequence of them does to a payroll: the reachability
-- theorems of the approval workflow.
use walletus.Base.{ℕ, String, sym, Result, List, [], ◌∷◌, ◌≡◌, refl, ◌≢◌}
use walletus.Base.Decimal.{Bytes}
use walletus.Chain.Gateway.{Registry}
use walletus.Model.{PortalPayroll}
use walletus.Payroll.{Env, IsEnv, PayrollRequest, PayRequest, Payload}
use walletus.Payroll.Edit.{portal_payroll_create, portal_payroll_update, portal_payroll_delete}
use walletus.Payroll.Approve.{portal_payroll_submit, portal_payroll_audit}
use walletus.Payroll.Pay.{
  portal_payroll_pay, portal_payroll_pay_config, portal_payroll_status_check,
}
use walletus.Payroll.Lifecycle.{
  Edge, stay, edit, submit, approve, reject, pay, settle, HasPayroll, Follows, Follows-refl,
}
use walletus.Payroll.Lifecycle.Edits.{
  portal_payroll_create-Follows, portal_payroll_update-Follows, portal_payroll_delete-Follows,
}
use walletus.Payroll.Lifecycle.Approvals.{
  portal_payroll_submit-Follows, portal_payroll_audit-Follows, portal_payroll_pay-Follows,
  portal_payroll_status_check-Follows,
}
use walletus.Payroll.Reads.{portal_payroll_pay_config-reads}
use walletus.Payroll.Staff.{
  StaffWalletRequest, portal_payroll_staff_wallet, portal_payroll_staff_delete,
}
use walletus.Payroll.Lifecycle.Staff.{
  portal_payroll_staff_wallet-Follows, portal_payroll_staff_delete-Follows,
}
use walletus.Web.{Action, Context}

-- A call of one of the routes `/payroll/…`, with what gin makes of its body or path.
pub data Call (D : Type 0) : Type 0 where
  create : Result String (PayrollRequest D) → Call D
  update : Result String (PayrollRequest D) → Call D
  delete : Result String (PayrollRequest D) → Call D
  submit_call : Result String (PayrollRequest D) → Call D
  audit : Result String (PayrollRequest D) → Call D
  pay_call : Result String PayRequest → Call D
  pay_config : Result String ℕ → Call D
  status_check : Registry → Bytes → Call D
  staff_wallet : Result String StaffWalletRequest → Bytes → Call D
  staff_delete : Bytes → Call D

-- The first of two statuses leads to the second in any number of steps.
pub data Reaches : String → String → Type 0 where
  done : (a : String) → Reaches a a
  step : (a b c : String) → Edge a b → Reaches b c → Reaches a c

-- A status that no call changes.
abbrev pub IsFinal : String → Type 0
IsFinal s = (s ≢ "create") × (s ≢ "waiting_approval") × (s ≢ "approved") × (s ≢ "paying")

module _ (e : Env) where
  open e use {Db, Decimal}

  unfoldable pub serve : Context → Call Decimal → Action Db (Payload Decimal) (Unit {0})
  serve ctx (create bound) = portal_payroll_create e ctx bound
  serve ctx (update bound) = portal_payroll_update e ctx bound
  serve ctx (delete bound) = portal_payroll_delete e ctx bound
  serve ctx (submit_call bound) = portal_payroll_submit e ctx bound
  serve ctx (audit bound) = portal_payroll_audit e ctx bound
  serve ctx (pay_call bound) = portal_payroll_pay e ctx bound
  serve ctx (pay_config bound) = portal_payroll_pay_config e ctx bound
  serve ctx (status_check registry param) = portal_payroll_status_check e ctx registry param
  serve ctx (staff_wallet bound param) = portal_payroll_staff_wallet e ctx bound param
  serve ctx (staff_delete param) = portal_payroll_staff_delete e ctx param

  -- The database after a sequence of calls, each with its own user and clock.
  unfoldable pub serve_all : List (Context × Call Decimal) → Db → Db
  unfolding serve
  serve_all [] db = db
  serve_all ((ctx, call) ∷ calls) db = serve_all calls (serve ctx call db).1

module _ (e : Env) (laws : IsEnv e) where
  open e use {Db, Decimal}

  pub serve-Follows :
      (ctx : Context) (call : Call Decimal) (db : Db) → Follows e db (serve e ctx call db).1
  unfolding serve
  serve-Follows ctx (create bound) db = portal_payroll_create-Follows e laws ctx bound db
  serve-Follows ctx (update bound) db = portal_payroll_update-Follows e laws ctx bound db
  serve-Follows ctx (delete bound) db = portal_payroll_delete-Follows e laws ctx bound db
  serve-Follows ctx (submit_call bound) db = portal_payroll_submit-Follows e laws ctx bound db
  serve-Follows ctx (audit bound) db = portal_payroll_audit-Follows e laws ctx bound db
  serve-Follows ctx (pay_call bound) db = portal_payroll_pay-Follows e laws ctx bound db
  serve-Follows ctx (pay_config bound) db =
      rw (portal_payroll_pay_config-reads e ctx bound db) (Follows-refl e db)
  serve-Follows ctx (status_check registry param) db =
      portal_payroll_status_check-Follows e laws ctx registry param db
  serve-Follows ctx (staff_wallet bound param) db =
      portal_payroll_staff_wallet-Follows e laws ctx bound param db
  serve-Follows ctx (staff_delete param) db =
      portal_payroll_staff_delete-Follows e laws ctx param db

  -- After any sequence of these calls a payroll that was there is still there, and its status has been
  -- reached from the one it had by the edges of the workflow alone.
  pub serve_all-Reaches :
      (calls : List (Context × Call Decimal)) (db : Db) (k : ℕ) (p : PortalPayroll Decimal)
      → HasPayroll e k p db
      → (p' : PortalPayroll Decimal) × HasPayroll e k p' (serve_all e calls db)
        × Reaches p.status p'.status
  unfolding serve_all
  serve_all-Reaches [] db k p h = (p, h, done p.status)
  serve_all-Reaches ((ctx, call) ∷ calls) db k p h =
      let (q, h', edge) = (serve-Follows ctx call db).at k p h in
      let (p', h'', more) = serve_all-Reaches calls (serve e ctx call db).1 k q h' in
      (p', h'', step p.status q.status p'.status edge more)

  Edge-final : (a b : String) → IsFinal a → Edge a b → a ≡ b
  Edge-final a b f (stay same) = same
  Edge-final a b f (edit from) = absurd (f.0 from)
  Edge-final a b f (submit from _) = absurd (f.0 from)
  Edge-final a b f (approve from _) = absurd (f.1 from)
  Edge-final a b f (reject from _) = absurd (f.1 from)
  Edge-final a b f (pay from _) = absurd (f.2 from)
  Edge-final a b f (settle from _) = absurd (f.3 from)

  Reaches-final : (a b : String) → IsFinal a → Reaches a b → a ≡ b
  Reaches-final a _ f (done _) = refl
  Reaches-final a c f (step _ b _ edge more) =
      let e₁ = Edge-final a b f edge in rw e₁ (Reaches-final b c (rw (← e₁) f) more)

  -- A payroll whose status is none of create, waiting_approval, approved and paying, such as one
  -- that is paid or rejected, has that status after any sequence of these calls.
  pub serve_all-IsFinal :
      (calls : List (Context × Call Decimal)) (db : Db) (k : ℕ) (p : PortalPayroll Decimal)
      → HasPayroll e k p db
      → IsFinal p.status
      → (p' : PortalPayroll Decimal) × HasPayroll e k p' (serve_all e calls db)
        × p'.status ≡ p.status
  serve_all-IsFinal calls db k p h f =
      let (p', h', reached) = serve_all-Reaches calls db k p h in
      (p', h', sym (Reaches-final p.status p'.status f reached))
