-- ===== src/People/Ended.antt =====
-- How the transactions of the handlers of users end.
use walletus.Base.{String, Option, none, some, ◌≡◌, ◌≢◌, refl, ap, sym}
use walletus.People.{PeopleEnv}
use walletus.People.Handlers.{end_tx, commit}
use walletus.Web.{Flow, next, reply, panic, after, answer}
use walletus.Web.Codes.{success}

module _ (e : PeopleEnv) where
  open e use {Db}

  -- A transaction changes the database only if its steps go on to the end.
  commit-changed :
      {A : Type 0} (a : A) (db new : Db) (o : Option String)
      → (commit e a db new o).1 ≢ db
      → (commit e a db new o).1 ≡ new
  unfolding commit
  commit-changed a db new none differs = refl
  commit-changed a db new (some text) differs = absurd (differs refl)

  pub end_tx-changed :
      {A : Type 0} (db : Db) (x : Flow (Unit {0}) A × Db)
      → (end_tx e db x).1 ≢ db
      → (a : A) × (x ≡ (next a, (end_tx e db x).1))
  unfolding end_tx
  end_tx-changed {A} db (next a, new) differs = (
    a,
    ap {B = Flow (Unit {0}) A × Db} (λ d. (next a, d))
        (sym (commit-changed a db new (e.commit_error new) differs)),
  )
  end_tx-changed db (reply res, new) differs = absurd (differs refl)
  end_tx-changed db (panic, new) differs = absurd (differs refl)

  pub after_tx :
      {A : Type 0} (x : Flow (Unit {0}) A × Db)
      → (after (λ _. answer {Db = Db} {P = Unit {0}} {A = Unit {0}} success "success" tt) x).1 ≡ x.1
  unfolding answer
  after_tx (next a, db) = refl
  after_tx (reply res, db) = refl
  after_tx (panic, db) = refl
