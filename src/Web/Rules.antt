-- ===== src/Web/Rules.antt =====
-- Rules for what holds of the answer and the database when a handler ends, one for each step that a
-- handler is built from: `R` holds at the end if it holds of any answer that is given now, and at
-- the end of the rest whenever the step goes on.
use walletus.Base.{
  some, arith, ℕ, String, Bool, true, false, List, Result, ok, err, ◌⊎◌, inl, inr, ◌≡◌, refl, [],
  nat_eq,
}
use walletus.Base.Decimal.{Bytes, parse_uint}
use walletus.Gorm.{DbError}
use walletus.Model.{PortalUser}
use walletus.Web.{
  steps, Action, Flow, next, reply, panic, after, Context, MainUser, unset, other, null, user,
  ◌>>=◌, answer_if, bind_json, require_login, or_answer, write_or_answer, find_or_nil, path_id,
  require_login_id, pure,
}

module _ {Db P B : Type 0} (empty : P) (R : Flow P B × Db → Type 0) (db : Db) where
  pub answer_if-rule :
      (b : Bool) (code : ℕ) (msg : String) (k : Unit {0} → Action Db P B)
      → ((x : Flow P B) → R (x, db))
      → (b ≡ false → R (k tt db))
      → R ((answer_if empty b code msg >>= k) db)
  unfolding steps
  answer_if-rule true code msg k now rest = now _
  answer_if-rule false code msg k now rest = rest refl

  pub bind_json-rule :
      {A : Type 0} (bound : Result String A) (msg : String → String) (k : A → Action Db P B)
      → ((x : Flow P B) → R (x, db))
      → ((a : A) → bound ≡ ok a → R (k a db))
      → R ((bind_json empty bound msg >>= k) db)
  unfolding steps
  bind_json-rule (ok a) msg k now rest = rest a refl
  bind_json-rule (err e) msg k now rest = now _

  login_by :
      (m : MainUser) (n : ℕ) (k : PortalUser → Action Db P B)
      → ((x : Flow P B) → R (x, db))
      → ((u : PortalUser) → m ≡ user u → R (k u db))
      → R ((require_login empty (record { main_user = m; now = n }) >>= k) db)
  unfolding steps
  login_by unset n k now rest = now _
  login_by other n k now rest = now _
  login_by null n k now rest = now _
  login_by (user u) n k now rest = rest u refl

  pub require_login-rule :
      (ctx : Context) (k : PortalUser → Action Db P B)
      → ((x : Flow P B) → R (x, db))
      → ((u : PortalUser) → ctx.main_user ≡ user u → R (k u db))
      → R ((require_login empty ctx >>= k) db)
  unfolding steps
  require_login-rule ctx k = login_by ctx.main_user ctx.now k

  read_by :
      {A : Type 0} (r : Result DbError A) (on_error : DbError → ℕ × String) (k : A → Action Db P B)
      → ((x : Flow P B) → R (x, db))
      → ((a : A) → r ≡ ok a → R (k a db))
      → R ((or_answer empty (λ _. r) on_error >>= k) db)
  unfolding steps
  read_by (ok a) on_error k now rest = rest a refl
  read_by (err e) on_error k now rest = now _

  pub or_answer-rule :
      {A : Type 0} (query : Db → Result DbError A) (on_error : DbError → ℕ × String)
      (k : A → Action Db P B)
      → ((x : Flow P B) → R (x, db))
      → ((a : A) → query db ≡ ok a → R (k a db))
      → R ((or_answer empty query on_error >>= k) db)
  unfolding steps
  or_answer-rule query = read_by (query db)

  write_by :
      {A : Type 0} (r : Result DbError (A × Db)) (on_error : DbError → ℕ × String)
      (k : A → Action Db P B)
      → ((x : Flow P B) → R (x, db))
      → ((a : A) (db' : Db) → r ≡ ok (a, db') → R (k a db'))
      → R ((write_or_answer empty (λ _. r) on_error >>= k) db)
  unfolding steps
  write_by (ok (a, db')) on_error k now rest = rest a db' refl
  write_by (err e) on_error k now rest = now _

  pub write_or_answer-rule :
      {A : Type 0} (write : Db → Result DbError (A × Db)) (on_error : DbError → ℕ × String)
      (k : A → Action Db P B)
      → ((x : Flow P B) → R (x, db))
      → ((a : A) (db' : Db) → write db ≡ ok (a, db') → R (k a db'))
      → R ((write_or_answer empty write on_error >>= k) db)
  unfolding steps
  write_or_answer-rule write = write_by (write db)

  find_by :
      {A : Type 0} (r : Result DbError (List A)) (k : List A → Action Db P B)
      → ((xs : List A) → (r ≡ ok xs) ⊎ (xs ≡ []) → R (k xs db))
      → R ((find_or_nil empty (λ _. r) >>= k) db)
  unfolding steps
  find_by (ok xs) k rest = rest xs (inl refl)
  find_by (err e) k rest = rest [] (inr refl)

  pub find_or_nil-rule :
      {A : Type 0} (query : Db → Result DbError (List A)) (k : List A → Action Db P B)
      → ((xs : List A) → (query db ≡ ok xs) ⊎ (xs ≡ []) → R (k xs db))
      → R ((find_or_nil empty query >>= k) db)
  unfolding steps
  find_or_nil-rule query = find_by (query db)

  after-rule :
      {A : Type 0} (x : Flow P A × Db) (k : A → Action Db P B)
      → x.1 ≡ db
      → ((x : Flow P B) → R (x, db))
      → ((a : A) → x.0 ≡ next a → R (k a db))
      → R (after k x)
  after-rule (next a, db') k same now rest = rw same (rest a refl)
  after-rule (reply res, db') k same now rest = rw same (now _)
  after-rule (panic, db') k same now rest = rw same (now _)

  -- A step that only reads: it goes on in the same database.
  pub reader-rule :
      {A : Type 0} (m : Action Db P A) (k : A → Action Db P B)
      → (m db).1 ≡ db
      → ((x : Flow P B) → R (x, db))
      → ((a : A) → (m db).0 ≡ next a → R (k a db))
      → R ((m >>= k) db)
  unfolding steps
  reader-rule m = after-rule (m db)

-- What `path_id` has read, and that it changes nothing.
module _ {Db P : Type 0} (empty : P) where
  pub path_id-reads :
      (param : Bytes) (code : ℕ) (msg : String) (db : Db) → (path_id empty param code msg db).1 ≡ db
  unfolding steps
  path_id-reads param code msg db = ground arith

  pub path_id-next :
      (param : Bytes) (code : ℕ) (msg : String) (db : Db) (id : ℕ)
      → (path_id empty param code msg db).0 ≡ next id
      → parse_uint 64 param ≡ some id
  unfolding steps
  path_id-next param code msg db id h = ground arith

  -- A user without ID has not logged in.
  pub require_login_id-reads : (ctx : Context) (db : Db) → (require_login_id empty ctx db).1 ≡ db
  unfolding require_login_id pure
  require_login_id-reads ctx db =
      require_login-rule empty (λ x. x.1 ≡ db) db ctx _ (λ _. refl)
        λ u _. answer_if-rule empty (λ x. x.1 ≡ db) db _ _ _ _ (λ _. refl) λ _. refl
