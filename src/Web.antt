-- ===== src/Web.antt =====
-- A gin handler: the request's context, the reply, and the steps between, as actions on the
-- database that stop at the first reply. (cmd/modapi/common/res.go and the guards that open every
-- handler of cmd/modapi/http; the time stamp of a reply is not modelled.)
pub mod Codes
pub mod Rules
pub mod Ended
use Prim.Native.String.{◌++◌}
use walletus.Base.{
  ℕ, zero, suc, ◌/◌, ◌%◌, ltb, if◌then◌else◌, ◌∷◌, get_or, String, Bool, true, false, List, [],
  Result, ok, err, none, some, ◌==◌, nat_eq,
}
use walletus.Base.Decimal.{Bytes, parse_uint}
use walletus.Model.{PortalUser}
use walletus.Gorm.{DbError, not_found, failed}

-- The answer of a handler, with its HTTP status; `P` is what stands under "data".
pub record Response (P : Type 0) : Type 0 where
  pub status : ℕ
  pub code : ℕ
  pub msg : String
  pub payload : P

-- How a step ends: it goes on with a value, it has answered, or it panics (gin.Recovery then
-- answers with status 500).
pub data Flow (P A : Type 0) : Type 0 where
  next : A → Flow P A
  reply : Response P → Flow P A
  panic : Flow P A

abbrev pub Action : Type 0 → Type 0 → Type 0 → Type 0
Action Db P A = Db → Flow P A × Db

module _ {Db P : Type 0} where
  -- The rest is run unless the step has answered.
  abbrev pub after : {A B : Type 0} → (A → Action Db P B) → Flow P A × Db → Flow P B × Db
  after f (next a, db) = f a db
  after f (reply res, db) = (reply res, db)
  after f (panic, db) = (panic, db)

  infixl 5 ◌>>=◌ ◌>>◌
  unfoldable pub ◌>>=◌ : {A B : Type 0} → Action Db P A → (A → Action Db P B) → Action Db P B
  ◌>>=◌ m f db = after f (m db)

  abbrev pub ◌>>◌ : {A B : Type 0} → Action Db P A → Action Db P B → Action Db P B
  m >> k = m >>= λ _. k

  unfoldable pub pure : {A : Type 0} → A → Action Db P A
  pure a db = (next a, db)

  -- `c.JSON(http.StatusOK, res); return`
  unfoldable pub answer : {A : Type 0} → ℕ → String → P → Action Db P A
  answer code msg payload db =
      (reply (record { status = 200; code = code; msg = msg; payload = payload }), db)

-- `err.Error()`
abbrev pub error_text : DbError → String
error_text not_found = "record not found"
error_text (failed text) = text

-- What `c.Get("main_user")` holds: nothing, a value of another type, a nil pointer, or the user
-- that the token interceptor has put there.
pub data MainUser : Type 0 where
  unset other null : MainUser
  user : PortalUser → MainUser

-- What a handler reads besides the database: the logged-in user, and the clock.
pub record Context : Type 0 where
  pub main_user : MainUser
  pub now : ℕ

-- `db.Where(…).First(&x)` with the error ignored: `x` keeps its zero value.
unfoldable pub first_or : {Db P A : Type 0} → A → (Db → Result DbError A) → Action Db P A
first_or missing query db = elim (query db) [ ok a ↦ (next a, db) | err _ ↦ (next missing, db) ]

-- A write whose error is ignored.
unfoldable pub write_or_ignore :
    {Db P A : Type 0} → (Db → Result DbError (A × Db)) → Action Db P (Unit {0})
write_or_ignore write db = elim (write db) [ ok (a, new) ↦ (next tt, new) | err _ ↦ (next tt, db) ]

-- The same for a row that the code goes on to use: without the write it stays as it was.
unfoldable pub write_or_keep :
    {Db P A : Type 0} → A → (Db → Result DbError (A × Db)) → Action Db P A
write_or_keep row write db = elim (write db) [
  | ok (a, new) ↦ (next a, new)
  | err _ ↦ (next row, db)
]

module _ {Db P : Type 0} (empty : P) where
  -- `if cond { res.Code = code; res.Msg = msg; c.JSON(http.StatusOK, res); return }`
  unfoldable pub answer_if : Bool → ℕ → String → Action Db P (Unit {0})
  answer_if true code msg = answer code msg empty
  answer_if false code msg = pure tt

  -- `c.ShouldBindJSON(&request)`, which gives an error or the request, and the reply 400.
  unfoldable pub bind_json : {R : Type 0} → Result String R → (String → String) → Action Db P R
  bind_json (ok request) msg db = (next request, db)
  bind_json (err e) msg db = (
    reply (record { status = 400; code = Codes.err_reqformat; msg = msg e; payload = empty }),
    db,
  )

  -- The user must be logged in.
  unfoldable pub require_login : Context → Action Db P PortalUser
  require_login ctx db = elim ctx.main_user [
    | user u ↦ (next u, db)
    | _ ↦ answer Codes.err_security "please login first" empty db
  ]

  -- The variant that also wants an ID other than 0.
  unfoldable pub require_login_id : Context → Action Db P PortalUser
  require_login_id ctx = do
    u ← require_login ctx
    answer_if (u.id == 0) Codes.err_security "please login first"
    pure u

  -- An error of a query is answered by the code and message that `on_error` gives it.
  unfoldable pub or_answer :
      {A : Type 0} → (Db → Result DbError A) → (DbError → ℕ × String) → Action Db P A
  or_answer query on_error db = elim (query db) [
    | ok a ↦ (next a, db)
    | err e ↦ answer (on_error e).0 (on_error e).1 empty db
  ]

  -- `strconv.ParseUint(c.Param(…), 10, 64)`, of which 0 is not taken either.
  unfoldable pub path_id : Bytes → ℕ → String → Action Db P ℕ
  path_id param code msg = elim (parse_uint 64 param) [
    | none ↦ answer code msg empty
    | some id ↦ answer_if (id == 0) code msg >> pure id
  ]

  -- The same for a write, which gives the new database.
  unfoldable pub write_or_answer :
      {A : Type 0} → (Db → Result DbError (A × Db)) → (DbError → ℕ × String) → Action Db P A
  write_or_answer write on_error db = elim (write db) [
    | ok (a, db') ↦ (next a, db')
    | err e ↦ answer (on_error e).0 (on_error e).1 empty db
  ]

  -- `db.Where(…).Find(&xs)` with the error ignored: the slice stays empty.
  unfoldable pub find_or_nil : {A : Type 0} → (Db → Result DbError (List A)) → Action Db P (List A)
  find_or_nil query db = elim (query db) [ ok xs ↦ (next xs, db) | err _ ↦ (next [], db) ]

-- To compute with a handler is to unfold the steps.
unfoldable pub steps : Unit {0}
unfolding ◌>>=◌ pure answer answer_if path_id bind_json require_login require_login_id or_answer
    write_or_answer find_or_nil first_or write_or_ignore
steps = tt

-- `%d` in a message.
abbrev digit_text : ℕ → String
digit_text n = get_or ("0" ∷ "1" ∷ "2" ∷ "3" ∷ "4" ∷ "5" ∷ "6" ∷ "7" ∷ "8" ∷ "9" ∷ []) n ""

show_from : ℕ → ℕ → String
show_from zero n = ""
show_from (suc f) n =
    let more = show_from f (n / 10) ++ digit_text (n % 10) in
    if ltb n 10 then digit_text n else more

unfoldable pub show : ℕ → String
unfolding show_from
show n = show_from (suc n) n
