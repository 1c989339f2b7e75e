-- ===== src/Access/Login.antt =====
-- `PortalLogin`
use walletus.Access.{AccessEnv, token_duration}
use walletus.Access.Tokens.{found_user}
use walletus.Base.{
  ℕ, ◌+◌, String, Bool, ◌&&◌, ◌||◌, Option, none, some, List, ◌∷◌, ◌++◌, Result, ok, err, ◌==◌,
  nat_eq, string_eq, length, ltb,
}
use walletus.Base.Decimal.{Bytes, format}
use walletus.Model.{PortalUser}
use walletus.Sealed.{encrypt}
use walletus.Web.{Action, ◌>>=◌, ◌>>◌, pure, answer, answer_if, bind_json, find_or_nil}
use walletus.Web.Codes.{success, err_exist_obj, err_status_general, err_security}
use Prim.Native.String.{◌++◌ as ◌++s◌}

pub record LoginRequest : Type 0 where
  pub login_id : String
  pub password : String

-- What stands under "data": the token, and some columns of the user.
pub record LoginData : Type 0 where
  pub token : Bytes
  pub id : ℕ
  pub login_id : String
  pub email : String
  pub name : String

-- The condition of the query.
unfoldable pub has_login : LoginRequest → PortalUser → Bool
has_login request u =
    (u.login_id == request.login_id || u.email == request.login_id)
    && u.password == request.password

-- `fmt.Sprintf("%d|%d|%d", portalUser.ID, UserLoginTypeMain, expireTs)`
unfoldable pub token_text : ℕ → ℕ → Bytes
token_text id expire_ts = format id ++ (b'|' ∷ (format 0 ++ (b'|' ∷ format expire_ts)))

abbrev pub or_gen_error : {Db A : Type 0} → Result String A → Action Db (Option LoginData) A
or_gen_error (ok a) = pure a
or_gen_error (err text) = answer err_security ("token gen error:" ++s text) none

module _ (e : AccessEnv) where
  open e use {Db, ciphers, users}

  -- The one user of the login.
  unfoldable pub the_user : List PortalUser → Action Db (Option LoginData) PortalUser
  the_user rows = do
    answer_if none (length rows == 0) err_exist_obj
        "portal user not existing or password not matching"
    answer_if none (ltb 1 (length rows)) err_status_general "portal user found more than one"
    pure (found_user rows)

  -- `random` is the nonce that `Encrypt` draws.
  unfoldable pub issue_token :
      ℕ → Result String Bytes → PortalUser → Action Db (Option LoginData) (Unit {0})
  unfolding token_text
  issue_token now random u = do
    token ← or_gen_error (encrypt ciphers random (token_text u.id (now + token_duration)))
    answer success "success" (
        some (record {
          token = token;
          id = u.id;
          login_id = u.login_id;
          email = u.email;
          name = u.name;
        }))

  unfoldable pub portal_login :
      ℕ → Result String Bytes → Result String LoginRequest → Action Db (Option LoginData) (Unit {0})
  unfolding has_login the_user issue_token
  portal_login now random bound = do
    request ← bind_json none bound (λ _. "invalid request")
    rows ← find_or_nil none (users.find (has_login request))
    u ← the_user rows
    issue_token now random u
