-- ===== src/Access/Tokens.antt =====
-- `TokenInterceptor`: the routes under /spwapi/admin want the token of a portal user, and for most
-- users a role with the permission of the route.
use walletus.Access.{Request, HeaderParam, Values, AccessEnv, age, is_expired}
use walletus.Base.{
  ℕ, String, Bool, not, ◌&&◌, ◌||◌, Option, none, some, List, [], ◌∷◌, Result, ok, err, ◌==◌,
  nat_eq, string_eq, if◌then◌else◌, select, any,
}
use walletus.Base.Decimal.{Bytes, codes, bytes_eq}
use walletus.Base.Numerals.{parse_int64}
use walletus.Base.Split.{split, has_prefix, trim_prefix}
use walletus.Gorm.{DbError, failed}
use walletus.Model.{PortalUser, PortalFunc}
use walletus.Sealed.{decrypt}
use walletus.Web.{Action, ◌>>=◌, ◌>>◌, pure, answer, answer_if, find_or_nil, user}
use walletus.Web.Codes.{err_security, err_permission}

abbrev pub no_auth_urls : List Bytes
no_auth_urls = codes "/spwapi/admin/portal/login" ∷ []

abbrev pub unconfig_urls : List Bytes
unconfig_urls =
    codes "/spwapi/admin/portal/rbac/user/menus" ∷ codes "/spwapi/admin/portal/rbac/func/list" ∷ []

-- Routes that have parameters behind them.
abbrev pub split_requesting_for_grants : List Bytes
split_requesting_for_grants =
    codes "/spwapi/admin/portal/rbac/role/permission/func/bind"
    ∷ codes "/spwapi/admin/portal/rbac/role/permission/user/bind"
    ∷ codes "/spwapi/admin/portal/rbac/role/permission/func/unbind"
    ∷ codes "/spwapi/admin/portal/rbac/role/permission/user/unbind"
    ∷ codes "/spwapi/admin/portal/payroll/staff/wallet"
    ∷ codes "/spwapi/admin/portal/payroll/detail"
    ∷ codes "/spwapi/admin/portal/user/delete"
    ∷ codes "/spwapi/admin/portal/tenant/detail"
    ∷ codes "/spwapi/admin/portal/payroll/staff/delete"
    ∷ codes "/spwapi/admin/portal/payroll/status/check"
    ∷ []

abbrev pub root_path : Bytes
root_path = codes "/spwapi"

-- The loop over these routes, which stops at the first prefix.
unfoldable pub granted_uri : Bytes → List Bytes → Bytes
granted_uri uri [] = uri
granted_uri uri (v ∷ vs) =
    let rest = granted_uri uri vs in if has_prefix uri v then trim_prefix v root_path else rest

abbrev pub or_else : Bytes → Bytes → Bytes
or_else [] other = other
or_else (c ∷ s) other = c ∷ s

abbrev pub cookie_value : Option Bytes → Bytes
cookie_value none = []
cookie_value (some value) = value

-- The token stands in XAUTH, in SIG or in the cookie.
unfoldable pub token_of : HeaderParam → Option Bytes → Bytes
token_of header cookie = or_else header.x_auth (or_else header.auth_token (cookie_value cookie))

abbrev pub found_user : List PortalUser → PortalUser
found_user [] = record {
  id = 0;
  login_id = "";
  name = "";
  email = "";
  password = "";
  add_time = 0;
  flag = 0;
  location = "";
  type = "";
}
found_user (u ∷ us) = u

abbrev pub found_func : List PortalFunc → PortalFunc
found_func [] = record {
  id = 0;
  name = "";
  flag = 0;
  res_uri = "";
  perm_code = "";
  type = "";
  group = "";
}
found_func (f ∷ fs) = f

-- `service.IsSuperAdmin` of cmd/modapi/service/portal.go
unfoldable pub is_super_admin : PortalUser → Bool
is_super_admin u = u.type == "super_admin"

-- The route is configured, and none of the functions granted has its permission.
unfoldable pub lacks_permission : Bytes → List PortalFunc → PortalFunc → Bool
lacks_permission uri granted requesting =
    not (requesting.id == 0)
    && not (
        any (λ u. u == uri) unconfig_urls || any (λ f. requesting.perm_code == f.perm_code) granted)

-- The rows of a query, or its error.
abbrev pub unless_failed : {Row : Type 0} → Option String → List Row → Result DbError (List Row)
unless_failed none rows = ok rows
unless_failed (some text) rows = err (failed text)

-- A text or a reply.
abbrev pub or_refuse : {Db A E : Type 0} → String → Result E A → Action Db (Unit {0}) A
or_refuse msg (ok a) = pure a
or_refuse msg (err x) = answer err_security msg tt

abbrev pub some_or_refuse : {Db A : Type 0} → String → Option A → Action Db (Unit {0}) A
some_or_refuse msg (some a) = pure a
some_or_refuse msg none = answer err_security msg tt

-- `len(tokenArr) != 3`
unfoldable pub three_parts :
    {Db : Type 0} → List Bytes → Action Db (Unit {0}) (Bytes × Bytes × Bytes)
three_parts (id ∷ provider ∷ expire ∷ []) = pure (id, provider, expire)
three_parts _ = answer err_security "token length error" tt

module _ (e : AccessEnv) where
  open e use {Db, ciphers, users_by, funcs, role_funcs, user_roles, join_error}

  -- The joins over the roles of a user.
  abbrev pub granted_rows : ℕ → Db → List PortalFunc
  granted_rows user_id db =
      select
        (λ f.
          any
            (λ rf.
              f.id == rf.func_id
              && any (λ ur. rf.role_id == ur.role_id && ur.user_id == user_id) (user_roles.rows db))
            (role_funcs.rows db))
        (funcs.rows db)

  unfoldable pub granted_funcs : ℕ → Db → Result DbError (List PortalFunc)
  granted_funcs user_id db = unless_failed (join_error db) (granted_rows user_id db)

  -- The row of the user whom the token names.
  unfoldable pub main_user_of : Bytes × Bytes → Action Db (Unit {0}) (PortalUser × Bytes)
  main_user_of (id, provider) = do
    rows ← find_or_nil tt (users_by id)
    answer_if tt ((found_user rows).id == 0 || not ((found_user rows).flag == 0)) err_security
        "user not existing"
    pure (found_user rows, provider)

  -- From the text of the token to the user.
  unfoldable pub authenticate : ℕ → Bytes → Action Db (Unit {0}) (PortalUser × Bytes)
  unfolding three_parts main_user_of
  authenticate now token_str = do
    token ← or_refuse "token check failed" (decrypt ciphers token_str)
    (id, provider, expire) ← three_parts (split b'|' token)
    expire_ts ← some_or_refuse "token format error" (parse_int64 expire)
    answer_if tt (is_expired (age now expire_ts)) err_security "token expired error"
    main_user_of (id, provider)

  -- The check of the permission, which a super admin passes. An error of the first query is kept
  -- in a variable that nothing reads.
  unfoldable pub authorise : PortalUser → Bytes → Action Db (Unit {0}) (Unit {0})
  unfolding is_super_admin granted_funcs granted_uri lacks_permission
  authorise u uri db =
      if is_super_admin u
      then pure tt db
      else (do
        granted ← find_or_nil tt (granted_funcs u.id)
        rows ← find_or_nil tt (
            funcs.find (λ f.
              codes f.res_uri
              == trim_prefix (granted_uri uri split_requesting_for_grants) root_path))
        answer_if tt (lacks_permission uri granted (found_func rows)) err_permission
            "insufficient permissions")
          db

  unfoldable pub with_headers :
      ℕ → Request → Values → Option HeaderParam → Action Db (Unit {0}) Values
  unfolding token_of authenticate authorise
  with_headers now req vals none = answer err_security "token check failed" tt
  with_headers now req vals (some header) = do
    (u, provider) ← authenticate now (token_of header req.cookie)
    authorise u req.uri
    pure (record vals { provider_type = some provider; main_user = user u })

  unfoldable pub token_interceptor : ℕ → Request → Values → Action Db (Unit {0}) Values
  unfolding with_headers
  token_interceptor now req vals db =
      if any (λ u. u == req.uri) no_auth_urls
      then pure vals db
      else with_headers now req vals vals.headers db
