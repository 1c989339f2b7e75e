-- ===== src/Access.antt =====
-- Who may call a route: the interceptors of cmd/modapi/interceptor with `SysChannel.Verify` of
-- common/model/sys.go, and `PortalLogin`, which makes the tokens. The headers are those of
-- cmd/modapi/common/gen.go.
pub mod Signed
pub mod Tokens
pub mod Login
pub mod Issued
pub mod Verified
pub mod Permitted
pub mod Authorised
pub mod Admitted
pub mod Granted
use walletus.Base.{
  ℕ, ◌+◌, ◌-◌, ◌%◌, ◌^◌, String, Bool, false, Option, none, some, List, [], ◌∷◌, ◌++◌, Result, ok,
  err, ◌==◌, ltb, leb, if◌then◌else◌,
}
use walletus.Base.Decimal.{Bytes}
use walletus.Base.Int.{ℤ, pos, negsuc, int64}
use walletus.Gorm.{Table, DbError}
use walletus.Model.{SysChannel, Tenant, PortalUser, PortalFunc, PortalRoleFunc, PortalUserRole}
use walletus.Sealed.{CipherLib}
use walletus.Web.{MainUser, unset}

pub record HeaderParam : Type 0 where
  pub app_id : Bytes
  pub auth_token : Bytes
  pub ts : Bytes
  pub ver : Bytes
  pub request_id : Bytes
  pub x_auth : Bytes

unfoldable pub join : HeaderParam → Bytes
join h = h.app_id ++ (h.request_id ++ (h.ts ++ h.ver))

-- A request: its `RequestURI`, the headers that `parse` reads, and the cookie AUTH_TOKEN.
pub record Request : Type 0 where
  pub uri : Bytes
  pub header : HeaderParam
  pub cookie : Option Bytes

-- What `c.Set` has put into the request's context.
pub record Values : Type 0 where
  pub app_id : Option Bytes
  pub request_id : Option Bytes
  pub ts : Option Bytes
  pub headers : Option HeaderParam
  pub tenant_id : Option ℕ
  pub user_wallet : Option Bytes
  pub user_id : Option Bytes
  pub provider_type : Option Bytes
  pub main_user : MainUser

abbrev pub no_values : Values
no_values = record {
  app_id = none;
  request_id = none;
  ts = none;
  headers = none;
  tenant_id = none;
  user_wallet = none;
  user_id = none;
  provider_type = none;
  main_user = unset;
}

-- The tables; `users_by` is `Where("id = ?", text).Find`, of which MySQL makes a number, and
-- `join_error` the error of a query that joins tables.
pub record AccessEnv : Type 1 where
  pub Db : Type 0
  pub ciphers : CipherLib
  pub sha256 : Bytes → Bytes
  pub channels : Table Db SysChannel
  pub tenants : Table Db Tenant
  pub users : Table Db PortalUser
  pub funcs : Table Db PortalFunc
  pub role_funcs : Table Db PortalRoleFunc
  pub user_roles : Table Db PortalUserRole
  pub users_by : Bytes → Db → Result DbError (List PortalUser)
  pub join_error : Db → Option String

-- `common.TOKEN_DURATION` in seconds.
abbrev pub token_duration : ℕ
token_duration = 864000

-- `time.Now().Unix()-expireTs` on int64.
abbrev pub age : ℕ → ℤ → ℤ
age now (pos n) = if leb n now then pos (now - n) else negsuc (n - now - 1)
age now (negsuc n) = int64 ((now + n + 1) % 2 ^ 64)

abbrev pub is_expired : ℤ → Bool
is_expired (pos d) = ltb token_duration d
is_expired (negsuc d) = false
