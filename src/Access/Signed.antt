-- ===== src/Access/Signed.antt =====
-- `HttpInterceptor`: every request under /spwapi must be signed with the key of an application.
use walletus.Base.{
  ℕ, String, Bool, true, false, not, ◌||◌, Option, none, some, List, [], ◌∷◌, ◌++◌, Result, ok, err,
  ◌==◌, nat_eq, string_eq, if◌then◌else◌, length,
}
use walletus.Access.{Request, Values, AccessEnv, join, age, is_expired}
use walletus.Base.Decimal.{Bytes, bytes_eq}
use walletus.Base.Numerals.{hex_encode, parse_int64}
use walletus.Base.Split.{split}
use walletus.Model.{SysChannel, Tenant}
use walletus.Sealed.{decrypt}
use walletus.Web.{Action, ◌>>=◌, ◌>>◌, pure, answer_if, or_answer, first_or}
use walletus.Web.Codes.{success, err_appid_invalid, err_sigmethod_unsupp, err_authtoken_fail}

-- The row that `Find` has put into a variable, which else keeps its zero value.
abbrev pub found_channel : List SysChannel → SysChannel
found_channel [] = record {
  id = 0;
  app_id = [];
  app_key = [];
  status = "";
  chan = "";
  sig_method = "";
  create_time = 0;
  update_time = 0;
}
found_channel (c ∷ cs) = c

abbrev pub no_tenant : Tenant
no_tenant = record {
  id = 0;
  unique_id = "";
  name = "";
  desc = "";
  enc_master_xprv = [];
  enc_master_seed = [];
  kdf_params = "";
  add_time = 0;
  version = "";
  callback = "";
  flag = 0;
  api_id = 0;
}

-- A token of a wallet user has four parts; any other text sets nothing.
unfoldable pub four_parts : ℕ → List Bytes → Values → Values
four_parts now (user ∷ wallet ∷ other ∷ expire ∷ []) vals = elim (parse_int64 expire) [
  | none ↦ vals
  | some ts ↦
      if is_expired (age now ts)
      then vals
      else record vals { user_wallet = some wallet; user_id = some user }
]
four_parts now _ vals = vals

unfoldable pub user_token : ℕ → Result String Bytes → Values → Values
unfolding four_parts split
user_token now (err _) vals = vals
user_token now (ok token) vals = four_parts now (split b'|' token) vals

module _ (e : AccessEnv) where
  open e use {Db, sha256, channels, tenants, ciphers}

  -- `SysChannel.Verify`
  unfoldable pub verify : SysChannel → Bytes → Bytes → Bool × ℕ
  verify t text sig =
      if not (t.sig_method == "SHA256")
      then (false, err_sigmethod_unsupp)
      else if length text == 0 || length sig == 0
      then (false, err_authtoken_fail)
      else if not (hex_encode (sha256 (text ++ t.app_key)) == sig)
      then (false, err_authtoken_fail)
      else (true, success)

  -- The tenant of a channel of this kind; its ID is 0 if there is none.
  unfoldable pub channel_tenant : SysChannel → Action Db (Unit {0}) (Option ℕ)
  channel_tenant channel db =
      if channel.chan == "tenant"
      then (do
        tenant ← first_or no_tenant (tenants.first (λ t. t.api_id == channel.id))
        pure (some tenant.id))
          db
      else pure none db

  unfoldable pub http_interceptor : ℕ → Request → Values → Action Db (Unit {0}) Values
  unfolding verify channel_tenant user_token join
  http_interceptor now req vals = do
    rows ←
        or_answer tt (channels.find (λ c. c.app_id == req.header.app_id))
          (λ _. (err_appid_invalid, "appid invalid"))
    let verdict = verify (found_channel rows) (join req.header) req.header.auth_token
    answer_if tt (not verdict.0) verdict.1 "sig or key params wrong or empty"
    tenant_id ← channel_tenant (found_channel rows)
    pure (
        user_token now (decrypt ciphers req.header.x_auth) (record vals {
          app_id = some req.header.app_id;
          request_id = some req.header.request_id;
          ts = some req.header.ts;
          headers = some req.header;
          tenant_id = tenant_id;
        }))
