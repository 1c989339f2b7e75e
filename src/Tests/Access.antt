-- ===== src/Tests/Access.antt =====
-- The login and the interceptors on tables in memory, with a cipher that only puts the nonce before
-- the text.
use walletus.Access.{Request, Values, AccessEnv, join, token_duration, no_values}
use walletus.Access.Admitted.{admin_chain, admin_chain-IsAuthorised}
use walletus.Access.Authorised.{IsAuthorised}
use walletus.Access.Issued.{authenticate-portal_login}
use walletus.Access.Login.{
  LoginRequest, LoginData, has_login, token_text, the_user, issue_token, portal_login,
}
use walletus.Access.Signed.{user_token, four_parts, verify, channel_tenant, http_interceptor}
use walletus.Access.Tokens.{
  no_auth_urls, granted_uri, token_of, is_super_admin, lacks_permission, three_parts, granted_funcs,
  main_user_of, authenticate, authorise, with_headers, token_interceptor,
}
use walletus.Access.Permitted.{Allows, IsPermitted}
use walletus.Access.Verified.{IsSigned}
use walletus.Base.{
  ℕ, zero, suc, ◌*◌, ◌+◌, String, true, select, Option, none, some, List, [], ◌∷◌, Result, ok, ◌≡◌,
  refl, ◌==◌, arith, length, ◌⊎◌, any, inl, inr, if◌then◌else◌, leb,
}
use walletus.Base.Decimal.{Bytes, codes, format, bytes_eq, parse_uint}
use walletus.Base.Numerals.{hex_encode, parse_int64}
use walletus.Base.Split.{split, has_prefix, trim_prefix}
use walletus.Gorm.{has_key, IsTable, DbError}
use walletus.Gorm.Memory.{mem_table, mem_table-IsTable}
use walletus.Model.{
  SysChannel, Tenant, PortalUser, PortalFunc, PortalRole, PortalRoleFunc, PortalUserRole, user_key,
  func_key, role_func_key, user_role_key, channel_key, tenant_key,
}
use walletus.Sealed.{CipherLib, IsCipherLib, encrypt, decrypt, open_nonced}
use walletus.Sealed.Master.{
  EncMaster, encrypt_master, decrypt_master_xprv, decrypt_master_seed, tenant_secret_password,
}
use walletus.Sealed.Opened.{decrypt_master-encrypt_master}
use walletus.Web.{Flow, next, reply, panic, steps, answer}
use walletus.Web.Codes.{err_security}

abbrev filled : ℕ → Bytes
filled zero = []
filled (suc n) = 0 ∷ filled n

length-filled : (n : ℕ) → length (filled n) ≡ n
length-filled zero = refl
length-filled (suc n) = omega (arith, length-filled n)

abbrev pub toy : CipherLib
toy = record {
  base64_encode = λ s. s;
  base64_decode = λ s. ok s;
  cipher_error = λ key. none;
  nonce_size = 2;
  gcm_seal = λ key nonce s. s;
  gcm_open = λ key nonce s. ok s;
  argon2_key = λ password salt t m p n. filled n;
}

toy-IsCipherLib : IsCipherLib toy
toy-IsCipherLib = record {
  decode_encode = λ s. refl;
  open_seal = λ key nonce s. refl;
  aes_128 = λ key size. refl;
  aes_256 = λ key size. refl;
  length_argon2 = λ password salt t m p n. length-filled n;
}

decrypt_master-encrypt_master_example :
    (enc : EncMaster) × (encrypt_master toy
        (1 ∷ 255 ∷ [])
        (3 ∷ 4 ∷ [])
        (5 ∷ 6 ∷ [])
        (codes "xprv")
        (7 ∷ 8 ∷ [])
        tenant_secret_password
      ≡ ok enc)
    × (decrypt_master_xprv toy enc tenant_secret_password ≡ ok (codes "xprv"))
    × (decrypt_master_seed toy enc tenant_secret_password ≡ ok (7 ∷ 8 ∷ []))
decrypt_master-encrypt_master_example =
    decrypt_master-encrypt_master toy toy-IsCipherLib (1 ∷ 255 ∷ []) (3 ∷ 4 ∷ []) (5 ∷ 6 ∷ [])
      (codes "xprv") (7 ∷ 8 ∷ []) tenant_secret_password (omega arith) refl refl

pub record AccessDb : Type 0 where
  pub channels : List SysChannel
  pub tenants : List Tenant
  pub users : List PortalUser
  pub funcs : List PortalFunc
  pub roles : List PortalRole
  pub role_funcs : List PortalRoleFunc
  pub user_roles : List PortalUserRole

pub users_in : Option ℕ → AccessDb → Result DbError (List PortalUser)
users_in none db = ok []
users_in (some id) db = ok (select (has_key user_key id) db.users)

abbrev pub env : AccessEnv
env = record {
  Db = AccessDb;
  ciphers = toy;
  sha256 = λ s. 9 ∷ [];
  channels = mem_table channel_key (λ d. d.channels) (λ xs d. record d { channels = xs });
  tenants = mem_table tenant_key (λ d. d.tenants) (λ xs d. record d { tenants = xs });
  users = mem_table user_key (λ d. d.users) (λ xs d. record d { users = xs });
  funcs = mem_table func_key (λ d. d.funcs) (λ xs d. record d { funcs = xs });
  role_funcs = mem_table role_func_key (λ d. d.role_funcs) (λ xs d. record d { role_funcs = xs });
  user_roles = mem_table user_role_key (λ d. d.user_roles) (λ xs d. record d { user_roles = xs });
  users_by = λ text db. users_in (parse_uint 64 text) db;
  join_error = λ db. none;
}

channels-IsTable : IsTable channel_key env.channels
channels-IsTable =
    mem_table-IsTable channel_key (λ (d : AccessDb). d.channels)
      (λ xs d. record d { channels = xs }) (λ n r. refl) (λ xs db. refl)

abbrev pub bob : PortalUser
bob = record {
  id = 2;
  login_id = "bob";
  name = "Bob";
  email = "b@x";
  password = "pw";
  add_time = 0;
  flag = 0;
  location = "";
  type = "common";
}

-- Bob has the role 3, which may see the dashboard.
abbrev pub staffed : AccessDb
staffed = record {
  channels =
      record {
        id = 4;
        app_id = codes "app";
        app_key = codes "key";
        status = "00";
        chan = "portal";
        sig_method = "SHA256";
        create_time = 0;
        update_time = 0;
      }
      ∷ [];
  tenants = [];
  users = bob ∷ [];
  funcs =
      record {
        id = 5;
        name = "";
        flag = 0;
        res_uri = "/admin/portal/dashboard";
        perm_code = "dashboard";
        type = "menu";
        group = "";
      }
      ∷ [];
  roles = record { id = 3; name = "viewer"; desc = ""; add_time = 0; flag = 0 } ∷ [];
  role_funcs = record { id = 1; role_id = 3; func_id = 5 } ∷ [];
  user_roles = record { id = 1; role_id = 3; user_id = 2 } ∷ [];
}

unfoldable logging_in : Unit {0}
unfolding mem_table steps portal_login has_login the_user issue_token encrypt token_text format
logging_in = tt

abbrev logged_in : LoginData
logged_in = record {
  token = 1 ∷ 1 ∷ codes "2|0|864100";
  id = 2;
  login_id = "bob";
  email = "b@x";
  name = "Bob";
}

abbrev asked : LoginRequest
asked = record { login_id = "b@x"; password = "pw" }

abbrev sent : Result String LoginRequest
sent = ok asked

bob_logs_in :
    (portal_login env 100 (ok (1 ∷ 1 ∷ [])) sent staffed).0
    ≡ reply (record { status = 200; code = 0; msg = "success"; payload = some logged_in })
unfolding logging_in
bob_logs_in = refl

authenticate-portal_login_example :
    (request : LoginRequest) × (u : PortalUser) × (sent ≡ ok request)
    × (env.users.find (has_login request) staffed ≡ ok (u ∷ []))
    × (2 ≡ u.id)
    × (authenticate env 5000 logged_in.token staffed ≡ (
        if leb 5000 (100 + 2 * token_duration)
        then main_user_of env (format u.id, format 0) staffed
        else answer err_security "token expired error" tt staffed))
authenticate-portal_login_example =
    authenticate-portal_login env toy-IsCipherLib sent 100 5000 (1 ∷ 1 ∷ []) staffed staffed
      (record { status = 200; code = 0; msg = "success"; payload = some logged_in }) logged_in
      (omega arith) refl bob_logs_in refl

unfoldable pub passing : Unit {0}
unfolding logging_in admin_chain http_interceptor join verify channel_tenant user_token four_parts
    token_interceptor with_headers token_of authenticate three_parts main_user_of authorise
    is_super_admin granted_funcs granted_uri lacks_permission decrypt open_nonced split has_prefix
    trim_prefix hex_encode parse_int64 users_in parse_uint
passing = tt

-- The signature is the hexadecimal text of the digest.
abbrev pub req : Request
req = record {
  uri = codes "/spwapi/admin/portal/dashboard";
  header = record {
    app_id = codes "app";
    auth_token = codes "09";
    ts = codes "1";
    ver = codes "1";
    request_id = codes "r";
    x_auth = logged_in.token;
  };
  cookie = none;
}

abbrev values_of : Flow (Unit {0}) Values → Values
values_of (next vals) = vals
values_of (reply r) = no_values
values_of panic = no_values

abbrev passed : Values
passed = values_of (admin_chain env 5000 req staffed).0

bob_passes : admin_chain env 5000 req staffed ≡ (next passed, staffed)
unfolding passing
bob_passes = refl

-- Nobody else has this role.
carol_stays_out : ¬ IsPermitted env (record bob { id = 3 }) req.uri staffed
unfolding passing IsPermitted Allows
carol_stays_out (inl no_function) = omega (arith, no_function)
carol_stays_out (inr (inl open_to_all)) = absurd (ground (arith, open_to_all))
carol_stays_out (inr (inr has)) = absurd (ground (arith, has))

admin_chain-IsAuthorised_example :
    (staffed ≡ staffed)
    × (signed : Values) × IsSigned env req staffed signed
    × ((any (λ v. v == req.uri) no_auth_urls ≡ true)
        ⊎ IsAuthorised env 5000 req req.header staffed passed)
admin_chain-IsAuthorised_example =
    admin_chain-IsAuthorised env 5000 req passed staffed staffed channels-IsTable bob_passes
