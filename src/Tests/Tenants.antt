-- ===== src/Tests/Tenants.antt =====
-- Tenants on tables in memory.
use walletus.Access.{Request, Values, join, no_values}
use walletus.Access.Signed.{http_interceptor}
use walletus.Base.{
  ℕ, String, none, some, [], ◌∷◌, Result, ok, err, ◌≡◌, ◌≢◌, refl, Bool, ◌++◌, find?, ◌==◌, nat_eq,
  ap, arith, length,
}
use walletus.Base.Decimal.{Bytes, codes, bytes_eq}
use walletus.Base.Numerals.{hex_encode}
use walletus.Gorm.{not_found, failed}
use walletus.Gorm.Memory.{mem_table, mem_table-IsTable, mem_table-IsApart}
use walletus.Model.{
  SysChannel, Tenant, channel_key, tenant_key, user_key, func_key, role_func_key, user_role_key,
}
use walletus.Sealed.Master.{Draws, encrypt_master, generate_master_seed, generate_master_xprv}
use walletus.Tenants.{
  TenantEnv, IsTenantEnv, PortalTenantRequest, generate_prefix, generate_app_id_and_key, barred,
}
use walletus.Tenants.Handlers.{
  new_api, insert_tenant, commit_or_answer, end_tenant_tx, portal_tenant_create,
}
use walletus.Tenants.Registered.{IsRegistered, portal_tenant_create-IsRegistered}
use walletus.Tenants.Signing.{access, http_interceptor-portal_tenant_create}
use walletus.Tests.Access.{AccessDb, toy, staffed}
use walletus.Tests.Memory.{ctx}
use walletus.Web.{next, steps}

abbrev env : TenantEnv
env = record {
  Db = AccessDb;
  channels = mem_table channel_key (λ d. d.channels) (λ xs d. record d { channels = xs });
  tenants = mem_table tenant_key (λ d. d.tenants) (λ xs d. record d { tenants = xs });
  tenants_by = λ text db. err not_found;
  begin_error = λ db. none;
  commit_error = λ db. none;
  ciphers = toy;
  seeds = record {
    new_mnemonic = λ entropy. ok "legal winner";
    new_seed = λ mnemonic. 7 ∷ [];
    new_master = λ seed. ok (codes "xprv");
  };
  sha256 = λ s. 9 ∷ [];
  base32 = λ s. codes "BASE32";
  marshal_kdf = λ kdf. "{}";
  utf8 = λ s. codes s;
}

env-IsTenantEnv : IsTenantEnv env
unfolding mem_table
env-IsTenantEnv = record {
  channels_table =
      mem_table-IsTable channel_key (λ (d : AccessDb). d.channels)
        (λ xs d. record d { channels = xs }) (λ n r. refl) (λ xs db. refl);
  tenants_table =
      mem_table-IsTable tenant_key (λ (d : AccessDb). d.tenants) (λ xs d. record d { tenants = xs })
        (λ n r. refl) (λ xs db. refl);
  channels_apart =
      mem_table-IsApart channel_key (λ (d : AccessDb). d.channels)
        (λ xs d. record d { channels = xs }) env.tenants (λ xs db. refl);
  tenants_apart =
      mem_table-IsApart tenant_key (λ (d : AccessDb). d.tenants) (λ xs d. record d { tenants = xs })
        env.channels (λ xs db. refl);
}

abbrev wanted : PortalTenantRequest
wanted = record { id = 0; name = "Shop"; desc = ""; callback = ""; unique_id = "s1" }

abbrev draws : Draws
draws = record {
  entropy = ok (1 ∷ []);
  salt = 2 ∷ [];
  nonce_prv = 3 ∷ 3 ∷ [];
  nonce_seed = 4 ∷ 4 ∷ [];
}

abbrev digits : Result String Bytes
digits = ok (codes "123456")

abbrev sent : Result String PortalTenantRequest
sent = ok wanted

unfoldable creating : Unit {0}
unfolding mem_table steps portal_tenant_create insert_tenant end_tenant_tx commit_or_answer
    generate_app_id_and_key generate_prefix barred hex_encode generate_master_xprv
    generate_master_seed encrypt_master
creating = tt

created : (portal_tenant_create env ctx digits draws sent staffed).1 ≢ staffed
unfolding creating
created same =
    let count : ◌≡◌ {A = ℕ} 1 0 = ap (λ d. length d.tenants) same in ground (arith, count)

portal_tenant_create-IsRegistered_example :
    (request : PortalTenantRequest) × (sent ≡ ok request)
    × IsRegistered env 1000 digits draws request staffed
        (portal_tenant_create env ctx digits draws sent staffed).1
portal_tenant_create-IsRegistered_example =
    portal_tenant_create-IsRegistered env ctx digits draws sent staffed env-IsTenantEnv created

abbrev new_db : AccessDb
new_db = (portal_tenant_create env ctx digits draws sent staffed).1

-- The application in the table.
abbrev api : SysChannel
api = record (new_api env 1000 (codes "BASE3-09", codes "09")) { id = 5 }

-- A first row is found, or none.
answers :
    (p : Tenant → Bool) (db : AccessDb) (text : String) → env.tenants.first p db ≢ err (failed text)
unfolding mem_table
answers p db text = elim (find? p (env.tenants.rows db)) [
  | none ↦ λ e. ground (arith, e)
  | some t ↦ λ e. ground (arith, e)
]

abbrev signed_request : Request
signed_request = record {
  uri = codes "/spwapi/was/create";
  header = record {
    app_id = codes "BASE3-09";
    auth_token = codes "09";
    ts = codes "1";
    ver = codes "1";
    request_id = codes "r";
    x_auth = [];
  };
  cookie = none;
}

http_interceptor-portal_tenant_create_example :
    (tenant : Tenant) × (new_db.tenants ≡ [] ++ tenant ∷ [])
    × (tenant.unique_id ≡ "s1")
    × (signed : Values) × (http_interceptor
          (access env
            (mem_table user_key (λ (d : AccessDb). d.users) (λ xs d. record d { users = xs }))
            (mem_table func_key (λ d. d.funcs) (λ xs d. record d { funcs = xs }))
            (mem_table role_func_key (λ d. d.role_funcs) (λ xs d. record d { role_funcs = xs }))
            (mem_table user_role_key (λ d. d.user_roles) (λ xs d. record d { user_roles = xs }))
            (λ text db. ok [])
            (λ db. none))
          2000
          signed_request
          no_values
          new_db
        ≡ (next signed, new_db))
    × (signed.tenant_id ≡ some tenant.id)
    × (signed.headers ≡ some signed_request.header)
unfolding creating join
http_interceptor-portal_tenant_create_example =
    http_interceptor-portal_tenant_create env
      (mem_table user_key (λ (d : AccessDb). d.users) (λ xs d. record d { users = xs }))
      (mem_table func_key (λ d. d.funcs) (λ xs d. record d { funcs = xs }))
      (mem_table role_func_key (λ d. d.role_funcs) (λ xs d. record d { role_funcs = xs }))
      (mem_table user_role_key (λ d. d.user_roles) (λ xs d. record d { user_roles = xs }))
      (λ text db. ok []) (λ db. none) ctx 2000 digits draws wanted staffed new_db signed_request
      no_values (api ∷ []) env-IsTenantEnv refl created (refl, refl) (λ e. ground (arith, e))
      (λ e. ground (arith, e)) refl (λ n missing positive. refl) refl
      (λ n text. answers (λ t. t.api_id == n) new_db text)
