-- ===== src/Tenants/Handlers.antt =====
-- The handlers of tenants.
use Prim.Native.String.{◌++◌}
use walletus.Access.Signed.{found_channel, no_tenant}
use walletus.Base.{
  ℕ, String, true, false, ◌&&◌, Option, none, some, List, [], ◌∷◌, Result, ok, err, ◌==◌, nat_eq,
  string_eq, if◌then◌else◌, leb, ltb,
}
use walletus.Base.Decimal.{Bytes}
use walletus.Gorm.{DbError, has_key}
use walletus.Model.{SysChannel, Tenant, channel_key, tenant_key}
use walletus.Sealed.Master.{EncMaster, Draws, generate_master_xprv}
use walletus.Tenants.{TenantEnv, PortalTenantRequest, TenantRequest, generate_app_id_and_key}
use walletus.Web.{
  Action, Flow, next, reply, panic, Context, ◌>>=◌, ◌>>◌, pure, answer, answer_if, bind_json,
  require_login, find_or_nil, first_or, write_or_answer, write_or_ignore, write_or_keep, error_text,
}
use walletus.Web.Codes.{success, err_reqformat, err_exist_obj, err_obj_not_found, err_unknown}

-- What stands under "data".
pub data TenantData : Type 0 where
  nothing : TenantData
  list : List Tenant → TenantData
  one : Tenant → TenantData
  with_api : Tenant → Bytes → Bytes → TenantData
  ids : ℕ → String → TenantData
  ids_and_callback : ℕ → String → String → TenantData

-- `Order("add_time DESC")`
unfoldable pub insert_by_time : Tenant → List Tenant → List Tenant
insert_by_time t [] = t ∷ []
insert_by_time t (u ∷ us) =
    let rest = insert_by_time t us in if leb u.add_time t.add_time then t ∷ u ∷ us else u ∷ rest

unfoldable pub newest_first : List Tenant → List Tenant
unfolding insert_by_time
newest_first [] = []
newest_first (t ∷ ts) = insert_by_time t (newest_first ts)

abbrev unknown : String → DbError → ℕ × String
unknown text x = (err_unknown, text ++ error_text x)

module _ (e : TenantEnv) where
  open e use {
    Db, channels, tenants, tenants_by, begin_error, commit_error, ciphers, seeds, marshal_kdf, utf8,
  }

  abbrev pub Step : Type 0 → Type 0
  Step A = Action Db TenantData A

  unfoldable pub portal_tenant_list : Context → Step (Unit {0})
  unfolding newest_first
  portal_tenant_list ctx = do
    require_login nothing ctx
    rows ← find_or_nil nothing (tenants.find (λ t. t.flag == 0))
    answer success "success" (list (newest_first rows))

  -- A failure answered by its text, of `Begin` and of the new master key.
  abbrev pub or_unknown : {A : Type 0} → String → Result String A → Step A
  or_unknown text (ok a) = pure a
  or_unknown text (err x) = answer err_unknown (text ++ x) nothing

  abbrev pub begin : Option String → Step (Unit {0})
  begin none = pure tt
  begin (some x) = answer err_unknown ("database transaction start failed: " ++ x) nothing

  -- An answer comes after `Rollback`; else `Commit`.
  unfoldable pub commit_or_answer : Option String → Tenant → Db → Db → Flow TenantData Tenant × Db
  commit_or_answer none t db new = (next t, new)
  commit_or_answer (some x) t db new =
      answer err_unknown ("database commit failed: " ++ x) nothing db

  unfoldable pub end_tenant_tx : Db → Flow TenantData Tenant × Db → Flow TenantData Tenant × Db
  unfolding commit_or_answer
  end_tenant_tx db (next t, new) = commit_or_answer (commit_error new) t db new
  end_tenant_tx db (reply r, new) = (reply r, db)
  end_tenant_tx db (panic, new) = (panic, db)

  abbrev pub new_api : ℕ → Bytes × Bytes → SysChannel
  new_api now (app_id, app_key) = record {
    id = 0;
    app_id = app_id;
    app_key = app_key;
    status = "00";
    chan = "tenant";
    sig_method = "SHA256";
    create_time = now;
    update_time = now;
  }

  abbrev pub new_tenant : ℕ → PortalTenantRequest → EncMaster → ℕ → Tenant
  new_tenant now request enc api_id = record {
    id = 0;
    unique_id = request.unique_id;
    name = request.name;
    desc = request.desc;
    enc_master_xprv = enc.enc_master_xprv;
    enc_master_seed = enc.enc_master_seed;
    kdf_params = marshal_kdf enc.kdf;
    add_time = now;
    version = "1";
    callback = request.callback;
    flag = 0;
    api_id = api_id;
  }

  -- The two inserts of the transaction.
  unfoldable pub insert_tenant : ℕ → PortalTenantRequest → Bytes × Bytes → EncMaster → Step Tenant
  insert_tenant now request app enc = do
    api ← write_or_answer nothing (channels.create (new_api now app)) (unknown "save api error: ")
    write_or_answer nothing (tenants.create (new_tenant now request enc api.id))
        (unknown "save tenant error: ")

  -- `drawn` are the six digits of the application's ID. Where the master key fails, the
  -- transaction is left open.
  unfoldable pub portal_tenant_create :
      Context → Result String Bytes → Draws → Result String PortalTenantRequest → Step (Unit {0})
  unfolding insert_tenant end_tenant_tx
  portal_tenant_create ctx drawn draws bound = do
    request ← bind_json nothing bound (λ text. "invalid request: " ++ text)
    require_login nothing ctx
    (λ db. begin (begin_error db) db)
    let app = generate_app_id_and_key e drawn (utf8 request.unique_id) (utf8 request.name) ctx.now
    enc ← or_unknown "tenant creation error: " (generate_master_xprv ciphers seeds draws)
    tenant ← (λ db. end_tenant_tx db (insert_tenant ctx.now request app enc db))
    answer success "success" (one tenant)

  unfoldable pub portal_tenant_update :
      Context → Result String PortalTenantRequest → Step (Unit {0})
  portal_tenant_update ctx bound = do
    request ← bind_json nothing bound (λ text. "invalid request: " ++ text)
    require_login nothing ctx
    tenant ←
        first_or no_tenant (tenants.first (λ t. has_key tenant_key request.id t && t.flag == 0))
    answer_if nothing (tenant.id == 0) err_exist_obj "tenant not existing"
    let changed = record tenant {
      name = request.name;
      desc = request.desc;
      callback = request.callback;
      unique_id = request.unique_id;
    }
    write_or_ignore (tenants.save changed)
    answer success "success" (one changed)

  unfoldable pub portal_tenant_delete :
      Context → Result String PortalTenantRequest → Step (Unit {0})
  portal_tenant_delete ctx bound = do
    request ← bind_json nothing bound (λ text. "invalid request: " ++ text)
    require_login nothing ctx
    tenant ←
        first_or no_tenant (tenants.first (λ t. has_key tenant_key request.id t && t.flag == 0))
    answer_if nothing (tenant.id == 0) err_exist_obj "tenant not existing"
    write_or_ignore (tenants.save (record tenant { flag = 1 }))
    answer success "success" nothing

  unfoldable pub portal_tenant_detail : Context → Bytes → Step (Unit {0})
  portal_tenant_detail ctx tenant_id = do
    require_login nothing ctx
    answer_if nothing (elim tenant_id [ [] ↦ true | _ ↦ false ]) err_reqformat
        "invalid request: tenant_id is empty"
    tenant ← first_or no_tenant (tenants_by tenant_id)
    answer_if nothing (tenant.id == 0) err_exist_obj "tenant not existing"
    api ← first_or (found_channel []) (channels.first (has_key channel_key tenant.api_id))
    answer success "success" (with_api tenant api.app_id api.app_key)

  abbrev pub new_plain_tenant : ℕ → TenantRequest → EncMaster → Tenant
  new_plain_tenant now request enc = record no_tenant {
    name = request.name;
    unique_id = request.unique_id;
    add_time = now;
    enc_master_xprv = enc.enc_master_xprv;
    enc_master_seed = enc.enc_master_seed;
    kdf_params = marshal_kdf enc.kdf;
    version = "1";
    callback = request.callback;
  }

  -- `TenantCreate` of cmd/modapi/http/tenant.go, for applications; an error of `Save` is ignored.
  unfoldable pub tenant_create : ℕ → Draws → Result String TenantRequest → Step (Unit {0})
  tenant_create now draws bound = do
    request ← bind_json nothing bound (λ _. "invalid request")
    found ← first_or no_tenant (tenants.first (λ t. t.unique_id == request.unique_id))
    answer_if nothing (ltb 0 found.id) err_exist_obj "tenant unique id existed"
    enc ← or_unknown "tenant creation error: " (generate_master_xprv ciphers seeds draws)
    let row = new_plain_tenant now request enc
    tenant ← write_or_keep row (tenants.save row)
    answer success "success" (ids tenant.id tenant.unique_id)

  -- `c.Get("TENANTID")`
  abbrev pub tenant_login : Option ℕ → Step ℕ
  tenant_login (some id) = pure id
  tenant_login none = answer err_obj_not_found "tenant not existed" nothing

  unfoldable pub tenant_update : Option ℕ → Result String TenantRequest → Step (Unit {0})
  tenant_update tenant_id bound = do
    request ← bind_json nothing bound (λ _. "invalid request")
    id ← tenant_login tenant_id
    tenant ← first_or no_tenant (tenants.first (has_key tenant_key id))
    answer_if nothing (tenant.id == 0) err_obj_not_found "tenant not existed"
    let changed = record tenant {
      name = request.name;
      callback = request.callback;
      unique_id = request.unique_id;
    }
    write_or_ignore (tenants.save changed)
    answer success "success" (ids_and_callback tenant.id request.unique_id request.callback)
