-- ===== src/Tenants/Registered.antt =====
-- What creating a tenant stores, and that the new application may then sign requests for it.
use mathlib.Core.Path.{subst}
use walletus.Base.{
  ℕ, String, Option, none, some, Result, ok, err, ◌≡◌, ◌≢◌, refl, ap, sym, ◌∙◌, arith, nat_eq,
  string_eq,
}
use walletus.Base.Decimal.{Bytes, bytes_eq}
use walletus.Gorm.{IsInserted}
use walletus.Model.{SysChannel, Tenant, channel_key, tenant_key}
use walletus.Sealed.Master.{EncMaster, Draws, generate_master_xprv}
use walletus.Tenants.{TenantEnv, IsTenantEnv, PortalTenantRequest, generate_app_id_and_key}
use walletus.Tenants.Handlers.{
  TenantData, nothing, one, new_api, new_tenant, insert_tenant, begin, or_unknown, commit_or_answer,
  end_tenant_tx, portal_tenant_create,
}
use walletus.Web.{Action, Context, Flow, next, reply, panic, steps, after, ◌>>=◌, answer}
use walletus.Web.Codes.{success}
use walletus.Web.Ended.{>>=-next, write_or_answer-next}
use walletus.Web.Rules.{bind_json-rule, require_login-rule, reader-rule}

module _ (e : TenantEnv) where
  open e use {Db, channels, tenants, commit_error, ciphers, seeds, marshal_kdf, utf8}

  -- A tenant has been created for a request: its application is new, and it has the ID of that
  -- application and the master key just made.
  pub record IsRegistered (now : ℕ) (drawn : Result String Bytes) (draws : Draws)
      (request : PortalTenantRequest) (before new : Db) : Type 0 where
    pub api : SysChannel
    pub tenant : Tenant
    pub enc : EncMaster
    pub generated : generate_master_xprv ciphers seeds draws ≡ ok enc
    pub added_api :
        IsInserted channel_key
          (record {
            id = 0;
            app_id =
                (generate_app_id_and_key e drawn
                  (utf8 request.unique_id)
                  (utf8 request.name)
                  now).0;
            app_key =
                (generate_app_id_and_key e drawn
                  (utf8 request.unique_id)
                  (utf8 request.name)
                  now).1;
            status = "00";
            chan = "tenant";
            sig_method = "SHA256";
            create_time = now;
            update_time = now;
          })
          api
          (channels.rows before)
          (channels.rows new)
    pub added_tenant :
        IsInserted tenant_key
          (record {
            id = 0;
            unique_id = request.unique_id;
            name = request.name;
            desc = request.desc;
            enc_master_xprv = enc.enc_master_xprv;
            enc_master_seed = enc.enc_master_seed;
            kdf_params = marshal_kdf enc.kdf;
            add_time = now;
            version = "1";
            callback = request.callback;
            flag = 0;
            api_id = api.id;
          })
          tenant
          (tenants.rows before)
          (tenants.rows new)

  -- The two inserts.
  insert_tenant-IsRegistered :
      (now : ℕ) (drawn : Result String Bytes) (draws : Draws) (request : PortalTenantRequest)
      (enc : EncMaster) (t : Tenant) (db new : Db)
      → IsTenantEnv e
      → generate_master_xprv ciphers seeds draws ≡ ok enc
      → insert_tenant e now request
          (generate_app_id_and_key e drawn (utf8 request.unique_id) (utf8 request.name) now)
          enc
          db
        ≡ (next t, new)
      → IsRegistered now drawn draws request db new
  unfolding insert_tenant
  insert_tenant-IsRegistered now drawn draws request enc t db new laws generated h =
      let (api, mid, r₁, h₁) = >>=-next _ _ db t new h in
      let saved = write_or_answer-next nothing _ _ db mid api r₁ in
      let saved' = write_or_answer-next nothing _ _ mid new t h₁ in
      let one_api = laws.channels_table.create_rows _ db saved in
      let one_tenant = laws.tenants_table.create_rows _ mid saved' in
      record {
        api = api;
        tenant = t;
        enc = enc;
        generated = generated;
        added_api =
            subst
              (λ rows.
                IsInserted channel_key
                  (new_api e now (
                    generate_app_id_and_key e drawn (utf8 request.unique_id) (utf8 request.name)
                      now))
                  api (channels.rows db) rows)
              (sym (laws.tenants_apart.create_apart _ mid saved')) one_api;
        added_tenant =
            subst
              (λ rows.
                IsInserted tenant_key (new_tenant e now request enc api.id) t rows
                  (tenants.rows new))
              (laws.channels_apart.create_apart _ db saved) one_tenant;
      }

  commit_or_answer-changed :
      (o : Option String) (t : Tenant) (db new : Db)
      → (commit_or_answer e o t db new).1 ≢ db
      → commit_or_answer e o t db new ≡ (next t, new)
  unfolding commit_or_answer steps
  commit_or_answer-changed none t db new differs = refl
  commit_or_answer-changed (some x) t db new differs = absurd (differs refl)

  -- The transaction changes the database only if both inserts and the commit have worked.
  end_tenant_tx-changed :
      (db : Db) (x : Flow TenantData Tenant × Db)
      → (end_tenant_tx e db x).1 ≢ db
      → (t : Tenant) × (x ≡ (next t, (end_tenant_tx e db x).1))
  unfolding end_tenant_tx
  end_tenant_tx-changed db (next t, new) differs =
      let ends = commit_or_answer-changed (commit_error new) t db new differs in
      (t, ap {B = Flow TenantData Tenant × Db} (λ x. (next t, x.1)) (sym ends))
  end_tenant_tx-changed db (reply r, new) differs = absurd (differs refl)
  end_tenant_tx-changed db (panic, new) differs = absurd (differs refl)

  begin-reads : (o : Option String) (db : Db) → (begin e o db).1 ≡ db
  unfolding steps
  begin-reads none db = refl
  begin-reads (some x) db = refl

  or_unknown-reads :
      {A : Type 0} (text : String) (r : Result String A) (db : Db) → (or_unknown e text r db).1 ≡ db
  unfolding steps
  or_unknown-reads text (ok a) db = refl
  or_unknown-reads text (err x) db = refl

  or_unknown-next :
      {A : Type 0} (text : String) (r : Result String A) (a : A) (db : Db)
      → (or_unknown e text r db).0 ≡ next a
      → r ≡ ok a
  unfolding steps
  or_unknown-next text (ok b) a db h = ground (arith, h)
  or_unknown-next text (err x) a db h = absurd (ground (arith, h))

  after_tx :
      (x : Flow TenantData Tenant × Db)
      → (after (λ t. answer {A = Unit {0}} success "success" (one t)) x).1 ≡ x.1
  unfolding steps
  after_tx (next t, db) = refl
  after_tx (reply r, db) = refl
  after_tx (panic, db) = refl

  -- The transaction and the answer after it.
  abbrev stored :
      ℕ → Result String Bytes → PortalTenantRequest → EncMaster → Action Db TenantData (Unit {0})
  stored now drawn request enc = do
    tenant ← (λ db. end_tenant_tx e db (
        insert_tenant e now request
          (generate_app_id_and_key e drawn (utf8 request.unique_id) (utf8 request.name) now) enc
          db))
    answer success "success" (one tenant)

  stored-IsRegistered :
      (now : ℕ) (drawn : Result String Bytes) (draws : Draws) (request : PortalTenantRequest)
      (enc : EncMaster) (db : Db)
      → IsTenantEnv e
      → generate_master_xprv ciphers seeds draws ≡ ok enc
      → (stored now drawn request enc db).1 ≢ db
      → IsRegistered now drawn draws request db (stored now drawn request enc db).1
  unfolding ◌>>=◌
  stored-IsRegistered now drawn draws request enc db laws generated differs =
      let app = generate_app_id_and_key e drawn (utf8 request.unique_id) (utf8 request.name) now in
      let body = insert_tenant e now request app enc db in
      let same : (stored now drawn request enc db).1 ≡ (end_tenant_tx e db body).1 =
        after_tx (end_tenant_tx e db body) in
      let (t, whole) = end_tenant_tx-changed db body (λ kept. differs (same ∙ kept)) in
      subst (IsRegistered now drawn draws request db) (sym same)
        (insert_tenant-IsRegistered now drawn draws request enc t db _ laws generated whole)

  -- A request to create a tenant that changes the database binds; the application and the tenant are
  -- put under new keys behind the rows there, the application with the ID and key generated for the
  -- request, the tenant with the request's texts, the application's ID and the new master key.
  pub portal_tenant_create-IsRegistered :
      (ctx : Context) (drawn : Result String Bytes) (draws : Draws)
      (bound : Result String PortalTenantRequest) (db : Db)
      → IsTenantEnv e
      → (portal_tenant_create e ctx drawn draws bound db).1 ≢ db
      → (request : PortalTenantRequest) × (bound ≡ ok request)
        × IsRegistered ctx.now drawn draws request db
            (portal_tenant_create e ctx drawn draws bound db).1
  unfolding portal_tenant_create
  portal_tenant_create-IsRegistered ctx drawn draws bound db laws =
      let R : Flow TenantData (Unit {0}) × Db → Type 0 = λ x.
        x.1 ≢ db
        → (request : PortalTenantRequest) × (bound ≡ ok request)
          × IsRegistered ctx.now drawn draws request db x.1 in
      bind_json-rule nothing R db bound _ _ (λ x differs. absurd (differs refl))
        λ request is_bound.
          require_login-rule nothing R db ctx _ (λ x differs. absurd (differs refl))
            λ u login.
              reader-rule nothing R db (λ db. begin e (e.begin_error db) db) _
                (begin-reads (e.begin_error db) db) (λ x differs. absurd (differs refl))
                λ t begun.
                  reader-rule nothing R db _ _ (or_unknown-reads _ _ db)
                    (λ x differs. absurd (differs refl))
                    λ enc generated differs. (
                      request,
                      is_bound,
                      stored-IsRegistered ctx.now drawn draws request enc db laws
                          (or_unknown-next _ _ enc db generated) differs,
                    )
