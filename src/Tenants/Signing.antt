-- ===== src/Tenants/Signing.antt =====
-- The application of a tenant that has been created signs a request.
use walletus.Access.{AccessEnv, Request, Values, join}
use walletus.Access.Signed.{no_tenant, user_token, verify, channel_tenant, http_interceptor}
use walletus.Access.Verified.{signed_values, user_token-IsKept}
use walletus.Base.{
  ℕ, String, Bool, true, false, not, Option, none, some, List, [], ◌∷◌, ◌++◌, Result, ok, err, ◌<◌,
  ◌≡◌, ◌≢◌, refl, ap, sym, ◌∙◌, arith, ◌==◌, nat_eq, string_eq, eq_iff, find?, select,
  select-append, length,
}
use walletus.Base.Decimal.{Bytes, bytes_eq, same_bytes_iff}
use walletus.Base.Numerals.{hex_encode}
use walletus.Gorm.{DbError, not_found, failed, Table, IsInserted, has_key}
use walletus.Tenants.Handlers.{portal_tenant_create}
use mathlib.Core.Path.{subst}
use walletus.Model.{
  SysChannel, Tenant, PortalUser, PortalFunc, PortalRoleFunc, PortalUserRole, channel_key,
}
use walletus.Sealed.{decrypt}
use walletus.Sealed.Master.{Draws}
use walletus.Tenants.{TenantEnv, IsTenantEnv, PortalTenantRequest, generate_app_id_and_key}
use walletus.Tenants.Registered.{IsRegistered, portal_tenant_create-IsRegistered}
use walletus.Web.{Context, next, after, pure, ◌>>=◌}
use walletus.Web.Ended.{or_answer-ok, first_or-ok, answer_if-false}

module _ {A : Type 0} (p : A → Bool) where
  select-none : (xs : List A) → find? p xs ≡ none → select p xs ≡ []
  select-none [] h = refl
  select-none (x ∷ xs) h = ground (arith, h, select-none xs)

  find?-last : (xs : List A) (x y : A) → find? p xs ≡ none → find? p (xs ++ x ∷ []) ≡ some y → x ≡ y
  find?-last [] x y h g = ground (arith, g)
  find?-last (z ∷ xs) x y h g = ground (arith, h, g, find?-last xs x y)

  find?-here :
      (xs : List A) (x : A) → find? p xs ≡ none → p x ≡ true → find? p (xs ++ x ∷ []) ≡ some x
  find?-here [] x h g = rw g refl
  find?-here (z ∷ xs) x h g = ground (arith, h, g, find?-here xs x)

length-ne-zero : {A : Type 0} (xs : List A) → xs ≢ [] → (length xs == 0) ≡ false
length-ne-zero [] h = absurd (h refl)
length-ne-zero (x ∷ xs) h = ground arith

module _ (e : AccessEnv) where
  open e use {Db, sha256, channels, tenants, ciphers}

  verify_lem :
      (c : SysChannel) (text sig : Bytes)
      → c.sig_method ≡ "SHA256"
      → hex_encode (sha256 (text ++ c.app_key)) ≡ sig
      → text ≢ []
      → sig ≢ []
      → (verify e c text sig).0 ≡ true
  unfolding verify
  verify_lem c text sig method signed some_text some_sig =
      rw
        (
          (eq_iff c.sig_method "SHA256").1 method,
          length-ne-zero text some_text,
          length-ne-zero sig some_sig,
          (same_bytes_iff (hex_encode (sha256 (text ++ c.app_key))) sig).1 signed,
        )
        refl

  channel_tenant_lem :
      (c : SysChannel) (t : Tenant) (db : Db)
      → c.chan ≡ "tenant"
      → tenants.first (λ t. t.api_id == c.id) db ≡ ok t
      → channel_tenant e c db ≡ (next (some t.id), db)
  unfolding channel_tenant pure
  channel_tenant_lem c t db kind owner = rw ((eq_iff c.chan "tenant").1 kind) (
      first_or-ok (λ tenant. pure (some tenant.id)) db no_tenant
        (tenants.first (λ t. t.api_id == c.id)) owner)

  -- A request signed with the key of the one channel of its ID.
  http_interceptor_lem :
      (now : ℕ) (req : Request) (vals : Values) (db : Db) (c : SysChannel) (t : Tenant)
      → channels.find (λ c. c.app_id == req.header.app_id) db ≡ ok (c ∷ [])
      → (verify e c (join req.header) req.header.auth_token).0 ≡ true
      → c.chan ≡ "tenant"
      → tenants.first (λ t. t.api_id == c.id) db ≡ ok t
      → http_interceptor e now req vals db ≡ (
        next (
            user_token now
              (decrypt ciphers req.header.x_auth)
              (signed_values e req vals (some t.id))),
        db,
      )
  unfolding http_interceptor ◌>>=◌ pure
  http_interceptor_lem now req vals db c t found good kind owner =
      or_answer-ok tt _ db _ _ found
      ∙ answer_if-false tt _ db _ _ _ (ap not good)
      ∙ ap
          (after λ o.
            pure (user_token now (decrypt ciphers req.header.x_auth) (signed_values e req vals o)))
          (channel_tenant_lem c t db kind owner)

module _ (e : TenantEnv) (users : Table e.Db PortalUser) (funcs : Table e.Db PortalFunc)
    (role_funcs : Table e.Db PortalRoleFunc) (user_roles : Table e.Db PortalUserRole)
    (users_by : Bytes → e.Db → Result DbError (List PortalUser))
    (join_error : e.Db → Option String) where
  open e use {Db, sha256, channels, tenants, ciphers, utf8}

  -- The interceptors on the tables of the tenants' handlers.
  abbrev pub access : AccessEnv
  access = record {
    Db = Db;
    ciphers = ciphers;
    sha256 = sha256;
    channels = channels;
    tenants = tenants;
    users = users;
    funcs = funcs;
    role_funcs = role_funcs;
    user_roles = user_roles;
    users_by = users_by;
    join_error = join_error;
  }

  -- The new application is the only one of its ID, and the new tenant the only one of the application.
  only_api :
      (app_id : Bytes) (c c₀ : SysChannel) (before new xs : List SysChannel)
      → IsInserted channel_key c₀ c before new
      → app_id ≡ c₀.app_id
      → find? (λ c. c.app_id == app_id) before ≡ none
      → xs ≡ select (λ c. c.app_id == app_id) new
      → xs ≡ c ∷ []
  only_api app_id c c₀ before new xs added is_app fresh found =
      let p : SysChannel → Bool = λ c. c.app_id == app_id in
      let own : p c ≡ true = ap p added.same ∙ (same_bytes_iff c₀.app_id app_id).1 (sym is_app) in
      found
      ∙ ap (select p) added.appended
      ∙ select-append p before (c ∷ [])
      ∙ ap (λ l. l ++ select p (c ∷ [])) (select-none p before fresh)
      ∙ rw own refl

  -- The query for the tenant of the new application finds it.
  owner_by :
      (p : Tenant → Bool) (before : List Tenant) (tenant : Tenant) (new : Db)
      (q : Result DbError Tenant)
      → IsTenantEnv e
      → tenants.first p new ≡ q
      → ((text : String) → tenants.first p new ≢ err (failed text))
      → find? p before ≡ none
      → p tenant ≡ true
      → tenants.rows new ≡ before ++ tenant ∷ []
      → tenants.first p new ≡ ok tenant
  owner_by p before tenant new (ok t) laws reads answers unowned own rows =
      let row : find? p (before ++ tenant ∷ []) ≡ some t =
        ap (find? p) (sym rows) ∙ laws.tenants_table.first_rows p new reads in
      reads ∙ ap (λ x. ok x) (sym (find?-last p before tenant t unowned row))
  owner_by p before tenant new (err not_found) laws reads answers unowned own rows =
      let missing : find? p (before ++ tenant ∷ []) ≡ none =
        ap (find? p) (sym rows) ∙ laws.tenants_table.first_none p new reads in
      let there = find?-here p before tenant unowned own in absurd (ground (arith, missing, there))
  owner_by p before tenant new (err (failed text)) laws reads answers unowned own rows =
      absurd (answers text reads)

  -- A request signed with the key of a new application.
  signed_lem :
      (now now' : ℕ) (drawn : Result String Bytes) (draws : Draws) (request : PortalTenantRequest)
      (before new : Db) (r : IsRegistered e now drawn draws request before new) (req : Request)
      (vals : Values) (xs : List SysChannel)
      → IsTenantEnv e
      → req.header.app_id ≡ r.api.app_id
      → hex_encode (sha256 (join req.header ++ r.api.app_key)) ≡ req.header.auth_token
      → join req.header ≢ []
      → req.header.auth_token ≢ []
      → find? (λ c. c.app_id == req.header.app_id) (channels.rows before) ≡ none
      → find? (λ t. t.api_id == r.api.id) (tenants.rows before) ≡ none
      → channels.find (λ c. c.app_id == req.header.app_id) new ≡ ok xs
      → ((text : String) → tenants.first (λ t. t.api_id == r.api.id) new ≢ err (failed text))
      → (signed : Values) × (http_interceptor access now' req vals new ≡ (next signed, new))
        × (signed.tenant_id ≡ some r.tenant.id)
        × (signed.headers ≡ some req.header)
  signed_lem now now' drawn draws request before new r req vals xs laws named signed some_text
        some_sig fresh unowned found answers =
      let one =
        only_api req.header.app_id r.api _ (channels.rows before) (channels.rows new) xs r.added_api
          (named ∙ ap (λ c. c.app_id) r.added_api.same) fresh
          (laws.channels_table.find_rows _ new found) in
      let good =
        verify_lem access r.api (join req.header) req.header.auth_token
          (ap (λ c. c.sig_method) r.added_api.same) signed some_text some_sig in
      let own : (r.tenant.api_id == r.api.id) ≡ true =
        (nat_eq.decides r.tenant.api_id r.api.id).1 (ap (λ t. t.api_id) r.added_tenant.same) in
      let owner =
        owner_by (λ t. t.api_id == r.api.id) (tenants.rows before) r.tenant new _ laws refl answers
          unowned own r.added_tenant.appended in
      let token = decrypt ciphers req.header.x_auth in
      let start = signed_values access req vals (some r.tenant.id) in
      let (headers, tenant_id, _) = user_token-IsKept now' start token in
      (
        user_token now' token start,
        http_interceptor_lem access now' req vals new r.api r.tenant (found ∙ ap (λ l. ok l) one)
            good (ap (λ c. c.chan) r.added_api.same) owner,
        tenant_id,
        headers,
      )

  -- After a request to create a tenant that has changed the database, a request that names the
  -- application generated for it and is signed with the key generated for it passes the first
  -- interceptor with the ID of a tenant that has been put behind the others and has the unique ID of
  -- the first request; if its signed text and its token are not empty, no application had that ID,
  -- no tenant had an application that was not there, and no query gives an error of the database.
  pub http_interceptor-portal_tenant_create :
      (ctx : Context) (now : ℕ) (drawn : Result String Bytes) (draws : Draws)
      (request : PortalTenantRequest) (db new : Db) (req : Request) (vals : Values)
      (xs : List SysChannel)
      → IsTenantEnv e
      → (portal_tenant_create e ctx drawn draws (ok request) db).1 ≡ new
      → new ≢ db
      → (let app =
            generate_app_id_and_key e drawn (utf8 request.unique_id) (utf8 request.name) ctx.now in
          (req.header.app_id ≡ app.0)
          × (hex_encode (sha256 (join req.header ++ app.1)) ≡ req.header.auth_token))
      → join req.header ≢ []
      → req.header.auth_token ≢ []
      → find? (λ c. c.app_id == req.header.app_id) (channels.rows db) ≡ none
      → ((n : ℕ)
          → find? (has_key channel_key n) (channels.rows db) ≡ none
          → 0 < n
          → find? (λ t. t.api_id == n) (tenants.rows db) ≡ none)
      → channels.find (λ c. c.app_id == req.header.app_id) new ≡ ok xs
      → ((n : ℕ) (text : String) → tenants.first (λ t. t.api_id == n) new ≢ err (failed text))
      → (tenant : Tenant) × (tenants.rows new ≡ tenants.rows db ++ tenant ∷ [])
        × (tenant.unique_id ≡ request.unique_id)
        × (signed : Values) × (http_interceptor access now req vals new ≡ (next signed, new))
        × (signed.tenant_id ≡ some tenant.id)
        × (signed.headers ≡ some req.header)
  http_interceptor-portal_tenant_create ctx now drawn draws request db new req vals xs laws created
        changed (named, signed) some_text some_sig fresh unowned found answers =
      let (asked, same, registered) =
        portal_tenant_create-IsRegistered e ctx drawn draws (ok request) db laws
          (λ kept. changed (sym created ∙ kept)) in
      let is_asked : asked ≡ request = ground (arith, same) in
      let r : IsRegistered e ctx.now drawn draws request db new =
        subst (IsRegistered e ctx.now drawn draws request db) created (
          subst
            (λ q.
              IsRegistered e ctx.now drawn draws q db
                (portal_tenant_create e ctx drawn draws (ok request) db).1)
            is_asked registered) in
      let key = ap (λ c. c.app_key) r.added_api.same in
      let (values, passes, owned, headers) =
        signed_lem ctx.now now drawn draws request db new r req vals xs laws
          (named ∙ sym (ap (λ c. c.app_id) r.added_api.same))
          (ap (λ k. hex_encode (sha256 (join req.header ++ k))) key ∙ signed) some_text some_sig
          fresh (unowned r.api.id r.added_api.fresh r.added_api.positive) found
          (answers r.api.id) in
      (
        r.tenant,
        r.added_tenant.appended,
        ap (λ t. t.unique_id) r.added_tenant.same,
        values,
        passes,
        owned,
        headers,
      )
