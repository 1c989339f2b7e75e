-- ===== src/Access/Granted.antt =====
-- A function that is bound to a role opens its route to the users of the role: the bindings of
-- cmd/modapi/http/portal/rbac.go and the check of cmd/modapi/interceptor/tokenor.go.
use walletus.Access.{AccessEnv}
use walletus.Access.Permitted.{route_query}
use walletus.Access.Tokens.{
  unconfig_urls, is_super_admin, lacks_permission, unless_failed, granted_rows, granted_funcs,
  authorise,
}
use walletus.Base.{
  ℕ, Bool, true, false, not, ◌&&◌, ◌||◌, none, some, List, [], ◌∷◌, ◌++◌, Result, ok, ◌≡◌, ◌≢◌,
  refl, ap, sym, ◌∙◌, arith, ◌==◌, nat_eq, string_eq, eq_iff, any, select, find?, find?-holds,
  Bool-cases, inl, inr,
}
use walletus.Base.Decimal.{Bytes, bytes_eq, parse_uint}
use walletus.Gorm.{Table, DbError, IsTable}
use walletus.Model.{PortalRole, PortalUser, PortalFunc, PortalRoleFunc, PortalUserRole, func_key}
use walletus.Rbac.{RbacEnv, IsRbacEnv, is_role_func, is_user_role}
use walletus.Rbac.Bind.{portal_role_func_bind}
use walletus.Rbac.Bound.{portal_role_func_bind-IsBoundIn}
use walletus.Web.{Context, next, pure, answer_if}
use walletus.Web.Codes.{err_permission}
use walletus.Web.Ended.{find_or_nil-ok}

module _ {A : Type 0} (p : A → Bool) where
  any-last : (xs : List A) (y : A) → p y ≡ true → any p (xs ++ y ∷ []) ≡ true
  any-last [] y h = rw h refl
  any-last (x ∷ xs) y h = ground (arith, any-last xs y h)

  any-found :
      (xs : List A) (q : A → Bool) (y : A) → find? q xs ≡ some y → p y ≡ true → any p xs ≡ true
  any-found [] q y h g = cc
  any-found (x ∷ xs) q y h g = ground (arith, any-found xs q y, h, g)

  any-select :
      (xs ys : List A) (q r : A → Bool) (y : A)
      → y ∷ ys ≡ select q xs
      → r y ≡ true
      → p y ≡ true
      → any p (select r xs) ≡ true
  any-select [] ys q r y h g k = absurd (ground (arith, h))
  any-select (x ∷ xs) ys q r y h g k = ground (arith, any-select xs ys q r y, h, g, k)

not_lacking : (a b : Bool) → (not a && not (b || true)) ≡ false
not_lacking true b = refl
not_lacking false true = refl
not_lacking false false = refl

module _ (a : AccessEnv) where
  open a use {Db, funcs, role_funcs, user_roles, join_error}

  lacks_permission_lem :
      (uri : Bytes) (granted : List PortalFunc) (f : PortalFunc)
      → any (λ g. f.perm_code == g.perm_code) granted ≡ true
      → lacks_permission uri granted f ≡ false
  unfolding lacks_permission
  lacks_permission_lem uri granted f h =
      ap (λ c. not (f.id == 0) && not (any (λ u. u == uri) unconfig_urls || c)) h
      ∙ not_lacking (f.id == 0) (any (λ u. u == uri) unconfig_urls)

  -- A user one of whose roles has the function that the route's query finds.
  authorise-granted :
      (u : PortalUser) (uri : Bytes) (db : Db) (f : PortalFunc) (fs : List PortalFunc)
      → IsTable func_key funcs
      → join_error db ≡ none
      → route_query a uri db ≡ ok (f ∷ fs)
      → any
          (λ rf.
            f.id == rf.func_id
            && any (λ ur. rf.role_id == ur.role_id && ur.user_id == u.id) (user_roles.rows db))
          (role_funcs.rows db)
        ≡ true
      → authorise a u uri db ≡ (next tt, db)
  unfolding authorise granted_funcs pure answer_if
  authorise-granted u uri db f fs table joined found bound =
      let own : any (λ g. f.perm_code == g.perm_code) (granted_rows a u.id db) ≡ true =
        any-select (λ g. f.perm_code == g.perm_code) (funcs.rows db) fs _ _ f
          (table.find_rows _ db found) bound ((eq_iff f.perm_code f.perm_code).1 refl) in
      elim (Bool-cases (is_super_admin u)) [
        | inl super ↦ rw super refl
        | inr plain ↦ rw plain (
            find_or_nil-ok tt _ db (granted_funcs a u.id)
              (ap (λ o. unless_failed o (granted_rows a u.id db)) joined)
            ∙ find_or_nil-ok tt _ db (route_query a uri) found
            ∙ ap (λ b. answer_if tt b err_permission "insufficient permissions" db)
                (lacks_permission_lem uri _ f own))
      ]

module _ (a : AccessEnv) (roles : Table a.Db PortalRole)
    (bind_role_func : PortalRoleFunc → a.Db → Result DbError (PortalRoleFunc × a.Db))
    (bind_user_role : PortalUserRole → a.Db → Result DbError (PortalUserRole × a.Db)) where
  open a use {Db, funcs, users, role_funcs, user_roles, join_error}

  -- The handlers of the bindings on the tables that the interceptor reads.
  abbrev pub rbac : RbacEnv
  rbac = record {
    Db = Db;
    roles = roles;
    funcs = funcs;
    users = users;
    role_funcs = role_funcs;
    user_roles = user_roles;
    bind_role_func = bind_role_func;
    bind_user_role = bind_user_role;
  }

  -- Where the last row binds the role and the function, and the user has the role.
  joined-granted :
      (role func id : ℕ) (ur : PortalUserRole) (rf : PortalRoleFunc) (f : PortalFunc)
      (rows new : List PortalRoleFunc) (urs : List PortalUserRole)
      → is_role_func role func rf ≡ true
      → new ≡ rows ++ rf ∷ []
      → f.id ≡ func
      → find? (is_user_role id role) urs ≡ some ur
      → any
          (λ rf. f.id == rf.func_id && any (λ ur. rf.role_id == ur.role_id && ur.user_id == id) urs)
          new
        ≡ true
  joined-granted role func id ur rf f rows new urs of_pair appended named has =
      let holds = find?-holds (is_user_role id role) urs ur has in
      let of_user : (rf.role_id == ur.role_id && ur.user_id == id) ≡ true =
        ground (arith, of_pair, holds) in
      let of_func : (f.id == rf.func_id) ≡ true = ground (arith, of_pair, named) in
      let has_role : PortalRoleFunc → PortalUserRole → Bool =
        λ rf ur. rf.role_id == ur.role_id && ur.user_id == id in
      let grants : PortalRoleFunc → Bool = λ rf. f.id == rf.func_id && any (has_role rf) urs in
      let granted : grants rf ≡ true =
        rw (of_func, any-found (has_role rf) urs (is_user_role id role) ur has of_user) refl in
      ap (any grants) appended ∙ any-last grants rows rf granted

  -- After a bind of a role and a function that has changed the bindings, the interceptor lets every
  -- user who has this role call a route whose function is the one that was bound, if its queries
  -- give no error; it leaves the database as it was.
  pub authorise-portal_role_func_bind :
      (ctx : Context) (role_param func_param : Bytes) (role func : ℕ) (db new : Db) (u : PortalUser)
      (ur : PortalUserRole) (uri : Bytes) (f : PortalFunc) (fs : List PortalFunc)
      → IsRbacEnv rbac
      → IsTable func_key funcs
      → parse_uint 64 role_param ≡ some role
      → parse_uint 64 func_param ≡ some func
      → (portal_role_func_bind rbac ctx role_param func_param db).1 ≡ new
      → role_funcs.rows new ≢ role_funcs.rows db
      → find? (is_user_role u.id role) (user_roles.rows new) ≡ some ur
      → route_query a uri new ≡ ok (f ∷ fs)
      → f.id ≡ func
      → join_error new ≡ none
      → authorise a u uri new ≡ (next tt, new)
  authorise-portal_role_func_bind ctx role_param func_param role func db new u ur uri f fs laws
        table role_read func_read bind changed has found named joined =
      let bound =
        portal_role_func_bind-IsBoundIn rbac laws ctx role_param func_param db
          (λ same. changed (ap role_funcs.rows (sym bind) ∙ same)) in
      let same_role : bound.a ≡ role = ground (arith, bound.read_first, role_read) in
      let same_func : bound.b ≡ func = ground (arith, bound.read_second, func_read) in
      let of_pair : is_role_func role func bound.changed.row ≡ true =
        ap (λ n. is_role_func n func bound.changed.row) (sym same_role)
        ∙ ap (λ n. is_role_func bound.a n bound.changed.row) (sym same_func)
        ∙ bound.changed.of_pair in
      authorise-granted a u uri new f fs table joined found (
        joined-granted role func u.id ur bound.changed.row f (role_funcs.rows db)
          (role_funcs.rows new) (user_roles.rows new) of_pair
          (ap role_funcs.rows (sym bind) ∙ bound.changed.appended) named has)
