-- ===== src/Tests/Granted.antt =====
-- A bind on tables in memory, and a request that it lets through.
use walletus.Access.Granted.{rbac, authorise-portal_role_func_bind}
use walletus.Access.Tokens.{authorise}
use walletus.Base.{[], ◌≡◌, ◌≢◌, refl, arith, ap, length}
use walletus.Base.Decimal.{codes}
use walletus.Gorm.Memory.{mem_table, mem_table-IsTable}
use walletus.Model.{role_key, func_key, role_func_key, user_role_key}
use walletus.Rbac.{RbacEnv, IsRbacEnv, is_role_func, is_user_role}
use walletus.Rbac.Bind.{portal_role_func_bind}
use walletus.Tests.Access.{AccessDb, env, bob, req, staffed, passing}
use walletus.Tests.Memory.{ctx}
use walletus.Tests.Rbac.{insert_new, insert_new-IsInsertNew}
use walletus.Web.{next}

abbrev bindings : RbacEnv
bindings =
    rbac env (mem_table role_key (λ d. d.roles) (λ xs d. record d { roles = xs }))
      (insert_new env.role_funcs (λ r. is_role_func r.role_id r.func_id))
      (insert_new env.user_roles (λ r. is_user_role r.user_id r.role_id))

bindings-IsRbacEnv : IsRbacEnv bindings
bindings-IsRbacEnv =
    let t =
      mem_table-IsTable role_func_key (λ (d : AccessDb). d.role_funcs)
        (λ xs d. record d { role_funcs = xs }) (λ n r. refl) (λ xs db. refl) in
    let u =
      mem_table-IsTable user_role_key (λ (d : AccessDb). d.user_roles)
        (λ xs d. record d { user_roles = xs }) (λ n r. refl) (λ xs db. refl) in
    record {
      role_funcs_table = t;
      user_roles_table = u;
      role_funcs_unique = insert_new-IsInsertNew (λ r. is_role_func r.role_id r.func_id) t;
      user_roles_unique = insert_new-IsInsertNew (λ r. is_user_role r.user_id r.role_id) u;
    }

-- Bob's role has no function, and then that of the dashboard.
abbrev unbound : AccessDb
unbound = record staffed { role_funcs = [] }

unfoldable all : Unit {0}
unfolding passing insert_new portal_role_func_bind
all = tt

bound : (portal_role_func_bind bindings ctx (codes "3") (codes "5") unbound).1 ≡ staffed
unfolding all
bound = refl

one_more : env.role_funcs.rows staffed ≢ env.role_funcs.rows unbound
unfolding all
one_more same = let e : 1 ≡ 0 = ap length same in omega (arith, e)

authorise-portal_role_func_bind_example : authorise env bob req.uri staffed ≡ (next tt, staffed)
authorise-portal_role_func_bind_example =
    authorise-portal_role_func_bind env bindings.roles bindings.bind_role_func
      bindings.bind_user_role ctx (codes "3") (codes "5") 3 5 unbound staffed bob
      (record { id = 1; role_id = 3; user_id = 2 }) req.uri
      (record {
        id = 5;
        name = "";
        flag = 0;
        res_uri = "/admin/portal/dashboard";
        perm_code = "dashboard";
        type = "menu";
        group = "";
      })
      [] bindings-IsRbacEnv
      (mem_table-IsTable func_key (λ (d : AccessDb). d.funcs) (λ xs d. record d { funcs = xs })
        (λ n r. refl) (λ xs db. refl))
      (unfold all in refl) (unfold all in refl) bound one_more (unfold all in refl)
      (unfold all in refl) refl refl
