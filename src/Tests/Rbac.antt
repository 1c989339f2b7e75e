-- ===== src/Tests/Rbac.antt =====
-- Binding and unbinding on tables in memory.
use walletus.Base.{
  ℕ, Bool, none, some, List, [], ◌∷◌, Result, ok, ◌≡◌, ◌≢◌, refl, arith, find?, ap, length,
}
use walletus.Base.Decimal.{Bytes, codes, parse_uint}
use walletus.Gorm.{Table, Keyed, IsTable, DbError}
use walletus.Gorm.Memory.{mem_table, mem_table-IsTable}
use walletus.Model.{
  PortalRole, PortalFunc, PortalUser, PortalRoleFunc, PortalUserRole, role_key, func_key, user_key,
  role_func_key, user_role_key,
}
use walletus.Rbac.{RbacEnv, IsRbacEnv, IsInsertNew, is_role_func, is_user_role}
use walletus.Rbac.Bind.{
  portal_role_func_bind, portal_role_user_bind, portal_role_func_unbind, portal_role_user_unbind,
}
use walletus.Rbac.Pairs.{IsOfPair, IsBoundIn}
use walletus.Rbac.Bound.{
  portal_role_func_bind-IsBoundIn, portal_role_func_unbind-portal_role_func_bind,
}
use walletus.Tests.Memory.{alice, ctx}
use walletus.Web.{steps}

record RoleDb : Type 0 where
  roles : List PortalRole
  funcs : List PortalFunc
  users : List PortalUser
  role_funcs : List PortalRoleFunc
  user_roles : List PortalUserRole

-- `INSERT … ON CONFLICT DO NOTHING`
unfoldable pub insert_new :
    {Db Row : Type 0} → Table Db Row → (Row → Row → Bool) → Row → Db → Result DbError (Row × Db)
insert_new t p r db = elim (find? (p r) (t.rows db)) [ none ↦ t.create r db | some _ ↦ ok (r, db) ]

pub insert_new-IsInsertNew :
    {Db Row : Type 0} {k : Keyed Row} {t : Table Db Row} (p : Row → Row → Bool)
    → IsTable k t
    → IsInsertNew k t p (insert_new t p)
unfolding insert_new
insert_new-IsInsertNew p laws = record {
  inserts = λ r db h fresh. laws.create_rows r db (ground (arith, h, fresh));
  does_nothing = λ r db h found. ground (arith, h, found);
}

abbrev role_funcs_table : Table RoleDb PortalRoleFunc
role_funcs_table =
    mem_table role_func_key (λ d. d.role_funcs) (λ xs d. record d { role_funcs = xs })

abbrev user_roles_table : Table RoleDb PortalUserRole
user_roles_table =
    mem_table user_role_key (λ d. d.user_roles) (λ xs d. record d { user_roles = xs })

abbrev env : RbacEnv
env = record {
  Db = RoleDb;
  roles = mem_table role_key (λ d. d.roles) (λ xs d. record d { roles = xs });
  funcs = mem_table func_key (λ d. d.funcs) (λ xs d. record d { funcs = xs });
  users = mem_table user_key (λ d. d.users) (λ xs d. record d { users = xs });
  role_funcs = role_funcs_table;
  user_roles = user_roles_table;
  bind_role_func = insert_new role_funcs_table (λ r. is_role_func r.role_id r.func_id);
  bind_user_role = insert_new user_roles_table (λ r. is_user_role r.user_id r.role_id);
}

env-IsRbacEnv : IsRbacEnv env
env-IsRbacEnv =
    let t =
      mem_table-IsTable role_func_key (λ (d : RoleDb). d.role_funcs)
        (λ xs d. record d { role_funcs = xs }) (λ n r. refl) (λ xs db. refl) in
    let u =
      mem_table-IsTable user_role_key (λ (d : RoleDb). d.user_roles)
        (λ xs d. record d { user_roles = xs }) (λ n r. refl) (λ xs db. refl) in
    record {
      role_funcs_table = t;
      user_roles_table = u;
      role_funcs_unique = insert_new-IsInsertNew (λ r. is_role_func r.role_id r.func_id) t;
      user_roles_unique = insert_new-IsInsertNew (λ r. is_user_role r.user_id r.role_id) u;
    }

abbrev db₀ : RoleDb
db₀ = record {
  roles = record { id = 1; name = "admin"; desc = ""; add_time = 0; flag = 0 } ∷ [];
  funcs =
      record { id = 2; name = "pay"; flag = 0; res_uri = ""; perm_code = ""; type = ""; group = "" }
      ∷ [];
  users = alice ∷ [];
  role_funcs = [];
  user_roles = [];
}

abbrev one : Bytes
one = codes "1"

abbrev two : Bytes
two = codes "2"

unfoldable all : Unit {0}
unfolding mem_table steps insert_new parse_uint portal_role_func_bind portal_role_user_bind
    portal_role_func_unbind portal_role_user_unbind
all = tt

bound_to :
    {Row : Type 0} (xs : List Row) {ys : List Row} (n m : ℕ)
    → length xs ≡ n
    → length ys ≡ m
    → n ≢ m
    → xs ≢ ys
bound_to xs n m e e' h same = h (cc (e, e', ap length same))

func_bound :
    env.role_funcs.rows (portal_role_func_bind env ctx one two db₀).1 ≢ env.role_funcs.rows db₀
func_bound = bound_to _ 1 0 (unfold all in refl) (unfold all in refl) (omega arith)

portal_role_func_bind-IsBoundIn_example :
    IsOfPair is_role_func IsBoundIn one two
      (env.role_funcs.rows db₀)
      (env.role_funcs.rows (portal_role_func_bind env ctx one two db₀).1)
portal_role_func_bind-IsBoundIn_example =
    portal_role_func_bind-IsBoundIn env env-IsRbacEnv ctx one two db₀ func_bound

-- The function and the user are bound.
abbrev db₁ : RoleDb
db₁ = record db₀ {
  role_funcs = record { id = 1; role_id = 1; func_id = 2 } ∷ [];
  user_roles = record { id = 1; role_id = 1; user_id = 7 } ∷ [];
}

func_unbound_again :
    env.role_funcs.rows
      (portal_role_func_unbind env ctx one two (portal_role_func_bind env ctx one two db₀).1).1
    ≢ env.role_funcs.rows (portal_role_func_bind env ctx one two db₀).1
func_unbound_again = bound_to _ 0 1 (unfold all in refl) (unfold all in refl) (omega arith)

portal_role_func_unbind-portal_role_func_bind_example :
    env.role_funcs.rows
      (portal_role_func_unbind env ctx one two (portal_role_func_bind env ctx one two db₀).1).1
    ≡ env.role_funcs.rows db₀
portal_role_func_unbind-portal_role_func_bind_example =
    portal_role_func_unbind-portal_role_func_bind env env-IsRbacEnv ctx one two db₀ func_bound
      func_unbound_again
