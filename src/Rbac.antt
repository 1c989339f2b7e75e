-- ===== src/Rbac.antt =====
-- Roles, and what they are bound to: cmd/modapi/http/portal/rbac.go.
pub mod Bind
pub mod Pairs
pub mod Bound
use walletus.Base.{ℕ, Bool, none, some, ok, ◌≡◌, ◌&&◌, ◌==◌, nat_eq, Result, find?}
use walletus.Gorm.{DbError, Table, Keyed, IsTable, IsInserted}
use walletus.Model.{
  PortalRole, PortalFunc, PortalUser, PortalRoleFunc, PortalUserRole, role_func_key, user_role_key,
}

-- The tables, and `db.Clauses(clause.OnConflict{…, DoNothing: true}).Create` on those of the pairs.
pub record RbacEnv : Type 1 where
  pub Db : Type 0
  pub roles : Table Db PortalRole
  pub funcs : Table Db PortalFunc
  pub users : Table Db PortalUser
  pub role_funcs : Table Db PortalRoleFunc
  pub user_roles : Table Db PortalUserRole
  pub bind_role_func : PortalRoleFunc → Db → Result DbError (PortalRoleFunc × Db)
  pub bind_user_role : PortalUserRole → Db → Result DbError (PortalUserRole × Db)

-- The columns of the two unique indexes.
abbrev pub is_role_func : ℕ → ℕ → PortalRoleFunc → Bool
is_role_func role func x = x.role_id == role && x.func_id == func

abbrev pub is_user_role : ℕ → ℕ → PortalUserRole → Bool
is_user_role user role x = x.user_id == user && x.role_id == role

-- An insert that does nothing where a row of the same columns, tested by `p`, is there.
pub record IsInsertNew {Db Row : Type 0} (k : Keyed Row) (t : Table Db Row) (p : Row → Row → Bool)
    (insert : Row → Db → Result DbError (Row × Db)) : Type 0 where
  pub inserts :
      (r : Row) (db : Db) {r' : Row} {db' : Db}
      → insert r db ≡ ok (r', db')
      → find? (p r) (t.rows db) ≡ none
      → IsInserted k r r' (t.rows db) (t.rows db')
  pub does_nothing :
      (r : Row) (db : Db) {x r' : Row} {db' : Db}
      → insert r db ≡ ok (r', db')
      → find? (p r) (t.rows db) ≡ some x
      → t.rows db' ≡ t.rows db

-- What the handlers of this file rely on of the database.
pub record IsRbacEnv (e : RbacEnv) : Type 0 where
  pub role_funcs_table : IsTable role_func_key e.role_funcs
  pub user_roles_table : IsTable user_role_key e.user_roles
  pub role_funcs_unique :
      IsInsertNew role_func_key e.role_funcs
        (λ r. is_role_func r.role_id r.func_id)
        e.bind_role_func
  pub user_roles_unique :
      IsInsertNew user_role_key e.user_roles
        (λ r. is_user_role r.user_id r.role_id)
        e.bind_user_role
