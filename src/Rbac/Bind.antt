-- ===== src/Rbac/Bind.antt =====
-- `PortalRoleFuncBind`, `PortalRoleUserBind`, `PortalRoleFuncUnbind` and `PortalRoleUserUnbind`.
use walletus.Base.{ℕ, String, ◌==◌, nat_eq}
use walletus.Base.Decimal.{Bytes}
use walletus.Gorm.{DbError, not_found, failed, has_key}
use walletus.Model.{role_key, func_key, user_key}
use walletus.Rbac.{RbacEnv, is_role_func, is_user_role}
use walletus.Web.{
  Action, Context, ◌>>=◌, ◌>>◌, answer, answer_if, path_id, require_login_id, or_answer,
  write_or_answer,
}
use walletus.Web.Codes.{success, err_obj_not_found, err_security, err_unknown}

-- `errors.Is(err, gorm.ErrRecordNotFound)`, or another error of the database.
abbrev first_error : ℕ → String → DbError → ℕ × String
first_error code msg not_found = (code, msg)
first_error code msg (failed text) = (err_unknown, "db error")

module _ (e : RbacEnv) where
  open e use {Db, roles, funcs, users, role_funcs, user_roles, bind_role_func, bind_user_role}

  unfoldable pub portal_role_func_bind : Context → Bytes → Bytes → Action Db (Unit {0}) (Unit {0})
  portal_role_func_bind ctx role_param func_param = do
    require_login_id tt ctx
    role_id ← path_id tt role_param err_unknown "invalid role_id"
    func_id ← path_id tt func_param err_unknown "invalid func_id"
    or_answer tt (roles.first (has_key role_key role_id))
        (first_error err_security "role not existing")
    or_answer tt (funcs.first (has_key func_key func_id))
        (first_error err_security "func not existing")
    write_or_answer tt (bind_role_func (record { id = 0; role_id = role_id; func_id = func_id }))
        (λ _. (err_unknown, "bind role & func failed"))
    answer success "success" tt

  unfoldable pub portal_role_user_bind : Context → Bytes → Bytes → Action Db (Unit {0}) (Unit {0})
  portal_role_user_bind ctx role_param user_param = do
    require_login_id tt ctx
    role_id ← path_id tt role_param err_unknown "invalid role_id"
    user_id ← path_id tt user_param err_unknown "invalid user_id"
    or_answer tt (roles.first (has_key role_key role_id))
        (first_error err_obj_not_found "role not existing")
    or_answer tt (users.first (has_key user_key user_id))
        (first_error err_obj_not_found "user not existing")
    write_or_answer tt (bind_user_role (record { id = 0; role_id = role_id; user_id = user_id }))
        (λ _. (err_unknown, "bind user & role failed"))
    answer success "success" tt

  unfoldable pub portal_role_func_unbind : Context → Bytes → Bytes → Action Db (Unit {0}) (Unit {0})
  portal_role_func_unbind ctx role_param func_param = do
    require_login_id tt ctx
    role_id ← path_id tt role_param err_unknown "invalid role_id"
    func_id ← path_id tt func_param err_unknown "invalid func_id"
    or_answer tt (roles.first (has_key role_key role_id))
        (first_error err_obj_not_found "role not existing")
    or_answer tt (funcs.first (has_key func_key func_id))
        (first_error err_obj_not_found "func not existing")
    rows_affected ←
        write_or_answer tt (role_funcs.delete (is_role_func role_id func_id))
          (λ _. (err_unknown, "unbind role & func failed"))
    answer_if tt (rows_affected == 0) err_obj_not_found "role & func not bound"
    answer success "success" tt

  unfoldable pub portal_role_user_unbind : Context → Bytes → Bytes → Action Db (Unit {0}) (Unit {0})
  portal_role_user_unbind ctx role_param user_param = do
    require_login_id tt ctx
    role_id ← path_id tt role_param err_unknown "invalid role_id"
    user_id ← path_id tt user_param err_unknown "invalid user_id"
    or_answer tt (roles.first (has_key role_key role_id))
        (first_error err_obj_not_found "role not existing")
    or_answer tt (users.first (has_key user_key user_id))
        (first_error err_obj_not_found "user not existing")
    rows_affected ←
        write_or_answer tt (user_roles.delete (is_user_role user_id role_id))
          (λ _. (err_unknown, "unbind user & role failed"))
    answer_if tt (rows_affected == 0) err_obj_not_found "user & role not bound"
    answer success "success" tt
