-- ===== src/People/Handlers.antt =====
-- `PortalDeptCreate`, `PortalDeptUpdate`, `PortalDeptDelete`, `PortalUserUpdate`, `PortalUserAdd`,
-- `PortalUserDelete` and `PortalUserPasswordReset`.
use Prim.Native.String.{◌++◌}
use walletus.Base.{
  ℕ, String, Option, none, some, List, [], ◌∷◌, Result, ok, err, ◌==◌, not, nat_eq, string_eq,
}
use walletus.Base.Decimal.{Bytes}
use walletus.Gorm.{DbError, has_key}
use walletus.Model.{PortalDept, user_key}
use walletus.People.{
  PeopleEnv, dept_key, DeptCreateRequest, DeptUpdateRequest, UserAddRequest, UserUpdateRequest,
  PasswordResetRequest,
}
use walletus.Web.{
  Action, Flow, next, reply, panic, Context, ◌>>=◌, ◌>>◌, pure, answer, answer_if, bind_json,
  or_answer, write_or_answer, find_or_nil, error_text,
}
use walletus.Web.Codes.{success, err_exist_obj, err_status_general}

abbrev invalid_request : String → String
invalid_request text = "invalid request: " ++ text

-- An error of the database behind a text.
abbrev general : String → DbError → ℕ × String
general text x = (err_status_general, text ++ error_text x)

-- The row that `Find` has put into a variable, which else keeps its zero value: its ID is 0.
abbrev pub found_dept : List PortalDept → PortalDept
found_dept [] = record { id = 0; name = ""; desc = ""; add_time = 0; flag = 0; status = "" }
found_dept (d ∷ ds) = d

module _ (e : PeopleEnv) where
  open e use {Db, users, depts, dept_users, user_wallets, first_user_by, commit_error}

  abbrev pub Step : Type 0 → Type 0
  Step A = Action Db (Unit {0}) A

  -- The end of a transaction: an answer comes after `Rollback`; else `Commit`, whose error is ignored.
  unfoldable pub commit : {A : Type 0} → A → Db → Db → Option String → Flow (Unit {0}) A × Db
  commit a db new none = (next a, new)
  commit a db new (some text) = (next a, db)

  unfoldable pub end_tx : {A : Type 0} → Db → Flow (Unit {0}) A × Db → Flow (Unit {0}) A × Db
  unfolding commit
  end_tx db (next a, new) = commit a db new (commit_error new)
  end_tx db (reply res, new) = (reply res, db)
  end_tx db (panic, new) = (panic, db)

  unfoldable pub in_tx : {A : Type 0} → Step A → Step A
  unfolding end_tx
  in_tx body db = end_tx db (body db)

  -- `db.Save(&portalDept)` with the error ignored.
  unfoldable pub save_dept : PortalDept → Step (Unit {0})
  save_dept d db = elim (depts.save d db) [ ok (row, new) ↦ (next tt, new) | err x ↦ (next tt, db) ]

  unfoldable pub portal_dept_create : Context → Result String DeptCreateRequest → Step (Unit {0})
  portal_dept_create ctx bound = do
    request ← bind_json tt bound (λ _. "invalid request")
    rows ← find_or_nil tt (depts.find (λ d. d.name == request.name))
    answer_if tt (not ((found_dept rows).id == 0)) err_exist_obj "portal dept already existing"
    write_or_answer tt
        (depts.create (record {
          id = 0;
          name = request.name;
          desc = request.desc;
          add_time = ctx.now;
          flag = 0;
          status = "active";
        }))
        (general "portal dept create error:")
    answer success "success" tt

  unfoldable pub portal_dept_update : Result String DeptUpdateRequest → Step (Unit {0})
  portal_dept_update bound = do
    request ← bind_json tt bound invalid_request
    rows ← find_or_nil tt (depts.find (has_key dept_key request.id))
    answer_if tt ((found_dept rows).id == 0) err_exist_obj "portal dept not existing"
    save_dept (record (found_dept rows) { name = request.name; desc = request.desc })
    answer success "success" tt

  unfoldable pub portal_dept_delete : Result String ℕ → Step (Unit {0})
  portal_dept_delete bound = do
    id ← bind_json tt bound invalid_request
    rows ← find_or_nil tt (depts.find (has_key dept_key id))
    answer_if tt ((found_dept rows).id == 0) err_exist_obj "portal dept not existing"
    save_dept (record (found_dept rows) { flag = 1; status = "deleted" })
    answer success "success" tt

  -- The loop that inserts the new associations.
  unfoldable pub add_depts : ℕ → List ℕ → Step (Unit {0})
  add_depts user_id [] = pure tt
  add_depts user_id (dept_id ∷ dept_ids) = do
    write_or_answer tt (dept_users.create (record { id = 0; dept_id = dept_id; user_id = user_id }))
        (general "failed to add department: ")
    add_depts user_id dept_ids

  -- The transaction of `PortalUserUpdate`.
  unfoldable pub update_user : UserUpdateRequest → Step (Unit {0})
  update_user req = do
    user ←
        or_answer tt (users.first (has_key user_key req.id))
          (λ _. (err_exist_obj, "user not found"))
    write_or_answer tt
        (users.save (record user { name = req.name; email = req.email; location = req.location }))
        (general "failed to update user: ")
    write_or_answer tt (dept_users.delete (λ x. x.user_id == user.id))
        (general "failed to clear old departments: ")
    add_depts user.id req.dept_ids

  unfoldable pub portal_user_update : Result String UserUpdateRequest → Step (Unit {0})
  unfolding update_user
  portal_user_update bound = do
    req ← bind_json tt bound invalid_request
    in_tx (update_user req)
    answer success "success" tt

  unfoldable pub portal_user_add : Context → Result String UserAddRequest → Step (Unit {0})
  portal_user_add ctx bound = do
    req ← bind_json tt bound invalid_request
    in_tx (do
      user ←
          write_or_answer tt
            (users.save (record {
              id = 0;
              login_id = req.login_id;
              name = req.name;
              email = req.email;
              password = req.password;
              add_time = ctx.now;
              flag = 0;
              location = req.location;
              type = "common";
            }))
            (general "failed to update user: ")
      add_depts user.id req.dept_ids)
    answer success "success" tt

  -- The transaction of `PortalUserDelete`.
  unfoldable pub delete_user : Bytes → Step (Unit {0})
  delete_user user_param = do
    user ← or_answer tt (first_user_by user_param) (general "failed to find user: ")
    answer_if tt (user.type == "super_admin") err_status_general "super admin cannot be deleted"
    write_or_answer tt (dept_users.delete (λ x. x.user_id == user.id))
        (general "failed to clear old departments: ")
    write_or_answer tt (users.save (record user { flag = 1 })) (general "failed to delete user: ")
    write_or_answer tt (user_wallets.delete (λ x. x.user_id == user.id))
        (general "failed to delete user wallet: ")
    pure tt

  unfoldable pub portal_user_delete : Bytes → Step (Unit {0})
  unfolding delete_user
  portal_user_delete user_param = do in_tx (delete_user user_param); answer success "success" tt

  unfoldable pub portal_user_password_reset : Result String PasswordResetRequest → Step (Unit {0})
  portal_user_password_reset bound = do
    req ← bind_json tt bound invalid_request
    user ← or_answer tt (users.first (has_key user_key req.id)) (general "failed to find user: ")
    write_or_answer tt (users.save (record user { password = req.password }))
        (general "failed to update user: ")
    answer success "success" tt
