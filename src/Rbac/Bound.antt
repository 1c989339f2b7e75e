-- ===== src/Rbac/Bound.antt =====
-- What binding and unbinding change.
use walletus.Base.{ℕ, ◌≡◌, ◌≢◌, refl, ok, nat_eq, arith, ◌==◌, ◌&&◌, true}
use walletus.Base.Decimal.{Bytes}
use walletus.Rbac.{RbacEnv, IsRbacEnv, is_role_func, is_user_role}
use walletus.Rbac.Bind.{
  portal_role_func_bind, portal_role_user_bind, portal_role_func_unbind, portal_role_user_unbind,
}
use walletus.Rbac.Pairs.{
  IsOfPair, IsBoundIn, IsUnboundIn, IsOfPair-inverse, insert-IsBoundIn, delete-IsUnboundIn,
}
use walletus.Web.{Context, Flow, answer, path_id, next}
use walletus.Web.Codes.{err_unknown}
use walletus.Web.Rules.{
  reader-rule, or_answer-rule, write_or_answer-rule, answer_if-rule, path_id-reads, path_id-next,
  require_login_id-reads,
}

same_pair : (a b : ℕ) → (a == a && b == b) ≡ true
same_pair a b = ground (arith, nat_eq.decides a a, nat_eq.decides b b)

module _ (e : RbacEnv) (laws : IsRbacEnv e) (ctx : Context) where
  open e use {Db, role_funcs, user_roles}

  abbrev Answer : Type 0
  Answer = Flow (Unit {0}) (Unit {0})

  -- A bind of a role and a function that changes the bindings adds one row for exactly the pair
  -- that the path names, which was not bound before.
  pub portal_role_func_bind-IsBoundIn :
      (role_param func_param : Bytes) (db : Db)
      → role_funcs.rows (portal_role_func_bind e ctx role_param func_param db).1
        ≢ role_funcs.rows db
      → IsOfPair is_role_func IsBoundIn role_param func_param
          (role_funcs.rows db)
          (role_funcs.rows (portal_role_func_bind e ctx role_param func_param db).1)
  unfolding portal_role_func_bind answer
  portal_role_func_bind-IsBoundIn role_param func_param db =
      let R = λ (x : Answer × Db).
        role_funcs.rows x.1 ≢ role_funcs.rows db
        → IsOfPair is_role_func IsBoundIn role_param func_param (role_funcs.rows db)
            (role_funcs.rows x.1) in
      let now : (x : Answer) → R (x, db) = λ x differs. absurd (differs refl) in
      reader-rule tt R db _ _ (require_login_id-reads tt ctx db) now λ u _.
        reader-rule tt R db _ _ (path_id-reads tt role_param _ _ db) now λ role read.
          reader-rule tt R db _ _ (path_id-reads tt func_param _ _ db) now λ func read'.
            or_answer-rule tt R db _ _ _ now λ r _. or_answer-rule tt R db _ _ _ now λ f _.
              write_or_answer-rule tt R db _ _ _ now λ row db' bound changed. record {
                a = role;
                b = func;
                read_first = path_id-next tt role_param _ _ db role read;
                read_second = path_id-next tt func_param _ _ db func read';
                changed =
                    insert-IsBoundIn (λ x. is_role_func x.role_id x.func_id) laws.role_funcs_unique
                      (record { id = 0; role_id = role; func_id = func }) row db db'
                      (λ n. same_pair role func) bound changed;
              }

  -- A bind of a role and a user that changes the bindings adds one row for exactly the pair
  -- that the path names, which was not bound before.
  pub portal_role_user_bind-IsBoundIn :
      (role_param user_param : Bytes) (db : Db)
      → user_roles.rows (portal_role_user_bind e ctx role_param user_param db).1
        ≢ user_roles.rows db
      → IsOfPair
          (λ role user. is_user_role user role)
          IsBoundIn
          role_param
          user_param
          (user_roles.rows db)
          (user_roles.rows (portal_role_user_bind e ctx role_param user_param db).1)
  unfolding portal_role_user_bind answer
  portal_role_user_bind-IsBoundIn role_param user_param db =
      let R = λ (x : Answer × Db).
        user_roles.rows x.1 ≢ user_roles.rows db
        → IsOfPair (λ role user. is_user_role user role) IsBoundIn role_param user_param
            (user_roles.rows db) (user_roles.rows x.1) in
      let now : (x : Answer) → R (x, db) = λ x differs. absurd (differs refl) in
      reader-rule tt R db _ _ (require_login_id-reads tt ctx db) now λ u _.
        reader-rule tt R db _ _ (path_id-reads tt role_param _ _ db) now λ role read.
          reader-rule tt R db _ _ (path_id-reads tt user_param _ _ db) now λ user read'.
            or_answer-rule tt R db _ _ _ now λ r _. or_answer-rule tt R db _ _ _ now λ f _.
              write_or_answer-rule tt R db _ _ _ now λ row db' bound changed. record {
                a = role;
                b = user;
                read_first = path_id-next tt role_param _ _ db role read;
                read_second = path_id-next tt user_param _ _ db user read';
                changed =
                    insert-IsBoundIn (λ x. is_user_role x.user_id x.role_id) laws.user_roles_unique
                      (record { id = 0; role_id = role; user_id = user }) row db db'
                      (λ n. same_pair user role) bound changed;
              }

  -- An unbind of a role and a function that changes the bindings removes exactly the rows of the pair
  -- that the path names, which was bound before.
  pub portal_role_func_unbind-IsUnboundIn :
      (role_param func_param : Bytes) (db : Db)
      → role_funcs.rows (portal_role_func_unbind e ctx role_param func_param db).1
        ≢ role_funcs.rows db
      → IsOfPair is_role_func IsUnboundIn role_param func_param
          (role_funcs.rows db)
          (role_funcs.rows (portal_role_func_unbind e ctx role_param func_param db).1)
  unfolding portal_role_func_unbind answer
  portal_role_func_unbind-IsUnboundIn role_param func_param db =
      let R = λ (x : Answer × Db).
        role_funcs.rows x.1 ≢ role_funcs.rows db
        → IsOfPair is_role_func IsUnboundIn role_param func_param (role_funcs.rows db)
            (role_funcs.rows x.1) in
      let now : (x : Answer) → R (x, db) = λ x differs. absurd (differs refl) in
      let unbound : (role func : ℕ)
          → (path_id tt role_param err_unknown "invalid role_id" db).0 ≡ next role
          → (path_id tt func_param err_unknown "invalid func_id" db).0 ≡ next func
          → (n : ℕ) (db' : Db) → role_funcs.delete (is_role_func role func) db ≡ ok (n, db')
          → role_funcs.rows db' ≢ role_funcs.rows db
          → IsOfPair is_role_func IsUnboundIn role_param func_param (role_funcs.rows db)
              (role_funcs.rows db') =
        λ role func read read' n db' deleted changed. record {
          a = role;
          b = func;
          read_first = path_id-next tt role_param _ _ db role read;
          read_second = path_id-next tt func_param _ _ db func read';
          changed =
              delete-IsUnboundIn (is_role_func role func) laws.role_funcs_table db db' n deleted
                changed;
        } in
      reader-rule tt R db _ _ (require_login_id-reads tt ctx db) now λ u _.
        reader-rule tt R db _ _ (path_id-reads tt role_param _ _ db) now λ role read.
          reader-rule tt R db _ _ (path_id-reads tt func_param _ _ db) now λ func read'.
            or_answer-rule tt R db _ _ _ now λ r _. or_answer-rule tt R db _ _ _ now λ f _.
              write_or_answer-rule tt R db _ _ _ now λ n db' deleted.
                answer_if-rule tt R db' _ _ _ _
                  (λ _ changed. unbound role func read read' n db' deleted changed)
                  λ _ changed. unbound role func read read' n db' deleted changed

  -- An unbind of a role and a user that changes the bindings removes exactly the rows of the pair
  -- that the path names, which was bound before.
  pub portal_role_user_unbind-IsUnboundIn :
      (role_param user_param : Bytes) (db : Db)
      → user_roles.rows (portal_role_user_unbind e ctx role_param user_param db).1
        ≢ user_roles.rows db
      → IsOfPair
          (λ role user. is_user_role user role)
          IsUnboundIn
          role_param
          user_param
          (user_roles.rows db)
          (user_roles.rows (portal_role_user_unbind e ctx role_param user_param db).1)
  unfolding portal_role_user_unbind answer
  portal_role_user_unbind-IsUnboundIn role_param user_param db =
      let R = λ (x : Answer × Db).
        user_roles.rows x.1 ≢ user_roles.rows db
        → IsOfPair (λ role user. is_user_role user role) IsUnboundIn role_param user_param
            (user_roles.rows db) (user_roles.rows x.1) in
      let now : (x : Answer) → R (x, db) = λ x differs. absurd (differs refl) in
      let unbound : (role user : ℕ)
          → (path_id tt role_param err_unknown "invalid role_id" db).0 ≡ next role
          → (path_id tt user_param err_unknown "invalid user_id" db).0 ≡ next user
          → (n : ℕ) (db' : Db) → user_roles.delete (is_user_role user role) db ≡ ok (n, db')
          → user_roles.rows db' ≢ user_roles.rows db
          → IsOfPair (λ role user. is_user_role user role) IsUnboundIn role_param user_param
              (user_roles.rows db) (user_roles.rows db') =
        λ role user read read' n db' deleted changed. record {
          a = role;
          b = user;
          read_first = path_id-next tt role_param _ _ db role read;
          read_second = path_id-next tt user_param _ _ db user read';
          changed =
              delete-IsUnboundIn (is_user_role user role) laws.user_roles_table db db' n deleted
                changed;
        } in
      reader-rule tt R db _ _ (require_login_id-reads tt ctx db) now λ u _.
        reader-rule tt R db _ _ (path_id-reads tt role_param _ _ db) now λ role read.
          reader-rule tt R db _ _ (path_id-reads tt user_param _ _ db) now λ user read'.
            or_answer-rule tt R db _ _ _ now λ r _. or_answer-rule tt R db _ _ _ now λ f _.
              write_or_answer-rule tt R db _ _ _ now λ n db' deleted.
                answer_if-rule tt R db' _ _ _ _
                  (λ _ changed. unbound role user read read' n db' deleted changed)
                  λ _ changed. unbound role user read read' n db' deleted changed

  -- A function that is bound to a role and then unbound from it by the same path leaves the table
  -- of the bindings as it was, if both calls have changed it.
  pub portal_role_func_unbind-portal_role_func_bind :
      (role_param func_param : Bytes) (db : Db)
      → role_funcs.rows (portal_role_func_bind e ctx role_param func_param db).1
        ≢ role_funcs.rows db
      → role_funcs.rows
          (portal_role_func_unbind e ctx role_param func_param
            (portal_role_func_bind e ctx role_param func_param db).1).1
        ≢ role_funcs.rows (portal_role_func_bind e ctx role_param func_param db).1
      → role_funcs.rows
          (portal_role_func_unbind e ctx role_param func_param
            (portal_role_func_bind e ctx role_param func_param db).1).1
        ≡ role_funcs.rows db
  portal_role_func_unbind-portal_role_func_bind role_param func_param db bound unbound =
      IsOfPair-inverse is_role_func role_param func_param _ _ _
        (portal_role_func_bind-IsBoundIn role_param func_param db bound)
        (portal_role_func_unbind-IsUnboundIn role_param func_param _ unbound)
