-- ===== src/People/Deleted.antt =====
-- What deleting a user changes.
use walletus.Base.{
  ℕ, false, ok, ◌≡◌, ◌≢◌, ap, sym, ◌∙◌, arith, ◌==◌, nat_eq, string_eq, string_ne, reject, find?,
}
use mathlib.Core.Path.{subst}
use walletus.Base.Decimal.{Bytes}
use walletus.Gorm.{has_key, replace}
use walletus.Model.{PortalUser, user_key}
use walletus.People.{PeopleEnv, IsPeopleEnv}
use walletus.People.Handlers.{end_tx, in_tx, delete_user, portal_user_delete}
use walletus.People.Ended.{end_tx-changed, after_tx}
use walletus.Web.{next, steps, pure}
use walletus.Web.Ended.{>>=-next, or_answer-next, write_or_answer-next, answer_if-next}

module _ (e : PeopleEnv) (laws : IsPeopleEnv e) where
  open e use {Db, users, dept_users, user_wallets}

  -- A user has been deleted: the row stays with its flag set, and the departments and wallets of the
  -- user are gone; nothing else of the three tables changes.
  pub record IsDeleted (user_param : Bytes) (before new : Db) : Type 0 where
    pub user : PortalUser
    pub named : e.first_user_by user_param before ≡ ok user
    pub not_super : user.type ≢ "super_admin"
    pub flagged : users.rows new ≡ replace user_key (record user { flag = 1 }) (users.rows before)
    pub no_depts : dept_users.rows new ≡ reject (λ x. x.user_id == user.id) (dept_users.rows before)
    pub no_wallets :
        user_wallets.rows new ≡ reject (λ x. x.user_id == user.id) (user_wallets.rows before)

  -- The three writes, one after the other.
  writes-IsDeleted :
      (user_param : Bytes) (u row : PortalUser) (n m : ℕ) (db d₁ d₂ d₃ : Db)
      → e.first_user_by user_param db ≡ ok u
      → (u.type == "super_admin") ≡ false
      → dept_users.delete (λ x. x.user_id == u.id) db ≡ ok (n, d₁)
      → users.save (record u { flag = 1 }) d₁ ≡ ok (row, d₂)
      → user_wallets.delete (λ x. x.user_id == u.id) d₂ ≡ ok (m, d₃)
      → IsDeleted user_param db d₃
  writes-IsDeleted user_param u row n m db d₁ d₂ d₃ found plain cleared saved removed =
      let same_users = laws.dept_users_apart.delete_apart _ db cleared in
      let old = ap (find? (has_key user_key u.id)) same_users ∙ laws.found_by user_param db found in
      record {
        user = u;
        named = found;
        not_super = string_ne u.type "super_admin" plain;
        flagged =
            laws.user_wallets_apart.delete_apart _ d₂ removed
            ∙ (laws.users_table.save_rows (record u { flag = 1 }) d₁ old saved).1
            ∙ ap (replace user_key (record u { flag = 1 })) same_users;
        no_depts =
            laws.user_wallets_apart_depts.delete_apart _ d₂ removed
            ∙ laws.users_apart.save_apart _ d₁ saved
            ∙ (laws.dept_users_table.delete_rows _ db cleared).1;
        no_wallets =
            (laws.user_wallets_table.delete_rows _ d₂ removed).1
            ∙ ap (reject (λ x. x.user_id == u.id)) (
                laws.users_apart_wallets.save_apart _ d₁ saved
                ∙ laws.dept_users_apart_wallets.delete_apart _ db cleared);
      }

  delete_user-IsDeleted :
      (user_param : Bytes) (db new : Db) (t : Unit {0})
      → delete_user e user_param db ≡ (next t, new)
      → IsDeleted user_param db new
  unfolding delete_user pure
  delete_user-IsDeleted user_param db new t h =
      let (u, d₁, r₁, h₁) = >>=-next _ _ db t new h in
      let (found, s₁) = or_answer-next tt _ _ db d₁ u r₁ in
      let (_, d₂, r₂, h₂) = >>=-next _ _ d₁ t new h₁ in
      let (plain, s₂) = answer_if-next tt _ _ _ d₁ d₂ _ r₂ in
      let (n, d₃, r₃, h₃) = >>=-next _ _ d₂ t new h₂ in
      let cleared = write_or_answer-next tt _ _ d₂ d₃ n r₃ in
      let (row, d₄, r₄, h₄) = >>=-next _ _ d₃ t new h₃ in
      let saved = write_or_answer-next tt _ _ d₃ d₄ row r₄ in
      let (m, d₅, r₅, h₅) = >>=-next _ _ d₄ t new h₄ in
      let removed = write_or_answer-next tt _ _ d₄ d₅ m r₅ in
      let last : d₅ ≡ new = ground (arith, h₅) in
      let same = sym (s₁ ∙ s₂) in
      subst (IsDeleted user_param db) last (
        writes-IsDeleted user_param u row n m db d₃ d₄ d₅ found plain
          (subst (λ d. dept_users.delete (λ x. x.user_id == u.id) d ≡ ok (n, d₃)) same cleared)
          saved removed)

  -- A deletion of a user that changes the database was asked for a user whom the path finds and who
  -- is no super admin; the user's row stays with its flag set, the user's departments and wallets are
  -- removed, and nothing else of these tables changes.
  pub portal_user_delete-IsDeleted :
      (user_param : Bytes) (db : Db)
      → (portal_user_delete e user_param db).1 ≢ db
      → IsDeleted user_param db (portal_user_delete e user_param db).1
  unfolding portal_user_delete in_tx steps
  portal_user_delete-IsDeleted user_param db differs =
      let body = delete_user e user_param db in
      let ended = end_tx e db body in
      let same : (portal_user_delete e user_param db).1 ≡ ended.1 = after_tx e ended in
      let (t, whole) = end_tx-changed e db body (λ kept. differs (same ∙ kept)) in
      subst (IsDeleted user_param db) (sym same)
        (delete_user-IsDeleted user_param db ended.1 t whole)
