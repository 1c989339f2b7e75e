-- ===== src/People.antt =====
-- The users and departments of the portal: the handlers of cmd/modapi/http/portal/admin.go that change
-- them. They do not look at the logged-in user themselves.
pub mod Handlers
pub mod Ended
pub mod Deleted
pub mod Updated
use walletus.Base.{
  ℕ, String, Option, none, some, Bool, List, [], ◌∷◌, Result, ok, err, ◌≡◌, ◌==◌, nat_eq, string_eq,
  find?,
}
use walletus.Base.Decimal.{Bytes}
use walletus.Gorm.{DbError, Table, Keyed, IsTable, IsApart, has_key}
use walletus.Model.{
  PortalUser, PortalDept, PortalDeptUser, PortalUserWallet, user_key, user_wallet_key,
}

abbrev pub dept_user_key : Keyed PortalDeptUser
dept_user_key = record { key = λ x. x.id; with_key = λ n x. record x { id = n } }

abbrev pub dept_key : Keyed PortalDept
dept_key = record { key = λ x. x.id; with_key = λ n x. record x { id = n } }

pub record DeptCreateRequest : Type 0 where
  pub name : String
  pub desc : String

pub record DeptUpdateRequest : Type 0 where
  pub id : ℕ
  pub name : String
  pub desc : String

pub record UserAddRequest : Type 0 where
  pub name : String
  pub login_id : String
  pub email : String
  pub location : String
  pub dept_ids : List ℕ
  pub password : String

pub record UserUpdateRequest : Type 0 where
  pub id : ℕ
  pub name : String
  pub email : String
  pub location : String
  pub dept_ids : List ℕ

pub record PasswordResetRequest : Type 0 where
  pub id : ℕ
  pub password : String

-- The tables, the error of a transaction's commit, and `First(&user, text)`, of which gorm makes a
-- key for a text of digits and a condition for another text.
pub record PeopleEnv : Type 1 where
  pub Db : Type 0
  pub users : Table Db PortalUser
  pub depts : Table Db PortalDept
  pub dept_users : Table Db PortalDeptUser
  pub user_wallets : Table Db PortalUserWallet
  pub first_user_by : Bytes → Db → Result DbError PortalUser
  pub commit_error : Db → Option String

-- What the handlers rely on of the database.
pub record IsPeopleEnv (e : PeopleEnv) : Type 0 where
  pub users_table : IsTable user_key e.users
  pub dept_users_table : IsTable dept_user_key e.dept_users
  pub user_wallets_table : IsTable user_wallet_key e.user_wallets
  pub users_apart : IsApart e.users e.dept_users
  pub users_apart_wallets : IsApart e.users e.user_wallets
  pub dept_users_apart : IsApart e.dept_users e.users
  pub dept_users_apart_wallets : IsApart e.dept_users e.user_wallets
  pub user_wallets_apart : IsApart e.user_wallets e.users
  pub user_wallets_apart_depts : IsApart e.user_wallets e.dept_users
  -- the user that a text finds is the row with its key
  pub found_by :
      (text : Bytes) (db : e.Db) {u : PortalUser}
      → e.first_user_by text db ≡ ok u
      → find? (has_key user_key u.id) (e.users.rows db) ≡ some u
