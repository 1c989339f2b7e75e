-- ===== src/Tests/People.antt =====
-- The users and departments on tables in memory.
use walletus.Base.{
  ℕ, String, map, none, some, List, [], ◌∷◌, Result, ok, err, ◌≡◌, ◌≢◌, refl, arith, find?, ap, ◌∙◌,
  Option, find?-holds, nat_eq,
}
use walletus.Base.Decimal.{Bytes, codes, parse_uint}
use walletus.Gorm.{Table, DbError, not_found, has_key}
use walletus.Gorm.Memory.{mem_table, mem_table-IsTable, mem_table-IsApart}
use walletus.Model.{
  PortalUser, PortalDept, PortalDeptUser, PortalUserWallet, user_key, user_wallet_key,
}
use walletus.People.{PeopleEnv, IsPeopleEnv, UserUpdateRequest, dept_key, dept_user_key}
use walletus.People.Deleted.{IsDeleted, portal_user_delete-IsDeleted}
use walletus.People.Handlers.{
  portal_user_delete, delete_user, portal_user_update, update_user, add_depts, in_tx, end_tx,
  commit,
}
use walletus.People.Updated.{IsUpdated, portal_user_update-IsUpdated}
use walletus.Web.{steps}

record PeopleDb : Type 0 where
  users : List PortalUser
  depts : List PortalDept
  dept_users : List PortalDeptUser
  user_wallets : List PortalUserWallet

abbrev users_in : Table PeopleDb PortalUser
users_in = mem_table user_key (λ d. d.users) (λ xs d. record d { users = xs })

abbrev dept_users_in : Table PeopleDb PortalDeptUser
dept_users_in = mem_table dept_user_key (λ d. d.dept_users) (λ xs d. record d { dept_users = xs })

abbrev user_wallets_in : Table PeopleDb PortalUserWallet
user_wallets_in =
    mem_table user_wallet_key (λ d. d.user_wallets) (λ xs d. record d { user_wallets = xs })

one_of : Option PortalUser → Result DbError PortalUser
one_of none = err not_found
one_of (some u) = ok u

with_id : Option ℕ → PeopleDb → Result DbError PortalUser
unfolding one_of
with_id none db = err not_found
with_id (some id) db = one_of (find? (has_key user_key id) (users_in.rows db))

-- A user by the digits of the ID.
user_by : Bytes → PeopleDb → Result DbError PortalUser
unfolding with_id
user_by text db = with_id (parse_uint 64 text) db

one_of-ok : (o : Option PortalUser) (u : PortalUser) → one_of o ≡ ok u → o ≡ some u
unfolding one_of
one_of-ok none u h = absurd (ground (arith, h))
one_of-ok (some v) u h = let e : v ≡ u = ground (arith, h) in ap (λ x. some x) e

with_id-found :
    (o : Option ℕ) (db : PeopleDb) (u : PortalUser)
    → with_id o db ≡ ok u
    → find? (has_key user_key u.id) (users_in.rows db) ≡ some u
unfolding with_id
with_id-found none db u h = absurd (ground (arith, h))
with_id-found (some id) db u h =
    let row = one_of-ok (find? (has_key user_key id) (users_in.rows db)) u h in
    let key =
      (nat_eq.decides u.id id).0 (find?-holds (has_key user_key id) (users_in.rows db) u row) in
    ap (λ k. find? (has_key user_key k) (users_in.rows db)) key ∙ row

abbrev env : PeopleEnv
env = record {
  Db = PeopleDb;
  users = users_in;
  depts = mem_table dept_key (λ d. d.depts) (λ xs d. record d { depts = xs });
  dept_users = dept_users_in;
  user_wallets = user_wallets_in;
  first_user_by = user_by;
  commit_error = λ db. none;
}

env-IsPeopleEnv : IsPeopleEnv env
unfolding user_by mem_table
env-IsPeopleEnv = record {
  users_table =
      mem_table-IsTable user_key (λ (d : PeopleDb). d.users) (λ xs d. record d { users = xs })
        (λ n r. refl) (λ xs db. refl);
  dept_users_table =
      mem_table-IsTable dept_user_key (λ (d : PeopleDb). d.dept_users)
        (λ xs d. record d { dept_users = xs }) (λ n r. refl) (λ xs db. refl);
  user_wallets_table =
      mem_table-IsTable user_wallet_key (λ (d : PeopleDb). d.user_wallets)
        (λ xs d. record d { user_wallets = xs }) (λ n r. refl) (λ xs db. refl);
  users_apart =
      mem_table-IsApart user_key (λ (d : PeopleDb). d.users) (λ xs d. record d { users = xs })
        dept_users_in (λ xs db. refl);
  users_apart_wallets =
      mem_table-IsApart user_key (λ (d : PeopleDb). d.users) (λ xs d. record d { users = xs })
        user_wallets_in (λ xs db. refl);
  dept_users_apart =
      mem_table-IsApart dept_user_key (λ (d : PeopleDb). d.dept_users)
        (λ xs d. record d { dept_users = xs }) users_in (λ xs db. refl);
  dept_users_apart_wallets =
      mem_table-IsApart dept_user_key (λ (d : PeopleDb). d.dept_users)
        (λ xs d. record d { dept_users = xs }) user_wallets_in (λ xs db. refl);
  user_wallets_apart =
      mem_table-IsApart user_wallet_key (λ (d : PeopleDb). d.user_wallets)
        (λ xs d. record d { user_wallets = xs }) users_in (λ xs db. refl);
  user_wallets_apart_depts =
      mem_table-IsApart user_wallet_key (λ (d : PeopleDb). d.user_wallets)
        (λ xs d. record d { user_wallets = xs }) dept_users_in (λ xs db. refl);
  found_by = λ text db {u} h. with_id-found (parse_uint 64 text) db u h;
}

abbrev bob : PortalUser
bob = record {
  id = 2;
  login_id = "bob";
  name = "Bob";
  email = "";
  password = "";
  add_time = 0;
  flag = 0;
  location = "";
  type = "common";
}

abbrev staffed : PeopleDb
staffed = record {
  users = bob ∷ [];
  depts = [];
  dept_users = record { id = 1; dept_id = 5; user_id = 2 } ∷ [];
  user_wallets = [];
}

unfoldable all : Unit {0}
unfolding mem_table steps user_by with_id one_of parse_uint portal_user_delete delete_user in_tx
    end_tx commit portal_user_update update_user add_depts
all = tt

differ : (portal_user_delete env (codes "2") staffed).1 ≢ staffed
unfolding all
differ same =
    let gone : [] ≡ record { id = 1; dept_id = 5; user_id = 2 } ∷ [] =
      ap (λ d. d.dept_users) same in
    ground (arith, gone)

portal_user_delete-IsDeleted_example :
    IsDeleted env env-IsPeopleEnv (codes "2") staffed (portal_user_delete env (codes "2") staffed).1
portal_user_delete-IsDeleted_example =
    portal_user_delete-IsDeleted env env-IsPeopleEnv (codes "2") staffed differ

abbrev moved : Result String UserUpdateRequest
moved = ok (record { id = 2; name = "Rob"; email = ""; location = ""; dept_ids = 7 ∷ 8 ∷ [] })

moves : (portal_user_update env moved staffed).1 ≢ staffed
unfolding all
moves same =
    let depts : 7 ∷ 8 ∷ [] ≡ 5 ∷ [] =
      ap (λ d. map (λ (x : PortalDeptUser). x.dept_id) d.dept_users) same in
    ground (arith, depts)

portal_user_update-IsUpdated_example :
    (req : UserUpdateRequest) × (moved ≡ ok req)
    × IsUpdated env env-IsPeopleEnv req staffed (portal_user_update env moved staffed).1
portal_user_update-IsUpdated_example =
    portal_user_update-IsUpdated env env-IsPeopleEnv moved staffed moves
