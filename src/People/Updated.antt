-- ===== src/People/Updated.antt =====
-- What updating a user changes.
use walletus.Base.{
  ℕ, String, Bool, true, some, List, [], ◌∷◌, ◌++◌, map, map-append, Result, ok, err, ◌≡◌, ◌≢◌,
  refl, ap, sym, ◌∙◌, arith, ◌==◌, nat_eq, select, reject, select-append, reject-append,
  select-reject, reject-reject, find?, append-nil, append_assoc, find?-holds,
}
use mathlib.Core.Path.{subst}
use walletus.Gorm.{has_key, replace, IsInserted}
use walletus.Model.{PortalUser, PortalDeptUser, user_key}
use walletus.People.{PeopleEnv, IsPeopleEnv, UserUpdateRequest, dept_user_key}
use walletus.People.Ended.{end_tx-changed, after_tx}
use walletus.People.Handlers.{end_tx, in_tx, add_depts, update_user, portal_user_update}
use walletus.Web.{next, steps, pure}
use walletus.Web.Ended.{>>=-next, or_answer-next, write_or_answer-next}

module _ {A : Type 0} (p : A → Bool) (x : A) (own : p x ≡ true) where
  select-one : select p (x ∷ []) ≡ x ∷ []
  select-one = rw own refl

  reject-one : reject p (x ∷ []) ≡ []
  reject-one = rw own refl

-- The departments of a user, in the order of the table.
abbrev pub depts_of : ℕ → List PortalDeptUser → List ℕ
depts_of user rows = map (λ x. x.dept_id) (select (λ x. x.user_id == user) rows)

-- The rows of the other users.
abbrev pub others : ℕ → List PortalDeptUser → List PortalDeptUser
others user rows = reject (λ x. x.user_id == user) rows

module _ (e : PeopleEnv) (laws : IsPeopleEnv e) where
  open e use {Db, users, dept_users}

  -- One inserted association.
  inserted-depts :
      (user dept : ℕ) (row : PortalDeptUser) (xs ys : List PortalDeptUser)
      → IsInserted dept_user_key (record { id = 0; dept_id = dept; user_id = user }) row xs ys
      → (depts_of user ys ≡ (depts_of user xs ++ dept ∷ [])) × (others user ys ≡ others user xs)
  inserted-depts user dept row xs ys h =
      let p : PortalDeptUser → Bool = λ x. x.user_id == user in
      let f : PortalDeptUser → ℕ = λ x. x.dept_id in
      let own : p row ≡ true = ap p h.same ∙ (nat_eq.decides user user).1 refl in
      let dept_is : row.dept_id ≡ dept = ap f h.same in
      (
        ap (depts_of user) h.appended
            ∙ ap (map f)
                (select-append p xs (row ∷ []) ∙ ap (λ l. select p xs ++ l) (select-one p row own))
            ∙ map-append f (select p xs) (row ∷ [])
            ∙ ap (λ d. depts_of user xs ++ d ∷ []) dept_is,
        ap (others user) h.appended
            ∙ reject-append p xs (row ∷ [])
            ∙ ap (λ l. reject p xs ++ l) (reject-one p row own)
            ∙ append-nil (reject p xs),
      )

  -- The loop of the associations, when none of its inserts fails.
  add_depts-lem :
      (user : ℕ) (dept_ids : List ℕ) (db new : Db) (t : Unit {0})
      → add_depts e user dept_ids db ≡ (next t, new)
      → (depts_of user (dept_users.rows new) ≡ (depts_of user (dept_users.rows db) ++ dept_ids))
        × (others user (dept_users.rows new) ≡ others user (dept_users.rows db))
  unfolding add_depts pure
  add_depts-lem user [] db new t h =
      let same : db ≡ new = ground (arith, h) in
      (
        ap (λ d. depts_of user (dept_users.rows d)) (sym same)
            ∙ sym (append-nil (depts_of user (dept_users.rows db))),
        ap (λ d. others user (dept_users.rows d)) (sym same),
      )
  add_depts-lem user (dept ∷ depts) db new t h =
      let (row, mid, r₁, h₁) = >>=-next _ _ db t new h in
      let created = write_or_answer-next tt _ _ db mid row r₁ in
      let (own, rest) =
        inserted-depts user dept row (dept_users.rows db) (dept_users.rows mid)
          (laws.dept_users_table.create_rows _ db created) in
      let (all, kept) = add_depts-lem user depts mid new t h₁ in
      (
        all
            ∙ ap (λ l. l ++ depts) own
            ∙ append_assoc (depts_of user (dept_users.rows db)) (dept ∷ []) depts,
        kept ∙ rest,
      )

  -- A user has been updated: the row has the name, address and place of the request, the departments
  -- are those of the request, in its order, and the other users keep theirs.
  pub record IsUpdated (req : UserUpdateRequest) (before new : Db) : Type 0 where
    pub user : PortalUser
    pub named : find? (has_key user_key req.id) (users.rows before) ≡ some user
    pub changed :
        users.rows new
        ≡ replace user_key
            (record user { name = req.name; email = req.email; location = req.location })
            (users.rows before)
    pub in_depts : depts_of user.id (dept_users.rows new) ≡ req.dept_ids
    pub rest_kept : others user.id (dept_users.rows new) ≡ others user.id (dept_users.rows before)

  -- The associations are another table than the users.
  add_depts-users :
      (user : ℕ) (dept_ids : List ℕ) (db new : Db) (t : Unit {0})
      → add_depts e user dept_ids db ≡ (next t, new)
      → users.rows new ≡ users.rows db
  unfolding add_depts pure
  add_depts-users user [] db new t h =
      let same : db ≡ new = ground (arith, h) in ap (λ d. users.rows d) (sym same)
  add_depts-users user (dept ∷ depts) db new t h =
      let (row, mid, r₁, h₁) = >>=-next _ _ db t new h in
      let created = write_or_answer-next tt _ _ db mid row r₁ in
      add_depts-users user depts mid new t h₁ ∙ laws.dept_users_apart.create_apart _ db created

  -- The user is read, saved and taken out of the departments.
  writes-IsUpdated :
      (req : UserUpdateRequest) (u row : PortalUser) (n : ℕ) (db d₂ d₃ new : Db) (t : Unit {0})
      → users.first (has_key user_key req.id) db ≡ ok u
      → users.save (record u { name = req.name; email = req.email; location = req.location }) db
        ≡ ok (row, d₂)
      → dept_users.delete (λ x. x.user_id == u.id) d₂ ≡ ok (n, d₃)
      → add_depts e u.id req.dept_ids d₃ ≡ (next t, new)
      → IsUpdated req db new
  writes-IsUpdated req u row n db d₂ d₃ new t found saved cleared added =
      let p : PortalDeptUser → Bool = λ x. x.user_id == u.id in
      let named = laws.users_table.first_rows (has_key user_key req.id) db found in
      let key =
        (nat_eq.decides u.id req.id).0
          (find?-holds (has_key user_key req.id) (users.rows db) u named) in
      let old = ap (λ k. find? (has_key user_key k) (users.rows db)) key ∙ named in
      let (mine, rest) = add_depts-lem u.id req.dept_ids d₃ new t added in
      let left = (laws.dept_users_table.delete_rows _ d₂ cleared).1 in
      let same_depts = laws.users_apart.save_apart _ db saved in
      record {
        user = u;
        named = named;
        changed =
            add_depts-users u.id req.dept_ids d₃ new t added
            ∙ laws.dept_users_apart.delete_apart _ d₂ cleared
            ∙ (laws.users_table.save_rows
                (record u { name = req.name; email = req.email; location = req.location }) db old
                saved).1;
        in_depts =
            mine
            ∙ ap (λ l. map (λ (x : PortalDeptUser). x.dept_id) l ++ req.dept_ids)
                (ap (select p) left ∙ select-reject p (dept_users.rows d₂));
        rest_kept =
            rest
            ∙ ap (reject p) left
            ∙ reject-reject p (dept_users.rows d₂)
            ∙ ap (reject p) same_depts;
      }

  update_user-IsUpdated :
      (req : UserUpdateRequest) (db new : Db) (t : Unit {0})
      → update_user e req db ≡ (next t, new)
      → IsUpdated req db new
  unfolding update_user
  update_user-IsUpdated req db new t h =
      let (u, d₁, r₁, h₁) = >>=-next _ _ db t new h in
      let (found, s₁) = or_answer-next tt _ _ db d₁ u r₁ in
      let (row, d₂, r₂, h₂) = >>=-next _ _ d₁ t new h₁ in
      let saved = write_or_answer-next tt _ _ d₁ d₂ row r₂ in
      let (n, d₃, r₃, h₃) = >>=-next _ _ d₂ t new h₂ in
      let cleared = write_or_answer-next tt _ _ d₂ d₃ n r₃ in
      writes-IsUpdated req u row n db d₂ d₃ new t found
        (subst
          (λ d.
            users.save (record u { name = req.name; email = req.email; location = req.location }) d
            ≡ ok (row, d₂))
          (sym s₁) saved)
        cleared h₃

  -- An update of a user that changes the database had a request that binds, and whose ID is that of a
  -- user; the row of this user has the name, email and location of the request, the user's
  -- departments are those of the request in its order, and nothing else of the tables of users and of
  -- their departments changes.
  pub portal_user_update-IsUpdated :
      (bound : Result String UserUpdateRequest) (db : Db)
      → (portal_user_update e bound db).1 ≢ db
      → (req : UserUpdateRequest) × (bound ≡ ok req)
        × IsUpdated req db (portal_user_update e bound db).1
  unfolding portal_user_update in_tx steps
  portal_user_update-IsUpdated (err x) db differs = absurd (differs refl)
  portal_user_update-IsUpdated (ok req) db differs =
      let body = update_user e req db in
      let ended = end_tx e db body in
      let same : (portal_user_update e (ok req) db).1 ≡ ended.1 = after_tx e ended in
      let (t, whole) = end_tx-changed e db body (λ kept. differs (same ∙ kept)) in
      (
        req,
        refl,
        subst (IsUpdated req db) (sym same) (update_user-IsUpdated req db ended.1 t whole),
      )
