-- ===== src/Access/Permitted.antt =====
-- Whom the check of the permission lets through.
use walletus.Access.{AccessEnv}
use walletus.Access.Tokens.{
  unconfig_urls, split_requesting_for_grants, root_path, granted_uri, found_func, is_super_admin,
  lacks_permission, unless_failed, granted_rows, granted_funcs, authorise,
}
use walletus.Access.Verified.{pure-next}
use walletus.Base.{
  String, Bool, true, false, not, ◌||◌, ◌&&◌, Option, none, some, List, [], ok, ◌≡◌, refl, ap, sym,
  ◌∙◌, arith, ◌==◌, nat_eq, string_eq, eq_iff, any, ◌⊎◌, inl, inr, Bool-cases, Result, err,
}
use walletus.Base.Decimal.{Bytes, codes, bytes_eq}
use walletus.Base.Split.{trim_prefix}
use walletus.Model.{PortalUser, PortalFunc}
use walletus.Web.{next}
use walletus.Gorm.{DbError}
use walletus.Web.Ended.{>>=-next, answer_if-next, find_or_nil-next, or_nil, find_or_nil-or_nil}

not_lacking :
    (a b c : Bool) → (not a && not (b || c)) ≡ false → (a ≡ true) ⊎ (b ≡ true) ⊎ (c ≡ true)
not_lacking true b c h = inl refl
not_lacking false true c h = inr (inl refl)
not_lacking false false true h = inr (inr refl)
not_lacking false false false h = absurd (ground (arith, h))

module _ (e : AccessEnv) where
  open e use {Db, ciphers, users_by, funcs, channels}

  -- What the query for the function of the route allows: a failed query everything, and else the
  -- route has no function, or every user may call it, or a role of the user has a function with the
  -- permission of the route's function.
  unfoldable pub Allows : PortalUser → Bytes → Db → Result DbError (List PortalFunc) → Type 0
  Allows u uri db (err x) = Unit
  Allows u uri db (ok rows) =
      ((found_func rows).id ≡ 0)
      ⊎ (any (λ v. v == uri) unconfig_urls ≡ true)
      ⊎ (any (λ f. (found_func rows).perm_code == f.perm_code) (granted_rows e u.id db) ≡ true)

  abbrev pub route_query : Bytes → Db → Result DbError (List PortalFunc)
  route_query uri =
      funcs.find (λ f.
        codes f.res_uri == trim_prefix (granted_uri uri split_requesting_for_grants) root_path)

  unfoldable pub IsPermitted : PortalUser → Bytes → Db → Type 0
  unfolding Allows
  IsPermitted u uri db = Allows u uri db (route_query uri db)

  -- What the query for the functions of a user gives are the joined rows.
  granted_of :
      (o : Option String) (xs granted : List PortalFunc)
      → unless_failed o xs ≡ ok granted
      → granted ≡ xs
  granted_of none xs granted h = ground (arith, h)
  granted_of (some text) xs granted h = absurd (ground (arith, h))

  -- The permission is not lacking.
  permission_lem :
      (u : PortalUser) (uri : Bytes) (db : Db) (granted : List PortalFunc) (f : PortalFunc)
      → (granted_funcs e u.id db ≡ ok granted) ⊎ (granted ≡ [])
      → lacks_permission uri granted f ≡ false
      → (f.id ≡ 0)
        ⊎ (any (λ v. v == uri) unconfig_urls ≡ true)
        ⊎ (any (λ g. f.perm_code == g.perm_code) (granted_rows e u.id db) ≡ true)
  unfolding lacks_permission granted_funcs
  permission_lem u uri db granted f (inl given) h =
      let same = granted_of (e.join_error db) (granted_rows e u.id db) granted given in
      elim (not_lacking (f.id == 0) _ (any (λ g. f.perm_code == g.perm_code) granted) h) [
        | inl none_found ↦ inl ((nat_eq.decides f.id 0).0 none_found)
        | inr (inl open_to_all) ↦ inr (inl open_to_all)
        | inr (inr has) ↦ inr (inr (ap (any (λ g. f.perm_code == g.perm_code)) (sym same) ∙ has))
      ]
  permission_lem u uri db granted f (inr nothing) h =
      elim (not_lacking (f.id == 0) _ (any (λ g. f.perm_code == g.perm_code) granted) h) [
        | inl none_found ↦ inl ((nat_eq.decides f.id 0).0 none_found)
        | inr (inl open_to_all) ↦ inr (inl open_to_all)
        | inr (inr has) ↦ absurd (ground (arith, rw nothing at has))
      ]

  permitted_by :
      (u : PortalUser) (uri : Bytes) (db : Db) (granted : List PortalFunc)
      (q : Result DbError (List PortalFunc))
      → (granted_funcs e u.id db ≡ ok granted) ⊎ (granted ≡ [])
      → lacks_permission uri granted (found_func (or_nil q)) ≡ false
      → Allows u uri db q
  unfolding Allows or_nil
  permitted_by u uri db granted (ok rows) given h =
      permission_lem u uri db granted (found_func rows) given h
  permitted_by u uri db granted (err x) given h = tt

  pub authorise-next :
      (u : PortalUser) (uri : Bytes) (db new : Db) (t : Unit {0})
      → authorise e u uri db ≡ (next t, new)
      → ((u.type ≡ "super_admin") ⊎ IsPermitted u uri db) × (db ≡ new)
  unfolding authorise is_super_admin IsPermitted
  authorise-next u uri db new t h = elim (Bool-cases (u.type == "super_admin")) [
    | inl super ↦
        let (_, same) = pure-next e tt t db new (rw super at h) in
        (inl ((eq_iff u.type "super_admin").0 super), same)
    | inr plain ↦
        let (granted, d₁, r₁, h₁) = >>=-next _ _ db t new (rw plain at h) in
        let (given, s₁) = find_or_nil-next tt _ db d₁ granted r₁ in
        let (rows, d₂, r₂, h₂) = >>=-next _ _ d₁ t new h₁ in
        let (read, s₂) = find_or_nil-or_nil tt (route_query uri) d₁ d₂ rows r₂ in
        let (good, s₃) = answer_if-next tt _ _ _ d₂ new t h₂ in
        let of_query =
          ap (λ xs. lacks_permission uri granted (found_func xs))
            (sym (read ∙ ap (λ d. or_nil (route_query uri d)) (sym s₁)))
          ∙ good in
        (inr (permitted_by u uri db granted (route_query uri db) given of_query), s₁ ∙ s₂ ∙ s₃)
  ]
