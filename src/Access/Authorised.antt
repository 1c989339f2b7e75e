-- ===== src/Access/Authorised.antt =====
-- Whom `TokenInterceptor` lets through.
use mathlib.Core.Path.{subst}
use walletus.Access.{HeaderParam, Request, Values, AccessEnv, age, is_expired}
use walletus.Access.Tokens.{
  no_auth_urls, token_of, found_user, or_refuse, some_or_refuse, three_parts, main_user_of,
  authenticate, with_headers, token_interceptor,
}
use walletus.Access.Verified.{pure-next}
use walletus.Base.{
  ℕ, String, true, false, not, ◌||◌, Option, none, some, List, [], ◌∷◌, Result, ok, err, ◌≡◌, ◌≢◌,
  refl, ap, sym, ◌∙◌, arith, ◌==◌, nat_eq, string_eq, any, ◌⊎◌, inl, inr, Bool-cases,
}
use walletus.Base.Decimal.{Bytes, bytes_eq}
use walletus.Base.Int.{ℤ}
use walletus.Base.Numerals.{parse_int64}
use walletus.Base.Split.{split}
use walletus.Model.{PortalUser}
use walletus.Sealed.{decrypt}
use walletus.Web.{next, steps, answer, user}
use walletus.Web.Ended.{>>=-next, answer_if-next, find_or_nil-next}
use walletus.Access.Permitted.{IsPermitted, authorise-next}

-- The small steps, when they go on.
module _ {Db : Type 0} where
  or_refuse-next :
      {A : Type 0} (msg : String) (r : Result String A) (a : A) (db new : Db)
      → or_refuse msg r db ≡ (next a, new)
      → (r ≡ ok a) × (db ≡ new)
  unfolding steps
  or_refuse-next msg (ok x) a db new h = (ground (arith, h), ground (arith, h))
  or_refuse-next msg (err text) a db new h = absurd (ground (arith, h))

  some_or_refuse-next :
      {A : Type 0} (msg : String) (o : Option A) (a : A) (db new : Db)
      → some_or_refuse msg o db ≡ (next a, new)
      → (o ≡ some a) × (db ≡ new)
  unfolding steps
  some_or_refuse-next msg (some x) a db new h = (ground (arith, h), ground (arith, h))
  some_or_refuse-next msg none a db new h = absurd (ground (arith, h))

  three_parts-next :
      (parts : List Bytes) (id provider expire : Bytes) (db new : Db)
      → three_parts parts db ≡ (next (id, provider, expire), new)
      → (parts ≡ id ∷ provider ∷ expire ∷ []) × (db ≡ new)
  unfolding three_parts steps
  three_parts-next [] id provider expire db new h = absurd (ground (arith, h))
  three_parts-next (a ∷ []) id provider expire db new h = absurd (ground (arith, h))
  three_parts-next (a ∷ b ∷ []) id provider expire db new h = absurd (ground (arith, h))
  three_parts-next (a ∷ b ∷ c ∷ []) id provider expire db new h =
      (ground (arith, h), ground (arith, h))
  three_parts-next (a ∷ b ∷ c ∷ d ∷ xs) id provider expire db new h = absurd (ground (arith, h))

module _ (e : AccessEnv) where
  open e use {Db, ciphers, users_by, funcs, channels}

  -- A token that is not too old names a user who is there and active, and who is a super admin or
  -- permitted to call the route.
  pub record IsAuthorised (now : ℕ) (req : Request) (header : HeaderParam) (db : Db) (vals : Values)
      : Type 0 where
    pub token : Bytes
    pub id : Bytes
    pub provider : Bytes
    pub expire : Bytes
    pub ts : ℤ
    pub u : PortalUser
    pub others : List PortalUser
    pub opened : decrypt ciphers (token_of header req.cookie) ≡ ok token
    pub parts : split b'|' token ≡ id ∷ provider ∷ expire ∷ []
    pub dated : parse_int64 expire ≡ some ts
    pub fresh : is_expired (age now ts) ≡ false
    pub found : users_by id db ≡ ok (u ∷ others)
    pub active : (u.id ≢ 0) × (u.flag ≡ 0)
    pub allowed : (u.type ≡ "super_admin") ⊎ IsPermitted e u req.uri db
    pub main_user : vals.main_user ≡ user u

  -- The rows that a query gave if its variable is not empty.
  found_user-row :
      (id : Bytes) (db : Db) (rows : List PortalUser)
      → (users_by id db ≡ ok rows) ⊎ (rows ≡ [])
      → ((found_user rows).id == 0 || not ((found_user rows).flag == 0)) ≡ false
      → (others : List PortalUser) × (users_by id db ≡ ok (found_user rows ∷ others))
        × ((found_user rows).id ≢ 0)
        × ((found_user rows).flag ≡ 0)
  found_user-row id db [] found h = absurd (ground (arith, h))
  found_user-row id db (v ∷ vs) (inl found) h =
      (vs, found, (λ none_left. ground (arith, h, none_left)), ground (arith, h))
  found_user-row id db (v ∷ vs) (inr nothing) h = absurd (ground (arith, nothing))

  main_user_of-next :
      (id provider provider' : Bytes) (u : PortalUser) (db new : Db)
      → main_user_of e (id, provider) db ≡ (next (u, provider'), new)
      → (others : List PortalUser) × (users_by id db ≡ ok (u ∷ others))
        × (u.id ≢ 0)
        × (u.flag ≡ 0)
        × (db ≡ new)
  unfolding main_user_of
  main_user_of-next id provider provider' u db new h =
      let (rows, d₁, r₁, h₁) = >>=-next _ _ db (u, provider') new h in
      let (found, s₁) = find_or_nil-next tt _ db d₁ rows r₁ in
      let (_, d₂, r₂, h₂) = >>=-next _ _ d₁ (u, provider') new h₁ in
      let (good, s₂) = answer_if-next tt _ _ _ d₁ d₂ _ r₂ in
      let (same, s₃) = pure-next e _ (u, provider') d₂ new h₂ in
      let (others, row, positive, active) = found_user-row id db rows found good in
      let is_u : found_user rows ≡ u = ap (λ x. x.0) same in
      (
        others,
        row ∙ ap (λ x. ok (x ∷ others)) is_u,
        rw is_u at positive,
        rw is_u at active,
        s₁ ∙ s₂ ∙ s₃,
      )

  authenticate-next :
      (now : ℕ) (req : Request) (header : HeaderParam) (u : PortalUser) (provider : Bytes)
      (vals : Values) (db new : Db)
      → authenticate e now (token_of header req.cookie) db ≡ (next (u, provider), new)
      → (u.type ≡ "super_admin") ⊎ IsPermitted e u req.uri new
      → vals.main_user ≡ user u
      → IsAuthorised now req header db vals × (db ≡ new)
  unfolding authenticate
  authenticate-next now req header u provider vals db new h allowed is_user =
      let (token, d₁, r₁, h₁) = >>=-next _ _ db (u, provider) new h in
      let (opened, s₁) = or_refuse-next _ _ token db d₁ r₁ in
      let ((id, provider', expire), d₂, r₂, h₂) = >>=-next _ _ d₁ (u, provider) new h₁ in
      let (parts, s₂) = three_parts-next _ id provider' expire d₁ d₂ r₂ in
      let (ts, d₃, r₃, h₃) = >>=-next _ _ d₂ (u, provider) new h₂ in
      let (dated, s₃) = some_or_refuse-next _ _ ts d₂ d₃ r₃ in
      let (_, d₄, r₄, h₄) = >>=-next _ _ d₃ (u, provider) new h₃ in
      let (fresh, s₄) = answer_if-next tt _ _ _ d₃ d₄ _ r₄ in
      let (others, found, positive, active, s₅) =
        main_user_of-next id provider' provider u d₄ new h₄ in
      let same = s₁ ∙ s₂ ∙ s₃ ∙ s₄ in
      (
        record {
          token = token;
          id = id;
          provider = provider';
          expire = expire;
          ts = ts;
          u = u;
          others = others;
          opened = opened;
          parts = parts;
          dated = dated;
          fresh = fresh;
          found = subst (λ d. users_by id d ≡ ok (u ∷ others)) (sym same) found;
          active = (positive, active);
          allowed =
              subst (λ d. (u.type ≡ "super_admin") ⊎ IsPermitted e u req.uri d) (sym (same ∙ s₅))
                allowed;
          main_user = is_user;
        },
        same ∙ s₅,
      )

  refused :
      {A : Type 0} (code : ℕ) (msg : String) (a : A) (db new : Db)
      → answer {P = Unit {0}} code msg tt db ≡ (next a, new)
      → ⊥
  unfolding steps
  refused code msg a db new h = ground (arith, h)

  with_headers-next :
      (now : ℕ) (req : Request) (vals new : Values) (header : Option HeaderParam) (db db' : Db)
      → with_headers e now req vals header db ≡ (next new, db')
      → (h : HeaderParam) × (header ≡ some h) × IsAuthorised now req h db new × (db ≡ db')
  unfolding with_headers
  with_headers-next now req vals new none db db' h = absurd (refused _ _ new db db' h)
  with_headers-next now req vals new (some header) db db' h =
      let ((u, provider), d₁, r₁, h₁) = >>=-next _ _ db new db' h in
      let (t, d₂, r₂, h₂) = >>=-next _ _ d₁ new db' h₁ in
      let (allowed, s₂) = authorise-next e u req.uri d₁ d₂ t r₂ in
      let (done, s₃) = pure-next e _ new d₂ db' h₂ in
      let (authorised, s₁) =
        authenticate-next now req header u provider new db d₁ r₁ allowed
          (ap (λ v. v.main_user) (sym done)) in
      (header, refl, authorised, s₁ ∙ s₂ ∙ s₃)

  pub token_interceptor-next :
      (now : ℕ) (req : Request) (vals new : Values) (db db' : Db)
      → token_interceptor e now req vals db ≡ (next new, db')
      → (db ≡ db')
        × ((any (λ v. v == req.uri) no_auth_urls ≡ true)
            ⊎ ((h : HeaderParam) × (vals.headers ≡ some h) × IsAuthorised now req h db new))
  unfolding token_interceptor
  token_interceptor-next now req vals new db db' h =
      elim (Bool-cases (any (λ v. v == req.uri) no_auth_urls)) [
        | inl login ↦
            let (_, same) = pure-next e vals new db db' (rw login at h) in (same, inl login)
        | inr other ↦
            let (header, has, authorised, same) =
              with_headers-next now req vals new vals.headers db db' (rw other at h) in
            (same, inr (header, has, authorised))
      ]
