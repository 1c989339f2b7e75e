-- ===== src/Access/Admitted.antt =====
-- Whom the two interceptors let through to a route of the portal.
use mathlib.Core.Path.{subst}
use walletus.Access.{Request, Values, AccessEnv, no_values}
use walletus.Access.Signed.{http_interceptor}
use walletus.Access.Tokens.{no_auth_urls, token_interceptor}
use walletus.Access.Verified.{IsSigned, http_interceptor-IsSigned}
use walletus.Base.{ℕ, true, ◌≡◌, sym, ◌∙◌, arith, ◌==◌, nat_eq, string_eq, any, ◌⊎◌, inl, inr}
use walletus.Base.Decimal.{bytes_eq}
use walletus.Gorm.{IsTable}
use walletus.Model.{channel_key}
use walletus.Web.{Action, next, ◌>>=◌}
use walletus.Web.Ended.{>>=-next}
use walletus.Access.Authorised.{IsAuthorised, token_interceptor-next}

-- The chain of the group /spwapi/admin.
unfoldable pub admin_chain : (e : AccessEnv) → ℕ → Request → Action e.Db (Unit {0}) Values
unfolding http_interceptor token_interceptor
admin_chain e now req = do
  vals ← http_interceptor e now req no_values
  token_interceptor e now req vals

module _ (e : AccessEnv) where
  open e use {Db, ciphers, users_by, funcs, channels}

  -- A request that comes to a handler of the portal has been signed with the key of the application
  -- that it names, and, but for the login, its token is not too old and names a user who is there
  -- and active and who is a super admin or permitted to call the route (which everybody is if the
  -- query for the function of the route fails or finds none); nothing has been written.
  pub admin_chain-IsAuthorised :
      (now : ℕ) (req : Request) (vals : Values) (db db' : Db)
      → IsTable channel_key channels
      → admin_chain e now req db ≡ (next vals, db')
      → (db ≡ db')
        × (signed : Values) × IsSigned e req db signed
        × ((any (λ v. v == req.uri) no_auth_urls ≡ true)
            ⊎ IsAuthorised e now req req.header db vals)
  unfolding admin_chain
  admin_chain-IsAuthorised now req vals db db' table h =
      let (signed, d₁, r₁, h₁) = >>=-next _ _ db vals db' h in
      let (is_signed, s₁) = http_interceptor-IsSigned e now req no_values signed db d₁ table r₁ in
      let (s₂, passed) = token_interceptor-next e now req signed vals d₁ db' h₁ in
      (
        s₁ ∙ s₂,
        signed,
        is_signed,
        elim passed [
          | inl login ↦ inl login
          | inr (header, has, authorised) ↦
              let same : header ≡ req.header = ground (arith, has, is_signed.headers) in
              inr (
                subst (λ d. IsAuthorised e now req req.header d vals) (sym s₁)
                  (subst (λ x. IsAuthorised e now req x d₁ vals) same authorised))
        ],
      )
