-- ===== src/Access/Verified.antt =====
-- What a request has shown that `HttpInterceptor` lets through.
use walletus.Access.{Request, Values, AccessEnv, join, age, is_expired}
use walletus.Access.Signed.{
  found_channel, four_parts, user_token, verify, channel_tenant, http_interceptor,
}
use walletus.Base.{
  ℕ, String, Bool, true, false, not, Option, none, some, List, [], ◌∷◌, ◌++◌, Result, ok, err, ◌≡◌,
  ◌≢◌, refl, ap, sym, ◌∙◌, arith, ◌==◌, nat_eq, string_eq, eq_iff, if◌then◌else◌, select, find?,
  inl, inr, Bool-cases,
}
use walletus.Base.Decimal.{Bytes, bytes_eq, same_bytes_iff}
use walletus.Base.Int.{ℤ}
use walletus.Base.Numerals.{hex_encode, parse_int64}
use walletus.Base.Split.{split}
use walletus.Gorm.{DbError, IsTable}
use walletus.Model.{channel_key, SysChannel, Tenant}
use walletus.Sealed.{decrypt}
use walletus.Web.{next, steps, pure}
use walletus.Web.Ended.{>>=-next, or_answer-next, answer_if-next}

abbrev pub tenant_id_of : Result DbError Tenant → ℕ
tenant_id_of (ok t) = t.id
tenant_id_of (err x) = 0

find?-select :
    {A : Type 0} (p : A → Bool) (xs ys : List A) (y : A)
    → y ∷ ys ≡ select p xs
    → find? p xs ≡ some y
find?-select p [] ys y h = absurd (ground (arith, h))
find?-select p (x ∷ xs) ys y h = ground (arith, h, find?-select p xs ys y)

-- The wallet of a user changes no other value.
module _ (now : ℕ) (vals : Values) where
  abbrev IsKept : Values → Type 0
  IsKept new =
      (new.headers ≡ vals.headers)
      × (new.tenant_id ≡ vals.tenant_id)
      × (new.main_user ≡ vals.main_user)

  dated-IsKept :
      (name wallet : Bytes) (ts : Option ℤ)
      → IsKept (elim ts [
        | none ↦ vals
        | some t ↦
            if is_expired (age now t)
            then vals
            else record vals { user_wallet = some wallet; user_id = some name }
      ])
  dated-IsKept name wallet none = (refl, refl, refl)
  dated-IsKept name wallet (some t) = elim (Bool-cases (is_expired (age now t))) [
    | inl old ↦ rw old (refl, refl, refl)
    | inr live ↦ rw live (refl, refl, refl)
  ]

  four_parts-IsKept : (parts : List Bytes) → IsKept (four_parts now parts vals)
  unfolding four_parts
  four_parts-IsKept (a ∷ b ∷ c ∷ d ∷ []) = dated-IsKept a b (parse_int64 d)
  four_parts-IsKept [] = (refl, refl, refl)
  four_parts-IsKept (a ∷ []) = (refl, refl, refl)
  four_parts-IsKept (a ∷ b ∷ []) = (refl, refl, refl)
  four_parts-IsKept (a ∷ b ∷ c ∷ []) = (refl, refl, refl)
  four_parts-IsKept (a ∷ b ∷ c ∷ d ∷ x ∷ xs) = (refl, refl, refl)

  pub user_token-IsKept : (token : Result String Bytes) → IsKept (user_token now token vals)
  unfolding user_token
  user_token-IsKept (ok token) = four_parts-IsKept (split b'|' token)
  user_token-IsKept (err text) = (refl, refl, refl)

module _ (e : AccessEnv) where
  open e use {Db, ciphers, sha256, channels, tenants}

  -- A request has been signed with the key of the application that it names, and has the tenant of
  -- this application.
  pub record IsSigned (req : Request) (db : Db) (vals : Values) : Type 0 where
    pub channel : SysChannel
    pub named : find? (λ c. c.app_id == req.header.app_id) (channels.rows db) ≡ some channel
    pub method : channel.sig_method ≡ "SHA256"
    pub signature : hex_encode (sha256 (join req.header ++ channel.app_key)) ≡ req.header.auth_token
    pub not_empty : (join req.header ≢ []) × (req.header.auth_token ≢ [])
    pub headers : vals.headers ≡ some req.header
    pub tenant : vals.tenant_id ≡ (
        if channel.chan == "tenant"
        then some (tenant_id_of (tenants.first (λ t. t.api_id == channel.id) db))
        else none)

  verify-true :
      (c : SysChannel) (text sig : Bytes)
      → (verify e c text sig).0 ≡ true
      → (c.sig_method ≡ "SHA256")
        × (hex_encode (sha256 (text ++ c.app_key)) ≡ sig)
        × (text ≢ [])
        × (sig ≢ [])
  unfolding verify
  verify-true c text sig h =
      let digest = hex_encode (sha256 (text ++ c.app_key)) in
      (
        ground (arith, h, eq_iff c.sig_method "SHA256"),
        (same_bytes_iff digest sig).0 (ground (arith, h)),
        λ none_left. absurd (ground (arith, rw none_left at h)),
        λ none_left. absurd (ground (arith, rw none_left at h)),
      )

  channel_tenant-next :
      (c : SysChannel) (db new : Db) (o : Option ℕ)
      → channel_tenant e c db ≡ (next o, new)
      → (db ≡ new)
        × (o ≡ (
            if c.chan == "tenant"
            then some (tenant_id_of (tenants.first (λ t. t.api_id == c.id) db))
            else none))
  unfolding channel_tenant steps
  channel_tenant-next c db new o h = ground (arith, h)

  -- A row whose method is set is a row of the table.
  found_channel-first :
      (rows xs : List SysChannel) (p : SysChannel → Bool)
      → xs ≡ select p rows
      → (found_channel xs).sig_method ≡ "SHA256"
      → find? p rows ≡ some (found_channel xs)
  found_channel-first rows [] p h method = absurd (ground (arith, method, eq_iff "" "SHA256"))
  found_channel-first rows (x ∷ xs) p h method = find?-select p rows xs x h

  -- The values that the interceptor sets, before it looks at the token.
  abbrev pub signed_values : Request → Values → Option ℕ → Values
  signed_values req vals tenant_id = record vals {
    app_id = some req.header.app_id;
    request_id = some req.header.request_id;
    ts = some req.header.ts;
    headers = some req.header;
    tenant_id = tenant_id;
  }

  values-IsSigned :
      (now : ℕ) (req : Request) (vals new : Values) (db : Db) (rows : List SysChannel)
      (o : Option ℕ)
      → IsTable channel_key channels
      → channels.find (λ c. c.app_id == req.header.app_id) db ≡ ok rows
      → (verify e (found_channel rows) (join req.header) req.header.auth_token).0 ≡ true
      → o ≡ (
          if (found_channel rows).chan == "tenant"
          then some (tenant_id_of (tenants.first (λ t. t.api_id == (found_channel rows).id) db))
          else none)
      → user_token now (decrypt ciphers req.header.x_auth) (signed_values req vals o) ≡ new
      → IsSigned req db new
  values-IsSigned now req vals new db rows o table found good tenant done =
      let (method, signature, text, sig) =
        verify-true (found_channel rows) (join req.header) req.header.auth_token good in
      let (kept, kept', _) =
        user_token-IsKept now (signed_values req vals o) (decrypt ciphers req.header.x_auth) in
      record {
        channel = found_channel rows;
        named =
            found_channel-first (channels.rows db) rows (λ c. c.app_id == req.header.app_id)
              (table.find_rows (λ c. c.app_id == req.header.app_id) db found) method;
        method = method;
        signature = signature;
        not_empty = (text, sig);
        headers = ap (λ v. v.headers) (sym done) ∙ kept;
        tenant = ap (λ v. v.tenant_id) (sym done) ∙ kept' ∙ tenant;
      }

  pub pure-next :
      {A : Type 0} (a b : A) (db new : Db)
      → pure {Db = Db} {P = Unit {0}} a db ≡ (next b, new)
      → (a ≡ b) × (db ≡ new)
  unfolding pure
  pure-next a b db new h = (ground (arith, h), ground (arith, h))

  pub not-eq-false : (b : Bool) → not b ≡ false → b ≡ true
  not-eq-false true h = refl
  not-eq-false false h = cc

  -- A request that the first interceptor lets through is signed, and the database is as before.
  pub http_interceptor-IsSigned :
      (now : ℕ) (req : Request) (vals new : Values) (db db' : Db)
      → IsTable channel_key channels
      → http_interceptor e now req vals db ≡ (next new, db')
      → IsSigned req db new × (db ≡ db')
  unfolding http_interceptor
  http_interceptor-IsSigned now req vals new db db' table h =
      let (rows, d₁, r₁, h₁) = >>=-next _ _ db new db' h in
      let (found, s₁) = or_answer-next tt _ _ db d₁ rows r₁ in
      let (_, d₂, r₂, h₂) = >>=-next _ _ d₁ new db' h₁ in
      let (good, s₂) = answer_if-next tt _ _ _ d₁ d₂ _ r₂ in
      let (o, d₃, r₃, h₃) = >>=-next _ _ d₂ new db' h₂ in
      let (s₃, tenant) = channel_tenant-next (found_channel rows) d₂ d₃ o r₃ in
      let (done, s₄) = pure-next _ new d₃ db' h₃ in
      let same = s₁ ∙ s₂ in
      (
        values-IsSigned now req vals new db rows o table found (not-eq-false _ good)
            (tenant
              ∙ ap
                  (λ d.
                    if (found_channel rows).chan == "tenant"
                    then some
                        (tenant_id_of (tenants.first (λ t. t.api_id == (found_channel rows).id) d))
                    else none)
                  (sym same))
            done,
        same ∙ s₃ ∙ s₄,
      )
