-- ===== src/Access/Issued.antt =====
-- The tokens that the login makes, as the interceptor reads them.
use walletus.Access.{AccessEnv, token_duration, age, is_expired}
use walletus.Access.Login.{
  LoginRequest, LoginData, has_login, token_text, the_user, issue_token, portal_login,
}
use walletus.Access.Tokens.{authenticate, three_parts, main_user_of}
use walletus.Base.{
  ℕ, ◌+◌, ◌*◌, ◌<◌, ◌^◌, String, Option, none, some, List, [], ◌∷◌, Result, ok, err, ◌≡◌, refl, ap,
  sym, ◌∙◌, arith, leb, if◌then◌else◌, length, ◌⊎◌, inl, inr, true, false, Bool-cases,
}
use walletus.Base.Decimal.{Bytes, format}
use walletus.Base.Int.{pos}
use walletus.Base.Numerals.{parse_int64-format}
use walletus.Base.Split.{split, split-piece, split-last, format-IsNo}
use walletus.Model.{PortalUser}
use walletus.Sealed.{IsCipherLib, encrypt, decrypt}
use walletus.Sealed.Opened.{decrypt-encrypt}
use walletus.Web.{reply, steps, Response, after, answer, ◌>>=◌}
use walletus.Web.Codes.{err_security}
use walletus.Web.Ended.{find_or_nil-next, find_or_nil-goes_on}

-- The text of a token has three parts.
split-token_text :
    (id ts : ℕ) → split b'|' (token_text id ts) ≡ format id ∷ format 0 ∷ format ts ∷ []
unfolding token_text
split-token_text id ts =
    split-piece b'|' (format id) _ (format-IsNo b'|' refl id)
    ∙ ap (λ l. format id ∷ l)
        (split-piece b'|' (format 0) _ (format-IsNo b'|' refl 0)
          ∙ ap (λ l. format 0 ∷ l) (split-last b'|' (format ts) (format-IsNo b'|' refl ts)))

-- A token lives for its duration from the time that it holds.
is_expired-age :
    (now now' : ℕ)
    → is_expired (age now' (pos (now + token_duration)))
      ≡ (if leb now' (now + 2 * token_duration) then false else true)
is_expired-age now now' = ground arith

module _ (e : AccessEnv) (laws : IsCipherLib e.ciphers) where
  open e use {Db, ciphers, users}

  -- What is answered for a text that decrypts to a token.
  authenticate-token_text :
      (now now' id : ℕ) (sealed : Bytes) (db : Db)
      → now + token_duration < 2 ^ 63
      → decrypt ciphers sealed ≡ ok (token_text id (now + token_duration))
      → authenticate e now' sealed db ≡ (
          if leb now' (now + 2 * token_duration)
          then main_user_of e (format id, format 0) db
          else answer err_security "token expired error" tt db)
  unfolding authenticate steps three_parts
  authenticate-token_text now now' id sealed db small opened =
      rw
        (
          opened,
          split-token_text id (now + token_duration),
          parse_int64-format (now + token_duration) small,
          is_expired-age now now',
        )
        (elim (Bool-cases (leb now' (now + 2 * token_duration))) [
          | inl live ↦ rw live refl
          | inr old ↦ rw old refl
        ])

  -- The answer of `issue_token`.
  issued :
      (c : Result String Bytes) (u : PortalUser) (r : Response (Option LoginData)) (d : LoginData)
      (now : ℕ) (random : Result String Bytes) (db : Db)
      → encrypt ciphers random (token_text u.id (now + token_duration)) ≡ c
      → (issue_token e now random u db).0 ≡ reply r
      → r.payload ≡ some d
      → (c ≡ ok d.token) × (d.id ≡ u.id)
  unfolding issue_token steps
  issued (err text) u r d now random db e h g = absurd (ground (arith, rw e at h, g))
  issued (ok sealed) u r d now random db e h g = ground (arith, rw e at h, g)

  -- A successful login, step by step.
  IsLogin : Result String LoginRequest → ℕ → Result String Bytes → Db → LoginData → Type 0
  IsLogin bound now random db d =
      (request : LoginRequest) × (u : PortalUser) × (bound ≡ ok request)
      × (users.find (has_login request) db ≡ ok (u ∷ []))
      × (encrypt ciphers random (token_text u.id (now + token_duration)) ≡ ok d.token)
      × (d.id ≡ u.id)

  found-IsLogin :
      (request : LoginRequest) (now : ℕ) (random : Result String Bytes) (db : Db)
      (rows : List PortalUser) (u : PortalUser) (r : Response (Option LoginData)) (d : LoginData)
      → (users.find (has_login request) db ≡ ok rows) ⊎ (rows ≡ [])
      → rows ≡ u ∷ []
      → (issue_token e now random u db).0 ≡ reply r
      → r.payload ≡ some d
      → IsLogin (ok request) now random db d
  unfolding IsLogin
  found-IsLogin request now random db rows u r d (inl found) one h g =
      let (sealed, same) =
        issued (encrypt ciphers random (token_text u.id (now + token_duration))) u r d now random db
          refl h g in
      (request, u, refl, found ∙ ap (λ l. ok l) one, sealed, same)
  found-IsLogin request now random db rows u r d (inr nothing) one h g =
      absurd (ground (arith, nothing, one))

  rows-IsLogin :
      (request : LoginRequest) (now : ℕ) (random : Result String Bytes) (db : Db)
      (rows : List PortalUser) (r : Response (Option LoginData)) (d : LoginData)
      → (users.find (has_login request) db ≡ ok rows) ⊎ (rows ≡ [])
      → ((the_user e rows >>= λ u. issue_token e now random u) db).0 ≡ reply r
      → r.payload ≡ some d
      → IsLogin (ok request) now random db d
  unfolding the_user steps
  rows-IsLogin request now random db [] r d found h g = absurd (ground (arith, h, g))
  rows-IsLogin request now random db (u ∷ []) r d found h g =
      found-IsLogin request now random db (u ∷ []) u r d found refl h g
  rows-IsLogin request now random db (u ∷ v ∷ rows) r d found h g = absurd (ground (arith, h, g))

  portal_login-IsLogin :
      (bound : Result String LoginRequest) (now : ℕ) (random : Result String Bytes) (db : Db)
      (r : Response (Option LoginData)) (d : LoginData)
      → (portal_login e now random bound db).0 ≡ reply r
      → r.payload ≡ some d
      → IsLogin bound now random db d
  unfolding portal_login steps
  portal_login-IsLogin (err text) now random db r d h g = absurd (ground (arith, h, g))
  portal_login-IsLogin (ok request) now random db r d h g =
      let (rows, reads) = find_or_nil-goes_on none (users.find (has_login request)) db in
      let (found, _) = find_or_nil-next none (users.find (has_login request)) db db rows reads in
      rows-IsLogin request now random db rows r d found
        (ap (λ x. (after (λ rows. the_user e rows >>= λ u. issue_token e now random u) x).0)
            (sym reads)
          ∙ h)
        g

  -- A token that the login gives out, with a whole nonce and before the clock ends, is that of the
  -- one user with the name or address and the password of the request, and for twice the duration
  -- of a token it stands for this user wherever the row of the user is found and active; later it is
  -- refused as expired.
  pub authenticate-portal_login :
      (bound : Result String LoginRequest) (now now' : ℕ) (nonce : Bytes) (db db' : Db)
      (r : Response (Option LoginData)) (d : LoginData)
      → now + token_duration < 2 ^ 63
      → length nonce ≡ ciphers.nonce_size
      → (portal_login e now (ok nonce) bound db).0 ≡ reply r
      → r.payload ≡ some d
      → (request : LoginRequest) × (u : PortalUser) × (bound ≡ ok request)
        × (users.find (has_login request) db ≡ ok (u ∷ []))
        × (d.id ≡ u.id)
        × (authenticate e now' d.token db' ≡ (
            if leb now' (now + 2 * token_duration)
            then main_user_of e (format u.id, format 0) db'
            else answer err_security "token expired error" tt db'))
  unfolding IsLogin
  authenticate-portal_login bound now now' nonce db db' r d small size h g =
      let (request, u, is_bound, found, sealed, same) =
        portal_login-IsLogin bound now (ok nonce) db r d h g in
      let opened =
        decrypt-encrypt ciphers laws nonce (token_text u.id (now + token_duration)) size sealed in
      (
        request,
        u,
        is_bound,
        found,
        same,
        authenticate-token_text now now' u.id d.token db' small opened,
      )
