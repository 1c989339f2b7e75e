-- ===== src/Config.antt =====
-- common/config/conf.go: the chains of the configuration file and their RPC endpoints. Reading the
-- file and the environment is not modelled.
use walletus.Base.{
  ℕ, zero, suc, String, Option, none, some, List, [], ◌∷◌, ◌++◌, Bool, if◌then◌else◌, length, map,
  Result, ok, err, ◌>>=◌, ◌==◌, nat_eq, string_eq, find?, ◌≡◌, refl, All, arith, Bool-cases, inl,
  inr, >>=-eq-ok, ◌<◌, ◌+◌, ap, ◌∙◌, find?-holds, length-append,
}
use walletus.Base.Decimal.{Bytes}
use walletus.Base.Int.{ℤ, pos, negsuc}
use walletus.Base.Numerals.{set_string, is_int64}

-- The endpoint's address, and what follows its "||".
pub record RpcMapper : Type 0 where
  pub rpc : Bytes
  pub quote : ℤ

-- `rpc_map` is the map from the endpoint to its quote: the last entry of a key counts.
pub record ChainConfig : Type 0 where
  pub name : String
  pub ws_rpc : String
  pub query_rpc : List Bytes
  pub slot_parallel : ℤ
  pub tx_detal : ℤ
  pub range_round : ℤ
  pub rpcs : List RpcMapper
  pub rpc_map : List (Bytes × ℤ)

-- A piece starts with a byte.
unfoldable pub push : ℕ → List Bytes → List Bytes
push c [] = (c ∷ []) ∷ []
push c (piece ∷ pieces) = (c ∷ piece) ∷ pieces

-- The pieces of a text between the bars "||", and those when a bar stands before the text.
unfoldable pub split_both : Bytes → List Bytes × List Bytes
unfolding push
split_both [] = ([] ∷ [], (b'|' ∷ []) ∷ [])
split_both (c ∷ s) =
    let rest = split_both s in
    if c == b'|' then (rest.1, [] ∷ rest.0) else (push c rest.0, push b'|' (push c rest.0))

-- `strings.Split(r, "||")`
unfoldable pub split_bars : Bytes → List Bytes
unfolding split_both
split_bars r = (split_both r).0

-- `strconv.Atoi`, `none` for its error.
unfoldable pub atoi : Bytes → Option ℤ
atoi s = elim (set_string 10 s) [ none ↦ none | some n ↦ if is_int64 n then some n else none ]

abbrev quote_error : String
quote_error = "error rpc inner format with Quote"

-- An entry of `queryRpc` in its pieces.
unfoldable pub mapper : List Bytes → Result String RpcMapper
unfolding atoi
mapper (address ∷ quote ∷ []) = elim (atoi quote) [
  | none ↦ err quote_error
  | some n ↦ ok (record { rpc = address; quote = n })
]
mapper (address ∷ pieces) = ok (record { rpc = address; quote = pos 0 })
mapper [] = err quote_error

-- The loop of `initRpc`; the error stands for `log.Fatal`.
unfoldable pub add_rpcs : List Bytes → ChainConfig → Result String ChainConfig
unfolding mapper
add_rpcs [] t = ok t
add_rpcs (r ∷ rs) t = do
  v ← mapper (split_bars r)
  add_rpcs rs (record t { rpcs = t.rpcs ++ v ∷ []; rpc_map = t.rpc_map ++ (v.rpc, v.quote) ∷ [] })

unfoldable pub init_rpc_of : List Bytes → ChainConfig → Result String ChainConfig
init_rpc_of [] t = err "error rpc config"
init_rpc_of (r ∷ rs) t = add_rpcs (r ∷ rs) (record t { rpc_map = [] })

unfoldable pub init_rpc : ChainConfig → Result String ChainConfig
unfolding init_rpc_of
init_rpc t = init_rpc_of t.query_rpc t

unfoldable pub init_rpcs : List ChainConfig → Result String (List ChainConfig)
init_rpcs [] = ok []
init_rpcs (t ∷ ts) = do u ← init_rpc t; us ← init_rpcs ts; ok (u ∷ us)

-- The argument is the configuration's list of chains.
unfoldable pub get_rpc_config : List ChainConfig → String → Option ChainConfig
get_rpc_config chain code = find? (λ v. v.name == code) chain

unfoldable pub get_rpc : ChainConfig → List Bytes
get_rpc t = map (λ v. v.rpc) t.rpcs

unfoldable pub get_slot_parallel : ChainConfig → ℤ
get_slot_parallel t = elim t.slot_parallel [
  | pos zero ↦ pos 1
  | pos (suc n) ↦ pos (suc n)
  | negsuc n ↦ pos 1
]

unfoldable pub get_tx_delay : ChainConfig → ℤ
get_tx_delay t = elim t.tx_detal [ pos n ↦ pos n | negsuc n ↦ pos 0 ]

-- The entries give one endpoint each, behind those that were there.
add_rpcs-length :
    (rs : List Bytes) (t u : ChainConfig)
    → add_rpcs rs t ≡ ok u
    → (u.name ≡ t.name) × (length t.rpcs + length rs ≡ length u.rpcs)
unfolding add_rpcs
add_rpcs-length [] t u h = ground (arith, h)
add_rpcs-length (r ∷ rs) t u h =
    let (v, _, h₁) = >>=-eq-ok (mapper (split_bars r)) _ h in
    let (named, counted) =
      add_rpcs-length rs
        (record t { rpcs = t.rpcs ++ v ∷ []; rpc_map = t.rpc_map ++ (v.rpc, v.quote) ∷ [] }) u h₁ in
    (named, omega (arith, counted, length-append t.rpcs (v ∷ [])))

init_rpc_of-length :
    (rs : List Bytes) (t u : ChainConfig)
    → init_rpc_of rs t ≡ ok u
    → (u.name ≡ t.name) × (0 < length u.rpcs)
unfolding init_rpc_of
init_rpc_of-length [] t u h = absurd (ground (arith, h))
init_rpc_of-length (r ∷ rs) t u h =
    let (named, counted) = add_rpcs-length (r ∷ rs) (record t { rpc_map = [] }) u h in
    (named, omega (arith, counted))

init_rpcs-All :
    (ts us : List ChainConfig)
    → init_rpcs ts ≡ ok us
    → All (λ u. 0 < length u.rpcs) us × (map (λ u. u.name) us ≡ map (λ t. t.name) ts)
unfolding init_rpcs init_rpc
init_rpcs-All [] us h = let e : [] ≡ us = ground (arith, h) in rw (← e) (tt, refl)
init_rpcs-All (t ∷ ts) us h =
    let (u, h₁, rest) = >>=-eq-ok (init_rpc_of t.query_rpc t) _ h in
    let (vs, h₂, last) = >>=-eq-ok (init_rpcs ts) _ rest in
    let (named, few) = init_rpc_of-length t.query_rpc t u h₁ in
    let (all, names) = init_rpcs-All ts vs h₂ in
    let e : u ∷ vs ≡ us = ground (arith, last) in
    rw (← e)
      ((few, all), ap (λ n. n ∷ map (λ w. w.name) vs) named ∙ ap (λ names. t.name ∷ names) names)

find?-All :
    (P : ChainConfig → Type 0) (p : ChainConfig → Bool) (us : List ChainConfig) (u : ChainConfig)
    → All P us
    → find? p us ≡ some u
    → P u
find?-All P p [] u all h = absurd (ground (arith, h))
find?-All P p (v ∷ vs) u all h = elim (Bool-cases (p v)) [
  | inl here ↦ let e : v ≡ u = ground (arith, h, here) in rw (← e) (all.0)
  | inr later ↦ find?-All P p vs u all.1 (ground (arith, h, later))
]

length-map_rpc : (xs : List RpcMapper) → length (map (λ v. v.rpc) xs) ≡ length xs
length-map_rpc [] = refl
length-map_rpc (x ∷ xs) = ap suc (length-map_rpc xs)

-- Once the configuration's chains are initialised, a chain that `GetRpcConfig` finds has the name
-- asked for and at least one endpoint.
pub get_rpc_config-get_rpc :
    (ts us : List ChainConfig) (code : String) (t : ChainConfig)
    → init_rpcs ts ≡ ok us
    → get_rpc_config us code ≡ some t
    → (t.name ≡ code) × (0 < length (get_rpc t))
unfolding get_rpc_config get_rpc
get_rpc_config-get_rpc ts us code t init found =
    let few : 0 < length t.rpcs =
      find?-All (λ u. 0 < length u.rpcs) (λ v. v.name == code) us t (init_rpcs-All ts us init).0
        found in
    (
      (string_eq.decides t.name code).0 (find?-holds (λ v. v.name == code) us t found),
      omega (arith, few, length-map_rpc t.rpcs),
    )
