-- ===== src/Rpc/Nodes.antt =====
-- The HTTP clients that common/chain/tron/client.go and common/chain/solana/client.go keep for
-- their nodes, in the same words; the alias is also that of common/chain/evm/abi.go.
use walletus.Base.{
  ℕ, zero, suc, String, Option, none, some, List, [], ◌∷◌, ◌++◌, Bool, false, ◌&&◌, if◌then◌else◌,
  leb, ltb, ◌+◌, ◌≤◌, ◌<◌, length, take, drop, Result, ok, err, ◌==◌, nat_eq, string_eq, ◌≡◌, refl,
  All, arith, ap, ◌∙◌, length-take, if-rule,
}
use walletus.Base.Decimal.{Bytes, codes}
use walletus.Base.Int.{ℤ}
use walletus.Chain.{Dict, lookup, insert}
use walletus.Chain.Json.{Json}
use walletus.Config.{ChainConfig, get_rpc_config, get_rpc, init_rpcs, get_rpc_config-get_rpc}

-- The errors of the clients, with the texts and numbers that their messages carry.
pub data RpcError : Type 0 where
  missing_config : String → RpcError
  no_rpc : String → RpcError
  dial_failed : String → RpcError
  create_request : String → RpcError
  http_request : String → RpcError
  read_response : String → RpcError
  http_status : ℕ → String → RpcError
  unmarshal_response : String → String → RpcError
  rpc_error : Json → RpcError
  rpc_code : ℤ → String → RpcError
  unmarshal_result : String → RpcError
  call_error : String → RpcError
  invalid_block_tag : String → RpcError
  empty_header : String → RpcError
  decode_base58 : String → RpcError
  invalid_length : ℕ → RpcError
  invalid_prefix : ℕ → RpcError
  invalid_checksum : RpcError
  pack_error : String → RpcError
  unpack_error : String → RpcError
  size_mismatch : RpcError
  not_implemented : RpcError

pub record HttpClient : Type 0 where
  pub base_url : Bytes
  pub name : Bytes

abbrev lower : ℕ → ℕ
lower c = if leb b'A' c && leb c b'Z' then c + 32 else c

-- `strings.ToLower` of an ASCII text.
abbrev pub to_lower : Bytes → Bytes
to_lower [] = []
to_lower (c ∷ s) = lower c ∷ to_lower s

abbrev is_scheme_end : Bytes → Bool
is_scheme_end (a ∷ b ∷ c ∷ s) = a == b':' && (b == b'/' && c == b'/')
is_scheme_end s = false

-- What follows the first "://", or the whole text, which comes first.
after_scheme : Bytes → Bytes → Bytes
after_scheme whole [] = whole
after_scheme whole (c ∷ s) =
    let rest = after_scheme whole s in if is_scheme_end (c ∷ s) then drop 2 s else rest

before_slash : Bytes → Bytes
before_slash [] = []
before_slash (c ∷ s) = let rest = before_slash s in if c == b'/' then [] else c ∷ rest

-- A text longer than the bound is cut.
abbrev cut : ℕ → Bytes → Bytes
cut n s = if ltb n (length s) then take n s else s

-- `shortAlias`
unfoldable pub short_alias : Bytes → Bytes → Bytes
unfolding after_scheme before_slash
short_alias chain url = to_lower chain ++ b':' ∷ cut 28 (before_slash (after_scheme url url))

-- `strings.TrimSuffix(url, "/")`
unfoldable pub trim_slash : Bytes → Bytes
trim_slash [] = []
trim_slash (c ∷ []) = if c == b'/' then [] else c ∷ []
trim_slash (c ∷ d ∷ s) = c ∷ trim_slash (d ∷ s)

-- The loop over the endpoints, which stops at the first.
first_client : String → List Bytes → Option HttpClient
first_client network [] = none
first_client network (url ∷ urls) =
    some (record { base_url = trim_slash url; name = short_alias (codes network) url })

-- A client that was found in the configuration, put into the map.
keep_client :
    String → Option HttpClient → Dict HttpClient → Result RpcError HttpClient × Dict HttpClient
keep_client network none clients = (err (missing_config network), clients)
keep_client network (some client) clients = (ok client, insert network client clients)

configured : String → Option ChainConfig → Option HttpClient
unfolding first_client
configured network none = none
configured network (some cc) = first_client network (get_rpc cc)

unfoldable pub ensure_found :
    List ChainConfig
    → String
    → Option HttpClient
    → Dict HttpClient
    → Result RpcError HttpClient × Dict HttpClient
unfolding keep_client configured
ensure_found chain network (some client) clients = (ok client, clients)
ensure_found chain network none clients =
    keep_client network (configured network (get_rpc_config chain network)) clients

-- `ensureClient`, and with it `pick`. The mutex makes the call one step, and a configuration without
-- endpoints never reaches the check for a client that is still nil.
unfoldable pub ensure_client :
    List ChainConfig → String → Dict HttpClient → Result RpcError HttpClient × Dict HttpClient
unfolding ensure_found
ensure_client chain network clients = ensure_found chain network (lookup network clients) clients

IsNoSlash : ℕ → Type 0
IsNoSlash c = (c == b'/') ≡ false

before_slash-IsNoSlash : (s : Bytes) → All IsNoSlash (before_slash s)
unfolding before_slash IsNoSlash
before_slash-IsNoSlash [] = tt
before_slash-IsNoSlash (c ∷ s) =
    if-rule (All IsNoSlash) (c == b'/') (λ slash. tt) (λ other. (other, before_slash-IsNoSlash s))

All-take : (n : ℕ) (s : Bytes) → All IsNoSlash s → All IsNoSlash (take n s)
All-take zero s h = tt
All-take (suc n) [] h = tt
All-take (suc n) (c ∷ s) h = (h.0, All-take n s h.1)

length-cut : (n : ℕ) (s : Bytes) → length (cut n s) ≤ n
length-cut n s =
    if-rule (λ t. length t ≤ n) (ltb n (length s)) {x = take n s} {y = s}
      (λ long. omega (arith, length-take n s)) (λ short. ground (arith, short))

-- The alias of an endpoint is the chain's name in lower case, a colon and at most 28 bytes without a
-- slash, so that nothing of the endpoint's path, where keys stand, is shown.
pub short_alias-host :
    (chain url : Bytes)
    → (host : Bytes) × (short_alias chain url ≡ (to_lower chain ++ b':' ∷ host))
      × All (λ c. (c == b'/') ≡ false) host
      × (length host ≤ 28)
unfolding short_alias IsNoSlash
short_alias-host chain url =
    let host = before_slash (after_scheme url url) in
    (
      cut 28 host,
      refl,
      if-rule (All IsNoSlash) (ltb 28 (length host))
          (λ long. All-take 28 host (before_slash-IsNoSlash (after_scheme url url)))
          (λ short. before_slash-IsNoSlash (after_scheme url url)),
      length-cut 28 host,
    )

-- What a call of `ensureClient` that gave a client has left.
pub record IsKept (network : String) (client : HttpClient) (before after : Dict HttpClient)
    : Type 0 where
  -- the next call gives the same client, whatever the configuration says then, and changes nothing
  pub again : (chain : List ChainConfig) → ensure_client chain network after ≡ (ok client, after)
  -- the clients of the other networks are those from before
  pub others :
      (other : String) → (network == other) ≡ false → lookup other after ≡ lookup other before

lookup-IsKept :
    (network : String) (client : HttpClient) (before after : Dict HttpClient)
    → lookup network after ≡ some client
    → ((other : String) → (network == other) ≡ false → lookup other after ≡ lookup other before)
    → IsKept network client before after
unfolding ensure_client ensure_found
lookup-IsKept network client before after found rest = record {
  again = λ chain. rw found refl;
  others = rest;
}

keep_client-IsKept :
    (network : String) (o : Option HttpClient) (clients : Dict HttpClient)
    → ((client : HttpClient)
        → (keep_client network o clients).0 ≡ ok client
        → IsKept network client clients (keep_client network o clients).1)
unfolding keep_client
keep_client-IsKept network none clients client h = absurd (ground (arith, h))
keep_client-IsKept network (some made) clients client h =
    let e : made ≡ client = ground (arith, h) in
    rw e (
      lookup-IsKept network client clients ((network, client) ∷ clients)
        (rw ((string_eq.decides network network).1 refl) refl) (λ other differs. rw differs refl))

ensure_found-IsKept :
    (chain : List ChainConfig) (network : String) (o : Option HttpClient)
    (clients : Dict HttpClient) (client : HttpClient)
    → lookup network clients ≡ o
    → (ensure_found chain network o clients).0 ≡ ok client
    → IsKept network client clients (ensure_found chain network o clients).1
unfolding ensure_found
ensure_found-IsKept chain network none clients client found h =
    keep_client-IsKept network (configured network (get_rpc_config chain network)) clients client h
ensure_found-IsKept chain network (some kept) clients client found h =
    let e : kept ≡ client = ground (arith, h) in
    lookup-IsKept network client clients clients (found ∙ ap some e) (λ other differs. refl)

-- Once `ensureClient` has given a client for a network, every later call for it gives that client
-- and changes nothing, and the clients of the other networks are untouched.
pub ensure_client-IsKept :
    (chain : List ChainConfig) (network : String) (clients : Dict HttpClient) (client : HttpClient)
    → (ensure_client chain network clients).0 ≡ ok client
    → IsKept network client clients (ensure_client chain network clients).1
unfolding ensure_client
ensure_client-IsKept chain network clients client h =
    ensure_found-IsKept chain network (lookup network clients) clients client refl h

first_client-some :
    (network : String) (urls : List Bytes)
    → 0 < length urls
    → (client : HttpClient) × (first_client network urls ≡ some client)
unfolding first_client
first_client-some network [] few = absurd (omega arith)
first_client-some network (url ∷ urls) few = (_, refl)

ensure_found-some :
    (chain : List ChainConfig) (network : String) (o : Option HttpClient)
    (clients : Dict HttpClient) (cc : ChainConfig)
    → get_rpc_config chain network ≡ some cc
    → 0 < length (get_rpc cc)
    → (client : HttpClient) × ((ensure_found chain network o clients).0 ≡ ok client)
unfolding ensure_found keep_client configured
ensure_found-some chain network (some kept) clients cc found few = (kept, refl)
ensure_found-some chain network none clients cc found few =
    let (client, made) = first_client-some network (get_rpc cc) few in
    (client, rw (found, made) refl)

-- With the configuration's chains initialised, `ensureClient` gives a client for every chain that
-- the configuration names.
pub ensure_client-init_rpcs :
    (ts chain : List ChainConfig) (network : String) (clients : Dict HttpClient) (cc : ChainConfig)
    → init_rpcs ts ≡ ok chain
    → get_rpc_config chain network ≡ some cc
    → (client : HttpClient) × ((ensure_client chain network clients).0 ≡ ok client)
unfolding ensure_client
ensure_client-init_rpcs ts chain network clients cc init found =
    ensure_found-some chain network (lookup network clients) clients cc found
      (get_rpc_config-get_rpc ts chain network cc init found).1
