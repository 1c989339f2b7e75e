-- ===== src/Rpc/Evm.antt =====
-- common/chain/evm/abi.go: the connections to the nodes of a network, and the helpers of the queries.
-- `singleflight`, the mutexes and the time limits of the calls are not modelled.
pub mod Client
pub mod Ledger
pub mod Answers
pub mod Anchored
use walletus.Base.{
  ℕ, zero, suc, String, Option, none, some, List, [], ◌∷◌, ◌++◌, Bool, true, false, ◌||◌, ◌&&◌,
  Comparable, ◌↔◌, ap, if◌then◌else◌, leb, ltb, Result, ok, err, ◌>>=◌, ◌>>◌, fail_if, ◌==◌, nat_eq,
  string_eq, length, take, drop, ◌-◌, ◌+◌, ◌%◌, ◌^◌,
}
use walletus.Base.Decimal.{Bytes, codes, same_bytes, bytes_eq}
use walletus.Base.Int.{ℤ, pos, negsuc}
use walletus.Base.Numerals.{set_string, format_hex, set_bytes}
use walletus.Chain.{Dict, lookup, insert}
use walletus.Chain.Gateway.{AnchorRef, NativeBalance, TokenBalance}
use walletus.Chain.Json.{Json}
use walletus.Config.{ChainConfig, get_rpc_config, get_rpc}
use walletus.Rpc.Chunks.{chunk}
use walletus.Rpc.Nodes.{RpcError, missing_config, dial_failed, short_alias, to_lower, no_rpc}

-- An address has 20 bytes.
abbrev pub Address : Type 0
Address = Bytes

-- A token and an owner.
abbrev pub Pair : Type 0
Pair = Address × Address

-- Packages rpc, common and abi of go-ethereum, and Keccak-256. A call is a step of the nodes' world;
-- a batch call gives a text for each position of the batch, empty where the element has failed, since
-- the errors of the elements are not read.
pub record EvmEnv : Type 1 where
  pub World : Type 0
  pub Conn : Type 0
  pub dial : Bytes → World → Result String Conn × World
  -- of `eth_getBlockByNumber`: the field `number`, empty where it is missing
  pub block_number : Conn → String → World → Result String Bytes × World
  pub balance_batch : Conn → List Address → Bytes → World → Result String (ℕ → Bytes) × World
  pub eth_call : Conn → Address → Bytes → Bytes → World → Result String Bytes × World
  pub eth_call_batch :
      Conn → List (Address × Bytes) → Bytes → World → Result String (ℕ → Bytes) × World
  pub receipt : Conn → String → World → Result String Json × World
  pub hex_to_address : String → Address
  pub address_hex : Address → String
  pub from_hex : Bytes → Bytes
  pub pack_try_aggregate : List (Address × Bytes) → Result String Bytes
  pub unpack_try_aggregate : Bytes → Result String (List (Bool × Bytes))
  pub keccak256 : Bytes → Bytes
  -- what is left in a number whose text `SetString` refuses
  pub unread : Bytes → ℤ

pub record RpcPool (e : EvmEnv) : Type 0 where
  pub clients : List e.Conn
  pub names : List Bytes

-- The maps of an `EVMClient`, and the world.
pub record EvmClient (e : EvmEnv) : Type 0 where
  pub pools : Dict (RpcPool e)
  pub mc_addr : Dict String
  pub world : e.World

-- `strings.ToLower(network)` and `strings.ToUpper(network)` against a name.
abbrev pub is_network : String → String → Bool
is_network network name = same_bytes (to_lower (codes network)) (codes name)

-- `shortAlias`
abbrev pub alias_of : Bytes → Bytes → Bytes
alias_of = short_alias

-- `chunkStrings`
abbrev pub chunk_strings : ℤ → List String → List (List String)
chunk_strings = chunk

-- `chunkPairs`
abbrev pub chunk_pairs : ℤ → List Pair → List (List Pair)
chunk_pairs = chunk

unfoldable pub native_symbol : String → String
native_symbol network =
    if is_network network "bsc" || (is_network network "bnb" || is_network network "bnbchain")
    then "BNB"
    else if is_network network "bsc_testnet"
    then "tBNB"
    else if is_network network "polygon" || is_network network "matic"
    then "MATIC"
    else "ETH"

abbrev pub native_decimals : String → ℕ
native_decimals network = 18

-- The tags that stand for a block by themselves.
abbrev pub is_tag : String → Bool
is_tag tag = tag == "latest" || (tag == "safe" || tag == "finalized")

unfoldable pub block_param : AnchorRef → Bytes
block_param a =
    if is_tag a.tag
    then codes a.tag
    else if a.height == 0
    then codes "latest"
    else b'0' ∷ b'x' ∷ format_hex a.height

-- `strings.TrimPrefix(s, "0x")`
abbrev pub trim_0x : Bytes → Bytes
trim_0x (c ∷ d ∷ s) = if c == b'0' && d == b'x' then s else c ∷ d ∷ s
trim_0x s = s

-- The address in the networks' upper-case names, read in lower case.
unfoldable pub resolve_multicall : String → String
resolve_multicall network =
    if is_network network "eth"
      || (is_network network "eth_mainnet" || is_network network "mainnet")
    then "0x5ba1e12693dc8f9c48aad8770482f4739beed696"
    else if is_network network "bsc"
    then "0xca11bde05977b3631167028862be2a173976ca11"
    else if is_network network "bsc_testnet"
    then "0xca11bde05977b3631167028862be2a173976ca11"
    else ""

-- `out[p] = v`: the pair keeps its place in the order of the map.
abbrev pub same_pair : Pair → Pair → Bool
same_pair p q = p.0 == q.0 && p.1 == q.1

abbrev pub PairMap : Type 0 → Type 0
PairMap V = List (Pair × V)

unfoldable pub put : {V : Type 0} → Pair → V → PairMap V → PairMap V
put p v [] = (p, v) ∷ []
put p v ((q, u) ∷ m) = let rest = put p v m in if same_pair q p then (q, v) ∷ m else (q, u) ∷ rest

abbrev pub find : {V : Type 0} → Pair → PairMap V → Option V
find p [] = none
find p ((q, u) ∷ m) = let rest = find p m in if same_pair q p then some u else rest

module _ (e : EvmEnv) where
  open e use {World, Conn, dial, hex_to_address, address_hex, keccak256, unread}

  -- The loop over the endpoints: those that cannot be dialled are left out.
  unfoldable pub dial_all : String → List Bytes → World → RpcPool e × World
  dial_all network [] w = (record { clients = []; names = [] }, w)
  dial_all network (url ∷ urls) w =
      let dialled = dial url w in
      let rest = dial_all network urls dialled.1 in
      elim dialled.0 [
        | ok rc ↦ (
          record {
            clients = rc ∷ rest.0.clients;
            names = short_alias (codes network) url ∷ rest.0.names;
          },
          rest.1,
        )
        | err text ↦ rest
      ]

  -- The pool of the endpoints that were dialled, kept if it has a client.
  keep_pool : String → RpcPool e → EvmClient e → Result RpcError (RpcPool e) × EvmClient e
  keep_pool network pool c = elim pool.clients [
    | [] ↦ (err (dial_failed network), c)
    | _ ↦ (
      ok pool,
      record {
        pools = insert network pool c.pools;
        mc_addr = (elim (lookup network c.mc_addr) [
          | none ↦ insert network (resolve_multicall network) c.mc_addr
          | some addr ↦ c.mc_addr
        ]);
        world = c.world;
      },
    )
  ]

  dial_urls : String → List Bytes → EvmClient e → Result RpcError (RpcPool e) × EvmClient e
  unfolding keep_pool
  dial_urls network [] c = (err (missing_config network), c)
  dial_urls network (url ∷ urls) c =
      let pool = dial_all network (url ∷ urls) c.world in
      keep_pool network pool.0 (record c { world = pool.1 })

  dial_configured :
      String → Option ChainConfig → EvmClient e → Result RpcError (RpcPool e) × EvmClient e
  unfolding dial_urls
  dial_configured network none c = (err (missing_config network), c)
  dial_configured network (some cc) c = dial_urls network (get_rpc cc) c

  unfoldable pub pool_found :
      List ChainConfig
      → String
      → Option (RpcPool e)
      → EvmClient e
      → Result RpcError (RpcPool e) × EvmClient e
  unfolding dial_configured
  pool_found chain network (some pool) c = (ok pool, c)
  pool_found chain network none c = dial_configured network (get_rpc_config chain network) c

  -- `ensurePool`; the mutex makes the call one step.
  unfoldable pub ensure_pool :
      List ChainConfig → String → EvmClient e → Result RpcError (RpcPool e) × EvmClient e
  unfolding pool_found
  ensure_pool chain network c = pool_found chain network (lookup network c.pools) c

  -- The first connection of a pool, and its name.
  unfoldable pub first_of : String → RpcPool e → Result RpcError (Conn × Bytes)
  first_of network pool = elim pool.clients [
    | [] ↦ err (no_rpc network)
    | rc ∷ _ ↦ (elim pool.names [ [] ↦ err (no_rpc network) | name ∷ _ ↦ ok (rc, name) ])
  ]

  unfoldable pub pick :
      List ChainConfig → String → EvmClient e → Result RpcError (Conn × Bytes) × EvmClient e
  unfolding first_of
  pick chain network c =
      let pool = ensure_pool chain network c in (pool.0 >>= first_of network, pool.1)

  -- `c.mcAddr[network]`
  abbrev pub get_multicall_addr : String → EvmClient e → String
  get_multicall_addr network c = elim (lookup network c.mc_addr) [ none ↦ "" | some addr ↦ addr ]

  abbrev pub read_hex : Bytes → Option ℤ → ℤ
  read_hex s none = unread s
  read_hex s (some n) = n

  unfoldable pub hex_to_big : Bytes → ℤ
  hex_to_big [] = pos 0
  hex_to_big (c ∷ s) = read_hex (c ∷ s) (set_string 16 (trim_0x (c ∷ s)))

  -- `(*big.Int).Uint64`: the low 64 bits of the absolute value.
  abbrev pub low64 : ℤ → ℕ
  low64 (pos n) = n % 2 ^ 64
  low64 (negsuc n) = (n + 1) % 2 ^ 64

  unfoldable pub hex_to_uint64 : Bytes → ℕ
  hex_to_uint64 [] = 0
  hex_to_uint64 (c ∷ s) = low64 (read_hex (c ∷ s) (set_string 16 (trim_0x (c ∷ s))))

  -- The pairs of one owner.
  abbrev pub pairs_of : String → List String → List Pair
  pairs_of addr [] = []
  pairs_of addr (t ∷ toks) = (hex_to_address t, hex_to_address addr) ∷ pairs_of addr toks

  unfoldable pub flatten_pairs : Dict (List String) → List Pair
  flatten_pairs [] = []
  flatten_pairs ((addr, toks) ∷ m) = pairs_of addr toks ++ flatten_pairs m

  abbrev erc20 : Address → ℤ → TokenBalance
  erc20 token amount = record {
    contract = address_hex token;
    native = record { symbol = ""; decimals = 18; amount = amount };
  }

  -- `out[addr] = append(out[addr], b)`
  abbrev pub append_at : {A : Type 0} → String → A → Dict (List A) → Dict (List A)
  append_at addr b out = elim (lookup addr out) [
    | none ↦ insert addr (b ∷ []) out
    | some bs ↦ insert addr (bs ++ b ∷ []) out
  ]

  -- The rounds over the map of the balances, in the order that the range statement has.
  unfoldable pub explode_pairs : PairMap ℤ → Dict (List TokenBalance) → Dict (List TokenBalance)
  explode_pairs [] out = out
  explode_pairs ((pair, bal) ∷ m) out =
      explode_pairs m (append_at (address_hex pair.1) (erc20 pair.0 bal) out)

  abbrev zero_bytes12 : Bytes
  zero_bytes12 = 0 ∷ 0 ∷ 0 ∷ 0 ∷ 0 ∷ 0 ∷ 0 ∷ 0 ∷ 0 ∷ 0 ∷ 0 ∷ 0 ∷ []

  -- `erc20BalanceOfSelector`
  abbrev pub balance_of_selector : Bytes
  balance_of_selector = take 4 (keccak256 (codes "balanceOf(address)"))

  -- The data of a call of `balanceOf`: the selector and the owner, filled up to 32 bytes.
  abbrev pub balance_of_call : Pair → Address × Bytes
  balance_of_call p = (p.0, balance_of_selector ++ (zero_bytes12 ++ p.1))

  -- The last 32 bytes of a returned text as a number, 0 where there are fewer.
  abbrev pub word : Bytes → ℤ
  word ret = if ltb (length ret) 32 then pos 0 else pos (set_bytes 0 (drop (length ret - 32) ret))
