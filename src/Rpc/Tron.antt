-- ===== src/Rpc/Tron.antt =====
-- common/chain/tron/client.go. The HTTP exchange with the node is a step of its world, so that each
-- call may have another answer; `singleflight`, which lets calls that run at the same time share an
-- answer, and the mutex are not modelled.
pub mod Client
pub mod Words
pub mod Replies
pub mod Answers
pub mod Encoded
use walletus.Base.{
  ℕ, zero, suc, String, Option, none, some, List, [], ◌∷◌, ◌++◌, Bool, true, false, not,
  if◌then◌else◌, leb, ltb, ◌-◌, ◌^◌, length, take, drop, Result, ok, err, ◌>>=◌, ◌>>◌, fail_if,
  ◌==◌, nat_eq, string_eq, get_or,
}
use walletus.Base.Decimal.{Bytes, codes, same_bytes}
use walletus.Base.Int.{ℤ, pos, negsuc, int64}
use walletus.Base.Numerals.{set_string, is_int64, set_bytes, hex_encode, hex_decode}
use walletus.Chain.{Dict, lookup, insert}
use walletus.Chain.Gateway.{Consistency, AnchorRef, NativeBalance, TokenBalance}
use walletus.Chain.Json.{Json, null, num, str, arr, obj, Items, nil, cons, Fields, get}
use walletus.Config.{ChainConfig}
use walletus.Rpc.Nodes.{
  RpcError, create_request, http_request, read_response, http_status, unmarshal_response, rpc_error,
  invalid_block_tag, decode_base58, invalid_length, invalid_prefix, invalid_checksum,
  not_implemented, HttpClient, ensure_client,
}

-- The parameters of the three calls, which `json.Marshal` never refuses.
pub data Params : Type 0 where
  no_params : Params
  get_account : String → Params
  trigger_constant_contract : String → String → Bytes → Params

-- A reply's status, and its body or the error of reading it.
pub record Response : Type 0 where
  pub status : ℕ
  pub body : Result String String

-- net/http, `json.Unmarshal` into a map, package base58 and SHA-256.
pub record TronEnv : Type 1 where
  pub World : Type 0
  pub new_request : Bytes → Params → Option String
  pub send : Bytes → Params → World → Result String Response × World
  pub unmarshal : String → Result String Fields
  pub base58_decode : String → Result String Bytes
  pub sha256 : Bytes → Bytes

abbrev pub wallet_getnowblock : Bytes
wallet_getnowblock = codes "wallet/getnowblock"

abbrev pub wallet_getaccount : Bytes
wallet_getaccount = codes "wallet/getaccount"

abbrev pub wallet_triggerconstantcontract : Bytes
wallet_triggerconstantcontract = codes "wallet/triggerconstantcontract"

abbrev to_lib : {A : Type 0} → (String → RpcError) → Result String A → Result RpcError A
to_lib wrap (ok a) = ok a
to_lib wrap (err text) = err (wrap text)

-- The error that a reply's object carries.
pub check_error : Fields → Json → Result RpcError Fields
check_error result null = ok result
check_error result message = err (rpc_error message)

-- `parseBlockNumber`
unfoldable pub parse_block_number : String → Option ℤ
parse_block_number s = elim (set_string 10 (codes s)) [
  | none ↦ none
  | some n ↦ if is_int64 n then some n else none
]

-- `parseStringToInt64`
unfoldable pub parse_string_to_int64 : String → Option ℤ
parse_string_to_int64 s = elim (set_string 10 (codes s)) [
  | none ↦ none
  | some n ↦ if is_int64 n then some n else none
]

-- `uint64(x)` of an int64.
abbrev pub uint64 : ℤ → ℕ
uint64 (pos n) = n
uint64 (negsuc n) = 2 ^ 64 - 1 - n

-- `v.(map[string]interface{})` read at a key, nil where it is no map.
abbrev member : String → Json → Json
member k (obj fields) = get k fields
member k v = null

-- `rawData["number"].(float64)` as an int64, 0 where it is no number.
abbrev number_of : Json → ℤ
number_of (num n) = int64 n
number_of v = pos 0

unfoldable pub block_number : Fields → ℤ
block_number resp = number_of (member "number" (member "raw_data" (get "block_header" resp)))

-- The balance of an account's reply; JSON decodes no int64.
account_balance : Json → ℤ
unfolding parse_string_to_int64
account_balance (num n) = int64 n
account_balance (str v) = elim (parse_string_to_int64 v) [ none ↦ pos 0 | some b ↦ b ]
account_balance v = pos 0

abbrev pub trx : ℤ → NativeBalance
trx amount = record { symbol = "TRX"; decimals = 6; amount = amount }

abbrev pub trc20 : String → ℤ → TokenBalance
trc20 contract amount = record {
  contract = contract;
  native = record { symbol = ""; decimals = 18; amount = amount };
}

-- The last 32 bytes of a constant result, 0 where there are fewer.
pub word : Option Bytes → ℤ
word none = pos 0
word (some bytes) =
    if leb 32 (length bytes) then pos (set_bytes 0 (drop (length bytes - 32) bytes)) else pos 0

pub constant_result : Json → ℤ
unfolding word
constant_result (arr (cons (str hex) rest)) = word (hex_decode (codes hex))
constant_result v = pos 0

abbrev pub zero_bytes : ℕ → Bytes
zero_bytes zero = []
zero_bytes (suc n) = 0 ∷ zero_bytes n

module _ (e : TronEnv) where
  open e use {World, new_request, send, unmarshal, base58_decode, sha256}

  -- What `callRPC` does with the bytes of a reply.
  pub reply_of : ℕ → String → Result RpcError Fields
  unfolding check_error
  reply_of status body =
      if status == 200
      then (do
        result ← to_lib (λ text. unmarshal_response text body) (unmarshal body)
        check_error result (get "Error" result))
      else err (http_status status body)

  pub read_reply : Result String Response → Result RpcError Fields
  unfolding reply_of
  read_reply sent = do
    response ← to_lib http_request sent
    body ← to_lib read_response response.body
    reply_of response.status body

  -- The exchange, if the request could be made.
  pub exchange : Option String → Bytes → Params → World → Result RpcError Fields × World
  exchange (some text) url content w = (err (create_request text), w)
  exchange none url content w = let sent = send url content w in (read_reply sent.0, sent.1)

  unfoldable pub call_rpc : HttpClient → Bytes → Params → World → Result RpcError Fields × World
  unfolding exchange
  call_rpc cli method params w =
      let url = cli.base_url ++ b'/' ∷ method in exchange (new_request url params) url params w

  abbrev pub checksum : Bytes → Bytes
  checksum raw = take 4 (sha256 (sha256 raw))

  -- `base58AddressToHex`, its checks in their order.
  unfoldable pub base58_address_to_hex : String → Result RpcError Bytes
  base58_address_to_hex addr = do
    decoded ← to_lib decode_base58 (base58_decode addr)
    fail_if (not (length decoded == 25)) (invalid_length (length decoded))
    fail_if (not (get_or decoded 0 0 == 0x41)) (invalid_prefix (get_or decoded 0 0))
    fail_if (not (same_bytes (drop 21 decoded) (checksum (take 21 decoded)))) invalid_checksum
    ok (take 20 (drop 1 decoded))

  -- `encodeTRC20BalanceOfParameter`
  unfoldable pub encode_balance_of_parameter : String → Result RpcError Bytes
  encode_balance_of_parameter address = do
    addr_bytes ← base58_address_to_hex address
    ok (hex_encode (zero_bytes (32 - length addr_bytes) ++ addr_bytes))

  unfoldable pub get_account_balance :
      HttpClient → String → World → Result RpcError NativeBalance × World
  unfolding account_balance
  get_account_balance cli address w =
      let reply = call_rpc cli wallet_getaccount (get_account address) w in
      (reply.0 >>= (λ resp. ok (trx (account_balance (get "balance" resp)))), reply.1)

  pub balance_of_contract :
      HttpClient
      → String
      → String
      → Result RpcError Bytes
      → World
      → Result RpcError TokenBalance × World
  unfolding constant_result
  balance_of_contract cli token owner (err text) w = (err text, w)
  balance_of_contract cli token owner (ok parameter) w =
      let reply =
        call_rpc cli wallet_triggerconstantcontract
          (trigger_constant_contract owner token parameter) w in
      (
        reply.0 >>= (λ resp. ok (trc20 token (constant_result (get "constant_result" resp)))),
        reply.1,
      )

  unfoldable pub get_trc20_balance :
      HttpClient → String → String → World → Result RpcError TokenBalance × World
  unfolding balance_of_contract
  get_trc20_balance cli token owner w =
      balance_of_contract cli token owner (encode_balance_of_parameter owner) w
