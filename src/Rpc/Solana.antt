-- ===== src/Rpc/Solana.antt =====
-- common/chain/solana/client.go. As for TRON, an HTTP exchange with the node is a step of its world;
-- `singleflight` and the mutex are not modelled.
pub mod Client
pub mod Answers
use walletus.Base.{
  ℕ, zero, suc, String, Option, none, some, List, [], ◌∷◌, ◌++◌, Bool, true, false, ◌||◌, ◌&&◌,
  if◌then◌else◌, ltb, Result, ok, err, ◌>>=◌, ◌>>◌, fail_if, ◌==◌, nat_eq, string_eq, length, ◌-◌,
}
use walletus.Base.Decimal.{Bytes, codes}
use walletus.Base.Int.{ℤ, pos, negsuc, int64, ◌+ℤ◌}
use walletus.Base.Numerals.{set_string}
use walletus.Chain.Gateway.{NativeBalance, TokenBalance}
use walletus.Rpc.Nodes.{
  RpcError, create_request, http_request, read_response, http_status, unmarshal_response, rpc_code,
  unmarshal_result, HttpClient,
}

-- The parameters of the four calls: the addresses, the mint and the commitment.
pub data Params : Type 0 where
  get_slot : String → Params
  get_multiple_accounts : List String → String → Params
  get_balance : String → String → Params
  get_token_accounts_by_owner : String → String → String → Params

abbrev pub method : Params → String
method (get_slot c) = "getSlot"
method (get_multiple_accounts xs c) = "getMultipleAccounts"
method (get_balance a c) = "getBalance"
method (get_token_accounts_by_owner o m c) = "getTokenAccountsByOwner"

pub record Response : Type 0 where
  pub status : ℕ
  pub body : Result String String

-- The reply of JSON-RPC: its result as raw JSON, and its error, if there is one.
pub record Reply (Raw : Type 0) : Type 0 where
  pub result : Raw
  pub error : Option (ℤ × String)

-- Of a token account: the amount's digits, and the token's decimals.
pub record TokenAmount : Type 0 where
  pub amount : Bytes
  pub decimals : ℕ

-- net/http, and `json.Unmarshal` into the types of the five replies; of an account, which may be
-- null, the lamports are read.
pub record SolEnv : Type 1 where
  pub World : Type 0
  pub Raw : Type 0
  pub new_request : Bytes → Option String
  pub send : Bytes → String → Params → World → Result String Response × World
  pub unmarshal_reply : String → Result String (Reply Raw)
  pub unmarshal_slot : Raw → Result String ℕ
  pub unmarshal_accounts : Raw → Result String (List (Option ℕ))
  pub unmarshal_balance : Raw → Result String ℕ
  pub unmarshal_token_accounts : Raw → Result String (List TokenAmount)

-- `getCommitmentFromTag`
unfoldable pub get_commitment_from_tag : String → String
get_commitment_from_tag tag =
    if tag == "processed" || (tag == "confirmed" || tag == "finalized") then tag else "confirmed"

abbrev pub sol : ℤ → NativeBalance
sol amount = record { symbol = "SOL"; decimals = 9; amount = amount }

abbrev pub spl : String → ℕ → ℤ → TokenBalance
spl contract decimals amount = record {
  contract = contract;
  native = record { symbol = ""; decimals = decimals; amount = amount };
}

abbrev to_lib : {A : Type 0} → (String → RpcError) → Result String A → Result RpcError A
to_lib wrap (ok a) = ok a
to_lib wrap (err text) = err (wrap text)

-- An amount that is empty or no number counts nothing.
abbrev pub add_amount : ℤ → Option ℤ → ℤ
add_amount total none = total
add_amount total (some amount) = total +ℤ amount

abbrev pub first_decimals : ℕ → ℕ → ℕ
first_decimals decimals next = if decimals == 0 && ltb 0 next then next else decimals

-- The loop of `getSPLTokenBalance` over the token accounts: the total, and the first decimals that
-- are not 0.
unfoldable pub sum_amounts : List TokenAmount → ℤ → ℕ → ℤ × ℕ
sum_amounts [] total decimals = (total, decimals)
sum_amounts (account ∷ accounts) total decimals =
    sum_amounts accounts (add_amount total (set_string 10 account.amount))
      (first_decimals decimals account.decimals)

module _ (e : SolEnv) where
  open e use {
    World, Raw, new_request, send, unmarshal_reply, unmarshal_slot, unmarshal_accounts,
    unmarshal_balance, unmarshal_token_accounts,
  }

  check_error : Reply Raw → Option (ℤ × String) → Result RpcError Raw
  check_error reply none = ok reply.result
  check_error reply (some (code, message)) = err (rpc_code code message)

  reply_of : ℕ → String → Result RpcError Raw
  unfolding check_error
  reply_of status body =
      if status == 200
      then (do
        reply ← to_lib (λ text. unmarshal_response text body) (unmarshal_reply body)
        check_error reply reply.error)
      else err (http_status status body)

  read_reply : Result String Response → Result RpcError Raw
  unfolding reply_of
  read_reply sent = do
    response ← to_lib http_request sent
    body ← to_lib read_response response.body
    reply_of response.status body

  unfoldable pub call_rpc : HttpClient → Params → World → Result RpcError Raw × World
  unfolding read_reply
  call_rpc cli params w = elim (new_request cli.base_url) [
    | some text ↦ (err (create_request text), w)
    | none ↦ let sent = send cli.base_url (method params) params w in (read_reply sent.0, sent.1)
  ]

  unfoldable pub get_account_balance :
      HttpClient → String → String → World → Result RpcError NativeBalance × World
  get_account_balance cli address tag w =
      let reply = call_rpc cli (get_balance address (get_commitment_from_tag tag)) w in
      (
        reply.0
            >>= (λ result. to_lib unmarshal_result (unmarshal_balance result))
            >>= (λ value. ok (sol (int64 value))),
        reply.1,
      )

  unfoldable pub get_spl_token_balance :
      HttpClient → String → String → String → World → Result RpcError TokenBalance × World
  get_spl_token_balance cli owner mint tag w =
      let reply =
        call_rpc cli (get_token_accounts_by_owner owner mint (get_commitment_from_tag tag)) w in
      (
        reply.0
            >>= (λ result. to_lib unmarshal_result (unmarshal_token_accounts result))
            >>= (λ accounts.
                let total = sum_amounts accounts (pos 0) 0 in ok (spl mint total.1 total.0)),
        reply.1,
      )

  -- The reply to a batch: its accounts, or the error that makes the loop ask one by one.
  unfoldable pub get_accounts :
      HttpClient → List String → String → World → Result RpcError (List (Option ℕ)) × World
  get_accounts cli batch tag w =
      let reply = call_rpc cli (get_multiple_accounts batch (get_commitment_from_tag tag)) w in
      (reply.0 >>= (λ result. to_lib unmarshal_result (unmarshal_accounts result)), reply.1)
