-- ===== src/Rpc/Tron/Client.antt =====
-- common/chain/tron/client.go: the methods of `TRXClient`, over the clients that it has made and the
-- world of its nodes.
use walletus.Base.{
  String, Option, none, some, List, [], ◌∷◌, if◌then◌else◌, Result, ok, err, ◌>>=◌, ◌==◌, string_eq,
}
use walletus.Base.Int.{ℤ, pos}
use walletus.Chain.{Dict, lookup}
use walletus.Chain.Gateway.{Consistency, AnchorRef, NativeBalance, TokenBalance}
use walletus.Chain.Json.{Json}
use walletus.Config.{ChainConfig}
use walletus.Rpc.Chunks.{chunk}
use walletus.Rpc.Loops.{fill, fill_batches, collect_each}
use walletus.Rpc.Nodes.{RpcError, invalid_block_tag, not_implemented, HttpClient}
use walletus.Rpc.Session.{Session, with_client}
use walletus.Rpc.Tron.{
  TronEnv, no_params, wallet_getnowblock, call_rpc, block_number, parse_block_number, uint64,
  get_account_balance, get_trc20_balance, trx, trc20,
}

-- `chunkStrings`
abbrev pub chunk_strings : ℤ → List String → List (List String)
chunk_strings = chunk

abbrev pub max_batch : ℤ
max_batch = pos 256

-- `mp[address]`, nil where the key is missing.
abbrev pub at_key : {A : Type 0} → String → Result RpcError (Dict A) → Result RpcError (Option A)
at_key address mp = mp >>= λ out. ok (lookup address out)

-- A failed query counts as a balance of 0.
abbrev pub or_zero : {A : Type 0} → A → Result RpcError A → A
or_zero nothing (ok balance) = balance
or_zero nothing (err text) = nothing

module _ (e : TronEnv) where
  open e use {World}

  -- A round of the loop over the addresses of a batch.
  unfoldable pub native_or_zero : HttpClient → String → World → NativeBalance × World
  native_or_zero cli addr w =
      let balance = get_account_balance e cli addr w in (or_zero (trx (pos 0)) balance.0, balance.1)

  -- A round of the loop over the tokens of an address.
  unfoldable pub token_or_zero : HttpClient → String → String → World → TokenBalance × World
  token_or_zero cli addr token w =
      let balance = get_trc20_balance e cli token addr w in
      (or_zero (trc20 token (pos 0)) balance.0, balance.1)

abbrev pub TrxClient : TronEnv → Type 0
TrxClient e = Session e.World

module _ (e : TronEnv) (chain : List ChainConfig) where
  open e use {World}

  -- The block that a tag stands for.
  block_of : String → HttpClient → World → Result RpcError ℤ × World
  block_of tag cli w =
      let now_block = call_rpc e cli wallet_getnowblock no_params w in
      let now_number = now_block.0 >>= λ resp. ok (block_number resp) in
      if tag == "latest"
      then (now_number, now_block.1)
      else if tag == "latest_solid"
      then (now_number, now_block.1)
      else (elim (parse_block_number tag) [
        | none ↦ (err (invalid_block_tag tag), w)
        | some n ↦ (ok n, w)
      ])

  unfoldable pub anchor :
      String → Consistency → TrxClient e → Result RpcError AnchorRef × TrxClient e
  unfolding block_of
  anchor network cs c =
      let tag = if cs.mode == "" then "latest" else cs.mode in
      with_client chain network
        (λ cli w.
          let block = block_of tag cli w in
          (
            block.0 >>= (λ n. ok (record {
              height = uint64 n;
              tag = cs.mode;
              network = network;
              provider = cli.name;
            })),
            block.1,
          ))
        c

  unfoldable pub native_balance_batch :
      String → List String → TrxClient e → Result RpcError (Dict NativeBalance) × TrxClient e
  native_balance_batch network [] c = (ok [], c)
  native_balance_batch network (a ∷ addrs) c =
      with_client chain network
        (λ cli w.
          let out =
            fill_batches (fill (native_or_zero e cli)) (chunk_strings max_batch (a ∷ addrs)) [] w in
          (ok out.0, out.1))
        c

  unfoldable pub token_balances_batch :
      String
      → Dict (List String)
      → TrxClient e
      → Result RpcError (Dict (List TokenBalance)) × TrxClient e
  token_balances_batch network [] c = (ok [], c)
  token_balances_batch network (a ∷ addr2tokens) c =
      with_client chain network
        (λ cli w.
          let out = collect_each (token_or_zero e cli) (a ∷ addr2tokens) [] w in (ok out.0, out.1))
        c

  unfoldable pub native_balance :
      String → String → TrxClient e → Result RpcError (Option NativeBalance) × TrxClient e
  native_balance network address c =
      let mp = native_balance_batch network (address ∷ []) c in (at_key address mp.0, mp.1)

  unfoldable pub token_balances_of :
      String
      → String
      → List String
      → TrxClient e
      → Result RpcError (Option (List TokenBalance)) × TrxClient e
  token_balances_of network address tokens c =
      let mp = token_balances_batch network ((address, tokens) ∷ []) c in
      (at_key address mp.0, mp.1)

  unfoldable pub get_transaction :
      String → String → TrxClient e → Result RpcError Json × TrxClient e
  get_transaction network tx_hash c = (err not_implemented, c)
