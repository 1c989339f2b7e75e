-- ===== src/Rpc/Solana/Client.antt =====
-- common/chain/solana/client.go: the methods of `SOLClient`.
use walletus.Base.{
  ℕ, suc, String, Option, none, some, List, [], ◌∷◌, if◌then◌else◌, Result, ok, err, ◌>>=◌, ◌==◌,
  string_eq, ltb, get_elem?,
}
use walletus.Base.Int.{ℤ, pos, int64}
use walletus.Chain.{Dict, lookup, insert}
use walletus.Chain.Gateway.{Consistency, AnchorRef, NativeBalance, TokenBalance}
use walletus.Chain.Json.{Json}
use walletus.Config.{ChainConfig}
use walletus.Rpc.Chunks.{chunk}
use walletus.Rpc.Loops.{fill, fill_batches, collect_each}
use walletus.Rpc.Nodes.{RpcError, unmarshal_result, not_implemented, HttpClient}
use walletus.Rpc.Session.{Session, with_client}
use walletus.Rpc.Solana.{
  SolEnv, call_rpc, get_slot, get_commitment_from_tag, get_account_balance, get_spl_token_balance,
  get_accounts, sol, spl,
}

-- `chunkStrings`
abbrev pub chunk_strings : ℤ → List String → List (List String)
chunk_strings = chunk

abbrev pub max_batch : ℤ
max_batch = pos 256

-- `mp[address]`, nil where the key is missing.
abbrev pub at_key : {A : Type 0} → String → Result RpcError (Dict A) → Result RpcError (Option A)
at_key address mp = mp >>= λ out. ok (lookup address out)

-- A failed query counts as a balance of 0.
abbrev pub or_zero : {A : Type 0} → A → Result RpcError A → A
or_zero nothing (ok balance) = balance
or_zero nothing (err text) = nothing

-- The balance of an account of a batch's reply, by its position.
unfoldable pub balance_at : List (Option ℕ) → ℕ → NativeBalance
balance_at accounts i = elim (get_elem? accounts i) [
  | none ↦ sol (pos 0)
  | some none ↦ sol (pos 0)
  | some (some lamports) ↦ if ltb 0 lamports then sol (int64 lamports) else sol (pos 0)
]

-- The loop over a batch from position `i`.
unfoldable pub fill_accounts :
    List (Option ℕ) → ℕ → List String → Dict NativeBalance → Dict NativeBalance
fill_accounts accounts i [] out = out
fill_accounts accounts i (addr ∷ batch) out =
    fill_accounts accounts (suc i) batch (insert addr (balance_at accounts i) out)

abbrev pub SolClient : SolEnv → Type 0
SolClient e = Session e.World

module _ (e : SolEnv) where
  open e use {World, unmarshal_slot}

  unfoldable pub native_or_zero : HttpClient → String → String → World → NativeBalance × World
  native_or_zero cli tag addr w =
      let balance = get_account_balance e cli addr tag w in
      (or_zero (sol (pos 0)) balance.0, balance.1)

  unfoldable pub token_or_zero :
      HttpClient → String → String → String → World → TokenBalance × World
  token_or_zero cli tag addr mint w =
      let balance = get_spl_token_balance e cli addr mint tag w in
      (or_zero (spl mint 0 (pos 0)) balance.0, balance.1)

  -- A batch after its reply.
  unfoldable pub after_accounts :
      HttpClient
      → String
      → List String
      → Dict NativeBalance
      → Result RpcError (List (Option ℕ))
      → World
      → Dict NativeBalance × World
  after_accounts cli tag batch out (ok accounts) w = (fill_accounts accounts 0 batch out, w)
  after_accounts cli tag batch out (err text) w = fill (native_or_zero cli tag) batch out w

  unfoldable pub native_batch :
      HttpClient → String → List String → Dict NativeBalance → World → Dict NativeBalance × World
  unfolding after_accounts
  native_batch cli tag batch out w =
      let reply = get_accounts e cli batch tag w in after_accounts cli tag batch out reply.0 reply.1

  module _ (chain : List ChainConfig) where
    unfoldable pub anchor :
        String → Consistency → SolClient e → Result RpcError AnchorRef × SolClient e
    anchor network cs c =
        let tag = if cs.mode == "" then "confirmed" else cs.mode in
        with_client chain network
          (λ cli w.
            let reply = call_rpc e cli (get_slot (get_commitment_from_tag tag)) w in
            (
              reply.0 >>= (λ result. elim (unmarshal_slot result) [
                | ok slot ↦ ok (record {
                  height = slot;
                  tag = cs.mode;
                  network = network;
                  provider = cli.name;
                })
                | err text ↦ err (unmarshal_result text)
              ]),
              reply.1,
            ))
          c

    unfoldable pub native_balance_batch :
        String
        → List String
        → AnchorRef
        → SolClient e
        → Result RpcError (Dict NativeBalance) × SolClient e
    native_balance_batch network [] a c = (ok [], c)
    native_balance_batch network (x ∷ addrs) a c =
        with_client chain network
          (λ cli w.
            let out =
              fill_batches (native_batch cli a.tag) (chunk_strings max_batch (x ∷ addrs)) [] w in
            (ok out.0, out.1))
          c

    unfoldable pub token_balances_batch :
        String
        → Dict (List String)
        → AnchorRef
        → SolClient e
        → Result RpcError (Dict (List TokenBalance)) × SolClient e
    token_balances_batch network [] a c = (ok [], c)
    token_balances_batch network (x ∷ addr2tokens) a c =
        with_client chain network
          (λ cli w.
            let out = collect_each (token_or_zero cli a.tag) (x ∷ addr2tokens) [] w in
            (ok out.0, out.1))
          c

    unfoldable pub native_balance :
        String
        → String
        → AnchorRef
        → SolClient e
        → Result RpcError (Option NativeBalance) × SolClient e
    native_balance network address a c =
        let mp = native_balance_batch network (address ∷ []) a c in (at_key address mp.0, mp.1)

    unfoldable pub token_balances_of :
        String
        → String
        → List String
        → AnchorRef
        → SolClient e
        → Result RpcError (Option (List TokenBalance)) × SolClient e
    token_balances_of network address tokens a c =
        let mp = token_balances_batch network ((address, tokens) ∷ []) a c in
        (at_key address mp.0, mp.1)

    unfoldable pub get_transaction :
        String → String → SolClient e → Result RpcError Json × SolClient e
    get_transaction network tx_hash c = (err not_implemented, c)
