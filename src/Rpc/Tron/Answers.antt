-- ===== src/Rpc/Tron/Answers.antt =====
-- What the batches of common/chain/tron/client.go answer.
use walletus.Base.{String, List, [], ◌∷◌, ok, ◌≡◌, refl, All}
use mathlib.Core.Path.{subst}
use walletus.Base.Int.{pos}
use walletus.Chain.{Dict}
use walletus.Chain.Gateway.{NativeBalance}
use walletus.Config.{ChainConfig}
use walletus.Rpc.Chunks.{concat-chunk}
use walletus.Rpc.Loops.{fill, fill_batches, Filled, fill-IsFilling, fill_batches-fills}
use walletus.Rpc.Nodes.{HttpClient, ensure_client}
use walletus.Rpc.Session.{with_client-ok}
use walletus.Rpc.Tron.{TronEnv, get_account_balance, trx}
use walletus.Rpc.Tron.Client.{
  TrxClient, or_zero, native_or_zero, chunk_strings, max_batch, native_balance_batch,
}

module _ (e : TronEnv) (chain : List ChainConfig) where
  -- The balance that a node's answer to a query of this address gives, 0 when the query fails.
  abbrev pub IsAccount : HttpClient → String → NativeBalance → Type 0
  IsAccount cli addr b =
      (w : e.World) × (b ≡ or_zero (trx (pos 0)) (get_account_balance e cli addr w).0)

  -- When the network has a client, the batch answers for every address asked for, with the balance
  -- that the node gives for this address and 0 where its query fails; no failed query makes the
  -- batch fail.
  pub native_balance_batch-Filled :
      (network : String) (addrs : List String) (c : TrxClient e) (cli : HttpClient)
      → (ensure_client chain network c.clients).0 ≡ ok cli
      → (out : Dict NativeBalance) × ((native_balance_batch e chain network addrs c).0 ≡ ok out)
        × All (Filled (IsAccount cli) out) addrs
  unfolding native_balance_batch native_or_zero
  native_balance_batch-Filled network [] c cli h = ([], refl, tt)
  native_balance_batch-Filled network (a ∷ addrs) c cli h =
      let ask = native_or_zero e cli in
      let batches = chunk_strings max_batch (a ∷ addrs) in
      (
        (fill_batches (fill ask) batches [] c.world).0,
        with_client-ok chain network _ c cli h,
        subst (λ xs. All (Filled (IsAccount cli) (fill_batches (fill ask) batches [] c.world).0) xs)
            (concat-chunk max_batch (a ∷ addrs))
            (fill_batches-fills (IsAccount cli) (fill ask)
              (fill-IsFilling (IsAccount cli) ask (λ addr w. (w, refl))) batches [] c.world),
      )
