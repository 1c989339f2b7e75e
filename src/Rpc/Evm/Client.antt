-- ===== src/Rpc/Evm/Client.antt =====
-- common/chain/evm/client.go, and the token queries of common/chain/evm/abi.go.
use walletus.Base.{
  ℕ, suc, String, Option, none, some, List, [], ◌∷◌, Bool, false, if◌then◌else◌, not, ltb, Result,
  ok, err, ◌>>=◌, ◌>>◌, fail_if, ◌==◌, nat_eq, string_eq, length, map, ◌||◌, ◌&&◌,
}
use walletus.Base.Decimal.{Bytes, codes}
use walletus.Base.Int.{ℤ, pos, negsuc}
use walletus.Base.Numerals.{set_string, format_hex}
use walletus.Chain.{Dict, lookup, insert}
use walletus.Chain.Gateway.{Consistency, AnchorRef, NativeBalance, TokenBalance}
use walletus.Chain.Json.{Json}
use walletus.Config.{ChainConfig}
use walletus.Rpc.Nodes.{
  RpcError, call_error, empty_header, invalid_block_tag, pack_error, unpack_error, size_mismatch,
}
use walletus.Rpc.Evm.{
  EvmEnv, EvmClient, Address, Pair, PairMap, put, pick, get_multicall_addr, chunk_strings,
  chunk_pairs, native_symbol, native_decimals, is_tag, block_param, hex_to_big, hex_to_uint64,
  flatten_pairs, explode_pairs, balance_of_call, word,
}

abbrev pub max_batch : ℤ
max_batch = pos 256

abbrev pub to_lib : {A : Type 0} → (String → RpcError) → Result String A → Result RpcError A
to_lib wrap (ok a) = ok a
to_lib wrap (err text) = err (wrap text)

abbrev pub at_key : {A : Type 0} → String → Result RpcError (Dict A) → Result RpcError (Option A)
at_key address mp = mp >>= λ out. ok (lookup address out)

-- A tag with the prefix "0x" stands for itself.
abbrev pub has_0x : Bytes → Bool
has_0x (c ∷ d ∷ s) = c == b'0' && d == b'x'
has_0x s = false

-- `"0x" + n.Text(16)`
abbrev pub text_0x : ℤ → Bytes
text_0x (pos n) = b'0' ∷ b'x' ∷ format_hex n
text_0x (negsuc n) = b'0' ∷ b'x' ∷ b'-' ∷ format_hex (suc n)

unfoldable pub decimal_block : String → Option ℤ → Result RpcError Bytes
decimal_block tag none = err (invalid_block_tag tag)
decimal_block tag (some n) = ok (text_0x n)

-- The block of a tag that no node is asked for.
unfoldable pub written_block : String → Result RpcError Bytes
unfolding decimal_block
written_block tag =
    if has_0x (codes tag) then ok (codes tag) else decimal_block tag (set_string 10 (codes tag))

header_number : String → Bytes → Result RpcError Bytes
header_number tag [] = err (empty_header tag)
header_number tag (c ∷ s) = ok (c ∷ s)

abbrev pub native : String → ℤ → NativeBalance
native network amount = record {
  symbol = native_symbol network;
  decimals = native_decimals network;
  amount = amount;
}

module _ (e : EvmEnv) where
  open e use {
    World, Conn, block_number, balance_batch, eth_call, eth_call_batch, receipt, hex_to_address,
    from_hex, pack_try_aggregate, unpack_try_aggregate,
  }

  unfoldable pub block_of : String → Conn → World → Result RpcError Bytes × World
  unfolding header_number
  block_of tag rc w =
      let head = block_number rc tag w in
      if is_tag tag
      then (to_lib call_error head.0 >>= header_number tag, head.1)
      else (written_block tag, w)

  -- The rounds over the addresses of a batch from position `i`, with the texts of the batch call.
  unfoldable pub fill_results :
      String → (ℕ → Bytes) → ℕ → List String → Dict NativeBalance → Dict NativeBalance
  fill_results network results i [] out = out
  fill_results network results i (ad ∷ batch) out =
      fill_results network results (suc i) batch
        (insert ad (native network (hex_to_big e (results i))) out)

  -- A batch after its call; an error ends the loop.
  unfoldable pub after_batch :
      String
      → List String
      → Dict NativeBalance
      → Result String (ℕ → Bytes)
      → Result RpcError (Dict NativeBalance)
  after_batch network batch out (err text) = err (call_error text)
  after_batch network batch out (ok results) = ok (fill_results network results 0 batch out)

  unfoldable pub native_rest :
      Result RpcError (Dict NativeBalance)
      → World
      → (Dict NativeBalance → World → Result RpcError (Dict NativeBalance) × World)
      → Result RpcError (Dict NativeBalance) × World
  native_rest (err text) w rest = (err text, w)
  native_rest (ok out) w rest = rest out w

  unfoldable pub native_batches :
      String
      → Bytes
      → Conn
      → List (List String)
      → Dict NativeBalance
      → World
      → Result RpcError (Dict NativeBalance) × World
  unfolding native_rest after_batch
  native_batches network block rc [] out w = (ok out, w)
  native_batches network block rc (batch ∷ batches) out w =
      let reply = balance_batch rc (map hex_to_address batch) block w in
      native_rest (after_batch network batch out reply.0) reply.1
        (native_batches network block rc batches)

  -- The rounds over the pairs of a batch, with the results of the multicall beside them.
  unfoldable pub put_decoded : List Pair → List (Bool × Bytes) → PairMap ℤ → PairMap ℤ
  put_decoded (p ∷ batch) ((success, ret) ∷ decoded) out =
      put_decoded batch decoded
        (put p (if not success || ltb (length ret) 32 then pos 0 else word e ret) out)
  put_decoded batch decoded out = out

  -- A multicall's reply, read.
  unfoldable pub decode_batch :
      List Pair → PairMap ℤ → Result String Bytes → Result RpcError (PairMap ℤ)
  decode_batch batch out reply = do
    result ← to_lib call_error reply
    decoded ← to_lib unpack_error (unpack_try_aggregate (from_hex result))
    fail_if (not (length decoded == length batch)) size_mismatch
    ok (put_decoded batch decoded out)

  unfoldable pub pairs_rest :
      Result RpcError (PairMap ℤ)
      → World
      → (PairMap ℤ → World → Result RpcError (PairMap ℤ) × World)
      → Result RpcError (PairMap ℤ) × World
  pairs_rest (err text) w rest = (err text, w)
  pairs_rest (ok out) w rest = rest out w

  -- The reply to the packed calls of a batch.
  unfoldable pub multicall_reply :
      Conn
      → Address
      → Bytes
      → List Pair
      → PairMap ℤ
      → World
      → Result String Bytes
      → Result RpcError (PairMap ℤ) × World
  multicall_reply rc target block batch out w (err text) = (err (pack_error text), w)
  multicall_reply rc target block batch out w (ok input) =
      let reply = eth_call rc target input block w in (decode_batch batch out reply.0, reply.1)

  -- The loop of `multicallBalanceOf`.
  unfoldable pub multicall_batches :
      Conn
      → Address
      → Bytes
      → List (List Pair)
      → PairMap ℤ
      → World
      → Result RpcError (PairMap ℤ) × World
  unfolding pairs_rest multicall_reply
  multicall_batches rc target block [] out w = (ok out, w)
  multicall_batches rc target block (batch ∷ batches) out w =
      let done =
        multicall_reply rc target block batch out w
          (pack_try_aggregate (map (balance_of_call e) batch)) in
      pairs_rest done.0 done.1 (multicall_batches rc target block batches)

  -- The rounds over the pairs of a batch from position `i`, with the texts of the batch call.
  unfoldable pub put_results : (ℕ → Bytes) → ℕ → List Pair → PairMap ℤ → PairMap ℤ
  put_results results i [] out = out
  put_results results i (p ∷ batch) out =
      put_results results (suc i) batch (put p (word e (from_hex (results i))) out)

  unfoldable pub results_of :
      List Pair → PairMap ℤ → Result String (ℕ → Bytes) → Result RpcError (PairMap ℤ)
  results_of batch out (err text) = err (call_error text)
  results_of batch out (ok results) = ok (put_results results 0 batch out)

  -- The loop of `batchedBalanceOf`.
  unfoldable pub call_batches :
      Conn → Bytes → List (List Pair) → PairMap ℤ → World → Result RpcError (PairMap ℤ) × World
  unfolding pairs_rest results_of
  call_batches rc block [] out w = (ok out, w)
  call_batches rc block (batch ∷ batches) out w =
      let reply = eth_call_batch rc (map (balance_of_call e) batch) block w in
      pairs_rest (results_of batch out reply.0) reply.1 (call_batches rc block batches)

  -- `pick`, and what is done with the connection that it gives.
  unfoldable pub with_picked :
      {A : Type 0}
      → (Conn → Bytes → World → Result RpcError A × World)
      → Result RpcError (Conn × Bytes)
      → EvmClient e
      → Result RpcError A × EvmClient e
  with_picked f (err text) c = (err text, c)
  with_picked f (ok (rc, name)) c =
      let done = f rc name c.world in (done.0, record c { world = done.1 })

  module _ (chain : List ChainConfig) where
    unfoldable pub with_conn :
        {A : Type 0}
        → String
        → (Conn → Bytes → World → Result RpcError A × World)
        → EvmClient e
        → Result RpcError A × EvmClient e
    unfolding with_picked
    with_conn network f c = let picked = pick e chain network c in with_picked f picked.0 picked.1

    unfoldable pub anchor :
        String → Consistency → EvmClient e → Result RpcError AnchorRef × EvmClient e
    unfolding block_of
    anchor network cs c =
        let tag = if cs.mode == "" then "latest" else cs.mode in
        with_conn network
          (λ rc name w.
            let block = block_of tag rc w in
            (
              block.0 >>= (λ text. ok (record {
                height = hex_to_uint64 e text;
                tag = cs.mode;
                network = network;
                provider = name;
              })),
              block.1,
            ))
          c

    unfoldable pub native_balance_batch :
        String
        → List String
        → AnchorRef
        → EvmClient e
        → Result RpcError (Dict NativeBalance) × EvmClient e
    native_balance_batch network [] a c = (ok [], c)
    native_balance_batch network (ad ∷ addrs) a c =
        with_conn network
          (λ rc name w.
            native_batches network (block_param a) rc (chunk_strings max_batch (ad ∷ addrs)) [] w)
          c

    unfoldable pub multicall_balance_of :
        String → List Pair → AnchorRef → EvmClient e → Result RpcError (PairMap ℤ) × EvmClient e
    multicall_balance_of network pairs a c =
        with_conn network
          (λ rc name w.
            multicall_batches rc
              (hex_to_address (get_multicall_addr e network (pick e chain network c).1))
              (block_param a) (chunk_pairs max_batch pairs) [] w)
          c

    unfoldable pub batched_balance_of :
        String → List Pair → AnchorRef → EvmClient e → Result RpcError (PairMap ℤ) × EvmClient e
    batched_balance_of network pairs a c =
        with_conn network
          (λ rc name w. call_batches rc (block_param a) (chunk_pairs max_batch pairs) [] w) c

    -- The calls one by one, when there is no multicall or it has failed.
    fall_back :
        String
        → List Pair
        → AnchorRef
        → Result RpcError (PairMap ℤ) × EvmClient e
        → Result RpcError (PairMap ℤ) × EvmClient e
    fall_back network pairs a (ok res, c) = (ok res, c)
    fall_back network pairs a (err text, c) = batched_balance_of network pairs a c

    token_pairs :
        String → List Pair → AnchorRef → EvmClient e → Result RpcError (PairMap ℤ) × EvmClient e
    unfolding fall_back
    token_pairs network [] a c = (ok [], c)
    token_pairs network (p ∷ pairs) a c =
        let plain = batched_balance_of network (p ∷ pairs) a c in
        let multi =
          fall_back network (p ∷ pairs) a (multicall_balance_of network (p ∷ pairs) a c) in
        if get_multicall_addr e network c == "" then plain else multi

    unfoldable pub token_balances_batch :
        String
        → Dict (List String)
        → AnchorRef
        → EvmClient e
        → Result RpcError (Dict (List TokenBalance)) × EvmClient e
    unfolding token_pairs
    token_balances_batch network addr2tokens a c =
        let res = token_pairs network (flatten_pairs e addr2tokens) a c in
        (res.0 >>= (λ p2bal. ok (explode_pairs e p2bal [])), res.1)

    unfoldable pub native_balance :
        String
        → String
        → AnchorRef
        → EvmClient e
        → Result RpcError (Option NativeBalance) × EvmClient e
    native_balance network address a c =
        let mp = native_balance_batch network (address ∷ []) a c in (at_key address mp.0, mp.1)

    unfoldable pub token_balances :
        String
        → String
        → List String
        → AnchorRef
        → EvmClient e
        → Result RpcError (Option (List TokenBalance)) × EvmClient e
    token_balances network address tokens a c =
        let mp = token_balances_batch network ((address, tokens) ∷ []) a c in
        (at_key address mp.0, mp.1)

    unfoldable pub get_transaction :
        String → String → EvmClient e → Result RpcError Json × EvmClient e
    get_transaction network tx_hash c =
        with_conn network
          (λ rc name w. let reply = receipt rc tx_hash w in (to_lib call_error reply.0, reply.1)) c
