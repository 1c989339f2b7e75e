-- ===== src/Rpc/Evm/Answers.antt =====
-- What the queries of common/chain/evm/client.go and abi.go answer.
use walletus.Base.{
  ℕ, zero, suc, ◌+◌, String, Bool, some, List, [], ◌∷◌, Result, ok, err, map, ◌≡◌, refl, ap, sym,
  ◌∙◌, All, All-append, All-map, arith, get_elem?,
}
use mathlib.Core.Path.{subst}
use walletus.Base.Decimal.{Bytes}
use walletus.Base.Int.{ℤ, pos}
use walletus.Base.Numerals.{format_hex, set_string-format_hex}
use walletus.Chain.{Dict, insert, lookup}
use walletus.Chain.Gateway.{AnchorRef, NativeBalance}
use walletus.Config.{ChainConfig}
use walletus.Rpc.Chunks.{concat, concat-chunk}
use walletus.Rpc.Loops.{Filled, Filled-insert, Filled-insert_self}
use walletus.Rpc.Nodes.{RpcError}
use walletus.Rpc.Evm.{
  EvmEnv, EvmClient, Address, Pair, PairMap, pick, block_param, hex_to_big, native_symbol,
  chunk_strings, chunk_pairs,
}
use walletus.Rpc.Evm.Client.{
  fill_results, after_batch, native_rest, native_batches, native, with_picked, with_conn,
  native_balance_batch, multicall_balance_of, batched_balance_of, max_batch,
}
use walletus.Rpc.Evm.Ledger.{
  IsHonest, by_ledger, multicall_batches-by_ledger, call_batches-by_ledger,
}

get_elem?-map :
    {A B : Type 0} (f : A → B) (xs : List A) (i : ℕ) (x : A)
    → get_elem? xs i ≡ some x
    → get_elem? (map f xs) i ≡ some (f x)
get_elem?-map f [] i x h = absurd (ground (arith, h))
get_elem?-map f (y ∷ ys) zero x h =
    let same : y ≡ x = ground (arith, h) in ap (λ z. some (f z)) same
get_elem?-map f (y ∷ ys) (suc i) x h = get_elem?-map f ys i x h

module _ (e : EvmEnv) where
  -- A call that answers has had a connection.
  with_picked-some :
      {A : Type 0} (f : e.Conn → Bytes → e.World → Result RpcError A × e.World)
      (r : Result RpcError (e.Conn × Bytes)) (c : EvmClient e) (a : A)
      → (with_picked e f r c).0 ≡ ok a
      → (rc : e.Conn) × (name : Bytes) × ((f rc name c.world).0 ≡ ok a)
  unfolding with_picked
  with_picked-some f (ok (rc, name)) c a h = (rc, name, h)
  with_picked-some f (err text) c a h = absurd (ground (arith, h))

  module _ (network : String) (block : Bytes) where
    -- The balance that the text at the address's position in the reply to its batch stands for.
    abbrev pub IsAccount : String → NativeBalance → Type 0
    IsAccount addr b =
        (rc : e.Conn) × (w : e.World) × (batch : List String) × (results : ℕ → Bytes) × (i : ℕ)
        × ((e.balance_batch rc (map e.hex_to_address batch) block w).0 ≡ ok results)
        × (get_elem? batch i ≡ some addr)
        × (b ≡ native network (hex_to_big e (results i)))

    module _ (rc : e.Conn) (w : e.World) (whole : List String) (results : ℕ → Bytes)
        (reply : (e.balance_batch rc (map e.hex_to_address whole) block w).0 ≡ ok results) where
      right :
          (i : ℕ) (x : String) (xs : List String)
          → ((k : ℕ) → get_elem? whole (k + i) ≡ get_elem? (x ∷ xs) k)
          → IsAccount x (native network (hex_to_big e (results i)))
      right i x xs same =
          let z : i ≡ 0 + i = omega arith in
          (rc, w, whole, results, i, reply, ap (get_elem? whole) z ∙ same 0, refl)

      step :
          (i : ℕ) (x : String) (xs : List String)
          → ((k : ℕ) → get_elem? whole (k + i) ≡ get_elem? (x ∷ xs) k)
          → (k : ℕ) → get_elem? whole (k + suc i) ≡ get_elem? xs k
      step i x xs same k =
          let z : k + suc i ≡ suc k + i = omega arith in ap (get_elem? whole) z ∙ same (suc k)

      fill_results-keeps :
          (xs : List String) (i : ℕ) (out : Dict NativeBalance) (key : String)
          → ((k : ℕ) → get_elem? whole (k + i) ≡ get_elem? xs k)
          → Filled IsAccount out key
          → Filled IsAccount (fill_results e network results i xs out) key
      unfolding fill_results
      fill_results-keeps [] i out key same filled = filled
      fill_results-keeps (x ∷ xs) i out key same filled =
          let b = native network (hex_to_big e (results i)) in
          fill_results-keeps xs (suc i) (insert x b out) key (step i x xs same)
            (Filled-insert IsAccount key x b out (right i x xs same) filled)

      fill_results-fills :
          (xs : List String) (i : ℕ) (out : Dict NativeBalance)
          → ((k : ℕ) → get_elem? whole (k + i) ≡ get_elem? xs k)
          → All (Filled IsAccount (fill_results e network results i xs out)) xs
      unfolding fill_results
      fill_results-fills [] i out same = tt
      fill_results-fills (x ∷ xs) i out same =
          let b = native network (hex_to_big e (results i)) in
          (
            fill_results-keeps xs (suc i) (insert x b out) x (step i x xs same)
                (Filled-insert_self IsAccount x b out (right i x xs same)),
            fill_results-fills xs (suc i) (insert x b out) (step i x xs same),
          )

    from_zero : (xs : List String) (k : ℕ) → get_elem? xs (k + 0) ≡ get_elem? xs k
    from_zero xs k = let z : k + 0 ≡ k = omega arith in ap (get_elem? xs) z

    -- What a map has gained over another one: nothing is lost, and the keys are filled.
    abbrev Gained : List String → Dict NativeBalance → Dict NativeBalance → Type 0
    Gained keys out m =
        ((key : String) → Filled IsAccount out key → Filled IsAccount m key)
        × All (Filled IsAccount m) keys

    All-keeps :
        (out m : Dict NativeBalance) (keys : List String)
        → ((key : String) → Filled IsAccount out key → Filled IsAccount m key)
        → All (Filled IsAccount out) keys
        → All (Filled IsAccount m) keys
    All-keeps out m [] keeps all = tt
    All-keeps out m (k ∷ keys) keeps all = (keeps k all.0, All-keeps out m keys keeps all.1)

    after_batch-Gained :
        (rc : e.Conn) (w : e.World) (batch : List String) (out m : Dict NativeBalance)
        (r : Result String (ℕ → Bytes))
        → (e.balance_batch rc (map e.hex_to_address batch) block w).0 ≡ r
        → after_batch e network batch out r ≡ ok m
        → Gained batch out m
    unfolding after_batch
    after_batch-Gained rc w batch out m (err text) reply h = absurd (ground (arith, h))
    after_batch-Gained rc w batch out m (ok results) reply h =
        let done = fill_results e network results 0 batch out in
        let same : done ≡ m = ground (arith, h) in
        subst (Gained batch out) same (
          (λ key filled.
              fill_results-keeps rc w batch results reply batch 0 out key (from_zero batch) filled),
          fill_results-fills rc w batch results reply batch 0 out (from_zero batch),
        )

    native_rest-ok :
        (r : Result RpcError (Dict NativeBalance)) (w : e.World)
        (rest : Dict NativeBalance → e.World → Result RpcError (Dict NativeBalance) × e.World)
        (m : Dict NativeBalance)
        → (native_rest e r w rest).0 ≡ ok m
        → (out : Dict NativeBalance) × (r ≡ ok out) × ((rest out w).0 ≡ ok m)
    unfolding native_rest
    native_rest-ok (ok out) w rest m h = (out, refl, h)
    native_rest-ok (err text) w rest m h = absurd (ground (arith, h))

    native_batches-Gained :
        (rc : e.Conn) (batches : List (List String)) (out m : Dict NativeBalance) (w : e.World)
        → (native_batches e network block rc batches out w).0 ≡ ok m
        → Gained (concat batches) out m
    unfolding native_batches
    native_batches-Gained rc [] out m w h =
        let same : out ≡ m = ground (arith, h) in
        subst (Gained [] out) same ((λ key filled. filled), tt)
    native_batches-Gained rc (batch ∷ batches) out m w h =
        let reply = e.balance_batch rc (map e.hex_to_address batch) block w in
        let (mid, h₁, h₂) =
          native_rest-ok (after_batch e network batch out reply.0) reply.1
            (native_batches e network block rc batches) m h in
        let now = after_batch-Gained rc w batch out mid reply.0 refl h₁ in
        let later = native_batches-Gained rc batches mid m reply.1 h₂ in
        (
          (λ key filled. later.0 key (now.0 key filled)),
          All-append (Filled IsAccount m) batch (concat batches)
              (All-keeps mid m batch later.0 now.1) later.1,
        )

  -- A batch of native balances that answers has for every address asked for the balance at the
  -- address's position in the node's reply to its batch, at the anchor's block.
  pub native_balance_batch-IsAccount_at :
      (chain : List ChainConfig) (network : String) (addrs : List String) (a : AnchorRef)
      (c : EvmClient e) (out : Dict NativeBalance)
      → (native_balance_batch e chain network addrs a c).0 ≡ ok out
      → All (Filled (IsAccount network (block_param a)) out) addrs
  unfolding native_balance_batch with_conn
  native_balance_batch-IsAccount_at chain network [] a c out h = tt
  native_balance_batch-IsAccount_at chain network (x ∷ addrs) a c out h =
      let picked = pick e chain network c in
      let batches = chunk_strings max_batch (x ∷ addrs) in
      let (rc, name, h₁) = with_picked-some _ picked.0 picked.1 out h in
      subst (All (Filled (IsAccount network (block_param a)) out))
        (concat-chunk max_batch (x ∷ addrs))
        (native_batches-Gained network (block_param a) rc batches [] out picked.1.world h₁).1

  -- A node whose texts are the balances of the addresses at the block, in hexadecimal.
  pub record HasBalances (block : Bytes) (balance : Address → ℕ) : Type 0 where
    pub texts :
        (rc : e.Conn) (addrs : List Address) (results : ℕ → Bytes) (w : e.World)
        → (e.balance_batch rc addrs block w).0 ≡ ok results
        → (i : ℕ) (addr : Address) → get_elem? addrs i ≡ some addr
        → results i ≡ b'0' ∷ b'x' ∷ format_hex (balance addr)

  hex_to_big-format_hex : (n : ℕ) → hex_to_big e (b'0' ∷ b'x' ∷ format_hex n) ≡ pos n
  unfolding hex_to_big
  hex_to_big-format_hex n = rw (set_string-format_hex n) refl

  Filled-HasBalances :
      (network : String) (block : Bytes) (balance : Address → ℕ) (out : Dict NativeBalance)
      (addr : String)
      → HasBalances block balance
      → Filled (IsAccount network block) out addr
      → lookup addr out
        ≡ some (record {
          symbol = native_symbol network;
          decimals = 18;
          amount = pos (balance (e.hex_to_address addr));
        })
  Filled-HasBalances network block balance out addr node
        (b, found, (rc, w, batch, results, i, reply, place, same)) =
      let a = e.hex_to_address addr in
      let text =
        node.texts rc (map e.hex_to_address batch) results w reply i a
          (get_elem?-map e.hex_to_address batch i addr place) in
      found
      ∙ ap (λ x. some x)
          (same
            ∙ ap (λ n. native network n)
                (ap (hex_to_big e) text ∙ hex_to_big-format_hex (balance a)))

  -- Against a node whose texts are the balances of the addresses at the anchor's block, in
  -- hexadecimal, a batch of native balances that answers gives for every address asked for its
  -- balance, with the symbol of the network.
  pub native_balance_batch-HasBalances :
      (chain : List ChainConfig) (network : String) (addrs : List String) (a : AnchorRef)
      (balance : Address → ℕ) (c : EvmClient e) (out : Dict NativeBalance)
      → HasBalances (block_param a) balance
      → (native_balance_batch e chain network addrs a c).0 ≡ ok out
      → All
          (λ addr.
            lookup addr out
            ≡ some (record {
              symbol = native_symbol network;
              decimals = 18;
              amount = pos (balance (e.hex_to_address addr));
            }))
          addrs
  native_balance_batch-HasBalances chain network addrs a balance c out node h =
      All-map (λ addr. Filled-HasBalances network (block_param a) balance out addr node) addrs
        (native_balance_batch-IsAccount_at chain network addrs a c out h)

  -- Against nodes that answer by what the contracts return at the anchor's block, where a token may
  -- fail or return too little for some owners, the multicall and the calls one by one give the same
  -- balances when both answer: for each pair that of the owner in the token, and 0 where there is
  -- none.
  pub multicall_balance_of-batched_balance_of :
      (returned : Address × Bytes → Bool × Bytes) (balance : Address → Address → ℕ)
      (chain : List ChainConfig) (network : String) (pairs : List Pair) (a : AnchorRef)
      (c d : EvmClient e) (m n : PairMap ℤ)
      → IsHonest e (block_param a) returned balance
      → (multicall_balance_of e chain network pairs a c).0 ≡ ok m
      → (batched_balance_of e chain network pairs a d).0 ≡ ok n
      → (m ≡ n) × (m ≡ by_ledger e (block_param a) returned balance pairs [])
  unfolding multicall_balance_of batched_balance_of with_conn
  multicall_balance_of-batched_balance_of returned balance chain network pairs a c d m n honest h
        k =
      let (rc, _, h₁) = with_picked-some _ (pick e chain network c).0 _ m h in
      let (rd, _, k₁) = with_picked-some _ (pick e chain network d).0 _ n k in
      let all =
        ap (λ ps. by_ledger e (block_param a) returned balance ps [])
          (concat-chunk max_batch pairs) in
      let multi =
        multicall_batches-by_ledger e (block_param a) returned balance honest rc _
          (chunk_pairs max_batch pairs) [] m _ h₁
        ∙ all in
      let single =
        call_batches-by_ledger e (block_param a) returned balance honest rd
          (chunk_pairs max_batch pairs) [] n _ k₁
        ∙ all in
      (multi ∙ sym single, multi)
