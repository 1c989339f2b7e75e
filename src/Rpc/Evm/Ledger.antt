-- ===== src/Rpc/Evm/Ledger.antt =====
-- The two ways of common/chain/evm/abi.go to ask for token balances, against a ledger of what the
-- contracts return at a block.
use walletus.Base.{
  ℕ, suc, ◌+◌, String, some, List, [], ◌∷◌, ◌++◌, Bool, true, not, if◌then◌else◌, ltb, Result, ok,
  err, fail_if, length, map, ◌≡◌, refl, ap, sym, ◌∙◌, arith, get_elem?, >>=-eq-ok, Bool-cases, inl,
  inr, ◌||◌, ◌==◌, nat_eq, ◌⊎◌, ◌<◌, ◌-◌, false, take, drop_front, length-append,
}
use walletus.Base.Decimal.{Bytes, codes}
use walletus.Base.Numerals.{set_bytes}
use walletus.Base.Int.{ℤ, pos}
use walletus.Rpc.Chunks.{concat}
use walletus.Rpc.Nodes.{RpcError, call_error, unpack_error, size_mismatch}
use walletus.Rpc.Evm.{EvmEnv, Address, Pair, PairMap, put, balance_of_call, word}
use walletus.Rpc.Evm.Client.{
  multicall_batches, call_batches, put_decoded, put_results, decode_batch, pairs_rest,
  multicall_reply, results_of, to_lib,
}

to_lib-ok :
    {A : Type 0} (wrap : String → RpcError) (r : Result String A) (a : A)
    → to_lib wrap r ≡ ok a
    → r ≡ ok a
to_lib-ok wrap (ok b) a h = let same : b ≡ a = ground (arith, h) in ap ok same
to_lib-ok wrap (err text) a h = absurd (ground (arith, h))

-- What a call has returned, the flag and the bytes, stands for the balance `n`: the last 32 bytes
-- of a success, or 0 for a failure or for fewer bytes.
pub data StandsFor (success : Bool) (ret : Bytes) (n : ℕ) : Type 0 where
  number :
      (front last : Bytes)
      → success ≡ true
      → ret ≡ front ++ last
      → length last ≡ 32
      → set_bytes 0 last ≡ n
      → StandsFor success ret n
  no_number : (success ≡ false) ⊎ (length ret < 32) → n ≡ 0 → StandsFor success ret n

module _ (e : EvmEnv) where
  word-append :
      (front last : Bytes) → length last ≡ 32 → word e (front ++ last) ≡ pos (set_bytes 0 last)
  word-append front last size =
      let whole = length-append front last in
      let long : ltb (length (front ++ last)) 32 ≡ false = ground (arith, whole, size) in
      let place : length front ≡ length (front ++ last) - 32 = omega (arith, whole, size) in
      rw long
        (ap (λ s. pos (set_bytes 0 s)) (drop_front (length (front ++ last) - 32) front last place))

  word_short :
      (ret : Bytes) → (if not true || ltb (length ret) 32 then pos 0 else word e ret) ≡ word e ret
  word_short ret = elim (Bool-cases (ltb (length ret) 32)) [
    | inl short ↦ rw short refl
    | inr long ↦ rw long refl
  ]

  -- The two ways of reading it.
  decoded-StandsFor :
      (success : Bool) (ret : Bytes) (n : ℕ)
      → StandsFor success ret n
      → (if not success || ltb (length ret) 32 then pos 0 else word e ret) ≡ pos n
  decoded-StandsFor success ret n (number front last good split size value) =
      rw good
        (word_short ret ∙ ap (word e) split ∙ word-append front last size ∙ ap (λ k. pos k) value)
  decoded-StandsFor success ret n (no_number (inl failed) zero_left) = rw (failed, zero_left) refl
  decoded-StandsFor success ret n (no_number (inr short) zero_left) =
      ground (arith, short, zero_left)

  single-StandsFor :
      (success : Bool) (ret : Bytes) (n : ℕ)
      → StandsFor success ret n
      → word e (if success then ret else []) ≡ pos n
  single-StandsFor success ret n (number front last good split size value) =
      rw good (ap (word e) split ∙ word-append front last size ∙ ap (λ k. pos k) value)
  single-StandsFor success ret n (no_number (inl failed) zero_left) = rw (failed, zero_left) refl
  single-StandsFor true ret n (no_number (inr short) zero_left) = ground (arith, short, zero_left)
  single-StandsFor false ret n (no_number (inr short) zero_left) = rw zero_left refl

module _ (e : EvmEnv) (block : Bytes) (returned : Address × Bytes → Bool × Bytes)
    (balance : Address → Address → ℕ) where
  open e use {
    World, Conn, eth_call, eth_call_batch, from_hex, pack_try_aggregate, unpack_try_aggregate,
    keccak256,
  }

  -- A node that answers, answers by what the calls return: the reply to packed calls unpacks to the
  -- flags and the bytes of these calls, and the texts of a batch of calls are the bytes of those that
  -- succeed, and are empty for the others. What a call of `balanceOf(address)` returns, whose data are
  -- the selector and the owner behind 12 zeros, stands for the balance of the owner in the token.
  pub record IsHonest : Type 0 where
    pub multi :
        (rc : Conn) (target : Address) (calls : List (Address × Bytes)) (input text : Bytes)
        (decoded : List (Bool × Bytes)) (w : World)
        → pack_try_aggregate calls ≡ ok input
        → (eth_call rc target input block w).0 ≡ ok text
        → unpack_try_aggregate (from_hex text) ≡ ok decoded
        → decoded ≡ map returned calls
    pub single :
        (rc : Conn) (calls : List (Address × Bytes)) (results : ℕ → Bytes) (w : World)
        → (eth_call_batch rc calls block w).0 ≡ ok results
        → (i : ℕ) (call : Address × Bytes) → get_elem? calls i ≡ some call
        → from_hex (results i) ≡ (if (returned call).0 then (returned call).1 else [])
    pub tokens :
        (token owner : Address)
        → (let call : Address × Bytes = (
          token,
          take 4 (keccak256 (codes "balanceOf(address)"))
              ++ (0 ∷ 0 ∷ 0 ∷ 0 ∷ 0 ∷ 0 ∷ 0 ∷ 0 ∷ 0 ∷ 0 ∷ 0 ∷ 0 ∷ owner),
        ) in
            StandsFor (returned call).0 (returned call).1 (balance token owner))

  -- The map of the balances of the pairs, each a token and an owner.
  unfoldable pub by_ledger : List Pair → PairMap ℤ → PairMap ℤ
  by_ledger [] out = out
  by_ledger (p ∷ pairs) out = by_ledger pairs (put p (pos (balance p.0 p.1)) out)

  by_ledger-append :
      (xs ys : List Pair) (out : PairMap ℤ)
      → by_ledger (xs ++ ys) out ≡ by_ledger ys (by_ledger xs out)
  unfolding by_ledger
  by_ledger-append [] ys out = refl
  by_ledger-append (x ∷ xs) ys out = by_ledger-append xs ys (put x (pos (balance x.0 x.1)) out)

  module _ (honest : IsHonest) where
    put_decoded-map :
        (batch : List Pair) (out : PairMap ℤ)
        → put_decoded e batch (map returned (map (balance_of_call e) batch)) out
          ≡ by_ledger batch out
    unfolding put_decoded by_ledger
    put_decoded-map [] out = refl
    put_decoded-map (p ∷ batch) out =
        let r = returned (balance_of_call e p) in
        ap (λ v. put_decoded e batch (map returned (map (balance_of_call e) batch)) (put p v out))
          (decoded-StandsFor e r.0 r.1 (balance p.0 p.1) (honest.tokens p.0 p.1))
        ∙ put_decoded-map batch (put p (pos (balance p.0 p.1)) out)

    -- What a text of a batch has to be.
    abbrev text_of : Address × Bytes → Bytes
    text_of call = if (returned call).0 then (returned call).1 else []

    decode_batch-by_ledger :
        (rc : Conn) (target : Address) (input : Bytes) (w : World) (batch : List Pair)
        (out m : PairMap ℤ)
        → pack_try_aggregate (map (balance_of_call e) batch) ≡ ok input
        → decode_batch e batch out (eth_call rc target input block w).0 ≡ ok m
        → m ≡ by_ledger batch out
    unfolding decode_batch
    decode_batch-by_ledger rc target input w batch out m packed h =
        let calls = map (balance_of_call e) batch in
        let (text, h₁, r₁) =
          >>=-eq-ok (to_lib call_error (eth_call rc target input block w).0) _ h in
        let (decoded, h₂, r₂) =
          >>=-eq-ok (to_lib unpack_error (unpack_try_aggregate (from_hex text))) _ r₁ in
        let (_, _, r₃) =
          >>=-eq-ok (fail_if (not (length decoded == length batch)) size_mismatch) _ r₂ in
        let all : decoded ≡ map returned calls =
          honest.multi rc target calls input text decoded w packed
            (to_lib-ok call_error (eth_call rc target input block w).0 text h₁)
            (to_lib-ok unpack_error (unpack_try_aggregate (from_hex text)) decoded h₂) in
        let last : put_decoded e batch decoded out ≡ m = ground (arith, r₃) in
        sym last ∙ ap (λ d. put_decoded e batch d out) all ∙ put_decoded-map batch out

    results_of-by_ledger :
        (results : ℕ → Bytes) (i : ℕ) (batch : List Pair) (out : PairMap ℤ)
        → ((k : ℕ) (call : Address × Bytes)
            → get_elem? (map (balance_of_call e) batch) k ≡ some call
            → from_hex (results (k + i)) ≡ text_of call)
        → put_results e results i batch out ≡ by_ledger batch out
    unfolding put_results by_ledger
    results_of-by_ledger results i [] out same = refl
    results_of-by_ledger results i (p ∷ batch) out same =
        let r = returned (balance_of_call e p) in
        let now : from_hex (results i) ≡ text_of (balance_of_call e p) =
          (let z : i ≡ 0 + i = omega arith in
            ap (λ k. from_hex (results k)) z ∙ same 0 (balance_of_call e p) refl) in
        let shift : (k : ℕ) → k + suc i ≡ suc k + i = λ k. omega arith in
        ap (λ s. put_results e results (suc i) batch (put p (word e s) out)) now
        ∙ ap (λ v. put_results e results (suc i) batch (put p v out))
            (single-StandsFor e r.0 r.1 (balance p.0 p.1) (honest.tokens p.0 p.1))
        ∙ results_of-by_ledger results (suc i) batch (put p (pos (balance p.0 p.1)) out)
            (λ k call found. ap (λ j. from_hex (results j)) (shift k) ∙ same (suc k) call found)

    -- A loop that has gone on to the next batches.
    pairs_rest-ok :
        (r : Result RpcError (PairMap ℤ)) (w : World)
        (rest : PairMap ℤ → World → Result RpcError (PairMap ℤ) × World) (m : PairMap ℤ)
        → (pairs_rest e r w rest).0 ≡ ok m
        → (out : PairMap ℤ) × (r ≡ ok out) × ((rest out w).0 ≡ ok m)
    unfolding pairs_rest
    pairs_rest-ok (ok out) w rest m h = (out, refl, h)
    pairs_rest-ok (err text) w rest m h = absurd (ground (arith, h))

    multicall_reply-by_ledger :
        (rc : Conn) (target : Address) (batch : List Pair) (out m : PairMap ℤ) (w : World)
        (packed : Result String Bytes)
        → pack_try_aggregate (map (balance_of_call e) batch) ≡ packed
        → (multicall_reply e rc target block batch out w packed).0 ≡ ok m
        → m ≡ by_ledger batch out
    unfolding multicall_reply
    multicall_reply-by_ledger rc target batch out m w (ok input) same h =
        decode_batch-by_ledger rc target input w batch out m same h
    multicall_reply-by_ledger rc target batch out m w (err text) same h = absurd (ground (arith, h))

    pub multicall_batches-by_ledger :
        (rc : Conn) (target : Address) (batches : List (List Pair)) (out m : PairMap ℤ) (w : World)
        → (multicall_batches e rc target block batches out w).0 ≡ ok m
        → m ≡ by_ledger (concat batches) out
    unfolding multicall_batches by_ledger
    multicall_batches-by_ledger rc target [] out m w h =
        let same : out ≡ m = ground (arith, h) in sym same
    multicall_batches-by_ledger rc target (batch ∷ batches) out m w h =
        let packed = pack_try_aggregate (map (balance_of_call e) batch) in
        let done = multicall_reply e rc target block batch out w packed in
        let (mid, h₁, h₂) =
          pairs_rest-ok done.0 done.1 (multicall_batches e rc target block batches) m h in
        multicall_batches-by_ledger rc target batches mid m done.1 h₂
        ∙ ap (by_ledger (concat batches))
            (multicall_reply-by_ledger rc target batch out mid w packed refl h₁)
        ∙ sym (by_ledger-append batch (concat batches) out)

    from_zero :
        (rc : Conn) (calls : List (Address × Bytes)) (results : ℕ → Bytes) (w : World)
        → (eth_call_batch rc calls block w).0 ≡ ok results
        → (k : ℕ) (call : Address × Bytes) → get_elem? calls k ≡ some call
        → from_hex (results (k + 0)) ≡ text_of call
    from_zero rc calls results w h k call found =
        let z : k + 0 ≡ k = omega arith in
        ap (λ j. from_hex (results j)) z ∙ honest.single rc calls results w h k call found

    results_of-ok :
        (rc : Conn) (batch : List Pair) (out m : PairMap ℤ) (w : World)
        (r : Result String (ℕ → Bytes))
        → (eth_call_batch rc (map (balance_of_call e) batch) block w).0 ≡ r
        → results_of e batch out r ≡ ok m
        → m ≡ by_ledger batch out
    unfolding results_of
    results_of-ok rc batch out m w (err text) same h = absurd (ground (arith, h))
    results_of-ok rc batch out m w (ok results) same h =
        let last : put_results e results 0 batch out ≡ m = ground (arith, h) in
        sym last
        ∙ results_of-by_ledger results 0 batch out
            (from_zero rc (map (balance_of_call e) batch) results w same)

    pub call_batches-by_ledger :
        (rc : Conn) (batches : List (List Pair)) (out m : PairMap ℤ) (w : World)
        → (call_batches e rc block batches out w).0 ≡ ok m
        → m ≡ by_ledger (concat batches) out
    unfolding call_batches by_ledger
    call_batches-by_ledger rc [] out m w h = let same : out ≡ m = ground (arith, h) in sym same
    call_batches-by_ledger rc (batch ∷ batches) out m w h =
        let reply = eth_call_batch rc (map (balance_of_call e) batch) block w in
        let (mid, h₁, h₂) =
          pairs_rest-ok (results_of e batch out reply.0) reply.1 (call_batches e rc block batches) m
            h in
        call_batches-by_ledger rc batches mid m reply.1 h₂
        ∙ ap (by_ledger (concat batches)) (results_of-ok rc batch out mid w reply.0 refl h₁)
        ∙ sym (by_ledger-append batch (concat batches) out)
