-- ===== src/Rpc/Solana/Answers.antt =====
-- What the batches of common/chain/solana/client.go answer.
use walletus.Base.{
  ℕ, suc, ◌+◌, String, List, [], ◌∷◌, Result, ok, err, ◌≡◌, refl, ap, ◌∙◌, All, arith, Option, some,
  get_elem?, ◌⊎◌, inl, inr, ◌<◌, nat_eq,
}
use mathlib.Core.Path.{subst}
use walletus.Base.Int.{ℤ, pos}
use walletus.Base.Decimal.{format}
use walletus.Base.Numerals.{set_string, set_string-format}
use walletus.Chain.{Dict, insert}
use walletus.Chain.Gateway.{AnchorRef, NativeBalance}
use walletus.Config.{ChainConfig}
use walletus.Rpc.Chunks.{concat-chunk}
use walletus.Rpc.Loops.{
  fill, fill_batches, Filled, Filled-insert, Filled-insert_self, IsFilling, fill-IsFilling,
  fill_batches-fills,
}
use walletus.Rpc.Nodes.{RpcError, HttpClient, ensure_client}
use walletus.Rpc.Session.{with_client-ok}
use walletus.Rpc.Solana.{
  SolEnv, TokenAmount, get_account_balance, get_accounts, sol, sum_amounts, add_amount,
  first_decimals,
}
use walletus.Rpc.Solana.Client.{
  SolClient, or_zero, native_or_zero, balance_at, fill_accounts, after_accounts, native_batch,
  chunk_strings, max_batch, native_balance_batch,
}

module _ (e : SolEnv) (cli : HttpClient) (tag : String) where
  -- The balance that a node gives for an address: as an answer to a query of it alone, 0 when that
  -- fails, or by the address's position in a batch and in the batch's reply.
  abbrev pub IsAccount : String → NativeBalance → Type 0
  IsAccount addr b =
      ((w : e.World) × (b ≡ or_zero (sol (pos 0)) (get_account_balance e cli addr tag w).0))
      ⊎ ((w : e.World) × (batch : List String) × (accounts : List (Option ℕ)) × (i : ℕ)
          × ((get_accounts e cli batch tag w).0 ≡ ok accounts)
          × (get_elem? batch i ≡ some addr)
          × (b ≡ balance_at accounts i))

  module _ (w : e.World) (whole : List String) (accounts : List (Option ℕ))
      (reply : (get_accounts e cli whole tag w).0 ≡ ok accounts) where
    step :
        (i : ℕ) (x : String) (xs : List String)
        → ((k : ℕ) → get_elem? whole (k + i) ≡ get_elem? (x ∷ xs) k)
        → (k : ℕ) → get_elem? whole (k + suc i) ≡ get_elem? xs k
    step i x xs same k =
        let e : k + suc i ≡ suc k + i = omega arith in ap (get_elem? whole) e ∙ same (suc k)

    right :
        (i : ℕ) (x : String) (xs : List String)
        → ((k : ℕ) → get_elem? whole (k + i) ≡ get_elem? (x ∷ xs) k)
        → IsAccount x (balance_at accounts i)
    right i x xs same =
        let e : i ≡ 0 + i = omega arith in
        inr (w, whole, accounts, i, reply, ap (get_elem? whole) e ∙ same 0, refl)

    fill_accounts-keeps :
        (xs : List String) (i : ℕ) (out : Dict NativeBalance) (key : String)
        → ((k : ℕ) → get_elem? whole (k + i) ≡ get_elem? xs k)
        → Filled IsAccount out key
        → Filled IsAccount (fill_accounts accounts i xs out) key
    unfolding fill_accounts
    fill_accounts-keeps [] i out key same filled = filled
    fill_accounts-keeps (x ∷ xs) i out key same filled =
        fill_accounts-keeps xs (suc i) (insert x (balance_at accounts i) out) key (step i x xs same)
          (Filled-insert IsAccount key x (balance_at accounts i) out (right i x xs same) filled)

    fill_accounts-fills :
        (xs : List String) (i : ℕ) (out : Dict NativeBalance)
        → ((k : ℕ) → get_elem? whole (k + i) ≡ get_elem? xs k)
        → All (Filled IsAccount (fill_accounts accounts i xs out)) xs
    unfolding fill_accounts
    fill_accounts-fills [] i out same = tt
    fill_accounts-fills (x ∷ xs) i out same =
        let now = insert x (balance_at accounts i) out in
        (
          fill_accounts-keeps xs (suc i) now x (step i x xs same)
              (Filled-insert_self IsAccount x (balance_at accounts i) out (right i x xs same)),
          fill_accounts-fills xs (suc i) now (step i x xs same),
        )

  from_zero : (xs : List String) (k : ℕ) → get_elem? xs (k + 0) ≡ get_elem? xs k
  from_zero xs k = let e : k + 0 ≡ k = omega arith in ap (get_elem? xs) e

  single : IsFilling IsAccount (fill (native_or_zero e cli tag))
  unfolding native_or_zero
  single = fill-IsFilling IsAccount (native_or_zero e cli tag) (λ addr w. inl (w, refl))

  after_accounts-keeps :
      (batch : List String) (out : Dict NativeBalance) (w : e.World)
      (r : Result RpcError (List (Option ℕ))) (later : e.World) (key : String)
      → (get_accounts e cli batch tag w).0 ≡ r
      → Filled IsAccount out key
      → Filled IsAccount (after_accounts e cli tag batch out r later).0 key
  unfolding after_accounts
  after_accounts-keeps batch out w (ok accounts) later key reply filled =
      fill_accounts-keeps w batch accounts reply batch 0 out key (from_zero batch) filled
  after_accounts-keeps batch out w (err text) later key reply filled =
      single.keeps batch out later key filled

  after_accounts-fills :
      (batch : List String) (out : Dict NativeBalance) (w : e.World)
      (r : Result RpcError (List (Option ℕ))) (later : e.World)
      → (get_accounts e cli batch tag w).0 ≡ r
      → All (Filled IsAccount (after_accounts e cli tag batch out r later).0) batch
  unfolding after_accounts
  after_accounts-fills batch out w (ok accounts) later reply =
      fill_accounts-fills w batch accounts reply batch 0 out (from_zero batch)
  after_accounts-fills batch out w (err text) later reply = single.fills batch out later

  native_batch-IsFilling : IsFilling IsAccount (native_batch e cli tag)
  unfolding native_batch
  native_batch-IsFilling = record {
    keeps = λ batch out w key filled.
        let r = get_accounts e cli batch tag w in
        after_accounts-keeps batch out w r.0 r.1 key refl filled;
    fills = λ batch out w.
        let r = get_accounts e cli batch tag w in after_accounts-fills batch out w r.0 r.1 refl;
  }

module _ (e : SolEnv) (chain : List ChainConfig) where
  -- When the network has a client, the batch answers for every address asked for with a balance
  -- that the node gives for this address: by its position in the reply to its batch, or, when that
  -- reply is an error, by a query of the address alone, and 0 where that fails too.
  pub native_balance_batch-IsAccount :
      (network : String) (addrs : List String) (a : AnchorRef) (c : SolClient e) (cli : HttpClient)
      → (ensure_client chain network c.clients).0 ≡ ok cli
      → (out : Dict NativeBalance) × ((native_balance_batch e chain network addrs a c).0 ≡ ok out)
        × All (Filled (IsAccount e cli a.tag) out) addrs
  unfolding native_balance_batch
  native_balance_batch-IsAccount network [] a c cli h = ([], refl, tt)
  native_balance_batch-IsAccount network (x ∷ addrs) a c cli h =
      let one = native_batch e cli a.tag in
      let batches = chunk_strings max_batch (x ∷ addrs) in
      (
        (fill_batches one batches [] c.world).0,
        with_client-ok chain network _ c cli h,
        subst
            (λ xs. All (Filled (IsAccount e cli a.tag) (fill_batches one batches [] c.world).0) xs)
            (concat-chunk max_batch (x ∷ addrs))
            (fill_batches-fills (IsAccount e cli a.tag) one (native_batch-IsFilling e cli a.tag)
              batches [] c.world),
      )

-- The token accounts that hold the given amounts.
abbrev pub holding : ℕ → List ℕ → List TokenAmount
holding decimals [] = []
holding decimals (n ∷ ns) = record { amount = format n; decimals = decimals } ∷ holding decimals ns

abbrev pub sum : List ℕ → ℕ
sum [] = 0
sum (n ∷ ns) = n + sum ns

sum_amounts-from :
    (decimals d t : ℕ) (ns : List ℕ)
    → (sum_amounts (holding decimals ns) (pos t) d).0 ≡ pos (t + sum ns)
unfolding sum_amounts
sum_amounts-from decimals d t [] = let e : t ≡ t + 0 = omega arith in ap pos e
sum_amounts-from decimals d t (n ∷ ns) =
    let d' = first_decimals d decimals in
    let read =
      ap (λ r. (sum_amounts (holding decimals ns) (add_amount (pos t) r) d').0)
        (set_string-format n) in
    let e : (t + n) + sum ns ≡ t + (n + sum ns) = omega arith in
    read ∙ sum_amounts-from decimals d' (t + n) ns ∙ ap pos e

sum_amounts-decimals :
    (decimals : ℕ) (total : ℤ) (ns : List ℕ)
    → 0 < decimals
    → (sum_amounts (holding decimals ns) total decimals).1 ≡ decimals
unfolding sum_amounts
sum_amounts-decimals decimals total [] h = refl
sum_amounts-decimals decimals total (n ∷ ns) h =
    let same : first_decimals decimals decimals ≡ decimals = ground arith in
    let total' = add_amount total (set_string 10 (format n)) in
    ap (λ d. (sum_amounts (holding decimals ns) total' d).1) same
    ∙ sum_amounts-decimals decimals total' ns h

-- Over token accounts that hold the given amounts of a token, the total is their sum, however large,
-- and the decimals are the token's.
pub sum_amounts-sum :
    (decimals n : ℕ) (ns : List ℕ)
    → 0 < decimals
    → sum_amounts (holding decimals (n ∷ ns)) (pos 0) 0 ≡ (pos (sum (n ∷ ns)), decimals)
unfolding sum_amounts
sum_amounts-sum decimals n ns h =
    let r = sum_amounts (holding decimals (n ∷ ns)) (pos 0) 0 in
    let e : 0 + sum (n ∷ ns) ≡ sum (n ∷ ns) = omega arith in
    let p : r.0 ≡ pos (sum (n ∷ ns)) = sum_amounts-from decimals 0 0 (n ∷ ns) ∙ ap pos e in
    let same : first_decimals 0 decimals ≡ decimals = ground arith in
    let total = add_amount (pos 0) (set_string 10 (format n)) in
    let q : r.1 ≡ decimals =
      ap (λ d. (sum_amounts (holding decimals ns) total d).1) same
      ∙ sum_amounts-decimals decimals total ns h in
    ap {B = ℤ × ℕ} (λ a. (a, r.1)) p ∙ ap {B = ℤ × ℕ} (λ b. (pos (sum (n ∷ ns)), b)) q
