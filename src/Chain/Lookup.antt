-- ===== src/Chain/Lookup.antt =====
-- The registry after the package's `init`, and the balances that the gateway returns.
use walletus.Base.{
  String, List, [], ◌∷◌, map, Option, none, some, ok, ◌≡◌, refl, sym, ap, All, arith, ◌==◌,
  string_eq, >>=-eq-ok, Bool-cases, inl, inr, if◌then◌else◌,
}
use walletus.Bip.{check_valid_chain_code, find_chain}
use walletus.Chain.{ChainDef, chains, Dict, lookup}
use walletus.Chain.Gateway.{
  Client, Registry, register, get_client, register_all, init_registry, BalanceQuery,
  BatchBalanceResult, AnchorRef, NativeBalance, TokenBalance, get_balances, query_client,
  query_tokens, query_found, balance_result,
}

module _ (P : ChainDef → Type 0) where
  find_chain-All :
      (code : String) (cs : List ChainDef) (c : ChainDef)
      → All P cs
      → find_chain code cs ≡ ok c
      → P c × (c.name ≡ code)
  unfolding find_chain
  find_chain-All code [] c all h = ground (arith, h)
  find_chain-All code (x ∷ xs) c all h = elim (Bool-cases (code == x.name)) [
    | inl same ↦
        let e : x ≡ c = ground (arith, h, same) in
        rw (← e) (all.0, sym ((string_eq.decides code x.name).0 same))
    | inr differs ↦ find_chain-All code xs c all.1 (ground (arith, h, differs))
  ]

module _ (evm_client : ChainDef → Client) (tron_client sol_client : Client) where
  abbrev pub HasClient : ChainDef → Type 0
  HasClient c =
      (client : Client) × get_client c (init_registry evm_client tron_client sol_client)
        ≡ some client

  chains-HasClient : All HasClient chains
  unfolding init_registry register_all register get_client
  chains-HasClient = (
    (_, refl),
    ((_, refl), ((_, refl), ((_, refl), ((_, refl), ((_, refl), ((_, refl), ((_, refl), tt))))))),
  )

  -- Every chain that `CheckValidChainCode` accepts has a client once the package is initialised,
  -- and the chain has the given code as its name, where "arbitrum" stands for "ARB".
  pub check_valid_chain_code-HasClient :
      (code : String) (c : ChainDef)
      → check_valid_chain_code code ≡ ok c
      → HasClient c × (c.name ≡ (if code == "arbitrum" then "ARB" else code))
  unfolding check_valid_chain_code
  check_valid_chain_code-HasClient code c h = find_chain-All HasClient _ chains c chains-HasClient h

-- A result is built for each address, in the same order and at the same anchor.
map-balance_result :
    (anchor : AnchorRef) (native : Dict NativeBalance) (tokens : Dict (List TokenBalance))
    (xs : List String)
    → (map (λ x. x.address) (map (balance_result anchor native tokens) xs) ≡ xs)
      × All
          (λ x. (x.anchor ≡ anchor) × (x.native ≡ lookup x.address native))
          (map (balance_result anchor native tokens) xs)
map-balance_result anchor native tokens [] = (refl, tt)
map-balance_result anchor native tokens (x ∷ xs) =
    let (same, all) = map-balance_result anchor native tokens xs in
    (ap (λ ys. x ∷ ys) same, ((refl, refl), all))

-- What a client has answered to a query for balances.
pub record IsAnswered (client : Client) (q : BalanceQuery) (b : BatchBalanceResult) : Type 0 where
  pub anchor : AnchorRef
  pub native : Dict NativeBalance
  pub anchored : client.anchor q.chain.name q.consistency ≡ ok anchor
  pub balances : client.native_balance_batch q.chain.name q.addresses anchor ≡ ok native
  pub same_chain : b.chain ≡ q.chain
  pub in_order : map (λ x. x.address) b.results ≡ q.addresses
  pub each : All (λ x. (x.anchor ≡ anchor) × (x.native ≡ lookup x.address native)) b.results

query_client-IsAnswered :
    (client : Client) (q : BalanceQuery) (b : BatchBalanceResult)
    → query_client client q ≡ ok b
    → IsAnswered client q b
unfolding query_client
query_client-IsAnswered client q b h =
    let (anchor, anchored, h₁) = >>=-eq-ok (client.anchor q.chain.name q.consistency) _ h in
    let (native, balances, h₂) =
      >>=-eq-ok (client.native_balance_batch q.chain.name q.addresses anchor) _ h₁ in
    let (tokens, _, h₃) = >>=-eq-ok (query_tokens client q anchor) _ h₂ in
    let shape = map-balance_result anchor native tokens q.addresses in
    let e : record {
      chain = q.chain;
      results = map (balance_result anchor native tokens) q.addresses;
    }
        ≡ b =
      ground (arith, h₃) in
    rw (← e) (record {
      anchor = anchor;
      native = native;
      anchored = anchored;
      balances = balances;
      same_chain = refl;
      in_order = shape.0;
      each = shape.1;
    })

query_found-IsAnswered :
    (o : Option Client) (q : BalanceQuery) (b : BatchBalanceResult)
    → query_found o q ≡ ok b
    → (client : Client) × (o ≡ some client) × IsAnswered client q b
unfolding query_found
query_found-IsAnswered none q b h = ground (arith, h)
query_found-IsAnswered (some client) q b h = (client, refl, query_client-IsAnswered client q b h)

-- An answer of `GetBalances` comes from the client registered for the chain of the query; it has
-- one result for each address, in the order of the query, each at the anchor that the client has
-- given and with the native balance that the client's batch has for that address.
pub get_balances-IsAnswered :
    (r : Registry) (q : BalanceQuery) (b : BatchBalanceResult)
    → get_balances r q ≡ ok b
    → (client : Client) × (get_client q.chain r ≡ some client) × IsAnswered client q b
unfolding get_balances
get_balances-IsAnswered r q b h = query_found-IsAnswered (get_client q.chain r) q b h
