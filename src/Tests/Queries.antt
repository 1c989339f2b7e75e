-- ===== src/Tests/Queries.antt =====
-- The client of the EVM chains at concrete inputs.
use walletus.Base.{
  ℕ, suc, Option, none, some, List, [], ◌∷◌, Bool, true, false, not, ok, ◌≡◌, refl, ap, sym, ◌∙◌,
  arith, All, map, if◌then◌else◌, get_elem?, inl, ◌==◌, nat_eq,
}
use walletus.Base.Decimal.{Bytes, codes, format, digits}
use walletus.Base.Int.{ℤ, pos}
use walletus.Base.Numerals.{format_hex, set_string}
use walletus.Chain.{Dict, lookup}
use walletus.Chain.Gateway.{AnchorRef, Consistency, NativeBalance}
use walletus.Chain.Json.{null}
use walletus.Rpc.Chunks.{chunk}
use walletus.Rpc.Evm.{
  EvmEnv, EvmClient, RpcPool, Address, Pair, PairMap, pick, ensure_pool, block_param, put,
  pool_found, first_of, hex_to_big, native_symbol,
}
use walletus.Rpc.Evm.Anchored.{anchor-block_param}
use walletus.Rpc.Evm.Answers.{
  native_balance_batch-HasBalances, HasBalances, multicall_balance_of-batched_balance_of,
}
use walletus.Rpc.Evm.Client.{
  anchor, with_conn, with_picked, multicall_balance_of, batched_balance_of, native_batches,
  native_rest, after_batch, fill_results, multicall_batches, multicall_reply, decode_batch,
  put_decoded, pairs_rest, call_batches, results_of, put_results,
}
use walletus.Rpc.Evm.Client.{native_balance_batch as evm_balance_batch}
use walletus.Rpc.Evm.Ledger.{IsHonest, StandsFor, number, no_number, by_ledger}

-- 32 bytes, the last of them 1.
abbrev word_one : Bytes
word_one =
    0 ∷ 0 ∷ 0 ∷ 0 ∷ 0 ∷ 0 ∷ 0 ∷ 0 ∷ 0 ∷ 0 ∷ 0 ∷ 0 ∷ 0 ∷ 0 ∷ 0 ∷ 0 ∷ 0 ∷ 0 ∷ 0 ∷ 0 ∷ 0 ∷ 0 ∷ 0 ∷ 0
    ∷ 0 ∷ 0 ∷ 0 ∷ 0 ∷ 0 ∷ 0 ∷ 0 ∷ 1 ∷ []

-- A token that starts with `b'u'` fails.
is_token : Address → Bool
is_token [] = true
is_token (c ∷ s) = not (c == b'u')

returned : Address × Bytes → Bool × Bytes
returned call = (is_token call.0, word_one)

balance : Address → Address → ℕ
balance token owner = if is_token token then 1 else 0

-- The packed calls are told apart by whether they succeed.
abbrev mark : Bool → ℕ
mark ok? = if ok? then 1 else 0

abbrev pack_calls : List (Address × Bytes) → Bytes
pack_calls [] = []
pack_calls (call ∷ calls) = mark (is_token call.0) ∷ pack_calls calls

abbrev unpack_calls : Bytes → List (Bool × Bytes)
unpack_calls [] = []
unpack_calls (c ∷ s) = (c == 1, word_one) ∷ unpack_calls s

-- The text of a call is `1` before its bytes, that of a failed one is empty.
abbrev from_text : Bytes → Bytes
from_text [] = []
from_text (c ∷ s) = s

abbrev text_for : Option (Address × Bytes) → Bytes
text_for none = []
text_for (some call) = if is_token call.0 then 1 ∷ word_one else []

abbrev text_at : List (Address × Bytes) → ℕ → Bytes
text_at calls i = text_for (get_elem? calls i)

abbrev evm_env : EvmEnv
evm_env = record {
  World = ℕ;
  Conn = ℕ;
  dial = λ url w. (ok 0, w);
  block_number = λ rc tag w. (ok (codes "0x7b"), suc w);
  balance_batch = λ rc xs block w. (ok (λ i. codes "0x5"), suc w);
  eth_call = λ rc to input block w. (ok (0 ∷ input), suc w);
  eth_call_batch = λ rc calls block w. (ok (text_at calls), suc w);
  receipt = λ rc hash w. (ok null, w);
  hex_to_address = λ s. codes s;
  address_hex = λ a. "0x";
  from_hex = from_text;
  pack_try_aggregate = λ calls. ok (pack_calls calls);
  unpack_try_aggregate = λ raw. ok (unpack_calls raw);
  keccak256 = λ s. 1 ∷ 2 ∷ 3 ∷ 4 ∷ [];
  unread = λ s. pos 0;
}

mark-one : (ok? : Bool) → (mark ok? == 1) ≡ ok?
mark-one true = refl
mark-one false = refl

unpack_calls-pack_calls :
    (calls : List (Address × Bytes)) → unpack_calls (pack_calls calls) ≡ map returned calls
unfolding returned
unpack_calls-pack_calls [] = refl
unpack_calls-pack_calls (call ∷ calls) =
    ap (λ b. (b, word_one) ∷ unpack_calls (pack_calls calls)) (mark-one (is_token call.0))
    ∙ ap (λ l. (is_token call.0, word_one) ∷ l) (unpack_calls-pack_calls calls)

stands : (success : Bool) → StandsFor success word_one (if success then 1 else 0)
stands true = number [] word_one refl refl refl refl
stands false = no_number (inl refl) refl

shown : (b : Bool) → from_text (if b then 1 ∷ word_one else []) ≡ (if b then word_one else [])
shown true = refl
shown false = refl

text_lem :
    (calls : List (Address × Bytes)) (i : ℕ) (call : Address × Bytes)
    → get_elem? calls i ≡ some call
    → from_text (text_at calls i) ≡ (if (returned call).0 then (returned call).1 else [])
unfolding returned
text_lem calls i call found = ap (λ o. from_text (text_for o)) found ∙ shown (is_token call.0)

honest : (block : Bytes) → IsHonest evm_env block returned balance
unfolding returned balance
honest block = record {
  multi = λ rc target calls input text decoded w packed called unpacked.
      let e₁ : pack_calls calls ≡ input = ground (arith, packed) in
      let e₂ : 0 ∷ input ≡ text = ground (arith, called) in
      let e₃ : unpack_calls (from_text text) ≡ decoded = ground (arith, unpacked) in
      sym e₃
      ∙ ap (λ t. unpack_calls (from_text t)) (sym e₂)
      ∙ ap unpack_calls (sym e₁)
      ∙ unpack_calls-pack_calls calls;
  single = λ rc calls results w called i call found.
      let same : text_at calls ≡ results = ground (arith, called) in
      ap (λ r. from_text (r i)) (sym same) ∙ text_lem calls i call found;
  tokens = λ token owner. stands (is_token token);
}

abbrev pool : RpcPool evm_env
pool = record { clients = 0 ∷ []; names = codes "eth:node" ∷ [] }

abbrev evm_client : EvmClient evm_env
evm_client = record {
  pools = ("ETH", pool) ∷ [];
  mc_addr = ("ETH", "0x5ba1e12693dc8f9c48aad8770482f4739beed696") ∷ [];
  world = 0;
}

abbrev at_123 : Consistency
at_123 = record { mode = "123"; min_confirmations = 0 }

picked : (pick evm_env [] "ETH" evm_client).0 ≡ ok (0, codes "eth:node")
unfolding pick ensure_pool pool_found first_of
picked = refl

digits_123 : codes "123" ≡ format 123
unfolding format digits
digits_123 = refl

anchor-block_param_example :
    (a : AnchorRef) × ((anchor evm_env [] "ETH" at_123 evm_client).0 ≡ ok a)
    × (a.height ≡ 123)
    × (block_param a ≡ (b'0' ∷ b'x' ∷ format_hex 123))
anchor-block_param_example =
    anchor-block_param evm_env [] "ETH" at_123 evm_client 123 0 (codes "eth:node") digits_123
      (omega arith) (omega arith) picked

abbrev latest : AnchorRef
latest = record { height = 123; tag = "latest"; network = "ETH"; provider = codes "eth:node" }

abbrev balances : Dict NativeBalance
balances =
    ("0xb", record { symbol = "ETH"; decimals = 18; amount = pos 5 })
    ∷ ("0xa", record { symbol = "ETH"; decimals = 18; amount = pos 5 })
    ∷ []

answered :
    (evm_balance_batch evm_env [] "ETH" ("0xa" ∷ "0xb" ∷ []) latest evm_client).0 ≡ ok balances
unfolding evm_balance_batch with_conn with_picked pick ensure_pool pool_found first_of
    native_batches native_rest after_batch fill_results hex_to_big native_symbol chunk set_string
    block_param
answered = refl

-- Everybody has 5.
five : HasBalances evm_env (block_param latest) (λ addr. 5)
unfolding format_hex
five = record {
  texts = λ rc addrs results w h i addr found.
      let same : (λ (i : ℕ). codes "0x5") ≡ results = ground (arith, h) in ap (λ r. r i) (sym same);
}

native_balance_batch-HasBalances_example :
    All
      (λ addr.
        lookup addr balances
        ≡ some (record { symbol = native_symbol "ETH"; decimals = 18; amount = pos 5 }))
      ("0xa" ∷ "0xb" ∷ [])
native_balance_batch-HasBalances_example =
    native_balance_batch-HasBalances evm_env [] "ETH" ("0xa" ∷ "0xb" ∷ []) latest (λ addr. 5)
      evm_client balances five answered

abbrev pairs : List Pair
pairs = (codes "t", codes "a") ∷ (codes "u", codes "a") ∷ []

abbrev held : PairMap ℤ
held = ((codes "t", codes "a"), pos 1) ∷ ((codes "u", codes "a"), pos 0) ∷ []

multi_answered : (multicall_balance_of evm_env [] "ETH" pairs latest evm_client).0 ≡ ok held
unfolding is_token multicall_balance_of with_conn with_picked pick ensure_pool pool_found first_of
    chunk multicall_batches multicall_reply pairs_rest decode_batch put_decoded put block_param
multi_answered = refl

single_answered : (batched_balance_of evm_env [] "ETH" pairs latest evm_client).0 ≡ ok held
unfolding is_token batched_balance_of with_conn with_picked pick ensure_pool pool_found first_of
    chunk call_batches results_of put_results pairs_rest put block_param
single_answered = refl

multicall_balance_of-batched_balance_of_example :
    (held ≡ held) × (held ≡ by_ledger evm_env (block_param latest) returned balance pairs [])
multicall_balance_of-batched_balance_of_example =
    multicall_balance_of-batched_balance_of evm_env returned balance [] "ETH" pairs latest
      evm_client evm_client held held (honest (block_param latest)) multi_answered single_answered
