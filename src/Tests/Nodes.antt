-- ===== src/Tests/Nodes.antt =====
-- The configuration and the clients of HTTP nodes at concrete inputs.
use walletus.Base.{
  ℕ, zero, suc, String, none, some, List, [], ◌∷◌, ◌++◌, false, ok, ◌≡◌, refl, ap, ◌∙◌,
  if◌then◌else◌, arith, All, length, ◌==◌, nat_eq, string_eq,
}
use Prim.Native.Char.{code}
use Prim.Native.String.{[] as no_text, ◌∷◌ as at_front}
use walletus.Base.Decimal.{Bytes, codes}
use walletus.Base.Int.{pos}
use walletus.Base.Numerals.{set_string, hex_decode}
use walletus.Bip.Derive.{KeyLib, tron_address}
use walletus.Chain.{Dict}
use walletus.Chain.Json.{Fields, num, field, end}
use walletus.Config.{
  ChainConfig, init_rpcs, init_rpc, add_rpcs, init_rpc_of, mapper, split_bars, split_both, push,
  atoi,
}
use walletus.Rpc.Chunks.{chunk, concat, IsBatch, chunk-IsBatch}
use walletus.Rpc.Nodes.{HttpClient, IsKept, ensure_client, ensure_client-IsKept, ensure_found}
use walletus.Rpc.Tron.{TronEnv, zero_bytes, encode_balance_of_parameter}
use walletus.Rpc.Tron.Client.{TrxClient}
use walletus.Rpc.Tron.Encoded.{IsShared, encode_balance_of_parameter-tron_address}

abbrev three : List ℕ
three = 1 ∷ 2 ∷ 3 ∷ []

chunk-IsBatch_example :
    (concat (chunk (pos 2) three) ≡ three) × All (IsBatch 2) (chunk (pos 2) three)
chunk-IsBatch_example = chunk-IsBatch 1 three (omega arith)

abbrev endpoint : Bytes
endpoint = codes "https://node.example/secret||7"

abbrev tron_config : ChainConfig
tron_config = record {
  name = "TRON";
  ws_rpc = "";
  query_rpc = endpoint ∷ [];
  slot_parallel = pos 0;
  tx_detal = pos 0;
  range_round = pos 0;
  rpcs = [];
  rpc_map = [];
}

abbrev tron_ready : ChainConfig
tron_ready = record tron_config {
  rpcs = record { rpc = codes "https://node.example/secret"; quote = pos 7 } ∷ [];
  rpc_map = (codes "https://node.example/secret", pos 7) ∷ [];
}

initialised : init_rpcs (tron_config ∷ []) ≡ ok (tron_ready ∷ [])
unfolding init_rpcs init_rpc init_rpc_of add_rpcs mapper split_bars split_both push atoi set_string
initialised = refl

abbrev node : HttpClient
node = record { base_url = codes "https://node.example"; name = codes "tron:node.example" }

abbrev nodes : Dict HttpClient
nodes = ("TRON", node) ∷ []

found : (ensure_client [] "TRON" nodes).0 ≡ ok node
unfolding ensure_client ensure_found
found = refl

ensure_client-IsKept_example : IsKept "TRON" node nodes (ensure_client [] "TRON" nodes).1
ensure_client-IsKept_example = ensure_client-IsKept [] "TRON" nodes node found

-- Texts that stand for lists of numbers: each number by its strokes.
strokes : ℕ → String → String
strokes zero s = at_front "," s
strokes (suc n) s = at_front "1" (strokes n s)

tally : Bytes → String
unfolding strokes
tally [] = no_text
tally (n ∷ ns) = strokes n (tally ns)

count_up : Bytes → Bytes
count_up [] = []
count_up (n ∷ ns) = suc n ∷ ns

read_tally : String → Bytes
unfolding count_up
read_tally no_text = []
read_tally (at_front c s) =
    let rest = read_tally s in if code c == b',' then 0 ∷ rest else count_up rest

read_tally-strokes : (n : ℕ) (s : String) → read_tally (strokes n s) ≡ n ∷ read_tally s
unfolding read_tally strokes count_up
read_tally-strokes zero s = refl
read_tally-strokes (suc n) s = ap count_up (read_tally-strokes n s)

read_tally-tally : (ns : Bytes) → read_tally (tally ns) ≡ ns
unfolding tally read_tally
read_tally-tally [] = refl
read_tally-tally (n ∷ ns) =
    read_tally-strokes n (tally ns) ∙ ap (λ xs. n ∷ xs) (read_tally-tally ns)

abbrev key_lib : KeyLib
key_lib = record {
  Enc = ℕ;
  Key = ℕ;
  Priv = ℕ;
  Pub = ℕ;
  decrypt_master_xprv = λ enc. ok "";
  new_key_from_string = λ s. ok 0;
  string = λ k. "";
  child = λ k i. ok k;
  neuter = λ k. ok k;
  is_private = λ k. false;
  ec_pub_key = λ k. ok k;
  ec_priv_key = λ k. ok k;
  public = λ p. p;
  address_hex = λ p. "";
  address_bytes = λ p. zero_bytes 20;
  sha256 = λ s. zero_bytes 32;
  base58 = tally;
}

abbrev fields : Fields
fields = field "balance" (num 5) end

abbrev tron_env : TronEnv
tron_env = record {
  World = ℕ;
  new_request = λ url params. none;
  send = λ url params w. (ok (record { status = 200; body = ok "" }), suc w);
  unmarshal = λ body. ok fields;
  base58_decode = λ s. ok (read_tally s);
  sha256 = λ s. zero_bytes 32;
}

shared : IsShared key_lib tron_env
shared = record {
  reads_back = λ bytes h. ap ok (read_tally-tally bytes);
  same_hash = λ bytes. refl;
  hash_length = λ bytes. refl;
  hash_bytes = λ bytes. ground arith;
  address_length = λ p. refl;
  address_bytes = λ p. ground arith;
}

encode_balance_of_parameter-tron_address_example :
    (parameter : Bytes) × (encode_balance_of_parameter tron_env (tron_address key_lib 3)
      ≡ ok parameter)
    × (length parameter ≡ 64)
    × (hex_decode parameter ≡ some (zero_bytes 12 ++ zero_bytes 20))
encode_balance_of_parameter-tron_address_example =
    encode_balance_of_parameter-tron_address key_lib tron_env shared 3

abbrev client : TrxClient tron_env
client = record { clients = nodes; world = 0 }

abbrev wanted : Dict (List String)
wanted = ("Ta", "Tusdt" ∷ []) ∷ ("Tb", []) ∷ []
