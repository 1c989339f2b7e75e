-- ===== src/Rpc/Evm/Anchored.antt =====
-- The block that common/chain/evm/client.go's `Anchor` finds for a height, and the block that
-- common/chain/evm/abi.go's queries ask for with it.
use walletus.Base.{
  ℕ, String, List, [], ◌∷◌, false, Result, ok, ◌==◌, nat_eq, string_eq, ◌≡◌, refl, ap, sym, ◌∙◌,
  ◌<◌, ◌%◌, ◌^◌, All, arith, Bool-cases, inl, inr,
}
use mathlib.Core.Path.{subst}
use walletus.Base.Decimal.{Bytes, codes, format, IsDigit, format-IsDigit, format-ne-nil}
use walletus.Base.Int.{pos}
use walletus.Base.Numerals.{format_hex, set_string-format, set_string-format_hex}
use walletus.Chain.Gateway.{Consistency, AnchorRef}
use walletus.Config.{ChainConfig}
use walletus.Rpc.Nodes.{RpcError}
use walletus.Rpc.Evm.{EvmEnv, EvmClient, pick, is_tag, block_param, hex_to_uint64}
use walletus.Rpc.Evm.Client.{
  with_picked, with_conn, block_of, written_block, decimal_block, has_0x, text_0x, anchor,
}

module _ (mode : String) (digits : All IsDigit (codes mode)) where
  -- A text of digits is none that starts with a letter.
  not_word : (s : String) → (All IsDigit (codes s) → ⊥) → (mode == s) ≡ false
  not_word s word = elim (Bool-cases (mode == s)) [
    | inl same ↦
        absurd
          (word (subst (λ t. All IsDigit (codes t)) ((string_eq.decides mode s).0 same) digits))
    | inr other ↦ other
  ]

  is_tag-digits : is_tag mode ≡ false
  is_tag-digits =
      let latest = not_word "latest" (λ h. omega (arith, h.0)) in
      let safe = not_word "safe" (λ h. omega (arith, h.0)) in
      let finalized = not_word "finalized" (λ h. omega (arith, h.0)) in
      rw (latest, safe, finalized) refl

has_0x-digits : (s : Bytes) → All IsDigit s → has_0x s ≡ false
has_0x-digits [] h = refl
has_0x-digits (c ∷ []) h = refl
has_0x-digits (c ∷ d ∷ s) h = ground (arith, h.0, h.1.0)

written_block-format :
    (mode : String) (n : ℕ) → codes mode ≡ format n → written_block mode ≡ ok (text_0x (pos n))
unfolding written_block decimal_block
written_block-format mode n h =
    rw (h, has_0x-digits (format n) (format-IsDigit n), set_string-format n) refl

not_empty : (mode : String) (n : ℕ) → codes mode ≡ format n → (mode == "") ≡ false
not_empty mode n digits = elim (Bool-cases (mode == "")) [
  | inl same ↦ absurd (format-ne-nil n (sym digits ∙ ap codes ((string_eq.decides mode "").0 same)))
  | inr other ↦ other
]

module _ (e : EvmEnv) where
  hex_to_uint64-format_hex : (n : ℕ) → n < 2 ^ 64 → hex_to_uint64 e (text_0x (pos n)) ≡ n
  unfolding hex_to_uint64
  hex_to_uint64-format_hex n h =
      let e' : n % 2 ^ 64 ≡ n = omega (arith, h) in rw (set_string-format_hex n) e'

  with_picked-ok :
      {A : Type 0} (f : e.Conn → Bytes → e.World → Result RpcError A × e.World)
      (r : Result RpcError (e.Conn × Bytes)) (c : EvmClient e) (rc : e.Conn) (name : Bytes)
      → r ≡ ok (rc, name)
      → (with_picked e f r c).0 ≡ (f rc name c.world).0
  unfolding with_picked
  with_picked-ok {A} f r c rc name h = ap {B = Result RpcError A} (λ x. (with_picked e f x c).0) h

  -- Where the mode is a height in decimal digits, of 64 bits and not 0, and the network has a node,
  -- the anchor has this height, and the queries made with the anchor ask for the block of this
  -- height, in hexadecimal.
  pub anchor-block_param :
      (chain : List ChainConfig) (network : String) (cs : Consistency) (c : EvmClient e) (n : ℕ)
      (rc : e.Conn) (name : Bytes)
      → codes cs.mode ≡ format n
      → 0 < n
      → n < 2 ^ 64
      → (pick e chain network c).0 ≡ ok (rc, name)
      → (a : AnchorRef) × ((anchor e chain network cs c).0 ≡ ok a)
        × (a.height ≡ n)
        × (block_param a ≡ (b'0' ∷ b'x' ∷ format_hex n))
  unfolding anchor with_conn block_of block_param
  anchor-block_param chain network cs c n rc name digits some_block small picked =
      let all = subst (All IsDigit) (sym digits) (format-IsDigit n) in
      let text = text_0x (pos n) in
      let tagged = is_tag-digits cs.mode all in
      let height = hex_to_uint64-format_hex n small in
      let a : AnchorRef = record {
        height = hex_to_uint64 e text;
        tag = cs.mode;
        network = network;
        provider = name;
      } in
      let positive : (n == 0) ≡ false = ground (arith, some_block) in
      (
        a,
        with_picked-ok _ (pick e chain network c).0 (pick e chain network c).1 rc name picked
            ∙ rw (not_empty cs.mode n digits, tagged, written_block-format cs.mode n digits) refl,
        height,
        rw (tagged, height, positive) refl,
      )
