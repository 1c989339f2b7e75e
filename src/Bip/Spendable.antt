-- ===== src/Bip/Spendable.antt =====
-- The address that is derived from a tenant's xpub is the one whose private key is found below
-- the tenant's master key at the path that is stored with it.
use walletus.Base.{
  ℕ, ◌+◌, ◌<◌, ◌^◌, String, true, false, not, List, [], ◌∷◌, ◌++◌, Result, ok, err, fail_if, ◌≡◌,
  refl, ap, arith, >>=-eq-ok,
}
use walletus.Base.Decimal.{Bytes}
use walletus.Bip.Path.{index, hardened_start, parse_bip44_path, address_path, tail}
use walletus.Bip.Printed.{parse_bip44_path-address_path}
use walletus.Bip.Derive.{
  KeyLib, IsKeyLib, DeriveError, ChainDerivedPath, lib, from_path, derive_path,
  generate_evm_derivation_chain, chain_address, derive_evm_address_from_xpub, derive_child_xprv,
  address_and_priv_from_path,
}
use walletus.Chain.{ChainDef}

lib-ok : {A : Type 0} (r : Result String A) {a : A} → lib r ≡ ok a → r ≡ ok a
lib-ok (ok b) h = cc
lib-ok (err e) h = cc

module _ (l : KeyLib) where
  open l use {
    Enc, Key, Priv, Pub, child, neuter, is_private, ec_pub_key, ec_priv_key, public, string,
    new_key_from_string,
  }

  -- The key behind a path passes through the key behind its first part.
  derive_path-append :
      (k c : Key) (xs ys : List ℕ)
      → derive_path l k (xs ++ ys) ≡ ok c
      → (m : Key) × (derive_path l k xs ≡ ok m) × (derive_path l m ys ≡ ok c)
  unfolding derive_path
  derive_path-append k c [] ys h = (k, refl, h)
  derive_path-append k c (x ∷ xs) ys h =
      let (k', first, rest) = >>=-eq-ok (lib (child k x)) _ h in
      let (m, before, after) = derive_path-append k' c xs ys rest in (m, cc (first, before), after)

  -- Below a neutered key the two keys of an address are derived as below the private key.
  neutered_leaf :
      IsKeyLib l
      → (node n leaf : Key) (i : ℕ) → i < 2 ^ 31
      → neuter node ≡ ok n
      → derive_path l node (0 ∷ i ∷ []) ≡ ok leaf
      → (ext leaf' : Key) × (child n 0 ≡ ok ext)
        × (child ext i ≡ ok leaf')
        × (neuter leaf ≡ ok leaf')
  unfolding derive_path
  neutered_leaf laws node n leaf i small neutered h =
      let (k, first, rest) = >>=-eq-ok (lib (child node 0)) _ h in
      let (c, second, end) = >>=-eq-ok (lib (child k i)) _ rest in
      let (ext, has_ext, neutered_k) =
        laws.neuter_child node n k 0 (omega arith) neutered (lib-ok _ first) in
      let (leaf', has_leaf, neutered_c) =
        laws.neuter_child k ext c i small neutered_k (lib-ok _ second) in
      let same : c ≡ leaf = ground (arith, end) in
      (ext, leaf', has_ext, has_leaf, cc (ap neuter same, neutered_c))

  derive_child_xprv-path :
      (enc : Enc) (coin tenant i : ℕ) (leaf : Key)
      → coin < 2 ^ 31
      → tenant < 2 ^ 31
      → i < 2 ^ 31
      → derive_child_xprv l enc (address_path coin tenant i) ≡ ok leaf
      → (plain : String) × (master : Key) × (l.decrypt_master_xprv enc ≡ ok plain)
        × (new_key_from_string plain ≡ ok master)
        × (derive_path l master (
              (44 + hardened_start)
              ∷ (coin + hardened_start)
              ∷ (tenant + hardened_start)
              ∷ 0
              ∷ i
              ∷ [])
            ≡ ok leaf)
  unfolding derive_child_xprv
  derive_child_xprv-path enc coin tenant i leaf h h' h'' e =
      let (plain, decrypted, e₁) = >>=-eq-ok (lib (l.decrypt_master_xprv enc)) _ e in
      let (master, read, e₂) = >>=-eq-ok (lib (new_key_from_string plain)) _ e₁ in
      let (idxs, parsed, e₃) =
        >>=-eq-ok (from_path (parse_bip44_path (address_path coin tenant i))) _ e₂ in
      let (node, derived, e₄) = >>=-eq-ok (derive_path l master (tail idxs)) _ e₃ in
      let (_, private, e₅) = >>=-eq-ok (fail_if (not (is_private node)) _) _ e₄ in
      let same : node ≡ leaf = ground (arith, e₅) in
      let path = parse_bip44_path-address_path coin tenant i h h' h'' in
      let listed : from_path (parse_bip44_path (address_path coin tenant i))
          ≡ ok (
              0
              ∷ (44 + hardened_start)
              ∷ (coin + hardened_start)
              ∷ (tenant + hardened_start)
              ∷ 0
              ∷ i
              ∷ []) =
        ap from_path path in
      let indices : idxs
          ≡ 0
            ∷ (44 + hardened_start)
            ∷ (coin + hardened_start)
            ∷ (tenant + hardened_start)
            ∷ 0
            ∷ i
            ∷ [] =
        ground (arith, parsed, listed) in
      (
        plain,
        master,
        lib-ok _ decrypted,
        lib-ok _ read,
        cc (derived, ap (λ xs. derive_path l master (tail xs)) indices),
      )

  generate_evm_derivation_chain-path :
      (enc : Enc) (chain : ChainDef) (tenant : ℕ) (cdp : ChainDerivedPath) (plain : String)
      (master : Key)
      → chain.coin_type < 2 ^ 31
      → tenant < 2 ^ 31
      → l.decrypt_master_xprv enc ≡ ok plain
      → new_key_from_string plain ≡ ok master
      → generate_evm_derivation_chain l tenant enc chain ≡ ok cdp
      → (node : Key) × (n : Key) × (derive_path l master (
            (44 + hardened_start)
            ∷ (chain.coin_type + hardened_start)
            ∷ (tenant + hardened_start)
            ∷ [])
          ≡ ok node)
        × (neuter node ≡ ok n)
        × (cdp.x_pub ≡ string n)
  unfolding generate_evm_derivation_chain
  generate_evm_derivation_chain-path enc chain tenant cdp plain master h h' decrypted read e =
      let (plain', decrypted', e₁) = >>=-eq-ok (lib (l.decrypt_master_xprv enc)) _ e in
      let (master', read', e₂) = >>=-eq-ok (lib (new_key_from_string plain')) _ e₁ in
      let (node, derived, e₃) =
        >>=-eq-ok
          (derive_path l master'
            (index 44 true ∷ index chain.coin_type true ∷ index tenant true ∷ []))
          _ e₂ in
      let (n, neutered, e₄) = >>=-eq-ok (lib (neuter node)) _ e₃ in
      let same : plain' ≡ plain = ground (arith, lib-ok _ decrypted', decrypted) in
      let same_master : master' ≡ master =
        ground (arith, lib-ok _ read', read, ap new_key_from_string same) in
      let indices : ◌≡◌ {A = List ℕ}
          (index 44 true ∷ index chain.coin_type true ∷ index tenant true ∷ [])
          ((44 + hardened_start)
            ∷ (chain.coin_type + hardened_start)
            ∷ (tenant + hardened_start)
            ∷ []) =
        ground arith in
      (
        node,
        n,
        cc (
          derived,
          ap
              (λ k.
                derive_path l k
                  (index 44 true ∷ index chain.coin_type true ∷ index tenant true ∷ []))
              same_master,
          ap (derive_path l master) indices,
        ),
        lib-ok _ neutered,
        ground (arith, e₄),
      )

  xpub_address :
      (chain : ChainDef) (tenant i : ℕ) (n ext leaf : Key) (p : Pub) (addr : String)
      → new_key_from_string (string n) ≡ ok n
      → is_private n ≡ false
      → child n 0 ≡ ok ext
      → child ext i ≡ ok leaf
      → ec_pub_key leaf ≡ ok p
      → chain_address l chain.name p ≡ ok addr
      → derive_evm_address_from_xpub l (string n) tenant i chain
        ≡ ok (addr, address_path chain.coin_type tenant i)
  unfolding derive_evm_address_from_xpub
  xpub_address chain tenant i n ext leaf p addr read open_key c c' has_pub has_addr =
      rw (read, open_key, c, c', has_pub, has_addr) refl

  -- With a tenant, a coin type and an index below 2^31: when a private key is found below the
  -- tenant's master key at the path of an address, then the xpub that is stored for the tenant and
  -- the chain gives the address of that very key, and stores it with that path.
  pub derive_evm_address_from_xpub-address_and_priv_from_path :
      IsKeyLib l
      → (enc : Enc) (chain : ChainDef) (tenant i : ℕ) (cdp : ChainDerivedPath) (addr : String)
        (priv : Priv)
      → chain.coin_type < 2 ^ 31
      → tenant < 2 ^ 31
      → i < 2 ^ 31
      → generate_evm_derivation_chain l tenant enc chain ≡ ok cdp
      → address_and_priv_from_path l enc (address_path chain.coin_type tenant i) chain.name
        ≡ ok (addr, priv)
      → derive_evm_address_from_xpub l cdp.x_pub tenant i chain
        ≡ ok (addr, address_path chain.coin_type tenant i)
  unfolding address_and_priv_from_path
  derive_evm_address_from_xpub-address_and_priv_from_path laws enc chain tenant i cdp addr priv h h'
        h'' made found =
      let (leaf, below, e₁) =
        >>=-eq-ok (derive_child_xprv l enc (address_path chain.coin_type tenant i)) _ found in
      let (priv', has_priv, e₂) = >>=-eq-ok (lib (ec_priv_key leaf)) _ e₁ in
      let (addr', has_addr, e₃) = >>=-eq-ok (chain_address l chain.name (public priv')) _ e₂ in
      let (plain, master, decrypted, read, derived) =
        derive_child_xprv-path enc chain.coin_type tenant i leaf h h' h'' below in
      let (node, n, account, neutered, xpub) =
        generate_evm_derivation_chain-path enc chain tenant cdp plain master h h' decrypted read
          made in
      let (node', before, after) =
        derive_path-append master leaf
          ((44 + hardened_start)
            ∷ (chain.coin_type + hardened_start)
            ∷ (tenant + hardened_start)
            ∷ [])
          (0 ∷ i ∷ []) derived in
      let same : node' ≡ node = ground (arith, before, account) in
      let (ext, leaf', has_ext, has_leaf, neutered') =
        neutered_leaf laws node n leaf i h'' neutered
          (cc (after, ap (λ k. derive_path l k (0 ∷ i ∷ [])) same)) in
      let e₄ : addr' ≡ addr = ground (arith, e₃) in
      let derived_address =
        xpub_address chain tenant i n ext leaf' (public priv') addr' (laws.reads_back n)
          (laws.neuter_public node n neutered) has_ext has_leaf
          (laws.public_of leaf leaf' priv' neutered' (lib-ok _ has_priv)) has_addr in
      cc (
        ap (λ x. derive_evm_address_from_xpub l x tenant i chain) xpub,
        derived_address,
        ap {B = Result DeriveError (String × Bytes)}
            (λ a. ok (a, address_path chain.coin_type tenant i)) e₄,
      )
