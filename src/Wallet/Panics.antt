-- ===== src/Wallet/Panics.antt =====
-- When a derivation of common/bip, and with it the transaction of `WalletCreate`, ends by a panic.
use walletus.Base.{
  ℕ, ◌%◌, ◌^◌, String, ◌⊎◌, Bool, true, false, Result, ok, err, ◌>>=◌, ◌≡◌, refl, arith, ◌==◌,
  nat_eq, string_eq, Bool-cases, inl, inr,
}
use walletus.Base.Decimal.{Bytes}
use walletus.Bip.{check_valid_chain_code}
use walletus.Bip.Derive.{DeriveError}
use walletus.Chain.{ChainDef}
use walletus.Gorm.{DbError, not_found, failed}
use walletus.Model.{Tenant, TenantChain, TenantAddress}
use walletus.Sealed.{CipherLib}
use walletus.Sealed.Master.{KdfParams, EncMaster, kdf_panics}
use walletus.Wallet.{
  WalletEnv, Stop, derive_error, argon2_panics, from_derive, unless_panic, derive_sol, chain_for,
  generate_derivation_chain, address_for, derive_address_from_xpub,
}
use walletus.Wallet.Create.{
  WalletCreateRequest, WalletError, panicked, or_error, or_stop, chain_or_new, is_chain_of,
  is_address_of, new_address, save_new_address, address_or_new, issue,
}

-- The parameters for which Argon2 panics.
abbrev pub HasZero : KdfParams → Type 0
HasZero kdf = (kdf.time ≡ 0) ⊎ (kdf.par ≡ 0)

>>=-eq-err :
    {E A B : Type 0} (first : Result E A) (rest : A → Result E B) (x : E)
    → (first >>= rest) ≡ err x
    → (first ≡ err x) ⊎ ((mid : A) × (first ≡ ok mid) × (rest mid ≡ err x))
>>=-eq-err (ok mid) rest x h = inr (mid, refl, h)
>>=-eq-err (err y) rest x h = inl (ground (arith, h))

kdf_panics-HasZero :
    (l : CipherLib) (text : Bytes) (kdf : KdfParams) → kdf_panics l text kdf ≡ true → HasZero kdf
unfolding kdf_panics
kdf_panics-HasZero l text kdf h = elim (Bool-cases (kdf.time == 0)) [
  | inl no_time ↦ inl ((nat_eq.decides kdf.time 0).0 no_time)
  | inr some_time ↦ inr ((nat_eq.decides kdf.par 0).0 (ground (arith, h, some_time)))
]

unless_panic-panics :
    {A : Type 0} (b : Bool) (r : Result DeriveError A)
    → unless_panic b r ≡ err argon2_panics
    → b ≡ true
unless_panic-panics true r h = refl
unless_panic-panics false (ok a) h = absurd (ground (arith, h))
unless_panic-panics false (err x) h = absurd (ground (arith, h))

from_derive-panics : {A : Type 0} (r : Result DeriveError A) → from_derive r ≡ err argon2_panics → ⊥
from_derive-panics (ok a) h = ground (arith, h)
from_derive-panics (err x) h = ground (arith, h)

or_stop-panicked :
    {A : Type 0} (f : DeriveError → WalletError) (r : Result Stop A)
    → or_stop f r ≡ err panicked
    → r ≡ err argon2_panics
or_stop-panicked f (ok a) h = absurd (ground (arith, h))
or_stop-panicked f (err (derive_error x)) h = absurd (ground (arith, h))
or_stop-panicked f (err argon2_panics) h = refl

or_error-panicked :
    {A : Type 0} (f : DbError → WalletError) (r : Result DbError A)
    → or_error f r ≡ err panicked
    → ⊥
or_error-panicked f (ok a) h = ground (arith, h)
or_error-panicked f (err x) h = ground (arith, h)

module _ (e : WalletEnv) where
  open e use {Db, ciphers, tenant_chains, tenant_addresses}

  chain_for-HasZero :
      (r : Result String ChainDef) (tenant : ℕ) (enc : EncMaster) (code : String)
      → chain_for e r tenant enc code ≡ err argon2_panics
      → HasZero enc.kdf
  unfolding chain_for
  chain_for-HasZero (err text) tenant enc code h = absurd (ground (arith, h))
  chain_for-HasZero (ok chain) tenant enc code h = elim (Bool-cases (chain.name == "SOLANA")) [
    | inl solana ↦ absurd (let k = rw solana at h in ground (arith, k))
    | inr other ↦
        kdf_panics-HasZero ciphers enc.enc_master_xprv enc.kdf
          (unless_panic-panics _ _ (rw other at h))
  ]

  derive_sol-HasZero :
      (enc : EncMaster) (tenant i : ℕ)
      → derive_sol e enc tenant i ≡ err argon2_panics
      → HasZero enc.kdf
  unfolding derive_sol
  derive_sol-HasZero enc tenant i h =
      kdf_panics-HasZero ciphers enc.enc_master_seed enc.kdf (unless_panic-panics _ _ h)

  address_for-HasZero :
      (r : Result String ChainDef) (enc : EncMaster) (xpub : String) (tenant i : ℕ) (code : String)
      → address_for e r enc xpub tenant i code ≡ err argon2_panics
      → HasZero enc.kdf
  unfolding address_for
  address_for-HasZero (err text) enc xpub tenant i code h = absurd (ground (arith, h))
  address_for-HasZero (ok chain) enc xpub tenant i code h =
      elim (Bool-cases (chain.name == "SOLANA")) [
        | inl solana ↦ derive_sol-HasZero enc tenant i (rw solana at h)
        | inr other ↦ absurd (from_derive-panics _ (rw other at h))
      ]

  chain_or_new-HasZero :
      (r : Result DbError TenantChain) (tenant : Tenant) (chain : ChainDef) (enc : EncMaster)
      (now : ℕ) (db : Db)
      → chain_or_new e r tenant chain enc now db ≡ err panicked
      → HasZero enc.kdf
  unfolding chain_or_new generate_derivation_chain
  chain_or_new-HasZero (ok row) tenant chain enc now db h = absurd (ground (arith, h))
  chain_or_new-HasZero (err (failed text)) tenant chain enc now db h = absurd (ground (arith, h))
  chain_or_new-HasZero (err not_found) tenant chain enc now db h =
      elim (>>=-eq-err (or_stop _ (generate_derivation_chain e _ enc chain.name)) _ panicked h) [
        | inl stopped ↦
            chain_for-HasZero (check_valid_chain_code chain.name) (tenant.id % 2 ^ 32) enc
              chain.name (or_stop-panicked _ _ stopped)
        | inr (path, derived, rest) ↦ absurd (or_error-panicked _ _ rest)
      ]

  module _ (request : WalletCreateRequest) (tenant : Tenant) where
    save_new_address-HasZero :
        (c : TenantChain) (enc : EncMaster) (now : ℕ) (db : Db)
        → save_new_address e request tenant c enc now db ≡ err panicked
        → HasZero enc.kdf
    unfolding save_new_address derive_address_from_xpub
    save_new_address-HasZero c enc now db h =
        elim (>>=-eq-err
          (or_stop _ (derive_address_from_xpub e enc c.x_pub _ request.unique_id c.chain)) _
          panicked h) [
            | inl stopped ↦
                address_for-HasZero (check_valid_chain_code c.chain) enc c.x_pub
                  (tenant.id % 2 ^ 32) request.unique_id c.chain (or_stop-panicked _ _ stopped)
            | inr ((addr, path), derived, rest) ↦
                elim (>>=-eq-err
                  (or_error _
                    (tenant_addresses.save (new_address e now request tenant c (addr, path)) db))
                  _ panicked rest) [
                    | inl unsaved ↦ absurd (or_error-panicked _ _ unsaved)
                    | inr (row, made, last) ↦ absurd (ground (arith, last))
                  ]
          ]

    address_or_new-HasZero :
        (r : Result DbError TenantAddress) (c : TenantChain) (enc : EncMaster) (now : ℕ) (db : Db)
        → address_or_new e r request tenant c enc now db ≡ err panicked
        → HasZero enc.kdf
    unfolding address_or_new
    address_or_new-HasZero (err t) c enc now db h = save_new_address-HasZero c enc now db h
    address_or_new-HasZero (ok row) c enc now db h = elim (Bool-cases (row.id == 0)) [
      | inl none_yet ↦ save_new_address-HasZero c enc now db (rw none_yet at h)
      | inr there ↦ absurd (let k = rw there at h in ground (arith, k))
    ]

    -- The transaction panics only for a tenant whose parameters have a zero.
    pub issue-HasZero :
        (chain : ChainDef) (enc : EncMaster) (now : ℕ) (db : Db)
        → issue e request tenant chain enc now db ≡ err panicked
        → HasZero enc.kdf
    unfolding issue
    issue-HasZero chain enc now db h =
        elim (>>=-eq-err
          (chain_or_new e (tenant_chains.first (is_chain_of e request) db) tenant chain enc now db)
          _ panicked h) [
            | inl stopped ↦ chain_or_new-HasZero _ tenant chain enc now db stopped
            | inr ((c, db'), kept, rest) ↦
                address_or_new-HasZero
                  (tenant_addresses.first (is_address_of e request tenant c) db') c enc now db' rest
          ]
