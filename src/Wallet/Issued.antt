-- ===== src/Wallet/Issued.antt =====
-- What `WalletCreate` leaves in the table of addresses.
use walletus.Base.{
  ℕ, String, ◌⊎◌, Option, none, some, Bool, List, [], ◌∷◌, ◌++◌, Result, ok, err, ◌≡◌, refl, ap,
  arith, find?, find?-holds, >>=-eq-ok, ◌==◌, nat_eq, Bool-cases, inl, inr,
}
use mathlib.Core.Path.{subst}
use walletus.Chain.{ChainDef}
use walletus.Gorm.{DbError, not_found, failed}
use walletus.Model.{Tenant, TenantChain, TenantAddress}
use walletus.Sealed.Master.{KdfParams, EncMaster}
use walletus.Wallet.Panics.{HasZero, issue-HasZero}
use walletus.Wallet.{WalletEnv, IsWalletEnv, derive_address_from_xpub, generate_derivation_chain}
use walletus.Wallet.Create.{
  WalletCreateRequest, WalletError, TxEnd, not_begun, committed, rolled_back, left_open, Issue,
  existing, saved, chain_or_new, is_chain_of, is_address_of, new_address, save_new_address,
  address_or_new, issue, commit, finish, with_kdf, with_chain, wallet_create, or_error, or_stop,
  enc_of, Failure, refused, panicked,
}

-- A row that is found stands in the list.
find?-split :
    {A : Type 0} (p : A → Bool) (xs : List A) (x : A)
    → find? p xs ≡ some x
    → (before : List A) × (after : List A) × (xs ≡ before ++ (x ∷ after))
find?-split p [] x h = ground (arith, h)
find?-split p (y ∷ ys) x h = elim (Bool-cases (p y)) [
  | inl here ↦ let e : y ≡ x = ground (arith, h, here) in ([], ys, ap (λ z. z ∷ ys) e)
  | inr not_here ↦
      let (before, after, e) = find?-split p ys x (ground (arith, h, not_here)) in
      (y ∷ before, after, ap (λ zs. y ∷ zs) e)
]

or_error-ok :
    {A : Type 0} (f : DbError → WalletError) (r : Result DbError A) {a : A}
    → or_error f r ≡ ok a
    → r ≡ ok a
or_error-ok f (ok b) h = cc
or_error-ok f (err x) h = cc

module _ (e : WalletEnv) (request : WalletCreateRequest) (tenant : Tenant) where
  open e use {Db, tenant_chains, tenant_addresses, unmarshal_kdf}

  -- An address of the tenant, at the index of the request, stands in the table under the key `id`.
  pub record IsIssued (db : Db) (id : ℕ) (addr : String) : Type 0 where
    pub row : TenantAddress
    pub before : List TenantAddress
    pub after : List TenantAddress
    pub stored : tenant_addresses.rows db ≡ before ++ (row ∷ after)
    pub has_id : row.id ≡ id
    pub of_tenant : row.tenant_id ≡ tenant.id
    pub at_index : row.address_index ≡ request.unique_id
    pub has_address : row.address_val ≡ addr

  -- What the steps inside the transaction have found or saved.
  abbrev IsIssue : Db → Issue × Db → Type 0
  IsIssue db (existing row, db') = IsIssued db row.id row.address_val
  IsIssue db (saved row addr, db') = IsIssued db' row.id addr

  save_new_address-IsIssue :
      IsWalletEnv e
      → (c : TenantChain) (enc : EncMaster) (now : ℕ) (db₀ db : Db) (x : Issue × Db)
      → save_new_address e request tenant c enc now db ≡ ok x
      → IsIssue db₀ x
  unfolding save_new_address
  save_new_address-IsIssue laws c enc now db₀ db x h =
      let ((addr, path), derived, h₁) =
        >>=-eq-ok (or_stop _ (derive_address_from_xpub e enc c.x_pub _ request.unique_id c.chain)) _
          h in
      let ((row, db'), made, h₂) =
        >>=-eq-ok
          (or_error _ (tenant_addresses.save (new_address e now request tenant c (addr, path)) db))
          _ h₁ in
      let i = laws.addresses_table.save_new _ db refl (or_error-ok _ _ made) in
      let same : (saved row addr, db') ≡ x = ground (arith, h₂) in
      subst (IsIssue db₀) same (record {
        row = row;
        before = tenant_addresses.rows db;
        after = [];
        stored = i.appended;
        has_id = refl;
        of_tenant = rw i.same refl;
        at_index = rw i.same refl;
        has_address = rw i.same refl;
      })

  -- A row that the query for the address returns.
  found-IsIssued :
      IsWalletEnv e
      → (c : TenantChain) (db : Db) (row : TenantAddress)
      → tenant_addresses.first (is_address_of e request tenant c) db ≡ ok row
      → IsIssued db row.id row.address_val
  found-IsIssued laws c db row h =
      let found = laws.addresses_table.first_rows _ db h in
      let (before, after, stored) = find?-split _ (tenant_addresses.rows db) row found in
      let holds =
        find?-holds (is_address_of e request tenant c) (tenant_addresses.rows db) row found in
      record {
        row = row;
        before = before;
        after = after;
        stored = stored;
        has_id = refl;
        of_tenant = (nat_eq.decides row.tenant_id tenant.id).0 (ground (arith, holds));
        at_index = (nat_eq.decides row.address_index request.unique_id).0 (ground (arith, holds));
        has_address = refl;
      }

  address_or_new-IsIssue :
      IsWalletEnv e
      → (r : Result DbError TenantAddress) (c : TenantChain) (enc : EncMaster) (now : ℕ) (db : Db)
        (x : Issue × Db)
      → tenant_addresses.first (is_address_of e request tenant c) db ≡ r
      → address_or_new e r request tenant c enc now db ≡ ok x
      → IsIssue db x
  unfolding address_or_new
  address_or_new-IsIssue laws (err t) c enc now db x q h =
      save_new_address-IsIssue laws c enc now db db x h
  address_or_new-IsIssue laws (ok row) c enc now db x q h = elim (Bool-cases (row.id == 0)) [
    | inl none_yet ↦ save_new_address-IsIssue laws c enc now db db x (ground (arith, h, none_yet))
    | inr there ↦
        let same : (existing row, db) ≡ x = ground (arith, h, there) in
        subst (IsIssue db) same (found-IsIssued laws c db row q)
  ]

  chain_or_new-rows :
      IsWalletEnv e
      → (r : Result DbError TenantChain) (chain : ChainDef) (enc : EncMaster) (now : ℕ)
        (db db' : Db) (c : TenantChain)
      → chain_or_new e r tenant chain enc now db ≡ ok (c, db')
      → tenant_addresses.rows db' ≡ tenant_addresses.rows db
  unfolding chain_or_new
  chain_or_new-rows laws (ok row) chain enc now db db' c h = cc
  chain_or_new-rows laws (err (failed t)) chain enc now db db' c h = cc
  chain_or_new-rows laws (err not_found) chain enc now db db' c h =
      let (path, derived, saved_row) =
        >>=-eq-ok (or_stop _ (generate_derivation_chain e _ enc chain.name)) _ h in
      laws.chains_apart.save_apart _ db (or_error-ok _ _ saved_row)

  -- The rows decide, not the database.
  IsIssue-rows :
      (db db₀ : Db) (x : Issue × Db)
      → tenant_addresses.rows db ≡ tenant_addresses.rows db₀
      → IsIssue db x
      → IsIssue db₀ x
  IsIssue-rows db db₀ (saved row addr, db') same i = i
  IsIssue-rows db db₀ (existing row, db') same i = record {
    row = i.row;
    before = i.before;
    after = i.after;
    stored = cc (same, i.stored);
    has_id = i.has_id;
    of_tenant = i.of_tenant;
    at_index = i.at_index;
    has_address = i.has_address;
  }

  issue-IsIssue :
      IsWalletEnv e
      → (chain : ChainDef) (enc : EncMaster) (now : ℕ) (db : Db) (x : Issue × Db)
      → issue e request tenant chain enc now db ≡ ok x
      → IsIssue db x
  unfolding issue
  issue-IsIssue laws chain enc now db x h =
      let ((c, db'), kept, rest) =
        >>=-eq-ok
          (chain_or_new e (tenant_chains.first (is_chain_of e request) db) tenant chain enc now db)
          _ h in
      IsIssue-rows db' db x (chain_or_new-rows laws _ chain enc now db db' c kept)
        (address_or_new-IsIssue laws _ c enc now db' x refl rest)

  -- What a call on the database `db` may end with.
  pub IsOutcome : Db → Result WalletError (ℕ × String) × Db × TxEnd → Type 0
  IsOutcome db (ok (id, addr), db', end) =
      (IsIssued db' id addr × ((end ≡ committed) ⊎ ((end ≡ left_open) × (db' ≡ db))))
      ⊎ ((kdf : KdfParams) × (unmarshal_kdf tenant.kdf_params ≡ ok kdf)
          × HasZero kdf
          × (id ≡ 0)
          × (addr ≡ "")
          × (end ≡ rolled_back)
          × (db' ≡ db))
  IsOutcome db (err _, db', end) = ((end ≡ not_begun) ⊎ (end ≡ rolled_back)) × (db' ≡ db)

  commit-IsOutcome :
      (db db' : Db) (id : ℕ) (addr : String) (o : Option String)
      → IsIssued db' id addr
      → IsOutcome db (commit e db db' id addr o)
  unfolding commit IsOutcome
  commit-IsOutcome db db' id addr none issued = inl (issued, inl refl)
  commit-IsOutcome db db' id addr (some text) issued = (inr refl, refl)

  finish-IsOutcome :
      (kdf : KdfParams) (db : Db) (m : Result Failure (Issue × Db))
      → unmarshal_kdf tenant.kdf_params ≡ ok kdf
      → (m ≡ err panicked → HasZero kdf)
      → ((x : Issue × Db) → m ≡ ok x → IsIssue db x)
      → IsOutcome db (finish e db m)
  unfolding finish IsOutcome
  finish-IsOutcome kdf db (err (refused w)) read zero issued = (inr refl, refl)
  finish-IsOutcome kdf db (err panicked) read zero issued =
      inr (kdf, read, zero refl, refl, refl, refl, refl)
  finish-IsOutcome kdf db (ok (existing row, db')) read zero issued =
      inl (issued _ refl, inr (refl, refl))
  finish-IsOutcome kdf db (ok (saved row addr, db')) read zero issued =
      commit-IsOutcome db db' row.id addr (e.commit_error db') (issued _ refl)

  with_kdf-IsOutcome :
      IsWalletEnv e
      → (r : Result String KdfParams) (chain : ChainDef) (now : ℕ) (db : Db)
      → unmarshal_kdf tenant.kdf_params ≡ r
      → IsOutcome db (with_kdf e r request tenant chain now db)
  unfolding with_kdf IsOutcome
  with_kdf-IsOutcome laws (err text) chain now db read = (inl refl, refl)
  with_kdf-IsOutcome laws (ok kdf) chain now db read =
      let enc = enc_of e tenant kdf in
      finish-IsOutcome kdf db (issue e request tenant chain enc now db) read
        (issue-HasZero e request tenant chain enc now db) (issue-IsIssue laws chain enc now db)

  with_chain-IsOutcome :
      IsWalletEnv e
      → (r : Result String ChainDef) (now : ℕ) (db : Db)
      → IsOutcome db (with_chain e r request tenant now db)
  unfolding with_chain IsOutcome
  with_chain-IsOutcome laws (err text) now db = (inl refl, refl)
  with_chain-IsOutcome laws (ok chain) now db = with_kdf-IsOutcome laws _ chain now db refl

  -- A call of WalletCreate that returns an ID and an address without an error has a row in the table
  -- with that ID and address, of the given tenant and at the index of the request, with the
  -- transaction committed, or left open with the database as it was; or the key derivation of the
  -- tenant, whose parameters have a time or a parallelism of 0, has panicked, and the call returns
  -- the ID 0 and no address, with the transaction rolled back and the database as it was. A call that
  -- returns an error leaves the database as it was, with the transaction not begun or rolled back.
  pub wallet_create-IsOutcome :
      IsWalletEnv e → (now : ℕ) (db : Db) → IsOutcome db (wallet_create e request tenant now db)
  unfolding wallet_create
  wallet_create-IsOutcome laws now db = with_chain-IsOutcome laws _ now db
