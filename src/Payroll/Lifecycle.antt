-- ===== src/Payroll/Lifecycle.antt =====
-- The life of a payroll: which steps of its status the handlers may take, and how a write to the
-- tables moves the payrolls along.
pub mod Edits
pub mod Approvals
pub mod Staff
pub mod Calls
use walletus.Base.{
  ℕ, String, ◌≡◌, refl, ap, ◌⊎◌, some, none, List, [], ◌∷◌, ◌++◌, arith, ok, ◌==◌, nat_eq,
  if◌then◌else◌, find?, find?-holds, not, false, eq_iff, string_eq, Bool-cases, inl, inr,
}
use walletus.Gorm.{Table, IsTable, IsInserted, has_key, replace, find?-replace, find?-append}
use walletus.Model.{PortalPayroll, payroll_key}
use walletus.Payroll.{Env, IsEnv}

-- A status and the one after a call. `edit` is what an update may do.
pub data Edge (a b : String) : Type 0 where
  stay : a ≡ b → Edge a b
  edit : a ≡ "create" → Edge a b
  submit : a ≡ "create" → b ≡ "waiting_approval" → Edge a b
  approve : a ≡ "waiting_approval" → b ≡ "approved" → Edge a b
  reject : a ≡ "waiting_approval" → b ≡ "rejected" → Edge a b
  pay : a ≡ "approved" → b ≡ "paying" → Edge a b
  settle : a ≡ "paying" → b ≡ "paid" → Edge a b

module _ (e : Env) where
  open e use {Db, Decimal, payrolls}

  -- The payroll with an ID.
  abbrev pub HasPayroll : ℕ → PortalPayroll Decimal → Db → Type 0
  HasPayroll k p db = find? (has_key payroll_key k) (payrolls.rows db) ≡ some p

  -- Every payroll of `db` is still in `db'`, its status moved along an edge.
  pub record Follows (db db' : Db) : Type 0 where
    pub at :
        (k : ℕ) (p : PortalPayroll Decimal)
        → HasPayroll k p db
        → (p' : PortalPayroll Decimal) × HasPayroll k p' db' × Edge p.status p'.status

  pub Follows-refl : (db : Db) → Follows db db
  Follows-refl db = record { at = λ k p h. (p, h, stay refl) }

  -- A write that leaves the payrolls alone.
  pub Follows-rows :
      (db db₁ db₂ : Db) → payrolls.rows db₂ ≡ payrolls.rows db₁ → Follows db db₁ → Follows db db₂
  Follows-rows db db₁ db₂ same f = record {
    at = λ k p h. let (p', h', edge) = f.at k p h in (p', cc, edge);
  }

  same_row :
      (xs : List (PortalPayroll Decimal)) {n m : ℕ} {p q : PortalPayroll Decimal}
      → n ≡ m
      → find? (has_key payroll_key n) xs ≡ some p
      → find? (has_key payroll_key m) xs ≡ some q
      → p ≡ q
  same_row xs {n} {m} e f g =
      let e' : find? (has_key payroll_key n) xs ≡ find? (has_key payroll_key m) xs =
        ap (λ t. find? (has_key payroll_key t) xs) e in
      cc

  -- The row that is written over has the status of `old`.
  saved_edge :
      (r old p : PortalPayroll Decimal) (db : Db) (k : ℕ)
      → HasPayroll r.id old db
      → HasPayroll k p db
      → Edge old.status r.status
      → Edge p.status (if r.id == k then r else p).status
  saved_edge r old p db k found h edge = elim (Bool-cases (r.id == k)) [
    | inl same ↦
        let e₁ : r.id ≡ k = (nat_eq.decides r.id k).0 same in
        let e₂ : old ≡ p = same_row (payrolls.rows db) e₁ found h in rw (same, ← e₂) edge
    | inr differs ↦ rw differs (stay refl)
  ]

  -- Updating the payroll that has the key of `r`.
  pub save-Follows :
      IsEnv e
      → (r old : PortalPayroll Decimal) (db : Db) (r' : PortalPayroll Decimal) (db' : Db)
      → HasPayroll r.id old db
      → Edge old.status r.status
      → payrolls.save r db ≡ ok (r', db')
      → Follows db db'
  save-Follows laws r old db r' db' found edge saved = record {
    at = λ k p h. (
      if r.id == k then r else p,
      rw (laws.payrolls_table.save_rows r db found saved).1
          (find?-replace payroll_key k r (payrolls.rows db) h),
      saved_edge r old p db k found h edge,
    );
  }

  pub create-Follows :
      IsEnv e
      → (r : PortalPayroll Decimal) (db : Db) (r' : PortalPayroll Decimal) (db' : Db)
      → payrolls.create r db ≡ ok (r', db')
      → Follows db db'
  create-Follows laws r db r' db' made = record {
    at = λ k p h. (
      p,
      rw (laws.payrolls_table.create_rows r db made).appended
          (find?-append payroll_key (has_key payroll_key k) (payrolls.rows db) (r' ∷ []) h),
      stay refl,
    );
  }

  -- The payroll that `db.First(&payroll, id)` returns.
  pub first_payroll-found :
      IsEnv e
      → (id : ℕ) (p : PortalPayroll Decimal) (db : Db)
      → payrolls.first (has_key payroll_key id) db ≡ ok p
      → HasPayroll p.id p db
  first_payroll-found laws id p db h =
      let found = laws.payrolls_table.first_rows (has_key payroll_key id) db h in
      let same : p.id ≡ id =
        (nat_eq.decides p.id id).0
          (find?-holds (has_key payroll_key id) (payrolls.rows db) p found) in
      simp same found

-- A guard `x != y` that was passed.
pub guard_passed : (s t : String) → not (s == t) ≡ false → s ≡ t
guard_passed s t h = ground (arith, eq_iff s t)
