-- ===== src/Payroll/ReadBack.antt =====
-- Payroll settings that are saved are read back.
use Prim.Native.String.{◌++◌ as ◌++s◌}
use walletus.Base.{
  ℕ, String, true, some, List, [], ◌∷◌, ◌++◌, Result, ok, err, ◌≡◌, refl, ap, sym, ◌∙◌, arith, ◌==◌,
  string_eq, nat_eq, select, reject, select-append, select-reject, inl, inr, ◌⊎◌, eq_iff, All,
  All-append, if-rule, append-nil,
}
use walletus.Gorm.{IsTable, IsBulk, AreKeyed, DbError}
use walletus.Model.{PortalSpec, PortalUser, spec_key}
use walletus.Payroll.{Env, PayrollSettings}
use walletus.Payroll.Settings.{apply_spec, apply_specs, no_settings, is_setting}
use walletus.Web.{
  Context, user, Flow, next, reply, panic, Response, steps, after, ◌>>◌, pure, answer,
  write_or_ignore, error_text,
}
use walletus.Web.Codes.{success, err_unknown}
use walletus.Payroll.Saved.{
  new_specs, spec_unless_empty, create_specs, portal_payroll_settings, portal_payroll_settings_save,
}

-- Keys do not matter for the settings.
apply_specs-AreKeyed :
    (s : PayrollSettings) (rs rs' : List PortalSpec)
    → AreKeyed spec_key rs rs'
    → apply_specs s rs' ≡ apply_specs s rs
unfolding apply_specs
apply_specs-AreKeyed s [] [] h = refl
apply_specs-AreKeyed s [] (r' ∷ rs') h = absurd h
apply_specs-AreKeyed s (r ∷ rs) [] h = absurd h
apply_specs-AreKeyed s (r ∷ rs) (r' ∷ rs') h =
    ap (λ x. apply_specs (apply_spec s x) rs') h.0
    ∙ apply_specs-AreKeyed (apply_spec s r) rs rs' h.1

abbrev AreSettings : List PortalSpec → Type 0
AreSettings = All (λ s. is_setting s ≡ true)

select-AreKeyed :
    (rs rs' : List PortalSpec)
    → AreKeyed spec_key rs rs'
    → AreSettings rs
    → select is_setting rs' ≡ rs'
select-AreKeyed [] [] h g = refl
select-AreKeyed [] (r' ∷ rs') h g = absurd h
select-AreKeyed (r ∷ rs) [] h g = absurd h
select-AreKeyed (r ∷ rs) (r' ∷ rs') h g =
    let own : is_setting r' ≡ true = ap is_setting h.0 ∙ g.0 in
    rw (own, select-AreKeyed rs rs' h.1 g.1) refl

spec_unless_empty-AreSettings :
    (now : ℕ) (name value : String) → AreSettings (spec_unless_empty now name value)
spec_unless_empty-AreSettings now name value =
    if-rule AreSettings (value == "") (λ _. tt) (λ _. (refl, tt))

new_specs-AreSettings : (now : ℕ) (request : PayrollSettings) → AreSettings (new_specs now request)
unfolding new_specs
new_specs-AreSettings now request =
    All-append (λ s. is_setting s ≡ true) (spec_unless_empty now "chain" request.chain) _
      (spec_unless_empty-AreSettings now "chain" request.chain)
      (All-append (λ s. is_setting s ≡ true)
        (spec_unless_empty now "pay_contract" request.pay_contract) _
        (spec_unless_empty-AreSettings now "pay_contract" request.pay_contract)
        (spec_unless_empty-AreSettings now "pay_token" request.pay_token))

apply_specs-new_specs :
    (now : ℕ) (request : PayrollSettings)
    → apply_specs no_settings (new_specs now request) ≡ request
unfolding new_specs apply_specs
apply_specs-new_specs now request =
    ground
      (arith, eq_iff request.chain "", eq_iff request.pay_contract "", eq_iff request.pay_token "")

module _ (e : Env) where
  open e use {Db, specs}

  -- The loop's rows have been put behind the others.
  IsAdded : List PortalSpec → Db → Db → Type 0
  IsAdded rs db new =
      (rs' : List PortalSpec) × AreKeyed spec_key rs rs' × (specs.rows new ≡ specs.rows db ++ rs')

  -- An answer before the last one has another code than success.
  IsRefused : Flow (Unit {0}) (Unit {0}) → Type 0
  IsRefused f = (r : Response (Unit {0})) × (f ≡ reply r) × (r.code ≡ err_unknown)

  create_by :
      (s : PortalSpec) (ss : List PortalSpec) (db : Db) (c : Result DbError (List PortalSpec × Db))
      → IsBulk spec_key specs
      → specs.create_all (s ∷ ss) db ≡ c
      → ((new : Db) × (create_specs e (s ∷ ss) db ≡ (next tt, new)) × IsAdded (s ∷ ss) db new)
        ⊎ IsRefused (create_specs e (s ∷ ss) db).0
  unfolding create_specs steps IsAdded IsRefused
  create_by s ss db (ok (rs', new)) bulk h =
      let (rows, keyed) = bulk.create_all_rows (s ∷ ss) db h in
      inl (new, ground (arith, h), (rs', keyed, rows))
  create_by s ss db (err x) bulk h = inr (
    record {
      status = 200;
      code = err_unknown;
      msg = "database error: " ++s error_text x;
      payload = tt;
    },
    ground (arith, h),
    refl,
  )

  create_specs-IsAdded :
      (rs : List PortalSpec) (db : Db)
      → IsBulk spec_key specs
      → ((new : Db) × (create_specs e rs db ≡ (next tt, new)) × IsAdded rs db new)
        ⊎ IsRefused (create_specs e rs db).0
  unfolding create_specs pure IsAdded
  create_specs-IsAdded [] db bulk = inl (db, refl, ([], tt, sym (append-nil (specs.rows db))))
  create_specs-IsAdded (s ∷ ss) db bulk = create_by s ss db _ bulk refl

  -- What the settings in a database with these rows are.
  read_back :
      (now : ℕ) (request : PayrollSettings) (kept rows : List PortalSpec) (new : Db)
      (rs' : List PortalSpec)
      → AreKeyed spec_key (new_specs now request) rs'
      → specs.rows new ≡ reject is_setting kept ++ rs'
      → rows ≡ select is_setting (specs.rows new)
      → apply_specs no_settings rows ≡ request
  read_back now request kept rows new rs' keyed added found =
      let same : rows ≡ rs' =
        found
        ∙ ap (select is_setting) added
        ∙ select-append is_setting (reject is_setting kept) rs'
        ∙ ap (λ l. l ++ select is_setting rs') (select-reject is_setting kept)
        ∙ select-AreKeyed (new_specs now request) rs' keyed (new_specs-AreSettings now request) in
      ap (apply_specs no_settings) same
      ∙ apply_specs-AreKeyed no_settings (new_specs now request) rs' keyed
      ∙ apply_specs-new_specs now request

  -- The end of the handler.
  saved_by :
      (now : ℕ) (request : PayrollSettings) (d : Db) (res : Response (Unit {0}))
      (x : Flow (Unit {0}) (Unit {0}) × Db)
      → ((new : Db) × (x ≡ (next tt, new)) × IsAdded (new_specs now request) d new) ⊎ IsRefused x.0
      → (after (λ _. answer {A = Unit {0}} success "" tt) x).0 ≡ reply res
      → res.code ≡ success
      → IsAdded (new_specs now request) d (after (λ _. answer {A = Unit {0}} success "" tt) x).1
  unfolding steps IsRefused
  saved_by now request d res x (inl (new, e, added)) h good = rw e added
  saved_by now request d res (next t, new) (inr (r, e, bad)) h good = absurd (ground (arith, e))
  saved_by now request d res (reply r', new) (inr (r, e, bad)) h good =
      absurd (ground (arith, e, h, good, bad))
  saved_by now request d res (panic, new) (inr (r, e, bad)) h good = absurd (ground (arith, e))

  shown_lem :
      (ctx : Context) (u : PortalUser) (request : PayrollSettings) (db : Db)
      (rows : List PortalSpec)
      → ctx.main_user ≡ user u
      → specs.find is_setting db ≡ ok rows
      → apply_specs no_settings rows ≡ request
      → (portal_payroll_settings e ctx db).0
        ≡ reply (record { status = 200; code = success; msg = "success"; payload = some request })
  unfolding portal_payroll_settings steps
  shown_lem ctx u request db rows login found shown = ground (arith, login, found, shown)

  -- Settings that have been saved, with the old rows deleted and an answer of success, are what the
  -- settings route then shows to a user who is logged in, if its query gives no error.
  pub portal_payroll_settings-portal_payroll_settings_save :
      (ctx ctx' : Context) (u : PortalUser) (request : PayrollSettings) (db d : Db) (n : ℕ)
      (rows : List PortalSpec) (res : Response (Unit {0}))
      → IsTable spec_key specs
      → IsBulk spec_key specs
      → specs.delete is_setting db ≡ ok (n, d)
      → (portal_payroll_settings_save e ctx (ok request) db).0 ≡ reply res
      → res.code ≡ success
      → ctx'.main_user ≡ user u
      → specs.find is_setting (portal_payroll_settings_save e ctx (ok request) db).1 ≡ ok rows
      → (portal_payroll_settings e ctx' (portal_payroll_settings_save e ctx (ok request) db).1).0
        ≡ reply (record { status = 200; code = success; msg = "success"; payload = some request })
  unfolding portal_payroll_settings_save steps IsAdded
  portal_payroll_settings-portal_payroll_settings_save ctx ctx' u request db d n rows res table bulk
        deleted h good login found =
      let cleared : write_or_ignore {P = Unit {0}} (specs.delete is_setting) db ≡ (next tt, d) =
        ground (arith, deleted) in
      let saved : portal_payroll_settings_save e ctx (ok request) db
          ≡ after (λ _. answer success "" tt) (create_specs e (new_specs ctx.now request) d) =
        ap (after (λ _. create_specs e (new_specs ctx.now request) >> answer success "" tt))
          cleared in
      let (rs', keyed, added) =
        saved_by ctx.now request d res (create_specs e (new_specs ctx.now request) d)
          (create_specs-IsAdded (new_specs ctx.now request) d bulk) (ap (λ x. x.0) (sym saved) ∙ h)
          good in
      let left = (table.delete_rows is_setting db deleted).1 in
      let new = (portal_payroll_settings_save e ctx (ok request) db).1 in
      let is_added : specs.rows new ≡ reject is_setting (specs.rows db) ++ rs' =
        ap (λ x. specs.rows x.1) saved ∙ added ∙ ap (λ l. l ++ rs') left in
      shown_lem ctx' u request new rows login found (
        read_back ctx.now request (specs.rows db) rows new rs' keyed is_added
          (table.find_rows is_setting new found))
