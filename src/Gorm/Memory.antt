-- ===== src/Gorm/Memory.antt =====
-- A table in memory that meets the interface: the rows are a list inside a record. The examples
-- run the handlers on it.
use walletus.Base.{
  ℕ, suc, ap, sym, ◌∙◌, append-nil, append_assoc, ◌<◌, ◌≡◌, refl, none, some, List, [], ◌∷◌, ◌++◌,
  arith, Bool, Result, ok, err, nat_eq, if◌then◌else◌, leb, length, select, reject, find?,
}
use mathlib.Core.Path.{subst}
use walletus.Gorm.{
  DbError, not_found, Table, Keyed, IsInserted, IsTable, IsBulk, AreKeyed, IsApart, has_key,
  replace,
}

module _ {Row : Type 0} (k : Keyed Row) where
  abbrev max_key : List Row → ℕ
  max_key [] = 0
  max_key (x ∷ xs) = let m = max_key xs in if leb m (k.key x) then k.key x else m

  -- Rows with key 0 are not shown.
  abbrev shown : List Row → List Row
  shown = reject (has_key k 0)

  max_key-fresh : (n : ℕ) (xs : List Row) → max_key xs < n → find? (has_key k n) xs ≡ none
  max_key-fresh n [] h = refl
  max_key-fresh n (x ∷ xs) h = ground (arith, max_key-fresh n xs)

  find?-shown : (xs : List Row) → find? (has_key k 0) (shown xs) ≡ none
  find?-shown [] = refl
  find?-shown (x ∷ xs) = ground (arith, find?-shown xs)

  shown_of_none : (xs : List Row) → find? (has_key k 0) xs ≡ none → shown xs ≡ xs
  shown_of_none [] h = refl
  shown_of_none (x ∷ xs) h = ground (arith, shown_of_none xs)

  find?-append_none :
      (n : ℕ) (xs ys : List Row)
      → find? (has_key k n) xs ≡ none
      → find? (has_key k n) ys ≡ none
      → find? (has_key k n) (xs ++ ys) ≡ none
  find?-append_none n [] ys h g = g
  find?-append_none n (x ∷ xs) ys h g = ground (arith, find?-append_none n xs ys)

  find?-replace-none :
      (n : ℕ) (r : Row) (xs : List Row)
      → find? (has_key k n) xs ≡ none
      → find? (has_key k n) (replace k r xs) ≡ none
  find?-replace-none n r [] h = refl
  find?-replace-none n r (x ∷ xs) h = ground (arith, find?-replace-none n r xs)

  find?-reject-none :
      (n : ℕ) (p : Row → Bool) (xs : List Row)
      → find? (has_key k n) xs ≡ none
      → find? (has_key k n) (reject p xs) ≡ none
  find?-reject-none n p [] h = refl
  find?-reject-none n p (x ∷ xs) h = ground (arith, find?-reject-none n p xs)

-- A table inside a record, given by how its rows are read and written.
module _ {Db Row : Type 0} (k : Keyed Row) (get : Db → List Row) (put : List Row → Db → Db) where
  abbrev mem_rows : Db → List Row
  mem_rows db = shown k (get db)

  abbrev mem_insert : Row → Db → Row × Db
  mem_insert r db =
      let r' = k.with_key (suc (max_key k (mem_rows db))) r in (r', put (mem_rows db ++ r' ∷ []) db)

  abbrev mem_insert_all : List Row → Db → List Row × Db
  mem_insert_all [] db = ([], db)
  mem_insert_all (r ∷ rs) db =
      let (r', db') = mem_insert r db in let (rs', db'') = mem_insert_all rs db' in (r' ∷ rs', db'')

  abbrev mem_save : Row → Db → Row × Db
  mem_save r db = elim (find? (has_key k (k.key r)) (mem_rows db)) [
    | none ↦ mem_insert r db
    | some _ ↦ (r, put (replace k r (mem_rows db)) db)
  ]

  unfoldable pub mem_table : Table Db Row
  mem_table = record {
    rows = mem_rows;
    find = λ p db. ok (select p (mem_rows db));
    first = λ p db. elim (find? p (mem_rows db)) [ none ↦ err not_found | some x ↦ ok x ];
    create = λ r db. ok (mem_insert r db);
    create_all = λ rs db. ok (mem_insert_all rs db);
    save = λ r db. ok (mem_save r db);
    delete = λ p db. ok (length (select p (mem_rows db)), put (reject p (mem_rows db)) db);
  }

  module _ (key-with_key : (n : ℕ) (r : Row) → k.key (k.with_key n r) ≡ n)
      (get-put : (xs : List Row) (db : Db) → get (put xs db) ≡ xs) where
    mem_rows-put :
        (xs : List Row) (db : Db) → find? (has_key k 0) xs ≡ none → mem_rows (put xs db) ≡ xs
    mem_rows-put xs db h = rw (get-put xs db) (shown_of_none k xs h)

    mem_insert-IsInserted :
        (r : Row) (db : Db)
        → let (r', db') = mem_insert r db in IsInserted k r r' (mem_rows db) (mem_rows db')
    mem_insert-IsInserted r db =
        let n : ℕ = suc (max_key k (mem_rows db)) in
        let e = key-with_key n r in
        record {
          same = rw e;
          positive = rw e (omega arith);
          fresh = rw e (max_key-fresh k n (mem_rows db) (omega arith));
          appended =
              mem_rows-put (mem_rows db ++ k.with_key n r ∷ []) db (
                find?-append_none k 0 (mem_rows db) _ (find?-shown k (get db)) (ground (arith, e)));
        }

    -- What holds of a computed result holds of the one that the equation names.
    returned :
        {m : Result DbError (Row × Db)} {x y : Row × Db} (P : Row × Db → Type 0)
        → m ≡ ok x
        → m ≡ ok y
        → P x
        → P y
    returned P e h = subst P (cc)

    mem_save-eq_insert :
        (r : Row) (db : Db) → k.key r ≡ 0 → mem_table.save r db ≡ ok (mem_insert r db)
    unfolding mem_table
    mem_save-eq_insert r db z = ground (arith, find?-shown k (get db))

    mem_save-eq_replace :
        (r : Row) (db : Db) {old : Row}
        → find? (has_key k (k.key r)) (mem_rows db) ≡ some old
        → mem_table.save r db ≡ ok (r, put (replace k r (mem_rows db)) db)
    unfolding mem_table
    mem_save-eq_replace r db f = ground arith

    insert_all-rows :
        (rs : List Row) (db : Db)
        → let (rs', db') = mem_insert_all rs db in
          (mem_rows db' ≡ mem_rows db ++ rs') × AreKeyed k rs rs'
    insert_all-rows [] db = (sym (append-nil (mem_rows db)), tt)
    insert_all-rows (r ∷ rs) db =
        let (r', db') = mem_insert r db in
        let one = mem_insert-IsInserted r db in
        let (rest, keyed) = insert_all-rows rs db' in
        (
          rest
              ∙ ap (λ l. l ++ (mem_insert_all rs db').0) one.appended
              ∙ append_assoc (mem_rows db) (r' ∷ []) (mem_insert_all rs db').0,
          (one.same, keyed),
        )

    pub mem_table-IsBulk : IsBulk k mem_table
    unfolding mem_table
    mem_table-IsBulk = record {
      create_all_rows = λ rs db {rs'} {db'} h.
          let same : mem_insert_all rs db ≡ (rs', db') = ground (arith, h) in
          let (rows, keyed) = insert_all-rows rs db in
          (
            subst (λ x. mem_rows x.1 ≡ mem_rows db ++ x.0) same rows,
            subst (λ x. AreKeyed k rs x.0) same keyed,
          );
    }

    pub mem_table-IsTable : IsTable k mem_table
    unfolding mem_table
    mem_table-IsTable = record {
      no_zero = λ db. find?-shown k (get db);
      find_rows = λ p db h. cc;
      first_rows = λ p db h. ground arith;
      first_none = λ p db h. ground arith;
      create_rows = λ r db h.
          returned (λ x. IsInserted k r x.0 (mem_rows db) (mem_rows x.1)) refl h
            (mem_insert-IsInserted r db);
      save_new = λ r db z h.
          returned (λ x. IsInserted k r x.0 (mem_rows db) (mem_rows x.1))
            (mem_save-eq_insert r db z) h (mem_insert-IsInserted r db);
      save_rows = λ r db f h.
          returned (λ x. (x.0 ≡ r) × (mem_rows x.1 ≡ replace k r (mem_rows db)))
            (mem_save-eq_replace r db f) h
            (
              refl,
              mem_rows-put (replace k r (mem_rows db)) db
                  (find?-replace-none k 0 r (mem_rows db) (find?-shown k (get db))),
            );
      delete_rows = λ p db h.
          let e =
            mem_rows-put (reject p (mem_rows db)) db
              (find?-reject-none k 0 p (mem_rows db) (find?-shown k (get db))) in
          (ground arith, ground (arith, e));
    }

  -- Writes to the table leave a table alone that reads none of its part of the record.
  module _ {Other : Type 0} (u : Table Db Other)
      (kept : (xs : List Row) (db : Db) → u.rows (put xs db) ≡ u.rows db) where
    insert_all-kept : (rs : List Row) (db : Db) → u.rows (mem_insert_all rs db).1 ≡ u.rows db
    insert_all-kept [] db = refl
    insert_all-kept (r ∷ rs) db =
        let db' = (mem_insert r db).1 in cc (insert_all-kept rs db', kept _ db)

    save-kept : (r : Row) (db : Db) → u.rows (mem_save r db).1 ≡ u.rows db
    save-kept r db = ground (
      arith,
      kept (replace k r (mem_rows db)) db,
      kept (mem_rows db ++ k.with_key (suc (max_key k (mem_rows db))) r ∷ []) db,
    )

    kept_by :
        {A : Type 0} {m : Result DbError (A × Db)} {x y : A × Db} (db : Db)
        → m ≡ ok x
        → m ≡ ok y
        → u.rows x.1 ≡ u.rows db
        → u.rows y.1 ≡ u.rows db
    kept_by {A} {x = x} {y = y} db e h =
        let p : x ≡ y = cc in subst {A = A × Db} (λ z. u.rows z.1 ≡ u.rows db) p

    pub mem_table-IsApart : IsApart mem_table u
    unfolding mem_table
    mem_table-IsApart = record {
      create_apart = λ r db h. kept_by db refl h (kept _ db);
      create_all_apart = λ rs db h. kept_by db refl h (insert_all-kept rs db);
      save_apart = λ r db h. kept_by db refl h (save-kept r db);
      delete_apart = λ p db h. kept_by db refl h (kept _ db);
    }
