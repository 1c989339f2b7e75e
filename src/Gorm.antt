-- ===== src/Gorm.antt =====
-- The tables that the program reaches through gorm and MySQL, which are not part of the repository:
-- an interface of operations, and of what the program relies on of them. A condition of `Where`
-- is a test on rows.
pub mod Memory
use walletus.Base.{
  ℕ, ◌+◌, ◌<◌, String, ◌≡◌, Bool, none, some, List, [], ◌∷◌, ◌++◌, arith, Result, ok, err, ◌==◌,
  nat_eq, if◌then◌else◌, length, select, reject, find?,
}

-- `gorm.ErrRecordNotFound`, or any other error with its text.
pub data DbError : Type 0 where
  not_found : DbError
  failed : String → DbError

-- A table in a database of type `Db`. An operation that fails leaves the database as it was, so
-- the new one comes only with a result.
pub record Table (Db Row : Type 0) : Type 0 where
  -- what a query sees, in the order of the keys
  pub rows : Db → List Row
  pub find : (Row → Bool) → Db → Result DbError (List Row)
  pub first : (Row → Bool) → Db → Result DbError Row
  -- the row comes back with the key that the database gave it
  pub create : Row → Db → Result DbError (Row × Db)
  pub create_all : List Row → Db → Result DbError (List Row × Db)
  pub save : Row → Db → Result DbError (Row × Db)
  -- the number of rows affected
  pub delete : (Row → Bool) → Db → Result DbError (ℕ × Db)

-- The primary key of a row, which gorm reads and fills in.
pub record Keyed (Row : Type 0) : Type 0 where
  pub key : Row → ℕ
  pub with_key : ℕ → Row → Row

module _ {Row : Type 0} (k : Keyed Row) where
  abbrev pub has_key : ℕ → Row → Bool
  has_key n x = k.key x == n

  -- `UPDATE` of all columns of the row with the key of `r`.
  abbrev pub replace : Row → List Row → List Row
  replace r [] = []
  replace r (x ∷ xs) = (if has_key (k.key r) x then r else x) ∷ replace r xs

  -- `r` has been put behind the rows `xs` under a key that none of them has.
  pub record IsInserted (r r' : Row) (xs xs' : List Row) : Type 0 where
    pub same : r' ≡ k.with_key (k.key r') r
    pub positive : 0 < k.key r'
    pub fresh : find? (has_key (k.key r')) xs ≡ none
    pub appended : xs' ≡ xs ++ r' ∷ []

-- What gorm documents of an operation that returns no error.
pub record IsTable {Db Row : Type 0} (k : Keyed Row) (t : Table Db Row) : Type 0 where
  -- AUTO_INCREMENT counts from 1
  pub no_zero : (db : Db) → find? (has_key k 0) (t.rows db) ≡ none
  pub find_rows :
      (p : Row → Bool) (db : Db) {xs : List Row} → t.find p db ≡ ok xs → xs ≡ select p (t.rows db)
  pub first_rows :
      (p : Row → Bool) (db : Db) {x : Row} → t.first p db ≡ ok x → find? p (t.rows db) ≡ some x
  pub first_none :
      (p : Row → Bool) (db : Db) → t.first p db ≡ err not_found → find? p (t.rows db) ≡ none
  pub create_rows :
      (r : Row) (db : Db) {r' : Row} {db' : Db}
      → t.create r db ≡ ok (r', db')
      → IsInserted k r r' (t.rows db) (t.rows db')
  pub save_new :
      (r : Row) (db : Db) {r' : Row} {db' : Db}
      → k.key r ≡ 0
      → t.save r db ≡ ok (r', db')
      → IsInserted k r r' (t.rows db) (t.rows db')
  pub save_rows :
      (r : Row) (db : Db) {old r' : Row} {db' : Db}
      → find? (has_key k (k.key r)) (t.rows db) ≡ some old
      → t.save r db ≡ ok (r', db')
      → (r' ≡ r) × (t.rows db' ≡ replace k r (t.rows db))
  pub delete_rows :
      (p : Row → Bool) (db : Db) {n : ℕ} {db' : Db}
      → t.delete p db ≡ ok (n, db')
      → (n ≡ length (select p (t.rows db))) × (t.rows db' ≡ reject p (t.rows db))

-- The rows of a bulk insert stand at the end, each under its new key.
module _ {Row : Type 0} (k : Keyed Row) where
  abbrev pub AreKeyed : List Row → List Row → Type 0
  AreKeyed [] [] = Unit
  AreKeyed (r ∷ rs) (r' ∷ rs') = (r' ≡ k.with_key (k.key r') r) × AreKeyed rs rs'
  AreKeyed _ _ = ⊥

  pub record IsBulk {Db : Type 0} (t : Table Db Row) : Type 0 where
    pub create_all_rows :
        (rs : List Row) (db : Db) {rs' : List Row} {db' : Db}
        → t.create_all rs db ≡ ok (rs', db')
        → (t.rows db' ≡ t.rows db ++ rs') × AreKeyed rs rs'

-- The writes to the table `t` leave the rows of another table `u` alone.
pub record IsApart {Db Row Other : Type 0} (t : Table Db Row) (u : Table Db Other) : Type 0 where
  pub create_apart :
      (r : Row) (db : Db) {r' : Row} {db' : Db}
      → t.create r db ≡ ok (r', db')
      → u.rows db' ≡ u.rows db
  pub create_all_apart :
      (rs : List Row) (db : Db) {rs' : List Row} {db' : Db}
      → t.create_all rs db ≡ ok (rs', db')
      → u.rows db' ≡ u.rows db
  pub save_apart :
      (r : Row) (db : Db) {r' : Row} {db' : Db}
      → t.save r db ≡ ok (r', db')
      → u.rows db' ≡ u.rows db
  pub delete_apart :
      (p : Row → Bool) (db : Db) {n : ℕ} {db' : Db}
      → t.delete p db ≡ ok (n, db')
      → u.rows db' ≡ u.rows db

-- The row with key `n` after an update of the row with the key of `r`.
module _ {Row : Type 0} (k : Keyed Row) where
  pub find?-replace :
      (n : ℕ) (r : Row) (xs : List Row) {x : Row}
      → find? (has_key k n) xs ≡ some x
      → find? (has_key k n) (replace k r xs) ≡ some (if k.key r == n then r else x)
  find?-replace n r [] h = cc
  find?-replace n r (y ∷ ys) {x} h = ground (arith, find?-replace n r ys {x = x})

  -- An inserted row hides none of the older ones.
  pub find?-append :
      (p : Row → Bool) (xs ys : List Row) {x : Row}
      → find? p xs ≡ some x
      → find? p (xs ++ ys) ≡ some x
  find?-append p [] ys h = cc
  find?-append p (y ∷ xs) ys {x} h = ground (arith, find?-append p xs ys {x = x})
