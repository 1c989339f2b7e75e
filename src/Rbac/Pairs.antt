-- ===== src/Rbac/Pairs.antt =====
-- A table of pairs before and after a bind or an unbind.
use walletus.Base.{
  ℕ, Bool, true, List, [], ◌∷◌, ◌++◌, none, some, ◌≡◌, ◌≢◌, refl, arith, find?, any, select, reject,
  length, Option-cases, inl, inr, ok, ap, Result,
}
use walletus.Base.Decimal.{Bytes, parse_uint}
use walletus.Gorm.{DbError, Table, Keyed, IsTable}
use walletus.Rbac.{IsInsertNew}

module _ {Row : Type 0} (p : Row → Bool) where
  pub reject_of_none : (xs : List Row) → length (select p xs) ≡ 0 → reject p xs ≡ xs
  reject_of_none [] h = refl
  reject_of_none (x ∷ xs) h = ground (arith, reject_of_none xs)

  pub reject-append_one :
      (xs : List Row) (y : Row) → find? p xs ≡ none → p y ≡ true → reject p (xs ++ y ∷ []) ≡ xs
  reject-append_one [] y h g = rw g refl
  reject-append_one (x ∷ xs) y h g = ground (arith, reject-append_one xs y)

  any_of_select : (xs : List Row) → length (select p xs) ≢ 0 → any p xs ≡ true
  any_of_select [] h = absurd (h refl)
  any_of_select (x ∷ xs) h = ground (arith, any_of_select xs)

  -- `ys` has one row more than `xs`, for a pair that `xs` does not have.
  pub record IsBoundIn (xs ys : List Row) : Type 0 where
    pub row : Row
    pub of_pair : p row ≡ true
    pub unbound : find? p xs ≡ none
    pub appended : ys ≡ xs ++ row ∷ []

  -- `ys` has the rows of `xs` but those of the pair, of which there was one.
  pub record IsUnboundIn (xs ys : List Row) : Type 0 where
    pub bound : any p xs ≡ true
    pub removed : ys ≡ reject p xs

  pub unbound_again : (xs ys zs : List Row) → IsBoundIn xs ys → IsUnboundIn ys zs → zs ≡ xs
  unbound_again xs ys zs b u =
      cc (u.removed, ap (reject p) b.appended, reject-append_one xs b.row b.unbound b.of_pair)

  -- A delete that has changed the rows.
  pub delete-IsUnboundIn :
      {Db : Type 0} {k : Keyed Row} {t : Table Db Row}
      → IsTable k t
      → (db db' : Db) (n : ℕ) → t.delete p db ≡ ok (n, db')
      → t.rows db' ≢ t.rows db
      → IsUnboundIn (t.rows db) (t.rows db')
  delete-IsUnboundIn {t = t} laws db db' n h changed =
      let law = laws.delete_rows p db h in
      record {
        bound = any_of_select (t.rows db) (λ z. changed (cc (law.1, reject_of_none (t.rows db) z)));
        removed = law.1;
      }

-- An insert that has changed the rows.
pub insert-IsBoundIn :
    {Db Row : Type 0} {k : Keyed Row} {t : Table Db Row} (p : Row → Row → Bool)
    {insert : Row → Db → Result DbError (Row × Db)}
    → IsInsertNew k t p insert
    → (r r' : Row) (db db' : Db) → ((n : ℕ) → p r (k.with_key n r) ≡ true)
    → insert r db ≡ ok (r', db')
    → t.rows db' ≢ t.rows db
    → IsBoundIn (p r) (t.rows db) (t.rows db')
insert-IsBoundIn {k = k} {t} p laws r r' db db' same h changed =
    elim (Option-cases (find? (p r) (t.rows db))) [
      | inl fresh ↦
          let i = laws.inserts r db h fresh in
          record {
            row = r';
            of_pair = rw i.same (same (k.key r'));
            unbound = fresh;
            appended = i.appended;
          }
      | inr (x, found) ↦ absurd (changed (laws.does_nothing r db h found))
    ]

-- The two parameters of the path have been read, and the pair that they name has changed.
pub record IsOfPair {Row : Type 0} (pair : ℕ → ℕ → Row → Bool)
    (change : (Row → Bool) → List Row → List Row → Type 0) (first second : Bytes) (xs ys : List Row)
    : Type 0 where
  pub a : ℕ
  pub b : ℕ
  pub read_first : parse_uint 64 first ≡ some a
  pub read_second : parse_uint 64 second ≡ some b
  pub changed : change (pair a b) xs ys

-- A pair that is bound and then unbound leaves the table as it was.
pub IsOfPair-inverse :
    {Row : Type 0} (pair : ℕ → ℕ → Row → Bool) (first second : Bytes) (xs ys zs : List Row)
    → IsOfPair pair IsBoundIn first second xs ys
    → IsOfPair pair IsUnboundIn first second ys zs
    → zs ≡ xs
IsOfPair-inverse pair first second xs ys zs m n =
    let e : m.a ≡ n.a = ground (arith, m.read_first, n.read_first) in
    let e' : m.b ≡ n.b = ground (arith, m.read_second, n.read_second) in
    unbound_again (pair n.a n.b) xs ys zs (rw (← e, ← e') m.changed) n.changed
