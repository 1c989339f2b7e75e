-- ===== src/Web/Ended.antt =====
-- What a handler has passed through when its steps go on to the end.
use walletus.Base.{
  ℕ, String, Bool, true, false, List, [], Result, ok, err, ◌⊎◌, inl, inr, ◌≡◌, refl, ap, arith,
}
use walletus.Gorm.{DbError}
use walletus.Web.{
  steps, Action, Response, Flow, next, reply, panic, after, ◌>>=◌, answer_if, or_answer,
  write_or_answer, find_or_nil, first_or,
}

module _ {Db P A B : Type 0} where
  after-next :
      (k : A → Action Db P B) (x : Flow P A × Db) (b : B) (new : Db)
      → after k x ≡ (next b, new)
      → (a : A) × (mid : Db) × (x ≡ (next a, mid)) × (k a mid ≡ (next b, new))
  after-next k (next a, mid) b new h = (a, mid, refl, h)
  after-next k (reply res, mid) b new h = absurd (ground (arith, h))
  after-next k (panic, mid) b new h = absurd (ground (arith, h))

  pub >>=-next :
      (m : Action Db P A) (k : A → Action Db P B) (db : Db) (b : B) (new : Db)
      → (m >>= k) db ≡ (next b, new)
      → (a : A) × (mid : Db) × (m db ≡ (next a, mid)) × (k a mid ≡ (next b, new))
  unfolding steps
  >>=-next m k db b new h = after-next k (m db) b new h

  after-reply :
      (k : A → Action Db P B) (x : Flow P A × Db) (r : Response P)
      → (after k x).0 ≡ reply r
      → (x.0 ≡ reply r) ⊎ ((a : A) × (x.0 ≡ next a) × ((k a x.1).0 ≡ reply r))
  after-reply k (next a, mid) r h = inr (a, refl, h)
  after-reply k (reply res, mid) r h = inl (ground (arith, h))
  after-reply k (panic, mid) r h = absurd (ground (arith, h))

  -- An answer is given by the first step or by the rest.
  pub >>=-reply :
      (m : Action Db P A) (k : A → Action Db P B) (db : Db) (r : Response P)
      → ((m >>= k) db).0 ≡ reply r
      → ((m db).0 ≡ reply r) ⊎ ((a : A) × ((m db).0 ≡ next a) × ((k a (m db).1).0 ≡ reply r))
  unfolding steps
  >>=-reply m k db r h = after-reply k (m db) r h

module _ {Db P A : Type 0} (empty : P) where
  or_by :
      (r : Result DbError A) (on_error : DbError → ℕ × String) (db mid : Db) (a : A)
      → or_answer empty (λ _. r) on_error db ≡ (next a, mid)
      → (r ≡ ok a) × (db ≡ mid)
  unfolding steps
  or_by (ok x) on_error db mid a h = (ground (arith, h), ground (arith, h))
  or_by (err x) on_error db mid a h = absurd (ground (arith, h))

  pub or_answer-next :
      (query : Db → Result DbError A) (on_error : DbError → ℕ × String) (db mid : Db) (a : A)
      → or_answer empty query on_error db ≡ (next a, mid)
      → (query db ≡ ok a) × (db ≡ mid)
  unfolding steps
  or_answer-next query on_error db mid a h = or_by (query db) on_error db mid a h

  write_by :
      (r : Result DbError (A × Db)) (on_error : DbError → ℕ × String) (db mid : Db) (a : A)
      → write_or_answer empty (λ _. r) on_error db ≡ (next a, mid)
      → r ≡ ok (a, mid)
  unfolding steps
  write_by (ok (x, new)) on_error db mid a h = ground (arith, h)
  write_by (err x) on_error db mid a h = absurd (ground (arith, h))

  pub write_or_answer-next :
      (write : Db → Result DbError (A × Db)) (on_error : DbError → ℕ × String) (db mid : Db) (a : A)
      → write_or_answer empty write on_error db ≡ (next a, mid)
      → write db ≡ ok (a, mid)
  unfolding steps
  write_or_answer-next write on_error db mid a h = write_by (write db) on_error db mid a h

module _ {Db P : Type 0} (empty : P) where
  pub answer_if-next :
      (b : Bool) (code : ℕ) (msg : String) (db mid : Db) (t : Unit {0})
      → answer_if empty b code msg db ≡ (next t, mid)
      → (b ≡ false) × (db ≡ mid)
  unfolding steps
  answer_if-next true code msg db mid t h = absurd (ground (arith, h))
  answer_if-next false code msg db mid t h = (refl, ground (arith, h))

-- What stands in the variable of a query whose error is ignored.
unfoldable pub or_nil : {A : Type 0} → Result DbError (List A) → List A
or_nil (ok xs) = xs
or_nil (err x) = []

-- Queries whose error is ignored go on in the same database.
module _ {Db P A : Type 0} (empty : P) where
  found_by :
      (q : Result DbError (List A)) (db mid : Db) (xs : List A)
      → find_or_nil empty (λ _. q) db ≡ (next xs, mid)
      → ((q ≡ ok xs) ⊎ (xs ≡ [])) × (db ≡ mid)
  unfolding steps
  found_by (ok ys) db mid xs h = (inl (ground (arith, h)), ground (arith, h))
  found_by (err x) db mid xs h = (inr (ground (arith, h)), ground (arith, h))

  pub find_or_nil-next :
      (query : Db → Result DbError (List A)) (db mid : Db) (xs : List A)
      → find_or_nil empty query db ≡ (next xs, mid)
      → ((query db ≡ ok xs) ⊎ (xs ≡ [])) × (db ≡ mid)
  unfolding steps
  find_or_nil-next query db mid xs h = found_by (query db) db mid xs h

  read_by :
      (q : Result DbError (List A)) (db mid : Db) (xs : List A)
      → find_or_nil empty (λ _. q) db ≡ (next xs, mid)
      → (xs ≡ or_nil q) × (db ≡ mid)
  unfolding steps or_nil
  read_by (ok ys) db mid xs h = (ground (arith, h), ground (arith, h))
  read_by (err x) db mid xs h = (ground (arith, h), ground (arith, h))

  pub find_or_nil-or_nil :
      (query : Db → Result DbError (List A)) (db mid : Db) (xs : List A)
      → find_or_nil empty query db ≡ (next xs, mid)
      → (xs ≡ or_nil (query db)) × (db ≡ mid)
  unfolding steps
  find_or_nil-or_nil query db mid xs h = read_by (query db) db mid xs h

  goes_on :
      (q : Result DbError (List A)) (db : Db)
      → (xs : List A) × (find_or_nil empty (λ _. q) db ≡ (next xs, db))
  unfolding steps
  goes_on (ok ys) db = (ys, refl)
  goes_on (err x) db = ([], refl)

  pub find_or_nil-goes_on :
      (query : Db → Result DbError (List A)) (db : Db)
      → (xs : List A) × (find_or_nil empty query db ≡ (next xs, db))
  unfolding steps
  find_or_nil-goes_on query db = goes_on (query db) db

-- Steps that go on, as equations.
module _ {Db P A B : Type 0} (empty : P) (k : A → Action Db P B) (db : Db) where
  pub or_answer-ok :
      (query : Db → Result DbError A) (on_error : DbError → ℕ × String) {a : A}
      → query db ≡ ok a
      → (or_answer empty query on_error >>= k) db ≡ k a db
  unfolding steps
  or_answer-ok query on_error h = ap (λ r. (or_answer empty (λ _. r) on_error >>= k) db) h

module _ {Db P A B : Type 0} (k : A → Action Db P B) (db : Db) where
  pub first_or-ok :
      (missing : A) (query : Db → Result DbError A) {a : A}
      → query db ≡ ok a
      → (first_or missing query >>= k) db ≡ k a db
  unfolding steps
  first_or-ok missing query h = ap (λ r. (first_or missing (λ _. r) >>= k) db) h

module _ {Db P A B : Type 0} (empty : P) (k : List A → Action Db P B) (db : Db) where
  pub find_or_nil-ok :
      (query : Db → Result DbError (List A)) {xs : List A}
      → query db ≡ ok xs
      → (find_or_nil empty query >>= k) db ≡ k xs db
  unfolding steps
  find_or_nil-ok query h = ap (λ r. (find_or_nil empty (λ _. r) >>= k) db) h

module _ {Db P B : Type 0} (empty : P) (k : Unit {0} → Action Db P B) (db : Db) where
  pub answer_if-false :
      (b : Bool) (code : ℕ) (msg : String)
      → b ≡ false
      → (answer_if empty b code msg >>= k) db ≡ k tt db
  unfolding steps
  answer_if-false b code msg h = ap (λ c. (answer_if empty c code msg >>= k) db) h
