-- ===== src/Numbers/Sequence.antt =====
-- The sequence of common/system/rand.go, and the numbers made with it.
use walletus.Base.{
  ℕ, zero, suc, ◌+◌, ◌-◌, ◌/◌, ◌%◌, ◌≤◌, ◌<◌, String, Option, none, some, [], ◌∷◌, ◌++◌, ltb, leb,
  ◌≡◌, ◌≢◌, refl, ap, sym, ◌∙◌, arith, if-rule, length, take, drop, Result, ok, err, >>=-eq-ok,
  length-append, take_front, drop_front, append_assoc,
}
use walletus.Base.Decimal.{Bytes, format, digits, format_padded, zeros, value, value-format}
use walletus.Gorm.{DbError, not_found, failed}
use walletus.Numbers.{
  NumberEnv, NumberError, UserSeq, next_last_seq, first_row, Date, yymmdd, committed, written,
  seq_found, next_seq, generate, number_body, with_digit, obfuscate_yymmdd, rand3, luhn_digit,
}

-- What the program relies on of the table, of which `seq_of` gives the `last_seq` of a day and flag:
-- a row that is taken has it, an update puts the expression's value there, and a new row its own.
pub record IsNumberEnv (e : NumberEnv) : Type 0 where
  pub seq_of : e.Db → Bytes → ℕ → Option ℕ
  pub taken :
      (day : Bytes) (flag : ℕ) (row : UserSeq) (db : e.Db)
      → e.take_seq day flag db ≡ ok row
      → seq_of db day flag ≡ some row.last_seq
  pub missing :
      (day : Bytes) (flag : ℕ) (db : e.Db)
      → e.take_seq day flag db ≡ err not_found
      → seq_of db day flag ≡ none
  pub updated :
      (day : Bytes) (flag n : ℕ) (expr : ℕ → ℕ) (db new : e.Db)
      → seq_of db day flag ≡ some n
      → e.update_seq day flag expr db ≡ ok new
      → seq_of new day flag ≡ some (expr n)
  pub created :
      (row : UserSeq) (db new : e.Db)
      → e.create_seq row db ≡ ok new
      → seq_of new row.yymmdd row.flag ≡ some row.last_seq

module _ (e : NumberEnv) (h : IsNumberEnv e) where
  -- A sequence number that was given: it has four digits, it is the row's count before the call, or 0
  -- without a row, and the row counts one more.
  abbrev pub IsNext : Bytes → ℕ → e.Db → ℕ → e.Db → Type 0
  IsNext day flag db n new =
      (n < 9999)
      × (h.seq_of new day flag ≡ some (suc n))
      × ((m : ℕ) → h.seq_of db day flag ≡ some m → n ≡ m)

  committed-ok :
      (n m : ℕ) (db new : e.Db) (o : Option String)
      → (committed e n db new o).0 ≡ ok m
      → (n ≡ m) × (new ≡ (committed e n db new o).1)
  unfolding committed
  committed-ok n m db new none g = (ground (arith, g), refl)
  committed-ok n m db new (some text) g = absurd (ground (arith, g))

  -- The database after a write that was committed.
  written-ok :
      (n m : ℕ) (db : e.Db) (r : Result DbError e.Db)
      → (written e n db r).0 ≡ ok m
      → (n ≡ m) × (r ≡ ok (written e n db r).1)
  unfolding written
  written-ok n m db (err x) g = absurd (ground (arith, g))
  written-ok n m db (ok new) g =
      let (same, last) = committed-ok n m db new (e.commit_error new) g in
      (same, ap (λ d. ok d) last)

  found-IsNext :
      (day : Bytes) (flag n : ℕ) (rec : UserSeq) (db : e.Db)
      → e.take_seq day flag db ≡ ok rec
      → rec.last_seq < 9999
      → (written e rec.last_seq db (e.update_seq day flag (next_last_seq e) db)).0 ≡ ok n
      → IsNext day flag db n
          (written e rec.last_seq db (e.update_seq day flag (next_last_seq e) db)).1
  found-IsNext day flag n rec db taken small g =
      let last = rec.last_seq in
      let write = e.update_seq day flag (next_last_seq e) db in
      let (same, new) = written-ok last n db write g in
      let row = h.taken day flag rec db taken in
      let counted : last + 1 ≡ suc n = omega (arith, same) in
      (
        omega (arith, same, small),
        h.updated day flag last (next_last_seq e) db (written e last db write).1 row new
            ∙ ap (λ k. some k) counted,
        λ m found.
            let e' : last ≡ m =
              (let s : some last ≡ some m = sym row ∙ found in ground (arith, s)) in
            sym same ∙ e',
      )

  seq_found-IsNext :
      (day : Bytes) (flag n : ℕ) (db : e.Db) (r : Result DbError UserSeq)
      → e.take_seq day flag db ≡ r
      → (seq_found e day flag db r).0 ≡ ok n
      → IsNext day flag db n (seq_found e day flag db r).1
  unfolding seq_found
  seq_found-IsNext day flag n db (ok rec) taken g =
      if-rule {A = Result NumberError ℕ × e.Db} (λ r. r.0 ≡ ok n → IsNext day flag db n r.1)
        (leb 9999 rec.last_seq) (λ full no. absurd (ground (arith, no)))
        (λ room done. found-IsNext day flag n rec db taken (ground (arith, room)) done) g
  seq_found-IsNext day flag n db (err not_found) taken g =
      let row = first_row e day flag in
      let (same, new) = written-ok 0 n db (e.create_seq row db) g in
      let none_before = h.missing day flag db taken in
      (
        omega (arith, same),
        h.created row db (written e 0 db (e.create_seq row db)).1 new ∙ ap (λ k. some (suc k)) same,
        λ m found. absurd (let s : none ≡ some m = sym none_before ∙ found in ground (arith, s)),
      )
  seq_found-IsNext day flag n db (err (failed text)) taken g = absurd (ground (arith, g))

  next_seq-IsNext :
      (day : Bytes) (flag n : ℕ) (db : e.Db)
      → (next_seq e day flag db).0 ≡ ok n
      → IsNext day flag db n (next_seq e day flag db).1
  unfolding next_seq
  next_seq-IsNext day flag n db g = seq_found-IsNext day flag n db (e.take_seq day flag db) refl g

  -- A sequence number has at most four digits, and the next one of its day and flag is one more.
  pub next_seq-suc :
      (day : Bytes) (flag n m : ℕ) (db : e.Db)
      → (next_seq e day flag db).0 ≡ ok n
      → (next_seq e day flag (next_seq e day flag db).1).0 ≡ ok m
      → (n < 9999) × (m ≡ suc n)
  next_seq-suc day flag n m db g k =
      let new = (next_seq e day flag db).1 in
      let now = next_seq-IsNext day flag n db g in
      let next = next_seq-IsNext day flag m new k in (now.0, next.2 (suc n) now.1)

-- A number of at most `k + 1` digits.
Fits : ℕ → ℕ → Type 0
Fits zero n = n < 10
Fits (suc k) n = Fits k (n / 10)

length-digits : (f n k : ℕ) → n < f → Fits k n → length (digits f n) ≤ suc k
unfolding digits Fits
length-digits zero n k h g = absurd (omega arith)
length-digits (suc f) n zero h g =
    if-rule (λ s. length s ≤ 1) (ltb n 10) {x = (b'0' + n) ∷ []} (λ one. omega arith)
      (λ more. absurd (ground (arith, more, g)))
length-digits (suc f) n (suc k) h g =
    if-rule (λ s. length s ≤ suc (suc k)) (ltb n 10) {x = (b'0' + n) ∷ []}
      {y = digits f (n / 10) ++ (b'0' + n % 10) ∷ []} (λ one. omega arith)
      (λ more.
        let big : 10 ≤ n = ground (arith, more) in
        omega (
          arith,
          length-append (digits f (n / 10)) ((b'0' + n % 10) ∷ []),
          length-digits f (n / 10) k (omega (arith, big)) g,
        ))

length-zeros : (k : ℕ) (s : Bytes) → length (zeros k s) ≡ k + length s
unfolding zeros
length-zeros zero s = omega arith
length-zeros (suc k) s = omega (arith, length-zeros k s)

length-format_padded : (n : ℕ) → n < 9999 → length (format_padded 4 n) ≡ 4
unfolding format_padded format Fits
length-format_padded n h = omega (
  arith,
  length-zeros (4 - length (digits (suc n) n)) (digits (suc n) n),
  length-digits (suc n) n 3 (omega arith) (omega (arith, h)),
)

-- The four digits of a sequence number tell it.
value-zeros : (k : ℕ) (s : Bytes) → value 0 (zeros k s) ≡ value 0 s
unfolding zeros
value-zeros zero s = refl
value-zeros (suc k) s = value-zeros k s

value-format_padded : (w n : ℕ) → value 0 (format_padded w n) ≡ n
unfolding format_padded
value-format_padded w n = value-zeros (w - length (format n)) (format n) ∙ value-format n

-- The place of the sequence number behind the flag and the date.
seq_at : ℕ → Bytes → ℕ
seq_at place s = value 0 (take 4 (drop place s))

seq_at-number :
    (flag n : ℕ) (obf r3 : Bytes)
    → n < 9999
    → seq_at (length (format flag ++ obf)) (with_digit (number_body flag obf n r3)) ≡ n
unfolding seq_at
seq_at-number flag n obf r3 h =
    let front = format flag ++ obf in
    let check = format (luhn_digit (number_body flag obf n r3)) in
    let back = r3 ++ check in
    let whole : with_digit (number_body flag obf n r3) ≡ (front ++ (format_padded 4 n ++ back)) =
      cc (
        append_assoc (format flag) (obf ++ (format_padded 4 n ++ r3)) check,
        append_assoc obf (format_padded 4 n ++ r3) check,
        append_assoc (format_padded 4 n) r3 check,
        append_assoc (format flag) obf (format_padded 4 n ++ back),
      ) in
    ap (λ s. value 0 (take 4 (drop (length front) s))) whole
    ∙ ap (λ s. value 0 (take 4 s))
        (drop_front (length front) front (format_padded 4 n ++ back) refl)
    ∙ ap (value 0) (take_front 4 (format_padded 4 n) back (length-format_padded n h))
    ∙ value-format_padded 4 n

module _ (e : NumberEnv) (h : IsNumberEnv e) where
  generate-ok :
      (flag : ℕ) (secret : Bytes) (now : Date) (random : Result String ℕ) (db : e.Db) (x : Bytes)
      → (generate e flag secret now random db).0 ≡ ok x
      → (n : ℕ) × (r3 : Bytes) × ((next_seq e (yymmdd now) flag db).0 ≡ ok n)
        × (x ≡ with_digit (number_body flag (obfuscate_yymmdd e now secret) n r3))
  unfolding generate
  generate-ok flag secret now random db x g =
      let (n, g₁, rest) = >>=-eq-ok (next_seq e (yymmdd now) flag db).0 _ g in
      let (r3, g₂, last) = >>=-eq-ok (rand3 random) _ rest in
      (n, r3, g₁, sym (ground (arith, last)))

  -- Two numbers made one after the other, for the same day and flag and from whatever random bytes,
  -- are different.
  pub generate-ne :
      (flag : ℕ) (secret : Bytes) (now : Date) (r s : Result String ℕ) (db : e.Db) (x y : Bytes)
      → (generate e flag secret now r db).0 ≡ ok x
      → (generate e flag secret now s (generate e flag secret now r db).1).0 ≡ ok y
      → x ≢ y
  unfolding generate
  generate-ne flag secret now r s db x y g k same =
      let obf = obfuscate_yymmdd e now secret in
      let new = (next_seq e (yymmdd now) flag db).1 in
      let (n, r3, g₁, first) = generate-ok flag secret now r db x g in
      let (m, s3, k₁, second) = generate-ok flag secret now s new y k in
      let one = next_seq-IsNext e h (yymmdd now) flag n db g₁ in
      let two = next_seq-IsNext e h (yymmdd now) flag m new k₁ in
      let next = next_seq-suc e h (yymmdd now) flag n m db g₁ k₁ in
      let place = length (format flag ++ obf) in
      let here : n ≡ m =
        sym (seq_at-number flag n obf r3 one.0)
        ∙ ap (seq_at place) (sym first ∙ same ∙ second)
        ∙ seq_at-number flag m obf s3 two.0 in
      omega (arith, here, next.1)
