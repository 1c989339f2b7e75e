-- ===== src/Numbers.antt =====
-- The numbers of 15 digits of common/system/rand.go, with a sequence for each day and flag. Their
-- random digits and the hash (HMAC with SHA-256) are parameters, as is the table of sequences.
pub mod Luhn
pub mod Sequence
use walletus.Base.{
  ℕ, zero, suc, ◌+◌, ◌-◌, ◌*◌, ◌%◌, ◌<◌, String, Option, none, some, List, [], ◌∷◌, ◌++◌, Bool,
  true, false, not, if◌then◌else◌, ltb, leb, ◌≡◌, length, take, drop, set, get_or, Result, ok, err,
  ◌>>=◌, ◌||◌,
}
use walletus.Base.Decimal.{Bytes, codes, format, format_padded}
use walletus.Gorm.{DbError, not_found, failed}

pub data NumberError : Type 0 where
  flag_range capacity_exceeded : NumberError
  db_failed : DbError → NumberError
  commit_failed : String → NumberError
  no_random : String → NumberError

-- A row of the table `user_seq`.
pub record UserSeq : Type 0 where
  pub yymmdd : Bytes
  pub flag : ℕ
  pub last_seq : ℕ

-- The table by day and flag: `Take` under the lock of the row, `Update` of `last_seq` by an
-- expression of it, and `Create`.
pub record NumberEnv : Type 1 where
  pub Db : Type 0
  pub take_seq : Bytes → ℕ → Db → Result DbError UserSeq
  pub update_seq : Bytes → ℕ → (ℕ → ℕ) → Db → Result DbError Db
  pub create_seq : UserSeq → Db → Result DbError Db
  pub commit_error : Db → Option String
  pub hmac : Bytes → Bytes → Bytes

pub record Date : Type 0 where
  pub year : ℕ
  pub month : ℕ
  pub day : ℕ

-- The two digits of `%02d` each.
abbrev pub yymmdd : Date → Bytes
yymmdd d = format_padded 2 (d.year % 100) ++ (format_padded 2 d.month ++ format_padded 2 d.day)

abbrev swap : ℕ → ℕ → Bytes → Bytes
swap i j perm = set (set perm i (get_or perm j 0)) j (get_or perm i 0)

-- The loop of `buildDigitPerm` from `i` down to 1, with the seed's position `k`.
unfoldable pub shuffle : ℕ → Bytes → ℕ → Bytes → Bytes
shuffle zero seed k perm = perm
shuffle (suc i) seed k perm =
    let j = get_or seed k 0 % (suc i + 1) in
    shuffle i seed (if leb (length seed) (k + 1) then 0 else k + 1) (swap (suc i) j perm)

abbrev ten_digits : Bytes
ten_digits = codes "0123456789"

unfoldable pub build_digit_perm : Bytes → Bytes
build_digit_perm seed = shuffle 9 seed 0 ten_digits

unfoldable pub build_rot : Bytes → ℕ
build_rot sum = get_or sum 0 0 % 6

permute : Bytes → Bytes → Bytes
permute perm [] = []
permute perm (c ∷ s) = get_or perm (c - b'0') 0 ∷ permute perm s

-- A rotation to the right by `rot`.
abbrev rotate : ℕ → Bytes → Bytes
rotate rot b = if ltb 0 rot then drop (6 - rot % 6) b ++ take (6 - rot % 6) b else b

-- What a digit adds: doubled, less 9 above 9, or as it is.
abbrev pub term : Bool → ℕ → ℕ
term true d = if ltb 9 (d * 2) then d * 2 - 9 else d * 2
term false d = d

-- The loop of `luhnDigit` from the end of the text: the sum, and whether the next digit is doubled.
unfoldable pub luhn_sum : Bool → Bytes → ℕ × Bool
luhn_sum dbl [] = (0, dbl)
luhn_sum dbl (c ∷ s) = let r = luhn_sum dbl s in (r.0 + term r.1 (c - b'0'), not r.1)

unfoldable pub luhn_digit : Bytes → ℕ
luhn_digit num = (10 - (luhn_sum true num).0 % 10) % 10

-- `rand3`, of the two random bytes read as a number.
unfoldable pub rand3 : Result String ℕ → Result NumberError Bytes
rand3 (ok n) = ok (format_padded 3 (n % 1000))
rand3 (err text) = err (no_random text)

abbrev pub number_body : ℕ → Bytes → ℕ → Bytes → Bytes
number_body flag obf seq r3 = format flag ++ (obf ++ (format_padded 4 seq ++ r3))

abbrev pub with_digit : Bytes → Bytes
with_digit body = body ++ format (luhn_digit body)

module _ (e : NumberEnv) where
  open e use {Db, take_seq, update_seq, create_seq, commit_error, hmac}

  unfoldable pub obfuscate_yymmdd : Date → Bytes → Bytes
  unfolding permute
  obfuscate_yymmdd d secret =
      rotate (build_rot (hmac secret (codes "rot")))
        (permute (build_digit_perm (hmac secret (codes "dateperm"))) (yymmdd d))

  unfoldable pub committed : ℕ → Db → Db → Option String → Result NumberError ℕ × Db
  committed seq db new none = (ok seq, new)
  committed seq db new (some text) = (err (commit_failed text), db)

  -- A write, and the commit; an error leaves the database as it was.
  unfoldable pub written : ℕ → Db → Result DbError Db → Result NumberError ℕ × Db
  unfolding committed
  written seq db (err x) = (err (db_failed x), db)
  written seq db (ok new) = committed seq db new (commit_error new)

  -- `gorm.Expr("last_seq + 1")`
  abbrev pub next_last_seq : ℕ → ℕ
  next_last_seq last_seq = last_seq + 1

  -- The row of a day's first number.
  abbrev pub first_row : Bytes → ℕ → UserSeq
  first_row day flag = record { yymmdd = day; flag = flag; last_seq = 1 }

  unfoldable pub seq_found : Bytes → ℕ → Db → Result DbError UserSeq → Result NumberError ℕ × Db
  unfolding written
  seq_found day flag db (ok rec) =
      let next = written rec.last_seq db (update_seq day flag next_last_seq db) in
      if leb 9999 rec.last_seq then (err capacity_exceeded, db) else next
  seq_found day flag db (err not_found) = written 0 db (create_seq (first_row day flag) db)
  seq_found day flag db (err (failed text)) = (err (db_failed (failed text)), db)

  -- `nextSeq`: the row's lock makes the transaction one step.
  unfoldable pub next_seq : Bytes → ℕ → Db → Result NumberError ℕ × Db
  unfolding seq_found
  next_seq day flag db = seq_found day flag db (take_seq day flag db)

  -- `Generate`, of the date and the random bytes of the call.
  unfoldable pub generate : ℕ → Bytes → Date → Result String ℕ → Db → Result NumberError Bytes × Db
  generate flag secret now random db =
      let seq = next_seq (yymmdd now) flag db in
      (
        seq.0 >>= (λ n.
            rand3 random
            >>= (λ r3. ok (with_digit (number_body flag (obfuscate_yymmdd now secret) n r3)))),
        seq.1,
      )

-- `New`'s check of the flag.
unfoldable pub check_flag : ℕ → Result NumberError ℕ
check_flag flag = if ltb 9 flag then err flag_range else ok flag
