-- ===== src/Tests/Numbers.antt =====
-- The numbers of 15 digits at concrete inputs.
use walletus.Base.{
  ℕ, Option, none, some, [], ◌∷◌, ◌++◌, ok, err, Result, ◌≡◌, ◌≢◌, refl, ap, sym, ◌∙◌, arith,
}
use walletus.Base.Decimal.{Bytes, codes, format, digits, format_padded}
use walletus.Gorm.{DbError, not_found}
use walletus.Numbers.{
  NumberEnv, Date, UserSeq, generate, next_seq, seq_found, written, committed, rand3, luhn_digit,
  luhn_sum, with_digit, number_body, obfuscate_yymmdd,
}
use walletus.Numbers.Luhn.{IsLuhn, luhn_digit-detects}
use walletus.Numbers.Sequence.{IsNumberEnv, generate-ne}

abbrev body : Bytes
body = codes "12345678901234"

-- The check digit of this body is 7.
made : (body ++ format (luhn_digit body)) ≡ (codes "12" ++ b'3' ∷ codes "456789012347")
unfolding luhn_digit luhn_sum format digits
made = refl

luhn_digit-detects_example :
    IsLuhn (body ++ format (luhn_digit body))
    × (IsLuhn (codes "12" ++ b'8' ∷ codes "456789012347") → ⊥)
luhn_digit-detects_example =
    luhn_digit-detects body (codes "12") (codes "456789012347") b'3' b'8' made
      (omega arith, omega arith) (omega arith, omega arith) (λ same. omega (arith, same))

-- One sequence: the number of its row, or none before the first call.
count_of : Option ℕ → Result DbError UserSeq
count_of none = err not_found
count_of (some n) = ok (record { yymmdd = []; flag = 1; last_seq = n })

count_up : (ℕ → ℕ) → Option ℕ → Result DbError (Option ℕ)
count_up expr none = ok none
count_up expr (some n) = ok (some (expr n))

abbrev number_env : NumberEnv
number_env = record {
  Db = Option ℕ;
  take_seq = λ day flag db. count_of db;
  update_seq = λ day flag expr db. count_up expr db;
  create_seq = λ row db. ok (some row.last_seq);
  commit_error = λ db. none;
  hmac = λ secret text. 1 ∷ 2 ∷ 3 ∷ [];
}

counted : (db : Option ℕ) (row : UserSeq) → count_of db ≡ ok row → db ≡ some row.last_seq
unfolding count_of
counted none row h = absurd (ground (arith, h))
counted (some m) row h = ground (arith, h)

uncounted : (db : Option ℕ) → count_of db ≡ err not_found → db ≡ none
unfolding count_of
uncounted none h = refl
uncounted (some m) h = absurd (ground (arith, h))

up_by :
    (expr : ℕ → ℕ) (db new : Option ℕ) (n : ℕ)
    → db ≡ some n
    → count_up expr db ≡ ok new
    → new ≡ some (expr n)
unfolding count_up
up_by expr db new n e h =
    let up : count_up expr db ≡ ok (some (expr n)) = ap (count_up expr) e in
    let same : ◌≡◌ {A = Result DbError (Option ℕ)} (ok new) (ok (some (expr n))) = sym h ∙ up in
    ground (arith, same)

number_env-IsNumberEnv : IsNumberEnv number_env
number_env-IsNumberEnv = record {
  seq_of = λ db day flag. db;
  taken = λ day flag row db h. counted db row h;
  missing = λ day flag db h. uncounted db h;
  updated = λ day flag n expr db new e h. up_by expr db new n e h;
  created = λ row db new h. let e : some row.last_seq ≡ new = ground (arith, h) in sym e;
}

abbrev today : Date
today = record { year = 2026; month = 11; day = 26 }

abbrev secret : Bytes
secret = codes "nnnnn"

abbrev number_of : ℕ → ℕ → Bytes
number_of seq random =
    with_digit
      (number_body 1 (obfuscate_yymmdd number_env today secret) seq (format_padded 3 random))

first_number : (generate number_env 1 secret today (ok 7) none).0 ≡ ok (number_of 0 7)
unfolding generate next_seq seq_found written committed rand3 count_of
first_number = refl

second_number : (generate number_env 1 secret today (ok 7) (some 1)).0 ≡ ok (number_of 1 7)
unfolding generate next_seq seq_found written committed rand3 count_of count_up
second_number = refl

generate-ne_example : number_of 0 7 ≢ number_of 1 7
unfolding generate next_seq seq_found written committed count_of
generate-ne_example =
    generate-ne number_env number_env-IsNumberEnv 1 secret today (ok 7) (ok 7) none (number_of 0 7)
      (number_of 1 7) first_number second_number
