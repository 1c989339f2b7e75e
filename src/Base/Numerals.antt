-- ===== src/Base/Numerals.antt =====
-- Texts of numbers in the bases 10 and 16, as packages math/big, strconv and encoding/hex write and
-- read them.
use walletus.Base.Tests.{Bool-cases, if-rule, ◌==◌, nat_eq, ltb, leb, if◌then◌else◌}
use Prim.Native.Nat.{ℕ, zero, suc, ◌+◌, ◌-◌, ◌*◌, ◌/◌, ◌%◌, ◌^◌, ◌≤◌, ◌<◌}
use mathlib.Core.Bool.{Bool, false, ◌&&◌}
use mathlib.Core.List.{[], ◌∷◌, ◌++◌, concat-ne-nil}
use mathlib.Core.Option.{Option, none, some}
use mathlib.Core.Path.{◌≡◌, refl, ap, ◌∙◌}
use native.Mathlib.Omega.{arith}
use walletus.Base.Int.{ℤ, pos, negsuc}
use walletus.Base.Lists.{All, All-append, length}
use mathlib.Core.Logic.{◌≢◌, inl, inr}
use walletus.Base.Decimal.{
  Bytes, value, IsDigit, format, format-IsDigit, value-format, format-ne-nil,
}

-- The value of a digit or letter; 99 is none.
abbrev pub digit_value : ℕ → ℕ
digit_value c =
    if leb b'0' c && leb c b'9'
    then c - b'0'
    else if leb b'a' c && leb c b'z'
    then c - b'a' + 10
    else if leb b'A' c && leb c b'Z'
    then c - b'A' + 10
    else 99

-- The value of a text of digits in a base behind digits of value `n`.
abbrev pub digits_value : ℕ → ℕ → Bytes → Option ℕ
digits_value base n [] = some n
digits_value base n (c ∷ s) =
    let rest = digits_value base (n * base + digit_value c) s in
    if ltb (digit_value c) base then rest else none

abbrev pub natural : ℕ → Bytes → Option ℕ
natural base [] = none
natural base (c ∷ s) = digits_value base 0 (c ∷ s)

abbrev pub positive : Option ℕ → Option ℤ
positive none = none
positive (some n) = some (pos n)

abbrev pub negative : Option ℕ → Option ℤ
negative none = none
negative (some zero) = some (pos 0)
negative (some (suc n)) = some (negsuc n)

-- `(*big.Int).SetString` in base 10 or 16, `none` for a text that is no number.
unfoldable pub set_string : ℕ → Bytes → Option ℤ
set_string base [] = none
set_string base (c ∷ s) =
    if c == b'-'
    then negative (natural base s)
    else if c == b'+'
    then positive (natural base s)
    else positive (natural base (c ∷ s))

-- `(*big.Int).IsInt64`
abbrev pub is_int64 : ℤ → Bool
is_int64 (pos n) = ltb n (2 ^ 63)
is_int64 (negsuc n) = ltb n (2 ^ 63)

-- `strconv.ParseInt(s, 10, 64)`, `none` for its error.
unfoldable pub parse_int64 : Bytes → Option ℤ
unfolding set_string
parse_int64 s = elim (set_string 10 s) [
  | none ↦ none
  | some n ↦ if is_int64 n then some n else none
]

-- `(*big.Int).SetBytes` behind bytes of value `n`.
abbrev pub set_bytes : ℕ → Bytes → ℕ
set_bytes n [] = n
set_bytes n (b ∷ bs) = set_bytes (n * 256 + b) bs

hex_digit : ℕ → ℕ
hex_digit n = if ltb n 10 then b'0' + n else b'a' + (n - 10)

-- `hex.EncodeToString`, as the bytes of the text.
unfoldable pub hex_encode : Bytes → Bytes
unfolding hex_digit
hex_encode [] = []
hex_encode (b ∷ bs) = hex_digit (b / 16) ∷ hex_digit (b % 16) ∷ hex_encode bs

-- `hex.DecodeString`, `none` for its error.
unfoldable pub hex_decode : Bytes → Option Bytes
hex_decode [] = some []
hex_decode (c ∷ []) = none
hex_decode (c ∷ d ∷ s) =
    let rest = hex_decode s in
    if ltb (digit_value c) 16 && ltb (digit_value d) 16
    then (elim rest [ none ↦ none | some bs ↦ some ((digit_value c * 16 + digit_value d) ∷ bs) ])
    else none

digit_value-hex_digit : (n : ℕ) → n < 16 → digit_value (hex_digit n) ≡ n
unfolding hex_digit
digit_value-hex_digit n h = ground arith

-- Decoding the hexadecimal text of bytes gives the bytes back.
pub hex_decode-hex_encode :
    (bs : Bytes) → All (λ b. b < 256) bs → hex_decode (hex_encode bs) ≡ some bs
unfolding hex_decode hex_encode
hex_decode-hex_encode [] h = refl
hex_decode-hex_encode (b ∷ bs) h =
    rw
      (
        digit_value-hex_digit (b / 16) (omega (arith, h.0)),
        digit_value-hex_digit (b % 16) (omega arith),
        hex_decode-hex_encode bs h.1,
      )
      (ground (arith, h.0))

pub length-hex_encode : (bs : Bytes) → length (hex_encode bs) ≡ 2 * length bs
unfolding hex_encode
length-hex_encode [] = omega arith
length-hex_encode (b ∷ bs) = omega (arith, length-hex_encode bs)

digits_value-value : (n : ℕ) (s : Bytes) → All IsDigit s → digits_value 10 n s ≡ some (value n s)
digits_value-value n [] h = refl
digits_value-value n (c ∷ s) h =
    let v : digit_value c ≡ c - b'0' = ground (arith, h.0) in
    rw v (ground (arith, h.0, digits_value-value (n * 10 + (c - b'0')) s h.1))

set_string-digits : (s : Bytes) → s ≢ [] → All IsDigit s → set_string 10 s ≡ some (pos (value 0 s))
unfolding set_string
set_string-digits [] ne h = absurd (ne refl)
set_string-digits (c ∷ s) ne h =
    let dash : (c == b'-') ≡ false = ground (arith, h.0) in
    let plus : (c == b'+') ≡ false = ground (arith, h.0) in
    rw (dash, plus, digits_value-value 0 (c ∷ s) h) refl

-- The decimal form of a number is read back as the number.
pub set_string-format : (n : ℕ) → set_string 10 (format n) ≡ some (pos n)
set_string-format n =
    set_string-digits (format n) (format-ne-nil n) (format-IsDigit n)
    ∙ ap (λ v. some (pos v)) (value-format n)

-- `%x` and `Text(16)` of a natural number, the fuel bounding the number of digits.
hex_digits : ℕ → ℕ → Bytes
unfolding hex_digit
hex_digits zero n = []
hex_digits (suc f) n =
    let more = hex_digits f (n / 16) ++ hex_digit (n % 16) ∷ [] in
    if ltb n 16 then hex_digit n ∷ [] else more

unfoldable pub format_hex : ℕ → Bytes
unfolding hex_digits
format_hex n = hex_digits (suc n) n

-- The value of a text of hexadecimal digits, which it may not be.
digits_value-append :
    (base n : ℕ) (xs ys : Bytes) (m : ℕ)
    → digits_value base n xs ≡ some m
    → digits_value base n (xs ++ ys) ≡ digits_value base m ys
digits_value-append base n [] ys m h =
    let e : n ≡ m = ground (arith, h) in ap (λ k. digits_value base k ys) e
digits_value-append base n (x ∷ xs) ys m h = elim (Bool-cases (ltb (digit_value x) base)) [
  | inl digit ↦
      rw digit
        (digits_value-append base (n * base + digit_value x) xs ys m (ground (arith, h, digit)))
  | inr other ↦ absurd (ground (arith, h, other))
]

digits_value-one : (n d : ℕ) → d < 16 → digits_value 16 n (hex_digit d ∷ []) ≡ some (n * 16 + d)
digits_value-one n d h = rw (digit_value-hex_digit d h) (ground (arith, h))

digits_value-hex_digits : (f n : ℕ) → n < f → digits_value 16 0 (hex_digits f n) ≡ some n
unfolding hex_digits
digits_value-hex_digits zero n h = absurd (omega arith)
digits_value-hex_digits (suc f) n h = elim (Bool-cases (ltb n 16)) [
  | inl one ↦
      let e : 0 * 16 + n ≡ n = omega arith in
      let small : n < 16 = ground (arith, one) in rw one (digits_value-one 0 n small ∙ ap some e)
  | inr more ↦
      let e : (n / 16) * 16 + n % 16 ≡ n = omega arith in
      let big : 16 ≤ n = ground (arith, more) in
      rw more (
        digits_value-append 16 0 (hex_digits f (n / 16)) (hex_digit (n % 16) ∷ []) (n / 16)
          (digits_value-hex_digits f (n / 16) (omega arith))
        ∙ digits_value-one (n / 16) (n % 16) (omega arith)
        ∙ ap some e)
]

IsUnsigned : ℕ → Type 0
IsUnsigned c = ((c == b'-') ≡ false) × ((c == b'+') ≡ false)

hex_digit-IsUnsigned : (n : ℕ) → IsUnsigned (hex_digit n)
unfolding IsUnsigned hex_digit
hex_digit-IsUnsigned n = (ground arith, ground arith)

hex_digits-IsUnsigned : (f n : ℕ) → All IsUnsigned (hex_digits f n)
unfolding hex_digits
hex_digits-IsUnsigned zero n = tt
hex_digits-IsUnsigned (suc f) n =
    if-rule (All IsUnsigned) (ltb n 16) (λ one. (hex_digit-IsUnsigned n, tt))
      (λ more.
        All-append IsUnsigned (hex_digits f (n / 16)) _ (hex_digits-IsUnsigned f (n / 16))
          (hex_digit-IsUnsigned (n % 16), tt))

set_string-unsigned :
    (base n : ℕ) (s : Bytes)
    → s ≢ []
    → All IsUnsigned s
    → digits_value base 0 s ≡ some n
    → set_string base s ≡ some (pos n)
unfolding set_string IsUnsigned
set_string-unsigned base n [] ne h e = absurd (ne refl)
set_string-unsigned base n (c ∷ s) ne h e = rw (h.0.0, h.0.1, e) refl

hex_digits-ne-nil : (f n : ℕ) → hex_digits (suc f) n ≢ []
unfolding hex_digits
hex_digits-ne-nil f n =
    if-rule (λ s. s ≢ []) (ltb n 16) (λ one e. cc) (λ more. concat-ne-nil _ (hex_digits f (n / 16)))

-- The hexadecimal form of a number is read back as the number.
pub set_string-format_hex : (n : ℕ) → set_string 16 (format_hex n) ≡ some (pos n)
unfolding format_hex
set_string-format_hex n =
    set_string-unsigned 16 n (hex_digits (suc n) n) (hex_digits-ne-nil n n)
      (hex_digits-IsUnsigned (suc n) n) (digits_value-hex_digits (suc n) n (omega arith))

pub parse_int64-format : (n : ℕ) → n < 2 ^ 63 → parse_int64 (format n) ≡ some (pos n)
unfolding parse_int64
parse_int64-format n h = rw (parse_int64, set_string-format n) (ground (arith, h))
