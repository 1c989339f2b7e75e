-- ===== src/Numbers/Luhn.antt =====
-- The check digit of common/system/rand.go.
use walletus.Base.{
  ℕ, ◌+◌, ◌-◌, ◌%◌, ◌≤◌, ◌<◌, [], ◌∷◌, ◌++◌, Bool, true, false, not, ltb, ◌≡◌, ◌≢◌, refl, ap, sym,
  ◌∙◌, arith,
}
use walletus.Base.Decimal.{Bytes, IsDigit, format, digits}
use walletus.Numbers.{term, luhn_sum, luhn_digit}

-- The check of Luhn on a whole number: the digits, every second one from the right doubled, add up to
-- a multiple of 10.
abbrev pub IsLuhn : Bytes → Type 0
IsLuhn s = (luhn_sum false s).0 % 10 ≡ 0

-- The last digit is not doubled, and the one before it is.
luhn_sum-last :
    (body : Bytes) (c : ℕ)
    → ((luhn_sum false (body ++ c ∷ [])).0 ≡ (luhn_sum true body).0 + (c - b'0'))
      × ((luhn_sum false (body ++ c ∷ [])).1 ≡ (luhn_sum true body).1)
unfolding luhn_sum
luhn_sum-last [] c = (refl, refl)
luhn_sum-last (b ∷ body) c =
    let (sum, flag) = luhn_sum-last body c in (rw (sum, flag) (omega arith), ap not flag)

format_digit : (n : ℕ) → n < 10 → format n ≡ (b'0' + n) ∷ []
unfolding format digits
format_digit n h = let one : ltb n 10 ≡ true = ground (arith, h) in rw one refl

-- A body followed by its check digit passes the check.
pub luhn_digit-IsLuhn : (body : Bytes) → IsLuhn (body ++ format (luhn_digit body))
unfolding luhn_digit
luhn_digit-IsLuhn body =
    let d = luhn_digit body in
    let small : d < 10 = omega arith in
    rw (format_digit d small, (luhn_sum-last body (b'0' + d)).0) (omega arith)

-- Two numbers that differ in one place: what they add up to differs by the terms of the digits there.
luhn_sum-replaced :
    (front back : Bytes) (a b : ℕ)
    → let x = luhn_sum false (front ++ a ∷ back) in
      let y = luhn_sum false (front ++ b ∷ back) in
      let flag = (luhn_sum false back).1 in
      (x.0 + term flag (b - b'0') ≡ y.0 + term flag (a - b'0')) × (x.1 ≡ y.1)
unfolding luhn_sum
luhn_sum-replaced [] back a b = (omega arith, refl)
luhn_sum-replaced (c ∷ front) back a b =
    let (sum, flag) = luhn_sum-replaced front back a b in
    (rw flag (omega (arith, sum)), ap not flag)

term_injective : (flag : Bool) (a b : ℕ) → a ≤ 9 → b ≤ 9 → term flag a ≡ term flag b → a ≡ b
term_injective true a b ha hb h = ground (arith, ha, hb, h)
term_injective false a b ha hb h = h

term-le : (flag : Bool) (a : ℕ) → a ≤ 9 → term flag a ≤ 9
term-le true a h = ground (arith, h)
term-le false a h = h

same_rest : (x y : ℕ) → x ≤ 9 → y ≤ 9 → (s t : ℕ) → s % 10 ≡ 0 → t % 10 ≡ 0 → s + y ≡ t + x → x ≡ y
same_rest x y hx hy s t hs ht h = omega arith

-- A body followed by its check digit passes the check of Luhn, and a number that passes it fails it
-- once any one of its digits is replaced by another digit.
pub luhn_digit-detects :
    (body front back : Bytes) (a b : ℕ)
    → body ++ format (luhn_digit body) ≡ front ++ a ∷ back
    → IsDigit a
    → IsDigit b
    → a ≢ b
    → IsLuhn (body ++ format (luhn_digit body)) × (IsLuhn (front ++ b ∷ back) → ⊥)
luhn_digit-detects body front back a b made da db differs =
    let passes = luhn_digit-IsLuhn body in
    let x = luhn_sum false (front ++ a ∷ back) in
    let y = luhn_sum false (front ++ b ∷ back) in
    let flag = (luhn_sum false back).1 in
    let ok_a : x.0 % 10 ≡ 0 = ap (λ s. (luhn_sum false s).0 % 10) (sym made) ∙ passes in
    let sums = (luhn_sum-replaced front back a b).0 in
    let ha : a - b'0' ≤ 9 = omega (arith, da) in
    let hb : b - b'0' ≤ 9 = omega (arith, db) in
    (
      passes,
      λ ok_b.
          let same =
            same_rest (term flag (a - b'0')) (term flag (b - b'0')) (term-le flag (a - b'0') ha)
              (term-le flag (b - b'0') hb) x.0 y.0 ok_a ok_b sums in
          let digit : a - b'0' ≡ b - b'0' = term_injective flag (a - b'0') (b - b'0') ha hb same in
          differs (omega (arith, digit, da, db)),
    )
