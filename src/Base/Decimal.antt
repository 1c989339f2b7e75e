-- ===== src/Base/Decimal.antt =====
-- Texts that the program walks, as lists of bytes, and the decimal forms of packages fmt and
-- strconv: `%d`, `%0wd` and `ParseUint` in base 10.
use Prim.Native.Nat.{ℕ, zero, suc, ◌+◌, ◌-◌, ◌*◌, ◌/◌, ◌%◌, ◌^◌, ◌≤◌, ◌<◌}
use Prim.Native.Char.{code}
use Prim.Native.String.{String}
use mathlib.Core.Bool.{Bool, true, false, ◌&&◌}
use mathlib.Core.List.{List, [], ◌∷◌, ◌++◌, concat-ne-nil}
use mathlib.Core.Option.{Option, none, some}
use mathlib.Core.Path.{◌≡◌, refl, ap, ◌∙◌}
use mathlib.Core.Logic.{◌≢◌, ◌↔◌, inl, inr}
use native.Mathlib.Omega.{arith}
use walletus.Base.Tests.{ltb, leb, if◌then◌else◌, Bool-cases, Comparable, ◌==◌, nat_eq}
use walletus.Base.Lists.{length, All, All-append}

abbrev pub Bytes : Type 0
Bytes = List ℕ

-- The bytes of an ASCII literal.
abbrev pub codes : String → Bytes
codes String.[] = []
codes (String.◌∷◌ c s) = code c ∷ codes s

-- Byte by byte, as `bytes.Equal` and `==` of arrays compare.
abbrev pub same_bytes : Bytes → Bytes → Bool
same_bytes [] [] = true
same_bytes (b ∷ bs) (c ∷ cs) = let rest = same_bytes bs cs in if b == c then rest else false
same_bytes bs cs = false

pub same_bytes_refl : (bs : Bytes) → same_bytes bs bs ≡ true
same_bytes_refl [] = refl
same_bytes_refl (b ∷ bs) = rw ((nat_eq.decides b b).1 refl) (same_bytes_refl bs)

same_bytes_sound : (bs cs : Bytes) → same_bytes bs cs ≡ true → bs ≡ cs
same_bytes_sound [] [] h = refl
same_bytes_sound [] (c ∷ cs) h = absurd (ground (arith, h))
same_bytes_sound (b ∷ bs) [] h = absurd (ground (arith, h))
same_bytes_sound (b ∷ bs) (c ∷ cs) h = elim (Bool-cases (b == c)) [
  | inl same ↦
      ap (λ x. x ∷ bs) ((nat_eq.decides b c).0 same)
      ∙ ap (λ xs. c ∷ xs) (same_bytes_sound bs cs (ground (arith, h, same)))
  | inr other ↦ absurd (ground (arith, h, other))
]

pub same_bytes_iff : (bs cs : Bytes) → (same_bytes bs cs ≡ true) ↔ (bs ≡ cs)
same_bytes_iff bs cs =
    (same_bytes_sound bs cs, λ e. ap (λ xs. same_bytes xs cs) e ∙ same_bytes_refl cs)

instance abbrev pub bytes_eq : Comparable Bytes
bytes_eq = record { test = same_bytes; decides = same_bytes_iff }

abbrev pub is_digit : ℕ → Bool
is_digit c = leb b'0' c && leb c b'9'

abbrev pub all_digits : Bytes → Bool
all_digits [] = true
all_digits (c ∷ s) = is_digit c && all_digits s

-- The value of a text of digits behind a text of value `n`.
abbrev pub value : ℕ → Bytes → ℕ
value n [] = n
value n (c ∷ s) = value (n * 10 + (c - b'0')) s

-- `strconv.ParseUint(s, 10, w)`, `none` for its error.
unfoldable pub parse_uint : ℕ → Bytes → Option ℕ
parse_uint w [] = none
parse_uint w (c ∷ s) =
    if all_digits (c ∷ s) && ltb (value 0 (c ∷ s)) (2 ^ w) then some (value 0 (c ∷ s)) else none

-- The digits of `n`, the fuel bounding their number.
unfoldable pub digits : ℕ → ℕ → Bytes
digits zero n = []
digits (suc f) n =
    let more = digits f (n / 10) ++ (b'0' + n % 10) ∷ [] in
    if ltb n 10 then (b'0' + n) ∷ [] else more

-- `%d` of an unsigned number: it has fewer than `n + 1` digits.
unfoldable pub format : ℕ → Bytes
unfolding digits
format n = digits (suc n) n

unfoldable pub zeros : ℕ → Bytes → Bytes
zeros zero s = s
zeros (suc n) s = b'0' ∷ zeros n s

-- `%0wd`
unfoldable pub format_padded : ℕ → ℕ → Bytes
unfolding format zeros
format_padded w n = zeros (w - length (format n)) (format n)

value-append : (xs ys : Bytes) (n : ℕ) → value n (xs ++ ys) ≡ value (value n xs) ys
value-append [] ys n = refl
value-append (x ∷ xs) ys n = value-append xs ys (n * 10 + (x - b'0'))

abbrev pub IsDigit : ℕ → Type 0
IsDigit c = (b'0' ≤ c) × (c ≤ b'9')

digits-IsDigit : (f n : ℕ) → All IsDigit (digits f n)
unfolding digits
digits-IsDigit zero n = tt
digits-IsDigit (suc f) n = elim (Bool-cases (ltb n 10)) [
  | inl one ↦ rw one (ground arith)
  | inr more ↦
      rw more (All-append IsDigit (digits f (n / 10)) _ (digits-IsDigit f (n / 10)) (omega arith))
]

value-digits : (f n : ℕ) → n < f → value 0 (digits f n) ≡ n
unfolding digits
value-digits zero n h = absurd (omega arith)
value-digits (suc f) n h = elim (Bool-cases (ltb n 10)) [
  | inl one ↦ rw one (omega arith)
  | inr more ↦
      rw (more, value-append (digits f (n / 10)) ((b'0' + n % 10) ∷ []) 0)
        (ground (arith, value-digits f (n / 10)))
]

digits-ne-nil : (f n : ℕ) → digits (suc f) n ≢ []
unfolding digits
digits-ne-nil f n = elim (Bool-cases (ltb n 10)) [
  | inl one ↦ rw one (λ e. cc)
  | inr more ↦ rw more (concat-ne-nil _ (digits f (n / 10)))
]

pub format-IsDigit : (n : ℕ) → All IsDigit (format n)
unfolding format
format-IsDigit n = digits-IsDigit (suc n) n

all_digits_of_All : (s : Bytes) → All IsDigit s → all_digits s ≡ true
all_digits_of_All [] h = refl
all_digits_of_All (c ∷ s) h = ground (arith, all_digits_of_All s)

pub format-ne-nil : (n : ℕ) → format n ≢ []
unfolding format
format-ne-nil n = digits-ne-nil n n

pub value-format : (n : ℕ) → value 0 (format n) ≡ n
unfolding format
value-format n = value-digits (suc n) n (omega arith)

parse_uint_lem :
    (w : ℕ) (s : Bytes)
    → s ≢ []
    → All IsDigit s
    → value 0 s < 2 ^ w
    → parse_uint w s ≡ some (value 0 s)
unfolding parse_uint
parse_uint_lem w [] ne h lt = absurd (ne refl)
parse_uint_lem w (c ∷ s) ne h lt = ground (arith, all_digits_of_All (c ∷ s))

-- Parsing the decimal form of a number that fits the width gives the number back.
pub parse_uint-format : (w n : ℕ) → n < 2 ^ w → parse_uint w (format n) ≡ some n
unfolding format
parse_uint-format w n h =
    let v : value 0 (digits (suc n) n) ≡ n = value-digits (suc n) n (omega arith) in
    parse_uint_lem w (digits (suc n) n) (digits-ne-nil n n) (digits-IsDigit (suc n) n) (rw v h)
    ∙ ap some v
