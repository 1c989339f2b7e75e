-- ===== src/Rpc/Tron/Words.antt =====
-- The number that a constant result shows, which `getTRC20Balance` of common/chain/tron/client.go
-- reads.
use walletus.Base.{
  String, Option, none, some, ◌++◌, true, leb, length, take, drop, ◌≡◌, refl, ap, sym, ◌∙◌, arith,
  inl, inr, ◌-◌, take-append-drop, length-append, Bool-cases, nat_eq, length-drop,
}
use walletus.Base.Decimal.{Bytes, codes}
use walletus.Base.Int.{ℤ, pos}
use walletus.Base.Numerals.{hex_decode, set_bytes}
use walletus.Chain.Json.{Json, null, bool, num, str, arr, obj, Items, nil, cons}
use walletus.Rpc.Tron.{word, constant_result}

-- A first constant result with at least 32 bytes, the last of which are `last`.
pub record HasWord (result : Json) (last : Bytes) : Type 0 where
  pub hex : String
  pub rest : Items
  pub front : Bytes
  pub shape : result ≡ arr (cons (str hex) rest)
  pub decoded : hex_decode (codes hex) ≡ some (front ++ last)
  pub size : length last ≡ 32

-- The amount of a constant result: the number of its last 32 bytes, or 0 without them.
pub data Shows (result : Json) (amount : ℤ) : Type 0 where
  number :
      (last : Bytes) → HasWord result last → amount ≡ pos (set_bytes 0 last) → Shows result amount
  no_number : ¬ ((last : Bytes) × HasWord result last) → amount ≡ pos 0 → Shows result amount

other_shape :
    (v : Json)
    → ((hex : String) (rest : Items) → v ≡ arr (cons (str hex) rest) → ⊥)
    → Shows v (pos 0)
other_shape v differs = no_number (λ (last, has). differs has.hex has.rest has.shape) refl

-- What has been decoded is the text of the shape.
same_bytes_of :
    (hex : String) (rest : Items) (o : Option Bytes) (last : Bytes)
    → hex_decode (codes hex) ≡ o
    → (has : HasWord (arr (cons (str hex) rest)) last) → o ≡ some (has.front ++ last)
same_bytes_of hex rest o last h has =
    let same : hex ≡ has.hex = ground (arith, has.shape) in
    sym h ∙ ap (λ s. hex_decode (codes s)) same ∙ has.decoded

long_enough : (front last : Bytes) → length last ≡ 32 → leb 32 (length (front ++ last)) ≡ true
long_enough front last size = ground (arith, size, length-append front last)

word-Shows :
    (hex : String) (rest : Items) (o : Option Bytes)
    → hex_decode (codes hex) ≡ o
    → Shows (arr (cons (str hex) rest)) (word o)
unfolding word
word-Shows hex rest none h =
    no_number
      (λ (last, has). let e = same_bytes_of hex rest none last h has in absurd (ground (arith, e)))
      refl
word-Shows hex rest (some bytes) h = elim (Bool-cases (leb 32 (length bytes))) [
  | inl long ↦
      let last = drop (length bytes - 32) bytes in
      rw long (
        number last
          (record {
            hex = hex;
            rest = rest;
            front = take (length bytes - 32) bytes;
            shape = refl;
            decoded = h ∙ ap some (sym (take-append-drop (length bytes - 32) bytes));
            size = ground (arith, long, length-drop (length bytes - 32) bytes);
          })
          refl)
  | inr short ↦ rw short (
      no_number
        (λ (last, has).
          let e = same_bytes_of hex rest (some bytes) last h has in
          let same : bytes ≡ has.front ++ last = ground (arith, e) in
          let long = ap (λ s. leb 32 (length s)) same ∙ long_enough has.front last has.size in
          absurd (ground (arith, long, short)))
        refl)
]

pub constant_result-Shows : (v : Json) → Shows v (constant_result v)
unfolding constant_result
constant_result-Shows null = other_shape null (λ hex rest e. ground (arith, e))
constant_result-Shows (bool b) = other_shape (bool b) (λ hex rest e. ground (arith, e))
constant_result-Shows (num n) = other_shape (num n) (λ hex rest e. ground (arith, e))
constant_result-Shows (str s) = other_shape (str s) (λ hex rest e. ground (arith, e))
constant_result-Shows (obj m) = other_shape (obj m) (λ hex rest e. ground (arith, e))
constant_result-Shows (arr nil) = other_shape (arr nil) (λ hex rest e. ground (arith, e))
constant_result-Shows (arr (cons null xs)) = other_shape _ (λ hex rest e. ground (arith, e))
constant_result-Shows (arr (cons (bool b) xs)) = other_shape _ (λ hex rest e. ground (arith, e))
constant_result-Shows (arr (cons (num n) xs)) = other_shape _ (λ hex rest e. ground (arith, e))
constant_result-Shows (arr (cons (arr ys) xs)) = other_shape _ (λ hex rest e. ground (arith, e))
constant_result-Shows (arr (cons (obj m) xs)) = other_shape _ (λ hex rest e. ground (arith, e))
constant_result-Shows (arr (cons (str hex) xs)) = word-Shows hex xs (hex_decode (codes hex)) refl
