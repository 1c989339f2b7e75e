-- ===== src/Base/Split.antt =====
-- `strings.Split` at one byte, and prefixes, on texts as lists of bytes.
use Prim.Native.Nat.{ℕ}
use mathlib.Core.Bool.{Bool, true, false, ◌&&◌}
use mathlib.Core.List.{List, [], ◌∷◌, ◌++◌}
use mathlib.Core.Path.{◌≡◌, refl}
use native.Mathlib.Omega.{arith}
use walletus.Base.Decimal.{Bytes, IsDigit, is_digit, format, format-IsDigit}
use walletus.Base.Lists.{All}
use walletus.Base.Tests.{◌==◌, nat_eq, if◌then◌else◌}

abbrev onto_first : ℕ → List Bytes → List Bytes
onto_first c [] = (c ∷ []) ∷ []
onto_first c (s ∷ ss) = (c ∷ s) ∷ ss

-- The pieces between the separators, of which there is at least one.
unfoldable pub split : ℕ → Bytes → List Bytes
split sep [] = [] ∷ []
split sep (c ∷ s) = let rest = split sep s in if c == sep then [] ∷ rest else onto_first c rest

-- `strings.HasPrefix(s, prefix)`
unfoldable pub has_prefix : Bytes → Bytes → Bool
has_prefix s [] = true
has_prefix [] (p ∷ ps) = false
has_prefix (c ∷ s) (p ∷ ps) = c == p && has_prefix s ps

-- `strings.TrimPrefix(s, prefix)`
unfoldable pub drop_prefix : Bytes → Bytes → Bytes
drop_prefix s [] = s
drop_prefix [] (p ∷ ps) = []
drop_prefix (c ∷ s) (p ∷ ps) = drop_prefix s ps

unfoldable pub trim_prefix : Bytes → Bytes → Bytes
unfolding has_prefix drop_prefix
trim_prefix s p = if has_prefix s p then drop_prefix s p else s

pub drop_prefix-append : (p s : Bytes) → drop_prefix (p ++ s) p ≡ s
unfolding drop_prefix
drop_prefix-append [] s = refl
drop_prefix-append (c ∷ p) s = drop_prefix-append p s

pub has_prefix-append : (p s : Bytes) → has_prefix (p ++ s) p ≡ true
unfolding has_prefix
has_prefix-append [] s = refl
has_prefix-append (c ∷ p) s = rw ((nat_eq.decides c c).1 refl) (has_prefix-append p s)

pub trim_prefix-append : (p s : Bytes) → trim_prefix (p ++ s) p ≡ s
unfolding trim_prefix
trim_prefix-append p s = rw (has_prefix-append p s) (drop_prefix-append p s)

module _ (sep : ℕ) where
  abbrev pub IsNo : ℕ → Type 0
  IsNo c = (c == sep) ≡ false

  -- A text without the separator is one piece, at the end and before a separator.
  pub split-last : (s : Bytes) → All IsNo s → split sep s ≡ s ∷ []
  unfolding split
  split-last [] h = refl
  split-last (c ∷ s) h = rw (h.0, split-last s h.1) refl

  pub split-piece : (s rest : Bytes) → All IsNo s → split sep (s ++ sep ∷ rest) ≡ s ∷ split sep rest
  unfolding split
  split-piece [] rest h = rw ((nat_eq.decides sep sep).1 refl) refl
  split-piece (c ∷ s) rest h = rw (h.0, split-piece s rest h.1) refl

  pub digits-IsNo : is_digit sep ≡ false → (s : Bytes) → All IsDigit s → All IsNo s
  digits-IsNo out [] h = tt
  digits-IsNo out (c ∷ s) h = (ground (arith, h.0, out), digits-IsNo out s h.1)

  -- A number has no separator that is no digit.
  pub format-IsNo : is_digit sep ≡ false → (n : ℕ) → All IsNo (format n)
  format-IsNo out n = digits-IsNo out (format n) (format-IsDigit n)
