-- ===== src/Payroll/Month.antt =====
-- `isValidYearMonth`: the text that `time.Parse("200601", s)` reads and `Format` prints again.
use walletus.Base.{String, Bool, false, ◌&&◌, [], ◌∷◌, leb}
use walletus.Base.Decimal.{Bytes, codes, all_digits, value}

-- A year of four digits and a month of two, 01 to 12, with nothing behind them. The layout has
-- no other form, so `Format` prints the text that was read.
unfoldable pub is_year_month : Bytes → Bool
is_year_month (y₁ ∷ y₂ ∷ y₃ ∷ y₄ ∷ m₁ ∷ m₂ ∷ []) =
    all_digits (y₁ ∷ y₂ ∷ y₃ ∷ y₄ ∷ m₁ ∷ m₂ ∷ [])
    && (leb 1 (value 0 (m₁ ∷ m₂ ∷ [])) && leb (value 0 (m₁ ∷ m₂ ∷ [])) 12)
is_year_month _ = false

unfoldable pub is_valid_year_month : String → Bool
unfolding is_year_month
is_valid_year_month s = is_year_month (codes s)
