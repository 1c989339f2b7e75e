-- ===== src/Bip/Path.antt =====
-- `parseBIP44Path` and the paths that common/bip prints: texts as lists of bytes.
use walletus.Base.{
  ℕ, ◌+◌, ◌%◌, ◌^◌, Bool, true, false, List, [], ◌∷◌, ◌++◌, none, some, Result, ok, err, ◌>>=◌,
  ◌==◌, nat_eq, if◌then◌else◌,
}
use walletus.Base.Split.{split}
use walletus.Base.Decimal.{Bytes, codes, parse_uint, format}

-- The texts of the errors: the last one prints the segment.
pub data PathError : Type 0 where
  empty_path must_start_with_m : PathError
  invalid_segment : Bytes → PathError

-- `hdkeychain.HardenedKeyStart`
abbrev pub hardened_start : ℕ
hardened_start = 2147483648

-- `strings.HasSuffix(p, "'")` with `strings.TrimSuffix(p, "'")`
unfoldable pub trim_tick : Bytes → Bytes × Bool
trim_tick [] = ([], false)
trim_tick (c ∷ []) = if c == b'\'' then ([], true) else (c ∷ [], false)
trim_tick (c ∷ d ∷ s) = let (t, hardened) = trim_tick (d ∷ s) in (c ∷ t, hardened)

-- `n += HardenedKeyStart` on a uint32.
abbrev pub index : ℕ → Bool → ℕ
index n true = (n + hardened_start) % 2 ^ 32
index n false = n

unfoldable pub parse_trimmed : Bytes × Bool → Result PathError ℕ
parse_trimmed (digits, hardened) = elim (parse_uint 31 digits) [
  | none ↦ err (invalid_segment digits)
  | some n ↦ ok (index n hardened)
]

-- One round of the loop over the segments.
unfoldable pub parse_segment : Bytes → Result PathError ℕ
unfolding trim_tick parse_trimmed
parse_segment p = parse_trimmed (trim_tick p)

unfoldable pub parse_segments : List Bytes → Result PathError (List ℕ)
unfolding parse_segment
parse_segments [] = ok []
parse_segments (p ∷ ps) = do n ← parse_segment p; ns ← parse_segments ps; ok (n ∷ ns)

abbrev pub tail : {A : Type 0} → List A → List A
tail [] = []
tail (_ ∷ xs) = xs

-- `parseBIP44Path`
unfoldable pub parse_bip44_path : Bytes → Result PathError (List ℕ)
unfolding split parse_segments
parse_bip44_path [] = err empty_path
parse_bip44_path (c ∷ []) = if c == b'm' then ok (0 ∷ []) else err must_start_with_m
parse_bip44_path (c ∷ d ∷ s) =
    let parsed = parse_segments (tail (split b'/' (c ∷ d ∷ s))) in
    if c == b'm' then (do ns ← parsed; ok (0 ∷ ns)) else err must_start_with_m

-- The path of an account, `m/44'/coin'/tenant'/0`.
unfoldable pub chain_path : ℕ → ℕ → Bytes
chain_path coin tenant =
    codes "m/44'/" ++ (format coin ++ (codes "'/" ++ (format tenant ++ codes "'/0")))

-- The path of an address, `m/44'/coin'/tenant'/0/index`.
unfoldable pub address_path : ℕ → ℕ → ℕ → Bytes
address_path coin tenant i =
    codes "m/44'/" ++ (format coin ++ (codes "'/" ++ (format tenant ++ (codes "'/0/" ++ format i))))
