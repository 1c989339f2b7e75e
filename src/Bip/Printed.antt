-- ===== src/Bip/Printed.antt =====
-- The paths that common/bip prints are read back as the indices of the key derivation.
use walletus.Base.{
  ℕ, ◌+◌, ◌^◌, ◌<◌, Bool, true, false, List, [], ◌∷◌, ◌++◌, map, ok, ◌≡◌, refl, ap, ◌∙◌, arith,
  nat_eq, All, All-append, sym, append_assoc, ◌>>=◌, append-nil,
}
use walletus.Base.Decimal.{Bytes, format, IsDigit, format-IsDigit, parse_uint-format}
use walletus.Base.Split.{split, IsNo, split-last, split-piece, format-IsNo}
use walletus.Bip.Path.{
  trim_tick, index, hardened_start, parse_trimmed, parse_segment, parse_segments, parse_bip44_path,
  tail, address_path,
}

abbrev tick : Bool → Bytes
tick true = b'\'' ∷ []
tick false = []

-- The segments of a path, each with a slash before it.
print_segments : List (ℕ × Bool) → Bytes
print_segments [] = []
print_segments ((n, hardened) ∷ xs) = b'/' ∷ (format n ++ (tick hardened ++ print_segments xs))

trim_tick-digits : (s : Bytes) → All IsDigit s → trim_tick s ≡ (s, false)
unfolding trim_tick
trim_tick-digits [] h = refl
trim_tick-digits (c ∷ []) h = ground arith
trim_tick-digits (c ∷ d ∷ s) h = let e = trim_tick-digits (d ∷ s) h.1 in rw e refl

trim_tick-ticked : (s : Bytes) → All IsDigit s → trim_tick (s ++ b'\'' ∷ []) ≡ (s, true)
unfolding trim_tick
trim_tick-ticked [] h = refl
trim_tick-ticked (c ∷ []) h = refl
trim_tick-ticked (c ∷ d ∷ s) h = let e = trim_tick-ticked (d ∷ s) h.1 in rw e refl

trim_tick-segment :
    (n : ℕ) (hardened : Bool) → trim_tick (format n ++ tick hardened) ≡ (format n, hardened)
trim_tick-segment n true = trim_tick-ticked (format n) (format-IsDigit n)
trim_tick-segment n false =
    ap trim_tick (append-nil (format n)) ∙ trim_tick-digits (format n) (format-IsDigit n)

parse_trimmed-format :
    (n : ℕ) (hardened : Bool)
    → n < 2 ^ 31
    → parse_trimmed (format n, hardened) ≡ ok (index n hardened)
unfolding parse_trimmed
parse_trimmed-format n hardened h = rw (parse_trimmed, parse_uint-format 31 n h) refl

parse_segment-print :
    (n : ℕ) (hardened : Bool)
    → n < 2 ^ 31
    → parse_segment (format n ++ tick hardened) ≡ ok (index n hardened)
unfolding parse_segment
parse_segment-print n hardened h =
    ap parse_trimmed (trim_tick-segment n hardened) ∙ parse_trimmed-format n hardened h

abbrev IsNoSlash : ℕ → Type 0
IsNoSlash = IsNo b'/'

segment-IsNoSlash : (n : ℕ) (hardened : Bool) → All IsNoSlash (format n ++ tick hardened)
segment-IsNoSlash n true =
    All-append IsNoSlash (format n) (tick true) (format-IsNo b'/' refl n) (refl, tt)
segment-IsNoSlash n false =
    All-append IsNoSlash (format n) (tick false) (format-IsNo b'/' refl n) tt

abbrev segment : ℕ × Bool → Bytes
segment (n, hardened) = format n ++ tick hardened

-- The pieces of a printed path are its segments.
split-print :
    (s : Bytes) (xs : List (ℕ × Bool))
    → All IsNoSlash s
    → split b'/' (s ++ print_segments xs) ≡ s ∷ map segment xs
unfolding print_segments
split-print s [] h = ap (split b'/') (append-nil s) ∙ split-last b'/' s h
split-print s ((n, hardened) ∷ xs) h =
    split-piece b'/' s _ h
    ∙ ap (λ t. s ∷ t)
        (ap (split b'/') (sym (append_assoc (format n) (tick hardened) (print_segments xs)))
          ∙ split-print (format n ++ tick hardened) xs (segment-IsNoSlash n hardened))

abbrev IsShort : ℕ × Bool → Type 0
IsShort (n, _) = n < 2 ^ 31

parse_segments-print :
    (xs : List (ℕ × Bool))
    → All IsShort xs
    → parse_segments (map segment xs) ≡ ok (map (λ x. index x.0 x.1) xs)
unfolding parse_segments
parse_segments-print [] h = refl
parse_segments-print ((n, hardened) ∷ xs) h =
    rw (parse_segment-print n hardened h.0, parse_segments-print xs h.1) refl

-- A printed path is not empty behind its "m".
parse_bip44_path-print :
    (x : ℕ × Bool) (xs : List (ℕ × Bool))
    → All IsShort (x ∷ xs)
    → parse_bip44_path (b'm' ∷ print_segments (x ∷ xs)) ≡ ok (0 ∷ map (λ x. index x.0 x.1) (x ∷ xs))
unfolding parse_bip44_path print_segments
parse_bip44_path-print (n, hardened) xs h =
    ap (λ ps. parse_segments (tail ps) >>= λ ns. ok (0 ∷ ns))
      (split-print (b'm' ∷ []) ((n, hardened) ∷ xs) (refl, tt))
    ∙ ap (λ r. r >>= λ ns. ok (0 ∷ ns)) (parse_segments-print ((n, hardened) ∷ xs) h)

printed_address :
    (coin tenant i : ℕ)
    → parse_bip44_path (address_path coin tenant i)
      ≡ parse_bip44_path (
          b'm'
          ∷ print_segments
              ((44, true) ∷ (coin, true) ∷ (tenant, true) ∷ (0, false) ∷ (i, false) ∷ []))
unfolding address_path print_segments format
printed_address coin tenant i =
    ap
      (λ t. parse_bip44_path (
        b'm'
        ∷ b'/'
        ∷ b'4'
        ∷ b'4'
        ∷ b'\''
        ∷ b'/'
        ∷ (format coin ++ (b'\'' ∷ b'/' ∷ (format tenant ++ (b'\'' ∷ b'/' ∷ b'0' ∷ b'/' ∷ t))))))
      (sym (append-nil (format i)))

indices :
    (coin tenant i : ℕ)
    → coin < 2 ^ 31
    → tenant < 2 ^ 31
    → ◌≡◌ {A = List ℕ}
        (index 44 true ∷ index coin true ∷ index tenant true ∷ index 0 false ∷ index i false ∷ [])
        ((44 + hardened_start) ∷ (coin + hardened_start) ∷ (tenant + hardened_start) ∷ 0 ∷ i ∷ [])
indices coin tenant i h h' = ground arith

-- The path stored for an address of an EVM chain or of TRON is read back as the five indices of its key below the master,
-- the first three of them hardened, if the coin type, the tenant and the index are below 2^31.
pub parse_bip44_path-address_path :
    (coin tenant i : ℕ)
    → coin < 2 ^ 31
    → tenant < 2 ^ 31
    → i < 2 ^ 31
    → parse_bip44_path (address_path coin tenant i)
      ≡ ok (
          0
          ∷ (44 + hardened_start)
          ∷ (coin + hardened_start)
          ∷ (tenant + hardened_start)
          ∷ 0
          ∷ i
          ∷ [])
parse_bip44_path-address_path coin tenant i h h' h'' =
    printed_address coin tenant i
    ∙ parse_bip44_path-print (44, true)
        ((coin, true) ∷ (tenant, true) ∷ (0, false) ∷ (i, false) ∷ [])
        (omega arith, (h, (h', (omega arith, (h'', tt)))))
    ∙ ap (λ xs. ok (0 ∷ xs)) (indices coin tenant i h h')
