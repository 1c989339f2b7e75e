-- ===== src/Rpc/Chunks.antt =====
-- The batches of common/chain/evm/abi.go, common/chain/tron/client.go and
-- common/chain/solana/client.go, which repeat the same loop.
use walletus.Base.{
  ℕ, zero, suc, List, [], ◌∷◌, ◌++◌, if◌then◌else◌, ltb, length, take, drop, ◌+◌, ◌-◌, ◌≡◌, refl,
  sym, ap, ◌∙◌, ◌≤◌, ◌<◌, arith, All, Bool-cases, inl, inr, take-append-drop, length-take,
  length-drop, min, append-nil, if-rule,
}
use walletus.Base.Int.{ℤ, pos, negsuc}

module _ {A : Type 0} where
  -- `ss[i:j]`
  abbrev pub slice : ℕ → ℕ → List A → List A
  slice i j ss = take (j - i) (drop i ss)

  -- The loop from `i`, with steps of `n`, on fuel.
  unfoldable pub chunk_from : ℕ → ℕ → ℕ → List A → List (List A)
  chunk_from zero n i ss = []
  chunk_from (suc fuel) n i ss =
      let rest = chunk_from fuel n (i + n) ss in
      if ltb i (length ss) then slice i (min (i + n) (length ss)) ss ∷ rest else []

  unfoldable pub chunk : ℤ → List A → List (List A)
  chunk (negsuc n) ss = ss ∷ []
  chunk (pos zero) ss = ss ∷ []
  chunk (pos (suc n)) ss =
      if ltb (suc n) (length ss) then chunk_from (suc (length ss)) (suc n) 0 ss else ss ∷ []

  abbrev pub concat : List (List A) → List A
  concat [] = []
  concat (xs ∷ xss) = xs ++ concat xss

  drop_all : (n : ℕ) (xs : List A) → length xs ≤ n → drop n xs ≡ []
  drop_all zero [] h = refl
  drop_all (suc n) [] h = refl
  drop_all zero (x ∷ xs) h = absurd (omega arith)
  drop_all (suc n) (x ∷ xs) h = drop_all n xs (omega arith)

  drop_add : (m n : ℕ) (xs : List A) → drop m (drop n xs) ≡ drop (n + m) xs
  drop_add m zero xs = let e : m ≡ 0 + m = omega arith in ap (λ k. drop k xs) e
  drop_add zero (suc n) [] =
      let e : suc n ≡ suc n + 0 = omega arith in ap (λ k. drop {A = A} k []) e
  drop_add (suc m) (suc n) [] = sym (drop_all (suc n + suc m) [] (omega arith))
  drop_add m (suc n) (x ∷ xs) =
      let e : suc (n + m) ≡ suc n + m = omega arith in drop_add m n xs ∙ ap (λ k. drop k (x ∷ xs)) e

  take_all : (n : ℕ) (xs : List A) → length xs ≤ n → take n xs ≡ xs
  take_all zero [] h = refl
  take_all (suc n) [] h = refl
  take_all zero (x ∷ xs) h = absurd (omega arith)
  take_all (suc n) (x ∷ xs) h = ap (λ l. x ∷ l) (take_all n xs (omega arith))

  -- A slice that is cut at the end of the list is one of `n` elements, as far as there are any.
  slice_lem : (i n : ℕ) (ss : List A) → slice i (min (i + n) (length ss)) ss ≡ take n (drop i ss)
  slice_lem i n ss = elim (Bool-cases (ltb (i + n) (length ss))) [
    | inl more ↦ ap (λ m. take m (drop i ss)) (ground (arith, more))
    | inr last ↦
        take_all (min (i + n) (length ss) - i) (drop i ss) (ground (arith, last, length-drop i ss))
        ∙ sym (take_all n (drop i ss) (ground (arith, last, length-drop i ss)))
  ]

  concat-chunk_from :
      (fuel n i : ℕ) (ss : List A)
      → 0 < n
      → length ss < fuel + i
      → concat (chunk_from fuel n i ss) ≡ drop i ss
  unfolding chunk_from
  concat-chunk_from zero n i ss h enough = sym (drop_all i ss (omega arith))
  concat-chunk_from (suc fuel) n i ss h enough = elim (Bool-cases (ltb i (length ss))) [
    | inl more ↦
        rw (more, slice_lem i n ss, concat-chunk_from fuel n (i + n) ss h (omega arith))
          (ap (λ l. take n (drop i ss) ++ l) (sym (drop_add n i ss))
            ∙ take-append-drop n (drop i ss))
    | inr done ↦ rw done (sym (drop_all i ss (ground (arith, done))))
  ]

  -- The batches, one after the other, are the list.
  pub concat-chunk : (n : ℤ) (ss : List A) → concat (chunk n ss) ≡ ss
  unfolding chunk
  concat-chunk (negsuc n) ss = append-nil ss
  concat-chunk (pos zero) ss = append-nil ss
  concat-chunk (pos (suc n)) ss =
      if-rule (λ l. concat l ≡ ss) (ltb (suc n) (length ss))
        (λ more. concat-chunk_from (suc (length ss)) (suc n) 0 ss (omega arith) (omega arith))
        (λ one. append-nil ss)

  -- A batch has elements, and at most `n`.
  abbrev pub IsBatch : ℕ → List A → Type 0
  IsBatch n batch = (0 < length batch) × (length batch ≤ n)

  chunk_from-IsBatch :
      (fuel n i : ℕ) (ss : List A) → 0 < n → All (IsBatch n) (chunk_from fuel n i ss)
  unfolding chunk_from
  chunk_from-IsBatch zero n i ss h = tt
  chunk_from-IsBatch (suc fuel) n i ss h =
      if-rule (All (IsBatch n)) (ltb i (length ss))
        (λ more. (
          (
            rw (slice_lem i n ss)
                (ground (arith, more, length-take n (drop i ss), length-drop i ss)),
            rw (slice_lem i n ss) (omega (arith, length-take n (drop i ss))),
          ),
          chunk_from-IsBatch fuel n (i + n) ss h,
        ))
        (λ done. tt)

  -- With a positive size, the batches of a list that is not empty, one after the other, are the
  -- list, and each has an element and at most as many as the size.
  pub chunk-IsBatch :
      (n : ℕ) (ss : List A)
      → 0 < length ss
      → (concat (chunk (pos (suc n)) ss) ≡ ss) × All (IsBatch (suc n)) (chunk (pos (suc n)) ss)
  unfolding chunk
  chunk-IsBatch n ss some_left = (
    concat-chunk (pos (suc n)) ss,
    if-rule (All (IsBatch (suc n))) (ltb (suc n) (length ss))
        (λ more. chunk_from-IsBatch (suc (length ss)) (suc n) 0 ss (omega arith))
        (λ one. ((some_left, ground (arith, one)), tt)),
  )
