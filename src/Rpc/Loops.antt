-- ===== src/Rpc/Loops.antt =====
-- The loops that common/chain/tron/client.go and common/chain/solana/client.go repeat: one query
-- after the other, the answers put into a map.
use walletus.Base.{
  String, none, some, List, [], ◌∷◌, ◌++◌, true, ◌≡◌, refl, All, ◌==◌, string_eq, Bool-cases, inl,
  inr, ◌∙◌, arith,
}
use mathlib.Core.Path.{subst}
use walletus.Chain.{Dict, lookup, insert}
use walletus.Rpc.Chunks.{concat}

module _ {V W : Type 0} where
  -- A value asked for each key.
  unfoldable pub fill : (String → W → V × W) → List String → Dict V → W → Dict V × W
  fill ask [] out w = (out, w)
  fill ask (key ∷ keys) out w =
      let answer = ask key w in fill ask keys (insert key answer.0 out) answer.1

  -- Batch after batch.
  unfoldable pub fill_batches :
      (List String → Dict V → W → Dict V × W) → List (List String) → Dict V → W → Dict V × W
  fill_batches one [] out w = (out, w)
  fill_batches one (batch ∷ batches) out w =
      let done = one batch out w in fill_batches one batches done.0 done.1

  -- The answers in order.
  unfoldable pub collect : (String → W → V × W) → List String → W → List V × W
  collect ask [] w = ([], w)
  collect ask (key ∷ keys) w =
      let answer = ask key w in let rest = collect ask keys answer.1 in (answer.0 ∷ rest.0, rest.1)

  -- A list of answers for each entry of a map, in the order that the range statement has.
  unfoldable pub collect_each :
      (String → String → W → V × W) → Dict (List String) → Dict (List V) → W → Dict (List V) × W
  collect_each ask [] out w = (out, w)
  collect_each ask ((key, xs) ∷ rest) out w =
      let answers = collect (ask key) xs w in
      collect_each ask rest (insert key answers.0 out) answers.1

module _ {V : Type 0} where
  -- The key has a value in the map, and one that is right for it.
  abbrev pub Filled : (String → V → Type 0) → Dict V → String → Type 0
  Filled P out key = (v : V) × (lookup key out ≡ some v) × P key v

  module _ (P : String → V → Type 0) where
    pub Filled-insert :
        (key k : String) (v : V) (out : Dict V)
        → P k v
        → Filled P out key
        → Filled P (insert k v out) key
    Filled-insert key k v out right filled = elim (Bool-cases (k == key)) [
      | inl same ↦ (v, rw same refl, subst (λ x. P x v) ((string_eq.decides k key).0 same) right)
      | inr other ↦ (filled.0, rw other filled.1, filled.2)
    ]

    pub Filled-insert_self :
        (key : String) (v : V) (out : Dict V) → P key v → Filled P (insert key v out) key
    Filled-insert_self key v out right =
        let same : (key == key) ≡ true = (string_eq.decides key key).1 refl in
        (v, rw same refl, right)

module _ {V W : Type 0} (P : String → V → Type 0) where
  -- One batch keeps what the map has and fills the batch's keys.
  pub record IsFilling (one : List String → Dict V → W → Dict V × W) : Type 0 where
    pub keeps :
        (batch : List String) (out : Dict V) (w : W) (key : String)
        → Filled P out key
        → Filled P (one batch out w).0 key
    pub fills :
        (batch : List String) (out : Dict V) (w : W) → All (Filled P (one batch out w).0) batch

  module _ (ask : String → W → V × W) (right : (key : String) (w : W) → P key (ask key w).0) where
    fill-keeps :
        (keys : List String) (out : Dict V) (w : W) (key : String)
        → Filled P out key
        → Filled P (fill ask keys out w).0 key
    unfolding fill
    fill-keeps [] out w key filled = filled
    fill-keeps (k ∷ keys) out w key filled =
        fill-keeps keys (insert k (ask k w).0 out) (ask k w).1 key
          (Filled-insert P key k (ask k w).0 out (right k w) filled)

    fill-fills :
        (keys : List String) (out : Dict V) (w : W) → All (Filled P (fill ask keys out w).0) keys
    unfolding fill
    fill-fills [] out w = tt
    fill-fills (k ∷ keys) out w = (
      fill-keeps keys (insert k (ask k w).0 out) (ask k w).1 k
          (Filled-insert_self P k (ask k w).0 out (right k w)),
      fill-fills keys (insert k (ask k w).0 out) (ask k w).1,
    )

    pub fill-IsFilling : IsFilling (fill ask)
    fill-IsFilling = record { keeps = fill-keeps; fills = fill-fills }

  module _ (one : List String → Dict V → W → Dict V × W) (filling : IsFilling one) where
    fill_batches-keeps :
        (batches : List (List String)) (out : Dict V) (w : W) (key : String)
        → Filled P out key
        → Filled P (fill_batches one batches out w).0 key
    unfolding fill_batches
    fill_batches-keeps [] out w key filled = filled
    fill_batches-keeps (batch ∷ batches) out w key filled =
        fill_batches-keeps batches (one batch out w).0 (one batch out w).1 key
          (filling.keeps batch out w key filled)

    All-keeps :
        (batches : List (List String)) (out : Dict V) (w : W) (keys rest : List String)
        → All (Filled P out) keys
        → All (Filled P (fill_batches one batches out w).0) rest
        → All (Filled P (fill_batches one batches out w).0) (keys ++ rest)
    All-keeps batches out w [] rest all more = more
    All-keeps batches out w (k ∷ keys) rest all more =
        (fill_batches-keeps batches out w k all.0, All-keeps batches out w keys rest all.1 more)

    pub fill_batches-fills :
        (batches : List (List String)) (out : Dict V) (w : W)
        → All (Filled P (fill_batches one batches out w).0) (concat batches)
    unfolding fill_batches
    fill_batches-fills [] out w = tt
    fill_batches-fills (batch ∷ batches) out w =
        let done = one batch out w in
        All-keeps batches done.0 done.1 batch (concat batches) (filling.fills batch out w)
          (fill_batches-fills batches done.0 done.1)

-- A Go map has a key once.
abbrev pub IsMap : {A : Type 0} → Dict A → Type 0
IsMap [] = Unit
IsMap ((k, v) ∷ d) = (lookup k d ≡ none) × IsMap d

-- One value for each element, in order, each right for its element.
abbrev pub Collected : {V : Type 0} → (String → V → Type 0) → List String → List V → Type 0
Collected P [] [] = Unit
Collected P (x ∷ xs) (v ∷ vs) = P x v × Collected P xs vs
Collected P xs vs = ⊥

module _ {V W : Type 0} (P : String → String → V → Type 0) (ask : String → String → W → V × W)
    (right : (key x : String) (w : W) → P key x (ask key x w).0) where
  collect-Collected :
      (key : String) (xs : List String) (w : W) → Collected (P key) xs (collect (ask key) xs w).0
  unfolding collect
  collect-Collected key [] w = tt
  collect-Collected key (x ∷ xs) w = (right key x w, collect-Collected key xs (ask key x w).1)

  collect_each-other :
      (m : Dict (List String)) (out : Dict (List V)) (w : W) (key : String)
      → lookup key m ≡ none
      → lookup key (collect_each ask m out w).0 ≡ lookup key out
  unfolding collect_each
  collect_each-other [] out w key missing = refl
  collect_each-other ((k, xs) ∷ m) out w key missing = elim (Bool-cases (k == key)) [
    | inl same ↦ absurd (ground (arith, same, missing))
    | inr other ↦
        let answers = collect (ask k) xs w in
        collect_each-other m (insert k answers.0 out) answers.1 key (ground (arith, other, missing))
        ∙ rw other refl
  ]

  -- Each entry of a map has its list of answers.
  pub collect_each-All :
      (m : Dict (List String)) (out : Dict (List V)) (w : W)
      → IsMap m
      → All
          (λ entry.
            (vs : List V) × (lookup entry.0 (collect_each ask m out w).0 ≡ some vs)
            × Collected (P entry.0) entry.1 vs)
          m
  unfolding collect_each
  collect_each-All [] out w once = tt
  collect_each-All ((k, xs) ∷ m) out w once =
      let answers = collect (ask k) xs w in
      (
        (
          answers.0,
          collect_each-other m (insert k answers.0 out) answers.1 k once.0
              ∙ rw ((string_eq.decides k k).1 refl) refl,
          collect-Collected k xs w,
        ),
        collect_each-All m (insert k answers.0 out) answers.1 once.1,
      )
