-- ===== src/Queue/Drained.antt =====
-- common/system/queue_enhance.go: a wake of the consumer empties the queue and frees its items.
use walletus.Base.{
  All-map, ℕ, zero, suc, Result, ok, err, List, [], ◌∷◌, ◌++◌, true, false, ltb, length, take, drop,
  reject, Comparable, ◌==◌, ◌≡◌, refl, sym, ap, ◌∙◌, ◌≤◌, ◌<◌, arith, Bool-cases, inl, inr,
  take-append-drop, String, if-rule, length-drop, append-nil, All, All-append, length-append,
}
use mathlib.Core.Path.{subst}
use walletus.Base.Int.{pos}
use walletus.Queue.Locked.{
  RichQueue, is_locked, enqueue, put, unlock, unlock_all, batch_dequeue, take_batch, items_of,
  after_batch, consume,
}
use walletus.Queue.Counted.{held-reject, held-reject_self, held}

module _ {T : Type 0} ⦃c : Comparable T⦄ where
  unlock_all-slots : (items : List T) (q : RichQueue T) → (unlock_all items q).slots ≡ q.slots
  unfolding unlock_all unlock
  unlock_all-slots [] q = refl
  unlock_all-slots (x ∷ xs) q = unlock_all-slots xs (unlock x q)

  held-unlock_le : (x y : T) (q : RichQueue T) → held x (unlock y q).locks ≤ held x q.locks
  unfolding unlock
  held-unlock_le x y q = elim (Bool-cases (y == x)) [
    | inl same ↦ omega (
      arith,
      held-reject_self x q.locks,
      ap (λ z. held x (reject (λ l. l == z) q.locks)) ((c.decides y x).0 same),
    )
    | inr other ↦ omega (arith, held-reject x y q.locks other)
  ]

  held-unlock_self : (x : T) (q : RichQueue T) → held x (unlock x q).locks ≡ 0
  unfolding unlock
  held-unlock_self x q = held-reject_self x q.locks

  held-unlock_all_le :
      (x : T) (items : List T) (q : RichQueue T)
      → held x (unlock_all items q).locks ≤ held x q.locks
  unfolding unlock_all
  held-unlock_all_le x [] q = omega arith
  held-unlock_all_le x (y ∷ ys) q =
      omega (arith, held-unlock_all_le x ys (unlock y q), held-unlock_le x y q)

  unlock_all-free :
      (items : List T) (q : RichQueue T) → All (λ x. held x (unlock_all items q).locks ≡ 0) items
  unfolding unlock_all
  unlock_all-free [] q = tt
  unlock_all-free (x ∷ xs) q = (
    omega (arith, held-unlock_all_le x xs (unlock x q), held-unlock_self x q),
    unlock_all-free xs (unlock x q),
  )

  -- A batch of a positive size from a queue that is not empty.
  take_batch_lem :
      (n : ℕ) (x : T) (xs : List T) (q : RichQueue T)
      → (items : List T) × (rest : RichQueue T) × (take_batch (suc n) (x ∷ xs) q ≡ (ok items, rest))
        × ((items ++ rest.slots) ≡ (x ∷ xs))
        × (length rest.slots < length (x ∷ xs))
  unfolding take_batch
  take_batch_lem n x xs q = elim (Bool-cases (ltb (suc n) (length (x ∷ xs)))) [
    | inl more ↦ (
      take (suc n) (x ∷ xs),
      record q { slots = drop (suc n) (x ∷ xs) },
      rw more refl,
      take-append-drop (suc n) (x ∷ xs),
      omega (arith, length-drop (suc n) (x ∷ xs)),
    )
    | inr all ↦ (x ∷ xs, record q { slots = [] }, rw all refl, append-nil (x ∷ xs), omega arith)
  ]

  -- What a wake leaves: nothing in the queue, and the items `xs` handed out in order and free again.
  abbrev pub Drained : List T → List T × RichQueue T → Type 0
  Drained xs r = (r.0 ≡ xs) × (r.1.slots ≡ []) × All (λ x. held x r.1.locks ≡ 0) xs

  after_batch_le :
      (x : T) (b : Result String (List T)) (q : RichQueue T) (later : List T × RichQueue T)
      → held x later.1.locks ≤ held x q.locks
      → held x (after_batch b q later).1.locks ≤ held x q.locks
  unfolding after_batch
  after_batch_le x (ok items) q later h = h
  after_batch_le x (err text) q later h = omega arith

  take_batch-locks : (n : ℕ) (xs : List T) (q : RichQueue T) → (take_batch n xs q).1.locks ≡ q.locks
  unfolding take_batch
  take_batch-locks n [] q = refl
  take_batch-locks n (x ∷ xs) q =
      if-rule {A = Result String (List T) × RichQueue T} (λ r. r.1.locks ≡ q.locks)
        (ltb n (length (x ∷ xs))) (λ more. refl) (λ all. refl)

  consume_le :
      (x : T) (fuel n : ℕ) (q : RichQueue T)
      → held x (consume fuel (pos (suc n)) q).1.locks ≤ held x q.locks
  unfolding consume batch_dequeue
  consume_le x zero n q = omega arith
  consume_le x (suc fuel) n q =
      let b = take_batch (suc n) q.slots q in
      let freed = unlock_all (items_of b.0) b.1 in
      let same = ap (λ l. held x l) (take_batch-locks (suc n) q.slots q) in
      omega (
        arith,
        same,
        after_batch_le x b.0 b.1 (consume fuel (pos (suc n)) freed)
            (omega (arith, consume_le x fuel n freed, held-unlock_all_le x (items_of b.0) b.1)),
      )

  -- The batch that starts a wake, and the rounds after it.
  consume_more :
      (fuel n : ℕ) (q : RichQueue T) (items : List T) (rest : RichQueue T)
      → batch_dequeue (pos (suc n)) q ≡ (ok items, rest)
      → consume (suc fuel) (pos (suc n)) q ≡ (
          let later = consume fuel (pos (suc n)) (unlock_all items rest) in
          (items ++ later.0, later.1))
  unfolding consume after_batch items_of
  consume_more fuel n q items rest e =
      ap {B = List T × RichQueue T}
        (λ b. after_batch b.0 b.1 (consume fuel (pos (suc n)) (unlock_all (items_of b.0) b.1))) e

  joined :
      (fuel n : ℕ) (xs items : List T) (rest : RichQueue T)
      → (items ++ rest.slots) ≡ xs
      → Drained rest.slots (consume fuel (pos (suc n)) (unlock_all items rest))
      → (let later = consume fuel (pos (suc n)) (unlock_all items rest) in
          Drained xs (items ++ later.0, later.1))
  joined fuel n xs items rest e d =
      let q = unlock_all items rest in
      let later = consume fuel (pos (suc n)) q in
      let freed =
        All-map (λ x h. omega (arith, h, consume_le x fuel n q)) items
          (unlock_all-free items rest) in
      (
        ap (λ l. items ++ l) d.0 ∙ e,
        d.1,
        subst (λ l. All (λ x. held x later.1.locks ≡ 0) l) e
            (All-append (λ x. held x later.1.locks ≡ 0) items rest.slots freed d.2),
      )

  batch_dequeue_of :
      (n : ℕ) (xs : List T) (q : RichQueue T)
      → q.slots ≡ xs
      → batch_dequeue (pos (suc n)) q ≡ take_batch (suc n) xs q
  unfolding batch_dequeue
  batch_dequeue_of n xs q e = ap (λ s. take_batch (suc n) s q) e

  consume_empty :
      (fuel n : ℕ) (q : RichQueue T) → q.slots ≡ [] → consume (suc fuel) (pos (suc n)) q ≡ ([], q)
  unfolding consume after_batch take_batch items_of
  consume_empty fuel n q e =
      ap {B = List T × RichQueue T}
        (λ b. after_batch b.0 b.1 (consume fuel (pos (suc n)) (unlock_all (items_of b.0) b.1)))
        (batch_dequeue_of n [] q e)

  drain_from :
      (fuel n : ℕ) (xs : List T) (q : RichQueue T)
      → q.slots ≡ xs
      → length xs < fuel
      → Drained xs (consume fuel (pos (suc n)) q)
  drain_from zero n xs q e few = absurd (omega arith)
  drain_from (suc fuel) n [] q e few =
      subst (Drained []) (sym (consume_empty fuel n q e)) (refl, e, tt)
  drain_from (suc fuel) n (x ∷ xs) q e few =
      let (items, rest, taken, all, fewer) = take_batch_lem n x xs q in
      let more = consume_more fuel n q items rest (batch_dequeue_of n (x ∷ xs) q e ∙ taken) in
      let later =
        drain_from fuel n rest.slots (unlock_all items rest) (unlock_all-slots items rest)
          (omega arith) in
      subst (Drained (x ∷ xs)) (sym more) (joined fuel n (x ∷ xs) items rest all later)

  -- A wake of the consumer, with batches of a positive size and handlers that put nothing into the
  -- queue: within one round more than the queue has items it has handed every item to a handler, in
  -- order, and leaves the queue empty and none of these items locked.
  pub consume-Drained :
      (fuel n : ℕ) (q : RichQueue T)
      → length q.slots < fuel
      → Drained q.slots (consume fuel (pos (suc n)) q)
  consume-Drained fuel n q enough = drain_from fuel n q.slots q refl enough

  -- An item put in while its lock is free wakes the consumer, and that wake hands it to a handler
  -- behind the items before it and frees its lock.
  pub enqueue_handled :
      (fuel n : ℕ) (item : T) (q : RichQueue T)
      → is_locked item q.locks ≡ false
      → suc (length q.slots) < fuel
      → ((enqueue item q).notify ≡ true)
        × Drained (q.slots ++ item ∷ []) (consume fuel (pos (suc n)) (enqueue item q))
  unfolding enqueue put
  enqueue_handled fuel n item q free enough = (
    rw free refl,
    drain_from fuel n (q.slots ++ item ∷ []) (enqueue item q) (rw free refl)
        (omega (arith, length-append q.slots (item ∷ []))),
  )
