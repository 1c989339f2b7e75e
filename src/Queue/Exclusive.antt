-- ===== src/Queue/Exclusive.antt =====
-- common/system/queue_enhance.go: an item is in the queue or with a handler at most once.
use mathlib.Core.Path.{subst}
use walletus.Base.{
  ℕ, zero, suc, Result, List, [], ◌∷◌, ◌++◌, false, ltb, length, take, drop, Comparable, ◌==◌, ◌≡◌,
  refl, sym, ap, ◌∙◌, ◌+◌, ◌-◌, ◌≤◌, arith, Bool-cases, inl, inr, take-append-drop, String, if-rule,
}
use walletus.Base.Int.{ℤ, pos, negsuc}
use walletus.Queue.Locked.{
  RichQueue, is_locked, unlock, lock, append_slot, wake, put, enqueue, batch_enqueue, put_all,
  dequeue, batch_dequeue, take_first, take_batch, items_of,
}
use walletus.Queue.Counted.{
  count, held, remove, count-append, count-remove, count-remove_self, held-reject, test_refl,
}

-- A queue, the items that the handlers of its consumers are at, and those that a call has locked and
-- not yet appended.
pub record Jobs (T : Type 0) : Type 0 where
  pub queue : RichQueue T
  pub in_flight : List T
  pub entering : List T

module _ {T : Type 0} ⦃c : Comparable T⦄ where
  -- What may happen next. A call of `Enqueue`, or a round of `BatchEnqueue`, locks its item if the
  -- item is free, and appends it in a later step, with anything between them; a consumer takes a
  -- batch; a handler is done, whose deferred `Delete` frees the item's lock. `delays` is the first
  -- half of `EnqueueWithDelay`, for an item that is not in the works; its second half is a call of
  -- `Enqueue`. A mutex that keeps some of these steps apart leaves fewer sequences.
  pub data Step : Jobs T → Jobs T → Type 0 where
    stores :
        (j : Jobs T) (item : T)
        → is_locked item j.queue.locks ≡ false
        → Step j (record j { queue = lock item j.queue; entering = item ∷ j.entering })
    appends :
        (j : Jobs T) (item : T)
        → 1 ≤ count item j.entering
        → Step j (record j { queue = append_slot item j.queue; entering = remove item j.entering })
    notifies : (j : Jobs T) → Step j (record j { queue = wake j.queue })
    dequeues :
        (j : Jobs T) (none_value : T) → Step j (record j { queue = (dequeue none_value j.queue).1 })
    takes :
        (j : Jobs T) (size : ℤ)
        → Step j (record j {
          queue = (batch_dequeue size j.queue).1;
          in_flight = j.in_flight ++ items_of (batch_dequeue size j.queue).0;
        })
    finishes :
        (j : Jobs T) (item : T)
        → 1 ≤ count item j.in_flight
        → Step j (record j { queue = unlock item j.queue; in_flight = remove item j.in_flight })
    delays :
        (j : Jobs T) (item : T)
        → count item j.in_flight + (count item j.entering + count item j.queue.slots) ≡ 0
        → Step j (record j { queue = unlock item j.queue })

  pub data Reach (start : Jobs T) : Jobs T → Type 0 where
    here : Reach start start
    onward : {j k : Jobs T} → Reach start j → Step j k → Reach start k

  -- An item is on its way into the queue, in it or with a handler only under its lock, and once.
  abbrev pub Once : List T → List T → RichQueue T → Type 0
  Once fl en q = (x : T) → count x fl + (count x en + count x q.slots) ≤ held x q.locks

  lock-Once :
      (item : T) (fl en : List T) (q : RichQueue T)
      → Once fl en q
      → is_locked item q.locks ≡ false
      → Once fl (item ∷ en) (lock item q)
  lock-Once item fl en q once free x = elim (Bool-cases (item == x)) [
    | inl same ↦
        let x_free = ap (λ y. is_locked y q.locks) (sym ((c.decides item x).0 same)) ∙ free in
        ground (arith, same, x_free, once x)
    | inr other ↦ ground (arith, other, once x)
  ]

  append_slot-Once :
      (item : T) (fl en : List T) (q : RichQueue T)
      → Once fl en q
      → 1 ≤ count item en
      → Once fl (remove item en) (append_slot item q)
  append_slot-Once item fl en q once entering x = elim (Bool-cases (item == x)) [
    | inl same ↦
        let e = (c.decides item x).0 same in
        let fewer : count x (remove item en) ≡ count x en - 1 =
          ap (λ y. count x (remove y en)) e ∙ count-remove_self x en in
        let some_left : 1 ≤ count x en = subst (λ y. 1 ≤ count y en) e entering in
        ground (arith, same, fewer, some_left, once x, count-append x q.slots (item ∷ []))
    | inr other ↦
        ground
          (arith, other, count-remove x item en other, once x, count-append x q.slots (item ∷ []))
  ]

  unlock-Once :
      (item : T) (fl rest en : List T) (q : RichQueue T)
      → Once fl en q
      → count item rest + (count item en + count item q.slots) ≡ 0
      → ((x : T) → (item == x) ≡ false → count x rest ≤ count x fl)
      → Once rest en (unlock item q)
  unfolding unlock
  unlock-Once item fl rest en q once none_left fewer x = elim (Bool-cases (item == x)) [
    | inl same ↦
        let gone =
          ap (λ y. count y rest + (count y en + count y q.slots))
            (sym ((c.decides item x).0 same)) in
        omega (arith, gone, none_left)
    | inr other ↦ omega (arith, once x, fewer x other, held-reject x item q.locks other)
  ]

  take_first-Once :
      (d : T) (xs fl en : List T) (q : RichQueue T)
      → q.slots ≡ xs
      → Once fl en q
      → Once fl en (take_first d xs q).1
  unfolding take_first
  take_first-Once d [] fl en q e once x = once x
  take_first-Once d (y ∷ ys) fl en q e once x = ground (arith, once x, ap (λ s. count x s) e)

  take_batch-Once :
      (n : ℕ) (xs fl en : List T) (q : RichQueue T)
      → q.slots ≡ xs
      → Once fl en q
      → Once (fl ++ items_of (take_batch n xs q).0) en (take_batch n xs q).1
  unfolding take_batch items_of
  take_batch-Once n [] fl en q e once x = omega (arith, once x, count-append x fl [])
  take_batch-Once n (y ∷ ys) fl en q e once x =
      if-rule {A = Result String (List T) × RichQueue T}
        (λ r. count x (fl ++ items_of r.0) + (count x en + count x r.1.slots) ≤ held x r.1.locks)
        (ltb n (length (y ∷ ys)))
        (λ more. omega (
          arith,
          once x,
          count-append x fl (take n (y ∷ ys)),
          ap (λ s. count x s) e,
          count-append x (take n (y ∷ ys)) (drop n (y ∷ ys)),
          ap (λ s. count x s) (take-append-drop n (y ∷ ys)),
        ))
        (λ all. omega (arith, once x, count-append x fl (y ∷ ys), ap (λ s. count x s) e))

  batch_dequeue-Once :
      (size : ℤ) (fl en : List T) (q : RichQueue T)
      → Once fl en q
      → Once (fl ++ items_of (batch_dequeue size q).0) en (batch_dequeue size q).1
  unfolding batch_dequeue items_of
  batch_dequeue-Once (negsuc n) fl en q once x = omega (arith, once x, count-append x fl [])
  batch_dequeue-Once (pos zero) fl en q once x = omega (arith, once x, count-append x fl [])
  batch_dequeue-Once (pos (suc n)) fl en q once x =
      take_batch-Once (suc n) q.slots fl en q refl once x

  -- Every step keeps each item at most once in the works, under its lock.
  Step-Once :
      {j k : Jobs T}
      → Step j k
      → Once j.in_flight j.entering j.queue
      → Once k.in_flight k.entering k.queue
  unfolding dequeue
  Step-Once (stores j item free) once = lock-Once item j.in_flight j.entering j.queue once free
  Step-Once (appends j item entering) once =
      append_slot-Once item j.in_flight j.entering j.queue once entering
  Step-Once (notifies j) once = once
  Step-Once (dequeues j d) once =
      take_first-Once d j.queue.slots j.in_flight j.entering j.queue refl once
  Step-Once (takes j size) once = batch_dequeue-Once size j.in_flight j.entering j.queue once
  Step-Once (finishes j item working) once =
      unlock-Once item j.in_flight (remove item j.in_flight) j.entering j.queue once
        (ground (arith, once item, working, count-remove_self item j.in_flight))
        (λ x other. omega (arith, count-remove x item j.in_flight other))
  Step-Once (delays j item away) once =
      unlock-Once item j.in_flight j.in_flight j.entering j.queue once away (λ x other. omega arith)

  -- From a queue whose items are locked and at most once in the works, no sequence of the steps of
  -- calls, consumers and handlers, with other steps between the lock and the append of a call, brings
  -- an item twice into the queue or to the handlers, and every item on its way into the queue, in it or
  -- with a handler is locked; provided that `EnqueueWithDelay` is called only for items that are
  -- neither on their way into the queue, nor in it, nor with a handler.
  pub Reach-Once :
      {start j : Jobs T}
      → Once start.in_flight start.entering start.queue
      → Reach start j
      → Once j.in_flight j.entering j.queue
  Reach-Once once here = once
  Reach-Once once (onward r s) = Step-Once s (Reach-Once once r)

  Reach-trans : {i j k : Jobs T} → Reach i j → Reach j k → Reach i k
  Reach-trans r here = r
  Reach-trans r (onward s step) = onward (Reach-trans r s) step

  -- A round that runs alone.
  put-Reach : (j : Jobs T) (item : T) → Reach j (record j { queue = put item j.queue })
  unfolding put
  put-Reach j item = elim (Bool-cases (is_locked item j.queue.locks)) [
    | inl locked ↦ rw locked here
    | inr free ↦
        let stored = record j { queue = lock item j.queue; entering = item ∷ j.entering } in
        let left : remove item stored.entering ≡ j.entering = rw (test_refl item) refl in
        let one : 1 ≤ count item stored.entering = rw (test_refl item) (omega arith) in
        rw free (
          subst
            (λ en.
              Reach j (record j { queue = append_slot item (lock item j.queue); entering = en }))
            left (onward (onward here (stores j item free)) (appends stored item one)))
  ]

  put_free :
      (item : T) (q : RichQueue T)
      → is_locked item q.locks ≡ false
      → put item q ≡ append_slot item (lock item q)
  unfolding put
  put_free item q free = rw free refl

  -- The whole calls are such sequences.
  put_all-Reach :
      (items : List T) (j : Jobs T) → Reach j (record j { queue = put_all items j.queue })
  unfolding put_all
  put_all-Reach [] j = here
  put_all-Reach (item ∷ items) j =
      Reach-trans (put-Reach j item) (put_all-Reach items (record j { queue = put item j.queue }))

  pub batch_enqueue-Reach :
      (items : List T) (j : Jobs T) → Reach j (record j { queue = batch_enqueue items j.queue })
  unfolding batch_enqueue
  batch_enqueue-Reach items j = onward (put_all-Reach items j) (notifies _)

  pub enqueue-Reach : (item : T) (j : Jobs T) → Reach j (record j { queue = enqueue item j.queue })
  unfolding enqueue
  enqueue-Reach item j = elim (Bool-cases (is_locked item j.queue.locks)) [
    | inl locked ↦ rw locked here
    | inr free ↦
        let done = onward (put-Reach j item) (notifies _) in
        let same : put item j.queue ≡ append_slot item (lock item j.queue) =
          put_free item j.queue free in
        rw free (subst (λ q. Reach j (record j { queue = wake q })) same done)
  ]
