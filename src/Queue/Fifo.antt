-- ===== src/Queue/Fifo.antt =====
-- common/system/queue.go against a first-in first-out history of the slots.
use walletus.Base.{
  ℕ, zero, suc, String, Result, ok, err, List, [], ◌∷◌, ◌++◌, ltb, length, ◌≡◌, refl, sym, ap, ◌∙◌,
  ◌≤◌, ◌<◌, ◌-◌, min, arith, if-rule, take-append-drop, length-take, length-drop, append-nil,
  append_assoc,
}
use walletus.Base.Int.{ℤ, pos, negsuc}
use walletus.Queue.Slots.{
  SlotQueue, take_first, enqueue, dequeue, batch_dequeue, items_of, consumer,
}

-- A call of one of the methods that change the queue.
pub data Call : Type 0 where
  call_enqueue : ℕ → Call
  call_dequeue : Call
  call_batch : ℤ → Call

item_of : Result String ℕ → List ℕ
item_of (ok item) = item ∷ []
item_of (err text) = []

-- The slots that a call hands out, and the queue after it.
unfoldable pub call : Call → SlotQueue → List ℕ × SlotQueue
unfolding item_of
call (call_enqueue item) q = ([], enqueue item q)
call call_dequeue q = let r = dequeue q in (item_of r.0, r.1)
call (call_batch n) q = let r = batch_dequeue n q in (items_of r.0, r.1)

unfoldable pub run : List Call → SlotQueue → List ℕ × SlotQueue
run [] q = ([], q)
run (c ∷ calls) q = let now = call c q in let later = run calls now.1 in (now.0 ++ later.0, later.1)

-- The specification: what was put in, in order.
unfoldable pub entered : List Call → List ℕ
entered [] = []
entered (call_enqueue item ∷ calls) = item ∷ entered calls
entered (call_dequeue ∷ calls) = entered calls
entered (call_batch n ∷ calls) = entered calls

take_first_lem :
    (xs : List ℕ) (q : SlotQueue)
    → q.slots ≡ xs
    → (item_of (take_first xs q).0 ++ (take_first xs q).1.slots) ≡ xs
unfolding item_of take_first
take_first_lem [] q e = e
take_first_lem (x ∷ xs) q e = refl

batch_dequeue_lem :
    (n : ℤ) (q : SlotQueue)
    → (items_of (batch_dequeue n q).0 ++ (batch_dequeue n q).1.slots) ≡ q.slots
unfolding batch_dequeue
batch_dequeue_lem (negsuc n) q = refl
batch_dequeue_lem (pos zero) q = refl
batch_dequeue_lem (pos (suc n)) q =
    if-rule {A = Result String (List ℕ) × SlotQueue} (λ r. (items_of r.0 ++ r.1.slots) ≡ q.slots)
      (ltb (suc n) (length q.slots)) (λ more. take-append-drop (suc n) q.slots)
      (λ all. append-nil q.slots)

call_lem :
    (c : Call) (q : SlotQueue)
    → ((call c q).0 ++ (call c q).1.slots) ≡ (q.slots ++ entered (c ∷ []))
unfolding call entered enqueue dequeue item_of
call_lem (call_enqueue item) q = refl
call_lem call_dequeue q = take_first_lem q.slots q refl ∙ sym (append-nil q.slots)
call_lem (call_batch n) q = batch_dequeue_lem n q ∙ sym (append-nil q.slots)

entered_cons :
    (c : Call) (calls : List Call) → entered (c ∷ calls) ≡ (entered (c ∷ []) ++ entered calls)
unfolding entered
entered_cons (call_enqueue item) calls = refl
entered_cons call_dequeue calls = refl
entered_cons (call_batch n) calls = refl

-- Whatever methods are called in whatever order, the slots handed out so far, followed by the
-- slots still in the queue, are the slots it had at the start followed by those put in, in order.
pub run_fifo :
    (calls : List Call) (q : SlotQueue)
    → ((run calls q).0 ++ (run calls q).1.slots) ≡ (q.slots ++ entered calls)
unfolding run entered
run_fifo [] q = sym (append-nil q.slots)
run_fifo (c ∷ calls) q =
    let now = call c q in
    let later = run calls now.1 in
    cc (
      append_assoc now.0 later.0 later.1.slots,
      run_fifo calls now.1,
      append_assoc now.0 now.1.slots (entered calls),
      call_lem c q,
      append_assoc q.slots (entered (c ∷ [])) (entered calls),
      entered_cons c calls,
    )

-- A batch of a positive size has as many slots as the size allows and the queue holds: it is never
-- longer than the size, and it is empty only when the queue is.
pub batch_dequeue-length :
    (n : ℕ) (q : SlotQueue)
    → 0 < n
    → length (items_of (batch_dequeue (pos n) q).0) ≡ min n (length q.slots)
unfolding batch_dequeue
batch_dequeue-length zero q h = absurd (omega arith)
batch_dequeue-length (suc n) q h =
    if-rule {A = Result String (List ℕ) × SlotQueue}
      (λ r. length (items_of r.0) ≡ min (suc n) (length q.slots)) (ltb (suc n) (length q.slots))
      (λ more. length-take (suc n) q.slots) (λ all. ground arith)

batch_dequeue_left :
    (n : ℕ) (q : SlotQueue)
    → length (batch_dequeue (pos (suc n)) q).1.slots ≡ length q.slots - suc n
unfolding batch_dequeue
batch_dequeue_left n q =
    if-rule {A = Result String (List ℕ) × SlotQueue}
      (λ r. length r.1.slots ≡ length q.slots - suc n) (ltb (suc n) (length q.slots))
      (λ more. length-drop (suc n) q.slots) (λ all. ground arith)

length-eq_zero : (xs : List ℕ) → length xs ≡ 0 → xs ≡ []
length-eq_zero [] h = refl
length-eq_zero (x ∷ xs) h = absurd (omega arith)

-- With batches of a positive size, a consumer hands every slot of the queue to the handlers, in
-- order, and empties the queue within as many rounds as the queue has slots.
pub consumer_drains :
    (rounds : ℕ) (n : ℕ) (q : SlotQueue)
    → 0 < n
    → length q.slots ≤ rounds
    → ((consumer rounds (pos n) q).0 ≡ q.slots) × ((consumer rounds (pos n) q).1.slots ≡ [])
unfolding consumer
consumer_drains rounds zero q h few = absurd (omega arith)
consumer_drains zero (suc n) q h few =
    let none_left = length-eq_zero q.slots (omega arith) in (sym none_left, none_left)
consumer_drains (suc rounds) (suc n) q h few =
    let batch = batch_dequeue (pos (suc n)) q in
    let rest = consumer_drains rounds (suc n) batch.1 h (omega (arith, batch_dequeue_left n q)) in
    (ap (λ later. items_of batch.0 ++ later) rest.0 ∙ batch_dequeue_lem (pos (suc n)) q, rest.1)
