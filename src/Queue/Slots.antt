-- ===== src/Queue/Slots.antt =====
-- common/system/queue.go: `SlotQueue`, whose mutex makes each method one step.
use walletus.Base.{
  ℕ, zero, suc, String, Result, ok, err, List, [], ◌∷◌, ◌++◌, Bool, true, false, if◌then◌else◌, ltb,
  length, take, drop, get_or, ◌-◌,
}
use walletus.Base.Int.{ℤ, pos, negsuc, int64}

-- `notify` is the channel's buffer of one.
pub record SlotQueue : Type 0 where
  pub slots : List ℕ
  pub notify : Bool

abbrev pub new_slot_queue : SlotQueue
new_slot_queue = record { slots = []; notify = false }

unfoldable pub enqueue : ℕ → SlotQueue → SlotQueue
enqueue item q = record { slots = q.slots ++ item ∷ []; notify = true }

unfoldable pub take_first : List ℕ → SlotQueue → Result String ℕ × SlotQueue
take_first [] q = (err "queue is empty", q)
take_first (item ∷ rest) q = (ok item, record q { slots = rest })

unfoldable pub dequeue : SlotQueue → Result String ℕ × SlotQueue
unfolding take_first
dequeue q = take_first q.slots q

unfoldable pub batch_dequeue : ℤ → SlotQueue → Result String (List ℕ) × SlotQueue
batch_dequeue (negsuc n) q = (err "wrong size", q)
batch_dequeue (pos zero) q = (err "wrong size", q)
batch_dequeue (pos (suc n)) q =
    if ltb (suc n) (length q.slots)
    then (ok (take (suc n) q.slots), record q { slots = drop (suc n) q.slots })
    else (ok q.slots, record q { slots = [] })

abbrev pub size : SlotQueue → ℕ
size q = length q.slots

-- `int(q.slots[0])`, or 0.
unfoldable pub first : SlotQueue → ℤ
first q = int64 (get_or q.slots 0 0)

unfoldable pub last : SlotQueue → ℤ
last q = int64 (get_or q.slots (length q.slots - 1) 0)

-- What a batch gives the handlers: an error gives them nothing.
abbrev pub items_of : Result String (List ℕ) → List ℕ
items_of (ok items) = items
items_of (err text) = []

-- The first rounds of `Consumer`'s inner loop, with the slots handed to the handlers in order.
unfoldable pub consumer : ℕ → ℤ → SlotQueue → List ℕ × SlotQueue
consumer zero size q = ([], q)
consumer (suc rounds) size q =
    let batch = batch_dequeue size q in
    let later = consumer rounds size batch.1 in (items_of batch.0 ++ later.0, later.1)
