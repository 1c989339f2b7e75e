-- ===== src/Queue/Locked.antt =====
-- common/system/queue_enhance.go: `RichQueue` and the lock that its package keeps for an item from
-- `Enqueue` until the item's handler is done.
use walletus.Base.{
  ℕ, zero, suc, String, Result, ok, err, List, [], ◌∷◌, ◌++◌, Bool, true, false, if◌then◌else◌, ltb,
  length, take, drop, get_or, ◌-◌, any, reject, Comparable, ◌==◌,
}
use walletus.Base.Int.{ℤ, pos, negsuc}

-- `locks` holds the keys of `signInLocks`; `notify` is the channel's buffer of one.
pub record RichQueue (T : Type 0) : Type 0 where
  pub slots : List T
  pub locks : List T
  pub notify : Bool

-- The locks are those that the package has at that time.
abbrev pub new_rich_queue : {T : Type 0} → List T → RichQueue T
new_rich_queue locks = record { slots = []; locks = locks; notify = false }

module _ {T : Type 0} ⦃c : Comparable T⦄ where
  abbrev pub is_locked : T → List T → Bool
  is_locked item locks = any (λ held. held == item) locks

  -- `signInLocks.Delete`
  unfoldable pub unlock : T → RichQueue T → RichQueue T
  unlock item q = record q { locks = reject (λ held. held == item) q.locks }

  -- `LoadOrStore` of an item that has no lock, the append, and the notification.
  abbrev pub lock : T → RichQueue T → RichQueue T
  lock item q = record q { locks = item ∷ q.locks }

  abbrev pub append_slot : T → RichQueue T → RichQueue T
  append_slot item q = record q { slots = q.slots ++ item ∷ [] }

  abbrev pub wake : RichQueue T → RichQueue T
  wake q = record q { notify = true }

  -- A round of the loop of `BatchEnqueue`: `LoadOrStore`, and the append when nothing was loaded.
  unfoldable pub put : T → RichQueue T → RichQueue T
  put item q = if is_locked item q.locks then q else append_slot item (lock item q)

  -- The steps of a call that runs alone; others may come between `lock` and `append_slot`.
  unfoldable pub enqueue : T → RichQueue T → RichQueue T
  enqueue item q = if is_locked item q.locks then q else wake (append_slot item (lock item q))

  unfoldable pub put_all : List T → RichQueue T → RichQueue T
  put_all [] q = q
  put_all (item ∷ items) q = put_all items (put item q)

  unfoldable pub batch_enqueue : List T → RichQueue T → RichQueue T
  unfolding put_all
  batch_enqueue items q = wake (put_all items q)

module _ {T : Type 0} where
  unfoldable pub take_first : T → List T → RichQueue T → Result String T × RichQueue T
  take_first none_value [] q = (err "queue is empty", q)
  take_first none_value (item ∷ rest) q = (ok item, record q { slots = rest })

  -- The first argument is the zero value of the item's type. The item stays locked.
  unfoldable pub dequeue : T → RichQueue T → Result String T × RichQueue T
  unfolding take_first
  dequeue none_value q = take_first none_value q.slots q

  unfoldable pub take_batch : ℕ → List T → RichQueue T → Result String (List T) × RichQueue T
  take_batch size [] q = (err "empty length", q)
  take_batch size (x ∷ xs) q =
      if ltb size (length (x ∷ xs))
      then (ok (take size (x ∷ xs)), record q { slots = drop size (x ∷ xs) })
      else (ok (x ∷ xs), record q { slots = [] })

  unfoldable pub batch_dequeue : ℤ → RichQueue T → Result String (List T) × RichQueue T
  unfolding take_batch
  batch_dequeue (negsuc n) q = (err "wrong size", q)
  batch_dequeue (pos zero) q = (err "wrong size", q)
  batch_dequeue (pos (suc n)) q = take_batch (suc n) q.slots q

  abbrev pub size : RichQueue T → ℕ
  size q = length q.slots

  unfoldable pub first : T → RichQueue T → T
  first none_value q = get_or q.slots 0 none_value

  unfoldable pub last : T → RichQueue T → T
  last none_value q = get_or q.slots (length q.slots - 1) none_value

module _ {T : Type 0} ⦃c : Comparable T⦄ where
  -- The deferred `Delete` of each handler of a batch.
  unfoldable pub unlock_all : List T → RichQueue T → RichQueue T
  unlock_all [] q = q
  unlock_all (item ∷ items) q = unlock_all items (unlock item q)

  unfoldable pub items_of : Result String (List T) → List T
  items_of (ok items) = items
  items_of (err text) = []

  -- An error leaves the loop; else the batch comes before what the later rounds hand out.
  unfoldable pub after_batch :
      Result String (List T) → RichQueue T → List T × RichQueue T → List T × RichQueue T
  after_batch (err text) q later = ([], q)
  after_batch (ok items) q later = (items ++ later.0, later.1)

  -- One wake of `ConsumerWithContext`: batches until `BatchDequeue` fails, with the items handed to
  -- the handlers. The handlers put nothing into the queue.
  unfoldable pub consume : ℕ → ℤ → RichQueue T → List T × RichQueue T
  unfolding items_of after_batch
  consume zero size q = ([], q)
  consume (suc fuel) size q =
      let batch = batch_dequeue size q in
      let later = consume fuel size (unlock_all (items_of batch.0) batch.1) in
      after_batch batch.0 batch.1 later
