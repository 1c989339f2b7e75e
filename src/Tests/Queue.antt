-- ===== src/Tests/Queue.antt =====
-- The queues at concrete inputs.
use walletus.Base.{ℕ, List, [], ◌∷◌, ◌++◌, true, ◌≡◌, refl, arith, nat_eq}
use walletus.Base.Int.{pos}
use walletus.Queue.Slots.{SlotQueue}
use walletus.Queue.Fifo.{Call, call_enqueue, call_dequeue, call_batch, run, entered, run_fifo}
use walletus.Queue.Locked.{RichQueue, new_rich_queue, lock, append_slot, put, enqueue, consume}
use walletus.Queue.Locked.{batch_dequeue as take_locked, items_of as locked_items}
use walletus.Queue.Exclusive.{Jobs, stores, appends, takes, Reach, here, onward, Once, Reach-Once}
use walletus.Queue.Drained.{Drained, consume-Drained, enqueue_handled}

abbrev three : SlotQueue
three = record { slots = 7 ∷ 8 ∷ 9 ∷ []; notify = true }

abbrev calls : List Call
calls = call_enqueue 1 ∷ call_batch (pos 2) ∷ call_dequeue ∷ call_enqueue 2 ∷ []

run_fifo_example :
    ((run calls three).0 ++ (run calls three).1.slots) ≡ (7 ∷ 8 ∷ 9 ∷ [] ++ entered calls)
run_fifo_example = run_fifo calls three

abbrev idle : RichQueue ℕ
idle = new_rich_queue []

abbrev start : Jobs ℕ
start = record { queue = idle; in_flight = []; entering = [] }

-- Item 4 has been locked, then item 5 has entered the queue, then item 4.
abbrev locked : Jobs ℕ
locked = record { queue = lock 4 idle; in_flight = []; entering = 4 ∷ [] }

abbrev entered_job : Jobs ℕ
entered_job = record { queue = append_slot 4 (put 5 (lock 4 idle)); in_flight = []; entering = [] }

abbrev at_work : Jobs ℕ
at_work = record {
  queue = (take_locked (pos 1) entered_job.queue).1;
  in_flight = [] ++ locked_items (take_locked (pos 1) entered_job.queue).0;
  entering = [];
}

none_twice : Once [] [] idle
none_twice x = omega arith

taken : Reach start at_work
unfolding put
taken =
    onward
      (onward
        (onward (onward (onward here (stores start 4 refl)) (stores locked 5 refl))
          (appends _ 5 (omega arith)))
        (appends (record { queue = put 5 (lock 4 idle); in_flight = []; entering = 4 ∷ [] }) 4
          (omega arith)))
      (takes entered_job (pos 1))

Reach-Once_example : Once at_work.in_flight [] at_work.queue
Reach-Once_example = Reach-Once none_twice taken

abbrev two : RichQueue ℕ
two = record { slots = 4 ∷ 5 ∷ []; locks = 5 ∷ 4 ∷ []; notify = true }

consume-Drained_example : Drained (4 ∷ 5 ∷ []) (consume 3 (pos 1) two)
consume-Drained_example = consume-Drained 3 0 two (omega arith)

enqueue_handled_example :
    ((enqueue 6 two).notify ≡ true) × Drained (4 ∷ 5 ∷ 6 ∷ []) (consume 4 (pos 1) (enqueue 6 two))
enqueue_handled_example = enqueue_handled 4 0 6 two refl (omega arith)
