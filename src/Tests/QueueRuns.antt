-- ===== src/Tests/QueueRuns.antt =====
-- Runs of queue.go on numbers.
use nomad_ondemand_scaler.Prelude.{ℕ, ◌≡◌, refl, List, [], ◌∷◌, some}
use nomad_ondemand_scaler.Queue.{Queue, new_queue, enqueue}
use nomad_ondemand_scaler.Queue.Valid.{IsValid, new_queue-IsValid}
use nomad_ondemand_scaler.Queue.Refine.{
  Call, enqueues, dequeues, removes, run, fifo_run, fifo_step, take_head, run_refines,
}
use nomad_ondemand_scaler.Queue.Producer as Producer

abbrev calls : List (Call ℕ)
calls = enqueues 7 "a" ∷ enqueues 8 "b" ∷ removes "a" ∷ dequeues 2 ∷ []

run_refines_example :
    (q' : Queue ℕ) × (run calls new_queue ≡ some (q', (fifo_run calls []).1))
    × (q'.items ≡ (fifo_run calls []).0)
    × IsValid q'
unfolding new_queue fifo_step take_head
run_refines_example = run_refines calls new_queue new_queue-IsValid (refl, (refl, (tt, (tt, tt))))

abbrev woken : Producer.System ℕ
woken = record Producer.start { queue = enqueue 7 "a" (Producer.start).queue }

Reach-Offers_example : Producer.Offers woken
unfolding Producer.start new_queue enqueue
Reach-Offers_example =
    Producer.Reach-Offers woken (record { item = 7; id = "a" }) []
      (Producer.next Producer.here (Producer.enqueues 7 "a")) refl
