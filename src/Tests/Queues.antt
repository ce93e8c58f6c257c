-- ===== src/Tests/Queues.antt =====
-- Runs of the task queue, the key locks and the worker pool.
use load_balancer_controller.Base.{ℕ, suc, true, some, List, [], ◌∷◌, ◌++◌, ◌≡◌, ◌≢◌, refl}
use load_balancer_controller.Base.Text.{codes}
use load_balancer_controller.Base.Dict.{Dict}
use load_balancer_controller.Base.Outcome.{err}
use load_balancer_controller.TaskQueue.{pop, refuses, shutdown, new_task_queue}
use load_balancer_controller.TaskQueue.Steps
use load_balancer_controller.TaskQueue.Steps.{
  System, begin_enqueue, initial, Worker, waiting, running, call_enqueue, call_shutdown, go_idle,
  wake_up, IsConsistent, Reach-IsConsistent,
}
use load_balancer_controller.TaskQueue.Fifo.{history, start, after, Run-history, Run-stopped}
use load_balancer_controller.Locks.{Request, lock, locker, Locked}
use load_balancer_controller.Locks.Mutex.{specified_run, view, locker-specified}
use load_balancer_controller.TaskQueue.Progress.{Serves, IsServed, Reach-Serves}
use load_balancer_controller.Locks.Exclusion.{held}
use load_balancer_controller.Events.{Event}
use load_balancer_controller.Events.Work.{do_work, Handler, do_work-held}
use load_balancer_controller.Events.Pool
use load_balancer_controller.Events.Pool.{
  handle_work, new_pool, arrive, Reach-total, handle_work-dropped,
}

-- The worker waits, and a key arrives.
abbrev idle : System
unfolding initial
idle = record initial { worker = waiting }

abbrev woken : System
unfolding begin_enqueue idle
woken = begin_enqueue (codes "lb") idle

idle_reached : Steps.Step initial idle
unfolding initial
idle_reached = go_idle refl (unfold pop in refl) refl

woken_reached : Steps.Step idle woken
unfolding woken
woken_reached = call_enqueue (codes "lb") refl

Reach-IsConsistent_example : IsConsistent woken
Reach-IsConsistent_example =
    Reach-IsConsistent (Steps.next (Steps.next Steps.here idle_reached) woken_reached)

Run-history_example : history woken ≡ history idle ++ codes "lb" ∷ []
unfolding woken_reached
Run-history_example =
    Run-history (after {all = codes "lb" ∷ []} start woken_reached (unfold refuses in refl))

-- A queue that was shut down, asked for a key.
abbrev down : System
unfolding initial
down = record initial { queue = shutdown new_task_queue }

-- The state after a call with a key.
abbrev asked : System
unfolding begin_enqueue down
asked = begin_enqueue (codes "lb") down

down_asked : Steps.Step down asked
unfolding asked
down_asked = call_enqueue (codes "lb") refl

Run-stopped_example :
    (asked.queue.stopped ≡ true)
    × (asked.synced ++ asked.queue.items ≡ down.synced ++ down.queue.items)
unfolding down down_asked shutdown
Run-stopped_example = Run-stopped (after {all = []} start down_asked (unfold refuses in refl)) refl

abbrev requests : List Request
requests =
    record { key = codes "a"; op = lock }
    ∷ record { key = codes "b"; op = lock }
    ∷ record { key = codes "a"; op = lock }
    ∷ []

abbrev a_held : Locked
a_held = (codes "a", tt) ∷ []

abbrev event : Event
event = record {
  name = codes "target.drain";
  id = codes "1";
  reply_to = codes "reply";
  resource_id = codes "5";
  resource_type = codes "target";
  payload = [];
}

-- Handlers that count, and fail.
abbrev handlers : Dict (Handler ℕ)
handlers = (codes "target.drain", λ e n. (err (codes "no"), suc n)) ∷ []

do_work-held_example :
    held (codes "a") (do_work event handlers (some (codes "a")) [] 0).2 ≡ held (codes "a") []
do_work-held_example = do_work-held event handlers (some (codes "a")) [] 0 (codes "a")

abbrev full : Pool.Pool
unfolding new_pool handle_work
full = handle_work event (new_pool 1)

full_reached : Pool.Reach 1 full
unfolding handle_work full
full_reached = Pool.next (Pool.here refl) (arrive event refl)

locker-specified_example :
    ((locker requests []).0 ≡ (specified_run requests (view [])).0)
    × (view (locker requests []).1 ≡ (specified_run requests (view [])).1)
locker-specified_example = locker-specified requests []

woken_alive : woken.worker ≢ Worker.ended
unfolding woken begin_enqueue refuses idle initial
woken_alive h = cc h

-- The key that arrived while the worker waited is handed over.
Reach-Serves_example : (t : System) × Serves woken t × IsServed woken t
Reach-Serves_example =
    Reach-Serves (Steps.next (Steps.next Steps.here idle_reached) woken_reached) woken_alive
