-- ===== src/TaskQueue.antt =====
-- The task queue (utils/utils.go): `pop`, `Enqueue`, `Requeue`, `Shutdown`, and the worker of `Run`
-- as a step relation over the interleavings of the worker with its callers.
pub mod Steps
pub mod Fifo
pub mod Progress
use load_balancer_controller.Base.{
  Bool, true, false, ◌||◌, Option, some, none, List, [], ◌∷◌, ◌++◌, if◌then◌else◌, is_empty,
  is_some,
}
use load_balancer_controller.Base.Text.{Text}
use load_balancer_controller.Base.Dict.{Dict, insert, lookup, delete}

-- `wake` is the channel with room for one token; `stop_once` is whether the once has run.
pub record TaskQueue : Type 0 where
  pub items : List Text
  pub pending : Dict (Unit {0})
  pub wake : Bool
  pub stop_once : Bool
  pub stopped : Bool

unfoldable pub new_task_queue : TaskQueue
new_task_queue = record {
  items = [];
  pending = [];
  wake = false;
  stop_once = false;
  stopped = false;
}

unfoldable pub pop_items : List Text → TaskQueue → Option (Text × TaskQueue)
unfolding delete
pop_items [] q = none
pop_items (key ∷ rest) q = some (key, record q { items = rest; pending = delete key q.pending })

-- `pop`: `none` is the false of an empty queue, which leaves the queue as it is.
unfoldable pub pop : TaskQueue → Option (Text × TaskQueue)
unfolding pop_items
pop q = pop_items q.items q

-- The guards of `Enqueue`: an empty key, a stopped queue and a pending key are passed over.
unfoldable pub refuses : Text → TaskQueue → Bool
unfolding lookup
refuses key q = is_empty key || q.stopped || is_some (lookup key q.pending)

-- What `Enqueue` does under the lock.
unfoldable pub put : Text → TaskQueue → TaskQueue
unfolding insert
put key q = record q { pending = insert key tt q.pending; items = q.items ++ key ∷ [] }

-- The send on `wake` after the lock is let go; a full channel is passed over.
unfoldable pub signal : TaskQueue → TaskQueue
signal q = record q { wake = true }

unfoldable pub enqueue : Text → TaskQueue → TaskQueue
unfolding refuses put signal
enqueue key q = if refuses key q then q else signal (put key q)

-- `Requeue`: the error is only logged.
unfoldable pub requeue : {E : Type 0} → Text → E → TaskQueue → TaskQueue
unfolding enqueue
requeue key error q = enqueue key q

-- The end of the queue, which happens once.
unfoldable pub halt : TaskQueue → TaskQueue
halt q = record q { stop_once = true; stopped = true }

unfoldable pub shutdown : TaskQueue → TaskQueue
unfolding halt signal
shutdown q = if q.stop_once then q else signal (halt q)

-- What `Run` does when it sees the stop channel closed.
unfoldable pub end_run : TaskQueue → TaskQueue
unfolding halt
end_run q = if q.stop_once then q else halt q
