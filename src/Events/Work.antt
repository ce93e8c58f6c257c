-- ===== src/Events/Work.antt =====
-- `doWork` of worker.go: one event under its lock.
use load_balancer_controller.Base.{
  true, Option, some, none, [], ◌∷◌, ◌++◌, ◌≡◌, refl, inl, inr, arith, if◌then◌else◌, is_empty,
  Bool-cases,
}
use load_balancer_controller.Base.Text.{Text, codes, text_eq_iff}
use load_balancer_controller.Base.Dict.{Dict, insert, lookup, lookup-insert, lookup-delete}
use load_balancer_controller.Base.Outcome.{Outcome, ok, err}
use load_balancer_controller.Locks.{
  lock, unlock, Response, unlocker, refused, silent, Locked, serve_op,
}
use load_balancer_controller.Locks.Exclusion.{held}
use load_balancer_controller.Events.{Event, Publish}

-- `EventLocker`: no lock, or the lock of a key.
abbrev pub Locker : Type 0
Locker = Option Text

-- `resourceIDLocker`
unfoldable pub resource_id_locker : Event → Locker
resource_id_locker event =
    if is_empty event.resource_id
    then none
    else some (event.resource_type ++ (b':' ∷ event.resource_id))

-- A handler works on the state of the program, and fails with the text of an error.
abbrev pub Handler : Type 0 → Type 0
Handler S = Event → S → Outcome Text (Unit {0}) × S

-- What came of an event.
pub data Done : Type 0 where
  dropped : Done
  unhandled : Done
  handled : Done
  failed : Publish → Done

unfoldable pub error_reply : Event → Text → Publish
error_reply event message = record {
  name = event.reply_to;
  previous_ids = event.id ∷ [];
  resource_type = [];
  resource_id = [];
  transitioning = codes "error";
  transitioning_message = message;
}

module _ {S : Type 0} where
  report : Event → Outcome Text (Unit {0}) × S → Done × S
  unfolding error_reply
  report event (ok _, s) = (handled, s)
  report event (err message, s) = (failed (error_reply event message), s)

  -- The part of `doWork` under the lock.
  run_handler : Event → Option (Handler S) → S → Done × S
  unfolding report
  run_handler event none s = (unhandled, s)
  run_handler event (some handler) s = report event (handler event s)

  release_after : Text → Done × S → Locked → Done × S × Locked
  unfolding serve_op
  release_after key (d, s) locked = (d, s, (serve_op unlock key locked).1)

  locked_run : Event → Option (Handler S) → Response × Locked → S → Done × S × Locked
  unfolding run_handler release_after
  locked_run event h (unlocker k, locked) s = release_after k (run_handler event h s) locked
  locked_run event h (refused, locked) s = (dropped, s, locked)
  locked_run event h (silent, locked) s = (dropped, s, locked)

  -- The outcome, the state and the locks after an event; the lock is the no-operation one, or
  -- that of a key.
  unfoldable pub do_work : Event → Dict (Handler S) → Locker → Locked → S → Done × S × Locked
  unfolding locked_run lookup serve_op
  do_work event handlers none locked s =
      let (d, s') = run_handler event (lookup event.name handlers) s in (d, s', locked)
  do_work event handlers (some key) locked s =
      locked_run event (lookup event.name handlers) (serve_op lock key locked) s

  -- An event whose key is held is dropped: no handler runs, and the locks stay as they are.
  pub do_work-dropped :
      (event : Event) (handlers : Dict (Handler S)) (key : Text) (locked : Locked) (s : S)
      → held key locked ≡ true
      → do_work event handlers (some key) locked s ≡ (dropped, s, locked)
  unfolding do_work
  do_work-dropped event handlers key locked s h = rw h

  -- Whatever a handler does, a failed one included, no lock is left held by the event, and no
  -- other lock is let go.
  pub do_work-held :
      (event : Event) (handlers : Dict (Handler S)) (l : Locker) (locked : Locked) (s : S)
      (k : Text)
      → held k (do_work event handlers l locked s).2 ≡ held k locked
  unfolding do_work
  do_work-held event handlers none locked s k = refl
  do_work-held event handlers (some key) locked s k = elim (Bool-cases (held key locked)) [
    | inl e ↦ rw e refl
    | inr e ↦ rw e (
        ground (
          arith,
          lookup-delete key k (insert key tt locked),
          lookup-insert key k tt locked,
          text_eq_iff key k,
        ))
  ]
