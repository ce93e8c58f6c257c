-- ===== src/TaskQueue/Steps.antt =====
-- The worker of `Run`, its callers, and the owner of the stop channel, step by step.
use load_balancer_controller.Base.{
  any-append, ℕ, suc, ◌<◌, if◌then◌else◌, Bool, true, false, some, none, List, [], ◌∷◌, ◌++◌, ◌≡◌,
  ◌≢◌, refl, sym, ◌∙◌, ◌⊎◌, inl, inr, arith, is_some, Bool-cases, any,
}
use load_balancer_controller.Base.Text.{Text, text_eq, text_eq_iff, text_eq_sym}
use load_balancer_controller.Base.Dict.{Dict, lookup, delete, lookup-insert, lookup-delete}
use load_balancer_controller.TaskQueue.{
  TaskQueue, new_task_queue, pop, pop_items, refuses, put, signal, halt, end_run,
}

-- Where the worker stands: before `pop`, at the select, or returned.
pub data Worker : Type 0 where
  running waiting ended : Worker

pub record System : Type 0 where
  pub queue : TaskQueue
  pub worker : Worker
  pub stop_closed : Bool
  -- the calls that have let the lock go and have yet to send on `wake`
  pub signals : ℕ
  -- the keys handed to `sync`, in order
  pub synced : List Text

unfoldable pub initial : System
unfolding new_task_queue
initial = record {
  queue = new_task_queue;
  worker = running;
  stop_closed = false;
  signals = 0;
  synced = [];
}

-- A call of `Enqueue` until it lets the lock go; the rest of it is a send.
unfoldable pub begin_enqueue : Text → System → System
unfolding refuses put
begin_enqueue key s =
    if refuses key s.queue then s else record s { queue = put key s.queue; signals = suc s.signals }

-- A call of `Shutdown` until it lets the lock go.
unfoldable pub begin_shutdown : System → System
unfolding halt
begin_shutdown s =
    if s.queue.stop_once then s else record s { queue = halt s.queue; signals = suc s.signals }

pub data Step (s : System) : System → Type 0 where
  call_enqueue : (key : Text) {t : System} → t ≡ begin_enqueue key s → Step s t
  call_shutdown : {t : System} → t ≡ begin_shutdown s → Step s t
  send :
      {n : ℕ} {t : System}
      → s.signals ≡ suc n
      → t ≡ record s { queue = signal s.queue; signals = n }
      → Step s t
  close_stop : {t : System} → t ≡ record s { stop_closed = true } → Step s t
  take :
      {key : Text} {q : TaskQueue} {t : System}
      → s.worker ≡ running
      → pop s.queue ≡ some (key, q)
      → t ≡ record s { queue = q; synced = s.synced ++ key ∷ [] }
      → Step s t
  go_idle :
      {t : System}
      → s.worker ≡ running
      → pop s.queue ≡ none
      → t ≡ record s { worker = waiting }
      → Step s t
  wake_up :
      {t : System}
      → s.worker ≡ waiting
      → s.queue.wake ≡ true
      → t ≡ record s { worker = running; queue = record (s.queue) { wake = false } }
      → Step s t
  stop :
      {t : System}
      → s.worker ≡ waiting
      → s.stop_closed ≡ true
      → t ≡ record s { worker = ended; queue = end_run s.queue }
      → Step s t

pub data Reach : System → Type 0 where
  here : Reach initial
  next : {s t : System} → Reach s → Step s t → Reach t

-- Membership in the queue.
abbrev pub queued : Text → List Text → Bool
queued key = any (λ k. text_eq k key)

abbrev pub NoRepeat : List Text → Type 0
NoRepeat [] = Unit
NoRepeat (k ∷ ks) = (queued k ks ≡ false) × NoRepeat ks

-- The set is that of the items, no item is there twice, and a worker that waits while there are
-- items has a token to wake it, or a call is about to send one.
pub record IsConsistent (s : System) : Type 0 where
  pub no_repeat : NoRepeat s.queue.items
  pub same_set : (key : Text) → is_some (lookup key s.queue.pending) ≡ queued key s.queue.items
  pub awake : s.worker ≡ waiting → s.queue.items ≢ [] → (s.queue.wake ≡ true) ⊎ (0 < s.signals)

NoRepeat-concat :
    (xs : List Text) (k : Text) → queued k xs ≡ false → NoRepeat xs → NoRepeat (xs ++ k ∷ [])
unfolding any
NoRepeat-concat [] k h d = (refl, tt)
NoRepeat-concat (x ∷ xs) k h (q, d) = (
  ground (arith, any-append (λ (y : Text). text_eq y x) xs (k ∷ []), text_eq_sym k x),
  NoRepeat-concat xs k (ground arith) d,
)

refuses-pending :
    (key : Text) (q : TaskQueue) → refuses key q ≡ false → is_some (lookup key q.pending) ≡ false
unfolding refuses
refuses-pending key q h = ground arith

enqueue-IsConsistent :
    (s : System) (key : Text) → IsConsistent s → IsConsistent (begin_enqueue key s)
unfolding begin_enqueue any
enqueue-IsConsistent s key c = elim (Bool-cases (refuses key s.queue)) [
  | inl e ↦ rw e c
  | inr e ↦ rw e (record {
    no_repeat =
        NoRepeat-concat s.queue.items key (sym (c.same_set key) ∙ refuses-pending key s.queue e)
          c.no_repeat;
    same_set = λ k. ground (
      arith,
      lookup-insert key k tt s.queue.pending,
      any-append (λ (y : Text). text_eq y k) s.queue.items (key ∷ []),
      c.same_set k,
    );
    awake = λ w n. inr (omega arith);
  })
]

pop_items-some :
    (items : List Text) (q : TaskQueue) {key : Text} {q' : TaskQueue}
    → pop_items items q ≡ some (key, q')
    → (rest : List Text) × (items ≡ key ∷ rest)
      × (q' ≡ record q { items = rest; pending = delete key q.pending })
unfolding pop_items
pop_items-some [] q h = absurd (cc h)
pop_items-some (k ∷ rest) q {key} {q'} h =
    let same : k ≡ key = cc h in (rest, rw same refl, rw (← same) (sym (cc h)))

pub pop-some :
    (q : TaskQueue) {key : Text} {q' : TaskQueue}
    → pop q ≡ some (key, q')
    → (rest : List Text) × (q.items ≡ key ∷ rest)
      × (q' ≡ record q { items = rest; pending = delete key q.pending })
unfolding pop
pop-some q h = pop_items-some q.items q h

pop_items-none : (items : List Text) (q : TaskQueue) → pop_items items q ≡ none → items ≡ []
unfolding pop_items
pop_items-none [] q h = refl
pop_items-none (k ∷ rest) q h = absurd (cc h)

drop_first :
    (key : Text) (rest : List Text) (pending : Dict (Unit {0}))
    → NoRepeat (key ∷ rest)
    → ((k : Text) → is_some (lookup k pending) ≡ queued k (key ∷ rest))
    → NoRepeat rest × ((k : Text) → is_some (lookup k (delete key pending)) ≡ queued k rest)
unfolding any
drop_first key rest pending (once, d) h =
    (d, λ k. ground (arith, lookup-delete key k pending, h k, text_eq_iff key k))

take-IsConsistent :
    (s : System) {key : Text} {q : TaskQueue} (synced : List Text)
    → s.worker ≡ running
    → pop s.queue ≡ some (key, q)
    → IsConsistent s
    → IsConsistent (record s { queue = q; synced = synced })
take-IsConsistent s {key} {q} synced w e c =
    let (rest, items, same) = pop-some s.queue e in
    let (d, known) =
      drop_first key rest s.queue.pending (rw items at c.no_repeat)
        (λ k. c.same_set k ∙ rw items) in
    rw same (record { no_repeat = d; same_set = known; awake = λ v n. absurd (ground arith) })

pub begin_shutdown-cases :
    (s : System)
    → (begin_shutdown s ≡ s)
      ⊎ (begin_shutdown s ≡ record s { queue = halt s.queue; signals = suc s.signals })
unfolding begin_shutdown
begin_shutdown-cases s = ground arith

pub end_run-cases : (q : TaskQueue) → (end_run q ≡ q) ⊎ (end_run q ≡ halt q)
unfolding end_run
end_run-cases q = ground arith

shutdown-IsConsistent : (s : System) → IsConsistent s → IsConsistent (begin_shutdown s)
unfolding halt
shutdown-IsConsistent s c = elim (begin_shutdown-cases s) [
  | inl e ↦ rw e c
  | inr e ↦
      rw e (record {
        no_repeat = c.no_repeat;
        same_set = c.same_set;
        awake = λ w n. inr (omega arith);
      })
]

end_run-IsConsistent :
    (s : System)
    → IsConsistent s
    → IsConsistent (record s { worker = ended; queue = end_run s.queue })
unfolding halt
end_run-IsConsistent s c = elim (end_run-cases s.queue) [
  | inl e ↦
      rw e (record { no_repeat = c.no_repeat; same_set = c.same_set; awake = λ v n. absurd (cc v) })
  | inr e ↦
      rw e (record { no_repeat = c.no_repeat; same_set = c.same_set; awake = λ v n. absurd (cc v) })
]

-- Every step keeps the queue consistent, and loses no wake-up.
pub Step-IsConsistent : {s t : System} → Step s t → IsConsistent s → IsConsistent t
unfolding signal
Step-IsConsistent {s} (call_enqueue key e) c = rw e (enqueue-IsConsistent s key c)
Step-IsConsistent {s} (call_shutdown e) c = rw e (shutdown-IsConsistent s c)
Step-IsConsistent {s} (send m e) c =
    rw e (record { no_repeat = c.no_repeat; same_set = c.same_set; awake = λ w n. inl refl })
Step-IsConsistent {s} (close_stop e) c =
    rw e (record { no_repeat = c.no_repeat; same_set = c.same_set; awake = c.awake })
Step-IsConsistent {s} (take {key} {q} w p e) c =
    rw e (take-IsConsistent s (s.synced ++ key ∷ []) w p c)
Step-IsConsistent {s} (go_idle w p e) c = rw e (record {
  no_repeat = c.no_repeat;
  same_set = c.same_set;
  awake = λ v n. absurd (n (pop_items-none s.queue.items s.queue (unfold pop in p)));
})
Step-IsConsistent {s} (wake_up w t e) c =
    rw e (record { no_repeat = c.no_repeat; same_set = c.same_set; awake = λ v n. absurd (cc v) })
Step-IsConsistent {s} (stop w p e) c = rw e (end_run-IsConsistent s c)

-- Whatever the interleaving of the worker with its callers, from the empty queue on: no key is
-- queued twice, the pending set is that of the queued keys, and a worker that waits while keys are
-- queued has a token to wake it, or a call is about to send one.
pub Reach-IsConsistent : {s : System} → Reach s → IsConsistent s
unfolding initial
Reach-IsConsistent here = record {
  no_repeat = tt;
  same_set = λ k. unfold lookup any in refl;
  awake = λ w n. absurd (n refl);
}
Reach-IsConsistent (next r st) = Step-IsConsistent st (Reach-IsConsistent r)
