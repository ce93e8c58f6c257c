-- ===== src/TaskQueue/Progress.antt =====
-- Progress of the queue: what its worker does by itself with the keys that wait.
use load_balancer_controller.Base.{
  ℕ, zero, suc, ◌<◌, Bool, true, false, some, List, [], ◌∷◌, ◌++◌, ◌≡◌, ◌≢◌, refl, sym, ap, ◌∙◌,
  ◌⊎◌, inl, inr, arith,
}
use load_balancer_controller.Base.Text.{Text}
use load_balancer_controller.Base.Dict.{delete}
use load_balancer_controller.TaskQueue.{TaskQueue, pop, pop_items, signal}
use load_balancer_controller.TaskQueue.Steps.{
  System, Worker, running, waiting, ended, Step, send, take, wake_up, Reach, IsConsistent,
  Reach-IsConsistent,
}
use mathlib.Core.List.{append_assoc, append-nil}

-- The worker takes a key or wakes up, or a call that has begun sends its token.
abbrev pub is_service : {s t : System} → Step s t → Bool
is_service (send m e) = true
is_service (take w p e) = true
is_service (wake_up w t e) = true
is_service _ = false

-- Steps of these kinds only.
pub data Serves : System → System → Type 0 where
  done : {s : System} → Serves s s
  begin : {s t u : System} (st : Step s t) → is_service st ≡ true → Serves t u → Serves s u

-- Every key that waits has been handed to `sync`, in order, behind those of before.
abbrev pub IsServed : System → System → Type 0
IsServed s t = (t.synced ≡ s.synced ++ s.queue.items) × (t.queue.items ≡ [])

take_first :
    (q : TaskQueue) (key : Text) (rest : List Text)
    → q.items ≡ key ∷ rest
    → pop q ≡ some (key, record q { items = rest; pending = delete key q.pending })
unfolding pop pop_items
take_first q key rest h = rw h refl

running-IsServed :
    (items : List Text) (s : System)
    → s.worker ≡ running
    → s.queue.items ≡ items
    → (t : System) × Serves s t × IsServed s t
running-IsServed [] s w h = (s, done, (rw h (sym (append-nil s.synced)), h))
running-IsServed (key ∷ rest) s w h =
    let q : TaskQueue = record (s.queue) { items = rest; pending = delete key s.queue.pending } in
    let s' : System = record s { queue = q; synced = s.synced ++ (key ∷ []) } in
    let (t, steps, (a, b)) = running-IsServed rest s' w refl in
    (
      t,
      begin (take w (take_first s.queue key rest h) refl) refl steps,
      (a ∙ append_assoc s.synced (key ∷ []) rest ∙ ap (λ l. s.synced ++ l) (sym h), b),
    )

woken-IsServed :
    (s : System)
    → s.worker ≡ waiting
    → s.queue.wake ≡ true
    → (t : System) × Serves s t × IsServed s t
woken-IsServed s w k =
    let s' : System = record s { worker = running; queue = record (s.queue) { wake = false } } in
    let (t, steps, d) = running-IsServed s.queue.items s' refl refl in
    (t, begin (wake_up w k refl) refl steps, d)

signalled-IsServed :
    (s : System) (n : ℕ)
    → s.worker ≡ waiting
    → s.signals ≡ suc n
    → (t : System) × Serves s t × IsServed s t
unfolding signal
signalled-IsServed s n w k =
    let s' : System = record s { queue = signal s.queue; signals = n } in
    let (t, steps, d) = woken-IsServed s' w refl in (t, begin (send k refl) refl steps, d)

positive-cases : (n : ℕ) → 0 < n → (m : ℕ) × (n ≡ suc m)
positive-cases zero h = absurd (omega arith)
positive-cases (suc m) h = (m, refl)

waiting-IsServed :
    (items : List Text) (s : System)
    → s.worker ≡ waiting
    → s.queue.items ≡ items
    → IsConsistent s
    → (t : System) × Serves s t × IsServed s t
waiting-IsServed [] s w h c = (s, done, (rw h (sym (append-nil s.synced)), h))
waiting-IsServed (key ∷ rest) s w h c = elim (c.awake w (λ e. absurd (cc (e, h)))) [
  | inl k ↦ woken-IsServed s w k
  | inr l ↦ let (n, k) = positive-cases s.signals l in signalled-IsServed s n w k
]

Worker-cases : (w : Worker) → (w ≡ running) ⊎ ((w ≡ waiting) ⊎ (w ≡ ended))
Worker-cases running = inl refl
Worker-cases waiting = inr (inl refl)
Worker-cases ended = inr (inr refl)

-- Whatever the callers have done so far, as long as the worker has not returned there is a run of
-- steps of its own, and of sends that calls already owe, at the end of which every queued key has
-- been handed to `sync`, in the order of the queue, and no key waits: no wake-up is lost, and no
-- further call is needed.
pub Reach-Serves :
    {s : System} → Reach s → s.worker ≢ ended → (t : System) × Serves s t × IsServed s t
Reach-Serves {s} r alive = elim (Worker-cases s.worker) [
  | inl w ↦ running-IsServed s.queue.items s w refl
  | inr (inl w) ↦ waiting-IsServed s.queue.items s w refl (Reach-IsConsistent r)
  | inr (inr w) ↦ absurd (alive w)
]
