-- ===== src/TaskQueue/Fifo.antt =====
-- The order of the work: the keys handed to `sync`, those that wait, and those that `Enqueue`
-- accepted.
use load_balancer_controller.Base.{
  true, some, List, [], ◌∷◌, ◌++◌, ◌≡◌, refl, sym, ap, ◌∙◌, inl, inr, arith, if◌then◌else◌,
  Bool-cases,
}
use load_balancer_controller.Base.Text.{Text}
use load_balancer_controller.TaskQueue.{TaskQueue, pop, refuses, put, signal, halt, end_run}
use load_balancer_controller.TaskQueue.Steps.{
  System, Step, begin_enqueue, begin_shutdown, call_enqueue, call_shutdown, send, close_stop, take,
  go_idle, wake_up, stop, pop-some,
}
use mathlib.Core.List.{append_assoc, append-nil}

abbrev pub history : System → List Text
history s = s.synced ++ s.queue.items

-- What a step adds to the history.
abbrev pub accepted_by : {s t : System} → Step s t → List Text
accepted_by {s} (call_enqueue key e) = if refuses key s.queue then [] else key ∷ []
accepted_by (call_shutdown e) = []
accepted_by (send m e) = []
accepted_by (close_stop e) = []
accepted_by (take w p e) = []
accepted_by (go_idle w p e) = []
accepted_by (wake_up w t e) = []
accepted_by (stop w p e) = []

-- A run of steps, with all that `Enqueue` accepted in it.
pub data Run (s : System) : List Text → System → Type 0 where
  start : Run s [] s
  after :
      {keys all : List Text} {t u : System}
      → Run s keys t
      → (st : Step t u) → all ≡ keys ++ accepted_by st
      → Run s all u

begin_enqueue-history :
    (key : Text) (s : System)
    → history (begin_enqueue key s) ≡ history s ++ (if refuses key s.queue then [] else key ∷ [])
unfolding begin_enqueue put
begin_enqueue-history key s = elim (Bool-cases (refuses key s.queue)) [
  | inl e ↦ rw e (sym (append-nil (history s)))
  | inr e ↦ rw e (sym (append_assoc s.synced s.queue.items (key ∷ [])))
]

begin_shutdown-history : (s : System) → history (begin_shutdown s) ≡ history s
unfolding begin_shutdown halt
begin_shutdown-history s = ground arith

end_run-items : (q : TaskQueue) → (end_run q).items ≡ q.items
unfolding end_run halt
end_run-items q = ground arith

taken-history :
    (synced : List Text) (q : TaskQueue) {key : Text} {q' : TaskQueue}
    → pop q ≡ some (key, q')
    → (synced ++ key ∷ []) ++ q'.items ≡ synced ++ q.items
taken-history synced q {key} p =
    let (rest, items, same) = pop-some q p in
    rw (ap (λ (x : TaskQueue). x.items) same, items) (append_assoc synced (key ∷ []) rest)

Step-history : {s t : System} (st : Step s t) → history t ≡ history s ++ accepted_by st
Step-history {s} (call_enqueue key e) = rw e (begin_enqueue-history key s)
Step-history {s} (call_shutdown e) = rw e (begin_shutdown-history s ∙ sym (append-nil (history s)))
Step-history {s} (send m e) = rw e (unfold signal in sym (append-nil (history s)))
Step-history {s} (close_stop e) = rw e (sym (append-nil (history s)))
Step-history {s} (take w p e) =
    rw e (taken-history s.synced s.queue p ∙ sym (append-nil (history s)))
Step-history {s} (go_idle w p e) = rw e (sym (append-nil (history s)))
Step-history {s} (wake_up w t e) = rw e (sym (append-nil (history s)))
Step-history {s} (stop w p e) = rw (e, end_run-items) (sym (append-nil (history s)))

-- First in, first out, each key once for each time it was accepted: over any run, the keys handed
-- to `sync` and then the keys that wait are those of the start, with the accepted ones behind.
pub Run-history : {s t : System} {keys : List Text} → Run s keys t → history t ≡ history s ++ keys
Run-history {s} start = sym (append-nil (history s))
Run-history {s} (after {keys} r st e) =
    Step-history st
    ∙ ap (λ (l : List Text). l ++ accepted_by st) (Run-history r)
    ∙ append_assoc (history s) keys (accepted_by st)
    ∙ ap (λ (l : List Text). history s ++ l) (sym e)

pop-stopped :
    (q : TaskQueue) {key : Text} {q' : TaskQueue} → pop q ≡ some (key, q') → q'.stopped ≡ q.stopped
pop-stopped q p = let (rest, items, same) = pop-some q p in ap (λ (x : TaskQueue). x.stopped) same

Step-stopped :
    {s t : System} (st : Step s t)
    → s.queue.stopped ≡ true
    → (t.queue.stopped ≡ true) × (accepted_by st ≡ [])
Step-stopped {s} (call_enqueue key e) h =
    rw e (unfold begin_enqueue put refuses in ground arith, unfold refuses in ground arith)
Step-stopped {s} (call_shutdown e) h = rw e (unfold begin_shutdown halt in ground arith, refl)
Step-stopped {s} (send m e) h = rw e (unfold signal in h, refl)
Step-stopped {s} (close_stop e) h = rw e (h, refl)
Step-stopped {s} (take w p e) h = rw e (pop-stopped s.queue p ∙ h, refl)
Step-stopped {s} (go_idle w p e) h = rw e (h, refl)
Step-stopped {s} (wake_up w t e) h = rw e (h, refl)
Step-stopped {s} (stop w p e) h = rw e (unfold end_run halt in ground arith, refl)

Run-still :
    {s t : System} {keys : List Text}
    → Run s keys t
    → s.queue.stopped ≡ true
    → (t.queue.stopped ≡ true) × (keys ≡ [])
Run-still start h = (h, refl)
Run-still (after r st e) h =
    let (q, none_before) = Run-still r h in
    let (q', none_now) = Step-stopped st q in (q', rw (e, none_before, none_now))

-- Once the queue was shut down, whatever is called and in whatever order the goroutines go on: it
-- stays shut down, and the keys handed to `sync` and then the keys that wait are together what they
-- were, so that a key of a later call is neither queued nor ever handed to `sync`.
pub Run-stopped :
    {s t : System} {keys : List Text}
    → Run s keys t
    → s.queue.stopped ≡ true
    → (t.queue.stopped ≡ true) × (t.synced ++ t.queue.items ≡ s.synced ++ s.queue.items)
Run-stopped {s} r h =
    let (stopped, nothing) = Run-still r h in
    (
      stopped,
      Run-history r ∙ ap (λ (l : List Text). history s ++ l) nothing ∙ append-nil (history s),
    )
