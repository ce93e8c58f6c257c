-- ===== src/Events/Blocking.antt =====
-- The blocking worker pool of worker.go (`NonSkippingWorkerPool`): a caller that hands over a row of
-- events waits for a worker at each.
use load_balancer_controller.Base.{
  ℕ, ◌+◌, List, [], ◌∷◌, ◌++◌, ◌≡◌, refl, sym, ap, ◌∙◌, arith, length, length-append,
}
use load_balancer_controller.Events.{Event}
use load_balancer_controller.Events.Pool.{fill, fill-length}
use mathlib.Core.List.{append_assoc}

pub record BlockingPool : Type 0 where
  -- the workers that the goroutine has yet to put into the channel
  pub starting : List ℕ
  -- the channel `workers`
  pub free : List ℕ
  pub busy : List (ℕ × Event)
  -- the events that the caller has yet to hand over, and those that a worker got, in order
  pub incoming : List Event
  pub begun : List Event

unfoldable pub new_blocking_pool : ℕ → List Event → BlockingPool
unfolding fill
new_blocking_pool size events = record {
  starting = fill 0 size;
  free = [];
  busy = [];
  incoming = events;
  begun = [];
}

-- The goroutine puts a worker into the channel, `HandleWork` takes one for its event, or a worker
-- ends and goes back.
pub data Step (p : BlockingPool) : BlockingPool → Type 0 where
  start :
      {w : ℕ} {rest : List ℕ} {q : BlockingPool}
      → p.starting ≡ w ∷ rest
      → q ≡ record p { starting = rest; free = p.free ++ w ∷ [] }
      → Step p q
  handle_work :
      {w : ℕ} {free : List ℕ} {event : Event} {incoming : List Event} {q : BlockingPool}
      → p.free ≡ w ∷ free
      → p.incoming ≡ event ∷ incoming
      → q ≡ record p {
        free = free;
        busy = (w, event) ∷ p.busy;
        incoming = incoming;
        begun = p.begun ++ event ∷ [];
      }
      → Step p q
  finish :
      (before later : List (ℕ × Event)) (w : ℕ) (event : Event) {q : BlockingPool}
      → p.busy ≡ before ++ (w, event) ∷ later
      → q ≡ record p { free = p.free ++ w ∷ []; busy = before ++ later }
      → Step p q

pub data Reach (size : ℕ) (events : List Event) : BlockingPool → Type 0 where
  here : {p : BlockingPool} → p ≡ new_blocking_pool size events → Reach size events p
  next : {p q : BlockingPool} → Reach size events p → Step p q → Reach size events q

abbrev workers : BlockingPool → ℕ
workers p = length p.starting + length p.free + length p.busy

-- No worker is lost, and no event is dropped or overtaken.
pub record IsWhole (size : ℕ) (events : List Event) (p : BlockingPool) : Type 0 where
  pub all_workers : workers p ≡ size
  pub in_order : p.begun ++ p.incoming ≡ events

Step-IsWhole :
    {size : ℕ} {events : List Event} {p q : BlockingPool}
    → Step p q
    → IsWhole size events p
    → IsWhole size events q
Step-IsWhole {p = p} (start {w} {rest} s e) h = rw e (record {
  all_workers = omega (arith, h.all_workers, ap length s, length-append p.free (w ∷ []));
  in_order = h.in_order;
})
Step-IsWhole {p = p} (handle_work {w} {free} {event} {incoming} f i e) h = rw e (record {
  all_workers = omega (arith, h.all_workers, ap length f);
  in_order =
      append_assoc p.begun (event ∷ []) incoming ∙ ap (λ es. p.begun ++ es) (sym i) ∙ h.in_order;
})
Step-IsWhole {p = p} (finish before later w event b e) h = rw e (record {
  all_workers = omega (
    arith,
    h.all_workers,
    ap length b,
    length-append p.free (w ∷ []),
    length-append before later,
    length-append before ((w, event) ∷ later),
  );
  in_order = h.in_order;
})

-- Whatever the interleaving, the blocking pool keeps all its workers, and the events that workers
-- got and those that wait for one are the events of the caller, in their order.
pub Reach-IsWhole :
    {size : ℕ} {events : List Event} {p : BlockingPool}
    → Reach size events p
    → IsWhole size events p
Reach-IsWhole {size} (here e) = rw e (record {
  all_workers = unfold new_blocking_pool in omega (arith, fill-length 0 size);
  in_order = unfold new_blocking_pool in refl;
})
Reach-IsWhole (next r st) = Step-IsWhole st (Reach-IsWhole r)
