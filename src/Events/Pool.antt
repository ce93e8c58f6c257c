-- ===== src/Events/Pool.antt =====
-- The skipping worker pool of worker.go: the channel of worker numbers, the events at work, and
-- the events that were dropped.
use load_balancer_controller.Base.{
  ℕ, zero, suc, ◌+◌, List, [], ◌∷◌, ◌++◌, ◌≡◌, ◌≢◌, refl, ap, ◌∙◌, arith, length, length-append,
}
use load_balancer_controller.Events.{Event}

pub record Pool : Type 0 where
  -- the channel `workers`
  pub free : List ℕ
  pub busy : List (ℕ × Event)
  pub dropped : List Event

-- The loop of `SkippingWorkerPool` that fills the channel, from the number `i` on.
unfoldable pub fill : ℕ → ℕ → List ℕ
fill i zero = []
fill i (suc n) = i ∷ fill (suc i) n

unfoldable pub new_pool : ℕ → Pool
unfolding fill
new_pool size = record { free = fill 0 size; busy = []; dropped = [] }

take_worker : List ℕ → Event → Pool → Pool
take_worker [] event p = record p { dropped = event ∷ p.dropped }
take_worker (w ∷ free) event p = record p { free = free; busy = (w, event) ∷ p.busy }

-- `HandleWork`
unfoldable pub handle_work : Event → Pool → Pool
unfolding take_worker
handle_work event p = take_worker p.free event p

-- What goes on: an event comes, or a worker ends with its event and goes back to the channel.
pub data Step (p : Pool) : Pool → Type 0 where
  arrive : (event : Event) {q : Pool} → q ≡ handle_work event p → Step p q
  finish :
      (before later : List (ℕ × Event)) (w : ℕ) (event : Event) {q : Pool}
      → p.busy ≡ before ++ (w, event) ∷ later
      → q ≡ record p { free = p.free ++ w ∷ []; busy = before ++ later }
      → Step p q

pub data Reach (size : ℕ) : Pool → Type 0 where
  here : {p : Pool} → p ≡ new_pool size → Reach size p
  next : {p q : Pool} → Reach size p → Step p q → Reach size q

pub fill-length : (i n : ℕ) → length (fill i n) ≡ n
unfolding fill
fill-length i zero = refl
fill-length i (suc n) = ap suc (fill-length (suc i) n)

abbrev total : Pool → ℕ
total p = length p.free + length p.busy

take_worker-total :
    (free : List ℕ) (event : Event) (p : Pool)
    → p.free ≡ free
    → total (take_worker free event p) ≡ total p
unfolding take_worker
take_worker-total [] event p h = refl
take_worker-total (w ∷ free) event p h = rw h (omega arith)

finish_total :
    (free : List ℕ) (before later : List (ℕ × Event)) (w : ℕ) (event : Event)
    → length (free ++ w ∷ []) + length (before ++ later)
      ≡ length free + length (before ++ (w, event) ∷ later)
finish_total free before later w event = omega (
  arith,
  length-append free (w ∷ []),
  length-append before later,
  length-append before ((w, event) ∷ later),
)

Step-total : {p q : Pool} → Step p q → total q ≡ total p
Step-total {p} (arrive event e) = rw e (unfold handle_work in take_worker-total p.free event p refl)
Step-total {p} (finish before later w event b e) =
    rw (e, b) (finish_total p.free before later w event)

-- Workers are neither lost nor made: at any time the free ones and the busy ones are as many as
-- the pool was made with, so at most that many events are at work.
pub Reach-total : {size : ℕ} {p : Pool} → Reach size p → length p.free + length p.busy ≡ size
Reach-total {size} (here e) = rw e (unfold new_pool in omega (arith, fill-length 0 size))
Reach-total (next r st) = Step-total st ∙ Reach-total r

take_worker-dropped :
    (free : List ℕ) (event : Event) (p : Pool)
    → (take_worker free event p).dropped ≢ p.dropped
    → length free ≡ 0
unfolding take_worker
take_worker-dropped [] event p h = refl
take_worker-dropped (w ∷ free) event p h = absurd (h refl)

-- An event is dropped only while every worker is busy.
pub handle_work-dropped :
    {size : ℕ} {p : Pool} (event : Event)
    → Reach size p
    → (handle_work event p).dropped ≢ p.dropped
    → length p.busy ≡ size
unfolding handle_work
handle_work-dropped {size} {p} event r h =
    omega (arith, take_worker-dropped p.free event p h, Reach-total r)
