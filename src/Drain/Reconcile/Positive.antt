-- ===== src/Drain/Reconcile/Positive.antt =====
-- The saved weights that `drainEndpoint` and `reconcileDrains` leave, compared with zero.
use load_balancer_controller.Base.{
  ◌<◌, Bool, not, ◌||◌, ◌&&◌, Option, some, none, [], ◌∷◌, ◌≡◌, refl, arith, inl, inr, Bool-cases,
  is_some, is_empty, All,
}
use load_balancer_controller.Base.Text.{Text, text_eq}
use load_balancer_controller.Base.Dict.{Dict, lookup, All-insert}
use load_balancer_controller.Base.Outcome.{Outcome, ok, err}
use load_balancer_controller.Drain.State.{
  ServerState, DrainWeight, DesiredEndpoint, Weights, DrainMgr,
}
use load_balancer_controller.Drain.Runtime.{Log, Env, Fault}
use load_balancer_controller.Drain.Mark.{
  Sweep, claim, skipped, mark_server, mark_step, mark_servers, weights_or_new, drain_endpoint,
}
use load_balancer_controller.Drain.Reconcile.{
  Pass, sweep, sweep_all, reconcile_with, reconcile_in, reconcile_desired, reconcile_drains,
  entries, kept_name,
}
use load_balancer_controller.Drain.Reconcile.Provenance.{perform-SameOwner}

abbrev pub IsPositive : Text × DrainWeight → Type 0
IsPositive e = 0 < e.1.weight

abbrev pub HasWeights : Text × Weights → Type 0
HasWeights e = All IsPositive e.1

All-lookup :
    (k : Text) (m : Weights) {w : DrainWeight}
    → lookup k m ≡ some w
    → All IsPositive m
    → 0 < w.weight
unfolding lookup
All-lookup k [] h a = absurd (cc h)
All-lookup k ((j, v) ∷ m) {w} h a = elim (Bool-cases (text_eq j k)) [
  | inl e ↦ let f : some v ≡ some w = rw e at h in let g : 0 < v.weight = a.0 in ground arith
  | inr e ↦ All-lookup k m (rw e at h) a.1
]

claim-IsPositive :
    (pid : Text) (s : ServerState) (o : Option DrainWeight)
    → 0 < s.weight
    → ((w : DrainWeight) → o ≡ some w → 0 < w.weight)
    → 0 < (claim pid s o).weight
unfolding claim
claim-IsPositive pid s none h k = h
claim-IsPositive pid s (some w) h k = k w refl

mark_step-IsPositive :
    (env : Env) (name pid key : Text) (s : ServerState) (w : Sweep)
    → All IsPositive w.weights
    → All IsPositive (mark_step env name pid key s w).weights
unfolding mark_step
mark_step-IsPositive env name pid key s w a = elim (Bool-cases (skipped env name pid s)) [
  | inl e ↦ rw e a
  | inr e ↦ rw e (
      unfold mark_server in
      All-insert IsPositive key _ w.weights
        (claim-IsPositive pid s (lookup key w.weights) (unfold skipped in ground arith)
          (λ o f. All-lookup key w.weights f a))
        a)
]

mark_servers-IsPositive :
    (env : Env) (name pid : Text) (states : Dict ServerState) (w : Sweep)
    → All IsPositive w.weights
    → All IsPositive (mark_servers env name pid states w).weights
unfolding mark_servers
mark_servers-IsPositive env name pid [] w a = a
mark_servers-IsPositive env name pid ((key, s) ∷ states) w a =
    mark_servers-IsPositive env name pid states _ (mark_step-IsPositive env name pid key s w a)

start-IsPositive :
    (name : Text) (m : Dict Weights)
    → All HasWeights m
    → All IsPositive (weights_or_new (lookup name m))
unfolding lookup
start-IsPositive name [] a = tt
start-IsPositive name ((j, ws) ∷ m) a = elim (Bool-cases (text_eq j name)) [
  | inl e ↦ rw e a.0
  | inr e ↦ rw e (start-IsPositive name m a.1)
]

-- `drainEndpoint` saves no zero weight.
pub drain_endpoint-HasWeights :
    (env : Env) (name pid : Text) (states : Dict ServerState) (dm : DrainMgr) (log : Log)
    → All HasWeights dm.weights
    → All HasWeights (drain_endpoint env name pid states dm log).0.weights
unfolding drain_endpoint
drain_endpoint-HasWeights env name pid states dm log a =
    All-insert HasWeights name _ dm.weights
      (mark_servers-IsPositive env name pid states _ (start-IsPositive name dm.weights a)) a

entries-IsPositive :
    (key : Text) (o : Option DrainWeight) (rest : Weights)
    → ((w : DrainWeight) → o ≡ some w → 0 < w.weight)
    → All IsPositive rest
    → All IsPositive (entries key o rest)
entries-IsPositive key none rest h a = a
entries-IsPositive key (some w) rest h a = (h w refl, a)

sweep-IsPositive :
    (p : Pass) (active : Bool) (ws : Weights) (log : Log)
    → All IsPositive ws
    → All IsPositive (sweep p active ws log).weights
unfolding sweep
sweep-IsPositive p active [] log a = tt
sweep-IsPositive p active ((key, w) ∷ ws) log a =
    entries-IsPositive key _ _
      (λ kept e. let same = perform-SameOwner p key w log active e in ground arith)
      (sweep-IsPositive p active ws _ a.1)

kept_name-HasWeights :
    (active : Bool) (name : Text) (ws : Weights) (rest : Dict Weights)
    → All IsPositive ws
    → All HasWeights rest
    → All HasWeights (kept_name active name ws rest)
kept_name-HasWeights active name ws rest h a = elim (Bool-cases (not active && is_empty ws)) [
  | inl e ↦ rw e a
  | inr e ↦ rw e (h, a)
]

sweep_all-HasWeights :
    (p : Pass) (dl : Dict Text) (all : Dict Weights) (log : Log)
    → All HasWeights all
    → All HasWeights (sweep_all p dl all log).weights
unfolding sweep_all
sweep_all-HasWeights p dl [] log a = tt
sweep_all-HasWeights p dl ((name, ws) ∷ all) log a =
    kept_name-HasWeights (is_some (lookup name dl)) name _ _
      (sweep-IsPositive p (is_some (lookup name dl)) ws log a.0)
      (sweep_all-HasWeights p dl all _ a.1)

reconcile_with-HasWeights :
    (env : Env) (dm : DrainMgr) (desired : Dict DesiredEndpoint) (pid : Text)
    (r : Outcome Fault (Dict ServerState)) (log : Log)
    → All HasWeights dm.weights
    → All HasWeights (reconcile_with env dm desired pid r log).0.weights
unfolding reconcile_with
reconcile_with-HasWeights env dm desired pid (err e) log a = a
reconcile_with-HasWeights env dm desired pid (ok states) log a =
    let p : Pass = record { env = env; pid = pid; desired = desired; states = states } in
    sweep_all-HasWeights p dm.drain_list dm.weights log a

reconcile_in-HasWeights :
    (env : Env) (dm : DrainMgr) (desired : Dict DesiredEndpoint) (r : Outcome Fault Text)
    (log : Log)
    → All HasWeights dm.weights
    → All HasWeights (reconcile_in env dm desired r log).0.weights
unfolding reconcile_in
reconcile_in-HasWeights env dm desired (err e) log a = a
reconcile_in-HasWeights env dm desired (ok pid) log a =
    reconcile_with-HasWeights env dm desired pid _ _ a

reconcile_desired-HasWeights :
    (env : Env) (dm : DrainMgr) (od : Option (Dict DesiredEndpoint)) (log : Log)
    → All HasWeights dm.weights
    → All HasWeights (reconcile_desired env dm od log).0.weights
unfolding reconcile_desired
reconcile_desired-HasWeights env dm none log a = a
reconcile_desired-HasWeights env dm (some desired) log a =
    reconcile_in-HasWeights env dm desired _ log a

-- A reconciliation pass leaves no owned weight at zero, if none was before.
pub reconcile_drains-HasWeights :
    (env : Env) (blocked : Bool) (dm : DrainMgr) (log : Log)
    → All HasWeights dm.weights
    → All HasWeights (reconcile_drains env blocked dm log).0.weights
unfolding reconcile_drains
reconcile_drains-HasWeights env blocked dm log a =
    elim (Bool-cases (blocked || is_empty dm.weights)) [
      | inl e ↦ rw e a
      | inr e ↦ rw e (reconcile_desired-HasWeights env dm dm.desired log a)
    ]
