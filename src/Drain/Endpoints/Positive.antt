-- ===== src/Drain/Endpoints/Positive.antt =====
-- The weights that the drain manager owns over its whole life (drain_recovery.go, haproxy.go).
use load_balancer_controller.Base.{
  Bool, List, [], ◌∷◌, ◌≡◌, inl, inr, Bool-cases, is_empty, is_some, All,
}
use load_balancer_controller.Base.Text.{Text, codes, text_eq}
use load_balancer_controller.Base.Dict.{Dict, lookup}
use load_balancer_controller.Base.Outcome.{Outcome, ok, err}
use load_balancer_controller.Config.{Endpoint, LoadBalancerConfig}
use load_balancer_controller.Drain.State.{DrainMgr, ServerState}
use load_balancer_controller.Drain.Runtime.{Env, Log, Reply, Fault, read_pid}
use load_balancer_controller.Drain.Desired.{set_desired}
use load_balancer_controller.Drain.Servers.{read_server_states}
use load_balancer_controller.Drain.Mark.{drain_endpoint}
use load_balancer_controller.Drain.Stats.{read_current_stats, older_pid_exists}
use load_balancer_controller.Drain.Reconcile.{reconcile_drains}
use load_balancer_controller.Drain.Reconcile.Positive.{
  HasWeights, drain_endpoint-HasWeights, reconcile_drains-HasWeights,
}
use load_balancer_controller.Drain.Endpoints.{
  settle, after_marking, after_states, after_stats, list_endpoint, add_endpoint_for_drain,
  remove_endpoint_from_drain, drain_with_pid, drain,
}

-- The managers that the operations lead to, from one that owns nothing, in any order and whatever
-- HAProxy answers.
pub data Reach : DrainMgr → Type 0 where
  begun : {dm : DrainMgr} → dm.weights ≡ [] → Reach dm
  desired :
      (cfg : LoadBalancerConfig) {dm dm' : DrainMgr}
      → Reach dm
      → dm' ≡ set_desired cfg dm
      → Reach dm'
  drained :
      (env : Env) (ep : Endpoint) (log : Log) {dm dm' : DrainMgr}
      → Reach dm
      → dm' ≡ (drain env ep dm log).1
      → Reach dm'
  released :
      (ep : Endpoint) {dm dm' : DrainMgr}
      → Reach dm
      → dm' ≡ remove_endpoint_from_drain ep dm
      → Reach dm'
  reconciled :
      (env : Env) (blocked : Bool) (log : Log) {dm dm' : DrainMgr}
      → Reach dm
      → dm' ≡ (reconcile_drains env blocked dm log).0
      → Reach dm'

module _ (env : Env) where
  settle-HasWeights :
      (name pid scur : Text) (dm : DrainMgr) (log : Log)
      → All HasWeights dm.weights
      → All HasWeights (settle env name pid scur dm log).1.weights
  unfolding settle list_endpoint
  settle-HasWeights name pid scur dm log a = elim (Bool-cases (text_eq scur (codes "0"))) [
    | inl e ↦ elim (Bool-cases (older_pid_exists env log).0) [
      | inl f ↦ rw (e, f) a
      | inr f ↦ rw (e, f) a
    ]
    | inr e ↦ rw e a
  ]

  after_marking-HasWeights :
      (name pid scur : Text) (r : DrainMgr × List Fault × Log)
      → All HasWeights r.0.weights
      → All HasWeights (after_marking env name pid scur r).1.weights
  unfolding after_marking
  after_marking-HasWeights name pid scur (dm, [], log) a = settle-HasWeights name pid scur dm log a
  after_marking-HasWeights name pid scur (dm, e ∷ faults, log) a = a

  after_states-HasWeights :
      (name pid scur : Text) (dm : DrainMgr) (r : Reply (Dict ServerState))
      → All HasWeights dm.weights
      → All HasWeights (after_states env name pid scur dm r).1.weights
  unfolding after_states
  after_states-HasWeights name pid scur dm (err e, log) a = a
  after_states-HasWeights name pid scur dm (ok states, log) a =
      after_marking-HasWeights name pid scur (drain_endpoint env name pid states dm log)
        (drain_endpoint-HasWeights env name pid states dm log a)

  after_stats-HasWeights :
      (name pid : Text) (dm : DrainMgr) (r : Reply (Text × List Text))
      → All HasWeights dm.weights
      → All HasWeights (after_stats env name pid dm r).1.weights
  unfolding after_stats
  after_stats-HasWeights name pid dm (err e, log) a = a
  after_stats-HasWeights name pid dm (ok (scur, names), log) a =
      after_states-HasWeights name pid scur dm (read_server_states env log) a

  add_endpoint-HasWeights :
      (ep : Endpoint) (pid : Text) (dm : DrainMgr) (log : Log)
      → All HasWeights dm.weights
      → All HasWeights (add_endpoint_for_drain env ep pid dm log).1.weights
  unfolding add_endpoint_for_drain
  add_endpoint-HasWeights ep pid dm log a = elim (Bool-cases (is_empty ep.name)) [
    | inl e ↦ rw e a
    | inr e ↦ elim (Bool-cases (is_some (lookup ep.name dm.drain_list))) [
      | inl f ↦ rw (e, f) a
      | inr f ↦
          rw (e, f) (after_stats-HasWeights ep.name pid dm (read_current_stats env ep.name log) a)
    ]
  ]

  drain_with_pid-HasWeights :
      (ep : Endpoint) (pid : Outcome Fault Text) (dm : DrainMgr) (log : Log)
      → All HasWeights dm.weights
      → All HasWeights (drain_with_pid env ep pid dm log).1.weights
  unfolding drain_with_pid
  drain_with_pid-HasWeights ep (err e) dm log a = a
  drain_with_pid-HasWeights ep (ok pid) dm log a = add_endpoint-HasWeights ep pid dm log a

remove-HasWeights :
    (ep : Endpoint) (dm : DrainMgr)
    → All HasWeights dm.weights
    → All HasWeights (remove_endpoint_from_drain ep dm).weights
unfolding remove_endpoint_from_drain
remove-HasWeights ep dm a = elim (Bool-cases (is_empty ep.name)) [ inl e ↦ rw e a | inr e ↦ rw e a ]

-- Whatever configurations, drains, releases and reconciliations a manager that began with nothing
-- has gone through, and whatever HAProxy answered: no weight that it has saved is zero.
pub Reach-HasWeights : {dm : DrainMgr} → Reach dm → All HasWeights dm.weights
unfolding set_desired drain
Reach-HasWeights (begun e) = rw e tt
Reach-HasWeights (desired cfg {dm = dm} r e) = rw e (Reach-HasWeights r)
Reach-HasWeights (drained env ep log {dm = dm} r e) =
    rw e (drain_with_pid-HasWeights env ep (read_pid env log) dm log (Reach-HasWeights r))
Reach-HasWeights (released ep {dm = dm} r e) = rw e (remove-HasWeights ep dm (Reach-HasWeights r))
Reach-HasWeights (reconciled env blocked log {dm = dm} r e) =
    rw e (reconcile_drains-HasWeights env blocked dm log (Reach-HasWeights r))
