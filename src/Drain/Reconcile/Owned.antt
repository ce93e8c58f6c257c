-- ===== src/Drain/Reconcile/Owned.antt =====
-- What a whole pass of `reconcileDrains` sends, over all endpoints.
use load_balancer_controller.Base.{
  Bool, ◌||◌, Option, some, none, [], ◌∷◌, ◌≡◌, refl, inl, inr, Bool-cases, is_some, is_empty,
}
use load_balancer_controller.Base.Text.{Text, ℤ}
use load_balancer_controller.Base.Dict.{Dict, lookup}
use load_balancer_controller.Base.Outcome.{Outcome, ok, err}
use load_balancer_controller.Drain.State.{
  ServerState, DrainWeight, DesiredEndpoint, Weights, DrainMgr,
}
use load_balancer_controller.Drain.Runtime.{
  Command, show_servers_state, set_weight, Log, Env, Fault, read_pid,
}
use load_balancer_controller.Drain.Servers.{read_server_states, read_server_states-log}
use load_balancer_controller.Drain.Reconcile.Extends.{
  Extends, same, more, Extends-trans, Extends-map,
}
use load_balancer_controller.Drain.Reconcile.Actions.{Chosen}
use load_balancer_controller.Drain.Reconcile.Safety.{Justified, looking, setting, sweep-Justified}
use load_balancer_controller.Drain.Reconcile.{
  Pass, sweep_all, reconcile_with, reconcile_in, reconcile_desired, reconcile_drains,
}
use mathlib.Core.List.{Memᴰ}

-- The commands that a pass over all endpoints may send: reads, and weights for servers that the
-- manager owns, decided by the drain list.
pub data Owned (p : Pass) (drain_list : Dict Text) (all : Dict Weights) : Command → Type 0 where
  reading : Owned p drain_list all show_servers_state
  writing :
      (name key : Text) (ws : Weights) (w : DrainWeight) (v : ℤ)
      → Memᴰ (name, ws) all
      → Memᴰ (key, w) ws
      → Chosen p.pid w
          (lookup key p.desired)
          (lookup key p.states)
          (is_some (lookup name drain_list))
          v
      → Owned p drain_list all (set_weight key v)

Owned-tail :
    {p : Pass} {dl : Dict Text} {all : Dict Weights} (e : Text × Weights) (c : Command)
    → Owned p dl all c
    → Owned p dl (e ∷ all) c
Owned-tail e c reading = reading
Owned-tail e c (writing name key ws w v m n h) = writing name key ws w v (Memᴰ.tail m) n h

Owned-of_Justified :
    {p : Pass} {dl : Dict Text} (name : Text) (ws : Weights) (all : Dict Weights) (c : Command)
    → Justified p (is_some (lookup name dl)) ws c
    → Owned p dl ((name, ws) ∷ all) c
Owned-of_Justified name ws all c looking = reading
Owned-of_Justified name ws all c (setting key w v m h) =
    writing name key ws w v (Memᴰ.head refl) m h

sweep_all-Owned :
    (p : Pass) (dl : Dict Text) (all : Dict Weights) (log : Log)
    → Extends (Owned p dl all) log (sweep_all p dl all log).log
unfolding sweep_all
sweep_all-Owned p dl [] log = same
sweep_all-Owned p dl ((name, ws) ∷ all) log =
    Extends-trans
      (Extends-map (Owned-of_Justified name ws all)
        (sweep-Justified p (is_some (lookup name dl)) ws log))
      (Extends-map (Owned-tail (name, ws)) (sweep_all-Owned p dl all _))

-- A command of a pass, with what the pass had read when it sent it.
pub data Sent (env : Env) (dm : DrainMgr) (log : Log) : Command → Type 0 where
  read_states : Sent env dm log show_servers_state
  decided :
      (p : Pass) {c : Command}
      → read_pid env log ≡ ok p.pid
      → (read_server_states env log).0 ≡ ok p.states
      → dm.desired ≡ some p.desired
      → Owned p dm.drain_list dm.weights c
      → Sent env dm log c

reconcile_with-Sent :
    (env : Env) (dm : DrainMgr) (desired : Dict DesiredEndpoint) (pid : Text)
    (r : Outcome Fault (Dict ServerState)) (log log' : Log)
    → dm.desired ≡ some desired
    → read_pid env log ≡ ok pid
    → (read_server_states env log).0 ≡ r
    → Extends (Sent env dm log) log' (reconcile_with env dm desired pid r log').2
unfolding reconcile_with
reconcile_with-Sent env dm desired pid (err e) log log' d h q = same
reconcile_with-Sent env dm desired pid (ok states) log log' d h q =
    let p : Pass = record { env = env; pid = pid; desired = desired; states = states } in
    Extends-map (λ c o. decided p h q d o) (sweep_all-Owned p dm.drain_list dm.weights log')

reconcile_in-Sent :
    (env : Env) (dm : DrainMgr) (desired : Dict DesiredEndpoint) (r : Outcome Fault Text)
    (log : Log)
    → dm.desired ≡ some desired
    → read_pid env log ≡ r
    → Extends (Sent env dm log) log (reconcile_in env dm desired r log).2
unfolding reconcile_in
reconcile_in-Sent env dm desired (err e) log d h = same
reconcile_in-Sent env dm desired (ok pid) log d h =
    Extends-trans (rw (read_server_states-log env log) (more read_states same))
      (reconcile_with-Sent env dm desired pid _ log _ d h refl)

reconcile_desired-Sent :
    (env : Env) (dm : DrainMgr) (od : Option (Dict DesiredEndpoint)) (log : Log)
    → dm.desired ≡ od
    → Extends (Sent env dm log) log (reconcile_desired env dm od log).2
unfolding reconcile_desired
reconcile_desired-Sent env dm none log d = same
reconcile_desired-Sent env dm (some desired) log d = reconcile_in-Sent env dm desired _ log d refl

-- Every command that a reconciliation pass sends reads the server states, or sets the weight of
-- a server whose weight the manager owns: to zero for an endpoint in the drain list, and to the
-- restored weight for one that is not, each only in a state that allows it.
pub reconcile_drains-Sent :
    (env : Env) (blocked : Bool) (dm : DrainMgr) (log : Log)
    → Extends (Sent env dm log) log (reconcile_drains env blocked dm log).2
unfolding reconcile_drains
reconcile_drains-Sent env blocked dm log = elim (Bool-cases (blocked || is_empty dm.weights)) [
  | inl e ↦ rw e same
  | inr e ↦ rw e (reconcile_desired-Sent env dm dm.desired log refl)
]
