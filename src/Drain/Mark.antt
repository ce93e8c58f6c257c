-- ===== src/Drain/Mark.antt =====
-- `drainEndpoint` of drain_recovery.go: take ownership of the weights of an endpoint's servers,
-- and set them to zero.
pub mod Ownership
use load_balancer_controller.Base.{
  ℕ, ◌==◌, Bool, true, false, not, ◌||◌, Option, none, some, List, [], ◌∷◌, ◌++◌, if◌then◌else◌,
}
use load_balancer_controller.Base.Text.{Text, pos, text_eq}
use load_balancer_controller.Base.Dict.{Dict, insert, lookup}
use load_balancer_controller.Base.Outcome.{Outcome, ok, err}
use load_balancer_controller.Drain.State.{ServerState, DrainWeight, Weights, DrainMgr}
use load_balancer_controller.Drain.Runtime.{Env, Log, Fault}
use load_balancer_controller.Drain.Servers.{set_weight_verified}

-- What a sweep over the servers leaves: the owned weights, the failures, the commands given.
pub record Sweep : Type 0 where
  pub weights : Weights
  pub faults : List Fault
  pub log : Log

-- A new owner keeps the weights as seen; an old one only moves to this process.
unfoldable pub claim : Text → ServerState → Option DrainWeight → DrainWeight
claim pid s none = record {
  weight = s.weight;
  initial_weight = s.initial_weight;
  pid = pid;
  stopping_reload = false;
  retry = false;
}
claim pid s (some owned) = record owned { pid = pid }

abbrev pub fault_of : Outcome Fault (Unit {0}) → List Fault
fault_of (ok _) = []
fault_of (err e) = e ∷ []

module _ (env : Env) (name pid : Text) where
  -- The servers that the sweep leaves alone.
  unfoldable pub skipped : ServerState → Bool
  unfolding text_eq
  skipped s = not (text_eq s.name name) || not (s.admin == 0) || s.weight == 0

  -- One round of the loop, on a server that is not skipped.
  unfoldable pub mark_server : Text → ServerState → Sweep → Sweep
  unfolding claim insert lookup set_weight_verified
  mark_server key s w =
      let owned = insert key (claim pid s (lookup key w.weights)) w.weights in
      let (r, log') = set_weight_verified env key (pos 0) w.log in
      record { weights = owned; faults = w.faults ++ fault_of r; log = log' }

  unfoldable pub mark_step : Text → ServerState → Sweep → Sweep
  unfolding mark_server skipped
  mark_step key s w = if skipped s then w else mark_server key s w

  unfoldable pub mark_servers : Dict ServerState → Sweep → Sweep
  unfolding mark_step
  mark_servers [] w = w
  mark_servers ((key, s) ∷ states) w = mark_servers states (mark_step key s w)

abbrev pub weights_or_new : Option Weights → Weights
weights_or_new none = []
weights_or_new (some w) = w

-- The manager with its new weights, the failures, and the commands given.
unfoldable pub drain_endpoint :
    Env → Text → Text → Dict ServerState → DrainMgr → Log → DrainMgr × List Fault × Log
unfolding mark_servers lookup insert
drain_endpoint env name pid states dm log =
    let start = weights_or_new (lookup name dm.weights) in
    let w = mark_servers env name pid states (record { weights = start; faults = []; log = log }) in
    (record dm { weights = insert name w.weights dm.weights }, w.faults, w.log)
