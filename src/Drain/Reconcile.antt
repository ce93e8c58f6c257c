-- ===== src/Drain/Reconcile.antt =====
-- `reconcileDrains` of drain_recovery.go. The two inner loops decide what to do with one owned
-- weight (`active_action`, `idle_action`) and then do it (`perform`).
pub mod Extends
pub mod Actions
pub mod Safety
pub mod Owned
pub mod Provenance
pub mod Positive
pub mod Recovery
use load_balancer_controller.Base.{
  ℕ, ◌==◌, ltb, Bool, true, false, not, ◌&&◌, ◌||◌, Option, none, some, List, [], ◌∷◌, ◌++◌,
  if◌then◌else◌, is_some, is_empty,
}
use load_balancer_controller.Base.Text.{Text, ℤ, pos, text_eq, int_eq}
use load_balancer_controller.Base.Dict.{Dict, insert, lookup, delete}
use load_balancer_controller.Base.Outcome.{Outcome, ok, err}
use load_balancer_controller.Drain.State.{
  ServerState, DesiredEndpoint, DrainWeight, Weights, DrainMgr, operator_owned,
}
use load_balancer_controller.Drain.Runtime.{Env, Log, Fault, read_pid}
use load_balancer_controller.Drain.Servers.{set_weight_verified, read_server_states}
use load_balancer_controller.Drain.Mark.{Sweep, fault_of}

pub data Action : Type 0 where
  -- `delete(weights, key)`
  disown : Action
  -- leave the entry as given
  hold : DrainWeight → Action
  -- claim the entry for this process, and set the weight to zero unless it is zero
  reapply : ServerState → DrainWeight → Action
  -- set the weight unless it has it, and disown on success
  restore : ServerState → DrainWeight → ℤ → Action

-- `desired.disabled || desired.weight == 0 && !desired.temporaryZero
--   || state.admin&operatorAdminState != 0`
unfoldable pub protected : DesiredEndpoint → ServerState → Bool
unfolding int_eq operator_owned
protected d s =
    d.disabled || int_eq d.weight (pos 0) && not d.temporary_zero || operator_owned s.admin

-- A stopping generation: `desired.temporaryZero && desired.weight == 0`.
unfoldable pub stopping : DesiredEndpoint → Bool
unfolding int_eq
stopping d = d.temporary_zero && int_eq d.weight (pos 0)

-- The entry was taken in another process than the one that runs.
unfoldable pub moved_on : Text → DrainWeight → Bool
unfolding text_eq
moved_on pid w = not (text_eq w.pid pid)

-- An active drain that meets a replacement process.
replaced_action : Text → DrainWeight → DesiredEndpoint → ServerState → Action
unfolding stopping int_eq
replaced_action pid w d s =
    if stopping d && s.initial_weight == 0 && s.weight == 0
    then hold (record w { pid = pid; retry = false; stopping_reload = true })
    else if s.weight == 0
    then hold w
    else if not (s.weight == s.initial_weight)
    then disown
    else if not (int_eq (pos s.initial_weight) d.weight)
    then hold w
    else reapply s (record w { pid = pid; retry = true })

-- The inner loop for an endpoint in the drain list.
unfoldable pub active_action :
    Text → DrainWeight → Option DesiredEndpoint → Option ServerState → Action
unfolding replaced_action protected moved_on
active_action pid w (some d) (some s) =
    if protected d s
    then disown
    else if not (s.admin == 0)
    then hold w
    else if not (moved_on pid w) && not w.retry
    then (if not (s.weight == 0) then disown else hold w)
    else if moved_on pid w
    then replaced_action pid w d s
    else reapply s (record w { pid = pid; retry = true })
active_action pid w _ _ = disown

-- A later desired configuration supersedes the old runtime weight.
unfoldable pub restore_weight : DrainWeight → DesiredEndpoint → ℤ
unfolding int_eq
restore_weight w d = if not (int_eq d.weight (pos w.initial_weight)) then d.weight else pos w.weight

-- `runningReload`
unfoldable pub running_reload : Text → DrainWeight → DesiredEndpoint → ServerState → Bool
unfolding moved_on int_eq restore_weight
running_reload pid w d s =
    w.stopping_reload
    && moved_on pid w
    && ltb 0 s.weight
    && int_eq (pos s.initial_weight) d.weight
    && (s.weight == s.initial_weight || int_eq (pos s.weight) (restore_weight w d))

-- The inner loop for an endpoint in a stopping generation.
stopping_action : Text → DrainWeight → ServerState → Action
unfolding moved_on
stopping_action pid w s =
    if not (s.weight == 0)
    then disown
    else if moved_on pid w && s.initial_weight == 0
    then hold (record w { pid = pid; stopping_reload = true })
    else hold w

-- The inner loop for an endpoint that is not in the drain list any more.
unfoldable pub idle_action :
    Text → DrainWeight → Option DesiredEndpoint → Option ServerState → Action
unfolding stopping_action protected stopping running_reload restore_weight moved_on
idle_action pid w (some d) (some s) =
    if protected d s
    then disown
    else if stopping d
    then stopping_action pid w s
    else if not (s.weight == 0) && not (running_reload pid w d s)
    then disown
    else if moved_on pid w && not (running_reload pid w d s)
    then disown
    else if not (s.admin == 0) || not (s.operational == 2)
    then hold w
    else restore s w (restore_weight w d)
idle_action pid w _ _ = disown

-- What one round leaves of the entry.
pub record Round : Type 0 where
  pub entry : Option DrainWeight
  pub faults : List Fault
  pub log : Log

abbrev after_reapply : DrainWeight → Outcome Fault (Unit {0}) → Log → Round
after_reapply w (ok _) log = record {
  entry = some (record w { retry = false });
  faults = [];
  log = log;
}
after_reapply w (err e) log = record { entry = some w; faults = e ∷ []; log = log }

abbrev after_restore : DrainWeight → Outcome Fault (Unit {0}) → Log → Round
after_restore w (ok _) log = record { entry = none; faults = []; log = log }
after_restore w (err e) log = record { entry = some w; faults = e ∷ []; log = log }

unfoldable pub perform : Env → Text → Action → Log → Round
unfolding set_weight_verified int_eq
perform env key disown log = record { entry = none; faults = []; log = log }
perform env key (hold w) log = record { entry = some w; faults = []; log = log }
perform env key (reapply s w) log =
    let (r, log') = set_weight_verified env key (pos 0) log in
    if not (s.weight == 0) then after_reapply w r log' else after_reapply w (ok tt) log
perform env key (restore s w target) log =
    let (r, log') = set_weight_verified env key target log in
    if not (int_eq (pos s.weight) target)
    then after_restore w r log'
    else after_restore w (ok tt) log

abbrev entries : Text → Option DrainWeight → Weights → Weights
entries key none rest = rest
entries key (some w) rest = (key, w) ∷ rest

-- What is fixed during a pass: the running process, the wanted and the actual state of servers.
pub record Pass : Type 0 where
  pub env : Env
  pub pid : Text
  pub desired : Dict DesiredEndpoint
  pub states : Dict ServerState

unfoldable pub decide : Pass → Bool → Text → DrainWeight → Action
unfolding active_action idle_action lookup
decide p true key w = active_action p.pid w (lookup key p.desired) (lookup key p.states)
decide p false key w = idle_action p.pid w (lookup key p.desired) (lookup key p.states)

-- An inner loop over the weights of one endpoint, which is in the drain list or not.
unfoldable pub sweep : Pass → Bool → Weights → Log → Sweep
unfolding decide perform
sweep p active [] log = record { weights = []; faults = []; log = log }
sweep p active ((key, w) ∷ ws) log =
    let round = perform p.env key (decide p active key w) log in
    let rest = sweep p active ws round.log in
    record {
      weights = entries key round.entry rest.weights;
      faults = round.faults ++ rest.faults;
      log = rest.log;
    }

-- `if len(weights) == 0 { delete(dm.weights, name) }`, which the active branch skips.
abbrev kept_name : Bool → Text → Weights → Dict Weights → Dict Weights
kept_name active name ws rest = if not active && is_empty ws then rest else (name, ws) ∷ rest

pub record Sweeps : Type 0 where
  pub weights : Dict Weights
  pub faults : List Fault
  pub log : Log

-- The outer loop over the endpoints.
unfoldable pub sweep_all : Pass → Dict Text → Dict Weights → Log → Sweeps
unfolding sweep lookup
sweep_all p drain_list [] log = record { weights = []; faults = []; log = log }
sweep_all p drain_list ((name, ws) ∷ names) log =
    let active = is_some (lookup name drain_list) in
    let inner = sweep p active ws log in
    let rest = sweep_all p drain_list names inner.log in
    record {
      weights = kept_name active name inner.weights rest.weights;
      faults = inner.faults ++ rest.faults;
      log = rest.log;
    }

reconcile_with :
    Env
    → DrainMgr
    → Dict DesiredEndpoint
    → Text
    → Outcome Fault (Dict ServerState)
    → Log
    → DrainMgr × List Fault × Log
unfolding sweep_all
reconcile_with env dm desired pid (err e) log = (dm, e ∷ [], log)
reconcile_with env dm desired pid (ok states) log =
    let p : Pass = record { env = env; pid = pid; desired = desired; states = states } in
    let out = sweep_all p dm.drain_list dm.weights log in
    (record dm { weights = out.weights }, out.faults, out.log)

reconcile_in :
    Env → DrainMgr → Dict DesiredEndpoint → Outcome Fault Text → Log → DrainMgr × List Fault × Log
unfolding reconcile_with read_server_states
reconcile_in env dm desired (err e) log = (dm, e ∷ [], log)
reconcile_in env dm desired (ok pid) log =
    let (r, log') = read_server_states env log in reconcile_with env dm desired pid r log'

reconcile_desired :
    Env → DrainMgr → Option (Dict DesiredEndpoint) → Log → DrainMgr × List Fault × Log
unfolding reconcile_in read_pid
reconcile_desired env dm none log = (dm, [], log)
reconcile_desired env dm (some desired) log = reconcile_in env dm desired (read_pid env log) log

-- The manager after a pass, the failures (none: the pass returned nil), the commands given.
unfoldable pub reconcile_drains : Env → Bool → DrainMgr → Log → DrainMgr × List Fault × Log
unfolding reconcile_desired
reconcile_drains env blocked dm log =
    if blocked || is_empty dm.weights
    then (dm, [], log)
    else reconcile_desired env dm dm.desired log
