-- ===== src/Drain/Endpoints.antt =====
-- The drain list (provider/haproxy/haproxy.go): `AddEndpointForDrain`, `RemoveEndpointFromDrain`,
-- `isEndpointUpForDrain`, and the provider's `DrainEndpoint` and `IsEndpointDrained`. The endpoint
-- is a value: every caller passes a pointer that is not nil.
pub mod Listed
pub mod Positive
use load_balancer_controller.Base.{
  ℕ, zero, suc, ◌==◌, Bool, true, false, not, ◌&&◌, ◌||◌, Option, some, none, List, [], ◌∷◌, ◌++◌,
  if◌then◌else◌, is_empty, is_some,
}
use load_balancer_controller.Base.Text.{Text, codes, ℤ, pos, negsuc, atoi, text_eq}
use load_balancer_controller.Base.Dict.{Dict, insert, lookup, delete}
use load_balancer_controller.Base.Outcome.{Outcome, ok, err, ◌>>=◌}
use load_balancer_controller.Config.{Endpoint}
use load_balancer_controller.Drain.State.{DrainMgr, ServerState}
use load_balancer_controller.Drain.Runtime.{Env, Log, Reply, Fault, bad_pid, read_pid}
use load_balancer_controller.Drain.Servers.{read_server_states}
use load_balancer_controller.Drain.Mark.{drain_endpoint}
use load_balancer_controller.Drain.Stats.{read_current_stats, older_pid_exists}

-- The answer, the manager and the commands given.
abbrev pub Answer : Type 0
Answer = Bool × DrainMgr × Log

list_endpoint : Text → Text → DrainMgr → DrainMgr
unfolding insert
list_endpoint name pid dm = record dm { drain_list = insert name pid dm.drain_list }

-- The end of `AddEndpointForDrain`, with the servers marked.
settle : Env → Text → Text → Text → DrainMgr → Log → Answer
unfolding older_pid_exists text_eq list_endpoint
settle env name pid scur dm log =
    if text_eq scur (codes "0")
    then (if not (older_pid_exists env log).0
        then (false, dm, log)
        else (true, list_endpoint name [] dm, log))
    else (true, list_endpoint name pid dm, log)

after_marking : Env → Text → Text → Text → DrainMgr × List Fault × Log → Answer
unfolding settle
after_marking env name pid scur (dm, [], log) = settle env name pid scur dm log
after_marking env name pid scur (dm, e ∷ faults, log) = (false, dm, log)

after_states : Env → Text → Text → Text → DrainMgr → Reply (Dict ServerState) → Answer
unfolding after_marking drain_endpoint
after_states env name pid scur dm (err e, log) = (false, dm, log)
after_states env name pid scur dm (ok states, log) =
    after_marking env name pid scur (drain_endpoint env name pid states dm log)

after_stats : Env → Text → Text → DrainMgr → Reply (Text × List Text) → Answer
unfolding after_states read_server_states
after_stats env name pid dm (err e, log) = (false, dm, log)
after_stats env name pid dm (ok (scur, names), log) =
    after_states env name pid scur dm (read_server_states env log)

unfoldable pub add_endpoint_for_drain : Env → Endpoint → Text → DrainMgr → Log → Answer
unfolding after_stats read_current_stats lookup
add_endpoint_for_drain env ep pid dm log =
    if is_empty ep.name
    then (false, dm, log)
    else if is_some (lookup ep.name dm.drain_list)
    then (true, dm, log)
    else after_stats env ep.name pid dm (read_current_stats env ep.name log)

unfoldable pub remove_endpoint_from_drain : Endpoint → DrainMgr → DrainMgr
unfolding delete
remove_endpoint_from_drain ep dm =
    if is_empty ep.name then dm else record dm { drain_list = delete ep.name dm.drain_list }

-- The pid that the endpoint drains in, if it is in the drain list.
unfoldable pub up_for_drain : Endpoint → DrainMgr → Option Text
unfolding lookup
up_for_drain ep dm = if is_empty ep.name then none else lookup ep.name dm.drain_list

-- The provider's `DrainEndpoint`: no drain without a readable pid.
unfoldable pub drain_with_pid : Env → Endpoint → Outcome Fault Text → DrainMgr → Log → Answer
unfolding add_endpoint_for_drain
drain_with_pid env ep (err e) dm log = (false, dm, log)
drain_with_pid env ep (ok pid) dm log = add_endpoint_for_drain env ep pid dm log

unfoldable pub drain : Env → Endpoint → DrainMgr → Log → Answer
unfolding drain_with_pid read_pid
drain env ep dm log = drain_with_pid env ep (read_pid env log) dm log

-- `processExists`
process_exists : Env → Log → ℤ → Outcome Fault Bool
process_exists env log (pos zero) = err bad_pid
process_exists env log (pos (suc n)) = env.proc_exists log (suc n)
process_exists env log (negsuc n) = err bad_pid

-- `err == nil && !exists`
abbrev is_gone : Outcome Fault Bool → Bool
is_gone (err e) = false
is_gone (ok exists) = not exists

old_process_gone : Env → Log → Option ℤ → Bool
unfolding process_exists
old_process_gone env log none = false
old_process_gone env log (some n) = is_gone (process_exists env log n)

pub no_sessions : Outcome Fault (Text × List Text) → Bool
unfolding text_eq
no_sessions (err e) = false
no_sessions (ok (scur, names)) = text_eq scur (codes "0")

abbrev no_older : Bool × Option Fault → Bool
no_older (exists, none) = not exists
no_older (exists, some e) = false

-- An endpoint that drains in another process than the one that runs, or in none of its own.
drained_elsewhere : Env → Text → Text → Log → Bool × Log
unfolding old_process_gone no_sessions older_pid_exists read_current_stats atoi
drained_elsewhere env name pid log =
    let (r, log') = read_current_stats env name log in
    if not (is_empty pid)
    then (old_process_gone env log (atoi pid), log)
    else (no_older (older_pid_exists env log') && no_sessions r, log')

-- `IsEndpointDrained` for an endpoint that drains in `pid`, while `current` runs.
drained_in : Env → Text → Text → Outcome Fault Text → Log → Bool × Log
unfolding drained_elsewhere text_eq
drained_in env name pid (err e) log = (false, log)
drained_in env name pid (ok current) log =
    let (r, log') = read_current_stats env name log in
    if text_eq pid current then (no_sessions r, log') else drained_elsewhere env name pid log

drained_if : Env → Endpoint → Option Text → Log → Bool × Log
unfolding drained_in read_pid
drained_if env ep none log = (false, log)
drained_if env ep (some pid) log = drained_in env ep.name pid (read_pid env log) log

unfoldable pub is_endpoint_drained : Env → Endpoint → DrainMgr → Log → Bool × Log
unfolding drained_if up_for_drain
is_endpoint_drained env ep dm log = drained_if env ep (up_for_drain ep dm) log
