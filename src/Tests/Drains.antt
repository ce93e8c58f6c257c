-- ===== src/Tests/Drains.antt =====
-- The drain recovery and the drain list on one server.
use load_balancer_controller.Base.{
  All, is_empty, true, false, some, none, List, [], ◌∷◌, ◌≡◌, ◌≢◌, refl, arith,
}
use load_balancer_controller.Base.Text.{Text, codes, text_eq, text_eq_iff, pos, int_eq}
use load_balancer_controller.Base.Dict.{Dict, lookup}
use load_balancer_controller.Base.Outcome.{ok}
use load_balancer_controller.Drain.State.{
  DrainWeight, DesiredEndpoint, ServerState, DrainMgr, Weights,
}
use load_balancer_controller.Drain.Runtime.{show_servers_state, set_weight, Log, set_server_weight}
use load_balancer_controller.Drain.Servers.{
  set_weight_verified, read_server_states, parse_states, set_weight_verified-readback,
}
use load_balancer_controller.Drain.Servers.Parsed.{AllServers, parse_states-AllServers}
use load_balancer_controller.Drain.Mark.{drain_endpoint}
use load_balancer_controller.Drain.Mark.Ownership.{Kept, drain_endpoint-owns, drain_endpoint-Kept}
use load_balancer_controller.Drain.Reconcile.{
  Pass, hold, restore, decide, sweep, protected, stopping, moved_on, reconcile_drains,
}
use load_balancer_controller.Drain.Reconcile.Extends.{Extends}
use load_balancer_controller.Drain.Reconcile.Owned.{Sent, reconcile_drains-Sent}
use load_balancer_controller.Drain.Reconcile.Provenance.{Origin, sweep-Origin}
use load_balancer_controller.Drain.Reconcile.Positive.{HasWeights}
use load_balancer_controller.Drain.Endpoints.Positive
use load_balancer_controller.Drain.Endpoints.Positive.{Reach-HasWeights}
use load_balancer_controller.Drain.Reconcile.Recovery.{
  Withdrawn, sweep-withdrawn, decide_two_reloads,
}
use load_balancer_controller.Drain.Endpoints.{add_endpoint_for_drain, drain, is_endpoint_drained}
use load_balancer_controller.Drain.Endpoints.Listed.{Finished, is_endpoint_drained-Finished}
use load_balancer_controller.Tests.Machine.{
  haproxy, deaf, endpoint, key, server, wish, owned, draining, idle,
}
use mathlib.Core.List.{Memᴰ}

-- The owned server of an endpoint that left the drain list, at the zero that was set.
abbrev released : DrainMgr
released = record draining { drain_list = [] }

abbrev at_zero : Log
at_zero = set_weight key (pos 0) ∷ []

-- The released weight is restored, and disowned.
released_restored :
    let (dm, faults, log) = reconcile_drains haproxy false released at_zero in
    (dm.weights ≡ [])
    × (faults ≡ [])
    × (log ≡ show_servers_state ∷ set_weight key (pos 100) ∷ show_servers_state ∷ at_zero)
unfolding reconcile_drains
released_restored = (refl, refl, refl)

reconcile_drains-Sent_example :
    Extends
      (Sent haproxy released at_zero)
      at_zero
      (reconcile_drains haproxy false released at_zero).2
reconcile_drains-Sent_example = reconcile_drains-Sent haproxy false released at_zero

abbrev pass : Text → DesiredEndpoint → ServerState → Pass
pass pid d s = record { env = haproxy; pid = pid; desired = (key, d) ∷ []; states = (key, s) ∷ [] }

eight-ne-nine : codes "8" ≢ codes "9"
unfolding text_eq
eight-ne-nine e = cc ((text_eq_iff (codes "8") (codes "9")).1 e)

decide_two_reloads_example :
    let carried = record (owned (codes "7")) { pid = codes "8"; stopping_reload = true } in
    (decide (pass (codes "8") (wish (pos 0) true) (server 0 0)) false key (owned (codes "7"))
      ≡ hold carried)
    × (decide (pass (codes "9") (wish (pos 50) false) (server 50 50)) false key carried
        ≡ restore (server 50 50) carried (pos 50))
unfolding int_eq
decide_two_reloads_example =
    decide_two_reloads (pass (codes "8") (wish (pos 0) true) (server 0 0))
      (pass (codes "9") (wish (pos 50) false) (server 50 50)) key (owned (codes "7"))
      (wish (pos 0) true) (wish (pos 50) false) (server 0 0) (server 50 50) (unfold lookup in refl)
      (unfold lookup in refl) (unfold lookup in refl) (unfold lookup in refl)
      (unfold protected in refl) (unfold stopping in refl) refl refl (unfold moved_on in refl)
      (unfold protected in refl) (unfold stopping in refl) eight-ne-nine (omega arith) refl refl
      refl refl

-- The server was given the weight zero by the user.
abbrev other : Text
other = codes "be/s2"

sweep-withdrawn_example :
    sweep
      (pass (codes "7") (wish (pos 0) false) (server 0 100))
      true
      ((other, owned (codes "7")) ∷ (key, owned (codes "7")) ∷ [])
      []
    ≡ sweep
        (pass (codes "7") (wish (pos 0) false) (server 0 100))
        true
        ((other, owned (codes "7")) ∷ [])
        []
sweep-withdrawn_example =
    sweep-withdrawn (pass (codes "7") (wish (pos 0) false) (server 0 100)) true
      ((other, owned (codes "7")) ∷ []) key (owned (codes "7")) [] []
      (Withdrawn.zeroed (wish (pos 0) false) (unfold lookup in refl) refl refl)

sweep-Origin_example : Origin key (owned (codes "7")) ((key, owned (codes "7")) ∷ [])
sweep-Origin_example =
    sweep-Origin (pass (codes "7") (wish (pos 100) false) (server 0 100)) true
      ((key, owned (codes "7")) ∷ []) [] key (owned (codes "7")) (unfold sweep in Memᴰ.head refl)

set_weight_verified-readback_example :
    (states : Dict ServerState) × (s : ServerState) × ((read_server_states haproxy
        (set_server_weight haproxy key (pos 0) []).1).0
      ≡ ok states)
    × (lookup key states ≡ some s)
    × (pos s.weight ≡ pos 0)
set_weight_verified-readback_example =
    set_weight_verified-readback haproxy key (pos 0) [] (unfold set_weight_verified in refl)

abbrev states : Dict ServerState
states = (key, server 100 100) ∷ []

drain_endpoint-owns_example :
    (ws : Weights) × (new : DrainWeight) × (lookup
        (codes "s1")
        (drain_endpoint deaf (codes "s1") (codes "7") states idle []).0.weights
      ≡ some ws)
    × (lookup key ws ≡ some new)
    × (new.pid ≡ codes "7")
drain_endpoint-owns_example =
    drain_endpoint-owns deaf (codes "s1") (codes "7") states idle [] key (server 100 100)
      (Memᴰ.head refl) refl refl (omega arith)

-- The manager that owns a weight of `s1` drains another endpoint.
drain_endpoint-Kept_example :
    let after = (drain_endpoint haproxy (codes "s2") (codes "8") states draining []).0.weights in
    ((ws' : Weights) × (lookup (codes "s1") after ≡ some ws')
      × Kept (codes "8") (owned (codes "7")) (lookup key ws'))
    × (codes "s1" ≢ codes "s2" → lookup (codes "s1") after ≡ some ((key, owned (codes "7")) ∷ []))
drain_endpoint-Kept_example =
    drain_endpoint-Kept haproxy (codes "s2") (codes "8") states draining [] (codes "s1")
      ((key, owned (codes "7")) ∷ []) key (owned (codes "7")) (unfold lookup in refl)
      (unfold lookup in refl)

abbrev lines : List Text
lines =
    codes "# be_name srv_name srv_uweight srv_iweight srv_admin_state srv_op_state"
    ∷ codes "be s1 100 100 0 2"
    ∷ []

parse_states-AllServers_example : AllServers states
parse_states-AllServers_example =
    parse_states-AllServers lines none [] {out = states} tt (unfold parse_states in refl)

-- A drain starts, and is over, since no session is left.
drain_starts :
    let (started, dm, log) = add_endpoint_for_drain haproxy endpoint (codes "7") idle [] in
    (started ≡ false) × (dm.drain_list ≡ [])
unfolding add_endpoint_for_drain
drain_starts = (refl, refl)

is_endpoint_drained-Finished_example : Finished haproxy endpoint draining []
is_endpoint_drained-Finished_example =
    is_endpoint_drained-Finished haproxy endpoint draining [] (unfold is_endpoint_drained in refl)

abbrev row : Dict Text
row = (codes "svname", codes "s1") ∷ (codes "scur", codes "2") ∷ []

-- A manager that has drained the endpoint, and then meets a reconciliation.
abbrev after_drain : DrainMgr
unfolding drain
after_drain = (drain haproxy endpoint idle []).1

abbrev after_pass : DrainMgr
unfolding after_drain
after_pass = (reconcile_drains haproxy false after_drain at_zero).0

after_pass_reached : Positive.Reach after_pass
unfolding after_drain after_pass
after_pass_reached =
    Positive.reconciled haproxy false at_zero
      (Positive.drained haproxy endpoint [] (Positive.begun {dm = idle} refl) refl) refl

Reach-HasWeights_example : All HasWeights after_pass.weights
Reach-HasWeights_example = Reach-HasWeights after_pass_reached

after_drain_owns : is_empty after_drain.weights ≡ false
unfolding after_drain drain
after_drain_owns = refl
