-- ===== src/Drain/Endpoints/Listed.antt =====
-- What the drain list holds after each operation, and what makes an endpoint drained.
use load_balancer_controller.Base.{
  ℕ, zero, suc, Bool, true, false, not, Option, some, none, List, [], ◌∷◌, ◌≡◌, refl, sym, ◌∙◌, ap,
  ◌⊎◌, inl, inr, arith, if◌then◌else◌, is_empty, Bool-cases, Option-cases,
}
use load_balancer_controller.Base.Text.{Text, codes, ℤ, pos, negsuc, atoi, text_eq, text_eq_iff}
use load_balancer_controller.Base.Dict.{Dict, lookup, lookup-insert, lookup-delete}
use load_balancer_controller.Base.Outcome.{Outcome, ok, err}
use load_balancer_controller.Config.{Endpoint}
use load_balancer_controller.Drain.State.{DrainMgr, ServerState}
use load_balancer_controller.Drain.Runtime.{Env, Log, Reply, Fault, read_pid}
use load_balancer_controller.Drain.Servers.{read_server_states}
use load_balancer_controller.Drain.Mark.{drain_endpoint}
use load_balancer_controller.Drain.Stats.{read_current_stats, older_pid_exists}
use load_balancer_controller.Drain.Endpoints.{
  Answer, list_endpoint, settle, after_marking, after_states, after_stats, add_endpoint_for_drain,
  remove_endpoint_from_drain, up_for_drain, drained_elsewhere, drained_in, is_endpoint_drained,
  no_sessions, old_process_gone, no_older, drained_if, process_exists,
}

-- A refused drain leaves the list as it was. An accepted one adds the endpoint, with the pid it
-- drains in or with none, or as it was listed before; no other endpoint is touched.
abbrev pub Lists : Text → Text → Dict Text → Answer → Type 0
Lists name pid dl (false, dm, log) = dm.drain_list ≡ dl
Lists name pid dl (true, dm, log) =
    (found : Text) × ((found ≡ pid) ⊎ (found ≡ []) ⊎ (lookup name dl ≡ some found))
    × ((other : Text)
        → lookup other dm.drain_list ≡ (if text_eq name other then some found else lookup other dl))

settle-Lists :
    (env : Env) (name pid scur : Text) (dm : DrainMgr) (log : Log)
    → Lists name pid dm.drain_list (settle env name pid scur dm log)
unfolding settle list_endpoint
settle-Lists env name pid scur dm log = elim (Bool-cases (text_eq scur (codes "0"))) [
  | inl e ↦ rw e (elim (Bool-cases (not (older_pid_exists env log).0)) [
    | inl g ↦ rw g refl
    | inr g ↦ rw g ([], inr (inl refl), λ o. lookup-insert name o [] dm.drain_list)
  ])
  | inr e ↦ rw e (pid, inl refl, λ o. lookup-insert name o pid dm.drain_list)
]

listed_already :
    (name other : Text) (dl : Dict Text) {found : Text}
    → lookup name dl ≡ some found
    → lookup other dl ≡ (if text_eq name other then some found else lookup other dl)
listed_already name other dl n = ground (arith, text_eq_iff name other)

module _ (env : Env) (name pid : Text) where
  after_marking-Lists :
      (scur : Text) (dl : Dict Text) (r : DrainMgr × List Fault × Log)
      → r.0.drain_list ≡ dl
      → Lists name pid dl (after_marking env name pid scur r)
  unfolding after_marking
  after_marking-Lists scur dl (dm, [], log) h = rw (← h) (settle-Lists env name pid scur dm log)
  after_marking-Lists scur dl (dm, e ∷ faults, log) h = h

  after_states-Lists :
      (scur : Text) (dm : DrainMgr) (r : Reply (Dict ServerState))
      → Lists name pid dm.drain_list (after_states env name pid scur dm r)
  unfolding after_states
  after_states-Lists scur dm (err e, log) = refl
  after_states-Lists scur dm (ok states, log) =
      after_marking-Lists scur dm.drain_list _ (unfold drain_endpoint in refl)

  after_stats-Lists :
      (dm : DrainMgr) (r : Reply (Text × List Text))
      → Lists name pid dm.drain_list (after_stats env name pid dm r)
  unfolding after_stats
  after_stats-Lists dm (err e, log) = refl
  after_stats-Lists dm (ok (scur, names), log) =
      after_states-Lists scur dm (read_server_states env log)

-- `AddEndpointForDrain`: when it returns false the drain list is as before; when it returns true
-- the endpoint is in it, with the given pid, with no pid, or as it was listed before, and the
-- listing of every other endpoint is as before.
pub add_endpoint_for_drain-Lists :
    (env : Env) (ep : Endpoint) (pid : Text) (dm : DrainMgr) (log : Log)
    → Lists ep.name pid dm.drain_list (add_endpoint_for_drain env ep pid dm log)
unfolding add_endpoint_for_drain
add_endpoint_for_drain-Lists env ep pid dm log = elim (Bool-cases (is_empty ep.name)) [
  | inl e ↦ rw e refl
  | inr e ↦ rw e (elim (Option-cases (lookup ep.name dm.drain_list)) [
    | inl n ↦ rw n (after_stats-Lists env ep.name pid dm (read_current_stats env ep.name log))
    | inr (found, n) ↦ rw n (found, inr (inr n), λ o. listed_already ep.name o dm.drain_list n)
  ])
]

-- An endpoint that was removed is not up for drain, and every other endpoint is as before.
pub remove_endpoint_from_drain-up :
    (ep other : Endpoint) (dm : DrainMgr)
    → up_for_drain other (remove_endpoint_from_drain ep dm)
      ≡ (if text_eq ep.name other.name then none else up_for_drain other dm)
unfolding remove_endpoint_from_drain up_for_drain
remove_endpoint_from_drain-up ep other dm =
    ground (arith, text_eq_iff ep.name other.name, lookup-delete ep.name other.name dm.drain_list)

-- What proves that the drain of an endpoint is over: it is in the drain list, and
--   * its process is the one that runs, and that one has no sessions of it; or
--   * its process was replaced, and does not exist any more; or
--   * it drains in no process of its own: no older process is there, and no session is left.
pub data Finished (env : Env) (ep : Endpoint) (dm : DrainMgr) (log : Log) : Type 0 where
  idle :
      (pid : Text)
      → up_for_drain ep dm ≡ some pid
      → read_pid env log ≡ ok pid
      → no_sessions (read_current_stats env ep.name log).0 ≡ true
      → Finished env ep dm log
  gone :
      (pid current : Text) (n : ℕ)
      → up_for_drain ep dm ≡ some pid
      → read_pid env log ≡ ok current
      → text_eq pid current ≡ false
      → atoi pid ≡ some (pos (suc n))
      → env.proc_exists log (suc n) ≡ ok false
      → Finished env ep dm log
  unowned :
      (current : Text)
      → up_for_drain ep dm ≡ some []
      → read_pid env log ≡ ok current
      → no_sessions (read_current_stats env ep.name log).0 ≡ true
      → (older_pid_exists env (read_current_stats env ep.name log).1).0 ≡ false
      → Finished env ep dm log

gone_pid :
    (env : Env) (log : Log) (o : Option ℤ)
    → old_process_gone env log o ≡ true
    → (n : ℕ) × (o ≡ some (pos (suc n))) × (env.proc_exists log (suc n) ≡ ok false)
unfolding old_process_gone process_exists
gone_pid env log none h = absurd (cc h)
gone_pid env log (some (negsuc n)) h = absurd (cc h)
gone_pid env log (some (pos zero)) h = absurd (cc h)
gone_pid env log (some (pos (suc n))) h = (n, refl, ground arith)

no_older_lem : (r : Bool × Option Fault) → no_older r ≡ true → r.0 ≡ false
no_older_lem (b, none) h = ground arith
no_older_lem (b, some e) h = absurd (cc h)

drained_elsewhere-Finished :
    (env : Env) (ep : Endpoint) (dm : DrainMgr) (log : Log) (pid current : Text)
    → up_for_drain ep dm ≡ some pid
    → read_pid env log ≡ ok current
    → text_eq pid current ≡ false
    → (drained_elsewhere env ep.name pid log).0 ≡ true
    → Finished env ep dm log
unfolding drained_elsewhere
drained_elsewhere-Finished env ep dm log [] current up q e h =
    unowned current up q (ground arith)
      (no_older_lem (older_pid_exists env (read_current_stats env ep.name log).1) (ground arith))
drained_elsewhere-Finished env ep dm log (c ∷ cs) current up q e h =
    let (n, number, away) = gone_pid env log (atoi (c ∷ cs)) h in
    gone (c ∷ cs) current n up q e number away

drained_in-Finished :
    (env : Env) (ep : Endpoint) (dm : DrainMgr) (log : Log) (pid : Text) (r : Outcome Fault Text)
    → up_for_drain ep dm ≡ some pid
    → read_pid env log ≡ r
    → (drained_in env ep.name pid r log).0 ≡ true
    → Finished env ep dm log
unfolding drained_in
drained_in-Finished env ep dm log pid (err e) up q h = absurd (cc h)
drained_in-Finished env ep dm log pid (ok current) up q h =
    elim (Bool-cases (text_eq pid current)) [
      | inl e ↦ idle pid up (q ∙ ap ok (sym ((text_eq_iff pid current).0 e))) (rw e at h)
      | inr e ↦ drained_elsewhere-Finished env ep dm log pid current up q e (rw e at h)
    ]

drained_if-Finished :
    (env : Env) (ep : Endpoint) (dm : DrainMgr) (log : Log) (o : Option Text)
    → up_for_drain ep dm ≡ o
    → (drained_if env ep o log).0 ≡ true
    → Finished env ep dm log
unfolding drained_if
drained_if-Finished env ep dm log none up h = absurd (cc h)
drained_if-Finished env ep dm log (some pid) up h =
    drained_in-Finished env ep dm log pid (read_pid env log) up refl h

-- `IsEndpointDrained` returns true only for an endpoint in the drain list whose process has no
-- session of it, or is replaced and gone; or, if it drains in no process of its own, when no older
-- process is there and no session is left.
pub is_endpoint_drained-Finished :
    (env : Env) (ep : Endpoint) (dm : DrainMgr) (log : Log)
    → (is_endpoint_drained env ep dm log).0 ≡ true
    → Finished env ep dm log
unfolding is_endpoint_drained
is_endpoint_drained-Finished env ep dm log h =
    drained_if-Finished env ep dm log (up_for_drain ep dm) refl h
