-- ===== src/Events/Drains/Provided.antt =====
-- The HAProxy provider's drain operations fill the interface of the handler.
use load_balancer_controller.Base.{Bool, true, false, ◌≡◌, inl, inr, is_some, is_empty, Bool-cases}
use load_balancer_controller.Base.Text.{Text, text_eq_refl}
use load_balancer_controller.Base.Dict.{Dict}
use load_balancer_controller.Base.Outcome.{Outcome, ok, err}
use load_balancer_controller.Config.{Endpoint}
use load_balancer_controller.Drain.State.{DrainMgr}
use load_balancer_controller.Drain.Runtime.{Env, Log, Fault, read_pid}
use load_balancer_controller.Drain.Endpoints.{
  Answer, add_endpoint_for_drain, remove_endpoint_from_drain, up_for_drain, drain, drain_with_pid,
  is_endpoint_drained,
}
use load_balancer_controller.Drain.Endpoints.Listed.{
  Lists, add_endpoint_for_drain-Lists, remove_endpoint_from_drain-up,
}
use load_balancer_controller.Events.Drains.{Drainer}

module _ (env : Env) where
  abbrev check_state : Endpoint → DrainMgr × Log → Bool
  check_state ep (dm, log) = is_some (up_for_drain ep dm)

  abbrev start_state : Endpoint → DrainMgr × Log → Bool × (DrainMgr × Log)
  start_state ep (dm, log) =
      let (started, dm', log') = drain env ep dm log in (started, (dm', log'))

  abbrev poll_state : Endpoint → DrainMgr × Log → Bool × (DrainMgr × Log)
  poll_state ep (dm, log) =
      let (drained, log') = is_endpoint_drained env ep dm log in (drained, (dm, log'))

  abbrev remove_state : Endpoint → DrainMgr × Log → DrainMgr × Log
  remove_state ep (dm, log) = (remove_endpoint_from_drain ep dm, log)

  Lists-up :
      (ep : Endpoint) (pid : Text) (dl : Dict Text) (a : Answer)
      → is_empty ep.name ≡ false
      → Lists ep.name pid dl a
      → a.0 ≡ true
      → is_some (up_for_drain ep a.1) ≡ true
  unfolding up_for_drain
  Lists-up ep pid dl (false, dm, log) n l h = absurd (cc h)
  Lists-up ep pid dl (true, dm, log) n (found, why, all) h =
      rw n (rw (all ep.name) (rw text_eq_refl))

  add-up :
      (ep : Endpoint) (pid : Text) (dm : DrainMgr) (log : Log)
      → (add_endpoint_for_drain env ep pid dm log).0 ≡ true
      → is_some (up_for_drain ep (add_endpoint_for_drain env ep pid dm log).1) ≡ true
  add-up ep pid dm log h = elim (Bool-cases (is_empty ep.name)) [
    | inl e ↦ absurd (cc (rw (unnamed ep pid dm log e) at h))
    | inr e ↦
        Lists-up ep pid dm.drain_list (add_endpoint_for_drain env ep pid dm log) e
          (add_endpoint_for_drain-Lists env ep pid dm log) h
  ]
    where
      unnamed :
          (ep : Endpoint) (pid : Text) (dm : DrainMgr) (log : Log)
          → is_empty ep.name ≡ true
          → add_endpoint_for_drain env ep pid dm log ≡ (false, dm, log)
      unnamed ep pid dm log e = unfold add_endpoint_for_drain in rw e

  drain_with_pid-up :
      (ep : Endpoint) (r : Outcome Fault Text) (dm : DrainMgr) (log : Log)
      → (drain_with_pid env ep r dm log).0 ≡ true
      → is_some (up_for_drain ep (drain_with_pid env ep r dm log).1) ≡ true
  unfolding drain_with_pid
  drain_with_pid-up ep (err e) dm log h = absurd (cc h)
  drain_with_pid-up ep (ok pid) dm log h = add-up ep pid dm log h

  -- An endpoint whose drain was started is up for drain.
  pub drain-up :
      (ep : Endpoint) (dm : DrainMgr) (log : Log)
      → (drain env ep dm log).0 ≡ true
      → is_some (up_for_drain ep (drain env ep dm log).1) ≡ true
  unfolding drain
  drain-up ep dm log h = drain_with_pid-up ep (read_pid env log) dm log h

  pub removed :
      (ep : Endpoint) (dm : DrainMgr)
      → is_some (up_for_drain ep (remove_endpoint_from_drain ep dm)) ≡ false
  removed ep dm = rw remove_endpoint_from_drain-up (rw text_eq_refl)

  abbrev pub haproxy_drainer : Drainer
  haproxy_drainer = record {
    State = DrainMgr × Log;
    check = check_state;
    start = start_state;
    poll = poll_state;
    remove = remove_state;
    start_check = λ ep s. drain-up ep s.0 s.1;
    remove_check = λ ep s. removed ep s.0;
  }
