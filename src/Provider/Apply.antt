-- ===== src/Provider/Apply.antt =====
-- `applyHaproxyConfig`, `ApplyConfig` and the timer of `Run`.
use load_balancer_controller.Base.{
  ℕ, zero, suc, Bool, true, false, Option, some, none, List, [], ◌∷◌, ◌++◌, if◌then◌else◌,
}
use load_balancer_controller.Base.Text.{Text, codes}
use load_balancer_controller.Base.Outcome.{Outcome, ok, err}
use load_balancer_controller.Config.{LoadBalancerConfig, Certificate}
use load_balancer_controller.Drain.State.{DrainMgr}
use load_balancer_controller.Drain.Runtime.{Env, Log, Fault}
use load_balancer_controller.Drain.Desired.{set_desired}
use load_balancer_controller.Drain.Reconcile.{reconcile_drains}
use load_balancer_controller.Provider.Selection.{Rendered, select}

-- What the provider does outside itself when it applies a configuration.
pub data FileOp : Type 0 where
  make_dir : Text → FileOp
  write_cert : Text → Text → FileOp
  write_config : Rendered → FileOp
  reload : FileOp

-- The operations done, the newest first.
abbrev pub Done : Type 0
Done = List FileOp

pub record Disk : Type 0 where
  -- `os.IsNotExist`
  pub missing : Done → Text → Bool
  pub run : Done → FileOp → Outcome Fault (Unit {0})

abbrev pub Ran : Type 0
Ran = Outcome Fault (Unit {0}) × Done

unfoldable pub perform_op : Disk → FileOp → Done → Ran
perform_op disk op done = (disk.run done op, op ∷ done)

-- What follows an operation that did not fail.
unfoldable pub then_ran : Ran → (Done → Ran) → Ran
then_ran (err e, done) next = (err e, done)
then_ran (ok _, done) next = next done

unfoldable pub ensure_dir : Disk → Text → Done → Ran
unfolding perform_op
ensure_dir disk path done =
    if disk.missing done path then perform_op disk (make_dir path) done else (ok tt, done)

abbrev pub new_certs : Text → Text
new_certs dir = dir ++ codes "/new"

unfoldable pub cert_op : Text → Certificate → FileOp
cert_op dir cert =
    write_cert (new_certs dir ++ (b'/' ∷ (cert.name ++ codes ".pem")))
      (cert.key ++ (b'\n' ∷ cert.cert))

unfoldable pub write_certs : Disk → Text → List Certificate → Done → Ran
unfolding then_ran perform_op cert_op
write_certs disk dir [] done = (ok tt, done)
write_certs disk dir (c ∷ cs) done =
    then_ran (perform_op disk (cert_op dir c) done) (λ done'. write_certs disk dir cs done')

-- The default certificate goes first.
unfoldable pub certs_of : LoadBalancerConfig → List Certificate
certs_of cfg = elim cfg.default_cert [ none ↦ cfg.certs | some c ↦ c ∷ cfg.certs ]

-- The certificates, the configuration, the reload.
unfoldable pub write_all : Disk → Text → LoadBalancerConfig → Done → Ran
unfolding then_ran perform_op write_certs certs_of select
write_all disk dir cfg done =
    then_ran (write_certs disk dir (certs_of cfg) done)
      λ d. then_ran (perform_op disk (write_config (select cfg)) d) λ e. perform_op disk reload e

-- Everything up to and with the reload.
unfoldable pub install : Disk → Text → LoadBalancerConfig → Done → Ran
unfolding then_ran ensure_dir write_all
install disk dir cfg done = then_ran (ensure_dir disk dir done) λ d1.
    then_ran (ensure_dir disk (dir ++ codes "/current") d1)
      λ d2. then_ran (ensure_dir disk (new_certs dir) d2) λ d3. write_all disk dir cfg d3

pub record Provider : Type 0 where
  pub cert_dir : Text
  pub recovery_blocked : Bool
  pub drain_mgr : DrainMgr
  pub log : Log
  pub done : Done

unfoldable pub with_drains : Provider → DrainMgr × List Fault × Log → Provider × List Fault
with_drains p (dm, faults, log) = (record p { drain_mgr = dm; log = log }, faults)

-- `reconcileDrains` on the provider's state, as the timer of `Run` calls it.
unfoldable pub tick : Env → Provider → Provider × List Fault
unfolding with_drains reconcile_drains
tick env p = with_drains p (reconcile_drains env p.recovery_blocked p.drain_mgr p.log)

unfoldable pub after_install : Env → LoadBalancerConfig → Provider → Ran → Provider × List Fault
unfolding tick set_desired
after_install env cfg p (err e, done) = (record p { recovery_blocked = true; done = done }, e ∷ [])
after_install env cfg p (ok _, done) =
    tick env
      (record p { recovery_blocked = false; done = done; drain_mgr = set_desired cfg p.drain_mgr })

-- `applyHaproxyConfig`: the new state, and the failures (none: it returned nil).
unfoldable pub apply_haproxy_config :
    Env → Disk → LoadBalancerConfig → Provider → Provider × List Fault
unfolding after_install install
apply_haproxy_config env disk cfg p = after_install env cfg p (install disk p.cert_dir cfg p.done)

-- `ApplyConfig`: at most five looks, a second apart, at whether the start is over; `starting i` is
-- what the look number i sees. `none` is the error that the wait was too long.
wait_for_start : ℕ → ℕ → (ℕ → Bool) → Bool
wait_for_start zero i starting = false
wait_for_start (suc rounds) i starting = elim (starting i) [
  | true ↦ wait_for_start rounds (suc i) starting
  | false ↦ true
]

unfoldable pub apply_config :
    Env → Disk → (ℕ → Bool) → LoadBalancerConfig → Provider → Option (Provider × List Fault)
unfolding wait_for_start apply_haproxy_config
apply_config env disk starting cfg p =
    if wait_for_start 5 0 starting then some (apply_haproxy_config env disk cfg p) else none
