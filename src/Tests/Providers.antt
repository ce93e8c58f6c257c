-- ===== src/Tests/Providers.antt =====
-- The provider on a small configuration.
use load_balancer_controller.Base.{true, false, [], ◌∷◌, ◌≡◌, refl}
use load_balancer_controller.Base.Text.{codes}
use load_balancer_controller.Base.Outcome.{ok, err}
use load_balancer_controller.Drain.Runtime.{io}
use load_balancer_controller.Provider.Selection.{select}
use load_balancer_controller.Provider.Apply.{Disk, Provider, tick, install, apply_haproxy_config}
use load_balancer_controller.Provider.Unique.{Distinct, has, offers, select-Distinct}
use load_balancer_controller.Provider.Failure.{apply_haproxy_config-failed}
use load_balancer_controller.Tests.Machine.{haproxy, config, draining}

abbrev healthy : Disk
healthy = record { missing = λ done path. true; run = λ done op. ok tt }

-- A disk on which nothing can be done.
abbrev full : Disk
full = record { missing = λ done path. true; run = λ done op. err io }

abbrev provider : Provider
provider = record {
  cert_dir = codes "/etc/haproxy/certs";
  recovery_blocked = false;
  drain_mgr = draining;
  log = [];
  done = [];
}

apply_haproxy_config-failed_example :
    let q = (apply_haproxy_config haproxy full config provider).0 in
    (q.drain_mgr ≡ draining)
    × (q.log ≡ [])
    × ((apply_haproxy_config haproxy full config provider).1 ≡ io ∷ [])
    × (tick haproxy q ≡ (q, []))
apply_haproxy_config-failed_example =
    apply_haproxy_config-failed haproxy full config provider {e = io} (unfold install in refl)

select-Distinct_example :
    Distinct (select config).backends
    × (has (codes "be") (select config).backends ≡ offers (codes "be") config.frontend_services)
select-Distinct_example = select-Distinct config (codes "be")
