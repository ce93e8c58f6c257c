-- ===== src/Drain/Desired.antt =====
-- `setDesired` of drain_recovery.go: what the applied configuration wants of each server.
use load_balancer_controller.Base.{
  Bool, true, Option, none, some, List, [], ◌∷◌, ◌++◌, if◌then◌else◌,
}
use load_balancer_controller.Base.Text.{Text, ℤ, pos, codes, text_eq, fields, atoi}
use load_balancer_controller.Base.Dict.{Dict, insert}
use load_balancer_controller.Config.{Endpoint, BackendService, FrontendService, LoadBalancerConfig}
use load_balancer_controller.Drain.State.{DesiredEndpoint, DrainMgr}

abbrev weight_or : ℤ → Option ℤ → ℤ
weight_or w none = w
weight_or w (some v) = v

-- `field == "weight"` with a field behind it that `Atoi` reads.
unfoldable pub next_weight : ℤ → Text → List Text → ℤ
unfolding atoi text_eq
next_weight w field [] = w
next_weight w field (value ∷ rest) =
    if text_eq field (codes "weight") then weight_or w (atoi value) else w

-- The loop over `strings.Fields(ep.Config)`.
unfoldable pub scan_config : DesiredEndpoint → List Text → DesiredEndpoint
unfolding next_weight text_eq
scan_config d [] = d
scan_config d (field ∷ rest) =
    scan_config
      (record d {
        disabled = if text_eq field (codes "disabled") then true else d.disabled;
        weight = next_weight d.weight field rest;
      })
      rest

unfoldable pub desired_endpoint : Endpoint → DesiredEndpoint
unfolding scan_config fields
desired_endpoint ep =
    scan_config (record { weight = pos 1; disabled = Bool.false; temporary_zero = ep.stopping })
      (fields ep.config)

unfoldable pub server_key : Text → Text → Text
server_key backend name = backend ++ (b'/' ∷ name)

module _ (be : BackendService) where
  desire_endpoints : List Endpoint → Dict DesiredEndpoint → Dict DesiredEndpoint
  desire_endpoints [] m = m
  desire_endpoints (ep ∷ eps) m =
      desire_endpoints eps (insert (server_key be.uuid ep.name) (desired_endpoint ep) m)

desire_backends : List BackendService → Dict DesiredEndpoint → Dict DesiredEndpoint
unfolding desire_endpoints
desire_backends [] m = m
desire_backends (be ∷ bes) m = desire_backends bes (desire_endpoints be be.endpoints m)

desire_frontends : List FrontendService → Dict DesiredEndpoint → Dict DesiredEndpoint
unfolding desire_backends
desire_frontends [] m = m
desire_frontends (fe ∷ fes) m = desire_frontends fes (desire_backends fe.backend_services m)

unfoldable pub set_desired : LoadBalancerConfig → DrainMgr → DrainMgr
unfolding desire_frontends desired_endpoint server_key insert
set_desired cfg dm = record dm { desired = some (desire_frontends cfg.frontend_services []) }
