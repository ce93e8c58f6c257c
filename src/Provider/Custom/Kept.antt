-- ===== src/Provider/Custom/Kept.antt =====
-- What `BuildCustomConfig` leaves alone.
use load_balancer_controller.Base.{Bool, false, Option, List, [], ◌∷◌, ◌≡◌, refl, ap, map, is_some}
use load_balancer_controller.Base.Text.{Text}
use load_balancer_controller.Base.Dict.{Dict}
use load_balancer_controller.Config.{
  Endpoint, BackendService, FrontendService, HealthCheck, StickinessPolicy, LoadBalancerConfig,
}
use load_balancer_controller.Provider.Custom.{build_custom_config}
use load_balancer_controller.Provider.Custom.Parse.{add_defaults, parse}
use load_balancer_controller.Provider.Custom.Write.{
  write_endpoint, write_backends, write_backend, write_frontends, write_frontend, name_cookie,
  checked, backend_name,
}

-- The parts that are not the custom configuration's to write.
unfoldable pub plain_endpoint : Endpoint → Endpoint
plain_endpoint ep = record ep { config = [] }

unfoldable pub plain_backend : BackendService → BackendService
unfolding plain_endpoint
plain_backend be = record be { config = []; endpoints = map plain_endpoint be.endpoints }

unfoldable pub plain_frontend : FrontendService → FrontendService
unfolding plain_backend
plain_frontend fe = record fe {
  config = [];
  accept_proxy = false;
  backend_services = map plain_backend fe.backend_services;
}

plain_endpoints :
    (custom : Dict (List Text)) (name : Text) (hc : Option HealthCheck) (sticky : Bool)
    (eps : List Endpoint)
    → map plain_endpoint (map (write_endpoint custom name hc sticky) eps) ≡ map plain_endpoint eps
unfolding plain_endpoint write_endpoint
plain_endpoints custom name hc sticky [] = refl
plain_endpoints custom name hc sticky (ep ∷ eps) =
    ap (λ r. record ep { config = [] } ∷ r) (plain_endpoints custom name hc sticky eps)

plain_backends :
    (custom : Dict (List Text)) (bes : List BackendService) (policy : Option StickinessPolicy)
    → map plain_backend (write_backends custom policy bes).1 ≡ map plain_backend bes
unfolding plain_backend write_backends write_backend
plain_backends custom [] policy = refl
plain_backends custom (be ∷ bes) policy =
    let policy' = name_cookie be.uuid policy in
    rw (plain_endpoints custom (backend_name be.uuid) (checked be) (is_some policy') be.endpoints)
      (ap (λ r. plain_backend be ∷ r) (plain_backends custom bes policy'))

plain_frontends :
    (custom : Dict (List Text)) (fes : List FrontendService) (policy : Option StickinessPolicy)
    → map plain_frontend (write_frontends custom policy fes).1 ≡ map plain_frontend fes
unfolding plain_frontend write_frontends write_frontend
plain_frontends custom [] policy = refl
plain_frontends custom (fe ∷ fes) policy =
    rw (plain_backends custom fe.backend_services _)
      (ap (λ r. plain_frontend fe ∷ r) (plain_frontends custom fes _))

-- Whatever the custom text, `BuildCustomConfig` changes no more of the frontends than their text,
-- the text of their backends and endpoints, and `AcceptProxy`: the frontends, backends and
-- endpoints, their names, addresses, ports, weights, rules and order are those of before. The
-- certificates and the name of the configuration are too.
pub build_custom_config-plain :
    (cfg : LoadBalancerConfig) (text : Text)
    → let out = build_custom_config cfg text in
      (map plain_frontend out.frontend_services ≡ map plain_frontend cfg.frontend_services)
      × (out.certs ≡ cfg.certs)
      × (out.default_cert ≡ cfg.default_cert)
      × (out.name ≡ cfg.name)
unfolding build_custom_config
build_custom_config-plain cfg text = (
  plain_frontends (add_defaults (parse text)) cfg.frontend_services cfg.stickiness_policy,
  refl,
  refl,
  refl,
)
