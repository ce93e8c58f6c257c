-- ===== src/Tests/Configs.antt =====
-- The custom configuration on two frontends with a backend each.
use load_balancer_controller.Base.{true, false, some, none, [], ◌∷◌, ◌++◌, ◌≡◌, refl, all, map}
use load_balancer_controller.Base.Text.{Text, codes, pos, split_byte}
use load_balancer_controller.Config.{
  Endpoint, BackendService, FrontendService, StickinessPolicy, LoadBalancerConfig,
}
use load_balancer_controller.Drain.Desired.{desired_endpoint}
use load_balancer_controller.Provider.Custom.{build_custom_config}
use load_balancer_controller.Provider.Custom.Defaults.{get_default_config}
use load_balancer_controller.Provider.Custom.Parse.{parse, add_defaults, values, overrides}
use load_balancer_controller.Provider.Custom.Write.{write_frontends}
use load_balancer_controller.Provider.Custom.Weight.{
  is_weighed_frontend, build_custom_config-is_weighed,
}
use load_balancer_controller.Provider.Custom.Kept.{plain_frontend, build_custom_config-plain}
use load_balancer_controller.Provider.Custom.Cookies.{
  first_sticky, under_policy, write_frontends-first_sticky,
}
use load_balancer_controller.Provider.Custom.Sections.{
  of_section, tagged, tagged_values, left, default_text, values-parse,
}

abbrev endpoint : Endpoint
endpoint = record {
  name = codes "n";
  ip = codes "10.0.0.1";
  port = pos 80;
  config = [];
  is_cname = true;
  drain_timeout = [];
  weight = pos 20;
  stopping = false;
}

abbrev backend : Text → BackendService
backend uuid = record {
  uuid = uuid;
  endpoints = endpoint ∷ [];
  path = [];
  host = [];
  rule_comparator = [];
  algorithm = [];
  port = pos 80;
  protocol = codes "http";
  config = [];
  health_check = some (record {
    response_timeout = pos 2000;
    interval = pos 2000;
    healthy_threshold = pos 2;
    unhealthy_threshold = pos 3;
    request_line = [];
    port = pos 80;
  });
  priority = pos 0;
  send_proxy = false;
}

abbrev frontend : Text → Text → FrontendService
frontend name uuid = record {
  name = name;
  port = pos 80;
  backend_services = backend uuid ∷ [];
  protocol = codes "http";
  config = [];
  accept_proxy = false;
}

abbrev policy : StickinessPolicy
policy = record {
  name = [];
  cookie = [];
  domain = [];
  indirect = true;
  nocache = false;
  postonly = false;
  mode = codes "insert";
}

abbrev config : LoadBalancerConfig
config = record {
  default_cert = none;
  certs = [];
  name = codes "lb";
  frontend_services = frontend (codes "80") (codes "a") ∷ frontend (codes "90") (codes "b") ∷ [];
  config = [];
  stickiness_policy = some policy;
}

abbrev custom_text : Text
custom_text = codes "global\n  maxconn 9\nbackend a\n  server $IP weight 5 maxconn 3"

-- The weight of the configuration is read, not that of the server template.
template_weight :
    map
      (λ (fe : FrontendService).
        map
          (λ (be : BackendService).
            map (λ (ep : Endpoint). (desired_endpoint ep).weight) be.endpoints)
          fe.backend_services)
      (build_custom_config config custom_text).frontend_services
    ≡ ((pos 20 ∷ []) ∷ []) ∷ ((pos 20 ∷ []) ∷ []) ∷ []
unfolding build_custom_config desired_endpoint
template_weight = refl

-- A bare custom line does not replace the bare default of the same name.
daemon_twice : overrides (codes "global") (codes "daemon") (codes "daemon") ≡ false
unfolding overrides
daemon_twice = refl

build_custom_config-is_weighed_example :
    all is_weighed_frontend (build_custom_config config custom_text).frontend_services ≡ true
build_custom_config-is_weighed_example = build_custom_config-is_weighed config custom_text

build_custom_config-plain_example :
    let out = build_custom_config config custom_text in
    (map plain_frontend out.frontend_services ≡ map plain_frontend config.frontend_services)
    × (out.certs ≡ config.certs)
    × (out.default_cert ≡ config.default_cert)
    × (out.name ≡ config.name)
build_custom_config-plain_example = build_custom_config-plain config custom_text

values-parse_example :
    values (codes "global") (add_defaults (parse custom_text))
    ≡ of_section (codes "global") (tagged [] (split_byte 10 custom_text))
      ++ of_section (codes "global") (
          map default_text (left (tagged_values [] (split_byte 10 custom_text)) get_default_config))
values-parse_example = values-parse (codes "global") custom_text

write_frontends-first_sticky_example :
    let named = some (record policy { cookie = codes "a" }) in
    write_frontends [] (some policy) config.frontend_services
    ≡ (named, map (under_policy [] named) config.frontend_services)
write_frontends-first_sticky_example =
    write_frontends-first_sticky [] policy (codes "a") config.frontend_services refl refl
      (unfold first_sticky in refl)
