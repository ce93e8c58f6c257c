-- ===== src/Config.antt =====
-- The configuration that the controller hands to a provider (config/config.go): its types, the
-- protocol and comparator names, and the order of frontends, backends and endpoints.
pub mod Order
use load_balancer_controller.Base.{Bool, Option, List}
use load_balancer_controller.Base.Text.{Text, codes, ℤ}

abbrev pub http_proto : Text
http_proto = codes "http"

abbrev pub https_proto : Text
https_proto = codes "https"

abbrev pub tls_proto : Text
tls_proto = codes "tls"

abbrev pub tcp_proto : Text
tcp_proto = codes "tcp"

abbrev pub sni_proto : Text
sni_proto = codes "sni"

abbrev pub eq_rule_comparator : Text
eq_rule_comparator = codes "eq"

abbrev pub beg_rule_comparator : Text
beg_rule_comparator = codes "beg"

abbrev pub end_rule_comparator : Text
end_rule_comparator = codes "end"

pub record HealthCheck : Type 0 where
  pub response_timeout : ℤ
  pub interval : ℤ
  pub healthy_threshold : ℤ
  pub unhealthy_threshold : ℤ
  pub request_line : Text
  pub port : ℤ

pub record StickinessPolicy : Type 0 where
  pub name : Text
  pub cookie : Text
  pub domain : Text
  pub indirect : Bool
  pub nocache : Bool
  pub postonly : Bool
  pub mode : Text

pub record Endpoint : Type 0 where
  pub name : Text
  pub ip : Text
  pub port : ℤ
  pub config : Text
  pub is_cname : Bool
  pub drain_timeout : Text
  pub weight : ℤ
  pub stopping : Bool

pub record BackendService : Type 0 where
  pub uuid : Text
  pub endpoints : List Endpoint
  pub path : Text
  pub host : Text
  pub rule_comparator : Text
  pub algorithm : Text
  pub port : ℤ
  pub protocol : Text
  pub config : Text
  pub health_check : Option HealthCheck
  pub priority : ℤ
  pub send_proxy : Bool

pub record FrontendService : Type 0 where
  pub name : Text
  pub port : ℤ
  pub backend_services : List BackendService
  pub protocol : Text
  pub config : Text
  pub accept_proxy : Bool

pub record Certificate : Type 0 where
  pub name : Text
  pub cert : Text
  pub key : Text
  pub fetch : Bool

pub record LoadBalancerConfig : Type 0 where
  pub default_cert : Option Certificate
  pub certs : List Certificate
  pub name : Text
  pub frontend_services : List FrontendService
  pub config : Text
  pub stickiness_policy : Option StickinessPolicy
