-- ===== src/Provider/Selection.antt =====
-- What `haproxyConfig.write` hands to the template.
use load_balancer_controller.Base.{
  ◌==◌, Bool, not, Option, some, none, List, [], ◌∷◌, ◌++◌, if◌then◌else◌, is_some, any, keep,
}
use load_balancer_controller.Base.Text.{Text, codes, text_eq}
use load_balancer_controller.Base.Dict.{Dict, insert, lookup}
use load_balancer_controller.Config.{
  FrontendService, BackendService, LoadBalancerConfig, Certificate, http_proto, https_proto,
  tls_proto, tcp_proto, sni_proto,
}

-- `supportedProtos[fe.Protocol]`: the exact name, and UDP is not among them.
unfoldable pub supported : FrontendService → Bool
unfolding text_eq any
supported fe =
    any (λ p. text_eq fe.protocol p)
      (http_proto ∷ https_proto ∷ tls_proto ∷ tcp_proto ∷ sni_proto ∷ [])

-- The map `m` of the UUIDs seen, and the backends taken so far.
pub record Taken : Type 0 where
  pub seen : Dict Text
  pub backends : List BackendService

unfoldable pub take_backend : BackendService → Taken → Taken
unfolding insert lookup
take_backend be t =
    if is_some (lookup be.uuid t.seen)
    then t
    else record { seen = insert be.uuid be.uuid t.seen; backends = t.backends ++ be ∷ [] }

unfoldable pub take_backends : List BackendService → Taken → Taken
unfolding take_backend
take_backends [] t = t
take_backends (be ∷ bes) t = take_backends bes (take_backend be t)

unfoldable pub take_frontends : List FrontendService → Taken → Taken
unfolding take_backends supported
take_frontends [] t = t
take_frontends (fe ∷ fes) t =
    take_frontends fes (if supported fe then take_backends fe.backend_services t else t)

-- `strings.Replace(name, " ", "\\ ", -1)`
escape_blanks : Text → Text
escape_blanks [] = []
escape_blanks (c ∷ s) =
    let rest = escape_blanks s in if c == b' ' then b'\\' ∷ b' ' ∷ rest else c ∷ rest

pub record Rendered : Type 0 where
  pub frontends : List FrontendService
  pub backends : List BackendService
  pub global_config : Text
  pub strict_sni : Bool
  pub default_cert_file : Option Text

abbrev pem_of : Option Certificate → Option Text
unfolding escape_blanks
pem_of none = none
pem_of (some c) = some (escape_blanks c.name ++ codes ".pem")

unfoldable pub select : LoadBalancerConfig → Rendered
unfolding take_frontends keep supported escape_blanks
select cfg = record {
  frontends = keep supported cfg.frontend_services;
  backends = (take_frontends cfg.frontend_services (record { seen = []; backends = [] })).backends;
  global_config = cfg.config;
  strict_sni = not (is_some cfg.default_cert);
  default_cert_file = pem_of cfg.default_cert;
}
