-- ===== src/Provider/Custom/Defaults.antt =====
-- `GetDefaultConfig` and `confToString`, of provider/haproxy/haproxy_config_util.go.
use load_balancer_controller.Base.{Bool, List, [], ◌∷◌, ◌++◌, if◌then◌else◌}
use load_balancer_controller.Base.Text.{Text, codes, text_gt, join}
use load_balancer_controller.Base.Dict.{Dict}
use load_balancer_controller.Controller.Sorting.{sort}

default_global : Dict Text
default_global =
    (codes "maxconn", codes "4096")
    ∷ (codes "maxpipes", codes "1024")
    ∷ (
      codes "ssl-default-bind-ciphers",
      codes
          "ECDHE-ECDSA-AES128-GCM-SHA256:ECDHE-RSA-AES128-GCM-SHA256:ECDHE-ECDSA-AES128-SHA256:ECDHE-RSA-AES128-SHA256:ECDHE-ECDSA-AES128-SHA:ECDHE-RSA-AES128-SHA:ECDHE-ECDSA-AES256-GCM-SHA384:ECDHE-RSA-AES256-GCM-SHA384:ECDHE-ECDSA-AES256-SHA384:ECDHE-RSA-AES256-SHA384:ECDHE-RSA-AES256-SHA:ECDHE-ECDSA-AES256-SHA:AES128-GCM-SHA256:AES128-SHA256:AES128-SHA:AES256-GCM-SHA384:AES256-SHA256:AES256-SHA",
    )
    ∷ (
      codes "ssl-default-server-ciphers",
      codes
          "ECDHE-ECDSA-AES128-GCM-SHA256:ECDHE-RSA-AES128-GCM-SHA256:ECDHE-ECDSA-AES128-SHA256:ECDHE-RSA-AES128-SHA256:ECDHE-ECDSA-AES128-SHA:ECDHE-RSA-AES128-SHA:ECDHE-ECDSA-AES256-GCM-SHA384:ECDHE-RSA-AES256-GCM-SHA384:ECDHE-ECDSA-AES256-SHA384:ECDHE-RSA-AES256-SHA384:ECDHE-RSA-AES256-SHA:ECDHE-ECDSA-AES256-SHA:AES128-GCM-SHA256:AES128-SHA256:AES128-SHA:AES256-GCM-SHA384:AES256-SHA256:AES256-SHA",
    )
    ∷ (codes "ssl-default-bind-options", codes "no-sslv3 no-tlsv10 no-tls-tickets")
    ∷ (codes "chroot", codes "/var/lib/haproxy")
    ∷ (codes "daemon", codes "")
    ∷ (codes "stats socket", codes "/run/haproxy/haproxy.sock mode 600 level admin")
    ∷ (codes "stats timeout", codes "2m")
    ∷ []

default_defaults : Dict Text
default_defaults =
    (codes "mode", codes "tcp")
    ∷ (codes "option redispatch", codes "")
    ∷ (codes "option http-server-close", codes "")
    ∷ (codes "option forwardfor", codes "")
    ∷ (codes "maxconn", codes "4096")
    ∷ (codes "retries", codes "3")
    ∷ (codes "timeout connect", codes "5000")
    ∷ (codes "timeout client", codes "50000")
    ∷ (codes "timeout server", codes "50000")
    ∷ (codes "errorfile 400", codes "/etc/haproxy/errors/400.http")
    ∷ (codes "errorfile 403", codes "/etc/haproxy/errors/403.http")
    ∷ (codes "errorfile 408", codes "/etc/haproxy/errors/408.http")
    ∷ (codes "errorfile 500", codes "/etc/haproxy/errors/500.http")
    ∷ (codes "errorfile 502", codes "/etc/haproxy/errors/502.http")
    ∷ (codes "errorfile 503", codes "/etc/haproxy/errors/503.http")
    ∷ (codes "errorfile 504", codes "/etc/haproxy/errors/504.http")
    ∷ []

default_backend : Dict Text
default_backend =
    (codes "http-request add-header X-Forwarded-Proto", codes "https if { ssl_fc } forwarded_proto")
    ∷ (codes "http-request add-header X-Forwarded-Port", codes "%[dst_port] if forwarded_port")
    ∷ []

unfoldable pub get_default_config : Dict (Dict Text)
unfolding default_global default_defaults default_backend
get_default_config =
    (codes "defaults", default_defaults)
    ∷ (codes "global", default_global)
    ∷ (codes "backend", default_backend)
    ∷ []

-- The order of `sort.Strings`.
unfoldable pub text_less : Text → Text → Bool
unfolding text_gt
text_less a b = text_gt b a

lines_of : List Text → Bool → Text
unfolding join
lines_of conf tab =
    let text = join (codes "\n    ") conf in if tab then codes "    " ++ text else text

unfoldable pub conf_to_string : List Text → Bool → Bool → Text
unfolding lines_of sort text_less
conf_to_string [] sort_values tab = []
conf_to_string (c ∷ cs) sort_values tab =
    lines_of (if sort_values then sort text_less (c ∷ cs) else c ∷ cs) tab
