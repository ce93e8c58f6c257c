-- ===== src/Provider/Custom/Write.antt =====
-- What `BuildCustomConfig` writes into the frontends, their backends and endpoints. The sticky
-- policy is shared: a cookie that it has none of is set to the UUID of the backend at hand.
use load_balancer_controller.Base.{
  Bool, true, false, not, ◌&&◌, ◌||◌, Option, some, none, List, [], ◌∷◌, ◌++◌, if◌then◌else◌,
  is_empty, map, keep, any, is_some,
}
use load_balancer_controller.Base.Text.{
  Text, codes, equal_fold, trim_space, ℤ, pos, itoa_int, int_lt, int_eq,
}
use load_balancer_controller.Base.Dict.{Dict}
use load_balancer_controller.Config.{
  Endpoint, BackendService, FrontendService, HealthCheck, StickinessPolicy, http_proto, https_proto,
}
use load_balancer_controller.Provider.Custom.Defaults.{conf_to_string}
use load_balancer_controller.Provider.Custom.Parse.{values, server_key, blank}

abbrev checked_or : Option HealthCheck → Option HealthCheck
unfolding int_lt
checked_or none = none
checked_or (some hc) = if int_lt (pos 0) hc.port then some hc else none

-- The health check when there is one to write.
unfoldable pub checked : BackendService → Option HealthCheck
unfolding checked_or int_lt
checked be = checked_or be.health_check

unfoldable pub endpoint_check : Option HealthCheck → Text
unfolding itoa_int
endpoint_check none = []
endpoint_check (some hc) =
    codes " check port "
    ++ (itoa_int hc.port
        ++ (codes " inter "
            ++ (itoa_int hc.interval
                ++ (codes " rise "
                    ++ (itoa_int hc.healthy_threshold
                        ++ (codes " fall " ++ itoa_int hc.unhealthy_threshold))))))

-- The blank of the format, and that of the text itself.
unfoldable pub resolver : Bool → Bool → Text
resolver false healthcheck = []
resolver true true = codes "  resolvers rancher"
resolver true false = codes "  check resolvers rancher"

unfoldable pub endpoint_cookie : Bool → Text → Text
endpoint_cookie false name = []
endpoint_cookie true name = codes " cookie " ++ name

unfoldable pub writes_weight : ℤ → Bool
unfolding int_eq int_lt
writes_weight w = not (int_eq w (pos 1)) && not (int_lt w (pos 0)) && int_lt w (pos 257)

unfoldable pub endpoint_weight : ℤ → Text
unfolding writes_weight itoa_int
endpoint_weight w = if writes_weight w then codes " weight " ++ itoa_int w else []

-- `sticky`: the policy is not nil.
unfoldable pub write_endpoint :
    Dict (List Text) → Text → Option HealthCheck → Bool → Endpoint → Endpoint
unfolding values server_key conf_to_string endpoint_check resolver endpoint_cookie endpoint_weight
write_endpoint custom be_name check sticky ep = record ep {
  config =
      conf_to_string (values (server_key be_name) custom) false false
      ++ (endpoint_check check
          ++ (resolver ep.is_cname (is_some check)
              ++ (endpoint_cookie sticky ep.name ++ endpoint_weight ep.weight)));
}

-- The two lines of a health check in a backend.
backend_check : Option HealthCheck → Text
unfolding itoa_int
backend_check none = []
backend_check (some hc) =
    codes "\n    timeout check "
    ++ (itoa_int hc.response_timeout
        ++ (if is_empty hc.request_line
            then []
            else codes "\n    option httpchk " ++ hc.request_line))

flag : Bool → Text → Text
flag false name = []
flag true name = blank ∷ name

cookie_line : StickinessPolicy → Text
unfolding flag
cookie_line p =
    codes "\n    cookie "
    ++ (p.cookie
        ++ (blank
            ∷ (p.mode
                ++ (flag p.indirect (codes "indirect")
                    ++ (flag p.nocache (codes "nocache")
                        ++ (flag p.postonly (codes "postonly")
                            ++ (if is_empty p.domain
                                then []
                                else codes " domain " ++ p.domain)))))))

backend_cookie : Option StickinessPolicy → Text
unfolding cookie_line
backend_cookie none = []
backend_cookie (some p) = cookie_line p

-- `if policy.Cookie == "" { policy.Cookie = be.UUID }`.
unfoldable pub name_cookie : Text → Option StickinessPolicy → Option StickinessPolicy
name_cookie uuid none = none
name_cookie uuid (some p) =
    some (record p { cookie = if is_empty p.cookie then uuid else p.cookie })

unfoldable pub backend_name : Text → Text
backend_name uuid = codes "backend " ++ uuid

-- A backend under the policy that applies to it, its cookie named.
unfoldable pub write_backend :
    Dict (List Text) → Option StickinessPolicy → BackendService → BackendService
unfolding backend_name values conf_to_string backend_check backend_cookie write_endpoint checked
write_backend custom policy be =
    let name = backend_name be.uuid in
    record be {
      config =
          conf_to_string (values name custom ++ values (codes "backend") custom) false true
          ++ (backend_check (checked be) ++ backend_cookie policy);
      endpoints = map (write_endpoint custom name (checked be) (is_some policy)) be.endpoints;
    }

unfoldable pub write_backends :
    Dict (List Text)
    → Option StickinessPolicy
    → List BackendService
    → Option StickinessPolicy × List BackendService
unfolding write_backend name_cookie
write_backends custom policy [] = (policy, [])
write_backends custom policy (be ∷ bes) =
    let policy' = name_cookie be.uuid policy in
    let rest = write_backends custom policy' bes in
    (rest.0, write_backend custom policy' be ∷ rest.1)

unfoldable pub frontend_name : Text → Text
frontend_name name = codes "frontend " ++ name

unfoldable pub is_accept_proxy : Text → Bool
unfolding equal_fold trim_space
is_accept_proxy line = equal_fold (trim_space line) (codes "accept-proxy")

unfoldable pub has_mode : Option StickinessPolicy → Bool
has_mode none = false
has_mode (some p) = not (is_empty p.mode)

-- The frontend is of a protocol that has cookies, and there is a policy with a mode.
unfoldable pub is_sticky : Option StickinessPolicy → FrontendService → Bool
unfolding has_mode equal_fold
is_sticky policy fe =
    has_mode policy && (equal_fold fe.protocol https_proto || equal_fold fe.protocol http_proto)

unfoldable pub write_frontend :
    Dict (List Text) → List BackendService → FrontendService → FrontendService
unfolding values frontend_name conf_to_string is_accept_proxy any keep
write_frontend custom bes fe =
    let lines = values (frontend_name fe.name) custom in
    record fe {
      backend_services = bes;
      config = conf_to_string (keep (λ l. not (is_accept_proxy l)) lines) false true;
      accept_proxy = fe.accept_proxy || any is_accept_proxy lines;
    }

unfoldable pub write_frontends :
    Dict (List Text)
    → Option StickinessPolicy
    → List FrontendService
    → Option StickinessPolicy × List FrontendService
unfolding is_sticky write_backends write_frontend
write_frontends custom policy [] = (policy, [])
write_frontends custom policy (fe ∷ fes) =
    let sticky = is_sticky policy fe in
    let written = write_backends custom (if sticky then policy else none) fe.backend_services in
    let rest = write_frontends custom (if sticky then written.0 else policy) fes in
    (rest.0, write_frontend custom written.1 fe ∷ rest.1)

-- `processedConfigs`: the servers' entry is made in the loop over the endpoints.
backend_names : List BackendService → List Text
unfolding backend_name server_key
backend_names [] = []
backend_names (be ∷ bes) =
    let name = backend_name be.uuid in
    name ∷ ((if is_empty be.endpoints then [] else server_key name ∷ []) ++ backend_names bes)

unfoldable pub processed_names : List FrontendService → List Text
unfolding backend_names frontend_name
processed_names [] = []
processed_names (fe ∷ fes) =
    frontend_name fe.name ∷ (backend_names fe.backend_services ++ processed_names fes)
