-- ===== src/Controller/Endpoints.antt =====
-- The endpoints of services and containers: `getContainerEndpoint`, `getServiceEndpoints` and the
-- functions that it chooses from. The hash of an address is a parameter.
use load_balancer_controller.Base.{
  ℕ, zero, suc, ◌<◌, ◌≤◌, Bool, true, false, not, ◌&&◌, ◌||◌, ◌==◌, Option, some, none, List, [],
  ◌∷◌, ◌++◌, ◌≡◌, refl, if◌then◌else◌, is_empty, map, any,
}
use load_balancer_controller.Base.Text.{Text, codes, text_eq, equal_fold, ℤ, pos}
use load_balancer_controller.Base.Dict.{Dict}
use load_balancer_controller.Base.Outcome.{Outcome, ok, err}
use load_balancer_controller.Config.{Endpoint}
use load_balancer_controller.Config.Order.{endpoint_less}
use load_balancer_controller.Metadata.{Metadata, Service, Container, Failure}
use load_balancer_controller.Controller.Links.{get_service}
use load_balancer_controller.Controller.Sorting.{sort}
pub mod Weights
pub mod Local
pub mod Aliases

-- What the choice of local containers needs: `localServicePreference` and `selfHostUUID`.
pub record Locality : Type 0 where
  pub preference : Text
  pub self_host : Text

unfoldable pub is_active_service : Service → Bool
unfolding any equal_fold
is_active_service svc = not (
    any (λ s. equal_fold svc.state s)
      (codes "inactive" ∷ codes "deactivating" ∷ codes "removed" ∷ codes "removing" ∷ []))

-- A new endpoint, with the fields that a literal leaves out at their zero values.
abbrev pub new_endpoint : Text → Text → ℤ → Endpoint
new_endpoint name ip port = record {
  name = name;
  ip = ip;
  port = port;
  config = [];
  is_cname = false;
  drain_timeout = [];
  weight = pos 0;
  stopping = false;
}

module _ (hash_ip : Text → Text) where
  -- The endpoint of a container that can serve, and whether it is only a contingency.
  unfoldable pub get_container_endpoint : Container → ℤ → Locality → Option (Endpoint × Bool)
  unfolding equal_fold text_eq
  get_container_endpoint c port l =
      let ep = new_endpoint (hash_ip c.primary_ip) c.primary_ip port in
      let stops = equal_fold c.state (codes "stopping") in
      if equal_fold c.state (codes "running") || equal_fold c.state (codes "starting") || stops
      then some (
        record ep { stopping = stops },
        not (text_eq l.preference (codes "any")) && not (equal_fold c.host_uuid l.self_host),
      )
      else none

  -- The loop of `getRegularServiceEndpoints`: the endpoints and the contingency endpoints.
  add_container :
      Option (Endpoint × Bool) → List Endpoint × List Endpoint → List Endpoint × List Endpoint
  add_container none r = r
  add_container (some (ep, true)) (eps, later) = (eps, ep ∷ later)
  add_container (some (ep, false)) (eps, later) = (ep ∷ eps, later)

  unfoldable pub container_endpoints : List Container → ℤ → Locality → List Endpoint × List Endpoint
  unfolding add_container get_container_endpoint
  container_endpoints [] port l = ([], [])
  container_endpoints (c ∷ cs) port l =
      add_container (get_container_endpoint c port l) (container_endpoints cs port l)

  unfoldable pub get_regular_service_endpoints : Service → ℤ → Locality → List Endpoint
  unfolding container_endpoints text_eq
  get_regular_service_endpoints svc port l =
      let (eps, contingency) = container_endpoints svc.containers port l in
      if text_eq l.preference (codes "prefer-local") && is_empty eps then contingency else eps

  unfoldable pub get_external_service_endpoints : Service → ℤ → List Endpoint
  get_external_service_endpoints svc port =
      map (λ ip. new_endpoint (hash_ip ip) ip port) svc.external_ips
      ++ (if not (is_empty svc.hostname)
          then record (new_endpoint svc.hostname svc.hostname port) { is_cname = true } ∷ []
          else [])

  -- What a recursion on fuel comes to; `none` is an end of the fuel.
  abbrev pub Endpoints : Type 0
  Endpoints = Option (Outcome Failure (List Endpoint))

  sorted_of : Endpoints → Endpoints
  unfolding sort endpoint_less
  sorted_of none = none
  sorted_of (some (err e)) = some (err e)
  sorted_of (some (ok eps)) = some (ok (sort endpoint_less eps))

  -- `eps = append(eps, newEps...)` and the rest of the loop, or the first failure.
  append_endpoints : Endpoints → Endpoints → Endpoints
  append_endpoints none rest = none
  append_endpoints (some (err e)) rest = some (err e)
  append_endpoints (some (ok eps)) none = none
  append_endpoints (some (ok eps)) (some (err e)) = some (err e)
  append_endpoints (some (ok eps)) (some (ok more)) = some (ok (eps ++ more))

  linked : (Service → Endpoints) → Outcome Failure Service → Endpoints
  linked go (err e) = some (err e)
  linked go (ok svc) = go svc

  -- The loop of `getAliasServiceEndpoints` over the links; `go` is `getServiceEndpoints`.
  alias_endpoints : (Service → Endpoints) → Metadata → Dict Text → Endpoints
  unfolding append_endpoints linked get_service
  alias_endpoints go md [] = some (ok [])
  alias_endpoints go md ((link, alias) ∷ links) =
      append_endpoints (linked go (get_service md link)) (alias_endpoints go md links)

  -- `getServiceEndpoints`: a DNS service stands for the services that it links to, which may be
  -- DNS services again.
  unfoldable pub get_service_endpoints : ℕ → Metadata → Service → ℤ → Locality → Endpoints
  unfolding sorted_of alias_endpoints get_external_service_endpoints get_regular_service_endpoints
      equal_fold
  get_service_endpoints zero md svc port l = none
  get_service_endpoints (suc fuel) md svc port l =
      let aliased = alias_endpoints (λ s. get_service_endpoints fuel md s port l) md svc.links in
      if equal_fold svc.kind (codes "externalService")
      then sorted_of (some (ok (get_external_service_endpoints svc port)))
      else if equal_fold svc.kind (codes "dnsService")
      then sorted_of aliased
      else sorted_of (some (ok (get_regular_service_endpoints svc port l)))
