-- ===== src/Controller/Endpoints/Weights.antt =====
-- The weights of the endpoints that `getServiceEndpoints` and `getContainerEndpoint` give.
use load_balancer_controller.Base.{
  ℕ, zero, suc, Bool, true, some, none, List, [], ◌∷◌, ◌≡◌, refl, ◌∙◌, Bool-cases, inl, inr, arith,
  all, all-append, map,
}
use load_balancer_controller.Base.Text.{Text, codes, equal_fold, ℤ, pos, int_eq}
use load_balancer_controller.Base.Dict.{Dict}
use load_balancer_controller.Base.Outcome.{Outcome, ok, err}
use load_balancer_controller.Config.{Endpoint}
use load_balancer_controller.Config.Order.{endpoint_less}
use load_balancer_controller.Metadata.{Metadata, Service, Container, Failure}
use load_balancer_controller.Controller.Sorting.{all-sort}
use load_balancer_controller.Controller.Links.{get_service}
use load_balancer_controller.Controller.Endpoints.{
  Locality, Endpoints, new_endpoint, get_container_endpoint, add_container, container_endpoints,
  get_regular_service_endpoints, get_external_service_endpoints, sorted_of, append_endpoints,
  linked, alias_endpoints, get_service_endpoints,
}

abbrev pub unweighed : Endpoint → Bool
unweighed ep = int_eq ep.weight (pos 0)

module _ (hash_ip : Text → Text) where
  -- Whatever endpoints come out, none has a weight yet.
  abbrev pub Unweighed : Endpoints hash_ip → Type 0
  Unweighed none = Unit
  Unweighed (some (err e)) = Unit
  Unweighed (some (ok eps)) = all unweighed eps ≡ true

  pub get_container_endpoint-unweighed :
      (c : Container) (port : ℤ) (l : Locality) {ep : Endpoint} {later : Bool}
      → get_container_endpoint hash_ip c port l ≡ some (ep, later)
      → unweighed ep ≡ true
  unfolding get_container_endpoint int_eq
  get_container_endpoint-unweighed c port l h = ground arith

  container_endpoints-unweighed :
      (cs : List Container) (port : ℤ) (l : Locality)
      → (all unweighed (container_endpoints hash_ip cs port l).0 ≡ true)
        × (all unweighed (container_endpoints hash_ip cs port l).1 ≡ true)
  unfolding container_endpoints get_container_endpoint add_container all int_eq
  container_endpoints-unweighed [] port l = (refl, refl)
  container_endpoints-unweighed (c ∷ cs) port l =
      ground (arith, container_endpoints-unweighed cs port l)

  regular_unweighed :
      (svc : Service) (port : ℤ) (l : Locality)
      → all unweighed (get_regular_service_endpoints hash_ip svc port l) ≡ true
  unfolding get_regular_service_endpoints
  regular_unweighed svc port l = ground (arith, container_endpoints-unweighed svc.containers port l)

  ips_unweighed :
      (ips : List Text) (port : ℤ)
      → all unweighed (map (λ ip. new_endpoint (hash_ip ip) ip port) ips) ≡ true
  unfolding all int_eq
  ips_unweighed [] port = refl
  ips_unweighed (ip ∷ ips) port = ips_unweighed ips port

  external_unweighed :
      (svc : Service) (port : ℤ)
      → all unweighed (get_external_service_endpoints hash_ip svc port) ≡ true
  unfolding get_external_service_endpoints all int_eq
  external_unweighed svc port =
      all-append unweighed (map (λ ip. new_endpoint (hash_ip ip) ip port) svc.external_ips) _
      ∙ ground (arith, ips_unweighed svc.external_ips port)

  sorted_of-Unweighed : (r : Endpoints hash_ip) → Unweighed r → Unweighed (sorted_of hash_ip r)
  unfolding sorted_of
  sorted_of-Unweighed none h = tt
  sorted_of-Unweighed (some (err e)) h = tt
  sorted_of-Unweighed (some (ok eps)) h = all-sort endpoint_less unweighed eps ∙ h

  append_endpoints-Unweighed :
      (r rest : Endpoints hash_ip)
      → Unweighed r
      → Unweighed rest
      → Unweighed (append_endpoints hash_ip r rest)
  unfolding append_endpoints
  append_endpoints-Unweighed none rest h k = tt
  append_endpoints-Unweighed (some (err e)) rest h k = tt
  append_endpoints-Unweighed (some (ok eps)) none h k = tt
  append_endpoints-Unweighed (some (ok eps)) (some (err e)) h k = tt
  append_endpoints-Unweighed (some (ok eps)) (some (ok more)) h k =
      all-append unweighed eps more ∙ ground (arith, h, k)

  linked-Unweighed :
      (go : Service → Endpoints hash_ip) (r : Outcome Failure Service)
      → ((s : Service) → Unweighed (go s))
      → Unweighed (linked hash_ip go r)
  unfolding linked
  linked-Unweighed go (err e) h = tt
  linked-Unweighed go (ok s) h = h s

  alias_endpoints-Unweighed :
      (go : Service → Endpoints hash_ip) (md : Metadata) (links : Dict Text)
      → ((s : Service) → Unweighed (go s))
      → Unweighed (alias_endpoints hash_ip go md links)
  unfolding alias_endpoints all
  alias_endpoints-Unweighed go md [] h = refl
  alias_endpoints-Unweighed go md ((link, alias) ∷ links) h =
      append_endpoints-Unweighed (linked hash_ip go (get_service md link))
        (alias_endpoints hash_ip go md links) (linked-Unweighed go (get_service md link) h)
        (alias_endpoints-Unweighed go md links h)

  pub get_service_endpoints-Unweighed :
      (fuel : ℕ) (md : Metadata) (svc : Service) (port : ℤ) (l : Locality)
      → Unweighed (get_service_endpoints hash_ip fuel md svc port l)
  unfolding get_service_endpoints
  get_service_endpoints-Unweighed zero md svc port l = tt
  get_service_endpoints-Unweighed (suc fuel) md svc port l =
      elim (Bool-cases (equal_fold svc.kind (codes "externalService"))) [
        | inl e ↦ rw e (sorted_of-Unweighed (some (ok _)) (external_unweighed svc port))
        | inr e ↦ rw e (elim (Bool-cases (equal_fold svc.kind (codes "dnsService"))) [
          | inl f ↦ rw f (
              sorted_of-Unweighed
                (alias_endpoints hash_ip (λ s. get_service_endpoints hash_ip fuel md s port l) md
                  svc.links)
                (alias_endpoints-Unweighed (λ s. get_service_endpoints hash_ip fuel md s port l) md
                  svc.links (λ s. get_service_endpoints-Unweighed fuel md s port l)))
          | inr f ↦ rw f (sorted_of-Unweighed (some (ok _)) (regular_unweighed svc port l))
        ])
      ]
