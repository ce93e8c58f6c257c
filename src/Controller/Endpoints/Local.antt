-- ===== src/Controller/Endpoints/Local.antt =====
-- The containers that `getRegularServiceEndpoints` takes, under the preference for one host.
use load_balancer_controller.Base.{
  Bool, true, false, not, ◌&&◌, ◌||◌, List, [], ◌∷◌, ◌≡◌, refl, if◌then◌else◌, is_empty, Bool-cases,
  inl, inr, arith,
}
use load_balancer_controller.Base.Text.{Text, codes, text_eq, text_eq_iff, equal_fold, ℤ}
use load_balancer_controller.Config.{Endpoint}
use load_balancer_controller.Metadata.{Service, Container}
use load_balancer_controller.Controller.Endpoints.{
  Locality, new_endpoint, get_container_endpoint, add_container, container_endpoints,
  get_regular_service_endpoints,
}

-- The container is in one of the three states in which it gets an endpoint.
abbrev pub can_serve : Container → Bool
can_serve c =
    equal_fold c.state (codes "running")
    || equal_fold c.state (codes "starting")
    || equal_fold c.state (codes "stopping")

abbrev pub on_host : Locality → Container → Bool
on_host l c = equal_fold c.host_uuid l.self_host

any-ne-prefer :
    (p : Text) → text_eq p (codes "any") ≡ true → text_eq p (codes "prefer-local") ≡ false
any-ne-prefer p h = rw ((text_eq_iff p (codes "any")).0 h) (unfold text_eq in refl)

module _ (hash_ip : Text → Text) (port : ℤ) where
  abbrev pub endpoint_of : Container → Endpoint
  endpoint_of c = record (new_endpoint (hash_ip c.primary_ip) c.primary_ip port) {
    stopping = equal_fold c.state (codes "stopping");
  }

  -- The endpoints of the containers that can serve and pass a test, in order.
  pub serving : (Container → Bool) → List Container → List Endpoint
  serving p [] = []
  serving p (c ∷ cs) =
      let rest = serving p cs in if can_serve c && p c then endpoint_of c ∷ rest else rest

  abbrev near : Locality → Container → Bool
  near l c = text_eq l.preference (codes "any") || on_host l c

  container_endpoints-serving :
      (cs : List Container) (l : Locality)
      → container_endpoints hash_ip cs port l
        ≡ (serving (near l) cs, serving (λ c. not (near l c)) cs)
  unfolding container_endpoints get_container_endpoint add_container serving
  container_endpoints-serving [] l = refl
  container_endpoints-serving (c ∷ cs) l = ground (arith, container_endpoints-serving cs l)

  serving-complement :
      (p : Container → Bool) (cs : List Container)
      → is_empty (serving p cs) ≡ true
      → serving (λ c. not (p c)) cs ≡ serving (λ c. true) cs
  unfolding serving
  serving-complement p [] h = refl
  serving-complement p (c ∷ cs) h = ground (arith, serving-complement p cs (ground arith))

  serving-same :
      (p q : Container → Bool) (cs : List Container)
      → ((c : Container) → p c ≡ q c)
      → serving p cs ≡ serving q cs
  unfolding serving
  serving-same p q [] h = refl
  serving-same p q (c ∷ cs) h = rw (h c, serving-same p q cs h)

  -- A service has the endpoints of its containers that can serve: of all of them with the
  -- preference "any"; with another preference of those on the controller's host; and with
  -- "prefer-local" of all of them if that host has none.
  pub get_regular_service_endpoints-serving :
      (svc : Service) (l : Locality)
      → let near_by = serving (on_host l) svc.containers in
        let everywhere = serving (λ c. true) svc.containers in
        get_regular_service_endpoints hash_ip svc port l ≡ (
          if text_eq l.preference (codes "any")
          then everywhere
          else if text_eq l.preference (codes "prefer-local") && is_empty near_by
          then everywhere
          else near_by)
  unfolding get_regular_service_endpoints
  get_regular_service_endpoints-serving svc l =
      rw container_endpoints-serving (elim (Bool-cases (text_eq l.preference (codes "any"))) [
        | inl e ↦
            rw (e, any-ne-prefer l.preference e)
              (serving-same (near l) (λ c. true) svc.containers (λ c. rw e))
        | inr e ↦ rw e (
            rw (serving-same (near l) (on_host l) svc.containers (λ c. rw e))
              (ground (arith, serving-complement (on_host l) svc.containers)))
      ])
