-- ===== src/Controller/Endpoints/Aliases.antt =====
-- When the recursion of `getServiceEndpoints` over the links of DNS services ends.
use load_balancer_controller.Base.{
  ℕ, zero, suc, ◌<◌, Bool, true, false, some, none, [], ◌∷◌, ◌≡◌, refl, ◌∙◌, is_some, Bool-cases,
  inl, inr, arith,
}
use load_balancer_controller.Base.Text.{Text, codes, equal_fold, ℤ}
use load_balancer_controller.Base.Dict.{Dict}
use load_balancer_controller.Base.Outcome.{Outcome, ok, err}
use load_balancer_controller.Metadata.{Metadata, Service, Failure}
use load_balancer_controller.Controller.Links.{get_service}
use load_balancer_controller.Controller.Endpoints.{
  Locality, Endpoints, sorted_of, append_endpoints, linked, alias_endpoints, get_service_endpoints,
}
use mathlib.Core.List.{Memᴰ}

abbrev pub is_dns : Service → Bool
is_dns svc = equal_fold svc.kind (codes "dnsService")

module _ (hash_ip : Text → Text) where
  sorted_of-some : (r : Endpoints hash_ip) → is_some (sorted_of hash_ip r) ≡ is_some r
  unfolding sorted_of
  sorted_of-some none = refl
  sorted_of-some (some (ok eps)) = refl
  sorted_of-some (some (err e)) = refl

  append_endpoints-some :
      (r rest : Endpoints hash_ip)
      → is_some r ≡ true
      → is_some rest ≡ true
      → is_some (append_endpoints hash_ip r rest) ≡ true
  unfolding append_endpoints
  append_endpoints-some none rest h k = absurd (cc h)
  append_endpoints-some (some (err e)) rest h k = refl
  append_endpoints-some (some (ok eps)) none h k = absurd (cc k)
  append_endpoints-some (some (ok eps)) (some (err e)) h k = refl
  append_endpoints-some (some (ok eps)) (some (ok more)) h k = refl

  linked-some :
      (go : Service → Endpoints hash_ip) (r : Outcome Failure Service)
      → ((s : Service) → r ≡ ok s → is_some (go s) ≡ true)
      → is_some (linked hash_ip go r) ≡ true
  unfolding linked
  linked-some go (err e) h = refl
  linked-some go (ok s) h = h s refl

  alias_endpoints-some :
      (go : Service → Endpoints hash_ip) (md : Metadata) (links : Dict Text)
      → ((link alias : Text) (s : Service)
          → Memᴰ (link, alias) links
          → get_service md link ≡ ok s
          → is_some (go s) ≡ true)
      → is_some (alias_endpoints hash_ip go md links) ≡ true
  unfolding alias_endpoints
  alias_endpoints-some go md [] h = refl
  alias_endpoints-some go md ((link, alias) ∷ links) h =
      append_endpoints-some _ _
        (linked-some go (get_service md link) (λ s e. h link alias s (Memᴰ.head refl) e))
        (alias_endpoints-some go md links (λ k a s m e. h k a s (Memᴰ.tail m) e))

  -- The endpoints of a service are found, or a failure is, if the links of DNS services lead down
  -- some rank: fuel above the rank of the service is enough.
  pub get_service_endpoints-returns :
      (md : Metadata) (port : ℤ) (l : Locality) (rank : Service → ℕ)
      → ((svc s : Service) (link alias : Text)
          → is_dns svc ≡ true
          → Memᴰ (link, alias) svc.links
          → get_service md link ≡ ok s
          → rank s < rank svc)
      → (fuel : ℕ) (svc : Service) → rank svc < fuel
      → is_some (get_service_endpoints hash_ip fuel md svc port l) ≡ true
  unfolding get_service_endpoints sorted_of
  get_service_endpoints-returns md port l rank down zero svc h = absurd (omega arith)
  get_service_endpoints-returns md port l rank down (suc fuel) svc h =
      elim (Bool-cases (equal_fold svc.kind (codes "externalService"))) [
        | inl e ↦ rw e refl
        | inr e ↦ rw e (elim (Bool-cases (is_dns svc)) [
          | inl f ↦ rw f (
              sorted_of-some _
              ∙ alias_endpoints-some (λ s. get_service_endpoints hash_ip fuel md s port l) md
                  svc.links
                  (λ k a s m q.
                    get_service_endpoints-returns md port l rank down fuel s
                      (omega (arith, down svc s k a f m q))))
          | inr f ↦ rw f refl
        ])
      ]

  -- A DNS service whose first link leads to itself is never resolved: no fuel is enough, so the
  -- recursion of the code does not end.
  pub get_service_endpoints-loops :
      (md : Metadata) (port : ℤ) (l : Locality) (svc : Service) (link alias : Text)
      (links : Dict Text)
      → is_dns svc ≡ true
      → equal_fold svc.kind (codes "externalService") ≡ false
      → svc.links ≡ (link, alias) ∷ links
      → get_service md link ≡ ok svc
      → (fuel : ℕ) → get_service_endpoints hash_ip fuel md svc port l ≡ none
  unfolding get_service_endpoints alias_endpoints linked append_endpoints sorted_of
  get_service_endpoints-loops md port l svc link alias links a b c d zero = refl
  get_service_endpoints-loops md port l svc link alias links a b c d (suc fuel) =
      rw (b, a, c, d)
        (rw (get_service_endpoints-loops md port l svc link alias links a b c d fuel) refl)
