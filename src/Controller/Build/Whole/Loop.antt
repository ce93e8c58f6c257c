-- ===== src/Controller/Build/Whole/Loop.antt =====
-- The backends after the loop of `BuildConfigFromMetadata` over the rules.
use load_balancer_controller.Base.{
  ℕ, Bool, true, Option, some, none, List, [], ◌∷◌, ◌≡◌, refl, Bool-cases, inl, inr, arith, all,
  is_empty,
}
use load_balancer_controller.Base.Text.{Text, ℤ, pos, int_lt}
use load_balancer_controller.Base.Dict.{lookup}
use load_balancer_controller.Base.Outcome.{Outcome, ok, err}
use load_balancer_controller.Config
use load_balancer_controller.Config.{Endpoint}
use load_balancer_controller.Metadata.{Metadata, Service, Container, PortRule, Failure}
use load_balancer_controller.Controller.Links.{get_service}
use load_balancer_controller.Controller.Endpoints.{
  Locality, is_active_service, get_container_endpoint,
}
use load_balancer_controller.Controller.Endpoints.Weights.{
  unweighed, Unweighed, get_container_endpoint-unweighed, get_service_endpoints-Unweighed,
}
use load_balancer_controller.Controller.Build.{Tables}
use load_balancer_controller.Controller.Build.Merged.{IsMerged, add_rule-IsMerged}
use load_balancer_controller.Controller.Build.Whole.{
  Target, with_check, service_target, endpoint_target, container_target, rule_target, get_container,
  after_target, build_rule, then_rules, build_rules,
}

module _ (hash_ip : Text → Text) (fuel : ℕ) (md : Metadata) (l : Locality) where
  -- What a target brings has no weight yet.
  abbrev Plain : Target → Type 0
  Plain none = Unit
  Plain (some (err e)) = Unit
  Plain (some (ok none)) = Unit
  Plain (some (ok (some (eps, hc)))) = all unweighed eps ≡ true

  abbrev Merges : Option (Outcome Failure Tables) → Type 0
  Merges none = Unit
  Merges (some (err e)) = Unit
  Merges (some (ok t)) = IsMerged t

  checked :
      (hc : Config.HealthCheck) (r : Option (Outcome Failure (List Endpoint)))
      → Unweighed hash_ip r
      → Plain (with_check hc r)
  unfolding with_check
  checked hc none h = tt
  checked hc (some (err e)) h = tt
  checked hc (some (ok eps)) h = h

  service_target-Plain :
      (r : Outcome Failure Service) (port : ℤ) → Plain (service_target hash_ip fuel md l r port)
  unfolding service_target
  service_target-Plain (err e) port = tt
  service_target-Plain (ok svc) port = elim (Bool-cases (is_active_service svc)) [
    | inl e ↦ rw e (checked _ _ (get_service_endpoints-Unweighed hash_ip fuel md svc port l))
    | inr e ↦ rw e tt
  ]

  endpoint_target-Plain :
      (c : Container) (port : ℤ) (o : Option (Endpoint × Bool))
      → get_container_endpoint hash_ip c port l ≡ o
      → Plain (endpoint_target hash_ip fuel md l c o)
  unfolding endpoint_target all
  endpoint_target-Plain c port none h = tt
  endpoint_target-Plain c port (some (ep, later)) h =
      ground (arith, get_container_endpoint-unweighed hash_ip c port l {ep = ep} {later = later} h)

  container_target-Plain :
      (r : Outcome Failure (Option Container)) (port : ℤ)
      → Plain (container_target hash_ip fuel md l r port)
  unfolding container_target
  container_target-Plain (err e) port = tt
  container_target-Plain (ok none) port = tt
  container_target-Plain (ok (some c)) port = endpoint_target-Plain c port _ refl

  rule_target-Plain :
      (env_uuid : Text) (rule : PortRule) → Plain (rule_target hash_ip fuel md l env_uuid rule)
  unfolding rule_target
  rule_target-Plain env_uuid rule = elim (Bool-cases (is_empty rule.service)) [
    | inl e ↦
        rw e (container_target-Plain (get_container md env_uuid rule.container) rule.target_port)
    | inr e ↦ rw e (service_target-Plain (get_service md rule.service) rule.target_port)
  ]

  after_target-Merges :
      (rule : PortRule) (r : Target) (t : Tables)
      → Plain r
      → IsMerged t
      → Merges (after_target hash_ip fuel md l rule r t)
  unfolding after_target
  after_target-Merges rule none t h c = tt
  after_target-Merges rule (some (err e)) t h c = tt
  after_target-Merges rule (some (ok none)) t h c = c
  after_target-Merges rule (some (ok (some (eps, hc)))) t h c =
      add_rule-IsMerged rule eps (some hc) t h c

  build_rule-Merges :
      (env_uuid : Text) (rule : PortRule) (t : Tables)
      → IsMerged t
      → Merges (build_rule hash_ip fuel md l env_uuid rule t)
  unfolding build_rule
  build_rule-Merges env_uuid rule t c = elim (Bool-cases (int_lt rule.source_port (pos 1))) [
    | inl e ↦ rw e c
    | inr e ↦ rw e (
        after_target-Merges rule (rule_target hash_ip fuel md l env_uuid rule) t
          (rule_target-Plain env_uuid rule) c)
  ]

  follow :
      (go : Tables → Option (Outcome Failure Tables)) (r : Option (Outcome Failure Tables))
      → ((t : Tables) → IsMerged t → Merges (go t))
      → Merges r
      → Merges (then_rules hash_ip fuel md l go r)
  unfolding then_rules
  follow go none k h = tt
  follow go (some (err e)) k h = tt
  follow go (some (ok t)) k h = k t h

  rules-Merges :
      (env_uuid : Text) (rules : List PortRule) (t : Tables)
      → IsMerged t
      → Merges (build_rules hash_ip fuel md l env_uuid rules t)
  unfolding build_rules
  rules-Merges env_uuid [] t c = c
  rules-Merges env_uuid (rule ∷ rules) t c =
      follow (λ t'. build_rules hash_ip fuel md l env_uuid rules t')
        (build_rule hash_ip fuel md l env_uuid rule t) (λ t' c'. rules-Merges env_uuid rules t' c')
        (build_rule-Merges env_uuid rule t c)

  -- In the tables that the loop over the rules builds, the addresses remembered for a backend are
  -- those of its endpoints, and an endpoint that is stopping has the weight zero, however many
  -- rules were merged into the backend and whatever their weights.
  pub build_rules-IsMerged :
      (env_uuid : Text) (rules : List PortRule) {t : Tables}
      → build_rules hash_ip fuel md l env_uuid rules
          (record { frontends = []; all_be = []; all_eps = [] })
        ≡ some (ok t)
      → IsMerged t
  build_rules-IsMerged env_uuid rules {t} h = rw h at (
      rules-Merges env_uuid rules (record { frontends = []; all_be = []; all_eps = [] })
        (λ k. unfold lookup in tt))
