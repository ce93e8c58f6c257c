-- ===== src/Provider/Custom/Weight.antt =====
-- The weight that `BuildCustomConfig` writes into the text of an endpoint, and that `setDesired`
-- of the drain manager reads from it.
use load_balancer_controller.Base.{
  ℕ, ◌<◌, Bool, true, false, not, ◌||◌, Option, some, List, [], ◌∷◌, ◌++◌, ◌≡◌, refl, sym, ap, ◌∙◌,
  map, all, is_some, arith, inl, inr, Bool-cases,
}
use load_balancer_controller.Base.Text.{
  Text, codes, fields, fields-blank, fields-itoa, atoi, itoa, atoi-itoa, ℤ, pos, negsuc, int_eq,
  int_lt, int_eq_refl,
}
use load_balancer_controller.Base.Dict.{Dict}
use load_balancer_controller.Config.{
  Endpoint, BackendService, FrontendService, HealthCheck, StickinessPolicy, LoadBalancerConfig,
}
use load_balancer_controller.Drain.State.{DesiredEndpoint}
use load_balancer_controller.Drain.Desired.{desired_endpoint, scan_config, next_weight}
use load_balancer_controller.Provider.Custom.{build_custom_config}
use load_balancer_controller.Provider.Custom.Defaults.{conf_to_string}
use load_balancer_controller.Provider.Custom.Parse.{values, server_key, add_defaults, parse}
use load_balancer_controller.Provider.Custom.Write.{
  write_endpoint, writes_weight, write_backends, write_backend, write_frontends, write_frontend,
  endpoint_check, endpoint_cookie, endpoint_weight, resolver, checked, backend_name, name_cookie,
}
use load_balancer_controller.Base.Text.Split.{fields_onto}
use mathlib.Core.List.{append_assoc}

-- The last field of the name counts.
scan_config-last :
    (v : Text) (w : ℤ) (xs : List Text) (d : DesiredEndpoint)
    → atoi v ≡ some w
    → (scan_config d (xs ++ (codes "weight" ∷ v ∷ []))).weight ≡ w
unfolding scan_config next_weight
scan_config-last v w [] d h = rw h refl
scan_config-last v w (x ∷ xs) d h = scan_config-last v w xs _ h

fields-weight :
    (a : Text) (n : ℕ)
    → n < 257
    → fields (a ++ (codes " weight " ++ itoa n)) ≡ fields a ++ (codes "weight" ∷ itoa n ∷ [])
unfolding fields fields_onto
fields-weight a n h =
    fields-blank a (codes "weight " ++ itoa n)
    ∙ ap (λ r. fields a ++ r)
        (fields-blank (codes "weight") (itoa n)
          ∙ ap (λ r. codes "weight" ∷ r) (fields-itoa n (omega arith)))

written_range : (w : ℤ) → writes_weight w ≡ true → (n : ℕ) × (w ≡ pos n) × (n < 257)
unfolding writes_weight int_lt
written_range (pos n) h = (n, refl, ground arith)
written_range (negsuc n) h = absurd (ground arith)

-- A text that ends in the weight is read as having it, whatever stands before.
written_weight :
    (ep : Endpoint) (a : Text)
    → writes_weight ep.weight ≡ true
    → (desired_endpoint (record ep { config = a ++ endpoint_weight ep.weight })).weight ≡ ep.weight
unfolding desired_endpoint endpoint_weight
written_weight ep a h =
    let (n, e, l) = written_range ep.weight h in
    rw (h, e)
      (rw (fields-weight a n l)
        (scan_config-last (itoa n) (pos n) (fields a) _ (atoi-itoa n (omega arith))))

write_endpoint-weight :
    (custom : Dict (List Text)) (be_name : Text) (check : Option HealthCheck) (sticky : Bool)
    (ep : Endpoint)
    → writes_weight ep.weight ≡ true
    → (desired_endpoint (write_endpoint custom be_name check sticky ep)).weight ≡ ep.weight
unfolding write_endpoint
write_endpoint-weight custom be_name check sticky ep h =
    let own = conf_to_string (values (server_key be_name) custom) false false in
    let c = endpoint_check check in
    let r = resolver ep.is_cname (is_some check) in
    let k = endpoint_cookie sticky ep.name in
    let w = endpoint_weight ep.weight in
    let all : own ++ (c ++ (r ++ (k ++ w))) ≡ (own ++ (c ++ (r ++ k))) ++ w = sym (
      rw (append_assoc own (c ++ (r ++ k)) w, append_assoc c (r ++ k) w, append_assoc r k w)
        refl) in
    rw all (written_weight ep (own ++ (c ++ (r ++ k))) h)

-- The weight of an endpoint is the one that its text is read as having, unless it is not written.
unfoldable pub is_weighed : Endpoint → Bool
unfolding writes_weight int_eq desired_endpoint
is_weighed ep = not (writes_weight ep.weight) || int_eq (desired_endpoint ep).weight ep.weight

unfoldable pub is_weighed_frontend : FrontendService → Bool
unfolding all is_weighed
is_weighed_frontend fe =
    all (λ (be : BackendService). all is_weighed be.endpoints) fe.backend_services

write_endpoint-is_weighed :
    (custom : Dict (List Text)) (be_name : Text) (check : Option HealthCheck) (sticky : Bool)
    (ep : Endpoint)
    → is_weighed (write_endpoint custom be_name check sticky ep) ≡ true
unfolding is_weighed
write_endpoint-is_weighed custom be_name check sticky ep =
    elim (Bool-cases (writes_weight ep.weight)) [
      | inl e ↦
          rw (write_endpoint-weight custom be_name check sticky ep e)
            (unfold write_endpoint in rw (e, int_eq_refl ep.weight) refl)
      | inr e ↦ unfold write_endpoint in rw e refl
    ]

all-map {ℓ κ} :
    {A : Type ℓ} {B : Type κ} (p : B → Bool) (f : A → B) (xs : List A)
    → ((x : A) → p (f x) ≡ true)
    → all p (map f xs) ≡ true
unfolding all
all-map p f [] h = refl
all-map p f (x ∷ xs) h = rw (h x) (all-map p f xs h)

write_backends-is_weighed :
    (custom : Dict (List Text)) (bes : List BackendService) (policy : Option StickinessPolicy)
    → all
        (λ (be : BackendService). all is_weighed be.endpoints)
        (write_backends custom policy bes).1
      ≡ true
unfolding all write_backends write_backend
write_backends-is_weighed custom [] policy = refl
write_backends-is_weighed custom (be ∷ bes) policy =
    let policy' = name_cookie be.uuid policy in
    rw
      (all-map is_weighed
        (write_endpoint custom (backend_name be.uuid) (checked be) (is_some policy')) be.endpoints
        (write_endpoint-is_weighed custom (backend_name be.uuid) (checked be) (is_some policy')))
      (write_backends-is_weighed custom bes policy')

write_frontends-is_weighed :
    (custom : Dict (List Text)) (fes : List FrontendService) (policy : Option StickinessPolicy)
    → all is_weighed_frontend (write_frontends custom policy fes).1 ≡ true
unfolding all write_frontends write_frontend is_weighed_frontend
write_frontends-is_weighed custom [] policy = refl
write_frontends-is_weighed custom (fe ∷ fes) policy =
    rw (write_backends-is_weighed custom fe.backend_services _)
      (write_frontends-is_weighed custom fes _)

-- In the configuration that `BuildCustomConfig` makes, whatever the custom text, every endpoint
-- whose weight is from 0 to 256 and not 1 has a text that the drain manager reads as wanting
-- exactly that weight, also behind a custom server template, a name or a template that has the
-- word `weight` in it.
pub build_custom_config-is_weighed :
    (cfg : LoadBalancerConfig) (text : Text)
    → all is_weighed_frontend (build_custom_config cfg text).frontend_services ≡ true
unfolding build_custom_config
build_custom_config-is_weighed cfg text =
    write_frontends-is_weighed (add_defaults (parse text)) cfg.frontend_services
      cfg.stickiness_policy
