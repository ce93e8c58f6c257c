-- ===== src/Controller/Build/Merged.antt =====
-- The backends that `BuildConfigFromMetadata` merges rules into: addresses and weights.
use load_balancer_controller.Base.{
  Bool, true, not, ◌||◌, Option, some, none, List, [], ◌∷◌, ◌++◌, ◌≡◌, refl, sym, ◌∙◌, is_some,
  Bool-cases, inl, inr, arith, any, all, any-append, all-append, map,
}
use load_balancer_controller.Base.Text.{Text, text_eq, ℤ, pos, int_eq}
use load_balancer_controller.Base.Dict.{Dict, lookup, insert, lookup-insert}
use load_balancer_controller.Config
use load_balancer_controller.Config.{Endpoint, BackendService}
use load_balancer_controller.Metadata.{PortRule}
use load_balancer_controller.Controller.Endpoints.Weights.{unweighed}
use load_balancer_controller.Controller.Build.{
  Match, Tables, Frontend, weigh, ips_of, merge_endpoints, seen_or_new, new_backend, merge_rule,
  create_rule, store_rule, add_rule, match_of, path_uuid,
}

abbrev pub has_ip : Text → List Endpoint → Bool
has_ip ip = any (λ ep. text_eq ep.ip ip)

-- A stopping endpoint has the weight zero.
abbrev pub zeroed : Endpoint → Bool
zeroed ep = not ep.stopping || int_eq ep.weight (pos 0)

-- The addresses that are remembered are those of the endpoints, and stopping ones are at zero.
pub record Tracked (seen : Dict Text) (eps : List Endpoint) : Type 0 where
  pub addresses : (ip : Text) → is_some (lookup ip seen) ≡ has_ip ip eps
  pub zero_weights : all zeroed eps ≡ true

weigh-zeroed : (w : ℤ) (ep : Endpoint) → unweighed ep ≡ true → zeroed (weigh w ep) ≡ true
unfolding weigh
weigh-zeroed w ep h = ground arith

weigh-ip : (w : ℤ) (ep : Endpoint) → (weigh w ep).ip ≡ ep.ip
unfolding weigh
weigh-ip w ep = ground arith

merge_endpoints-Tracked :
    (w : ℤ) (eps : List Endpoint) (seen : Dict Text) (there : List Endpoint)
    → all unweighed eps ≡ true
    → Tracked seen there
    → Tracked (merge_endpoints w eps (seen, there)).0 (merge_endpoints w eps (seen, there)).1
unfolding merge_endpoints all any
merge_endpoints-Tracked w [] seen there h t = t
merge_endpoints-Tracked w (ep ∷ eps) seen there h t =
    elim (Bool-cases (is_some (lookup ep.ip seen))) [
      | inl e ↦ rw (merge_endpoints, e) (merge_endpoints-Tracked w eps seen there (ground arith) t)
      | inr e ↦
          rw (merge_endpoints, e)
            (merge_endpoints-Tracked w eps (insert ep.ip ep.ip seen) (there ++ weigh w ep ∷ [])
              (ground arith)
              (record {
                addresses = λ ip. ground (
                  arith,
                  lookup-insert ep.ip ip ep.ip seen,
                  t.addresses ip,
                  any-append (λ (x : Endpoint). text_eq x.ip ip) there (weigh w ep ∷ []),
                  weigh-ip w ep,
                );
                zero_weights =
                    all-append zeroed there (weigh w ep ∷ [])
                    ∙ ground (arith, t.zero_weights, weigh-zeroed w ep);
              }))
    ]

ips_of-addresses :
    (m : Dict Text) (eps : List Endpoint) (ip : Text)
    → is_some (lookup ip (ips_of m eps)) ≡ is_some (lookup ip m) || has_ip ip eps
unfolding any ips_of
ips_of-addresses m [] ip = ground arith
ips_of-addresses m (ep ∷ eps) ip =
    ips_of-addresses (insert ep.ip ep.ip m) eps ip ∙ ground (arith, lookup-insert ep.ip ip ep.ip m)

weigh-has_ip :
    (w : ℤ) (eps : List Endpoint) (ip : Text) → has_ip ip (map (weigh w) eps) ≡ has_ip ip eps
unfolding any
weigh-has_ip w [] ip = refl
weigh-has_ip w (ep ∷ eps) ip = rw (weigh-ip w ep, weigh-has_ip w eps ip)

weigh-all-zeroed :
    (w : ℤ) (eps : List Endpoint) → all unweighed eps ≡ true → all zeroed (map (weigh w) eps) ≡ true
unfolding all
weigh-all-zeroed w [] h = refl
weigh-all-zeroed w (ep ∷ eps) h = ground (arith, weigh-zeroed w ep, weigh-all-zeroed w eps)

-- A backend has its addresses, and they are those of its endpoints.
abbrev pub Entry : Option BackendService → Option (Dict Text) → Type 0
Entry none o = Unit
Entry (some be) o = (seen : Dict Text) × (o ≡ some seen) × Tracked seen be.endpoints

abbrev pub IsMerged : Tables → Type 0
IsMerged t = (key : Text) → Entry (lookup key t.all_be) (lookup key t.all_eps)

put_IsMerged :
    (t : Tables) (fs : Dict Frontend) (key : Text) (be : BackendService) (seen : Dict Text)
    → Tracked seen be.endpoints
    → IsMerged t
    → IsMerged (record {
      frontends = fs;
      all_be = insert key be t.all_be;
      all_eps = insert key seen t.all_eps;
    })
put_IsMerged t fs key be seen new old k =
    rw (lookup-insert, lookup-insert)
      (elim (Bool-cases (text_eq key k)) [ inl e ↦ rw e (seen, refl, new) | inr e ↦ rw e (old k) ])

seen_or_new-Tracked :
    (o : Option (Dict Text)) {seen : Dict Text} (eps : List Endpoint)
    → o ≡ some seen
    → Tracked seen eps
    → Tracked (seen_or_new o) eps
unfolding seen_or_new
seen_or_new-Tracked o eps e t = rw e t

store_rule-IsMerged :
    (rule : PortRule) (key : Text) (m : Match) (eps : List Endpoint)
    (hc : Option Config.HealthCheck) (o : Option BackendService) (t : Tables)
    → all unweighed eps ≡ true
    → lookup key t.all_be ≡ o
    → IsMerged t
    → IsMerged (store_rule rule key m eps hc o t).0
unfolding store_rule merge_rule create_rule new_backend
store_rule-IsMerged rule key m eps hc none t h q c =
    put_IsMerged t t.frontends key (new_backend rule m eps hc) (ips_of [] eps)
      (record {
        addresses = λ ip.
            ips_of-addresses [] eps ip ∙ (unfold lookup in sym (weigh-has_ip rule.weight eps ip));
        zero_weights = weigh-all-zeroed rule.weight eps h;
      })
      c
store_rule-IsMerged rule key m eps hc (some be) t h q c =
    let (seen, found, tracked) = rw q at (c key) in
    let old = seen_or_new (lookup key t.all_eps) in
    let r = merge_endpoints rule.weight eps (old, be.endpoints) in
    put_IsMerged t t.frontends key (record be { endpoints = r.1 }) r.0
      (merge_endpoints-Tracked rule.weight eps old be.endpoints h
        (seen_or_new-Tracked (lookup key t.all_eps) be.endpoints found tracked))
      c

-- The loop's tables stay merged by a rule whose endpoints have no weight yet.
pub add_rule-IsMerged :
    (rule : PortRule) (eps : List Endpoint) (hc : Option Config.HealthCheck) (t : Tables)
    → all unweighed eps ≡ true
    → IsMerged t
    → IsMerged (add_rule rule eps hc t)
unfolding add_rule
add_rule-IsMerged rule eps hc t h c =
    let m = match_of rule in
    let key = path_uuid rule.source_port m.hostname m.path in
    store_rule-IsMerged rule key m eps hc (lookup key t.all_be) t h refl c
