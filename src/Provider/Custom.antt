-- ===== src/Provider/Custom.antt =====
-- The custom configuration (provider/haproxy/haproxy_config_util.go): `BuildCustomConfig`.
pub mod Defaults
pub mod Parse
pub mod Write
pub mod Weight
pub mod Kept
pub mod Cookies
pub mod Sections
use load_balancer_controller.Base.{
  Bool, true, false, not, ◌&&◌, ◌||◌, Option, some, none, List, [], ◌∷◌, ◌++◌, if◌then◌else◌,
  is_empty, map, keep, any, is_some,
}
use load_balancer_controller.Base.Text.{Text, codes, text_eq, equal_fold, has_prefix, has_suffix}
use load_balancer_controller.Base.Dict.{Dict, lookup}
use load_balancer_controller.Config.{FrontendService, LoadBalancerConfig, StickinessPolicy}
use load_balancer_controller.Controller.Sorting.{sort}
use load_balancer_controller.Provider.Custom.Defaults.{
  text_less, conf_to_string, get_default_config,
}
use load_balancer_controller.Provider.Custom.Parse.{Parsed, parse, add_defaults, values, blank}
use load_balancer_controller.Provider.Custom.Write.{write_frontends, processed_names}

-- A section that no frontend or backend took, and that is not one of the three with defaults.
is_extra : List Text → Text → Bool
unfolding equal_fold text_eq any has_prefix has_suffix
is_extra processed k =
    not (
      equal_fold k (codes "global")
      || equal_fold k (codes "backend")
      || equal_fold k (codes "defaults"))
    && not (any (text_eq k) processed)
    && not (has_prefix k (codes "backend") && has_suffix k (codes "_$IP"))

extra_of : Dict (List Text) → List Text → Text
unfolding values conf_to_string
extra_of custom [] = []
extra_of custom (k ∷ ks) =
    k ++ (10 ∷ (conf_to_string (values k custom) false true ++ (10 ∷ extra_of custom ks)))

unfoldable pub extra_config : Dict (List Text) → List Text → Text
unfolding extra_of is_extra sort text_less keep
extra_config custom processed =
    extra_of custom
      (keep (is_extra processed) (sort text_less (map (λ (e : Text × List Text). e.0) custom)))

-- The text of the two sections, with the rest behind it.
global_text : Dict (List Text) → Text → Text
unfolding values conf_to_string
global_text custom extra =
    let text =
      codes "global\n"
      ++ (conf_to_string (values (codes "global") custom) false true
          ++ (codes "\n\ndefaults\n"
              ++ conf_to_string (values (codes "defaults") custom) false true)) in
    if is_empty extra then text else text ++ (codes "\n\n" ++ extra)

-- The writes to the frontends, and to the policy that they share, are in place.
fill :
    Dict (List Text)
    → LoadBalancerConfig
    → Option StickinessPolicy × List FrontendService
    → LoadBalancerConfig
unfolding global_text extra_config processed_names
fill custom cfg (policy, fes) = record cfg {
  frontend_services = fes;
  config = global_text custom (extra_config custom (processed_names cfg.frontend_services));
  stickiness_policy = policy;
}

unfoldable pub build_custom_config : LoadBalancerConfig → Text → LoadBalancerConfig
unfolding fill parse add_defaults write_frontends get_default_config
build_custom_config cfg text =
    let custom = add_defaults (parse text) in
    fill custom cfg (write_frontends custom cfg.stickiness_policy cfg.frontend_services)
