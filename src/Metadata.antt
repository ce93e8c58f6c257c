-- ===== src/Metadata.antt =====
-- The metadata service (internal/metadata/types.go, internal/metadata/client.go): the fields that
-- the controller reads, the answers of the service as a parameter, and the client's lookups.
pub mod Client
pub mod Waiting
pub mod Accessors
pub mod Confined
use load_balancer_controller.Base.{
  Bool, ◌&&◌, Option, some, none, List, [], ◌∷◌, if◌then◌else◌, keep,
}
use load_balancer_controller.Base.Text.{Text, ℤ, text_eq, equal_fold}
use load_balancer_controller.Base.Dict.{Dict}
use load_balancer_controller.Base.Outcome.{Outcome, ok, err, ◌>>=◌}

pub record HealthCheck : Type 0 where
  pub healthy_threshold : ℤ
  pub interval : ℤ
  pub port : ℤ
  pub request_line : Text
  pub response_timeout : ℤ
  pub unhealthy_threshold : ℤ

pub record PortRule : Type 0 where
  pub backend_name : Text
  pub hostname : Text
  pub path : Text
  pub priority : ℤ
  pub protocol : Text
  pub selector : Text
  pub service : Text
  pub source_port : ℤ
  pub target_port : ℤ
  pub container : Text
  pub region : Text
  pub environment : Text
  pub weight : ℤ

pub record LbStickinessPolicy : Type 0 where
  pub cookie : Text
  pub domain : Text
  pub indirect : Bool
  pub mode : Text
  pub name : Text
  pub nocache : Bool
  pub postonly : Bool

pub record LbConfig : Type 0 where
  pub certs : List Text
  pub config : Text
  pub default_cert : Text
  pub port_rules : List PortRule
  pub stickiness_policy : LbStickinessPolicy

pub record Container : Type 0 where
  pub environment_uuid : Text
  pub health_check : HealthCheck
  pub host_uuid : Text
  pub name : Text
  pub primary_ip : Text
  pub service_name : Text
  pub stack_name : Text
  pub state : Text

pub record Service : Type 0 where
  pub containers : List Container
  pub environment_uuid : Text
  pub external_ips : List Text
  pub health_check : HealthCheck
  pub hostname : Text
  pub kind : Text
  pub labels : Dict Text
  pub lb_config : LbConfig
  pub links : Dict Text
  pub name : Text
  pub stack_name : Text
  pub state : Text

pub record Host : Type 0 where
  pub uuid : Text

pub record Environment : Type 0 where
  pub name : Text
  pub region_name : Text
  pub services : List Service
  pub uuid : Text

-- What can go wrong: an error, or a panic of the runtime.
pub data Failure : Type 0 where
  unreachable : Failure
  not_found : Failure
  invalid_label : Text → Failure
  panic : Failure

-- The answers that `decode` gets.
pub record Metadata : Type 0 where
  pub region_name : Outcome Failure Text
  pub self_host : Outcome Failure Host
  pub self_service : Outcome Failure Service
  pub services : Outcome Failure (List Service)
  pub environments : Outcome Failure (List Environment)
  pub containers : Outcome Failure (List Container)
  pub hosts : Outcome Failure (List Host)
  -- `/stacks/<stack>/services/<service>`
  pub stack_service : Text → Text → Outcome Failure Service

-- The first element that passes a test, as the loops with a return in them find it.
unfoldable pub first {ℓ} : {A : Type ℓ} → (A → Bool) → List A → Option A
first p [] = none
first p (x ∷ xs) = if p x then some x else first p xs

unfoldable pub is_service : Text → Text → Service → Bool
unfolding text_eq
is_service stack name s = text_eq s.stack_name stack && text_eq s.name name

-- A region and an environment are found without regard to case.
unfoldable pub is_environment : Text → Text → Environment → Bool
unfolding equal_fold
is_environment region env e = equal_fold region e.region_name && equal_fold env e.name

-- The nested loops of `GetServiceFromRegionEnvironment`.
find_service : Text → Text → Text → Text → List Environment → Outcome Failure Service
unfolding first is_service is_environment
find_service region env stack name [] = err not_found
find_service region env stack name (e ∷ es) =
    let rest = find_service region env stack name es in
    if is_environment region env e
    then elim (first (is_service stack name) e.services) [ none ↦ rest | some s ↦ ok s ]
    else rest

unfoldable pub get_service_from_region_environment :
    Metadata → Text → Text → Text → Text → Outcome Failure Service
unfolding find_service
get_service_from_region_environment md region env stack name =
    md.environments >>= λ es. find_service region env stack name es

unfoldable pub get_service_in_local_region : Metadata → Text → Text → Text → Outcome Failure Service
unfolding get_service_from_region_environment
get_service_in_local_region md env stack name =
    md.region_name >>= λ region. get_service_from_region_environment md region env stack name

services_of : Option Environment → List Service
services_of none = []
services_of (some e) = e.services

unfoldable pub get_services_from_region_environment :
    Metadata → Text → Text → Outcome Failure (List Service)
unfolding services_of first is_environment
get_services_from_region_environment md region env =
    md.environments >>= λ es. ok (services_of (first (is_environment region env) es))

unfoldable pub get_services_in_local_region : Metadata → Text → Outcome Failure (List Service)
unfolding get_services_from_region_environment
get_services_in_local_region md env =
    md.region_name >>= λ region. get_services_from_region_environment md region env

unfoldable pub get_services_by_environment_uuid : Metadata → Text → Outcome Failure (List Service)
unfolding services_of first text_eq
get_services_by_environment_uuid md uuid =
    md.environments >>= λ es. ok (services_of (first (λ e. text_eq e.uuid uuid) es))

unfoldable pub get_service_containers : Metadata → Text → Text → Outcome Failure (List Container)
unfolding keep text_eq
get_service_containers md name stack = md.containers >>= λ cs.
    ok (keep (λ c. text_eq c.service_name name && text_eq c.stack_name stack) cs)

host_or_not : Option Host → Outcome Failure Host
host_or_not none = err not_found
host_or_not (some h) = ok h

unfoldable pub get_host : Metadata → Text → Outcome Failure Host
unfolding host_or_not first text_eq
get_host md uuid = md.hosts >>= λ hs. host_or_not (first (λ h. text_eq h.uuid uuid) hs)
