-- ===== src/Metadata/Accessors.antt =====
-- The accessors of internal/metadata/client.go: `decode`, the path that each of them asks for, and
-- the metadata as a client gets it. JSON is a parameter.
pub mod Escapes
pub mod Services
use load_balancer_controller.Base.{
  ℕ, Bool, true, false, ◌||◌, ◌&&◌, ◌==◌, leb, Option, some, none, List, [], ◌∷◌, ◌++◌, ◌≡◌, refl,
  sym, ap, ◌∙◌, if◌then◌else◌, ◌/◌, ◌%◌, ◌+◌, ◌*◌, ◌-◌, ◌<◌, any, ltb, is_empty, arith, inl, inr,
  Bool-cases,
}
use load_balancer_controller.Base.Text.{
  Text, codes, text_eq, equal_fold, to_lower, to_lower_byte, has_prefix, split_byte, contains_byte,
  split_byte-whole, more_pieces,
}
use load_balancer_controller.Base.Outcome.{Outcome, ok, err, ◌>>=◌}
use mathlib.Core.List.{append-nil}
use load_balancer_controller.Metadata.{
  Metadata, Failure, unreachable, Host, Service, Environment, Container,
}
use load_balancer_controller.Metadata.Client.{
  ClientFailure, Location, HttpClient, Reply, send_request, invalid_path, traversal, is_up,
  endpoint, target_of, reference_of,
}

abbrev pub is_alphanumeric : ℕ → Bool
is_alphanumeric c =
    (leb b'a' c && leb c b'z') || (leb b'A' c && leb c b'Z') || (leb b'0' c && leb c b'9')

-- The other bytes that `url.PathEscape` leaves alone.
abbrev pub plain_marks : Text
plain_marks = codes "-_.~$&+:=@"

-- `shouldEscape` of a path segment, the other way round.
unfoldable pub is_kept : ℕ → Bool
unfolding any
is_kept c = is_alphanumeric c || any (λ m. m == c) plain_marks

abbrev pub hex_digit : ℕ → ℕ
hex_digit n = if leb n 9 then 48 + n else 55 + n

-- `url.PathEscape`
unfoldable pub path_escape : Text → Text
unfolding is_kept
path_escape [] = []
path_escape (c ∷ s) =
    let rest = path_escape s in
    if is_kept c then c ∷ rest else b'%' ∷ hex_digit (c / 16) ∷ hex_digit (c % 16) ∷ rest

-- What an accessor asks for.
pub data Lookup : Type 0 where
  version : Lookup
  name : Lookup
  region_name : Lookup
  self_host : Lookup
  self_container : Lookup
  self_service_by_name : Text → Lookup
  self_service : Lookup
  self_stack : Lookup
  service_in_local_environment : Text → Text → Lookup
  services : Lookup
  stacks : Lookup
  environments : Lookup
  stack_by_name : Text → Lookup
  containers : Lookup
  hosts : Lookup
  networks : Lookup

unfoldable pub path_of : Lookup → Text
unfolding path_escape
path_of version = codes "/version"
path_of name = codes "/name"
path_of region_name = codes "/region_name"
path_of self_host = codes "/self/host"
path_of self_container = codes "/self/container"
path_of (self_service_by_name n) = codes "/self/stack/services/" ++ path_escape n
path_of self_service = codes "/self/service"
path_of self_stack = codes "/self/stack"
path_of (service_in_local_environment s n) =
    codes "/stacks/" ++ (path_escape s ++ (codes "/services/" ++ path_escape n))
path_of services = codes "/services"
path_of stacks = codes "/stacks"
path_of environments = codes "/environments"
path_of (stack_by_name n) = codes "/stacks/" ++ path_escape n
path_of containers = codes "/containers"
path_of hosts = codes "/hosts"
path_of networks = codes "/networks"

-- `SendRequest` gives `send`, and `json.Unmarshal` is `read`. A request that failed and a body that
-- is not valid JSON are both an error.
unfoldable pub decode {ℓ} :
    {A : Type ℓ} → (Text → Outcome Failure Text) → (Text → Option A) → Lookup → Outcome Failure A
unfolding path_of
decode send read lookup =
    send (path_of lookup) >>= λ body. elim (read body) [ none ↦ err unreachable | some a ↦ ok a ]

-- `json.Unmarshal` into the types that the controller reads.
pub record Json : Type 0 where
  pub text : Text → Option Text
  pub host : Text → Option Host
  pub service : Text → Option Service
  pub service_list : Text → Option (List Service)
  pub environment_list : Text → Option (List Environment)
  pub container_list : Text → Option (List Container)
  pub host_list : Text → Option (List Host)

-- The metadata that a client gives the controller.
unfoldable pub connected : Json → (Text → Outcome Failure Text) → Metadata
unfolding decode
connected json send = record {
  region_name = decode send json.text region_name;
  self_host = decode send json.host self_host;
  self_service = decode send json.service self_service;
  services = decode send json.service_list services;
  environments = decode send json.environment_list environments;
  containers = decode send json.container_list containers;
  hosts = decode send json.host_list hosts;
  stack_service = λ stack n. decode send json.service (service_in_local_environment stack n);
}

-- What a request comes to; `none` does not occur, since the requests come to an end.
answer_of : Option (Outcome ClientFailure Text) → Outcome Failure Text
answer_of (some (ok body)) = ok body
answer_of _ = err unreachable

-- The metadata over HTTP.
unfoldable pub http_metadata :
    Json
    → (Text → Outcome ClientFailure Location)
    → (Text → Bool)
    → (Location → Outcome ClientFailure Reply)
    → HttpClient
    → Metadata
unfolding connected answer_of send_request
http_metadata json parse is_ip net client =
    connected json (λ path. answer_of ((send_request parse is_ip net client path).1))
