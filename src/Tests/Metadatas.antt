-- ===== src/Tests/Metadatas.antt =====
-- The metadata client against a service that is slow to start, and that redirects once.
use load_balancer_controller.Base.{
  ℕ, Bool, true, false, some, List, [], ◌∷◌, ◌≡◌, refl, if◌then◌else◌, is_empty, is_some, length,
  none, ◌≤◌, all, ltb,
}
use load_balancer_controller.Base.Text.{Text, codes, text_eq}
use load_balancer_controller.Base.Outcome.{Outcome, ok, err}
use load_balancer_controller.Metadata.Client.{
  ClientFailure, Location, HttpClient, Reply, answer, redirect, send_request, endpoint,
}
use load_balancer_controller.Metadata.{unreachable}
use load_balancer_controller.Metadata.Accessors.{Json, path_of, path_escape, http_metadata}
use load_balancer_controller.Metadata.Accessors.Escapes.{unescape, is_bytes}
use load_balancer_controller.Metadata.Accessors.Services.{endpoint-service}
use load_balancer_controller.Metadata.Confined.{is_at, send_request-confined}
use load_balancer_controller.Metadata.Waiting.{wait_for_connection, ready, wait_for_connection-ends}

abbrev at : Text → Text → Location
at host path = record {
  scheme = if is_empty host then [] else codes "http";
  host = host;
  has_user = false;
  path = path;
  escaped = path;
  raw_query = [];
  fragment = [];
}

-- Every text is a path.
abbrev path_parse : Text → Outcome ClientFailure Location
path_parse path = ok (at [] path)

abbrev client : HttpClient
client = record { base_url = at (codes "m") (codes "/2016"); forwarded_for = [] }

abbrev service : Location → Outcome ClientFailure Reply
unfolding text_eq
service l =
    if text_eq l.path (codes "/2016/old")
    then ok (redirect (at (codes "M") (codes "/new")))
    else ok (answer 200 (codes "x"))

abbrev no_address : Text → Bool
no_address s = false

send_request-confined_example :
    let out = send_request path_parse no_address service client (codes "/old") in
    (all (is_at client.base_url) out.0 ≡ true) × (length out.0 ≤ 5) × (is_some out.1 ≡ true)
unfolding service
send_request-confined_example =
    send_request-confined path_parse no_address service client (codes "/old")

redirect_followed : length (send_request path_parse no_address service client (codes "/old")).0 ≡ 2
unfolding service send_request endpoint
redirect_followed = refl

-- A path that goes up in two spellings: one is refused, the other is not.
up_refused :
    endpoint path_parse no_address client (codes "/a/%2e%2E/b") ≡ err ClientFailure.traversal
unfolding endpoint
up_refused = refl

up_passed :
    endpoint path_parse no_address client (codes "/a/.%2e/b")
    ≡ ok (record (client.base_url) { path = codes "/2016/a/.%2e/b"; escaped = []; raw_query = [] })
unfolding endpoint
up_passed = refl

abbrev late : ℕ → Bool
late n = ltb 2 n

abbrev at_once : ℕ → ℕ
at_once n = 0

wait_for_connection-ends_example : is_some (wait_for_connection late at_once 7 0 1 0) ≡ true
wait_for_connection-ends_example = wait_for_connection-ends late at_once

-- The fourth call is answered.
fourth_call : wait_for_connection late at_once 7 0 1 0 ≡ some (ready, 4)
unfolding wait_for_connection
fourth_call = refl

abbrev answers : List (Outcome ℕ Text)
answers = ok (codes "init") ∷ ok (codes "1") ∷ ok (codes "1") ∷ ok (codes "2") ∷ err 0 ∷ []

-- A stack named `a/..` and a service named `b c`, and what `url.Parse` makes of their path.
abbrev odd_path : Text
odd_path = codes "/stacks/a%2F../services/b%20c"

abbrev odd_reference : Location
odd_reference = record (at [] odd_path) { path = codes "/stacks/a/../services/b c" }

abbrev odd_parse : Text → Outcome ClientFailure Location
odd_parse path = ok odd_reference

endpoint-service_example :
    endpoint odd_parse no_address client odd_path
    ≡ ok (record (client.base_url) {
      path = codes "/2016/stacks/a/../services/b c";
      escaped = [];
      raw_query = [];
    })
unfolding path_of unescape is_bytes path_escape text_eq
endpoint-service_example =
    endpoint-service odd_parse no_address client (codes "a/..") (codes "b c")
      {reference = odd_reference} refl refl refl refl refl refl refl

-- The metadata over HTTP: the answer of a service that has a plain body.
abbrev text_json : Json
text_json = record {
  text = λ t. some t;
  host = λ t. none;
  service = λ t. none;
  service_list = λ t. none;
  environment_list = λ t. none;
  container_list = λ t. none;
  host_list = λ t. none;
}

region_answered :
    (http_metadata text_json path_parse no_address service client).region_name ≡ ok (codes "x")
unfolding http_metadata service
region_answered = refl

host_failed :
    (http_metadata text_json path_parse no_address service client).self_host ≡ err unreachable
unfolding http_metadata service
host_failed = refl
